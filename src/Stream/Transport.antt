-- ===== src/Stream/Transport.antt =====
-- What src/dousi/core/stream/stream.cc relies on of boost::asio::async_read, and a transport that
-- meets it.
mod Defs
mod Closing
pub use Defs.*
pub use Closing.{closing}
