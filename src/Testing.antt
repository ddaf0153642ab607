-- ===== src/Testing.antt =====
-- src/tests/test_utils: the services of basic_services.h, and the server of basic_server_for_test.cc.
pub mod Services
pub mod Server
pub mod Blocks
pub mod Dangling
mod Tests
