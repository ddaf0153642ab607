-- ===== src/Rpc/Concurrent.antt =====
-- Many calls at once: whatever the threads of the server do, and whatever other calls of this client and
-- of others are on their way, as in src/tests/multiple_calls_with_no_wait.cc.
pub mod Calls
pub mod Answers
pub mod Get
mod Tests
