-- ===== src/Examples.antt =====
-- src/examples: the services of services.h, and the programs server.cc and client.cc.
pub mod Services
pub mod Sample
pub mod Server
pub mod Client
mod Tests
