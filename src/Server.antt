-- ===== src/Server.antt =====
-- src/server/: the servers.
pub mod Registry
pub mod Simple
pub mod Async
pub mod Threaded
pub mod Sample
