-- ===== src/Client.antt =====
-- src/client/: the channels.
pub mod Async
pub mod Channel
pub mod Blocking
