-- ===== src/Protob.antt =====
-- src/protob/: the messages Request and Response that stand in front of the parameters of a call.
pub mod Wire
pub mod Status
pub mod Request
pub mod Response
pub mod Codec
pub mod Sample
mod Examples
