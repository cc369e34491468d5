-- ===== src/Tests.antt =====
-- Runs of the code at concrete inputs.
pub mod Bytes
pub mod Crates
pub mod Proto
pub mod Signature
pub mod Flow
pub mod Slab
pub mod Keys
pub mod Network
pub mod Control
pub mod Channel
pub mod Clients
