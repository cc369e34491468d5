-- ===== src/Proto.antt =====
-- packages/agent_proto: the binary messages between the agent and the tunnel servers.
pub mod Raw
pub mod Wire
pub mod Ids
pub mod Register
pub mod Request
pub mod Response
pub mod Feed
