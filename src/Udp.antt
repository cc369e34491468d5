-- ===== src/Udp.antt =====
-- UDP traffic: the footer that carries a flow behind each packet (packages/agent_proto/src/udp_proto.rs).
pub mod Flow
pub mod Channel
pub mod Pool
pub mod Clients
