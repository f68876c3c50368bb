-- ===== src/Network.antt =====
-- crates/network-agent: the agent beside a node that impairs the node's peer-to-peer interface.
pub mod Impairment
pub mod Control
pub mod System
