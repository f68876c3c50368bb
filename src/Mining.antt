-- ===== src/Mining.antt =====
-- crates/mining-controller: the resident block producer.
pub mod Rng
pub mod ChainView
pub mod Bootstrap
pub mod Control
