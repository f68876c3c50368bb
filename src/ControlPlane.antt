-- ===== src/ControlPlane.antt =====
-- crates/control-plane: the service that takes requests, runs jobs and steers the workers.
pub mod Apply
pub mod Faucet
pub mod Jobs
pub mod Manager
pub mod Reconcile
pub mod Rewind
