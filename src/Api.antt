-- ===== src/Api.antt =====
-- crates/simchain-common/src/internal_api.rs: the messages between the control plane and the
-- mining and spam workers. Only the fields that a worker's control reads or writes are kept.
use simchain.Base.{ℕ, Bool, true, false, String}

pub data DesiredState : Type 0 where
  running paused : DesiredState

pub data WorkerPhase : Type 0 where
  bootstrapping initializing running active pausing paused reconciling disabled error : WorkerPhase

pub record PauseLease : Type 0 where
  pub lease_id : String
  pub owner_job_id : String
  pub purpose : String
  pub expires_at_ms : ℕ

pub record LeaseRequest : Type 0 where
  pub lease_id : String
  pub owner_job_id : String
  pub purpose : String
  pub ttl_secs : ℕ
  pub request_id : String

pub record LeaseRenewRequest : Type 0 where
  pub ttl_secs : ℕ
  pub request_id : String

pub record LeaseReleaseRequest : Type 0 where
  pub chain_changed : Bool
  pub request_id : String

pub record SetStateRequest : Type 0 where
  pub state : DesiredState
  pub request_id : String

-- `SetMiningPolicyRequest` and `SetSpamPolicyRequest`, over the type of the policy
pub record SetPolicyRequest (P : Type 0) : Type 0 where
  pub generation : ℕ
  pub policy : P
  pub request_id : String
  pub rollback : Bool

pub record CommandAck : Type 0 where
  pub request_id : String
  pub phase : WorkerPhase
  pub effective_generation : ℕ

pub record LastMinedBlock : Type 0 where
  pub height : ℕ
  pub hash : String
  pub miner : String
  pub mined_at_ms : ℕ

abbrev pub is_paused_state : DesiredState → Bool
is_paused_state DesiredState.paused = true
is_paused_state _ = false

abbrev pub is_paused_phase : WorkerPhase → Bool
is_paused_phase WorkerPhase.paused = true
is_paused_phase _ = false
