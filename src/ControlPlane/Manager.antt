-- ===== src/ControlPlane/Manager.antt =====
-- crates/control-plane/src/jobs.rs: the state of the job manager, and its tests on the lanes. A stored
-- job keeps what the operations below read or write: its request is the fingerprint only.
pub mod Operations
pub mod Lanes
pub mod History
pub mod Starting
pub mod Ending
pub mod Serving
pub mod Stuck
pub mod Tests
use simchain.Base.{
  ℕ, zero, suc, ◌+◌, Bool, true, false, not, ◌&&◌, String, String-eq, Option, none, some, List, [],
  ◌∷◌, ◌++◌, ltb, nat_eq, if◌then◌else◌, ◌==◌, is_some,
}
use simchain.Base.Table.{lookup, insert, retain}

pub data JobKind : Type 0 where
  faucet reorg rewind scenario partition degrade mine spam_prepare spam_burst : JobKind

pub data JobState : Type 0 where
  starting running waiting_at_checkpoint abort_requested : JobState
  succeeded failed aborted interrupted : JobState

pub data CleanupState : Type 0 where
  cleanup_not_started cleanup_running cleanup_succeeded cleanup_failed : CleanupState

pub record StoredJob : Type 0 where
  pub id : String
  pub kind : JobKind
  pub state : JobState
  pub phase : String
  pub created_at_ms : ℕ
  pub started_at_ms : Option ℕ
  pub ended_at_ms : Option ℕ
  pub cleanup : CleanupState
  pub failure : Option String
  pub idempotency_key : Option String
  pub request_fingerprint : String

pub record ManagerState : Type 0 where
  pub jobs : List StoredJob
  pub active_job_id : Option String
  pub active_degradation_jobs : List (String × String)
  pub aborts : List (String × Bool)
  pub delivery_recovering : Bool

pub data JobManagerError : Type 0 where
  validation_failed job_not_found faucet_delivery_pending internal : JobManagerError
  operation_in_progress : (job_id : String) → JobManagerError

abbrev pub max_job_history : ℕ
max_job_history = 100

abbrev pub is_terminal : JobState → Bool
is_terminal succeeded = true
is_terminal failed = true
is_terminal aborted = true
is_terminal interrupted = true
is_terminal _ = false

abbrev kind_number : JobKind → ℕ
kind_number faucet = 0
kind_number reorg = 1
kind_number rewind = 2
kind_number scenario = 3
kind_number partition = 4
kind_number degrade = 5
kind_number mine = 6
kind_number spam_prepare = 7
kind_number spam_burst = 8

abbrev pub same_kind : JobKind → JobKind → Bool
same_kind a b = nat_eq (kind_number a) (kind_number b)

unfoldable pub find_stored : String → List StoredJob → Option StoredJob
find_stored id [] = none
find_stored id (job ∷ jobs) = if job.id == id then some job else find_stored id jobs

-- `find_stored_mut` and what is done with it
unfoldable pub update : String → (StoredJob → StoredJob) → List StoredJob → List StoredJob
update id f [] = []
update id f (job ∷ jobs) =
    let rest = update id f jobs in if job.id == id then f job ∷ jobs else job ∷ rest

-- the jobs of the degraded nodes, oldest first
abbrev created_at : List StoredJob → String → ℕ
created_at jobs id = elim (find_stored id jobs) [
  | none ↦ 18446744073709551615
  | some job ↦ job.created_at_ms
]

unfoldable pub insert_by_age : List StoredJob → String → List String → List String
insert_by_age jobs id [] = id ∷ []
insert_by_age jobs id (other ∷ ids) =
    let rest = insert_by_age jobs id ids in
    if ltb (created_at jobs other) (created_at jobs id) then other ∷ rest else id ∷ other ∷ ids

unfoldable pub by_age : List StoredJob → List (String × String) → List String
by_age jobs [] = []
by_age jobs ((node, id) ∷ entries) = insert_by_age jobs id (by_age jobs entries)

abbrev pub active_job_ids : ManagerState → List String
active_job_ids s = elim s.active_job_id [
  | none ↦ by_age s.jobs s.active_degradation_jobs
  | some id ↦ id ∷ by_age s.jobs s.active_degradation_jobs
]

abbrev pub first_active_job_id : ManagerState → Option String
first_active_job_id s = elim (active_job_ids s) [ [] ↦ none | id ∷ ids ↦ some id ]

abbrev pub kind_of : Option StoredJob → Option JobKind
kind_of none = none
kind_of (some job) = some job.kind

abbrev pub active_exclusive_kind : ManagerState → Option JobKind
active_exclusive_kind s = elim s.active_job_id [
  | none ↦ none
  | some id ↦ kind_of (find_stored id s.jobs)
]

abbrev pub is_free : List (String × String) → Option String → Bool
is_free degradations none = false
is_free degradations (some node) = not (is_some (lookup node degradations))

abbrev pub is_empty : List (String × String) → Bool
is_empty [] = true
is_empty (entry ∷ entries) = false

abbrev pub none_or_mine : Option JobKind → Bool
none_or_mine none = true
none_or_mine (some mine) = true
none_or_mine (some _) = false

unfoldable pub jobs_are_compatible :
    (active_exclusive : Option JobKind)
    → List (String × String)
    → JobKind
    → (node : Option String) → Bool
jobs_are_compatible active degradations mine lane = not (is_some active)
jobs_are_compatible active degradations degrade lane =
    none_or_mine active && is_free degradations lane
jobs_are_compatible active degradations _ lane = not (is_some active) && is_empty degradations

-- the node of a job that degrades one
abbrev pub degradation_node : JobKind → Option String → Option String
degradation_node degrade lane = lane
degradation_node _ lane = none

abbrev pub enter_lane : Option String → (id : String) → ManagerState → ManagerState
enter_lane none id s = record s { active_job_id = some id }
enter_lane (some node) id s = record s {
  active_degradation_jobs = insert node id s.active_degradation_jobs;
}

abbrev pub other_than : String → Option String → Option String
other_than id none = none
other_than id (some active) = if active == id then none else some active

abbrev pub clear_active_lane : String → ManagerState → ManagerState
clear_active_lane id s = record s {
  active_job_id = other_than id s.active_job_id;
  active_degradation_jobs = retain (λ active. not (active == id)) s.active_degradation_jobs;
}

abbrev pub ensure_idle : ManagerState → Option JobManagerError
ensure_idle s =
    if s.delivery_recovering
    then some (operation_in_progress "faucet-delivery-recovery")
    else elim (first_active_job_id s) [ none ↦ none | some id ↦ some (operation_in_progress id) ]
