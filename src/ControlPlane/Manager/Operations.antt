-- ===== src/ControlPlane/Manager/Operations.antt =====
-- crates/control-plane/src/jobs.rs: what the job manager does under its lock to start, run, abort and
-- end a job. What the store, the faucet's ledger and the clock answer is a parameter.
use simchain.Base.{
  ℕ, zero, suc, Bool, true, false, not, ◌&&◌, ◌||◌, String, String-eq, Option, none, some, List, [],
  ◌∷◌, ◌++◌, ltb, if◌then◌else◌, ◌==◌, is_some, unwrap_or, length, Result, ok, err,
}
use simchain.Base.Table.{lookup, insert, remove}
use simchain.Base.Text.{codes, is_blank}
use simchain.Amount.{byte_len}
use simchain.ControlPlane.Manager.{
  JobKind, mine, spam_prepare, spam_burst, degrade, JobState, starting, running, abort_requested,
  CleanupState, cleanup_not_started, cleanup_running, cleanup_succeeded, cleanup_failed, StoredJob,
  ManagerState, JobManagerError, validation_failed, job_not_found, faucet_delivery_pending,
  internal, operation_in_progress, max_job_history, is_terminal, same_kind, find_stored, update,
  active_job_ids, first_active_job_id, active_exclusive_kind, jobs_are_compatible, degradation_node,
  enter_lane, clear_active_lane,
}

pub record Answers : Type 0 where
  pub new_id : String
  pub now : ℕ
  pub faucet_pending : Bool
  pub events_removed : Bool
  pub saved : Bool
  pub emitted : Bool

pub record JobCreatedResponse : Type 0 where
  pub job_id : String
  pub state : JobState
  pub reused : Bool

abbrev pub contains : String → List String → Bool
contains id [] = false
contains id (other ∷ ids) = other == id || contains id ids

abbrev pub is_removable : List String → StoredJob → Bool
is_removable active job = is_terminal job.state && not (contains job.id active)

-- the jobs without the first removable one, if there is one
unfoldable pub remove_first : List String → List StoredJob → Option (List StoredJob)
remove_first active [] = none
remove_first active (job ∷ jobs) =
    let rest = remove_first active jobs in
    if is_removable active job
    then some jobs
    else elim rest [ none ↦ none | some others ↦ some (job ∷ others) ]

-- `trim_history_locked`, with a bound on its rounds
unfoldable pub trim_history :
    (rounds : ℕ) (events_removed : Bool) → ManagerState → Bool × ManagerState
trim_history zero events_removed s = (true, s)
trim_history (suc rounds) events_removed s =
    if ltb max_job_history (length s.jobs)
    then elim (remove_first (active_job_ids s) s.jobs) [
      | none ↦ (false, s)
      | some jobs ↦
          let s' = record s { jobs = jobs } in
          if events_removed then trim_history rounds events_removed s' else (false, s')
    ]
    else (true, s)

-- `normalize_idempotency_key`, of a key that is trimmed already
abbrev pub key_is_valid : Option String → Bool
key_is_valid none = true
key_is_valid (some key) = not (is_blank key) && not (ltb 200 (byte_len (codes key)))

abbrev same_key : String → Option String → Bool
same_key key none = false
same_key key (some other) = other == key

abbrev pub find_key : String → List StoredJob → Option StoredJob
find_key key [] = none
find_key key (job ∷ jobs) = if same_key key job.idempotency_key then some job else find_key key jobs

abbrev pub reused : Option String → List StoredJob → Option StoredJob
reused none jobs = none
reused (some key) jobs = find_key key jobs

abbrev pub may_overtake_faucet : JobKind → Bool
may_overtake_faucet mine = true
may_overtake_faucet spam_prepare = true
may_overtake_faucet spam_burst = true
may_overtake_faucet _ = false

abbrev pub conflicting : Option String → ManagerState → Option String
conflicting none s = first_active_job_id s
conflicting (some node) s = elim (lookup node s.active_degradation_jobs) [
  | none ↦ first_active_job_id s
  | some id ↦ some id
]

abbrev pub new_job : Answers → JobKind → (fingerprint : String) → (key : Option String) → StoredJob
new_job answers kind fingerprint key = record {
  id = answers.new_id;
  kind = kind;
  state = starting;
  phase = "starting";
  created_at_ms = answers.now;
  started_at_ms = none;
  ended_at_ms = none;
  cleanup = cleanup_not_started;
  failure = none;
  idempotency_key = key;
  request_fingerprint = fingerprint;
}

abbrev pub end_job :
    (now : ℕ)
    → JobState
    → (phase : String) → (failure : Option String) → CleanupState
    → StoredJob
    → StoredJob
end_job now final_state phase failure cleanup job = record job {
  state = final_state;
  phase = phase;
  ended_at_ms = some now;
  cleanup = cleanup;
  failure = failure;
}

abbrev pub has_failed : CleanupState → Bool
has_failed cleanup_failed = true
has_failed _ = false

unfoldable pub finish_job :
    (now : ℕ) (job_id : String)
    → JobState
    → (phase : String) → (failure : Option String) → CleanupState
    → ManagerState
    → ManagerState
finish_job now job_id final_state phase failure cleanup s =
    let ended = record s {
      jobs = update job_id (end_job now final_state phase failure cleanup) s.jobs;
      aborts = remove job_id s.aborts;
    } in
    if has_failed cleanup then ended else clear_active_lane job_id ended

unfoldable pub fail_before_thread : (now : ℕ) (job_id : String) → ManagerState → ManagerState
fail_before_thread now job_id =
    finish_job now job_id JobState.failed "failed_to_start" (some "job_thread_failed")
      cleanup_succeeded

-- the job that takes its lane
abbrev pub push_job : StoredJob → (node : Option String) → ManagerState → ManagerState
push_job job node s =
    let s' = enter_lane node job.id (record s { jobs = s.jobs ++ (job ∷ []) }) in
    record s' { aborts = insert job.id false s.aborts }

-- from the new job on: the history, the file, and the first event
unfoldable pub start_job :
    Answers
    → StoredJob
    → (node : Option String) → ManagerState
    → Result JobManagerError JobCreatedResponse × ManagerState
start_job answers job node s =
    let pushed = push_job job node s in
    let (trimmed, s') = trim_history (length pushed.jobs) answers.events_removed pushed in
    if not trimmed || not answers.saved
    then (err internal, s')
    else if answers.emitted
    then (ok (record { job_id = job.id; state = starting; reused = false }), s')
    else (err internal, fail_before_thread answers.now job.id s')

unfoldable pub reserve_action_job :
    Answers
    → JobKind
    → (node : Option String) (fingerprint : String) (key : Option String) → ManagerState
    → Result JobManagerError JobCreatedResponse × ManagerState
reserve_action_job answers kind node fingerprint key s =
    if not (key_is_valid key) || same_kind kind degrade && not (is_some node)
    then (err validation_failed, s)
    else elim (reused key s.jobs) [
      | some existing ↦ (
        if same_kind existing.kind kind && existing.request_fingerprint == fingerprint
            then ok (record { job_id = existing.id; state = existing.state; reused = true })
            else err validation_failed,
        s,
      )
      | none ↦
          let lane = degradation_node kind node in
          if not (jobs_are_compatible (active_exclusive_kind s) s.active_degradation_jobs kind lane)
          then (
            err (operation_in_progress (unwrap_or (conflicting lane s) "unknown-active-job")),
            s,
          )
          else if s.delivery_recovering
          then (err (operation_in_progress "faucet-delivery-recovery"), s)
          else if answers.faucet_pending && not (may_overtake_faucet kind)
          then (err faucet_delivery_pending, s)
          else start_job answers (new_job answers kind fingerprint key) lane s
    ]

abbrev pub raise_abort : String → List (String × Bool) → List (String × Bool)
raise_abort job_id aborts =
    if is_some (lookup job_id aborts) then insert job_id true aborts else aborts

unfoldable pub abort :
    (saved : Bool) (job_id : String) → ManagerState → Result JobManagerError JobState × ManagerState
abort saved job_id s = elim (find_stored job_id s.jobs) [
  | none ↦ (err job_not_found, s)
  | some job ↦ if is_terminal job.state then (ok job.state, s) else (
    if saved then ok abort_requested else err internal,
    record s {
      jobs = update job_id (λ j. record j { state = abort_requested }) s.jobs;
      aborts = raise_abort job_id s.aborts;
    },
  )
]

abbrev pub run_state : JobState → JobState
run_state abort_requested = abort_requested
run_state _ = running

abbrev pub or_now : Option ℕ → ℕ → Option ℕ
or_now none now = some now
or_now (some t) now = some t

unfoldable pub set_running : (now : ℕ) (job_id phase : String) → ManagerState → ManagerState
set_running now job_id phase s = record s {
  jobs =
      update job_id
        (λ j. record j {
          state = run_state j.state;
          phase = phase;
          started_at_ms = or_now j.started_at_ms now;
        })
        s.jobs;
}

unfoldable pub set_cleanup_running : (job_id : String) → ManagerState → ManagerState
set_cleanup_running job_id s = record s {
  jobs = update job_id (λ j. record j { cleanup = cleanup_running; phase = "cleanup" }) s.jobs;
}

-- the end of `recovery_loop`
unfoldable pub complete_recovery : (job_id : String) → ManagerState → ManagerState
complete_recovery job_id s = clear_active_lane job_id (record s {
  jobs =
      update job_id (λ j. record j { cleanup = cleanup_succeeded; phase = "recovery_complete" })
        s.jobs;
})
