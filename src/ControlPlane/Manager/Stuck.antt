-- ===== src/ControlPlane/Manager/Stuck.antt =====
-- crates/control-plane/src/jobs.rs: a job whose first saving fails.
use simchain.Base.{
  ℕ, ◌<◌, Bool, true, false, String, String-eq, none, some, List, [], ◌∷◌, ◌≡◌, refl, arith, ◌==◌,
  ==_refl, Bool-cases, err, length, length-append, zero, suc, ◌≤◌, inl, inr, ltb, ◌++◌,
}
use simchain.ControlPlane.Manager.{
  JobKind, faucet, reorg, rewind, scenario, partition, degrade, mine, spam_prepare, spam_burst,
  StoredJob, ManagerState, internal, operation_in_progress, same_kind, find_stored,
  jobs_are_compatible, degradation_node, ensure_idle, max_job_history, by_age,
}
use simchain.ControlPlane.Manager.Operations.{
  Answers, new_job, push_job, trim_history, start_job, reserve_action_job,
}
use simchain.ControlPlane.Manager.Lanes.{kind_at}

idle_admits :
    (kind : JobKind)
    → same_kind kind degrade ≡ false
    → (jobs_are_compatible none [] kind none ≡ true) × (degradation_node kind none ≡ none)
unfolding jobs_are_compatible
idle_admits degrade h = absurd (cc)
idle_admits faucet h = (refl, refl)
idle_admits reorg h = (refl, refl)
idle_admits rewind h = (refl, refl)
idle_admits scenario h = (refl, refl)
idle_admits partition h = (refl, refl)
idle_admits mine h = (refl, refl)
idle_admits spam_prepare h = (refl, refl)
idle_admits spam_burst h = (refl, refl)

trim_history_short :
    (rounds : ℕ) (events_removed : Bool) (s : ManagerState)
    → length s.jobs ≤ 100
    → trim_history rounds events_removed s ≡ (true, s)
unfolding trim_history
trim_history_short zero events_removed s h = refl
trim_history_short (suc rounds) events_removed s h =
    let q : ltb max_job_history (length s.jobs) ≡ false = ground (arith, h) in
    rw (q, trim_history) refl

find_stored_new :
    (jobs : List StoredJob) (job : StoredJob)
    → kind_at jobs job.id ≡ none
    → find_stored job.id (jobs ++ (job ∷ [])) ≡ some job
unfolding find_stored
find_stored_new [] job n = rw (==_refl job.id, find_stored) refl
find_stored_new (j ∷ jobs) job n = elim (Bool-cases (j.id == job.id)) [
  | inl e ↦ absurd (ground (arith, n, e))
  | inr e ↦ rw (e, find_stored) (find_stored_new jobs job (rw (e, find_stored) at n))
]

-- nothing is active
abbrev pub idle : List StoredJob → List (String × Bool) → ManagerState
idle jobs aborts = record {
  jobs = jobs;
  active_job_id = none;
  active_degradation_jobs = [];
  aborts = aborts;
  delivery_recovering = false;
}

-- no transfer is pending, and the store fails to save
abbrev pub unsaved : (new_id : String) (now : ℕ) (events_removed emitted : Bool) → Answers
unsaved new_id now events_removed emitted = record {
  new_id = new_id;
  now = now;
  faucet_pending = false;
  events_removed = events_removed;
  saved = false;
  emitted = emitted;
}

-- Let nothing be active, the history hold less than 100 jobs, no transfer of the faucet be pending or
-- recovering, and the store fail to save. A job that degrades no node, asked for under a new name and
-- without an idempotency key, is then answered by an internal error, and yet is stored as starting,
-- in the exclusive lane: in the state that it leaves, the manager says that this job is in progress.
pub reserve_action_job-save_failed :
    (id fingerprint : String) (now : ℕ) (events_removed emitted : Bool) (kind : JobKind)
    (jobs : List StoredJob) (aborts : List (String × Bool))
    → length jobs < 100
    → same_kind kind degrade ≡ false
    → kind_at jobs id ≡ none
    → (let answers = unsaved id now events_removed emitted in
        let (answer, s) =
          reserve_action_job answers kind none fingerprint none (idle jobs aborts) in
        (answer ≡ err internal)
        × (find_stored id s.jobs ≡ some (new_job answers kind fingerprint none))
        × (ensure_idle s ≡ some (operation_in_progress id)))
unfolding reserve_action_job start_job by_age
reserve_action_job-save_failed id fingerprint now events_removed emitted kind jobs aborts n other
      fresh =
    let answers = unsaved id now events_removed emitted in
    let job = new_job answers kind fingerprint none in
    let (c, l) = idle_admits kind other in
    let pushed = push_job job none (idle jobs aborts) in
    let short : length pushed.jobs ≤ 100 = omega (arith, n, length-append jobs (job ∷ [])) in
    let t = trim_history_short (length pushed.jobs) events_removed pushed short in
    rw (other, l, c, t, reserve_action_job, start_job) (refl, find_stored_new jobs job fresh, refl)
