-- ===== src/ControlPlane/Manager/Serving.antt =====
-- crates/control-plane/src/jobs.rs: the operations of the job manager in any order.
use simchain.Base.{
  ℕ, Bool, true, false, not, ◌&&◌, ◌||◌, String, String-eq, Option, none, some, List, [], ◌∷◌, ◌≡◌,
  inl, inr, refl, sym, subst, ◌∙◌, arith, if-intro, ◌==◌, All, Bool-cases, Option-cases, length,
  Result, is_some,
}
use simchain.Base.Table.{remove}
use simchain.ControlPlane.Manager.{
  JobKind, degrade, JobState, CleanupState, cleanup_succeeded, StoredJob, ManagerState,
  JobManagerError, is_terminal, same_kind, find_stored, update, jobs_are_compatible,
  active_exclusive_kind, degradation_node, clear_active_lane,
}
use simchain.ControlPlane.Manager.Operations.{
  Answers, JobCreatedResponse, trim_history, key_is_valid, reused, may_overtake_faucet, new_job,
  end_job, has_failed, finish_job, fail_before_thread, push_job, start_job, reserve_action_job,
  abort, set_running, set_cleanup_running, complete_recovery,
}
use simchain.ControlPlane.Manager.Lanes.{
  kind_at, HasLane, Settled, Lanes-keep, Renames, update-kind_at, update-Distinct, update-All,
}
use simchain.ControlPlane.Manager.History.{Kept, trim_history-Kept}
use simchain.ControlPlane.Manager.Starting.{push_job-Kept}
use simchain.ControlPlane.Manager.Ending.{
  update-OverAt, find_stored-At, At, Over, clear_active_lane-Kept,
}

update-Lanes :
    (id : String) (f : StoredJob → StoredJob) (s : ManagerState)
    → Renames id f
    → All (Settled s.active_job_id s.active_degradation_jobs) (update id f s.jobs)
    → Kept s
    → Kept (record s { jobs = update id f s.jobs })
update-Lanes id f s r a l =
    Lanes-keep s.jobs (update id f s.jobs) s.active_job_id s.active_degradation_jobs
      (λ i kind h q. update-kind_at id f s.jobs i r ∙ q) a
      (update-Distinct id f s.jobs r l.distinct) l

-- a change of one job that leaves it settled
update-Kept :
    (id : String) (f : StoredJob → StoredJob) (s : ManagerState)
    → Renames id f
    → ((job : StoredJob)
        → Settled s.active_job_id s.active_degradation_jobs job
        → Settled s.active_job_id s.active_degradation_jobs (f job))
    → Kept s
    → Kept (record s { jobs = update id f s.jobs })
update-Kept id f s r k l =
    update-Lanes id f s r (update-All id f s.jobs (λ j e p. k j p) l.settled) l

abbrev Live : StoredJob → Type 0
Live job = is_terminal job.state ≡ false

-- a job that is not over keeps its lane, whatever its state becomes
update-Live :
    (id : String) (f : StoredJob → StoredJob) (active : Option String) (m : List (String × String))
    (jobs : List StoredJob)
    → Renames id f
    → All (At Live id) jobs
    → All (Settled active m) jobs
    → All (Settled active m) (update id f jobs)
unfolding update
update-Live id f active m [] r v h = tt
update-Live id f active m (job ∷ jobs) r (v, vs) (h, hs) = elim (Bool-cases (job.id == id)) [
  | inr e ↦ rw (e, update) (h, update-Live id f active m jobs r vs hs)
  | inl e ↦
      let lane : HasLane active m job.id = elim h [
        | inr k ↦ k
        | inl t ↦ elim v [
          | inl n ↦ absurd (ground (arith, t, n))
          | inr n ↦ absurd (ground (arith, e, n))
        ]
      ] in
      rw (e, update) (inr (subst (HasLane active m) (sym (r job).0) lane), hs)
]

Live-Kept :
    (id : String) (f : StoredJob → StoredJob) (s : ManagerState)
    → Renames id f
    → All (At Live id) s.jobs
    → Kept s
    → Kept (record s { jobs = update id f s.jobs })
Live-Kept id f s r live l =
    update-Lanes id f s r
      (update-Live id f s.active_job_id s.active_degradation_jobs s.jobs r live l.settled) l

finish_job-Kept :
    (now : ℕ) (id : String) (final : JobState) (phase : String) (failure : Option String)
    (cleanup : CleanupState) (s : ManagerState)
    → is_terminal final ≡ true
    → Kept s
    → Kept (finish_job now id final phase failure cleanup s)
unfolding finish_job
finish_job-Kept now id final phase failure cleanup s t l =
    let f = end_job now final phase failure cleanup in
    let k : Kept (record s { jobs = update id f s.jobs }) =
      update-Kept id f s (λ j. (refl, refl)) (λ j p. inl t) l in
    let ended : ManagerState = record s {
      jobs = update id f s.jobs;
      aborts = remove id s.aborts;
    } in
    if-intro Kept (has_failed cleanup) ended (clear_active_lane id ended) (λ q. k)
      (λ q. clear_active_lane-Kept id ended (update-OverAt id f s.jobs (λ j. t) l.distinct) k)

start_job-Kept :
    (answers : Answers) (job : StoredJob) (node : Option String) (s : ManagerState)
    → Kept (push_job job node s)
    → Kept (start_job answers job node s).1
unfolding start_job fail_before_thread
start_job-Kept answers job node s l =
    let pushed = push_job job node s in
    let trimmed = trim_history (length pushed.jobs) answers.events_removed pushed in
    let k = trim_history-Kept (length pushed.jobs) answers.events_removed pushed l in
    elim (Bool-cases (not trimmed.0 || not answers.saved)) [
      | inl q ↦ rw (q, start_job) k
      | inr q ↦ elim (Bool-cases answers.emitted) [
        | inl e ↦ rw (q, e, start_job) k
        | inr e ↦
            rw (q, e, start_job, fail_before_thread) (finish_job-Kept _ _ _ _ _ _ trimmed.1 refl k)
      ]
    ]

abbrev Leaves : Result JobManagerError JobCreatedResponse × ManagerState → Type 0
Leaves done = Kept done.1

reserve_action_job-Kept :
    (answers : Answers) (kind : JobKind) (node : Option String) (fingerprint : String)
    (key : Option String) (s : ManagerState)
    → kind_at s.jobs answers.new_id ≡ none
    → Kept s
    → Kept (reserve_action_job answers kind node fingerprint key s).1
unfolding reserve_action_job
reserve_action_job-Kept answers kind node fingerprint key s fresh l =
    let lane = degradation_node kind node in
    let fits = jobs_are_compatible (active_exclusive_kind s) s.active_degradation_jobs kind lane in
    elim (Bool-cases (not (key_is_valid key) || same_kind kind degrade && not (is_some node))) [
      | inl q ↦ rw (q, reserve_action_job) l
      | inr q ↦ elim (Option-cases (reused key s.jobs)) [
        | inr (existing, e) ↦ rw (q, e, reserve_action_job) l
        | inl e ↦ elim (Bool-cases fits) [
          | inr c ↦ rw (q, e, c, reserve_action_job) l
          | inl c ↦
              let job = new_job answers kind fingerprint key in
              let started =
                start_job-Kept answers job lane s (push_job-Kept s job node l fresh c) in
              rw (q, e, c, reserve_action_job)
                (if-intro Leaves s.delivery_recovering _ _ (λ d. l)
                  (λ d.
                    if-intro Leaves (answers.faucet_pending && not (may_overtake_faucet kind)) _ _
                      (λ p. l) (λ p. started)))
        ]
      ]
    ]

abort-Kept : (saved : Bool) (id : String) (s : ManagerState) → Kept s → Kept (abort saved id s).1
unfolding abort
abort-Kept saved id s l = elim (Option-cases (find_stored id s.jobs)) [
  | inl q ↦ rw (q, abort) l
  | inr (job, q) ↦ elim (Bool-cases (is_terminal job.state)) [
    | inl t ↦ rw (q, t, abort) l
    | inr t ↦
        rw (q, t, abort)
          (Live-Kept id (λ j. record j { state = JobState.abort_requested }) s (λ j. (refl, refl))
            (find_stored-At Live id s.jobs job l.distinct q t) l)
  ]
]

-- one stretch under the lock
pub data Request : Type 0 where
  reserves :
      Answers
      → JobKind
      → (node : Option String) (fingerprint : String) (key : Option String) → Request
  runs : (now : ℕ) (job_id phase : String) → Request
  aborts_job : (saved : Bool) (job_id : String) → Request
  cleans : (job_id : String) → Request
  finishes :
      (now : ℕ) (job_id : String)
      → JobState
      → (phase : String) (failure : Option String) → CleanupState
      → Request
  recovers : (job_id : String) → Request

abbrev pub serve : Request → ManagerState → ManagerState
serve (reserves answers kind node fingerprint key) s =
    (reserve_action_job answers kind node fingerprint key s).1
serve (runs now job_id phase) s = set_running now job_id phase s
serve (aborts_job saved job_id) s = (abort saved job_id s).1
serve (cleans job_id) s = set_cleanup_running job_id s
serve (finishes now job_id final phase failure cleanup) s =
    finish_job now job_id final phase failure cleanup s
serve (recovers job_id) s = complete_recovery job_id s

-- How the operations are called: a new job has a new name, a job is set running while it is not over,
-- it is finished in a terminal state, and a recovery completes for a job that is over.
abbrev pub IsCalledFor : Request → ManagerState → Type 0
IsCalledFor (reserves answers kind _ fingerprint key) s = kind_at s.jobs answers.new_id ≡ none
IsCalledFor (runs now job_id phase) s =
    (job : StoredJob) × (find_stored job_id s.jobs ≡ some job) × Live job
IsCalledFor (aborts_job saved job_id) s = Unit
IsCalledFor (cleans job_id) s = Unit
IsCalledFor (finishes now job_id final phase failure cleanup) s = is_terminal final ≡ true
IsCalledFor (recovers job_id) s =
    (job : StoredJob) × (find_stored job_id s.jobs ≡ some job) × Over job

serve-Kept : (r : Request) (s : ManagerState) → IsCalledFor r s → Kept s → Kept (serve r s)
unfolding set_running set_cleanup_running complete_recovery
serve-Kept (reserves answers kind node fingerprint key) s c l =
    reserve_action_job-Kept answers kind node fingerprint key s c l
serve-Kept (runs now job_id phase) s (job, q, v) l =
    Live-Kept job_id _ s (λ j. (refl, refl)) (find_stored-At Live job_id s.jobs job l.distinct q v)
      l
serve-Kept (aborts_job saved job_id) s c l = abort-Kept saved job_id s l
serve-Kept (cleans job_id) s c l = update-Kept job_id _ s (λ j. (refl, refl)) (λ j p. p) l
serve-Kept (finishes now job_id final phase failure cleanup) s c l =
    finish_job-Kept now job_id final phase failure cleanup s c l
serve-Kept (recovers job_id) s (job, q, v) l =
    let f : StoredJob → StoredJob =
      λ j. record j { cleanup = cleanup_succeeded; phase = "recovery_complete" } in
    clear_active_lane-Kept job_id (record s { jobs = update job_id f s.jobs })
      (update-All job_id f s.jobs (λ j e p. p)
        (find_stored-At Over job_id s.jobs job l.distinct q v))
      (update-Kept job_id f s (λ j. (refl, refl)) (λ j p. p) l)

abbrev pub serve_all : List Request → ManagerState → ManagerState
serve_all [] s = s
serve_all (r ∷ rs) s = serve_all rs (serve r s)

abbrev pub AreCalledFor : List Request → ManagerState → Type 0
AreCalledFor [] s = Unit
AreCalledFor (r ∷ rs) s = IsCalledFor r s × AreCalledFor rs (serve r s)

-- Let the lanes be kept in the state before: each job that is not over holds a lane, no two jobs have
-- one name, the exclusive lane holds a stored job that degrades no node, the lane of a node one that
-- does, and beside a degraded node the exclusive lane holds nothing but a job that mines. Whatever
-- the store, the faucet and the clock answer, the lanes are kept after any sequence of operations,
-- each called as the manager calls it.
pub serve_all-Kept :
    (rs : List Request) (s : ManagerState) → AreCalledFor rs s → Kept s → Kept (serve_all rs s)
serve_all-Kept [] s c l = l
serve_all-Kept (r ∷ rs) s (c, cs) l = serve_all-Kept rs (serve r s) cs (serve-Kept r s c l)
