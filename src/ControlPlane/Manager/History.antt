-- ===== src/ControlPlane/Manager/History.antt =====
-- crates/control-plane/src/jobs.rs: a job that starts, and the history that is trimmed for it.
use simchain.Base.{
  ◌≤◌, ap, ◌⊎◌, ℕ, zero, suc, Bool, true, false, ◌||◌, String, String-eq, Option, none, some, List,
  [], ◌∷◌, ◌≡◌, inl, inr, refl, sym, ◌∙◌, arith, if◌then◌else◌, ◌==◌, ==_refl, ==_sound, All,
  Bool-cases, Option-cases, length, ltb,
}
use simchain.ControlPlane.Manager.{
  StoredJob, ManagerState, by_age, insert_by_age, active_job_ids, max_job_history,
}
use simchain.ControlPlane.Manager.Operations.{contains, is_removable, remove_first, trim_history}
use simchain.ControlPlane.Manager.Lanes.{
  kind_at, kind_at_step, In, HasLane, Settled, Distinct, Lanes, Lanes-keep,
}

abbrev pub Kept : ManagerState → Type 0
Kept s = Lanes s.jobs s.active_job_id s.active_degradation_jobs

insert_by_age-contains :
    (jobs : List StoredJob) (id i : String) (ids : List String)
    → contains i (insert_by_age jobs id ids) ≡ (id == i || contains i ids)
unfolding insert_by_age
insert_by_age-contains jobs id i [] = refl
insert_by_age-contains jobs id i (other ∷ ids) =
    ground (arith, insert_by_age-contains jobs id i ids)

by_age-contains :
    (jobs : List StoredJob) (i : String) (entries : List (String × String))
    → In i entries
    → contains i (by_age jobs entries) ≡ true
unfolding by_age
by_age-contains jobs i [] h = absurd h
by_age-contains jobs i ((node, id) ∷ entries) (inl q) =
    insert_by_age-contains jobs id i (by_age jobs entries) ∙ rw (q, ==_refl i) refl
by_age-contains jobs i ((node, id) ∷ entries) (inr h) =
    insert_by_age-contains jobs id i (by_age jobs entries)
    ∙ ground (arith, by_age-contains jobs i entries h)

active_job_ids-contains :
    (s : ManagerState) (i : String)
    → HasLane s.active_job_id s.active_degradation_jobs i
    → contains i (active_job_ids s) ≡ true
active_job_ids-contains s i (inl q) = rw (q, active_job_ids, ==_refl i) refl
active_job_ids-contains s i (inr h) =
    let b = by_age-contains s.jobs i s.active_degradation_jobs h in
    elim (Option-cases s.active_job_id) [
      | inl q ↦ rw (q, active_job_ids) b
      | inr (id, q) ↦ rw (q, active_job_ids) (ground (arith, b))
    ]

abbrev OnSome : {A : Type 0} → (A → Type 0) → Option A → Type 0
OnSome P none = Unit
OnSome P (some a) = P a

kind_at_other :
    (job : StoredJob) (jobs : List StoredJob) (i : String)
    → (job.id == i) ≡ false
    → kind_at jobs i ≡ kind_at (job ∷ jobs) i
kind_at_other job jobs i n = rw (kind_at_step job jobs i, n) refl

kind_at_same :
    (job : StoredJob) (jobs others : List StoredJob) (i : String)
    → kind_at others i ≡ kind_at jobs i
    → kind_at (job ∷ others) i ≡ kind_at (job ∷ jobs) i
kind_at_same job jobs others i q = rw (kind_at_step job jobs i, kind_at_step job others i, q) refl

-- a removable job is not active
is_removable_other :
    (active : List String) (job : StoredJob) (i : String)
    → is_removable active job ≡ true
    → contains i active ≡ true
    → (job.id == i) ≡ false
is_removable_other active job i q c = elim (Bool-cases (job.id == i)) [
  | inr n ↦ n
  | inl e ↦
      let c' : contains job.id active ≡ true = rw (==_sound job.id i e) c in
      absurd (ground (arith, q, c'))
]

-- the jobs that are left keep their kinds, if they are active
remove_first-kind_at :
    (active : List String) (jobs : List StoredJob) (i : String)
    → contains i active ≡ true
    → OnSome (λ left. kind_at left i ≡ kind_at jobs i) (remove_first active jobs)
unfolding remove_first
remove_first-kind_at active [] i c = tt
remove_first-kind_at active (job ∷ jobs) i c =
    let h = remove_first-kind_at active jobs i c in
    elim (Bool-cases (is_removable active job)) [
      | inl q ↦
          rw (q, remove_first) (kind_at_other job jobs i (is_removable_other active job i q c))
      | inr q ↦ elim (Option-cases (remove_first active jobs)) [
        | inl e ↦ rw (q, e, remove_first) tt
        | inr (left, e) ↦ rw (q, e, remove_first) (kind_at_same job jobs left i (rw e at h))
      ]
    ]

-- no name comes in
remove_first_absent :
    (active : List String) (jobs : List StoredJob) (i : String)
    → kind_at jobs i ≡ none
    → OnSome (λ left. kind_at left i ≡ none) (remove_first active jobs)
unfolding remove_first
remove_first_absent active [] i n = tt
remove_first_absent active (job ∷ jobs) i n =
    let n' : (if job.id == i then some job.kind else kind_at jobs i) ≡ none =
      sym (kind_at_step job jobs i) ∙ n in
    elim (Bool-cases (job.id == i)) [
      | inl e ↦ absurd (ground (arith, n', e))
      | inr e ↦
          let m : kind_at jobs i ≡ none = rw e at n' in
          let h = remove_first_absent active jobs i m in
          elim (Bool-cases (is_removable active job)) [
            | inl q ↦ rw (q, remove_first) m
            | inr q ↦ elim (Option-cases (remove_first active jobs)) [
              | inl p ↦ rw (q, p, remove_first) tt
              | inr (left, p) ↦
                  rw (q, p, remove_first) (rw (kind_at_step job left i, e) (rw p at h))
            ]
          ]
    ]

remove_first-All :
    (P : StoredJob → Type 0) (active : List String) (jobs : List StoredJob)
    → All P jobs
    → OnSome (All P) (remove_first active jobs)
unfolding remove_first
remove_first-All P active [] h = tt
remove_first-All P active (job ∷ jobs) (h, hs) =
    let k = remove_first-All P active jobs hs in
    elim (Bool-cases (is_removable active job)) [
      | inl q ↦ rw (q, remove_first) hs
      | inr q ↦ elim (Option-cases (remove_first active jobs)) [
        | inl e ↦ rw (q, e, remove_first) tt
        | inr (left, e) ↦ rw (q, e, remove_first) (h, (rw e at k))
      ]
    ]

remove_first-Distinct :
    (active : List String) (jobs : List StoredJob)
    → Distinct jobs
    → OnSome Distinct (remove_first active jobs)
unfolding remove_first
remove_first-Distinct active [] d = tt
remove_first-Distinct active (job ∷ jobs) (d, ds) =
    let k = remove_first-Distinct active jobs ds in
    let a = remove_first_absent active jobs job.id d in
    elim (Bool-cases (is_removable active job)) [
      | inl q ↦ rw (q, remove_first) ds
      | inr q ↦ elim (Option-cases (remove_first active jobs)) [
        | inl e ↦ rw (q, e, remove_first) tt
        | inr (left, e) ↦ rw (q, e, remove_first) ((rw e at a), (rw e at k))
      ]
    ]

remove_first-Kept :
    (s : ManagerState)
    → Kept s
    → OnSome (λ left. Kept (record s { jobs = left })) (remove_first (active_job_ids s) s.jobs)
remove_first-Kept s l =
    let active = active_job_ids s in
    let settled = Settled s.active_job_id s.active_degradation_jobs in
    let a = remove_first-All settled active s.jobs l.settled in
    let d = remove_first-Distinct active s.jobs l.distinct in
    elim (Option-cases (remove_first active s.jobs)) [
      | inl e ↦ rw (e, OnSome) tt
      | inr (left, e) ↦
          rw (e, OnSome)
            (Lanes-keep s.jobs left s.active_job_id s.active_degradation_jobs
              (λ i k h q.
                let c = active_job_ids-contains s i h in
                rw e at (remove_first-kind_at active s.jobs i c) ∙ q)
              (rw e at a) (rw e at d) l)
    ]

-- trimming the history keeps the lanes
pub trim_history-Kept :
    (rounds : ℕ) (events_removed : Bool) (s : ManagerState)
    → Kept s
    → Kept (trim_history rounds events_removed s).1
unfolding trim_history
trim_history-Kept zero events_removed s l = l
trim_history-Kept (suc rounds) events_removed s l =
    let k = remove_first-Kept s l in
    elim (Bool-cases (ltb max_job_history (length s.jobs))) [
      | inr q ↦ rw (q, trim_history) l
      | inl q ↦ elim (Option-cases (remove_first (active_job_ids s) s.jobs)) [
        | inl e ↦ rw (q, e, trim_history) l
        | inr (left, e) ↦ elim (Bool-cases events_removed) [
          | inl r ↦
              rw (q, e, r, trim_history)
                (trim_history-Kept rounds true (record s { jobs = left }) (rw e at k))
          | inr r ↦ rw (q, e, r, trim_history) (rw e at k)
        ]
      ]
    ]

remove_first-length :
    (active : List String) (jobs : List StoredJob)
    → OnSome (λ left. suc (length left) ≡ length jobs) (remove_first active jobs)
unfolding remove_first
remove_first-length active [] = tt
remove_first-length active (job ∷ jobs) =
    let k = remove_first-length active jobs in
    elim (Bool-cases (is_removable active job)) [
      | inl q ↦ rw (q, remove_first) refl
      | inr q ↦ elim (Option-cases (remove_first active jobs)) [
        | inl e ↦ rw (q, e, remove_first) tt
        | inr (left, e) ↦ rw (q, e, remove_first) (ap suc (rw e at k))
      ]
    ]

-- With as many rounds as there are jobs, trimming stops only at a failure or at no more than 100 jobs.
trim_history-length :
    (rounds : ℕ) (events_removed : Bool) (s : ManagerState)
    → length s.jobs ≤ rounds
    → (let (trimmed, s') = trim_history rounds events_removed s in
        (trimmed ≡ false) ⊎ (length s'.jobs ≤ 100))
unfolding trim_history
trim_history-length zero events_removed s h = inr (omega (arith, h))
trim_history-length (suc rounds) events_removed s h =
    let k = remove_first-length (active_job_ids s) s.jobs in
    elim (Bool-cases (ltb max_job_history (length s.jobs))) [
      | inr q ↦ rw (q, trim_history) (inr (ground arith))
      | inl q ↦ elim (Option-cases (remove_first (active_job_ids s) s.jobs)) [
        | inl e ↦ rw (q, e, trim_history) (inl refl)
        | inr (left, e) ↦ elim (Bool-cases events_removed) [
          | inr r ↦ rw (q, e, r, trim_history) (inl refl)
          | inl r ↦
              let k' : suc (length left) ≡ length s.jobs = rw e at k in
              rw (q, e, r, trim_history)
                (trim_history-length rounds true (record s { jobs = left }) (omega (arith, h, k')))
        ]
      ]
    ]
