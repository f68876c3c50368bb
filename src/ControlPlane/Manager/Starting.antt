-- ===== src/ControlPlane/Manager/Starting.antt =====
-- crates/control-plane/src/jobs.rs: a job that is accepted takes a lane that is free for it.
use simchain.Base.{
  true, false, String, String-eq, Option, none, some, List, [], ◌∷◌, ◌++◌, ◌≡◌, ◌⊎◌, inl, inr, refl,
  sym, ap, ◌∙◌, arith, if◌then◌else◌, ◌==◌, ==_refl, ==_sound, All, All-append, Bool-cases,
  Option-cases,
}
use simchain.Base.Table.{lookup, insert, remove}
use simchain.ControlPlane.Manager.{
  JobKind, faucet, reorg, rewind, scenario, partition, degrade, mine, spam_prepare, spam_burst,
  StoredJob, ManagerState, same_kind, find_stored, none_or_mine, is_empty, active_exclusive_kind,
  jobs_are_compatible, degradation_node, enter_lane,
}
use simchain.ControlPlane.Manager.Operations.{push_job}
use simchain.ControlPlane.Manager.Lanes.{
  kind_at, kind_at_step, HasLane, Settled, Distinct, ExclusiveFits, DegradationFits, exclusive_kind,
  Lanes, All-map, degraded_map,
}
use simchain.ControlPlane.Manager.History.{Kept}

append-kind_at :
    (jobs : List StoredJob) (job : StoredJob) (i : String) (k : JobKind)
    → kind_at jobs i ≡ some k
    → kind_at (jobs ++ (job ∷ [])) i ≡ some k
unfolding find_stored
append-kind_at [] job i k q = absurd (cc)
append-kind_at (j ∷ jobs) job i k q = elim (Bool-cases (j.id == i)) [
  | inl e ↦ rw (e, find_stored) (rw (e, find_stored) at q)
  | inr e ↦ rw (e, find_stored) (append-kind_at jobs job i k (rw (e, find_stored) at q))
]

-- the name of a job that is not stored yet
append_new :
    (jobs : List StoredJob) (job : StoredJob)
    → kind_at jobs job.id ≡ none
    → kind_at (jobs ++ (job ∷ [])) job.id ≡ some job.kind
unfolding find_stored
append_new [] job n = rw (==_refl job.id, find_stored) refl
append_new (j ∷ jobs) job n = elim (Bool-cases (j.id == job.id)) [
  | inl e ↦ absurd (ground (arith, n, e))
  | inr e ↦ rw (e, find_stored) (append_new jobs job (rw (e, find_stored) at n))
]

append_absent :
    (jobs : List StoredJob) (job : StoredJob) (i : String)
    → kind_at jobs i ≡ none
    → (job.id == i) ≡ false
    → kind_at (jobs ++ (job ∷ [])) i ≡ none
unfolding find_stored
append_absent [] job i n e = rw (e, find_stored) refl
append_absent (j ∷ jobs) job i n e = elim (Bool-cases (j.id == i)) [
  | inl q ↦ absurd (ground (arith, n, q))
  | inr q ↦ rw (q, find_stored) (append_absent jobs job i (rw (q, find_stored) at n) e)
]

append-Distinct :
    (jobs : List StoredJob) (job : StoredJob)
    → Distinct jobs
    → kind_at jobs job.id ≡ none
    → Distinct (jobs ++ (job ∷ []))
unfolding find_stored
append-Distinct [] job d n = (refl, tt)
append-Distinct (j ∷ jobs) job (d, ds) n =
    let n' : (if j.id == job.id then some j.kind else kind_at jobs job.id) ≡ none =
      sym (kind_at_step j jobs job.id) ∙ n in
    elim (Bool-cases (j.id == job.id)) [
      | inl e ↦ absurd (ground (arith, n', e))
      | inr e ↦ elim (Bool-cases (job.id == j.id)) [
        | inl p ↦
            let p' : (j.id == job.id) ≡ true = rw (==_sound job.id j.id p) (==_refl j.id) in
            absurd (ground (arith, p', e))
        | inr p ↦ (append_absent jobs job j.id d p, append-Distinct jobs job ds (rw e at n'))
      ]
    ]

-- what the test on the lanes says
abbrev Admits : Option JobKind → List (String × String) → JobKind → Option String → Type 0
Admits active degradations kind node =
    ((kind ≡ degrade)
      × (none_or_mine active ≡ true)
      × ((n : String) × (degradation_node kind node ≡ some n) × (lookup n degradations ≡ none)))
    ⊎ ((same_kind kind degrade ≡ false)
        × (active ≡ none)
        × (degradation_node kind node ≡ none)
        × ((kind ≡ mine) ⊎ (degradations ≡ [])))

is_empty_lem : (m : List (String × String)) → is_empty m ≡ true → m ≡ []
is_empty_lem [] h = refl
is_empty_lem (x ∷ m) h = absurd (cc)

jobs_are_compatible-Admits :
    (active : Option JobKind) (degradations : List (String × String)) (kind : JobKind)
    (node : Option String)
    → jobs_are_compatible active degradations kind (degradation_node kind node) ≡ true
    → Admits active degradations kind node
unfolding jobs_are_compatible
jobs_are_compatible-Admits active m degrade none h = absurd (ground (arith, h))
jobs_are_compatible-Admits active m degrade (some n) h = elim (Option-cases (lookup n m)) [
  | inl q ↦ inl (refl, (ground (arith, h)), (n, refl, q))
  | inr (id, q) ↦ absurd (ground (arith, h, q))
]
jobs_are_compatible-Admits none m mine lane h = inr (refl, refl, refl, inl refl)
jobs_are_compatible-Admits (some k) m mine lane h = absurd (cc)
jobs_are_compatible-Admits none m faucet lane h = inr (refl, refl, refl, inr (is_empty_lem m h))
jobs_are_compatible-Admits none m reorg lane h = inr (refl, refl, refl, inr (is_empty_lem m h))
jobs_are_compatible-Admits none m rewind lane h = inr (refl, refl, refl, inr (is_empty_lem m h))
jobs_are_compatible-Admits none m scenario lane h = inr (refl, refl, refl, inr (is_empty_lem m h))
jobs_are_compatible-Admits none m partition lane h = inr (refl, refl, refl, inr (is_empty_lem m h))
jobs_are_compatible-Admits none m spam_prepare lane h =
    inr (refl, refl, refl, inr (is_empty_lem m h))
jobs_are_compatible-Admits none m spam_burst lane h = inr (refl, refl, refl, inr (is_empty_lem m h))
jobs_are_compatible-Admits (some k) m faucet lane h = absurd (cc)
jobs_are_compatible-Admits (some k) m reorg lane h = absurd (cc)
jobs_are_compatible-Admits (some k) m rewind lane h = absurd (cc)
jobs_are_compatible-Admits (some k) m scenario lane h = absurd (cc)
jobs_are_compatible-Admits (some k) m partition lane h = absurd (cc)
jobs_are_compatible-Admits (some k) m spam_prepare lane h = absurd (cc)
jobs_are_compatible-Admits (some k) m spam_burst lane h = absurd (cc)

-- no kind in the exclusive lane: nothing is in it
no_kind_lem :
    (jobs : List StoredJob) (active : Option String)
    → ExclusiveFits jobs active
    → exclusive_kind jobs active ≡ none
    → active ≡ none
no_kind_lem jobs none e h = refl
no_kind_lem jobs (some id) (k, q, n) h = absurd (ground (arith, q, h))

remove_absent :
    (node : String) (m : List (String × String)) → lookup node m ≡ none → remove node m ≡ m
unfolding lookup remove
remove_absent node [] h = refl
remove_absent node ((n, id) ∷ m) h = elim (Bool-cases (n == node)) [
  | inl e ↦ absurd (ground (arith, e, h))
  | inr e ↦
      rw (e, remove) (ap (λ rest. (n, id) ∷ rest) (remove_absent node m (rw (e, lookup) at h)))
]

-- what is in the exclusive lane stays
append_exclusive :
    (jobs : List StoredJob) (job : StoredJob) (active : Option String)
    → ExclusiveFits jobs active
    → ExclusiveFits (jobs ++ (job ∷ [])) active
      × (exclusive_kind (jobs ++ (job ∷ [])) active ≡ exclusive_kind jobs active)
append_exclusive jobs job none e = (tt, refl)
append_exclusive jobs job (some id) (k, q, n) =
    let q' = append-kind_at jobs job id k q in ((k, q', n), q' ∙ sym q)

module _ (jobs : List StoredJob) (job : StoredJob) (active : Option String)
    (degradations : List (String × String)) where
  grow_settled :
      (active' : Option String) (degradations' : List (String × String))
      → ((id : String) → HasLane active degradations id → HasLane active' degradations' id)
      → HasLane active' degradations' job.id
      → All (Settled active degradations) jobs
      → All (Settled active' degradations') (jobs ++ (job ∷ []))
  grow_settled active' degradations' keep new h =
      All-append (Settled active' degradations') jobs (job ∷ [])
        (All-map jobs (λ j s. elim s [ inl t ↦ inl t | inr k ↦ inr (keep j.id k) ]) h) (inr new, tt)

  grow_degraded :
      All (DegradationFits jobs) degradations
      → All (DegradationFits (jobs ++ (job ∷ []))) degradations
  grow_degraded h =
      degraded_map jobs (jobs ++ (job ∷ [])) active degradations
        (λ i k m q. append-kind_at jobs job i k q) h

  -- a job in the exclusive lane
  grow_exclusive :
      Lanes jobs active degradations
      → kind_at jobs job.id ≡ none
      → same_kind job.kind degrade ≡ false
      → active ≡ none
      → (job.kind ≡ mine) ⊎ (degradations ≡ [])
      → Lanes (jobs ++ (job ∷ [])) (some job.id) degradations
  grow_exclusive l fresh other free fits = record {
    settled =
        grow_settled (some job.id) degradations
          (λ id k. elim k [ inl a ↦ absurd (ground (arith, a, free)) | inr d ↦ inr d ]) (inl refl)
          l.settled;
    distinct = append-Distinct jobs job l.distinct fresh;
    exclusive = (job.kind, append_new jobs job fresh, other);
    degraded = grow_degraded l.degraded;
    compatible = elim fits [
      | inr e ↦ inl e
      | inl m ↦ inr (ap none_or_mine (append_new jobs job fresh ∙ ap some m))
    ];
  }

  -- a job in the lane of a node
  grow_degradation :
      (node : String)
      → Lanes jobs active degradations
      → kind_at jobs job.id ≡ none
      → job.kind ≡ degrade
      → none_or_mine (exclusive_kind jobs active) ≡ true
      → lookup node degradations ≡ none
      → Lanes (jobs ++ (job ∷ [])) active (insert node job.id degradations)
  unfolding insert
  grow_degradation node l fresh kind mines free =
      rw (insert, remove_absent node degradations free)
        (record {
          settled =
              grow_settled active ((node, job.id) ∷ degradations)
                (λ id k. elim k [ inl a ↦ inl a | inr d ↦ inr (inr d) ]) (inr (inl refl)) l.settled;
          distinct = append-Distinct jobs job l.distinct fresh;
          exclusive = (append_exclusive jobs job active l.exclusive).0;
          degraded = (append_new jobs job fresh ∙ ap some kind, grow_degraded l.degraded);
          compatible =
              inr (ap none_or_mine (append_exclusive jobs job active l.exclusive).1 ∙ mines);
        })

active_exclusive_kind_lem :
    (s : ManagerState) → active_exclusive_kind s ≡ exclusive_kind s.jobs s.active_job_id
active_exclusive_kind_lem s = elim (Option-cases s.active_job_id) [
  | inl q ↦ rw (q, active_exclusive_kind, exclusive_kind) refl
  | inr (id, q) ↦ rw (q, active_exclusive_kind, exclusive_kind) refl
]

-- a job that the test on the lanes admits, with a name that is new
pub push_job-Kept :
    (s : ManagerState) (job : StoredJob) (node : Option String)
    → Kept s
    → kind_at s.jobs job.id ≡ none
    → jobs_are_compatible
        (active_exclusive_kind s)
        s.active_degradation_jobs
        job.kind
        (degradation_node job.kind node)
      ≡ true
    → Kept (push_job job (degradation_node job.kind node) s)
push_job-Kept s job node l fresh h =
    let e = active_exclusive_kind_lem s in
    elim (jobs_are_compatible-Admits (active_exclusive_kind s) s.active_degradation_jobs job.kind
      node h) [
        | inl (k, m, (n, q, free)) ↦
            rw (q, push_job, enter_lane)
              (grow_degradation s.jobs job s.active_job_id s.active_degradation_jobs n l fresh k
                (rw e at m) free)
        | inr (other, a, q, fits) ↦
            rw (q, push_job, enter_lane)
              (grow_exclusive s.jobs job s.active_job_id s.active_degradation_jobs l fresh other
                (no_kind_lem s.jobs s.active_job_id l.exclusive (sym e ∙ a)) fits)
      ]
