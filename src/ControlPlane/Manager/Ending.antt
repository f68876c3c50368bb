-- ===== src/ControlPlane/Manager/Ending.antt =====
-- crates/control-plane/src/jobs.rs: a job that is over gives its lane back.
use simchain.Base.{
  Bool, true, false, not, String, String-eq, Option, none, some, List, [], ◌∷◌, ◌≡◌, ◌⊎◌, inl, inr,
  refl, sym, ap, subst, ◌∙◌, arith, if◌then◌else◌, ◌==◌, ==_sound, All, Bool-cases,
}
use simchain.Base.Table.{retain}
use simchain.ControlPlane.Manager.{
  StoredJob, ManagerState, is_terminal, find_stored, update, other_than, clear_active_lane,
}
use simchain.ControlPlane.Manager.Lanes.{
  kind_at, kind_at_step, In, HasLane, Settled, Distinct, DegradationFits,
}
use simchain.ControlPlane.Manager.History.{Kept}

-- what holds of a job if it has this name
abbrev pub At : (StoredJob → Type 0) → String → StoredJob → Type 0
At P id job = P job ⊎ ((job.id == id) ≡ false)

abbrev pub Over : StoredJob → Type 0
Over job = is_terminal job.state ≡ true

abbrev pub OverAt : String → StoredJob → Type 0
OverAt = At Over

absent-At :
    (P : StoredJob → Type 0) (id : String) (jobs : List StoredJob)
    → kind_at jobs id ≡ none
    → All (At P id) jobs
absent-At P id [] n = tt
absent-At P id (job ∷ jobs) n =
    let n' : (if job.id == id then some job.kind else kind_at jobs id) ≡ none =
      sym (kind_at_step job jobs id) ∙ n in
    elim (Bool-cases (job.id == id)) [
      | inl e ↦ absurd (ground (arith, n', e))
      | inr e ↦ (inr e, absent-At P id jobs (rw e at n'))
    ]

-- ending a job leaves no other one of its name
pub update-OverAt :
    (id : String) (f : StoredJob → StoredJob) (jobs : List StoredJob)
    → ((job : StoredJob) → is_terminal (f job).state ≡ true)
    → Distinct jobs
    → All (OverAt id) (update id f jobs)
unfolding update
update-OverAt id f [] t d = tt
update-OverAt id f (job ∷ jobs) t (d, ds) = elim (Bool-cases (job.id == id)) [
  | inl e ↦ rw (e, update) (inl (t job), absent-At Over id jobs (rw (==_sound job.id id e) at d))
  | inr e ↦ rw (e, update) (inr e, update-OverAt id f jobs t ds)
]

-- what holds of the stored job of this name
pub find_stored-At :
    (P : StoredJob → Type 0) (id : String) (jobs : List StoredJob) (job : StoredJob)
    → Distinct jobs
    → find_stored id jobs ≡ some job
    → P job
    → All (At P id) jobs
unfolding find_stored
find_stored-At P id [] job d q t = absurd (cc)
find_stored-At P id (j ∷ jobs) job (d, ds) q t = elim (Bool-cases (j.id == id)) [
  | inl e ↦
      let found : some j ≡ some job = rw (e, find_stored) at q in
      let same : j ≡ job = ap (λ o. elim o [ none ↦ j | some x ↦ x ]) found in
      (inl (subst P (sym same) t), absent-At P id jobs (rw (==_sound j.id id e) at d))
  | inr e ↦ (inr e, find_stored-At P id jobs job ds (rw (e, find_stored) at q) t)
]

retain-In :
    (id i : String) (m : List (String × String))
    → (i == id) ≡ false
    → In i m
    → In i (retain (λ active. not (active == id)) m)
unfolding retain
retain-In id i [] n h = absurd h
retain-In id i ((node, other) ∷ m) n (inl q) = rw (q, n, retain) (inl refl)
retain-In id i ((node, other) ∷ m) n (inr h) = elim (Bool-cases (other == id)) [
  | inl e ↦ rw (e, retain) (retain-In id i m n h)
  | inr e ↦ rw (e, retain) (inr (retain-In id i m n h))
]

retain-All :
    (P : String × String → Type 0) (p : String → Bool) (m : List (String × String))
    → All P m
    → All P (retain p m)
unfolding retain
retain-All P p [] h = tt
retain-All P p ((node, id) ∷ m) (h, hs) = elim (Bool-cases (p id)) [
  | inl e ↦ rw (e, retain) (h, retain-All P p m hs)
  | inr e ↦ rw (e, retain) (retain-All P p m hs)
]

other_than-cases :
    (id : String) (active : Option String)
    → (other_than id active ≡ none) ⊎ (other_than id active ≡ active)
other_than-cases id none = inl refl
other_than-cases id (some i) = elim (Bool-cases (i == id)) [
  | inl e ↦ inl (rw e refl)
  | inr e ↦ inr (rw e refl)
]

HasLane-cleared :
    (id i : String) (active : Option String) (m : List (String × String))
    → (i == id) ≡ false
    → HasLane active m i
    → HasLane (other_than id active) (retain (λ a. not (a == id)) m) i
HasLane-cleared id i active m n (inr h) = inr (retain-In id i m n h)
HasLane-cleared id i active m n (inl q) = inl (rw (q, other_than, n) refl)

Settled-cleared :
    (id : String) (active : Option String) (m : List (String × String)) (jobs : List StoredJob)
    → All (OverAt id) jobs
    → All (Settled active m) jobs
    → All (Settled (other_than id active) (retain (λ a. not (a == id)) m)) jobs
Settled-cleared id active m [] o s = tt
Settled-cleared id active m (job ∷ jobs) (inl t, os) (s, ss) =
    (inl t, Settled-cleared id active m jobs os ss)
Settled-cleared id active m (job ∷ jobs) (inr n, os) (inl t, ss) =
    (inl t, Settled-cleared id active m jobs os ss)
Settled-cleared id active m (job ∷ jobs) (inr n, os) (inr h, ss) =
    (inr (HasLane-cleared id job.id active m n h), Settled-cleared id active m jobs os ss)

-- a lane that is given back, of a job that is over
pub clear_active_lane-Kept :
    (id : String) (s : ManagerState)
    → All (OverAt id) s.jobs
    → Kept s
    → Kept (clear_active_lane id s)
unfolding retain
clear_active_lane-Kept id s o l = record {
  settled = Settled-cleared id s.active_job_id s.active_degradation_jobs s.jobs o l.settled;
  distinct = l.distinct;
  exclusive = elim (other_than-cases id s.active_job_id) [
    | inl q ↦ rw q tt
    | inr q ↦ rw q l.exclusive
  ];
  degraded =
      retain-All (DegradationFits s.jobs) (λ a. not (a == id)) s.active_degradation_jobs l.degraded;
  compatible = elim l.compatible [
    | inl e ↦ inl (ap (retain (λ a. not (a == id))) e)
    | inr c ↦
        inr (elim (other_than-cases id s.active_job_id) [ inl q ↦ rw q refl | inr q ↦ rw q c ])
  ];
}
