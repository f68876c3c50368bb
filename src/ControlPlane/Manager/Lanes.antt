-- ===== src/ControlPlane/Manager/Lanes.antt =====
-- crates/control-plane/src/jobs.rs: what holds of the jobs and their lanes.
use simchain.Base.{
  true, false, String, String-eq, Option, none, some, List, [], ◌∷◌, ◌≡◌, ◌⊎◌, inl, inr, refl, sym,
  ap, ◌∙◌, if◌then◌else◌, ◌==◌, All, Bool-cases,
}
use simchain.ControlPlane.Manager.{
  JobKind, degrade, StoredJob, is_terminal, same_kind, find_stored, update, kind_of, none_or_mine,
}

abbrev pub kind_at : List StoredJob → String → Option JobKind
kind_at jobs id = kind_of (find_stored id jobs)

pub kind_at_step :
    (job : StoredJob) (jobs : List StoredJob) (i : String)
    → kind_at (job ∷ jobs) i ≡ (if job.id == i then some job.kind else kind_at jobs i)
unfolding find_stored
kind_at_step job jobs i = elim (Bool-cases (job.id == i)) [
  | inl q ↦ rw (q, find_stored) refl
  | inr q ↦ rw (q, find_stored) refl
]

abbrev pub In : String → List (String × String) → Type 0
In id [] = ⊥
In id ((node, other) ∷ entries) = (other ≡ id) ⊎ In id entries

abbrev pub HasLane : Option String → List (String × String) → String → Type 0
HasLane active degradations id = (active ≡ some id) ⊎ In id degradations

-- a job that is not over holds a lane
abbrev pub Settled : Option String → List (String × String) → StoredJob → Type 0
Settled active degradations job =
    (is_terminal job.state ≡ true) ⊎ HasLane active degradations job.id

abbrev pub Distinct : List StoredJob → Type 0
Distinct [] = Unit
Distinct (job ∷ jobs) = (kind_at jobs job.id ≡ none) × Distinct jobs

-- the exclusive lane holds a stored job that degrades no node
abbrev pub ExclusiveFits : List StoredJob → Option String → Type 0
ExclusiveFits jobs none = Unit
ExclusiveFits jobs (some id) =
    (kind : JobKind) × (kind_at jobs id ≡ some kind) × (same_kind kind degrade ≡ false)

-- the lane of a node holds a stored job that degrades one
abbrev pub DegradationFits : List StoredJob → String × String → Type 0
DegradationFits jobs (node, id) = kind_at jobs id ≡ some degrade

abbrev pub exclusive_kind : List StoredJob → Option String → Option JobKind
exclusive_kind jobs none = none
exclusive_kind jobs (some id) = kind_at jobs id

pub record Lanes (jobs : List StoredJob) (active : Option String)
    (degradations : List (String × String)) : Type 0 where
  pub settled : All (Settled active degradations) jobs
  pub distinct : Distinct jobs
  pub exclusive : ExclusiveFits jobs active
  pub degraded : All (DegradationFits jobs) degradations
  -- beside a degraded node, only blocks are mined
  pub compatible : (degradations ≡ []) ⊎ (none_or_mine (exclusive_kind jobs active) ≡ true)

pub All-map :
    {A : Type 0} {P Q : A → Type 0} (xs : List A) → ((x : A) → P x → Q x) → All P xs → All Q xs
All-map [] f h = tt
All-map (x ∷ xs) f (h, hs) = (f x h, All-map xs f hs)

pub degraded_map :
    (jobs jobs' : List StoredJob) (active : Option String) (entries : List (String × String))
    → ((id : String) (k : JobKind)
        → In id entries
        → kind_at jobs id ≡ some k
        → kind_at jobs' id ≡ some k)
    → All (DegradationFits jobs) entries
    → All (DegradationFits jobs') entries
degraded_map jobs jobs' active [] keep h = tt
degraded_map jobs jobs' active ((node, id) ∷ entries) keep (h, hs) = (
  keep id degrade (inl refl) h,
  degraded_map jobs jobs' active entries (λ i k l. keep i k (inr l)) hs,
)

-- other jobs in the same lanes, where each lane keeps the kind of its job
pub Lanes-keep :
    (jobs jobs' : List StoredJob) (active : Option String) (degradations : List (String × String))
    → ((id : String) (k : JobKind)
        → HasLane active degradations id
        → kind_at jobs id ≡ some k
        → kind_at jobs' id ≡ some k)
    → All (Settled active degradations) jobs'
    → Distinct jobs'
    → Lanes jobs active degradations
    → Lanes jobs' active degradations
Lanes-keep jobs jobs' none degradations keep s d l = record {
  settled = s;
  distinct = d;
  exclusive = tt;
  degraded = degraded_map jobs jobs' none degradations (λ i k h. keep i k (inr h)) l.degraded;
  compatible = inr refl;
}
Lanes-keep jobs jobs' (some id) degradations keep s d l =
    let (kind, q, n) = l.exclusive in
    let q' = keep id kind (inl refl) q in
    record {
      settled = s;
      distinct = d;
      exclusive = (kind, q', n);
      degraded =
          degraded_map jobs jobs' (some id) degradations (λ i k h. keep i k (inr h)) l.degraded;
      compatible = elim l.compatible [
        | inl e ↦ inl e
        | inr c ↦ inr (ap none_or_mine (q' ∙ sym q) ∙ c)
      ];
    }

module _ (id : String) (f : StoredJob → StoredJob) where
  -- a change that leaves a job its name and its kind
  abbrev pub Renames : Type 0
  Renames = (job : StoredJob) → ((f job).id ≡ job.id) × ((f job).kind ≡ job.kind)

  pub update-kind_at :
      (jobs : List StoredJob) (i : String) → Renames → kind_at (update id f jobs) i ≡ kind_at jobs i
  unfolding update
  update-kind_at [] i r = refl
  update-kind_at (job ∷ jobs) i r = elim (Bool-cases (job.id == id)) [
    | inl q ↦
        let (e, k) = r job in
        rw (q, update, kind_at_step (f job) jobs i, kind_at_step job jobs i, e, k) refl
    | inr q ↦
        rw
          (
            q,
            update,
            kind_at_step job (update id f jobs) i,
            kind_at_step job jobs i,
            update-kind_at jobs i r,
          )
          refl
  ]

  pub update-Distinct :
      (jobs : List StoredJob) → Renames → Distinct jobs → Distinct (update id f jobs)
  unfolding update
  update-Distinct [] r d = tt
  update-Distinct (job ∷ jobs) r (d, ds) = elim (Bool-cases (job.id == id)) [
    | inl q ↦ rw (q, update) (ap (kind_at jobs) (r job).0 ∙ d, ds)
    | inr q ↦ rw (q, update) (update-kind_at jobs job.id r ∙ d, update-Distinct jobs r ds)
  ]

  pub update-All :
      {P : StoredJob → Type 0} (jobs : List StoredJob)
      → ((job : StoredJob) → (job.id == id) ≡ true → P job → P (f job))
      → All P jobs
      → All P (update id f jobs)
  unfolding update
  update-All [] k h = tt
  update-All (job ∷ jobs) k (h, hs) = elim (Bool-cases (job.id == id)) [
    | inl q ↦ rw (q, update) (k job q h, hs)
    | inr q ↦ rw (q, update) (h, update-All jobs k hs)
  ]
