-- ===== src/Scenario/Validity.antt =====
-- crates/scenario-engine/src/schema.rs: `Scenario::validate` accepts exactly the well-formed scenarios.
use simchain.Base.{
  ℕ, suc, Bool, true, false, ◌||◌, String, String-eq, List, [], ◌∷◌, ◌≡◌, ◌↔◌, ◌∙◌, inl, inr,
  nat_eq, nat_eq_iff, All, ◌==◌, ==_refl, ==_sound, ok, arith, refl, sym, Option-cases, Bool-cases,
}
use simchain.Scenario.Schema.{Step, Scenario}
use simchain.Scenario.Validate.{
  LossTests, contains, checkpoint_name, insert_name, step_error, validate_steps, validate,
}
use simchain.Scenario.Valid.{WellFormed, checkpoint_names, Distinct}
use simchain.Scenario.Checks.{NewName, step_error_iff}

-- each name is new to the names before and to these
abbrev Apart : {F : Type 0} → List String → List (Step F) → Type 0
Apart names [] = Unit
Apart names (step ∷ steps) =
    NewName names (checkpoint_name step) × Apart (insert_name (checkpoint_name step) names) steps

abbrev NoneOf : List String → List String → Type 0
NoneOf names = All (λ name. contains name names ≡ false)

==_turn : (a b : String) → (a == b) ≡ true → (b == a) ≡ true
==_turn a b q = rw (==_sound a b q) (==_refl b)

==_flip : (a b : String) → (a == b) ≡ (b == a)
==_flip a b = elim (Bool-cases (a == b)) [
  | inl q ↦ q ∙ sym (==_turn a b q)
  | inr q ↦ elim (Bool-cases (b == a)) [
    | inl p ↦ absurd (ground (arith, ==_turn b a p))
    | inr p ↦ q ∙ sym p
  ]
]

or_iff : (a b : Bool) → ((a || b) ≡ false) ↔ ((a ≡ false) × (b ≡ false))
or_iff a b = ground arith

NoneOf-nil : (cs : List String) → NoneOf [] cs
NoneOf-nil [] = tt
NoneOf-nil (c ∷ cs) = (refl, NoneOf-nil cs)

NoneOf-cons :
    (x : String) (names cs : List String)
    → NoneOf (x ∷ names) cs ↔ (NoneOf names cs × (contains x cs ≡ false))
NoneOf-cons x names [] = (λ h. (tt, refl), λ h. tt)
NoneOf-cons x names (c ∷ cs) =
    let k = NoneOf-cons x names cs in
    let here = or_iff (c == x) (contains c names) in
    let there = or_iff (x == c) (contains x cs) in
    (
      λ (h, hs).
          let (e, m) = here.0 h in
          let (ms, m') = k.0 hs in ((m, ms), there.1 (==_flip x c ∙ e, m')),
      λ ((m, ms), h). let (e, m') = there.0 h in (here.1 (==_flip c x ∙ e, m), k.1 (ms, m')),
    )

Apart-iff :
    {F : Type 0} (names : List String) (steps : List (Step F))
    → Apart names steps
      ↔ (Distinct (checkpoint_names steps) × NoneOf names (checkpoint_names steps))
Apart-iff names [] = (λ h. (tt, tt), λ h. tt)
Apart-iff names (step ∷ steps) = elim (Option-cases (checkpoint_name step)) [
  | inl q ↦ let k = Apart-iff names steps in rw q (λ h. k.0 h.1, λ h. (tt, k.1 h))
  | inr (x, q) ↦
      let k = Apart-iff (x ∷ names) steps in
      let n = NoneOf-cons x names (checkpoint_names steps) in
      rw q (
        λ (m, h). let (d, ms) = k.0 h in let (ms', m') = n.0 ms in ((m', d), (m, ms')),
        λ ((m', d), (m, ms')). (m, k.1 (d, n.1 (ms', m'))),
      )
]

module _ {F : Type 0} (loss : LossTests F) where
  validate_steps_iff :
      (index : ℕ) (names : List String) (steps : List (Step F))
      → (validate_steps loss index names steps ≡ ok tt)
        ↔ (All (WellFormed loss) steps × Apart names steps)
  unfolding validate_steps
  validate_steps_iff index names [] = (λ h. (tt, tt), λ h. refl)
  validate_steps_iff index names (step ∷ steps) =
      let k = validate_steps_iff (suc index) (insert_name (checkpoint_name step) names) steps in
      let s = step_error_iff loss names step in
      elim (Option-cases (step_error loss names step)) [
        | inl q ↦
            let (w, n) = s.0 q in
            rw (q, validate_steps)
              (
                λ h. let (ws, ns) = k.0 h in ((w, ws), (n, ns)),
                λ ((w', ws), (n', ns)). k.1 (ws, ns),
              )
        | inr (e, q) ↦
            rw (q, validate_steps)
              (
                λ h. absurd (ground arith),
                λ ((w, ws), (n, ns)). let q' = s.1 (w, n) in absurd (ground arith),
              )
      ]

  -- The check accepts a scenario exactly if its version is 1, each of its steps is well-formed, by
  -- itself, and no two of its checkpoints have the same name.
  pub validate_iff :
      (scenario : Scenario F)
      → (validate loss scenario ≡ ok tt) ↔ (
          (scenario.version ≡ 1)
          × All (WellFormed loss) scenario.steps
          × Distinct (checkpoint_names scenario.steps))
  unfolding validate
  validate_iff scenario =
      let k = validate_steps_iff 0 [] scenario.steps in
      let n = Apart-iff [] scenario.steps in
      elim (Bool-cases (nat_eq scenario.version 1)) [
        | inl q ↦
            rw (q, validate)
              (
                λ h. let (ws, a) = k.0 h in ((nat_eq_iff scenario.version 1).0 q, ws, (n.0 a).0),
                λ (v, ws, d). k.1 (ws, n.1 (d, NoneOf-nil (checkpoint_names scenario.steps))),
              )
        | inr q ↦
            rw (q, validate)
              (
                λ h. absurd (ground arith),
                λ (v, ws, d). let v' = (nat_eq_iff scenario.version 1).1 v in absurd (ground arith),
              )
      ]
