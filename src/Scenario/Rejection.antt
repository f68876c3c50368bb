-- ===== src/Scenario/Rejection.antt =====
-- crates/scenario-engine/src/schema.rs: chains of tests as conjunctions.
use simchain.Base.{
  ℕ, ◌≤◌, ◌<◌, Bool, true, false, not, ◌&&◌, ◌||◌, String, String-eq, Option, none, List, [], ◌∷◌,
  ◌≡◌, ◌⊎◌, ◌↔◌, ltb, nat_eq, length, arith, refl,
}
use simchain.Amount.{is_nil}
use simchain.Scenario.Validate.{reject}

-- a chain of tests has no message exactly if no test is met and what comes after has none
pub reject_iff :
    {P Q : Type 0} (b : Bool) (message : String) (rest : Option String)
    → (b ≡ false) ↔ P
    → (rest ≡ none) ↔ Q
    → (reject b message rest ≡ none) ↔ (P × Q)
reject_iff true message rest p q =
    (λ h. absurd (ground arith), λ h. absurd (ground (arith, p.1 h.0)))
reject_iff false message rest p q = (λ h. (p.0 refl, q.0 h), λ h. q.1 h.1)

pub reject_last :
    {P : Type 0} (b : Bool) (message : String)
    → (b ≡ false) ↔ P
    → (reject b message none ≡ none) ↔ P
reject_last true message p = (λ h. absurd (ground arith), λ h. absurd (ground (arith, p.1 h)))
reject_last false message p = (λ h. p.0 refl, λ h. refl)

pub flat3 : {X A B C : Type 0} → X ↔ (A × (B × C)) → X ↔ (A × B × C)
flat3 k = (λ h. let (a, (b, c)) = k.0 h in (a, b, c), λ (a, b, c). k.1 (a, (b, c)))

pub flat4 : {X A B C D : Type 0} → X ↔ (A × (B × (C × D))) → X ↔ (A × B × C × D)
flat4 k = (λ h. let (a, (b, (c, d))) = k.0 h in (a, b, c, d), λ (a, b, c, d). k.1 (a, (b, (c, d))))

pub flat5 : {X A B C D E : Type 0} → X ↔ (A × (B × (C × (D × E)))) → X ↔ (A × B × C × D × E)
flat5 k = (
  λ h. let (a, (b, (c, (d, e)))) = k.0 h in (a, b, c, d, e),
  λ (a, b, c, d, e). k.1 (a, (b, (c, (d, e)))),
)

pub is_zero_iff : (n : ℕ) → (nat_eq n 0 ≡ false) ↔ (0 < n)
is_zero_iff n = ground arith

pub exceeds_iff : (bound n : ℕ) → (ltb bound n ≡ false) ↔ (n ≤ bound)
exceeds_iff bound n = ground arith

pub is_nil_iff : {A : Type 0} (xs : List A) → (is_nil xs ≡ false) ↔ (0 < length xs)
is_nil_iff [] = ground arith
is_nil_iff (x ∷ xs) = ground arith

pub both_iff : (a b : Bool) → ((not a || not b) ≡ false) ↔ ((a ≡ true) × (b ≡ true))
both_iff a b = ground arith

pub name_iff : (nil safe : Bool) → ((nil || not safe) ≡ false) ↔ ((nil ≡ false) × (safe ≡ true))
name_iff nil safe = ground arith

pub effect_iff :
    (delay : ℕ) (z : Bool) → ((nat_eq delay 0 && z) ≡ false) ↔ ((0 < delay) ⊎ (z ≡ false))
effect_iff delay z = ground arith

pub positive_iff : (a b : ℕ) → ((nat_eq a 0 || nat_eq b 0) ≡ false) ↔ ((0 < a) × (0 < b))
positive_iff a b = ground arith

pub differ_iff : (a b : ℕ) → (nat_eq a b ≡ false) ↔ ¬ (a ≡ b)
differ_iff a b = ground arith

pub same_iff : {P : Type 0} → P ↔ P
same_iff = (λ p. p, λ p. p)
