-- ===== src/Mining/Bootstrap/Plan.antt =====
-- The reward addresses that the stage table asks for, block by block.
use native.Mathlib.Nat.{zero-add}
use simchain.Base.{
  ℕ, zero, suc, ◌+◌, ◌-◌, ◌≤◌, ◌≡◌, ap, sym, ◌∙◌, List, [], ◌∷◌, ◌++◌, append_assoc, length,
  replicate, arith,
}
use simchain.Mining.Bootstrap.{Address, Stage, stages}

-- what the stages mine above height `low`
abbrev pub plan_from : ℕ → List Stage → List Address
plan_from low [] = []
plan_from low (stage ∷ rest) =
    replicate (stage.target - low) stage.addr ++ plan_from stage.target rest

abbrev pub plan : List Address
plan = plan_from 0 stages

-- the chain is a beginning of the plan
abbrev pub IsPlanned : List Address → Type 0
IsPlanned chain = (post : List Address) × (chain ++ post ≡ plan)

module _ {A : Type 0} where
  replicate-add : (k j : ℕ) (a : A) → replicate (k + j) a ≡ replicate k a ++ replicate j a
  replicate-add zero j a = rw zero-add
  replicate-add (suc k) j a =
      let e : suc k + j ≡ suc (k + j) = omega arith in rw e (ap (◌∷◌ a) (replicate-add k j a))

  -- a beginning that reaches into a segment leaves the rest of the segment
  segment_start :
      (c post r : List A) (a : A) (d : ℕ)
      → c ++ post ≡ replicate d a ++ r
      → length c ≤ d
      → post ≡ replicate (d - length c) a ++ r
  segment_start [] post r a d e le = e ∙ ap (λ j. replicate j a ++ r) (omega arith)
  segment_start (x ∷ c) post r a zero e le = absurd (omega arith)
  segment_start (x ∷ c) post r a (suc d) e le =
      let m : suc d - suc (length c) ≡ d - length c = omega arith in
      rw m (segment_start c post r a d (cc) (omega arith))

  segment :
      (pre c post r : List A) (a : A) (d : ℕ)
      → c ++ post ≡ pre ++ (replicate d a ++ r)
      → length pre ≤ length c
      → length c ≤ length pre + d
      → post ≡ replicate (length pre + d - length c) a ++ r
  segment [] c post r a d e le le' =
      let m : 0 + d - length c ≡ d - length c = omega arith in
      rw m (segment_start c post r a d e (omega arith))
  segment (p ∷ pre) [] post r a d e le le' = absurd (omega arith)
  segment (p ∷ pre) (x ∷ c) post r a d e le le' =
      let m : suc (length pre) + d - suc (length c) ≡ length pre + d - length c = omega arith in
      rw m (segment pre c post r a d (cc) (omega arith) (omega arith))

  -- blocks of the segment's address continue the plan
  pub extend :
      (pre c post r : List A) (a : A) (d k : ℕ)
      → c ++ post ≡ pre ++ (replicate d a ++ r)
      → length pre ≤ length c
      → length c + k ≤ length pre + d
      → (post' : List A) × ((c ++ replicate k a) ++ post' ≡ pre ++ (replicate d a ++ r))
  extend pre c post r a d k e le le' =
      let m = length pre + d - length c in
      let post' = replicate (m - k) a ++ r in
      let s : k + (m - k) ≡ m = omega arith in
      (
        post',
        append_assoc c (replicate k a) post'
            ∙ ap (◌++◌ c) (sym (append_assoc (replicate k a) (replicate (m - k) a) r))
            ∙ ap (λ x. c ++ (x ++ r)) (sym (replicate-add k (m - k) a) ∙ ap (λ j. replicate j a) s)
            ∙ ap (◌++◌ c) (sym (segment pre c post r a d e le (omega arith)))
            ∙ e,
      )
