-- ===== src/Mining/Rng/Draw.antt =====
-- The draw below a bound ends, and its result is below the bound.
use simchain.Base.{
  ℕ, zero, suc, ◌+◌, ◌-◌, ◌*◌, ◌%◌, ◌≤◌, ◌<◌, ◌≡◌, ap, ◌∙◌, some, arith, le→leb, Bool-cases, inl,
  inr, leb,
}
use native.Mathlib.Nat.{mod-lt}
use simchain.Mining.Rng.{
  Rng, u64_mod, gamma, mix, advance, threshold, next_below_within, next_below,
}
use simchain.Mining.Rng.Mix.{unmix, unmix-lt, mix-unmix}

threshold-lt : (upper : ℕ) → 0 < upper → threshold upper < upper
unfolding threshold
threshold-lt upper h = mod-lt _ h

next_below_within-lt :
    (fuel upper : ℕ) (r : Rng) (value : ℕ) (r' : Rng)
    → 0 < upper
    → next_below_within fuel upper r ≡ some (value, r')
    → value < upper
unfolding next_below_within
next_below_within-lt zero upper r value r' h e = cc
next_below_within-lt (suc fuel) upper r value r' h e = ground (
  arith,
  next_below_within-lt fuel upper (advance r) value r' h,
  mod-lt (mix (advance r).state) h,
)

-- the state after `k` more rounds
abbrev after : ℕ → Rng → Rng
after zero r = r
after (suc k) r = after k (advance r)

after-state : (k : ℕ) (r : Rng) → (after (suc k) r).state ≡ (r.state + gamma * suc k) % u64_mod
unfolding advance
after-state zero r = omega arith
after-state (suc k) r = omega (arith, after-state k (advance r))

-- A round whose output is accepted ends the loop, at the latest.
accepts :
    (k fuel upper : ℕ) (r : Rng)
    → k < fuel
    → threshold upper ≤ mix (after (suc k) r).state
    → (out : ℕ × Rng) × (next_below_within fuel upper r ≡ some out)
unfolding next_below_within
accepts k zero upper r h e = absurd (omega arith)
accepts zero (suc fuel) upper r h e = (
  (mix (advance r).state % upper, advance r),
  rw (le→leb (threshold upper) (mix (advance r).state) e),
)
accepts (suc k) (suc fuel) upper r h e =
    elim (Bool-cases (leb (threshold upper) (mix (advance r).state))) [
      | inl hit ↦ ((mix (advance r).state % upper, advance r), rw hit)
      | inr miss ↦ rw miss (accepts k fuel upper (advance r) (omega arith) e)
    ]

abbrev gamma_inverse : ℕ
gamma_inverse = 0xF1DE83E19937733D

-- The stream visits every state: rounds from `state` to `goal`.
rounds : ℕ → ℕ → ℕ
rounds state goal = (goal + u64_mod * 2 - gamma - state % u64_mod) * gamma_inverse % u64_mod

rounds_reach :
    (state goal : ℕ) → goal < u64_mod → (state + gamma * suc (rounds state goal)) % u64_mod ≡ goal
unfolding rounds
rounds_reach state goal h = omega arith

abbrev top : ℕ
top = u64_mod - 1

rounds-lt : (state goal : ℕ) → rounds state goal < u64_mod
unfolding rounds
rounds-lt state goal = omega arith

reaches_top : (r : Rng) → mix (after (suc (rounds r.state (unmix top))) r).state ≡ top
reaches_top r =
    ap mix (after-state (rounds r.state (unmix top)) r)
    ∙ ap mix (rounds_reach r.state (unmix top) (unmix-lt top))
    ∙ mix-unmix top (omega arith)

-- For every positive 64-bit bound and every state of the stream, the draw ends within 2^64
-- rounds and returns a number below the bound.
pub next_below-lt :
    (upper : ℕ) (r : Rng)
    → 0 < upper
    → upper < u64_mod
    → (value : ℕ) × (r' : Rng) × (next_below upper r ≡ some (value, r')) × (value < upper)
unfolding next_below
next_below-lt upper r positive fits =
    let ((value, r'), e) =
      accepts (rounds r.state (unmix top)) u64_mod upper r (rounds-lt r.state (unmix top))
        (omega (arith, reaches_top r, threshold-lt upper positive)) in
    (value, r', e, next_below_within-lt u64_mod upper r value r' positive e)
