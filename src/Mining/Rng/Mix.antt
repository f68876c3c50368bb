-- ===== src/Mining/Rng/Mix.antt =====
-- The output function of SplitMix64 reaches every 64-bit value.
use Prim.Native.Nat.{bit_xor}
use simchain.Base.{ℕ, ◌*◌, ◌/◌, ◌%◌, ◌^◌, ◌<◌, ◌≤◌, ◌≡◌, refl, sym, ap, ◌∙◌, arith}
use native.Mathlib.Nat.{div-le_self}
use simchain.Base.Xor.{bit_xor_self, bit_xor-zero, bit_xor_assoc, bit_xor-lt_pow, bit_xor-shift}
use simchain.Mining.Rng.{u64_mod, xor_shift, mix, first_factor, second_factor}

-- two shifts undo one, for a shift of a third of the word or more
unshift : ℕ → ℕ → ℕ
unshift k y = bit_xor (bit_xor y (y / 2 ^ k)) (y / 2 ^ k / 2 ^ k)

cancel : (y a b : ℕ) → bit_xor (bit_xor (bit_xor y a) b) (bit_xor (bit_xor a b) 0) ≡ y
cancel y a b =
    bit_xor_assoc (bit_xor y a) b _ ∙ bit_xor_assoc y a _ ∙ ap (bit_xor y) (rest) ∙ bit_xor-zero y
  where
    rest : bit_xor a (bit_xor b (bit_xor (bit_xor a b) 0)) ≡ 0
    rest =
        sym (bit_xor_assoc a b _)
        ∙ ap (bit_xor (bit_xor a b)) (bit_xor-zero (bit_xor a b))
        ∙ bit_xor_self (bit_xor a b)

xor_shift-unshift : (k y : ℕ) → y / 2 ^ k / 2 ^ k / 2 ^ k ≡ 0 → xor_shift k (unshift k y) ≡ y
unfolding xor_shift unshift
xor_shift-unshift k y h =
    rw
      (
        bit_xor-shift k (bit_xor y (y / 2 ^ k)) (y / 2 ^ k / 2 ^ k),
        bit_xor-shift k y (y / 2 ^ k),
        h,
      )
      (cancel y (y / 2 ^ k) (y / 2 ^ k / 2 ^ k))

xor-lt : (a b : ℕ) → a < u64_mod → b < u64_mod → bit_xor a b < u64_mod
xor-lt = bit_xor-lt_pow 64

pub xor_shift-lt : (k z : ℕ) → z < u64_mod → xor_shift k z < u64_mod
unfolding xor_shift
xor_shift-lt k z h = xor-lt z (z / 2 ^ k) h (omega (arith, div-le_self z (2 ^ k)))

unshift-lt : (k y : ℕ) → y < u64_mod → unshift k y < u64_mod
unfolding unshift
unshift-lt k y h =
    let a : y / 2 ^ k ≤ y = div-le_self y (2 ^ k) in
    let b : y / 2 ^ k / 2 ^ k ≤ y / 2 ^ k = div-le_self (y / 2 ^ k) (2 ^ k) in
    xor-lt _ _ (xor-lt y (y / 2 ^ k) h (omega arith)) (omega arith)

pub mix-lt : (z : ℕ) → mix z < u64_mod
unfolding mix
mix-lt z = xor_shift-lt 31 _ (omega arith)

abbrev first_inverse : ℕ
first_inverse = 0x96DE1B173F119089

abbrev second_inverse : ℕ
second_inverse = 0x319642B2D24D8EC3

first_undone : (a : ℕ) → a < u64_mod → a * first_inverse % u64_mod * first_factor % u64_mod ≡ a
first_undone a h = omega arith

second_undone : (a : ℕ) → a < u64_mod → a * second_inverse % u64_mod * second_factor % u64_mod ≡ a
second_undone a h = omega arith

pub unmix : ℕ → ℕ
unmix y =
    let b = unshift 31 y * second_inverse % u64_mod in
    unshift 30 (unshift 27 b * first_inverse % u64_mod)

pub unmix-lt : (y : ℕ) → unmix y < u64_mod
unfolding unmix
unmix-lt y = unshift-lt 30 _ (omega arith)

abbrev round : ℕ → ℕ → ℕ → ℕ
round k factor z = xor_shift k z * factor % u64_mod

mix_lem : (z : ℕ) → mix z ≡ xor_shift 31 (round 27 second_factor (round 30 first_factor z))
unfolding mix
mix_lem z = refl

first_round :
    (a : ℕ) → a < u64_mod → round 30 first_factor (unshift 30 (a * first_inverse % u64_mod)) ≡ a
first_round a h =
    rw (xor_shift-unshift 30 (a * first_inverse % u64_mod) (omega arith)) (first_undone a h)

second_round :
    (a : ℕ) → a < u64_mod → round 27 second_factor (unshift 27 (a * second_inverse % u64_mod)) ≡ a
second_round a h =
    rw (xor_shift-unshift 27 (a * second_inverse % u64_mod) (omega arith)) (second_undone a h)

-- Every 64-bit value is an output.
pub mix-unmix : (y : ℕ) → y < u64_mod → mix (unmix y) ≡ y
unfolding unmix
mix-unmix y h =
    let a = unshift 31 y in
    let b = unshift 27 (a * second_inverse % u64_mod) in
    mix_lem (unmix y)
    ∙ ap (λ x. xor_shift 31 (round 27 second_factor x))
        (first_round b (unshift-lt 27 _ (omega arith)))
    ∙ ap (xor_shift 31) (second_round a (unshift-lt 31 y h))
    ∙ xor_shift-unshift 31 y (omega arith)
