-- ===== src/Mining/Rng.antt =====
-- crates/mining-controller/src/rng.rs: the SplitMix64 stream and the draw below a bound.
-- A `u64` is a natural number below `u64_mod`; its wrapping operations are written out. The
-- floating-point samples (`next_f64`, `next_exp`) and the entropy seed are not modelled.
pub mod Mix
pub mod Draw
pub mod Fair
pub mod Tests
use Prim.Native.Nat.{bit_xor}
use simchain.Base.{
  ℕ, zero, suc, ◌+◌, ◌-◌, ◌*◌, ◌/◌, ◌%◌, ◌^◌, Option, none, some, leb, if◌then◌else◌,
}

abbrev pub u64_mod : ℕ
u64_mod = 2 ^ 64

-- `self.0`, the state of the stream
pub record Rng : Type 0 where
  pub state : ℕ

unfoldable pub new : ℕ → Rng
new seed = record { state = seed }

abbrev pub gamma : ℕ
gamma = 0x9E3779B97F4A7C15

abbrev pub first_factor : ℕ
first_factor = 0xBF58476D1CE4E5B9

abbrev pub second_factor : ℕ
second_factor = 0x94D049BB133111EB

-- z ^ (z >> k)
pub xor_shift : ℕ → ℕ → ℕ
xor_shift k z = bit_xor z (z / 2 ^ k)

-- the output function of `next_u64`
unfoldable pub mix : ℕ → ℕ
unfolding xor_shift
mix z =
    let a = xor_shift 30 z * first_factor % u64_mod in
    let b = xor_shift 27 a * second_factor % u64_mod in xor_shift 31 b

pub advance : Rng → Rng
advance r = record { state = (r.state + gamma) % u64_mod }

unfoldable pub next_u64 : Rng → ℕ × Rng
unfolding advance mix
next_u64 r = (mix (advance r).state, advance r)

-- upper.wrapping_neg() % upper
unfoldable pub threshold : ℕ → ℕ
threshold upper = (u64_mod - upper) % u64_mod % upper

-- The rejection loop, on fuel.
unfoldable pub next_below_within : ℕ → ℕ → Rng → Option (ℕ × Rng)
unfolding next_u64 threshold
next_below_within zero upper r = none
next_below_within (suc fuel) upper r =
    let (value, r') = next_u64 r in
    let rest = next_below_within fuel upper r' in
    if leb (threshold upper) value then some (value % upper, r') else rest

-- One round for each state of the stream is enough: `Draw`.
unfoldable pub next_below : ℕ → Rng → Option (ℕ × Rng)
next_below upper r = next_below_within u64_mod upper r
