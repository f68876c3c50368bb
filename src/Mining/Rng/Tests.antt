-- ===== src/Mining/Rng/Tests.antt =====
-- The stream of the source's test, and the draws at inputs.
use simchain.Base.{ℕ, ◌<◌, ◌≡◌, refl, some, ◌/◌, arith}
use simchain.Mining.Rng.{Rng, new, next_u64, next_below, u64_mod}
use simchain.Mining.Rng.Draw.{next_below-lt}
use simchain.Mining.Rng.Fair.{count_draws, count_draws-eq, state_before, next_u64-state_before}

-- `splitmix64_stream_is_stable`
first_output : (next_u64 (new 0)).0 ≡ 0xE220A8397B1DCDAF
unfolding next_u64 new
first_output = refl

second_output : (next_u64 (next_u64 (new 0)).1).0 ≡ 0x6E789E6AA1B965F4
unfolding next_u64 new
second_output = refl

next_below-lt_example :
    (value : ℕ) × (r : Rng) × (next_below 100 (new 42) ≡ some (value, r)) × (value < 100)
next_below-lt_example = next_below-lt 100 (new 42) (omega arith) (omega arith)

count_draws-eq_example : count_draws state_before 100 7 u64_mod ≡ u64_mod / 100
count_draws-eq_example =
    count_draws-eq state_before 100 7 next_u64-state_before (omega arith) (omega arith)
