-- ===== src/Mining/Rng/Fair.antt =====
-- Rejection removes the bias of `% upper`: every result has as many accepted 64-bit values.
use native.Mathlib.Nat.{
  mod-lt, mod-eq_of_lt, mul-add-mod_self_right, add-mod_right, div-add-mod', le_refl,
}
use simchain.Base.{
  ℕ, zero, suc, ◌+◌, ◌-◌, ◌*◌, ◌/◌, ◌%◌, ◌≤◌, ◌<◌, ◌≡◌, refl, sym, ap, ◌∙◌, arith, leb, nat_eq,
  if◌then◌else◌, ◌&&◌, Bool, false, Option, none, some, Bool-cases, inl, inr,
}
use simchain.Mining.Rng.{Rng, u64_mod, gamma, threshold, next_u64, next_below_within}
use simchain.Mining.Rng.Mix.{unmix, unmix-lt, mix-unmix}

-- whether a round of the draw ends with `result`
abbrev is_draw : ℕ → Option (ℕ × Rng) → Bool
is_draw result none = false
is_draw result (some (value, r)) = nat_eq value result

-- the outputs below `n` whose round, from the state that `before` has for them, draws `result`
pub count_draws : (before : ℕ → Rng) → ℕ → ℕ → ℕ → ℕ
count_draws before upper result zero = 0
count_draws before upper result (suc v) =
    count_draws before upper result v
    + (if is_draw result (next_below_within 1 upper (before v)) then 1 else 0)

-- a state that gives this output
abbrev pub state_before : ℕ → Rng
state_before v = record { state = (unmix v + (u64_mod - gamma)) % u64_mod }

pub next_u64-state_before : (v : ℕ) → v < u64_mod → (next_u64 (state_before v)).0 ≡ v
unfolding next_u64
next_u64-state_before v h =
    let below = unmix-lt v in
    let e : ((unmix v + (u64_mod - gamma)) % u64_mod + gamma) % u64_mod ≡ unmix v = omega arith in
    rw e (mix-unmix v h)

round_draws :
    (upper result v : ℕ) (r : Rng)
    → (next_u64 r).0 ≡ v
    → is_draw result (next_below_within 1 upper r)
      ≡ (leb (threshold upper) v && nat_eq (v % upper) result)
unfolding next_below_within
round_draws upper result v r e = elim (Bool-cases (leb (threshold upper) (next_u64 r).0)) [
  | inl q ↦ rw (q, next_below_within, sym e) (rw q refl)
  | inr q ↦ rw (q, next_below_within, sym e) (rw q refl)
]

-- the values below `n` that the threshold lets through, with the remainder `result`
count_accepted : ℕ → ℕ → ℕ → ℕ
count_accepted upper result zero = 0
count_accepted upper result (suc v) =
    count_accepted upper result v
    + (if leb (threshold upper) v && nat_eq (v % upper) result then 1 else 0)

-- all values below `n` with that remainder
count_residues : ℕ → ℕ → ℕ → ℕ
count_residues upper result zero = 0
count_residues upper result (suc v) =
    count_residues upper result v + (if nat_eq (v % upper) result then 1 else 0)

hit : ℕ → ℕ → ℕ
hit result m = if leb (suc result) m then 1 else 0

mod_block : (q m upper : ℕ) → m < upper → (q * upper + m) % upper ≡ m
mod_block q m upper h = mul-add-mod_self_right q upper m ∙ mod-eq_of_lt h

residues_block :
    (q m upper result : ℕ)
    → m ≤ upper
    → result < upper
    → count_residues upper result (q * upper + m) ≡ q + hit result m
unfolding count_residues hit
residues_block zero zero upper result h r =
    let e : 0 * upper + 0 ≡ 0 = omega arith in rw e (ground arith)
residues_block (suc q) zero upper result h r =
    let e : suc q * upper + 0 ≡ q * upper + upper = omega arith in
    rw e (residues_block q upper upper result (omega arith) r ∙ ground arith)
residues_block q (suc m) upper result h r =
    let e : q * upper + suc m ≡ suc (q * upper + m) = omega arith in
    rw e (ground (arith, residues_block q m upper result, mod_block q m upper))

draws_below : (upper result n : ℕ) → n ≤ threshold upper → count_accepted upper result n ≡ 0
unfolding count_accepted
draws_below upper result zero h = refl
draws_below upper result (suc n) h = ground (arith, draws_below upper result n)

draws_split :
    (upper result d : ℕ)
    → count_accepted upper result (d + threshold upper)
        + count_residues upper result (threshold upper)
      ≡ count_residues upper result (d + threshold upper)
unfolding count_accepted count_residues
draws_split upper result zero =
    let e : 0 + threshold upper ≡ threshold upper = omega arith in
    rw (e, draws_below upper result (threshold upper) (le_refl _)) (omega arith)
draws_split upper result (suc d) =
    let e : suc d + threshold upper ≡ suc (d + threshold upper) = omega arith in
    rw e (ground (arith, draws_split upper result d))

threshold-eq : (upper : ℕ) → 0 < upper → upper < u64_mod → threshold upper ≡ u64_mod % upper
unfolding threshold
threshold-eq upper positive fits =
    let e : (u64_mod - upper) % u64_mod ≡ u64_mod - upper = mod-eq_of_lt (omega arith) in
    let back : u64_mod - upper + upper ≡ u64_mod = omega arith in
    ap (λ x. x % upper) e ∙ sym (add-mod_right (u64_mod - upper) upper) ∙ ap (λ x. x % upper) back

draws_blocks :
    (upper result n : ℕ)
    → result < upper
    → threshold upper ≡ n % upper
    → count_accepted upper result n ≡ n / upper
draws_blocks upper result n h e =
    let whole : n / upper * upper + n % upper ≡ n = div-add-mod' n upper in
    let below : n % upper < upper = mod-lt n (omega arith) in
    let parts : n / upper * upper + threshold upper ≡ n = omega arith in
    let start : threshold upper ≡ 0 * upper + n % upper = omega arith in
    omega (
      arith,
      rw parts at (draws_split upper result (n / upper * upper)),
      rw whole at (residues_block (n / upper) (n % upper) upper result (omega arith) h),
      ap (count_residues upper result) start,
      residues_block 0 (n % upper) upper result (omega arith) h,
    )

count_draws-accepted :
    (before : ℕ → Rng) (upper result n : ℕ)
    → ((v : ℕ) → v < u64_mod → (next_u64 (before v)).0 ≡ v)
    → n ≤ u64_mod
    → count_draws before upper result n ≡ count_accepted upper result n
unfolding count_draws count_accepted
count_draws-accepted before upper result zero outputs h = refl
count_draws-accepted before upper result (suc v) outputs h =
    let rest = count_draws-accepted before upper result v outputs (omega arith) in
    rw (rest, round_draws upper result v (before v) (outputs v (omega arith))) refl

-- Let each 64-bit output of the stream be given from one state. Then a round of the draw below a
-- positive bound, taken from each of these states once, draws each result below the bound equally
-- often, 2^64 / upper times.
pub count_draws-eq :
    (before : ℕ → Rng) (upper result : ℕ)
    → ((v : ℕ) → v < u64_mod → (next_u64 (before v)).0 ≡ v)
    → upper < u64_mod
    → result < upper
    → count_draws before upper result u64_mod ≡ u64_mod / upper
count_draws-eq before upper result outputs fits h =
    count_draws-accepted before upper result u64_mod outputs (le_refl _)
    ∙ draws_blocks upper result u64_mod h (threshold-eq upper (omega arith) fits)
