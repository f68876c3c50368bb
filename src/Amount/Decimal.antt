-- ===== src/Amount/Decimal.antt =====
-- crates/simchain-common/src/amount.rs: the digits on the two sides of the dot, and the checks for
-- overflow.
use simchain.Base.{
  ℕ, ◌+◌, ◌-◌, ◌*◌, ◌^◌, ◌≤◌, ◌<◌, true, false, [], ◌∷◌, ◌++◌, ◌≡◌, sym, ap, ◌∙◌, arith, all,
  length, ok, ltb, Result-cases, inl, inr,
}
use simchain.Base.Text.{Text}
use simchain.Amount.{
  is_ascii_digit, byte_len, read_digits, is_nil, u64_end, fraction_sats, whole_sats, parse_decimal,
  satoshis_per_btc,
}
use simchain.Amount.Digits.{byte_len-digits, read_digits_scaled, pow_pos}

-- `n` is the number of the digits without the dot, scaled to eight decimal places
pub record IsDecimal (whole fraction : Text) (n : ℕ) : Type 0 where
  pub given : is_nil whole ≡ false
  pub whole_digits : all is_ascii_digit whole ≡ true
  pub fraction_digits : all is_ascii_digit fraction ≡ true
  pub places : length fraction ≤ 8
  pub value : read_digits 0 (whole ++ fraction) * 10 ^ (8 - length fraction) ≡ n
  pub fits : n < u64_end

times_pos : (f p : ℕ) → 1 ≤ p → f ≤ f * p
times_pos f p h = grind (arith, h)

zero_times : (p : ℕ) → 0 * p ≡ 0
zero_times p = omega arith

fraction_sats_complete :
    (f : Text) (p : ℕ)
    → 10 ^ (8 - byte_len f) ≡ p
    → 1 ≤ p
    → read_digits 0 f * p < u64_end
    → fraction_sats f ≡ ok (read_digits 0 f * p)
unfolding fraction_sats read_digits
fraction_sats_complete [] p q h k = ap (λ n. ok n) (sym (zero_times p))
fraction_sats_complete (c ∷ cs) p q h k = ground (arith, q, times_pos (read_digits 0 (c ∷ cs)) p h)

fraction_sats_sound :
    (f : Text) (m p : ℕ)
    → 10 ^ (8 - byte_len f) ≡ p
    → fraction_sats f ≡ ok m
    → m ≡ read_digits 0 f * p
unfolding fraction_sats read_digits
fraction_sats_sound [] m p q h = ground arith
fraction_sats_sound (c ∷ cs) m p q h = ground (arith, q)

whole_sats_complete :
    (w f n : ℕ) → w * satoshis_per_btc + f ≡ n → n < u64_end → whole_sats w f ≡ ok n
unfolding whole_sats
whole_sats_complete w f n h k = ground arith

whole_sats_sound :
    (w f n : ℕ) → whole_sats w f ≡ ok n → (w * satoshis_per_btc + f ≡ n) × (n < u64_end)
unfolding whole_sats
whole_sats_sound w f n h = ground arith

pub parse_decimal_complete : (w f : Text) (n : ℕ) → IsDecimal w f n → parse_decimal w f ≡ ok n
unfolding parse_decimal
parse_decimal_complete w f n d =
    let value = sym (read_digits_scaled w f d.places) ∙ d.value in
    let bytes = byte_len-digits f d.fraction_digits in
    let p = 10 ^ (8 - length f) in
    let fraction =
      fraction_sats_complete f p (ap (λ k. 10 ^ (8 - k)) bytes) (pow_pos (8 - length f))
        (omega (arith, value, d.fits)) in
    let whole = whole_sats_complete (read_digits 0 w) (read_digits 0 f * p) n value d.fits in
    let short : ltb 8 (byte_len f) ≡ false = ground (arith, bytes, d.places) in
    let small : ltb (read_digits 0 w) u64_end ≡ true = ground (arith, value, d.fits) in
    rw (d.given, d.whole_digits, short, d.fraction_digits, small, fraction, parse_decimal) whole

pub parse_decimal_sound : (w f : Text) (n : ℕ) → parse_decimal w f ≡ ok n → IsDecimal w f n
unfolding parse_decimal
parse_decimal_sound w f n h = elim (Result-cases (fraction_sats f)) [
  | inr (e, q) ↦ absurd (ground arith)
  | inl (m, q) ↦
      let given : is_nil w ≡ false = ground arith in
      let whole_digits : all is_ascii_digit w ≡ true = ground arith in
      let fraction_digits : all is_ascii_digit f ≡ true = ground arith in
      let short : byte_len f ≤ 8 = ground arith in
      let whole : whole_sats (read_digits 0 w) m ≡ ok n = ground arith in
      let bytes = byte_len-digits f fraction_digits in
      let sum = whole_sats_sound (read_digits 0 w) m n whole in
      let places : length f ≤ 8 = omega (arith, bytes, short) in
      let scaled = fraction_sats_sound f m (10 ^ (8 - length f)) (ap (λ k. 10 ^ (8 - k)) bytes) q in
      record {
        given = given;
        whole_digits = whole_digits;
        fraction_digits = fraction_digits;
        places = places;
        value = read_digits_scaled w f places ∙ omega (arith, sum, scaled);
        fits = sum.1;
      }
]
