-- ===== src/Amount/RoundTrip.antt =====
-- crates/simchain-common/src/amount.rs: amounts that are printed are read back.
use simchain.Base.{
  ℕ, suc, ◌+◌, ◌-◌, ◌*◌, ◌/◌, ◌%◌, ◌^◌, ◌≤◌, ◌<◌, true, false, [], ◌∷◌, ◌++◌, ◌≡◌, refl, ap, ◌∙◌,
  arith, all, length, ok,
}
use simchain.Base.Text.{Text, is_whitespace}
use simchain.Amount.{is_nil, dot, u64_end, parse_btc_sats, read_digits}
use simchain.Amount.Split.{trim_text_padded, is_black, digits-black}
use simchain.Amount.Digits.{
  print_digits, read_digits_scaled, length-print_digits, print_digits-digits,
  read_digits-print_digits, all-append,
}
use simchain.Amount.Decimal.{IsDecimal}
use simchain.Amount.Exact.{complete_dot, nonempty}

-- satoshis in bitcoin, with twelve digits before the dot and eight after it
abbrev pub print_btc : ℕ → Text
print_btc n = print_digits 12 (n / 100000000) ++ dot ∷ print_digits 8 (n % 100000000)

counted : (t : Text) (k : ℕ) → length t ≡ suc k → is_nil t ≡ false
counted [] k h = absurd (omega (arith, h))
counted (c ∷ cs) k h = refl

dot-black : (t : Text) → all is_black t ≡ true → all is_black (dot ∷ t) ≡ true
unfolding is_whitespace
dot-black t h = h

print_btc-black : (n : ℕ) → all is_black (print_btc n) ≡ true
print_btc-black n =
    all-append is_black (print_digits 12 (n / 100000000)) (dot ∷ print_digits 8 (n % 100000000))
      (digits-black (print_digits 12 (n / 100000000)) (print_digits-digits 12 (n / 100000000)))
      (dot-black (print_digits 8 (n % 100000000))
        (digits-black (print_digits 8 (n % 100000000)) (print_digits-digits 8 (n % 100000000))))

printed : (k n : ℕ) → is_nil (print_digits (suc k) n) ≡ false
printed k n = counted (print_digits (suc k) n) k (length-print_digits (suc k) n)

scaled_sum :
    (w f : Text) (a b n : ℕ)
    → length f ≡ 8
    → read_digits 0 w ≡ a
    → read_digits 0 f ≡ b
    → a * 100000000 + b ≡ n
    → read_digits 0 (w ++ f) * 10 ^ (8 - length f) ≡ n
scaled_sum w f a b n l p q h =
    let places : length f ≤ 8 = omega (arith, l) in
    let none_left : 10 ^ (8 - length f) ≡ 1 = ap (λ k. 10 ^ (8 - k)) l in
    read_digits_scaled w f places ∙ grind (arith, none_left, p, q, h)

print_btc-IsDecimal :
    (n : ℕ)
    → n < u64_end
    → IsDecimal (print_digits 12 (n / 100000000)) (print_digits 8 (n % 100000000)) n
print_btc-IsDecimal n h =
    let whole : n / 100000000 < 10 ^ 12 = omega (arith, h) in
    let rest : n % 100000000 < 10 ^ 8 = omega arith in
    record {
      given = printed 11 (n / 100000000);
      whole_digits = print_digits-digits 12 (n / 100000000);
      fraction_digits = print_digits-digits 8 (n % 100000000);
      places = omega (arith, length-print_digits 8 (n % 100000000));
      value =
          scaled_sum (print_digits 12 (n / 100000000)) (print_digits 8 (n % 100000000))
            (n / 100000000) (n % 100000000) n (length-print_digits 8 (n % 100000000))
            (read_digits-print_digits 12 (n / 100000000) whole)
            (read_digits-print_digits 8 (n % 100000000) rest) (omega arith);
      fits = h;
    }

-- Every 64-bit number of satoshis, printed in bitcoin with its eight decimal places and with any
-- white space around it, is read back.
pub parse_btc_sats-print_btc :
    (n : ℕ) (before after : Text)
    → n < u64_end
    → all is_whitespace before ≡ true
    → all is_whitespace after ≡ true
    → parse_btc_sats (before ++ (print_btc n ++ after)) ≡ ok n
parse_btc_sats-print_btc n before after h b a =
    complete_dot (before ++ (print_btc n ++ after)) (print_digits 12 (n / 100000000))
      (print_digits 8 (n % 100000000)) n
      (trim_text_padded before (print_btc n) after b (print_btc-black n)
        (nonempty (print_digits 12 (n / 100000000)) (dot ∷ print_digits 8 (n % 100000000))
          (printed 11 (n / 100000000)))
        a)
      (print_btc-IsDecimal n h)
