-- ===== src/Amount/Exact.antt =====
-- crates/simchain-common/src/amount.rs: which texts are amounts, and of how many satoshis.
use simchain.Base.{
  ℕ, true, false, List, [], ◌∷◌, ◌++◌, ◌≡◌, refl, arith, all, ok, inl, inr, ◌⊎◌, ◌↔◌, subst,
}
use simchain.Base.Text.{Text}
use simchain.Amount.{
  is_ascii_digit, is_nil, dot, starts_with_sign, contains_exponent, split_dots, trim_text,
  parse_parts, parse_btc_sats,
}
use simchain.Amount.Split.{
  join_dots, join-split, split-digits, split-digits_dot, digits-no_exponent, contains_exponent-dot,
}
use simchain.Amount.Decimal.{IsDecimal, parse_decimal_complete, parse_decimal_sound}

-- the text is the digits before the dot, alone or with the dot and the digits after it
abbrev pub Written : (text whole fraction : Text) → Type 0
Written t w f = ((t ≡ w) × (f ≡ [])) ⊎ (t ≡ w ++ dot ∷ f)

abbrev pub IsAmount : Text → ℕ → Type 0
IsAmount t n = (w : Text) × (f : Text) × Written t w f × IsDecimal w f n

parse_parts_sound : (ps : List Text) (n : ℕ) → parse_parts ps ≡ ok n → IsAmount (join_dots ps) n
unfolding parse_parts
parse_parts_sound [] n h = absurd (cc)
parse_parts_sound (w ∷ []) n h = (w, [], inl (refl, refl), parse_decimal_sound w [] n h)
parse_parts_sound (w ∷ f ∷ []) n h = (w, f, inr refl, parse_decimal_sound w f n h)
parse_parts_sound (w ∷ f ∷ g ∷ ps) n h = absurd (cc)

parts_read :
    (t : Text) (n : ℕ) → parse_btc_sats t ≡ ok n → parse_parts (split_dots (trim_text t)) ≡ ok n
unfolding parse_btc_sats
parts_read t n h = ground arith

sound : (t : Text) (n : ℕ) → parse_btc_sats t ≡ ok n → IsAmount (trim_text t) n
sound t n h =
    subst (λ v. IsAmount v n) (join-split (trim_text t))
      (parse_parts_sound (split_dots (trim_text t)) n (parts_read t n h))

-- the checks before the text is split let digits pass
passes :
    (t v : Text) (n : ℕ)
    → trim_text t ≡ v
    → is_nil v ≡ false
    → starts_with_sign v ≡ false
    → contains_exponent v ≡ false
    → parse_parts (split_dots v) ≡ ok n
    → parse_btc_sats t ≡ ok n
unfolding parse_btc_sats
passes t v n q nil sign exponent parts = rw (q, nil, sign, exponent, parse_btc_sats) parts

unsigned :
    (w f : Text)
    → is_nil w ≡ false
    → all is_ascii_digit w ≡ true
    → starts_with_sign (w ++ f) ≡ false
unsigned [] f h k = absurd (cc)
unsigned (c ∷ cs) f h k = ground arith

unsigned_whole : (w : Text) → all is_ascii_digit w ≡ true → starts_with_sign w ≡ false
unsigned_whole [] k = refl
unsigned_whole (c ∷ cs) k = ground arith

pub nonempty : (w f : Text) → is_nil w ≡ false → is_nil (w ++ f) ≡ false
nonempty [] f h = absurd (cc)
nonempty (c ∷ cs) f h = refl

complete_whole : (t w : Text) (n : ℕ) → trim_text t ≡ w → IsDecimal w [] n → parse_btc_sats t ≡ ok n
unfolding parse_parts
complete_whole t w n q d =
    passes t w n q d.given (unsigned_whole w d.whole_digits) (digits-no_exponent w d.whole_digits)
      (rw (split-digits w d.whole_digits, parse_parts) (parse_decimal_complete w [] n d))

pub complete_dot :
    (t w f : Text) (n : ℕ) → trim_text t ≡ w ++ dot ∷ f → IsDecimal w f n → parse_btc_sats t ≡ ok n
unfolding parse_parts
complete_dot t w f n q d =
    passes t (w ++ dot ∷ f) n q (nonempty w (dot ∷ f) d.given)
      (unsigned w (dot ∷ f) d.given d.whole_digits)
      (contains_exponent-dot w f (digits-no_exponent w d.whole_digits)
        (digits-no_exponent f d.fraction_digits))
      (rw (split-digits_dot w f d.whole_digits d.fraction_digits, parse_parts)
        (parse_decimal_complete w f n d))

complete : (t : Text) (n : ℕ) → IsAmount (trim_text t) n → parse_btc_sats t ≡ ok n
complete t n (w, f, inl (q, e), d) = complete_whole t w n q (subst (λ f. IsDecimal w f n) e d)
complete t n (w, f, inr q, d) = complete_dot t w f n q d

-- A text is read as `n` satoshis exactly if, without the white space around it, it is one or more
-- ASCII digits, alone or followed by a dot and at most eight digits, and the number of all its
-- digits, scaled to eight places after the dot, is `n` and is below 2^64.
pub parse_btc_sats_exact : (t : Text) (n : ℕ) → (parse_btc_sats t ≡ ok n) ↔ IsAmount (trim_text t) n
parse_btc_sats_exact t n = (sound t n, complete t n)
