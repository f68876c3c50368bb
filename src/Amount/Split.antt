-- ===== src/Amount/Split.antt =====
-- crates/simchain-common/src/amount.rs: where the dots split a text, and what trimming leaves.
use simchain.Base.{ℕ, Bool, true, false, not, List, [], ◌∷◌, ◌++◌, ◌≡◌, refl, ap, ◌∙◌, arith, all}
use simchain.Base.Text.{Text, is_whitespace}
use simchain.Amount.{
  dot, is_ascii_digit, is_nil, trim_start, trim_end, trim_text, contains_exponent, prepend,
  split_dots,
}

-- the parts with a dot between two of them
abbrev pub join_dots : List Text → Text
join_dots [] = []
join_dots (p ∷ []) = p
join_dots (p ∷ q ∷ ps) = p ++ dot ∷ join_dots (q ∷ ps)

join-prepend : (c : ℕ) (ps : List Text) → join_dots (prepend c ps) ≡ c ∷ join_dots ps
join-prepend c [] = refl
join-prepend c (p ∷ []) = refl
join-prepend c (p ∷ q ∷ ps) = refl

pub join-split : (t : Text) → join_dots (split_dots t) ≡ t
unfolding split_dots
join-split [] = refl
join-split (c ∷ cs) = ground (arith, join-prepend c (split_dots cs), join-split cs)

pub split-digits : (w : Text) → all is_ascii_digit w ≡ true → split_dots w ≡ w ∷ []
unfolding split_dots
split-digits [] h = refl
split-digits (c ∷ cs) h = ground (arith, split-digits cs)

pub split-digits_dot :
    (w f : Text)
    → all is_ascii_digit w ≡ true
    → all is_ascii_digit f ≡ true
    → split_dots (w ++ dot ∷ f) ≡ w ∷ f ∷ []
unfolding split_dots
split-digits_dot [] f h k = ap (λ ps. [] ∷ ps) (split-digits f k)
split-digits_dot (c ∷ cs) f h k = ground (arith, split-digits_dot cs f)

abbrev pub is_black : ℕ → Bool
is_black c = not (is_whitespace c)

trim_end_spaces : (b : Text) → all is_whitespace b ≡ true → trim_end b ≡ []
unfolding trim_end
trim_end_spaces [] h = refl
trim_end_spaces (c ∷ cs) h = ground (arith, trim_end_spaces cs)

trim_end_padded :
    (t b : Text) → all is_black t ≡ true → all is_whitespace b ≡ true → trim_end (t ++ b) ≡ t
unfolding trim_end
trim_end_padded [] b h k = trim_end_spaces b k
trim_end_padded (c ∷ cs) b h k = ground (arith, trim_end_padded cs b)

trim_start_padded : (a t : Text) → all is_whitespace a ≡ true → trim_start (a ++ t) ≡ trim_start t
unfolding trim_start
trim_start_padded [] t h = refl
trim_start_padded (c ∷ cs) t h = ground (arith, trim_start_padded cs t)

trim_start_black :
    (t b : Text) → all is_black t ≡ true → is_nil t ≡ false → trim_start (t ++ b) ≡ t ++ b
unfolding trim_start
trim_start_black [] b h k = absurd (cc)
trim_start_black (c ∷ cs) b h k = ground arith

-- trimming takes the white space on both sides away, and no more
pub trim_text_padded :
    (a t b : Text)
    → all is_whitespace a ≡ true
    → all is_black t ≡ true
    → is_nil t ≡ false
    → all is_whitespace b ≡ true
    → trim_text (a ++ (t ++ b)) ≡ t
unfolding trim_text
trim_text_padded a t b ha ht hn hb =
    ap trim_end (trim_start_padded a (t ++ b) ha ∙ trim_start_black t b ht hn)
    ∙ trim_end_padded t b ht hb

pub digit-black : (c : ℕ) → is_ascii_digit c ≡ true → is_black c ≡ true
unfolding is_whitespace
digit-black c h = ground arith

pub digits-black : (t : Text) → all is_ascii_digit t ≡ true → all is_black t ≡ true
digits-black [] h = refl
digits-black (c ∷ cs) h = ground (arith, digit-black c, digits-black cs)

pub digits-no_exponent : (t : Text) → all is_ascii_digit t ≡ true → contains_exponent t ≡ false
unfolding contains_exponent
digits-no_exponent [] h = refl
digits-no_exponent (c ∷ cs) h = ground (arith, digits-no_exponent cs)

pub contains_exponent-dot :
    (w f : Text)
    → contains_exponent w ≡ false
    → contains_exponent f ≡ false
    → contains_exponent (w ++ dot ∷ f) ≡ false
unfolding contains_exponent
contains_exponent-dot [] f h k = k
contains_exponent-dot (c ∷ cs) f h k = ground (arith, contains_exponent-dot cs f)
