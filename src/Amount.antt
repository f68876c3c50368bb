-- ===== src/Amount.antt =====
-- crates/simchain-common/src/amount.rs: an amount of bitcoin as text, read into satoshis. A string
-- is the list of its code points.
pub mod Split
pub mod Digits
pub mod Decimal
pub mod Exact
pub mod RoundTrip
pub mod Tests
use simchain.Base.{
  ℕ, zero, suc, ◌+◌, ◌-◌, ◌*◌, ◌^◌, Bool, true, false, not, ◌&&◌, ◌||◌, Option, none, some, List,
  [], ◌∷◌, ltb, leb, nat_eq, if◌then◌else◌, all, Result, ok, err, ok_or, ◌>>=◌,
}
use simchain.Base.Text.{Text, is_whitespace}

-- the messages, in the order of the checks
pub data AmountError : Type 0 where
  amount_empty signed has_exponent not_decimal too_precise out_of_range : AmountError

abbrev pub satoshis_per_btc : ℕ
satoshis_per_btc = 100000000

abbrev pub u64_end : ℕ
u64_end = 18446744073709551616

-- `.`
abbrev pub dot : ℕ
dot = 46

abbrev pub is_ascii_digit : ℕ → Bool
is_ascii_digit c = leb 48 c && leb c 57

-- `+` or `-`
abbrev pub is_sign : ℕ → Bool
is_sign c = nat_eq c 43 || nat_eq c 45

-- `e` or `E`
abbrev pub is_exponent : ℕ → Bool
is_exponent c = nat_eq c 101 || nat_eq c 69

abbrev pub is_nil : {A : Type 0} → List A → Bool
is_nil [] = true
is_nil (x ∷ xs) = false

unfoldable pub trim_start : Text → Text
trim_start [] = []
trim_start (c ∷ cs) = if is_whitespace c then trim_start cs else c ∷ cs

unfoldable pub trim_end : Text → Text
trim_end [] = []
trim_end (c ∷ cs) =
    let rest = trim_end cs in if is_nil rest && is_whitespace c then [] else c ∷ rest

-- `str::trim`
unfoldable pub trim_text : Text → Text
trim_text t = trim_end (trim_start t)

abbrev pub starts_with_sign : Text → Bool
starts_with_sign [] = false
starts_with_sign (c ∷ cs) = is_sign c

unfoldable pub contains_exponent : Text → Bool
contains_exponent [] = false
contains_exponent (c ∷ cs) = is_exponent c || contains_exponent cs

abbrev pub prepend : ℕ → List Text → List Text
prepend c [] = (c ∷ []) ∷ []
prepend c (p ∷ ps) = (c ∷ p) ∷ ps

-- `split('.')`
unfoldable pub split_dots : Text → List Text
split_dots [] = [] ∷ []
split_dots (c ∷ cs) = if nat_eq c dot then [] ∷ split_dots cs else prepend c (split_dots cs)

-- the bytes of a code point in UTF-8
abbrev pub utf8_len : ℕ → ℕ
utf8_len c = if ltb c 0x80 then 1 else if ltb c 0x800 then 2 else if ltb c 0x10000 then 3 else 4

-- `str::len`
unfoldable pub byte_len : Text → ℕ
byte_len [] = 0
byte_len (c ∷ cs) = utf8_len c + byte_len cs

-- the number that digits write after the number that is read already
unfoldable pub read_digits : ℕ → Text → ℕ
read_digits n [] = n
read_digits n (c ∷ cs) = read_digits (n * 10 + (c - 48)) cs

-- `str::parse::<u64>`, of digits
abbrev pub parse_u64 : Text → Option ℕ
parse_u64 t = if ltb (read_digits 0 t) u64_end then some (read_digits 0 t) else none

abbrev pub checked_mul : ℕ → ℕ → Option ℕ
checked_mul a b = if ltb (a * b) u64_end then some (a * b) else none

abbrev pub checked_add : ℕ → ℕ → Option ℕ
checked_add a b = if ltb (a + b) u64_end then some (a + b) else none

unfoldable pub fraction_sats : Text → Result AmountError ℕ
fraction_sats [] = ok 0
fraction_sats (c ∷ cs) = ok_or (parse_u64 (c ∷ cs)) out_of_range >>= λ digits.
    ok_or (checked_mul digits (10 ^ (8 - byte_len (c ∷ cs)))) out_of_range

unfoldable pub whole_sats : ℕ → ℕ → Result AmountError ℕ
whole_sats whole fractional = ok_or (checked_mul whole satoshis_per_btc) out_of_range >>= λ sats.
    ok_or (checked_add sats fractional) out_of_range

unfoldable pub parse_decimal : (whole fraction : Text) → Result AmountError ℕ
parse_decimal whole fraction =
    if is_nil whole || not (all is_ascii_digit whole)
    then err not_decimal
    else if ltb 8 (byte_len fraction)
    then err too_precise
    else if not (all is_ascii_digit fraction)
    then err not_decimal
    else (ok_or (parse_u64 whole) out_of_range >>= λ w.
        fraction_sats fraction >>= λ f. whole_sats w f)

unfoldable pub parse_parts : List Text → Result AmountError ℕ
parse_parts [] = err not_decimal
parse_parts (whole ∷ []) = parse_decimal whole []
parse_parts (whole ∷ fraction ∷ []) = parse_decimal whole fraction
parse_parts (_ ∷ _ ∷ _ ∷ _) = err not_decimal

unfoldable pub parse_btc_sats : Text → Result AmountError ℕ
parse_btc_sats text =
    let value = trim_text text in
    if is_nil value
    then err amount_empty
    else if starts_with_sign value
    then err signed
    else if contains_exponent value
    then err has_exponent
    else parse_parts (split_dots value)
