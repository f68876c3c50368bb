-- ===== src/Scenario/Texts.antt =====
-- crates/scenario-engine/src/schema.rs: the tests on texts, and `parse_scenario_amount_sats`.
use simchain.Base.{
  ℕ, Bool, true, false, not, ◌&&◌, ◌||◌, String, String-eq, Option, none, some, [], ◌∷◌, leb,
  nat_eq, if◌then◌else◌, all, Result, ok, err,
}
use simchain.Base.Text.{Text, codes, is_blank}
use simchain.Amount.{
  AmountError, trim_text, is_nil, is_ascii_digit, parse_u64, parse_btc_sats, byte_len,
}

abbrev pub is_letter : ℕ → Bool
is_letter c = (leb 65 c && leb c 90) || (leb 97 c && leb c 122)

abbrev pub is_alphanumeric : ℕ → Bool
is_alphanumeric c = is_letter c || is_ascii_digit c

abbrev pub is_hexdigit : ℕ → Bool
is_hexdigit c = is_ascii_digit c || (leb 65 c && leb c 70) || (leb 97 c && leb c 102)

-- a byte of the name of an environment variable
abbrev pub is_env_byte : ℕ → Bool
is_env_byte c = is_alphanumeric c || nat_eq c 95

-- `-`, `_`, `.` and `~` besides
abbrev pub is_url_safe : ℕ → Bool
is_url_safe c = is_alphanumeric c || nat_eq c 45 || nat_eq c 95 || nat_eq c 46 || nat_eq c 126

-- `is_some_and(|value| !value.trim().is_empty())`
abbrev pub is_set : Option String → Bool
is_set none = false
is_set (some s) = not (is_blank s)

-- the test on the string, if there is one
abbrev pub if_some : {A : Type 0} → (A → Bool) → Option A → Bool
if_some p none = false
if_some p (some a) = p a

abbrev pub is_simple_env : String → Bool
is_simple_env s = all is_env_byte (codes s)

abbrev pub is_txid : String → Bool
is_txid s = let t = trim_text (codes s) in nat_eq (byte_len t) 64 && all is_hexdigit t

abbrev pub same_text : Text → Text → Bool
same_text [] [] = true
same_text [] (d ∷ ds) = false
same_text (c ∷ cs) [] = false
same_text (c ∷ cs) (d ∷ ds) = nat_eq c d && same_text cs ds

-- `strip_suffix`, of a suffix that is not empty
unfoldable pub strip_suffix : (suffix : Text) → Text → Option Text
strip_suffix suffix [] = none
strip_suffix suffix (c ∷ cs) =
    let rest = strip_suffix suffix cs in
    if same_text (c ∷ cs) suffix
    then some []
    else elim rest [ none ↦ none | some front ↦ some (c ∷ front) ]

-- `str::parse::<u64>`, which takes a leading `+`
abbrev pub without_plus : Text → Text
without_plus [] = []
without_plus (c ∷ cs) = if nat_eq c 43 then cs else c ∷ cs

unfoldable pub read_u64 : Text → Option ℕ
read_u64 t =
    let digits = without_plus t in
    if is_nil digits || not (all is_ascii_digit digits) then none else parse_u64 digits

pub data ScenarioAmountError : Type 0 where
  not_unsigned : ScenarioAmountError
  btc_amount : AmountError → ScenarioAmountError

abbrev pub in_sats : Option ℕ → Result ScenarioAmountError ℕ
in_sats none = err not_unsigned
in_sats (some n) = ok n

abbrev pub in_btc : Result AmountError ℕ → Result ScenarioAmountError ℕ
in_btc (ok n) = ok n
in_btc (err e) = err (btc_amount e)

-- `sat` and `btc`
abbrev pub sat : Text
sat = 115 ∷ 97 ∷ 116 ∷ []

abbrev pub btc : Text
btc = 98 ∷ 116 ∷ 99 ∷ []

unfoldable pub parse_scenario_amount_sats : String → Result ScenarioAmountError ℕ
parse_scenario_amount_sats value =
    let trimmed = trim_text (codes value) in
    elim (strip_suffix sat trimmed) [
      | some sats ↦ in_sats (read_u64 (trim_text sats))
      | none ↦ elim (strip_suffix btc trimmed) [
        | some amount ↦ in_btc (parse_btc_sats amount)
        | none ↦ in_btc (parse_btc_sats trimmed)
      ]
    ]
