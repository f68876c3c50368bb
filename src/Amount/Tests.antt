-- ===== src/Amount/Tests.antt =====
-- crates/simchain-common/src/amount.rs: the amounts of its tests.
use simchain.Base.{◌++◌, ◌≡◌, refl, arith, ◌↔◌, ok, err}
use simchain.Base.Text.{codes, is_whitespace}
use simchain.Amount.{
  not_decimal, too_precise, has_exponent, signed, amount_empty, out_of_range, trim_start, trim_end,
  trim_text, contains_exponent, split_dots, byte_len, read_digits, fraction_sats, whole_sats,
  parse_decimal, parse_parts, parse_btc_sats,
}
use simchain.Amount.Exact.{IsAmount, parse_btc_sats_exact}
use simchain.Amount.RoundTrip.{print_btc, parse_btc_sats-print_btc}

reads :
    (parse_btc_sats (codes " 600.5") ≡ ok 60050000000)
    × (parse_btc_sats (codes "1.00000001") ≡ ok 100000001)
    × (parse_btc_sats (codes "5.") ≡ ok 500000000)
unfolding parse_btc_sats trim_text trim_start trim_end is_whitespace contains_exponent split_dots
    parse_parts parse_decimal byte_len read_digits fraction_sats whole_sats
reads = (refl, refl, refl)

refuses :
    (parse_btc_sats (codes "1btc") ≡ err not_decimal)
    × (parse_btc_sats (codes "1.000000001") ≡ err too_precise)
    × (parse_btc_sats (codes "-1") ≡ err signed)
    × (parse_btc_sats (codes "1e-8") ≡ err has_exponent)
    × (parse_btc_sats (codes " ") ≡ err amount_empty)
    × (parse_btc_sats (codes "184467440737.09551616") ≡ err out_of_range)
unfolding parse_btc_sats trim_text trim_start trim_end is_whitespace contains_exponent split_dots
    parse_parts parse_decimal byte_len read_digits fraction_sats whole_sats
refuses = (refl, refl, refl, refl, refl, refl)

parse_btc_sats_exact_example :
    (parse_btc_sats (codes " 600.5") ≡ ok 60050000000)
    ↔ IsAmount (trim_text (codes " 600.5")) 60050000000
parse_btc_sats_exact_example = parse_btc_sats_exact (codes " 600.5") 60050000000

parse_btc_sats-print_btc_example :
    parse_btc_sats (codes " " ++ (print_btc 60050000000 ++ codes " ")) ≡ ok 60050000000
unfolding is_whitespace
parse_btc_sats-print_btc_example =
    parse_btc_sats-print_btc 60050000000 (codes " ") (codes " ") (omega arith) refl refl
