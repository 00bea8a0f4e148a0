-- ===== src/Base/Bundle.antt =====
-- One name that opens the text functions for a test: a declaration that unfolds it unfolds them.
use mathlib.Core.Bool.{Bool, true}
use veracage.Base.Strings.{
  text_eq, contains_text, byte_len, is_alphanumeric, is_whitespace, is_control, trim_start,
  trim_end, trim_matches, trim, strip_prefix, contains_char, split_onto, split_once_onto, strip_cr,
  lines_onto,
}
use veracage.Base.Decimal.{
  dec_digits, to_dec, dec_value, parse_digits, parse_below, to_hex, is_lower_hex,
}

unfoldable pub text_code : Bool
unfolding text_eq contains_text byte_len is_alphanumeric is_whitespace is_control trim_start
    trim_end trim_matches trim strip_prefix contains_char split_onto split_once_onto strip_cr
    lines_onto dec_digits to_dec dec_value parse_digits parse_below to_hex is_lower_hex
text_code = true
