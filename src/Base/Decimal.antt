-- ===== src/Base/Decimal.antt =====
-- Decimal and hexadecimal text: `to_string` of an unsigned integer, `str::parse` into one, and
-- `{b:02x}` of a byte.
use veracage.Base.Tests.{ltb, ◌==◌, if◌then◌else◌}
use veracage.Base.Lists.{length, all, length-append, all-append}
use veracage.Base.Strings.{Text, is_digit, between}
use Prim.Native.Nat.{ℕ, zero, suc, ◌+◌, ◌-◌, ◌*◌, ◌/◌, ◌%◌, ◌^◌, ◌≤◌, ◌<◌}
use mathlib.Core.Path.{◌≡◌, refl}
use mathlib.Core.Bool.{Bool, true, false, ◌&&◌, ◌||◌}
use mathlib.Core.Option.{Option, none, some}
use mathlib.Core.List.{List, [], ◌∷◌, ◌++◌}
use native.Mathlib.Omega.{arith}
use native.Mathlib.Nat.{pow-suc}

-- The fuel counts the digits that are left; 20 digits hold every 64-bit number.
unfoldable pub dec_digits : ℕ → ℕ → Text
dec_digits zero n = []
dec_digits (suc f) n =
    let rest = dec_digits f (n / 10) in
    if ltb n 10 then (b'0' + n) ∷ [] else rest ++ (b'0' + n % 10) ∷ []

unfoldable pub to_dec : ℕ → Text
unfolding dec_digits
to_dec n = dec_digits 20 n

unfoldable pub dec_value : ℕ → Text → ℕ
dec_value acc [] = acc
dec_value acc (c ∷ cs) = dec_value (acc * 10 + (c - b'0')) cs

-- The digits of an unsigned number below `limit`: empty text, another character or overflow fail.
unfoldable pub parse_digits : ℕ → Text → Option ℕ
unfolding dec_value
parse_digits limit [] = none
parse_digits limit (c ∷ cs) =
    if all is_digit (c ∷ cs) && ltb (dec_value 0 (c ∷ cs)) limit
    then some (dec_value 0 (c ∷ cs))
    else none

-- `str::parse` accepts one leading `+`.
unfoldable pub parse_below : ℕ → Text → Option ℕ
unfolding parse_digits
parse_below limit [] = none
parse_below limit (c ∷ cs) =
    if c == b'+' then parse_digits limit cs else parse_digits limit (c ∷ cs)

abbrev pub u32_limit : ℕ
u32_limit = 4294967296

abbrev pub u64_limit : ℕ
u64_limit = 18446744073709551616

abbrev hex_digit : ℕ → ℕ
hex_digit d = if ltb d 10 then b'0' + d else b'a' + (d - 10)

-- `{b:02x}` of each byte, joined.
unfoldable pub to_hex : List ℕ → Text
to_hex [] = []
to_hex (b ∷ bs) = hex_digit (b / 16) ∷ hex_digit (b % 16) ∷ to_hex bs

-- `is_ascii_hexdigit() && !is_ascii_uppercase()`
unfoldable pub is_lower_hex : ℕ → Bool
is_lower_hex c = is_digit c || between b'a' b'f' c

pub length-to_hex : (bs : List ℕ) → length (to_hex bs) ≡ 2 * length bs
unfolding to_hex
length-to_hex [] = omega arith
length-to_hex (b ∷ bs) = omega (arith, length-to_hex bs)

hex_digit-is_lower_hex : (d : ℕ) → d < 16 → is_lower_hex (hex_digit d) ≡ true
unfolding is_lower_hex
hex_digit-is_lower_hex d h = ground arith

pub all-to_hex :
    (bs : List ℕ) → all (λ b. ltb b 256) bs ≡ true → all is_lower_hex (to_hex bs) ≡ true
unfolding to_hex
all-to_hex [] h = refl
all-to_hex (b ∷ bs) h =
    ground (arith, hex_digit-is_lower_hex (b / 16), hex_digit-is_lower_hex (b % 16), all-to_hex bs)

dec_digits-digits : (f n : ℕ) → all is_digit (dec_digits f n) ≡ true
unfolding dec_digits
dec_digits-digits zero n = refl
dec_digits-digits (suc f) n = ground (
  arith,
  dec_digits-digits f (n / 10),
  all-append is_digit (dec_digits f (n / 10)) ((b'0' + n % 10) ∷ []),
)

dec_value-append :
    (acc c : ℕ) (s : Text) → dec_value acc (s ++ c ∷ []) ≡ dec_value acc s * 10 + (c - b'0')
unfolding dec_value
dec_value-append acc c [] = refl
dec_value-append acc c (d ∷ s) = dec_value-append (acc * 10 + (d - b'0')) c s

-- With a digit of fuel for each digit of the number, the digits have its value.
dec_value-dec_digits : (f n : ℕ) → n < 10 ^ f → dec_value 0 (dec_digits f n) ≡ n
unfolding dec_digits dec_value
dec_value-dec_digits zero n h = omega arith
dec_value-dec_digits (suc f) n h =
    let e : 10 ^ suc f ≡ 10 ^ f * 10 = pow-suc 10 f in
    ground (
      arith,
      dec_value-dec_digits f (n / 10),
      dec_value-append 0 (b'0' + n % 10) (dec_digits f (n / 10)),
      e,
    )

length-dec_digits : (f n k : ℕ) → n < 10 ^ suc k → length (dec_digits f n) ≤ suc k
unfolding dec_digits
length-dec_digits zero n k h = omega arith
length-dec_digits (suc f) n zero h = ground arith
length-dec_digits (suc f) n (suc k) h =
    let e : 10 ^ suc (suc k) ≡ 10 ^ suc k * 10 = pow-suc 10 (suc k) in
    ground (
      arith,
      length-dec_digits f (n / 10) k,
      length-append (dec_digits f (n / 10)) ((b'0' + n % 10) ∷ []),
      e,
    )

dec_digits-ne_nil : (f n : ℕ) → 0 < length (dec_digits (suc f) n)
unfolding dec_digits
dec_digits-ne_nil f n = ground (arith, length-append (dec_digits f (n / 10)) ((b'0' + n % 10) ∷ []))

pub all-to_dec : (n : ℕ) → all is_digit (to_dec n) ≡ true
unfolding to_dec
all-to_dec n = dec_digits-digits 20 n

pub dec_value-to_dec : (n : ℕ) → n < u64_limit → dec_value 0 (to_dec n) ≡ n
unfolding to_dec
dec_value-to_dec n h = dec_value-dec_digits 20 n (omega arith)

pub length-to_dec : (n k : ℕ) → n < 10 ^ suc k → length (to_dec n) ≤ suc k
unfolding to_dec
length-to_dec n k h = length-dec_digits 20 n k h

pub to_dec-pos : (n : ℕ) → 0 < length (to_dec n)
unfolding to_dec
to_dec-pos n = dec_digits-ne_nil 19 n

digit-ne_plus : (c : ℕ) → is_digit c ≡ true → (c == b'+') ≡ false
digit-ne_plus c h = ground arith

parse_below-digits :
    (limit n : ℕ) (t : Text)
    → all is_digit t ≡ true
    → 0 < length t
    → dec_value 0 t ≡ n
    → n < limit
    → parse_below limit t ≡ some n
unfolding parse_below
parse_below-digits limit n [] a p v h = absurd (omega arith)
parse_below-digits limit n (c ∷ cs) a p v h = ground (arith, digit-ne_plus c)

-- What is printed parses back.
pub parse_below-to_dec :
    (limit n : ℕ) → n < limit → n < u64_limit → parse_below limit (to_dec n) ≡ some n
parse_below-to_dec limit n h k =
    parse_below-digits limit n (to_dec n) (all-to_dec n) (to_dec-pos n) (dec_value-to_dec n k) h
