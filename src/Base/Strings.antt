-- ===== src/Base/Strings.antt =====
-- Rust's `str` as the list of its characters (code points), with the methods of the standard
-- library that the source calls on it.
use Prim.Native.Char.{code}
use Prim.Native.String.{String}
use Prim.Native.Nat.{ℕ, ◌+◌}
use mathlib.Core.Path.{◌≡◌, refl}
use mathlib.Core.Logic.{◌↔◌}
use mathlib.Core.Bool.{Bool, true, false, ◌&&◌, ◌||◌}
use mathlib.Core.Option.{Option, none, some}
use mathlib.Core.List.{List, [], ◌∷◌, ◌++◌}
use native.Mathlib.Omega.{arith}
use veracage.Base.Tests.{ltb, leb, ◌==◌, if◌then◌else◌}
use veracage.Base.Lists.{is_empty}

abbrev pub Text : Type 0
Text = List ℕ

-- A text literal.
abbrev pub codes : String → Text
codes String.[] = []
codes (String.◌∷◌ c s) = code c ∷ codes s

unfoldable pub text_eq : Text → Text → Bool
text_eq [] [] = true
text_eq (x ∷ xs) (y ∷ ys) = x == y && text_eq xs ys
text_eq _ _ = false

pub text_eq_refl : (t : Text) → text_eq t t ≡ true
unfolding text_eq
text_eq_refl [] = refl
text_eq_refl (x ∷ xs) = ground (arith, text_eq_refl xs)

pub text_eq→≡ : (s t : Text) → text_eq s t ≡ true → s ≡ t
unfolding text_eq
text_eq→≡ [] [] h = refl
text_eq→≡ [] (y ∷ ys) h = cc
text_eq→≡ (x ∷ xs) [] h = cc
text_eq→≡ (x ∷ xs) (y ∷ ys) h = ground (arith, text_eq→≡ xs ys)

pub text_eq_iff : (s t : Text) → (text_eq s t ≡ true) ↔ (s ≡ t)
text_eq_iff s t = (text_eq→≡ s t, λ e. rw (← e) (text_eq_refl s))

-- `slice.contains(&t)` for texts
unfoldable pub contains_text : List Text → Text → Bool
unfolding text_eq
contains_text [] t = false
contains_text (x ∷ xs) t = text_eq x t || contains_text xs t

-- The length in bytes of the UTF-8 form, `str::len`.
abbrev pub len_utf8 : ℕ → ℕ
len_utf8 c = if ltb c 128 then 1 else if ltb c 2048 then 2 else if ltb c 65536 then 3 else 4

unfoldable pub byte_len : Text → ℕ
byte_len [] = 0
byte_len (c ∷ cs) = len_utf8 c + byte_len cs

abbrev pub between : ℕ → ℕ → ℕ → Bool
between lo hi c = leb lo c && leb c hi

abbrev pub is_digit : ℕ → Bool
is_digit c = between b'0' b'9' c

unfoldable pub is_alphanumeric : ℕ → Bool
is_alphanumeric c = is_digit c || between b'a' b'z' c || between b'A' b'Z' c

abbrev pub to_lower : ℕ → ℕ
to_lower c = if between b'A' b'Z' c then c + 32 else c

-- `char::is_whitespace`, the White_Space property of Unicode.
unfoldable pub is_whitespace : ℕ → Bool
is_whitespace c =
    between 9 13 c
    || c == 32
    || c == 0x85
    || c == 0xa0
    || c == 0x1680
    || between 0x2000 0x200a c
    || c == 0x2028
    || c == 0x2029
    || c == 0x202f
    || c == 0x205f
    || c == 0x3000

-- `char::is_control`, the category Cc.
unfoldable pub is_control : ℕ → Bool
is_control c = ltb c 32 || between 127 159 c

-- `trim_matches`
unfoldable pub trim_start : (ℕ → Bool) → Text → Text
trim_start p [] = []
trim_start p (c ∷ cs) = if p c then trim_start p cs else c ∷ cs

-- The last character kept is the last one that fails `p`.
unfoldable pub trim_end : (ℕ → Bool) → Text → Text
trim_end p [] = []
trim_end p (c ∷ cs) = let rest = trim_end p cs in if p c && is_empty rest then [] else c ∷ rest

unfoldable pub trim_matches : (ℕ → Bool) → Text → Text
unfolding trim_start trim_end
trim_matches p t = trim_end p (trim_start p t)

unfoldable pub trim : Text → Text
unfolding trim_matches is_whitespace
trim t = trim_matches is_whitespace t

unfoldable pub strip_prefix : Text → Text → Option Text
strip_prefix [] t = some t
strip_prefix (p ∷ ps) [] = none
strip_prefix (p ∷ ps) (c ∷ cs) = if p == c then strip_prefix ps cs else none

unfoldable pub contains_char : ℕ → Text → Bool
contains_char d [] = false
contains_char d (c ∷ cs) = c == d || contains_char d cs

-- `split(d)`; `acc` holds the field read so far.
unfoldable pub split_onto : ℕ → Text → Text → List Text
split_onto d acc [] = acc ∷ []
split_onto d acc (c ∷ cs) = elim (c == d) [
  | true ↦ acc ∷ split_onto d [] cs
  | false ↦ split_onto d (acc ++ c ∷ []) cs
]

abbrev pub split : ℕ → Text → List Text
split d t = split_onto d [] t

-- `split_once(d)`
unfoldable pub split_once_onto : ℕ → Text → Text → Option (Text × Text)
split_once_onto d acc [] = none
split_once_onto d acc (c ∷ cs) = elim (c == d) [
  | true ↦ some (acc, cs)
  | false ↦ split_once_onto d (acc ++ c ∷ []) cs
]

abbrev pub split_once : ℕ → Text → Option (Text × Text)
split_once d t = split_once_onto d [] t

-- `lines`: a line ends at `\n`, and loses one `\r` before it; a last line without `\n` counts.
unfoldable pub strip_cr : Text → Text
strip_cr [] = []
strip_cr (c ∷ []) = if c == 13 then [] else c ∷ []
strip_cr (c ∷ d ∷ cs) = c ∷ strip_cr (d ∷ cs)

abbrev last_line : Text → List Text
last_line [] = []
last_line (a ∷ acc) = (a ∷ acc) ∷ []

unfoldable pub lines_onto : Text → Text → List Text
lines_onto acc [] = last_line acc
lines_onto acc (c ∷ cs) = elim (c == 10) [
  | true ↦ strip_cr acc ∷ lines_onto [] cs
  | false ↦ lines_onto (acc ++ c ∷ []) cs
]

abbrev pub lines : Text → List Text
lines t = lines_onto [] t

abbrev pub first_or : Text → List Text → Text
first_or d [] = d
first_or d (x ∷ xs) = x
