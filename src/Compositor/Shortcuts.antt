-- ===== src/Compositor/Shortcuts.antt =====
-- The keyboard shortcuts (compositor-rs/src/shortcuts.rs): `Keybind::label`, `Keybind::matches`,
-- `parse` and `scan`. The lower case of the source's `to_lowercase` is the ASCII one here: the only
-- other character that it maps into ASCII is the Kelvin sign, and no modifier's name has a `k`.
pub mod Parse
use veracage.Base.{
  ℕ, Text, codes, List, [], ◌∷◌, ◌++◌, map, Bool, true, false, ◌&&◌, ◌||◌, not, Option, none, some,
  if◌then◌else◌, leb, ltb, text_eq, is_empty, is_alphanumeric, between, to_lower, trim, split,
  split_once, lines, keep, ◌-◌, ◌+◌, ◌==◌,
}

-- smithay's `ModifiersState`, the fields that the source reads.
pub record Mods : Type 0 where
  pub ctrl : Bool
  pub alt : Bool
  pub shift : Bool
  pub logo : Bool

abbrev pub no_mods : Mods
no_mods = record { ctrl = false; alt = false; shift = false; logo = false }

-- `Keybind`
pub record Keybind : Type 0 where
  pub mods : Mods
  pub key : ℕ

abbrev pub to_upper : ℕ → ℕ
to_upper c = if between b'a' b'z' c then c - 32 else c

abbrev shown : Bool → Text → Text
shown b name = if b then name else []

-- `Keybind::label`
unfoldable pub label : Keybind → Text
label k =
    shown k.mods.ctrl (codes "Ctrl+")
    ++ (shown k.mods.alt (codes "Alt+")
        ++ (shown k.mods.shift (codes "Shift+")
            ++ (shown k.mods.logo (codes "Super+") ++ to_upper k.key ∷ [])))

abbrev pub same : Bool → Bool → Bool
same true b = b
same false b = not b

-- `char::from_u32`
abbrev from_u32 : ℕ → Option ℕ
from_u32 n = if ltb n 0xd800 || between 0xe000 0x10ffff n then some n else none

abbrev is_key : ℕ → Option ℕ → Bool
is_key key none = false
is_key key (some c) = to_lower c == key

-- `Keybind::matches`, with the raw number of the keysym.
unfoldable pub matches : Keybind → Mods → ℕ → Bool
matches k mods raw =
    same k.mods.ctrl mods.ctrl
    && same k.mods.alt mods.alt
    && same k.mods.shift mods.shift
    && same k.mods.logo mods.logo
    && is_key k.key (from_u32 raw)

abbrev pub is_one_of : Text → List Text → Bool
is_one_of t [] = false
is_one_of t (n ∷ ns) = text_eq t n || is_one_of t ns

-- One modifier of `parse`, in lower case.
unfoldable pub add_modifier : Text → Mods → Option Mods
add_modifier m mods =
    if is_one_of m (codes "ctrl" ∷ codes "control" ∷ [])
    then some (record { ctrl = true; alt = mods.alt; shift = mods.shift; logo = mods.logo })
    else if text_eq m (codes "alt")
    then some (record { ctrl = mods.ctrl; alt = true; shift = mods.shift; logo = mods.logo })
    else if text_eq m (codes "shift")
    then some (record { ctrl = mods.ctrl; alt = mods.alt; shift = true; logo = mods.logo })
    else if is_one_of m (codes "super" ∷ codes "meta" ∷ codes "logo" ∷ codes "win" ∷ [])
    then some (record { ctrl = mods.ctrl; alt = mods.alt; shift = mods.shift; logo = true })
    else none

abbrev pub has_modifier : Mods → Bool
has_modifier m = m.ctrl || m.alt || m.shift || m.logo

-- The key, the last part: one ASCII letter or digit, and not without a modifier.
unfoldable pub finish : Mods → Text → Option Keybind
finish mods (c ∷ []) =
    if is_alphanumeric c && has_modifier mods
    then some (record { mods = mods; key = to_lower c })
    else none
finish mods _ = none

-- The loop over the modifiers, up to the last part.
unfoldable pub parse_parts : Mods → List Text → Option Keybind
unfolding add_modifier finish
parse_parts mods [] = none
parse_parts mods (k ∷ []) = finish mods k
parse_parts mods (m ∷ p ∷ ps) = elim (add_modifier (map to_lower m) mods) [
  | none ↦ none
  | some mods' ↦ parse_parts mods' (p ∷ ps)
]

unfoldable pub parts : Text → List Text
unfolding trim
parts s = keep (λ p. not (is_empty p)) (map trim (split b'+' s))

-- `parse`
unfoldable pub parse : Text → Option Keybind
unfolding parse_parts parts
parse s = parse_parts no_mods (parts s)

-- `Binds`
pub record Binds : Type 0 where
  pub copy_out : Option Keybind
  pub paste_in : Option Keybind

abbrev pub no_binds : Binds
no_binds = record { copy_out = none; paste_in = none }

-- One line of the file.
unfoldable pub read_bind : Option (Text × Text) → Binds → Binds
unfolding parse
read_bind none binds = binds
read_bind (some (action, bind)) binds =
    if text_eq (trim action) (codes "copy_out")
    then record { copy_out = parse (trim bind); paste_in = binds.paste_in }
    else if text_eq (trim action) (codes "paste_in")
    then record { copy_out = binds.copy_out; paste_in = parse (trim bind) }
    else binds

unfoldable pub read_binds : Binds → List Text → Binds
unfolding read_bind
read_binds binds [] = binds
read_binds binds (l ∷ ls) = read_binds (read_bind (split_once 9 l) binds) ls

-- `scan`: whether the file is a regular one, its length in bytes, and its text, where they are read.
unfoldable pub scan : Option (Bool × ℕ) → Option Text → Option Binds
unfolding read_binds
scan none body = none
scan (some (is_file, len)) none = none
scan (some (is_file, len)) (some body) =
    if not is_file || ltb 4096 len then none else some (read_binds no_binds (lines body))
