-- ===== src/Compositor/Toolbar/Scan.antt =====
-- What the compositor reads of the published files (compositor-rs/src/toolbar.rs): the idle timeout,
-- the theme, the clear policy, the keyboard and the configured apps, and the leaders' notice.
pub mod Published
pub mod Apps
use veracage.Base.{
  ℕ, Text, codes, List, [], ◌∷◌, ◌++◌, map, Bool, true, false, not, ◌&&◌, ◌||◌, Option, none, some,
  if◌then◌else◌, leb, ltb, ◌==◌, text_eq, is_empty, is_alphanumeric, is_control, contains_char,
  byte_len, trim, split_once, lines, first_or, parse_below, u32_limit, u64_limit, all, keep, take,
  filter_map,
}

-- A file as a scan meets it: whether it is a regular one, its length in bytes, and its text where it
-- can be read.
pub record Found : Type 0 where
  pub is_file : Bool
  pub size : ℕ
  pub body : Option Text

-- The text of a regular file of at most `limit` bytes.
unfoldable pub read_within : ℕ → Option Found → Option Text
read_within limit none = none
read_within limit (some f) = if not f.is_file || ltb limit f.size then none else f.body

abbrev pub cap_at : ℕ → Option ℕ → Option ℕ
cap_at most none = none
cap_at most (some n) = some (if leb n most then n else most)

-- `scan_autodismount`
unfoldable pub scan_autodismount : Option Found → Option ℕ
unfolding read_within trim parse_below
scan_autodismount f = elim (read_within 16 f) [
  | none ↦ none
  | some body ↦ cap_at 1440 (parse_below u32_limit (trim body))
]

abbrev pub theme_of : Text → Option Bool
theme_of t =
    if text_eq t (codes "dark")
    then some true
    else if text_eq t (codes "light")
    then some false
    else none

-- `scan_theme`: whether the theme is the dark one.
unfoldable pub scan_theme : Option Found → Option Bool
unfolding read_within trim text_eq
scan_theme f = elim (read_within 32 f) [ none ↦ none | some body ↦ theme_of (trim body) ]

-- `initial_dark`, with `$VERACAGE_THEME`.
unfoldable pub initial_dark : Option Found → Option Text → Bool
unfolding scan_theme
initial_dark f env = elim (scan_theme f) [
  | some dark ↦ dark
  | none ↦ elim env [ some t ↦ text_eq t (codes "dark") | none ↦ false ]
]

abbrev pub clamp_secs : Option ℕ → Option ℕ
clamp_secs none = none
clamp_secs (some n) = some (if ltb n 1 then 1 else if ltb 3600 n then 3600 else n)

abbrev pub with_secs : Bool → Option ℕ → Option (Bool × ℕ)
with_secs enabled none = none
with_secs enabled (some n) = some (enabled, n)

unfoldable pub clear_policy : List Text → Option (Bool × ℕ)
unfolding trim text_eq parse_below
clear_policy [] = none
clear_policy (e ∷ []) = none
clear_policy (e ∷ s ∷ rest) =
    with_secs (text_eq (trim e) (codes "1")) (clamp_secs (parse_below u32_limit (trim s)))

-- `scan_clipclear`
unfoldable pub scan_clipclear : Option Found → Option (Bool × ℕ)
unfolding read_within clear_policy
scan_clipclear f = elim (read_within 64 f) [ none ↦ none | some body ↦ clear_policy (lines body) ]

-- `KeyboardConfig`
pub record KeyboardConfig : Type 0 where
  pub model : Text
  pub layout : Text
  pub variant : Text
  pub options : Text

-- `xkb_names_ok`
unfoldable pub xkb_names_ok : Text → Bool
unfolding byte_len is_alphanumeric contains_char
xkb_names_ok s =
    leb (byte_len s) 256 && all (λ c. is_alphanumeric c || contains_char c (codes "_-:,+()")) s

abbrev rest_of : List Text → List Text
rest_of [] = []
rest_of (l ∷ ls) = ls

abbrev pub keyboard_of : List Text → KeyboardConfig
keyboard_of ls = record {
  model = first_or [] ls;
  layout = first_or [] (rest_of ls);
  variant = first_or [] (rest_of (rest_of ls));
  options = first_or [] (rest_of (rest_of (rest_of ls)));
}

unfoldable pub plausible : KeyboardConfig → Option KeyboardConfig
unfolding xkb_names_ok
plausible k =
    if xkb_names_ok k.model
      && xkb_names_ok k.layout
      && xkb_names_ok k.variant
      && xkb_names_ok k.options
    then some k
    else none

-- `scan_keyboard`
unfoldable pub scan_keyboard : Option Found → Option KeyboardConfig
unfolding read_within plausible trim
scan_keyboard f = elim (read_within 1024 f) [
  | none ↦ none
  | some body ↦ plausible (keyboard_of (map trim (lines body)))
]

-- `ConfigApp`
pub record ConfigApp : Type 0 where
  pub key : Text
  pub name : Text

abbrev pub shown_app : Text → Text → Option ConfigApp
shown_app key name =
    if ltb 128 (byte_len name) then none else some (record { key = key; name = name })

abbrev pub app_line : Option (Text × Text) → Option ConfigApp
app_line none = none
app_line (some (key, name)) =
    if is_empty key || ltb 64 (byte_len key) || contains_char b'/' key || text_eq key (codes "..")
    then none
    else shown_app key (if is_empty name then key else name)

-- `scan_config_apps`
unfoldable pub scan_config_apps : Option Found → List ConfigApp
unfolding read_within byte_len contains_char text_eq
scan_config_apps f = elim (read_within 65536 f) [
  | none ↦ []
  | some body ↦ filter_map (λ l. app_line (split_once 9 l)) (take 64 (lines body))
]

abbrev notice_text : ℕ → Text → Option (ℕ × Text)
notice_text nonce text = if is_empty text then none else some (nonce, text)

abbrev notice_line : Option (Text × Text) → Option (ℕ × Text)
notice_line none = none
notice_line (some (nonce, text)) = elim (parse_below u64_limit nonce) [
  | none ↦ none
  | some n ↦ notice_text n (take 200 (keep (λ c. not (is_control c)) text))
]

abbrev first_notice : List Text → Option (ℕ × Text)
first_notice [] = none
first_notice (l ∷ ls) = notice_line (split_once 9 l)

-- `scan_notice`
unfoldable pub scan_notice : Option Found → Option (ℕ × Text)
unfolding read_within parse_below is_control
scan_notice f = elim (read_within 4096 f) [ none ↦ none | some body ↦ first_notice (lines body) ]
