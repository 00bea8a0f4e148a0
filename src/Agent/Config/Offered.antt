-- ===== src/Agent/Config/Offered.antt =====
-- The values that the settings of a loaded configuration can have.
use veracage.Base.{
  ℕ, ◌≤◌, Text, codes, List, [], ◌∷◌, ◌++◌, Bool, true, false, ◌&&◌, ◌||◌, Option, none, some, ◌≡◌,
  refl, arith, sym, text_eq, text_eq→≡, any, parse_below, u32_limit, split_once_onto, append_assoc,
  &&-eq_true, Bool-cases, Option-cases, ◌⊎◌, inl, inr,
}
use veracage.Agent.Keyboard.{is_valid}
use veracage.Agent.Config.{
  DefaultSection, Raw, in_range, window_size_valid, is_valid_font, is_valid_size, is_suspend_action,
  is_theme, load,
}
use veracage.Agent.Config.Bounded.{IsChecked, load-IsChecked}

abbrev pub IsOneOf : List Text → Text → Type 0
IsOneOf [] s = ⊥
IsOneOf (x ∷ xs) s = (s ≡ x) ⊎ IsOneOf xs s

-- Text that `u32::from_str` reads as a number within bounds.
abbrev pub IsNumber : ℕ → ℕ → Text → Type 0
IsNumber lo hi s = (n : ℕ) × (parse_below u32_limit s ≡ some n) × (lo ≤ n) × (n ≤ hi)

-- Two numbers around an `x`.
pub record IsSize (s : Text) : Type 0 where
  pub width : Text
  pub height : Text
  pub together : s ≡ width ++ b'x' ∷ height
  pub width_in : IsNumber 320 16384 width
  pub height_in : IsNumber 240 16384 height

pub record IsOffered (d : DefaultSection) : Type 0 where
  pub suspend : IsOneOf (codes "dismount" ∷ codes "ignore" ∷ []) d.suspend_action
  pub theme : IsOneOf (codes "light" ∷ codes "dark" ∷ codes "system" ∷ []) d.theme
  pub font :
      IsOneOf
        (codes "system"
          ∷ codes "noto"
          ∷ codes "liberation"
          ∷ codes "dejavu"
          ∷ codes "dejavu-mono"
          ∷ [])
        d.ui_font
  pub font_size : (d.ui_font_size ≡ codes "system") ⊎ IsNumber 6 48 d.ui_font_size
  pub window : IsOneOf (codes "default" ∷ codes "max" ∷ []) d.window_size ⊎ IsSize d.window_size
  pub modifiers :
      IsOneOf
        (codes "system"
          ∷ codes "none"
          ∷ codes "altwin:ctrl_win"
          ∷ codes "altwin:alt_win"
          ∷ codes "altwin:ctrl_alt_win"
          ∷ codes "ctrl:swap_lwin_lctl"
          ∷ codes "ctrl:swap_lalt_lctl"
          ∷ codes "ctrl:nocaps"
          ∷ [])
        d.modifier_keys
  pub timeout_least : 1 ≤ d.clip_clear_timeout
  pub timeout_most : d.clip_clear_timeout ≤ 3600
  pub dismount_most : d.auto_dismount ≤ 1440

or_cases : (a b : Bool) → (a || b) ≡ true → (a ≡ true) ⊎ (b ≡ true)
or_cases true b h = inl refl
or_cases false b h = inr h

any-IsOneOf : (xs : List Text) (s : Text) → any (λ k. text_eq k s) xs ≡ true → IsOneOf xs s
any-IsOneOf [] s h = cc
any-IsOneOf (x ∷ xs) s h = elim (or_cases (text_eq x s) (any (λ k. text_eq k s) xs) h) [
  | inl e ↦ inl (sym (text_eq→≡ x s e))
  | inr e ↦ inr (any-IsOneOf xs s e)
]

font-IsOneOf :
    (s : Text)
    → is_valid_font s ≡ true
    → IsOneOf
        (codes "system"
          ∷ codes "noto"
          ∷ codes "liberation"
          ∷ codes "dejavu"
          ∷ codes "dejavu-mono"
          ∷ [])
        s
unfolding is_valid_font
font-IsOneOf s h =
    any-IsOneOf
      (codes "system"
        ∷ codes "noto"
        ∷ codes "liberation"
        ∷ codes "dejavu"
        ∷ codes "dejavu-mono"
        ∷ [])
      s h

modifiers-IsOneOf :
    (s : Text)
    → is_valid s ≡ true
    → IsOneOf
        (codes "system"
          ∷ codes "none"
          ∷ codes "altwin:ctrl_win"
          ∷ codes "altwin:alt_win"
          ∷ codes "altwin:ctrl_alt_win"
          ∷ codes "ctrl:swap_lwin_lctl"
          ∷ codes "ctrl:swap_lalt_lctl"
          ∷ codes "ctrl:nocaps"
          ∷ [])
        s
unfolding is_valid
modifiers-IsOneOf s h =
    any-IsOneOf
      (codes "system"
        ∷ codes "none"
        ∷ codes "altwin:ctrl_win"
        ∷ codes "altwin:alt_win"
        ∷ codes "altwin:ctrl_alt_win"
        ∷ codes "ctrl:swap_lwin_lctl"
        ∷ codes "ctrl:swap_lalt_lctl"
        ∷ codes "ctrl:nocaps"
        ∷ [])
      s h

suspend-IsOneOf :
    (s : Text) → is_suspend_action s ≡ true → IsOneOf (codes "dismount" ∷ codes "ignore" ∷ []) s
suspend-IsOneOf s h =
    elim (or_cases (text_eq s (codes "dismount")) (text_eq s (codes "ignore")) h) [
      | inl e ↦ inl (text_eq→≡ s (codes "dismount") e)
      | inr e ↦ inr (inl (text_eq→≡ s (codes "ignore") e))
    ]

theme-IsOneOf :
    (s : Text) → is_theme s ≡ true → IsOneOf (codes "light" ∷ codes "dark" ∷ codes "system" ∷ []) s
theme-IsOneOf s h = elim (Bool-cases (text_eq s (codes "light"))) [
  | inl e ↦ inl (text_eq→≡ s (codes "light") e)
  | inr e ↦ elim (Bool-cases (text_eq s (codes "dark"))) [
    | inl k ↦ inr (inl (text_eq→≡ s (codes "dark") k))
    | inr k ↦ inr (inr (inl (text_eq→≡ s (codes "system") (ground arith))))
  ]
]

range-IsNumber :
    (lo hi : ℕ) (s : Text) → in_range lo hi (parse_below u32_limit s) ≡ true → IsNumber lo hi s
range-IsNumber lo hi s h = elim (Option-cases (parse_below u32_limit s)) [
  | inl e ↦ absurd (ground arith)
  | inr (n, e) ↦ (n, e, ground arith, ground arith)
]

size-IsNumber : (s : Text) → is_valid_size s ≡ true → (s ≡ codes "system") ⊎ IsNumber 6 48 s
unfolding is_valid_size
size-IsNumber s h =
    elim (or_cases (text_eq s (codes "system")) (in_range 6 48 (parse_below u32_limit s)) h) [
      | inl e ↦ inl (text_eq→≡ s (codes "system") e)
      | inr e ↦ inr (range-IsNumber 6 48 s e)
    ]

split_once_sound :
    (d : ℕ) (acc t a b : Text) → split_once_onto d acc t ≡ some (a, b) → acc ++ t ≡ a ++ d ∷ b
unfolding split_once_onto
split_once_sound d acc [] a b h = cc
split_once_sound d acc (c ∷ t) a b h =
    ground (arith, split_once_sound d (acc ++ c ∷ []) t a b, append_assoc acc (c ∷ []) t)

-- The numbers of a window size that passed.
numbers-IsSize :
    (s : Text) (o : Option (Text × Text))
    → split_once_onto b'x' [] s ≡ o
    → elim o [
      | none ↦ false
      | some (w, h) ↦
          in_range 320 16384 (parse_below u32_limit w)
          && in_range 240 16384 (parse_below u32_limit h)
    ]
      ≡ true
    → IsSize s
numbers-IsSize s none e h = cc
numbers-IsSize s (some (w, h)) e k =
    let both =
      &&-eq_true (in_range 320 16384 (parse_below u32_limit w))
        (in_range 240 16384 (parse_below u32_limit h)) k in
    record {
      width = w;
      height = h;
      together = split_once_sound b'x' [] s w h e;
      width_in = range-IsNumber 320 16384 w both.0;
      height_in = range-IsNumber 240 16384 h both.1;
    }

or_third : (a b c : Bool) → a ≡ false → b ≡ false → (a || b || c) ≡ true → c ≡ true
or_third a b c e f h = ground arith

window-IsSize :
    (s : Text)
    → window_size_valid s ≡ true
    → IsOneOf (codes "default" ∷ codes "max" ∷ []) s ⊎ IsSize s
unfolding window_size_valid
window-IsSize s h = elim (Bool-cases (text_eq s (codes "default"))) [
  | inl e ↦ inl (inl (text_eq→≡ s (codes "default") e))
  | inr e ↦ elim (Bool-cases (text_eq s (codes "max"))) [
    | inl k ↦ inl (inr (inl (text_eq→≡ s (codes "max") k)))
    | inr k ↦ inr (
        numbers-IsSize s (split_once_onto b'x' [] s) refl (
          or_third (text_eq s (codes "default")) (text_eq s (codes "max"))
            (elim (split_once_onto b'x' [] s) [
              | none ↦ false
              | some (w, h) ↦
                  in_range 320 16384 (parse_below u32_limit w)
                  && in_range 240 16384 (parse_below u32_limit h)
            ])
            e k h))
  ]
]

checked-IsOffered : (d : DefaultSection) → IsChecked d → IsOffered d
checked-IsOffered d c = record {
  suspend = suspend-IsOneOf d.suspend_action c.suspend_ok;
  theme = theme-IsOneOf d.theme c.theme_ok;
  font = font-IsOneOf d.ui_font c.font_ok;
  font_size = size-IsNumber d.ui_font_size c.size_ok;
  window = window-IsSize d.window_size c.window_ok;
  modifiers = modifiers-IsOneOf d.modifier_keys c.modifiers_ok;
  timeout_least = c.timeout_least;
  timeout_most = c.timeout_most;
  dismount_most = c.dismount_most;
}

-- Whatever is in the file, and however the TOML reader reads it, in the loaded configuration the
-- suspend action, the theme, the font and the modifier mapping are among the documented words; the
-- font size is "system" or a number from 6 to 48; the window size is "default", "max" or `<w>x<h>`
-- with a width from 320 and a height from 240, both to 16384; the clipboard timeout is from 1 to 3600
-- seconds; and the idle time is at most 1440 minutes.
pub load-IsOffered :
    {V : Type 0}
    → (no_volumes : V) (upper : ℕ → Text) (from_toml : Text → Option (Raw V)) (file : Option Text)
    → IsOffered (load no_volumes upper from_toml file).settings
load-IsOffered no_volumes upper from_toml file =
    checked-IsOffered (load no_volumes upper from_toml file).settings
      (load-IsChecked no_volumes upper from_toml file)
