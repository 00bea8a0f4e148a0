-- ===== src/Agent/Config/Bounded.antt =====
-- What the settings of a loaded configuration are, whatever the file says.
use veracage.Base.{ℕ, Text, codes, Bool, true, Option, none, some, ◌≤◌, ◌≡◌, refl, arith, text_eq}
use veracage.Agent.Keyboard.{is_valid}
use veracage.Agent.Config.{
  DefaultSection, Raw, default_settings, clamp_clip_timeout, min, window_size_valid, is_valid_font,
  is_valid_size, accepted, is_suspend_action, is_theme, checked, of_raw, of_parsed, load,
}

-- The settings that the other parts of the program count on.
pub record IsChecked (d : DefaultSection) : Type 0 where
  pub suspend_ok : is_suspend_action d.suspend_action ≡ true
  pub theme_ok : is_theme d.theme ≡ true
  pub font_ok : is_valid_font d.ui_font ≡ true
  pub size_ok : is_valid_size d.ui_font_size ≡ true
  pub window_ok : window_size_valid d.window_size ≡ true
  pub modifiers_ok : is_valid d.modifier_keys ≡ true
  pub timeout_least : 1 ≤ d.clip_clear_timeout
  pub timeout_most : d.clip_clear_timeout ≤ 3600
  pub dismount_most : d.auto_dismount ≤ 1440

accepted-ok :
    (p : Text → Bool) (v other : Text) → p other ≡ true → p (accepted (p v) v other) ≡ true
accepted-ok p v other h = ground arith

system-font : is_valid_font (codes "system") ≡ true
unfolding is_valid_font text_eq
system-font = refl

system-size : is_valid_size (codes "system") ≡ true
unfolding is_valid_size text_eq
system-size = refl

default-window : window_size_valid (codes "default") ≡ true
unfolding window_size_valid text_eq
default-window = refl

system-modifiers : is_valid (codes "system") ≡ true
unfolding is_valid text_eq
system-modifiers = refl

dismount-suspend : is_suspend_action (codes "dismount") ≡ true
unfolding text_eq
dismount-suspend = refl

light-theme : is_theme (codes "light") ≡ true
unfolding text_eq
light-theme = refl

clamp-least : (n : ℕ) → 1 ≤ clamp_clip_timeout n
unfolding clamp_clip_timeout
clamp-least n = ground arith

clamp-most : (n : ℕ) → clamp_clip_timeout n ≤ 3600
unfolding clamp_clip_timeout
clamp-most n = ground arith

min-most : (n m : ℕ) → min n m ≤ m
min-most n m = ground arith

pub checked-IsChecked : (d : DefaultSection) → IsChecked (checked d)
unfolding checked
checked-IsChecked d = record {
  suspend_ok = accepted-ok is_suspend_action d.suspend_action (codes "dismount") dismount-suspend;
  theme_ok = accepted-ok is_theme d.theme (codes "light") light-theme;
  font_ok = accepted-ok is_valid_font d.ui_font (codes "system") system-font;
  size_ok = accepted-ok is_valid_size d.ui_font_size (codes "system") system-size;
  window_ok = accepted-ok window_size_valid d.window_size (codes "default") default-window;
  modifiers_ok = accepted-ok is_valid d.modifier_keys (codes "system") system-modifiers;
  timeout_least = clamp-least d.clip_clear_timeout;
  timeout_most = clamp-most d.clip_clear_timeout;
  dismount_most = min-most d.auto_dismount 1440;
}

pub default-IsChecked : IsChecked default_settings
default-IsChecked = record {
  suspend_ok = dismount-suspend;
  theme_ok = light-theme;
  font_ok = system-font;
  size_ok = system-size;
  window_ok = default-window;
  modifiers_ok = system-modifiers;
  timeout_least = omega arith;
  timeout_most = omega arith;
  dismount_most = omega arith;
}

parsed-IsChecked :
    {V : Type 0}
    → (no_volumes : V) (upper : ℕ → Text) (o : Option (Raw V))
    → IsChecked (of_parsed no_volumes upper o).settings
unfolding of_parsed of_raw
parsed-IsChecked no_volumes upper none = default-IsChecked
parsed-IsChecked no_volumes upper (some raw) = checked-IsChecked raw.default

-- Whatever is in the file, and however the TOML reader reads it, the settings of the loaded
-- configuration pass the tests of `load`, its clipboard timeout is from 1 to 3600 seconds, and its
-- idle time is at most 1440 minutes.
pub load-IsChecked :
    {V : Type 0}
    → (no_volumes : V) (upper : ℕ → Text) (from_toml : Text → Option (Raw V)) (file : Option Text)
    → IsChecked (load no_volumes upper from_toml file).settings
unfolding load
load-IsChecked no_volumes upper from_toml none = default-IsChecked
load-IsChecked no_volumes upper from_toml (some text) =
    parsed-IsChecked no_volumes upper (from_toml text)
