-- ===== src/Tests/Config.antt =====
-- The properties of the configuration at concrete inputs, with a TOML reader and writer that know one
-- document.
use veracage.Agent.Keyboard.{is_valid, options_for}
use veracage.Agent.Keyboard.Mapped.{is_modifier, is_unmapped, own_option, options_for-options}
use veracage.Base.{
  keep, split, map, trim, ℕ, Text, codes, [], ◌∷◌, ◌++◌, Bool, true, false, not, ◌&&◌, Option, none,
  some, if◌then◌else◌, text_eq, text_eq→≡, ◌==◌, ◌≡◌, refl, arith, between, ap, ◌∙◌, ◌-◌,
}
use mathlib.Core.Path.{subst}
use veracage.Agent.Config.{
  AppEntry, DefaultSection, Raw, default_settings, default_shortcuts, capitalize_first,
  config_header, Disk, load, save,
}
use veracage.Agent.Config.Offered.{IsOffered, load-IsOffered}
use veracage.Agent.Config.Maps.{Map, has_key, is_keyed}
use veracage.Agent.Config.Reload.{IsStable, IsRaw, IsToml, SaveEnds, can_save, save-load}

option_eq : Option Text → Option Text → Bool
option_eq none none = true
option_eq (some s) (some t) = text_eq s t
option_eq _ _ = false

option_eq→≡ : (s t : Option Text) → option_eq s t ≡ true → s ≡ t
unfolding option_eq
option_eq→≡ none none h = refl
option_eq→≡ none (some t) h = cc
option_eq→≡ (some s) none h = cc
option_eq→≡ (some s) (some t) h = ground (arith, text_eq→≡ s t)

same_bool : Bool → Bool → Bool
same_bool true b = b
same_bool false b = not b

same_bool→≡ : (a b : Bool) → same_bool a b ≡ true → a ≡ b
unfolding same_bool
same_bool→≡ a b h = ground arith

map_eq : Map Text → Map Text → Bool
map_eq [] [] = true
map_eq ((a, x) ∷ m) ((b, y) ∷ n) = text_eq a b && text_eq x y && map_eq m n
map_eq _ _ = false

map_eq→≡ : (m n : Map Text) → map_eq m n ≡ true → m ≡ n
unfolding map_eq
map_eq→≡ [] [] h = refl
map_eq→≡ [] (q ∷ n) h = cc
map_eq→≡ (p ∷ m) [] h = cc
map_eq→≡ ((a, x) ∷ m) ((b, y) ∷ n) h = ground (arith, text_eq→≡ a b, text_eq→≡ x y, map_eq→≡ m n)

apps_eq : Map AppEntry → Map AppEntry → Bool
apps_eq [] [] = true
apps_eq ((a, x) ∷ m) ((b, y) ∷ n) =
    text_eq a b
    && text_eq x.entry_name y.entry_name
    && text_eq x.entry_exec y.entry_exec
    && apps_eq m n
apps_eq _ _ = false

apps_eq→≡ : (m n : Map AppEntry) → apps_eq m n ≡ true → m ≡ n
unfolding apps_eq
apps_eq→≡ [] [] h = refl
apps_eq→≡ [] (q ∷ n) h = cc
apps_eq→≡ (p ∷ m) [] h = cc
apps_eq→≡ ((a, x) ∷ m) ((b, y) ∷ n) h = ground (
  arith,
  text_eq→≡ a b,
  text_eq→≡ x.entry_name y.entry_name,
  text_eq→≡ x.entry_exec y.entry_exec,
  apps_eq→≡ m n,
)

settings_eq : DefaultSection → DefaultSection → Bool
settings_eq c d =
    option_eq c.last_used_app d.last_used_app
    && text_eq c.suspend_action d.suspend_action
    && text_eq c.theme d.theme
    && text_eq c.ui_font d.ui_font
    && text_eq c.ui_font_size d.ui_font_size
    && text_eq c.window_size d.window_size
    && text_eq c.modifier_keys d.modifier_keys
    && same_bool c.exchange d.exchange
    && option_eq c.exchange_dir d.exchange_dir
    && same_bool c.clip_clear d.clip_clear
    && c.clip_clear_timeout == d.clip_clear_timeout
    && c.auto_dismount == d.auto_dismount
    && same_bool c.debug d.debug

settings_eq→≡ : (c d : DefaultSection) → settings_eq c d ≡ true → c ≡ d
unfolding settings_eq
settings_eq→≡ c d h = ground (
  arith,
  option_eq→≡ c.last_used_app d.last_used_app,
  text_eq→≡ c.suspend_action d.suspend_action,
  text_eq→≡ c.theme d.theme,
  text_eq→≡ c.ui_font d.ui_font,
  text_eq→≡ c.ui_font_size d.ui_font_size,
  text_eq→≡ c.window_size d.window_size,
  text_eq→≡ c.modifier_keys d.modifier_keys,
  same_bool→≡ c.exchange d.exchange,
  option_eq→≡ c.exchange_dir d.exchange_dir,
  same_bool→≡ c.clip_clear d.clip_clear,
  same_bool→≡ c.debug d.debug,
)

abbrev RawUnit : Type 0
RawUnit = Raw (Unit {0})

abbrev sample : RawUnit
sample = record {
  default = default_settings;
  raw_apps =
      (codes "dolphin", record { entry_name = codes "Dolphin"; entry_exec = codes "dolphin" }) ∷ [];
  raw_shortcuts = default_shortcuts;
  raw_volumes = tt;
}

is_sample : RawUnit → Bool
unfolding settings_eq apps_eq map_eq
is_sample raw =
    settings_eq raw.default sample.default
    && apps_eq raw.raw_apps sample.raw_apps
    && map_eq raw.raw_shortcuts sample.raw_shortcuts

raw_is :
    (raw : RawUnit)
    → raw.default ≡ sample.default
    → raw.raw_apps ≡ sample.raw_apps
    → raw.raw_shortcuts ≡ sample.raw_shortcuts
    → sample ≡ raw
raw_is raw d a s = rw (d, a, s) refl

is_sample→≡ : (raw : RawUnit) → is_sample raw ≡ true → sample ≡ raw
unfolding is_sample
is_sample→≡ raw h =
    raw_is raw (settings_eq→≡ raw.default sample.default (ground arith))
      (apps_eq→≡ raw.raw_apps sample.raw_apps (ground arith))
      (map_eq→≡ raw.raw_shortcuts sample.raw_shortcuts (ground arith))

abbrev only_if : {A : Type 0} → Bool → A → Option A
only_if b a = if b then some a else none

to_toml : RawUnit → Option Text
unfolding is_sample
to_toml raw = only_if (is_sample raw) (codes "sample")

from_toml : Text → Option RawUnit
unfolding text_eq
from_toml t = only_if (text_eq t (config_header ++ codes "sample")) sample

only_if-some : {A : Type 0} → (b : Bool) (a c : A) → only_if b a ≡ some c → (b ≡ true) × (a ≡ c)
only_if-some true a c h = ground arith
only_if-some false a c h = cc

from_toml-sample : from_toml (config_header ++ codes "sample") ≡ some sample
unfolding from_toml
from_toml-sample = refl

reads_back :
    (raw : RawUnit) (body : Text)
    → to_toml raw ≡ some body
    → from_toml (config_header ++ body) ≡ some raw
unfolding to_toml
reads_back raw body h =
    let w = only_if-some (is_sample raw) (codes "sample") body h in
    subst (λ b. from_toml (config_header ++ b) ≡ some raw) w.1
      (from_toml-sample ∙ ap (λ r. some r) (is_sample→≡ raw w.0))

sample-IsRaw : IsRaw sample
unfolding is_keyed has_key
sample-IsRaw = record { apps_keyed = refl }

is_raw : (t : Text) (raw : RawUnit) → from_toml t ≡ some raw → IsRaw raw
unfolding from_toml
is_raw t raw h =
    subst IsRaw (only_if-some (text_eq t (config_header ++ codes "sample")) sample raw h).1
      sample-IsRaw

sample-IsToml : IsToml from_toml to_toml
sample-IsToml = record { reads = reads_back; keyed = is_raw }

-- The upper case of ASCII.
abbrev upper : ℕ → Text
upper c = (if between b'a' b'z' c then c - 32 else c) ∷ []

upper-IsStable : IsStable upper
unfolding capitalize_first
upper-IsStable c cs = ap (λ d. d ∷ cs) (ground arith)

abbrev sample_text : Text
sample_text = config_header ++ codes "sample"

abbrev good_disk : Disk
good_disk = record { has_dir = true; written = true; renamed = true }

load-IsOffered_example : IsOffered (load tt upper from_toml (some sample_text)).settings
load-IsOffered_example = load-IsOffered tt upper from_toml (some sample_text)

save-load_example :
    SaveEnds
      (λ t. load tt upper from_toml (some t))
      (load tt upper from_toml (some sample_text))
      (some sample_text)
      (can_save to_toml good_disk (load tt upper from_toml (some sample_text)))
      (save to_toml good_disk (load tt upper from_toml (some sample_text)) (some sample_text))
save-load_example =
    save-load tt upper from_toml to_toml good_disk sample_text (some sample_text) upper-IsStable
      sample-IsToml

options_for-options_example :
    (keep is_modifier
        (split b',' (options_for (codes "ctrl:swapcaps, compose:ralt,,") (codes "ctrl:nocaps")))
      ≡ own_option (codes "ctrl:nocaps"))
    × (keep is_unmapped
          (split b',' (options_for (codes "ctrl:swapcaps, compose:ralt,,") (codes "ctrl:nocaps")))
        ≡ keep is_unmapped (map trim (split b',' (codes "ctrl:swapcaps, compose:ralt,,"))))
unfolding is_valid text_eq
options_for-options_example =
    options_for-options (codes "ctrl:swapcaps, compose:ralt,,") (codes "ctrl:nocaps") refl refl
