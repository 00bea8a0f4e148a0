-- ===== src/Agent/Config.antt =====
-- The configuration (agent-rs/src/config.rs, with `App` of apps.rs and the choices of fonts.rs):
-- `load`, `save` and the bounds that they keep. The TOML reader and writer, the upper case of a
-- character and the per-volume values `V` are parameters; `IndexMap` and `BTreeMap` are association
-- lists, in the order of insertion.
pub mod Maps
pub mod Bounded
pub mod Offered
pub mod Shortcuts
pub mod Reload
use veracage.Base.{
  ℕ, Text, codes, List, [], ◌∷◌, ◌++◌, map, Bool, true, false, not, ◌&&◌, ◌||◌, Option, none, some,
  if◌then◌else◌, text_eq, contains_text, is_empty, any, leb, ltb, trim, split_once, parse_below,
  u32_limit, strip_prefix,
}
use veracage.Agent.Paths.{exec_basename, path_join}
use veracage.Agent.Keyboard.{is_valid}
use veracage.Agent.Config.Maps.{Map, put, put_all}

-- `App`
pub record App : Type 0 where
  pub key : Text
  pub name : Text
  pub exec : Text

-- `AppEntry`
pub record AppEntry : Type 0 where
  pub entry_name : Text
  pub entry_exec : Text

-- `DefaultSection`
pub record DefaultSection : Type 0 where
  pub last_used_app : Option Text
  pub suspend_action : Text
  pub theme : Text
  pub ui_font : Text
  pub ui_font_size : Text
  pub window_size : Text
  pub modifier_keys : Text
  pub exchange : Bool
  pub exchange_dir : Option Text
  pub clip_clear : Bool
  pub clip_clear_timeout : ℕ
  pub auto_dismount : ℕ
  pub debug : Bool

-- `Raw`
pub record Raw (V : Type 0) : Type 0 where
  pub default : DefaultSection
  pub raw_apps : Map AppEntry
  pub raw_shortcuts : Map Text
  pub raw_volumes : V

-- `Config`, with the settings that `DefaultSection` has too under `settings`.
pub record Config (V : Type 0) : Type 0 where
  pub apps : List App
  pub settings : DefaultSection
  pub shortcuts : Map Text
  pub volumes : V
  pub loaded_ok : Bool

-- `default_shortcuts`
abbrev pub default_shortcuts : Map Text
default_shortcuts =
    (codes "copy_out", codes "Ctrl+Alt+C") ∷ (codes "paste_in", codes "Ctrl+Alt+V") ∷ []

abbrev pub default_clip_clear_timeout : ℕ
default_clip_clear_timeout = 30

abbrev pub auto_dismount_max : ℕ
auto_dismount_max = 1440

abbrev pub clip_clear_timeout_max : ℕ
clip_clear_timeout_max = 3600

-- The default section.
abbrev pub default_settings : DefaultSection
default_settings = record {
  last_used_app = none;
  suspend_action = codes "dismount";
  theme = codes "light";
  ui_font = codes "system";
  ui_font_size = codes "system";
  window_size = codes "default";
  modifier_keys = codes "system";
  exchange = true;
  exchange_dir = none;
  clip_clear = true;
  clip_clear_timeout = default_clip_clear_timeout;
  auto_dismount = 0;
  debug = false;
}

-- `Config::empty`, with the empty map of volumes.
abbrev pub empty_config : {V : Type 0} → V → Bool → Config V
empty_config no_volumes ok = record {
  apps = [];
  settings = default_settings;
  shortcuts = default_shortcuts;
  volumes = no_volumes;
  loaded_ok = ok;
}

-- `clamp_clip_timeout`
unfoldable pub clamp_clip_timeout : ℕ → ℕ
clamp_clip_timeout secs =
    if ltb secs 1
    then 1
    else if ltb clip_clear_timeout_max secs
    then clip_clear_timeout_max
    else secs

-- `u32::min`
abbrev pub min : ℕ → ℕ → ℕ
min a b = if leb a b then a else b

abbrev in_range : ℕ → ℕ → Option ℕ → Bool
in_range lo hi none = false
in_range lo hi (some n) = leb lo n && leb n hi

-- `window_size_valid`
unfoldable pub window_size_valid : Text → Bool
unfolding parse_below
window_size_valid s =
    text_eq s (codes "default") || text_eq s (codes "max") || elim (split_once b'x' s) [
      | none ↦ false
      | some (w, h) ↦
          in_range 320 16384 (parse_below u32_limit w)
          && in_range 240 16384 (parse_below u32_limit h)
    ]

-- `is_valid_font` and `is_valid_size` of fonts.rs
unfoldable pub is_valid_font : Text → Bool
is_valid_font key =
    any (λ k. text_eq k key)
      (codes "system"
        ∷ codes "noto"
        ∷ codes "liberation"
        ∷ codes "dejavu"
        ∷ codes "dejavu-mono"
        ∷ [])

unfoldable pub is_valid_size : Text → Bool
unfolding parse_below
is_valid_size s = text_eq s (codes "system") || in_range 6 48 (parse_below u32_limit s)

-- A value where it is accepted, else another.
abbrev pub accepted : Bool → Text → Text → Text
accepted ok value other = if ok then value else other

abbrev pub is_suspend_action : Text → Bool
is_suspend_action s = text_eq s (codes "dismount") || text_eq s (codes "ignore")

abbrev pub is_theme : Text → Bool
is_theme s = text_eq s (codes "light") || text_eq s (codes "dark") || text_eq s (codes "system")

-- The settings that `load` takes over.
unfoldable pub checked : DefaultSection → DefaultSection
unfolding is_valid is_valid_font is_valid_size window_size_valid clamp_clip_timeout
checked d = record {
  last_used_app = d.last_used_app;
  suspend_action =
      accepted (is_suspend_action d.suspend_action) d.suspend_action (codes "dismount");
  theme = accepted (is_theme d.theme) d.theme (codes "light");
  ui_font = accepted (is_valid_font d.ui_font) d.ui_font (codes "system");
  ui_font_size = accepted (is_valid_size d.ui_font_size) d.ui_font_size (codes "system");
  window_size = accepted (window_size_valid d.window_size) d.window_size (codes "default");
  modifier_keys = accepted (is_valid d.modifier_keys) d.modifier_keys (codes "system");
  exchange = d.exchange;
  exchange_dir = d.exchange_dir;
  clip_clear = d.clip_clear;
  clip_clear_timeout = clamp_clip_timeout d.clip_clear_timeout;
  auto_dismount = min d.auto_dismount auto_dismount_max;
  debug = d.debug;
}

-- `capitalize_first`
unfoldable pub capitalize_first : (ℕ → Text) → Text → Text
capitalize_first upper [] = []
capitalize_first upper (c ∷ cs) = upper c ++ cs

-- The apps, the first of each program, with `seen` the programs so far.
unfoldable pub dedupe : List Text → Map AppEntry → Map AppEntry
unfolding contains_text exec_basename
dedupe seen [] = []
dedupe seen ((key, e) ∷ es) =
    let program = exec_basename e.entry_exec in
    let rest = dedupe (program ∷ seen) es in
    let others = dedupe seen es in if contains_text seen program then others else (key, e) ∷ rest

abbrev pub app_of : (ℕ → Text) → Text × AppEntry → App
unfolding capitalize_first
app_of upper (key, e) = record {
  key = key;
  name = capitalize_first upper e.entry_name;
  exec = e.entry_exec;
}

-- The shortcuts that are not blank, over the defaults.
unfoldable pub fill : Map Text → Map Text → Map Text
unfolding put trim
fill [] m = m
fill ((action, bind) ∷ rest) m = fill rest (if is_empty (trim bind) then m else put action bind m)

-- The configuration of what was read.
unfoldable pub of_raw : {V : Type 0} → (ℕ → Text) → Raw V → Config V
unfolding checked dedupe fill app_of
of_raw upper raw = record {
  apps = map (app_of upper) (dedupe [] raw.raw_apps);
  settings = checked raw.default;
  shortcuts = fill raw.raw_shortcuts default_shortcuts;
  volumes = raw.raw_volumes;
  loaded_ok = true;
}

-- A file that does not parse leaves a configuration that is not saved.
unfoldable pub of_parsed : {V : Type 0} → V → (ℕ → Text) → Option (Raw V) → Config V
unfolding of_raw
of_parsed no_volumes upper none = empty_config no_volumes false
of_parsed no_volumes upper (some raw) = of_raw upper raw

-- `load`, of the file's text where it can be read.
unfoldable pub load :
    {V : Type 0} → V → (ℕ → Text) → (Text → Option (Raw V)) → Option Text → Config V
unfolding of_parsed
load no_volumes upper from_toml none = empty_config no_volumes true
load no_volumes upper from_toml (some text) = of_parsed no_volumes upper (from_toml text)

abbrev pub entry_of : App → Text × AppEntry
entry_of a = (a.key, record { entry_name = a.name; entry_exec = a.exec })

-- What `save` writes of a configuration.
unfoldable pub to_raw : {V : Type 0} → Config V → Raw V
unfolding put_all
to_raw c = record {
  default = c.settings;
  raw_apps = put_all (map entry_of c.apps) [];
  raw_shortcuts = c.shortcuts;
  raw_volumes = c.volumes;
}

abbrev pub config_header : Text
config_header = codes "# Veracage config - edit carefully, see `veracage configure`" ++ 10 ∷ 10 ∷ []

-- What `save` meets: whether the directory is there or made, the temporary file is written, and it
-- is renamed.
pub record Disk : Type 0 where
  pub has_dir : Bool
  pub written : Bool
  pub renamed : Bool

-- `save`: whether it succeeded, and the file after it.
unfoldable pub save :
    {V : Type 0} → (Raw V → Option Text) → Disk → Config V → Option Text → Bool × Option Text
unfolding to_raw
save to_toml disk c file =
    if c.loaded_ok && disk.has_dir
    then elim (to_toml (to_raw c)) [
      | none ↦ (false, file)
      | some body ↦
          if disk.written && disk.renamed
          then (true, some (config_header ++ body))
          else (false, file)
    ]
    else (false, file)

-- `Config::exchange_path`, with `$HOME`.
unfoldable pub exchange_path : Option Text → Option Text → Text
unfolding strip_prefix path_join
exchange_path home none =
    path_join (path_join (elim home [ some h ↦ h | none ↦ [] ]) (codes "Veracage"))
      (codes "Exchange")
exchange_path home (some d) =
    if text_eq d (codes "~")
    then elim home [ some h ↦ h | none ↦ codes "~" ]
    else elim (strip_prefix (codes "~/") d) [
      | none ↦ d
      | some rest ↦ elim home [ some h ↦ path_join h rest | none ↦ d ]
    ]
