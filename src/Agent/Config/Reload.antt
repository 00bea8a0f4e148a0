-- ===== src/Agent/Config/Reload.antt =====
-- A save, and the load of what it wrote.
use veracage.Base.{
  ℕ, Text, codes, List, [], ◌∷◌, ◌++◌, map, Bool, true, false, not, ◌&&◌, Option, none, some, ◌≤◌,
  ◌≡◌, refl, ap, ◌∙◌, arith, contains_text, inl, inr, Bool-cases, Option-cases,
}
use veracage.Agent.Paths.{exec_basename, is_some}
use veracage.Agent.Keyboard.{is_valid}
use veracage.Agent.Config.Maps.{Map, has_key, is_keyed, put_all-new}
use veracage.Agent.Config.Shortcuts.{fill-IsFilled, default-IsFilled, fill_same}
use veracage.Agent.Config.Bounded.{IsChecked, checked-IsChecked}
use veracage.Agent.Config.{
  AppEntry, DefaultSection, Raw, Config, default_shortcuts, clamp_clip_timeout, min,
  window_size_valid, is_valid_font, is_valid_size, accepted, is_suspend_action, is_theme, checked,
  capitalize_first, dedupe, app_of, fill, of_raw, of_parsed, load, entry_of, to_raw, config_header,
  Disk, save,
}

-- Settings that are checked already stay as they are.
accepted-same : (b : Bool) (v other : Text) → b ≡ true → accepted b v other ≡ v
accepted-same true v other h = refl
accepted-same false v other h = cc

clamp-same : (n : ℕ) → 1 ≤ n → n ≤ 3600 → clamp_clip_timeout n ≡ n
unfolding clamp_clip_timeout
clamp-same n h k = ground arith

min-same : (n m : ℕ) → n ≤ m → min n m ≡ n
min-same n m h = ground arith

checked-same : (d : DefaultSection) → IsChecked d → checked d ≡ d
unfolding checked
checked-same d h =
    rw
      (
        accepted-same (is_suspend_action d.suspend_action) d.suspend_action (codes "dismount")
            h.suspend_ok,
        accepted-same (is_theme d.theme) d.theme (codes "light") h.theme_ok,
        accepted-same (is_valid_font d.ui_font) d.ui_font (codes "system") h.font_ok,
        accepted-same (is_valid_size d.ui_font_size) d.ui_font_size (codes "system") h.size_ok,
        accepted-same (window_size_valid d.window_size) d.window_size (codes "default") h.window_ok,
        accepted-same (is_valid d.modifier_keys) d.modifier_keys (codes "system") h.modifiers_ok,
        clamp-same d.clip_clear_timeout h.timeout_least h.timeout_most,
        min-same d.auto_dismount 1440 h.dismount_most,
      )
      refl

-- Apps of different programs are all kept.
unfoldable pub is_fresh : List Text → Map AppEntry → Bool
is_fresh seen [] = true
is_fresh seen ((key, e) ∷ es) =
    not (contains_text seen (exec_basename e.entry_exec))
    && is_fresh (exec_basename e.entry_exec ∷ seen) es

dedupe-fresh : (seen : List Text) (es : Map AppEntry) → is_fresh seen (dedupe seen es) ≡ true
unfolding dedupe is_fresh
dedupe-fresh seen [] = refl
dedupe-fresh seen ((key, e) ∷ es) =
    ground (arith, dedupe-fresh (exec_basename e.entry_exec ∷ seen) es, dedupe-fresh seen es)

dedupe-same : (seen : List Text) (es : Map AppEntry) → is_fresh seen es ≡ true → dedupe seen es ≡ es
unfolding dedupe is_fresh
dedupe-same seen [] h = refl
dedupe-same seen ((key, e) ∷ es) h =
    ground (arith, dedupe-same (exec_basename e.entry_exec ∷ seen) es)

-- What `dedupe` keeps has its keys once where the file has.
dedupe-has_key :
    (k : Text) (seen : List Text) (es : Map AppEntry)
    → has_key k es ≡ false
    → has_key k (dedupe seen es) ≡ false
unfolding dedupe has_key
dedupe-has_key k seen [] h = refl
dedupe-has_key k seen ((key, e) ∷ es) h =
    ground
      (arith, dedupe-has_key k seen es, dedupe-has_key k (exec_basename e.entry_exec ∷ seen) es)

dedupe-is_keyed :
    (seen : List Text) (es : Map AppEntry) → is_keyed es ≡ true → is_keyed (dedupe seen es) ≡ true
unfolding dedupe is_keyed
dedupe-is_keyed seen [] h = refl
dedupe-is_keyed seen ((key, e) ∷ es) h = ground (
  arith,
  dedupe-is_keyed seen es,
  dedupe-is_keyed (exec_basename e.entry_exec ∷ seen) es,
  dedupe-has_key key (exec_basename e.entry_exec ∷ seen) es,
)

-- The upper case of the standard library: a text that starts with an upper-cased character is
-- capitalised already.
abbrev pub IsStable : (ℕ → Text) → Type 0
IsStable upper = (c : ℕ) (cs : Text) → capitalize_first upper (upper c ++ cs) ≡ upper c ++ cs

capitalize_twice :
    (upper : ℕ → Text) (t : Text)
    → IsStable upper
    → capitalize_first upper (capitalize_first upper t) ≡ capitalize_first upper t
unfolding capitalize_first
capitalize_twice upper [] s = refl
capitalize_twice upper (c ∷ cs) s = s c cs

module _ (upper : ℕ → Text) where
  shown_entry : Text × AppEntry → Text × AppEntry
  unfolding app_of
  shown_entry x = entry_of (app_of upper x)

  entries_of : Map AppEntry → Map AppEntry
  unfolding shown_entry
  entries_of es = map entry_of (map (app_of upper) es)

  entries-fresh :
      (seen : List Text) (es : Map AppEntry) → is_fresh seen (entries_of es) ≡ is_fresh seen es
  unfolding entries_of is_fresh app_of
  entries-fresh seen [] = refl
  entries-fresh seen ((key, e) ∷ es) =
      rw (entries-fresh (exec_basename e.entry_exec ∷ seen) es) refl

  entries-has_key : (k : Text) (es : Map AppEntry) → has_key k (entries_of es) ≡ has_key k es
  unfolding entries_of has_key app_of
  entries-has_key k [] = refl
  entries-has_key k ((key, e) ∷ es) = rw (entries-has_key k es) refl

  entries-is_keyed : (es : Map AppEntry) → is_keyed (entries_of es) ≡ is_keyed es
  unfolding entries_of is_keyed app_of
  entries-is_keyed [] = refl
  entries-is_keyed ((key, e) ∷ es) = rw (entries-is_keyed es) (rw (entries-has_key key es) refl)

  entries-apps :
      IsStable upper
      → (es : Map AppEntry) → map (app_of upper) (entries_of es) ≡ map (app_of upper) es
  unfolding entries_of app_of
  entries-apps s [] = refl
  entries-apps s ((key, e) ∷ es) =
      rw (entries-apps s es, capitalize_twice upper e.entry_name s) refl

-- What the TOML reader gives, the keys of a table once.
pub record IsRaw {V : Type 0} (raw : Raw V) : Type 0 where
  pub apps_keyed : is_keyed raw.raw_apps ≡ true

saved_apps :
    {V : Type 0}
    → (upper : ℕ → Text) (raw : Raw V) → IsRaw raw
    → (to_raw (of_raw upper raw)).raw_apps ≡ entries_of upper (dedupe [] raw.raw_apps)
unfolding to_raw of_raw entries_of
saved_apps upper raw h =
    put_all-new [] (entries_of upper (dedupe [] raw.raw_apps)) (
      entries-is_keyed upper (dedupe [] raw.raw_apps)
      ∙ dedupe-is_keyed [] raw.raw_apps h.apps_keyed)

saved_apps-reload :
    {V : Type 0}
    → (upper : ℕ → Text) (raw : Raw V) → IsStable upper
    → IsRaw raw
    → map (app_of upper) (dedupe [] (to_raw (of_raw upper raw)).raw_apps) ≡ (of_raw upper raw).apps
unfolding of_raw
saved_apps-reload upper raw s h =
    let kept = dedupe [] raw.raw_apps in
    ap (λ es. map (app_of upper) (dedupe [] es)) (saved_apps upper raw h)
    ∙ (ap (map (app_of upper)) (
          dedupe-same [] (entries_of upper kept)
            (entries-fresh upper [] kept ∙ dedupe-fresh [] raw.raw_apps))
        ∙ entries-apps upper s kept)

of_raw-to_raw :
    {V : Type 0}
    → (upper : ℕ → Text) (raw : Raw V) → IsStable upper
    → IsRaw raw
    → of_raw upper (to_raw (of_raw upper raw)) ≡ of_raw upper raw
unfolding of_raw to_raw
of_raw-to_raw upper raw s h =
    rw
      (
        saved_apps-reload upper raw s h,
        checked-same (checked raw.default) (checked-IsChecked raw.default),
        fill_same (fill raw.raw_shortcuts default_shortcuts)
            (fill-IsFilled raw.raw_shortcuts default_shortcuts default-IsFilled),
      )
      refl

-- Whether everything that `save` needs is there.
unfoldable pub can_save : {V : Type 0} → (Raw V → Option Text) → Disk → Config V → Bool
can_save to_toml disk c =
    c.loaded_ok && disk.has_dir && is_some (to_toml (to_raw c)) && disk.written && disk.renamed

-- A save either writes a file that `loads` as the configuration, or leaves the file alone.
pub data SaveEnds {V : Type 0} (loads : Text → Config V) (c : Config V) (file : Option Text)
    (able : Bool) : Bool × Option Text → Type 0 where
  saved : (t : Text) → able ≡ true → loads t ≡ c → SaveEnds loads c file able (true, some t)
  kept : able ≡ false → SaveEnds loads c file able (false, file)

save_ends :
    {V : Type 0}
    → (to_toml : Raw V → Option Text) (loads : Text → Config V) (disk : Disk) (c : Config V)
      (file : Option Text)
    → (c.loaded_ok ≡ true
        → (body : Text) → to_toml (to_raw c) ≡ some body
        → loads (config_header ++ body) ≡ c)
    → SaveEnds loads c file (can_save to_toml disk c) (save to_toml disk c file)
unfolding save can_save
save_ends to_toml loads disk c file h = elim (Bool-cases (c.loaded_ok && disk.has_dir)) [
  | inl e ↦ elim (Option-cases (to_toml (to_raw c))) [
    | inl n ↦ rw (e, n, save) (kept (ground arith))
    | inr (body, n) ↦ elim (Bool-cases (disk.written && disk.renamed)) [
      | inl d ↦
          rw (e, n, d, save)
            (saved (config_header ++ body) (ground arith) (h (ground arith) body n))
      | inr d ↦ rw (e, n, d, save) (kept (ground arith))
    ]
  ]
  | inr e ↦ rw (e, save) (kept (ground arith))
]

-- A TOML reader and writer: what was written is read back, below a comment, and what is read has the
-- keys of each table once.
pub record IsToml {V : Type 0} (from_toml : Text → Option (Raw V)) (to_toml : Raw V → Option Text)
    : Type 0 where
  pub reads :
      (raw : Raw V) (body : Text)
      → to_toml raw ≡ some body
      → from_toml (config_header ++ body) ≡ some raw
  pub keyed : (t : Text) (raw : Raw V) → from_toml t ≡ some raw → IsRaw raw

of_parsed-reload :
    {V : Type 0}
    → (no_volumes : V) (upper : ℕ → Text) (o : Option (Raw V)) → IsStable upper
    → ((raw : Raw V) → o ≡ some raw → IsRaw raw)
    → (of_parsed no_volumes upper o).loaded_ok ≡ true
    → of_raw upper (to_raw (of_parsed no_volumes upper o)) ≡ of_parsed no_volumes upper o
unfolding of_parsed
of_parsed-reload no_volumes upper none s h ok = cc
of_parsed-reload no_volumes upper (some raw) s h ok = of_raw-to_raw upper raw s (h raw refl)

-- Saving a configuration that was loaded from a file either writes a file that loads as the very
-- same configuration, or leaves the file as it was, and the second just where the file had not
-- parsed, the directory cannot be made, or the text cannot be produced, written or renamed. The TOML
-- reader and writer agree, and the upper case of the standard library is stable.
pub save-load :
    {V : Type 0}
    → (no_volumes : V) (upper : ℕ → Text) (from_toml : Text → Option (Raw V))
      (to_toml : Raw V → Option Text) (disk : Disk) (text : Text) (file : Option Text)
    → IsStable upper
    → IsToml from_toml to_toml
    → SaveEnds
        (λ t. load no_volumes upper from_toml (some t))
        (load no_volumes upper from_toml (some text))
        file
        (can_save to_toml disk (load no_volumes upper from_toml (some text)))
        (save to_toml disk (load no_volumes upper from_toml (some text)) file)
unfolding load
save-load no_volumes upper from_toml to_toml disk text file s h =
    save_ends to_toml (λ t. load no_volumes upper from_toml (some t)) disk
      (of_parsed no_volumes upper (from_toml text)) file
      (λ ok body e.
        ap (of_parsed no_volumes upper)
          (h.reads (to_raw (of_parsed no_volumes upper (from_toml text))) body e)
        ∙ of_parsed-reload no_volumes upper (from_toml text) s (h.keyed text) ok)
