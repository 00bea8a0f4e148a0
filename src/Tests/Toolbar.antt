-- ===== src/Tests/Toolbar.antt =====
-- The properties of the toolbar's files at concrete inputs.
use veracage.Base.{
  Text, ℕ, zero, suc, arith, codes, true, Option, some, none, ◌≡◌, [], ◌∷◌, contains_char, byte_len,
  is_control, text_eq, refl, ◌⊎◌,
}
use veracage.Agent.Config.{default_settings, App}
use veracage.Agent.Config.Bounded.{default-IsChecked}
use veracage.Agent.Publish.{
  Disk, publish_apps, apps_body, sane, clean_name, app_row, publish_autodismount, publish_clipclear,
  publish_theme,
}
use veracage.Compositor.Toolbar.Scan.{
  scan_autodismount, scan_clipclear, scan_theme, scan_config_apps,
}
use veracage.Compositor.Toolbar.Scan.Apps.{publish_apps-scan, listed, shown_name}
use veracage.Compositor.Toolbar.Scan.Published.{IsThemeFound, published, publish-scan}
use veracage.Compositor.Toolbar.Status.{
  Seen, Note, pick_status, pick_fresh, is_fresh, status_ttl_launch, status_ttl_broker,
}
use veracage.Compositor.Toolbar.Status.Shown.{IsPending, pick_status-IsPending}

abbrev writable : Disk
writable = record { is_dir = true; written = true; renamed = true }

publish-scan_example :
    (scan_autodismount (published (publish_autodismount writable default_settings none)) ≡ some 0)
    × (scan_clipclear (published (publish_clipclear writable default_settings none))
        ≡ some (true, 30))
    × IsThemeFound
        (codes "light")
        (scan_theme (published (publish_theme writable default_settings (some (codes "dark")))))
publish-scan_example =
    publish-scan writable default_settings none none (some (codes "dark")) refl default-IsChecked

abbrev nothing_seen : Seen
nothing_seen = record { window_ns = 0; volume_ns = 0 }

abbrev unlocking : Option Note
unlocking = some (2000, codes "Unlocking")

pick_status-IsPending_example :
    IsPending status_ttl_broker 5000 1000 0 unlocking (codes "Unlocking")
    ⊎ IsPending status_ttl_launch 5000 1000 0 none (codes "Unlocking")
unfolding pick_status pick_fresh is_fresh
pick_status-IsPending_example =
    pick_status-IsPending unlocking none nothing_seen none 5000 1000 (codes "Unlocking") refl

abbrev euros : ℕ → Text
euros zero = []
euros (suc n) = 0x20ac ∷ euros n

abbrev editor : App
editor = record { key = codes "kate"; name = codes "Kate"; exec = codes "kate" }

-- An app whose name has 43 characters, and 129 bytes.
abbrev long_named : App
long_named = record { key = codes "bank"; name = euros 43; exec = codes "bank" }

publish_apps-scan_example :
    scan_config_apps (published (publish_apps writable (long_named ∷ editor ∷ []) none))
    ≡ record { key = codes "kate"; name = codes "Kate" } ∷ []
unfolding listed shown_name sane clean_name app_row apps_body byte_len is_control text_eq
    contains_char
publish_apps-scan_example =
    publish_apps-scan writable (long_named ∷ editor ∷ []) none refl
      ((refl, refl), ((refl, refl), tt)) (omega arith) (omega arith)
