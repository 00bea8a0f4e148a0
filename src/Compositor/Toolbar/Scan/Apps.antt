-- ===== src/Compositor/Toolbar/Scan/Apps.antt =====
-- The list of configured apps, from the broker to the compositor's menu (`publish_apps` of
-- agent-rs/src/broker.rs and `scan_config_apps` of compositor-rs/src/toolbar.rs).
use veracage.Base.{
  contains_char, ltb, text_eq, is_control, codes, not, ◌&&◌, leb, ℕ, zero, suc, ◌≤◌, Text, List, [],
  ◌∷◌, Bool, true, false, ◌||◌, Option, none, some, if◌then◌else◌, ◌≡◌, refl, ap, arith, ◌∙◌,
  length, all, All, all-append, all-take, all-keep, all_imp, Bool-cases, inl, inr, sym, byte_len,
  is_empty, keep, map, take, filter_map, differs, is_inline, split_once, split_once-field, lines,
  lines-unlines,
}
use veracage.Agent.Config.{App}
use veracage.Agent.Publish.{Disk, sane, clean_name, app_row, apps_body, publish_apps}
use veracage.Compositor.Toolbar.Scan.{
  Found, read_within, ConfigApp, shown_app, app_line, scan_config_apps,
}
use veracage.Compositor.Toolbar.Scan.Published.{
  published, IsWritable, publish_file-writable, read_published,
}

-- A key without a tab and without the end of a line.
abbrev pub IsPlainKey : App → Type 0
IsPlainKey a = (all is_inline a.key ≡ true) × (all (differs 9) a.key ≡ true)

unfoldable menu_name : App → Text
unfolding clean_name
menu_name a = if is_empty (clean_name a.name) then a.key else clean_name a.name

-- What the scan makes of the line of an app: nothing for a key that is not sane or a name of over 128 bytes.
unfoldable scanned_app : App → Option ConfigApp
unfolding sane menu_name
scanned_app a = if sane a.key then shown_app a.key (menu_name a) else none

length-rows : (apps : List App) → length (map app_row apps) ≡ length apps
length-rows [] = refl
length-rows (a ∷ apps) = omega (arith, length-rows apps)

take-all {ℓ} : {A : Type ℓ} (n : ℕ) (xs : List A) → length xs ≤ n → take n xs ≡ xs
take-all zero [] h = refl
take-all zero (x ∷ xs) h = ground arith
take-all (suc n) [] h = refl
take-all (suc n) (x ∷ xs) h = ap (λ ys. x ∷ ys) (take-all n xs (omega arith))

visible-inline : (c : ℕ) → not (is_control c) ≡ true → is_inline c ≡ true
unfolding is_control
visible-inline c h = ground arith

clean_name-inline : (n : Text) → all is_inline (clean_name n) ≡ true
unfolding clean_name
clean_name-inline n = all-take is_inline 128 (keep (λ c. not (is_control c)) n) (
    all_imp (λ c. not (is_control c)) is_inline visible-inline (keep (λ c. not (is_control c)) n)
      (all-keep (λ c. not (is_control c)) n))

row-inline : (a : App) → IsPlainKey a → all is_inline (app_row a) ≡ true
unfolding app_row
row-inline a h =
    ground
      (arith, all-append is_inline a.key (9 ∷ clean_name a.name), clean_name-inline a.name, h.0)

row-read :
    (a : App)
    → IsPlainKey a
    → app_line (split_once 9 (app_row a)) ≡ app_line (some (a.key, clean_name a.name))
unfolding app_row
row-read a h = ap app_line (split_once-field 9 a.key (clean_name a.name) h.1)

guards :
    (e l s d : Bool) (o : Option ConfigApp)
    → (if e || l || s || d then none else o)
      ≡ (if not e && not l && not s && not d then o else none)
guards e l s d o = ground arith

line-listed :
    (a : App)
    → sane a.key ≡ true
    → app_line (some (a.key, clean_name a.name)) ≡ shown_app a.key (menu_name a)
unfolding sane menu_name
line-listed a h = ground arith

keep-All :
    (p : App → Bool) (apps : List App)
    → All IsPlainKey apps
    → All (λ l. all is_inline l ≡ true) (map app_row (keep p apps))
keep-All p [] h = tt
keep-All p (a ∷ apps) h = elim (Bool-cases (p a)) [
  | inl e ↦ rw e (row-inline a h.0, keep-All p apps h.1)
  | inr e ↦ rw e (keep-All p apps h.1)
]

unsaned : (a : App) → sane a.key ≡ false → scanned_app a ≡ none
unfolding scanned_app
unsaned a h = rw h refl

saned : (a : App) → sane a.key ≡ true → scanned_app a ≡ shown_app a.key (menu_name a)
unfolding scanned_app
saned a h = rw h refl

row-listed :
    (a : App)
    → IsPlainKey a
    → sane a.key ≡ true
    → app_line (split_once 9 (app_row a)) ≡ scanned_app a
row-listed a p h = row-read a p ∙ line-listed a h ∙ sym (saned a h)

abbrev read_row : Text → Option ConfigApp
read_row l = app_line (split_once 9 l)

filter_map-same :
    (a : App) (o : Option ConfigApp) (kept rest : List App)
    → o ≡ scanned_app a
    → filter_map read_row (map app_row kept) ≡ filter_map scanned_app rest
    → elim o [
      | some y ↦ y ∷ filter_map read_row (map app_row kept)
      | none ↦ filter_map read_row (map app_row kept)
    ]
      ≡ filter_map scanned_app (a ∷ rest)
filter_map-same a o kept rest e h =
    ap
      (λ (p : Option ConfigApp). elim p [
        | some y ↦ y ∷ filter_map read_row (map app_row kept)
        | none ↦ filter_map read_row (map app_row kept)
      ])
      e
    ∙ ap (λ (r : List ConfigApp). elim (scanned_app a) [ some y ↦ y ∷ r | none ↦ r ]) h

kept-listed :
    (b : Bool) (a : App) (kept rest : List App)
    → sane a.key ≡ b
    → IsPlainKey a
    → filter_map read_row (map app_row kept) ≡ filter_map scanned_app rest
    → filter_map read_row (map app_row (if b then a ∷ kept else kept))
      ≡ filter_map scanned_app (a ∷ rest)
kept-listed true a kept rest e p h =
    filter_map-same a (read_row (app_row a)) kept rest (row-listed a p e) h
kept-listed false a kept rest e p h =
    h
    ∙ ap
        (λ (o : Option ConfigApp). elim o [
          | some y ↦ y ∷ filter_map scanned_app rest
          | none ↦ filter_map scanned_app rest
        ])
        (sym (unsaned a e))

rows-listed :
    (apps : List App)
    → All IsPlainKey apps
    → filter_map read_row (map app_row (keep (λ a. sane a.key) apps)) ≡ filter_map scanned_app apps
rows-listed [] h = refl
rows-listed (a ∷ apps) h =
    kept-listed (sane a.key) a (keep (λ a. sane a.key) apps) apps refl h.0 (rows-listed apps h.1)

apps-read :
    (f : Option Found) (body : Text)
    → read_within 65536 f ≡ some body
    → scan_config_apps f ≡ filter_map read_row (take 64 (lines body))
unfolding scan_config_apps
apps-read f body h = rw (h, scan_config_apps) refl

-- The name to be shown: the configured one without control characters, of at most 128 characters, or
-- else the key.
unfoldable pub shown_name : App → Text
unfolding is_control
shown_name a =
    let name = take 128 (keep (λ c. not (is_control c)) a.name) in
    if is_empty name then a.key else name

-- What the menu lists of an app: a key of 1 to 64 bytes that can name a file, and a name of at most 128
-- bytes.
unfoldable pub listed : App → Option ConfigApp
unfolding shown_name byte_len contains_char text_eq
listed a =
    if not (is_empty a.key)
      && leb (byte_len a.key) 64
      && not (contains_char b'/' a.key)
      && not (text_eq a.key (codes ".."))
      && leb (byte_len (shown_name a)) 128
    then some (record { key = a.key; name = shown_name a })
    else none

limits_same :
    (e d x : Bool) (k n : ℕ) (o : ConfigApp)
    → (if not e && not (ltb 64 k) && not d && not x
        then (if ltb 128 n then none else some o)
        else none)
      ≡ (if not e && leb k 64 && not d && not x && leb n 128 then some o else none)
limits_same true d x k n o = refl
limits_same false true x k n o = ground arith
limits_same false false true k n o = ground arith
limits_same false false false k n o = ground arith

scanned-listed : (a : App) → scanned_app a ≡ listed a
unfolding scanned_app menu_name sane clean_name listed shown_name
scanned-listed a =
    limits_same (is_empty a.key) (contains_char b'/' a.key) (text_eq a.key (codes ".."))
      (byte_len a.key) (byte_len (shown_name a)) (record { key = a.key; name = shown_name a })

filter_map-scanned : (apps : List App) → filter_map scanned_app apps ≡ filter_map listed apps
filter_map-scanned [] = refl
filter_map-scanned (a ∷ apps) =
    ap
      (λ (o : Option ConfigApp). elim o [
        | some y ↦ y ∷ filter_map scanned_app apps
        | none ↦ filter_map scanned_app apps
      ])
      (scanned-listed a)
    ∙ ap (λ (r : List ConfigApp). elim (listed a) [ some y ↦ y ∷ r | none ↦ r ])
        (filter_map-scanned apps)

-- Where the publish directory can be written, and the list that is published has at most 64 lines and
-- 64 KiB, the compositor's menu lists, in their order, exactly the configured apps whose key has 1 to
-- 64 bytes, no slash, and is not `..`, and whose name to be shown has at most 128 bytes: the name
-- without its control characters, cut off after 128 characters, or the key where that is empty. The
-- keys hold no tab and no line end.
pub publish_apps-scan :
    (disk : Disk) (apps : List App) (old : Option Text)
    → IsWritable disk
    → All IsPlainKey apps
    → length (keep (λ a. sane a.key) apps) ≤ 64
    → byte_len (apps_body apps) ≤ 65536
    → scan_config_apps (published (publish_apps disk apps old)) ≡ filter_map listed apps
unfolding publish_apps apps_body
publish_apps-scan disk apps old w p n b =
    let rows : List Text = map app_row (keep (λ a. sane a.key) apps) in
    ap (λ (o : Option Text). scan_config_apps (published o))
      (publish_file-writable disk (apps_body apps) old w)
    ∙ apps-read (published (some (apps_body apps))) (apps_body apps)
        (read_published 65536 (apps_body apps) b)
    ∙ ap (λ (ls : List Text). filter_map read_row (take 64 ls))
        (lines-unlines rows (keep-All (λ a. sane a.key) apps p))
    ∙ ap (λ (ls : List Text). filter_map read_row ls)
        (take-all 64 rows (omega (arith, length-rows (keep (λ a. sane a.key) apps))))
    ∙ rows-listed apps p
    ∙ filter_map-scanned apps
