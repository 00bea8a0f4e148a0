-- ===== src/Compositor/Toolbar/Scan/Published.antt =====
-- The scans of the compositor on files that the broker has just published (agent-rs/src/broker.rs and
-- compositor-rs/src/toolbar.rs).
use veracage.Base.{
  ℕ, ◌+◌, ◌≤◌, Text, codes, List, [], ◌∷◌, ◌++◌, Bool, true, false, ◌&&◌, ◌||◌, Option, none, some,
  ◌≡◌, refl, ap, arith, ◌∙◌, length, all, byte_len, is_digit, is_dark, is_inline, is_whitespace,
  trim_start, trim_end, trim_matches, trim, trim-dark, dark-inline, lines, lines_onto, lines-line,
  to_dec, all-to_dec, length-to_dec, parse_below, parse_below-to_dec, u32_limit, ◌⊎◌, inl, inr,
  all_imp, text_eq, text_eq→≡,
}
use veracage.Agent.Config.{DefaultSection, is_theme}
use veracage.Agent.Config.Bounded.{IsChecked}
use veracage.Agent.Publish.{
  Disk, replace_file, publish_file, flag, publish_autodismount, publish_clipclear, publish_theme,
}
use veracage.Compositor.Toolbar.Scan.{
  Found, read_within, cap_at, scan_autodismount, theme_of, scan_theme, clear_policy, clamp_secs,
  with_secs, scan_clipclear,
}

-- A published file as the compositor meets it.
unfoldable pub published : Option Text → Option Found
unfolding byte_len
published none = none
published (some t) = some (record { is_file = true; size = byte_len t; body = some t })

-- Whether a file is published in place.
abbrev pub IsWritable : Disk → Type 0
IsWritable disk = (disk.is_dir && disk.written && disk.renamed) ≡ true

pub publish_file-writable :
    (disk : Disk) (body : Text) (old : Option Text)
    → IsWritable disk
    → publish_file disk body old ≡ some body
unfolding publish_file replace_file
publish_file-writable disk body old h = ground arith

digit-dark : (c : ℕ) → is_digit c ≡ true → is_dark c ≡ true
unfolding is_whitespace
digit-dark c h = ground arith

to_dec-dark : (n : ℕ) → all is_dark (to_dec n) ≡ true
to_dec-dark n = all_imp is_digit is_dark digit-dark (to_dec n) (all-to_dec n)

to_dec-inline : (n : ℕ) → all is_inline (to_dec n) ≡ true
to_dec-inline n = all_imp is_dark is_inline dark-inline (to_dec n) (to_dec-dark n)

byte_len-digits :
    (t rest : Text) → all is_digit t ≡ true → byte_len (t ++ rest) ≡ length t + byte_len rest
unfolding byte_len
byte_len-digits [] rest h = omega arith
byte_len-digits (c ∷ t) rest h = ground (arith, byte_len-digits t rest)

trim_end-line : (t : Text) → all is_dark t ≡ true → trim_end is_whitespace (t ++ 10 ∷ []) ≡ t
unfolding trim_end is_whitespace
trim_end-line [] h = refl
trim_end-line (c ∷ t) h = ground (arith, trim_end-line t)

trim-line : (t : Text) → all is_dark t ≡ true → trim (t ++ 10 ∷ []) ≡ t
unfolding trim trim_matches trim_start
trim-line [] h = refl
trim-line (c ∷ t) h = ground (arith, trim_end-line (c ∷ t))

pub read_published :
    (limit : ℕ) (body : Text)
    → byte_len body ≤ limit
    → read_within limit (published (some body)) ≡ some body
unfolding read_within published
read_published limit body h = ground arith

digits_fit : (n : ℕ) → n ≤ 3600 → byte_len (to_dec n ++ 10 ∷ []) ≤ 5
unfolding byte_len
digits_fit n h =
    omega
      (arith, byte_len-digits (to_dec n) (10 ∷ []) (all-to_dec n), length-to_dec n 3 (omega arith))

autodismount-read :
    (f : Option Found) (body : Text)
    → read_within 16 f ≡ some body
    → scan_autodismount f ≡ cap_at 1440 (parse_below u32_limit (trim body))
unfolding scan_autodismount
autodismount-read f body h = rw (h, scan_autodismount) refl

clipclear-read :
    (f : Option Found) (body : Text)
    → read_within 64 f ≡ some body
    → scan_clipclear f ≡ clear_policy (lines body)
unfolding scan_clipclear
clipclear-read f body h = rw (h, scan_clipclear) refl

theme-read :
    (f : Option Found) (body : Text)
    → read_within 32 f ≡ some body
    → scan_theme f ≡ theme_of (trim body)
unfolding scan_theme
theme-read f body h = rw (h, scan_theme) refl

digits-capped : (n : ℕ) → n ≤ 1440 → cap_at 1440 (some n) ≡ some n
digits-capped n h = ground arith

digits-scanned :
    (n : ℕ) → n ≤ 1440 → scan_autodismount (published (some (to_dec n ++ 10 ∷ []))) ≡ some n
digits-scanned n h =
    rw
      (autodismount-read (published (some (to_dec n ++ 10 ∷ []))) (to_dec n ++ 10 ∷ [])
        (read_published 16 (to_dec n ++ 10 ∷ []) (omega (arith, digits_fit n (omega arith)))))
      (rw (trim-line (to_dec n) (to_dec-dark n))
        (rw (parse_below-to_dec u32_limit n (omega arith) (omega arith)) (digits-capped n h)))

clamp_secs-within : (n : ℕ) → 1 ≤ n → n ≤ 3600 → clamp_secs (some n) ≡ some n
clamp_secs-within n l h = ground arith

policy_flag : (b : Bool) → text_eq (trim (flag b)) (codes "1") ≡ b
unfolding text_eq trim trim_matches trim_start trim_end is_whitespace
policy_flag true = refl
policy_flag false = refl

policy-parsed :
    (b : Bool) (n : ℕ) → 1 ≤ n → n ≤ 3600 → clear_policy (flag b ∷ to_dec n ∷ []) ≡ some (b, n)
unfolding clear_policy
policy-parsed b n l h = rw (trim-dark (to_dec n) (to_dec-dark n)) (
    rw (parse_below-to_dec u32_limit n (omega arith) (omega arith)) (
      ap (with_secs (text_eq (trim (flag b)) (codes "1"))) (clamp_secs-within n l h)
      ∙ ap (λ (c : Bool). some (c, n)) (policy_flag b)))

clear_body-lines :
    (b : Bool) (n : ℕ) → lines (flag b ++ 10 ∷ to_dec n ++ 10 ∷ []) ≡ flag b ∷ to_dec n ∷ []
unfolding lines_onto
clear_body-lines true n =
    lines-line (codes "1") (to_dec n ++ 10 ∷ []) refl
    ∙ ap (λ (ls : List Text). codes "1" ∷ ls) (lines-line (to_dec n) [] (to_dec-inline n))
clear_body-lines false n =
    lines-line (codes "0") (to_dec n ++ 10 ∷ []) refl
    ∙ ap (λ (ls : List Text). codes "0" ∷ ls) (lines-line (to_dec n) [] (to_dec-inline n))

clear_body-fits : (b : Bool) (n : ℕ) → n ≤ 3600 → byte_len (flag b ++ 10 ∷ to_dec n ++ 10 ∷ []) ≤ 64
unfolding byte_len
clear_body-fits true n h = omega (arith, digits_fit n h)
clear_body-fits false n h = omega (arith, digits_fit n h)

theme-body :
    (t u : Text)
    → text_eq t u ≡ true
    → all is_dark u ≡ true
    → byte_len (u ++ 10 ∷ []) ≤ 32
    → scan_theme (published (some (t ++ 10 ∷ []))) ≡ theme_of t
theme-body t u e k h = rw (text_eq→≡ t u e) (
    theme-read (published (some (u ++ 10 ∷ []))) (u ++ 10 ∷ []) (read_published 32 (u ++ 10 ∷ []) h)
    ∙ ap theme_of (trim-line u k))

themes_cases : (a b c : Bool) → (a || b || c) ≡ true → (a ≡ true) ⊎ (b ≡ true) ⊎ (c ≡ true)
themes_cases true b c h = inl refl
themes_cases false true c h = inr (inl refl)
themes_cases false false c h = inr (inr h)

theme-scanned :
    (t : Text) → is_theme t ≡ true → scan_theme (published (some (t ++ 10 ∷ []))) ≡ theme_of t
unfolding byte_len is_whitespace
theme-scanned t h =
    elim (themes_cases (text_eq t (codes "light")) (text_eq t (codes "dark"))
      (text_eq t (codes "system")) h) [
        | inl e ↦ theme-body t (codes "light") e refl (omega arith)
        | inr (inl e) ↦ theme-body t (codes "dark") e refl (omega arith)
        | inr (inr e) ↦ theme-body t (codes "system") e refl (omega arith)
      ]

policy-scanned :
    (b : Bool) (n : ℕ)
    → 1 ≤ n
    → n ≤ 3600
    → scan_clipclear (published (some (flag b ++ 10 ∷ to_dec n ++ 10 ∷ []))) ≡ some (b, n)
policy-scanned b n l h =
    clipclear-read (published (some (flag b ++ 10 ∷ to_dec n ++ 10 ∷ [])))
      (flag b ++ 10 ∷ to_dec n ++ 10 ∷ [])
      (read_published 64 (flag b ++ 10 ∷ to_dec n ++ 10 ∷ []) (clear_body-fits b n h))
    ∙ ap clear_policy (clear_body-lines b n)
    ∙ policy-parsed b n l h

-- Whether the theme named is the one found: true stands for dark, and "system" leaves the choice.
pub record IsThemeFound (theme : Text) (found : Option Bool) : Type 0 where
  pub dark : theme ≡ codes "dark" → found ≡ some true
  pub light : theme ≡ codes "light" → found ≡ some false
  pub system : theme ≡ codes "system" → found ≡ none

theme_of-IsThemeFound : (t : Text) → IsThemeFound t (theme_of t)
unfolding text_eq
theme_of-IsThemeFound t = record {
  dark = λ e. ap theme_of e;
  light = λ e. ap theme_of e;
  system = λ e. ap theme_of e;
}

IsThemeFound-same : (t : Text) (a b : Option Bool) → a ≡ b → IsThemeFound t b → IsThemeFound t a
IsThemeFound-same t a b e h = record {
  dark = λ k. e ∙ h.dark k;
  light = λ k. e ∙ h.light k;
  system = λ k. e ∙ h.system k;
}

-- Where the publish directory can be written, the idle timeout, the clear policy and the theme of
-- checked settings reach the compositor as they are: its scans of the files just published, whatever
-- they held before, find the timeout, the policy's switch and seconds, and the theme: true for
-- "dark", false for "light" and none for "system".
pub publish-scan :
    (disk : Disk) (d : DefaultSection) (old_dismount old_clear old_theme : Option Text)
    → IsWritable disk
    → IsChecked d
    → (scan_autodismount (published (publish_autodismount disk d old_dismount))
        ≡ some d.auto_dismount)
      × (scan_clipclear (published (publish_clipclear disk d old_clear))
          ≡ some (d.clip_clear, d.clip_clear_timeout))
      × IsThemeFound d.theme (scan_theme (published (publish_theme disk d old_theme)))
unfolding publish_autodismount publish_clipclear publish_theme
publish-scan disk d old_dismount old_clear old_theme w h = (
  ap (λ (o : Option Text). scan_autodismount (published o))
        (publish_file-writable disk (to_dec d.auto_dismount ++ 10 ∷ []) old_dismount w)
      ∙ digits-scanned d.auto_dismount h.dismount_most,
  ap (λ (o : Option Text). scan_clipclear (published o))
        (publish_file-writable disk
          (flag d.clip_clear ++ 10 ∷ to_dec d.clip_clear_timeout ++ 10 ∷ []) old_clear w)
      ∙ policy-scanned d.clip_clear d.clip_clear_timeout h.timeout_least h.timeout_most,
  IsThemeFound-same d.theme (scan_theme (published (publish_theme disk d old_theme)))
      (theme_of d.theme)
      (ap (λ (o : Option Text). scan_theme (published o))
          (publish_file-writable disk (d.theme ++ 10 ∷ []) old_theme w)
        ∙ theme-scanned d.theme h.theme_ok)
      (theme_of-IsThemeFound d.theme),
)
