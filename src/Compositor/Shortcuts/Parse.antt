-- ===== src/Compositor/Shortcuts/Parse.antt =====
-- Parsed shortcuts and their labels.
use veracage.Base.{
  ℕ, Text, codes, List, [], ◌∷◌, ◌++◌, map, Bool, true, false, Option, none, some, if◌then◌else◌,
  text_eq, is_alphanumeric, is_whitespace, to_lower, trim, trim_matches, trim_start, trim_end,
  split_onto, arith, ◌≡◌, ◌==◌,
}
use mathlib.Core.Path.{subst}
use veracage.Compositor.Shortcuts.{
  Mods, no_mods, Keybind, to_upper, label, matches, add_modifier, has_modifier, finish, parse_parts,
  parts, parse,
}

-- A shortcut that a user can have: some modifier, and a lower-case letter or a digit.
pub record IsBind (k : Keybind) : Type 0 where
  pub modified : has_modifier k.mods ≡ true
  pub key_char : is_alphanumeric k.key ≡ true
  pub key_lower : to_lower k.key ≡ k.key

lower-alphanumeric : (c : ℕ) → is_alphanumeric c ≡ true → is_alphanumeric (to_lower c) ≡ true
unfolding is_alphanumeric
lower-alphanumeric c h = ground arith

lower-lower : (c : ℕ) → to_lower (to_lower c) ≡ to_lower c
lower-lower c = ground arith

-- The result of a parse, where there is one.
abbrev OnSome : Option Keybind → Type 0
OnSome none = Unit {0}
OnSome (some k) = IsBind k

key-IsBind :
    (mods : Mods) (c : ℕ)
    → is_alphanumeric c ≡ true
    → has_modifier mods ≡ true
    → IsBind (record { mods = mods; key = to_lower c })
key-IsBind mods c h m = record {
  modified = m;
  key_char = lower-alphanumeric c h;
  key_lower = lower-lower c;
}

finish-OnSome : (mods : Mods) (t : Text) → OnSome (finish mods t)
unfolding finish
finish-OnSome mods [] = tt
finish-OnSome mods (c ∷ d ∷ t) = tt
finish-OnSome mods (c ∷ []) = ground (arith, key-IsBind mods c)

chain-OnSome :
    (r : Option Mods) (f : Mods → Option Keybind)
    → ((m : Mods) → OnSome (f m))
    → OnSome (elim r [ none ↦ none | some m ↦ f m ])
chain-OnSome none f h = tt
chain-OnSome (some m) f h = h m

parse_parts-OnSome : (mods : Mods) (ps : List Text) → OnSome (parse_parts mods ps)
unfolding parse_parts
parse_parts-OnSome mods [] = tt
parse_parts-OnSome mods (p ∷ []) = finish-OnSome mods p
parse_parts-OnSome mods (p ∷ q ∷ ps) =
    chain-OnSome (add_modifier (map to_lower p) mods) (λ m. parse_parts m (q ∷ ps))
      (λ m. parse_parts-OnSome m (q ∷ ps))

parse-IsBind : (s : Text) (k : Keybind) → parse s ≡ some k → IsBind k
unfolding parse
parse-IsBind s k h = subst OnSome h (parse_parts-OnSome no_mods (parts s))

upper-plain :
    (c : ℕ)
    → is_alphanumeric c ≡ true
    → ((to_upper c == b'+') ≡ false) × (is_whitespace (to_upper c) ≡ false)
unfolding is_alphanumeric is_whitespace
upper-plain c h = ground arith

abbrev named : Bool → Text → List Text
named b name = if b then name ∷ [] else []

-- The parts of a label: the names of its modifiers, then the key in upper case.
parts-label :
    (k : Keybind)
    → is_alphanumeric k.key ≡ true
    → parts (label k)
      ≡ named k.mods.ctrl (codes "Ctrl")
        ++ (named k.mods.alt (codes "Alt")
            ++ (named k.mods.shift (codes "Shift")
                ++ (named k.mods.logo (codes "Super") ++ (to_upper k.key ∷ []) ∷ [])))
unfolding parts label trim trim_matches trim_start trim_end split_onto
parts-label k h = let p = upper-plain k.key h in ground (arith, p.0, p.1)

upper-lower :
    (c : ℕ)
    → is_alphanumeric c ≡ true
    → to_lower c ≡ c
    → (is_alphanumeric (to_upper c) ≡ true) × (to_lower (to_upper c) ≡ c)
unfolding is_alphanumeric
upper-lower c h l = ground arith

-- A bind that a file or the dialog may hold parses back from its label.
parse-label_of : (k : Keybind) → IsBind k → parse (label k) ≡ some k
unfolding parse parse_parts add_modifier finish text_eq
parse-label_of k b =
    rw (parts-label k b.key_char)
      (let u = upper-lower k.key b.key_char b.key_lower in ground (arith, u.0, u.1, b.modified))

-- Whatever text a shortcut was parsed from, the label shown for it parses back to the same shortcut.
pub parse-label : (s : Text) (k : Keybind) → parse s ≡ some k → parse (label k) ≡ some k
parse-label s k h = parse-label_of k (parse-IsBind s k h)

-- A key that is pressed without a modifier fires no shortcut that was parsed.
pub matches_needs_modifier :
    (s : Text) (k : Keybind) (raw : ℕ) → parse s ≡ some k → matches k no_mods raw ≡ false
unfolding matches
matches_needs_modifier s k raw h = let b = parse-IsBind s k h in ground (arith, b.modified)
