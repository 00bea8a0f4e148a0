-- ===== src/Agent/Config/Shortcuts.antt =====
-- The shortcuts of a loaded configuration.
use veracage.Base.{
  Text, codes, [], ◌∷◌, Bool, true, false, ◌&&◌, ◌||◌, ◌≡◌, refl, ◌∙◌, arith, text_eq, text_eq→≡,
  text_eq_refl, text_code, is_empty, trim, inl, inr, Bool-cases,
}
use veracage.Agent.Config.Maps.{Map, put, put_all, has_key, is_keyed, put_all-new}
use veracage.Agent.Config.{default_shortcuts, fill}

-- Those of the two actions come first.
unfoldable pub starts_full : Map Text → Bool
unfolding text_eq
starts_full ((a, x) ∷ (b, y) ∷ m) = text_eq a (codes "copy_out") && text_eq b (codes "paste_in")
starts_full _ = false

unfoldable pub has_blank : Map Text → Bool
has_blank [] = false
has_blank ((a, b) ∷ m) = is_empty (trim b) || has_blank m

-- No action twice, and none blank.
pub record IsFilled (m : Map Text) : Type 0 where
  pub full : starts_full m ≡ true
  pub keyed : is_keyed m ≡ true
  pub unblank : has_blank m ≡ false

text_eq_sym : (s t : Text) → text_eq s t ≡ true → text_eq t s ≡ true
text_eq_sym s t h = rw (text_eq→≡ s t h) (text_eq_refl t)

put-starts_full :
    (k : Text) (v : Text) (m : Map Text) → starts_full m ≡ true → starts_full (put k v m) ≡ true
unfolding put starts_full
put-starts_full k v [] h = cc
put-starts_full k v ((a, x) ∷ []) h = cc
put-starts_full k v ((a, x) ∷ (b, y) ∷ m) h = ground arith

put-has_key : (q k v : Text) (m : Map Text) → has_key q (put k v m) ≡ (has_key q m || text_eq k q)
unfolding put has_key
put-has_key q k v [] = ground arith
put-has_key q k v ((a, x) ∷ m) = elim (Bool-cases (text_eq a k)) [
  | inl e ↦ rw (e, put) (ground (arith, text_eq→≡ a k e))
  | inr e ↦ rw (e, put) (ground (arith, put-has_key q k v m))
]

put-is_keyed : (k v : Text) (m : Map Text) → is_keyed m ≡ true → is_keyed (put k v m) ≡ true
unfolding put is_keyed
put-is_keyed k v [] h = ground arith
put-is_keyed k v ((a, x) ∷ m) h = elim (Bool-cases (text_eq a k)) [
  | inl e ↦ rw (e, put) (ground arith)
  | inr e ↦ rw (e, put) (ground (arith, put-is_keyed k v m, put-has_key a k v m, text_eq_sym k a))
]

put-unblank :
    (k v : Text) (m : Map Text)
    → is_empty (trim v) ≡ false
    → has_blank m ≡ false
    → has_blank (put k v m) ≡ false
unfolding put has_blank
put-unblank k v [] n h = ground arith
put-unblank k v ((a, x) ∷ m) n h = ground (arith, put-unblank k v m)

put-IsFilled :
    (k v : Text) (m : Map Text) → is_empty (trim v) ≡ false → IsFilled m → IsFilled (put k v m)
put-IsFilled k v m n h = record {
  full = put-starts_full k v m h.full;
  keyed = put-is_keyed k v m h.keyed;
  unblank = put-unblank k v m n h.unblank;
}

pub fill-IsFilled : (xs m : Map Text) → IsFilled m → IsFilled (fill xs m)
unfolding fill
fill-IsFilled [] m h = h
fill-IsFilled ((k, v) ∷ xs) m h = elim (Bool-cases (is_empty (trim v))) [
  | inl e ↦ rw (e, fill) (fill-IsFilled xs m h)
  | inr e ↦ rw (e, fill) (fill-IsFilled xs (put k v m) (put-IsFilled k v m e h))
]

pub default-IsFilled : IsFilled default_shortcuts
unfolding starts_full is_keyed has_key has_blank text_eq
default-IsFilled = record { full = refl; keyed = refl; unblank = unfold text_code in refl }

fill-put_all : (xs m : Map Text) → has_blank xs ≡ false → fill xs m ≡ put_all xs m
unfolding fill put_all has_blank
fill-put_all [] m h = refl
fill-put_all ((k, v) ∷ xs) m h = elim (Bool-cases (is_empty (trim v))) [
  | inl e ↦ ground arith
  | inr e ↦ rw (e, fill) (fill-put_all xs (put k v m) (ground arith))
]

put-defaults :
    (a x b y : Text) (m : Map Text)
    → a ≡ codes "copy_out"
    → b ≡ codes "paste_in"
    → put_all ((a, x) ∷ (b, y) ∷ m) default_shortcuts ≡ put_all m ((a, x) ∷ (b, y) ∷ [])
unfolding put_all put text_eq
put-defaults a x b y m e f = rw (e, f) refl

starts-names :
    (a x b y : Text) (m : Map Text)
    → starts_full ((a, x) ∷ (b, y) ∷ m) ≡ true
    → (a ≡ codes "copy_out") × (b ≡ codes "paste_in")
unfolding starts_full
starts-names a x b y m h =
    ground (arith, text_eq→≡ a (codes "copy_out"), text_eq→≡ b (codes "paste_in"))

pub fill_same : (m : Map Text) → IsFilled m → fill m default_shortcuts ≡ m
fill_same [] h = unfold starts_full in (ground (arith, h.full))
fill_same ((a, x) ∷ []) h = unfold starts_full in (ground (arith, h.full))
fill_same ((a, x) ∷ (b, y) ∷ m) h =
    let names = starts-names a x b y m h.full in
    fill-put_all ((a, x) ∷ (b, y) ∷ m) default_shortcuts h.unblank
    ∙ (put-defaults a x b y m names.0 names.1 ∙ put_all-new ((a, x) ∷ (b, y) ∷ []) m h.keyed)
