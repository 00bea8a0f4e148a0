-- ===== src/Agent/Config/Maps.antt =====
-- Maps from texts, as the association list of their entries in the order of insertion.
use veracage.Base.{
  Text, List, [], ◌∷◌, ◌++◌, Bool, true, false, not, ◌&&◌, ◌||◌, if◌then◌else◌, text_eq, ◌≡◌, refl,
  arith, append-nil, append_assoc, text_eq_refl, text_eq→≡, Bool-cases, inl, inr, sym, ◌∙◌,
}

abbrev pub Map : Type 0 → Type 0
Map A = List (Text × A)

module _ {A : Type 0} where
  -- `insert`, which keeps the place of a key that is there.
  unfoldable pub put : Text → A → Map A → Map A
  put k v [] = (k, v) ∷ []
  put k v ((q, w) ∷ m) = if text_eq q k then (q, v) ∷ m else (q, w) ∷ put k v m

  -- `collect`
  unfoldable pub put_all : Map A → Map A → Map A
  unfolding put
  put_all [] m = m
  put_all ((k, v) ∷ xs) m = put_all xs (put k v m)

  unfoldable pub has_key : Text → Map A → Bool
  has_key k [] = false
  has_key k ((q, w) ∷ m) = text_eq q k || has_key k m

  -- No key stands there twice.
  unfoldable pub is_keyed : Map A → Bool
  unfolding has_key
  is_keyed [] = true
  is_keyed ((k, v) ∷ m) = not (has_key k m) && is_keyed m

  pub put-new : (k : Text) (v : A) (m : Map A) → has_key k m ≡ false → put k v m ≡ m ++ (k, v) ∷ []
  unfolding put has_key
  put-new k v [] h = refl
  put-new k v ((q, w) ∷ m) h = ground (arith, put-new k v m)

  pub has_key-middle : (k : Text) (v : A) (m xs : Map A) → has_key k (m ++ (k, v) ∷ xs) ≡ true
  unfolding has_key
  has_key-middle k v [] xs = rw (text_eq_refl k) refl
  has_key-middle k v ((q, w) ∷ m) xs = ground (arith, has_key-middle k v m xs)

  pub has_key-left : (k : Text) (m xs : Map A) → has_key k m ≡ true → has_key k (m ++ xs) ≡ true
  unfolding has_key
  has_key-left k [] xs h = cc
  has_key-left k ((q, w) ∷ m) xs h = ground (arith, has_key-left k m xs)

  is_keyed-middle :
      (m xs : Map A) (k : Text) (v : A) → is_keyed (m ++ (k, v) ∷ xs) ≡ true → has_key k m ≡ false
  unfolding is_keyed has_key
  is_keyed-middle [] xs k v h = refl
  is_keyed-middle ((q, w) ∷ m) xs k v h = elim (Bool-cases (text_eq q k)) [
    | inl e ↦ ground (arith, text_eq→≡ q k e, has_key-middle k v m xs)
    | inr e ↦ ground (arith, is_keyed-middle m xs k v)
  ]

  -- Putting entries of new keys appends them.
  pub put_all-new : (m xs : Map A) → is_keyed (m ++ xs) ≡ true → put_all xs m ≡ m ++ xs
  unfolding put_all
  put_all-new m [] h = sym (append-nil m)
  put_all-new m ((k, v) ∷ xs) h = rw (put-new k v m (is_keyed-middle m xs k v h)) (
      put_all-new (m ++ (k, v) ∷ []) xs (rw (append_assoc m ((k, v) ∷ []) xs) h)
      ∙ append_assoc m ((k, v) ∷ []) xs)
