-- ===== src/Helper/Names/Safe.antt =====
-- The names that are made of an untrusted label.
use veracage.Base.{
  ℕ, zero, suc, ◌+◌, ◌≤◌, ◌<◌, Text, List, [], ◌∷◌, Bool, true, false, ◌||◌, not, Option, none,
  some, ltb, ◌==◌, text_eq, byte_len, all, is_digit, is_alphanumeric, is_empty, length, take,
  trim_matches, trim_start, trim_end, contains_char, to_dec, to_hex, is_lower_hex, ◌≡◌, refl, arith,
  all-append, all-take, length-append, length-take-le, all-to_hex, length-to_hex, all-to_dec,
  length-to_dec, Bool-cases, inl, inr, to_dec-pos, text_eq_refl, text_eq→≡, ==_iff, ◌↔◌, u32_limit,
  strip_prefix,
}
use veracage.Helper.Names.{
  session_id_ok, check_session_caller, is_label_char, replaced, is_separator, label_ok,
  is_veracage_dm, random_dm_name, vault_hash, or_vault, sanitize_label, find_free, join_path,
  suffixed, workspace_name,
}

-- What the helper relies on of SHA-256: 32 bytes.
pub record IsDigest (digest : List ℕ → List ℕ) : Type 0 where
  pub bytes : (p : List ℕ) → all (λ b. ltb b 256) (digest p) ≡ true
  pub size : (p : List ℕ) → length (digest p) ≡ 32

abbrev starts_well : Text → Bool
starts_well [] = false
starts_well (c ∷ cs) = not (is_separator c)

-- One path component: label characters only, not empty, no leading separator, so neither `.`,
-- `..` nor a hidden name.
pub record IsComponent (t : Text) : Type 0 where
  pub chars : all is_label_char t ≡ true
  pub start : starts_well t ≡ true

module _ (p q : ℕ → Bool) where
  all-trim_start : (t : Text) → all q t ≡ true → all q (trim_start p t) ≡ true
  unfolding trim_start
  all-trim_start [] h = refl
  all-trim_start (c ∷ cs) h = ground (arith, all-trim_start cs)

  all-trim_end : (t : Text) → all q t ≡ true → all q (trim_end p t) ≡ true
  unfolding trim_end
  all-trim_end [] h = refl
  all-trim_end (c ∷ cs) h = ground (arith, all-trim_end cs)

  all-trim_matches : (t : Text) → all q t ≡ true → all q (trim_matches p t) ≡ true
  unfolding trim_matches
  all-trim_matches t h = all-trim_end (trim_start p t) (all-trim_start t h)

module _ (p : ℕ → Bool) where
  length-trim_start : (t : Text) → length (trim_start p t) ≤ length t
  unfolding trim_start
  length-trim_start [] = omega arith
  length-trim_start (c ∷ cs) = ground (arith, length-trim_start cs)

  length-trim_end : (t : Text) → length (trim_end p t) ≤ length t
  unfolding trim_end
  length-trim_end [] = omega arith
  length-trim_end (c ∷ cs) = ground (arith, length-trim_end cs)

  length-trim_matches : (t : Text) → length (trim_matches p t) ≤ length t
  unfolding trim_matches
  length-trim_matches t = omega (arith, length-trim_start t, length-trim_end (trim_start p t))

trim-starts_well :
    (t : Text)
    → (starts_well (trim_matches is_separator t) || is_empty (trim_matches is_separator t)) ≡ true
unfolding trim_matches trim_end trim_start
trim-starts_well [] = refl
trim-starts_well (c ∷ cs) = elim (Bool-cases (is_separator c)) [
  | inl sep ↦ rw sep (trim-starts_well cs)
  | inr name ↦ rw (name, name, name) (ground arith)
]

all-mapped : (t : Text) → all is_label_char (replaced t) ≡ true
all-mapped [] = refl
all-mapped (c ∷ cs) = ground (arith, all-mapped cs)

label_char-byte : (c : ℕ) → is_label_char c ≡ true → ltb c 128 ≡ true
unfolding is_alphanumeric
label_char-byte c h = ground arith

byte_len-label : (t : Text) → all is_label_char t ≡ true → byte_len t ≡ length t
unfolding byte_len
byte_len-label [] h = refl
byte_len-label (c ∷ cs) h = ground (arith, label_char-byte c, byte_len-label cs)

label_char-ne_slash : (c : ℕ) → is_label_char c ≡ true → (c == b'/') ≡ false
unfolding is_alphanumeric
label_char-ne_slash c h = ground arith

no_slash : (t : Text) → all is_label_char t ≡ true → contains_char b'/' t ≡ false
unfolding contains_char
no_slash [] h = refl
no_slash (c ∷ cs) h = ground (arith, label_char-ne_slash c, no_slash cs)

hex-label : (c : ℕ) → is_lower_hex c ≡ true → is_label_char c ≡ true
unfolding is_lower_hex is_alphanumeric
hex-label c h = ground arith

digit-label : (c : ℕ) → is_digit c ≡ true → is_label_char c ≡ true
unfolding is_alphanumeric
digit-label c h = ground arith

module _ (p q : ℕ → Bool) (imp : (c : ℕ) → p c ≡ true → q c ≡ true) where
  all_imp : (t : Text) → all p t ≡ true → all q t ≡ true
  all_imp [] h = refl
  all_imp (c ∷ cs) h = ground (arith, imp c, all_imp cs)

module _ {digest : List ℕ → List ℕ} (d : IsDigest digest) (source : List ℕ) where
  vault_hash-chars : all is_label_char (vault_hash digest source) ≡ true
  unfolding vault_hash
  vault_hash-chars =
      all_imp is_lower_hex is_label_char hex-label (to_hex (take 8 (digest source))) (
        all-to_hex (take 8 (digest source))
          (all-take (λ b. ltb b 256) 8 (digest source) (d.bytes source)))

  length-vault_hash : length (vault_hash digest source) ≤ 16
  unfolding vault_hash
  length-vault_hash =
      omega (arith, length-to_hex (take 8 (digest source)), length-take-le 8 (digest source))

  or_vault-IsComponent :
      (t : Text)
      → all is_label_char t ≡ true
      → (starts_well t || is_empty t) ≡ true
      → length t ≤ 64
      → IsComponent (or_vault digest t source) × (length (or_vault digest t source) ≤ 64)
  unfolding or_vault is_alphanumeric text_eq
  or_vault-IsComponent t h s k = ground (arith, vault_hash-chars, length-vault_hash)

  -- Whatever the label says, for a digest of 32 bytes, `sanitize_label` returns one component
  -- of at most 64 characters.
  pub sanitize_label-IsComponent :
      (label : Text)
      → IsComponent (sanitize_label digest label source)
        × (length (sanitize_label digest label source) ≤ 64)
  unfolding sanitize_label
  sanitize_label-IsComponent label =
      let s = take 64 (replaced label) in
      or_vault-IsComponent (trim_matches is_separator s)
        (all-trim_matches is_separator is_label_char s
          (all-take is_label_char 64 (replaced label) (all-mapped label)))
        (trim-starts_well s)
        (omega (arith, length-trim_matches is_separator s, length-take-le 64 (replaced label)))

suffixed-IsComponent : (base : Text) (n : ℕ) → IsComponent base → IsComponent (suffixed base n)
unfolding is_alphanumeric
suffixed-IsComponent [] n c = cc (c.start)
suffixed-IsComponent (b ∷ bs) n c = record {
  chars = ground (
    arith,
    all-append is_label_char bs (b'-' ∷ to_dec n),
    all_imp is_digit is_label_char digit-label (to_dec n) (all-to_dec n),
    c.chars,
  );
  start = c.start;
}

length-suffixed : (base : Text) (n : ℕ) → n < 1000 → length (suffixed base n) ≤ length base + 4
length-suffixed base n h = omega (arith, length-append base (b'-' ∷ to_dec n), length-to_dec n 2)

component-label_ok : (t : Text) → IsComponent t → length t ≤ 128 → label_ok t ≡ true
unfolding label_ok text_eq
component-label_ok [] c h = cc (c.start)
component-label_ok (x ∷ xs) c h =
    ground (arith, byte_len-label (x ∷ xs) c.chars, no_slash (x ∷ xs) c.chars)

-- `find_free` returns a free name, and none only if every name is taken.
data FreeName (exists : Text → Bool) (name : ℕ → Text) (n tries : ℕ) : Option Text → Type 0 where
  free :
      (m : ℕ)
      → n ≤ m
      → m < n + tries
      → exists (name m) ≡ false
      → FreeName exists name n tries (some (name m))
  taken :
      ((m : ℕ) → n ≤ m → m < n + tries → exists (name m) ≡ true) → FreeName exists name n tries none

module _ (exists : Text → Bool) (name : ℕ → Text) where
  taken_from :
      (n tries : ℕ)
      → exists (name n) ≡ true
      → ((m : ℕ) → n + 1 ≤ m → m < n + 1 + tries → exists (name m) ≡ true)
      → (m : ℕ) → n ≤ m
      → m < n + suc tries
      → exists (name m) ≡ true
  taken_from n tries h rest m low high = elim (Bool-cases (n == m)) [
    | inl e ↦ rw (← (==_iff n m).0 e) h
    | inr e ↦ rest m (ground arith) (omega arith)
  ]

  FreeName-later :
      (n tries : ℕ) {r : Option Text}
      → exists (name n) ≡ true
      → FreeName exists name (n + 1) tries r
      → FreeName exists name n (suc tries) r
  FreeName-later n tries h (free m low high f) = free m (omega arith) (omega arith) f
  FreeName-later n tries h (taken all_taken) = taken (taken_from n tries h all_taken)

  find_free-FreeName : (tries n : ℕ) → FreeName exists name n tries (find_free exists tries n name)
  unfolding find_free
  find_free-FreeName zero n = taken (λ m low high. absurd (omega arith))
  find_free-FreeName (suc tries) n = elim (Bool-cases (exists (name n))) [
    | inl e ↦ rw (e, find_free) (FreeName-later n tries e (find_free-FreeName tries (n + 1)))
    | inr e ↦ rw (e, find_free) (free n (omega arith) (omega arith) e)
  ]

-- What `workspace_name` picks of the first name and the search.
module _ (exists : Text → Bool) (root base : Text) where
  abbrev taken_at : Text → Bool
  taken_at s = exists (join_path root s)

  chosen : Option Text → Text
  chosen (some name) = name
  chosen none = base

  chosen-label_ok :
      {r : Option Text}
      → IsComponent base
      → length base ≤ 64
      → FreeName taken_at (suffixed base) 2 998 r
      → label_ok (chosen r) ≡ true
  unfolding chosen
  chosen-label_ok c k (free m low high f) =
      component-label_ok (suffixed base m) (suffixed-IsComponent base m c)
        (omega (arith, length-suffixed base m))
  chosen-label_ok c k (taken _) = component-label_ok base c (omega arith)

  chosen_free :
      {r : Option Text} (m : ℕ)
      → FreeName taken_at (suffixed base) 2 998 r
      → 2 ≤ m
      → m < 1000
      → taken_at (suffixed base m) ≡ false
      → taken_at (chosen r) ≡ false
  unfolding chosen
  chosen_free m (free j low high f) h k e = f
  chosen_free m (taken all_taken) h k e = cc (all_taken m h k, e)

module _ {digest : List ℕ → List ℕ} (d : IsDigest digest) (exists : Text → Bool) (root label : Text)
    (source : List ℕ) where
  -- For a digest of 32 bytes, the directory of a mounted volume has a name that
  -- `--close-volume` accepts.
  pub workspace_name-label_ok : label_ok (workspace_name digest exists root label source) ≡ true
  unfolding workspace_name chosen
  workspace_name-label_ok =
      let base = sanitize_label digest label source in
      let safe = sanitize_label-IsComponent d source label in
      elim (Bool-cases (exists (join_path root base))) [
        | inl e ↦ rw e (
            chosen-label_ok exists root base safe.0 safe.1
              (find_free-FreeName (λ s. exists (join_path root s)) (suffixed base) 998 2))
        | inr e ↦ rw e (component-label_ok base safe.0 (omega arith))
      ]

  -- For a digest of 32 bytes, as long as one of the suffixes from 2 to 999 is free, the
  -- directory chosen does not exist yet.
  pub workspace_name_free :
      (m : ℕ)
      → 2 ≤ m
      → m < 1000
      → exists (join_path root (suffixed (sanitize_label digest label source) m)) ≡ false
      → exists (join_path root (workspace_name digest exists root label source)) ≡ false
  unfolding workspace_name chosen
  workspace_name_free m h k f =
      let base = sanitize_label digest label source in
      elim (Bool-cases (exists (join_path root base))) [
        | inl e ↦ rw e (
            chosen_free exists root base m
              (find_free-FreeName (λ s. exists (join_path root s)) (suffixed base) 998 2) h k f)
        | inr e ↦ rw (e, e) refl
      ]

-- A device name made by `random_dm_name` from six bytes is one that every teardown recognises.
pub is_veracage_dm-random_dm_name :
    (bytes : List ℕ)
    → length bytes ≡ 6
    → all (λ b. ltb b 256) bytes ≡ true
    → is_veracage_dm (random_dm_name bytes) ≡ true
unfolding is_veracage_dm random_dm_name strip_prefix
is_veracage_dm-random_dm_name bytes n h = ground (
  arith,
  all-to_hex bytes,
  length-to_hex bytes,
  byte_len-label (to_hex bytes)
      (all_imp is_lower_hex is_label_char hex-label (to_hex bytes) (all-to_hex bytes h)),
)

-- For a uid of 32 bits, `check_session_caller` returns exactly for the decimal text of the
-- caller's own uid.
pub check_session_caller_iff :
    (sid : Text) (uid : ℕ)
    → uid < u32_limit
    → (check_session_caller sid uid ≡ none) ↔ (sid ≡ to_dec uid)
unfolding check_session_caller session_id_ok
check_session_caller_iff sid uid h = (
  λ e. ground (arith, text_eq→≡ sid (to_dec uid)),
  λ e. rw e (
      ground (
        arith,
        all-to_dec uid,
        to_dec-pos uid,
        length-to_dec uid 9,
        text_eq_refl (to_dec uid),
        byte_len-label (to_dec uid)
            (all_imp is_digit is_label_char digit-label (to_dec uid) (all-to_dec uid)),
      )),
)
