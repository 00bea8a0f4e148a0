-- ===== src/Agent/Keyboard/Mapped.antt =====
-- What the configured mapping leaves of the host's modifier options (agent-rs/src/keyboard.rs).
use veracage.Base.{
  ℕ, Text, codes, List, [], ◌∷◌, ◌++◌, Bool, true, false, not, ◌&&◌, ◌||◌, if◌then◌else◌, ◌==◌, ◌≡◌,
  refl, ap, arith, is_empty, ◌∙◌, all, All, all-append, any, keep, keep-append, map, is_whitespace,
  text_eq, text_eq→≡, contains_text, trim_start, trim_end, trim_matches, trim, split_onto, split,
  split-field, split-last, differs, Bool-cases, inl, inr, &&-eq_true, sym, append-nil,
}
use veracage.Agent.Keyboard.{choices, is_valid, group_of, is_kept, kept_options, options_for}
use veracage.Agent.Paths.{join}

-- An option of a group that the mapping sets.
unfoldable pub is_modifier : Text → Bool
unfolding contains_text
is_modifier o = contains_text (codes "altwin" ∷ codes "ctrl" ∷ []) (group_of o)

-- An option that is there, of another group.
unfoldable pub is_unmapped : Text → Bool
unfolding is_modifier
is_unmapped o = not (is_empty o) && not (is_modifier o)

-- Fields without a comma.
abbrev AreFields : List Text → Type 0
AreFields ts = All (λ f. all (differs b',') f ≡ true) ts

AreFields-branch :
    (b : Bool) (x y : List Text)
    → (b ≡ true → AreFields x)
    → (b ≡ false → AreFields y)
    → AreFields (elim b [ true ↦ x | false ↦ y ])
AreFields-branch true x y h k = h refl
AreFields-branch false x y h k = k refl

split_onto-AreFields :
    (acc t : Text) → all (differs b',') acc ≡ true → AreFields (split_onto b',' acc t)
unfolding split_onto
split_onto-AreFields acc [] h = (h, tt)
split_onto-AreFields acc (c ∷ t) h =
    AreFields-branch (c == b',') (acc ∷ split_onto b',' [] t) (split_onto b',' (acc ++ c ∷ []) t)
      (λ e. (h, split_onto-AreFields [] t refl))
      (λ e.
        split_onto-AreFields (acc ++ c ∷ []) t
          (ground (arith, all-append (differs b',') acc (c ∷ []))))

all-trim_start : (p q : ℕ → Bool) (t : Text) → all q t ≡ true → all q (trim_start p t) ≡ true
unfolding trim_start
all-trim_start p q [] h = refl
all-trim_start p q (c ∷ t) h = ground (arith, all-trim_start p q t)

all-trim_end : (p q : ℕ → Bool) (t : Text) → all q t ≡ true → all q (trim_end p t) ≡ true
unfolding trim_end
all-trim_end p q [] h = refl
all-trim_end p q (c ∷ t) h = ground (arith, all-trim_end p q t)

all-trim : (q : ℕ → Bool) (t : Text) → all q t ≡ true → all q (trim t) ≡ true
unfolding trim trim_matches
all-trim q t h =
    all-trim_end is_whitespace q (trim_start is_whitespace t) (all-trim_start is_whitespace q t h)

map-trim-AreFields : (ts : List Text) → AreFields ts → AreFields (map trim ts)
map-trim-AreFields [] h = tt
map-trim-AreFields (t ∷ ts) h = (all-trim (differs b',') t h.0, map-trim-AreFields ts h.1)

keep-AreFields : (p : Text → Bool) (ts : List Text) → AreFields ts → AreFields (keep p ts)
keep-AreFields p [] h = tt
keep-AreFields p (t ∷ ts) h = elim (Bool-cases (p t)) [
  | inl e ↦ rw e (h.0, keep-AreFields p ts h.1)
  | inr e ↦ rw e (keep-AreFields p ts h.1)
]

kept_options-AreFields : (host : Text) → AreFields (kept_options host)
unfolding kept_options
kept_options-AreFields host =
    keep-AreFields is_kept (map trim (split b',' host))
      (map-trim-AreFields (split b',' host) (split_onto-AreFields [] host refl))

kept-unmodified : (o : Text) → is_kept o ≡ true → is_modifier o ≡ false
unfolding is_kept is_modifier
kept-unmodified o h = ground arith

keep_kept : (ts : List Text) → keep is_modifier (keep is_kept ts) ≡ []
keep_kept [] = refl
keep_kept (t ∷ ts) = elim (Bool-cases (is_kept t)) [
  | inl e ↦ rw e (rw (kept-unmodified t e) (keep_kept ts))
  | inr e ↦ rw e (keep_kept ts)
]

split-join :
    (x : Text) (xs : List Text)
    → AreFields (x ∷ xs)
    → split b',' (join (codes ",") (x ∷ xs)) ≡ x ∷ xs
unfolding join
split-join x [] h = split-last b',' x h.0
split-join x (y ∷ ys) h =
    split-field b',' x (join (codes ",") (y ∷ ys)) h.0
    ∙ ap (λ (ls : List Text). x ∷ ls) (split-join y ys h.1)

AreFields-append : (xs ys : List Text) → AreFields xs → AreFields ys → AreFields (xs ++ ys)
AreFields-append [] ys h k = k
AreFields-append (x ∷ xs) ys h k = (h.0, AreFields-append xs ys h.1 k)

-- A test that fails on the empty text finds in joined options what it finds in the options.
keep-join :
    (p : Text → Bool) (xs : List Text)
    → p [] ≡ false
    → AreFields xs
    → keep p (split b',' (join (codes ",") xs)) ≡ keep p xs
unfolding join split_onto
keep-join p [] e h = rw e refl
keep-join p (x ∷ xs) e h = ap (λ (ts : List Text). keep p ts) (split-join x xs h)

keep-mapped :
    (p : Text → Bool) (host : Text) (own : List Text)
    → p [] ≡ false
    → AreFields own
    → keep p (split b',' (join (codes ",") (kept_options host ++ own)))
      ≡ keep p (kept_options host) ++ keep p own
keep-mapped p host own e h =
    keep-join p (kept_options host ++ own) e
      (AreFields-append (kept_options host) own (kept_options-AreFields host) h)
    ∙ keep-append p (kept_options host) own

keep_twice : (p : Text → Bool) (ts : List Text) → keep p (keep p ts) ≡ keep p ts
keep_twice p [] = refl
keep_twice p (t ∷ ts) = elim (Bool-cases (p t)) [
  | inl e ↦ rw e (rw e (ap (λ (r : List Text). t ∷ r) (keep_twice p ts)))
  | inr e ↦ rw e (keep_twice p ts)
]

-- The option that a choice stands for.
unfoldable pub own_option : Text → List Text
own_option choice = if text_eq choice (codes "none") then [] else choice ∷ []

abbrev is_mapping : Text → Bool
is_mapping t =
    text_eq t (codes "system")
    || (text_eq t (codes "none") || all (differs b',') t && is_modifier t && not (is_kept t))

or_right : (a b : Bool) → a ≡ false → (a || b) ≡ true → b ≡ true
or_right a b e h = ground arith

any-all :
    (q : Text → Bool) (choice : Text) (cs : List (Text × Text))
    → any (λ c. text_eq c.0 choice) cs ≡ true
    → all (λ c. q c.0) cs ≡ true
    → q choice ≡ true
any-all q choice [] h k = cc
any-all q choice (c ∷ cs) h k =
    let b = &&-eq_true (q c.0) (all (λ c. q c.0) cs) k in
    elim (Bool-cases (text_eq c.0 choice)) [
      | inl e ↦ sym (ap q (text_eq→≡ c.0 choice e)) ∙ b.0
      | inr e ↦
          any-all q choice cs (or_right (text_eq c.0 choice) (any (λ c. text_eq c.0 choice) cs) e h)
            b.1
    ]

valid-is_mapping : (choice : Text) → is_valid choice ≡ true → is_mapping choice ≡ true
unfolding is_valid is_modifier is_kept contains_text text_eq split_onto is_whitespace
valid-is_mapping choice h = any-all is_mapping choice choices h refl

mapping_parts : (d m k : Bool) → (d && m && not k) ≡ true → (d ≡ true) × (m ≡ true) × (k ≡ false)
mapping_parts d m k h = (ground arith, ground arith, ground arith)

record IsOwn (own : List Text) : Type 0 where
  pub own_fields : AreFields own
  pub own_modifiers : keep is_modifier own ≡ own
  pub own_kept : keep is_kept own ≡ []

IsOwn-branch :
    (n : Bool) (choice : Text)
    → (n || all (differs b',') choice && is_modifier choice && not (is_kept choice)) ≡ true
    → IsOwn (if n then [] else choice ∷ [])
IsOwn-branch true choice h = record { own_fields = tt; own_modifiers = refl; own_kept = refl }
IsOwn-branch false choice h =
    let b = mapping_parts (all (differs b',') choice) (is_modifier choice) (is_kept choice) h in
    record { own_fields = (b.0, tt); own_modifiers = rw b.1 refl; own_kept = rw b.2 refl }

own_option-IsOwn :
    (choice : Text)
    → is_valid choice ≡ true
    → text_eq choice (codes "system") ≡ false
    → IsOwn (own_option choice)
unfolding own_option
own_option-IsOwn choice h e = IsOwn-branch (text_eq choice (codes "none")) choice (
    or_right (text_eq choice (codes "system"))
      (text_eq choice (codes "none")
        || all (differs b',') choice && is_modifier choice && not (is_kept choice))
      e (valid-is_mapping choice h))

options_for-mapped :
    (host choice : Text)
    → text_eq choice (codes "system") ≡ false
    → options_for host choice ≡ join (codes ",") (kept_options host ++ own_option choice)
unfolding options_for own_option
options_for-mapped host choice e = rw e refl

empty_modifier : is_modifier [] ≡ false
unfolding is_modifier contains_text text_eq split_onto
empty_modifier = refl

empty_kept : is_kept [] ≡ false
unfolding is_kept
empty_kept = refl

keep-kept_options : (host : Text) → keep is_kept (kept_options host) ≡ kept_options host
unfolding kept_options
keep-kept_options host = keep_twice is_kept (map trim (split b',' host))

keep_modifiers : (host : Text) → keep is_modifier (kept_options host) ≡ []
unfolding kept_options
keep_modifiers host = keep_kept (map trim (split b',' host))

same_options :
    (host choice : Text)
    → is_valid choice ≡ true
    → text_eq choice (codes "system") ≡ false
    → (keep is_modifier (split b',' (options_for host choice)) ≡ own_option choice)
      × (keep is_kept (split b',' (options_for host choice)) ≡ kept_options host)
same_options host choice v e =
    let own = own_option-IsOwn choice v e in
    let same = ap (split b',') (options_for-mapped host choice e) in
    (
      ap (keep is_modifier) same
          ∙ keep-mapped is_modifier host (own_option choice) empty_modifier own.own_fields
          ∙ rw (keep_modifiers host) own.own_modifiers,
      ap (keep is_kept) same
          ∙ keep-mapped is_kept host (own_option choice) empty_kept own.own_fields
          ∙ rw (keep-kept_options host) (rw own.own_kept (append-nil (kept_options host))),
    )

-- For a mapping that the settings allow, other than "system", whatever options the host has: among
-- the options that are published, those of the groups `altwin` and `ctrl` are the mapping alone, or
-- none for "none", and the others are the host's of other groups, each trimmed and none empty, in the
-- host's order.
pub options_for-options :
    (host choice : Text)
    → is_valid choice ≡ true
    → text_eq choice (codes "system") ≡ false
    → (keep is_modifier (split b',' (options_for host choice)) ≡ own_option choice)
      × (keep is_unmapped (split b',' (options_for host choice))
          ≡ keep is_unmapped (map trim (split b',' host)))
unfolding kept_options is_kept is_unmapped is_modifier
options_for-options host choice v e = same_options host choice v e
