-- ===== src/Helper/Lock/Records.antt =====
-- The lines appended to the session lock, and what its readers find of them.
use veracage.Base.{
  ℕ, Text, List, [], ◌∷◌, ◌++◌, true, false, ◌&&◌, not, Option, none, some, if◌then◌else◌, text_eq,
  is_empty, strip_prefix, split, lines, filter_map, find_map, to_dec, unlines, all, All, is_inline,
  is_dark, differs, dark-inline, dark-differs_tab, trim-dark, split-field, split-last,
  lines-unlines, unlines-append, filter_map-append, find_map-append_none, all_imp, all-append,
  arith, ◌≡◌, refl, ap, ◌∙◌, sym, all-to_dec, is_digit,
}
use veracage.Helper.Names.{is_veracage_dm}
use veracage.Helper.Lock.{
  lock_generation, generation_of, trimmed, header_line, generation_line, tab, volume_line,
  append_session_volume, vhash_match, source_match, on_volume, lock_dms_for_vhash,
  lock_dms_for_source, recorded_dm, recorded_dms,
}

abbrev pub IsWord : Text → Type 0
IsWord t = all is_dark t ≡ true

-- The lines of a lock: none holds a line break.
abbrev pub AreLines : List Text → Type 0
AreLines ls = All (λ l. all is_inline l ≡ true) ls

-- The fields of a volume line: three words, and a label without tab or line break.
pub record IsVolume (dm label vhash skey : Text) : Type 0 where
  pub dm_word : IsWord dm
  pub dm_some : is_empty dm ≡ false
  pub label_inline : all is_inline label ≡ true
  pub label_no_tab : all (differs tab) label ≡ true
  pub vhash_word : IsWord vhash
  pub skey_word : IsWord skey

pub word-inline : (t : Text) → IsWord t → all is_inline t ≡ true
word-inline t h = all_imp is_dark is_inline dark-inline t h

word-no_tab : (t : Text) → IsWord t → all (differs tab) t ≡ true
word-no_tab t h = all_imp is_dark (differs 9) dark-differs_tab t h

pub AreLines-append : (ls ms : List Text) → AreLines ls → AreLines ms → AreLines (ls ++ ms)
AreLines-append [] ms h k = k
AreLines-append (l ∷ ls) ms h k = (h.0, AreLines-append ls ms h.1 k)

module _ {dm label vhash skey : Text} (v : IsVolume dm label vhash skey) where
  inline_join :
      (a b : Text)
      → all is_inline a ≡ true
      → all is_inline b ≡ true
      → all is_inline (a ++ tab ∷ b) ≡ true
  inline_join a b h k = rw (all-append is_inline a (tab ∷ b)) (rw h k)

  volume_line-inline : all is_inline (volume_line dm label vhash skey) ≡ true
  volume_line-inline =
      inline_join dm (label ++ tab ∷ (vhash ++ tab ∷ skey)) (word-inline dm v.dm_word) (
        inline_join label (vhash ++ tab ∷ skey) v.label_inline
          (inline_join vhash skey (word-inline vhash v.vhash_word) (word-inline skey v.skey_word)))

  split-volume :
      split tab (dm ++ tab ∷ (label ++ tab ∷ (vhash ++ tab ∷ skey)))
      ≡ dm ∷ label ∷ vhash ∷ skey ∷ []
  split-volume =
      split-field tab dm (label ++ tab ∷ (vhash ++ tab ∷ skey)) (word-no_tab dm v.dm_word)
      ∙ ap (λ (r : List Text). dm ∷ r) (split-field tab label (vhash ++ tab ∷ skey) v.label_no_tab)
      ∙ ap (λ (r : List Text). dm ∷ label ∷ r)
          (split-field tab vhash skey (word-no_tab vhash v.vhash_word))
      ∙ ap (λ (r : List Text). dm ∷ label ∷ vhash ∷ r)
          (split-last tab skey (word-no_tab skey v.skey_word))

  -- A reader sees the four fields of the line.
  on_volume-line :
      (read : List Text → Option Text)
      → on_volume read (volume_line dm label vhash skey) ≡ read (dm ∷ label ∷ vhash ∷ skey ∷ [])
  unfolding on_volume strip_prefix
  on_volume-line read = ap read split-volume

-- A line that is no volume line gives a reader nothing.
pub on_volume-header :
    (read : List Text → Option Text) (uid : ℕ) → on_volume read (header_line uid) ≡ none
unfolding on_volume strip_prefix
on_volume-header read uid = refl

pub on_volume-generation :
    (read : List Text → Option Text) (gen : Text) → on_volume read (generation_line gen) ≡ none
unfolding on_volume strip_prefix
on_volume-generation read gen = refl

digit-inline : (c : ℕ) → is_digit c ≡ true → is_inline c ≡ true
digit-inline c h = ground arith

pub header_line-inline : (uid : ℕ) → all is_inline (header_line uid) ≡ true
header_line-inline uid = all_imp is_digit is_inline digit-inline (to_dec uid) (all-to_dec uid)

abbrev pub found : Option Text → List Text
found none = []
found (some d) = d ∷ []

filter_map-one : (f : Text → Option Text) (x : Text) → filter_map f (x ∷ []) ≡ found (f x)
filter_map-one f x = ground arith

-- The lines of the body once a volume is appended: a new file gets its header first.
abbrev pub with_header : List Text → ℕ → List Text
with_header [] uid = header_line uid ∷ []
with_header (l ∷ ls) uid = l ∷ ls

module _ {dm label vhash skey : Text} (v : IsVolume dm label vhash skey) (uid : ℕ) where
  nonempty_body : (l : Text) (ls : List Text) → is_empty (unlines (l ∷ ls)) ≡ false
  nonempty_body [] ls = refl
  nonempty_body (c ∷ l) ls = refl

  append-unlines :
      (ls : List Text)
      → append_session_volume (unlines ls) uid dm label vhash skey
        ≡ unlines (with_header ls uid ++ volume_line dm label vhash skey ∷ [])
  unfolding append_session_volume
  append-unlines [] =
      sym (unlines-append (header_line uid ∷ []) (volume_line dm label vhash skey ∷ []))
  append-unlines (l ∷ ls) =
      rw (nonempty_body l ls) (sym (unlines-append (l ∷ ls) (volume_line dm label vhash skey ∷ [])))

  with_header-AreLines : (ls : List Text) → AreLines ls → AreLines (with_header ls uid)
  with_header-AreLines [] h = (header_line-inline uid, tt)
  with_header-AreLines (l ∷ ls) h = h

  lines-append :
      (ls : List Text)
      → AreLines ls
      → lines (append_session_volume (unlines ls) uid dm label vhash skey)
        ≡ with_header ls uid ++ volume_line dm label vhash skey ∷ []
  lines-append ls h =
      ap lines (append-unlines ls)
      ∙ lines-unlines (with_header ls uid ++ volume_line dm label vhash skey ∷ []) (
          AreLines-append (with_header ls uid) _ (with_header-AreLines ls h)
            (volume_line-inline v, tt))

  read-with_header :
      (read : List Text → Option Text) (ls : List Text)
      → filter_map (on_volume read) (with_header ls uid) ≡ filter_map (on_volume read) ls
  unfolding on_volume strip_prefix
  read-with_header read [] = refl
  read-with_header read (l ∷ ls) = refl

  -- Every reader of the volume lines sees the appended volume, after all that was there.
  read-append :
      (read : List Text → Option Text) (ls : List Text)
      → AreLines ls
      → filter_map
          (on_volume read)
          (lines (append_session_volume (unlines ls) uid dm label vhash skey))
        ≡ filter_map (on_volume read) (lines (unlines ls))
          ++ found (read (dm ∷ label ∷ vhash ∷ skey ∷ []))
  read-append read ls h =
      rw (lines-append ls h, lines-unlines ls h)
        (filter_map-append (on_volume read) (with_header ls uid)
            (volume_line dm label vhash skey ∷ [])
          ∙ rw (
            read-with_header read ls,
            filter_map-one (on_volume read) (volume_line dm label vhash skey),
            on_volume-line v read,
          ))

  found-source :
      (key : Text)
      → found (source_match key (dm ∷ label ∷ vhash ∷ skey ∷ []))
        ≡ (if text_eq skey key then dm ∷ [] else [])
  found-source key =
      rw (trim-dark dm v.dm_word, trim-dark skey v.skey_word, v.dm_some) (ground arith)

  -- For a body of whole lines and well-formed fields, the guard by device and inode finds
  -- exactly the volumes recorded for that source: the new one joins the list of its own
  -- non-empty key and of no other.
  pub lock_dms_for_source-append :
      (ls : List Text) (key : Text)
      → AreLines ls
      → lock_dms_for_source (append_session_volume (unlines ls) uid dm label vhash skey) key
        ≡ lock_dms_for_source (unlines ls) key
          ++ (if not (is_empty key) && text_eq skey key then dm ∷ [] else [])
  unfolding lock_dms_for_source
  lock_dms_for_source-append ls [] h = refl
  lock_dms_for_source-append ls (k ∷ key) h =
      read-append (source_match (k ∷ key)) ls h
      ∙ ap (λ r. filter_map (on_volume (source_match (k ∷ key))) (lines (unlines ls)) ++ r)
          (found-source (k ∷ key))

  -- For a body of whole lines and well-formed fields, the guard by path hash finds the new
  -- volume, after those found before, for its own hash and for no other.
  pub lock_dms_for_vhash-append :
      (ls : List Text) (hash : Text)
      → AreLines ls
      → lock_dms_for_vhash (append_session_volume (unlines ls) uid dm label vhash skey) hash
        ≡ lock_dms_for_vhash (unlines ls) hash ++ (if text_eq vhash hash then dm ∷ [] else [])
  unfolding lock_dms_for_vhash
  lock_dms_for_vhash-append ls hash h =
      read-append (vhash_match hash) ls h ∙ rw (trim-dark dm v.dm_word, v.dm_some) (ground arith)

  -- For a body of whole lines and well-formed fields, with a name that `is_veracage_dm`
  -- accepts, the teardown walks the appended device last, after all the devices recorded
  -- before.
  pub recorded_dms-append :
      (ls : List Text)
      → AreLines ls
      → is_veracage_dm dm ≡ true
      → recorded_dms (append_session_volume (unlines ls) uid dm label vhash skey)
        ≡ recorded_dms (unlines ls) ++ dm ∷ []
  unfolding recorded_dms
  recorded_dms-append ls h name =
      read-append recorded_dm ls h ∙ rw (trim-dark dm v.dm_word, name) refl

  -- Appending a volume with well-formed fields leaves the generation of an existing lock of
  -- whole lines alone.
  pub lock_generation-append :
      (l : Text) (ls : List Text)
      → AreLines (l ∷ ls)
      → lock_generation (append_session_volume (unlines (l ∷ ls)) uid dm label vhash skey)
        ≡ lock_generation (unlines (l ∷ ls))
  unfolding lock_generation strip_prefix
  lock_generation-append l ls h =
      ap (λ (r : List Text). trimmed (find_map generation_of r)) (lines-append (l ∷ ls) h)
      ∙ ap trimmed
          (find_map-append_none generation_of (l ∷ ls) (volume_line dm label vhash skey) refl)
      ∙ sym (ap (λ (r : List Text). trimmed (find_map generation_of r)) (lines-unlines (l ∷ ls) h))
