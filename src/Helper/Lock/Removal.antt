-- ===== src/Helper/Lock/Removal.antt =====
-- The readers of the lock text after a removal, and after the survivors of an old lock are carried into
-- a new one.
use veracage.Base.{
  ℕ, Text, List, [], ◌∷◌, Bool, false, not, Option, none, some, text_eq, text_eq_refl, strip_prefix,
  split, lines, keep, filter_map, find_map, unlines, lines-unlines, unlines-append, trim-dark,
  arith, ◌≡◌, refl, ap, ◌∙◌, sym, ◌⊎◌, inl, inr, Bool-cases, Option-cases,
}
use veracage.Helper.Lock.{
  lock_generation, generation_of, trimmed, header_line, generation_line, create_session_lock, tab,
  volume_of, dm_field, vhash_match, source_match, on_volume, lock_dms_for_vhash,
  lock_dms_for_source, recorded_dm, recorded_dms, survives, lock_survivors, append_session_lines,
  stays, session_lock_remove,
}
use veracage.Helper.Lock.Records.{AreLines, IsWord, word-inline, header_line-inline}

AreLines-keep : (p : Text → Bool) (ls : List Text) → AreLines ls → AreLines (keep p ls)
AreLines-keep p [] h = tt
AreLines-keep p (l ∷ ls) h = elim (Bool-cases (p l)) [
  | inl e ↦ rw e (h.0, AreLines-keep p ls h.1)
  | inr e ↦ rw e (AreLines-keep p ls h.1)
]

lines-keep :
    (p : Text → Bool) (ls : List Text) → AreLines ls → lines (unlines (keep p ls)) ≡ keep p ls
lines-keep p ls h = lines-unlines (keep p ls) (AreLines-keep p ls h)

-- The lines left by a removal.
lines-remove :
    (ls : List Text) (dm : Text)
    → AreLines ls
    → lines (session_lock_remove (unlines ls) dm) ≡ keep (stays dm) ls
unfolding session_lock_remove
lines-remove ls dm h =
    ap (λ (r : List Text). lines (unlines (keep (stays dm) r))) (lines-unlines ls h)
    ∙ lines-keep (stays dm) ls h

abbrev pub is_other : Text → Text → Bool
is_other dm d = not (text_eq d dm)

-- A reader that answers with the line's own device, if it answers.
abbrev ReadsDm : (List Text → Option Text) → Type 0
ReadsDm read = (f : List Text) → (read f ≡ none) ⊎ (read f ≡ some (dm_field f))

module _ (read : List Text → Option Text) (own : ReadsDm read) (dm : Text) where
  read-remove :
      (ls : List Text)
      → filter_map (on_volume read) (keep (stays dm) ls)
        ≡ keep (is_other dm) (filter_map (on_volume read) ls)
  unfolding on_volume stays
  read-remove [] = refl
  read-remove (l ∷ ls) = elim (Option-cases (volume_of l)) [
    | inl e ↦ ground (arith, read-remove ls)
    | inr (v, e) ↦ elim (own (split tab v)) [
      | inl q ↦ ground (arith, read-remove ls)
      | inr q ↦ ground (arith, read-remove ls, text_eq_refl dm)
    ]
  ]

  read-session_lock_remove :
      (ls : List Text)
      → AreLines ls
      → filter_map (on_volume read) (lines (session_lock_remove (unlines ls) dm))
        ≡ keep (is_other dm) (filter_map (on_volume read) (lines (unlines ls)))
  read-session_lock_remove ls h = rw (lines-remove ls dm h, lines-unlines ls h) (read-remove ls)

source-own : (key : Text) → ReadsDm (source_match key)
source-own key f = ground arith

vhash-own : (hash : Text) → ReadsDm (vhash_match hash)
vhash-own hash f = ground arith

recorded-own : ReadsDm recorded_dm
recorded-own f = ground arith

module _ (ls : List Text) (dm : Text) (h : AreLines ls) where
  -- In a body of whole lines, after a removal the guard by device and inode finds what it found
  -- before, less that device.
  pub lock_dms_for_source-remove :
      (key : Text)
      → lock_dms_for_source (session_lock_remove (unlines ls) dm) key
        ≡ keep (is_other dm) (lock_dms_for_source (unlines ls) key)
  unfolding lock_dms_for_source
  lock_dms_for_source-remove [] = refl
  lock_dms_for_source-remove (k ∷ key) =
      read-session_lock_remove (source_match (k ∷ key)) (source-own (k ∷ key)) dm ls h

  -- In a body of whole lines, after a removal the guard by path hash finds what it found
  -- before, less that device.
  pub lock_dms_for_vhash-remove :
      (hash : Text)
      → lock_dms_for_vhash (session_lock_remove (unlines ls) dm) hash
        ≡ keep (is_other dm) (lock_dms_for_vhash (unlines ls) hash)
  unfolding lock_dms_for_vhash
  lock_dms_for_vhash-remove hash =
      read-session_lock_remove (vhash_match hash) (vhash-own hash) dm ls h

  -- In a body of whole lines, after a removal the teardown still walks every other device, in
  -- order.
  pub recorded_dms-remove :
      recorded_dms (session_lock_remove (unlines ls) dm)
      ≡ keep (is_other dm) (recorded_dms (unlines ls))
  unfolding recorded_dms
  recorded_dms-remove = read-session_lock_remove recorded_dm recorded-own dm ls h

generation_of-stays : (dm l : Text) → stays dm l ≡ false → generation_of l ≡ none
unfolding stays strip_prefix
generation_of-stays dm l h = ground arith

find-generation :
    (dm : Text) (ls : List Text)
    → find_map generation_of (keep (stays dm) ls) ≡ find_map generation_of ls
find-generation dm [] = refl
find-generation dm (l ∷ ls) = ground (arith, generation_of-stays dm l, find-generation dm ls)

-- In a body of whole lines, a removal keeps the generation, so the session still knows the lock
-- as its own.
pub lock_generation-remove :
    (ls : List Text) (dm : Text)
    → AreLines ls
    → lock_generation (session_lock_remove (unlines ls) dm) ≡ lock_generation (unlines ls)
unfolding lock_generation
lock_generation-remove ls dm h =
    rw (lines-remove ls dm h, lines-unlines ls h) (ap trimmed (find-generation dm ls))

survivors-recorded :
    (still_open : Text → Bool) (ls : List Text)
    → filter_map (on_volume recorded_dm) (keep (survives still_open) ls)
      ≡ keep still_open (filter_map (on_volume recorded_dm) ls)
unfolding survives
survivors-recorded still_open [] = refl
survivors-recorded still_open (l ∷ ls) = ground (arith, survivors-recorded still_open ls)

module _ (uid : ℕ) (gen : Text) (still_open : Text → Bool) (ls : List Text) where
  abbrev new_lock : Text
  new_lock =
      append_session_lines (create_session_lock uid gen) (lock_survivors (unlines ls) still_open)

  lines-new_lock :
      IsWord gen
      → AreLines ls
      → lines new_lock ≡ header_line uid ∷ generation_line gen ∷ keep (survives still_open) ls
  unfolding append_session_lines create_session_lock lock_survivors
  lines-new_lock w h = rw (lines-unlines ls h) (
      ap lines (
        sym (
          unlines-append (header_line uid ∷ generation_line gen ∷ [])
            (keep (survives still_open) ls)))
      ∙ lines-unlines _
          (header_line-inline uid, (word-inline gen w, AreLines-keep (survives still_open) ls h)))

  -- A bootstrap over a stale lock of whole lines, with a generation without white space,
  -- orphans nothing: the teardown of the new lock walks exactly the devices of the old one that
  -- are still open, in order.
  pub recorded_dms-recovered :
      IsWord gen → AreLines ls → recorded_dms new_lock ≡ keep still_open (recorded_dms (unlines ls))
  unfolding recorded_dms on_volume strip_prefix
  recorded_dms-recovered w h =
      rw (lines-new_lock w h, lines-unlines ls h) (survivors-recorded still_open ls)

  -- Over a stale lock of whole lines, the new lock has the generation of this bootstrap, a text
  -- without white space, whatever the old lines say.
  pub lock_generation-recovered : IsWord gen → AreLines ls → lock_generation new_lock ≡ some gen
  unfolding lock_generation strip_prefix
  lock_generation-recovered w h =
      rw (lines-new_lock w h) (ap (λ (g : Text). some g) (trim-dark gen w))
