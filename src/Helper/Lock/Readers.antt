-- ===== src/Helper/Lock/Readers.antt =====
-- The readers of the lock, after each of its writers.
use veracage.Base.{
  ℕ, Text, List, [], ◌∷◌, ◌++◌, Bool, true, not, ◌&&◌, some, if◌then◌else◌, is_empty, keep, text_eq,
  unlines, ◌≡◌,
}
use veracage.Helper.Names.{is_veracage_dm}
use veracage.Helper.Lock.{
  lock_generation, create_session_lock, append_session_volume, lock_dms_for_vhash,
  lock_dms_for_source, recorded_dms, lock_survivors, append_session_lines, session_lock_remove,
}
use veracage.Helper.Lock.Records.{
  AreLines, IsWord, IsVolume, lock_dms_for_source-append, lock_dms_for_vhash-append,
  recorded_dms-append, lock_generation-append,
}
use veracage.Helper.Lock.Removal.{
  is_other, lock_dms_for_source-remove, lock_dms_for_vhash-remove, recorded_dms-remove,
  lock_generation-remove, recorded_dms-recovered, lock_generation-recovered,
}

-- For a lock of whole lines and a volume of well-formed fields, once the volume is appended: the
-- guard by device and inode finds it, after those found before, for its own key where that is not
-- empty, and the guard by path hash for its own hash; the teardown walks it last where
-- `is_veracage_dm` accepts its name; and the generation stays.
pub append_session_volume-readers :
    {dm label vhash skey : Text}
    → (v : IsVolume dm label vhash skey) (uid : ℕ) (l : Text) (ls : List Text) (key hash : Text)
    → AreLines (l ∷ ls)
    → is_veracage_dm dm ≡ true
    → (lock_dms_for_source (append_session_volume (unlines (l ∷ ls)) uid dm label vhash skey) key
        ≡ lock_dms_for_source (unlines (l ∷ ls)) key
          ++ (if not (is_empty key) && text_eq skey key then dm ∷ [] else []))
      × (lock_dms_for_vhash (append_session_volume (unlines (l ∷ ls)) uid dm label vhash skey) hash
          ≡ lock_dms_for_vhash (unlines (l ∷ ls)) hash
            ++ (if text_eq vhash hash then dm ∷ [] else []))
      × (recorded_dms (append_session_volume (unlines (l ∷ ls)) uid dm label vhash skey)
          ≡ recorded_dms (unlines (l ∷ ls)) ++ dm ∷ [])
      × (lock_generation (append_session_volume (unlines (l ∷ ls)) uid dm label vhash skey)
          ≡ lock_generation (unlines (l ∷ ls)))
append_session_volume-readers v uid l ls key hash h name = (
  lock_dms_for_source-append v uid (l ∷ ls) key h,
  lock_dms_for_vhash-append v uid (l ∷ ls) hash h,
  recorded_dms-append v uid (l ∷ ls) h name,
  lock_generation-append v uid l ls h,
)

-- In a lock of whole lines, once a device is removed both guards and the teardown find what they
-- found before, less that device, in order, and the generation stays.
pub session_lock_remove-readers :
    (ls : List Text) (dm key hash : Text)
    → AreLines ls
    → (lock_dms_for_source (session_lock_remove (unlines ls) dm) key
        ≡ keep (is_other dm) (lock_dms_for_source (unlines ls) key))
      × (lock_dms_for_vhash (session_lock_remove (unlines ls) dm) hash
          ≡ keep (is_other dm) (lock_dms_for_vhash (unlines ls) hash))
      × (recorded_dms (session_lock_remove (unlines ls) dm)
          ≡ keep (is_other dm) (recorded_dms (unlines ls)))
      × (lock_generation (session_lock_remove (unlines ls) dm) ≡ lock_generation (unlines ls))
session_lock_remove-readers ls dm key hash h = (
  lock_dms_for_source-remove ls dm h key,
  lock_dms_for_vhash-remove ls dm h hash,
  recorded_dms-remove ls dm h,
  lock_generation-remove ls dm h,
)

-- Of the lock text that is made of a new header with a generation without white space and the
-- surviving lines of an old lock of whole lines: its generation is the new one, whatever the old
-- lines say, and the devices that a teardown reads from it are exactly those of the old lock that are
-- still open, in order.
pub lock_survivors-recovered :
    (uid : ℕ) (gen : Text) (still_open : Text → Bool) (ls : List Text)
    → IsWord gen
    → AreLines ls
    → (recorded_dms (
          append_session_lines
            (create_session_lock uid gen)
            (lock_survivors (unlines ls) still_open))
        ≡ keep still_open (recorded_dms (unlines ls)))
      × (lock_generation (
            append_session_lines
              (create_session_lock uid gen)
              (lock_survivors (unlines ls) still_open))
          ≡ some gen)
lock_survivors-recovered uid gen still_open ls w h = (
  recorded_dms-recovered uid gen still_open ls w h,
  lock_generation-recovered uid gen still_open ls w h,
)
