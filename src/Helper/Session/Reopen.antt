-- ===== src/Helper/Session/Reopen.antt =====
-- An open of a container that the lock has already.
use veracage.Base.{
  ℕ, Text, List, [], ◌∷◌, ◌++◌, true, false, some, text_eq_refl, contains_text, is_empty, unlines,
  arith, ◌≡◌,
}
use veracage.Helper.Args.{Args}
use veracage.Helper.Lock.{append_session_volume, lock_dms_for_source, lock_dms_for_vhash}
use veracage.Helper.Lock.Records.{
  IsVolume, AreLines, lock_dms_for_source-append, lock_dms_for_vhash-append,
}
use veracage.Helper.Names.{vault_hash}
use veracage.Helper.Volume.{or_empty}
use veracage.Helper.Session.{run_session_add, lock_path}
use veracage.Helper.Session.Guard.{StaysOpen, Refused, run_session_add-refuses}
use veracage.Helper.Sys.{Ids, Os, Trace, Ends, source_key, read_file}

contains-last : (ds : List Text) (d : Text) → contains_text (ds ++ d ∷ []) d ≡ true
unfolding contains_text
contains-last [] d = ground (arith, text_eq_refl d)
contains-last (e ∷ ds) d = ground (arith, contains-last ds d)

contains-left :
    (ds es : List Text) (d : Text) → contains_text ds d ≡ true → contains_text (ds ++ es) d ≡ true
unfolding contains_text
contains-left [] es d h = ground arith
contains-left (e ∷ ds) es d h = ground (arith, contains-left ds es d)

contains-right :
    (ds es : List Text) (d : Text) → contains_text es d ≡ true → contains_text (ds ++ es) d ≡ true
unfolding contains_text
contains-right [] es d h = h
contains-right (e ∷ ds) es d h = ground (arith, contains-right ds es d)

module _ {dm label vhash skey : Text} (v : IsVolume dm label vhash skey) (uid : ℕ) (ls : List Text)
    (h : AreLines ls) (some_key : is_empty skey ≡ false) where
  source-listed :
      contains_text
        (lock_dms_for_source (append_session_volume (unlines ls) uid dm label vhash skey) skey)
        dm
      ≡ true
  source-listed =
      rw (lock_dms_for_source-append v uid ls skey h, some_key, text_eq_refl skey)
        (contains-last (lock_dms_for_source (unlines ls) skey) dm)

  -- While the lock is the one to which an open appended the volume of a non-empty device and
  -- inode key, in a body of whole lines and with well-formed fields, and its device is there
  -- whenever the helper looks, an open of any path with that key is refused: it exits with 2,
  -- and neither appends to a file nor forks.
  pub run_session_add-refuses_reopen :
      (os : Os) (ids : Ids) (args : Args) (sid source : Text) (leader_pid : ℕ) (t : Trace)
      → StaysOpen os dm
      → os.text t (source_key source) ≡ some skey
      → os.text (source_key source ∷ t) (read_file (lock_path sid))
        ≡ some (append_session_volume (unlines ls) uid dm label vhash skey)
      → Ends (λ a u. ⊥) (Refused t) (run_session_add ids args sid source leader_pid os t)
  run_session_add-refuses_reopen os ids args sid source leader_pid t s k b =
      run_session_add-refuses os ids args sid source leader_pid dm t s (
        rw (k, b)
          (contains-left
            (lock_dms_for_source (append_session_volume (unlines ls) uid dm label vhash skey) skey)
            (lock_dms_for_vhash (append_session_volume (unlines ls) uid dm label vhash skey)
              (vault_hash os.digest source))
            dm source-listed))

module _ {dm label vhash skey : Text} (v : IsVolume dm label vhash skey) (uid : ℕ) (ls : List Text)
    (h : AreLines ls) where
  vhash-listed :
      contains_text
        (lock_dms_for_vhash (append_session_volume (unlines ls) uid dm label vhash skey) vhash)
        dm
      ≡ true
  vhash-listed =
      rw (lock_dms_for_vhash-append v uid ls vhash h, text_eq_refl vhash)
        (contains-last (lock_dms_for_vhash (unlines ls) vhash) dm)

  -- While the lock is the one to which an open of this path appended its volume, in a body of whole
  -- lines and with well-formed fields, and its device is there whenever the helper looks, another
  -- open of the path is refused, whatever device and inode it has now, or none: it exits with 2, and
  -- neither appends to a file nor forks.
  pub run_session_add-refuses_path :
      (os : Os) (ids : Ids) (args : Args) (sid source : Text) (leader_pid : ℕ) (t : Trace)
      → StaysOpen os dm
      → vault_hash os.digest source ≡ vhash
      → os.text (source_key source ∷ t) (read_file (lock_path sid))
        ≡ some (append_session_volume (unlines ls) uid dm label vhash skey)
      → Ends (λ a u. ⊥) (Refused t) (run_session_add ids args sid source leader_pid os t)
  run_session_add-refuses_path os ids args sid source leader_pid t s k b =
      run_session_add-refuses os ids args sid source leader_pid dm t s (
        rw (k, b)
          (contains-right
            (lock_dms_for_source (append_session_volume (unlines ls) uid dm label vhash skey)
              (or_empty (os.text t (source_key source))))
            (lock_dms_for_vhash (append_session_volume (unlines ls) uid dm label vhash skey) vhash)
            dm vhash-listed))
