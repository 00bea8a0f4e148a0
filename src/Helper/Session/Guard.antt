-- ===== src/Helper/Session/Guard.antt =====
-- The duplicate-open guard of an open in a running session.
use veracage.Base.{
  ℕ, Text, List, [], ◌∷◌, Bool, true, false, Option, text_eq→≡, contains_text, arith, ◌≡◌,
}
use veracage.Helper.Args.{Args}
use veracage.Helper.Names.{vault_hash}
use veracage.Helper.Volume.{dm_path, or_empty}
use veracage.Helper.Sys.{
  Call, exists, read_file, append_file, fork, source_key, Ids, Os, Trace, M, Ends, text, made,
  ◌>>=◌, ◌>>◌,
}
use veracage.Helper.Sys.Rules.{bind-Ends}
use veracage.Helper.Close.{fork_then}
use veracage.Helper.Names.{random_dm_name}
use veracage.Helper.Session.{
  random_bytes, append_volume, add_child, add_parent, refuse_open, run_session_add, open_dms,
  lock_path, key_of,
}

-- What an open does to the lock or to a device: the line it appends, the process it forks.
abbrev pub is_opening : Call → Bool
is_opening (append_file p line) = true
is_opening fork = true
is_opening _ = false

-- The device is there whenever the helper looks.
abbrev pub StaysOpen : Os → Text → Type 0
StaysOpen os dm = (t : Trace) → os.succeeds t (exists (dm_path dm)) ≡ true

module _ (os : Os) (dm : Text) where
  pub refuse_open-refuses :
      (dms : List Text) (t : Trace)
      → StaysOpen os dm
      → contains_text dms dm ≡ true
      → Ends
          (λ a u. ⊥)
          (λ c u. (c ≡ 2) × (made is_opening u ≡ made is_opening t))
          (refuse_open dms os t)
  unfolding refuse_open contains_text made
  refuse_open-refuses [] t s h = ground arith
  refuse_open-refuses (d ∷ dms) t s h =
      ground (arith, refuse_open-refuses dms (exists (dm_path d) ∷ t) s, text_eq→≡ d dm, s t)

abbrev pub Refused : Trace → ℕ → Trace → Type 0
Refused t c u = (c ≡ 2) × (made is_opening u ≡ made is_opening t)

module _ (os : Os) (ids : Ids) (args : Args) (sid source : Text) (leader_pid : ℕ) where
  -- The open from the guard on.
  abbrev guarded_then : Text → Option Text → M (Unit {0})
  guarded_then skey body = do
    refuse_open (open_dms os body source skey)
    bs ← random_bytes 6
    append_volume sid ids.human_uid (random_dm_name bs) (vault_hash os.digest source) skey
    fork_then (add_child ids args source (random_dm_name bs) leader_pid)
        (add_parent ids args sid (random_dm_name bs))

  abbrev add_then : M (Unit {0})
  add_then = do
    skey ← key_of source
    body ← text (read_file (lock_path sid))
    guarded_then skey body

  guarded_then-Refused :
      (skey : Text) (body : Option Text) (dm : Text) (t : Trace)
      → StaysOpen os dm
      → contains_text (open_dms os body source skey) dm ≡ true
      → Ends (λ a u. ⊥) (Refused t) (guarded_then skey body os t)
  guarded_then-Refused skey body dm t s h =
      bind-Ends (λ a u. ⊥) (Refused t) (Ends (λ a u. ⊥) (Refused t))
        (refuse_open (open_dms os body source skey))
        (λ _. do
          bs ← random_bytes 6
          append_volume sid ids.human_uid (random_dm_name bs) (vault_hash os.digest source) skey
          fork_then (add_child ids args source (random_dm_name bs) leader_pid)
              (add_parent ids args sid (random_dm_name bs)))
        os t (refuse_open-refuses os dm (open_dms os body source skey) t s h) (λ a u k. absurd k)
        (λ c u k. k)

  -- An open is refused with code 2, without a line in the lock and without a process, when the guard's
  -- own list has a device that is still there.
  pub run_session_add-refuses :
      (dm : Text) (t : Trace)
      → StaysOpen os dm
      → contains_text
          (open_dms os
            (os.text (source_key source ∷ t) (read_file (lock_path sid)))
            source
            (or_empty (os.text t (source_key source))))
          dm
        ≡ true
      → Ends (λ a u. ⊥) (Refused t) (run_session_add ids args sid source leader_pid os t)
  unfolding run_session_add made
  run_session_add-refuses dm t s h =
      guarded_then-Refused (or_empty (os.text t (source_key source)))
        (os.text (source_key source ∷ t) (read_file (lock_path sid))) dm
        (read_file (lock_path sid) ∷ source_key source ∷ t) s h
