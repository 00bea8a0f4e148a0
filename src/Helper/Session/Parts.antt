-- ===== src/Helper/Session/Parts.antt =====
-- The parts of a bootstrap, as to the guard of Launch/Guarded.
use veracage.Base.{
  ℕ, Text, codes, List, [], ◌∷◌, Bool, true, false, not, Option, none, some, arith, if◌then◌else◌,
}
use veracage.Helper.Leader.{session_path, proc_starttime}
use veracage.Helper.Lock.{lock_survivors}
use veracage.Helper.Names.{vault_hash, random_dm_name}
use veracage.Helper.Launch.Guarded.{is_guarded}
use veracage.Helper.Launch.Keeps.{Keeps, bind-Keeps, then-Keeps}
use veracage.Helper.Session.{
  lock_path, close_all_session_dms, append_volume, key_of, random_bytes, teardown,
  write_session_pidfile, bootstrap_parent, recover_stale, start_lock, record_source,
}
use veracage.Helper.Sys.{
  exists, read_file, unlock, wait_for, remove_file, Ids, Os, M, done, try, number, text, call, pure,
  ◌>>=◌, ◌>>◌,
}
use veracage.Helper.Volume.{dm_path, exists_now, or_empty}
use veracage.Helper.Session.Keeps.{
  close_all-Keeps, append_volume-Keeps, random_bytes-Keeps, teardown-Keeps,
}

module _ (os : Os) (ids : Ids) where
  abbrev waited_then : Text → Text → Text → ℕ → Option ℕ → M (Unit {0})
  waited_then sid gen ctl_path pid rc =
      teardown sid gen pid ctl_path (elim rc [ none ↦ 1 | some c ↦ c ])

  abbrev recorded_then : Text → Text → Text → ℕ → M (Unit {0})
  recorded_then sid gen ctl_path pid = do
    call (unlock (session_path sid (codes ".flock")))
    rc ← number (wait_for pid)
    waited_then sid gen ctl_path pid rc

  recorded_then-Keeps :
      (sid gen ctl_path : Text) (pid : ℕ) → Keeps os ids (recorded_then sid gen ctl_path pid)
  unfolding is_guarded
  recorded_then-Keeps sid gen ctl_path pid t g =
      teardown-Keeps os ids sid gen pid ctl_path
        (elim (os.number (unlock (session_path sid (codes ".flock")) ∷ t) (wait_for pid)) [
          | none ↦ 1
          | some c ↦ c
        ])
        (wait_for pid ∷ unlock (session_path sid (codes ".flock")) ∷ t) g

  write_session_pidfile-Keeps :
      (sid : Text) (pid : ℕ) → Keeps os ids (write_session_pidfile sid pid)
  unfolding proc_starttime is_guarded
  write_session_pidfile-Keeps sid pid t g = ground arith

  pub bootstrap_parent-Keeps :
      (sid gen ctl_path : Text) (pid : ℕ) → Keeps os ids (bootstrap_parent sid gen ctl_path pid)
  unfolding bootstrap_parent
  bootstrap_parent-Keeps sid gen ctl_path pid =
      then-Keeps os ids (write_session_pidfile sid pid) (recorded_then sid gen ctl_path pid)
        (write_session_pidfile-Keeps sid pid) (recorded_then-Keeps sid gen ctl_path pid)

  abbrev carried_of : Text → Bool → M (List Text)
  carried_of sid all_closed = if all_closed then pure [] else do
    body ← text (read_file (lock_path sid))
    (λ os t. done (lock_survivors (or_empty body) (λ dm. exists_now os t (dm_path dm))) t)

  carried_of-Keeps : (sid : Text) (ok : Bool) → Keeps os ids (carried_of sid ok)
  unfolding is_guarded
  carried_of-Keeps sid true t g = g
  carried_of-Keeps sid false t g = g

  abbrev stale_then : Text → Bool → M (List Text)
  stale_then sid stale = if not stale then pure [] else do
    all_closed ← close_all_session_dms sid
    carried ← carried_of sid all_closed
    call (remove_file (lock_path sid))
    pure carried

  abbrev dropped_then : Text → List Text → M (List Text)
  dropped_then sid carried = do call (remove_file (lock_path sid)); pure carried

  stale_then-Keeps : (sid : Text) (stale : Bool) → Keeps os ids (stale_then sid stale)
  unfolding is_guarded
  stale_then-Keeps sid false t g = g
  stale_then-Keeps sid true t g =
      bind-Keeps os ids (close_all_session_dms sid) (λ ok. carried_of sid ok >>= dropped_then sid)
        (close_all-Keeps os ids sid)
        (λ ok.
          bind-Keeps os ids (carried_of sid ok) (dropped_then sid) (carried_of-Keeps sid ok)
            (λ carried u k. k))
        t g

  pub recover_stale-Keeps : (sid : Text) → Keeps os ids (recover_stale sid)
  unfolding recover_stale is_guarded
  recover_stale-Keeps sid =
      bind-Keeps os ids (try (exists (lock_path sid))) (stale_then sid) (λ t g. g)
        (stale_then-Keeps sid)

  pub start_lock-Keeps :
      (sid : Text) (uid : ℕ) (gen : Text) (carried : List Text)
      → Keeps os ids (start_lock sid uid gen carried)
  unfolding start_lock is_guarded
  start_lock-Keeps sid uid gen carried t g = ground arith

  pub key_of-Keeps : (source : Text) → Keeps os ids (key_of source)
  unfolding is_guarded
  key_of-Keeps source t g = g

  abbrev named_then : Text → Text → List ℕ → M (Option Text)
  named_then sid source bs = do
    skey ← key_of source
    (λ os.
        append_volume sid ids.human_uid (random_dm_name bs) (vault_hash os.digest source) skey os)
    pure (some (random_dm_name bs))

  abbrev keyed_then : Text → Text → List ℕ → Text → M (Option Text)
  keyed_then sid source bs skey = do
    (λ os.
        append_volume sid ids.human_uid (random_dm_name bs) (vault_hash os.digest source) skey os)
    pure (some (random_dm_name bs))

  keyed_then-Keeps :
      (sid source : Text) (bs : List ℕ) (skey : Text) → Keeps os ids (keyed_then sid source bs skey)
  keyed_then-Keeps sid source bs skey =
      then-Keeps os ids
        (λ os.
          append_volume sid ids.human_uid (random_dm_name bs) (vault_hash os.digest source) skey os)
        (pure (some (random_dm_name bs)))
        (append_volume-Keeps os ids sid ids.human_uid (random_dm_name bs)
          (vault_hash os.digest source) skey)
        (λ t g. g)

  pub record_source-Keeps :
      (sid : Text) (source : Option Text) → Keeps os ids (record_source sid ids source)
  record_source-Keeps sid none t g = g
  record_source-Keeps sid (some source) t g =
      bind-Keeps os ids (random_bytes 6) (named_then sid source) (random_bytes-Keeps os ids 6)
        (λ bs.
          bind-Keeps os ids (key_of source) (keyed_then sid source bs) (key_of-Keeps source)
            (keyed_then-Keeps sid source bs))
        t g
