-- ===== src/Helper/Close/Keeps.antt =====
-- The parts of `run_close_volume`, as to the guard of Launch/Guarded.
use veracage.Base.{ℕ, zero, suc, Text, [], ◌∷◌, Bool, true, false, Option, none, some, arith, codes}
use veracage.Helper.Holders.{foreign_holders}
use veracage.Helper.Leader.{session_flock, verify_session_leader, verify_numbers, proc_starttime}
use veracage.Helper.Names.{check_session_caller, label_ok}
use veracage.Helper.Sys.{
  exists, run, Ids, Os, M, tool, must, setns, sleep, number, call, try, umount2, remove_dir, fork,
  exit, unless, ◌>>=◌, ◌>>◌,
}
use veracage.Helper.Volume.{dm_path, in_workspace}
use veracage.Helper.Launch.Guarded.{is_guarded}
use veracage.Helper.Launch.Keeps.{Keeps, bind-Keeps}
use veracage.Helper.Close.{
  dm_at_mountpoint, close_rounds, close_dm_retrying, lock_remove, refuse, wait_for_go,
  settle_holders, dismount, close_child, exit_with_child, fork_then, exit_if_some, run_close_volume,
}

module _ (os : Os) (ids : Ids) where
  close_rounds-Keeps : (n : ℕ) (dm : Text) → Keeps os ids (close_rounds n dm)
  unfolding close_rounds is_guarded
  close_rounds-Keeps zero dm t g = ground arith
  close_rounds-Keeps (suc n) dm t g =
      let w =
        sleep
        ∷ exists (dm_path dm)
        ∷ run (tool os (codes "cryptsetup")) (codes "close" ∷ dm ∷ [])
        ∷ exists (dm_path dm)
        ∷ t in
      ground (arith, close_rounds-Keeps n dm w g)

  close_dm_retrying-Keeps : (dm : Text) → Keeps os ids (close_dm_retrying dm)
  unfolding close_dm_retrying
  close_dm_retrying-Keeps dm t g = close_rounds-Keeps (os.retries t) dm t g

  abbrev closed_then : Text → Text → Text → Bool → M (Unit {0})
  closed_then sid mp dm closed = do
    unless closed (refuse (codes "its device is still in use, so it is still decrypted"))
    lock_remove sid dm
    call (remove_dir mp)
    exit 0

  closed_then-Keeps :
      (sid mp dm : Text) (closed : Bool) → Keeps os ids (closed_then sid mp dm closed)
  unfolding lock_remove is_guarded
  closed_then-Keeps sid mp dm true t g = ground arith
  closed_then-Keeps sid mp dm false t g = ground arith

  abbrev unmounted_then : Text → Text → Text → Bool → M (Unit {0})
  unmounted_then sid mp dm unmounted = do
    unless unmounted (refuse (codes "the volume is still in use"))
    closed ← close_dm_retrying dm
    closed_then sid mp dm closed

  unmounted_then-Keeps : (sid mp dm : Text) (b : Bool) → Keeps os ids (unmounted_then sid mp dm b)
  unfolding is_guarded
  unmounted_then-Keeps sid mp dm true t g =
      bind-Keeps os ids (close_dm_retrying dm) (closed_then sid mp dm) (close_dm_retrying-Keeps dm)
        (closed_then-Keeps sid mp dm) t g
  unmounted_then-Keeps sid mp dm false t g = ground arith

  dismount-Keeps : (sid mp dm : Text) → Keeps os ids (dismount sid mp dm)
  unfolding dismount is_guarded
  dismount-Keeps sid mp dm =
      bind-Keeps os ids (try (umount2 mp 0)) (unmounted_then sid mp dm) (λ t g. g)
        (unmounted_then-Keeps sid mp dm)

  settle_holders-Keeps : (dm : Text) → Keeps os ids (settle_holders dm)
  unfolding settle_holders foreign_holders wait_for_go is_guarded
  settle_holders-Keeps dm t g = ground arith

  abbrev found_then : Text → Text → Option Text → M (Unit {0})
  found_then sid label none = exit 1
  found_then sid label (some dm) = do settle_holders dm; dismount sid (in_workspace label) dm

  found_then-Keeps :
      (sid label : Text) (found : Option Text) → Keeps os ids (found_then sid label found)
  found_then-Keeps sid label none t g = g
  found_then-Keeps sid label (some dm) t g =
      bind-Keeps os ids (settle_holders dm) (λ _. dismount sid (in_workspace label) dm)
        (settle_holders-Keeps dm) (λ _. dismount-Keeps sid (in_workspace label) dm) t g

  dm_at_mountpoint-Keeps : (mp : Text) → Keeps os ids (dm_at_mountpoint mp)
  unfolding dm_at_mountpoint is_guarded
  dm_at_mountpoint-Keeps mp t g = ground arith

  pub setns-Keeps : (pid : ℕ) → Keeps os ids (must (setns pid) 1)
  unfolding is_guarded
  setns-Keeps pid t g = ground arith

  close_child-Keeps :
      (sid label : Text) (leader_pid : ℕ) → Keeps os ids (close_child sid label leader_pid)
  unfolding close_child
  close_child-Keeps sid label leader_pid =
      bind-Keeps os ids (must (setns leader_pid) 1)
        (λ _. do found ← dm_at_mountpoint (in_workspace label); found_then sid label found)
        (setns-Keeps leader_pid)
        (λ _.
          bind-Keeps os ids (dm_at_mountpoint (in_workspace label)) (found_then sid label)
            (dm_at_mountpoint-Keeps (in_workspace label)) (found_then-Keeps sid label))

  abbrev forked : M (Unit {0}) → (ℕ → M (Unit {0})) → Option ℕ → M (Unit {0})
  forked child parent none = exit 1
  forked child parent (some zero) = child
  forked child parent (some (suc q)) = parent (suc q)

  forked-Keeps :
      (child : M (Unit {0})) (parent : ℕ → M (Unit {0}))
      → Keeps os ids child
      → ((pid : ℕ) → Keeps os ids (parent pid))
      → (pid : Option ℕ) → Keeps os ids (forked child parent pid)
  forked-Keeps child parent c p none t g = g
  forked-Keeps child parent c p (some zero) t g = c t g
  forked-Keeps child parent c p (some (suc q)) t g = p (suc q) t g

  -- A fork, if the child and the parent keep.
  pub fork_then-Keeps :
      (child : M (Unit {0})) (parent : ℕ → M (Unit {0}))
      → Keeps os ids child
      → ((pid : ℕ) → Keeps os ids (parent pid))
      → Keeps os ids (fork_then child parent)
  unfolding is_guarded
  fork_then-Keeps child parent c p =
      bind-Keeps os ids (number fork) (forked child parent) (λ t g. g)
        (forked-Keeps child parent c p)

  pub exit_if_some-Keeps : (o : Option ℕ) → Keeps os ids (exit_if_some o)
  exit_if_some-Keeps none t g = g
  exit_if_some-Keeps (some c) t g = g

  pub session_flock-Keeps : (sid : Text) → Keeps os ids (session_flock sid)
  unfolding is_guarded
  session_flock-Keeps sid t g = ground arith

  pub verify-Keeps : (sid : Text) (uid : ℕ) → Keeps os ids (verify_session_leader sid uid)
  unfolding verify_session_leader verify_numbers proc_starttime is_guarded
  verify-Keeps sid uid t g = ground arith

  exit_with_child-Keeps : (pid : ℕ) → Keeps os ids (exit_with_child pid)
  unfolding is_guarded
  exit_with_child-Keeps pid t g = ground arith

  abbrev leader_then : Text → Text → Option ℕ → M (Unit {0})
  leader_then sid label none = exit 1
  leader_then sid label (some leader_pid) =
      fork_then (close_child sid label leader_pid) exit_with_child

  leader_then-Keeps :
      (sid label : Text) (leader : Option ℕ) → Keeps os ids (leader_then sid label leader)
  leader_then-Keeps sid label none t g = g
  leader_then-Keeps sid label (some pid) t g =
      fork_then-Keeps (close_child sid label pid) exit_with_child (close_child-Keeps sid label pid)
        exit_with_child-Keeps t g

  abbrev flocked_then : Text → Text → M (Unit {0})
  flocked_then sid label = do
    session_flock sid
    leader ← verify_session_leader sid ids.vault_uid
    leader_then sid label leader

  flocked_then-Keeps : (sid label : Text) → Keeps os ids (flocked_then sid label)
  flocked_then-Keeps sid label =
      bind-Keeps os ids (session_flock sid)
        (λ _. do leader ← verify_session_leader sid ids.vault_uid; leader_then sid label leader)
        (session_flock-Keeps sid)
        (λ _.
          bind-Keeps os ids (verify_session_leader sid ids.vault_uid) (leader_then sid label)
            (verify-Keeps sid ids.vault_uid) (leader_then-Keeps sid label))

  labelled_then-Keeps :
      (sid label : Text) (ok : Bool) → Keeps os ids (do unless ok (exit 2); flocked_then sid label)
  labelled_then-Keeps sid label true t g = flocked_then-Keeps sid label t g
  labelled_then-Keeps sid label false t g = g

  pub run_close_volume-Keeps :
      (sid : Option Text) (label : Text) → Keeps os ids (run_close_volume sid label ids)
  unfolding run_close_volume
  run_close_volume-Keeps none label t g = g
  run_close_volume-Keeps (some sid) label t g =
      bind-Keeps os ids (exit_if_some (check_session_caller sid ids.human_uid))
        (λ _. do unless (label_ok label) (exit 2); flocked_then sid label)
        (exit_if_some-Keeps (check_session_caller sid ids.human_uid))
        (λ _. labelled_then-Keeps sid label (label_ok label)) t g
