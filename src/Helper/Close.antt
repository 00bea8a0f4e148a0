-- ===== src/Helper/Close.antt =====
-- Closing one volume of a running session (helper-rs/src/main.rs): `dm_at_mountpoint`,
-- `close_dm_retrying`, the rewrite of the lock and `run_close_volume`. `fork` answers as in the
-- source, so a run is that of the parent or of the child by the number it gives.
pub mod Child
pub mod Keeps
use veracage.Base.{
  ℕ, zero, suc, ◌+◌, Text, codes, List, [], ◌∷◌, ◌++◌, Bool, true, false, ◌&&◌, not, Option, none,
  some, if◌then◌else◌, text_eq, is_empty, get_elem?, lines, split, trim,
}
use veracage.Helper.Names.{check_session_caller, label_ok, is_veracage_dm}
use veracage.Helper.Lock.{session_lock_remove}
use veracage.Helper.Wait.{wait_for_go_on}
use veracage.Helper.Volume.{dm_path, in_workspace}
use veracage.Helper.Leader.{session_path, session_flock, verify_session_leader}
use veracage.Helper.Holders.{foreign_holders, holder_names}
use veracage.Helper.Sys.{
  exists, read_file, write_file, rename, set_mode, remove_dir, run, fork, wait_for, setns, umount2,
  sleep, println, Ids, Os, M, done, pure, exit, ◌>>=◌, ◌>>◌, try, call, status, number, text, must,
  when, unless, tool_status,
}

abbrev pub exit_volume_busy : ℕ
exit_volume_busy = 6

-- The device number of the first mount at `mp`, from lines of mountinfo.
unfoldable pub devno_at : Text → List Text → Option Text
devno_at mp [] = none
devno_at mp (l ∷ ls) = elim (get_elem? (split b' ' l) 4) [
  | none ↦ devno_at mp ls
  | some at ↦ if text_eq at mp then get_elem? (split b' ' l) 2 else devno_at mp ls
]

-- `dm_at_mountpoint`
unfoldable pub dm_at_mountpoint : Text → M (Option Text)
unfolding devno_at
dm_at_mountpoint mp = do
  mi ← text (read_file (codes "/proc/self/mountinfo"))
  elim mi [
    | none ↦ pure none
    | some body ↦ elim (devno_at mp (lines body)) [
      | none ↦ pure none
      | some devno ↦ do
        name ← text (read_file (codes "/sys/dev/block/" ++ (devno ++ codes "/dm/name")))
        pure (elim name [
          | none ↦ none
          | some n ↦ if is_veracage_dm (trim n) then some (trim n) else none
        ])
    ]
  ]

-- One round of `close_dm_retrying`: `otherwise` is what follows an attempt that left the device.
abbrev pub close_round : Text → M Bool → M Bool
close_round dm otherwise = do
  before ← try (exists (dm_path dm))
  if not before then pure true else do
    tool_status (codes "cryptsetup") (codes "close" ∷ dm ∷ [])
    after ← try (exists (dm_path dm))
    if not after then pure true else otherwise

-- The loop, with the rounds that the deadline leaves.
unfoldable pub close_rounds : ℕ → Text → M Bool
close_rounds zero dm = close_round dm (pure false)
close_rounds (suc n) dm = close_round dm (do call sleep; close_rounds n dm)

unfoldable pub close_dm_retrying : Text → M Bool
close_dm_retrying dm os t = close_rounds (os.retries t) dm os t

-- `session_lock_remove` on the file.
unfoldable pub lock_remove : Text → Text → M (Unit {0})
lock_remove sid dm_name = do
  let path = session_path sid (codes ".lock")
  body ← text (read_file path)
  elim body [
    | none ↦ pure tt
    | some b ↦ do
      written ← try (write_file (path ++ codes ".tmp") (session_lock_remove b dm_name))
      when written (do
        call (set_mode (path ++ codes ".tmp") 0o600)
        call (rename (path ++ codes ".tmp") path))
  ]

abbrev pub refuse : Text → M (Unit {0})
refuse reason = do call (println (codes "busy\t" ++ reason)); exit exit_volume_busy

-- `wait_for_go`
unfoldable pub wait_for_go : M Bool
wait_for_go os t = done (wait_for_go_on [] (os.rounds t)) t

-- The check before anything is touched: it returns only if nobody else holds the volume.
unfoldable pub settle_holders : Text → M (Unit {0})
settle_holders dm = do
  holders ← foreign_holders dm
  if is_empty holders then pure tt else do
    call (println (codes "holders\t" ++ holder_names holders))
    go ← wait_for_go
    unless go (refuse (codes "cancelled"))
    again ← foreign_holders dm
    unless (is_empty again) (refuse (codes "an app is still running"))

-- The dismount and the close.
unfoldable pub dismount : Text → Text → Text → M (Unit {0})
dismount sid mp dm = do
  unmounted ← try (umount2 mp 0)
  unless unmounted (refuse (codes "the volume is still in use"))
  closed ← close_dm_retrying dm
  unless closed (refuse (codes "its device is still in use, so it is still decrypted"))
  lock_remove sid dm
  call (remove_dir mp)
  exit 0

-- The child of `run_close_volume`.
unfoldable pub close_child : Text → Text → ℕ → M (Unit {0})
close_child sid label leader_pid = do
  must (setns leader_pid) 1
  found ← dm_at_mountpoint (in_workspace label)
  elim found [
    | none ↦ exit 1
    | some dm ↦ do settle_holders dm; dismount sid (in_workspace label) dm
  ]

-- `wait_for` on the child, as the exit code of the parent.
abbrev pub exit_with_child : ℕ → M (Unit {0})
exit_with_child pid = do
  rc ← number (wait_for pid)
  elim rc [ some code ↦ exit code | none ↦ exit 1 ]

abbrev pub fork_then : M (Unit {0}) → (ℕ → M (Unit {0})) → M (Unit {0})
fork_then child parent = do
  pid ← number fork
  elim pid [ none ↦ exit 1 | some p ↦ elim p [ zero ↦ child | suc q ↦ parent (suc q) ] ]

abbrev pub exit_if_some : Option ℕ → M (Unit {0})
exit_if_some none = pure tt
exit_if_some (some code) = exit code

-- `run_close_volume`
unfoldable pub run_close_volume : Option Text → Text → Ids → M (Unit {0})
run_close_volume none label ids = exit 2
run_close_volume (some sid) label ids = do
  exit_if_some (check_session_caller sid ids.human_uid)
  unless (label_ok label) (exit 2)
  session_flock sid
  leader ← verify_session_leader sid ids.vault_uid
  elim leader [
    | none ↦ exit 1
    | some leader_pid ↦ fork_then (close_child sid label leader_pid) exit_with_child
  ]
