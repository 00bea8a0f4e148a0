-- ===== src/Helper/Main.antt =====
-- The entry of the helper (helper-rs/src/main.rs): `resolve_caller`, `resolve_vault_user`,
-- `check_caller_can_open` and `main`, from the parsed command line on.
pub mod Dispatch
pub mod Guarded
use veracage.Base.{
  ℕ, Text, codes, [], ◌∷◌, ◌++◌, false, Option, none, some, if◌then◌else◌, ◌==◌, text_eq,
  contains_char, parse_below, u32_limit, to_dec,
}
use veracage.Helper.Names.{check_session_caller}
use veracage.Helper.Leader.{session_flock, verify_session_leader}
use veracage.Helper.Close.{fork_then, exit_if_some, run_close_volume}
use veracage.Helper.Args.{Args, setenv_value}
use veracage.Helper.Launch.{or_exit, spawn_compositor}
use veracage.Helper.Session.{run_session_bootstrap, run_session_add}
use veracage.Helper.Sys.{
  write_file, create_dir_all, set_mode, open_rw, setresgid, setresuid, geteuid, no_groups,
  no_core_limit, getpwuid_gid, getpwnam_uid, getpwnam_gid, env_var, canonicalize, file_or_block,
  wait_for, Ids, M, pure, exit, ◌>>=◌, ◌>>◌, call, number, text, must, when, unless,
}

-- `suppress_core_dumps`
abbrev pub suppress_core_dumps : M (Unit {0})
suppress_core_dumps = do
  call no_core_limit
  call (write_file (codes "/proc/self/coredump_filter") (codes "0" ++ 10 ∷ []))

abbrev vault_user : Text
vault_user = codes "veracage"

abbrev parse_uid : Option Text → Option ℕ
parse_uid none = none
parse_uid (some raw) = parse_below u32_limit raw

-- `resolve_caller`; `main` fails with 2 on its errors.
unfoldable pub resolve_caller : M (ℕ × ℕ)
resolve_caller = do
  raw ← text (env_var (codes "PKEXEC_UID"))
  uid ← or_exit (parse_uid raw) 2
  when (uid == 0) (exit 2)
  pw_gid ← number (getpwuid_gid uid)
  gid ← or_exit pw_gid 2
  pure (uid, gid)

-- `resolve_vault_user`
unfoldable pub resolve_vault_user : ℕ → M (ℕ × ℕ)
resolve_vault_user human_uid = do
  pw_uid ← number (getpwnam_uid vault_user)
  uid ← or_exit pw_uid 2
  pw_gid ← number (getpwnam_gid vault_user)
  gid ← or_exit pw_gid 2
  when (uid == 0) (exit 2)
  when (uid == human_uid) (exit 2)
  pure (uid, gid)

-- The child of `check_caller_can_open`, with the caller's own credentials.
abbrev pub open_as_caller : Text → Ids → M (Unit {0})
open_as_caller source ids = do
  when (contains_char 0 source) (exit 1)
  must no_groups 1
  must (setresgid ids.human_gid) 1
  must (setresuid ids.human_uid) 1
  must (open_rw source) 1
  exit 0

abbrev pub refuse_nonzero : ℕ → M (Unit {0})
refuse_nonzero pid = do
  rc ← number (wait_for pid)
  elim rc [ none ↦ exit 2 | some c ↦ unless (c == 0) (exit 2) ]

-- `check_caller_can_open`
unfoldable pub check_caller_can_open : Text → Ids → M (Unit {0})
check_caller_can_open source ids = fork_then (open_as_caller source ids) (refuse_nonzero)

-- The forwarded runtime directory must be the caller's own.
unfoldable pub check_runtime_dir : Option Text → ℕ → M (Unit {0})
check_runtime_dir none human_uid = pure tt
check_runtime_dir (some rt) human_uid =
    unless (text_eq rt (codes "/run/user/" ++ to_dec human_uid)) (exit 2)

-- `main`, the branch of `--empty-session`.
unfoldable pub empty_session : Ids → Args → M (Unit {0})
unfolding verify_session_leader run_session_bootstrap
empty_session ids args = do
  sid ← or_exit args.session 2
  exit_if_some (check_session_caller sid ids.human_uid)
  session_flock sid
  leader ← verify_session_leader sid ids.vault_uid
  elim leader [ some pid ↦ exit 0 | none ↦ run_session_bootstrap ids args sid none ]

-- `main`, the open of a volume.
unfoldable pub open_volume : Ids → Args → M (Unit {0})
unfolding check_caller_can_open verify_session_leader run_session_bootstrap run_session_add
open_volume ids args = do
  source_arg ← or_exit args.source 2
  real ← text (canonicalize source_arg)
  source ← or_exit real 2
  must (file_or_block source) 2
  check_caller_can_open source ids
  sid ← or_exit args.session 2
  exit_if_some (check_session_caller sid ids.human_uid)
  session_flock sid
  leader ← verify_session_leader sid ids.vault_uid
  elim leader [
    | some leader_pid ↦ run_session_add ids args sid source leader_pid
    | none ↦ run_session_bootstrap ids args sid (some source)
  ]

-- `main`, the choice of the action.
unfoldable pub dispatch : Ids → Args → M (Unit {0})
unfolding spawn_compositor run_close_volume empty_session open_volume
dispatch ids args = do
  when args.spawn_compositor (spawn_compositor ids args)
  elim args.close_volume [
    | some label ↦ run_close_volume args.session label ids
    | none ↦ if args.empty_session then empty_session ids args else open_volume ids args
  ]

-- `main`, from the parsed arguments on.
unfoldable pub main : Args → M (Unit {0})
unfolding resolve_caller resolve_vault_user check_runtime_dir dispatch
main args = do
  suppress_core_dumps
  euid ← number geteuid
  unless (elim euid [ none ↦ false | some e ↦ e == 0 ]) (exit 2)
  human ← resolve_caller
  vault ← resolve_vault_user human.0
  check_runtime_dir (setenv_value args (codes "XDG_RUNTIME_DIR")) human.0
  must (create_dir_all (codes "/run/veracage")) 1
  call (set_mode (codes "/run/veracage") 0o755)
  dispatch
      (record {
        human_uid = human.0;
        human_gid = human.1;
        vault_uid = vault.0;
        vault_gid = vault.1;
      })
      args
