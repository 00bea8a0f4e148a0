-- ===== src/Helper/Session.antt =====
-- Sessions (helper-rs/src/main.rs): `close_all_session_dms`, `session_child`,
-- `run_session_bootstrap`, `run_session_add` and `write_launch_request`. The bodies of the lock
-- file are those of `Lock`; `fork` answers as in the source.
pub mod Leader
pub mod Guard
pub mod Reopen
pub mod Teardown
pub mod Keeps
pub mod Parts
pub mod Runs
use veracage.Base.{
  ℕ, zero, suc, ◌+◌, Text, codes, List, [], ◌∷◌, ◌++◌, Bool, true, false, ◌&&◌, ◌||◌, not, Option,
  none, some, if◌then◌else◌, leb, text_eq, is_empty, byte_len, to_dec, to_hex, lines, unlines,
  first_or,
}
use veracage.Helper.Names.{check_session_caller, vault_hash, random_dm_name}
use veracage.Helper.Lock.{
  header_line, volume_line, lock_generation, create_session_lock, recorded_dms, lock_survivors,
  lock_dms_for_source, lock_dms_for_vhash,
}
use veracage.Helper.Crypt.{Backend, crypt_close}
use veracage.Helper.Volume.{
  Mounted, workspace, dm_path, mount_volume_at_workspace, or_empty, exists_now,
}
use veracage.Helper.Leader.{session_path, session_flock, words_onto, proc_starttime}
use veracage.Helper.Close.{fork_then, exit_if_some}
use veracage.Helper.Args.{Args, setenv_value, rest_value}
use veracage.Helper.Launch.{
  continuation, forward_env, drop_to_vault_user, run_continuation, or_exit,
}
use veracage.Helper.Sys.{
  Call, exists, executable, read_file, remove_file, remove_dir, remove_dir_all, create_dir_all,
  create_new, append_file, set_mode, chown, try_chown, source_key, unshare, make_slave, mount_tmpfs,
  idmap_mount, unlock, wait_for, setns, set_var, create_control_socket, validated_exchange, urandom,
  Ids, Os, M, done, pure, exit, ◌>>=◌, ◌>>◌, try, call, number, text, must, when, unless,
}

abbrev pub lock_path : Text → Text
lock_path sid = session_path sid (codes ".lock")

-- The loop of `close_all_session_dms`.
unfoldable pub close_each : List Text → M Bool
close_each [] = pure true
close_each (dm ∷ dms) = do
  here ← try (exists (dm_path dm))
  closed ← (if here then crypt_close dm else pure true)
  rest ← close_each dms
  pure (closed && rest)

-- `close_all_session_dms`
unfoldable pub close_all_session_dms : Text → M Bool
unfolding close_each
close_all_session_dms sid = do
  body ← text (read_file (lock_path sid))
  elim body [ none ↦ pure true | some b ↦ close_each (recorded_dms b) ]

-- `append_session_volume` on the file: the header goes into a file that was just created.
unfoldable pub append_volume : Text → ℕ → Text → Text → Text → M (Unit {0})
append_volume sid human_uid dm vhash skey = do
  body ← text (read_file (lock_path sid))
  when (is_empty (or_empty body))
      (must (append_file (lock_path sid) (unlines (header_line human_uid ∷ []))) 1)
  must (append_file (lock_path sid) (unlines (volume_line dm [] vhash skey ∷ []))) 1

-- `source_key`, the empty text where the source has no metadata.
abbrev pub key_of : Text → M Text
key_of source = do k ← text (source_key source); pure (or_empty k)

abbrev bytes_of : Option Text → List ℕ
bytes_of none = []
bytes_of (some bs) = bs

-- `random_hex`, which fails with 1.
unfoldable pub random_bytes : ℕ → M (List ℕ)
random_bytes n = do bs ← text (urandom n); or_exit bs 1

-- The shared directory of `session_child`.
unfoldable pub mount_exchange : Ids → Text → Option Text → M (Unit {0})
mount_exchange ids sid none = pure tt
mount_exchange ids sid (some dir) = do
  owned ← try (validated_exchange dir ids.human_uid)
  when owned (do
    let target = session_path sid (codes ".x")
    call (create_dir_all target)
    call (set_mode target 0o700)
    mapped ← try (idmap_mount dir target ids.human_uid ids.human_gid ids.vault_uid ids.vault_gid 14)
    when mapped (call (set_var (codes "VERACAGE_EXCHANGE") target)))

abbrev pub mount_source : Ids → Args → Option Text → Option Text → M Mounted
mount_source ids args (some source) (some dm) =
    mount_volume_at_workspace ids source args.backend args.passphrase dm
mount_source ids args _ _ = pure (record { mountpoint = workspace; label = [] })

-- The control socket and the leader's runtime directory, which root makes.
unfoldable pub leader_socket : Ids → Text → Text → M ℕ
leader_socket ids sid ctl_path = do
  fd ← number (create_control_socket ctl_path ids.human_uid)
  ctl_fd ← or_exit fd 1
  let vault_run = session_path sid (codes ".run")
  must (create_dir_all vault_run) 1
  call (set_mode vault_run 0o700)
  must (chown vault_run ids.vault_uid ids.vault_gid) 1
  pure ctl_fd

-- From the control socket on.
unfoldable pub become_leader : Ids → Args → Text → Text → Mounted → M (Unit {0})
unfolding leader_socket drop_to_vault_user forward_env run_continuation
become_leader ids args sid ctl_path m = do
  ctl_fd ← leader_socket ids sid ctl_path
  drop_to_vault_user ids
  forward_env args.setenv
  call (set_var (codes "VERACAGE_CONTROL_FD") (to_dec ctl_fd))
  call (set_var (codes "VERACAGE_VAULT_RUNTIME") (session_path sid (codes ".run")))
  call (set_var (codes "VERACAGE_VOLUME_LABEL") m.label)
  run_continuation (args.rest ++ codes "--mountpoint" ∷ m.mountpoint ∷ [])

-- `session_child`
unfoldable pub session_child : Ids → Args → Text → Option Text → Option Text → Text → M (Unit {0})
unfolding mount_exchange
session_child ids args sid source dm_name ctl_path = do
  must (unshare (codes "/")) 1
  must (make_slave (codes "/")) 1
  must (mount_tmpfs workspace) 1
  m ← mount_source ids args source dm_name
  mount_exchange ids sid args.exchange
  become_leader ids args sid ctl_path m

abbrev pub is_gen : Text → Option Text → Bool
is_gen gen none = false
is_gen gen (some g) = text_eq g gen

abbrev pub generation_in : Option Text → Option Text
generation_in none = none
generation_in (some body) = lock_generation body

abbrev pub first_word : Option Text → Text
first_word none = []
first_word (some body) = first_or [] (words_onto [] body)

-- The end of `run_session_bootstrap`, when the leader has exited with `rc`: only a lock that still
-- has this bootstrap's generation is torn down.
unfoldable pub teardown : Text → Text → ℕ → Text → ℕ → M (Unit {0})
unfolding close_all_session_dms
teardown sid gen pid ctl_path rc = do
  session_flock sid
  body ← text (read_file (lock_path sid))
  unless (is_gen gen (generation_in body)) (exit rc)
  all_closed ← close_all_session_dms sid
  call (remove_dir_all (session_path sid (codes ".run")))
  call (remove_dir (session_path sid (codes ".x")))
  call (remove_file ctl_path)
  pidfile ← text (read_file (session_path sid (codes ".pid")))
  when (text_eq (first_word pidfile) (to_dec pid))
      (call (remove_file (session_path sid (codes ".pid"))))
  when all_closed (call (remove_file (lock_path sid)))
  exit rc

-- `write_session_pidfile`
abbrev pub write_session_pidfile : Text → ℕ → M (Unit {0})
write_session_pidfile sid pid = do
  st ← proc_starttime pid
  call (remove_file (session_path sid (codes ".pid")))
  call (
      create_new (session_path sid (codes ".pid"))
        (unlines (to_dec pid ∷ to_dec (elim st [ none ↦ 0 | some s ↦ s ]) ∷ [])))

-- The parent of `run_session_bootstrap`.
unfoldable pub bootstrap_parent : Text → Text → Text → ℕ → M (Unit {0})
bootstrap_parent sid gen ctl_path pid = do
  write_session_pidfile sid pid
  call (unlock (session_path sid (codes ".flock")))
  rc ← number (wait_for pid)
  teardown sid gen pid ctl_path (elim rc [ none ↦ 1 | some c ↦ c ])

-- The recovery of a stale lock: the lines of the devices that would not close.
unfoldable pub recover_stale : Text → M (List Text)
unfolding close_all_session_dms
recover_stale sid = do
  stale ← try (exists (lock_path sid))
  if not stale then pure [] else do
    all_closed ← close_all_session_dms sid
    carried ←
        (if all_closed then pure [] else do
          body ← text (read_file (lock_path sid))
          (λ os t. done (lock_survivors (or_empty body) (λ dm. exists_now os t (dm_path dm))) t))
    call (remove_file (lock_path sid))
    pure carried

-- `create_session_lock` and `append_session_lines` on the file.
unfoldable pub start_lock : Text → ℕ → Text → List Text → M (Unit {0})
start_lock sid human_uid gen carried = do
  must (create_new (lock_path sid) (create_session_lock human_uid gen)) 1
  unless (is_empty carried) (call (append_file (lock_path sid) (unlines carried)))

abbrev pub record_source : Text → Ids → Option Text → M (Option Text)
record_source sid ids none = pure none
record_source sid ids (some source) = do
  bs ← random_bytes 6
  skey ← key_of source
  (λ os. append_volume sid ids.human_uid (random_dm_name bs) (vault_hash os.digest source) skey os)
  pure (some (random_dm_name bs))

abbrev pub control_path : Os → Text → Text → Option Text → Text
control_path os runtime sid none =
    runtime ++ (codes "/veracage/sessions/session-" ++ (sid ++ codes ".sock"))
control_path os runtime sid (some source) =
    runtime ++ (codes "/veracage/sessions/" ++ (vault_hash os.digest source ++ codes ".sock"))

-- `run_session_bootstrap`
unfoldable pub run_session_bootstrap : Ids → Args → Text → Option Text → M (Unit {0})
unfolding recover_stale start_lock append_volume bootstrap_parent
run_session_bootstrap ids args sid source os =
    (do
      exit_if_some (check_session_caller sid ids.human_uid)
      runtime ← or_exit (setenv_value args (codes "XDG_RUNTIME_DIR")) 2
      let ctl_path = control_path os runtime sid source
      runs ← try (executable continuation)
      unless runs (exit 2)
      must (create_dir_all workspace) 1
      call (set_mode workspace 0o755)
      carried ← recover_stale sid
      gen ← random_bytes 8
      start_lock sid ids.human_uid (to_hex gen) carried
      dm_name ← record_source sid ids source
      fork_then (session_child ids args sid source dm_name ctl_path)
          (bootstrap_parent sid (to_hex gen) ctl_path))
      os

-- The duplicate-open guard: exit 2 at the first device that is still there.
unfoldable pub refuse_open : List Text → M (Unit {0})
refuse_open [] = pure tt
refuse_open (dm ∷ dms) = do here ← try (exists (dm_path dm)); when here (exit 2); refuse_open dms

-- `write_launch_request`
unfoldable pub write_launch_request : Text → Option Text → Ids → M (Unit {0})
write_launch_request sid none ids = pure tt
write_launch_request sid (some spec) ids = when (leb (byte_len spec) 4096) (do
  let path = session_path sid (codes ".run/launch.req")
  call (remove_file path)
  written ← try (create_new path spec)
  if not written then call (remove_file path) else do
    owned ← try (chown path ids.vault_uid ids.vault_gid)
    unless owned (call (remove_file path)))

-- The child and the parent of `run_session_add`.
unfoldable pub add_child : Ids → Args → Text → Text → ℕ → M (Unit {0})
add_child ids args source dm_name leader_pid = do
  must (setns leader_pid) 1
  mount_volume_at_workspace ids source args.backend args.passphrase dm_name
  exit 0

unfoldable pub add_parent : Ids → Args → Text → Text → ℕ → M (Unit {0})
unfolding write_launch_request
add_parent ids args sid dm_name pid = do
  waited ← number (wait_for pid)
  let rc : ℕ = elim waited [ none ↦ 1 | some c ↦ c ]
  elim rc [
    | zero ↦ do write_launch_request sid (rest_value args.rest (codes "--first")) ids; exit 0
    | suc n ↦ do
      here ← try (exists (dm_path dm_name))
      when here (do crypt_close dm_name; pure tt)
      exit (suc n)
  ]

abbrev pub open_dms : Os → Option Text → Text → Text → List Text
open_dms os body source skey =
    lock_dms_for_source (or_empty body) skey
    ++ lock_dms_for_vhash (or_empty body) (vault_hash os.digest source)

-- `run_session_add`
unfoldable pub run_session_add : Ids → Args → Text → Text → ℕ → M (Unit {0})
unfolding refuse_open append_volume add_child add_parent
run_session_add ids args sid source leader_pid os =
    (do
      skey ← key_of source
      body ← text (read_file (lock_path sid))
      refuse_open (open_dms os body source skey)
      bs ← random_bytes 6
      append_volume sid ids.human_uid (random_dm_name bs) (vault_hash os.digest source) skey
      fork_then (add_child ids args source (random_dm_name bs) leader_pid)
          (add_parent ids args sid (random_dm_name bs)))
      os
