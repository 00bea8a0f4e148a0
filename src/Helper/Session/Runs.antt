-- ===== src/Helper/Session/Runs.antt =====
-- Whole bootstraps and adds, as to the guard of Launch/Guarded.
use veracage.Base.{
  ℕ, Text, codes, List, [], ◌∷◌, Bool, true, false, Option, none, some, arith, to_hex,
}
use veracage.Helper.Args.{Args, setenv_value}
use veracage.Helper.Close.{fork_then, exit_if_some}
use veracage.Helper.Close.Keeps.{setns-Keeps, fork_then-Keeps, exit_if_some-Keeps}
use veracage.Helper.Crypt.{crypt_close}
use veracage.Helper.Names.{check_session_caller, vault_hash, random_dm_name}
use veracage.Helper.Launch.{or_exit, continuation}
use veracage.Helper.Launch.Guarded.{is_guarded}
use veracage.Helper.Launch.Keeps.{Keeps, bind-Keeps, then-Keeps}
use veracage.Helper.Session.{
  lock_path, append_volume, key_of, random_bytes, session_child, bootstrap_parent, recover_stale,
  start_lock, record_source, control_path, run_session_bootstrap, refuse_open, open_dms,
  write_launch_request, add_child, add_parent, run_session_add,
}
use veracage.Helper.Sys.{
  setns, exists, read_file, executable, create_dir_all, set_mode, Ids, Os, M, try, text, call, must,
  exit, unless, ◌>>=◌, ◌>>◌,
}
use veracage.Helper.Volume.{mount_volume_at_workspace, workspace, dm_path}
use veracage.Helper.Volume.Keeps.{mount_volume-Keeps}
use veracage.Helper.Session.Keeps.{
  append_volume-Keeps, random_bytes-Keeps, must-Keeps, session_child-Keeps,
}
use veracage.Helper.Session.Parts.{
  bootstrap_parent-Keeps, recover_stale-Keeps, start_lock-Keeps, key_of-Keeps, record_source-Keeps,
}

module _ (os : Os) (ids : Ids) (args : Args) (sid : Text) (source : Option Text)
    (ctl_path : Text) where
  abbrev lock_then : Text → M (Unit {0})
  lock_then gen = do
    dm_name ← record_source sid ids source
    fork_then (session_child ids args sid source dm_name ctl_path)
        (bootstrap_parent sid gen ctl_path)

  lock_then-Keeps : (gen : Text) → Keeps os ids (lock_then gen)
  lock_then-Keeps gen =
      bind-Keeps os ids (record_source sid ids source)
        (λ dm_name.
          fork_then (session_child ids args sid source dm_name ctl_path)
            (bootstrap_parent sid gen ctl_path))
        (record_source-Keeps os ids sid source)
        (λ dm_name.
          fork_then-Keeps os ids (session_child ids args sid source dm_name ctl_path)
            (bootstrap_parent sid gen ctl_path)
            (session_child-Keeps os ids args sid source dm_name ctl_path)
            (bootstrap_parent-Keeps os ids sid gen ctl_path))

  abbrev gen_then : List Text → List ℕ → M (Unit {0})
  gen_then carried gen = do
    start_lock sid ids.human_uid (to_hex gen) carried
    lock_then (to_hex gen)

  gen_then-Keeps : (carried : List Text) (gen : List ℕ) → Keeps os ids (gen_then carried gen)
  gen_then-Keeps carried gen =
      then-Keeps os ids (start_lock sid ids.human_uid (to_hex gen) carried) (lock_then (to_hex gen))
        (start_lock-Keeps os ids sid ids.human_uid (to_hex gen) carried)
        (lock_then-Keeps (to_hex gen))

  abbrev carried_then : List Text → M (Unit {0})
  carried_then carried = do gen ← random_bytes 8; gen_then carried gen

  carried_then-Keeps : (carried : List Text) → Keeps os ids (carried_then carried)
  carried_then-Keeps carried =
      bind-Keeps os ids (random_bytes 8) (gen_then carried) (random_bytes-Keeps os ids 8)
        (gen_then-Keeps carried)

  abbrev workspace_then : M (Unit {0})
  workspace_then = do
    call (set_mode workspace 0o755)
    carried ← recover_stale sid
    carried_then carried

  workspace_then-Keeps : Keeps os ids workspace_then
  unfolding is_guarded
  workspace_then-Keeps t g =
      bind-Keeps os ids (recover_stale sid) carried_then (recover_stale-Keeps os ids sid)
        carried_then-Keeps (set_mode workspace 0o755 ∷ t) g

  abbrev runs_then : Bool → M (Unit {0})
  runs_then runs = do unless runs (exit 2); must (create_dir_all workspace) 1; workspace_then

  runs_then-Keeps : (runs : Bool) → Keeps os ids (runs_then runs)
  unfolding is_guarded
  runs_then-Keeps false t g = g
  runs_then-Keeps true t g =
      then-Keeps os ids (must (create_dir_all workspace) 1) workspace_then
        (must-Keeps os ids (create_dir_all workspace) 1 (λ t g. g)) workspace_then-Keeps t g

  abbrev placed_then : M (Unit {0})
  placed_then = do runs ← try (executable continuation); runs_then runs

  pub placed_then-Keeps : Keeps os ids placed_then
  unfolding is_guarded
  placed_then-Keeps =
      bind-Keeps os ids (try (executable continuation)) runs_then (λ t g. g) runs_then-Keeps

module _ (os : Os) (ids : Ids) (args : Args) (sid : Text) where
  runtime_then-Keeps :
      (source runtime : Option Text)
      → Keeps os ids (
          or_exit runtime 2 >>= λ rt.
          placed_then os ids args sid source (control_path os rt sid source))
  runtime_then-Keeps source none t g = g
  runtime_then-Keeps source (some rt) t g =
      placed_then-Keeps os ids args sid source (control_path os rt sid source) t g

  pub run_session_bootstrap-Keeps :
      (source : Option Text) → Keeps os ids (run_session_bootstrap ids args sid source)
  unfolding run_session_bootstrap
  run_session_bootstrap-Keeps source =
      then-Keeps os ids (exit_if_some (check_session_caller sid ids.human_uid))
        (or_exit (setenv_value args (codes "XDG_RUNTIME_DIR")) 2 >>= λ rt.
          placed_then os ids args sid source (control_path os rt sid source))
        (exit_if_some-Keeps os ids (check_session_caller sid ids.human_uid))
        (runtime_then-Keeps source (setenv_value args (codes "XDG_RUNTIME_DIR")))

  refuse_open-Keeps : (dms : List Text) → Keeps os ids (refuse_open dms)
  unfolding refuse_open is_guarded
  refuse_open-Keeps [] t g = g
  refuse_open-Keeps (dm ∷ dms) t g =
      ground (arith, refuse_open-Keeps dms (exists (dm_path dm) ∷ t) g)

  add_child-Keeps :
      (source dm : Text) (leader_pid : ℕ) → Keeps os ids (add_child ids args source dm leader_pid)
  unfolding add_child
  add_child-Keeps source dm leader_pid =
      then-Keeps os ids (must (setns leader_pid) 1)
        (do mount_volume_at_workspace ids source args.backend args.passphrase dm; exit 0)
        (setns-Keeps os ids leader_pid)
        (then-Keeps os ids (mount_volume_at_workspace ids source args.backend args.passphrase dm)
          (exit 0) (mount_volume-Keeps os ids source args.backend args.passphrase dm) (λ t g. g))

  add_parent-Keeps : (dm : Text) (pid : ℕ) → Keeps os ids (add_parent ids args sid dm pid)
  unfolding add_parent write_launch_request crypt_close is_guarded
  add_parent-Keeps dm pid t g = ground arith

  abbrev appended_then : Text → ℕ → Text → List ℕ → M (Unit {0})
  appended_then source leader_pid skey bs = do
    append_volume sid ids.human_uid (random_dm_name bs) (vault_hash os.digest source) skey
    fork_then (add_child ids args source (random_dm_name bs) leader_pid)
        (add_parent ids args sid (random_dm_name bs))

  appended_then-Keeps :
      (source : Text) (leader_pid : ℕ) (skey : Text) (bs : List ℕ)
      → Keeps os ids (appended_then source leader_pid skey bs)
  appended_then-Keeps source leader_pid skey bs =
      then-Keeps os ids
        (append_volume sid ids.human_uid (random_dm_name bs) (vault_hash os.digest source) skey)
        (fork_then (add_child ids args source (random_dm_name bs) leader_pid)
          (add_parent ids args sid (random_dm_name bs)))
        (append_volume-Keeps os ids sid ids.human_uid (random_dm_name bs)
          (vault_hash os.digest source) skey)
        (fork_then-Keeps os ids (add_child ids args source (random_dm_name bs) leader_pid)
          (add_parent ids args sid (random_dm_name bs))
          (add_child-Keeps source (random_dm_name bs) leader_pid)
          (add_parent-Keeps (random_dm_name bs)))

  abbrev body_then : Text → ℕ → Text → Option Text → M (Unit {0})
  body_then source leader_pid skey body = do
    refuse_open (open_dms os body source skey)
    bs ← random_bytes 6
    appended_then source leader_pid skey bs

  body_then-Keeps :
      (source : Text) (leader_pid : ℕ) (skey : Text) (body : Option Text)
      → Keeps os ids (body_then source leader_pid skey body)
  body_then-Keeps source leader_pid skey body =
      then-Keeps os ids (refuse_open (open_dms os body source skey))
        (random_bytes 6 >>= appended_then source leader_pid skey)
        (refuse_open-Keeps (open_dms os body source skey))
        (bind-Keeps os ids (random_bytes 6) (appended_then source leader_pid skey)
          (random_bytes-Keeps os ids 6) (appended_then-Keeps source leader_pid skey))

  pub run_session_add-Keeps :
      (source : Text) (leader_pid : ℕ)
      → Keeps os ids (run_session_add ids args sid source leader_pid)
  unfolding run_session_add is_guarded
  run_session_add-Keeps source leader_pid =
      bind-Keeps os ids (key_of source)
        (λ skey. text (read_file (lock_path sid)) >>= body_then source leader_pid skey)
        (key_of-Keeps os ids source)
        (λ skey.
          bind-Keeps os ids (text (read_file (lock_path sid))) (body_then source leader_pid skey)
            (λ t g. g) (body_then-Keeps source leader_pid skey))
