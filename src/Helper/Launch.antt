-- ===== src/Helper/Launch.antt =====
-- Running the continuation as the vault user (helper-rs/src/main.rs): the forwarded environment,
-- `drop_to_vault_user`, `check_continuation_argv`, `write_pidfile` and `spawn_compositor`.
pub mod Guarded
pub mod Keeps
use veracage.Base.{
  ℕ, ◌+◌, Text, codes, List, [], ◌∷◌, ◌++◌, Bool, true, false, ◌&&◌, ◌||◌, not, Option, none, some,
  if◌then◌else◌, text_eq, contains_text, contains_char, split_once, to_dec,
}
use veracage.Helper.Args.{Args, setenv_value}
use veracage.Helper.Sys.{
  Call, exists, executable, remove_file, create_dir_all, create_new, set_mode, chown, try_chown,
  initgroups, setresgid, setresuid, umask, set_var, remove_var, exec, connect_host_wayland, Ids, Os,
  M, pure, exit, ◌>>=◌, ◌>>◌, try, call, number, must, when, unless,
}

-- `ALLOWED_SETENV`
abbrev pub allowed_setenv : List Text
allowed_setenv =
    codes "WAYLAND_DISPLAY"
    ∷ codes "XDG_RUNTIME_DIR"
    ∷ codes "XDG_SESSION_TYPE"
    ∷ codes "DISPLAY"
    ∷ codes "LANG"
    ∷ codes "XCURSOR_THEME"
    ∷ codes "XCURSOR_SIZE"
    ∷ codes "VERACAGE_THEME"
    ∷ codes "VERACAGE_FONT_FILE"
    ∷ codes "VERACAGE_FONT_SIZE"
    ∷ codes "VERACAGE_WINDOW_SIZE"
    ∷ codes "VERACAGE_DEBUG"
    ∷ codes "VERACAGE_LOG_DIR"
    ∷ []

abbrev pub forward : Option (Text × Text) → M (Unit {0})
forward none = pure tt
forward (some (k, v)) = when (contains_text allowed_setenv k) (call (set_var k v))

-- The loop over `args.setenv` before an exec.
unfoldable pub forward_env : List Text → M (Unit {0})
forward_env [] = pure tt
forward_env (kv ∷ kvs) = do forward (split_once b'=' kv); forward_env kvs

-- `drop_to_vault_user`
unfoldable pub drop_to_vault_user : Ids → M (Unit {0})
drop_to_vault_user ids = do
  must (initgroups ids.vault_gid) 1
  must (setresgid ids.vault_gid) 1
  must (setresuid ids.vault_uid) 1

-- `continuation`, with the path of a build that pins none.
abbrev pub continuation : Text
continuation = codes "/usr/local/bin/veracage"

-- `check_continuation_argv`: whether it returns.
unfoldable pub continuation_ok : List Text → Bool
continuation_ok [] = false
continuation_ok (a ∷ rest) = text_eq a (codes "_leader") || text_eq a (codes "_compositor")

-- The check and the `exec`. One that works does not return: its run ends with the call, and the exit
-- stands for that end, whatever the code; one that fails exits with 127.
unfoldable pub run_continuation : List Text → M (Unit {0})
unfolding continuation_ok
run_continuation argv = do
  unless (continuation_ok argv) (exit 2)
  call (exec continuation argv)
  exit 127

abbrev pub compositor_runtime : Text
compositor_runtime = codes "/run/veracage/rt"

abbrev pub pub_dir : Text
pub_dir = codes "/run/veracage/pub"

abbrev pub in_runtime : Text → Text
in_runtime name = compositor_runtime ++ b'/' ∷ name

-- `write_pidfile`; the text is the pid of this process.
abbrev pub write_pidfile : Text → Ids → M (Unit {0})
write_pidfile path ids = do
  call (remove_file path)
  made ← try (create_new path (codes "pid"))
  when made (call (try_chown path ids.vault_uid ids.vault_gid))

abbrev pub or_exit {ℓ} : {A : Type ℓ} → Option A → ℕ → M A
or_exit none code = exit code
or_exit (some a) code = pure a

-- The runtime directories of `spawn_compositor`.
unfoldable pub prepare_runtime : Ids → M (Unit {0})
prepare_runtime ids = do
  must (create_dir_all compositor_runtime) 1
  call (set_mode compositor_runtime 0o711)
  must (chown compositor_runtime ids.vault_uid ids.vault_gid) 1
  published ← try (create_dir_all pub_dir)
  when published
      (do call (set_mode pub_dir 0o755); must (chown pub_dir ids.human_uid ids.human_gid) 1)

-- From the drop of the privileges on.
unfoldable pub become_compositor : Ids → Args → ℕ → M (Unit {0})
unfolding drop_to_vault_user forward_env run_continuation
become_compositor ids args wl_fd = do
  drop_to_vault_user ids
  forward_env args.setenv
  call (set_var (codes "XDG_RUNTIME_DIR") compositor_runtime)
  call (remove_var (codes "WAYLAND_DISPLAY"))
  call (set_var (codes "WAYLAND_SOCKET") (to_dec wl_fd))
  call (umask 0o077)
  runs ← try (executable continuation)
  unless runs (exit 2)
  run_continuation args.rest

-- The connection of `spawn_compositor` to the host compositor.
unfoldable pub host_socket : Ids → Option Text → Option Text → M ℕ
host_socket ids runtime disp = do
  rt ← or_exit runtime 2
  name ← or_exit disp 2
  when (contains_char b'/' name) (exit 2)
  fd ← number (connect_host_wayland (rt ++ b'/' ∷ name) ids.human_uid)
  or_exit fd 1

abbrev pub record_pid : Ids → M (Unit {0})
record_pid ids = do
  call (remove_file (in_runtime (codes "wl-vc")))
  write_pidfile (in_runtime (codes "compositor.pid")) ids

-- `spawn_compositor`
unfoldable pub spawn_compositor : Ids → Args → M (Unit {0})
unfolding prepare_runtime host_socket become_compositor
spawn_compositor ids args = do
  prepare_runtime ids
  wl_fd ←
      host_socket ids (setenv_value args (codes "XDG_RUNTIME_DIR"))
        (setenv_value args (codes "WAYLAND_DISPLAY"))
  record_pid ids
  become_compositor ids args wl_fd
