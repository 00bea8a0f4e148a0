-- ===== src/Helper/Launch/Guarded.antt =====
-- What the helper hands over, to what program, as which user and in which environment.
use veracage.Base.{
  ℕ, Text, codes, List, [], ◌∷◌, Bool, true, false, ◌&&◌, ◌||◌, Option, none, some, text_eq,
  text_eq_refl, contains_text, split_once, to_dec, arith, ◌≡◌, ◌==◌, ==-refl,
}
use veracage.Helper.Args.{Args, setenv_value}
use veracage.Helper.Sys.{
  Call, set_var, remove_var, umask, executable, exec, setresuid, Ids, Os, Trace, M, Ends, exit, try,
  unless, call, did, ◌>>=◌, ◌>>◌,
}
use veracage.Helper.Sys.Rules.{bind-Ends}
use veracage.Helper.Launch.{
  allowed_setenv, forward, forward_env, drop_to_vault_user, continuation, continuation_ok,
  run_continuation, prepare_runtime, become_compositor, spawn_compositor, compositor_runtime,
  record_pid, host_socket,
}

-- The names that the helper sets besides those that it forwards.
abbrev pub own_names : List Text
own_names =
    codes "WAYLAND_SOCKET"
    ∷ codes "VERACAGE_CONTROL_FD"
    ∷ codes "VERACAGE_VAULT_RUNTIME"
    ∷ codes "VERACAGE_VOLUME_LABEL"
    ∷ codes "VERACAGE_EXCHANGE"
    ∷ []

abbrev pub is_setresuid : ℕ → Call → Bool
is_setresuid uid (setresuid u) = u == uid
is_setresuid uid _ = false

-- Every variable set is a listed one; every program executed is the continuation, run as one of the
-- two subcommands, after the uid was changed to the vault user's.
unfoldable pub is_guarded : Os → Ids → Trace → Bool
is_guarded os ids [] = true
is_guarded os ids (set_var k v ∷ t) =
    (contains_text allowed_setenv k || contains_text own_names k) && is_guarded os ids t
is_guarded os ids (exec p argv ∷ t) =
    text_eq p continuation
    && continuation_ok argv
    && did os (is_setresuid ids.vault_uid) t
    && is_guarded os ids t
is_guarded os ids (c ∷ t) = is_guarded os ids t

module _ (os : Os) (ids : Ids) where
  -- The state from the change of the uid on.
  abbrev pub Dropped : Trace → Type 0
  Dropped t = (is_guarded os ids t ≡ true) × (did os (is_setresuid ids.vault_uid) t ≡ true)

  abbrev pub Guarded : ℕ → Trace → Type 0
  Guarded c t = is_guarded os ids t ≡ true

  pub drop-Dropped :
      (t : Trace)
      → is_guarded os ids t ≡ true
      → Ends (λ a u. Dropped u) Guarded (drop_to_vault_user ids os t)
  unfolding drop_to_vault_user is_guarded did
  drop-Dropped t h = ground (arith, ==-refl ids.vault_uid)

  forward-Dropped :
      (kv : Option (Text × Text)) (t : Trace)
      → Dropped t
      → Ends (λ a u. Dropped u) Guarded (forward kv os t)
  unfolding is_guarded did
  forward-Dropped none t h = ground arith
  forward-Dropped (some (k, v)) t h = ground arith

  pub forward_env-Dropped :
      (kvs : List Text) (t : Trace)
      → Dropped t
      → Ends (λ a u. Dropped u) Guarded (forward_env kvs os t)
  unfolding forward_env
  forward_env-Dropped [] t h = h
  forward_env-Dropped (kv ∷ kvs) t h =
      bind-Ends (λ a u. Dropped u) Guarded (Ends (λ a u. Dropped u) Guarded)
        (forward (split_once b'=' kv)) (λ _. forward_env kvs) os t
        (forward-Dropped (split_once b'=' kv) t h) (λ a u k. forward_env-Dropped kvs u k)
        (λ c u k. k)

  pub run_continuation-Guarded :
      (argv : List Text) (t : Trace)
      → Dropped t
      → Ends (λ a u. ⊥) Guarded (run_continuation argv os t)
  unfolding run_continuation is_guarded did
  run_continuation-Guarded argv t h = ground (arith, text_eq_refl continuation)

module _ (os : Os) (ids : Ids) (args : Args) (wl_fd : ℕ) where
  abbrev env_then : M (Unit {0})
  env_then = do
    call (set_var (codes "XDG_RUNTIME_DIR") compositor_runtime)
    call (remove_var (codes "WAYLAND_DISPLAY"))
    call (set_var (codes "WAYLAND_SOCKET") (to_dec wl_fd))
    call (umask 0o077)
    runs ← try (executable continuation)
    unless runs (exit 2)
    run_continuation args.rest

  env_then-Guarded :
      (t : Trace) → Dropped os ids t → Ends (λ a u. ⊥) (Guarded os ids) (env_then os t)
  unfolding is_guarded did contains_text text_eq
  env_then-Guarded t h =
      let u =
        umask 0o077
        ∷ set_var (codes "WAYLAND_SOCKET") (to_dec wl_fd)
        ∷ remove_var (codes "WAYLAND_DISPLAY")
        ∷ set_var (codes "XDG_RUNTIME_DIR") compositor_runtime
        ∷ t in
      ground
        (arith, run_continuation-Guarded os ids args.rest (executable continuation ∷ u) (h.0, h.1))

  become_compositor-Guarded :
      (t : Trace)
      → is_guarded os ids t ≡ true
      → Ends (λ a u. ⊥) (Guarded os ids) (become_compositor ids args wl_fd os t)
  unfolding become_compositor
  become_compositor-Guarded t h =
      bind-Ends (λ a u. Dropped os ids u) (Guarded os ids) (Ends (λ a u. ⊥) (Guarded os ids))
        (drop_to_vault_user ids) (λ _. do forward_env args.setenv; env_then) os t
        (drop-Dropped os ids t h)
        (λ a u k.
          bind-Ends (λ a u. Dropped os ids u) (Guarded os ids) (Ends (λ a u. ⊥) (Guarded os ids))
            (forward_env args.setenv) (λ _. env_then) os u
            (forward_env-Dropped os ids args.setenv u k) (λ a v l. env_then-Guarded v l)
            (λ c v l. l))
        (λ c u k. k)

module _ (os : Os) (ids : Ids) (args : Args) where
  prepare_runtime-Guarded :
      (t : Trace)
      → is_guarded os ids t ≡ true
      → Ends (λ a u. is_guarded os ids u ≡ true) (Guarded os ids) (prepare_runtime ids os t)
  unfolding prepare_runtime is_guarded
  prepare_runtime-Guarded t h = ground arith

  record_pid-Guarded :
      (t : Trace)
      → is_guarded os ids t ≡ true
      → Ends (λ a u. is_guarded os ids u ≡ true) (Guarded os ids) (record_pid ids os t)
  unfolding is_guarded
  record_pid-Guarded t h = ground arith

  abbrev connected_then : ℕ → M (Unit {0})
  connected_then wl_fd = do record_pid ids; become_compositor ids args wl_fd

  connected_then-Guarded :
      (wl_fd : ℕ) (t : Trace)
      → is_guarded os ids t ≡ true
      → Ends (λ a u. ⊥) (Guarded os ids) (connected_then wl_fd os t)
  connected_then-Guarded wl_fd t h =
      bind-Ends (λ a u. is_guarded os ids u ≡ true) (Guarded os ids)
        (Ends (λ a u. ⊥) (Guarded os ids)) (record_pid ids) (λ _. become_compositor ids args wl_fd)
        os t (record_pid-Guarded t h) (λ a u k. become_compositor-Guarded os ids args wl_fd u k)
        (λ c u k. k)

  host_socket-Guarded :
      (runtime disp : Option Text) (t : Trace)
      → is_guarded os ids t ≡ true
      → Ends
          (λ a u. is_guarded os ids u ≡ true)
          (Guarded os ids)
          (host_socket ids runtime disp os t)
  unfolding host_socket is_guarded
  host_socket-Guarded runtime disp t h = ground arith

  abbrev prepared_then : M (Unit {0})
  prepared_then = do
    wl_fd ←
        host_socket ids (setenv_value args (codes "XDG_RUNTIME_DIR"))
          (setenv_value args (codes "WAYLAND_DISPLAY"))
    connected_then wl_fd

  prepared_then-Guarded :
      (t : Trace)
      → is_guarded os ids t ≡ true
      → Ends (λ a u. ⊥) (Guarded os ids) (prepared_then os t)
  prepared_then-Guarded t h =
      bind-Ends (λ a u. is_guarded os ids u ≡ true) (Guarded os ids)
        (Ends (λ a u. ⊥) (Guarded os ids))
        (host_socket ids (setenv_value args (codes "XDG_RUNTIME_DIR"))
          (setenv_value args (codes "WAYLAND_DISPLAY")))
        connected_then os t
        (host_socket-Guarded (setenv_value args (codes "XDG_RUNTIME_DIR"))
          (setenv_value args (codes "WAYLAND_DISPLAY")) t h)
        connected_then-Guarded (λ c u k. k)

  -- The start of the compositor, from a guarded trace, always ends in an exit, with a guarded
  -- trace: every program executed is the continuation as `_leader` or `_compositor`, after the
  -- uid was changed to the vault user's, and every variable set is one of the forwarded names
  -- or of the helper's own.
  pub spawn_compositor-IsGuarded :
      (t : Trace)
      → is_guarded os ids t ≡ true
      → Ends (λ a u. ⊥) (Guarded os ids) (spawn_compositor ids args os t)
  unfolding spawn_compositor
  spawn_compositor-IsGuarded t h =
      bind-Ends (λ a u. is_guarded os ids u ≡ true) (Guarded os ids)
        (Ends (λ a u. ⊥) (Guarded os ids)) (prepare_runtime ids) (λ _. prepared_then) os t
        (prepare_runtime-Guarded t h) (λ a u k. prepared_then-Guarded u k) (λ c u k. k)
