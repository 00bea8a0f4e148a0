-- ===== src/Helper/Session/Leader.antt =====
-- The hand-over to the session leader.
use veracage.Base.{ℕ, Text, codes, [], ◌∷◌, ◌++◌, true, text_eq, contains_text, to_dec, arith, ◌≡◌}
use veracage.Helper.Args.{Args}
use veracage.Helper.Leader.{session_path}
use veracage.Helper.Volume.{Mounted}
use veracage.Helper.Sys.{set_var, Ids, Os, Trace, M, Ends, call, did, ◌>>◌}
use veracage.Helper.Sys.Rules.{bind-Ends}
use veracage.Helper.Launch.{drop_to_vault_user, forward_env, run_continuation}
use veracage.Helper.Launch.Guarded.{
  is_guarded, Dropped, Guarded, drop-Dropped, forward_env-Dropped, run_continuation-Guarded,
}
use veracage.Helper.Session.{leader_socket, become_leader}

module _ (os : Os) (ids : Ids) (args : Args) (sid : Text) (m : Mounted) (ctl_fd : ℕ) where
  abbrev env_then : M (Unit {0})
  env_then = do
    call (set_var (codes "VERACAGE_CONTROL_FD") (to_dec ctl_fd))
    call (set_var (codes "VERACAGE_VAULT_RUNTIME") (session_path sid (codes ".run")))
    call (set_var (codes "VERACAGE_VOLUME_LABEL") m.label)
    run_continuation (args.rest ++ codes "--mountpoint" ∷ m.mountpoint ∷ [])

  env_then-Guarded :
      (t : Trace) → Dropped os ids t → Ends (λ a u. ⊥) (Guarded os ids) (env_then os t)
  unfolding is_guarded did contains_text text_eq
  env_then-Guarded t h =
      run_continuation-Guarded os ids (args.rest ++ codes "--mountpoint" ∷ m.mountpoint ∷ [])
        (set_var (codes "VERACAGE_VOLUME_LABEL") m.label
          ∷ set_var (codes "VERACAGE_VAULT_RUNTIME") (session_path sid (codes ".run"))
          ∷ set_var (codes "VERACAGE_CONTROL_FD") (to_dec ctl_fd)
          ∷ t)
        (h.0, h.1)

  abbrev dropped_then : M (Unit {0})
  dropped_then = do forward_env args.setenv; env_then

  dropped_then-Guarded :
      (t : Trace) → Dropped os ids t → Ends (λ a u. ⊥) (Guarded os ids) (dropped_then os t)
  dropped_then-Guarded t h =
      bind-Ends (λ a u. Dropped os ids u) (Guarded os ids) (Ends (λ a u. ⊥) (Guarded os ids))
        (forward_env args.setenv) (λ _. env_then) os t (forward_env-Dropped os ids args.setenv t h)
        (λ a u k. env_then-Guarded u k) (λ c u k. k)

  abbrev socket_then : M (Unit {0})
  socket_then = do drop_to_vault_user ids; dropped_then

  socket_then-Guarded :
      (t : Trace) → is_guarded os ids t ≡ true → Ends (λ a u. ⊥) (Guarded os ids) (socket_then os t)
  socket_then-Guarded t h =
      bind-Ends (λ a u. Dropped os ids u) (Guarded os ids) (Ends (λ a u. ⊥) (Guarded os ids))
        (drop_to_vault_user ids) (λ _. dropped_then) os t (drop-Dropped os ids t h)
        (λ a u k. dropped_then-Guarded u k) (λ c u k. k)

module _ (os : Os) (ids : Ids) (args : Args) (sid ctl_path : Text) (m : Mounted) where
  leader_socket-Guarded :
      (t : Trace)
      → is_guarded os ids t ≡ true
      → Ends
          (λ a u. is_guarded os ids u ≡ true)
          (Guarded os ids)
          (leader_socket ids sid ctl_path os t)
  unfolding leader_socket is_guarded
  leader_socket-Guarded t h = ground arith

  -- The session leader's hand-over, from a guarded trace, always ends in an exit (an exec that
  -- worked does not return), with a guarded trace: every program executed is the continuation
  -- as `_leader` or `_compositor`, after the uid was changed to the vault user's, and every
  -- variable set is a forwarded name or one of the helper's own.
  pub become_leader-IsGuarded :
      (t : Trace)
      → is_guarded os ids t ≡ true
      → Ends (λ a u. ⊥) (Guarded os ids) (become_leader ids args sid ctl_path m os t)
  unfolding become_leader
  become_leader-IsGuarded t h =
      bind-Ends (λ a u. is_guarded os ids u ≡ true) (Guarded os ids)
        (Ends (λ a u. ⊥) (Guarded os ids)) (leader_socket ids sid ctl_path)
        (λ ctl_fd. socket_then os ids args sid m ctl_fd) os t (leader_socket-Guarded t h)
        (λ ctl_fd u k. socket_then-Guarded os ids args sid m ctl_fd u k) (λ c u k. k)
