-- ===== src/Helper/Main/Guarded.antt =====
-- What a run of the helper hands over, and to which user.
use veracage.Base.{
  ℕ, Text, codes, [], ◌∷◌, ◌++◌, Bool, true, false, ◌&&◌, ◌||◌, Option, none, some, arith, ◌≡◌, ◌≢◌,
  refl, ◌==◌, text_eq, parse_below, u32_limit, ◌⊎◌, inl, inr,
}
use veracage.Helper.Args.{Args, setenv_value}
use veracage.Helper.Launch.Guarded.{is_guarded, Guarded}
use veracage.Helper.Sys.{
  Call, write_file, exec, set_var, getpwnam_uid, env_var, made, no_core_limit, create_dir_all,
  set_mode, geteuid, Ids, Os, Trace, M, Outcome, done, exited, Ends, exit, call, must, unless,
  ◌>>=◌, ◌>>◌,
}
use veracage.Helper.Sys.Rules.{bind-Ends}
use veracage.Helper.Main.{resolve_caller, resolve_vault_user, check_runtime_dir, dispatch, main}
use veracage.Helper.Main.Dispatch.{dispatch-Keeps}

-- A program executed, or a variable set.
abbrev pub is_handover : Call → Bool
is_handover (exec p argv) = true
is_handover (set_var k v) = true
is_handover _ = false

abbrev is_number : ℕ → Option ℕ → Bool
is_number n none = false
is_number n (some m) = m == n

-- The answer to this call is what makes `v` the uid of the user `veracage`, and `h` the uid that
-- polkit gave for the caller.
abbrev tells_vault : Os → ℕ → Call → Trace → Bool
tells_vault os v (getpwnam_uid name) t =
    text_eq name (codes "veracage") && is_number v (os.number t (getpwnam_uid name))
tells_vault os v _ t = false

abbrev is_decimal : ℕ → Option Text → Bool
is_decimal h none = false
is_decimal h (some raw) = is_number h (parse_below u32_limit raw)

abbrev tells_caller : Os → ℕ → Call → Trace → Bool
tells_caller os h (env_var name) t =
    text_eq name (codes "PKEXEC_UID") && is_decimal h (os.text t (env_var name))
tells_caller os h _ t = false

unfoldable pub knows_vault : Os → ℕ → Trace → Bool
knows_vault os v [] = false
knows_vault os v (c ∷ t) = tells_vault os v c t || knows_vault os v t

unfoldable pub knows_caller : Os → ℕ → Trace → Bool
knows_caller os h [] = false
knows_caller os h (c ∷ t) = tells_caller os h c t || knows_caller os h t

-- Nothing has been handed over.
abbrev IsUnused : Trace → Type 0
IsUnused t = made is_handover t ≡ false

unused-guarded : (os : Os) (i : Ids) (t : Trace) → IsUnused t → is_guarded os i t ≡ true
unfolding made is_guarded
unused-guarded os i [] h = refl
unused-guarded os i (exec p argv ∷ t) h = cc
unused-guarded os i (set_var k v ∷ t) h = cc
unused-guarded os i (c ∷ t) h = unused-guarded os i t h

abbrev ids_of : ℕ × ℕ → ℕ × ℕ → Ids
ids_of human vault = record {
  human_uid = human.0;
  human_gid = human.1;
  vault_uid = vault.0;
  vault_gid = vault.1;
}

abbrev trace_of : Outcome (Unit {0}) → Trace
trace_of (done a u) = u
trace_of (exited c u) = u

-- The run `o` is the dispatch of the arguments from the trace `t`, in which the system gave its two
-- users: the vault user is neither root nor the caller, and what is handed over is guarded.
pub record IsRunOf (os : Os) (args : Args) (t : Trace) (o : Outcome (Unit {0})) : Type 0 where
  pub ids : Ids
  pub vault_known : knows_vault os ids.vault_uid t ≡ true
  pub caller_known : knows_caller os ids.human_uid t ≡ true
  pub not_root : ids.vault_uid ≢ 0
  pub not_caller : ids.vault_uid ≢ ids.human_uid
  pub dispatched : dispatch ids args os t ≡ o
  pub guarded : is_guarded os ids (trace_of o) ≡ true

module _ (os : Os) where
  -- What is known once the caller is, and once the vault user is.
  abbrev CallerKnown : ℕ × ℕ → Trace → Type 0
  CallerKnown human u = IsUnused u × (knows_caller os human.0 u ≡ true)

  abbrev BothKnown : ℕ → ℕ → Trace → Type 0
  BothKnown human_uid vault_uid u =
      IsUnused u
      × (knows_caller os human_uid u ≡ true)
      × (knows_vault os vault_uid u ≡ true)
      × (vault_uid ≢ 0)
      × (vault_uid ≢ human_uid)

  resolve_caller-CallerKnown :
      (t : Trace) → IsUnused t → Ends CallerKnown (λ c u. IsUnused u) (resolve_caller os t)
  unfolding resolve_caller made knows_caller text_eq
  resolve_caller-CallerKnown t h = ground arith

  resolve_vault_user-BothKnown :
      (human_uid : ℕ) (t : Trace)
      → IsUnused t
      → knows_caller os human_uid t ≡ true
      → Ends
          (λ v u. BothKnown human_uid v.0 u)
          (λ c u. IsUnused u)
          (resolve_vault_user human_uid os t)
  unfolding resolve_vault_user made knows_caller knows_vault text_eq
  resolve_vault_user-BothKnown human_uid t h k = ground arith

  check_runtime_dir-BothKnown :
      (rt : Option Text) (h v : ℕ) (t : Trace)
      → BothKnown h v t
      → Ends (λ a u. BothKnown h v u) (λ c u. IsUnused u) (check_runtime_dir rt h os t)
  unfolding check_runtime_dir
  check_runtime_dir-BothKnown none h v t k = k
  check_runtime_dir-BothKnown (some rt) h v t k = ground arith

  must_make-BothKnown :
      (p : Text) (h v : ℕ) (t : Trace)
      → BothKnown h v t
      → Ends (λ a u. BothKnown h v u) (λ c u. IsUnused u) (must (create_dir_all p) 1 os t)
  unfolding made knows_caller knows_vault
  must_make-BothKnown p h v t k = ground arith

module _ (os : Os) (args : Args) where
  abbrev pub RunEnds : Outcome (Unit {0}) → Type 0
  RunEnds o = IsUnused (trace_of o) ⊎ ((t : Trace) × IsRunOf os args t o)

  trace-Guarded :
      (i : Ids) (o : Outcome (Unit {0}))
      → Ends (λ a u. is_guarded os i u ≡ true) (Guarded os i) o
      → is_guarded os i (trace_of o) ≡ true
  trace-Guarded i (done a u) h = h
  trace-Guarded i (exited c u) h = h

  dispatch-RunEnds :
      (human vault : ℕ × ℕ) (t : Trace)
      → BothKnown os human.0 vault.0 t
      → RunEnds (dispatch (ids_of human vault) args os t)
  dispatch-RunEnds human vault t k =
      let i = ids_of human vault in
      inr (
        t,
        record {
          ids = i;
          vault_known = k.2;
          caller_known = k.1;
          not_root = k.3;
          not_caller = k.4;
          dispatched = refl;
          guarded =
              trace-Guarded i (dispatch i args os t)
                (dispatch-Keeps os i args t (unused-guarded os i t k.0));
        },
      )

  abbrev vaults : Text
  vaults = codes "/run/veracage"

  abbrev made_then : ℕ × ℕ → ℕ × ℕ → M (Unit {0})
  made_then human vault = do call (set_mode vaults 0o755); dispatch (ids_of human vault) args

  abbrev checked_then : ℕ × ℕ → ℕ × ℕ → M (Unit {0})
  checked_then human vault = do must (create_dir_all vaults) 1; made_then human vault

  abbrev set_up : ℕ × ℕ → ℕ × ℕ → M (Unit {0})
  set_up human vault = do
    check_runtime_dir (setenv_value args (codes "XDG_RUNTIME_DIR")) human.0
    checked_then human vault

  made_then-RunEnds :
      (human vault : ℕ × ℕ) (t : Trace)
      → BothKnown os human.0 vault.0 t
      → RunEnds (made_then human vault os t)
  unfolding made knows_caller knows_vault
  made_then-RunEnds human vault t k = dispatch-RunEnds human vault (set_mode vaults 0o755 ∷ t) k

  set_up-RunEnds :
      (human vault : ℕ × ℕ) (t : Trace)
      → BothKnown os human.0 vault.0 t
      → RunEnds (set_up human vault os t)
  set_up-RunEnds human vault t k =
      bind-Ends (λ a u. BothKnown os human.0 vault.0 u) (λ c u. IsUnused u) RunEnds
        (check_runtime_dir (setenv_value args (codes "XDG_RUNTIME_DIR")) human.0)
        (λ _. checked_then human vault) os t
        (check_runtime_dir-BothKnown os (setenv_value args (codes "XDG_RUNTIME_DIR")) human.0
          vault.0 t k)
        (λ a u b.
          bind-Ends (λ a u. BothKnown os human.0 vault.0 u) (λ c u. IsUnused u) RunEnds
            (must (create_dir_all vaults) 1) (λ _. made_then human vault) os u
            (must_make-BothKnown os vaults human.0 vault.0 u b)
            (λ a w d. made_then-RunEnds human vault w d) (λ c w d. inl d))
        (λ c u b. inl b)

  abbrev human_then : ℕ × ℕ → M (Unit {0})
  human_then human = do vault ← resolve_vault_user human.0; set_up human vault

  human_then-RunEnds :
      (human : ℕ × ℕ) (t : Trace) → CallerKnown os human t → RunEnds (human_then human os t)
  human_then-RunEnds human t h =
      bind-Ends (λ v u. BothKnown os human.0 v.0 u) (λ c u. IsUnused u) RunEnds
        (resolve_vault_user human.0) (set_up human) os t
        (resolve_vault_user-BothKnown os human.0 t h.0 h.1) (λ v u k. set_up-RunEnds human v u k)
        (λ c u k. inl k)

  abbrev root_then : Bool → M (Unit {0})
  root_then is_root = do unless is_root (exit 2); human ← resolve_caller; human_then human

  root_then-RunEnds : (is_root : Bool) (t : Trace) → IsUnused t → RunEnds (root_then is_root os t)
  root_then-RunEnds false t h = inl h
  root_then-RunEnds true t h =
      bind-Ends (CallerKnown os) (λ c u. IsUnused u) RunEnds resolve_caller human_then os t
        (resolve_caller-CallerKnown os t h) (λ human u k. human_then-RunEnds human u k)
        (λ c u k. inl k)

  abbrev coredump_call : Call
  coredump_call = write_file (codes "/proc/self/coredump_filter") (codes "0" ++ 10 ∷ [])

  -- Whatever the arguments and whatever the system answers, a run of the helper either executes no
  -- program in its place and sets no variable, or it is the dispatch of its arguments for two users
  -- that the system gave before: the vault user, the uid of `veracage`, is neither 0 nor the caller,
  -- the uid in `PKEXEC_UID`; every program executed in the helper's place is the continuation as
  -- `_leader` or `_compositor`, after the uid was changed to the vault user's; and every variable set
  -- is a forwarded name or one of the helper's own.
  pub main-IsRunOf : RunEnds (main args os [])
  unfolding main made
  main-IsRunOf =
      root_then-RunEnds
        (elim (os.number (coredump_call ∷ no_core_limit ∷ []) geteuid) [
          | none ↦ false
          | some e ↦ e == 0
        ])
        (geteuid ∷ coredump_call ∷ no_core_limit ∷ []) refl
