-- ===== src/Helper/Main/Dispatch.antt =====
-- The action that `main` chooses, as to the guard of Launch/Guarded.
use veracage.Base.{ℕ, Text, Bool, true, false, Option, none, some, arith, if◌then◌else◌}
use veracage.Helper.Args.{Args}
use veracage.Helper.Close.{exit_if_some, run_close_volume}
use veracage.Helper.Close.Keeps.{
  fork_then-Keeps, exit_if_some-Keeps, session_flock-Keeps, verify-Keeps, run_close_volume-Keeps,
}
use veracage.Helper.Launch.{or_exit, spawn_compositor}
use veracage.Helper.Launch.Guarded.{is_guarded, spawn_compositor-IsGuarded}
use veracage.Helper.Launch.Keeps.{Keeps, bind-Keeps, then-Keeps}
use veracage.Helper.Leader.{session_flock, verify_session_leader}
use veracage.Helper.Names.{check_session_caller}
use veracage.Helper.Session.{run_session_bootstrap, run_session_add}
use veracage.Helper.Session.Keeps.{must-Keeps, exited-Ends}
use veracage.Helper.Session.Runs.{run_session_bootstrap-Keeps, run_session_add-Keeps}
use veracage.Helper.Sys.{
  canonicalize, file_or_block, Ids, Os, M, exit, text, must, when, ◌>>=◌, ◌>>◌,
}
use veracage.Helper.Main.{
  open_as_caller, refuse_nonzero, check_caller_can_open, empty_session, open_volume, dispatch,
}

module _ (os : Os) (ids : Ids) (args : Args) where
  -- The choice between a new session and the running one.
  abbrev leader_of : Text → (ℕ → M (Unit {0})) → M (Unit {0}) → Option ℕ → M (Unit {0})
  leader_of sid live new none = new
  leader_of sid live new (some pid) = live pid

  abbrev session_then : Text → (ℕ → M (Unit {0})) → M (Unit {0}) → M (Unit {0})
  session_then sid live new = do
    exit_if_some (check_session_caller sid ids.human_uid)
    session_flock sid
    leader ← verify_session_leader sid ids.vault_uid
    leader_of sid live new leader

  leader_of-Keeps :
      (sid : Text) (live : ℕ → M (Unit {0})) (new : M (Unit {0}))
      → ((pid : ℕ) → Keeps os ids (live pid))
      → Keeps os ids new
      → (leader : Option ℕ) → Keeps os ids (leader_of sid live new leader)
  leader_of-Keeps sid live new l n none t g = n t g
  leader_of-Keeps sid live new l n (some pid) t g = l pid t g

  session_then-Keeps :
      (sid : Text) (live : ℕ → M (Unit {0})) (new : M (Unit {0}))
      → ((pid : ℕ) → Keeps os ids (live pid))
      → Keeps os ids new
      → Keeps os ids (session_then sid live new)
  session_then-Keeps sid live new l n =
      then-Keeps os ids (exit_if_some (check_session_caller sid ids.human_uid))
        (session_flock sid >>= λ _.
          verify_session_leader sid ids.vault_uid >>= leader_of sid live new)
        (exit_if_some-Keeps os ids (check_session_caller sid ids.human_uid))
        (then-Keeps os ids (session_flock sid)
          (verify_session_leader sid ids.vault_uid >>= leader_of sid live new)
          (session_flock-Keeps os ids sid)
          (bind-Keeps os ids (verify_session_leader sid ids.vault_uid) (leader_of sid live new)
            (verify-Keeps os ids sid ids.vault_uid) (leader_of-Keeps sid live new l n)))

  with_session-Keeps :
      (o : Option Text) (live : Text → ℕ → M (Unit {0})) (new : Text → M (Unit {0}))
      → ((sid : Text) (pid : ℕ) → Keeps os ids (live sid pid))
      → ((sid : Text) → Keeps os ids (new sid))
      → Keeps os ids (or_exit o 2 >>= λ sid. session_then sid (live sid) (new sid))
  with_session-Keeps none live new l n t g = g
  with_session-Keeps (some sid) live new l n t g =
      session_then-Keeps sid (live sid) (new sid) (l sid) (n sid) t g

  empty_session-Keeps : Keeps os ids (empty_session ids args)
  unfolding empty_session
  empty_session-Keeps =
      with_session-Keeps args.session (λ sid pid. exit 0)
        (λ sid. run_session_bootstrap ids args sid none) (λ sid pid t g. g)
        (λ sid. run_session_bootstrap-Keeps os ids args sid none)

  check_caller-Keeps : (source : Text) → Keeps os ids (check_caller_can_open source ids)
  unfolding check_caller_can_open is_guarded
  check_caller-Keeps source =
      fork_then-Keeps os ids (open_as_caller source ids) refuse_nonzero (λ t g. ground arith)
        (λ pid t g. ground arith)

  abbrev source_then : Text → M (Unit {0})
  source_then source = do
    must (file_or_block source) 2
    check_caller_can_open source ids
    sid ← or_exit args.session 2
    session_then sid (run_session_add ids args sid source)
        (run_session_bootstrap ids args sid (some source))

  source_then-Keeps : (source : Text) → Keeps os ids (source_then source)
  unfolding is_guarded
  source_then-Keeps source =
      then-Keeps os ids (must (file_or_block source) 2)
        (check_caller_can_open source ids >>= λ _. or_exit args.session 2 >>= λ sid.
          session_then sid (run_session_add ids args sid source)
            (run_session_bootstrap ids args sid (some source)))
        (must-Keeps os ids (file_or_block source) 2 (λ t g. g))
        (then-Keeps os ids (check_caller_can_open source ids)
          (or_exit args.session 2 >>= λ sid.
            session_then sid (run_session_add ids args sid source)
              (run_session_bootstrap ids args sid (some source)))
          (check_caller-Keeps source)
          (with_session-Keeps args.session (λ sid. run_session_add ids args sid source)
            (λ sid. run_session_bootstrap ids args sid (some source))
            (λ sid pid. run_session_add-Keeps os ids args sid source pid)
            (λ sid. run_session_bootstrap-Keeps os ids args sid (some source))))

  abbrev real_then : Option Text → M (Unit {0})
  real_then none = exit 2
  real_then (some source) = source_then source

  real_then-Keeps : (real : Option Text) → Keeps os ids (or_exit real 2 >>= source_then)
  real_then-Keeps none t g = g
  real_then-Keeps (some source) t g = source_then-Keeps source t g

  open_arg-Keeps :
      (o : Option Text)
      → Keeps os ids (
          or_exit o 2 >>= λ arg. text (canonicalize arg) >>= λ real. or_exit real 2 >>= source_then)
  unfolding is_guarded
  open_arg-Keeps none t g = g
  open_arg-Keeps (some arg) t g =
      bind-Keeps os ids (text (canonicalize arg)) (λ real. or_exit real 2 >>= source_then)
        (λ t g. g) real_then-Keeps t g

  open_volume-Keeps : Keeps os ids (open_volume ids args)
  unfolding open_volume
  open_volume-Keeps = open_arg-Keeps args.source

  spawn-Keeps : (b : Bool) → Keeps os ids (when b (spawn_compositor ids args))
  spawn-Keeps false t g = g
  spawn-Keeps true t g =
      exited-Ends os ids (spawn_compositor ids args os t)
        (spawn_compositor-IsGuarded os ids args t g)

  abbrev unlabelled : Bool → M (Unit {0})
  unlabelled empty = if empty then empty_session ids args else open_volume ids args

  unlabelled-Keeps : (empty : Bool) → Keeps os ids (unlabelled empty)
  unlabelled-Keeps true t g = empty_session-Keeps t g
  unlabelled-Keeps false t g = open_volume-Keeps t g

  abbrev action : Option Text → M (Unit {0})
  action none = unlabelled args.empty_session
  action (some label) = run_close_volume args.session label ids

  action-Keeps : (close : Option Text) → Keeps os ids (action close)
  action-Keeps none t g = unlabelled-Keeps args.empty_session t g
  action-Keeps (some label) t g = run_close_volume-Keeps os ids args.session label t g

  pub dispatch-Keeps : Keeps os ids (dispatch ids args)
  unfolding dispatch
  dispatch-Keeps =
      then-Keeps os ids (when args.spawn_compositor (spawn_compositor ids args))
        (action args.close_volume) (spawn-Keeps args.spawn_compositor)
        (action-Keeps args.close_volume)
