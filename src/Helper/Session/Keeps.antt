-- ===== src/Helper/Session/Keeps.antt =====
-- The steps of a bootstrap, an add and a teardown, as to the guard of Launch/Guarded.
use veracage.Base.{
  ℕ, Text, codes, List, [], ◌∷◌, Bool, true, false, Option, none, some, arith, ◌≡◌, if◌then◌else◌,
  to_dec, text_eq, contains_text, ◌&&◌,
}
use veracage.Helper.Args.{Args}
use veracage.Helper.Close.Keeps.{session_flock-Keeps}
use veracage.Helper.Crypt.{crypt_close}
use veracage.Helper.Leader.{session_flock, session_path}
use veracage.Helper.Lock.{recorded_dms}
use veracage.Helper.Launch.Guarded.{is_guarded, Guarded}
use veracage.Helper.Launch.Keeps.{Keeps, bind-Keeps, then-Keeps}
use veracage.Helper.Session.{
  lock_path, close_each, close_all_session_dms, append_volume, random_bytes, mount_exchange,
  mount_source, become_leader, session_child, is_gen, generation_in, first_word, teardown,
}
use veracage.Helper.Session.Leader.{become_leader-IsGuarded}
use veracage.Helper.Sys.{
  Call, exists, read_file, unshare, make_slave, mount_tmpfs, remove_file, remove_dir,
  remove_dir_all, Ids, Os, Trace, M, Outcome, done, exited, Ends, text, call, must, exit, unless,
  when, pure, ◌>>=◌, ◌>>◌,
}
use veracage.Helper.Volume.{Mounted, workspace, dm_path}
use veracage.Helper.Volume.Keeps.{mount_volume-Keeps, crypt_close-Keeps}

module _ (os : Os) (ids : Ids) where
  abbrev close_one_then : List Text → Bool → M Bool
  close_one_then dms closed = do rest ← close_each dms; pure (closed && rest)

  abbrev close_here : Text → Bool → M Bool
  close_here dm here = if here then crypt_close dm else pure true

  close_here-Keeps : (dm : Text) (here : Bool) → Keeps os ids (close_here dm here)
  close_here-Keeps dm true t g = crypt_close-Keeps os ids dm t g
  close_here-Keeps dm false t g = g

  close_each-Keeps : (dms : List Text) → Keeps os ids (close_each dms)
  unfolding close_each is_guarded
  close_each-Keeps [] t g = g
  close_each-Keeps (dm ∷ dms) t g =
      bind-Keeps os ids (close_here dm (os.succeeds t (exists (dm_path dm)))) (close_one_then dms)
        (close_here-Keeps dm (os.succeeds t (exists (dm_path dm))))
        (λ closed.
          bind-Keeps os ids (close_each dms) (λ rest. pure (closed && rest)) (close_each-Keeps dms)
            (λ rest u k. k))
        (exists (dm_path dm) ∷ t) g

  abbrev each_of : Option Text → M Bool
  each_of none = pure true
  each_of (some b) = close_each (recorded_dms b)

  each_of-Keeps : (b : Option Text) → Keeps os ids (each_of b)
  each_of-Keeps none t g = g
  each_of-Keeps (some b) t g = close_each-Keeps (recorded_dms b) t g

  pub close_all-Keeps : (sid : Text) → Keeps os ids (close_all_session_dms sid)
  unfolding close_all_session_dms is_guarded
  close_all-Keeps sid =
      bind-Keeps os ids (text (read_file (lock_path sid))) each_of (λ t g. g) each_of-Keeps

  pub append_volume-Keeps :
      (sid : Text) (uid : ℕ) (dm vhash skey : Text)
      → Keeps os ids (append_volume sid uid dm vhash skey)
  unfolding append_volume is_guarded
  append_volume-Keeps sid uid dm vhash skey t g = ground arith

  pub random_bytes-Keeps : (n : ℕ) → Keeps os ids (random_bytes n)
  unfolding random_bytes is_guarded
  random_bytes-Keeps n t g = ground arith

  mount_exchange-Keeps :
      (sid : Text) (dir : Option Text) → Keeps os ids (mount_exchange ids sid dir)
  unfolding mount_exchange is_guarded contains_text text_eq
  mount_exchange-Keeps sid none t g = g
  mount_exchange-Keeps sid (some dir) t g = ground arith

  mount_source-Keeps :
      (args : Args) (source dm : Option Text) → Keeps os ids (mount_source ids args source dm)
  mount_source-Keeps args none dm t g = g
  mount_source-Keeps args (some s) none t g = g
  mount_source-Keeps args (some s) (some d) t g =
      mount_volume-Keeps os ids s args.backend args.passphrase d t g

  pub exited-Ends :
      (o : Outcome (Unit {0}))
      → Ends (λ a u. ⊥) (Guarded os ids) o
      → Ends (λ a u. is_guarded os ids u ≡ true) (Guarded os ids) o
  exited-Ends (done a u) h = absurd h
  exited-Ends (exited c u) h = h

  become_leader-Keeps :
      (args : Args) (sid ctl_path : Text) (m : Mounted)
      → Keeps os ids (become_leader ids args sid ctl_path m)
  become_leader-Keeps args sid ctl_path m t g =
      exited-Ends (become_leader ids args sid ctl_path m os t)
        (become_leader-IsGuarded os ids args sid ctl_path m t g)

  pub must-Keeps :
      (c : Call) (code : ℕ)
      → ((t : Trace) → is_guarded os ids t ≡ true → is_guarded os ids (c ∷ t) ≡ true)
      → Keeps os ids (must c code)
  must-Keeps c code k t g = ground (arith, k t g)

  abbrev mounted_then : Args → Text → Text → Mounted → M (Unit {0})
  mounted_then args sid ctl_path m = do
    mount_exchange ids sid args.exchange
    become_leader ids args sid ctl_path m

  mounted_then-Keeps :
      (args : Args) (sid ctl_path : Text) (m : Mounted)
      → Keeps os ids (mounted_then args sid ctl_path m)
  mounted_then-Keeps args sid ctl_path m =
      then-Keeps os ids (mount_exchange ids sid args.exchange)
        (become_leader ids args sid ctl_path m) (mount_exchange-Keeps sid args.exchange)
        (become_leader-Keeps args sid ctl_path m)

  abbrev isolated_then : Args → Text → Option Text → Option Text → Text → M (Unit {0})
  isolated_then args sid source dm ctl_path = do
    m ← mount_source ids args source dm
    mounted_then args sid ctl_path m

  abbrev slave_then : M (Unit {0}) → M (Unit {0})
  slave_then k = do must (make_slave (codes "/")) 1; must (mount_tmpfs workspace) 1; k

  slave_then-Keeps : (k : M (Unit {0})) → Keeps os ids k → Keeps os ids (slave_then k)
  unfolding is_guarded
  slave_then-Keeps k h =
      then-Keeps os ids (must (make_slave (codes "/")) 1) (do must (mount_tmpfs workspace) 1; k)
        (must-Keeps (make_slave (codes "/")) 1 (λ t g. g))
        (then-Keeps os ids (must (mount_tmpfs workspace) 1) k
          (must-Keeps (mount_tmpfs workspace) 1 (λ t g. g)) h)

  pub session_child-Keeps :
      (args : Args) (sid : Text) (source dm : Option Text) (ctl_path : Text)
      → Keeps os ids (session_child ids args sid source dm ctl_path)
  unfolding session_child is_guarded
  session_child-Keeps args sid source dm ctl_path =
      then-Keeps os ids (must (unshare (codes "/")) 1)
        (slave_then (isolated_then args sid source dm ctl_path))
        (must-Keeps (unshare (codes "/")) 1 (λ t g. g))
        (slave_then-Keeps (isolated_then args sid source dm ctl_path) (
          bind-Keeps os ids (mount_source ids args source dm) (mounted_then args sid ctl_path)
            (mount_source-Keeps args source dm) (mounted_then-Keeps args sid ctl_path)))

  abbrev all_closed_then : Text → ℕ → Text → ℕ → Bool → M (Unit {0})
  all_closed_then sid pid ctl_path rc all_closed = do
    call (remove_dir_all (session_path sid (codes ".run")))
    call (remove_dir (session_path sid (codes ".x")))
    call (remove_file ctl_path)
    pidfile ← text (read_file (session_path sid (codes ".pid")))
    when (text_eq (first_word pidfile) (to_dec pid))
        (call (remove_file (session_path sid (codes ".pid"))))
    when all_closed (call (remove_file (lock_path sid)))
    exit rc

  all_closed_then-Keeps :
      (sid : Text) (pid : ℕ) (ctl_path : Text) (rc : ℕ) (ok : Bool)
      → Keeps os ids (all_closed_then sid pid ctl_path rc ok)
  unfolding is_guarded
  all_closed_then-Keeps sid pid ctl_path rc ok t g = ground arith

  abbrev matched_then : Text → ℕ → Text → ℕ → Bool → M (Unit {0})
  matched_then sid pid ctl_path rc matched = do
    unless matched (exit rc)
    all_closed ← close_all_session_dms sid
    all_closed_then sid pid ctl_path rc all_closed

  matched_then-Keeps :
      (sid : Text) (pid : ℕ) (ctl_path : Text) (rc : ℕ) (matched : Bool)
      → Keeps os ids (matched_then sid pid ctl_path rc matched)
  matched_then-Keeps sid pid ctl_path rc false t g = g
  matched_then-Keeps sid pid ctl_path rc true t g =
      bind-Keeps os ids (close_all_session_dms sid) (all_closed_then sid pid ctl_path rc)
        (close_all-Keeps sid) (all_closed_then-Keeps sid pid ctl_path rc) t g

  pub teardown-Keeps :
      (sid gen : Text) (pid : ℕ) (ctl_path : Text) (rc : ℕ)
      → Keeps os ids (teardown sid gen pid ctl_path rc)
  unfolding teardown is_guarded
  teardown-Keeps sid gen pid ctl_path rc =
      then-Keeps os ids (session_flock sid)
        (text (read_file (lock_path sid)) >>= λ body.
          matched_then sid pid ctl_path rc (is_gen gen (generation_in body)))
        (session_flock-Keeps os ids sid)
        (bind-Keeps os ids (text (read_file (lock_path sid)))
          (λ body. matched_then sid pid ctl_path rc (is_gen gen (generation_in body))) (λ t g. g)
          (λ body. matched_then-Keeps sid pid ctl_path rc (is_gen gen (generation_in body))))
