-- ===== src/Helper/Session/Teardown.antt =====
-- The end of a session: whose lock is torn down, and when the lock is deleted.
use veracage.Base.{
  ℕ, Text, codes, List, [], ◌∷◌, ◌++◌, Bool, true, false, ◌&&◌, ◌||◌, not, Option, none, some,
  text_eq, text_eq_refl, ==-refl, to_dec, arith, ◌≡◌, refl, ◌∙◌, ap, unlines, lines-unlines,
  trim-dark, strip_prefix,
}
use veracage.Helper.Crypt.{crypt_close, close_call}
use veracage.Helper.Leader.{session_path}
use veracage.Helper.Lock.{recorded_dms, lock_generation, header_line, generation_line}
use veracage.Helper.Lock.Records.{AreLines, IsWord, word-inline, header_line-inline}
use veracage.Helper.Volume.{dm_path}
use veracage.Helper.Session.{
  lock_path, close_each, close_all_session_dms, is_gen, generation_in, first_word, teardown,
}
use veracage.Helper.Sys.{
  Call, exists, read_file, remove_file, remove_dir, remove_dir_all, flock, run, run_fed, Os,
  Outcome, done, exited, Trace, M, Ends, pure, exit, call, text, success, when, made, ◌>>=◌, ◌>>◌,
}
use veracage.Helper.Sys.Rules.{bind-Ends}

-- What a teardown changes: files it removes, commands it runs.
abbrev pub is_change : Call → Bool
is_change (remove_file p) = true
is_change (remove_dir p) = true
is_change (remove_dir_all p) = true
is_change (run p args) = true
is_change (run_fed p args input) = true
is_change _ = false

-- Some command that was run did not succeed.
unfoldable pub some_failed : Os → Trace → Bool
some_failed os [] = false
some_failed os (run p args ∷ t) = not (success (os.status t (run p args))) || some_failed os t
some_failed os (c ∷ t) = some_failed os t

abbrev pub is_removal : Text → Call → Bool
is_removal path (remove_file p) = text_eq p path
is_removal path _ = false

module _ (os : Os) (path : Text) where
  -- What closing devices leaves: nothing removed, and its answer says whether all closed.
  abbrev Closed : Trace → Bool → Trace → Type 0
  Closed t ok u =
      (made (is_removal path) u ≡ made (is_removal path) t)
      × (some_failed os u ≡ (not ok || some_failed os t))

  Closed-again :
      (t w : Trace) (closed : Bool) (o : Outcome Bool)
      → made (is_removal path) w ≡ made (is_removal path) t
      → some_failed os w ≡ (not closed || some_failed os t)
      → Ends (Closed w) (λ c u. ⊥) o
      → Ends
          (Closed t)
          (λ c u. ⊥)
          (elim o [ done a u ↦ done (closed && a) u | exited c u ↦ exited c u ])
  Closed-again t w true (done b u) e f h = (h.0 ∙ e, h.1 ∙ ground (arith, f))
  Closed-again t w false (done b u) e f h = (h.0 ∙ e, h.1 ∙ ground (arith, f))
  Closed-again t w closed (exited c u) e f h = h

  pub close_each-Closed :
      (dms : List Text) (t : Trace) → Ends (Closed t) (λ c u. ⊥) (close_each dms os t)
  unfolding close_each crypt_close made some_failed
  close_each-Closed [] t = ground arith
  close_each-Closed (dm ∷ dms) t =
      let w = exists (dm_path dm) ∷ t in
      let x = close_call os dm ∷ w in
      ground (
        arith,
        Closed-again t w true (close_each dms os w) refl refl (close_each-Closed dms w),
        Closed-again t x (success (os.status w (close_call os dm))) (close_each dms os x) refl refl
            (close_each-Closed dms x),
      )

  Closed-from :
      (t w : Trace) (o : Outcome Bool)
      → made (is_removal path) w ≡ made (is_removal path) t
      → some_failed os w ≡ some_failed os t
      → Ends (Closed w) (λ c u. ⊥) o
      → Ends (Closed t) (λ c u. ⊥) o
  Closed-from t w (done b u) e f h = (h.0 ∙ e, h.1 ∙ ground (arith, f))
  Closed-from t w (exited c u) e f h = h

  abbrev each_of : Option Text → M Bool
  each_of none = pure true
  each_of (some b) = close_each (recorded_dms b)

  each_of-Closed :
      (b : Option Text) (t w : Trace)
      → made (is_removal path) w ≡ made (is_removal path) t
      → some_failed os w ≡ some_failed os t
      → Ends (Closed t) (λ c u. ⊥) (each_of b os w)
  each_of-Closed none t w e f = ground arith
  each_of-Closed (some b) t w e f =
      Closed-from t w (close_each (recorded_dms b) os w) e f (close_each-Closed (recorded_dms b) w)

  pub close_all-Closed :
      (sid : Text) (t : Trace) → Ends (Closed t) (λ c u. ⊥) (close_all_session_dms sid os t)
  unfolding close_all_session_dms made some_failed
  close_all-Closed sid t =
      each_of-Closed (os.text t (read_file (lock_path sid))) t (read_file (lock_path sid) ∷ t) refl
        refl

text_eq-same_prefix : (p a b : Text) → text_eq (p ++ a) (p ++ b) ≡ text_eq a b
unfolding text_eq
text_eq-same_prefix [] a b = refl
text_eq-same_prefix (c ∷ p) a b = ground (arith, ==-refl c, text_eq-same_prefix p a b)

pid_is_not_lock : (sid : Text) → text_eq (session_path sid (codes ".pid")) (lock_path sid) ≡ false
unfolding text_eq
pid_is_not_lock sid = text_eq-same_prefix sid (codes ".pid") (codes ".lock")

-- The lock of another bootstrap, with whatever lines came after its first two, or none to be read.
pub data IsForeign (gen : Text) : Option Text → Type 0 where
  unreadable : IsForeign gen none
  other_generation :
      (g : Text) (uid : ℕ) (ls : List Text)
      → IsWord g
      → AreLines ls
      → text_eq g gen ≡ false
      → IsForeign gen (some (unlines (header_line uid ∷ generation_line g ∷ ls)))

lock_generation-lines :
    (g : Text) (uid : ℕ) (ls : List Text)
    → IsWord g
    → AreLines ls
    → lock_generation (unlines (header_line uid ∷ generation_line g ∷ ls)) ≡ some g
unfolding lock_generation strip_prefix
lock_generation-lines g uid ls w h =
    rw
      (lines-unlines (header_line uid ∷ generation_line g ∷ ls)
        (header_line-inline uid, (word-inline g w, h)))
      (ap (λ (t : Text). some t) (trim-dark g w))

IsForeign-is_gen :
    (gen : Text) (body : Option Text) → IsForeign gen body → is_gen gen (generation_in body) ≡ false
IsForeign-is_gen gen body unreadable = refl
IsForeign-is_gen gen body (other_generation g uid ls w h e) =
    rw (lock_generation-lines g uid ls w h) e

module _ (os : Os) (sid gen : Text) (pid : ℕ) (ctl_path : Text) (rc : ℕ) where
  foreign_then :
      (t : Trace)
      → is_gen gen (
          generation_in
            (os.text (flock (session_path sid (codes ".flock")) ∷ t) (read_file (lock_path sid))))
        ≡ false
      → Ends
          (λ a u. ⊥)
          (λ c u. made is_change u ≡ made is_change t)
          (teardown sid gen pid ctl_path rc os t)
  unfolding teardown made
  foreign_then t h = ground arith

  -- A teardown changes nothing - it removes no file and runs no command - when the lock that it finds
  -- cannot be read, or is one of whole lines that a bootstrap of another generation wrote, whatever
  -- was added to it.
  pub teardown-leaves_foreign :
      (t : Trace)
      → IsForeign gen
          (os.text (flock (session_path sid (codes ".flock")) ∷ t) (read_file (lock_path sid)))
      → Ends
          (λ a u. ⊥)
          (λ c u. made is_change u ≡ made is_change t)
          (teardown sid gen pid ctl_path rc os t)
  teardown-leaves_foreign t h = foreign_then t (
      IsForeign-is_gen gen
        (os.text (flock (session_path sid (codes ".flock")) ∷ t) (read_file (lock_path sid))) h)

  abbrev closed_then : Bool → M (Unit {0})
  closed_then all_closed = do
    call (remove_dir_all (session_path sid (codes ".run")))
    call (remove_dir (session_path sid (codes ".x")))
    call (remove_file ctl_path)
    pidfile ← text (read_file (session_path sid (codes ".pid")))
    when (text_eq (first_word pidfile) (to_dec pid))
        (call (remove_file (session_path sid (codes ".pid"))))
    when all_closed (call (remove_file (lock_path sid)))
    exit rc

  -- The lock is removed by just those teardowns whose commands all succeeded.
  abbrev pub RemovedIfClosed : ℕ → Trace → Type 0
  RemovedIfClosed c u = (c ≡ rc) × (made (is_removal (lock_path sid)) u ≡ not (some_failed os u))

  closed_then-RemovedIfClosed :
      (ok : Bool) (u : Trace)
      → text_eq ctl_path (lock_path sid) ≡ false
      → made (is_removal (lock_path sid)) u ≡ false
      → some_failed os u ≡ not ok
      → Ends (λ a v. ⊥) RemovedIfClosed (closed_then ok os u)
  unfolding made some_failed
  closed_then-RemovedIfClosed true u n e f =
      ground (arith, pid_is_not_lock sid, text_eq_refl (lock_path sid))
  closed_then-RemovedIfClosed false u n e f =
      ground (arith, pid_is_not_lock sid, text_eq_refl (lock_path sid))

  abbrev matched_then : M (Unit {0})
  matched_then = do all_closed ← close_all_session_dms sid; closed_then all_closed

  matched_then-RemovedIfClosed :
      (u : Trace)
      → text_eq ctl_path (lock_path sid) ≡ false
      → made (is_removal (lock_path sid)) u ≡ false
      → some_failed os u ≡ false
      → Ends (λ a v. ⊥) RemovedIfClosed (matched_then os u)
  matched_then-RemovedIfClosed u n e f =
      bind-Ends (Closed os (lock_path sid) u) (λ c v. ⊥) (Ends (λ a v. ⊥) RemovedIfClosed)
        (close_all_session_dms sid) closed_then os u (close_all-Closed os (lock_path sid) sid u)
        (λ ok v k. closed_then-RemovedIfClosed ok v n (k.0 ∙ e) (k.1 ∙ ground (arith, f)))
        (λ c v k. absurd k)

  -- A teardown that gets the flock and finds its own generation in the lock, whose control
  -- socket is not the lock, and before which no lock was removed and no command failed, exits
  -- with the leader's code, and it removes the lock exactly if every command that it ran to
  -- close a device succeeded.
  pub teardown-removes_own :
      (t : Trace)
      → os.succeeds t (flock (session_path sid (codes ".flock"))) ≡ true
      → is_gen gen (
          generation_in
            (os.text (flock (session_path sid (codes ".flock")) ∷ t) (read_file (lock_path sid))))
        ≡ true
      → text_eq ctl_path (lock_path sid) ≡ false
      → made (is_removal (lock_path sid)) t ≡ false
      → some_failed os t ≡ false
      → Ends (λ a v. ⊥) RemovedIfClosed (teardown sid gen pid ctl_path rc os t)
  unfolding teardown made some_failed
  teardown-removes_own t s g n e f = ground (
    arith,
    matched_then-RemovedIfClosed
        (read_file (lock_path sid) ∷ flock (session_path sid (codes ".flock")) ∷ t) n e f,
  )
