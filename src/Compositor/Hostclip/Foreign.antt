-- ===== src/Compositor/Hostclip/Foreign.antt =====
-- What the host has put in the place of a copy out.
use veracage.Base.{
  ℕ, suc, List, [], ◌∷◌, Bool, true, false, Option, none, some, if◌then◌else◌, all, ◌≡◌, refl,
  arith, ==-refl,
}
use veracage.Compositor.Hostclip.{
  Request, set_selection, unset_selection, unset_primary, State, HostEvent, cancelled, set_deadline,
  disown, is_source, on_event, on_events, Reading, read_selection, read_primary, plan_clear, forget,
  clear_clip, clear_primary, clear_selections, clear_pushed, store, load, policy, clear_on_exit,
  set_policy, handle_cmd, Step, event, command, tick, is_due, step, run,
}
use veracage.Compositor.Hostclip.Kept.{
  SameText, on_event-SameText, on_events-SameText, ReadOut-SameText, read_selection-ReadOut,
  read_primary-ReadOut,
}

-- The requests that unset the clipboard.
abbrev pub unsets : List Request → ℕ
unsets [] = 0
unsets (unset_selection ∷ rs) = suc (unsets rs)
unsets (set_selection n ∷ rs) = unsets rs
unsets (unset_primary ∷ rs) = unsets rs

abbrev pub is_no_store : Step → Bool
is_no_store (command (store bytes now)) = false
is_no_store _ = true

record IsForeign (k : ℕ) (s : State) : Type 0 where
  pub lost : s.owns_clip ≡ false
  pub unset_times : unsets s.requests ≡ k

SameText-IsForeign : (k : ℕ) (s t : State) → SameText s t → IsForeign k s → IsForeign k t
SameText-IsForeign k s t h f = record {
  lost = h.disowned f.lost;
  unset_times = rw h.requests_same f.unset_times;
}

clear_clip-IsForeign :
    (k : ℕ) (b : Bool) (s : State) → b ≡ false → IsForeign k s → IsForeign k (clear_clip b s)
unfolding clear_clip
clear_clip-IsForeign k true s e f = cc
clear_clip-IsForeign k false s e f = f

clear_primary-IsForeign :
    (k : ℕ) (b : Bool) (s : State) → IsForeign k s → IsForeign k (clear_primary b s)
unfolding clear_primary
clear_primary-IsForeign k true s f = record { lost = f.lost; unset_times = f.unset_times }
clear_primary-IsForeign k false s f = f

clear_selections-IsForeign :
    (k : ℕ) (r : Reading) (es : List HostEvent) (t : List ℕ) (s : State)
    → IsForeign k s
    → IsForeign k (clear_selections r es t s)
unfolding clear_selections plan_clear
clear_selections-IsForeign k r es t s f =
    let out = read_primary r s in
    let plan = plan_clear out.1.owns_clip out.1.has_primary t out.0 in
    let read_f =
      SameText-IsForeign k s out.1 (ReadOut-SameText r s out.1 (read_primary-ReadOut r s)) f in
    let cleared = clear_primary plan.1 (clear_clip plan.0 out.1) in
    SameText-IsForeign k cleared (on_events es cleared) (on_events-SameText es cleared) (
      clear_primary-IsForeign k plan.1 (clear_clip plan.0 out.1)
        (clear_clip-IsForeign k plan.0 out.1 read_f.lost read_f))

pushed-IsForeign :
    (k : ℕ) (r : Reading) (es : List HostEvent) (s : State) (o : Option (List ℕ))
    → IsForeign k s
    → IsForeign k (elim o as (λ x. State) [
      | none ↦ set_deadline none s
      | some pushed ↦ clear_selections r es pushed (forget (set_deadline none s))
    ])
pushed-IsForeign k r es s none f = record { lost = f.lost; unset_times = f.unset_times }
pushed-IsForeign k r es s (some t) f =
    clear_selections-IsForeign k r es t (forget (set_deadline none s))
      (record { lost = f.lost; unset_times = f.unset_times })

clear_pushed-IsForeign :
    (k : ℕ) (r : Reading) (es : List HostEvent) (s : State)
    → IsForeign k s
    → IsForeign k (clear_pushed r es s)
unfolding clear_pushed
clear_pushed-IsForeign k r es s f = pushed-IsForeign k r es s s.pushed f

branch-IsForeign :
    (k : ℕ) (b : Bool) (s t : State)
    → IsForeign k s
    → IsForeign k t
    → IsForeign k (if b then s else t)
branch-IsForeign k true s t h f = h
branch-IsForeign k false s t h f = f

step-IsForeign :
    (k : ℕ) (e : Step) (s : State) → is_no_store e ≡ true → IsForeign k s → IsForeign k (step e s)
unfolding step handle_cmd set_policy
step-IsForeign k (event e) s n f = SameText-IsForeign k s (on_event e s) (on_event-SameText e s) f
step-IsForeign k (command (store bytes now)) s n f = cc
step-IsForeign k (command (load r)) s n f =
    SameText-IsForeign k s (read_selection false r s).1
      (ReadOut-SameText r s (read_selection false r s).1 (read_selection-ReadOut false r s)) f
step-IsForeign k (command (policy enabled secs now)) s n f = record {
  lost = f.lost;
  unset_times = f.unset_times;
}
step-IsForeign k (command (clear_on_exit r es)) s n f = clear_pushed-IsForeign k r es s f
step-IsForeign k (tick now r es) s n f =
    branch-IsForeign k (is_due now s.deadline) (clear_pushed r es s) s
      (clear_pushed-IsForeign k r es s f) f

run-IsForeign :
    (k : ℕ) (es : List Step) (s : State)
    → all is_no_store es ≡ true
    → IsForeign k s
    → IsForeign k (run es s)
unfolding run
run-IsForeign k [] s n f = f
run-IsForeign k (e ∷ es) s n f =
    run-IsForeign k es (step e s) (ground arith) (step-IsForeign k e s (ground arith) f)

taken-IsForeign :
    (b : Bool) (s : State)
    → b ≡ true
    → IsForeign (unsets s.requests) (if b then disown s.requests s else s)
taken-IsForeign true s e = record { lost = refl; unset_times = refl }
taken-IsForeign false s e = cc

cancelled-IsForeign :
    (n : ℕ) (s : State)
    → s.source ≡ some n
    → IsForeign (unsets s.requests) (step (event (cancelled n)) s)
unfolding step on_event
cancelled-IsForeign n s e = taken-IsForeign (is_source n s.source) s (rw e (==-refl n))

-- Once the host has replaced what the worker put on the clipboard, and until the next copy out, the
-- worker never unsets the clipboard, whatever it goes through: newer content of the host stays.
pub replaced-left_alone :
    (n : ℕ) (s : State) (es : List Step)
    → s.source ≡ some n
    → all is_no_store es ≡ true
    → unsets (run es (step (event (cancelled n)) s)).requests ≡ unsets s.requests
replaced-left_alone n s es e w =
    (run-IsForeign (unsets s.requests) es (step (event (cancelled n)) s) w
      (cancelled-IsForeign n s e)).unset_times
