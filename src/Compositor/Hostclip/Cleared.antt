-- ===== src/Compositor/Hostclip/Cleared.antt =====
-- The end of a copy out: at its deadline, and on exit.
use veracage.Base.{
  ℕ, ◌+◌, ◌≤◌, List, [], ◌∷◌, Bool, true, false, Option, none, some, if◌then◌else◌, all, ◌≡◌, refl,
  sym, ◌∙◌, arith, Bool-cases, inl, inr, ◌⊎◌,
}
use veracage.Compositor.Hostclip.{
  State, HostEvent, set_deadline, on_event, Reading, read_selection, read_primary, plan_clear,
  forget, clear_clip, clear_primary, clear_selections, clear_pushed, store, load, policy,
  clear_on_exit, is_some, set_policy, handle_cmd, Step, event, command, tick, is_due, step, run,
}
use veracage.Compositor.Hostclip.Kept.{
  SameText, on_event-SameText, on_events-SameText, ReadOut-SameText, read_selection-ReadOut,
  read_primary-ReadOut,
}
use veracage.Compositor.Hostclip.Invariant.{Inv, or_nil, step-Inv, run-Inv, clear_pushed-Inv}

clear_clip-pushed : (b : Bool) (s : State) → (clear_clip b s).pushed ≡ s.pushed
unfolding clear_clip
clear_clip-pushed true s = refl
clear_clip-pushed false s = refl

clear_primary-pushed : (b : Bool) (s : State) → (clear_primary b s).pushed ≡ s.pushed
unfolding clear_primary
clear_primary-pushed true s = refl
clear_primary-pushed false s = refl

clear_selections-pushed :
    (r : Reading) (es : List HostEvent) (t : List ℕ) (s : State)
    → (clear_selections r es t s).pushed ≡ s.pushed
unfolding clear_selections
clear_selections-pushed r es t s =
    let out = read_primary r s in
    let plan = plan_clear out.1.owns_clip out.1.has_primary t out.0 in
    (on_events-SameText es (clear_primary plan.1 (clear_clip plan.0 out.1))).pushed_same
    ∙ (clear_primary-pushed plan.1 (clear_clip plan.0 out.1)
        ∙ (clear_clip-pushed plan.0 out.1
            ∙ (ReadOut-SameText r s out.1 (read_primary-ReadOut r s)).pushed_same))

elim-pushed :
    (r : Reading) (es : List HostEvent) (s : State) (o : Option (List ℕ))
    → o ≡ s.pushed
    → (elim o as (λ x. State) [
      | none ↦ set_deadline none s
      | some pushed ↦ clear_selections r es pushed (forget (set_deadline none s))
    ]).pushed
      ≡ none
elim-pushed r es s none e = sym e
elim-pushed r es s (some t) e = clear_selections-pushed r es t (forget (set_deadline none s))

-- A clear forgets the text.
clear_pushed-forgets :
    (r : Reading) (es : List HostEvent) (s : State) → (clear_pushed r es s).pushed ≡ none
unfolding clear_pushed
clear_pushed-forgets r es s = elim-pushed r es s s.pushed refl

-- A step that starts no other countdown: no copy out, and no policy that turns the clear off.
abbrev pub is_waiting : Step → Bool
is_waiting (command (store bytes now)) = false
is_waiting (command (policy enabled secs now)) = enabled
is_waiting _ = true

-- The text is gone, or goes when the clock is at `at`.
Pending : ℕ → State → Type 0
Pending at s = (s.pushed ≡ none) ⊎ (s.deadline ≡ some at)

SameText-Pending : (at : ℕ) (s t : State) → SameText s t → Pending at s → Pending at t
unfolding Pending
SameText-Pending at s t k (inl e) = inl (k.pushed_same ∙ e)
SameText-Pending at s t k (inr e) = inr (k.deadline_same ∙ e)

clear-Pending :
    (at : ℕ) (r : Reading) (es : List HostEvent) (s : State) → Pending at (clear_pushed r es s)
unfolding Pending
clear-Pending at r es s = inl (clear_pushed-forgets r es s)

policy-Pending :
    (at : ℕ) (secs now : ℕ) (s : State) → Pending at s → Pending at (set_policy true secs now s)
unfolding Pending set_policy
policy-Pending at secs now s (inl e) = inl e
policy-Pending at secs now s (inr e) = inr (ground arith)

branch-Pending :
    (at : ℕ) (b : Bool) (s t : State)
    → Pending at s
    → Pending at t
    → Pending at (if b then s else t)
branch-Pending at true s t h k = h
branch-Pending at false s t h k = k

step-Pending :
    (at : ℕ) (e : Step) (s : State) → is_waiting e ≡ true → Pending at s → Pending at (step e s)
unfolding step handle_cmd
step-Pending at (event e) s w h = SameText-Pending at s (on_event e s) (on_event-SameText e s) h
step-Pending at (command (store bytes now)) s w h = cc
step-Pending at (command (load r)) s w h =
    SameText-Pending at s (read_selection false r s).1
      (ReadOut-SameText r s (read_selection false r s).1 (read_selection-ReadOut false r s)) h
step-Pending at (command (policy true secs now)) s w h = policy-Pending at secs now s h
step-Pending at (command (policy false secs now)) s w h = cc
step-Pending at (command (clear_on_exit r es)) s w h = clear-Pending at r es s
step-Pending at (tick now r es) s w h =
    branch-Pending at (is_due now s.deadline) (clear_pushed r es s) s (clear-Pending at r es s) h

run-Pending :
    (at : ℕ) (es : List Step) (s : State)
    → all is_waiting es ≡ true
    → Pending at s
    → Pending at (run es s)
unfolding run
run-Pending at [] s w h = h
run-Pending at (e ∷ es) s w h =
    run-Pending at es (step e s) (ground arith) (step-Pending at e s (ground arith) h)

branch-forgets :
    (b : Bool) (s t : State)
    → s.pushed ≡ none
    → t.pushed ≡ none
    → (if b then s else t).pushed ≡ none
branch-forgets true s t h k = h
branch-forgets false s t h k = k

branch-taken :
    (b : Bool) (s t : State) → b ≡ true → s.pushed ≡ none → (if b then s else t).pushed ≡ none
branch-taken true s t e h = h
branch-taken false s t e h = cc

due-from : (at now : ℕ) (d : Option ℕ) → d ≡ some at → at ≤ now → is_due now d ≡ true
due-from at now d e le = rw e (ground arith)

tick-pushed :
    (at now : ℕ) (r : Reading) (es : List HostEvent) (s : State)
    → at ≤ now
    → Pending at s
    → (step (tick now r es) s).pushed ≡ none
unfolding step Pending
tick-pushed at now r es s le (inl e) =
    branch-forgets (is_due now s.deadline) (clear_pushed r es s) s (clear_pushed-forgets r es s) e
tick-pushed at now r es s le (inr e) =
    branch-taken (is_due now s.deadline) (clear_pushed r es s) s (due-from at now s.deadline e le)
      (clear_pushed-forgets r es s)

-- Nothing of what was copied out is left with the worker.
pub record IsCleared (s : State) : Type 0 where
  pub no_text : s.pushed ≡ none
  pub nothing_served : s.serve ≡ []
  pub not_owned : s.owns_clip ≡ false
  pub no_source : s.source ≡ none

or_nil-none : (o : Option (List ℕ)) → o ≡ none → or_nil o ≡ []
or_nil-none o e = rw e refl

not_some : {A : Type 0} → (o : Option A) → is_some o ≡ false → o ≡ none
not_some none h = refl
not_some (some a) h = cc

unowned : (s : State) → Inv true s → s.pushed ≡ none → s.owns_clip ≡ false
unowned s h e = elim (Bool-cases s.owns_clip) [
  | inl o ↦ let p = h.owned_pushed refl o in ground (arith, e)
  | inr o ↦ o
]

IsCleared-from : (s : State) → Inv true s → s.pushed ≡ none → IsCleared s
IsCleared-from s h e = record {
  no_text = e;
  nothing_served = h.served_pushed ∙ or_nil-none s.pushed e;
  not_owned = unowned s h e;
  no_source = not_some s.source (sym h.owned_source ∙ unowned s h e);
}

store-Pending :
    (s : State) (bytes : List ℕ) (at : ℕ)
    → s.clear_enabled ≡ true
    → Pending (at + s.clear_secs) (step (command (store bytes at)) s)
unfolding Pending step handle_cmd
store-Pending s bytes at on = inr (rw on refl)

-- After a copy out while the clear is on, once a look at the clock comes at the end of the countdown
-- or later, nothing of the text is left with the worker and it owns no clipboard, whatever host
-- events, pastes, policies that keep the clear on, and clears came between.
pub store-IsCleared :
    (s : State) (bytes : List ℕ) (at now : ℕ) (es : List Step) (r : Reading) (hs : List HostEvent)
    → Inv true s
    → s.clear_enabled ≡ true
    → all is_waiting es ≡ true
    → at + s.clear_secs ≤ now
    → IsCleared (step (tick now r hs) (run es (step (command (store bytes at)) s)))
store-IsCleared s bytes at now es r hs h on w le =
    let stored = step (command (store bytes at)) s in
    IsCleared-from (step (tick now r hs) (run es stored))
      (step-Inv (tick now r hs) (run es stored)
        (run-Inv es stored (step-Inv (command (store bytes at)) s h)))
      (tick-pushed (at + s.clear_secs) now r hs (run es stored) le
        (run-Pending (at + s.clear_secs) es stored w (store-Pending s bytes at on)))

-- On exit nothing is left either, whatever the policy.
pub clear_on_exit-IsCleared :
    (es : List Step) (s : State) (r : Reading) (hs : List HostEvent)
    → Inv true s
    → IsCleared (step (command (clear_on_exit r hs)) (run es s))
unfolding step handle_cmd
clear_on_exit-IsCleared es s r hs h =
    IsCleared-from (clear_pushed r hs (run es s))
      (clear_pushed-Inv r hs (run es s) (run-Inv es s h)) (clear_pushed-forgets r hs (run es s))
