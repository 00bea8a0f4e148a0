-- ===== src/Compositor/Hostclip/Invariant.antt =====
-- What holds of the worker between two steps.
use veracage.Base.{
  ℕ, ◌+◌, ◌-◌, ◌≤◌, List, [], ◌∷◌, Bool, true, false, Option, none, some, if◌then◌else◌, length,
  length-append, ◌≡◌, refl, sym, arith,
}
use veracage.Compositor.Hostclip.{
  Request, unset_selection, unset_primary, State, HostEvent, data_offer, selection,
  primary_selection, offered, send_request, cancelled, serve_done, set_offers, set_threads,
  set_deadline, disown, offers_after, on_event, on_events, Reading, read_selection, read_primary,
  plan_clear, forget, request, clear_clip, clear_primary, clear_selections, clear_pushed, Cmd,
  store, load, policy, clear_on_exit, is_some, set_policy, handle_cmd, Step, event, command, tick,
  is_due, step, run, new_state,
}
use veracage.Compositor.Hostclip.Kept.{ReadOut-keeps, read_selection-ReadOut, read_primary-ReadOut}

abbrev pub or_nil : Option (List ℕ) → List ℕ
or_nil none = []
or_nil (some t) = t

-- `settled` is false in the middle of a clear, where the text is forgotten and the clipboard may still
-- be owned.
pub record Inv (settled : Bool) (s : State) : Type 0 where
  pub owned_source : s.owns_clip ≡ is_some s.source
  pub owned_pushed : settled ≡ true → s.owns_clip ≡ true → is_some s.pushed ≡ true
  pub served_pushed : s.serve ≡ or_nil s.pushed
  pub armed_pushed : is_some s.deadline ≡ true → is_some s.pushed ≡ true
  pub mimes_capped : length s.offers.building ≤ 64
  pub threads_capped : s.threads ≤ 16

offers_after-capped :
    (e : HostEvent) (s : State)
    → length s.offers.building ≤ 64
    → length (offers_after e s.offers).building ≤ 64
unfolding offers_after
offers_after-capped (offered m) s h = ground (arith, length-append s.offers.building (m ∷ []))
offers_after-capped data_offer s h = omega arith
offers_after-capped (selection none) s h = h
offers_after-capped (selection (some n)) s h = omega arith
offers_after-capped (primary_selection none) s h = h
offers_after-capped (primary_selection (some n)) s h = omega arith
offers_after-capped (send_request b) s h = h
offers_after-capped (cancelled n) s h = h
offers_after-capped serve_done s h = h

offers-Inv :
    (b : Bool) (e : HostEvent) (s : State)
    → Inv b s
    → Inv b (set_offers (offers_after e s.offers) s)
offers-Inv b e s h = record {
  owned_source = h.owned_source;
  owned_pushed = h.owned_pushed;
  served_pushed = h.served_pushed;
  armed_pushed = h.armed_pushed;
  mimes_capped = offers_after-capped e s h.mimes_capped;
  threads_capped = h.threads_capped;
}

threads-Inv : (b : Bool) (n : ℕ) (s : State) → n ≤ 16 → Inv b s → Inv b (set_threads n s)
threads-Inv b n s c h = record {
  owned_source = h.owned_source;
  owned_pushed = h.owned_pushed;
  served_pushed = h.served_pushed;
  armed_pushed = h.armed_pushed;
  mimes_capped = h.mimes_capped;
  threads_capped = c;
}

disown-Inv : (b : Bool) (rs : List Request) (s : State) → Inv b s → Inv b (disown rs s)
disown-Inv b rs s h = record {
  owned_source = refl;
  owned_pushed = λ e f. cc;
  served_pushed = h.served_pushed;
  armed_pushed = h.armed_pushed;
  mimes_capped = h.mimes_capped;
  threads_capped = h.threads_capped;
}

request-Inv : (b : Bool) (q : Request) (s : State) → Inv b s → Inv b (request q s)
request-Inv b q s h = record {
  owned_source = h.owned_source;
  owned_pushed = h.owned_pushed;
  served_pushed = h.served_pushed;
  armed_pushed = h.armed_pushed;
  mimes_capped = h.mimes_capped;
  threads_capped = h.threads_capped;
}

on_event-Inv : (b : Bool) (e : HostEvent) (s : State) → Inv b s → Inv b (on_event e s)
unfolding on_event
on_event-Inv b (send_request spawned) s h = ground (arith, threads-Inv b (s.threads + 1) s)
on_event-Inv b serve_done s h =
    let c = h.threads_capped in threads-Inv b (s.threads - 1) s (omega arith) h
on_event-Inv b (cancelled n) s h = ground (arith, disown-Inv b s.requests s)
on_event-Inv b data_offer s h = offers-Inv b data_offer s h
on_event-Inv b (selection o) s h = offers-Inv b (selection o) s h
on_event-Inv b (primary_selection o) s h = offers-Inv b (primary_selection o) s h
on_event-Inv b (offered m) s h = offers-Inv b (offered m) s h

on_events-Inv : (b : Bool) (es : List HostEvent) (s : State) → Inv b s → Inv b (on_events es s)
unfolding on_events
on_events-Inv b [] s h = h
on_events-Inv b (e ∷ es) s h = on_events-Inv b es (on_event e s) (on_event-Inv b e s h)

forget-Inv : (s : State) → Inv true s → Inv false (forget (set_deadline none s))
forget-Inv s h = record {
  owned_source = h.owned_source;
  owned_pushed = λ e f. cc;
  served_pushed = refl;
  armed_pushed = λ e. cc;
  mimes_capped = h.mimes_capped;
  threads_capped = h.threads_capped;
}

settle-Inv : (b : Bool) (s : State) → s.owns_clip ≡ false → Inv b s → Inv true s
settle-Inv b s n h = record {
  owned_source = h.owned_source;
  owned_pushed = λ e f. cc;
  served_pushed = h.served_pushed;
  armed_pushed = h.armed_pushed;
  mimes_capped = h.mimes_capped;
  threads_capped = h.threads_capped;
}

-- The clear of the clipboard, where it is owned, ends the ownership.
clear_clip-Inv :
    (s : State) (own : Bool) → own ≡ s.owns_clip → Inv false s → Inv true (clear_clip own s)
unfolding clear_clip
clear_clip-Inv s true e h =
    settle-Inv false (disown (unset_selection ∷ s.requests) s) refl
      (disown-Inv false (unset_selection ∷ s.requests) s h)
clear_clip-Inv s false e h = settle-Inv false s (sym e) h

clear_primary-Inv : (s : State) (b : Bool) → Inv true s → Inv true (clear_primary b s)
unfolding clear_primary
clear_primary-Inv s true h = request-Inv true unset_primary s h
clear_primary-Inv s false h = h

clear_selections-Inv :
    (r : Reading) (es : List HostEvent) (t : List ℕ) (s : State)
    → Inv false s
    → Inv true (clear_selections r es t s)
unfolding clear_selections plan_clear
clear_selections-Inv r es t s h =
    let out = read_primary r s in
    let plan = plan_clear out.1.owns_clip out.1.has_primary t out.0 in
    on_events-Inv true es (clear_primary plan.1 (clear_clip plan.0 out.1)) (
      clear_primary-Inv (clear_clip plan.0 out.1) plan.1 (
        clear_clip-Inv out.1 plan.0 refl (
          ReadOut-keeps (Inv false) r s out.1 h (on_events-Inv false r.events s h)
            (read_primary-ReadOut r s))))

unarm-Inv : (s : State) → Inv true s → Inv true (set_deadline none s)
unarm-Inv s h = record {
  owned_source = h.owned_source;
  owned_pushed = h.owned_pushed;
  served_pushed = h.served_pushed;
  armed_pushed = λ e. cc;
  mimes_capped = h.mimes_capped;
  threads_capped = h.threads_capped;
}

cleared-Inv :
    (r : Reading) (es : List HostEvent) (s : State) (o : Option (List ℕ))
    → Inv true s
    → Inv true (elim o [
      | none ↦ set_deadline none s
      | some pushed ↦ clear_selections r es pushed (forget (set_deadline none s))
    ])
cleared-Inv r es s none h = unarm-Inv s h
cleared-Inv r es s (some t) h =
    clear_selections-Inv r es t (forget (set_deadline none s)) (forget-Inv s h)

pub clear_pushed-Inv :
    (r : Reading) (es : List HostEvent) (s : State) → Inv true s → Inv true (clear_pushed r es s)
unfolding clear_pushed
clear_pushed-Inv r es s h = cleared-Inv r es s s.pushed h

policy_armed :
    (enabled : Bool) (secs now : ℕ) (s : State)
    → Inv true s
    → is_some (set_policy enabled secs now s).deadline ≡ true
    → is_some s.pushed ≡ true
unfolding set_policy
policy_armed enabled secs now s h e = let a = h.armed_pushed in ground arith

handle_cmd-Inv : (c : Cmd) (s : State) → Inv true s → Inv true (handle_cmd c s)
unfolding handle_cmd set_policy
handle_cmd-Inv (store bytes now) s h = record {
  owned_source = refl;
  owned_pushed = λ e f. refl;
  served_pushed = refl;
  armed_pushed = λ e. refl;
  mimes_capped = h.mimes_capped;
  threads_capped = h.threads_capped;
}
handle_cmd-Inv (load r) s h =
    ReadOut-keeps (Inv true) r s (read_selection false r s).1 h (on_events-Inv true r.events s h)
      (read_selection-ReadOut false r s)
handle_cmd-Inv (policy enabled secs now) s h = record {
  owned_source = h.owned_source;
  owned_pushed = h.owned_pushed;
  served_pushed = h.served_pushed;
  armed_pushed = policy_armed enabled secs now s h;
  mimes_capped = h.mimes_capped;
  threads_capped = h.threads_capped;
}
handle_cmd-Inv (clear_on_exit r es) s h = clear_pushed-Inv r es s h

branch-Inv : (b : Bool) (s t : State) → Inv true s → Inv true t → Inv true (if b then s else t)
branch-Inv true s t h k = h
branch-Inv false s t h k = k

pub step-Inv : (e : Step) (s : State) → Inv true s → Inv true (step e s)
unfolding step
step-Inv (event e) s h = on_event-Inv true e s h
step-Inv (command c) s h = handle_cmd-Inv c s h
step-Inv (tick now r es) s h =
    branch-Inv (is_due now s.deadline) (clear_pushed r es s) s (clear_pushed-Inv r es s h) h

pub new_state-Inv : (has_primary : Bool) → Inv true (new_state has_primary)
new_state-Inv has_primary = record {
  owned_source = refl;
  owned_pushed = λ e f. cc;
  served_pushed = refl;
  armed_pushed = λ e. cc;
  mimes_capped = omega arith;
  threads_capped = omega arith;
}

-- Whatever commands, host events and looks at the clock the worker goes through: it owns the
-- clipboard just while it has a source, and then text is pushed; what it serves is the pushed text,
-- or nothing; a countdown runs only for pushed text; and at most 64 types of an offer and 16 serve
-- threads are there.
pub run-Inv : (es : List Step) (s : State) → Inv true s → Inv true (run es s)
unfolding run
run-Inv [] s h = h
run-Inv (e ∷ es) s h = run-Inv es (step e s) (step-Inv e s h)
