-- ===== src/Agent/Dismount/Final.antt =====
-- The helper's input, once it is answered or gone.
use veracage.Base.{
  ℕ, if◌then◌else◌, ◌+◌, Text, codes, List, [], ◌∷◌, ◌++◌, Bool, true, false, Option, none, some,
  ◌≡◌, refl, arith, ◌==◌, strip_prefix, Bool-cases, ◌⊎◌, inl, inr, ◌∙◌, leb,
}
use veracage.Agent.Dismount.{
  Tool, Reply, running, wait_failed, ended, Asking, AppsWait, Stdin, held, dropped, answered,
  Dismount, Desk, drop_stdin, write_stdin, set_asking, set_waiting, set_cancelled, set_refusal,
  cancel, say, start_ask, ask_candidates, holder_app_names, ask_to_close_apps, handle, take_answer,
  drive_ask, is_new, drive_apps_wait, abort_ask, Event, line, ask_poll, wait_poll, compositor_gone,
  step, after,
}

-- Whether the helper's input is gone.
abbrev pub is_closed : Stdin → Bool
is_closed held = false
is_closed dropped = true
is_closed (answered t) = true

drop-closed : (s : Stdin) → is_closed s ≡ true → drop_stdin s ≡ s
drop-closed held h = cc
drop-closed dropped h = refl
drop-closed (answered t) h = refl

write-closed : (t : Text) (s : Stdin) → is_closed s ≡ true → write_stdin t s ≡ s
write-closed t held h = cc
write-closed t dropped h = refl
write-closed t (answered u) h = refl

drop-is_closed : (s : Stdin) → is_closed (drop_stdin s) ≡ true
drop-is_closed held = refl
drop-is_closed dropped = refl
drop-is_closed (answered t) = refl

write-is_closed : (t : Text) (s : Stdin) → is_closed (write_stdin t s) ≡ true
write-is_closed t held = refl
write-is_closed t dropped = refl
write-is_closed t (answered u) = refl

-- What the steps keep: a closed input as it is, and no cancelled dismount with its input open.
record Keeps (d e : Dismount) : Type 0 where
  pub input_kept : is_closed d.stdin ≡ true → e.stdin ≡ d.stdin
  pub cancelled_closed :
      (d.cancelled ≡ true → is_closed d.stdin ≡ true)
      → e.cancelled ≡ true
      → is_closed e.stdin ≡ true

Keeps-same : (d e : Dismount) → e.stdin ≡ d.stdin → e.cancelled ≡ d.cancelled → Keeps d e
Keeps-same d e s c = record { input_kept = λ h. s; cancelled_closed = λ old h. ground arith }

cancel-Keeps : (d e : Dismount) → e.stdin ≡ drop_stdin d.stdin → Keeps d e
cancel-Keeps d e s = record {
  input_kept = λ h. s ∙ drop-closed d.stdin h;
  cancelled_closed = λ old h. rw s (drop-is_closed d.stdin);
}

say-Keeps : (d e : Dismount) (t : Text) → e.stdin ≡ write_stdin t d.stdin → Keeps d e
say-Keeps d e t s = record {
  input_kept = λ h. s ∙ write-closed t d.stdin h;
  cancelled_closed = λ old h. rw s (write-is_closed t d.stdin);
}

start_ask-Keeps :
    (runs : Tool → Bool) (ts : List Tool) (c d : Dismount)
    → d.stdin ≡ c.stdin
    → d.cancelled ≡ c.cancelled
    → Keeps c (start_ask runs ts d)
unfolding start_ask
start_ask-Keeps runs [] c d s k = cancel-Keeps c (start_ask runs [] d) (rw s refl)
start_ask-Keeps runs (t ∷ ts) c d s k = elim (Bool-cases (runs t)) [
  | inl e ↦
      rw (e, start_ask) (Keeps-same c (set_asking (some (record { tool = t; rest = ts })) d) s k)
  | inr e ↦ rw (e, start_ask) (start_ask-Keeps runs ts c d s k)
]

take_answer-Keeps :
    (runs : Tool → Bool) (seen : Option ℕ) (now : ℕ) (rest : List Tool) (reply : Reply)
    (d : Dismount)
    → Keeps d (take_answer runs seen now rest reply d)
unfolding take_answer
take_answer-Keeps runs seen now rest running d = Keeps-same d d refl refl
take_answer-Keeps runs seen now rest wait_failed d =
    start_ask-Keeps runs rest d (set_asking none d) refl refl
take_answer-Keeps runs seen now rest (ended none) d =
    start_ask-Keeps runs rest d (set_asking none d) refl refl
take_answer-Keeps runs seen now rest (ended (some code)) d = elim (Bool-cases (code == 0)) [
  | inl e ↦
      rw (e, take_answer)
        (Keeps-same d
          (set_waiting (some (record { asked_at = seen; deadline = now + 180 }))
            (set_asking none d))
          refl refl)
  | inr e ↦ elim (Bool-cases (code == 1)) [
    | inl e' ↦
        rw (e, e', take_answer) (cancel-Keeps d (cancel (set_cancelled (set_asking none d))) refl)
    | inr e' ↦ rw (e, e', take_answer) (start_ask-Keeps runs rest d (set_asking none d) refl refl)
  ]
]

asked-Keeps :
    (runs : Tool → Bool) (seen : Option ℕ) (now : ℕ) (reply : Reply) (d : Dismount)
    (o : Option Asking)
    → Keeps d (elim o [ none ↦ d | some a ↦ take_answer runs seen now a.rest reply d ])
asked-Keeps runs seen now reply d none = Keeps-same d d refl refl
asked-Keeps runs seen now reply d (some a) = take_answer-Keeps runs seen now a.rest reply d

branch-Keeps : (c d e : Dismount) (b : Bool) → Keeps c d → Keeps c e → Keeps c (if b then d else e)
branch-Keeps c d e true h k = h
branch-Keeps c d e false h k = k

waited-Keeps :
    (signal : Option ℕ) (now : ℕ) (d : Dismount) (o : Option AppsWait)
    → Keeps d (elim o [
      | none ↦ d
      | some w ↦
          if is_new signal w.asked_at
          then say (codes "go" ++ 10 ∷ []) (set_waiting none d)
          else if leb w.deadline now
          then cancel (set_waiting none d)
          else d
    ])
waited-Keeps signal now d none = Keeps-same d d refl refl
waited-Keeps signal now d (some w) =
    branch-Keeps d (say (codes "go" ++ 10 ∷ []) (set_waiting none d))
      (if leb w.deadline now then cancel (set_waiting none d) else d) (is_new signal w.asked_at)
      (say-Keeps d (say (codes "go" ++ 10 ∷ []) (set_waiting none d)) (codes "go" ++ 10 ∷ []) refl)
      (branch-Keeps d (cancel (set_waiting none d)) d (leb w.deadline now)
        (cancel-Keeps d (cancel (set_waiting none d)) refl) (Keeps-same d d refl refl))

handled-Keeps :
    (k : Desk) (d : Dismount) (q r : Option Text)
    → Keeps d (elim q [
      | some holders ↦ ask_to_close_apps k holders d
      | none ↦ elim r [ some reason ↦ set_refusal reason d | none ↦ d ]
    ])
unfolding ask_to_close_apps
handled-Keeps k d (some holders) r =
    start_ask-Keeps k.runs
      (ask_candidates k.is_file
        (codes "Close " ++ (holder_app_names k.apps holders ++ codes " to continue."))
        (codes "Close") (codes "Cancel"))
      d d refl refl
handled-Keeps k d none (some reason) = Keeps-same d (set_refusal reason d) refl refl
handled-Keeps k d none none = Keeps-same d d refl refl

step-Keeps : (e : Event) (d : Dismount) → Keeps d (step e d)
unfolding step handle abort_ask drive_ask drive_apps_wait
step-Keeps (line k l) d =
    handled-Keeps k d (strip_prefix (codes "holders" ++ 9 ∷ []) l)
      (strip_prefix (codes "busy" ++ 9 ∷ []) l)
step-Keeps (ask_poll runs seen now reply) d = asked-Keeps runs seen now reply d d.asking
step-Keeps (wait_poll signal now) d = waited-Keeps signal now d d.waiting
step-Keeps compositor_gone d = Keeps-same d (set_asking none d) refl refl

cancelled_closed_after :
    (label : Text) (es : List Event)
    → (after label es).cancelled ≡ true
    → is_closed (after label es).stdin ≡ true
unfolding after
cancelled_closed_after label [] h = cc
cancelled_closed_after label (e ∷ es) h =
    (step-Keeps e (after label es)).cancelled_closed (cancelled_closed_after label es) h

closed-stays :
    (label : Text) (es more : List Event)
    → is_closed (after label es).stdin ≡ true
    → (after label (more ++ es)).stdin ≡ (after label es).stdin
unfolding after
closed-stays label es [] h = refl
closed-stays label es (e ∷ more) h =
    let rest = closed-stays label es more h in
    (step-Keeps e (after label (more ++ es))).input_kept (rw rest h) ∙ rest

-- Once the helper was answered, or its input was dropped, nothing that happens later changes what
-- it was told; and a dismount that counts as cancelled is in that state, so that its helper is never
-- told to go on afterwards.
pub answer_final :
    (label : Text) (es more : List Event)
    → (((after label es).cancelled ≡ true) ⊎ (is_closed (after label es).stdin ≡ true))
    → ((after label (more ++ es)).stdin ≡ (after label es).stdin)
      × (is_closed (after label es).stdin ≡ true)
answer_final label es more (inl h) =
    let c = cancelled_closed_after label es h in (closed-stays label es more c, c)
answer_final label es more (inr c) = (closed-stays label es more c, c)

-- Polled at or after its deadline, a wait for the apps is over, and the helper's input is gone.
pub drive_apps_wait-ends :
    (signal : Option ℕ) (now : ℕ) (d : Dismount) (w : AppsWait)
    → d.waiting ≡ some w
    → leb w.deadline now ≡ true
    → ((drive_apps_wait signal now d).waiting ≡ none)
      × (is_closed (drive_apps_wait signal now d).stdin ≡ true)
unfolding drive_apps_wait
drive_apps_wait-ends signal now d w h t =
    ground (arith, drop-is_closed d.stdin, write-is_closed (codes "go" ++ 10 ∷ []) d.stdin)
