-- ===== src/Agent/Dismount/Invariant.antt =====
-- What a dismount has been through when its helper is told to go on, whatever the events were.
use veracage.Base.{
  ℕ, Bool-cases, leb, inl, inr, Option-cases, Text, codes, List, [], ◌∷◌, ◌++◌, Bool, true, false,
  ◌&&◌, ◌||◌, Option, none, some, ◌≡◌, refl, arith, ◌==◌, strip_prefix,
}
use mathlib.Core.Path.{subst}
use veracage.Agent.Paths.{is_some}
use veracage.Agent.Dismount.{
  Tool, Reply, running, wait_failed, ended, AppsWait, Stdin, held, dropped, answered, Dismount,
  Desk, set_asking, set_waiting, set_cancelled, set_refusal, drop_stdin, write_stdin, cancel, say,
  start_ask, ask_candidates, holder_app_names, ask_to_close_apps, handle, take_answer, drive_ask,
  is_new, drive_apps_wait, abort_ask, Event, line, ask_poll, wait_poll, compositor_gone, step,
  after,
}

-- The dialog's answer that is the human's yes.
abbrev is_yes : Reply → Bool
is_yes running = false
is_yes wait_failed = false
is_yes (ended none) = false
is_yes (ended (some code)) = code == 0

-- Whether the human said yes to a question on the screen, and `signal` is none that was there then.
unfoldable pub agreed_before : Text → Option ℕ → List Event → Bool
unfolding after
agreed_before label signal [] = false
agreed_before label signal (e ∷ es) =
    let earlier = agreed_before label signal es in
    elim e [
      | ask_poll runs seen now reply ↦
          (is_yes reply && is_some (after label es).asking && is_new signal seen) || earlier
      | _ ↦ earlier
    ]

-- Whether a signal that the apps are gone was seen after such a yes.
unfoldable pub released : Text → List Event → Bool
unfolding agreed_before
released label [] = false
released label (e ∷ es) =
    let earlier = released label es in
    elim e [ wait_poll signal now ↦ agreed_before label signal es || earlier | _ ↦ earlier ]

abbrev WaitAgreed : Text → Option AppsWait → List Event → Type 0
WaitAgreed label none es = Unit {0}
WaitAgreed label (some w) es =
    (signal : Option ℕ) → is_new signal w.asked_at ≡ true → agreed_before label signal es ≡ true

abbrev AnswerReleased : Text → Stdin → List Event → Type 0
AnswerReleased label (answered t) es = (t ≡ codes "go" ++ 10 ∷ []) × (released label es ≡ true)
AnswerReleased label _ es = Unit {0}

record Inv (label : Text) (es : List Event) (d : Dismount) : Type 0 where
  pub waiting_agreed : WaitAgreed label d.waiting es
  pub answer_released : AnswerReleased label d.stdin es

start_ask-waiting :
    (runs : Tool → Bool) (ts : List Tool) (d : Dismount) → (start_ask runs ts d).waiting ≡ d.waiting
unfolding start_ask
start_ask-waiting runs [] d = refl
start_ask-waiting runs (t ∷ ts) d = ground (arith, start_ask-waiting runs ts d)

-- Dropping the input, and putting a question, answer nothing.
drop_stdin-released :
    (label : Text) (es : List Event) (s : Stdin)
    → AnswerReleased label s es
    → AnswerReleased label (drop_stdin s) es
drop_stdin-released label es held h = tt
drop_stdin-released label es dropped h = tt
drop_stdin-released label es (answered t) h = h

start_ask-released :
    (label : Text) (es : List Event) (runs : Tool → Bool) (ts : List Tool) (d : Dismount)
    → AnswerReleased label d.stdin es
    → AnswerReleased label (start_ask runs ts d).stdin es
unfolding start_ask
start_ask-released label es runs [] d h = drop_stdin-released label es d.stdin h
start_ask-released label es runs (t ∷ ts) d h =
    ground (arith, start_ask-released label es runs ts d)

-- What was so stays so when more events come.
agreed-more :
    (label : Text) (signal : Option ℕ) (e : Event) (es : List Event)
    → agreed_before label signal es ≡ true
    → agreed_before label signal (e ∷ es) ≡ true
unfolding agreed_before
agreed-more label signal e es h = ground arith

released-more :
    (label : Text) (e : Event) (es : List Event)
    → released label es ≡ true
    → released label (e ∷ es) ≡ true
unfolding released
released-more label e es h = ground arith

WaitAgreed-more :
    (label : Text) (w : Option AppsWait) (e : Event) (es : List Event)
    → WaitAgreed label w es
    → WaitAgreed label w (e ∷ es)
WaitAgreed-more label none e es h = tt
WaitAgreed-more label (some w) e es h = λ signal new. agreed-more label signal e es (h signal new)

AnswerReleased-more :
    (label : Text) (s : Stdin) (e : Event) (es : List Event)
    → AnswerReleased label s es
    → AnswerReleased label s (e ∷ es)
AnswerReleased-more label (answered t) e es h = (h.0, released-more label e es h.1)
AnswerReleased-more label held e es h = tt
AnswerReleased-more label dropped e es h = tt

Inv-more :
    (label : Text) (e : Event) (es : List Event) (d : Dismount)
    → Inv label es d
    → Inv label (e ∷ es) d
Inv-more label e es d h = record {
  waiting_agreed = WaitAgreed-more label d.waiting e es h.waiting_agreed;
  answer_released = AnswerReleased-more label d.stdin e es h.answer_released;
}

start_ask-Inv :
    (label : Text) (es : List Event) (runs : Tool → Bool) (ts : List Tool) (d : Dismount)
    → Inv label es d
    → Inv label es (start_ask runs ts d)
start_ask-Inv label es runs ts d h = record {
  waiting_agreed = rw (start_ask-waiting runs ts d) h.waiting_agreed;
  answer_released = start_ask-released label es runs ts d h.answer_released;
}

ask_to_close_apps-Inv :
    (label : Text) (es : List Event) (k : Desk) (holders : Text) (d : Dismount)
    → Inv label es d
    → Inv label es (ask_to_close_apps k holders d)
unfolding ask_to_close_apps
ask_to_close_apps-Inv label es k holders d h =
    start_ask-Inv label es k.runs
      (ask_candidates k.is_file
        (codes "Close " ++ (holder_app_names k.apps holders ++ codes " to continue."))
        (codes "Close") (codes "Cancel"))
      d h

handled-Inv :
    (label : Text) (es : List Event) (k : Desk) (d : Dismount) (q r : Option Text)
    → Inv label es d
    → Inv label es (elim q [
      | some holders ↦ ask_to_close_apps k holders d
      | none ↦ elim r [ some reason ↦ set_refusal reason d | none ↦ d ]
    ])
handled-Inv label es k d (some holders) r h = ask_to_close_apps-Inv label es k holders d h
handled-Inv label es k d none (some reason) h = record {
  waiting_agreed = h.waiting_agreed;
  answer_released = h.answer_released;
}
handled-Inv label es k d none none h = h

handle-Inv :
    (label : Text) (es : List Event) (k : Desk) (l : Text) (d : Dismount)
    → Inv label es d
    → Inv label es (handle k l d)
unfolding handle
handle-Inv label es k l d h =
    handled-Inv label es k d (strip_prefix (codes "holders" ++ 9 ∷ []) l)
      (strip_prefix (codes "busy" ++ 9 ∷ []) l) h

unasked-Inv :
    (label : Text) (es : List Event) (d : Dismount)
    → Inv label es d
    → Inv label es (set_asking none d)
unasked-Inv label es d h = record {
  waiting_agreed = h.waiting_agreed;
  answer_released = h.answer_released;
}

refused-Inv :
    (label : Text) (es : List Event) (d : Dismount)
    → Inv label es d
    → Inv label es (cancel (set_cancelled (set_asking none d)))
refused-Inv label es d h = record {
  waiting_agreed = h.waiting_agreed;
  answer_released = drop_stdin-released label es d.stdin h.answer_released;
}

-- An answer keeps what holds, where a yes is one.
take_answer-Inv :
    (label : Text) (es : List Event) (runs : Tool → Bool) (seen : Option ℕ) (now : ℕ)
    (rest : List Tool) (reply : Reply) (d : Dismount)
    → (is_yes reply ≡ true
        → (signal : Option ℕ) → is_new signal seen ≡ true
        → agreed_before label signal es ≡ true)
    → Inv label es d
    → Inv label es (take_answer runs seen now rest reply d)
unfolding take_answer
take_answer-Inv label es runs seen now rest running d y h = h
take_answer-Inv label es runs seen now rest wait_failed d y h =
    start_ask-Inv label es runs rest (set_asking none d) (unasked-Inv label es d h)
take_answer-Inv label es runs seen now rest (ended none) d y h =
    start_ask-Inv label es runs rest (set_asking none d) (unasked-Inv label es d h)
take_answer-Inv label es runs seen now rest (ended (some code)) d y h =
    elim (Bool-cases (code == 0)) [
      | inl e ↦
          rw (e, take_answer) (record { waiting_agreed = y e; answer_released = h.answer_released })
      | inr e ↦ elim (Bool-cases (code == 1)) [
        | inl e' ↦ rw (e, e', take_answer) (refused-Inv label es d h)
        | inr e' ↦
            rw (e, e', take_answer)
              (start_ask-Inv label es runs rest (set_asking none d) (unasked-Inv label es d h))
      ]
    ]

drive_ask-Inv :
    (label : Text) (es : List Event) (runs : Tool → Bool) (seen : Option ℕ) (now : ℕ)
    (reply : Reply)
    → Inv label es (after label es)
    → Inv label (ask_poll runs seen now reply ∷ es) (drive_ask runs seen now reply (after label es))
unfolding drive_ask
drive_ask-Inv label es runs seen now reply h = elim (Option-cases (after label es).asking) [
  | inl e ↦ rw (e, drive_ask) (Inv-more label (ask_poll runs seen now reply) es (after label es) h)
  | inr (a, e) ↦
      rw (e, drive_ask)
        (take_answer-Inv label (ask_poll runs seen now reply ∷ es) runs seen now a.rest reply
          (after label es) (λ y signal new. unfold agreed_before in (ground arith))
          (Inv-more label (ask_poll runs seen now reply) es (after label es) h))
]

write_stdin-released :
    (label : Text) (es : List Event) (signal : Option ℕ) (now : ℕ) (s : Stdin)
    → agreed_before label signal es ≡ true
    → AnswerReleased label s es
    → AnswerReleased label (write_stdin (codes "go" ++ 10 ∷ []) s) (wait_poll signal now ∷ es)
unfolding released
write_stdin-released label es signal now held a h = (refl, ground arith)
write_stdin-released label es signal now dropped a h = tt
write_stdin-released label es signal now (answered t) a h = (h.0, ground arith)

-- A new signal while the apps are waited for releases the answer.
told-Inv :
    (label : Text) (es : List Event) (signal : Option ℕ) (now : ℕ) (d : Dismount)
    → agreed_before label signal es ≡ true
    → Inv label es d
    → Inv label (wait_poll signal now ∷ es) (say (codes "go" ++ 10 ∷ []) (set_waiting none d))
told-Inv label es signal now d a h = record {
  waiting_agreed = tt;
  answer_released = write_stdin-released label es signal now d.stdin a h.answer_released;
}

given_up-Inv :
    (label : Text) (es : List Event) (signal : Option ℕ) (now : ℕ) (d : Dismount)
    → Inv label es d
    → Inv label (wait_poll signal now ∷ es) (cancel (set_waiting none d))
given_up-Inv label es signal now d h = record {
  waiting_agreed = tt;
  answer_released =
      AnswerReleased-more label (drop_stdin d.stdin) (wait_poll signal now) es
        (drop_stdin-released label es d.stdin h.answer_released);
}

drive_apps_wait-Inv :
    (label : Text) (es : List Event) (signal : Option ℕ) (now : ℕ) (d : Dismount)
    → Inv label es d
    → Inv label (wait_poll signal now ∷ es) (drive_apps_wait signal now d)
unfolding drive_apps_wait
drive_apps_wait-Inv label es signal now d h = elim (Option-cases d.waiting) [
  | inl e ↦ rw (e, drive_apps_wait) (Inv-more label (wait_poll signal now) es d h)
  | inr (w, e) ↦ elim (Bool-cases (is_new signal w.asked_at)) [
    | inl n ↦
        rw (e, n, drive_apps_wait)
          (told-Inv label es signal now d
            (subst (λ o. WaitAgreed label o es) e h.waiting_agreed signal n) h)
    | inr n ↦ elim (Bool-cases (leb w.deadline now)) [
      | inl t ↦ rw (e, n, t, drive_apps_wait) (given_up-Inv label es signal now d h)
      | inr t ↦ rw (e, n, t, drive_apps_wait) (Inv-more label (wait_poll signal now) es d h)
    ]
  ]
]

step-Inv :
    (label : Text) (e : Event) (es : List Event)
    → Inv label es (after label es)
    → Inv label (e ∷ es) (step e (after label es))
unfolding step
step-Inv label (line k l) es h =
    Inv-more label (line k l) es (handle k l (after label es))
      (handle-Inv label es k l (after label es) h)
step-Inv label (ask_poll runs seen now reply) es h = drive_ask-Inv label es runs seen now reply h
step-Inv label (wait_poll signal now) es h =
    drive_apps_wait-Inv label es signal now (after label es) h
step-Inv label compositor_gone es h =
    unfold abort_ask in
    unasked-Inv label (compositor_gone ∷ es) (after label es)
      (Inv-more label compositor_gone es (after label es) h)

after-Inv : (label : Text) (es : List Event) → Inv label es (after label es)
unfolding after
after-Inv label [] = record { waiting_agreed = tt; answer_released = tt }
after-Inv label (e ∷ es) = step-Inv label e es (after-Inv label es)

-- Whatever events a dismount goes through, a helper that was answered was told `go` and nothing
-- else, and that after the human said yes to a question on the screen and then a signal that the
-- apps are gone was seen which is not the one of the time of the yes.
pub answered_released :
    (label : Text) (es : List Event) (t : Text)
    → (after label es).stdin ≡ answered t
    → (t ≡ codes "go" ++ 10 ∷ []) × (released label es ≡ true)
answered_released label es t h =
    subst (λ s. AnswerReleased label s es) h (after-Inv label es).answer_released
