-- ===== src/Agent/Dismount.antt =====
-- One dismount of the broker (agent-rs/src/broker.rs): the conversation with the running
-- `veracage close-volume`, whose lines ask for the apps to be closed, and whose standard input waits
-- for `go` or its end. The polls are events: what the system answers in a poll is in the event.
pub mod Invariant
pub mod Final
use veracage.Base.{
  ℕ, ◌+◌, Text, codes, List, [], ◌∷◌, ◌++◌, map, Bool, true, false, not, ◌&&◌, ◌||◌, Option, none,
  some, if◌then◌else◌, text_eq, leb, ◌==◌, is_empty, keep, trim, split, strip_prefix, find_map,
  contains_text,
}
use veracage.Agent.Config.{App}
use veracage.Agent.Paths.{exec_basename, comm_matches, join}

-- A dialog program and its arguments.
abbrev pub Tool : Type 0
Tool = Text × List Text

-- `try_wait` of the dialog: it runs, it ended with a code or by a signal, or the wait failed.
pub data Reply : Type 0 where
  running wait_failed : Reply
  ended : Option ℕ → Reply

-- `Asking`
pub record Asking : Type 0 where
  pub tool : Tool
  pub rest : List Tool

-- `AppsWait`, with times in seconds.
pub record AppsWait : Type 0 where
  pub asked_at : Option ℕ
  pub deadline : ℕ

-- The helper's standard input: still held, dropped without a word, or dropped after these words.
pub data Stdin : Type 0 where
  held dropped : Stdin
  answered : Text → Stdin

-- `Dismount`, without the child and the channel of its lines.
pub record Dismount : Type 0 where
  pub label : Text
  pub stdin : Stdin
  pub waiting : Option AppsWait
  pub asking : Option Asking
  pub cancelled : Bool
  pub refusal : Option Text

-- What a question needs of the desktop: the configured apps, the programs that are there, and those
-- that start.
pub record Desk : Type 0 where
  pub apps : List App
  pub is_file : Text → Bool
  pub runs : Tool → Bool

-- The dismount that `close_volume` pushes.
abbrev pub new_dismount : Text → Dismount
new_dismount label = record {
  label = label;
  stdin = held;
  waiting = none;
  asking = none;
  cancelled = false;
  refusal = none;
}

-- `ChildStdin` taken and dropped.
abbrev pub drop_stdin : Stdin → Stdin
drop_stdin held = dropped
drop_stdin s = s

abbrev pub write_stdin : Text → Stdin → Stdin
write_stdin t held = answered t
write_stdin t s = s

-- `cancel`
abbrev pub cancel : Dismount → Dismount
cancel d = record {
  label = d.label;
  stdin = drop_stdin d.stdin;
  waiting = d.waiting;
  asking = d.asking;
  cancelled = d.cancelled;
  refusal = d.refusal;
}

-- `say`
abbrev pub say : Text → Dismount → Dismount
say t d = record {
  label = d.label;
  stdin = write_stdin t d.stdin;
  waiting = d.waiting;
  asking = d.asking;
  cancelled = d.cancelled;
  refusal = d.refusal;
}

abbrev pub set_asking : Option Asking → Dismount → Dismount
set_asking a d = record {
  label = d.label;
  stdin = d.stdin;
  waiting = d.waiting;
  asking = a;
  cancelled = d.cancelled;
  refusal = d.refusal;
}

abbrev pub set_waiting : Option AppsWait → Dismount → Dismount
set_waiting w d = record {
  label = d.label;
  stdin = d.stdin;
  waiting = w;
  asking = d.asking;
  cancelled = d.cancelled;
  refusal = d.refusal;
}

abbrev pub set_cancelled : Dismount → Dismount
set_cancelled d = record {
  label = d.label;
  stdin = d.stdin;
  waiting = d.waiting;
  asking = d.asking;
  cancelled = true;
  refusal = d.refusal;
}

abbrev pub set_refusal : Text → Dismount → Dismount
set_refusal why d = record {
  label = d.label;
  stdin = d.stdin;
  waiting = d.waiting;
  asking = d.asking;
  cancelled = d.cancelled;
  refusal = some why;
}

-- The name of the first app whose program a command name of /proc names.
unfoldable pub app_named : List App → Text → Option Text
unfolding comm_matches exec_basename
app_named [] comm = none
app_named (a ∷ apps) comm =
    if comm_matches comm (exec_basename a.exec) then some a.name else app_named apps comm

unfoldable pub add_names : List App → List Text → List Text → List Text
unfolding app_named contains_text
add_names apps names [] = names
add_names apps names (comm ∷ comms) = elim (app_named apps comm) [
  | none ↦ add_names apps names comms
  | some n ↦ add_names apps (if contains_text names n then names else names ++ n ∷ []) comms
]

-- `holder_app_names`
unfoldable pub holder_app_names : List App → Text → Text
unfolding add_names join trim
holder_app_names apps raw =
    let names = add_names apps [] (keep (λ c. not (is_empty c)) (map trim (split b',' raw))) in
    if is_empty names then codes "Apps inside Veracage" else join (codes ", ") names

-- `trusted_tool`
abbrev pub trusted_tool : (Text → Bool) → Text → Option Text
trusted_tool is_file name =
    if is_file (codes "/usr/bin/" ++ name)
    then some (codes "/usr/bin/" ++ name)
    else if is_file (codes "/bin/" ++ name)
    then some (codes "/bin/" ++ name)
    else none

abbrev candidate : (Text → Bool) → Text → List Text → List Tool
candidate is_file name args = elim (trusted_tool is_file name) [
  | some path ↦ (path, args) ∷ []
  | none ↦ []
]

-- `ask_candidates`
unfoldable pub ask_candidates : (Text → Bool) → Text → Text → Text → List Tool
ask_candidates is_file msg agree refuse =
    candidate is_file (codes "kdialog")
      (codes "--yesno" ∷ msg ∷ codes "--yes-label" ∷ agree ∷ codes "--no-label" ∷ refuse ∷ [])
    ++ candidate is_file (codes "zenity") (
        codes "--question"
        ∷ codes "--text"
        ∷ msg
        ∷ codes "--ok-label"
        ∷ agree
        ∷ codes "--cancel-label"
        ∷ refuse
        ∷ [])

-- `start_ask`
unfoldable pub start_ask : (Tool → Bool) → List Tool → Dismount → Dismount
start_ask runs [] d = cancel (set_cancelled d)
start_ask runs (t ∷ ts) d = elim (runs t) [
  | true ↦ set_asking (some (record { tool = t; rest = ts })) d
  | false ↦ start_ask runs ts d
]

-- `ask_to_close_apps`
unfoldable pub ask_to_close_apps : Desk → Text → Dismount → Dismount
unfolding start_ask
ask_to_close_apps k holders d =
    start_ask k.runs
      (ask_candidates k.is_file
        (codes "Close " ++ (holder_app_names k.apps holders ++ codes " to continue."))
        (codes "Close") (codes "Cancel"))
      d

-- `handle`
unfoldable pub handle : Desk → Text → Dismount → Dismount
unfolding ask_to_close_apps strip_prefix
handle k line d = elim (strip_prefix (codes "holders" ++ 9 ∷ []) line) [
  | some holders ↦ ask_to_close_apps k holders d
  | none ↦ elim (strip_prefix (codes "busy" ++ 9 ∷ []) line) [
    | some reason ↦ set_refusal reason d
    | none ↦ d
  ]
]

-- `APPS_CLOSED_WAIT`
abbrev pub apps_closed_wait : ℕ
apps_closed_wait = 180

-- An answered question: `Yes` waits for the apps, `No` cancels, a failed tool makes way for the next.
unfoldable pub take_answer : (Tool → Bool) → Option ℕ → ℕ → List Tool → Reply → Dismount → Dismount
unfolding start_ask
take_answer runs signal now rest running d = d
take_answer runs signal now rest wait_failed d = start_ask runs rest (set_asking none d)
take_answer runs signal now rest (ended none) d = start_ask runs rest (set_asking none d)
take_answer runs signal now rest (ended (some code)) d =
    if code == 0
    then set_waiting (some (record { asked_at = signal; deadline = now + apps_closed_wait }))
        (set_asking none d)
    else if code == 1
    then cancel (set_cancelled (set_asking none d))
    else start_ask runs rest (set_asking none d)

-- `drive_ask`, with the time of the last `closeapps.done` and the clock.
unfoldable pub drive_ask : (Tool → Bool) → Option ℕ → ℕ → Reply → Dismount → Dismount
unfolding take_answer
drive_ask runs signal now reply d = elim d.asking [
  | none ↦ d
  | some a ↦ take_answer runs signal now a.rest reply d
]

-- Whether a signal came that is not the one of before.
abbrev pub is_new : Option ℕ → Option ℕ → Bool
is_new none before = false
is_new (some t) none = true
is_new (some t) (some b) = not (t == b)

-- `drive_apps_wait`
unfoldable pub drive_apps_wait : Option ℕ → ℕ → Dismount → Dismount
drive_apps_wait signal now d = elim d.waiting [
  | none ↦ d
  | some w ↦
      if is_new signal w.asked_at
      then say (codes "go" ++ 10 ∷ []) (set_waiting none d)
      else if leb w.deadline now
      then cancel (set_waiting none d)
      else d
]

-- `abort_ask`
unfoldable pub abort_ask : Dismount → Dismount
abort_ask d = set_asking none d

-- `drain_lines`
unfoldable pub drain_lines : List Text → Dismount → Dismount
unfolding strip_prefix
drain_lines [] d = d
drain_lines (l ∷ ls) d = elim (strip_prefix (codes "busy" ++ 9 ∷ []) l) [
  | some reason ↦ drain_lines ls (set_refusal reason d)
  | none ↦ drain_lines ls d
]

-- What can happen to a dismount: a line of its helper, a poll of its question, a poll of the signal
-- that the apps are gone, and the end of the compositor.
pub data Event : Type 0 where
  line : Desk → Text → Event
  ask_poll : (Tool → Bool) → Option ℕ → ℕ → Reply → Event
  wait_poll : Option ℕ → ℕ → Event
  compositor_gone : Event

unfoldable pub step : Event → Dismount → Dismount
unfolding handle drive_ask drive_apps_wait abort_ask
step (line k l) d = handle k l d
step (ask_poll runs signal now reply) d = drive_ask runs signal now reply d
step (wait_poll signal now) d = drive_apps_wait signal now d
step compositor_gone d = abort_ask d

-- The dismount after the events, the newest of which stands first.
unfoldable pub after : Text → List Event → Dismount
unfolding step
after label [] = new_dismount label
after label (e ∷ es) = step e (after label es)
