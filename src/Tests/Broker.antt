-- ===== src/Tests/Broker.antt =====
-- The properties of the broker at concrete inputs.
use veracage.Base.{
  zero, suc, Text, codes, List, [], ◌∷◌, ◌++◌, map, Bool, true, false, Option, none, some, text_eq,
  ◌≡◌, inr, refl, arith, text_code,
}
use veracage.Agent.Paths.{exec_basename, file_name, last_name, comm_matches, join}
use veracage.Agent.Config.{App}
use veracage.Agent.Commands.{Command, read_commands, last_command_nonce, drain}
use veracage.Agent.Commands.Backlog.{backlog-skipped}
use veracage.Agent.Commands.Drain.{IsVerb, drain-all}
use veracage.Agent.Dismount.{
  running, ended, answered, Desk, new_dismount, app_named, add_names, holder_app_names,
  ask_candidates, start_ask, ask_to_close_apps, handle, take_answer, drive_ask, drive_apps_wait,
  abort_ask, drain_lines, Event, line, ask_poll, wait_poll, step, after,
}
use veracage.Agent.Dismount.Final.{is_closed, answer_final}
use veracage.Agent.Dismount.Invariant.{released, answered_released}
use veracage.Agent.Broker.{Broker, World}
use veracage.Agent.Broker.Dialogs.{Inv, is_distinct, Turn, turns, turns-Inv}
use veracage.Agent.Broker.Over.{some_runs, IsQuiet, exits-nothing_runs, session_over-exits}
use veracage.Agent.Broker.Turn.{reap_opens, dismount_errors, exits, turn}
use veracage.Agent.Broker.Unasked.{unasked-unreported}
use veracage.Compositor.Toolbar.Commands.{commands_body}

abbrev apps : List App
apps =
    record { key = codes "dolphin"; name = codes "Dolphin"; exec = codes "/usr/bin/dolphin" } ∷ []

abbrev desk : Desk
desk = record { apps = apps; is_file = λ p. true; runs = λ t. true }

abbrev holders_line : Text
holders_line = codes "holders" ++ 9 ∷ codes "kioslave5, dolphin"

-- The helper asks, the human says yes, and then a new signal comes.
abbrev agreed : List Event
agreed =
    wait_poll (some 7) 20
    ∷ wait_poll (some 5) 11
    ∷ ask_poll (λ t. true) (some 5) 10 (ended (some 0))
    ∷ ask_poll (λ t. true) none 9 running
    ∷ line desk holders_line
    ∷ []

names_dolphin : holder_app_names apps (codes "kioslave5, dolphin, dolphin") ≡ codes "Dolphin"
unfolding holder_app_names add_names app_named comm_matches exec_basename file_name last_name join
    text_code
names_dolphin = refl

agreed_answered : (after (codes "work") agreed).stdin ≡ answered (codes "go" ++ 10 ∷ [])
unfolding after step handle ask_to_close_apps start_ask ask_candidates drive_ask take_answer
    drive_apps_wait text_code
agreed_answered = refl

answered_released_example :
    (codes "go" ++ 10 ∷ [] ≡ codes "go" ++ 10 ∷ []) × (released (codes "work") agreed ≡ true)
answered_released_example =
    answered_released (codes "work") agreed (codes "go" ++ 10 ∷ []) agreed_answered

agreed_closed : is_closed (after (codes "work") agreed).stdin ≡ true
agreed_closed = rw agreed_answered refl

answer_final_example :
    ((after (codes "work") (wait_poll none 400 ∷ agreed)).stdin
      ≡ (after (codes "work") agreed).stdin)
    × (is_closed (after (codes "work") agreed).stdin ≡ true)
answer_final_example =
    answer_final (codes "work") agreed (wait_poll none 400 ∷ []) (inr agreed_closed)

abbrev close_work : Command
close_work = (10, codes "close-volume:work")

abbrev close_private : Command
close_private = (11, codes "close-volume:private")

abbrev help : Command
help = (12, codes "help")

close_work-IsVerb : IsVerb close_work
unfolding text_code
close_work-IsVerb = record {
  nonce_small = omega arith;
  one_line = refl;
  trimmed = refl;
  nonempty = refl;
}

close_private-IsVerb : IsVerb close_private
unfolding text_code
close_private-IsVerb = record {
  nonce_small = omega arith;
  one_line = refl;
  trimmed = refl;
  nonempty = refl;
}

help-IsVerb : IsVerb help
unfolding text_code
help-IsVerb = record { nonce_small = omega arith; one_line = refl; trimmed = refl; nonempty = refl }

drain-all_example :
    drain
      (some 10)
      (commands_body (close_work ∷ []))
      (map commands_body ((close_private ∷ help ∷ []) ∷ [] ∷ []))
    ≡ close_private ∷ help ∷ []
drain-all_example =
    drain-all (some 10) (close_work ∷ []) ((close_private ∷ help ∷ []) ∷ [] ∷ [])
      (close_work-IsVerb, tt) refl
      (((close_private-IsVerb, (help-IsVerb, tt)), refl, refl), ((tt, refl, refl), tt))

backlog-skipped_example :
    read_commands
      (some (commands_body (help ∷ []) ++ codes "garbage"))
      (last_command_nonce (some (commands_body (help ∷ []) ++ codes "garbage")))
    ≡ []
backlog-skipped_example = backlog-skipped (some (commands_body (help ∷ []) ++ codes "garbage"))

-- A turn in which the help dialog starts, and all children but the dialog have ended.
abbrev world : Option Text → Bool → World
world log up = record {
  published = true;
  removed = true;
  has_bin = true;
  picked = none;
  prompts = record { has_kdialog = false; kdialog = λ a. none; own = λ a. none };
  open_started = λ a p. some 1;
  dialog_started = λ k. some 2;
  close_started = λ l. some 3;
  exchange_started = some 4;
  sync_started = some 5;
  error_shown = λ t. none;
  ended = λ c. some (some 0);
  desk = desk;
  said = λ c. [];
  last_words = λ c. [];
  reply = λ c. running;
  apps_closed = none;
  now = 0;
  log = log;
  open_req = none;
  cfg = none;
  comp_up = up;
  still_up = up;
  waited_long = false;
}

abbrev broker : Broker
broker = record {
  jobs = 9 ∷ [];
  dismounts = (8, new_dismount (codes "work")) ∷ [];
  dialogs = (codes "_help", 7) ∷ [];
  opens = [];
  cmd_seen = some 10;
  open_seen = none;
  cfg_seen = none;
  comp_seen = true;
  status = [];
}

abbrev one_turn : Turn
one_turn = (
  world (some (commands_body (close_private ∷ help ∷ []))) true,
  (λ i. world none true),
  (λ i. world none true),
)

broker-Inv : Inv broker
unfolding is_distinct text_eq
broker-Inv = record { one_of_each = refl; noted = λ e. cc }

turns-Inv_example : Inv (turns (one_turn ∷ one_turn ∷ []) broker)
turns-Inv_example = turns-Inv (one_turn ∷ one_turn ∷ []) broker refl broker-Inv

-- All but the dismount have ended.
abbrev dismount_runs : World
dismount_runs = record (world none false) {
  ended = λ c. elim c [ zero ↦ none | suc d ↦ some (some 0) ];
}

abbrev busy : Broker
busy = record broker { dismounts = (0, new_dismount (codes "work")) ∷ [] }

exits-nothing_runs_example :
    exits dismount_runs (turn dismount_runs (λ i. dismount_runs) (λ i. dismount_runs) busy) ≡ false
exits-nothing_runs_example =
    exits-nothing_runs dismount_runs (λ i. dismount_runs) (λ i. dismount_runs) busy
      (unfold some_runs in refl)

quiet : IsQuiet (world none false) broker
unfolding reap_opens read_commands
quiet = record {
  no_error = λ t. refl;
  no_retry = refl;
  no_verb = refl;
  no_launch = refl;
  no_config = refl;
}

session_over-exits_example :
    exits
      (world none false)
      (turn (world none false) (λ i. world none false) (λ i. world none false) broker)
    ≡ true
session_over-exits_example =
    session_over-exits (world none false) (λ i. world none false) (λ i. world none false) broker
      refl refl (unfold some_runs in refl) quiet

abbrev bare_desk : Desk
bare_desk = record { apps = apps; is_file = λ p. false; runs = λ t. false }

abbrev last_words_are : List Text
last_words_are = (codes "busy" ++ 9 ∷ codes "apps still use it") ∷ []

unasked-unreported_example :
    dismount_errors (some 6) (
      drain_lines last_words_are (
        abort_ask (
          handle bare_desk (codes "holders" ++ 9 ∷ codes "dolphin") (new_dismount (codes "work")))))
    ≡ []
unasked-unreported_example =
    unasked-unreported bare_desk (codes "work") (codes "dolphin") (some 6) last_words_are
      (λ t. refl)
