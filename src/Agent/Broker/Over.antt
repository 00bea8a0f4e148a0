-- ===== src/Agent/Broker/Over.antt =====
-- When the broker's loop ends.
use veracage.Base.{
  ℕ, Text, List, [], ◌∷◌, ◌++◌, map, Bool, true, false, not, ◌||◌, none, some, is_empty, keep, ◌≡◌,
  refl, arith, ap, ◌∙◌,
}
use veracage.Agent.Paths.{is_some}
use veracage.Agent.Commands.{read_commands}
use veracage.Agent.Dismount.{Dismount}
use veracage.Agent.Broker.{
  OpenJob, Broker, World, set_status, add_job, add_open, add_dialog, set_dismounts,
}
use veracage.Agent.Broker.Keeps.{IsKept, add-full, turn-P}
use veracage.Agent.Broker.Turn.{
  runs_on, reap_dismounts, reap_opens, show_errors, retry_all, reaped, clear_status, reap,
  drive_dismount, drive_dismounts, dispatch_all, answer_open, answer_config, abort_asks,
  watch_compositor, is_idle, differs_at, exits, turn,
}

-- The broker has something in flight.
IsBusy : Broker → Type 0
IsBusy b = is_idle b ≡ false

job-IsBusy : (c : ℕ) (b : Broker) → IsBusy (add_job (some c) b)
unfolding IsBusy
job-IsBusy c b = ground (arith, add-full b.jobs c)

opened-IsBusy : (j : OpenJob) (t : Text) (b : Broker) → IsBusy (add_open j (set_status t b))
unfolding IsBusy
opened-IsBusy j t b = ground (arith, add-full b.opens j)

dialog-IsBusy : (sub : Text) (child : ℕ) (b : Broker) → IsBusy (add_dialog sub child b)
unfolding IsBusy
dialog-IsBusy sub child b = ground (arith, add-full b.dialogs (sub, child))

dismount-IsBusy :
    (ds : List (ℕ × Dismount)) (b : Broker)
    → (is_empty ds ≡ true → is_empty b.dismounts ≡ true)
    → IsBusy b
    → IsBusy (set_dismounts ds b)
unfolding IsBusy
dismount-IsBusy ds b e h = ground arith

IsBusy-IsKept : IsKept IsBusy
unfolding IsBusy
IsBusy-IsKept = record {
  job = λ c b h. job-IsBusy c b;
  opened = λ j t b h. opened-IsBusy j t b;
  dialog = λ sub child b n h. dialog-IsBusy sub child b;
  dismount = dismount-IsBusy;
  command = λ n b h. h;
  request = λ t b h. h;
  config = λ t b h. h;
  compositor = λ b h. h;
}

-- Whether some child of the broker still runs.
abbrev some_open_runs : World → List OpenJob → Bool
some_open_runs w [] = false
some_open_runs w (j ∷ js) = runs_on w j.child || some_open_runs w js

abbrev some_job_runs : World → List ℕ → Bool
some_job_runs w [] = false
some_job_runs w (c ∷ cs) = runs_on w c || some_job_runs w cs

abbrev some_dialog_runs : World → List (Text × ℕ) → Bool
some_dialog_runs w [] = false
some_dialog_runs w (d ∷ ds) = runs_on w d.1 || some_dialog_runs w ds

abbrev some_dismount_runs : World → List (ℕ × Dismount) → Bool
some_dismount_runs w [] = false
some_dismount_runs w (d ∷ ds) = runs_on w d.0 || some_dismount_runs w ds

unfoldable pub some_runs : World → Broker → Bool
some_runs w b =
    some_job_runs w b.jobs
    || some_dismount_runs w b.dismounts
    || some_dialog_runs w b.dialogs
    || some_open_runs w b.opens

keep_jobs : (w : World) (cs : List ℕ) → is_empty (keep (runs_on w) cs) ≡ not (some_job_runs w cs)
keep_jobs w [] = refl
keep_jobs w (c ∷ cs) = ground (arith, keep_jobs w cs)

keep_dialogs :
    (w : World) (ds : List (Text × ℕ))
    → is_empty (keep (λ d. runs_on w d.1) ds) ≡ not (some_dialog_runs w ds)
keep_dialogs w [] = refl
keep_dialogs w (d ∷ ds) = ground (arith, keep_dialogs w ds)

keep_opens :
    (w : World) (js : List OpenJob) → is_empty (reap_opens w js).0 ≡ not (some_open_runs w js)
unfolding reap_opens
keep_opens w [] = refl
keep_opens w (j ∷ js) = ground (arith, keep_opens w js)

keep_dismounts :
    (w : World) (ds : List (ℕ × Dismount))
    → is_empty (reap_dismounts w ds).0 ≡ not (some_dismount_runs w ds)
unfolding reap_dismounts
keep_dismounts w [] = refl
keep_dismounts w ((child, d) ∷ ds) = ground (arith, keep_dismounts w ds)

clear_status-idle : (w : World) (b : Broker) → is_idle (clear_status w b) ≡ is_idle b
clear_status-idle w b = ground arith

reaped-idle : (w : World) (b : Broker) → is_idle (reaped w b) ≡ not (some_runs w b)
unfolding reaped some_runs
reaped-idle w b = ground (
  arith,
  keep_jobs w b.jobs,
  keep_dialogs w b.dialogs,
  keep_opens w b.opens,
  keep_dismounts w b.dismounts,
)

turn-busy :
    (w : World) (ws vs : ℕ → World) (b : Broker)
    → some_runs w b ≡ true
    → is_idle (turn w ws vs b) ≡ false
unfolding IsBusy
turn-busy w ws vs b h =
    turn-P IsBusy IsBusy-IsKept w ws vs b
      (ground (arith, clear_status-idle w (reaped w b), reaped-idle w b))

exits-needs_idle : (w : World) (b : Broker) → is_idle b ≡ false → exits w b ≡ false
unfolding exits
exits-needs_idle w b h = ground arith

-- After a turn in which some child of the broker, an open, a dismount, a dialog or another job, has
-- not ended, the loop goes on.
pub exits-nothing_runs :
    (w : World) (ws vs : ℕ → World) (b : Broker)
    → some_runs w b ≡ true
    → exits w (turn w ws vs b) ≡ false
exits-nothing_runs w ws vs b h = exits-needs_idle w (turn w ws vs b) (turn-busy w ws vs b h)

-- A turn in which nothing new comes up: no error dialog starts, no passphrase is given again, no
-- verb, launch or change of the configuration arrives.
pub record IsQuiet (w : World) (b : Broker) : Type 0 where
  pub no_error : (t : Text) → w.error_shown t ≡ none
  pub no_retry : (reap_opens w b.opens).2 ≡ []
  pub no_verb : read_commands w.log b.cmd_seen ≡ []
  pub no_launch : is_some w.open_req ≡ false
  pub no_config : differs_at w.cfg b.cfg_seen ≡ false

show_errors-quiet :
    (w : World) (ts : List Text) (b : Broker)
    → ((t : Text) → w.error_shown t ≡ none)
    → show_errors w ts b ≡ b
unfolding show_errors
show_errors-quiet w [] b h = refl
show_errors-quiet w (t ∷ ts) b h = rw (h t) (show_errors-quiet w ts b h)

reap-quiet :
    (w : World) (ws : ℕ → World) (b : Broker)
    → IsQuiet w b
    → reap w ws b ≡ clear_status w (reaped w b)
unfolding reap retry_all
reap-quiet w ws b q = rw (q.no_retry) (
    show_errors-quiet w ((reap_dismounts w b.dismounts).1 ++ (reap_opens w b.opens).1)
      (clear_status w (reaped w b)) q.no_error)

-- What the broker has seen does not change when it takes children out.
cleared-cmd_seen :
    (w : World) (b : Broker)
    → (drive_dismounts w (clear_status w (reaped w b))).cmd_seen ≡ b.cmd_seen
unfolding reaped drive_dismounts
cleared-cmd_seen w b = ground arith

cleared-cfg_seen :
    (w : World) (b : Broker)
    → (drive_dismounts w (clear_status w (reaped w b))).cfg_seen ≡ b.cfg_seen
unfolding reaped drive_dismounts
cleared-cfg_seen w b = ground arith

cleared-comp_seen :
    (w : World) (b : Broker)
    → (drive_dismounts w (clear_status w (reaped w b))).comp_seen ≡ b.comp_seen
unfolding reaped drive_dismounts
cleared-comp_seen w b = ground arith

answers-quiet :
    (w : World) (c : Broker)
    → is_some w.open_req ≡ false
    → differs_at w.cfg c.cfg_seen ≡ false
    → answer_config w (answer_open w c) ≡ c
unfolding answer_config answer_open
answers-quiet w c o d = rw (o) (rw d refl)

-- The part of a turn that follows the reaping.
abbrev rest_of_turn : World → (ℕ → World) → Broker → Broker
rest_of_turn w vs c =
    watch_compositor w
      (answer_config w (answer_open w (dispatch_all vs 0 (read_commands w.log c.cmd_seen) c)))

rest-quiet :
    (w : World) (vs : ℕ → World) (c : Broker)
    → read_commands w.log c.cmd_seen ≡ []
    → is_some w.open_req ≡ false
    → differs_at w.cfg c.cfg_seen ≡ false
    → rest_of_turn w vs c ≡ watch_compositor w c
unfolding dispatch_all
rest-quiet w vs c r o d = rw r (ap (watch_compositor w) (answers-quiet w c o d))

turn-quiet :
    (w : World) (ws vs : ℕ → World) (b : Broker)
    → IsQuiet w b
    → turn w ws vs b ≡ watch_compositor w (drive_dismounts w (clear_status w (reaped w b)))
unfolding turn
turn-quiet w ws vs b q =
    ap (λ c. rest_of_turn w vs (drive_dismounts w c)) (reap-quiet w ws b q)
    ∙ rest-quiet w vs (drive_dismounts w (clear_status w (reaped w b)))
        (rw (cleared-cmd_seen w b) q.no_verb) q.no_launch (rw (cleared-cfg_seen w b) q.no_config)

-- An idle broker stays idle when it drives its dismounts, none, and looks at the compositor.
map_nil :
    (w : World) (ds : List (ℕ × Dismount))
    → is_empty ds ≡ true
    → is_empty (map (drive_dismount w) ds) ≡ true
map_nil w [] h = refl
map_nil w (d ∷ ds) h = cc

driven-idle : (w : World) (b : Broker) → is_idle b ≡ true → is_idle (drive_dismounts w b) ≡ true
unfolding drive_dismounts
driven-idle w b h = ground (arith, map_nil w b.dismounts)

abort_nil : (ds : List (ℕ × Dismount)) → is_empty ds ≡ true → is_empty (abort_asks ds) ≡ true
unfolding abort_asks
abort_nil [] h = refl
abort_nil (d ∷ ds) h = cc

watched-idle : (w : World) (b : Broker) → is_idle b ≡ true → is_idle (watch_compositor w b) ≡ true
unfolding watch_compositor
watched-idle w b h = ground (arith, abort_nil b.dismounts)

watched-comp_seen :
    (w : World) (b : Broker) → b.comp_seen ≡ true → (watch_compositor w b).comp_seen ≡ true
unfolding watch_compositor
watched-comp_seen w b h = ground arith

exits_when :
    (w : World) (b : Broker)
    → is_idle b ≡ true
    → b.comp_seen ≡ true
    → w.still_up ≡ false
    → exits w b ≡ true
unfolding exits
exits_when w b i s u = ground arith

-- Once the compositor was up, the second look for it in a turn does not find it, every child of the
-- broker has ended, and nothing new comes up in the turn, the loop ends after the turn.
pub session_over-exits :
    (w : World) (ws vs : ℕ → World) (b : Broker)
    → b.comp_seen ≡ true
    → w.still_up ≡ false
    → some_runs w b ≡ false
    → IsQuiet w b
    → exits w (turn w ws vs b) ≡ true
session_over-exits w ws vs b s u r q = rw (turn-quiet w ws vs b q) (
    exits_when w (watch_compositor w (drive_dismounts w (clear_status w (reaped w b))))
      (watched-idle w (drive_dismounts w (clear_status w (reaped w b))) (
        driven-idle w (clear_status w (reaped w b))
          (clear_status-idle w (reaped w b) ∙ (reaped-idle w b ∙ rw r refl))))
      (watched-comp_seen w (drive_dismounts w (clear_status w (reaped w b)))
        (cleared-comp_seen w b ∙ s))
      u)
