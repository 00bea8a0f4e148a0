-- ===== src/Agent/Broker/Turn.antt =====
-- One turn of `run_broker`'s loop (agent-rs/src/broker.rs): `reap`, `drive_dismounts`, the verbs of
-- the log, the signals of other launches, and the exit decision. Publishing the app list is not part
-- of the broker's state.
use veracage.Base.{
  ℕ, suc, Text, codes, List, [], ◌∷◌, ◌++◌, map, Bool, true, false, not, ◌&&◌, ◌||◌, Option, none,
  some, if◌then◌else◌, ◌==◌, is_empty, keep, to_dec,
}
use veracage.Agent.Paths.{is_some}
use veracage.Agent.Commands.{Command, read_commands}
use veracage.Agent.Dismount.{Dismount, handle, drive_ask, drive_apps_wait, abort_ask, drain_lines}
use veracage.Agent.Broker.{
  OpenJob, Broker, World, base, publish_status, set_status, add_job, set_dismounts, open_with,
  open_flow, dispatch, sync_apps,
}

abbrev pub runs_on : World → ℕ → Bool
runs_on w child = not (is_some (w.ended child))

abbrev pub exit_crypt_failed : ℕ
exit_crypt_failed = 4

abbrev pub exit_fsck_failed : ℕ
exit_fsck_failed = 5

abbrev pub exit_volume_busy : ℕ
exit_volume_busy = 6

abbrev pub is_busy_exit : Option ℕ → Bool
is_busy_exit none = false
is_busy_exit (some code) = code == exit_volume_busy

abbrev pub reason_or : Text → Option Text → Text
reason_or t none = t
reason_or t (some u) = u

-- What a finished dismount has to say, after its last lines.
unfoldable pub dismount_errors : Option ℕ → Dismount → List Text
dismount_errors code d =
    if is_busy_exit code && not d.cancelled
    then (d.label
        ++ (codes " was not closed: "
            ++ (reason_or (codes "it is still in use") d.refusal ++ codes ".")))
      ∷ []
    else []

-- The dismounts that still run, and the errors of those that ended.
unfoldable pub reap_dismounts : World → List (ℕ × Dismount) → List (ℕ × Dismount) × List Text
unfolding dismount_errors abort_ask drain_lines
reap_dismounts w [] = ([], [])
reap_dismounts w ((child, d) ∷ ds) =
    let rest = reap_dismounts w ds in
    elim (w.ended child) [
      | none ↦ ((child, d) ∷ rest.0, rest.1)
      | some code ↦
          (rest.0, dismount_errors code (drain_lines (w.last_words child) (abort_ask d)) ++ rest.1)
    ]

-- What the end of an open means: nothing, another prompt for the volume, or an error.
pub data OpenEnd : Type 0 where
  quiet retry : OpenEnd
  error : Text → OpenEnd

unfoldable pub open_end : Option ℕ → Text → OpenEnd
unfolding base
open_end none volume = quiet
open_end (some code) volume =
    if code == 0
    then quiet
    else if code == exit_crypt_failed
    then retry
    else if code == exit_fsck_failed
    then error (base volume ++ codes " was not opened: its filesystem needs a repair.")
    else if code == 126 || code == 127
    then quiet
    else error (
        codes "Could not open "
        ++ (base volume ++ (codes " (exit " ++ (to_dec code ++ codes ")."))))

abbrev error_of : OpenEnd → List Text
error_of quiet = []
error_of retry = []
error_of (error t) = t ∷ []

abbrev retry_of : OpenJob → OpenEnd → List OpenJob
retry_of j quiet = []
retry_of j retry = j ∷ []
retry_of j (error t) = []

-- The opens that still run, the errors of those that ended, and those to prompt for again.
unfoldable pub reap_opens : World → List OpenJob → List OpenJob × List Text × List OpenJob
unfolding open_end
reap_opens w [] = ([], [], [])
reap_opens w (j ∷ js) =
    let rest = reap_opens w js in
    elim (w.ended j.child) [
      | none ↦ (j ∷ rest.0, rest.1, rest.2)
      | some code ↦ (
        rest.0,
        error_of (open_end code j.volume) ++ rest.1,
        retry_of j (open_end code j.volume) ++ rest.2,
      )
    ]

unfoldable pub show_errors : World → List Text → Broker → Broker
show_errors w [] b = b
show_errors w (t ∷ ts) b = show_errors w ts (add_job (w.error_shown t) b)

-- The prompts for the volumes whose passphrase was wrong, each with a world of its own.
unfoldable pub retry_all : (ℕ → World) → ℕ → List OpenJob → Broker → Broker
unfolding open_with
retry_all ws i [] b = b
retry_all ws i (j ∷ js) b = retry_all ws (suc i) js (open_with (ws i) j.volume j.app true b)

-- The broker after the children that ended are taken out.
unfoldable pub reaped : World → Broker → Broker
unfolding reap_dismounts reap_opens
reaped w b = record {
  jobs = keep (runs_on w) b.jobs;
  dismounts = (reap_dismounts w b.dismounts).0;
  dialogs = keep (λ d. runs_on w d.1) b.dialogs;
  opens = (reap_opens w b.opens).0;
  cmd_seen = b.cmd_seen;
  open_seen = b.open_seen;
  cfg_seen = b.cfg_seen;
  comp_seen = b.comp_seen;
  status = b.status;
}

abbrev pub clear_status : World → Broker → Broker
clear_status w b = if is_empty b.opens then set_status (publish_status w [] b.status) b else b

-- `reap`
unfoldable pub reap : World → (ℕ → World) → Broker → Broker
unfolding reaped reap_dismounts reap_opens show_errors retry_all publish_status
reap w ws b = retry_all ws 0 (reap_opens w b.opens).2 (
    show_errors w ((reap_dismounts w b.dismounts).1 ++ (reap_opens w b.opens).1)
      (clear_status w (reaped w b)))

unfoldable pub handle_all : World → List Text → Dismount → Dismount
unfolding handle
handle_all w [] d = d
handle_all w (l ∷ ls) d = handle_all w ls (handle w.desk l d)

-- `drive_dismounts`, for one of them and for all.
unfoldable pub drive_dismount : World → ℕ × Dismount → ℕ × Dismount
unfolding handle_all drive_ask drive_apps_wait
drive_dismount w (child, d) = (
  child,
  drive_apps_wait w.apps_closed w.now
      (drive_ask w.desk.runs w.apps_closed w.now (w.reply child) (handle_all w (w.said child) d)),
)

unfoldable pub drive_dismounts : World → Broker → Broker
unfolding drive_dismount
drive_dismounts w b = set_dismounts (map (drive_dismount w) b.dismounts) b

abbrev pub see_command : ℕ → Broker → Broker
see_command nonce b = record {
  jobs = b.jobs;
  dismounts = b.dismounts;
  dialogs = b.dialogs;
  opens = b.opens;
  cmd_seen = some nonce;
  open_seen = b.open_seen;
  cfg_seen = b.cfg_seen;
  comp_seen = b.comp_seen;
  status = b.status;
}

-- The verbs of a drain, in order.
unfoldable pub dispatch_all : (ℕ → World) → ℕ → List Command → Broker → Broker
unfolding dispatch
dispatch_all ws i [] b = b
dispatch_all ws i (c ∷ cs) b = dispatch_all ws (suc i) cs (dispatch (ws i) c.1 (see_command c.0 b))

abbrev pub differs_at : Option ℕ → Option ℕ → Bool
differs_at none none = false
differs_at none (some n) = true
differs_at (some n) none = true
differs_at (some n) (some m) = not (n == m)

abbrev pub see_open : Option ℕ → Broker → Broker
see_open t b = record {
  jobs = b.jobs;
  dismounts = b.dismounts;
  dialogs = b.dialogs;
  opens = b.opens;
  cmd_seen = b.cmd_seen;
  open_seen = t;
  cfg_seen = b.cfg_seen;
  comp_seen = b.comp_seen;
  status = b.status;
}

abbrev pub see_config : Option ℕ → Broker → Broker
see_config t b = record {
  jobs = b.jobs;
  dismounts = b.dismounts;
  dialogs = b.dialogs;
  opens = b.opens;
  cmd_seen = b.cmd_seen;
  open_seen = b.open_seen;
  cfg_seen = t;
  comp_seen = b.comp_seen;
  status = b.status;
}

-- Another launch asked for a volume.
unfoldable pub answer_open : World → Broker → Broker
unfolding open_flow
answer_open w b =
    if is_some w.open_req && differs_at w.open_req b.open_seen
    then open_flow w none (see_open w.open_req b)
    else b

-- The configuration changed.
unfoldable pub answer_config : World → Broker → Broker
answer_config w b = if differs_at w.cfg b.cfg_seen then sync_apps w (see_config w.cfg b) else b

unfoldable pub abort_asks : List (ℕ × Dismount) → List (ℕ × Dismount)
unfolding abort_ask
abort_asks [] = []
abort_asks ((child, d) ∷ ds) = (child, abort_ask d) ∷ abort_asks ds

abbrev pub see_compositor : Broker → Broker
see_compositor b = record {
  jobs = b.jobs;
  dismounts = b.dismounts;
  dialogs = b.dialogs;
  opens = b.opens;
  cmd_seen = b.cmd_seen;
  open_seen = b.open_seen;
  cfg_seen = b.cfg_seen;
  comp_seen = true;
  status = b.status;
}

-- Whether the compositor is up; once it was and is not, the questions go. The dialogs are killed,
-- and leave the list when they are reaped.
unfoldable pub watch_compositor : World → Broker → Broker
unfolding abort_asks
watch_compositor w b =
    if w.comp_up
    then see_compositor b
    else if b.comp_seen
    then set_dismounts (abort_asks b.dismounts) b
    else b

abbrev pub is_idle : Broker → Bool
is_idle b = is_empty b.jobs && is_empty b.dismounts && is_empty b.dialogs && is_empty b.opens

-- The exit decision.
unfoldable pub exits : World → Broker → Bool
exits w b = is_idle b && ((b.comp_seen && not w.still_up) || (not b.comp_seen && w.waited_long))

-- One turn of the loop, before its exit decision. `ws` are the worlds of the prompts, and `vs` those
-- of the verbs.
unfoldable pub turn : World → (ℕ → World) → (ℕ → World) → Broker → Broker
unfolding reap drive_dismounts dispatch_all answer_open answer_config watch_compositor read_commands
turn w ws vs b =
    let driven = drive_dismounts w (reap w ws b) in
    let told = dispatch_all vs 0 (read_commands w.log driven.cmd_seen) driven in
    watch_compositor w (answer_config w (answer_open w told))
