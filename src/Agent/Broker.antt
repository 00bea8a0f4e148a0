-- ===== src/Agent/Broker.antt =====
-- The broker (agent-rs/src/broker.rs): its children, the verbs it dispatches, what it does with a
-- child that ended, one turn of `run_broker`'s loop, and when that loop ends. What the system, the
-- human and the children answer is in a `World`, one for each call that asks.
pub mod Prompt
pub mod Turn
pub mod Keeps
pub mod Dialogs
pub mod Over
pub mod Unasked
use veracage.Base.{
  ℕ, suc, ◌+◌, Text, codes, List, [], ◌∷◌, ◌++◌, Bool, true, false, not, ◌&&◌, ◌||◌, Option, none,
  some, if◌then◌else◌, text_eq, ◌==◌, is_empty, any, keep, strip_prefix, to_dec, is_control, take,
  map, filter_map,
}
use veracage.Agent.Paths.{file_name, is_some}
use veracage.Agent.Commands.{Command, read_commands}
use veracage.Agent.Dismount.{
  Tool, Reply, running, Dismount, Desk, new_dismount, handle, drive_ask, drive_apps_wait, abort_ask,
  drain_lines,
}
use veracage.Agent.Broker.Prompt.{Prompts, prompt_passphrase}

-- `OpenJob`, with a number for its child.
pub record OpenJob : Type 0 where
  pub child : ℕ
  pub volume : Text
  pub app : Option Text

-- `Broker`, with the children by number, and the published progress note.
pub record Broker : Type 0 where
  pub jobs : List ℕ
  pub dismounts : List (ℕ × Dismount)
  pub dialogs : List (Text × ℕ)
  pub opens : List OpenJob
  pub cmd_seen : Option ℕ
  pub open_seen : Option ℕ
  pub cfg_seen : Option ℕ
  pub comp_seen : Bool
  pub status : Text

-- What is met: the publish directory and whether a file in it is written, or removed; the programs;
-- the children that start (by what they are given); how a child ended (`none` while it runs); the
-- lines of a dismount's helper; the poll of a question; signals and clocks; the files of the loop.
pub record World : Type 0 where
  pub published : Bool
  pub removed : Bool
  pub has_bin : Bool
  pub picked : Option Text
  pub prompts : Prompts
  pub open_started : List Text → Text → Option ℕ
  pub dialog_started : Text → Option ℕ
  pub close_started : Text → Option ℕ
  pub exchange_started : Option ℕ
  pub sync_started : Option ℕ
  pub error_shown : Text → Option ℕ
  pub ended : ℕ → Option (Option ℕ)
  pub desk : Desk
  pub said : ℕ → List Text
  pub last_words : ℕ → List Text
  pub reply : ℕ → Reply
  pub apps_closed : Option ℕ
  pub now : ℕ
  pub log : Option Text
  pub open_req : Option ℕ
  pub cfg : Option ℕ
  pub comp_up : Bool
  pub still_up : Bool
  pub waited_long : Bool

-- `base`
unfoldable pub base : Text → Text
unfolding file_name
base p = elim (file_name p) [ some n ↦ n | none ↦ p ]

-- `publish_status`: the note after it, where a file stands for the one that was there.
unfoldable pub publish_status : World → Text → Text → Text
publish_status w text old = elim (is_empty text) [
  | true ↦ if w.removed then [] else old
  | false ↦ if w.published then take 80 (keep (λ c. not (is_control c)) text) else old
]

abbrev pub set_status : Text → Broker → Broker
set_status t b = record {
  jobs = b.jobs;
  dismounts = b.dismounts;
  dialogs = b.dialogs;
  opens = b.opens;
  cmd_seen = b.cmd_seen;
  open_seen = b.open_seen;
  cfg_seen = b.cfg_seen;
  comp_seen = b.comp_seen;
  status = t;
}

abbrev pub add_job : Option ℕ → Broker → Broker
add_job none b = b
add_job (some child) b = record {
  jobs = b.jobs ++ child ∷ [];
  dismounts = b.dismounts;
  dialogs = b.dialogs;
  opens = b.opens;
  cmd_seen = b.cmd_seen;
  open_seen = b.open_seen;
  cfg_seen = b.cfg_seen;
  comp_seen = b.comp_seen;
  status = b.status;
}

abbrev pub add_open : OpenJob → Broker → Broker
add_open j b = record {
  jobs = b.jobs;
  dismounts = b.dismounts;
  dialogs = b.dialogs;
  opens = b.opens ++ j ∷ [];
  cmd_seen = b.cmd_seen;
  open_seen = b.open_seen;
  cfg_seen = b.cfg_seen;
  comp_seen = b.comp_seen;
  status = b.status;
}

abbrev pub add_dialog : Text → ℕ → Broker → Broker
add_dialog kind child b = record {
  jobs = b.jobs;
  dismounts = b.dismounts;
  dialogs = b.dialogs ++ (kind, child) ∷ [];
  opens = b.opens;
  cmd_seen = b.cmd_seen;
  open_seen = b.open_seen;
  cfg_seen = b.cfg_seen;
  comp_seen = b.comp_seen;
  status = b.status;
}

abbrev pub set_dismounts : List (ℕ × Dismount) → Broker → Broker
set_dismounts ds b = record {
  jobs = b.jobs;
  dismounts = ds;
  dialogs = b.dialogs;
  opens = b.opens;
  cmd_seen = b.cmd_seen;
  open_seen = b.open_seen;
  cfg_seen = b.cfg_seen;
  comp_seen = b.comp_seen;
  status = b.status;
}

abbrev pub app_args : Option Text → List Text
app_args none = []
app_args (some a) = a ∷ []

-- The child of an open that was started.
abbrev pub opening : World → Text → Option Text → Option ℕ → Broker → Broker
opening w volume app none b = b
opening w volume app (some child) b =
    add_open (record { child = child; volume = volume; app = app })
      (set_status (publish_status w (codes "Unlocking " ++ base volume) b.status) b)

-- `open_with`
unfoldable pub open_with : World → Text → Option Text → Bool → Broker → Broker
unfolding prompt_passphrase base publish_status
open_with w volume app wrong_pass b = elim (prompt_passphrase w.prompts (base volume) wrong_pass) [
  | none ↦ b
  | some pass ↦
      if w.has_bin
      then opening w volume app
          (w.open_started (codes "open" ∷ volume ∷ app_args app ++ codes "--passphrase-stdin" ∷ [])
            pass)
          b
      else b
]

-- `open_flow`
unfoldable pub open_flow : World → Option Text → Broker → Broker
unfolding open_with
open_flow w app b = elim w.picked [ none ↦ b | some path ↦ open_with w path app false b ]

-- `spawn_dialog`
unfoldable pub spawn_dialog : World → Text → Broker → Broker
spawn_dialog w sub b =
    if any (λ d. text_eq d.0 sub) b.dialogs
    then b
    else elim (w.dialog_started sub) [ none ↦ b | some child ↦ add_dialog sub child b ]

-- `close_volume`
unfoldable pub close_volume : World → Text → Broker → Broker
close_volume w label b =
    if w.has_bin
    then elim (w.close_started label) [
      | none ↦ b
      | some child ↦ set_dismounts (b.dismounts ++ (child, new_dismount label) ∷ []) b
    ]
    else b

-- The verbs that open a dialog, with the subcommand of each.
abbrev pub dialog_of : Text → Option Text
dialog_of verb =
    if text_eq verb (codes "configure")
    then some (codes "configure")
    else if text_eq verb (codes "settings")
    then some (codes "_settings")
    else if text_eq verb (codes "appearance")
    then some (codes "_appearance")
    else if text_eq verb (codes "shortcuts")
    then some (codes "_shortcuts")
    else if text_eq verb (codes "about")
    then some (codes "_about")
    else if text_eq verb (codes "help")
    then some (codes "_help")
    else none

-- `dispatch`
unfoldable pub dispatch : World → Text → Broker → Broker
unfolding open_flow spawn_dialog close_volume text_eq strip_prefix
dispatch w verb b = elim (strip_prefix (codes "close-volume:") verb) [
  | some label ↦ close_volume w label b
  | none ↦
      if text_eq verb (codes "open")
      then open_flow w none b
      else if text_eq verb (codes "exchange")
      then add_job w.exchange_started b
      else elim (dialog_of verb) [ some sub ↦ spawn_dialog w sub b | none ↦ b ]
]

-- `sync_apps`
abbrev pub sync_apps : World → Broker → Broker
sync_apps w b = if w.has_bin then add_job w.sync_started b else b
