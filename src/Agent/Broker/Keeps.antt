-- ===== src/Agent/Broker/Keeps.antt =====
-- The parts of a turn, as to a property of the broker.
use veracage.Base.{
  ℕ, suc, Text, codes, List, [], ◌∷◌, ◌++◌, map, Bool, true, false, ◌&&◌, Option, none, some,
  if◌then◌else◌, text_eq, is_empty, any, strip_prefix, ◌≡◌, refl, arith, Bool-cases, inl, inr,
}
use veracage.Agent.Paths.{is_some}
use veracage.Agent.Commands.{Command, read_commands}
use veracage.Agent.Dismount.{Dismount, new_dismount}
use veracage.Agent.Broker.{
  OpenJob, Broker, World, base, publish_status, set_status, add_job, add_open, add_dialog, opening,
  set_dismounts, open_with, open_flow, spawn_dialog, close_volume, dialog_of, dispatch, sync_apps,
  app_args,
}
use veracage.Agent.Broker.Prompt.{prompt_passphrase}
use veracage.Agent.Broker.Turn.{
  reap_dismounts, reap_opens, see_command, drive_dismount, see_compositor, differs_at, see_config,
  see_open, show_errors, retry_all, reaped, clear_status, reap, drive_dismounts, dispatch_all,
  answer_open, answer_config, abort_asks, watch_compositor, turn,
}

-- A dialog of that kind is on the list.
abbrev pub has_kind : Text → List (Text × ℕ) → Bool
has_kind kind ds = any (λ d. text_eq d.0 kind) ds

-- The single changes of the broker's state under which a property is closed. A dismount list may
-- change, not become empty.
pub record IsKept (P : Broker → Type 0) : Type 0 where
  pub job : (c : ℕ) (b : Broker) → P b → P (add_job (some c) b)
  pub opened : (j : OpenJob) (t : Text) (b : Broker) → P b → P (add_open j (set_status t b))
  pub dialog :
      (sub : Text) (child : ℕ) (b : Broker)
      → has_kind sub b.dialogs ≡ false
      → P b
      → P (add_dialog sub child b)
  pub dismount :
      (ds : List (ℕ × Dismount)) (b : Broker)
      → (is_empty ds ≡ true → is_empty b.dismounts ≡ true)
      → P b
      → P (set_dismounts ds b)
  pub command : (n : ℕ) (b : Broker) → P b → P (see_command n b)
  pub request : (t : Option ℕ) (b : Broker) → P b → P (see_open t b)
  pub config : (t : Option ℕ) (b : Broker) → P b → P (see_config t b)
  pub compositor : (b : Broker) → P b → P (see_compositor b)

pub add-full {ℓ} : {A : Type ℓ} → (xs : List A) (x : A) → is_empty (xs ++ x ∷ []) ≡ false
add-full [] x = refl
add-full (y ∷ ys) x = refl

abort_asks-empty : (ds : List (ℕ × Dismount)) → is_empty (abort_asks ds) ≡ true → is_empty ds ≡ true
unfolding abort_asks
abort_asks-empty [] h = refl
abort_asks-empty ((child, d) ∷ ds) h = h

map-empty :
    (f : ℕ × Dismount → ℕ × Dismount) (ds : List (ℕ × Dismount))
    → is_empty (map f ds) ≡ true
    → is_empty ds ≡ true
map-empty f [] h = refl
map-empty f (d ∷ ds) h = h

abbrev dispatch_other : World → Text → Broker → Broker
dispatch_other w verb b =
    if text_eq verb (codes "open")
    then open_flow w none b
    else if text_eq verb (codes "exchange")
    then add_job w.exchange_started b
    else elim (dialog_of verb) [ some sub ↦ spawn_dialog w sub b | none ↦ b ]

module _ (P : Broker → Type 0) (k : IsKept P) where
  branch-P : (t : Bool) (b c : Broker) → P b → P c → P (if t then b else c)
  branch-P true b c h k = h
  branch-P false b c h k = k

  chain-P {ℓ} :
      {A : Type ℓ}
      → (o : Option A) (b : Broker) (f : A → Broker) → P b
      → ((a : A) → P (f a))
      → P (elim o [ none ↦ b | some a ↦ f a ])
  chain-P none b f h k = h
  chain-P (some a) b f h k = k a

  add_job-P : (o : Option ℕ) (b : Broker) → P b → P (add_job o b)
  add_job-P none b h = h
  add_job-P (some c) b h = k.job c b h

  opening-P :
      (w : World) (volume : Text) (app : Option Text) (o : Option ℕ) (b : Broker)
      → P b
      → P (opening w volume app o b)
  opening-P w volume app none b h = h
  opening-P w volume app (some child) b h =
      k.opened (record { child = child; volume = volume; app = app })
        (publish_status w (codes "Unlocking " ++ base volume) b.status) b h

  open_with-P :
      (w : World) (volume : Text) (app : Option Text) (wrong : Bool) (b : Broker)
      → P b
      → P (open_with w volume app wrong b)
  unfolding open_with
  open_with-P w volume app wrong b h =
      chain-P (prompt_passphrase w.prompts (base volume) wrong) b
        (λ pass.
          if w.has_bin
          then opening w volume app
              (w.open_started
                (codes "open" ∷ volume ∷ app_args app ++ codes "--passphrase-stdin" ∷ []) pass)
              b
          else b)
        h
        (λ pass.
          branch-P w.has_bin
            (opening w volume app
              (w.open_started
                (codes "open" ∷ volume ∷ app_args app ++ codes "--passphrase-stdin" ∷ []) pass)
              b)
            b
            (opening-P w volume app
              (w.open_started
                (codes "open" ∷ volume ∷ app_args app ++ codes "--passphrase-stdin" ∷ []) pass)
              b h)
            h)

  open_flow-P : (w : World) (app : Option Text) (b : Broker) → P b → P (open_flow w app b)
  unfolding open_flow
  open_flow-P w app b h =
      chain-P w.picked b (λ path. open_with w path app false b) h
        (λ path. open_with-P w path app false b h)

  spawn_dialog-P : (w : World) (sub : Text) (b : Broker) → P b → P (spawn_dialog w sub b)
  unfolding spawn_dialog
  spawn_dialog-P w sub b h = elim (Bool-cases (has_kind sub b.dialogs)) [
    | inl e ↦ rw e h
    | inr e ↦ rw e (
        chain-P (w.dialog_started sub) b (λ child. add_dialog sub child b) h
          (λ child. k.dialog sub child b e h))
  ]

  close_volume-P : (w : World) (label : Text) (b : Broker) → P b → P (close_volume w label b)
  unfolding close_volume
  close_volume-P w label b h =
      branch-P w.has_bin
        (elim (w.close_started label) [
          | none ↦ b
          | some child ↦ set_dismounts (b.dismounts ++ (child, new_dismount label) ∷ []) b
        ])
        b
        (chain-P (w.close_started label) b
          (λ child. set_dismounts (b.dismounts ++ (child, new_dismount label) ∷ []) b) h
          (λ child.
            k.dismount (b.dismounts ++ (child, new_dismount label) ∷ []) b
              (λ e. ground (arith, add-full b.dismounts (child, new_dismount label))) h))
        h

  dispatch_other-P : (w : World) (verb : Text) (b : Broker) → P b → P (dispatch_other w verb b)
  dispatch_other-P w verb b h =
      branch-P (text_eq verb (codes "open")) (open_flow w none b)
        (if text_eq verb (codes "exchange")
          then add_job w.exchange_started b
          else elim (dialog_of verb) [ some sub ↦ spawn_dialog w sub b | none ↦ b ])
        (open_flow-P w none b h)
        (branch-P (text_eq verb (codes "exchange")) (add_job w.exchange_started b)
          (elim (dialog_of verb) [ some sub ↦ spawn_dialog w sub b | none ↦ b ])
          (add_job-P w.exchange_started b h)
          (chain-P (dialog_of verb) b (λ sub. spawn_dialog w sub b) h
            (λ sub. spawn_dialog-P w sub b h)))

  labelled-P :
      (o : Option Text) (w : World) (verb : Text) (b : Broker)
      → P b
      → P (elim o [ some label ↦ close_volume w label b | none ↦ dispatch_other w verb b ])
  labelled-P none w verb b h = dispatch_other-P w verb b h
  labelled-P (some label) w verb b h = close_volume-P w label b h

  dispatch-P : (w : World) (verb : Text) (b : Broker) → P b → P (dispatch w verb b)
  unfolding dispatch
  dispatch-P w verb b h = labelled-P (strip_prefix (codes "close-volume:") verb) w verb b h

  dispatch_all-P :
      (vs : ℕ → World) (i : ℕ) (cs : List Command) (b : Broker) → P b → P (dispatch_all vs i cs b)
  unfolding dispatch_all
  dispatch_all-P vs i [] b h = h
  dispatch_all-P vs i (c ∷ cs) b h =
      dispatch_all-P vs (suc i) cs (dispatch (vs i) c.1 (see_command c.0 b))
        (dispatch-P (vs i) c.1 (see_command c.0 b) (k.command c.0 b h))

  show_errors-P : (w : World) (ts : List Text) (b : Broker) → P b → P (show_errors w ts b)
  unfolding show_errors
  show_errors-P w [] b h = h
  show_errors-P w (t ∷ ts) b h =
      show_errors-P w ts (add_job (w.error_shown t) b) (add_job-P (w.error_shown t) b h)

  retry_all-P :
      (ws : ℕ → World) (i : ℕ) (js : List OpenJob) (b : Broker) → P b → P (retry_all ws i js b)
  unfolding retry_all
  retry_all-P ws i [] b h = h
  retry_all-P ws i (j ∷ js) b h =
      retry_all-P ws (suc i) js (open_with (ws i) j.volume j.app true b)
        (open_with-P (ws i) j.volume j.app true b h)

  answer_open-P : (w : World) (b : Broker) → P b → P (answer_open w b)
  unfolding answer_open
  answer_open-P w b h =
      branch-P (is_some w.open_req && differs_at w.open_req b.open_seen)
        (open_flow w none (see_open w.open_req b)) b
        (open_flow-P w none (see_open w.open_req b) (k.request w.open_req b h)) h

  answer_config-P : (w : World) (b : Broker) → P b → P (answer_config w b)
  unfolding answer_config
  answer_config-P w b h =
      let seen = k.config w.cfg b h in
      branch-P (differs_at w.cfg b.cfg_seen) (sync_apps w (see_config w.cfg b)) b
        (branch-P w.has_bin (add_job w.sync_started (see_config w.cfg b)) (see_config w.cfg b)
          (add_job-P w.sync_started (see_config w.cfg b) seen) seen)
        h

  watch_compositor-P : (w : World) (b : Broker) → P b → P (watch_compositor w b)
  unfolding watch_compositor
  watch_compositor-P w b h =
      branch-P w.comp_up (see_compositor b)
        (if b.comp_seen then set_dismounts (abort_asks b.dismounts) b else b) (k.compositor b h)
        (branch-P b.comp_seen (set_dismounts (abort_asks b.dismounts) b) b
          (k.dismount (abort_asks b.dismounts) b (abort_asks-empty b.dismounts) h) h)

  drive_dismounts-P : (w : World) (b : Broker) → P b → P (drive_dismounts w b)
  unfolding drive_dismounts
  drive_dismounts-P w b h =
      k.dismount (map (drive_dismount w) b.dismounts) b (map-empty (drive_dismount w) b.dismounts) h

  -- All of a turn but the children that are taken out at its start.
  pub turn-P :
      (w : World) (ws vs : ℕ → World) (b : Broker)
      → P (clear_status w (reaped w b))
      → P (turn w ws vs b)
  unfolding turn reap
  turn-P w ws vs b h =
      let reaped_b = reap w ws b in
      let driven = drive_dismounts w reaped_b in
      let told = dispatch_all vs 0 (read_commands w.log driven.cmd_seen) driven in
      watch_compositor-P w (answer_config w (answer_open w told)) (
        answer_config-P w (answer_open w told) (
          answer_open-P w told (
            dispatch_all-P vs 0 (read_commands w.log driven.cmd_seen) driven (
              drive_dismounts-P w reaped_b (
                retry_all-P ws 0 (reap_opens w b.opens).2
                  (show_errors w ((reap_dismounts w b.dismounts).1 ++ (reap_opens w b.opens).1)
                    (clear_status w (reaped w b)))
                  (show_errors-P w ((reap_dismounts w b.dismounts).1 ++ (reap_opens w b.opens).1)
                    (clear_status w (reaped w b)) h))))))
