-- ===== src/Agent/Broker/Unasked.antt =====
-- A dismount whose question no dialog program could put.
use veracage.Base.{
  ℕ, Text, codes, List, [], ◌∷◌, ◌++◌, Bool, true, false, not, ◌&&◌, Option, if◌then◌else◌, ◌≡◌,
  refl, strip_prefix, Option-cases, inl, inr, ◌∙◌,
}
use veracage.Agent.Dismount.{
  Tool, Dismount, Desk, new_dismount, start_ask, set_refusal, ask_candidates, holder_app_names,
  ask_to_close_apps, handle, abort_ask, drain_lines,
}
use veracage.Agent.Broker.Turn.{dismount_errors, is_busy_exit, reason_or}

start_ask-cancelled :
    (runs : Tool → Bool) (ts : List Tool) (d : Dismount)
    → ((t : Tool) → runs t ≡ false)
    → (start_ask runs ts d).cancelled ≡ true
unfolding start_ask
start_ask-cancelled runs [] d h = refl
start_ask-cancelled runs (t ∷ ts) d h = rw (h t, start_ask) (start_ask-cancelled runs ts d h)

drain_lines-cancelled : (ls : List Text) (d : Dismount) → (drain_lines ls d).cancelled ≡ d.cancelled
unfolding drain_lines
drain_lines-cancelled [] d = refl
drain_lines-cancelled (l ∷ ls) d = elim (Option-cases (strip_prefix (codes "busy" ++ 9 ∷ []) l)) [
  | inl e ↦ rw (e, drain_lines) (drain_lines-cancelled ls d)
  | inr (why, e) ↦ rw (e, drain_lines) (drain_lines-cancelled ls (set_refusal why d))
]

gated : (b c : Bool) (ts : List Text) → c ≡ true → (if b && not c then ts else []) ≡ []
gated true true ts h = refl
gated false true ts h = refl
gated b false ts h = cc

errors-cancelled :
    (code : Option ℕ) (d : Dismount) → d.cancelled ≡ true → dismount_errors code d ≡ []
unfolding dismount_errors
errors-cancelled code d h =
    gated (is_busy_exit code) d.cancelled
      ((d.label
          ++ (codes " was not closed: "
              ++ (reason_or (codes "it is still in use") d.refusal ++ codes ".")))
        ∷ [])
      h

-- A dismount of which the helper says that apps hold the volume, while no dialog program starts to
-- ask the human, reports no error when the helper ends, whatever its code and its last words: it
-- counts as cancelled by the human, who was not asked.
pub unasked-unreported :
    (k : Desk) (label holders : Text) (code : Option ℕ) (last : List Text)
    → ((t : Tool) → k.runs t ≡ false)
    → dismount_errors code (
        drain_lines last
          (abort_ask (handle k (codes "holders" ++ 9 ∷ holders) (new_dismount label))))
      ≡ []
unfolding abort_ask handle ask_to_close_apps
unasked-unreported k label holders code last h =
    let asked = ask_to_close_apps k holders (new_dismount label) in
    errors-cancelled code (drain_lines last (abort_ask asked)) (
      drain_lines-cancelled last (abort_ask asked)
      ∙ start_ask-cancelled k.runs
          (ask_candidates k.is_file
            (codes "Close " ++ (holder_app_names k.apps holders ++ codes " to continue."))
            (codes "Close") (codes "Cancel"))
          (new_dismount label) h)
