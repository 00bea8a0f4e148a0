-- ===== src/Tests/Clipboard.antt =====
-- The properties of the host clipboard at concrete inputs.
use veracage.Base.{ℕ, codes, List, [], ◌∷◌, true, some, ◌≡◌, refl, arith}
use veracage.Compositor.Hostclip.{
  State, data_offer, offered, cancelled, Reading, store, policy, clear_on_exit, Step, event,
  command, tick, step, run, new_state, handle_cmd,
}
use veracage.Compositor.Hostclip.Cleared.{IsCleared, store-IsCleared, clear_on_exit-IsCleared}
use veracage.Compositor.Hostclip.Foreign.{unsets, replaced-left_alone}
use veracage.Compositor.Hostclip.Invariant.{Inv, new_state-Inv, run-Inv}

abbrev reading : Reading
reading = record { has_pipe = true; events = []; rounds = []; is_utf8 = λ t. true }

abbrev secret : List ℕ
secret = b's' ∷ b'3' ∷ b'c' ∷ []

abbrev busy : List Step
busy = event data_offer ∷ event (offered (codes "TEXT")) ∷ command (policy true 5 8) ∷ []

run-Inv_example : Inv true (run (command (store secret 7) ∷ busy) (new_state true))
run-Inv_example = run-Inv (command (store secret 7) ∷ busy) (new_state true) (new_state-Inv true)

store-IsCleared_example :
    IsCleared
      (step (tick 40 reading []) (run busy (step (command (store secret 7)) (new_state true))))
store-IsCleared_example =
    store-IsCleared (new_state true) secret 7 40 busy reading [] (new_state-Inv true) refl refl
      (omega arith)

clear_on_exit-IsCleared_example : IsCleared (
    step
      (command (clear_on_exit reading []))
      (run (command (store secret 7) ∷ busy) (new_state true)))
clear_on_exit-IsCleared_example =
    clear_on_exit-IsCleared (command (store secret 7) ∷ busy) (new_state true) reading []
      (new_state-Inv true)

abbrev stored : State
unfolding step handle_cmd
stored = step (command (store secret 7)) (new_state true)

stored_source : stored.source ≡ some 0
unfolding stored
stored_source = refl

replaced-left_alone_example :
    unsets (run (tick 40 reading [] ∷ []) (step (event (cancelled 0)) stored)).requests
    ≡ unsets stored.requests
replaced-left_alone_example =
    replaced-left_alone 0 stored (tick 40 reading [] ∷ []) stored_source refl
