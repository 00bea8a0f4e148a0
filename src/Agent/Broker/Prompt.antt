-- ===== src/Agent/Broker/Prompt.antt =====
-- `prompt_passphrase` of agent-rs/src/broker.rs.
use veracage.Base.{
  ℕ, Text, codes, List, [], ◌∷◌, ◌++◌, Bool, false, ◌||◌, Option, none, some, if◌then◌else◌, ◌==◌,
  trim_end,
}

-- What a program that was run gives: its code, `none` where a signal ended it, and its output.
abbrev pub Output : Type 0
Output = Option ℕ × Text

-- The two dialogs: kdialog, where a trusted one is installed (`none` where it does not run), and the
-- agent's own, each with its arguments.
pub record Prompts : Type 0 where
  pub has_kdialog : Bool
  pub kdialog : List Text → Option Output
  pub own : List Text → Option Output

abbrev prompt_message : Text → Bool → Text
prompt_message name wrong_pass =
    if wrong_pass
    then codes "Wrong passphrase. Enter the passphrase for " ++ name
    else codes "Enter the passphrase for " ++ name

abbrev is_success : Option ℕ → Bool
is_success none = false
is_success (some code) = code == 0

abbrev is_line_end : ℕ → Bool
is_line_end c = c == 10 || c == 13

abbrev own_args : Text → Bool → List Text
own_args name wrong_pass =
    codes "_passphrase"
    ∷ name
    ∷ (if wrong_pass then codes "Wrong passphrase, try again" ∷ [] else [])

abbrev own_answer : Option Output → Option Text
own_answer none = none
own_answer (some (code, out)) = if is_success code then some out else none

-- kdialog's end: a passphrase, a cancel, or a failure, after which the agent's own dialog asks.
abbrev kdialog_answer : Option Text → Option Output → Option Text
kdialog_answer own none = own
kdialog_answer own (some (none, out)) = own
kdialog_answer own (some (some code, out)) =
    if code == 0 then some (trim_end is_line_end out) else if code == 1 then none else own

-- `prompt_passphrase`
unfoldable pub prompt_passphrase : Prompts → Text → Bool → Option Text
unfolding trim_end
prompt_passphrase p name wrong_pass =
    let own = own_answer (p.own (own_args name wrong_pass)) in
    if p.has_kdialog
    then kdialog_answer own (p.kdialog (codes "--password" ∷ prompt_message name wrong_pass ∷ []))
    else own
