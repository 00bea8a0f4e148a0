-- ===== src/Compositor/Toolbar/Commands.antt =====
-- The command log as the compositor writes it: `request_commands` of toolbar.rs.
use veracage.Base.{
  ℕ, Text, List, [], ◌∷◌, ◌++◌, map, Bool, true, false, to_dec, unlines, Option, none, some,
  if◌then◌else◌,
}

-- A verb with the nonce it is written under, the clock at that time.
abbrev pub Entry : Type 0
Entry = ℕ × Text

-- `<nonce>\t<verb>`
unfoldable pub command_line : Entry → Text
unfolding to_dec
command_line (nonce, verb) = to_dec nonce ++ 9 ∷ verb

-- The body that `request_commands` appends in one write.
unfoldable pub commands_body : List Entry → Text
unfolding command_line
commands_body cs = unlines (map command_line cs)

abbrev or_empty : Option Text → Text
or_empty none = []
or_empty (some t) = t

-- The log after `request_commands`, `none` where there is none: opening creates it, `mode_set` is
-- the forced mode, without which nothing is written.
unfoldable pub request_commands : Bool → Bool → Bool → List Entry → Option Text → Option Text
unfolding commands_body
request_commands false mode_set written cs log = log
request_commands true false written cs log = some (or_empty log)
request_commands true true false cs log = some (or_empty log)
request_commands true true true cs log = some (or_empty log ++ commands_body cs)

-- `reset_command_log`
unfoldable pub reset_command_log : Bool → Option Text → Option Text
reset_command_log removed log = if removed then none else log
