-- ===== src/Agent/Commands.antt =====
-- The broker's reading of the command log (agent-rs/src/broker.rs): `parse_command`,
-- `read_commands` and `last_command_nonce`, and the drain of `run_broker`'s loop.
pub mod Drain
pub mod Backlog
use veracage.Base.{
  ℕ, Text, codes, List, [], ◌∷◌, ◌++◌, Bool, true, false, not, Option, none, some, if◌then◌else◌,
  leb, ltb, ◌==◌, is_empty, trim, split_once, lines, parse_below, filter_map, keep,
}

-- A verb under its nonce.
abbrev pub Command : Type 0
Command = ℕ × Text

abbrev pub u128_limit : ℕ
u128_limit = 340282366920938463463374607431768211456

abbrev verb_of : ℕ → Text → Option Command
verb_of nonce verb = if is_empty verb then none else some (nonce, verb)

-- `parse_command`
unfoldable pub parse_command : Text → Option Command
unfolding parse_below trim
parse_command l = elim (split_once 9 l) [
  | none ↦ none
  | some (nonce, verb) ↦ elim (parse_below u128_limit (trim nonce)) [
    | none ↦ none
    | some n ↦ verb_of n (trim verb)
  ]
]

-- The text up to its last newline.
unfoldable pub complete : Text → Option Text
complete [] = none
complete (c ∷ cs) = elim (complete cs) [
  | some t ↦ some (c ∷ t)
  | none ↦ if c == 10 then some (c ∷ []) else none
]

-- Whether a command is newer than the last one handled.
abbrev pub is_newer : Option ℕ → Command → Bool
is_newer none c = true
is_newer (some seen) c = ltb seen c.0

-- `sort_by_key`, which keeps the order of equal nonces.
unfoldable pub insert_command : Command → List Command → List Command
insert_command c [] = c ∷ []
insert_command c (d ∷ ds) = if leb c.0 d.0 then c ∷ d ∷ ds else d ∷ insert_command c ds

unfoldable pub sort_commands : List Command → List Command
unfolding insert_command
sort_commands [] = []
sort_commands (c ∷ cs) = insert_command c (sort_commands cs)

abbrev pub or_none : Option Text → List Text
or_none none = []
or_none (some t) = lines t

-- `read_commands`, of the log's text where it can be read.
unfoldable pub read_commands : Option Text → Option ℕ → List Command
unfolding parse_command complete sort_commands
read_commands none after = []
read_commands (some s) after =
    sort_commands (keep (is_newer after) (filter_map parse_command (or_none (complete s))))

abbrev pub max_nonce : Option ℕ → List Command → Option ℕ
max_nonce m [] = m
max_nonce none (c ∷ cs) = max_nonce (some c.0) cs
max_nonce (some n) (c ∷ cs) = max_nonce (some (if leb n c.0 then c.0 else n)) cs

-- `last_command_nonce`
unfoldable pub last_command_nonce : Option Text → Option ℕ
unfolding parse_command
last_command_nonce none = none
last_command_nonce (some s) = max_nonce none (filter_map parse_command (lines s))

-- `cmd_seen` after the loop has dispatched these commands.
abbrev pub seen_after : Option ℕ → List Command → Option ℕ
seen_after seen [] = seen
seen_after seen (c ∷ cs) = seen_after (some c.0) cs

-- What `run_broker` dispatches over its polls, before each of which something was appended.
unfoldable pub drain : Option ℕ → Text → List Text → List Command
unfolding read_commands
drain seen log [] = []
drain seen log (a ∷ more) =
    let cs = read_commands (some (log ++ a)) seen in
    cs ++ drain (seen_after seen cs) (log ++ a) more
