-- ===== src/Helper/Args.antt =====
-- The command line (helper-rs/src/main.rs): `parse_args`, `setenv_value` and `rest_value`.
pub mod RoundTrip
use veracage.Base.{
  zero, suc, ℕ, ◌+◌, Text, codes, List, [], ◌∷◌, ◌++◌, Bool, true, false, ◌&&◌, ◌||◌, Option, none,
  some, if◌then◌else◌, ◌==◌, text_eq, take, trim_end, split_once, find_map,
}
use veracage.Helper.Crypt.{Backend, parse_backend}

pub record Args : Type 0 where
  pub spawn_compositor : Bool
  pub empty_session : Bool
  pub source : Option Text
  pub backend : Option Backend
  pub session : Option Text
  pub close_volume : Option Text
  pub exchange : Option Text
  pub setenv : List Text
  pub rest : List Text
  pub passphrase : Option Text

abbrev pub no_args : Args
no_args = record {
  spawn_compositor = false;
  empty_session = false;
  source = none;
  backend = none;
  session = none;
  close_volume = none;
  exchange = none;
  setenv = [];
  rest = [];
  passphrase = none;
}

pub data Switch : Type 0 where
  spawn empty passphrase_stdin : Switch

pub data Slot : Type 0 where
  source backend session close_volume exchange setenv : Slot

pub data Flag : Type 0 where
  switch : Switch → Flag
  value : Slot → Flag
  end_of_flags unexpected : Flag

-- The `match` of `parse_args` on one argument.
unfoldable pub flag_of : Text → Flag
flag_of a =
    if text_eq a (codes "--spawn-compositor")
    then switch spawn
    else if text_eq a (codes "--empty-session")
    then switch empty
    else if text_eq a (codes "--passphrase-stdin")
    then switch passphrase_stdin
    else if text_eq a (codes "--source")
    then value source
    else if text_eq a (codes "--backend")
    then value backend
    else if text_eq a (codes "--session")
    then value session
    else if text_eq a (codes "--close-volume")
    then value close_volume
    else if text_eq a (codes "--exchange")
    then value exchange
    else if text_eq a (codes "--setenv")
    then value setenv
    else if text_eq a (codes "--")
    then end_of_flags
    else unexpected

abbrev passphrase_limit : ℕ
passphrase_limit = 65536

abbrev is_newline : ℕ → Bool
is_newline c = c == 10 || c == 13

-- The passphrase read from `stdin`, which is `none` where the read fails; `none` here is exit 2.
unfoldable pub read_passphrase : Option Text → Option Text
read_passphrase none = none
read_passphrase (some input) = some (trim_end is_newline (take passphrase_limit input))

unfoldable pub apply_switch : Option Text → Switch → Args → Option Args
unfolding read_passphrase
apply_switch stdin spawn a = some (record a { spawn_compositor = true })
apply_switch stdin empty a = some (record a { empty_session = true })
apply_switch stdin passphrase_stdin a = elim (read_passphrase stdin) [
  | none ↦ none
  | some p ↦ some (record a { passphrase = some p })
]

set_backend : Option Text → Args → Option Args
set_backend none a = some (record a { backend = none })
set_backend (some v) a =
    if text_eq v (codes "auto")
    then some (record a { backend = none })
    else elim (parse_backend v) [ none ↦ none | some b ↦ some (record a { backend = some b }) ]

set_env : Option Text → Args → Args
set_env none a = a
set_env (some kv) a = record a { setenv = a.setenv ++ kv ∷ [] }

-- A flag that takes the next argument, which is `none` at the end of the line.
unfoldable pub apply_value : Slot → Option Text → Args → Option Args
unfolding set_backend set_env
apply_value source v a = some (record a { source = v })
apply_value backend v a = set_backend v a
apply_value session v a = some (record a { session = v })
apply_value close_volume v a = some (record a { close_volume = v })
apply_value exchange v a = some (record a { exchange = v })
apply_value setenv v a = some (set_env v a)

abbrev past : ℕ → Text → Text
past zero t = t
past (suc n) [] = []
past (suc n) (c ∷ t) = past n t

-- What a switch leaves of the standard input for the next one.
abbrev stdin_after : Switch → Option Text → Option Text
stdin_after passphrase_stdin (some input) = some (past passphrase_limit input)
stdin_after _ stdin = stdin

abbrev add_rest : List Text → Args → Args
add_rest r a = record a { rest = a.rest ++ r }

abbrev last_flag : Option Text → Args → Flag → Option Args
last_flag stdin a (switch s) = apply_switch stdin s a
last_flag stdin a (value s) = apply_value s none a
last_flag stdin a end_of_flags = some a
last_flag stdin a unexpected = none

-- The loop of `parse_args`; `none` is a `fail` with code 2.
unfoldable pub parse_from : Option Text → Args → List Text → Option Args
unfolding flag_of apply_switch apply_value
parse_from stdin a [] = some a
parse_from stdin a (x ∷ []) = last_flag stdin a (flag_of x)
parse_from stdin a (x ∷ y ∷ ys) = elim (flag_of x) [
  | switch s ↦ elim (apply_switch stdin s a) [
    | none ↦ none
    | some b ↦ parse_from (stdin_after s stdin) b (y ∷ ys)
  ]
  | value s ↦ elim (apply_value s (some y) a) [ none ↦ none | some b ↦ parse_from stdin b ys ]
  | end_of_flags ↦ some (add_rest (y ∷ ys) a)
  | unexpected ↦ none
]

-- `parse_args`
unfoldable pub parse_args : Option Text → List Text → Option Args
unfolding parse_from
parse_args stdin argv = parse_from stdin no_args argv

abbrev value_if : Text → Option (Text × Text) → Option Text
value_if key none = none
value_if key (some (k, v)) = if text_eq k key then some v else none

-- `setenv_value`
unfoldable pub setenv_value : Args → Text → Option Text
setenv_value a key = find_map (λ kv. value_if key (split_once b'=' kv)) a.setenv

-- `rest_value`: the argument after the first `flag`.
unfoldable pub rest_value : List Text → Text → Option Text
rest_value [] flag = none
rest_value (a ∷ []) flag = none
rest_value (a ∷ b ∷ rest) flag = elim (text_eq a flag) [
  | true ↦ some b
  | false ↦ rest_value (b ∷ rest) flag
]
