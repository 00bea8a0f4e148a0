-- ===== src/Helper/Leader.antt =====
-- The live session leader (helper-rs/src/main.rs): `proc_starttime`, `proc_owned_by`,
-- `verify_session_leader` and `session_flock`.
pub mod Starttime
use veracage.Base.{
  ℕ, Text, codes, List, [], ◌∷◌, ◌++◌, Bool, true, false, not, Option, none, some, if◌then◌else◌,
  leb, ◌==◌, get_elem?, is_whitespace, lines, trim, parse_below, u64_limit, to_dec,
}
use veracage.Helper.Sys.{read_file, proc_owner, flock, M, pure, ◌>>=◌, text, number, must}
use veracage.Helper.Volume.{rsplit_once}

abbrev pub session_path : Text → Text → Text
session_path sid ext = codes "/run/veracage/session-" ++ (sid ++ ext)

-- `split_whitespace`: the runs of other characters; `acc` is the one being read.
abbrev word_end : Text → List Text → List Text
word_end [] ws = ws
word_end (c ∷ acc) ws = (c ∷ acc) ∷ ws

unfoldable pub words_onto : Text → Text → List Text
words_onto acc [] = word_end acc []
words_onto acc (c ∷ cs) = elim (is_whitespace c) [
  | true ↦ word_end acc (words_onto [] cs)
  | false ↦ words_onto (acc ++ c ∷ []) cs
]

abbrev pub parse_u64 : Option Text → Option ℕ
parse_u64 none = none
parse_u64 (some w) = parse_below u64_limit w

-- The parse of `proc_starttime`: field 22, counted from behind the last `)`.
unfoldable pub starttime_of : Text → Option ℕ
unfolding words_onto
starttime_of s = elim (rsplit_once b')' s) [
  | none ↦ none
  | some (before, rest) ↦ parse_u64 (get_elem? (words_onto [] rest) 19)
]

abbrev stat_path : ℕ → Text
stat_path pid = codes "/proc/" ++ (to_dec pid ++ codes "/stat")

-- `proc_starttime`
unfoldable pub proc_starttime : ℕ → M (Option ℕ)
unfolding starttime_of
proc_starttime pid = do
  s ← text (read_file (stat_path pid))
  pure (elim s [ none ↦ none | some body ↦ starttime_of body ])

abbrev i32_limit : ℕ
i32_limit = 2147483648

-- The two numbers of a session pidfile; a start time that does not parse is 0. A negative pid, which
-- the source refuses with the others below 2, does not parse here.
unfoldable pub pidfile_numbers : List Text → Option (ℕ × ℕ)
pidfile_numbers [] = none
pidfile_numbers (p ∷ rest) = elim (parse_below i32_limit (trim p)) [
  | none ↦ none
  | some pid ↦ some (
    pid,
    elim rest [
      | [] ↦ 0
      | s ∷ _ ↦ elim (parse_below u64_limit (trim s)) [ some st ↦ st | none ↦ 0 ]
    ],
  )
]

abbrev pub is_some_eq : Option ℕ → ℕ → Bool
is_some_eq none n = false
is_some_eq (some m) n = m == n

unfoldable pub verify_numbers : ℕ → Option (ℕ × ℕ) → M (Option ℕ)
verify_numbers vault_uid none = pure none
verify_numbers vault_uid (some (pid, want_st)) = if leb pid 1 then pure none else do
  owner ← number (proc_owner pid)
  if not (is_some_eq owner vault_uid)
      then pure none
      else do st ← proc_starttime pid; pure (if is_some_eq st want_st then some pid else none)

-- `verify_session_leader`
unfoldable pub verify_session_leader : Text → ℕ → M (Option ℕ)
unfolding verify_numbers proc_starttime pidfile_numbers
verify_session_leader sid vault_uid = do
  body ← text (read_file (session_path sid (codes ".pid")))
  elim body [ none ↦ pure none | some b ↦ verify_numbers vault_uid (pidfile_numbers (lines b)) ]

-- `session_flock`
abbrev pub session_flock : Text → M (Unit {0})
session_flock sid = must (flock (session_path sid (codes ".flock"))) 1
