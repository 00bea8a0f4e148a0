-- ===== src/Helper/Sys.antt =====
-- The helper as a program over an operating system that answers as it likes. What the helper does
-- outside its own memory is a `Call`; a run is the trace of the calls made, the newest first, and
-- the answer to a call may depend on all the calls before it. `exit` ends the process with a code,
-- as `fail`, `fail_errno` and `std::process::exit` do; messages on stderr are not calls here.
pub mod Rules
use veracage.Base.{
  ℕ, Text, codes, List, [], ◌∷◌, ◌++◌, Bool, true, false, ◌&&◌, ◌||◌, Option, none, some, text_eq,
  ◌==◌, if◌then◌else◌, ◌≡◌,
}

pub data Call : Type 0 where
  -- files and directories
  exists executable read_file remove_file remove_dir remove_dir_all create_dir_all : Text → Call
  write_file create_new append_file rename : Text → Text → Call
  set_mode : Text → ℕ → Call
  chown try_chown : Text → ℕ → ℕ → Call
  -- commands: the program, its arguments and what is written to its standard input
  run : Text → List Text → Call
  run_fed : Text → List Text → Text → Call
  run_output : Text → List Text → Call
  -- processes, namespaces and mounts
  fork : Call
  wait_for : ℕ → Call
  setns : ℕ → Call
  unshare make_slave mount_tmpfs : Text → Call
  umount2 : Text → ℕ → Call
  idmap_mount : Text → Text → ℕ → ℕ → ℕ → ℕ → ℕ → Call
  sleep : Call
  -- the session flock, and an open for reading and writing
  flock unlock : Text → Call
  open_rw : Text → Call
  -- the identity and the environment of this process
  initgroups setresgid setresuid umask : ℕ → Call
  geteuid no_groups no_core_limit : Call
  getpwuid_gid : ℕ → Call
  getpwnam_uid getpwnam_gid env_var : Text → Call
  set_var : Text → Text → Call
  remove_var : Text → Call
  exec : Text → List Text → Call
  -- the protocol with the caller
  println : Text → Call
  proc_owner : ℕ → Call
  connect_host_wayland create_control_socket : Text → ℕ → Call
  validated_exchange : Text → ℕ → Call
  source_key canonicalize file_or_block : Text → Call
  urandom : ℕ → Call

-- The uid and gid of the human and of the vault user.
pub record Ids : Type 0 where
  pub human_uid : ℕ
  pub human_gid : ℕ
  pub vault_uid : ℕ
  pub vault_gid : ℕ

abbrev pub Trace : Type 0
Trace = List Call

-- What one round of the wait for the caller's answer meets, in the order of the source's tests: the
-- leader is gone, the poll's slice went by, the poll failed, the end of input, or bytes.
pub data Round : Type 0 where
  leader_gone elapsed poll_failed eof : Round
  bytes : List ℕ → Round

-- A process as /proc shows it: its mount table, its mount namespace and its command name, each
-- `none` where the entry cannot be read.
pub record Proc : Type 0 where
  pub mountinfo : Option Text
  pub ns : Option Text
  pub comm : Option Text

-- The answers: whether a call succeeds, the status of a command (`none` if it could not be started,
-- `some none` if a signal ended it), a number, a text, this process's mount
-- namespace, the processes of /proc, the rounds of a wait up to
-- its deadline, and the retries that a deadline leaves room for. `is_file` tells of the system's
-- own program directories, which do not change under a run; `digest` is SHA-256 of the sha2 crate.
pub record Os : Type 0 where
  pub succeeds : Trace → Call → Bool
  pub status : Trace → Call → Option (Option ℕ)
  pub number : Trace → Call → Option ℕ
  pub text : Trace → Call → Option Text
  pub own_ns : Trace → Option Text
  pub procs : Trace → Option (List Proc)
  pub rounds : Trace → List Round
  pub retries : Trace → ℕ
  pub is_file : Text → Bool
  pub digest : List ℕ → List ℕ

pub data Outcome {ℓ} (A : Type ℓ) : Type ℓ where
  done : A → Trace → Outcome A
  exited : ℕ → Trace → Outcome A

abbrev pub M {ℓ} : Type ℓ → Type ℓ
M A = Os → Trace → Outcome A

abbrev pub pure {ℓ} : {A : Type ℓ} → A → M A
pure a os t = done a t

abbrev pub exit {ℓ} : {A : Type ℓ} → ℕ → M A
exit code os t = exited code t

infixl 5 ◌>>=◌ ◌>>◌
abbrev pub ◌>>=◌ {ℓ κ} : {A : Type ℓ} {B : Type κ} → M A → (A → M B) → M B
◌>>=◌ m f os t = elim (m os t) [ done a t' ↦ f a os t' | exited c t' ↦ exited c t' ]

abbrev pub ◌>>◌ {ℓ κ} : {A : Type ℓ} {B : Type κ} → M A → M B → M B
m >> k = m >>= λ _. k

-- A call, by the kind of its answer; `call` is one whose answer the source throws away.
abbrev pub try : Call → M Bool
try c os t = done (os.succeeds t c) (c ∷ t)

abbrev pub call : Call → M (Unit {0})
call c os t = done tt (c ∷ t)

abbrev pub status : Call → M (Option (Option ℕ))
status c os t = done (os.status t c) (c ∷ t)

abbrev pub number : Call → M (Option ℕ)
number c os t = done (os.number t c) (c ∷ t)

abbrev pub text : Call → M (Option Text)
text c os t = done (os.text t c) (c ∷ t)

-- `unwrap_or_else(|e| fail(…, code))` on a call.
abbrev pub must : Call → ℕ → M (Unit {0})
must c code os t = if os.succeeds t c then done tt (c ∷ t) else exited code (c ∷ t)

abbrev pub when : Bool → M (Unit {0}) → M (Unit {0})
when true m = m
when false m = pure tt

abbrev pub unless : Bool → M (Unit {0}) → M (Unit {0})
unless true m = pure tt
unless false m = m

abbrev pub trusted_dirs : List Text
trusted_dirs =
    codes "/usr/sbin"
    ∷ codes "/sbin"
    ∷ codes "/usr/bin"
    ∷ codes "/bin"
    ∷ codes "/usr/local/sbin"
    ∷ codes "/usr/local/bin"
    ∷ []

-- `tool`: the first trusted directory that has the program, else its bare name.
unfoldable pub tool_in : (Text → Bool) → Text → List Text → Text
tool_in is_file name [] = name
tool_in is_file name (d ∷ ds) = elim (is_file (d ++ b'/' ∷ name)) [
  | true ↦ d ++ b'/' ∷ name
  | false ↦ tool_in is_file name ds
]

unfoldable pub tool : Os → Text → Text
unfolding tool_in
tool os name = tool_in os.is_file name trusted_dirs

-- A run of the tool `name`.
abbrev pub tool_status : Text → List Text → M (Option (Option ℕ))
tool_status name args os t = status (run (tool os name) args) os t

-- `status.map(|s| s.success())`, with a command that did not start counted as a failure.
abbrev pub success : Option (Option ℕ) → Bool
success none = false
success (some none) = false
success (some (some c)) = c == 0

-- How a run ended, as a predicate on the code and on the trace.
abbrev pub Ends {ℓ} :
    {A : Type ℓ} → (A → Trace → Type 0) → (ℕ → Trace → Type 0) → Outcome A → Type 0
Ends P E (done a t) = P a t
Ends P E (exited c t) = E c t

-- Some call of the trace satisfies `p`; some call that satisfies `p` succeeded.
unfoldable pub made : (Call → Bool) → Trace → Bool
made p [] = false
made p (c ∷ t) = p c || made p t

unfoldable pub did : Os → (Call → Bool) → Trace → Bool
did os p [] = false
did os p (c ∷ t) = (p c && os.succeeds t c) || did os p t
