-- ===== src/Lib.antt =====
-- Veracage keeps encrypted volumes in a workspace that only a sandboxed session sees. This library
-- models its privileged helper, which opens, mounts and closes the volumes as root, the session broker
-- that runs as the human, and parts of the shared compositor.
--
-- The parts, with the file that models each and the source it translates:
--   Helper/Names       helper-rs/src/main.rs: session ids, labels, directory and device names
--   Helper/Lock        helper-rs/src/main.rs: the body of the session lock file
--   Helper/Sys         helper-rs/src/main.rs: the calls to the system, `tool`, `fail`
--   Helper/Crypt       helper-rs/src/crypt.rs
--   Helper/Volume      helper-rs/src/main.rs: `mount_volume_at_workspace` and what it uses
--   Helper/Leader      helper-rs/src/main.rs: `verify_session_leader`, `session_flock`
--   Helper/Holders     helper-rs/src/main.rs: `foreign_holders`, `holder_names`
--   Helper/Wait        helper-rs/src/main.rs: `wait_for_go_on`
--   Helper/Close       helper-rs/src/main.rs: `run_close_volume`
--   Helper/Args        helper-rs/src/main.rs: `parse_args`
--   Helper/Launch      helper-rs/src/main.rs: `spawn_compositor` and the hand-over
--   Helper/Session     helper-rs/src/main.rs: bootstrap, add, teardown
--   Helper/Main        helper-rs/src/main.rs: `main`
--   Agent/Commands     agent-rs/src/broker.rs: the command log
--   Agent/Dismount     agent-rs/src/broker.rs: `Dismount`, one close of a volume
--   Agent/Broker       agent-rs/src/broker.rs: `Broker`, its children and its loop
--   Agent/Config       agent-rs/src/config.rs: `load`, `save`; Agent/Keyboard, keyboard.rs
--   Compositor/Hostclip  compositor-rs/src/hostclip.rs: the worker of the host clipboard
--   Agent/Publish      agent-rs/src/broker.rs: the published settings and apps
--   Compositor/Toolbar compositor-rs/src/toolbar.rs: the command log (Commands), the scans of the
--     published files (Scan), the progress note (Status)
--   Compositor/Shortcuts  compositor-rs/src/shortcuts.rs
--   Compositor/Clipio  compositor-rs/src/clipio.rs: the bounded loops
--   Base               Rust's text and list methods; Tests, the properties at concrete inputs
--
-- The helper's `main` parses the command line (Args), checks the caller (Main), and starts the
-- compositor (Launch), closes a volume (Close) or opens one (Session, Volume). Session and Close
-- meet in the lock file: an open appends a line (Lock), the duplicate-open guard reads it, a close
-- takes it out, and a teardown walks what is left.
--
-- A function with effects is a program over an operating system that answers as it likes: its run
-- is a trace of calls, the newest first, and an answer may depend on all the calls before. A theorem
-- about a run holds for all answers. A `fork` answers 0 in the child, so the child's run and the
-- parent's are two answers. `exit` ends a run with a code. Messages on stderr are no calls.
--
-- The broker and the clipboard worker are state machines: a step is a function on the state, and what
-- the system, the human and other programs answer is in the event or the `World` of the step. The
-- compositor's menu reaches the broker by the command log (Toolbar/Commands writes, Agent/Commands
-- reads); a dismount talks to the helper's `close_child` (Close) by `holders`, `busy` and `go`.
--
-- Texts are lists of code points, sizes in bytes those of UTF-8. Loops are structural: over lines,
-- fields, devices and processes; the retries of a close are the number that its deadline leaves
-- room for, the rounds of the wait those up to its deadline, the search for a free directory has
-- the source's 998 suffixes. No fuel is used besides these.
--
-- Not modelled: drawing and dialogs, window management, the detection of apps, the published
-- fonts and icons, the leaders' lists of apps, the sandbox's own clipboard, the system calls behind
-- the idmapped mount and the sockets, signal forwarding, the wiping of the passphrase in memory, and
-- the interleaving of two helpers, which the session flock serialises. A program that replaces the
-- helper is the call `exec`, after which the run ends. SHA-256 is a parameter, of which its size and
-- range are used, and so are the TOML reader and writer.
pub mod Base
pub mod Helper
pub mod Agent
pub mod Compositor
pub mod Tests
