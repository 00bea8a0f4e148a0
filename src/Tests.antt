-- ===== src/Tests.antt =====
-- The properties at concrete inputs, and runs of the definitions on the inputs of the source's own
-- tests.
mod Broker
mod Config
mod Clipboard
mod Toolbar
use veracage.Base.{
  ℕ, zero, suc, Text, codes, List, [], ◌∷◌, ◌++◌, Bool, true, false, not, Option, none, some,
  if◌then◌else◌, length, text_eq, is_empty, unlines, keep, ◌≡◌, refl, ◌↔◌, ◌≤◌, to_dec, arith,
  is_whitespace, text_code, take, get_elem?, contains_char, filter_map, ◌&&◌,
}
use veracage.Helper.Args.{Args, no_args, parse_args}
use veracage.Helper.Args.RoundTrip.{print_args, parse_args-print_args}
use veracage.Helper.Close.{close_child, dm_at_mountpoint}
use veracage.Helper.Close.Child.{IsUntouched, IsClosedOrKept, device_of, close_child-IsClosedOrKept}
use veracage.Helper.Launch.{spawn_compositor}
use veracage.Helper.Launch.Guarded.{is_guarded, Guarded, spawn_compositor-IsGuarded}
use veracage.Helper.Leader.{session_path}
use veracage.Helper.Leader.{starttime_of, words_onto, parse_u64}
use veracage.Helper.Leader.Starttime.{starttime_of_comm}
use veracage.Helper.Lock.{
  header_line, generation_line, volume_line, append_session_volume, append_session_lines,
  create_session_lock, session_lock_remove, lock_dms_for_source, lock_dms_for_vhash,
  lock_generation, lock_survivors, recorded_dms,
}
use veracage.Helper.Lock.Records.{
  IsVolume, AreLines, IsWord, header_line-inline, lock_dms_for_source-append,
  lock_dms_for_vhash-append, recorded_dms-append, lock_generation-append,
}
use veracage.Helper.Lock.Removal.{
  is_other, lock_dms_for_source-remove, lock_dms_for_vhash-remove, recorded_dms-remove,
  lock_generation-remove, recorded_dms-recovered, lock_generation-recovered,
}
use veracage.Helper.Lock.Readers.{
  append_session_volume-readers, session_lock_remove-readers, lock_survivors-recovered,
}
use veracage.Helper.Main.{main}
use veracage.Helper.Main.Guarded.{RunEnds, main-IsRunOf}
use veracage.Helper.Names.{
  sanitize_label, workspace_name, label_ok, suffixed, join_path, random_dm_name, is_veracage_dm,
  check_session_caller, vault_hash,
}
use veracage.Helper.Names.Safe.{
  IsDigest, IsComponent, sanitize_label-IsComponent, workspace_name-label_ok, workspace_name_free,
  is_veracage_dm-random_dm_name, check_session_caller_iff,
}
use veracage.Helper.Session.{
  run_session_add, teardown, become_leader, lock_path, is_gen, generation_in, open_dms,
}
use veracage.Helper.Session.Guard.{Refused}
use veracage.Helper.Session.Leader.{become_leader-IsGuarded}
use veracage.Helper.Session.Reopen.{run_session_add-refuses_path, run_session_add-refuses_reopen}
use veracage.Helper.Session.Teardown.{
  is_change, is_removal, some_failed, RemovedIfClosed, IsForeign, other_generation,
  teardown-leaves_foreign, teardown-removes_own,
}
use veracage.Helper.Sys.{
  Proc, Call, read_file, source_key, flock, setns, Ids, Os, Trace, Ends, made, did, Round, bytes,
  elapsed,
}
use veracage.Helper.Volume.{Mounted, in_workspace, mount_volume_at_workspace}
use veracage.Helper.Volume.Cleanup.{MountEnds, mount_volume-MountEnds}
use veracage.Helper.Wait.{wait_for_go_on, received, before_newline, wait_for_go_on_iff}
use veracage.Compositor.Clipio.{
  max_clip_bytes, ReadRound, not_ready, read_bytes, read_bounded, WriteRound, busy, took,
  write_bounded,
}
use veracage.Compositor.Clipio.Bounded.{sent, read_bounded-prefix, write_bounded-prefix}
use veracage.Compositor.Shortcuts.{Keybind, no_mods, label, matches, parse}
use veracage.Compositor.Shortcuts.Parse.{parse-label, matches_needs_modifier}

abbrev sevens : ℕ → List ℕ
sevens zero = []
sevens (suc n) = 7 ∷ sevens n

abbrev ids : Ids
ids = record { human_uid = 1000; human_gid = 1000; vault_uid = 990; vault_gid = 990 }

abbrev dm : Text
dm = codes "veracage-0123456789ab"

abbrev skey : Text
skey = codes "66306:12"

abbrev vhash : Text
vhash = codes "00112233aabbccdd"

abbrev gen : Text
gen = codes "0a0b0c0d0e0f0102"

abbrev sid : Text
sid = codes "1000"

abbrev lock_lines : List Text
lock_lines = header_line 1000 ∷ generation_line gen ∷ []

-- The lock of a session with one volume open.
abbrev lock_body : Text
lock_body = append_session_volume (unlines lock_lines) 1000 dm [] vhash skey

abbrev answers : Call → Option Text
answers (source_key p) = some skey
answers (read_file p) = some lock_body
answers _ = none

-- A system on which every call succeeds.
abbrev quiet_os : Os
quiet_os = record {
  succeeds = λ t c. true;
  status = λ t c. some (some 0);
  number = λ t c. some 7;
  text = λ t c. answers c;
  own_ns = λ t. none;
  procs = λ t. none;
  rounds = λ t. [];
  retries = λ t. 2;
  is_file = λ p. true;
  digest = λ p. sevens 32;
}

volume : IsVolume dm [] vhash skey
unfolding is_whitespace
volume = record {
  dm_word = refl;
  dm_some = refl;
  label_inline = refl;
  label_no_tab = refl;
  vhash_word = refl;
  skey_word = refl;
}

lines_are : AreLines lock_lines
lines_are = (header_line-inline 1000, (refl, tt))

abbrev volume_lines : List Text
volume_lines = header_line 1000 ∷ generation_line gen ∷ volume_line dm [] vhash skey ∷ []

volume_lines_are : AreLines volume_lines
volume_lines_are = (header_line-inline 1000, (refl, (refl, tt)))

run_session_add-refuses_reopen_example :
    Ends
      (λ a u. ⊥)
      (Refused [])
      (run_session_add ids no_args sid (codes "/home/me/link") 4242 quiet_os [])
run_session_add-refuses_reopen_example =
    run_session_add-refuses_reopen volume 1000 lock_lines lines_are refl quiet_os ids no_args sid
      (codes "/home/me/link") 4242 [] (λ t. refl) refl refl

hashed : vault_hash quiet_os.digest (codes "/home/me/v.img") ≡ codes "0707070707070707"
unfolding vault_hash text_code
hashed = refl

-- The same file, put there anew: another inode, and a lock that has its path.
abbrev path_body : Text
path_body = append_session_volume (unlines lock_lines) 1000 dm [] (codes "0707070707070707") skey

abbrev replaced_os : Os
replaced_os = record quiet_os { text = λ t c. elim c [ read_file p ↦ some path_body | _ ↦ none ] }

path_volume : IsVolume dm [] (codes "0707070707070707") skey
unfolding is_whitespace
path_volume = record {
  dm_word = refl;
  dm_some = refl;
  label_inline = refl;
  label_no_tab = refl;
  vhash_word = refl;
  skey_word = refl;
}

run_session_add-refuses_path_example :
    Ends
      (λ a u. ⊥)
      (Refused [])
      (run_session_add ids no_args sid (codes "/home/me/v.img") 4242 replaced_os [])
run_session_add-refuses_path_example =
    run_session_add-refuses_path path_volume 1000 lock_lines lines_are replaced_os ids no_args sid
      (codes "/home/me/v.img") 4242 [] (λ t. refl) hashed refl

nothing_done : IsUntouched quiet_os (in_workspace (codes "photos")) []
unfolding made did
nothing_done = record { mounted = refl; no_run = refl; no_rename = refl }

abbrev joined : Trace
joined = setns 4242 ∷ []

close_child-IsClosedOrKept_example :
    Ends
      (λ a u. ⊥)
      (IsClosedOrKept quiet_os
        (in_workspace (codes "photos"))
        (device_of (dm_at_mountpoint (in_workspace (codes "photos")) quiet_os joined)))
      (close_child sid (codes "photos") 4242 quiet_os [])
close_child-IsClosedOrKept_example =
    close_child-IsClosedOrKept quiet_os sid (codes "photos") 4242 [] nothing_done

abbrev compositor_args : Args
compositor_args = record no_args {
  setenv =
      codes "XDG_RUNTIME_DIR=/run/user/1000"
      ∷ codes "WAYLAND_DISPLAY=wayland-0"
      ∷ codes "LD_PRELOAD=/tmp/x.so"
      ∷ [];
  rest = codes "_compositor" ∷ [];
}

guarded_nil : is_guarded quiet_os ids [] ≡ true
unfolding is_guarded
guarded_nil = refl

spawn_compositor-IsGuarded_example :
    Ends (λ a u. ⊥) (Guarded quiet_os ids) (spawn_compositor ids compositor_args quiet_os [])
spawn_compositor-IsGuarded_example =
    spawn_compositor-IsGuarded quiet_os ids compositor_args [] guarded_nil

abbrev leader_args : Args
leader_args = record no_args { rest = codes "_leader" ∷ [] }

abbrev mounted : Mounted
mounted = record { mountpoint = in_workspace (codes "photos"); label = codes "photos" }

become_leader-IsGuarded_example :
    Ends
      (λ a u. ⊥)
      (Guarded quiet_os ids)
      (become_leader ids leader_args sid (codes "/run/user/1000/s.sock") mounted quiet_os [])
become_leader-IsGuarded_example =
    become_leader-IsGuarded quiet_os ids leader_args sid (codes "/run/user/1000/s.sock") mounted []
      guarded_nil

abbrev flocked : Trace
flocked = flock (session_path sid (codes ".flock")) ∷ []

own_generation :
    is_gen gen (generation_in (quiet_os.text flocked (read_file (lock_path sid)))) ≡ true
unfolding lock_generation append_session_volume text_code
own_generation = refl

gen-IsWord : IsWord gen
unfolding is_whitespace
gen-IsWord = refl

IsForeign-lock_body : IsForeign (codes "ffffffffffffffff") (some lock_body)
unfolding append_session_volume text_eq to_dec
IsForeign-lock_body =
    other_generation gen 1000 (volume_line dm [] vhash skey ∷ []) gen-IsWord (refl, tt) refl

abbrev control_socket : Text
control_socket = codes "/run/user/1000/veracage/sessions/session-1000.sock"

socket_is_not_lock : text_eq control_socket (lock_path sid) ≡ false
unfolding text_eq
socket_is_not_lock = refl

nothing_removed : made (is_removal (lock_path sid)) [] ≡ false
unfolding made
nothing_removed = refl

nothing_failed : some_failed quiet_os [] ≡ false
unfolding some_failed
nothing_failed = refl

teardown-removes_own_example :
    Ends
      (λ a v. ⊥)
      (RemovedIfClosed quiet_os sid gen 4242 control_socket 0)
      (teardown sid gen 4242 control_socket 0 quiet_os [])
teardown-removes_own_example =
    teardown-removes_own quiet_os sid gen 4242 control_socket 0 [] refl own_generation
      socket_is_not_lock nothing_removed nothing_failed

teardown-leaves_foreign_example :
    Ends
      (λ a u. ⊥)
      (λ c u. made is_change u ≡ made is_change [])
      (teardown sid (codes "ffffffffffffffff") 4242 control_socket 0 quiet_os [])
teardown-leaves_foreign_example =
    teardown-leaves_foreign quiet_os sid (codes "ffffffffffffffff") 4242 control_socket 0 []
      IsForeign-lock_body

mount_volume-MountEnds_example :
    MountEnds quiet_os ids (codes "/home/me/v.img") none (some (codes "secret")) dm (
      mount_volume_at_workspace ids
        (codes "/home/me/v.img")
        none
        (some (codes "secret"))
        dm
        quiet_os
        [])
mount_volume-MountEnds_example =
    mount_volume-MountEnds quiet_os ids (codes "/home/me/v.img") none (some (codes "secret")) dm []

abbrev some_digest : List ℕ → List ℕ
some_digest p = sevens 32

some_digest-IsDigest : IsDigest some_digest
some_digest-IsDigest = record { bytes = λ p. refl; size = λ p. refl }

abbrev source : Text
source = codes "/home/me/v.img"

sanitize_label-IsComponent_example :
    IsComponent (sanitize_label some_digest (codes "../My vault") source)
    × (length (sanitize_label some_digest (codes "../My vault") source) ≤ 64)
sanitize_label-IsComponent_example =
    sanitize_label-IsComponent some_digest-IsDigest source (codes "../My vault")

-- A workspace in which only `photos` is taken.
abbrev photos_taken : Text → Bool
photos_taken p = text_eq p (codes "/run/veracage/vaults/photos")

abbrev workspace_root : Text
workspace_root = codes "/run/veracage/vaults"

workspace_name-label_ok_example :
    label_ok (workspace_name some_digest photos_taken workspace_root (codes "photos") source) ≡ true
workspace_name-label_ok_example =
    workspace_name-label_ok some_digest-IsDigest photos_taken workspace_root (codes "photos") source

second_is_free :
    photos_taken
      (join_path workspace_root (suffixed (sanitize_label some_digest (codes "photos") source) 2))
    ≡ false
unfolding sanitize_label text_code
second_is_free = refl

workspace_name_free_example :
    photos_taken (
      join_path workspace_root
        (workspace_name some_digest photos_taken workspace_root (codes "photos") source))
    ≡ false
workspace_name_free_example =
    workspace_name_free some_digest-IsDigest photos_taken workspace_root (codes "photos") source 2
      (omega arith) (omega arith) second_is_free

dm_is_veracage : is_veracage_dm dm ≡ true
unfolding is_veracage_dm text_code
dm_is_veracage = refl

append_session_volume-readers_example :
    (lock_dms_for_source lock_body skey
      ≡ lock_dms_for_source (unlines lock_lines) skey
        ++ (if not (is_empty skey) && text_eq skey skey then dm ∷ [] else []))
    × (lock_dms_for_vhash lock_body vhash
        ≡ lock_dms_for_vhash (unlines lock_lines) vhash
          ++ (if text_eq vhash vhash then dm ∷ [] else []))
    × (recorded_dms lock_body ≡ recorded_dms (unlines lock_lines) ++ dm ∷ [])
    × (lock_generation lock_body ≡ lock_generation (unlines lock_lines))
append_session_volume-readers_example =
    append_session_volume-readers volume 1000 (header_line 1000) (generation_line gen ∷ []) skey
      vhash lines_are dm_is_veracage

session_lock_remove-readers_example :
    (lock_dms_for_source (session_lock_remove (unlines volume_lines) dm) skey
      ≡ keep (is_other dm) (lock_dms_for_source (unlines volume_lines) skey))
    × (lock_dms_for_vhash (session_lock_remove (unlines volume_lines) dm) vhash
        ≡ keep (is_other dm) (lock_dms_for_vhash (unlines volume_lines) vhash))
    × (recorded_dms (session_lock_remove (unlines volume_lines) dm)
        ≡ keep (is_other dm) (recorded_dms (unlines volume_lines)))
    × (lock_generation (session_lock_remove (unlines volume_lines) dm)
        ≡ lock_generation (unlines volume_lines))
session_lock_remove-readers_example =
    session_lock_remove-readers volume_lines dm skey vhash volume_lines_are

abbrev recovered_lock : Text
recovered_lock =
    append_session_lines (create_session_lock 1000 gen)
      (lock_survivors (unlines volume_lines) (text_eq dm))

lock_survivors-recovered_example :
    (recorded_dms recovered_lock ≡ keep (text_eq dm) (recorded_dms (unlines volume_lines)))
    × (lock_generation recovered_lock ≡ some gen)
lock_survivors-recovered_example =
    lock_survivors-recovered 1000 gen (text_eq dm) volume_lines gen-IsWord volume_lines_are

abbrev split_go : List Round
split_go = bytes (b'g' ∷ []) ∷ elapsed ∷ bytes (b'o' ∷ 10 ∷ []) ∷ []

wait_for_go_on_iff_example :
    (wait_for_go_on [] split_go ≡ true) ↔ (before_newline (received split_go) ≡ some (codes "go"))
wait_for_go_on_iff_example = wait_for_go_on_iff split_go

parse_args-print_args_example :
    parse_args none (print_args compositor_args)
    ≡ some (record compositor_args { passphrase = none })
parse_args-print_args_example = parse_args-print_args none compositor_args

abbrev ctrl_alt_c : Keybind
ctrl_alt_c = record {
  mods = record { ctrl = true; alt = true; shift = false; logo = false };
  key = b'c';
}

parse-ctrl_alt_c : parse (codes "alt + control+C") ≡ some ctrl_alt_c
unfolding parse text_code
parse-ctrl_alt_c = refl

parse-label_example : parse (label ctrl_alt_c) ≡ some ctrl_alt_c
parse-label_example = parse-label (codes "alt + control+C") ctrl_alt_c parse-ctrl_alt_c

abbrev open_args : Args
open_args = record no_args {
  source = some source;
  session = some sid;
  setenv = codes "XDG_RUNTIME_DIR=/run/user/1000" ∷ [];
  rest = codes "_leader" ∷ [];
}

main-IsRunOf_example : RunEnds quiet_os open_args (main open_args quiet_os [])
main-IsRunOf_example = main-IsRunOf quiet_os open_args

-- A process of another namespace that has the device mounted, and one that has not.
abbrev processes : List Proc
processes =
    (record {
      mountinfo = some (codes "29 1 253:3 / /mnt rw - ext4 /dev/mapper/veracage-0123456789ab rw");
      ns = some (codes "mnt:[4026532000]");
      comm = some (codes "dolphin");
    })
    ∷ (record {
      mountinfo = some (codes "1 0 8:1 / / rw");
      ns = some (codes "mnt:[1]");
      comm = none;
    })
    ∷ []

abbrev needle : Text
needle = codes " /dev/mapper/veracage-0123456789ab "

abbrev own_ns : Text
own_ns = codes "mnt:[4026531999]"

abbrev reads : List ReadRound
reads = not_ready ∷ read_bytes 1 (2 ∷ 3 ∷ []) ∷ read_bytes 4 [] ∷ ReadRound.eof ∷ []

read_bounded-prefix_example :
    (read_bounded reads ≡ take max_clip_bytes (sent reads))
    × (length (read_bounded reads) ≤ max_clip_bytes)
read_bounded-prefix_example = read_bounded-prefix reads

abbrev writes : List WriteRound
writes = took 1 ∷ busy ∷ took 0 ∷ []

write_bounded-prefix_example :
    (unsent : List ℕ) × (write_bounded (1 ∷ 2 ∷ 3 ∷ 4 ∷ []) writes ++ unsent
      ≡ take max_clip_bytes (1 ∷ 2 ∷ 3 ∷ 4 ∷ []))
write_bounded-prefix_example = write_bounded-prefix (1 ∷ 2 ∷ 3 ∷ 4 ∷ []) writes

abbrev stat_rest : Text
stat_rest = codes " S 1 42 42 0 -1 4194560 1 0 0 0 0 0 0 0 20 0 1 0 8812 0 0"

no_parenthesis : contains_char b')' stat_rest ≡ false
unfolding contains_char
no_parenthesis = refl

starttime_of_comm_example :
    starttime_of (codes "42 () 1 (x" ++ b')' ∷ stat_rest)
    ≡ parse_u64 (get_elem? (words_onto [] stat_rest) 19)
starttime_of_comm_example = starttime_of_comm (codes "42 () 1 (x") stat_rest no_parenthesis
