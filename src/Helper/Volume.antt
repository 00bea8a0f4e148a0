-- ===== src/Helper/Volume.antt =====
-- One volume into the workspace (helper-rs/src/main.rs): `probe_fs`, `sanitized`, the file system
-- check, the options of the staging mount and `mount_volume_at_workspace`.
pub mod Cleanup
pub mod Keeps
use veracage.Base.{
  ℕ, zero, suc, ◌+◌, ◌/◌, Text, codes, List, [], ◌∷◌, ◌++◌, map, Bool, true, false, ◌&&◌, ◌||◌, not,
  Option, none, some, if◌then◌else◌, ◌==◌, text_eq, contains_text, is_empty, trim, is_control, keep,
  lines, split_once, split, to_lower, to_dec, ◌≡◌, refl,
}
use veracage.Helper.Names.{workspace_name}
use veracage.Helper.Crypt.{Backend, detect, crypt_open, crypt_close}
use veracage.Helper.Sys.{
  Call, exists, remove_dir, create_dir_all, set_mode, try_chown, run, run_output, idmap_mount, Ids,
  Os, M, Outcome, done, exited, Trace, pure, exit, ◌>>=◌, ◌>>◌, try, call, status, text, must, when,
  unless, tool, tool_status, success,
}

abbrev pub exit_crypt_failed : ℕ
exit_crypt_failed = 4

abbrev pub exit_fsck_failed : ℕ
exit_fsck_failed = 5

abbrev pub workspace : Text
workspace = codes "/run/veracage/vaults"

-- `sanitized`
unfoldable pub sanitized : Text → Option Text
sanitized raw =
    let s = keep (λ c. not (is_control c)) (trim raw) in if is_empty s then none else some s

pub record Probe : Type 0 where
  pub label : Option Text
  pub fstype : Option Text

-- The match of `probe_fs` on one line.
unfoldable pub probe_line : Probe → Option (Text × Text) → Probe
probe_line p none = p
probe_line p (some (key, v)) =
    if text_eq key (codes "LABEL")
    then record p { label = sanitized v }
    else if text_eq key (codes "TYPE")
    then record p { fstype = sanitized v }
    else p

unfoldable pub probe_lines : Probe → List Text → Probe
unfolding probe_line
probe_lines p [] = p
probe_lines p (l ∷ ls) = probe_lines (probe_line p (split_once b'=' l)) ls

abbrev no_probe : Probe
no_probe = record { label = none; fstype = none }

abbrev pub dm_path : Text → Text
dm_path dm_name = codes "/dev/mapper/" ++ dm_name

-- `probe_fs`
unfoldable pub probe_fs : Text → M Probe
unfolding probe_lines
probe_fs path os t =
    (do
      out ← text (
          run_output (tool os (codes "blkid"))
            (codes "-p" ∷ codes "-o" ∷ codes "export" ∷ path ∷ []))
      pure (elim out [ none ↦ no_probe | some body ↦ probe_lines no_probe (lines body) ]))
      os t

abbrev pub or_empty : Option Text → Text
or_empty none = []
or_empty (some t) = t

abbrev pub ownerless_types : List Text
ownerless_types = codes "vfat" ∷ codes "exfat" ∷ codes "ntfs" ∷ codes "ntfs3" ∷ codes "msdos" ∷ []

-- `is_ownerless_fs`
unfoldable pub is_ownerless_fs : Option Text → Bool
is_ownerless_fs fstype = contains_text ownerless_types (map to_lower (or_empty fstype))

-- `stage_opts`
unfoldable pub stage_opts : Option Text → ℕ → ℕ → Text × Bool
stage_opts fstype human_uid human_gid =
    if is_ownerless_fs fstype
    then (
      codes "nodev,nosuid,uid="
          ++ (to_dec human_uid ++ (codes ",gid=" ++ (to_dec human_gid ++ codes ",umask=0077"))),
      false,
    )
    else (codes "nodev,nosuid", true)

abbrev pub fsck_types : List Text
fsck_types = codes "ext2" ∷ codes "ext3" ∷ codes "ext4" ∷ codes "vfat" ∷ codes "exfat" ∷ []

-- `fsck_ok`: only the bits of `FSCK_CORRECTED` (1 and 2) may be set in an exit code.
unfoldable pub fsck_ok : Option ℕ → Bool
fsck_ok none = false
fsck_ok (some code) = code / 4 == 0

abbrev is_absolute : Text → Bool
is_absolute [] = false
is_absolute (c ∷ cs) = c == b'/'

-- `fsck_checker`
unfoldable pub fsck_checker : Os → Option Text → Option Text
fsck_checker os none = none
fsck_checker os (some fstype) =
    let bin = tool os (codes "fsck." ++ fstype) in
    if contains_text fsck_types fstype && is_absolute bin then some bin else none

-- `fsck_volume`: whether it returned `Ok`.
unfoldable pub fsck_with : Option Text → Text → M Bool
fsck_with none path = pure true
fsck_with (some checker) path = do
  st ← status (run checker (codes "-p" ∷ path ∷ []))
  pure (elim st [ none ↦ true | some code ↦ fsck_ok code ])

unfoldable pub fsck_volume : Text → Option Text → M Bool
unfolding fsck_with
fsck_volume path fstype os t = fsck_with (fsck_checker os fstype) path os t

-- `Path::file_stem` of a canonical path.
unfoldable pub rsplit_once : ℕ → Text → Option (Text × Text)
rsplit_once d [] = none
rsplit_once d (c ∷ cs) = elim (rsplit_once d cs) [
  | some (a, b) ↦ some (c ∷ a, b)
  | none ↦ if c == d then some ([], cs) else none
]

stem_of : Text → Option (Text × Text) → Text
stem_of name none = name
stem_of name (some ([], b)) = name
stem_of name (some (c ∷ a, b)) = c ∷ a

file_name : Text → Text
unfolding rsplit_once
file_name path = elim (rsplit_once b'/' path) [ none ↦ path | some (a, b) ↦ b ]

unfoldable pub file_stem : Text → Option Text
unfolding stem_of file_name rsplit_once
file_stem path =
    let name = file_name path in
    if is_empty name then none else some (stem_of name (rsplit_once b'.' name))

-- The label of a volume that has none.
unfoldable pub volume_label : Option Text → Text → Text
unfolding file_stem
volume_label (some l) source = l
volume_label none source = elim (file_stem source) [ some s ↦ s | none ↦ codes "Volume" ]

-- What the file system answers for a path at this point of the run.
abbrev pub exists_now : Os → Trace → Text → Bool
exists_now os t path = os.succeeds t (exists path)

abbrev pub in_workspace : Text → Text
in_workspace base = workspace ++ b'/' ∷ base

abbrev pub raw_dir : Text → Text
raw_dir base = in_workspace (b'.' ∷ (base ++ codes ".raw"))

pub record Mounted : Type 0 where
  pub mountpoint : Text
  pub label : Text

-- The code of a failed `mount`: its own, or 1 if a signal ended it.
abbrev mount_code : Option ℕ → ℕ
mount_code none = 1
mount_code (some c) = c

abbrev pub umount_call : Os → Text → Call
umount_call os raw = run (tool os (codes "umount")) (raw ∷ [])

-- From the staging mount on: the mountpoint and the idmapped clone.
unfoldable pub clone_to_workspace : Ids → Text → Text → Text → M Mounted
unfolding crypt_close
clone_to_workspace ids base label dm_name os =
    (do
      must (create_dir_all (in_workspace base)) 1
      call (set_mode (in_workspace base) 0o755)
      mapped ← try (
          idmap_mount (raw_dir base) (in_workspace base) ids.human_uid ids.human_gid ids.vault_uid
            ids.vault_gid 0)
      unless mapped (do
        status (umount_call os (raw_dir base))
        call (remove_dir (raw_dir base))
        call (remove_dir (in_workspace base))
        crypt_close dm_name
        exit 1)
      status (umount_call os (raw_dir base))
      call (remove_dir (raw_dir base))
      pure (record { mountpoint = in_workspace base; label = label }))
      os

-- The staging mount.
unfoldable pub stage_mount : Ids → Option Text → Text → Text → Text → M Mounted
unfolding crypt_close
stage_mount ids fstype base label dm_name os =
    (do
      must (create_dir_all (raw_dir base)) 1
      call (set_mode (raw_dir base) 0o700)
      let (opts, needs_chown) = stage_opts fstype ids.human_uid ids.human_gid
      st ← tool_status (codes "mount") (codes "-o" ∷ opts ∷ dm_path dm_name ∷ raw_dir base ∷ [])
      elim st [
        | none ↦ exit 1
        | some code ↦ do
          unless (success (some code))
              (do call (remove_dir (raw_dir base)); crypt_close dm_name; exit (mount_code code))
          when needs_chown (call (try_chown (raw_dir base) ids.human_uid ids.human_gid))
          clone_to_workspace ids base label dm_name
      ])
      os

pub choose_backend : Option Backend → Text → M Backend
choose_backend (some b) source = pure b
choose_backend none source = detect source

-- From the file system check on; `workspace_path` reads the directory as it is now.
unfoldable pub mount_checked : Ids → Text → Text → Option Text → Text → M Mounted
unfolding crypt_close
mount_checked ids source dm_name fstype label = do
  checked ← fsck_volume (dm_path dm_name) fstype
  unless checked (do crypt_close dm_name; exit exit_fsck_failed)
  base ← (λ os t. done (workspace_name os.digest (exists_now os t) workspace label source) t)
  stage_mount ids fstype base label dm_name

unfoldable pub mount_opened : Ids → Text → Text → M Mounted
mount_opened ids source dm_name = do
  probe ← probe_fs (dm_path dm_name)
  mount_checked ids source dm_name probe.fstype (volume_label probe.label source)

-- `mount_volume_at_workspace`
unfoldable pub mount_volume_at_workspace :
    Ids → Text → Option Backend → Option Text → Text → M Mounted
unfolding choose_backend mount_opened
mount_volume_at_workspace ids source backend passphrase dm_name = do
  b ← choose_backend backend source
  opened ← crypt_open source b dm_name passphrase
  unless opened (exit exit_crypt_failed)
  mount_opened ids source dm_name
