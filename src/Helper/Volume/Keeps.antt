-- ===== src/Helper/Volume/Keeps.antt =====
-- The parts of a mount, as to the guard of Launch/Guarded.
use veracage.Base.{Text, Bool, true, false, Option, arith}
use veracage.Helper.Crypt.{Backend, detect, crypt_open, crypt_close}
use veracage.Helper.Names.{workspace_name}
use veracage.Helper.Sys.{Ids, Os, M, done, exit, unless, ◌>>=◌, ◌>>◌}
use veracage.Helper.Launch.Guarded.{is_guarded}
use veracage.Helper.Launch.Keeps.{Keeps, bind-Keeps}
use veracage.Helper.Volume.{
  probe_fs, fsck_with, fsck_volume, clone_to_workspace, stage_mount, choose_backend, mount_checked,
  mount_opened, mount_volume_at_workspace, Mounted, dm_path, volume_label, exit_crypt_failed,
  exit_fsck_failed, exists_now, workspace,
}

module _ (os : Os) (ids : Ids) where
  pub crypt_close-Keeps : (dm : Text) → Keeps os ids (crypt_close dm)
  unfolding crypt_close is_guarded
  crypt_close-Keeps dm t g = ground arith

  choose_backend-Keeps :
      (b : Option Backend) (source : Text) → Keeps os ids (choose_backend b source)
  unfolding choose_backend detect is_guarded
  choose_backend-Keeps b source t g = ground arith

  crypt_open-Keeps :
      (b : Backend) (source dm : Text) (passphrase : Option Text)
      → Keeps os ids (crypt_open source b dm passphrase)
  unfolding crypt_open is_guarded
  crypt_open-Keeps b source dm passphrase t g = ground arith

  clone-Keeps : (base label dm : Text) → Keeps os ids (clone_to_workspace ids base label dm)
  unfolding clone_to_workspace is_guarded
  clone-Keeps base label dm t g = ground arith

  stage-Keeps :
      (fstype : Option Text) (base label dm : Text)
      → Keeps os ids (stage_mount ids fstype base label dm)
  unfolding stage_mount clone_to_workspace crypt_close is_guarded
  stage-Keeps fstype base label dm t g = ground arith

  probe_fs-Keeps : (path : Text) → Keeps os ids (probe_fs path)
  unfolding probe_fs is_guarded
  probe_fs-Keeps path t g = ground arith

  fsck_volume-Keeps : (path : Text) (fstype : Option Text) → Keeps os ids (fsck_volume path fstype)
  unfolding fsck_volume fsck_with is_guarded
  fsck_volume-Keeps path fstype t g = ground arith

  abbrev checked_then : Text → Text → Option Text → Text → Bool → M Mounted
  checked_then source dm fs label checked = do
    unless checked (do crypt_close dm; exit exit_fsck_failed)
    base ← (λ os t. done (workspace_name os.digest (exists_now os t) workspace label source) t)
    stage_mount ids fs base label dm

  checked_then-Keeps :
      (source dm : Text) (fs : Option Text) (label : Text) (checked : Bool)
      → Keeps os ids (checked_then source dm fs label checked)
  unfolding crypt_close is_guarded
  checked_then-Keeps source dm fs label true t g =
      stage-Keeps fs (workspace_name os.digest (exists_now os t) workspace label source) label dm t
        g
  checked_then-Keeps source dm fs label false t g = ground arith

  mount_checked-Keeps :
      (source dm : Text) (fs : Option Text) (label : Text)
      → Keeps os ids (mount_checked ids source dm fs label)
  unfolding mount_checked
  mount_checked-Keeps source dm fs label =
      bind-Keeps os ids (fsck_volume (dm_path dm) fs) (checked_then source dm fs label)
        (fsck_volume-Keeps (dm_path dm) fs) (checked_then-Keeps source dm fs label)

  mount_opened-Keeps : (source dm : Text) → Keeps os ids (mount_opened ids source dm)
  unfolding mount_opened
  mount_opened-Keeps source dm =
      bind-Keeps os ids (probe_fs (dm_path dm))
        (λ p. mount_checked ids source dm p.fstype (volume_label p.label source))
        (probe_fs-Keeps (dm_path dm))
        (λ p. mount_checked-Keeps source dm p.fstype (volume_label p.label source))

  abbrev opened_then : Text → Text → Bool → M Mounted
  opened_then source dm opened = do
    unless opened (exit exit_crypt_failed)
    mount_opened ids source dm

  opened_then-Keeps :
      (source dm : Text) (opened : Bool) → Keeps os ids (opened_then source dm opened)
  opened_then-Keeps source dm true t g = mount_opened-Keeps source dm t g
  opened_then-Keeps source dm false t g = g

  pub mount_volume-Keeps :
      (source : Text) (backend : Option Backend) (passphrase : Option Text) (dm : Text)
      → Keeps os ids (mount_volume_at_workspace ids source backend passphrase dm)
  unfolding mount_volume_at_workspace
  mount_volume-Keeps source backend passphrase dm =
      bind-Keeps os ids (choose_backend backend source)
        (λ b. do opened ← crypt_open source b dm passphrase; opened_then source dm opened)
        (choose_backend-Keeps backend source)
        (λ b.
          bind-Keeps os ids (crypt_open source b dm passphrase) (opened_then source dm)
            (crypt_open-Keeps b source dm passphrase) (opened_then-Keeps source dm))
