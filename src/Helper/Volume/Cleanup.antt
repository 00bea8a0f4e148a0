-- ===== src/Helper/Volume/Cleanup.antt =====
-- How a mount ends.
use veracage.Base.{
  List, codes, ◌&&◌, ◌||◌, text_eq, text_eq_refl, Text, [], ◌∷◌, Bool, true, false, Option, none,
  arith, ◌≡◌, refl, ◌⊎◌, inl, inr,
}
use veracage.Helper.Names.{workspace_name}
use veracage.Helper.Crypt.{Backend, detect, crypt_open, crypt_close, close_call}
use veracage.Helper.Sys.{
  Call, idmap_mount, success, tool, did, create_dir_all, remove_dir, run, Ids, Os, M, Outcome, done,
  exited, Trace, Ends, exit, unless, ◌>>=◌, ◌>>◌,
}
use veracage.Helper.Sys.Rules.{Returns, bind-Returns}
use veracage.Helper.Volume.{
  mount_checked, mount_opened, choose_backend, exit_crypt_failed, exit_fsck_failed, workspace,
  dm_path, fsck_volume, probe_fs, volume_label, exists_now, in_workspace, raw_dir, Mounted,
  umount_call, clone_to_workspace, stage_mount, mount_volume_at_workspace,
}

-- The newest call is the close of the device.
abbrev pub ClosedLast : Os → Text → Trace → Type 0
ClosedLast os dm [] = ⊥
ClosedLast os dm (c ∷ t) = c ≡ close_call os dm

-- The newest call is a directory that could not be made or a command that could not be started.
abbrev pub Refused : Os → Trace → Type 0
Refused os (create_dir_all p ∷ t) = os.succeeds t (create_dir_all p) ≡ false
Refused os (run p args ∷ t) = os.status t (run p args) ≡ none
Refused os _ = ⊥

-- The newest calls dismount the staging directory and remove it.
abbrev pub Unstaged : Os → Text → Trace → Type 0
Unstaged os base (c ∷ d ∷ t) = (c ≡ remove_dir (raw_dir base)) × (d ≡ umount_call os (raw_dir base))
Unstaged os base _ = ⊥

-- The clone of the staging mount into the workspace.
abbrev pub is_clone : Text → Call → Bool
is_clone base (idmap_mount raw mp hu hg vu vg fd) =
    text_eq raw (raw_dir base) && text_eq mp (in_workspace base)
is_clone base _ = false

-- A run of `mount` of the device on the staging directory.
abbrev is_stage_of : Os → Text → Text → Text → List Text → Bool
is_stage_of os base dm p (o ∷ opts ∷ dev ∷ dir ∷ []) =
    text_eq p (tool os (codes "mount")) && text_eq dev (dm_path dm) && text_eq dir (raw_dir base)
is_stage_of os base dm p _ = false

-- Some such run succeeded.
unfoldable pub is_staged : Os → Text → Text → Trace → Bool
is_staged os base dm [] = false
is_staged os base dm (run p args ∷ t) =
    (is_stage_of os base dm p args && success (os.status t (run p args))) || is_staged os base dm t
is_staged os base dm (c ∷ t) = is_staged os base dm t

module _ (os : Os) (ids : Ids) (base label dm : Text) where
  abbrev Tidy : Outcome Mounted → Type 0
  Tidy =
      Ends
        (λ m t.
          (m.mountpoint ≡ in_workspace base)
          × (is_staged os base dm t ≡ true)
          × (did os (is_clone base) t ≡ true)
          × Unstaged os base t)
        (λ code t. ClosedLast os dm t ⊎ Refused os t)

  clone-Tidy :
      (t : Trace) → is_staged os base dm t ≡ true → Tidy (clone_to_workspace ids base label dm os t)
  unfolding clone_to_workspace is_staged did
  clone-Tidy t h = ground (arith, text_eq_refl (raw_dir base), text_eq_refl (in_workspace base))

  stage-Tidy : (fstype : Option Text) (t : Trace) → Tidy (stage_mount ids fstype base label dm os t)
  unfolding stage_mount clone_to_workspace is_staged did
  stage-Tidy fstype t = ground (
    arith,
    text_eq_refl (raw_dir base),
    text_eq_refl (in_workspace base),
    text_eq_refl (dm_path dm),
    text_eq_refl (tool os (codes "mount")),
  )

module _ (os : Os) (ids : Ids) (source : Text) (backend : Option Backend) (passphrase : Option Text)
    (dm : Text) where
  -- How `mount_volume_at_workspace` ends. It returns a directory of the workspace, to which the
  -- staged device was cloned, after the calls that dismount and remove the staging directory. It exits with the code for a failed decrypt, or with the device
  -- closed as its last act, or else because a directory could not be made or `mount` could not be
  -- started.
  abbrev pub MountEnds : Outcome Mounted → Type 0
  MountEnds =
      Ends
        (λ m t.
          (base : Text) × (m.mountpoint ≡ in_workspace base)
          × (is_staged os base dm t ≡ true)
          × (did os (is_clone base) t ≡ true)
          × Unstaged os base t)
        (λ code t. (code ≡ exit_crypt_failed) ⊎ (ClosedLast os dm t ⊎ Refused os t))

  from-Tidy : (base label : Text) (o : Outcome Mounted) → Tidy os ids base label dm o → MountEnds o
  from-Tidy base label (done m t) h = (base, h.0, h.1, h.2, h.3)
  from-Tidy base label (exited c t) h = inr h

  staged :
      (fs : Option Text) (base label : Text) (t : Trace)
      → MountEnds (stage_mount ids fs base label dm os t)
  staged fs base label t =
      from-Tidy base label (stage_mount ids fs base label dm os t)
        (stage-Tidy os ids base label dm fs t)

  fsck_volume-Returns :
      (path : Text) (fs : Option Text) (t : Trace) → Returns (fsck_volume path fs os t)
  unfolding fsck_volume
  fsck_volume-Returns path fs t = ground arith

  abbrev checked_then : Option Text → Text → Bool → M Mounted
  checked_then fs label checked = do
    unless checked (do crypt_close dm; exit exit_fsck_failed)
    base ← (λ os t. done (workspace_name os.digest (exists_now os t) workspace label source) t)
    stage_mount ids fs base label dm

  mount_checked-MountEnds :
      (fs : Option Text) (label : Text) (t : Trace)
      → MountEnds (mount_checked ids source dm fs label os t)
  unfolding mount_checked crypt_close
  mount_checked-MountEnds fs label t =
      bind-Returns MountEnds (fsck_volume (dm_path dm) fs) (checked_then fs label) os t
        (fsck_volume-Returns (dm_path dm) fs t)
        λ checked u. elim checked as (λ b. MountEnds (checked_then fs label b os u)) [
          | true ↦
              staged fs (workspace_name os.digest (exists_now os u) workspace label source) label u
          | false ↦ inr (inl refl)
        ]

  probe_fs-Returns : (path : Text) (t : Trace) → Returns (probe_fs path os t)
  unfolding probe_fs
  probe_fs-Returns path t = ground arith

  mount_opened-MountEnds : (t : Trace) → MountEnds (mount_opened ids source dm os t)
  unfolding mount_opened
  mount_opened-MountEnds t =
      bind-Returns MountEnds (probe_fs (dm_path dm))
        (λ p. mount_checked ids source dm p.fstype (volume_label p.label source)) os t
        (probe_fs-Returns (dm_path dm) t)
        λ probe u. mount_checked-MountEnds probe.fstype (volume_label probe.label source) u

  choose_backend-Returns : (t : Trace) → Returns (choose_backend backend source os t)
  unfolding choose_backend detect
  choose_backend-Returns t = ground arith

  crypt_open-Returns : (b : Backend) (t : Trace) → Returns (crypt_open source b dm passphrase os t)
  unfolding crypt_open
  crypt_open-Returns b t = tt

  abbrev opened_then : Bool → M Mounted
  opened_then opened = do unless opened (exit exit_crypt_failed); mount_opened ids source dm

  abbrev chosen_then : Backend → M Mounted
  chosen_then b = do opened ← crypt_open source b dm passphrase; opened_then opened

  -- Whatever the system answers, `mount_volume_at_workspace` returns after a mount of the device on
  -- the staging directory and its clone to the mountpoint, which both succeeded, with the calls that
  -- dismount and remove the staging directory as its last two, whatever those answer; or exits with the code of a failed decrypt, or exits with the close of
  -- the device as its last act, or exits because a directory could not be made or a command could
  -- not be started.
  pub mount_volume-MountEnds :
      (t : Trace) → MountEnds (mount_volume_at_workspace ids source backend passphrase dm os t)
  unfolding mount_volume_at_workspace
  mount_volume-MountEnds t =
      bind-Returns MountEnds (choose_backend backend source) chosen_then os t
        (choose_backend-Returns t)
        λ b u.
          bind-Returns MountEnds (crypt_open source b dm passphrase) opened_then os u
            (crypt_open-Returns b u)
            λ opened w. elim opened as (λ o. MountEnds (opened_then o os w)) [
              | true ↦ mount_opened-MountEnds w
              | false ↦ inl refl
            ]

module _ (os : Os) (ids : Ids) (base label dm : Text) (t : Trace) where
  -- Where the mountpoint cannot be made, the process ends there: the staging directory stays
  -- mounted and the device stays open.
  pub clone-leaves_staging :
      os.succeeds t (create_dir_all (in_workspace base)) ≡ false
      → clone_to_workspace ids base label dm os t
        ≡ exited 1 (create_dir_all (in_workspace base) ∷ t)
  unfolding clone_to_workspace
  clone-leaves_staging h = ground arith
