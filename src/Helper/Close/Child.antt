-- ===== src/Helper/Close/Child.antt =====
-- How the process that closes a volume ends.
use veracage.Base.{
  ◌&&◌, ◌==◌, ℕ, zero, suc, Text, codes, [], ◌∷◌, Bool, true, false, not, Option, none, some,
  text_eq, if◌then◌else◌, text_eq_refl, arith, ◌∙◌, ◌≡◌, ◌≢◌, refl,
}
use veracage.Helper.Sys.{
  Call, exists, rename, run, run_fed, umount2, Os, M, Outcome, done, exited, Trace, Ends, call,
  sleep, made, did, tool, exit, unless, remove_dir, setns, ◌>>=◌, ◌>>◌,
}
use veracage.Helper.Sys.Rules.{bind-Ends}
use veracage.Helper.Volume.{dm_path, in_workspace}
use veracage.Helper.Holders.{foreign_holders}
use veracage.Helper.Close.{
  dm_at_mountpoint, close_rounds, close_dm_retrying, lock_remove, refuse, wait_for_go,
  settle_holders, dismount, close_child, exit_volume_busy,
}

abbrev pub is_umount : Text → Call → Bool
is_umount mp (umount2 p flags) = text_eq p mp && flags == 0
is_umount mp _ = false

abbrev pub is_rename : Call → Bool
is_rename (rename p q) = true
is_rename _ = false

-- A run of a command: `cryptsetup` is the only one that the close runs.
abbrev pub is_run : Call → Bool
is_run (run p args) = true
is_run (run_fed p args input) = true
is_run _ = false

-- The newest answer about whether `path` exists was that it does not.
unfoldable pub is_gone : Os → Text → Trace → Bool
is_gone os path [] = false
is_gone os path (exists p ∷ t) =
    if text_eq p path then not (os.succeeds t (exists p)) else is_gone os path t
is_gone os path (c ∷ t) = is_gone os path t

module _ (os : Os) (mp dm : Text) where
  -- What the retries leave alone.
  abbrev Retried : Trace → Bool → Trace → Type 0
  Retried t closed u =
      (made is_rename u ≡ made is_rename t)
      × (did os (is_umount mp) u ≡ did os (is_umount mp) t)
      × (closed ≡ true → is_gone os (dm_path dm) u ≡ true)

  Retried-again :
      (t w : Trace) (o : Outcome Bool)
      → made is_rename w ≡ made is_rename t
      → did os (is_umount mp) w ≡ did os (is_umount mp) t
      → Ends (Retried w) (λ c u. ⊥) o
      → Ends (Retried t) (λ c u. ⊥) o
  Retried-again t w (done b u) e f h = (h.0 ∙ e, h.1 ∙ f, h.2)
  Retried-again t w (exited c u) e f h = h

  -- The trace of a round that did not get rid of the device.
  abbrev failed_round : Trace → Trace
  failed_round t =
      sleep
      ∷ exists (dm_path dm)
      ∷ run (tool os (codes "cryptsetup")) (codes "close" ∷ dm ∷ [])
      ∷ exists (dm_path dm)
      ∷ t

  close_rounds-Retried : (n : ℕ) (t : Trace) → Ends (Retried t) (λ c u. ⊥) (close_rounds n dm os t)
  unfolding close_rounds made did is_gone
  close_rounds-Retried zero t = ground (arith, text_eq_refl (dm_path dm))
  close_rounds-Retried (suc n) t = ground (
    arith,
    text_eq_refl (dm_path dm),
    Retried-again t (failed_round t) (close_rounds n dm os (failed_round t)) refl refl
        (close_rounds-Retried n (failed_round t)),
  )

-- Nothing has been dismounted, run or rewritten yet.
pub record IsUntouched (os : Os) (mp : Text) (t : Trace) : Type 0 where
  pub mounted : did os (is_umount mp) t ≡ false
  pub no_run : made is_run t ≡ false
  pub no_rename : made is_rename t ≡ false

-- How a close may end, of the device that `dm_at_mountpoint` gave (none before it has). With code 0
-- the volume was dismounted, and its device is gone. With another code the lock still has its line,
-- and if the volume was dismounted nevertheless, the code is 6. No command is run unless the dismount
-- succeeded.
pub record IsClosedOrKept (os : Os) (mp : Text) (dm : Option Text) (code : ℕ) (u : Trace)
    : Type 0 where
  pub closed :
      code ≡ 0
      → (d : Text) × (dm ≡ some d)
        × (did os (is_umount mp) u ≡ true)
        × (is_gone os (dm_path d) u ≡ true)
  pub kept : code ≢ 0 → made is_rename u ≡ false
  pub half_closed : code ≢ 0 → did os (is_umount mp) u ≡ true → code ≡ exit_volume_busy
  pub dismounted_first : did os (is_umount mp) u ≡ false → made is_run u ≡ false

module _ (os : Os) (sid mp dm : Text) where
  abbrev Closing : Outcome (Unit {0}) → Type 0
  Closing = Ends (λ a u. ⊥) (IsClosedOrKept os mp (some dm))

  abbrev closed_then : Bool → M (Unit {0})
  closed_then closed = do
    unless closed (refuse (codes "its device is still in use, so it is still decrypted"))
    lock_remove sid dm
    call (remove_dir mp)
    exit 0

  abbrev unmounted_then : Bool → M (Unit {0})
  unmounted_then unmounted = do
    unless unmounted (refuse (codes "the volume is still in use"))
    closed ← close_dm_retrying dm
    closed_then closed

  closed_then-Closing :
      (closed : Bool) (u : Trace)
      → made is_rename u ≡ false
      → did os (is_umount mp) u ≡ true
      → (closed ≡ true → is_gone os (dm_path dm) u ≡ true)
      → Closing (closed_then closed os u)
  unfolding lock_remove made did is_gone
  closed_then-Closing true u r d g = ground (arith, g refl)
  closed_then-Closing false u r d g = ground arith

  unmounted_then-Closing :
      (t : Trace) (b : Bool)
      → IsUntouched os mp t
      → os.succeeds t (umount2 mp 0) ≡ b
      → Closing (unmounted_then b os (umount2 mp 0 ∷ t))
  unfolding close_dm_retrying made did
  unmounted_then-Closing t false n e = ground (arith, text_eq_refl mp)
  unmounted_then-Closing t true n e =
      let w = umount2 mp 0 ∷ t in
      bind-Ends (Retried os mp dm w) (λ c u. ⊥) Closing (close_dm_retrying dm) closed_then os w
        (close_rounds-Retried os mp dm (os.retries w) w)
        (λ closed u r.
          closed_then-Closing closed u (r.0 ∙ n.no_rename) (r.1 ∙ ground (arith, text_eq_refl mp))
            r.2)
        (λ c u e. absurd e)

  dismount-Closing : (t : Trace) → IsUntouched os mp t → Closing (dismount sid mp dm os t)
  unfolding dismount
  dismount-Closing t n = unmounted_then-Closing t (os.succeeds t (umount2 mp 0)) n refl

  settle_holders-IsUntouched :
      (t : Trace)
      → IsUntouched os mp t
      → Ends (λ a u. IsUntouched os mp u) (IsClosedOrKept os mp (some dm)) (settle_holders dm os t)
  unfolding settle_holders foreign_holders wait_for_go made did
  settle_holders-IsUntouched t n = ground arith

  dm_at_mountpoint-IsUntouched :
      (t : Trace)
      → IsUntouched os mp t
      → Ends (λ a u. IsUntouched os mp u) (λ c u. ⊥) (dm_at_mountpoint mp os t)
  unfolding dm_at_mountpoint made did
  dm_at_mountpoint-IsUntouched t n = ground arith

  settled_then-Closing :
      (t : Trace)
      → IsUntouched os mp t
      → Closing ((settle_holders dm >>= λ _. dismount sid mp dm) os t)
  settled_then-Closing t n =
      bind-Ends (λ a u. IsUntouched os mp u) (IsClosedOrKept os mp (some dm)) Closing
        (settle_holders dm) (λ _. dismount sid mp dm) os t (settle_holders-IsUntouched t n)
        (λ a u k. dismount-Closing u k) (λ c u k. k)

-- The device that the look for one found, if it returned.
abbrev pub device_of : Outcome (Option Text) → Option Text
device_of (done found u) = found
device_of (exited c u) = none

module _ (os : Os) (sid label : Text) (leader_pid : ℕ) where
  abbrev found_then : Option Text → M (Unit {0})
  found_then none = exit 1
  found_then (some dm) = do settle_holders dm; dismount sid (in_workspace label) dm

  found_then-Closing :
      (found : Option Text) (t : Trace)
      → IsUntouched os (in_workspace label) t
      → Ends (λ a u. ⊥) (IsClosedOrKept os (in_workspace label) found) (found_then found os t)
  found_then-Closing none t n = ground arith
  found_then-Closing (some dm) t n = settled_then-Closing os sid (in_workspace label) dm t n

  abbrev joined_then : M (Unit {0})
  joined_then = do found ← dm_at_mountpoint (in_workspace label); found_then found

  looked_then-Closing :
      (o : Outcome (Option Text))
      → Ends (λ a u. IsUntouched os (in_workspace label) u) (λ c u. ⊥) o
      → Ends
          (λ a u. ⊥)
          (IsClosedOrKept os (in_workspace label) (device_of o))
          (elim o [ done found u ↦ found_then found os u | exited c u ↦ exited c u ])
  looked_then-Closing (done found u) h = found_then-Closing found u h
  looked_then-Closing (exited c u) h = absurd h

  joined_then-Closing :
      (t : Trace)
      → IsUntouched os (in_workspace label) t
      → Ends
          (λ a u. ⊥)
          (IsClosedOrKept os
            (in_workspace label)
            (device_of (dm_at_mountpoint (in_workspace label) os t)))
          (joined_then os t)
  joined_then-Closing t n =
      looked_then-Closing (dm_at_mountpoint (in_workspace label) os t)
        (dm_at_mountpoint-IsUntouched os sid (in_workspace label) [] t n)

  abbrev entered : Bool → Trace → Outcome (Unit {0})
  entered b t = if b then done tt t else exited 1 t

  joined_or_exit :
      (b : Bool) (t : Trace)
      → IsUntouched os (in_workspace label) (setns leader_pid ∷ t)
      → Ends
          (λ a u. ⊥)
          (IsClosedOrKept os
            (in_workspace label)
            (device_of (dm_at_mountpoint (in_workspace label) os (setns leader_pid ∷ t))))
          (elim (entered b (setns leader_pid ∷ t)) [
            | done a u ↦ joined_then os u
            | exited c u ↦ exited c u
          ])
  joined_or_exit true t n = joined_then-Closing (setns leader_pid ∷ t) n
  joined_or_exit false t n = record {
    closed = λ e. absurd (omega arith);
    kept = λ e. n.no_rename;
    half_closed = λ e d. ground (arith, n.mounted);
    dismounted_first = λ d. n.no_run;
  }

  join-IsUntouched :
      (t : Trace)
      → IsUntouched os (in_workspace label) t
      → IsUntouched os (in_workspace label) (setns leader_pid ∷ t)
  unfolding made did
  join-IsUntouched t n = record { mounted = n.mounted; no_run = n.no_run; no_rename = n.no_rename }

  -- Started where nothing was dismounted, run or renamed, the process that closes a volume always
  -- exits, whatever the system answers. With code 0 the volume was dismounted, and the device that
  -- `dm_at_mountpoint` found for it was gone when last looked at. With another code the lock was not
  -- replaced, and if the volume was dismounted, which leaves it open without a mount, the code is 6.
  -- Where it was not dismounted no command was run.
  pub close_child-IsClosedOrKept :
      (t : Trace)
      → IsUntouched os (in_workspace label) t
      → Ends
          (λ a u. ⊥)
          (IsClosedOrKept os
            (in_workspace label)
            (device_of (dm_at_mountpoint (in_workspace label) os (setns leader_pid ∷ t))))
          (close_child sid label leader_pid os t)
  unfolding close_child
  close_child-IsClosedOrKept t n =
      joined_or_exit (os.succeeds t (setns leader_pid)) t (join-IsUntouched t n)
