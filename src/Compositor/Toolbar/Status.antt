-- ===== src/Compositor/Toolbar/Status.antt =====
-- The progress note that the toolbar's spinner shows (compositor-rs/src/toolbar.rs): `pick_status`
-- and `scan_status`. Times are in nanoseconds.
pub mod Shown
use veracage.Base.{
  ℕ, ◌+◌, ◌-◌, ◌*◌, ◌^◌, Text, codes, List, [], ◌∷◌, ◌++◌, Bool, true, false, not, ◌&&◌, ◌||◌,
  Option, none, some, if◌then◌else◌, leb, ltb, ◌==◌, is_empty, is_control, keep, take, lines,
  split_once, ◌≡◌, refl, arith, Bool-cases, inl, inr, Option-cases,
}
use veracage.Compositor.Toolbar.Scan.{Found, read_within}

-- `LaunchNote`
pub record LaunchNote : Type 0 where
  pub stamp : ℕ
  pub done : Bool

-- `Seen`
pub record Seen : Type 0 where
  pub window_ns : ℕ
  pub volume_ns : ℕ

-- `STATUS_TTL_LAUNCH` and `STATUS_TTL_BROKER`
abbrev pub status_ttl_launch : ℕ
status_ttl_launch = 10000000000

abbrev pub status_ttl_broker : ℕ
status_ttl_broker = 90000000000

-- A note with the time of its file.
abbrev pub Note : Type 0
Note = ℕ × Text

unfoldable pub is_fresh : ℕ → ℕ → ℕ → ℕ → Bool
is_fresh ttl now start stamp = leb start stamp && ltb (now - stamp) ttl

abbrev pub fresh : ℕ → ℕ → ℕ → Option Note → Option Note
fresh ttl now start none = none
fresh ttl now start (some (stamp, text)) =
    if is_fresh ttl now start stamp then some (stamp, text) else none

abbrev pub was_done : ℕ → Option LaunchNote → Bool
was_done stamp none = false
was_done stamp (some n) = n.stamp == stamp && n.done

abbrev pub shown_unless : Bool → Text → Option Text
shown_unless true text = none
shown_unless false text = some text

-- The leader's note: it is done once a window came after it, and stays so.
unfoldable pub pick_launch :
    Option Note → Seen → Option LaunchNote → Option Text × Option LaunchNote
pick_launch none seen tracked = (none, none)
pick_launch (some (stamp, text)) seen tracked =
    let done = was_done stamp tracked || ltb stamp seen.window_ns in
    (shown_unless done text, some (record { stamp = stamp; done = done }))

unfoldable pub pick_fresh :
    Option Note → Option Note → Seen → Option LaunchNote → Option Text × Option LaunchNote
unfolding pick_launch
pick_fresh none launch seen tracked = pick_launch launch seen tracked
pick_fresh (some (stamp, text)) launch seen tracked =
    if leb seen.volume_ns stamp then (some text, tracked) else pick_launch launch seen tracked

-- `pick_status`
unfoldable pub pick_status :
    Option Note → Option Note → Seen → Option LaunchNote → ℕ → ℕ → Option Text × Option LaunchNote
unfolding is_fresh pick_fresh
pick_status from_broker from_leader seen tracked now start =
    pick_fresh (fresh status_ttl_broker now start from_broker)
      (fresh status_ttl_launch now start from_leader) seen tracked

abbrev after_tab : Text → Option (Text × Text) → Text
after_tab line none = line
after_tab line (some (nonce, rest)) = rest

abbrev stamped : ℕ → Text → Option Note
stamped stamp text = if is_empty text then none else some (stamp, text)

abbrev first_line : ℕ → List Text → Option Note
first_line stamp [] = none
first_line stamp (l ∷ ls) =
    stamped stamp (take 80 (keep (λ c. not (is_control c)) (after_tab l (split_once 9 l))))

-- `read_status_line`, of a file and its time.
unfoldable pub read_status_line : Option (Found × ℕ) → Option Note
unfolding read_within is_control
read_status_line none = none
read_status_line (some (f, stamp)) = elim (read_within 4096 (some f)) [
  | none ↦ none
  | some body ↦ first_line stamp (lines body)
]

abbrev pub is_old : ℕ → Option Note → Bool
is_old start none = false
is_old start (some (stamp, text)) = ltb stamp start

-- `scan_status`, of the broker's file and the leader's: a leader's note of an earlier session is
-- removed.
unfoldable pub scan_status :
    Option (Found × ℕ)
    → Option (Found × ℕ)
    → Seen
    → Option LaunchNote
    → ℕ
    → ℕ
    → Option Text × Option LaunchNote
unfolding read_status_line pick_status
scan_status broker_file leader_file seen tracked now start =
    if is_old start (read_status_line leader_file)
    then pick_status none none seen tracked now start
    else pick_status (read_status_line broker_file) (read_status_line leader_file) seen tracked now
        start
