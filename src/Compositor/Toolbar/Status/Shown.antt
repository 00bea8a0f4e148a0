-- ===== src/Compositor/Toolbar/Status/Shown.antt =====
-- When the spinner shows a text (compositor-rs/src/toolbar.rs, `pick_status`).
use veracage.Base.{
  ℕ, ◌+◌, ◌≤◌, ◌<◌, Text, Bool, true, false, ◌||◌, Option, none, some, if◌then◌else◌, leb, ltb, ◌≡◌,
  refl, arith, ◌⊎◌, inl, inr,
}
use veracage.Compositor.Toolbar.Status.{
  LaunchNote, Seen, status_ttl_launch, status_ttl_broker, Note, is_fresh, fresh, was_done,
  shown_unless, pick_launch, pick_fresh, pick_status,
}

-- A note with this text, of this session, younger than its limit, that nothing landed after.
abbrev pub IsPending : ℕ → ℕ → ℕ → ℕ → Option Note → Text → Type 0
IsPending ttl now start landed none text = ⊥
IsPending ttl now start landed (some (stamp, t)) text =
    (t ≡ text) × (start ≤ stamp) × (now < stamp + ttl) × (landed ≤ stamp)

is_fresh-bounds :
    (ttl now start stamp : ℕ)
    → 0 < ttl
    → is_fresh ttl now start stamp ≡ true
    → (start ≤ stamp) × (now < stamp + ttl)
unfolding is_fresh
is_fresh-bounds ttl now start stamp p h = ground arith

pending :
    (ttl now start landed stamp : ℕ) (t text : Text)
    → 0 < ttl
    → is_fresh ttl now start stamp ≡ true
    → landed ≤ stamp
    → t ≡ text
    → IsPending ttl now start landed (some (stamp, t)) text
pending ttl now start landed stamp t text p f l e =
    let b = is_fresh-bounds ttl now start stamp p f in (e, b.0, b.1, l)

shown_unless-some :
    (done : Bool) (t text : Text) → shown_unless done t ≡ some text → (done ≡ false) × (t ≡ text)
shown_unless-some true t text h = cc
shown_unless-some false t text h = (refl, cc)

not_landed : (d : Bool) (stamp landed : ℕ) → (d || ltb stamp landed) ≡ false → landed ≤ stamp
not_landed d stamp landed h = ground arith

launch_branch :
    (b : Bool) (ttl now start stamp : ℕ) (t text : Text) (seen : Seen) (tracked : Option LaunchNote)
    → 0 < ttl
    → is_fresh ttl now start stamp ≡ b
    → (pick_launch (if b then some (stamp, t) else none) seen tracked).0 ≡ some text
    → IsPending ttl now start seen.window_ns (some (stamp, t)) text
unfolding pick_launch
launch_branch false ttl now start stamp t text seen tracked p e h = cc
launch_branch true ttl now start stamp t text seen tracked p e h =
    let s = shown_unless-some (was_done stamp tracked || ltb stamp seen.window_ns) t text h in
    pending ttl now start seen.window_ns stamp t text p e
      (not_landed (was_done stamp tracked) stamp seen.window_ns s.0) s.1

launch-IsPending :
    (o : Option Note) (now start : ℕ) (text : Text) (seen : Seen) (tracked : Option LaunchNote)
    → (pick_launch (fresh status_ttl_launch now start o) seen tracked).0 ≡ some text
    → IsPending status_ttl_launch now start seen.window_ns o text
unfolding pick_launch
launch-IsPending none now start text seen tracked h = cc
launch-IsPending (some (stamp, t)) now start text seen tracked h =
    launch_branch (is_fresh status_ttl_launch now start stamp) status_ttl_launch now start stamp t
      text seen tracked (omega arith) refl h

shown_branch :
    (v : Bool) (a b : Option Text × Option LaunchNote) (text : Text)
    → (if v then a else b).0 ≡ some text
    → (v ≡ true) × (a.0 ≡ some text) ⊎ (b.0 ≡ some text)
shown_branch true a b text h = inl (refl, h)
shown_branch false a b text h = inr h

fresh_branch :
    (b : Bool) (now start stamp : ℕ) (t text : Text) (launch : Option Note) (seen : Seen)
    (tracked : Option LaunchNote)
    → is_fresh status_ttl_broker now start stamp ≡ b
    → (pick_fresh
        (if b then some (stamp, t) else none)
        (fresh status_ttl_launch now start launch)
        seen
        tracked).0
      ≡ some text
    → IsPending status_ttl_broker now start seen.volume_ns (some (stamp, t)) text
      ⊎ IsPending status_ttl_launch now start seen.window_ns launch text
unfolding pick_fresh
fresh_branch false now start stamp t text launch seen tracked e h =
    inr (launch-IsPending launch now start text seen tracked h)
fresh_branch true now start stamp t text launch seen tracked e h =
    elim (shown_branch (leb seen.volume_ns stamp) (some t, tracked)
      (pick_launch (fresh status_ttl_launch now start launch) seen tracked) text h) [
        | inl (l, s) ↦ inl (
            pending status_ttl_broker now start seen.volume_ns stamp t text (omega arith) e
              (ground arith) cc)
        | inr s ↦ inr (launch-IsPending launch now start text seen tracked s)
      ]

-- A text that the spinner shows is that of a file's note, written in this session and before its
-- limit ran out: 90 s and no volume mounted after it for the broker's note, 10 s and no window
-- opened after it for the leader's.
pub pick_status-IsPending :
    (broker leader : Option Note) (seen : Seen) (tracked : Option LaunchNote) (now start : ℕ)
    (text : Text)
    → (pick_status broker leader seen tracked now start).0 ≡ some text
    → IsPending status_ttl_broker now start seen.volume_ns broker text
      ⊎ IsPending status_ttl_launch now start seen.window_ns leader text
unfolding pick_status pick_fresh
pick_status-IsPending none leader seen tracked now start text h =
    inr (launch-IsPending leader now start text seen tracked h)
pick_status-IsPending (some (stamp, t)) leader seen tracked now start text h =
    fresh_branch (is_fresh status_ttl_broker now start stamp) now start stamp t text leader seen
      tracked refl h
