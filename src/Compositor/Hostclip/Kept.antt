-- ===== src/Compositor/Hostclip/Kept.antt =====
-- The events of the host, as to the text that is held.
use veracage.Base.{
  ℕ, ◌+◌, ◌-◌, Text, List, [], ◌∷◌, Bool, true, false, Option, none, some, if◌then◌else◌, leb, ◌≡◌,
  refl, ◌∙◌,
}
use veracage.Compositor.Hostclip.{
  mimes, State, HostEvent, data_offer, selection, primary_selection, offered, send_request,
  cancelled, serve_done, set_offers, set_threads, disown, is_source, offers_after, on_event,
  on_events, Reading, best_mime, read_pipe, read_mime, read_from, read_selection, read_primary,
}

-- The text, the countdown and the requests are as they were.
pub record SameText (s t : State) : Type 0 where
  pub pushed_same : t.pushed ≡ s.pushed
  pub serve_same : t.serve ≡ s.serve
  pub deadline_same : t.deadline ≡ s.deadline
  pub requests_same : t.requests ≡ s.requests
  pub disowned : s.owns_clip ≡ false → t.owns_clip ≡ false
  pub unsourced : s.source ≡ none → t.source ≡ none

pub SameText-refl : (s : State) → SameText s s
SameText-refl s = record {
  pushed_same = refl;
  serve_same = refl;
  deadline_same = refl;
  requests_same = refl;
  disowned = λ h. h;
  unsourced = λ h. h;
}

pub SameText-trans : (s t u : State) → SameText s t → SameText t u → SameText s u
SameText-trans s t u h k = record {
  pushed_same = k.pushed_same ∙ h.pushed_same;
  serve_same = k.serve_same ∙ h.serve_same;
  deadline_same = k.deadline_same ∙ h.deadline_same;
  requests_same = k.requests_same ∙ h.requests_same;
  disowned = λ e. k.disowned (h.disowned e);
  unsourced = λ e. k.unsourced (h.unsourced e);
}

branch-SameText :
    (s t u : State) (b : Bool) → SameText s t → SameText s u → SameText s (if b then t else u)
branch-SameText s t u true h k = h
branch-SameText s t u false h k = k

offers-SameText : (e : HostEvent) (s : State) → SameText s (set_offers (offers_after e s.offers) s)
offers-SameText e s = record {
  pushed_same = refl;
  serve_same = refl;
  deadline_same = refl;
  requests_same = refl;
  disowned = λ h. h;
  unsourced = λ h. h;
}

threads-SameText : (n : ℕ) (s : State) → SameText s (set_threads n s)
threads-SameText n s = record {
  pushed_same = refl;
  serve_same = refl;
  deadline_same = refl;
  requests_same = refl;
  disowned = λ h. h;
  unsourced = λ h. h;
}

disown-SameText : (s : State) → SameText s (disown s.requests s)
disown-SameText s = record {
  pushed_same = refl;
  serve_same = refl;
  deadline_same = refl;
  requests_same = refl;
  disowned = λ h. refl;
  unsourced = λ h. refl;
}

pub on_event-SameText : (e : HostEvent) (s : State) → SameText s (on_event e s)
unfolding on_event
on_event-SameText (send_request spawned) s =
    branch-SameText s s (if spawned then set_threads (s.threads + 1) s else s) (leb 16 s.threads)
      (SameText-refl s)
      (branch-SameText s (set_threads (s.threads + 1) s) s spawned
        (threads-SameText (s.threads + 1) s) (SameText-refl s))
on_event-SameText serve_done s = threads-SameText (s.threads - 1) s
on_event-SameText (cancelled n) s =
    branch-SameText s (disown s.requests s) s (is_source n s.source) (disown-SameText s)
      (SameText-refl s)
on_event-SameText data_offer s = offers-SameText data_offer s
on_event-SameText (selection o) s = offers-SameText (selection o) s
on_event-SameText (primary_selection o) s = offers-SameText (primary_selection o) s
on_event-SameText (offered m) s = offers-SameText (offered m) s

pub on_events-SameText : (es : List HostEvent) (s : State) → SameText s (on_events es s)
unfolding on_events
on_events-SameText [] s = SameText-refl s
on_events-SameText (e ∷ es) s =
    SameText-trans s (on_event e s) (on_events es (on_event e s)) (on_event-SameText e s)
      (on_events-SameText es (on_event e s))

-- A state after the events of one reading, or the state itself.
pub data ReadOut (r : Reading) (s : State) : State → Type 0 where
  as_it_was : ReadOut r s s
  after_events : ReadOut r s (on_events r.events s)

read_pipe-ReadOut : (b : Bool) (r : Reading) (s : State) → ReadOut r s (read_pipe b r s).1
read_pipe-ReadOut false r s = as_it_was
read_pipe-ReadOut true r s = after_events

read_mime-ReadOut : (o : Option Text) (r : Reading) (s : State) → ReadOut r s (read_mime o r s).1
read_mime-ReadOut none r s = as_it_was
read_mime-ReadOut (some m) r s = read_pipe-ReadOut r.has_pipe r s

read_from-ReadOut :
    (o : Option ℕ) (ms : List Text) (r : Reading) (s : State) → ReadOut r s (read_from o ms r s).1
read_from-ReadOut none ms r s = as_it_was
read_from-ReadOut (some n) ms r s = read_mime-ReadOut (best_mime mimes ms) r s

pub read_selection-ReadOut :
    (primary : Bool) (r : Reading) (s : State) → ReadOut r s (read_selection primary r s).1
unfolding read_selection
read_selection-ReadOut true r s =
    read_from-ReadOut s.offers.primary_offer s.offers.primary_offer_mimes r s
read_selection-ReadOut false r s = read_from-ReadOut s.offers.offer s.offers.offer_mimes r s

primary-ReadOut :
    (b : Bool) (r : Reading) (s : State)
    → ReadOut r s (if b then read_selection true r s else (none, s)).1
primary-ReadOut true r s = read_selection-ReadOut true r s
primary-ReadOut false r s = as_it_was

pub read_primary-ReadOut : (r : Reading) (s : State) → ReadOut r s (read_primary r s).1
unfolding read_primary
read_primary-ReadOut r s = primary-ReadOut s.has_primary r s

-- What the events keep, a reading keeps.
pub ReadOut-keeps :
    (P : State → Type 0) (r : Reading) (s t : State)
    → P s
    → P (on_events r.events s)
    → ReadOut r s t
    → P t
ReadOut-keeps P r s t h k as_it_was = h
ReadOut-keeps P r s t h k after_events = k

pub ReadOut-SameText : (r : Reading) (s t : State) → ReadOut r s t → SameText s t
ReadOut-SameText r s t h =
    ReadOut-keeps (SameText s) r s t (SameText-refl s) (on_events-SameText r.events s) h
