-- ===== src/Compositor/Hostclip.antt =====
-- The worker of the host clipboard (compositor-rs/src/hostclip.rs): its state, the commands, the
-- events of the host, and the clear of what was copied out. The connection, its requests' delivery
-- and the threads are the system's; what a read of the host's selection meets is in a `Reading`.
-- Times are in seconds, sources and offers are numbers.
pub mod Kept
pub mod Invariant
pub mod Cleared
pub mod Foreign
use veracage.Base.{
  ℕ, suc, ◌+◌, ◌-◌, Text, codes, List, [], ◌∷◌, ◌++◌, Bool, true, false, not, ◌&&◌, ◌||◌, Option,
  none, some, if◌then◌else◌, leb, ltb, ◌==◌, length, text_eq, contains_text,
}
use veracage.Compositor.Clipio.{ReadRound, read_bounded}

-- `MIMES`
abbrev pub mimes : List Text
mimes =
    codes "text/plain;charset=utf-8"
    ∷ codes "text/plain;charset=UTF-8"
    ∷ codes "UTF8_STRING"
    ∷ codes "text/plain"
    ∷ codes "STRING"
    ∷ codes "TEXT"
    ∷ []

-- `MAX_SERVE_THREADS` and `MAX_OFFER_MIMES`
abbrev pub max_serve_threads : ℕ
max_serve_threads = 16

abbrev pub max_offer_mimes : ℕ
max_offer_mimes = 64

-- What the worker asks of the host.
pub data Request : Type 0 where
  set_selection : ℕ → Request
  unset_selection unset_primary : Request

-- The offers of the host and the types of each.
pub record Offers : Type 0 where
  pub offer : Option ℕ
  pub offer_mimes : List Text
  pub primary_offer : Option ℕ
  pub primary_offer_mimes : List Text
  pub building : List Text

-- `State`, with the number of the next source, the running serve threads, and the requests made, the
-- newest first.
pub record State : Type 0 where
  pub offers : Offers
  pub source : Option ℕ
  pub next_source : ℕ
  pub serve : List ℕ
  pub has_primary : Bool
  pub clear_enabled : Bool
  pub clear_secs : ℕ
  pub pushed : Option (List ℕ)
  pub owns_clip : Bool
  pub deadline : Option ℕ
  pub threads : ℕ
  pub requests : List Request

abbrev no_offers : Offers
no_offers = record {
  offer = none;
  offer_mimes = [];
  primary_offer = none;
  primary_offer_mimes = [];
  building = [];
}

-- The state that `worker` starts with: the default policy clears after 30 seconds.
abbrev pub new_state : Bool → State
new_state has_primary = record {
  offers = no_offers;
  source = none;
  next_source = 0;
  serve = [];
  has_primary = has_primary;
  clear_enabled = true;
  clear_secs = 30;
  pushed = none;
  owns_clip = false;
  deadline = none;
  threads = 0;
  requests = [];
}

-- The events of the host: those of the device, of an offer and of a source, and the end of a serve
-- thread.
pub data HostEvent : Type 0 where
  data_offer : HostEvent
  selection primary_selection : Option ℕ → HostEvent
  offered : Text → HostEvent
  send_request : Bool → HostEvent
  cancelled : ℕ → HostEvent
  serve_done : HostEvent

-- The offers after an event of the device or of an offer.
unfoldable pub offers_after : HostEvent → Offers → Offers
offers_after data_offer o = record {
  offer = o.offer;
  offer_mimes = o.offer_mimes;
  primary_offer = o.primary_offer;
  primary_offer_mimes = o.primary_offer_mimes;
  building = [];
}
offers_after (selection (some n)) o = record {
  offer = some n;
  offer_mimes = o.building;
  primary_offer = o.primary_offer;
  primary_offer_mimes = o.primary_offer_mimes;
  building = [];
}
offers_after (selection none) o = record {
  offer = none;
  offer_mimes = [];
  primary_offer = o.primary_offer;
  primary_offer_mimes = o.primary_offer_mimes;
  building = o.building;
}
offers_after (primary_selection (some n)) o = record {
  offer = o.offer;
  offer_mimes = o.offer_mimes;
  primary_offer = some n;
  primary_offer_mimes = o.building;
  building = [];
}
offers_after (primary_selection none) o = record {
  offer = o.offer;
  offer_mimes = o.offer_mimes;
  primary_offer = none;
  primary_offer_mimes = [];
  building = o.building;
}
offers_after (offered mime) o = record {
  offer = o.offer;
  offer_mimes = o.offer_mimes;
  primary_offer = o.primary_offer;
  primary_offer_mimes = o.primary_offer_mimes;
  building =
      if ltb (length o.building) max_offer_mimes then o.building ++ mime ∷ [] else o.building;
}
offers_after _ o = o

abbrev pub set_offers : Offers → State → State
set_offers o s = record {
  offers = o;
  source = s.source;
  next_source = s.next_source;
  serve = s.serve;
  has_primary = s.has_primary;
  clear_enabled = s.clear_enabled;
  clear_secs = s.clear_secs;
  pushed = s.pushed;
  owns_clip = s.owns_clip;
  deadline = s.deadline;
  threads = s.threads;
  requests = s.requests;
}

abbrev pub set_threads : ℕ → State → State
set_threads n s = record {
  offers = s.offers;
  source = s.source;
  next_source = s.next_source;
  serve = s.serve;
  has_primary = s.has_primary;
  clear_enabled = s.clear_enabled;
  clear_secs = s.clear_secs;
  pushed = s.pushed;
  owns_clip = s.owns_clip;
  deadline = s.deadline;
  threads = n;
  requests = s.requests;
}

-- The source is gone, and with it the ownership of the clipboard; `rs` are the requests after that.
abbrev pub disown : List Request → State → State
disown rs s = record {
  offers = s.offers;
  source = none;
  next_source = s.next_source;
  serve = s.serve;
  has_primary = s.has_primary;
  clear_enabled = s.clear_enabled;
  clear_secs = s.clear_secs;
  pushed = s.pushed;
  owns_clip = false;
  deadline = s.deadline;
  threads = s.threads;
  requests = rs;
}

abbrev pub set_deadline : Option ℕ → State → State
set_deadline d s = record {
  offers = s.offers;
  source = s.source;
  next_source = s.next_source;
  serve = s.serve;
  has_primary = s.has_primary;
  clear_enabled = s.clear_enabled;
  clear_secs = s.clear_secs;
  pushed = s.pushed;
  owns_clip = s.owns_clip;
  deadline = d;
  threads = s.threads;
  requests = s.requests;
}

abbrev pub is_source : ℕ → Option ℕ → Bool
is_source n none = false
is_source n (some m) = m == n

-- One event of the host. A paste is served by one more thread, below their cap; the end of a source
-- counts only where it is the current one.
unfoldable pub on_event : HostEvent → State → State
unfolding offers_after
on_event (send_request spawned) s =
    if leb max_serve_threads s.threads
    then s
    else if spawned
    then set_threads (s.threads + 1) s
    else s
on_event serve_done s = set_threads (s.threads - 1) s
on_event (cancelled n) s = if is_source n s.source then disown s.requests s else s
on_event e s = set_offers (offers_after e s.offers) s

unfoldable pub on_events : List HostEvent → State → State
unfolding on_event
on_events [] s = s
on_events (e ∷ es) s = on_events es (on_event e s)

-- What a read meets: whether a pipe is made, the events that the roundtrip dispatches, the rounds of
-- the read, and whether its bytes are UTF-8.
pub record Reading : Type 0 where
  pub has_pipe : Bool
  pub events : List HostEvent
  pub rounds : List ReadRound
  pub is_utf8 : List ℕ → Bool

-- The first of `MIMES` that is offered.
abbrev pub best_mime : List Text → List Text → Option Text
best_mime [] offered_mimes = none
best_mime (m ∷ ms) offered_mimes =
    if contains_text offered_mimes m then some m else best_mime ms offered_mimes

abbrev pub read_pipe : Bool → Reading → State → Option (List ℕ) × State
read_pipe false r s = (none, s)
read_pipe true r s = (
  if r.is_utf8 (read_bounded r.rounds) then some (read_bounded r.rounds) else none,
  on_events r.events s,
)

abbrev pub read_mime : Option Text → Reading → State → Option (List ℕ) × State
read_mime none r s = (none, s)
read_mime (some mime) r s = read_pipe r.has_pipe r s

abbrev pub read_from : Option ℕ → List Text → Reading → State → Option (List ℕ) × State
read_from none ms r s = (none, s)
read_from (some n) ms r s = read_mime (best_mime mimes ms) r s

-- `read_selection`
unfoldable pub read_selection : Bool → Reading → State → Option (List ℕ) × State
unfolding read_bounded on_events contains_text
read_selection true r s = read_from s.offers.primary_offer s.offers.primary_offer_mimes r s
read_selection false r s = read_from s.offers.offer s.offers.offer_mimes r s

abbrev pub is_text : List ℕ → Option (List ℕ) → Bool
is_text pushed none = false
is_text pushed (some t) = text_eq t pushed

-- `plan_clear`
unfoldable pub plan_clear : Bool → Bool → List ℕ → Option (List ℕ) → Bool × Bool
unfolding text_eq
plan_clear owns_clip has_primary pushed current_primary =
    (owns_clip, has_primary && is_text pushed current_primary)

-- The text is forgotten, by the worker and for the host's pasters.
abbrev pub forget : State → State
forget s = record {
  offers = s.offers;
  source = s.source;
  next_source = s.next_source;
  serve = [];
  has_primary = s.has_primary;
  clear_enabled = s.clear_enabled;
  clear_secs = s.clear_secs;
  pushed = none;
  owns_clip = s.owns_clip;
  deadline = s.deadline;
  threads = s.threads;
  requests = s.requests;
}

abbrev pub request : Request → State → State
request q s = record {
  offers = s.offers;
  source = s.source;
  next_source = s.next_source;
  serve = s.serve;
  has_primary = s.has_primary;
  clear_enabled = s.clear_enabled;
  clear_secs = s.clear_secs;
  pushed = s.pushed;
  owns_clip = s.owns_clip;
  deadline = s.deadline;
  threads = s.threads;
  requests = q ∷ s.requests;
}

-- The two selections, as planned.
unfoldable pub clear_clip : Bool → State → State
clear_clip b s = if b then disown (unset_selection ∷ s.requests) s else s

unfoldable pub clear_primary : Bool → State → State
clear_primary b s = if b then request unset_primary s else s

-- `read_selection` of the primary selection, where the device has one.
unfoldable pub read_primary : Reading → State → Option (List ℕ) × State
unfolding read_selection
read_primary r s = if s.has_primary then read_selection true r s else (none, s)

-- The clear of `pushed` once it is forgotten, and the events of the last roundtrip.
unfoldable pub clear_selections : Reading → List HostEvent → List ℕ → State → State
unfolding plan_clear clear_clip clear_primary read_primary on_events
clear_selections r es pushed s =
    let read_out = read_primary r s in
    let plan = plan_clear read_out.1.owns_clip read_out.1.has_primary pushed read_out.0 in
    on_events es (clear_primary plan.1 (clear_clip plan.0 read_out.1))

-- `clear_pushed`
unfoldable pub clear_pushed : Reading → List HostEvent → State → State
unfolding clear_selections
clear_pushed r es s = elim s.pushed [
  | none ↦ set_deadline none s
  | some pushed ↦ clear_selections r es pushed (forget (set_deadline none s))
]

-- The commands, with the clock where one is read.
pub data Cmd : Type 0 where
  store : List ℕ → ℕ → Cmd
  load : Reading → Cmd
  policy : Bool → ℕ → ℕ → Cmd
  clear_on_exit : Reading → List HostEvent → Cmd

abbrev pub is_some {ℓ} : {A : Type ℓ} → Option A → Bool
is_some none = false
is_some (some a) = true

-- `Cmd::Policy`
unfoldable pub set_policy : Bool → ℕ → ℕ → State → State
set_policy enabled secs now s = record {
  offers = s.offers;
  source = s.source;
  next_source = s.next_source;
  serve = s.serve;
  has_primary = s.has_primary;
  clear_enabled = enabled;
  clear_secs = secs;
  pushed = s.pushed;
  owns_clip = s.owns_clip;
  deadline =
      if not enabled
      then none
      else if not (is_some s.deadline) && s.owns_clip && is_some s.pushed
      then some (now + secs)
      else s.deadline;
  threads = s.threads;
  requests = s.requests;
}

-- `handle_cmd`
unfoldable pub handle_cmd : Cmd → State → State
unfolding read_selection clear_pushed set_policy
handle_cmd (store bytes now) s = record {
  offers = s.offers;
  source = some s.next_source;
  next_source = suc s.next_source;
  serve = bytes;
  has_primary = s.has_primary;
  clear_enabled = s.clear_enabled;
  clear_secs = s.clear_secs;
  pushed = some bytes;
  owns_clip = true;
  deadline = if s.clear_enabled then some (now + s.clear_secs) else none;
  threads = s.threads;
  requests = set_selection s.next_source ∷ s.requests;
}
handle_cmd (load r) s = (read_selection false r s).1
handle_cmd (policy enabled secs now) s = set_policy enabled secs now s
handle_cmd (clear_on_exit r es) s = clear_pushed r es s

-- What happens to the worker: an event, a command, or the look at the deadline in its loop.
pub data Step : Type 0 where
  event : HostEvent → Step
  command : Cmd → Step
  tick : ℕ → Reading → List HostEvent → Step

abbrev pub is_due : ℕ → Option ℕ → Bool
is_due now none = false
is_due now (some d) = leb d now

unfoldable pub step : Step → State → State
unfolding on_event handle_cmd clear_pushed
step (event e) s = on_event e s
step (command c) s = handle_cmd c s
step (tick now r es) s = if is_due now s.deadline then clear_pushed r es s else s

unfoldable pub run : List Step → State → State
unfolding step
run [] s = s
run (e ∷ es) s = run es (step e s)
