-- ===== src/Agent/Broker/Dialogs.antt =====
-- The dialogs of the broker, over any number of turns.
use veracage.Base.{
  ℕ, Text, List, [], ◌∷◌, ◌++◌, Bool, true, false, not, ◌&&◌, some, text_eq, is_empty, all, keep,
  ◌≡◌, refl, arith, Bool-cases, inl, inr, text_eq→≡, text_eq_refl,
}
use veracage.Agent.Broker.{Broker, World, publish_status, add_job, set_dismounts}
use veracage.Agent.Broker.Keeps.{IsKept, has_kind, add-full, turn-P}
use veracage.Agent.Broker.Turn.{
  runs_on, see_command, see_compositor, see_config, see_open, reaped, clear_status, turn,
}

abbrev pub Dialogs : Type 0
Dialogs = List (Text × ℕ)

unfoldable pub is_distinct : Dialogs → Bool
is_distinct [] = true
is_distinct (d ∷ ds) = not (has_kind d.0 ds) && is_distinct ds

keep-no_kind :
    (kind : Text) (p : Text × ℕ → Bool) (ds : Dialogs)
    → has_kind kind ds ≡ false
    → has_kind kind (keep p ds) ≡ false
keep-no_kind kind p [] h = refl
keep-no_kind kind p (d ∷ ds) h = ground (arith, keep-no_kind kind p ds)

keep-distinct :
    (p : Text × ℕ → Bool) (ds : Dialogs) → is_distinct ds ≡ true → is_distinct (keep p ds) ≡ true
unfolding is_distinct
keep-distinct p [] h = refl
keep-distinct p (d ∷ ds) h = ground (arith, keep-distinct p ds, keep-no_kind d.0 p ds)

text_eq_sym : (s t : Text) → text_eq s t ≡ false → text_eq t s ≡ false
text_eq_sym s t h = elim (Bool-cases (text_eq t s)) [
  | inl e ↦ ground (arith, text_eq→≡ t s, text_eq_refl s)
  | inr e ↦ e
]

add-no_kind :
    (kind sub : Text) (child : ℕ) (ds : Dialogs)
    → has_kind kind ds ≡ false
    → text_eq sub kind ≡ false
    → has_kind kind (ds ++ (sub, child) ∷ []) ≡ false
add-no_kind kind sub child [] h e = ground arith
add-no_kind kind sub child (d ∷ ds) h e = ground (arith, add-no_kind kind sub child ds)

add-distinct :
    (sub : Text) (child : ℕ) (ds : Dialogs)
    → is_distinct ds ≡ true
    → has_kind sub ds ≡ false
    → is_distinct (ds ++ (sub, child) ∷ []) ≡ true
unfolding is_distinct
add-distinct sub child [] h k = refl
add-distinct sub child (d ∷ ds) h k =
    ground (arith, add-distinct sub child ds, add-no_kind d.0 sub child ds, text_eq_sym d.0 sub)

-- What every turn keeps: one dialog of each kind, and no progress note without an open that runs.
pub record Inv (b : Broker) : Type 0 where
  pub one_of_each : is_distinct b.dialogs ≡ true
  pub noted : is_empty b.status ≡ false → is_empty b.opens ≡ false

Inv-same :
    (b c : Broker) → c.dialogs ≡ b.dialogs → c.opens ≡ b.opens → c.status ≡ b.status → Inv b → Inv c
Inv-same b c d o s h = record { one_of_each = rw d h.one_of_each; noted = rw (o, s) h.noted }

Inv-IsKept : IsKept Inv
Inv-IsKept = record {
  job = λ c b h. Inv-same b (add_job (some c) b) refl refl refl h;
  opened = λ j t b h. record { one_of_each = h.one_of_each; noted = λ s. add-full b.opens j };
  dialog = λ sub child b n h. record {
    one_of_each = add-distinct sub child b.dialogs h.one_of_each n;
    noted = h.noted;
  };
  dismount = λ ds b e h. Inv-same b (set_dismounts ds b) refl refl refl h;
  command = λ n b h. Inv-same b (see_command n b) refl refl refl h;
  request = λ t b h. Inv-same b (see_open t b) refl refl refl h;
  config = λ t b h. Inv-same b (see_config t b) refl refl refl h;
  compositor = λ b h. Inv-same b (see_compositor b) refl refl refl h;
}

-- The note goes when the last open ended.
cleared-note : (w : World) (old : Text) → w.removed ≡ true → publish_status w [] old ≡ []
unfolding publish_status
cleared-note w old r = rw (r, publish_status) refl

clear_status-noted :
    (w : World) (b : Broker)
    → w.removed ≡ true
    → is_empty (clear_status w b).status ≡ false
    → is_empty (clear_status w b).opens ≡ false
clear_status-noted w b r h = ground (arith, cleared-note w b.status r)

cleared-distinct :
    (w : World) (b : Broker)
    → is_distinct b.dialogs ≡ true
    → is_distinct (clear_status w b).dialogs ≡ true
cleared-distinct w b h = ground arith

cleared-Inv :
    (w : World) (b : Broker) → w.removed ≡ true → Inv b → Inv (clear_status w (reaped w b))
unfolding reaped
cleared-Inv w b r h = record {
  one_of_each =
      cleared-distinct w (reaped w b) (keep-distinct (λ d. runs_on w d.1) b.dialogs h.one_of_each);
  noted = clear_status-noted w (reaped w b) r;
}

turn-Inv :
    (w : World) (ws vs : ℕ → World) (b : Broker) → w.removed ≡ true → Inv b → Inv (turn w ws vs b)
turn-Inv w ws vs b r h = turn-P Inv Inv-IsKept w ws vs b (cleared-Inv w b r h)

-- The worlds of one turn.
abbrev pub Turn : Type 0
Turn = World × (ℕ → World) × (ℕ → World)

unfoldable pub turns : List Turn → Broker → Broker
unfolding turn
turns [] b = b
turns (t ∷ ts) b = turns ts (turn t.0 t.1 t.2 b)

-- Over any number of turns of the loop, in each of which a cleared progress note can be removed,
-- there is at most one dialog of each kind, and a progress note is published only while an open
-- runs.
pub turns-Inv :
    (ts : List Turn) (b : Broker)
    → all (λ (t : Turn). t.0.removed) ts ≡ true
    → Inv b
    → Inv (turns ts b)
unfolding turns
turns-Inv [] b r h = h
turns-Inv (t ∷ ts) b r h =
    turns-Inv ts (turn t.0 t.1 t.2 b) (ground arith) (turn-Inv t.0 t.1 t.2 b (ground arith) h)
