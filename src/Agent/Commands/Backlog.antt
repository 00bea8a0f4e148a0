-- ===== src/Agent/Commands/Backlog.antt =====
-- The start of a broker over a log that has verbs already.
use veracage.Base.{
  ℕ, Text, List, [], ◌∷◌, ◌++◌, Bool, true, false, Option, none, some, if◌then◌else◌, leb, ◌==◌,
  lines, lines_onto, strip_cr, filter_map, keep, all, ◌≡◌, refl, sym, arith, Bool-cases,
  Option-cases, inl, inr, ◌∙◌,
}
use mathlib.Core.Path.{subst}
use veracage.Agent.Commands.{
  Command, parse_command, complete, is_newer, sort_commands, or_none, read_commands, max_nonce,
  last_command_nonce,
}

-- Every line counts for the newest nonce.
abbrev is_below : Option ℕ → Command → Bool
is_below none c = false
is_below (some m) c = leb c.0 m

max-grows :
    (m : Option ℕ) (c : Command) (cs : List Command)
    → is_below m c ≡ true
    → is_below (max_nonce m cs) c ≡ true
max-grows none c cs h = cc
max-grows (some m) c [] h = h
max-grows (some m) c (d ∷ ds) h =
    max-grows (some (if leb m d.0 then d.0 else m)) c ds (ground arith)

max-above : (m : Option ℕ) (cs : List Command) → all (is_below (max_nonce m cs)) cs ≡ true
max-above m [] = refl
max-above none (c ∷ cs) = ground (arith, max-grows (some c.0) c cs, max-above (some c.0) cs)
max-above (some n) (c ∷ cs) = ground (
  arith,
  max-grows (some (if leb n c.0 then c.0 else n)) c cs,
  max-above (some (if leb n c.0 then c.0 else n)) cs,
)

-- The lines of the complete part are among all lines.
lines-nil : lines_onto [] [] ≡ []
unfolding lines_onto
lines-nil = refl

lines-newline :
    (acc : Text) (c : ℕ) (t : Text)
    → (c == 10) ≡ true
    → lines_onto acc (c ∷ t) ≡ strip_cr acc ∷ lines_onto [] t
unfolding lines_onto
lines-newline acc c t h = rw (h, lines_onto) refl

lines-other :
    (acc : Text) (c : ℕ) (t : Text)
    → (c == 10) ≡ false
    → lines_onto acc (c ∷ t) ≡ lines_onto (acc ++ c ∷ []) t
unfolding lines_onto
lines-other acc c t h = rw (h, lines_onto) refl

last-line :
    (p : Text → Bool) (acc : Text) (c : ℕ) (t : Text)
    → (c == 10) ≡ true
    → all p (lines_onto acc (c ∷ t)) ≡ true
    → all p (lines_onto acc (c ∷ [])) ≡ true
last-line p acc c t h k =
    rw (lines-newline acc c [] h) (ground (arith, lines-newline acc c t h, lines-nil))

complete-more :
    (p : Text → Bool) (acc : Text) (c : ℕ) (t v : Text)
    → all p (lines_onto acc (c ∷ t)) ≡ true
    → ((acc' : Text) → all p (lines_onto acc' t) ≡ true → all p (lines_onto acc' v) ≡ true)
    → all p (lines_onto acc (c ∷ v)) ≡ true
complete-more p acc c t v k r = elim (Bool-cases (c == 10)) [
  | inl n ↦
      rw (lines-newline acc c v n)
        (let s = lines-newline acc c t n in let q = r [] in ground (arith, s, q))
  | inr n ↦
      rw (lines-other acc c v n)
        (r (acc ++ c ∷ []) (subst (λ ls. all p ls ≡ true) (lines-other acc c t n) k))
]

complete-lines :
    (p : Text → Bool) (acc t : Text)
    → all p (lines_onto acc t) ≡ true
    → (u : Text) → complete t ≡ some u
    → all p (lines_onto acc u) ≡ true
unfolding complete
complete-lines p acc [] k u h = cc
complete-lines p acc (c ∷ t) k u h = elim (Option-cases (complete t)) [
  | inl e ↦
      let same : (c ∷ []) ≡ u = ground arith in
      subst (λ v. all p (lines_onto acc v) ≡ true) same (last-line p acc c t (ground arith) k)
  | inr (v, e) ↦
      let same : (c ∷ v) ≡ u = ground arith in
      subst (λ v. all p (lines_onto acc v) ≡ true) same
        (complete-more p acc c t v k (λ acc' q. complete-lines p acc' t q v e))
]

below_line : Option ℕ → Text → Bool
below_line m l = elim (parse_command l) [ none ↦ true | some c ↦ is_below m c ]

below-lines :
    (m : Option ℕ) (ls : List Text)
    → all (is_below m) (filter_map parse_command ls) ≡ all (below_line m) ls
unfolding below_line
below-lines m [] = refl
below-lines m (l ∷ ls) = ground (arith, below-lines m ls)

below-not_newer :
    (m : Option ℕ) (cs : List Command) → all (is_below m) cs ≡ true → keep (is_newer m) cs ≡ []
below-not_newer m [] h = refl
below-not_newer none (c ∷ cs) h = cc
below-not_newer (some n) (c ∷ cs) h = ground (arith, below-not_newer (some n) cs)

all-lines : (s : Text) → all (below_line (last_command_nonce (some s))) (lines s) ≡ true
unfolding last_command_nonce
all-lines s =
    sym (below-lines (max_nonce none (filter_map parse_command (lines s))) (lines s))
    ∙ max-above none (filter_map parse_command (lines s))

sort-nil : (cs : List Command) → cs ≡ [] → sort_commands cs ≡ []
unfolding sort_commands
sort-nil cs h = rw h refl

nothing-newer :
    (s : Text) (o : Option Text)
    → ((u : Text) → o ≡ some u → all (below_line (last_command_nonce (some s))) (lines u) ≡ true)
    → keep (is_newer (last_command_nonce (some s))) (filter_map parse_command (or_none o)) ≡ []
nothing-newer s none h = refl
nothing-newer s (some u) h =
    below-not_newer (last_command_nonce (some s)) (filter_map parse_command (lines u))
      (below-lines (last_command_nonce (some s)) (lines u) ∙ h u refl)

-- Whatever the log holds when the broker starts, none of it is dispatched: nothing there is newer
-- than the nonce that the broker starts from.
pub backlog-skipped : (log : Option Text) → read_commands log (last_command_nonce log) ≡ []
unfolding read_commands
backlog-skipped none = refl
backlog-skipped (some s) =
    sort-nil
      (keep (is_newer (last_command_nonce (some s)))
        (filter_map parse_command (or_none (complete s))))
      (nothing-newer s (complete s)
        (λ u e. complete-lines (below_line (last_command_nonce (some s))) [] s (all-lines s) u e))
