-- ===== src/Agent/Commands/Drain.antt =====
-- What the broker reads of the log that the compositor writes: the two ends together.
use veracage.Base.{
  ℕ, ◌<◌, Text, List, [], ◌∷◌, ◌++◌, map, Bool, true, false, not, ◌&&◌, Option, none, some, leb,
  is_empty, trim, lines, filter_map, keep, all, All, ◌≡◌, refl, sym, ap, ◌∙◌, arith, is_inline,
  differs, is_dark, is_digit, to_dec, unlines, u64_limit, all-to_dec, parse_below-to_dec, trim-dark,
  dark-inline, dark-differs_tab, all_imp, all-append, split_once-field, append-nil, append_assoc,
  keep-append, lines_onto, lines-unlines, is_whitespace,
}
use veracage.Agent.Commands.{
  Command, u128_limit, parse_command, complete, is_newer, insert_command, sort_commands, or_none,
  read_commands, seen_after, drain,
}
use veracage.Compositor.Toolbar.Commands.{command_line, commands_body}

-- A verb that one line can hold, under a nonce of 64 bits.
pub record IsVerb (c : Command) : Type 0 where
  pub nonce_small : c.0 < u64_limit
  pub one_line : all is_inline c.1 ≡ true
  pub trimmed : trim c.1 ≡ c.1
  pub nonempty : is_empty c.1 ≡ false

digit-dark : (c : ℕ) → is_digit c ≡ true → is_dark c ≡ true
unfolding is_whitespace
digit-dark c h = ground arith

to_dec-dark : (n : ℕ) → all is_dark (to_dec n) ≡ true
to_dec-dark n = all_imp is_digit is_dark digit-dark (to_dec n) (all-to_dec n)

parse_command-line : (c : Command) → IsVerb c → parse_command (command_line c) ≡ some c
unfolding parse_command command_line
parse_command-line (n, v) h =
    rw
      (
        split_once-field 9 (to_dec n) v
            (all_imp is_dark (differs 9) dark-differs_tab (to_dec n) (to_dec-dark n)),
        parse_command,
      )
      (rw (trim-dark (to_dec n) (to_dec-dark n)) (
        rw (parse_below-to_dec u128_limit n (let k = h.nonce_small in omega arith) h.nonce_small)
          (rw h.trimmed (rw h.nonempty refl))))

command_line-inline : (c : Command) → IsVerb c → all is_inline (command_line c) ≡ true
unfolding command_line
command_line-inline (n, v) h =
    rw (all-append is_inline (to_dec n) (9 ∷ v))
      (rw (all_imp is_dark is_inline dark-inline (to_dec n) (to_dec-dark n)) (rw h.one_line refl))

lines-inline :
    (cs : List Command) → All IsVerb cs → All (λ l. all is_inline l ≡ true) (map command_line cs)
lines-inline [] h = tt
lines-inline (c ∷ cs) h = (command_line-inline c h.0, lines-inline cs h.1)

parse-lines :
    (cs : List Command) → All IsVerb cs → filter_map parse_command (map command_line cs) ≡ cs
parse-lines [] h = refl
parse-lines (c ∷ cs) h =
    rw (parse_command-line c h.0, filter_map) (ap (λ ds. c ∷ ds) (parse-lines cs h.1))

-- The part of a log that is complete is what was written as whole lines.
complete-partial : (p : Text) → all (differs 10) p ≡ true → complete p ≡ none
unfolding complete
complete-partial [] h = refl
complete-partial (c ∷ p) h = ground (arith, complete-partial p)

abbrev text_or : Option Text → Text
text_or none = []
text_or (some t) = t

complete-line : (l t : Text) → complete (l ++ 10 ∷ t) ≡ some (l ++ 10 ∷ text_or (complete t))
unfolding complete
complete-line [] t = ground arith
complete-line (c ∷ l) t = rw (complete-line l t, complete) refl

complete-unlines :
    (ls : List Text) (p : Text)
    → all (differs 10) p ≡ true
    → text_or (complete (unlines ls ++ p)) ≡ unlines ls
complete-unlines [] p h = rw (complete-partial p h) refl
complete-unlines (l ∷ ls) p h =
    rw (append_assoc l (10 ∷ unlines ls) p)
      (rw (complete-line l (unlines ls ++ p)) (rw (complete-unlines ls p h) refl))

or_none-text_or : (o : Option Text) → or_none o ≡ lines (text_or o)
unfolding lines_onto
or_none-text_or none = refl
or_none-text_or (some t) = refl

-- All verbs of a log, the line that is still being written left out.
commands-read :
    (cs : List Command) (p : Text)
    → All IsVerb cs
    → all (differs 10) p ≡ true
    → filter_map parse_command (or_none (complete (commands_body cs ++ p))) ≡ cs
unfolding commands_body
commands-read cs p h k = rw (or_none-text_or (complete (unlines (map command_line cs) ++ p))) (
    rw (complete-unlines (map command_line cs) p k)
      (rw (lines-unlines (map command_line cs) (lines-inline cs h)) (parse-lines cs h)))

-- Nonces that do not fall.
abbrev at_most : ℕ → List Command → Bool
at_most n [] = true
at_most n (d ∷ ds) = leb n d.0

abbrev pub is_ordered : List Command → Bool
is_ordered [] = true
is_ordered (c ∷ cs) = at_most c.0 cs && is_ordered cs

insert-ordered :
    (c : Command) (cs : List Command) → at_most c.0 cs ≡ true → insert_command c cs ≡ c ∷ cs
unfolding insert_command
insert-ordered c [] h = refl
insert-ordered c (d ∷ ds) h = rw h refl

sort-ordered : (cs : List Command) → is_ordered cs ≡ true → sort_commands cs ≡ cs
unfolding sort_commands
sort-ordered [] h = refl
sort-ordered (c ∷ cs) h = ground (arith, sort-ordered cs, insert-ordered c cs)

abbrev pub is_seen : Option ℕ → Command → Bool
is_seen seen c = not (is_newer seen c)

keep-seen :
    (seen : Option ℕ) (cs : List Command)
    → all (is_seen seen) cs ≡ true
    → keep (is_newer seen) cs ≡ []
keep-seen seen [] h = refl
keep-seen seen (c ∷ cs) h = ground (arith, keep-seen seen cs)

keep-newer :
    (seen : Option ℕ) (cs : List Command)
    → all (is_newer seen) cs ≡ true
    → keep (is_newer seen) cs ≡ cs
keep-newer seen [] h = refl
keep-newer seen (c ∷ cs) h = ground (arith, keep-newer seen cs)

All-append : (cs ds : List Command) → All IsVerb cs → All IsVerb ds → All IsVerb (cs ++ ds)
All-append [] ds h k = k
All-append (c ∷ cs) ds h k = (h.0, All-append cs ds h.1 k)

-- Of a log in which the verbs up to the last handled one come first, exactly the others are read, in
-- their order, whatever part of one more line is there already.
pub read_commands-appended :
    (seen : Option ℕ) (old new : List Command) (partial : Text)
    → All IsVerb old
    → All IsVerb new
    → all (is_seen seen) old ≡ true
    → all (is_newer seen) new ≡ true
    → is_ordered new ≡ true
    → all (differs 10) partial ≡ true
    → read_commands (some (commands_body (old ++ new) ++ partial)) seen ≡ new
unfolding read_commands
read_commands-appended seen old new partial v w s n o p =
    rw (commands-read (old ++ new) partial (All-append old new v w) p) (
      rw (keep-append (is_newer seen) old new)
        (rw (keep-seen seen old s) (rw (keep-newer seen new n) (sort-ordered new o))))

-- The verbs written between two polls, for each poll: whole lines, under nonces that rise from one
-- poll to the next and do not fall within one.
abbrev pub AreBatches : Option ℕ → List (List Command) → Type 0
AreBatches seen [] = Unit {0}
AreBatches seen (b ∷ bs) =
    (All IsVerb b × (all (is_newer seen) b ≡ true) × (is_ordered b ≡ true))
    × AreBatches (seen_after seen b) bs

abbrev pub concat : List (List Command) → List Command
concat [] = []
concat (b ∷ bs) = b ++ concat bs

-- Handling a batch steps over it, and over what was stepped over before.
seen-more :
    (seen : Option ℕ) (c : Command) (d : Command)
    → is_newer seen c ≡ true
    → is_seen seen d ≡ true
    → is_seen (some c.0) d ≡ true
seen-more none c d h k = cc
seen-more (some n) c d h k = ground arith

all-seen-more :
    (seen : Option ℕ) (c : Command) (ds : List Command)
    → is_newer seen c ≡ true
    → all (is_seen seen) ds ≡ true
    → all (is_seen (some c.0)) ds ≡ true
all-seen-more seen c ds h k =
    all_imp (is_seen seen) (is_seen (some c.0)) (λ d. seen-more seen c d h) ds k

-- Once an ordered batch is handled, all up to its last nonce counts as seen.
seen_self : (c : Command) → is_seen (some c.0) c ≡ true
seen_self c = ground arith

seen-raised :
    (n m : ℕ) (d : Command) → leb n m ≡ true → is_seen (some n) d ≡ true → is_seen (some m) d ≡ true
seen-raised n m d h k = ground arith

seen-add :
    (c : Command) (ds : List Command)
    → all (is_seen (some c.0)) ds ≡ true
    → all (is_seen (some c.0)) (ds ++ c ∷ []) ≡ true
seen-add c ds h = rw (all-append (is_seen (some c.0)) ds (c ∷ [])) (rw h (rw (seen_self c) refl))

seen-from :
    (c : Command) (cs ds : List Command)
    → is_ordered (c ∷ cs) ≡ true
    → all (is_seen (some c.0)) ds ≡ true
    → all (is_seen (seen_after (some c.0) cs)) (ds ++ c ∷ cs) ≡ true
seen-from c [] ds o s = seen-add c ds s
seen-from c (d ∷ cs) ds o s = rw⁻¹ (append_assoc ds (c ∷ []) (d ∷ cs)) (
    seen-from d cs (ds ++ c ∷ []) (ground arith) (
      all_imp (is_seen (some c.0)) (is_seen (some d.0)) (λ x. seen-raised c.0 d.0 x (ground arith))
        (ds ++ c ∷ []) (seen-add c ds s)))

seen-batch :
    (seen : Option ℕ) (old b : List Command)
    → all (is_seen seen) old ≡ true
    → all (is_newer seen) b ≡ true
    → is_ordered b ≡ true
    → all (is_seen (seen_after seen b)) (old ++ b) ≡ true
seen-batch seen old [] s n o = rw (append-nil old) s
seen-batch seen old (c ∷ cs) s n o =
    seen-from c cs old o (all-seen-more seen c old (ground arith) s)

commands_body-append :
    (cs ds : List Command) → commands_body (cs ++ ds) ≡ commands_body cs ++ commands_body ds
unfolding commands_body
commands_body-append [] ds = refl
commands_body-append (c ∷ cs) ds =
    ap (λ (t : Text). command_line c ++ 10 ∷ t) (commands_body-append cs ds)
    ∙ sym (append_assoc (command_line c) (10 ∷ commands_body cs) (commands_body ds))

read-batch :
    (seen : Option ℕ) (old b : List Command)
    → All IsVerb old
    → all (is_seen seen) old ≡ true
    → All IsVerb b × (all (is_newer seen) b ≡ true) × (is_ordered b ≡ true)
    → read_commands (some (commands_body old ++ commands_body b)) seen ≡ b
read-batch seen old b v s h =
    ap (λ t. read_commands (some t) seen)
      (sym (append-nil (commands_body (old ++ b)) ∙ commands_body-append old b))
    ∙ read_commands-appended seen old b [] v h.0 s h.1 h.2 refl

-- Over any number of polls the broker dispatches exactly the verbs written since it started, once each
-- and in order, however many were written between two polls, under these conditions: each verb is a
-- trimmed, non-empty line under a nonce of 64 bits, those from before the start have nonces that count
-- as seen, and the nonces do not fall among the verbs written between two polls and are above the last
-- one of the polls before. A clock that is set back breaks the last.
pub drain-all :
    (seen : Option ℕ) (old : List Command) (batches : List (List Command))
    → All IsVerb old
    → all (is_seen seen) old ≡ true
    → AreBatches seen batches
    → drain seen (commands_body old) (map commands_body batches) ≡ concat batches
unfolding drain read_commands
drain-all seen old [] v s h = refl
drain-all seen old (b ∷ bs) v s h =
    ap
      (λ cs.
        cs
        ++ drain (seen_after seen cs) (commands_body old ++ commands_body b) (map commands_body bs))
      (read-batch seen old b v s h.0)
    ∙ ap (λ cs. b ++ cs)
        (rw⁻¹ (commands_body-append old b) (
          drain-all (seen_after seen b) (old ++ b) bs (All-append old b v h.0.0)
            (seen-batch seen old b s h.0.1 h.0.2) h.1))
