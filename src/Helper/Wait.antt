-- ===== src/Helper/Wait.antt =====
-- `wait_for_go_on` of helper-rs/src/main.rs: the wait for the caller's answer to a `holders`
-- report. A list of rounds is what the loop sees up to its deadline; the end of the list is the
-- deadline, at which the source returns false.
use veracage.Base.{
  ℕ, Text, codes, List, [], ◌∷◌, ◌++◌, Bool, true, false, Option, none, some, if◌then◌else◌, leb,
  ◌==◌, text_eq, length, ◌≡◌, refl, arith, sym, length-append, append-nil, append_assoc,
  Option-cases, inl, inr, ap, ◌∙◌, ◌↔◌, text_eq→≡,
}
use veracage.Helper.Sys.{Round, leader_gone, elapsed, poll_failed, eof, bytes}

-- The text before the first newline.
unfoldable pub before_newline : Text → Option Text
before_newline [] = none
before_newline (c ∷ cs) = elim (c == 10) [
  | true ↦ some []
  | false ↦ elim (before_newline cs) [ some l ↦ some (c ∷ l) | none ↦ none ]
]

abbrev pub buffer_size : ℕ
buffer_size = 32

-- After a read: an answer, the end of the protocol, or one more round (`none`).
unfoldable pub answer : Text → Option Bool
unfolding before_newline
answer line = elim (before_newline line) [
  | some l ↦ some (text_eq l (codes "go"))
  | none ↦ if leb buffer_size (length line) then some false else none
]

-- The loop, on the bytes read so far.
unfoldable pub wait_for_go_on : Text → List Round → Bool
unfolding answer
wait_for_go_on line [] = false
wait_for_go_on line (leader_gone ∷ rest) = false
wait_for_go_on line (elapsed ∷ rest) = wait_for_go_on line rest
wait_for_go_on line (poll_failed ∷ rest) = false
wait_for_go_on line (eof ∷ rest) = false
wait_for_go_on line (bytes bs ∷ rest) = elim (answer (line ++ bs)) [
  | some a ↦ a
  | none ↦ wait_for_go_on (line ++ bs) rest
]

-- What the caller sent while the session lived: the specification, with no buffer and no loop state.
unfoldable pub received : List Round → Text
received [] = []
received (elapsed ∷ rest) = received rest
received (bytes bs ∷ rest) = bs ++ received rest
received (_ ∷ rest) = []

unfoldable pub says_go : Text → Bool
unfolding before_newline
says_go t = elim (before_newline t) [ some l ↦ text_eq l (codes "go") | none ↦ false ]

abbrev joined : Option Text → Text → Option Text → Option Text
joined (some l) a r = some l
joined none a none = none
joined none a (some l) = some (a ++ l)

before_newline-append :
    (a b : Text) → before_newline (a ++ b) ≡ joined (before_newline a) a (before_newline b)
unfolding before_newline
before_newline-append [] b = ground arith
before_newline-append (c ∷ a) b = ground (arith, before_newline-append a b)

before_newline-nil : before_newline [] ≡ none
unfolding before_newline
before_newline-nil = refl

long-not_go : (l : Text) → leb buffer_size (length l) ≡ true → text_eq l (codes "go") ≡ false
unfolding text_eq
long-not_go [] h = cc
long-not_go (a ∷ []) h = ground arith
long-not_go (a ∷ b ∷ []) h = ground arith
long-not_go (a ∷ b ∷ c ∷ l) h = ground arith

append-not_go :
    (a l : Text) → leb buffer_size (length a) ≡ true → text_eq (a ++ l) (codes "go") ≡ false
append-not_go a l h = ground (arith, long-not_go (a ++ l), length-append a l)

joined-not_go :
    (a : Text) (r : Option Text)
    → before_newline a ≡ none
    → leb buffer_size (length a) ≡ true
    → (elim (joined (before_newline a) a r) [ some l ↦ text_eq l (codes "go") | none ↦ false ])
      ≡ false
joined-not_go a none h k = rw h
joined-not_go a (some l) h k = rw h (append-not_go a l k)

-- A read decides what the text so far decides, whatever would come after it.
answer-says_go : (line more : Text) {b : Bool} → answer line ≡ some b → says_go (line ++ more) ≡ b
unfolding answer says_go
answer-says_go line more h =
    ground (arith, before_newline-append line more, joined-not_go line (before_newline more))

answer-open : (line : Text) → answer line ≡ none → before_newline line ≡ none
unfolding answer
answer-open line h = ground arith

says_go-open : (line : Text) → before_newline line ≡ none → says_go (line ++ []) ≡ false
unfolding says_go
says_go-open line h = ground (arith, append-nil line)

-- The loop with its buffer of 32 bytes answers as the whole text received says.
wait-says_go :
    (line : Text) (rounds : List Round)
    → before_newline line ≡ none
    → wait_for_go_on line rounds ≡ says_go (line ++ received rounds)
unfolding wait_for_go_on received
wait-says_go line [] h = sym (says_go-open line h)
wait-says_go line (elapsed ∷ rest) h = wait-says_go line rest h
wait-says_go line (bytes bs ∷ rest) h = elim (Option-cases (answer (line ++ bs))) [
  | inl e ↦
      rw (e, wait_for_go_on)
        (wait-says_go (line ++ bs) rest (answer-open (line ++ bs) e)
          ∙ ap says_go (append_assoc line bs (received rest)))
  | inr (b, e) ↦
      rw (e, wait_for_go_on)
        (sym (answer-says_go (line ++ bs) (received rest) e)
          ∙ ap says_go (append_assoc line bs (received rest)))
]
wait-says_go line (_ ∷ rest) h = sym (says_go-open line h)

go-line : (t : Text) → says_go t ≡ true → before_newline t ≡ some (codes "go")
unfolding says_go
go-line t h = elim (Option-cases (before_newline t)) [
  | inl e ↦ ground arith
  | inr (l, e) ↦ ground (arith, text_eq→≡ l (codes "go"))
]

line-go : (t : Text) → before_newline t ≡ some (codes "go") → says_go t ≡ true
unfolding says_go text_eq
line-go t h = rw (h, says_go) refl

-- A parked helper goes on exactly when the caller's first line is `go`, sent while the leader lived
-- and the polls succeeded.
pub wait_for_go_on_iff :
    (rounds : List Round)
    → (wait_for_go_on [] rounds ≡ true) ↔ (before_newline (received rounds) ≡ some (codes "go"))
wait_for_go_on_iff rounds = (
  λ h. go-line (received rounds) (sym (wait-says_go [] rounds before_newline-nil) ∙ h),
  λ h. wait-says_go [] rounds before_newline-nil ∙ line-go (received rounds) h,
)
