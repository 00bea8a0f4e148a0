-- ===== src/Base/TextLaws.antt =====
-- How the readers of `Strings` take apart text that was put together from clean pieces.
use mathlib.Core.Path.{◌≡◌, refl, ap, ◌∙◌}
use mathlib.Core.Bool.{Bool, true, not, ◌&&◌}
use mathlib.Core.Option.{some}
use mathlib.Core.List.{List, [], ◌∷◌, ◌++◌, append_assoc, append-nil}
use Prim.Native.Nat.{ℕ}
use native.Mathlib.Omega.{arith}
use veracage.Base.Tests.{◌==◌, ==-refl}
use veracage.Base.Lists.{all, all-append, All}
use veracage.Base.Strings.{
  Text, is_whitespace, trim_start, trim_end, trim_matches, trim, split_onto, split, split_once_onto,
  strip_prefix, strip_cr, lines_onto, lines,
}

-- A character that ends no line, and one that is no separator `d`.
abbrev pub is_inline : ℕ → Bool
is_inline c = not (c == 10) && not (c == 13)

abbrev pub differs : ℕ → ℕ → Bool
differs d c = not (c == d)

abbrev pub is_dark : ℕ → Bool
is_dark c = not (is_whitespace c)

pub dark-inline : (c : ℕ) → is_dark c ≡ true → is_inline c ≡ true
unfolding is_whitespace
dark-inline c h = ground arith

pub dark-differs_tab : (c : ℕ) → is_dark c ≡ true → differs 9 c ≡ true
unfolding is_whitespace
dark-differs_tab c h = ground arith

trim_start-dark : (p : ℕ → Bool) (t : Text) → all (λ c. not (p c)) t ≡ true → trim_start p t ≡ t
unfolding trim_start
trim_start-dark p [] h = refl
trim_start-dark p (c ∷ cs) h = ground arith

trim_end-dark : (p : ℕ → Bool) (t : Text) → all (λ c. not (p c)) t ≡ true → trim_end p t ≡ t
unfolding trim_end
trim_end-dark p [] h = refl
trim_end-dark p (c ∷ cs) h = ground (arith, trim_end-dark p cs)

pub trim-dark : (t : Text) → all is_dark t ≡ true → trim t ≡ t
unfolding trim trim_matches
trim-dark t h = rw (trim_start-dark is_whitespace t h) (trim_end-dark is_whitespace t h)

module _ (d : ℕ) where
  split_onto-field :
      (acc f rest : Text)
      → all (differs d) f ≡ true
      → split_onto d acc (f ++ d ∷ rest) ≡ (acc ++ f) ∷ split_onto d [] rest
  unfolding split_onto
  split_onto-field acc [] rest h = ground (arith, append-nil acc)
  split_onto-field acc (c ∷ f) rest h =
      ground (arith, split_onto-field (acc ++ c ∷ []) f rest, append_assoc acc (c ∷ []) f)

  split_onto-last : (acc f : Text) → all (differs d) f ≡ true → split_onto d acc f ≡ (acc ++ f) ∷ []
  unfolding split_onto
  split_onto-last acc [] h = rw append-nil
  split_onto-last acc (c ∷ f) h =
      ground (arith, split_onto-last (acc ++ c ∷ []) f, append_assoc acc (c ∷ []) f)

  pub split-field :
      (f rest : Text) → all (differs d) f ≡ true → split d (f ++ d ∷ rest) ≡ f ∷ split d rest
  split-field f rest h = split_onto-field [] f rest h

  pub split-last : (f : Text) → all (differs d) f ≡ true → split d f ≡ f ∷ []
  split-last f h = split_onto-last [] f h

  split_once_onto-field :
      (acc f rest : Text)
      → all (differs d) f ≡ true
      → split_once_onto d acc (f ++ d ∷ rest) ≡ some (acc ++ f, rest)
  unfolding split_once_onto
  split_once_onto-field acc [] rest h = ground (arith, append-nil acc)
  split_once_onto-field acc (c ∷ f) rest h =
      ground (arith, split_once_onto-field (acc ++ c ∷ []) f rest, append_assoc acc (c ∷ []) f)

  pub split_once-field :
      (f rest : Text)
      → all (differs d) f ≡ true
      → split_once_onto d [] (f ++ d ∷ rest) ≡ some (f, rest)
  split_once-field f rest h = split_once_onto-field [] f rest h

pub strip_prefix-append : (p t : Text) → strip_prefix p (p ++ t) ≡ some t
unfolding strip_prefix
strip_prefix-append [] t = refl
strip_prefix-append (c ∷ p) t = rw (==-refl c) (strip_prefix-append p t)

strip_cr-inline : (t : Text) → all is_inline t ≡ true → strip_cr t ≡ t
unfolding strip_cr
strip_cr-inline [] h = refl
strip_cr-inline (c ∷ []) h = ground arith
strip_cr-inline (c ∷ d ∷ t) h = ground (arith, strip_cr-inline (d ∷ t))

-- Lines put together, each ended by a newline.
abbrev pub unlines : List Text → Text
unlines [] = []
unlines (l ∷ ls) = l ++ 10 ∷ unlines ls

pub unlines-append : (ls ms : List Text) → unlines (ls ++ ms) ≡ unlines ls ++ unlines ms
unlines-append [] ms = refl
unlines-append (l ∷ ls) ms =
    ground (arith, unlines-append ls ms, append_assoc l (10 ∷ unlines ls) (unlines ms))

lines_onto-line :
    (acc l rest : Text)
    → all is_inline acc ≡ true
    → all is_inline l ≡ true
    → lines_onto acc (l ++ 10 ∷ rest) ≡ (acc ++ l) ∷ lines rest
unfolding lines_onto
lines_onto-line acc [] rest a h = rw append-nil (rw (strip_cr-inline acc a) refl)
lines_onto-line acc (c ∷ l) rest a h = ground (
  arith,
  lines_onto-line (acc ++ c ∷ []) l rest,
  append_assoc acc (c ∷ []) l,
  all-append is_inline acc (c ∷ []),
)

pub lines-line : (l rest : Text) → all is_inline l ≡ true → lines (l ++ 10 ∷ rest) ≡ l ∷ lines rest
lines-line l rest h = lines_onto-line [] l rest refl h

-- Reading lines that were written gives them back.
pub lines-unlines :
    (ls : List Text) → All (λ l. all is_inline l ≡ true) ls → lines (unlines ls) ≡ ls
unfolding lines_onto
lines-unlines [] h = refl
lines-unlines (l ∷ ls) h =
    lines-line l (unlines ls) h.0 ∙ ap (λ (t : List Text). l ∷ t) (lines-unlines ls h.1)
