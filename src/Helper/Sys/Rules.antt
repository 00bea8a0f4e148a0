-- ===== src/Helper/Sys/Rules.antt =====
-- Reasoning about how a run ends, part by part.
use veracage.Base.{ℕ}
use veracage.Helper.Sys.{Os, M, Outcome, done, exited, Trace, Ends, ◌>>=◌}

-- A run that does not exit.
abbrev pub Returns : {A : Type 0} → Outcome A → Type 0
Returns o = Ends (λ a u. Unit {0}) (λ c u. ⊥) o

module _ {A B : Type 0} (P : A → Trace → Type 0) (E : ℕ → Trace → Type 0) (R : Outcome B → Type 0)
    (m : M A) (f : A → M B) (os : Os) where
  continue-Ends :
      (o : Outcome A)
      → Ends P E o
      → ((a : A) (u : Trace) → P a u → R (f a os u))
      → ((c : ℕ) (u : Trace) → E c u → R (exited c u))
      → R (elim o [ done a t' ↦ f a os t' | exited c t' ↦ exited c t' ])
  continue-Ends (done a u) h k e = k a u h
  continue-Ends (exited c u) h k e = e c u h

  -- What a part ensures is what the rest starts from, and its exits are exits of the whole.
  pub bind-Ends :
      (t : Trace)
      → Ends P E (m os t)
      → ((a : A) (u : Trace) → P a u → R (f a os u))
      → ((c : ℕ) (u : Trace) → E c u → R (exited c u))
      → R ((m >>= f) os t)
  bind-Ends t h k e = continue-Ends (m os t) h k e

module _ {A B : Type 0} (R : Outcome B → Type 0) (m : M A) (f : A → M B) (os : Os) where
  -- What holds after every result of a part that does not exit holds after the part.
  pub bind-Returns :
      (t : Trace) → Returns (m os t) → ((a : A) (u : Trace) → R (f a os u)) → R ((m >>= f) os t)
  bind-Returns t h k =
      bind-Ends (λ a u. Unit {0}) (λ c u. ⊥) R m f os t h (λ a u p. k a u) (λ c u e. absurd e)
