-- ===== src/Helper/Launch/Keeps.antt =====
-- Parts of the helper, as to the guard of Launch/Guarded.
use veracage.Base.{◌≡◌, true}
use veracage.Helper.Sys.{Ids, Os, Trace, M, Ends, ◌>>=◌, ◌>>◌}
use veracage.Helper.Sys.Rules.{bind-Ends}
use veracage.Helper.Launch.Guarded.{is_guarded, Guarded}

module _ (os : Os) (ids : Ids) where
  abbrev pub Keeps : {A : Type 0} → M A → Type 0
  Keeps m =
      (t : Trace)
      → is_guarded os ids t ≡ true
      → Ends (λ a u. is_guarded os ids u ≡ true) (Guarded os ids) (m os t)

  pub bind-Keeps :
      {A B : Type 0} (m : M A) (f : A → M B) → Keeps m → ((a : A) → Keeps (f a)) → Keeps (m >>= f)
  bind-Keeps m f h k t g =
      bind-Ends (λ a u. is_guarded os ids u ≡ true) (Guarded os ids)
        (Ends (λ a u. is_guarded os ids u ≡ true) (Guarded os ids)) m f os t (h t g)
        (λ a u l. k a u l) (λ c u l. l)

  pub then-Keeps : {A B : Type 0} (m : M A) (k : M B) → Keeps m → Keeps k → Keeps (m >> k)
  then-Keeps m k h l = bind-Keeps m (λ _. k) h (λ _. l)
