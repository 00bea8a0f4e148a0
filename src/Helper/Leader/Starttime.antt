-- ===== src/Helper/Leader/Starttime.antt =====
-- The start time of a process, under any command name.
use veracage.Base.{
  ℕ, Text, [], ◌∷◌, ◌++◌, false, none, some, contains_char, get_elem?, ==-refl, ◌≡◌, refl, arith,
}
use veracage.Helper.Volume.{rsplit_once}
use veracage.Helper.Leader.{starttime_of, words_onto, parse_u64}

rsplit_once-none : (d : ℕ) (b : Text) → contains_char d b ≡ false → rsplit_once d b ≡ none
unfolding rsplit_once contains_char
rsplit_once-none d [] h = refl
rsplit_once-none d (c ∷ b) h = ground (arith, rsplit_once-none d b)

rsplit_once-last :
    (d : ℕ) (a b : Text) → contains_char d b ≡ false → rsplit_once d (a ++ d ∷ b) ≡ some (a, b)
unfolding rsplit_once
rsplit_once-last d [] b h = rw (rsplit_once-none d b h) (ground (arith, ==-refl d))
rsplit_once-last d (c ∷ a) b h = rw (rsplit_once-last d a b h) refl

-- Whatever stands in front of the last closing parenthesis - the command name may hold spaces and
-- closing parentheses of its own - the start time is the twentieth word behind it.
pub starttime_of_comm :
    (name rest : Text)
    → contains_char b')' rest ≡ false
    → starttime_of (name ++ b')' ∷ rest) ≡ parse_u64 (get_elem? (words_onto [] rest) 19)
unfolding starttime_of
starttime_of_comm name rest h = rw (rsplit_once-last b')' name rest h, starttime_of) refl
