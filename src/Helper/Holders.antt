-- ===== src/Helper/Holders.antt =====
-- Who holds a volume from outside the session's namespace (helper-rs/src/main.rs):
-- `foreign_holders`, `holder_names` and `is_sandbox_wrapper`.
pub mod Report
use veracage.Base.{
  Text, codes, List, [], ◌∷◌, ◌++◌, Bool, true, false, ◌&&◌, ◌||◌, not, Option, none, some,
  if◌then◌else◌, leb, ltb, ◌==◌, text_eq, byte_len, is_empty, any, keep, filter_map,
}
use veracage.Helper.Sys.{Proc, M, done}
use veracage.Helper.Volume.{sanitized}

-- `starts_with` and `contains` of a text.
unfoldable pub starts_with : Text → Text → Bool
starts_with [] t = true
starts_with (p ∷ ps) [] = false
starts_with (p ∷ ps) (c ∷ cs) = p == c && starts_with ps cs

unfoldable pub contains_sub : Text → Text → Bool
unfolding starts_with
contains_sub needle [] = is_empty needle
contains_sub needle (c ∷ cs) = starts_with needle (c ∷ cs) || contains_sub needle cs

abbrev holds_needle : Text → Option Text → Bool
holds_needle needle none = false
holds_needle needle (some body) = contains_sub needle body

abbrev elsewhere : Text → Option Text → Bool
elsewhere own none = false
elsewhere own (some ns) = not (text_eq ns own)

abbrev named : Option Text → Text
named none = codes "a process"
named (some c) = c

abbrev clean_comm : Option Text → Option Text
clean_comm none = none
clean_comm (some c) = sanitized c

-- The name of a process that holds the mount in another namespace.
unfoldable pub holder : Text → Text → Proc → Option Text
holder needle own p =
    if holds_needle needle p.mountinfo && elsewhere own p.ns
    then some (named (clean_comm p.comm))
    else none

-- The order of texts that `sort` uses, which is that of their characters.
unfoldable pub text_le : Text → Text → Bool
text_le [] t = true
text_le (x ∷ xs) [] = false
text_le (x ∷ xs) (y ∷ ys) = ltb x y || (x == y && text_le xs ys)

unfoldable pub insert_sorted : Text → List Text → List Text
unfolding text_le
insert_sorted x [] = x ∷ []
insert_sorted x (y ∷ ys) = if text_le x y then x ∷ y ∷ ys else y ∷ insert_sorted x ys

unfoldable pub sort : List Text → List Text
unfolding insert_sorted
sort [] = []
sort (x ∷ xs) = insert_sorted x (sort xs)

-- `dedup`: of equal neighbours the first stays.
unfoldable pub dedup : List Text → List Text
dedup [] = []
dedup (x ∷ []) = x ∷ []
dedup (x ∷ y ∷ ys) = let rest = dedup (y ∷ ys) in if text_eq x y then rest else x ∷ rest

abbrev pub needle_of : Text → Text
needle_of dm = codes " /dev/mapper/" ++ (dm ++ codes " ")

-- `foreign_holders`, from what /proc shows.
unfoldable pub holders_among : Text → Text → List Proc → List Text
unfolding holder sort dedup contains_sub
holders_among needle own procs = dedup (sort (filter_map (holder needle own) procs))

abbrev found_holders : Text → Option Text → Option (List Proc) → List Text
found_holders dm none procs = []
found_holders dm (some own) none = []
found_holders dm (some own) (some procs) = holders_among (needle_of dm) own procs

unfoldable pub foreign_holders : Text → M (List Text)
foreign_holders dm os t = done (found_holders dm (os.own_ns t) (os.procs t)) t

abbrev pub sandbox_wrappers : List Text
sandbox_wrappers =
    codes "bwrap"
    ∷ codes "dbus-run-session"
    ∷ codes "dbus-daemon"
    ∷ codes "veracage-reaper"
    ∷ codes "sh"
    ∷ codes "bash"
    ∷ []

-- `is_sandbox_wrapper`
unfoldable pub is_sandbox_wrapper : Text → Bool
unfolding starts_with
is_sandbox_wrapper comm =
    any (λ w. text_eq w comm || (starts_with comm w && leb 15 (byte_len comm))) sandbox_wrappers

unfoldable pub join_text : Text → List Text → Text
join_text sep [] = []
join_text sep (x ∷ []) = x
join_text sep (x ∷ y ∷ ys) = x ++ (sep ++ join_text sep (y ∷ ys))

-- `holder_names`
unfoldable pub holder_names : List Text → Text
unfolding is_sandbox_wrapper join_text
holder_names holders =
    let shown = keep (λ c. not (is_sandbox_wrapper c)) holders in
    if is_empty shown then codes "Apps inside Veracage" else join_text (codes ", ") shown
