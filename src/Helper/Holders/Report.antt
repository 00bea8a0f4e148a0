-- ===== src/Helper/Holders/Report.antt =====
-- What a close reports of the processes that hold a volume.
use veracage.Base.{
  Text, codes, Option, none, some, List, [], ◌∷◌, Bool, true, false, ◌&&◌, not, text_eq,
}
use veracage.Helper.Sys.{Proc}
use veracage.Helper.Volume.{sanitized}
use veracage.Helper.Holders.{contains_sub, text_le}

-- Strictly increasing, so without repetitions.
unfoldable pub is_increasing : List Text → Bool
is_increasing [] = true
is_increasing (x ∷ []) = true
is_increasing (x ∷ y ∷ ys) = text_le x y && not (text_eq x y) && is_increasing (y ∷ ys)

unfoldable is_ordered : List Text → Bool
is_ordered [] = true
is_ordered (x ∷ []) = true
is_ordered (x ∷ y ∷ ys) = text_le x y && is_ordered (y ∷ ys)

-- What the mount table, the namespace and the name of a process have to say for it to be reported.
abbrev has_mount : Text → Option Text → Bool
has_mount needle none = false
has_mount needle (some body) = contains_sub needle body

abbrev is_foreign : Text → Option Text → Bool
is_foreign own none = false
is_foreign own (some ns) = not (text_eq ns own)

abbrev is_called : Text → Option Text → Bool
is_called c none = text_eq (codes "a process") c
is_called c (some name) = text_eq name c

abbrev known_as : Option Text → Option Text
known_as none = none
known_as (some comm) = sanitized comm

-- A process of another mount namespace that has the device mounted, and one that goes by a name.
unfoldable pub holds : Text → Text → Proc → Bool
holds needle own p = has_mount needle p.mountinfo && is_foreign own p.ns

unfoldable pub holds_as : Text → Text → Text → Proc → Bool
unfolding holds
holds_as needle own c p = holds needle own p && is_called c (known_as p.comm)
