-- ===== src/Agent/Paths.antt =====
-- Paths and small text helpers of agent-rs/src that the other parts share: `exec_basename`
-- (config.rs), `base` and `comm_matches` (broker.rs).
use veracage.Base.{
  Text, codes, List, [], ◌∷◌, ◌++◌, Bool, true, false, not, ◌&&◌, ◌||◌, Option, none, some,
  if◌then◌else◌, text_eq, is_empty, split, keep, byte_len, strip_prefix, ◌==◌,
}

-- A component that `Path::components` keeps: neither empty nor `.`.
abbrev is_component : Text → Bool
unfolding text_eq
is_component t = not (is_empty t) && not (text_eq t (codes "."))

-- The last component, unless it is `..`.
unfoldable pub last_name : List Text → Option Text
unfolding text_eq
last_name [] = none
last_name (n ∷ []) = if text_eq n (codes "..") then none else some n
last_name (n ∷ m ∷ ns) = last_name (m ∷ ns)

-- `Path::file_name`
unfoldable pub file_name : Text → Option Text
unfolding last_name
file_name path = last_name (keep is_component (split b'/' path))

-- `exec_basename`, and `base` of the broker: the name, or the whole path where there is none.
unfoldable pub exec_basename : Text → Text
unfolding file_name
exec_basename exec = elim (file_name exec) [ some n ↦ n | none ↦ exec ]

abbrev pub is_some {ℓ} : {A : Type ℓ} → Option A → Bool
is_some none = false
is_some (some a) = true

-- `comm_matches`: a command name of /proc is cut at 15 characters.
unfoldable pub comm_matches : Text → Text → Bool
comm_matches comm full =
    text_eq full comm || byte_len comm == 15 && is_some (strip_prefix comm full)

-- `join` of texts with a separator.
unfoldable pub join : Text → List Text → Text
join sep [] = []
join sep (t ∷ []) = t
join sep (t ∷ u ∷ ts) = t ++ (sep ++ join sep (u ∷ ts))

abbrev is_slash_first : Text → Bool
is_slash_first [] = false
is_slash_first (c ∷ cs) = c == b'/'

abbrev ends_in_slash : Text → Bool
ends_in_slash [] = false
ends_in_slash (c ∷ []) = c == b'/'
ends_in_slash (c ∷ d ∷ cs) = ends_in_slash (d ∷ cs)

-- `Path::join`: an absolute second part stands for itself.
unfoldable pub path_join : Text → Text → Text
path_join base_path rest =
    if is_slash_first rest || is_empty base_path
    then rest
    else if ends_in_slash base_path
    then base_path ++ rest
    else base_path ++ b'/' ∷ rest
