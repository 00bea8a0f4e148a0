-- ===== src/Helper/Lock.antt =====
-- The session lock file (helper-rs/src/main.rs): the text that `create_session_lock`,
-- `append_session_volume`, `append_session_lines` and `session_lock_remove` write, and what
-- `lock_generation`, `lock_dms_for_vhash`, `lock_dms_for_source`, `lock_survivors` and
-- `close_all_session_dms` read from it. A body is the content of the file.
pub mod Records
pub mod Removal
pub mod Readers
use veracage.Base.{
  ℕ, ◌+◌, Text, codes, List, [], ◌∷◌, ◌++◌, map, Bool, true, false, ◌&&◌, not, Option, none, some,
  if◌then◌else◌, text_eq, is_empty, get_elem?, strip_prefix, trim, split, lines, first_or, keep,
  filter_map, find_map, to_dec, unlines,
}
use veracage.Helper.Names.{is_veracage_dm}

-- `lock_generation`
abbrev pub generation_of : Text → Option Text
generation_of l = strip_prefix (codes "generation=") l

abbrev pub trimmed : Option Text → Option Text
trimmed none = none
trimmed (some f) = some (trim f)

unfoldable pub lock_generation : Text → Option Text
lock_generation body = trimmed (find_map generation_of (lines body))

abbrev pub header_line : ℕ → Text
header_line uid = codes "user_uid=" ++ to_dec uid

abbrev pub generation_line : Text → Text
generation_line gen = codes "generation=" ++ gen

-- The body that `create_session_lock` writes.
unfoldable pub create_session_lock : ℕ → Text → Text
create_session_lock uid gen = unlines (header_line uid ∷ generation_line gen ∷ [])

abbrev pub tab : ℕ
tab = b'\t'

abbrev pub volume_line : Text → Text → Text → Text → Text
volume_line dm label vhash skey =
    codes "volume=" ++ (dm ++ tab ∷ (label ++ tab ∷ (vhash ++ tab ∷ skey)))

-- The body after `append_session_volume`; a file that was just created is empty.
unfoldable pub append_session_volume : Text → ℕ → Text → Text → Text → Text → Text
append_session_volume body human_uid dm label vhash skey =
    (if is_empty body then unlines (header_line human_uid ∷ []) else body)
    ++ unlines (volume_line dm label vhash skey ∷ [])

abbrev pub volume_of : Text → Option Text
volume_of l = strip_prefix (codes "volume=") l

abbrev pub dm_field : List Text → Text
dm_field fields = trim (first_or [] fields)

abbrev is_field : Text → Option Text → Bool
is_field want none = false
is_field want (some f) = text_eq f want

-- The closures of `lock_dms_for_vhash` and `lock_dms_for_source`, on the fields of a volume line.
abbrev pub vhash_match : Text → List Text → Option Text
vhash_match vhash fields =
    if is_field vhash (get_elem? fields 2) && not (is_empty (dm_field fields))
    then some (dm_field fields)
    else none

abbrev pub source_match : Text → List Text → Option Text
source_match skey fields =
    if is_field skey (trimmed (get_elem? fields 3)) && not (is_empty (dm_field fields))
    then some (dm_field fields)
    else none

-- What a reader takes from one line: nothing, unless it is a `volume=` line.
unfoldable pub on_volume : (List Text → Option Text) → Text → Option Text
on_volume read l = elim (volume_of l) [ some v ↦ read (split tab v) | none ↦ none ]

-- `lock_dms_for_vhash`
unfoldable pub lock_dms_for_vhash : Text → Text → List Text
unfolding on_volume
lock_dms_for_vhash body vhash = filter_map (on_volume (vhash_match vhash)) (lines body)

-- `lock_dms_for_source`
unfoldable pub lock_dms_for_source : Text → Text → List Text
unfolding on_volume
lock_dms_for_source body skey =
    if is_empty skey then [] else filter_map (on_volume (source_match skey)) (lines body)

-- The device of a line that a teardown acts on.
abbrev pub recorded_dm : List Text → Option Text
recorded_dm fields = if is_veracage_dm (dm_field fields) then some (dm_field fields) else none

-- The devices that `close_all_session_dms` walks, in order, before it asks which still exist.
unfoldable pub recorded_dms : Text → List Text
unfolding on_volume
recorded_dms body = filter_map (on_volume recorded_dm) (lines body)

abbrev is_open : (Text → Bool) → Option Text → Bool
is_open still_open none = false
is_open still_open (some dm) = still_open dm

-- `lock_survivors`
unfoldable pub survives : (Text → Bool) → Text → Bool
unfolding on_volume
survives still_open l = is_open still_open (on_volume recorded_dm l)

unfoldable pub lock_survivors : Text → (Text → Bool) → List Text
unfolding survives
lock_survivors body still_open = keep (survives still_open) (lines body)

-- The body after `append_session_lines`.
unfoldable pub append_session_lines : Text → List Text → Text
append_session_lines body ls = body ++ unlines ls

-- The filter of `session_lock_remove`; lines that are no volume stay.
unfoldable pub stays : Text → Text → Bool
stays dm_name l = elim (volume_of l) [
  | some v ↦ not (text_eq (dm_field (split tab v)) dm_name)
  | none ↦ true
]

-- The body that `session_lock_remove` renames into place.
unfoldable pub session_lock_remove : Text → Text → Text
unfolding stays
session_lock_remove body dm_name = unlines (keep (stays dm_name) (lines body))
