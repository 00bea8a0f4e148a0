-- ===== src/Helper/Names.antt =====
-- The names that the helper makes and accepts (helper-rs/src/main.rs): session ids, volume labels,
-- device-mapper names, and the directory of a volume in the workspace.
-- `digest` is SHA-256 of the sha2 crate; a path of the host is the list of its bytes.
pub mod Safe
use veracage.Base.{
  ℕ, zero, suc, ◌+◌, Text, codes, List, [], ◌∷◌, ◌++◌, map, Bool, true, false, ◌&&◌, ◌||◌, not,
  Option, none, some, if◌then◌else◌, leb, ◌==◌, text_eq, byte_len, all, is_digit, is_alphanumeric,
  is_empty, length, take, trim_matches, contains_char, strip_prefix, to_dec, to_hex, is_lower_hex,
}

-- `session_id_ok`
unfoldable pub session_id_ok : Text → Bool
session_id_ok sid = not (is_empty sid) && leb (byte_len sid) 16 && all is_digit sid

-- `check_session_caller`: `none` where it returns, else the exit code of `fail`.
unfoldable pub check_session_caller : Text → ℕ → Option ℕ
unfolding session_id_ok
check_session_caller sid human_uid =
    if not (session_id_ok sid)
    then some 2
    else if not (text_eq sid (to_dec human_uid))
    then some 2
    else none

abbrev pub is_label_char : ℕ → Bool
is_label_char c = is_alphanumeric c || c == b'.' || c == b'_' || c == b'-'

-- The label with every other character mapped to `_`.
abbrev pub replaced : Text → Text
replaced = map (λ c. if is_label_char c then c else b'_')

abbrev pub is_separator : ℕ → Bool
is_separator c = c == b'.' || c == b'_' || c == b'-'

-- `label_ok`
unfoldable pub label_ok : Text → Bool
label_ok s =
    not (is_empty s)
    && leb (byte_len s) 128
    && not (contains_char b'/' s)
    && not (text_eq s (codes "."))
    && not (text_eq s (codes ".."))

-- `is_veracage_dm`
unfoldable pub is_veracage_dm : Text → Bool
is_veracage_dm name = elim (strip_prefix (codes "veracage-") name) [
  | some h ↦ byte_len h == 12 && all is_lower_hex h
  | none ↦ false
]

-- `random_dm_name`, from the six bytes that `random_hex` read.
unfoldable pub random_dm_name : List ℕ → Text
random_dm_name bytes = codes "veracage-" ++ to_hex bytes

-- The search of `workspace_path_in` over `2..1000`: `tries` suffixes are left, the next is `n`.
unfoldable pub find_free : (Text → Bool) → ℕ → ℕ → (ℕ → Text) → Option Text
find_free exists zero n name = none
find_free exists (suc tries) n name = elim (exists (name n)) [
  | true ↦ find_free exists tries (n + 1) name
  | false ↦ some (name n)
]

-- `root.join(base)` for a root with no slash at its end.
abbrev pub join_path : Text → Text → Text
join_path root base = root ++ b'/' ∷ base

abbrev pub suffixed : Text → ℕ → Text
suffixed base n = base ++ b'-' ∷ to_dec n

module _ (digest : List ℕ → List ℕ) where
  -- `vault_hash`
  unfoldable pub vault_hash : List ℕ → Text
  vault_hash p = to_hex (take 8 (digest p))

  -- What `sanitize_label` does with the trimmed name.
  unfoldable pub or_vault : Text → List ℕ → Text
  unfolding vault_hash
  or_vault trimmed source =
      if is_empty trimmed || text_eq trimmed (codes ".") || text_eq trimmed (codes "..")
      then codes "vault-" ++ vault_hash source
      else trimmed

  -- `sanitize_label`
  unfoldable pub sanitize_label : Text → List ℕ → Text
  unfolding or_vault
  sanitize_label label source =
      or_vault (trim_matches is_separator (take 64 (replaced label))) source

  -- `workspace_path_in`, as the name of the directory under `root`; `exists` is the file system's
  -- answer for a path.
  unfoldable pub workspace_name : (Text → Bool) → Text → Text → List ℕ → Text
  unfolding sanitize_label find_free
  workspace_name exists root label source =
      let base = sanitize_label label source in
      if not (exists (join_path root base))
      then base
      else elim (find_free (λ s. exists (join_path root s)) 998 2 (suffixed base)) [
        | some name ↦ name
        | none ↦ base
      ]
