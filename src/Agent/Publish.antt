-- ===== src/Agent/Publish.antt =====
-- The small files of the publish directory that the compositor scans (agent-rs/src/broker.rs). A file
-- is its text, none while it does not exist; the temporary file beside it is not modelled.
use veracage.Base.{
  Text, codes, List, [], ◌∷◌, ◌++◌, Bool, true, false, not, ◌&&◌, Option, some, if◌then◌else◌,
  is_control, keep, take, to_dec, byte_len, ltb, is_empty, contains_char, text_eq, map, unlines,
}
use veracage.Agent.Config.{DefaultSection, App}
use veracage.Agent.Keyboard.{HostKeyboard, options_for}

-- What the system does: whether the directory is there, and the temporary file is written and
-- renamed.
pub record Disk : Type 0 where
  pub is_dir : Bool
  pub written : Bool
  pub renamed : Bool

-- Writing a temporary file and renaming it over the published one.
unfoldable pub replace_file : Disk → Text → Option Text → Option Text
replace_file disk body old = if disk.written && disk.renamed then some body else old

unfoldable pub publish_file : Disk → Text → Option Text → Option Text
unfolding replace_file
publish_file disk body old = if disk.is_dir then replace_file disk body old else old

abbrev pub flag : Bool → Text
flag true = codes "1"
flag false = codes "0"

-- `publish_autodismount`
unfoldable pub publish_autodismount : Disk → DefaultSection → Option Text → Option Text
unfolding publish_file to_dec
publish_autodismount disk cfg old = publish_file disk (to_dec cfg.auto_dismount ++ 10 ∷ []) old

-- `publish_clipclear`
unfoldable pub publish_clipclear : Disk → DefaultSection → Option Text → Option Text
unfolding publish_file to_dec
publish_clipclear disk cfg old =
    publish_file disk (flag cfg.clip_clear ++ 10 ∷ to_dec cfg.clip_clear_timeout ++ 10 ∷ []) old

-- `publish_theme`
unfoldable pub publish_theme : Disk → DefaultSection → Option Text → Option Text
unfolding publish_file
publish_theme disk cfg old = publish_file disk (cfg.theme ++ 10 ∷ []) old

abbrev pub keyboard_body : HostKeyboard → Text → Text
keyboard_body host options =
    host.model ++ 10 ∷ host.layout ++ 10 ∷ host.variant ++ 10 ∷ options ++ 10 ∷ []

-- `publish_keyboard`, with the keyboard of the host.
unfoldable pub publish_keyboard : Disk → HostKeyboard → DefaultSection → Option Text → Option Text
unfolding publish_file options_for
publish_keyboard disk host cfg old =
    publish_file disk (keyboard_body host (options_for host.host_options cfg.modifier_keys)) old

-- A key that can be a file name and the suffix of a verb.
unfoldable pub sane : Text → Bool
unfolding byte_len contains_char text_eq
sane k =
    not (is_empty k)
    && not (ltb 64 (byte_len k))
    && not (contains_char b'/' k)
    && not (text_eq k (codes ".."))

unfoldable pub clean_name : Text → Text
unfolding is_control
clean_name n = take 128 (keep (λ c. not (is_control c)) n)

unfoldable pub app_row : App → Text
unfolding clean_name
app_row a = a.key ++ 9 ∷ clean_name a.name

unfoldable pub apps_body : List App → Text
unfolding sane app_row
apps_body apps = unlines (map app_row (keep (λ a. sane a.key) apps))

-- The list of `publish_apps`.
unfoldable pub publish_apps : Disk → List App → Option Text → Option Text
unfolding publish_file apps_body
publish_apps disk apps old = publish_file disk (apps_body apps) old
