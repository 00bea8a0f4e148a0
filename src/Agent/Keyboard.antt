-- ===== src/Agent/Keyboard.antt =====
-- The modifier mapping of agent-rs/src/keyboard.rs. What the host desktop is configured with comes
-- from the desktop's own tools.
pub mod Mapped
use veracage.Base.{
  Text, codes, List, [], ◌∷◌, ◌++◌, map, Bool, false, not, ◌&&◌, Option, none, some, if◌then◌else◌,
  text_eq, contains_text, is_empty, any, keep, trim, split, first_or,
}
use veracage.Agent.Paths.{join}

-- `CHOICES`
abbrev pub choices : List (Text × Text)
choices =
    (codes "system", codes "Host setting")
    ∷ (codes "none", codes "No remapping")
    ∷ (codes "altwin:ctrl_win", codes "Ctrl also acts as Win")
    ∷ (codes "altwin:alt_win", codes "Alt also acts as Win")
    ∷ (codes "altwin:ctrl_alt_win", codes "Ctrl acts as Alt, Alt as Win")
    ∷ (codes "ctrl:swap_lwin_lctl", codes "Swap Left Win and Left Ctrl")
    ∷ (codes "ctrl:swap_lalt_lctl", codes "Swap Left Alt and Left Ctrl")
    ∷ (codes "ctrl:nocaps", codes "Caps Lock as Ctrl")
    ∷ []

-- `MODIFIER_GROUPS`
abbrev pub modifier_groups : List Text
modifier_groups = codes "altwin" ∷ codes "ctrl" ∷ []

-- `is_valid`
unfoldable pub is_valid : Text → Bool
is_valid choice = any (λ c. text_eq c.0 choice) choices

abbrev label_in : Text → List (Text × Text) → Text
label_in choice [] = codes "Host setting"
label_in choice (c ∷ cs) = if text_eq c.0 choice then c.1 else label_in choice cs

-- `label`
unfoldable pub choice_label : Text → Text
choice_label choice = label_in choice choices

-- `HostKeyboard`
pub record HostKeyboard : Type 0 where
  pub model : Text
  pub layout : Text
  pub variant : Text
  pub host_options : Text

-- `host_keyboard`, with the reading of one key of `kxkbrc`.
unfoldable pub host_keyboard : (Text → Option Text) → HostKeyboard
host_keyboard read =
    let or_default : Text → Text = λ key. elim (read key) [ some v ↦ v | none ↦ [] ] in
    let use_it : Bool = elim (read (codes "Use")) [
      | some v ↦ text_eq v (codes "true")
      | none ↦ false
    ] in
    if use_it
    then record {
      model = or_default (codes "Model");
      layout = or_default (codes "LayoutList");
      variant = or_default (codes "VariantList");
      host_options = or_default (codes "Options");
    }
    else record { model = []; layout = []; variant = []; host_options = [] }

-- The group of an XKB option, the text before its first colon.
abbrev pub group_of : Text → Text
group_of opt = first_or [] (split b':' opt)

-- An option of the host that a mapping leaves alone.
unfoldable pub is_kept : Text → Bool
is_kept o = not (is_empty o) && not (contains_text modifier_groups (group_of o))

unfoldable pub kept_options : Text → List Text
unfolding is_kept trim
kept_options host = keep is_kept (map trim (split b',' host))

-- `options_for`
unfoldable pub options_for : Text → Text → Text
unfolding kept_options join
options_for host choice =
    if text_eq choice (codes "system")
    then host
    else join (codes ",")
        (kept_options host ++ (if text_eq choice (codes "none") then [] else choice ∷ []))
