-- ===== src/Helper/Crypt.antt =====
-- helper-rs/src/crypt.rs: the arguments of `cryptsetup`, and its runs.
use veracage.Base.{Text, codes, List, [], ◌∷◌, Bool, Option, none, some, if◌then◌else◌, text_eq}
use veracage.Helper.Sys.{Call, run, run_fed, Os, M, pure, ◌>>=◌, status, tool, tool_status, success}

pub data Backend : Type 0 where
  luks veracrypt : Backend

-- `Backend::parse`
unfoldable pub parse_backend : Text → Option Backend
parse_backend s =
    if text_eq s (codes "luks")
    then some luks
    else if text_eq s (codes "veracrypt")
    then some veracrypt
    else none

-- `detect`
unfoldable pub detect : Text → M Backend
detect source = do
  st ← tool_status (codes "cryptsetup") (codes "isLuks" ∷ source ∷ [])
  pure (if success st then luks else veracrypt)

-- `open_args`
unfoldable pub open_args : Text → Backend → Text → List Text
open_args source luks dm_name = codes "open" ∷ source ∷ dm_name ∷ []
open_args source veracrypt dm_name =
    codes "--type" ∷ codes "tcrypt" ∷ codes "--veracrypt" ∷ codes "open" ∷ source ∷ dm_name ∷ []

-- The command that `open` runs: with a passphrase, fed on standard input; else on the terminal.
abbrev pub open_call : Os → List Text → Option Text → Call
open_call os args none = run (tool os (codes "cryptsetup")) args
open_call os args (some pass) = run_fed (tool os (codes "cryptsetup")) args pass

-- `open`: whether it returned `Ok`.
unfoldable pub crypt_open : Text → Backend → Text → Option Text → M Bool
crypt_open source backend dm_name passphrase os t =
    (do st ← status (open_call os (open_args source backend dm_name) passphrase); pure (success st))
      os t

abbrev pub close_call : Os → Text → Call
close_call os dm_name = run (tool os (codes "cryptsetup")) (codes "close" ∷ dm_name ∷ [])

-- `close`: whether it returned `Ok`.
unfoldable pub crypt_close : Text → M Bool
crypt_close dm_name os t = (do st ← status (close_call os dm_name); pure (success st)) os t
