-- ===== src/Helper/Args/RoundTrip.antt =====
-- One canonical form of a command line, with every flag before `--`, and its parse. The launcher writes
-- other forms too: `--passphrase-stdin`, `--backend auto`, and other orders.
use veracage.Base.{
  Text, codes, List, [], ◌∷◌, ◌++◌, Bool, true, false, Option, none, some, text_eq, ◌≡◌, refl, ap,
  ◌∙◌, sym, append_assoc, append-nil,
}
use veracage.Helper.Crypt.{Backend, luks, veracrypt, parse_backend}
use veracage.Helper.Args.{Args, no_args, parse_from, parse_args}

abbrev print_switch : Bool → Text → List Text → List Text
print_switch true flag rest = flag ∷ rest
print_switch false flag rest = rest

abbrev print_value : Option Text → Text → List Text → List Text
print_value (some v) flag rest = flag ∷ v ∷ rest
print_value none flag rest = rest

abbrev backend_name : Option Backend → Option Text
backend_name none = none
backend_name (some luks) = some (codes "luks")
backend_name (some veracrypt) = some (codes "veracrypt")

abbrev print_setenv : List Text → List Text → List Text
print_setenv [] rest = rest
print_setenv (kv ∷ kvs) rest = codes "--setenv" ∷ kv ∷ print_setenv kvs rest

-- One command line for `a`: its flags, and its rest behind `--`.
abbrev pub print_args : Args → List Text
print_args a = print_switch a.spawn_compositor (codes "--spawn-compositor") (
    print_switch a.empty_session (codes "--empty-session") (
      print_value a.source (codes "--source") (
        print_value (backend_name a.backend) (codes "--backend") (
          print_value a.session (codes "--session") (
            print_value a.close_volume (codes "--close-volume") (
              print_value a.exchange (codes "--exchange")
                (print_setenv a.setenv (codes "--" ∷ a.rest))))))))

parse-rest :
    (stdin : Option Text) (a : Args) (rest : List Text)
    → parse_from stdin a (codes "--" ∷ rest) ≡ some (record a { rest = a.rest ++ rest })
unfolding parse_from text_eq
parse-rest stdin a [] = ap (λ r. some (record a { rest = r })) (sym (append-nil a.rest))
parse-rest stdin a (r ∷ rest) = refl

parse-setenv :
    (stdin : Option Text) (a : Args) (kvs rest : List Text)
    → parse_from stdin a (print_setenv kvs (codes "--" ∷ rest))
      ≡ some (record a { setenv = a.setenv ++ kvs; rest = a.rest ++ rest })
unfolding parse_from text_eq
parse-setenv stdin a [] rest =
    parse-rest stdin a rest
    ∙ ap (λ s. some (record a { setenv = s; rest = a.rest ++ rest })) (sym (append-nil a.setenv))
parse-setenv stdin a (kv ∷ kvs) rest =
    parse-setenv stdin (record a { setenv = a.setenv ++ kv ∷ [] }) kvs rest
    ∙ ap (λ s. some (record a { setenv = s; rest = a.rest ++ rest }))
        (append_assoc a.setenv (kv ∷ []) kvs)

parse-spawn :
    (stdin : Option Text) (a : Args) (b : Bool) (rest : List Text)
    → a.spawn_compositor ≡ false
    → parse_from stdin a (print_switch b (codes "--spawn-compositor") rest)
      ≡ parse_from stdin (record a { spawn_compositor = b }) rest
unfolding parse_from text_eq
parse-spawn stdin a true [] e = refl
parse-spawn stdin a true (r ∷ rest) e = refl
parse-spawn stdin a false rest e =
    ap (λ b. parse_from stdin (record a { spawn_compositor = b }) rest) e

parse-empty :
    (stdin : Option Text) (a : Args) (b : Bool) (rest : List Text)
    → a.empty_session ≡ false
    → parse_from stdin a (print_switch b (codes "--empty-session") rest)
      ≡ parse_from stdin (record a { empty_session = b }) rest
unfolding parse_from text_eq
parse-empty stdin a true [] e = refl
parse-empty stdin a true (r ∷ rest) e = refl
parse-empty stdin a false rest e =
    ap (λ b. parse_from stdin (record a { empty_session = b }) rest) e

parse-source :
    (stdin : Option Text) (a : Args) (v : Option Text) (rest : List Text)
    → a.source ≡ none
    → parse_from stdin a (print_value v (codes "--source") rest)
      ≡ parse_from stdin (record a { source = v }) rest
unfolding parse_from text_eq
parse-source stdin a (some v) rest e = refl
parse-source stdin a none rest e = ap (λ s. parse_from stdin (record a { source = s }) rest) e

parse-session :
    (stdin : Option Text) (a : Args) (v : Option Text) (rest : List Text)
    → a.session ≡ none
    → parse_from stdin a (print_value v (codes "--session") rest)
      ≡ parse_from stdin (record a { session = v }) rest
unfolding parse_from text_eq
parse-session stdin a (some v) rest e = refl
parse-session stdin a none rest e = ap (λ s. parse_from stdin (record a { session = s }) rest) e

parse-close_volume :
    (stdin : Option Text) (a : Args) (v : Option Text) (rest : List Text)
    → a.close_volume ≡ none
    → parse_from stdin a (print_value v (codes "--close-volume") rest)
      ≡ parse_from stdin (record a { close_volume = v }) rest
unfolding parse_from text_eq
parse-close_volume stdin a (some v) rest e = refl
parse-close_volume stdin a none rest e =
    ap (λ s. parse_from stdin (record a { close_volume = s }) rest) e

parse-exchange :
    (stdin : Option Text) (a : Args) (v : Option Text) (rest : List Text)
    → a.exchange ≡ none
    → parse_from stdin a (print_value v (codes "--exchange") rest)
      ≡ parse_from stdin (record a { exchange = v }) rest
unfolding parse_from text_eq
parse-exchange stdin a (some v) rest e = refl
parse-exchange stdin a none rest e = ap (λ s. parse_from stdin (record a { exchange = s }) rest) e

parse-backend :
    (stdin : Option Text) (a : Args) (v : Option Backend) (rest : List Text)
    → a.backend ≡ none
    → parse_from stdin a (print_value (backend_name v) (codes "--backend") rest)
      ≡ parse_from stdin (record a { backend = v }) rest
unfolding parse_from parse_backend text_eq
parse-backend stdin a (some luks) rest e = refl
parse-backend stdin a (some veracrypt) rest e = refl
parse-backend stdin a none rest e = ap (λ s. parse_from stdin (record a { backend = s }) rest) e

-- The command line written for an `Args` parses to it, in every field but the passphrase, which
-- comes from standard input.
pub parse_args-print_args :
    (stdin : Option Text) (a : Args)
    → parse_args stdin (print_args a) ≡ some (record a { passphrase = none })
unfolding parse_args
parse_args-print_args stdin a =
    let a1 = record no_args { spawn_compositor = a.spawn_compositor } in
    let a2 = record a1 { empty_session = a.empty_session } in
    let a3 = record a2 { source = a.source } in
    let a4 = record a3 { backend = a.backend } in
    let a5 = record a4 { session = a.session } in
    let a6 = record a5 { close_volume = a.close_volume } in
    let a7 = record a6 { exchange = a.exchange } in
    parse-spawn stdin no_args a.spawn_compositor _ refl
    ∙ parse-empty stdin a1 a.empty_session _ refl
    ∙ parse-source stdin a2 a.source _ refl
    ∙ parse-backend stdin a3 a.backend _ refl
    ∙ parse-session stdin a4 a.session _ refl
    ∙ parse-close_volume stdin a5 a.close_volume _ refl
    ∙ parse-exchange stdin a6 a.exchange _ refl
    ∙ parse-setenv stdin a7 a.setenv a.rest
