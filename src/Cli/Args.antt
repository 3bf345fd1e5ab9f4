-- ===== src/Cli/Args.antt =====
-- internal/cli/run.go: how the commands read their arguments, by the package flag or by parseGetArgs.
-- The package flag is taken as it reads arguments for a set of flags, some of them Boolean.
pub mod Reading
use agentsty.Prelude.{
  ℕ, Bool, true, false, Option, none, some, List, [], ◌∷◌, ◌++◌, Str, codes, str_eq, has_prefix,
  trim_prefix, mem_text, if◌then◌else◌, ◌==◌, Result, ok, err,
}

pub data ArgsError : Type 0 where
  o_requires_a_value : ArgsError

abbrev pub dash_o : Str
dash_o = codes "-o"

abbrev pub dash_o_eq : Str
dash_o_eq = codes "-o="

-- the loop of parseGetArgs: the output and the words read so far, and the arguments left
unfoldable pub get_args : Str → List Str → List Str → Result ArgsError (Str × List Str)
unfolding str_eq has_prefix trim_prefix
get_args output words [] = ok (output, words)
get_args output words (arg ∷ []) =
    if str_eq arg dash_o
    then err o_requires_a_value
    else if has_prefix arg dash_o_eq
    then ok (trim_prefix arg dash_o_eq, words)
    else ok (output, words ++ arg ∷ [])
get_args output words (arg ∷ next ∷ args) =
    let after = get_args next words args in
    let joined = get_args (trim_prefix arg dash_o_eq) words (next ∷ args) in
    let word = get_args output (words ++ arg ∷ []) (next ∷ args) in
    if str_eq arg dash_o then after else if has_prefix arg dash_o_eq then joined else word

-- parseGetArgs
unfoldable pub parse_get_args : List Str → Result ArgsError (Str × List Str)
unfolding get_args
parse_get_args args = get_args [] [] args

-- what the package flag takes an argument for
pub data Token : Type 0 where
  word : Token
  terminator : Token
  bad_syntax : Token
  named : Str → Option Str → Token

abbrev pub named_in_front : ℕ → Str × Option Str → Str × Option Str
named_in_front c (name, value) = (c ∷ name, value)

-- a flag's name, and the value behind its first `=`
unfoldable pub cut_value : Str → Str × Option Str
cut_value [] = ([], none)
cut_value (c ∷ s) = elim (c == b'=') [
  | true ↦ ([], some s)
  | false ↦ named_in_front c (cut_value s)
]

unfoldable pub flag_name : Str → Token
unfolding cut_value
flag_name [] = bad_syntax
flag_name (c ∷ s) =
    let (name, value) = cut_value s in
    if c == b'-' then bad_syntax else if c == b'=' then bad_syntax else named (c ∷ name) value

unfoldable pub flag_token : Str → Token
unfolding flag_name
flag_token [] = word
flag_token (c ∷ []) = word
flag_token (c ∷ d ∷ s) =
    if c == b'-' then if d == b'-' then double s else flag_name (d ∷ s) else word
  where
    double : Str → Token
    double [] = terminator
    double (x ∷ xs) = flag_name (x ∷ xs)

pub data FlagError : Type 0 where
  help_wanted : FlagError
  wrong_syntax : Str → FlagError
  not_defined : Str → FlagError
  needs_argument : Str → FlagError
  invalid_value : Str → Str → FlagError

abbrev unknown : Str → FlagError
unknown name =
    if str_eq name (codes "help")
    then help_wanted
    else if str_eq name (codes "h")
    then help_wanted
    else not_defined name

-- no flag is Boolean
abbrev pub no_bool : Str → Bool
no_bool name = false

-- strconv.ParseBool
unfoldable pub parse_bool : Str → Option Bool
unfolding mem_text
parse_bool s =
    if mem_text s
      (codes "1" ∷ codes "t" ∷ codes "T" ∷ codes "TRUE" ∷ codes "true" ∷ codes "True" ∷ [])
    then some true
    else if mem_text s
        (codes "0" ∷ codes "f" ∷ codes "F" ∷ codes "FALSE" ∷ codes "false" ∷ codes "False" ∷ [])
    then some false
    else none

-- FlagSet.Parse, with the flags as a function from a name to the setting of a value, `none` for a
-- name that is not defined; a setting of a value that is not valid is `none`. A Boolean flag with no
-- value behind `=` is set to true.
module _ {A : Type 0} (is_bool : Str → Bool) (defined : Str → Option (Str → A → Option A)) where
  abbrev set_flag : Str → Str → A → Result FlagError A
  set_flag name value a = elim (defined name) [
    | none ↦ err (unknown name)
    | some set ↦ elim (set value a) [ none ↦ err (invalid_value name value) | some b ↦ ok b ]
  ]

  abbrev no_argument : Str → Result FlagError A
  no_argument name = elim (defined name) [
    | none ↦ err (unknown name)
    | some set ↦ err (needs_argument name)
  ]

  -- a flag with no value behind `=`, at the end of the arguments
  abbrev last_flag : Bool → Str → A → Result FlagError A
  last_flag true name a = set_flag name (codes "true") a
  last_flag false name a = no_argument name

  abbrev then_parse :
      (A → Result FlagError (A × List Str)) → Result FlagError A → Result FlagError (A × List Str)
  then_parse f (ok a) = f a
  then_parse f (err e) = err e

  unfoldable pub parse_flags : A → List Str → Result FlagError (A × List Str)
  unfolding flag_token str_eq
  parse_flags a [] = ok (a, [])
  parse_flags a (arg ∷ []) = elim (flag_token arg) [
    | word ↦ ok (a, arg ∷ [])
    | terminator ↦ ok (a, [])
    | bad_syntax ↦ err (wrong_syntax arg)
    | named name none ↦ then_parse (λ b. ok (b, [])) (last_flag (is_bool name) name a)
    | named name (some value) ↦ then_parse (λ b. ok (b, [])) (set_flag name value a)
  ]
  parse_flags a (arg ∷ next ∷ args) = elim (flag_token arg) [
    | word ↦ ok (a, arg ∷ next ∷ args)
    | terminator ↦ ok (a, next ∷ args)
    | bad_syntax ↦ err (wrong_syntax arg)
    | named name none ↦ elim (is_bool name) [
      | true ↦ then_parse (λ b. parse_flags b (next ∷ args)) (set_flag name (codes "true") a)
      | false ↦ then_parse (λ b. parse_flags b args) (set_flag name next a)
    ]
    | named name (some value) ↦
        then_parse (λ b. parse_flags b (next ∷ args)) (set_flag name value a)
  ]
