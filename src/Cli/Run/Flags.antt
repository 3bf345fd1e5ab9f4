-- ===== src/Cli/Run/Flags.antt =====
-- internal/cli/run.go: the flags of the commands.
use agentsty.Prelude.{Option, none, some, Str, codes, if◌then◌else◌, ℤ, str_eq}
use agentsty.Cli.Run.{CreateFlags}

-- the values of the flags of session create, by their names
unfoldable pub create_flag :
    (Str → Option ℤ) → Str → Option (Str → CreateFlags → Option CreateFlags)
unfolding str_eq
create_flag parse_duration name =
    if str_eq name (codes "tool")
    then some (λ v f. some (record f { tool = v }))
    else if str_eq name (codes "repo")
    then some (λ v f. some (record f { repo = v }))
    else if str_eq name (codes "branch")
    then some (λ v f. some (record f { branch = v }))
    else if str_eq name (codes "model")
    then some (λ v f. some (record f { model = v }))
    else if str_eq name (codes "resource")
    then some (λ v f. some (record f { resource = v }))
    else if str_eq name (codes "isolation")
    then some (λ v f. some (record f { isolation = v }))
    else if str_eq name (codes "ttl")
    then some (λ v f. with_ttl f (parse_duration v))
    else if str_eq name (codes "o")
    then some (λ v f. some (record f { output = v }))
    else none
  where
    with_ttl : CreateFlags → Option ℤ → Option CreateFlags
    with_ttl f none = none
    with_ttl f (some d) = some (record f { ttl = d })

-- the one flag of session list
unfoldable pub output_flag : Str → Option (Str → Str → Option Str)
unfolding str_eq
output_flag name = if str_eq name (codes "o") then some (λ v f. some v) else none

-- no flags
unfoldable pub no_flag : Str → Option (Str → Str → Option Str)
no_flag name = none
