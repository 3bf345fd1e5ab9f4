-- ===== src/Cli/Run.antt =====
-- internal/cli/run.go: the commands, from the arguments to an exit code and what is written.
pub mod Flags
pub mod Commands
pub mod Exits
use agentsty.Prelude.{
  ℕ, suc, Bool, true, false, Option, none, some, List, [], ◌∷◌, ◌++◌, Str, codes, contains,
  if◌then◌else◌, ◌-◌, ◌*◌, ◌/◌, ◌%◌, ◌+◌, ltb, leb, ℤ, pos, negsuc, sub_ℕ, pos_part, neg_part,
  ltb_ℤ, format_int, Result, ok, err, str_eq, ◌^◌,
}
use agentsty.Http.{Header}
use agentsty.Cli.Config.{Config}
use agentsty.Cli.Args.{ArgsError, FlagError, parse_get_args, parse_flags}
use agentsty.Cli.Client.{
  CreateRequest, Session, Outgoing, Called, Dial, create, list, get, delete, connect, failed,
  Answer, Url,
}

abbrev newline : Str
newline = codes "\n"

-- fmt.Fprintln of one text
abbrev pub println : Str → Str
println s = s ++ newline

-- What a command comes to: its exit code, what it writes to the two streams, the request it sends,
-- and the websocket that it dials.
pub record Exit : Type 0 where
  pub code : ℕ
  pub out : Str
  pub err_out : Str
  pub sent : Option Outgoing
  pub dialled : Option Dial

abbrev pub exit_ok : Option Outgoing → Str → Exit
exit_ok sent out = record { code = 0; out = out; err_out = []; sent = sent; dialled = none }

abbrev pub exit_failed : Option Outgoing → Str → Exit
exit_failed sent e = record { code = 1; out = []; err_out = println e; sent = sent; dialled = none }

-- an exit of a command that has dialled
abbrev pub dialling : Option Dial → Exit → Exit
dialling d x = record x { dialled = d }

-- for what is wrong with the arguments
abbrev pub exit_usage : Str → Exit
exit_usage text = record { code = 2; out = []; err_out = text; sent = none; dialled = none }

abbrev pub usage : Str
usage = println (codes "Usage: caskctl session <create|list|get|connect|delete>")

abbrev id_required : Str
id_required = println (codes "session id required")

-- the flags of session create
pub record CreateFlags : Type 0 where
  pub tool : Str
  pub repo : Str
  pub branch : Str
  pub model : Str
  pub resource : Str
  pub isolation : Str
  pub ttl : ℤ
  pub output : Str

unfoldable pub default_flags : CreateFlags
default_flags = record {
  tool = codes "opencode";
  repo = [];
  branch = codes "main";
  model = codes "default";
  resource = codes "small";
  isolation = codes "default";
  ttl = pos (7200 * 1000000000);
  output = [];
}

-- int64(ttl.Seconds()) of a duration in nanoseconds, which drops the rest towards zero
unfoldable pub whole_seconds : ℤ → ℤ
whole_seconds (pos n) = pos (n / 1000000000)
whole_seconds (negsuc n) = sub_ℕ 0 (suc n / 1000000000)

unfoldable pub create_request : CreateFlags → CreateRequest
unfolding whole_seconds
create_request f = record {
  tool = f.tool;
  repo_url = f.repo;
  branch = f.branch;
  model_ref = f.model;
  resource_profile = f.resource;
  isolation_profile = f.isolation;
  ttl_seconds = whole_seconds f.ttl;
}

-- time.Since, which stops at the ends of int64, for a difference in nanoseconds, rounded to the nearest
-- second, halves away from zero; a second that int64 does not hold gives its end
abbrev rounded : ℕ → ℕ
rounded n = (n + 500000000) / 1000000000 * 1000000000

abbrev at_most : ℕ → ℕ → ℕ
at_most most n = if leb n most then n else most

unfoldable pub since : ℤ → ℤ → ℤ
since now created =
    let ahead = pos_part now + neg_part created in
    let behind = pos_part created + neg_part now in
    if leb behind ahead
    then pos (at_most (2 ^ 63 - 1) (rounded (at_most (2 ^ 63 - 1) (ahead - behind))))
    else sub_ℕ 0 (at_most (2 ^ 63) (rounded (at_most (2 ^ 63) (behind - ahead))))

-- a number of nanoseconds below a minute in whole seconds; below zero it is a negative number
abbrev in_seconds : ℤ → Str
in_seconds (pos n) = format_int (pos (n / 1000000000)) ++ codes "s"
in_seconds (negsuc n) = format_int (sub_ℕ 0 (suc n / 1000000000)) ++ codes "s"

unfoldable pub age_text : ℤ → Str
age_text d =
    if ltb_ℤ d (pos (60 * 1000000000))
    then in_seconds d
    else if ltb_ℤ d (pos (3600 * 1000000000))
    then format_int (pos (pos_part d / (60 * 1000000000))) ++ codes "m"
    else format_int (pos (pos_part d / (3600 * 1000000000))) ++ codes "h"

-- `parse_time` is time.Parse with the layout RFC3339, in nanoseconds.
unfoldable pub age : (Str → Option ℤ) → ℤ → Str → Str
unfolding since age_text
age parse_time now created_at =
    if str_eq created_at [] then codes "-" else elim (parse_time created_at) [
      | none ↦ codes "-"
      | some created ↦ age_text (since now created)
    ]
