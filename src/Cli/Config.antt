-- ===== src/Cli/Config.antt =====
-- internal/cli/config.go: where the client finds the server and its token.
pub mod Layers
pub mod RoundTrip
use agentsty.Prelude.{
  ℕ, Bool, true, false, ◌||◌, Option, none, some, List, [], ◌∷◌, Str, codes, str_eq, has_prefix,
  trim, trim_space, if◌then◌else◌, ◌==◌,
}

pub record Config : Type 0 where
  pub api_server : Str
  pub token : Str

unfoldable pub default_config : Config
default_config = record { api_server = codes "http://127.0.0.1:8080"; token = codes "dev-token" }

unfoldable pub is_quote : ℕ → Bool
is_quote c = c == b'"' || c == 39

abbrev pub in_front : ℕ → Option (Str × Str) → Option (Str × Str)
in_front c none = none
in_front c (some (key, value)) = some (c ∷ key, value)

-- strings.SplitN by the first colon, `none` for a line that strings.Contains says has none
unfoldable pub split_colon : Str → Option (Str × Str)
split_colon [] = none
split_colon (c ∷ s) = elim (c == b':') [ true ↦ some ([], s) | false ↦ in_front c (split_colon s) ]

unfoldable pub setting : Str → Str → Config → Config
unfolding str_eq
setting key value cfg =
    if str_eq key (codes "apiServer")
    then record cfg { api_server = value }
    else if str_eq key (codes "token")
    then record cfg { token = value }
    else cfg

abbrev pub trimmed : Option (Str × Str) → Option (Str × Str)
trimmed none = none
trimmed (some (key, value)) = some (trim_space key, trim is_quote (trim_space value))

-- the key and the value of a line that is trimmed, if it is no comment and has a colon
unfoldable pub entry_of : Str → Option (Str × Str)
unfolding split_colon is_quote trim trim_space str_eq has_prefix
entry_of line =
    if str_eq line [] || has_prefix line (b'#' ∷ []) then none else trimmed (split_colon line)

unfoldable pub entry : Str → Option (Str × Str)
unfolding entry_of trim_space
entry text = entry_of (trim_space text)

abbrev pub set_entry : Option (Str × Str) → Config → Config
set_entry none cfg = cfg
set_entry (some (key, value)) cfg = setting key value cfg

-- the loop over the lines of the file
unfoldable pub read_lines : List Str → Config → Config
unfolding entry setting
read_lines [] cfg = cfg
read_lines (line ∷ lines) cfg = read_lines lines (set_entry (entry line) cfg)

abbrev pub set_or : Str → Str → Str
set_or v other = if str_eq v [] then other else v

-- os.UserHomeDir, filepath.Join, the lines that a bufio.Scanner gives of the file at a path, and
-- os.Getenv are parameters.
module _ (user_home_dir : Option Str) (join : List Str → Str) (open_lines : Str → Option (List Str))
    (getenv : Str → Str) where
  unfoldable pub config_path : Str → Str
  unfolding str_eq
  config_path path = if str_eq path [] then in_home user_home_dir else path
    where
      in_home : Option Str → Str
      in_home none = []
      in_home (some home) = join (home ∷ codes ".caskctl" ∷ codes "config.yaml" ∷ [])

  unfoldable pub lines_of : Str → List Str
  unfolding str_eq
  lines_of path = if str_eq path [] then [] else opened (open_lines path)
    where
      opened : Option (List Str) → List Str
      opened none = []
      opened (some lines) = lines

  unfoldable pub load_config : Str → Config
  unfolding config_path lines_of default_config read_lines str_eq
  load_config path =
      let cfg = read_lines (lines_of (config_path path)) default_config in
      record {
        api_server = set_or (getenv (codes "CASK_API_SERVER")) cfg.api_server;
        token = set_or (getenv (codes "CASK_TOKEN")) cfg.token;
      }
