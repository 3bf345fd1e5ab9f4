-- ===== src/Cli/Config/Layers.antt =====
-- The layers of a configuration: the environment over the file over the defaults.
use agentsty.Prelude.{
  false, Option, none, some, List, [], ◌∷◌, Str, codes, str_eq, str_eq_iff, if◌then◌else◌, ◌≡◌,
  refl, ap, ◌∙◌, Bool-cases, inl, inr,
}
use agentsty.Cli.Config.{
  Config, entry, set_entry, setting, read_lines, load_config, lines_of, config_path, set_or,
  default_config,
}

-- what an entry makes of the value of a key
abbrev pub taken : Str → Str → Option (Str × Str) → Str
taken key v none = v
taken key v (some (k, w)) = if str_eq k key then w else v

-- the value of a key in the last line that has it, or the given one
unfoldable pub last_value : Str → Str → List Str → Str
unfolding entry str_eq
last_value key v [] = v
last_value key v (line ∷ lines) = last_value key (taken key v (entry line)) lines

server_ne_token : (k : Str) → k ≡ codes "apiServer" → str_eq k (codes "token") ≡ false
unfolding str_eq
server_ne_token k same = ap (λ x. str_eq x (codes "token")) same

set_token :
    (e : Option (Str × Str)) (cfg : Config)
    → (set_entry e cfg).token ≡ taken (codes "token") cfg.token e
unfolding setting
set_token none cfg = refl
set_token (some (k, w)) cfg = elim (Bool-cases (str_eq k (codes "apiServer"))) [
  | inl e ↦ rw (e, server_ne_token k ((str_eq_iff k (codes "apiServer")).0 e)) refl
  | inr e ↦ elim (Bool-cases (str_eq k (codes "token"))) [
    | inl e' ↦ rw (e, e') refl
    | inr e' ↦ rw (e, e') refl
  ]
]

set_server :
    (e : Option (Str × Str)) (cfg : Config)
    → (set_entry e cfg).api_server ≡ taken (codes "apiServer") cfg.api_server e
unfolding setting
set_server none cfg = refl
set_server (some (k, w)) cfg = elim (Bool-cases (str_eq k (codes "apiServer"))) [
  | inl e ↦ rw e refl
  | inr e ↦ elim (Bool-cases (str_eq k (codes "token"))) [
    | inl e' ↦ rw (e, e') refl
    | inr e' ↦ rw (e, e') refl
  ]
]

read_lines-token :
    (lines : List Str) (cfg : Config)
    → (read_lines lines cfg).token ≡ last_value (codes "token") cfg.token lines
unfolding read_lines last_value
read_lines-token [] cfg = refl
read_lines-token (line ∷ lines) cfg =
    read_lines-token lines (set_entry (entry line) cfg)
    ∙ ap (λ v. last_value (codes "token") v lines) (set_token (entry line) cfg)

read_lines-server :
    (lines : List Str) (cfg : Config)
    → (read_lines lines cfg).api_server ≡ last_value (codes "apiServer") cfg.api_server lines
unfolding read_lines last_value
read_lines-server [] cfg = refl
read_lines-server (line ∷ lines) cfg =
    read_lines-server lines (set_entry (entry line) cfg)
    ∙ ap (λ v. last_value (codes "apiServer") v lines) (set_server (entry line) cfg)

module _ (user_home_dir : Option Str) (join : List Str → Str) (open_lines : Str → Option (List Str))
    (getenv : Str → Str) where
  -- Each setting is its environment variable if that is not empty, or else the value of the last line of
  -- the file with its key, or else the default.
  pub load_config-eq-layers :
      (path : Str)
      → let lines =
          lines_of user_home_dir join open_lines getenv
            (config_path user_home_dir join open_lines getenv path) in
        let cfg = load_config user_home_dir join open_lines getenv path in
        (cfg.api_server
          ≡ set_or
              (getenv (codes "CASK_API_SERVER"))
              (last_value (codes "apiServer") (codes "http://127.0.0.1:8080") lines))
        × (cfg.token
            ≡ set_or
                (getenv (codes "CASK_TOKEN"))
                (last_value (codes "token") (codes "dev-token") lines))
  unfolding load_config default_config
  load_config-eq-layers path =
      let lines =
        lines_of user_home_dir join open_lines getenv
          (config_path user_home_dir join open_lines getenv path) in
      (
        ap (set_or (getenv (codes "CASK_API_SERVER"))) (read_lines-server lines default_config),
        ap (set_or (getenv (codes "CASK_TOKEN"))) (read_lines-token lines default_config),
      )
