-- ===== src/Cli/Run/Commands.antt =====
-- internal/cli/run.go: session create, list, get, delete and connect, and the choice among them.
use agentsty.Prelude.{
  Bool, true, false, Option, none, some, List, [], ◌∷◌, ◌++◌, Str, codes, contains, ◌||◌,
  if◌then◌else◌, ℤ, Result, ok, err, str_eq,
}
use agentsty.Cli.Config.{Config}
use agentsty.Cli.Args.{FlagError, parse_get_args, parse_flags, no_bool}
use agentsty.Cli.Client.{
  CreateRequest, Session, Outgoing, create, list, get, delete, Dial, Connected, connect, Answer,
  Url,
}
use agentsty.Cli.Run.Flags.{create_flag, output_flag, no_flag}
use agentsty.Cli.Run.{
  Exit, exit_ok, exit_failed, dialling, exit_usage, usage, println, id_required, default_flags,
  create_request, age,
}

-- What the commands use of the packages flag, time, encoding/json, net/url, net/http, text/tabwriter and
-- gorilla/websocket, and the verb %q.
pub record Services : Type 0 where
  pub parse_duration : Str → Option ℤ
  pub flag_text : Str → FlagError → Str
  pub parse_time : Str → Option ℤ
  pub now : ℤ
  pub marshal : CreateRequest → Str
  pub decode_session : Str → Result Str Session
  pub decode_sessions : Str → Result Str (List Session)
  pub path_escape : Str → Str
  pub request_error : Outgoing → Option Str
  pub exchange : Outgoing → Result Str Answer
  -- the table of a text with tabs, and the error of Flush
  pub tabulate : Str → Str × Option Str
  pub parse_url : Str → Result Str Url
  pub attach : Dial → Option Str
  pub quote : Str → Str

-- json output writes the body as it is
abbrev pub shown : Str → Option Outgoing → Str → Str → Exit
shown output sent body text =
    if str_eq output (codes "json") then exit_ok sent body else exit_ok sent text

-- the id of the commands that take exactly one argument
abbrev pub only_id : List Str → Option Str
only_id [] = none
only_id (id ∷ []) = some id
only_id (id ∷ _ ∷ _) = none

abbrev bool_text : Bool → Str
bool_text true = codes "true"
bool_text false = codes "false"

abbrev tab : Str
tab = codes "\t"

module _ (s : Services) (cfg : Config) where
  unfoldable pub run_create : List Str → Exit
  unfolding parse_flags create_flag default_flags create_request create str_eq
  run_create args = elim (parse_flags no_bool (create_flag s.parse_duration) default_flags args) [
    | err e ↦ exit_usage (s.flag_text (codes "session create") e)
    | ok (f, rest) ↦
        let c =
          create s.request_error s.exchange s.decode_session s.marshal cfg (create_request f) in
        elim c.error [
          | some e ↦ exit_failed c.sent e
          | none ↦
              shown f.output c.sent c.body
                (codes "ID: " ++ c.value.id ++ codes "\nPhase: " ++ c.value.phase ++ codes "\n")
        ]
  ]

  unfoldable pub row : Session → Str
  unfolding age
  row item = println (
      item.id
      ++ tab
      ++ item.tool
      ++ tab
      ++ item.phase
      ++ tab
      ++ item.isolation_profile
      ++ tab
      ++ age s.parse_time s.now item.created_at)

  unfoldable pub rows : List Session → Str
  unfolding row
  rows [] = []
  rows (item ∷ items) = row item ++ rows items

  abbrev pub flushed : Option Outgoing → Str × Option Str → Exit
  flushed sent (text, none) = exit_ok sent text
  flushed sent (text, some e) = record {
    code = 1;
    out = text;
    err_out = println e;
    sent = sent;
    dialled = none;
  }

  unfoldable pub run_list : List Str → Exit
  unfolding parse_flags output_flag list rows str_eq
  run_list args = elim (parse_flags no_bool output_flag [] args) [
    | err e ↦ exit_usage (s.flag_text (codes "session list") e)
    | ok (output, rest) ↦
        let c = list s.request_error s.exchange s.decode_sessions cfg in
        elim c.error [
          | some e ↦ exit_failed c.sent e
          | none ↦
              if str_eq output (codes "json")
              then exit_ok c.sent c.body
              else flushed c.sent
                  (s.tabulate (println (codes "ID\tTOOL\tPHASE\tISOLATION\tAGE") ++ rows c.value))
        ]
  ]

  unfoldable pub run_get : List Str → Exit
  unfolding parse_get_args get str_eq
  run_get args = elim (parse_get_args args) [
    | err e ↦ exit_usage (println (codes "-o requires a value"))
    | ok (output, words) ↦ elim (only_id words) [
      | none ↦ exit_usage id_required
      | some id ↦
          let c = get s.request_error s.exchange s.path_escape s.decode_session cfg id in
          elim c.error [
            | some e ↦ exit_failed c.sent e
            | none ↦ shown output c.sent c.body (
                codes "ID: "
                ++ c.value.id
                ++ codes "\nPhase: "
                ++ c.value.phase
                ++ codes "\nTool: "
                ++ c.value.tool
                ++ codes "\nIsolation: "
                ++ c.value.isolation_profile
                ++ codes "\nTerminalReady: "
                ++ bool_text c.value.terminal_ready
                ++ newline_text)
          ]
    ]
  ]
    where
      newline_text : Str
      newline_text = codes "\n"

  unfoldable pub run_delete : List Str → Exit
  unfolding parse_flags no_flag delete
  run_delete args = elim (parse_flags no_bool no_flag [] args) [
    | err e ↦ exit_usage (s.flag_text (codes "session delete") e)
    | ok (_, words) ↦ elim (only_id words) [
      | none ↦ exit_usage id_required
      | some id ↦
          let c = delete s.request_error s.exchange s.path_escape cfg id in
          elim c.error [
            | some e ↦ exit_failed c.sent e
            | none ↦ exit_ok c.sent (println (codes "deleted: " ++ id))
          ]
    ]
  ]

  -- the end of a connection; what is written while it lasts is that of the websocket
  abbrev pub connected : Connected → Exit
  connected c = elim c.error [
    | none ↦ dialling c.dialled (exit_ok none [])
    | some e ↦
        if contains e (codes "normal")
        then dialling c.dialled (exit_ok none [])
        else dialling c.dialled (exit_failed none e)
  ]

  unfoldable pub run_connect : List Str → Exit
  unfolding parse_flags no_flag connect contains
  run_connect args = elim (parse_flags no_bool no_flag [] args) [
    | err e ↦ exit_usage (s.flag_text (codes "session connect") e)
    | ok (_, words) ↦ elim (only_id words) [
      | none ↦ exit_usage id_required
      | some id ↦ connected (connect s.parse_url s.attach s.path_escape cfg id)
    ]
  ]

  unfoldable pub run_session : Str → List Str → Exit
  unfolding run_create run_list run_get run_delete run_connect str_eq
  run_session command args =
      if str_eq command (codes "create")
      then run_create args
      else if str_eq command (codes "list")
      then run_list args
      else if str_eq command (codes "get")
      then run_get args
      else if str_eq command (codes "delete")
      then run_delete args
      else if str_eq command (codes "connect")
      then run_connect args
      else exit_usage (println (codes "unknown session command " ++ s.quote command))

  -- Run, its configuration loaded
  unfoldable pub run : List Str → Exit
  unfolding run_session str_eq
  run [] = exit_ok none usage
  run (arg ∷ args) =
      if str_eq arg (codes "--help") || str_eq arg (codes "-h")
      then exit_ok none usage
      else if str_eq arg (codes "session")
      then with_command args
      else expected
    where
      expected : Exit
      expected = exit_usage (println (codes "expected session command") ++ usage)

      with_command : List Str → Exit
      with_command [] = expected
      with_command (command ∷ rest) = run_session command rest
