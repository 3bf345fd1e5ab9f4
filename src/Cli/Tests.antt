-- ===== src/Cli/Tests.antt =====
-- Runs of the theorems on the command line client, against a server that answers every request alike.
use agentsty.Prelude.{Option, none, [], ◌∷◌, Str, codes, pos, Result, ok, err, ◌≡◌, ◌↔◌}
use agentsty.Cli.Config.{Config}
use agentsty.Cli.Client.{Outgoing, Answer, no_session, do_request, outgoing}
use agentsty.Cli.Client.Answers.{IsTaken, do_request-ok_iff}
use agentsty.Http.{method_delete}
use agentsty.Cli.Run.Commands.{Services, run}
use agentsty.Cli.Run.Exits.{IsExit, run-IsExit}

abbrev toy_config : Config
toy_config = record { api_server = codes "http://localhost/"; token = codes "user:ann" }

abbrev no_error : Outgoing → Option Str
no_error req = none

abbrev not_found : Outgoing → Result Str Answer
not_found req = ok (record { status = 404; body = ok (codes "not found") })

do_request-ok_example :
    ((do_request no_error not_found toy_config method_delete (codes "/x") none).error ≡ none) ↔ (
      (no_error (outgoing toy_config method_delete (codes "/x") none) ≡ none)
      × IsTaken
          (not_found (outgoing toy_config method_delete (codes "/x") none))
          (do_request no_error not_found toy_config method_delete (codes "/x") none).body)
do_request-ok_example =
    do_request-ok_iff no_error not_found toy_config method_delete (codes "/x") none

abbrev services : Services
services = record {
  parse_duration = λ v. none;
  flag_text = λ name e. name;
  parse_time = λ v. none;
  now = pos 5;
  marshal = λ req. codes "{}";
  decode_session = λ body. ok no_session;
  decode_sessions = λ body. ok [];
  path_escape = λ id. id;
  request_error = no_error;
  exchange = not_found;
  tabulate = λ text. (text, none);
  parse_url = λ url. err (codes "no url");
  attach = λ d. none;
  quote = λ s. s;
}

run-IsExit_example :
    IsExit services toy_config
      (codes "delete")
      (run services toy_config (codes "session" ∷ codes "delete" ∷ codes "sess-1" ∷ []))
run-IsExit_example =
    run-IsExit services toy_config (codes "session" ∷ codes "delete" ∷ codes "sess-1" ∷ [])
