-- ===== src/Cli/Run/Exits.antt =====
-- The exits of the commands.
use agentsty.Prelude.{
  Bool, true, false, Option, none, some, List, [], ◌∷◌, Str, codes, contains, ◌||◌, if◌then◌else◌,
  Result, ok, err, str_eq, str_eq_iff, Bool-cases, inl, inr, sym, subst, ◌≡◌, refl, ◌++◌, lookup,
}
use agentsty.Http.{values, bearer, authorization, method_delete, method_get, method_post}
use agentsty.Cli.Config.{Config}
use agentsty.Cli.Args.{parse_get_args, parse_flags, no_bool}
use agentsty.Cli.Client.{
  Outgoing, create, list, get, delete, connect, do_session, do_request, no_session, Dial, Connected,
  Url, base_url, connect_to, terminal_url, decoded, session_path, sessions_path,
}
use agentsty.Cli.Client.Answers.{IsSent, do_request-IsSent, decoded_sent}
use agentsty.Cli.Run.{
  Exit, exit_ok, exit_failed, dialling, exit_usage, println, default_flags, create_request,
}
use agentsty.Cli.Run.Flags.{no_flag, create_flag, output_flag}
use agentsty.Cli.Run.Commands.{
  Services, shown, only_id, flushed, run, run_session, run_create, run_list, run_get, run_delete,
  run_connect, connected,
}

-- the command's call of the API: to create a session, to list them, to show one, to delete one
pub data IsCall (path_escape : Str → Str) (command : Str) : Str → Str → Type 0 where
  creating :
      command ≡ codes "create" → IsCall path_escape command method_post (codes "/api/v1/sessions")
  listing :
      command ≡ codes "list" → IsCall path_escape command method_get (codes "/api/v1/sessions")
  showing :
      (id : Str)
      → command ≡ codes "get"
      → IsCall path_escape command method_get (codes "/api/v1/sessions/" ++ path_escape id)
  deleting :
      (id : Str)
      → command ≡ codes "delete"
      → IsCall path_escape command method_delete (codes "/api/v1/sessions/" ++ path_escape id)

-- A websocket is dialled with the configured token, for the terminal of a session at the configured
-- server.
pub data IsDialled (parse_url : Str → Result Str Url) (path_escape : Str → Str) (cfg : Config)
    : Option Dial → Type 0 where
  no_dial : IsDialled parse_url path_escape cfg none
  dialled :
      {d : Dial} (base : Url) (id : Str)
      → parse_url (base_url cfg) ≡ ok base
      → d.url.host ≡ base.host
      → d.url.path ≡ codes "/api/v1/sessions/" ++ path_escape id ++ codes "/terminal"
      → values authorization d.header ≡ (bearer ++ cfg.token) ∷ []
      → IsDialled parse_url path_escape cfg (some d)

-- A good exit writes no error. A failed one ends its errors with a line's end. Arguments that are not
-- understood send and dial nothing.
pub data IsExit (s : Services) (cfg : Config) (command : Str) : Exit → Type 0 where
  good :
      {method path : Str} {sent : Option Outgoing} {out : Str}
      → IsCall s.path_escape command method path
      → IsSent cfg method path sent
      → IsExit s cfg command (exit_ok sent out)
  bad :
      {method path : Str} {sent : Option Outgoing} {out : Str} (e : Str)
      → IsCall s.path_escape command method path
      → IsSent cfg method path sent
      → IsExit s cfg command
          (record { code = 1; out = out; err_out = println e; sent = sent; dialled = none })
  shown_only : {out : Str} → IsExit s cfg command (exit_ok none out)
  hung_up :
      {d : Option Dial}
      → command ≡ codes "connect"
      → IsDialled s.parse_url s.path_escape cfg d
      → IsExit s cfg command (dialling d (exit_ok none []))
  broken :
      {d : Option Dial} (e : Str)
      → command ≡ codes "connect"
      → IsDialled s.parse_url s.path_escape cfg d
      → IsExit s cfg command (dialling d (exit_failed none e))
  misused : {text : Str} → IsExit s cfg command (exit_usage text)

module _ (s : Services) (cfg : Config) (command : Str) where
  choice-IsExit :
      (b : Bool) {x y : Exit}
      → IsExit s cfg command x
      → IsExit s cfg command y
      → IsExit s cfg command (if b then x else y)
  choice-IsExit true hx hy = hx
  choice-IsExit false hx hy = hy

  -- the choice of a command by its name
  chosen-IsExit :
      (name : Str) {x y : Exit}
      → (command ≡ name → IsExit s cfg command x)
      → IsExit s cfg command y
      → IsExit s cfg command (if str_eq command name then x else y)
  chosen-IsExit name hx hy = elim (Bool-cases (str_eq command name)) [
    | inl e ↦ rw e (hx ((str_eq_iff _ _).0 e))
    | inr e ↦ rw e hy
  ]

  -- the end of a command whose arguments were parsed
  parsed-IsExit :
      {E B : Type 0} (usage_text : E → Str) (go : B → Exit) (r : Result E B)
      → ((b : B) → IsExit s cfg command (go b))
      → IsExit s cfg command (elim r [ err e ↦ exit_usage (usage_text e) | ok b ↦ go b ])
  parsed-IsExit usage_text go (err e) h = misused
  parsed-IsExit usage_text go (ok b) h = h b

  -- the end of a command that takes one id
  id-IsExit :
      (text : Str) (go : Str → Exit) (o : Option Str)
      → ((id : Str) → IsExit s cfg command (go id))
      → IsExit s cfg command (elim o [ none ↦ exit_usage text | some id ↦ go id ])
  id-IsExit text go none h = misused
  id-IsExit text go (some id) h = h id

  module _ (is_connect : command ≡ codes "connect") where
    error-IsExit :
        (d : Option Dial) (e : Option Str)
        → IsDialled s.parse_url s.path_escape cfg d
        → IsExit s cfg command (connected s cfg (record { dialled = d; error = e }))
    error-IsExit d none h = hung_up is_connect h
    error-IsExit d (some e) h =
        choice-IsExit (contains e (codes "normal")) (hung_up is_connect h) (broken e is_connect h)

    connected-IsExit :
        (c : Connected)
        → IsDialled s.parse_url s.path_escape cfg c.dialled
        → IsExit s cfg command (connected s cfg c)
    connected-IsExit c h = error-IsExit c.dialled c.error h

  connect_to-IsDialled :
      (id : Str) (r : Result Str Url)
      → s.parse_url (base_url cfg) ≡ r
      → IsDialled s.parse_url s.path_escape cfg
          (connect_to s.parse_url s.attach s.path_escape cfg id r).dialled
  unfolding terminal_url values lookup str_eq
  connect_to-IsDialled id (err e) parsed = no_dial
  connect_to-IsDialled id (ok base) parsed = dialled base id parsed refl refl refl

  module _ (method path : Str) (call : IsCall s.path_escape command method path) where
    shown-IsExit :
        (output : Str) {sent : Option Outgoing} (body text : Str)
        → IsSent cfg method path sent
        → IsExit s cfg command (shown output sent body text)
    shown-IsExit output body text sent =
        choice-IsExit (str_eq output (codes "json")) (good call sent) (good call sent)

    -- the end of a command that made a call
    called-IsExit :
        {sent : Option Outgoing} (error : Option Str) {x : Exit}
        → IsSent cfg method path sent
        → IsExit s cfg command x
        → IsExit s cfg command (elim error [ some e ↦ exit_failed sent e | none ↦ x ])
    called-IsExit (some e) sent h = bad e call sent
    called-IsExit none sent h = h

    flushed-IsExit :
        {sent : Option Outgoing} (table : Str) (e : Option Str)
        → IsSent cfg method path sent
        → IsExit s cfg command (flushed s cfg sent (table, e))
    flushed-IsExit table none sent = good call sent
    flushed-IsExit table (some e) sent = bad e call sent

  decoded-IsSent :
      {A : Type 0} (z : A) (decode : Str → Result Str A) (method path : Str) (payload : Option Str)
      → IsSent cfg method path
          (decoded z decode (do_request s.request_error s.exchange cfg method path payload)).sent
  decoded-IsSent z decode method path payload =
      let c = do_request s.request_error s.exchange cfg method path payload in
      subst (IsSent cfg method path) (sym (decoded_sent z decode c c.error))
        (do_request-IsSent s.request_error s.exchange cfg method path payload)

  session-IsSent :
      (method path : Str) (payload : Option Str)
      → IsSent cfg method path
          (do_session s.request_error s.exchange s.decode_session cfg method path payload).sent
  unfolding do_session
  session-IsSent method path payload =
      decoded-IsSent no_session s.decode_session method path payload

  run_connect-IsExit :
      command ≡ codes "connect" → (args : List Str) → IsExit s cfg command (run_connect s cfg args)
  unfolding run_connect connect
  run_connect-IsExit is_it args =
      parsed-IsExit _ _ (parse_flags no_bool no_flag [] args) (λ (_, words).
        id-IsExit _ _ (only_id words) (λ id.
          connected-IsExit is_it (connect s.parse_url s.attach s.path_escape cfg id)
            (connect_to-IsDialled id (s.parse_url (base_url cfg)) refl)))

  run_delete-IsExit :
      command ≡ codes "delete" → (args : List Str) → IsExit s cfg command (run_delete s cfg args)
  unfolding run_delete delete session_path
  run_delete-IsExit is_it args =
      parsed-IsExit _ _ (parse_flags no_bool no_flag [] args) (λ (_, words).
        id-IsExit _ _ (only_id words) (λ id.
          let path = session_path s.request_error s.exchange s.path_escape id in
          let c = delete s.request_error s.exchange s.path_escape cfg id in
          let sent = do_request-IsSent s.request_error s.exchange cfg method_delete path none in
          called-IsExit method_delete path (deleting id is_it) c.error sent
            (good (deleting id is_it) sent)))

  run_get-IsExit :
      command ≡ codes "get" → (args : List Str) → IsExit s cfg command (run_get s cfg args)
  unfolding run_get get do_session session_path
  run_get-IsExit is_it args = parsed-IsExit _ _ (parse_get_args args) (λ (output, words).
      id-IsExit _ _ (only_id words) (λ id.
        let path = session_path s.request_error s.exchange s.path_escape id in
        let c = get s.request_error s.exchange s.path_escape s.decode_session cfg id in
        let sent = session-IsSent method_get path none in
        called-IsExit method_get path (showing id is_it) c.error sent
          (shown-IsExit method_get path (showing id is_it) output _ _ sent)))

  run_create-IsExit :
      command ≡ codes "create" → (args : List Str) → IsExit s cfg command (run_create s cfg args)
  unfolding run_create create do_session
  run_create-IsExit is_it args =
      parsed-IsExit _ _ (parse_flags no_bool (create_flag s.parse_duration) default_flags args)
        (λ (f, rest).
          let c =
            create s.request_error s.exchange s.decode_session s.marshal cfg (create_request f) in
          let sent =
            session-IsSent method_post sessions_path (some (s.marshal (create_request f))) in
          called-IsExit method_post sessions_path (creating is_it) c.error sent
            (shown-IsExit method_post sessions_path (creating is_it) f.output _ _ sent))

  run_list-IsExit :
      command ≡ codes "list" → (args : List Str) → IsExit s cfg command (run_list s cfg args)
  unfolding run_list list
  run_list-IsExit is_it args =
      parsed-IsExit _ _ (parse_flags no_bool output_flag [] args) (λ (output, rest).
        let c = list s.request_error s.exchange s.decode_sessions cfg in
        let sent = decoded-IsSent [] s.decode_sessions method_get sessions_path none in
        called-IsExit method_get sessions_path (listing is_it) c.error sent (
          choice-IsExit (str_eq output (codes "json")) (good (listing is_it) sent)
            (flushed-IsExit method_get sessions_path (listing is_it) _ _ sent)))

  run_session-IsExit : (args : List Str) → IsExit s cfg command (run_session s cfg command args)
  unfolding run_session
  run_session-IsExit args =
      chosen-IsExit (codes "create") (λ e. run_create-IsExit e args)
        (chosen-IsExit (codes "list") (λ e. run_list-IsExit e args)
          (chosen-IsExit (codes "get") (λ e. run_get-IsExit e args)
            (chosen-IsExit (codes "delete") (λ e. run_delete-IsExit e args)
              (chosen-IsExit (codes "connect") (λ e. run_connect-IsExit e args) misused))))

-- the command: the second argument
abbrev pub command_of : List Str → Str
command_of (_ ∷ command ∷ _) = command
command_of _ = []

module _ (s : Services) (cfg : Config) where
  -- Whatever the arguments: a run exits 0 with nothing on the error stream, 1 with an error there, or
  -- 2 having sent and dialled nothing. What it sends is the call of the API that belongs to its
  -- command, create, list, get or delete, with the call's method and path, to the configured server
  -- with the configured token. Only connect dials, the terminal of a session, at the configured
  -- server's host, with that token.
  pub run-IsExit : (args : List Str) → IsExit s cfg (command_of args) (run s cfg args)
  unfolding run
  run-IsExit [] = shown_only
  run-IsExit (arg ∷ []) =
      choice-IsExit s cfg _ (str_eq arg (codes "--help") || str_eq arg (codes "-h")) shown_only
        (choice-IsExit s cfg _ (str_eq arg (codes "session")) misused misused)
  run-IsExit (arg ∷ command ∷ rest) =
      choice-IsExit s cfg _ (str_eq arg (codes "--help") || str_eq arg (codes "-h")) shown_only (
        choice-IsExit s cfg _ (str_eq arg (codes "session")) (run_session-IsExit s cfg command rest)
          misused)
