-- ===== src/Cli/Client.antt =====
-- internal/cli/client.go: the requests of the client, one at a time, and what their answers come to.
-- The package encoding/json, url.PathEscape, url.Parse, what http.NewRequest finds wrong with a URL,
-- the exchange with the server and the websocket of Connect are parameters.
pub mod Answers
use agentsty.Prelude.{
  ℕ, Bool, true, false, Option, none, some, List, [], ◌∷◌, ◌++◌, Str, codes, trim_space, trim_right,
  if◌then◌else◌, ◌==◌, leb, ℤ, Result, ok, err, str_eq,
}
use agentsty.Http.{Header, set, bearer, authorization, method_get, method_post, method_delete}
use agentsty.Cli.Config.{Config}

pub record CreateRequest : Type 0 where
  pub tool : Str
  pub repo_url : Str
  pub branch : Str
  pub model_ref : Str
  pub resource_profile : Str
  pub isolation_profile : Str
  pub ttl_seconds : ℤ

pub record Session : Type 0 where
  pub id : Str
  pub phase : Str
  pub reason : Str
  pub message : Str
  pub tool : Str
  pub model_ref : Str
  pub resource_profile : Str
  pub isolation_profile : Str
  pub terminal_ready : Bool
  pub created_at : Str
  pub expires_at : Str
  pub terminal_url : Str

-- Session{}
abbrev pub no_session : Session
no_session = record {
  id = [];
  phase = [];
  reason = [];
  message = [];
  tool = [];
  model_ref = [];
  resource_profile = [];
  isolation_profile = [];
  terminal_ready = false;
  created_at = [];
  expires_at = [];
  terminal_url = [];
}

-- a request as http.Client.Do takes it
pub record Outgoing : Type 0 where
  pub method : Str
  pub url : Str
  pub header : Header
  pub body : Option Str

-- What an exchange comes to: an error of client.Do, or a status and the body, which may not be readable.
pub record Answer : Type 0 where
  pub status : ℕ
  pub body : Result Str Str

-- What a call comes to: the request that went out, the value, the body and the error that it returns.
pub record Called (A : Type 0) : Type 0 where
  pub sent : Option Outgoing
  pub value : A
  pub body : Str
  pub error : Option Str

-- a parsed URL, with what Connect leaves as it is
pub record Url : Type 0 where
  pub scheme : Str
  pub host : Str
  pub path : Str

abbrev pub is_slash : ℕ → Bool
is_slash c = c == b'/'

-- strings.TrimRight(c.Config.APIServer, "/")
unfoldable pub base_url : Config → Str
unfolding trim_right
base_url cfg = trim_right is_slash cfg.api_server

abbrev pub sessions_path : Str
sessions_path = codes "/api/v1/sessions"

abbrev pub content_type : Option Str → Header → Header
content_type none h = h
content_type (some payload) h = set (codes "Content-Type") (codes "application/json") h

unfoldable pub outgoing : Config → Str → Str → Option Str → Outgoing
unfolding base_url set
outgoing cfg method path payload = record {
  method = method;
  url = base_url cfg ++ path;
  header = content_type payload (set authorization (bearer ++ cfg.token) []);
  body = payload;
}

abbrev pub api_error : Str → Str
api_error text = codes "api error: " ++ trim_space text

-- A failed call returns a zero value.
abbrev pub failed : {A : Type 0} → Option Outgoing → A → Str → Str → Called A
failed sent zero_value body e = record {
  sent = sent;
  value = zero_value;
  body = body;
  error = some e;
}

-- the answer's status, then its body
abbrev pub answered_body : Outgoing → ℕ → Result Str Str → Called Str
answered_body req status (err e) = failed (some req) [] [] e
answered_body req status (ok text) =
    if leb 300 status
    then failed (some req) [] text (api_error text)
    else record { sent = some req; value = text; body = text; error = none }

abbrev pub answered : Outgoing → Result Str Answer → Called Str
answered req (err e) = failed (some req) [] [] e
answered req (ok a) = answered_body req a.status a.body

abbrev pub requested : Outgoing → Option Str → Result Str Answer → Called Str
requested req (some e) answer = failed none [] [] e
requested req none answer = answered req answer

-- Decoding the body of an answer that is no error.
abbrev pub decoded_as : {A : Type 0} → A → Called Str → Result Str A → Called A
decoded_as zero_value c (err e) = failed c.sent zero_value c.body e
decoded_as zero_value c (ok a) = record { sent = c.sent; value = a; body = c.body; error = none }

abbrev pub decoded_unless :
    {A : Type 0} → A → (Str → Result Str A) → Called Str → Option Str → Called A
decoded_unless zero_value decode c (some e) = failed c.sent zero_value c.body e
decoded_unless zero_value decode c none = decoded_as zero_value c (decode c.body)

abbrev pub decoded : {A : Type 0} → A → (Str → Result Str A) → Called Str → Called A
decoded zero_value decode c = decoded_unless zero_value decode c c.error

module _ (request_error : Outgoing → Option Str) (exchange : Outgoing → Result Str Answer) where
  -- Client.do, its payload as JSON
  unfoldable pub do_request : Config → Str → Str → Option Str → Called Str
  unfolding outgoing trim_space
  do_request cfg method path payload =
      let req = outgoing cfg method path payload in requested req (request_error req) (exchange req)

  -- Client.doSession
  unfoldable pub do_session :
      (Str → Result Str Session) → Config → Str → Str → Option Str → Called Session
  unfolding do_request
  do_session decode cfg method path payload =
      decoded no_session decode (do_request cfg method path payload)

  unfoldable pub create :
      (Str → Result Str Session) → (CreateRequest → Str) → Config → CreateRequest → Called Session
  unfolding do_session
  create decode marshal cfg req =
      do_session decode cfg method_post sessions_path (some (marshal req))

  unfoldable pub list : (Str → Result Str (List Session)) → Config → Called (List Session)
  unfolding do_request
  list decode cfg = decoded [] decode (do_request cfg method_get sessions_path none)

  module _ (path_escape : Str → Str) where
    unfoldable pub session_path : Str → Str
    session_path id = sessions_path ++ codes "/" ++ path_escape id

    unfoldable pub get : (Str → Result Str Session) → Config → Str → Called Session
    unfolding do_session session_path
    get decode cfg id = do_session decode cfg method_get (session_path id) none

    unfoldable pub delete : Config → Str → Called Str
    unfolding do_request session_path
    delete cfg id = do_request cfg method_delete (session_path id) none

-- the request for a websocket
pub record Dial : Type 0 where
  pub url : Url
  pub header : Header

-- what Connect comes to: what it has dialled, and the error that it returns
pub record Connected : Type 0 where
  pub dialled : Option Dial
  pub error : Option Str

-- `attach` is the dial and the copying both ways, with the error that they end with.
module _ (parse_url : Str → Result Str Url) (attach : Dial → Option Str)
    (path_escape : Str → Str) where
  unfoldable pub terminal_url : Str → Url → Url
  unfolding str_eq
  terminal_url id base = record base {
    scheme = if str_eq base.scheme (codes "https") then codes "wss" else codes "ws";
    path = codes "/api/v1/sessions/" ++ path_escape id ++ codes "/terminal";
  }

  abbrev pub dial : Config → Str → Url → Dial
  dial cfg id base = record {
    url = terminal_url id base;
    header = (authorization, (bearer ++ cfg.token) ∷ []) ∷ [];
  }

  abbrev pub connect_to : Config → Str → Result Str Url → Connected
  connect_to cfg id (err e) = record { dialled = none; error = some e }
  connect_to cfg id (ok base) = record {
    dialled = some (dial cfg id base);
    error = attach (dial cfg id base);
  }

  unfoldable pub connect : Config → Str → Connected
  unfolding base_url terminal_url
  connect cfg id = connect_to cfg id (parse_url (base_url cfg))
