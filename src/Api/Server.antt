-- ===== src/Api/Server.antt =====
-- internal/api/server.go: the handlers and the routing of the session API.
-- Parameters: the store, what url.Parse says (Requests), and what package time prints for RFC3339.
-- The arguments of a request that the handlers read from outside are an `Ambient`: the clock, the
-- random bytes, and the body as encoding/json reads it (`none` for an error). The path of a request
-- holds no percent escape, so that it is its own escaped form.
pub mod Routes
pub mod Ownership
pub mod Replies
pub mod Visibility
pub mod Sorting
pub mod Listing
pub mod Tests
use agentsty.Prelude.{
  ℕ, ◌+◌, Bool, true, false, ◌&&◌, ◌||◌, not, Option, none, some, List, [], ◌∷◌, ◌++◌, map, Str,
  codes, str_eq, has_prefix, trim_prefix, trim, split, Dict, lookup, ℤ, ltb, ◌==◌, Result, ok, err,
  if◌then◌else◌,
}
use agentsty.V1alpha1.{
  AgentSession, AgentSessionSpec, SpecError, Time, phase_pending, new_agent_session, validate,
}
use agentsty.Redact.{redact}
use agentsty.Http.{
  Header, Request, Response, method_get, method_post, method_delete, error_header, json_header,
}
use agentsty.Api.Store.{Store}
use agentsty.Api.Requests.{
  Json, RequestError, CreateSessionRequest, user_from_request, create_session_request, spec_of,
  default_string, reject_forbidden, generate_session_id,
}

pub record SessionResponse : Type 0 where
  pub id : Str
  pub phase : Str
  pub reason : Str
  pub message : Str
  pub tool : Str
  pub model_ref : Str
  pub resource_profile : Str
  pub isolation_profile : Str
  pub terminal_ready : Bool
  pub created_at : Str
  pub expires_at : Str
  pub terminal_url : Str

-- A spec or request error stands for the text of the error that http.Error writes.
pub data Body : Type 0 where
  error_text : Str → Body
  spec_error : SpecError → Body
  request_error : RequestError → Body
  status_json : Str → Body
  session_json : SessionResponse → Body
  items_json : List SessionResponse → Body
  deleted_json : Str → Body

-- A reply is written here, handed to the terminal gateway for a user and a session, or a redirect
-- of the mux to the clean form of the path.
pub data Reply : Type 0 where
  respond : Response Body → Reply
  to_terminal : Str → Str → Reply
  redirect : Str → Reply

pub record Ambient : Type 0 where
  pub now : Time
  pub random : Option (List ℕ)
  pub nanos : ℤ
  pub json : Option (Dict Json)

abbrev pub http_error : ℕ → Body → Reply
http_error status body = respond (record { status = status; header = error_header; body = body })

abbrev pub write_json : ℕ → Body → Reply
write_json status body = respond (record { status = status; header = json_header; body = body })

abbrev pub sessions_path : Str
sessions_path = codes "/api/v1/sessions"

abbrev pub sessions_prefix : Str
sessions_prefix = codes "/api/v1/sessions/"

abbrev is_slash : ℕ → Bool
is_slash c = c == b'/'

-- byte order, as `<` on Go strings
unfoldable pub name_lt : Str → Str → Bool
name_lt s [] = false
name_lt [] (b ∷ t) = true
name_lt (a ∷ s) (b ∷ t) = ltb a b || (a == b && name_lt s t)

-- sort.Slice by name
unfoldable pub insert_by_name : AgentSession → List AgentSession → List AgentSession
unfolding name_lt
insert_by_name s [] = s ∷ []
insert_by_name s (t ∷ ts) =
    let rest = insert_by_name s ts in if name_lt t.name s.name then t ∷ rest else s ∷ t ∷ ts

unfoldable pub sort_by_name : List AgentSession → List AgentSession
unfolding insert_by_name
sort_by_name [] = []
sort_by_name (s ∷ ss) = insert_by_name s (sort_by_name ss)

module _ (format_time : Time → Str) where
  abbrev format_opt : Option Time → Str
  format_opt none = []
  format_opt (some t) = format_time t

  pub response_from_session : AgentSession → Bool → SessionResponse
  response_from_session s include_terminal_url = record {
    id = s.name;
    phase = default_string s.status.phase phase_pending;
    reason = s.status.reason;
    message = s.status.message;
    tool = s.spec.tool;
    model_ref = s.spec.model_ref;
    resource_profile = s.spec.resource_profile;
    isolation_profile = s.spec.isolation.profile;
    terminal_ready = s.status.terminal_ready;
    created_at = format_opt s.status.created_at;
    expires_at = format_opt s.status.expires_at;
    terminal_url =
        if include_terminal_url
        then codes "/api/v1/sessions/" ++ (s.name ++ codes "/terminal")
        else [];
  }

-- The path that http.ServeMux routes: rooted, with no empty, `.` or `..` part, and a final slash if
-- it had one. A request for another path is redirected.
resolve_part : List Str → Str → List Str
resolve_part stack part =
    if str_eq part [] || str_eq part (codes ".")
    then stack
    else if str_eq part (codes "..")
    then elim stack [ [] ↦ [] | _ ∷ rest ↦ rest ]
    else part ∷ stack

resolve_parts : List Str → List Str → List Str
resolve_parts stack [] = stack
resolve_parts stack (part ∷ parts) = resolve_parts (resolve_part stack part) parts

-- the parts of a stack, the top last, each behind a slash
rooted : List Str → Str → Str
rooted [] path = path
rooted (part ∷ stack) path = rooted stack (b'/' ∷ (part ++ path))

ends_with_slash : Str → Bool
ends_with_slash [] = false
ends_with_slash (c ∷ s) = elim s [ [] ↦ c == b'/' | _ ∷ _ ↦ ends_with_slash s ]

unfoldable pub clean_path : Str → Str
unfolding resolve_part resolve_parts rooted ends_with_slash
clean_path path =
    let stack = resolve_parts [] (split path b'/') in
    elim stack [
      | [] ↦ b'/' ∷ []
      | top ∷ below ↦ rooted (top ∷ below) (if ends_with_slash path then b'/' ∷ [] else [])
    ]

-- the fields of Server that the handlers read beside the store
pub record Server : Type 0 where
  pub has_terminal : Bool
  pub namespace : Str

module _ (has_userinfo : Str → Bool) (format_time : Time → Str) (store : Store) where
  abbrev pub Handled : Type 0
  Handled = store.State × Reply

  -- healthz and readyz; the server has a store
  pub healthz : store.State → Handled
  healthz st = (st, write_json 200 (status_json (codes "ok")))

  pub readyz : store.State → Handled
  readyz st = elim (store.ready st) [
    | some e ↦ (st, http_error 503 (error_text (codes "not ready")))
    | none ↦ (st, write_json 200 (status_json (codes "ready")))
  ]

  abbrev pub created : store.State × Result Str AgentSession → Handled
  created (st, ok s) =
      (st, write_json 201 (session_json (response_from_session format_time s true)))
  created (st, err e) = (st, http_error 500 (error_text (redact e)))

  unfoldable pub create_spec : Server → store.State → Ambient → AgentSessionSpec → Handled
  create_spec server st amb spec = elim (validate spec) [
    | some e ↦ (st, http_error 400 (spec_error e))
    | none ↦ created (
        store.create st (
          new_agent_session (generate_session_id amb.random amb.nanos)
            (default_string server.namespace (codes "agentcask-sessions")) spec amb.now))
  ]

  -- createSession, on what encoding/json made of the body
  unfoldable pub create_body : Server → store.State → Ambient → Str → Option (Dict Json) → Handled
  create_body server st amb user_id none = (st, http_error 400 (error_text (codes "invalid json")))
  create_body server st amb user_id (some raw) = elim (reject_forbidden has_userinfo raw) [
    | some e ↦ (st, http_error 400 (request_error e))
    | none ↦ create_spec server st amb (spec_of user_id (create_session_request raw))
  ]

  unfoldable pub create_session : Server → store.State → Ambient → Str → Handled
  create_session server st amb user_id = create_body server st amb user_id amb.json

  pub list_sessions : store.State → Str → Handled
  list_sessions st user_id = elim (store.list st user_id) [
    | err e ↦ (st, http_error 500 (error_text (redact e)))
    | ok sessions ↦ (
      st,
      write_json 200 (
          items_json
            (map (λ s. response_from_session format_time s false) (sort_by_name sessions))),
    )
  ]

  pub get_session : store.State → Str → Str → Handled
  get_session st user_id id = elim (store.get st id) [
    | err e ↦ (st, http_error 404 (error_text (codes "session not found")))
    | ok s ↦
        if str_eq s.spec.user_id user_id
        then (st, write_json 200 (session_json (response_from_session format_time s false)))
        else (st, http_error 403 (error_text (codes "forbidden")))
  ]

  abbrev pub deleted : Str → store.State × Option Str → Handled
  deleted id (st, some e) = (st, http_error 500 (error_text (redact e)))
  deleted id (st, none) = (st, write_json 200 (deleted_json id))

  pub delete_session : store.State → Str → Str → Handled
  delete_session st user_id id = elim (store.get st id) [
    | err e ↦ (st, http_error 404 (error_text (codes "session not found")))
    | ok s ↦
        if str_eq s.spec.user_id user_id
        then deleted id (store.delete st id)
        else (st, http_error 403 (error_text (codes "forbidden")))
  ]

  abbrev pub not_allowed : store.State → Handled
  not_allowed st = (st, http_error 405 (error_text (codes "method not allowed")))

  abbrev pub not_found : store.State → Handled
  not_found st = (st, http_error 404 (error_text (codes "404 page not found")))

  abbrev pub unauthenticated : store.State → Handled
  unauthenticated st = (st, http_error 401 (error_text (codes "not authenticated")))

  -- sessions and sessionByID, after the user is known
  unfoldable pub sessions_of : Server → store.State → Ambient → Request → Str → Handled
  sessions_of server st amb r user_id =
      if str_eq r.method method_post
      then create_session server st amb user_id
      else if str_eq r.method method_get
      then list_sessions st user_id
      else not_allowed st

  unfoldable pub sessions : Server → store.State → Ambient → Request → Handled
  sessions server st amb r = elim (user_from_request r) [
    | none ↦ unauthenticated st
    | some user_id ↦ sessions_of server st amb r user_id
  ]

  unfoldable pub terminal : Server → store.State → Request → Str → Str → Handled
  terminal server st r user_id id =
      if not (str_eq r.method method_get)
      then not_allowed st
      else if not server.has_terminal
      then (st, http_error 503 (error_text (codes "terminal gateway not configured")))
      else (st, to_terminal user_id id)

  pub one_session : store.State → Request → Str → Str → Handled
  one_session st r user_id id =
      if str_eq r.method method_get
      then get_session st user_id id
      else if str_eq r.method method_delete
      then delete_session st user_id id
      else not_allowed st

  -- the cases on the parts of the path
  unfoldable pub by_parts : Server → store.State → Request → Str → List Str → Handled
  by_parts server st r user_id [] = not_found st
  by_parts server st r user_id (id ∷ []) =
      if str_eq id [] then not_found st else one_session st r user_id id
  by_parts server st r user_id (id ∷ action ∷ []) =
      if str_eq id []
      then not_found st
      else if str_eq action (codes "terminal")
      then terminal server st r user_id id
      else not_found st
  by_parts server st r user_id (id ∷ action ∷ more ∷ rest) = not_found st

  unfoldable pub session_by_id : Server → store.State → Request → Handled
  session_by_id server st r = elim (user_from_request r) [
    | none ↦ unauthenticated st
    | some user_id ↦
        by_parts server st r user_id
          (split (trim is_slash (trim_prefix r.path sessions_prefix)) b'/')
  ]

  -- Server.Handler: the mux; the redaction middleware only passes the request on
  unfoldable pub handler : Server → store.State → Ambient → Request → Handled
  handler server st amb r =
      if not (str_eq r.method (codes "CONNECT")) && not (str_eq (clean_path r.path) r.path)
      then (st, redirect (clean_path r.path))
      else if str_eq r.path (codes "/healthz")
      then healthz st
      else if str_eq r.path (codes "/readyz")
      then readyz st
      else if str_eq r.path sessions_path
      then sessions server st amb r
      else if has_prefix r.path sessions_prefix
      then session_by_id server st r
      else not_found st
