-- ===== src/ModelProxy/Proxy.antt =====
-- internal/modelproxy/proxy.go: the handler that lets a session's requests through to the model.
-- Parameters: the HMAC, the session resolver (`none` for an error or a nil session), whether
-- http.NewRequest accepts a method and a URL, and what the upstream answers (`none` for an error).
-- The clock is read twice: for the token, and later for the session.
pub mod Authentication
pub mod Copying
pub mod Forwarding
pub mod Tests
use agentsty.Prelude.{
  ℕ, Bool, true, false, ◌||◌, not, Option, none, some, List, [], ◌∷◌, ◌++◌, Str, codes, str_eq,
  mem_text, has_prefix, trim_prefix, equal_fold, ltb_ℤ, if◌then◌else◌,
}
use agentsty.V1alpha1.{
  AgentSession, Time, phase_expired, phase_terminating, phase_failed, allowed_model_refs,
}
use agentsty.Http.{
  Header, Request, Response, get, set, add, del, bearer, authorization, error_header, json_header,
}
use agentsty.ModelProxy.Token.{TokenManager, validate_with_expiry}

pub data Body : Type 0 where
  error_text : Str → Body
  session_json : Str → Body
  raw : Str → Body

pub record UpstreamRequest : Type 0 where
  pub method : Str
  pub url : Str
  pub header : Header
  pub body : Str

-- the response, and what was sent upstream for it
pub record Exchange : Type 0 where
  pub response : Response Body
  pub sent : Option UpstreamRequest

pub record Proxy : Type 0 where
  pub tokens : TokenManager
  pub sessions : Option (Str → Option AgentSession)
  pub upstream_url : Str
  pub upstream_key : Str

abbrev http_error : ℕ → Str → Exchange
http_error status text = record {
  response = record { status = status; header = error_header; body = error_text text };
  sent = none;
}

-- the tests on a session that has been found
pub expired_at : Time → Option Time → Bool
expired_at now none = false
expired_at now (some t) = not (ltb_ℤ now t)

pub is_usable : Time → AgentSession → Bool
is_usable now s = elim s.deletion_timestamp [
  | some _ ↦ false
  | none ↦
      if str_eq s.status.phase phase_expired
        || str_eq s.status.phase phase_terminating
        || str_eq s.status.phase phase_failed
      then false
      else if expired_at now s.status.expires_at
      then false
      else mem_text s.spec.model_ref allowed_model_refs
]

pub admit : Option (Str → Option AgentSession) → Time → Str → Option Str
admit none now session_id = some session_id
admit (some resolve) now session_id = elim (resolve session_id) [
  | none ↦ none
  | some s ↦ if is_usable now s then some session_id else none
]

abbrev pub admit_token :
    Option (Str → Option AgentSession) → Time → Str × Option Time × Bool → Option Str
admit_token sessions now (session_id, _, accepted) =
    if accepted then admit sessions now session_id else none

-- http.Header.Add for each value of one key
pub add_all : Str → List Str → Header → Header
add_all k [] h = h
add_all k (v ∷ vs) h = add_all k vs (add k v h)

-- the loop over the upstream's header
pub copy_header : Header → Header → Header
copy_header [] h = h
copy_header ((k, vs) ∷ rest) h =
    copy_header rest (
      if equal_fold k authorization || equal_fold k (codes "Set-Cookie") then h else add_all k vs h)

abbrev pub upstream_header : Proxy → Header → Header
upstream_header p h =
    if str_eq p.upstream_key []
    then del authorization h
    else set authorization (bearer ++ p.upstream_key) (del authorization h)

module _ (hmac : Str → Str → List ℕ) where
  pub authenticate : Proxy → Time → Time → Request → Option Str
  authenticate p now later r =
      let header = get authorization r.header in
      if has_prefix header bearer
      then admit_token p.sessions later
          (validate_with_expiry hmac p.tokens now (trim_prefix header bearer))
      else none

  module _ (accepts : Str → Str → Bool) (upstream : UpstreamRequest → Option (Response Str)) where
    unfoldable pub send : UpstreamRequest → Exchange
    send u = elim (upstream u) [
      | none ↦ record {
        response = record {
          status = 502;
          header = error_header;
          body = error_text (codes "upstream unavailable");
        };
        sent = some u;
      }
      | some resp ↦ record {
        response = record {
          status = resp.status;
          header = copy_header resp.header [];
          body = raw resp.body;
        };
        sent = some u;
      }
    ]

    unfoldable pub forward : Proxy → Request → Str → Exchange
    forward p r session_id =
        if str_eq p.upstream_url []
        then record {
          response = record { status = 200; header = json_header; body = session_json session_id };
          sent = none;
        }
        else elim r.body [
          | none ↦ http_error 400 (codes "invalid body")
          | some body ↦
              if accepts r.method p.upstream_url
              then send (record {
                method = r.method;
                url = p.upstream_url;
                header = upstream_header p r.header;
                body = body;
              })
              else http_error 502 (codes "bad upstream")
        ]

    -- Proxy.Handler
    unfoldable pub handler : Proxy → Time → Time → Request → Exchange
    handler p now later r = elim (authenticate p now later r) [
      | none ↦ http_error 401 (codes "unauthorized")
      | some session_id ↦ forward p r session_id
    ]
