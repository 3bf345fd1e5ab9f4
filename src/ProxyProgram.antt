-- ===== src/ProxyProgram.antt =====
-- cmd/cask-model-proxy/main.go: the proxy on the session client of the Kubernetes API, its settings, and
-- the requests that its server answers. os.Getenv is a parameter.
pub mod Sessions
pub mod Tests
use agentsty.Prelude.{
  ℕ, Bool, Option, none, some, List, [], ◌∷◌, Str, codes, str_eq, if◌then◌else◌, pos, Result, ok,
  err,
}
use agentsty.V1alpha1.{AgentSession, Time}
use agentsty.Http.{Request, Response, error_header, json_header}
use agentsty.ModelProxy.Token.{TokenManager}
use agentsty.ModelProxy.Proxy.{Proxy, UpstreamRequest, Body, error_text, handler}
use agentsty.Cli.Args.{FlagError, parse_flags, no_bool}
use agentsty.Settings.{env_default}
use agentsty.Kube.{Unstructured, default_session_namespace}
use agentsty.Kube.Client.{Dynamic, ready, get}

pub record Settings : Type 0 where
  pub addr : Str
  pub namespace : Str
  pub kubeconfig : Str
  pub upstream_url : Str
  pub upstream_key : Str
  pub token_secret : Str

unfoldable pub default_settings : (Str → Str) → Settings
unfolding env_default
default_settings getenv = record {
  addr = env_default getenv (codes "CASK_MODEL_PROXY_ADDR") (codes ":8080");
  namespace = env_default getenv (codes "SESSION_NAMESPACE") default_session_namespace;
  kubeconfig = getenv (codes "KUBECONFIG");
  upstream_url = getenv (codes "CASK_UPSTREAM_URL");
  upstream_key = getenv (codes "CASK_UPSTREAM_API_KEY");
  token_secret = env_default getenv (codes "CASK_TOKEN_SECRET") (codes "dev-session-proxy-secret");
}

unfoldable pub settings_flag : Str → Option (Str → Settings → Option Settings)
unfolding str_eq
settings_flag name =
    if str_eq name (codes "addr")
    then some (λ v s. some (record s { addr = v }))
    else if str_eq name (codes "namespace")
    then some (λ v s. some (record s { namespace = v }))
    else if str_eq name (codes "kubeconfig")
    then some (λ v s. some (record s { kubeconfig = v }))
    else if str_eq name (codes "upstream-url")
    then some (λ v s. some (record s { upstream_url = v }))
    else if str_eq name (codes "upstream-key")
    then some (λ v s. some (record s { upstream_key = v }))
    else if str_eq name (codes "token-secret")
    then some (λ v s. some (record s { token_secret = v }))
    else none

-- the settings of a command line; the words behind the flags are not read
unfoldable pub settings_of : (Str → Str) → List Str → Result FlagError (Settings × List Str)
unfolding parse_flags settings_flag default_settings
settings_of getenv args = parse_flags no_bool settings_flag (default_settings getenv) args

abbrev pub some_session : Result Str AgentSession → Option AgentSession
some_session (ok s) = some s
some_session (err e) = none

-- what the server answers; the bodies that the program writes itself are told apart from the proxy's
pub data Reply : Type 0 where
  status_reply : Str → Reply
  text_reply : Str → Reply
  proxy_reply : Body → Reply

-- a response and what was sent upstream for it
pub record Served : Type 0 where
  pub status : ℕ
  pub reply : Reply
  pub sent : Option UpstreamRequest

abbrev answer : ℕ → Reply → Served
answer status reply = record { status = status; reply = reply; sent = none }

-- readyz, by the error of Ready
abbrev pub readiness : Option Str → Served
readiness none = answer 200 (status_reply (codes "ready"))
readiness (some e) = answer 503 (text_reply (codes "not ready"))

abbrev pub completions_path : Str
completions_path = codes "/internal/model-proxy/v1/chat/completions"

module _ (format_time : Time → Str) (parse_time : Str → Option Time) (u : Unstructured)
    (dyn : Dynamic) (st : dyn.State) (settings : Settings) where
  unfoldable pub proxy_of : Proxy
  unfolding get
  proxy_of = record {
    tokens = record { secret = settings.token_secret; ttl = pos 0 };
    sessions = some (λ id. some_session (get format_time parse_time u dyn st id));
    upstream_url = settings.upstream_url;
    upstream_key = settings.upstream_key;
  }

  module _ (hmac : Str → Str → List ℕ) (accepts : Str → Str → Bool)
      (upstream : UpstreamRequest → Option (Response Str)) where
    abbrev proxied : Time → Time → Request → Served
    proxied now later r =
        let x = handler hmac accepts upstream proxy_of now later r in
        record { status = x.response.status; reply = proxy_reply x.response.body; sent = x.sent }

    -- the mux, for a request whose path is clean
    unfoldable pub serve : Time → Time → Request → Served
    unfolding proxy_of ready str_eq
    serve now later r =
        if str_eq r.path (codes "/healthz")
        then answer 200 (status_reply (codes "ok"))
        else if str_eq r.path (codes "/readyz")
        then readiness (ready format_time parse_time u dyn st)
        else if str_eq r.path completions_path
        then proxied now later r
        else answer 404 (text_reply (codes "404 page not found"))
