-- ===== src/ApiProgram.antt =====
-- cmd/cask-api/main.go: the settings of the API program, the store and the exec backend that it
-- chooses, and the requests that its server answers, terminals included.
-- Parameters beside those of the parts: os.Getenv; the configurations of the cluster (kube.Config), of
-- some type C; the dynamic client that client-go makes of a configuration, for a namespace; and what the
-- SPDY executor of a configuration answers when it is made.
pub mod Terminals
pub mod History
pub mod Tests
use agentsty.Prelude.{
  Bool, true, false, Option, none, some, List, [], ◌∷◌, Str, codes, str_eq, if◌then◌else◌, pos,
  Result, ok, err,
}
use agentsty.V1alpha1.{AgentSession, Time}
use agentsty.Http.{Request, Response}
use agentsty.Settings.{env_default}
use agentsty.Cli.Args.{FlagError, parse_flags, parse_bool}
use agentsty.Kube.{Unstructured, default_session_namespace}
use agentsty.Kube.Client.{Dynamic, session_client}
use agentsty.Kube.Config.{Sources, Clients, config, new_for_config}
use agentsty.Api.Store.{Store}
use agentsty.Api.Store.Memory.{memory_store, new_memory_store}
use agentsty.Api.Server.{Server, Ambient, Reply, respond, to_terminal, redirect, Body, handler}
use agentsty.Terminal.{Gateway, ExecRequest, Served}
use agentsty.Terminal.Streams.{PodExec, start}

pub record Settings : Type 0 where
  pub addr : Str
  pub namespace : Str
  pub kubeconfig : Str
  pub memory : Bool

unfoldable pub default_settings : (Str → Str) → Settings
unfolding env_default str_eq
default_settings getenv = record {
  addr = env_default getenv (codes "CASK_API_ADDR") (codes ":8080");
  namespace = env_default getenv (codes "SESSION_NAMESPACE") default_session_namespace;
  kubeconfig = getenv (codes "KUBECONFIG");
  memory = str_eq (getenv (codes "CASK_MEMORY")) (codes "1");
}

abbrev set_memory : Settings → Option Bool → Option Settings
set_memory s none = none
set_memory s (some b) = some (record s { memory = b })

unfoldable pub settings_flag : Str → Option (Str → Settings → Option Settings)
unfolding str_eq parse_bool
settings_flag name =
    if str_eq name (codes "addr")
    then some (λ v s. some (record s { addr = v }))
    else if str_eq name (codes "namespace")
    then some (λ v s. some (record s { namespace = v }))
    else if str_eq name (codes "kubeconfig")
    then some (λ v s. some (record s { kubeconfig = v }))
    else if str_eq name (codes "memory")
    then some (λ v s. set_memory s (parse_bool v))
    else none

abbrev pub is_bool : Str → Bool
is_bool name = str_eq name (codes "memory")

-- the settings of a command line; the words behind the flags are not read
unfoldable pub settings_of : (Str → Str) → List Str → Result FlagError (Settings × List Str)
unfolding parse_flags settings_flag default_settings str_eq
settings_of getenv args = parse_flags is_bool settings_flag (default_settings getenv) args

-- what the server runs on
pub data Backing (C : Type 0) : Type 0 where
  in_memory : Backing C
  on_cluster : Clients C → Backing C

module _ {C : Type 0} (sources : Sources C) (dynamic_error client_error : C → Option Str) where
  abbrev backed : Result Str (Clients C) → Result Str (Backing C)
  backed (err e) = err e
  backed (ok clients) = ok (on_cluster clients)

  abbrev configured : Str → Result Str C → Result Str (Backing C)
  configured namespace (err e) = err e
  configured namespace (ok cfg) = backed (new_for_config dynamic_error client_error cfg namespace)

  -- the store and the backend; the program ends with the error, if there is one
  unfoldable pub backing_of : Settings → Result Str (Backing C)
  unfolding config new_for_config
  backing_of s =
      if s.memory then ok in_memory else configured s.namespace (config sources s.kubeconfig)

-- A session, or a nil one with an error
abbrev pub resolved : Result Str AgentSession → Result Str (Option AgentSession)
resolved (ok s) = ok (some s)
resolved (err e) = err e

abbrev exec_error : Result Str PodExec → Option Str
exec_error (ok exec) = none
exec_error (err e) = some e

-- what a request comes to: a response, a redirect, or what the gateway makes of it
pub data Outcome : Type 0 where
  responded : Response Body → Outcome
  redirected : Str → Outcome
  served : Served → Outcome

module _ {C : Type 0} (format_time : Time → Str) (parse_time : Str → Option Time) (u : Unstructured)
    (dynamic : C → Str → Dynamic) (new_executor : C → PodExec → Option Str) where
  unfoldable pub store_of : Backing C → Store
  unfolding memory_store session_client
  store_of in_memory = memory_store
  store_of (on_cluster clients) =
      session_client format_time parse_time u (dynamic clients.config clients.namespace)

  -- the echo backend starts without an error
  unfoldable pub backend_of : Backing C → ExecRequest → Option Str
  unfolding start
  backend_of in_memory request = none
  backend_of (on_cluster clients) request =
      exec_error (start (new_executor clients.config) true true request)

  module _ (b : Backing C) where
    -- the store, as the gateway's resolver
    unfoldable pub gateway_of : (store_of b).State → Gateway
    unfolding store_of backend_of
    gateway_of st = record {
      resolver = some (λ id. resolved ((store_of b).get st id));
      backend = some (backend_of b);
      timeout = pos 0;
    }

    unfoldable pub outcome : (store_of b).State → Bool → Reply → Outcome
    unfolding gateway_of agentsty.Terminal.serve
    outcome st upgrades (respond response) = responded response
    outcome st upgrades (redirect path) = redirected path
    outcome st upgrades (to_terminal user_id id) =
        served (agentsty.Terminal.serve (gateway_of st) upgrades user_id id)

    module _ (has_userinfo : Str → Bool) (settings : Settings) where
      abbrev pub server : Server
      server = record { has_terminal = true; namespace = settings.namespace }

      -- the handler of the server, given whether the upgrade of a terminal's request succeeds
      unfoldable pub serve :
          (store_of b).State → Ambient → Bool → Request → (store_of b).State × Outcome
      unfolding outcome
      serve st amb upgrades r =
          let (st', reply) = handler has_userinfo format_time (store_of b) server st amb r in
          (st', outcome st' upgrades reply)
