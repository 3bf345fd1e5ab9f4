-- ===== src/ControllerProgram.antt =====
-- cmd/cask-controller/main.go: the settings of the controller program, the configuration of the cluster
-- that it connects to, and the configuration that it gives its Reconciler.
-- Parameters beside those of the parts: os.Getenv, the configurations of the cluster (kube.Config), of
-- some type C, and whether client-go makes its two clients of one (`none`) or answers with an error.
pub mod Tokens
pub mod Tests
use agentsty.Prelude.{
  Bool, Option, none, some, List, [], ◌∷◌, Str, codes, str_eq, if◌then◌else◌, pos, Result, ok, err,
}
use agentsty.Settings.{env_default}
use agentsty.Cli.Args.{FlagError, parse_flags, no_bool}
use agentsty.Kube.{default_session_namespace}
use agentsty.Kube.Config.{Sources}
use agentsty.Controller.{Config, default_runtime_image, default_model_proxy_url, config}

pub record Settings : Type 0 where
  pub namespace : Str
  pub kubeconfig : Str
  pub runtime_image : Str
  pub model_proxy_url : Str
  pub token_secret : Str

unfoldable pub default_settings : (Str → Str) → Settings
unfolding env_default
default_settings getenv = record {
  namespace = env_default getenv (codes "SESSION_NAMESPACE") default_session_namespace;
  kubeconfig = getenv (codes "KUBECONFIG");
  runtime_image = env_default getenv (codes "AGENT_RUNTIME_IMAGE") default_runtime_image;
  model_proxy_url = env_default getenv (codes "CASK_MODEL_PROXY_URL") (
      codes
        "http://cask-model-proxy.agentcask-system.svc.cluster.local:8080/internal/model-proxy/v1");
  token_secret = env_default getenv (codes "CASK_TOKEN_SECRET") (codes "dev-session-proxy-secret");
}

unfoldable pub settings_flag : Str → Option (Str → Settings → Option Settings)
unfolding str_eq
settings_flag name =
    if str_eq name (codes "namespace")
    then some (λ v s. some (record s { namespace = v }))
    else if str_eq name (codes "kubeconfig")
    then some (λ v s. some (record s { kubeconfig = v }))
    else if str_eq name (codes "runtime-image")
    then some (λ v s. some (record s { runtime_image = v }))
    else if str_eq name (codes "model-proxy-url")
    then some (λ v s. some (record s { model_proxy_url = v }))
    else if str_eq name (codes "token-secret")
    then some (λ v s. some (record s { token_secret = v }))
    else none

-- the settings of a command line; the words behind the flags are not read
unfoldable pub settings_of : (Str → Str) → List Str → Result FlagError (Settings × List Str)
unfolding parse_flags settings_flag default_settings
settings_of getenv args = parse_flags no_bool settings_flag (default_settings getenv) args

module _ {C : Type 0} (sources : Sources C) (dynamic_error client_error : C → Option Str) where
  abbrev both_clients : C → Option Str → Option Str → Result Str C
  both_clients cfg (some e) _ = err e
  both_clients cfg none (some e) = err e
  both_clients cfg none none = ok cfg

  abbrev connect : Result Str C → Result Str C
  connect (err e) = err e
  connect (ok cfg) = both_clients cfg (dynamic_error cfg) (client_error cfg)

  -- the configuration of both clients; the program ends with the error, if there is one
  unfoldable pub connected : Settings → Result Str C
  unfolding agentsty.Kube.Config.config
  connected s = connect (agentsty.Kube.Config.config sources s.kubeconfig)

-- the Config of the Reconciler
unfoldable pub config_of : Settings → Config
config_of s = record {
  namespace = s.namespace;
  runtime_image = s.runtime_image;
  model_proxy_url = s.model_proxy_url;
  token_secret = s.token_secret;
  profiles = none;
  reconcile_interval = pos 0;
}

-- and what the Reconciler makes of it
unfoldable pub reconciler_config : Settings → Config
unfolding config_of config
reconciler_config s = config (config_of s)
