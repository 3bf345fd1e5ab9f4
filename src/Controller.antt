-- ===== src/Controller.antt =====
-- internal/controller/controller.go: the times and finalizers of a session, and its pod.
-- A quantity of a resource is kept as the text that MustParse reads.
pub mod Reconciler
pub mod Times
pub mod Tokens
pub mod Placement
pub mod Release
pub mod Loop
pub mod Statuses
pub mod Tests
use agentsty.Prelude.{
  ℕ, Bool, true, false, not, ◌||◌, Option, none, some, List, [], ◌∷◌, ◌++◌, Str, codes, str_eq,
  Dict, lookup, ℤ, pos, leb_ℤ, ltb_ℤ, ◌+ℤ◌, ◌*◌, if◌then◌else◌,
}
use agentsty.V1alpha1.{
  AgentSession, AgentSessionStatus, Time, second, seconds, group_version, kind, label_component,
  label_session_id, label_user_id, container_name_agent,
}
use agentsty.Isolation.{Profile, Profiles, Pod, Container, apply, default_profiles}
use agentsty.ModelProxy.Token.{TokenManager, generate_until}

-- The fields of Config: nil profiles are `none`.
pub record Config : Type 0 where
  pub namespace : Str
  pub runtime_image : Str
  pub model_proxy_url : Str
  pub token_secret : Str
  pub profiles : Option Profiles
  pub reconcile_interval : ℤ

abbrev pub default_runtime_image : Str
default_runtime_image = codes "agentcask/agent-runtime:dev"

abbrev pub default_model_proxy_url : Str
default_model_proxy_url =
    codes "http://cask-model-proxy.agentcask-system.svc.cluster.local:8080/internal/model-proxy/v1"

abbrev pub default_string : Str → Str → Str
default_string v fallback = if str_eq v [] then fallback else v

abbrev pub profiles_or_default : Option Profiles → Profiles
profiles_or_default none = default_profiles
profiles_or_default (some p) = p

abbrev pub interval_or_default : ℤ → ℤ
interval_or_default n =
    if leb_ℤ n (pos 0) then (if leb_ℤ (pos 0) n then pos (2 * second) else n) else n

-- Reconciler.config, over DefaultConfig
unfoldable pub config : Config → Config
config c = record {
  namespace = default_string c.namespace (codes "agentcask-sessions");
  runtime_image = default_string c.runtime_image default_runtime_image;
  model_proxy_url = default_string c.model_proxy_url default_model_proxy_url;
  token_secret = default_string c.token_secret (codes "dev-session-proxy-secret");
  profiles = some (profiles_or_default c.profiles);
  reconcile_interval = interval_or_default c.reconcile_interval;
}

unfoldable pub has_finalizer : List Str → Str → Bool
has_finalizer [] finalizer = false
has_finalizer (value ∷ values) finalizer = str_eq value finalizer || has_finalizer values finalizer

unfoldable pub remove_finalizer : List Str → Str → List Str
remove_finalizer [] finalizer = []
remove_finalizer (value ∷ values) finalizer =
    let out = remove_finalizer values finalizer in
    if not (str_eq value finalizer) then value ∷ out else out

abbrev created_expiry : ℤ → Option Time → Option Time
created_expiry ttl none = none
created_expiry ttl (some t) = if leb_ℤ ttl (pos 0) then none else some (t +ℤ seconds ttl)

abbrev pub or_created : ℤ → Option Time → Option Time → Option Time
or_created ttl created none = created_expiry ttl created
or_created ttl created (some t) = some t

unfoldable pub expiry_time : AgentSession → Option Time
expiry_time s = or_created s.spec.ttl_seconds s.creation_timestamp s.status.expires_at

abbrev pub after : Time → Option Time → Bool
after now none = false
after now (some t) = ltb_ℤ t now

unfoldable pub expired : AgentSession → Time → Bool
expired s now = after now (expiry_time s)

abbrev pub first_time : Option Time → Time → Time
first_time none fallback = fallback
first_time (some t) fallback = t

abbrev pub or_after : Option Time → Time → ℤ → Option Time
or_after (some t) created ttl = some t
or_after none created ttl = if ltb_ℤ (pos 0) ttl then some (created +ℤ seconds ttl) else none

-- ensureStatusTimes: the status it leaves
unfoldable pub ensure_status_times : AgentSession → AgentSessionStatus → Time → AgentSessionStatus
ensure_status_times s status now =
    let created = first_time status.created_at (first_time s.creation_timestamp now) in
    record status {
      created_at = some created;
      expires_at = or_after status.expires_at created s.spec.ttl_seconds;
    }

unfoldable pub pod_name_of : Str → Str
pod_name_of session_id = codes "agent-session-" ++ session_id

abbrev pub quantities : Str → Str → Str → Dict Str
quantities cpu memory storage =
    (codes "cpu", cpu) ∷ (codes "memory", memory) ∷ (codes "ephemeral-storage", storage) ∷ []

-- resourcesFor: the requests, which are the limits too
unfoldable pub resources_for : Str → Dict Str
resources_for profile =
    if str_eq profile (codes "medium")
    then quantities (codes "250m") (codes "512Mi") (codes "1Gi")
    else if str_eq profile (codes "large")
    then quantities (codes "500m") (codes "1Gi") (codes "2Gi")
    else quantities (codes "50m") (codes "256Mi") (codes "512Mi")

-- the expiry of the token of a pod that is built now
unfoldable pub token_expiry : AgentSession → Time → Time
unfolding expiry_time
token_expiry s now =
    let ttl = s.spec.ttl_seconds in
    first_time (expiry_time s) (now +ℤ seconds (if leb_ℤ ttl (pos 0) then pos 7200 else ttl))

module _ (hmac : Str → Str → List ℕ) where
  unfoldable pub session_token : AgentSession → Config → Time → Str
  session_token s cfg now =
      generate_until hmac (record { secret = cfg.token_secret; ttl = pos 0 }) s.name
        (token_expiry s now)

  abbrev pub agent_container : AgentSession → Config → Str → Container
  agent_container s cfg token = record {
    name = container_name_agent;
    image = default_string cfg.runtime_image default_runtime_image;
    image_pull_policy = codes "IfNotPresent";
    command =
        codes "/bin/sh"
        ∷ codes "-lc"
        ∷ codes "trap : TERM INT; while true; do sleep 3600; done"
        ∷ [];
    stdin = true;
    tty = true;
    env =
        (codes "HOME", codes "/tmp/cask")
        ∷ (codes "XDG_CACHE_HOME", codes "/tmp/cask/.cache")
        ∷ (codes "XDG_CONFIG_HOME", codes "/tmp/cask/.config")
        ∷ (codes "XDG_DATA_HOME", codes "/tmp/cask/.local/share")
        ∷ (codes "OPENCODE_DISABLE_AUTOUPDATE", codes "true")
        ∷ (codes "CASK_MODEL_BASE_URL", default_string cfg.model_proxy_url default_model_proxy_url)
        ∷ (codes "CASK_SESSION_TOKEN", token)
        ∷ (codes "OPENAI_BASE_URL", default_string cfg.model_proxy_url default_model_proxy_url)
        ∷ (codes "ANTHROPIC_BASE_URL", default_string cfg.model_proxy_url default_model_proxy_url)
        ∷ (codes "OPENAI_API_KEY", token)
        ∷ (codes "ANTHROPIC_API_KEY", token)
        ∷ [];
    requests = resources_for s.spec.resource_profile;
    limits = resources_for s.spec.resource_profile;
    security = record {
      run_as_non_root = true;
      run_as_user = 65532;
      run_as_group = 65532;
      allow_privilege_escalation = false;
      read_only_root_filesystem = false;
      drop = codes "ALL" ∷ [];
    };
  }

  -- BuildPod
  unfoldable pub build_pod : AgentSession → Config → Profile → Time → Pod
  build_pod s cfg profile now = apply profile (record {
    name = pod_name_of s.name;
    namespace = s.namespace;
    labels =
        (label_component, codes "agent-session")
        ∷ (label_session_id, s.name)
        ∷ (label_user_id, s.spec.user_id)
        ∷ [];
    owner_references =
        (record { api_version = group_version; kind_name = kind; name = s.name; uid = s.uid }) ∷ [];
    spec = record {
      restart_policy = codes "Never";
      service_account_name = codes "agent-session";
      containers = agent_container s cfg (session_token s cfg now) ∷ [];
      seccomp_profile = codes "RuntimeDefault";
      runtime_class_name = none;
      node_selector = [];
      tolerations = [];
    };
  })
