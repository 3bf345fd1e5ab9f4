-- ===== src/V1alpha1.antt =====
-- api/v1alpha1/types.go: the AgentSession resource, its validation and its constructor.
-- A Go error is `some` of the reason, nil is `none`; the message text of an error is not built.
pub mod Validity
pub mod Tests
use agentsty.Prelude.{
  ℕ, ◌*◌, ◌^◌, Bool, true, false, ◌||◌, not, Option, none, some, List, [], ◌∷◌, ◌++◌, Str, codes,
  str_eq, mem_text, trim_space, ℤ, pos, leb_ℤ, ltb_ℤ, ◌+ℤ◌, scale, wrap64, Dict, if◌then◌else◌,
}

abbrev pub group_name : Str
group_name = codes "agentcask.aidev.samsungds.net"

abbrev pub group_version : Str
group_version = codes "agentcask.aidev.samsungds.net/v1alpha1"

abbrev pub kind : Str
kind = codes "AgentSession"

abbrev pub finalizer : Str
finalizer = codes "agentcask.aidev.samsungds.net/finalizer"

abbrev pub label_session_id : Str
label_session_id = codes "agentcask.aidev.samsungds.net/session-id"

abbrev pub label_user_id : Str
label_user_id = codes "agentcask.aidev.samsungds.net/user-id"

abbrev pub label_component : Str
label_component = codes "agentcask.aidev.samsungds.net/component"

abbrev pub container_name_agent : Str
container_name_agent = codes "agent"

abbrev pub phase_pending : Str
phase_pending = codes "Pending"

abbrev pub phase_provisioning : Str
phase_provisioning = codes "Provisioning"

abbrev pub phase_running : Str
phase_running = codes "Running"

abbrev pub phase_failed : Str
phase_failed = codes "Failed"

abbrev pub phase_terminating : Str
phase_terminating = codes "Terminating"

abbrev pub phase_expired : Str
phase_expired = codes "Expired"

abbrev pub reason_unsupported_isolation_profile : Str
reason_unsupported_isolation_profile = codes "UnsupportedIsolationProfile"

abbrev pub reason_runtime_class_not_found : Str
reason_runtime_class_not_found = codes "RuntimeClassNotFound"

abbrev pub reason_pod_create_failed : Str
reason_pod_create_failed = codes "PodCreateFailed"

abbrev pub reason_expired : Str
reason_expired = codes "Expired"

abbrev pub allowed_tools : List Str
allowed_tools =
    codes "opencode"
    ∷ codes "claude-code"
    ∷ codes "codex"
    ∷ codes "openclaw"
    ∷ codes "hermes"
    ∷ codes "stub"
    ∷ []

abbrev pub allowed_model_refs : List Str
allowed_model_refs = codes "default" ∷ []

abbrev pub allowed_resource_profiles : List Str
allowed_resource_profiles = codes "small" ∷ codes "medium" ∷ codes "large" ∷ []

abbrev pub allowed_isolation_profiles : List Str
allowed_isolation_profiles = codes "default" ∷ codes "kata" ∷ []

-- nanoseconds since the Unix epoch
abbrev pub Time : Type 0
Time = ℤ

-- time.Second
abbrev pub second : ℕ
second = 1_000_000_000

-- `time.Duration(seconds) * time.Second`, in int64
unfoldable pub seconds : ℤ → ℤ
unfolding scale wrap64
seconds n = wrap64 (scale n second)

pub record RepoSpec : Type 0 where
  pub url : Str
  pub branch : Str

pub record IsolationSpec : Type 0 where
  pub profile : Str

pub record AgentSessionSpec : Type 0 where
  pub user_id : Str
  pub tool : Str
  pub repo : RepoSpec
  pub model_ref : Str
  pub resource_profile : Str
  pub isolation : IsolationSpec
  pub ttl_seconds : ℤ

pub record AgentSessionStatus : Type 0 where
  pub phase : Str
  pub reason : Str
  pub message : Str
  pub pod_name : Str
  pub container_name : Str
  pub terminal_ready : Bool
  pub created_at : Option Time
  pub expires_at : Option Time

-- The fields of metav1.ObjectMeta that the program uses; the zero creation time is `none`.
pub record ObjectMeta : Type 0 where
  pub name : Str
  pub namespace : Str
  pub uid : Str
  pub labels : Dict Str
  pub finalizers : List Str
  pub creation_timestamp : Option Time
  pub deletion_timestamp : Option Time

pub record AgentSession : Type 0 where
  pub api_version : Str
  pub kind_name : Str
  pub meta : ObjectMeta
  pub open meta use *
  pub spec : AgentSessionSpec
  pub status : AgentSessionStatus

unfoldable pub new_agent_session : Str → Str → AgentSessionSpec → Time → AgentSession
new_agent_session name namespace spec now = record {
  api_version = group_version;
  kind_name = kind;
  meta = record {
    name = name;
    namespace = namespace;
    uid = [];
    labels = (label_session_id, name) ∷ (label_user_id, spec.user_id) ∷ [];
    finalizers = [];
    creation_timestamp = none;
    deletion_timestamp = none;
  };
  spec = spec;
  status = record {
    phase = phase_pending;
    reason = [];
    message = [];
    pod_name = [];
    container_name = container_name_agent;
    terminal_ready = false;
    created_at = some now;
    expires_at = some (now +ℤ seconds spec.ttl_seconds);
  };
}

pub data SpecError : Type 0 where
  user_id_required : SpecError
  unsupported_tool unsupported_model_ref unsupported_resource_profile : Str → SpecError
  unsupported_isolation_profile : Str → SpecError
  ttl_out_of_range : SpecError

unfoldable pub validate : AgentSessionSpec → Option SpecError
validate s =
    if str_eq (trim_space s.user_id) []
    then some user_id_required
    else if not (mem_text s.tool allowed_tools)
    then some (unsupported_tool s.tool)
    else if not (mem_text s.model_ref allowed_model_refs)
    then some (unsupported_model_ref s.model_ref)
    else if not (mem_text s.resource_profile allowed_resource_profiles)
    then some (unsupported_resource_profile s.resource_profile)
    else if not (mem_text s.isolation.profile allowed_isolation_profiles)
    then some (unsupported_isolation_profile s.isolation.profile)
    else if leb_ℤ s.ttl_seconds (pos 0) || ltb_ℤ (pos (24 * 60 * 60)) s.ttl_seconds
    then some ttl_out_of_range
    else none
