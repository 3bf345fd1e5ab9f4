-- ===== src/Kube.antt =====
-- internal/kube/client.go: sessions as objects of the Kubernetes API, and the session client, which is
-- the store that the API server runs on.
-- A map[string]any is a list of fields; a number in it is kept as its conversion to int64. Parameters:
-- the package unstructured (`Unstructured`), the dynamic client (`Dynamic`), and what the package
-- time prints and reads for RFC3339. A patch is the map of which json.Marshal makes the bytes sent.
pub mod RoundTrip
pub mod Objects
pub mod Client
pub mod Config
pub mod Listing
pub mod Tests
use agentsty.Prelude.{
  ℕ, Bool, true, false, ◌||◌, Option, none, some, List, [], ◌∷◌, Str, codes, str_eq, Dict, ℤ, pos,
  contains, Result, ok, err, if◌then◌else◌,
}
use agentsty.V1alpha1.{
  RepoSpec, IsolationSpec, AgentSessionSpec, AgentSessionStatus, ObjectMeta, AgentSession, Time,
  group_version, kind, container_name_agent,
}
use agentsty.Api.Store.{Store}

abbrev pub default_session_namespace : Str
default_session_namespace = codes "agentcask-sessions"

mutual
  pub data Value : Type 0 where
    text : Str → Value
    number : ℤ → Value
    boolean : Bool → Value
    texts : List Str → Value
    object : Fields → Value
    other : Value

  pub data Fields : Type 0 where
    end : Fields
    field : Str → Value → Fields → Fields

-- `m[key]`
unfoldable pub get_field : Str → Fields → Option Value
unfolding str_eq
get_field key end = none
get_field key (field k v m) = if str_eq k key then some v else get_field key m

abbrev pub string_value : Option Value → Str
string_value (some (text s)) = s
string_value _ = []

abbrev pub int64_value : Option Value → ℤ
int64_value (some (number n)) = n
int64_value _ = pos 0

abbrev pub bool_value : Option Value → Bool
bool_value (some (boolean b)) = b
bool_value _ = false

abbrev pub default_string : Str → Str → Str
default_string v fallback = if str_eq v [] then fallback else v

-- The functions of the package unstructured that the client calls, on the content of an object.
pub record Unstructured : Type 0 where
  pub nested_map : Fields → Str → Result Str (Option Fields)
  pub set_finalizers : List Str → Fields → Fields
  pub set_uid : Str → Fields → Fields
  pub get_name : Fields → Str
  pub get_namespace : Fields → Str
  pub get_uid : Fields → Str
  pub get_labels : Fields → Dict Str
  pub get_finalizers : Fields → List Str
  pub get_creation_timestamp : Fields → Option Time
  pub get_deletion_timestamp : Fields → Option Time

-- stringMapToInterface
unfoldable pub string_map_to_interface : Dict Str → Fields
string_map_to_interface [] = end
string_map_to_interface ((k, v) ∷ m) = field k (text v) (string_map_to_interface m)

unfoldable pub spec_to_map : AgentSessionSpec → Fields
spec_to_map spec = field (codes "userId") (text spec.user_id) (
    field (codes "tool") (text spec.tool) (
      field (codes "repo")
        (object (
          field (codes "url") (text spec.repo.url)
            (field (codes "branch") (text spec.repo.branch) end)))
        (field (codes "modelRef") (text spec.model_ref) (
          field (codes "resourceProfile") (text spec.resource_profile) (
            field (codes "isolation")
              (object (field (codes "profile") (text spec.isolation.profile) end))
              (field (codes "ttlSeconds") (number spec.ttl_seconds) end))))))

-- what is left of NestedMap's results where its error and its flag are dropped: the nil map is empty
abbrev pub map_or_nil : Result Str (Option Fields) → Fields
map_or_nil (ok (some m)) = m
map_or_nil (ok none) = end
map_or_nil (err e) = end

module _ (u : Unstructured) where
  unfoldable pub spec_from_map : Fields → AgentSessionSpec
  unfolding get_field
  spec_from_map m =
      let repo = map_or_nil (u.nested_map m (codes "repo")) in
      let isolation = map_or_nil (u.nested_map m (codes "isolation")) in
      record {
        user_id = string_value (get_field (codes "userId") m);
        tool = string_value (get_field (codes "tool") m);
        repo = record {
          url = string_value (get_field (codes "url") repo);
          branch = string_value (get_field (codes "branch") repo);
        };
        model_ref = string_value (get_field (codes "modelRef") m);
        resource_profile = string_value (get_field (codes "resourceProfile") m);
        isolation = record { profile = string_value (get_field (codes "profile") isolation) };
        ttl_seconds = int64_value (get_field (codes "ttlSeconds") m);
      }

-- the zero values of the two structs
abbrev pub empty_spec : AgentSessionSpec
empty_spec = record {
  user_id = [];
  tool = [];
  repo = record { url = []; branch = [] };
  model_ref = [];
  resource_profile = [];
  isolation = record { profile = [] };
  ttl_seconds = pos 0;
}

abbrev pub empty_status : AgentSessionStatus
empty_status = record {
  phase = [];
  reason = [];
  message = [];
  pod_name = [];
  container_name = [];
  terminal_ready = false;
  created_at = none;
  expires_at = none;
}

module _ (format_time : Time → Str) (parse_time : Str → Option Time) where
  abbrev pub with_time : Str → Option Time → Fields → Fields
  with_time key none m = m
  with_time key (some t) m = field key (text (format_time t)) m

  unfoldable pub status_to_map : AgentSessionStatus → Fields
  status_to_map status = field (codes "phase") (text status.phase) (
      field (codes "reason") (text status.reason) (
        field (codes "message") (text status.message) (
          field (codes "podName") (text status.pod_name) (
            field (codes "containerName") (text status.container_name) (
              field (codes "terminalReady") (boolean status.terminal_ready) (
                with_time (codes "createdAt") status.created_at
                  (with_time (codes "expiresAt") status.expires_at end)))))))

  -- parseTimePtr
  unfoldable pub parse_time_ptr : Str → Option Time
  parse_time_ptr s = if str_eq s [] then none else parse_time s

  unfoldable pub status_from_map : Fields → AgentSessionStatus
  unfolding get_field parse_time_ptr
  status_from_map m = record {
    phase = string_value (get_field (codes "phase") m);
    reason = string_value (get_field (codes "reason") m);
    message = string_value (get_field (codes "message") m);
    pod_name = string_value (get_field (codes "podName") m);
    container_name =
        default_string (string_value (get_field (codes "containerName") m)) container_name_agent;
    terminal_ready = bool_value (get_field (codes "terminalReady") m);
    created_at = parse_time_ptr (string_value (get_field (codes "createdAt") m));
    expires_at = parse_time_ptr (string_value (get_field (codes "expiresAt") m));
  }

  module _ (u : Unstructured) where
    abbrev pub with_status : AgentSessionStatus → Fields
    with_status status =
        if str_eq status.phase []
        then end
        else field (codes "status") (object (status_to_map status)) end

    abbrev pub object_of : AgentSession → Fields
    object_of s = field (codes "apiVersion") (text group_version) (
        field (codes "kind") (text kind) (
          field (codes "metadata")
            (object (
              field (codes "name") (text s.name) (
                field (codes "namespace") (text s.namespace)
                  (field (codes "labels") (object (string_map_to_interface s.labels)) end))))
            (field (codes "spec") (object (spec_to_map s.spec)) (with_status s.status))))

    abbrev pub with_finalizers : List Str → Fields → Fields
    with_finalizers [] o = o
    with_finalizers (f ∷ fs) o = u.set_finalizers (f ∷ fs) o

    abbrev pub with_uid : Str → Fields → Fields
    with_uid uid o = if str_eq uid [] then o else u.set_uid uid o

    -- ToUnstructured; the status, which the source adds last, stands in the object from the start
    unfoldable pub to_unstructured : AgentSession → Fields
    to_unstructured s = with_uid s.uid (with_finalizers s.finalizers (object_of s))

    abbrev pub session_of : Fields → AgentSessionSpec → AgentSessionStatus → AgentSession
    session_of o spec status = record {
      api_version = group_version;
      kind_name = kind;
      meta = record {
        name = u.get_name o;
        namespace = u.get_namespace o;
        uid = u.get_uid o;
        labels = u.get_labels o;
        finalizers = u.get_finalizers o;
        creation_timestamp = u.get_creation_timestamp o;
        deletion_timestamp = u.get_deletion_timestamp o;
      };
      spec = spec;
      status = status;
    }

    abbrev pub spec_or_empty : Option Fields → AgentSessionSpec
    spec_or_empty none = empty_spec
    spec_or_empty (some m) = spec_from_map u m

    abbrev pub status_or_empty : Option Fields → AgentSessionStatus
    status_or_empty none = empty_status
    status_or_empty (some m) = status_from_map m

    abbrev pub read_status :
        Fields → AgentSessionSpec → Result Str (Option Fields) → Result Str AgentSession
    read_status o spec (err e) = err e
    read_status o spec (ok status) = ok (session_of o spec (status_or_empty status))

    abbrev pub read_spec : Fields → Result Str (Option Fields) → Result Str AgentSession
    read_spec o (err e) = err e
    read_spec o (ok spec) = read_status o (spec_or_empty spec) (u.nested_map o (codes "status"))

    -- FromUnstructured; nil is `none`
    unfoldable pub from_unstructured : Option Fields → Result Str AgentSession
    from_unstructured none = err (codes "nil AgentSession object")
    from_unstructured (some o) = read_spec o (u.nested_map o (codes "spec"))
