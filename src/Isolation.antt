-- ===== src/Isolation.antt =====
-- internal/isolation/isolation.go: isolation profiles, and the pods they are applied to.
-- The types of corev1 are records of the fields that the program sets. `quote` is the verb %q of
-- the package fmt; an error of the Kubernetes API is `missing` if IsNotFound holds of it.
use agentsty.Prelude.{
  ℕ, Bool, Option, none, some, List, [], ◌∷◌, ◌++◌, Str, codes, str_eq, Dict, lookup, ℤ, Result, ok,
  err, if◌then◌else◌,
}

pub record Toleration : Type 0 where
  pub key : Str
  pub operator : Str
  pub value : Str
  pub effect : Str
  pub toleration_seconds : Option ℤ

pub record Profile : Type 0 where
  pub runtime_class_name : Str
  pub node_selector : Dict Str
  pub tolerations : List Toleration

abbrev pub Profiles : Type 0
Profiles = Dict Profile

unfoldable pub default_profiles : Profiles
default_profiles =
    (codes "default", record { runtime_class_name = []; node_selector = []; tolerations = [] })
    ∷ (
      codes "kata",
      record { runtime_class_name = codes "kata"; node_selector = []; tolerations = [] },
    )
    ∷ []

pub record SecurityContext : Type 0 where
  pub run_as_non_root : Bool
  pub run_as_user : ℕ
  pub run_as_group : ℕ
  pub allow_privilege_escalation : Bool
  pub read_only_root_filesystem : Bool
  pub drop : List Str

pub record Container : Type 0 where
  pub name : Str
  pub image : Str
  pub image_pull_policy : Str
  pub command : List Str
  pub stdin : Bool
  pub tty : Bool
  pub env : List (Str × Str)
  pub requests : Dict Str
  pub limits : Dict Str
  pub security : SecurityContext

pub record OwnerReference : Type 0 where
  pub api_version : Str
  pub kind_name : Str
  pub name : Str
  pub uid : Str

pub record PodSpec : Type 0 where
  pub restart_policy : Str
  pub service_account_name : Str
  pub containers : List Container
  pub seccomp_profile : Str
  pub runtime_class_name : Option Str
  pub node_selector : Dict Str
  pub tolerations : List Toleration

pub record Pod : Type 0 where
  pub name : Str
  pub namespace : Str
  pub labels : Dict Str
  pub owner_references : List OwnerReference
  pub spec : PodSpec

pub data ApiError : Type 0 where
  missing : Str → ApiError
  failed : Str → ApiError

abbrev pub api_error_text : ApiError → Str
api_error_text (missing e) = e
api_error_text (failed e) = e

abbrev pub supported : (Str → Str) → Str → Option Profile → Result Str Profile
supported quote name none = err (codes "unsupported isolation profile " ++ quote name)
supported quote name (some profile) =
    if str_eq name []
    then err (codes "unsupported isolation profile " ++ quote name)
    else ok profile

-- Profiles.Resolve
unfoldable pub resolve : (Str → Str) → Profiles → Str → Result Str Profile
resolve quote p name = supported quote name (lookup name p)

abbrev if_some {ℓ} : {A : Type ℓ} → List A → List A → List A
if_some [] old = old
if_some (x ∷ xs) old = x ∷ xs

-- Apply
unfoldable pub apply : Profile → Pod → Pod
apply p pod = record pod {
  spec = record (pod.spec) {
    runtime_class_name =
        if str_eq p.runtime_class_name []
        then pod.spec.runtime_class_name
        else some p.runtime_class_name;
    node_selector = if_some p.node_selector pod.spec.node_selector;
    tolerations = if_some p.tolerations pod.spec.tolerations;
  };
}

abbrev pub class_error : (Str → Str) → Str → Option ApiError → Option Str
class_error quote name none = none
class_error quote name (some (missing e)) =
    some (codes "runtimeclass " ++ (quote name ++ codes " not found"))
class_error quote name (some (failed e)) = some e

-- CheckRuntimeClass, on what the API answers for a runtime class
unfoldable pub check_runtime_class : (Str → Str) → (Str → Option ApiError) → Profile → Option Str
check_runtime_class quote runtime_class p =
    if str_eq p.runtime_class_name []
    then none
    else class_error quote p.runtime_class_name (runtime_class p.runtime_class_name)
