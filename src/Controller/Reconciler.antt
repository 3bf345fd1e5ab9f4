-- ===== src/Controller/Reconciler.antt =====
-- internal/controller/controller.go: Reconcile, and what it does to the cluster.
-- What the Kubernetes API answers in one call of Reconcile is a `Cluster`; each request is made at
-- most once in it. `now` is the time at the test of the expiry, `later` the time at which the
-- status or the pod is written. `cfg` is what Reconciler.config returns, whose namespace every
-- request uses.
use agentsty.Prelude.{
  Bool, false, ◌||◌, Option, none, some, List, [], ◌∷◌, ◌++◌, Str, codes, str_eq, Result, ok, err,
  if◌then◌else◌, ℕ,
}
use agentsty.V1alpha1.{
  AgentSession, AgentSessionStatus, Time, finalizer, phase_expired, phase_failed,
  phase_provisioning, phase_running, reason_expired, reason_unsupported_isolation_profile,
  reason_runtime_class_not_found, reason_pod_create_failed, container_name_agent,
}
use agentsty.Redact.{redact}
use agentsty.Isolation.{
  Profile, Pod, ApiError, missing, failed, api_error_text, resolve, check_runtime_class,
}
use agentsty.Controller.{
  Config, profiles_or_default, has_finalizer, remove_finalizer, expired, ensure_status_times,
  pod_name_of, build_pod,
}

-- what reading a session gives; `malformed` is an error of FromUnstructured
pub data Fetched : Type 0 where
  unreadable : ApiError → Fetched
  malformed : Str → Fetched
  fetched : AgentSession → Fetched

pub record Cluster : Type 0 where
  pub session : Str → Fetched
  pub pod_phase : Str → Result ApiError Str
  pub runtime_class : Str → Option ApiError
  pub create_pod : Pod → Option ApiError
  pub patch_finalizers : Str → List Str → Option Str
  pub patch_status : Str → AgentSessionStatus → Option Str

-- the requests that change the cluster
pub data Call : Type 0 where
  patched_finalizers : Str → List Str → Call
  patched_status : Str → AgentSessionStatus → Call
  created_pod : Pod → Call
  deleted_pod : Str → Call

-- the calls, in order, and the error that is returned
abbrev pub Outcome : Type 0
Outcome = List Call × Option Str

abbrev pub then_calls : Call → Outcome → Outcome
then_calls c (cs, e) = (c ∷ cs, e)

-- the pod is there for the session's use
abbrev pub is_up : Str → Bool
is_up phase = str_eq phase (codes "Running") || str_eq phase (codes "Succeeded")

unfoldable pub expired_status : AgentSession → Time → AgentSessionStatus
unfolding ensure_status_times
expired_status s later =
    ensure_status_times s
      (record (s.status) {
        phase = phase_expired;
        reason = reason_expired;
        message = codes "session ttl expired";
        terminal_ready = false;
      })
      later

unfoldable pub failed_status : AgentSession → Str → Str → Time → AgentSessionStatus
unfolding ensure_status_times
failed_status s reason message later =
    ensure_status_times s
      (record (s.status) {
        phase = phase_failed;
        reason = reason;
        message = redact message;
        terminal_ready = false;
      })
      later

-- the status for a pod, and whether it is up
unfoldable pub pod_status : AgentSession → Bool → Time → AgentSessionStatus
unfolding ensure_status_times
pod_status s up later =
    ensure_status_times s
      (record (s.status) {
        pod_name = pod_name_of s.name;
        container_name = container_name_agent;
        phase = if up then phase_running else phase_provisioning;
        terminal_ready = up;
      })
      later

module _ (hmac : Str → Str → List ℕ) (quote : Str → Str) (cluster : Cluster) (cfg : Config)
    (now later : Time) where
  unfoldable pub patch : AgentSession → AgentSessionStatus → Outcome
  patch s status = (patched_status s.name status ∷ [], cluster.patch_status s.name status)

  unfoldable pub fail : AgentSession → Str → Str → Outcome
  unfolding patch
  fail s reason message = patch s (failed_status s reason message later)

  unfoldable pub cleanup : AgentSession → Outcome
  cleanup s =
      let finalizers = remove_finalizer s.finalizers finalizer in
      (
        deleted_pod (pod_name_of s.name) ∷ patched_finalizers s.name finalizers ∷ [],
        cluster.patch_finalizers s.name finalizers,
      )

  unfoldable pub created : AgentSession → Option ApiError → Outcome
  unfolding fail patch
  created s (some e) = fail s reason_pod_create_failed (api_error_text e)
  created s none = patch s (pod_status s false later)

  -- what the pod's read gives
  unfoldable pub placed : AgentSession → Profile → Result ApiError Str → Outcome
  unfolding created patch
  placed s profile (ok phase) = patch s (pod_status s (is_up phase) later)
  placed s profile (err (failed e)) = ([], some e)
  placed s profile (err (missing e)) =
      let pod = build_pod hmac s cfg profile later in
      then_calls (created_pod pod) (created s (cluster.create_pod pod))

  unfoldable pub classed : AgentSession → Profile → Option Str → Outcome
  unfolding placed fail
  classed s profile (some e) = fail s reason_runtime_class_not_found e
  classed s profile none = placed s profile (cluster.pod_phase (pod_name_of s.name))

  unfoldable pub isolated : AgentSession → Result Str Profile → Outcome
  unfolding classed fail
  isolated s (err e) = fail s reason_unsupported_isolation_profile e
  isolated s (ok profile) =
      classed s profile (check_runtime_class quote cluster.runtime_class profile)

  -- the session holds the finalizer
  unfoldable pub held : AgentSession → Outcome
  unfolding isolated patch
  held s =
      if expired s now
      then then_calls (deleted_pod (pod_name_of s.name)) (patch s (expired_status s later))
      else isolated s (resolve quote (profiles_or_default cfg.profiles) s.spec.isolation.profile)

  -- after the patch that adds the finalizer
  unfoldable pub finalized : AgentSession → Option Str → Outcome
  unfolding held
  finalized s (some e) = ([], some e)
  finalized s none = held s

  unfoldable pub kept : AgentSession → Outcome
  unfolding finalized held
  kept s =
      let finalizers = s.finalizers ++ finalizer ∷ [] in
      if has_finalizer s.finalizers finalizer
      then held s
      else then_calls (patched_finalizers s.name finalizers)
          (finalized s (cluster.patch_finalizers s.name finalizers))

  unfoldable pub by_deletion : AgentSession → Option Time → Outcome
  unfolding kept cleanup
  by_deletion s (some t) = cleanup s
  by_deletion s none = kept s

  unfoldable pub by_fetched : Fetched → Outcome
  unfolding by_deletion
  by_fetched (unreadable (missing e)) = ([], none)
  by_fetched (unreadable (failed e)) = ([], some e)
  by_fetched (malformed e) = ([], some e)
  by_fetched (fetched s) = by_deletion s s.deletion_timestamp

  -- Reconciler.Reconcile
  unfoldable pub reconcile : Str → Outcome
  unfolding by_fetched
  reconcile name = by_fetched (cluster.session name)
