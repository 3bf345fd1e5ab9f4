-- ===== src/Controller/Statuses.antt =====
-- What the controller writes into a session's status.
use agentsty.Prelude.{
  ℕ, ◌≡◌, refl, sym, ◌≢◌, inl, inr, Bool, true, false, Option, none, some, List, [], ◌∷◌, ◌++◌, Str,
  Result, ok, err, str_eq, Bool-cases,
}
use mathlib.Core.Option.{none-ne-some}
use agentsty.V1alpha1.{
  AgentSession, AgentSessionStatus, Time, finalizer, phase_running, phase_failed,
}
use agentsty.Redact.{redact}
use agentsty.Isolation.{check_runtime_class, Profile, ApiError, missing, failed}
use agentsty.Controller.{Config, has_finalizer, expired, pod_name_of, ensure_status_times}
use agentsty.Controller.Reconciler.{
  Fetched, unreadable, malformed, fetched, Cluster, Call, patched_finalizers, patched_status,
  created_pod, deleted_pod, is_up, expired_status, failed_status, pod_status, patch, fail, cleanup,
  created, placed, classed, isolated, held, finalized, kept, by_deletion, by_fetched, reconcile,
}

-- A property of every status that the calls write.
pub EachStatus : (AgentSessionStatus → Type 0) → List Call → Type 0
EachStatus P [] = Unit
EachStatus P (created_pod pod ∷ cs) = EachStatus P cs
EachStatus P (patched_finalizers name finalizers ∷ cs) = EachStatus P cs
EachStatus P (patched_status name status ∷ cs) = P status × EachStatus P cs
EachStatus P (deleted_pod name ∷ cs) = EachStatus P cs

module _ (hmac : Str → Str → List ℕ) (quote : Str → Str) (cluster : Cluster) (cfg : Config)
    (now later : Time) where
  -- running, for a pod of that name that is up
  pub IsUp : Bool → AgentSessionStatus → Type 0
  IsUp false status = Unit
  IsUp true status =
      (status.phase ≡ phase_running)
      × ((phase : Str) × (cluster.pod_phase status.pod_name ≡ ok phase) × (is_up phase ≡ true))

  pub IsRedacted : Bool → Str → Type 0
  IsRedacted false message = Unit
  IsRedacted true message = (m : Str) × (message ≡ redact m)

  -- The creation time is set; the terminal is ready only in phase Running, for a pod that is up,
  -- under the pod's name; and in phase Failed the message is a redacted one.
  pub record IsSound (status : AgentSessionStatus) : Type 0 where
    pub timed : status.created_at ≢ none
    pub up : IsUp status.terminal_ready status
    pub redacted : IsRedacted (str_eq status.phase phase_failed) status.message

  expired-IsSound : (s : AgentSession) → IsSound (expired_status s later)
  unfolding expired_status ensure_status_times str_eq IsUp IsRedacted
  expired-IsSound s = record { timed = λ e. none-ne-some _ (sym e); up = tt; redacted = tt }

  failed-IsSound :
      (s : AgentSession) (reason message : Str) → IsSound (failed_status s reason message later)
  unfolding failed_status ensure_status_times str_eq IsUp IsRedacted
  failed-IsSound s reason message = record {
    timed = λ e. none-ne-some _ (sym e);
    up = tt;
    redacted = (message, refl);
  }

  waiting-IsSound : (s : AgentSession) → IsSound (pod_status s false later)
  unfolding pod_status ensure_status_times str_eq IsUp IsRedacted
  waiting-IsSound s = record { timed = λ e. none-ne-some _ (sym e); up = tt; redacted = tt }

  running-IsSound :
      (s : AgentSession) (phase : Str)
      → cluster.pod_phase (pod_name_of s.name) ≡ ok phase
      → is_up phase ≡ true
      → IsSound (pod_status s true later)
  unfolding pod_status ensure_status_times str_eq IsUp IsRedacted
  running-IsSound s phase there is_on = record {
    timed = λ e. none-ne-some _ (sym e);
    up = (refl, (phase, there, is_on));
    redacted = tt;
  }

  patch-IsSound :
      (s : AgentSession) (status : AgentSessionStatus)
      → IsSound status
      → EachStatus IsSound (patch hmac quote cluster cfg now later s status).0
  unfolding patch EachStatus
  patch-IsSound s status h = (h, tt)

  fail-IsSound :
      (s : AgentSession) (reason message : Str)
      → EachStatus IsSound (fail hmac quote cluster cfg now later s reason message).0
  unfolding fail
  fail-IsSound s reason message = patch-IsSound s _ (failed-IsSound s reason message)

  created-IsSound :
      (s : AgentSession) (answer : Option ApiError)
      → EachStatus IsSound (created hmac quote cluster cfg now later s answer).0
  unfolding created
  created-IsSound s none = patch-IsSound s _ (waiting-IsSound s)
  created-IsSound s (some e) = fail-IsSound s _ _

  placed-IsSound :
      (s : AgentSession) (profile : Profile) (answer : Result ApiError Str)
      → cluster.pod_phase (pod_name_of s.name) ≡ answer
      → EachStatus IsSound (placed hmac quote cluster cfg now later s profile answer).0
  unfolding placed EachStatus
  placed-IsSound s profile (ok phase) there = patch-IsSound s _ (by_phase (is_up phase) refl)
    where
      by_phase : (up : Bool) → is_up phase ≡ up → IsSound (pod_status s up later)
      by_phase true e = running-IsSound s phase there e
      by_phase false e = waiting-IsSound s
  placed-IsSound s profile (err (failed e)) there = tt
  placed-IsSound s profile (err (missing e)) there = created-IsSound s _

  isolated-IsSound :
      (s : AgentSession) (answer : Result Str Profile)
      → EachStatus IsSound (isolated hmac quote cluster cfg now later s answer).0
  unfolding isolated classed
  isolated-IsSound s (err e) = fail-IsSound s _ e
  isolated-IsSound s (ok profile) =
      by_class (check_runtime_class quote cluster.runtime_class profile)
    where
      by_class :
          (answer : Option Str)
          → EachStatus IsSound (classed hmac quote cluster cfg now later s profile answer).0
      by_class (some e) = fail-IsSound s _ e
      by_class none = placed-IsSound s profile _ refl

  held-IsSound : (s : AgentSession) → EachStatus IsSound (held hmac quote cluster cfg now later s).0
  unfolding held EachStatus
  held-IsSound s = elim (Bool-cases (expired s now)) [
    | inl over ↦ rw (over, held) (patch-IsSound s _ (expired-IsSound s))
    | inr live ↦ rw (live, held) (isolated-IsSound s _)
  ]

  kept-IsSound : (s : AgentSession) → EachStatus IsSound (kept hmac quote cluster cfg now later s).0
  unfolding kept finalized EachStatus
  kept-IsSound s = elim (Bool-cases (has_finalizer s.finalizers finalizer)) [
    | inl there ↦ rw (there, kept) (held-IsSound s)
    | inr lacks ↦
        rw (lacks, kept)
          (by_patch (cluster.patch_finalizers s.name (s.finalizers ++ finalizer ∷ [])))
  ]
    where
      by_patch :
          (answer : Option Str)
          → EachStatus IsSound (finalized hmac quote cluster cfg now later s answer).0
      by_patch (some e) = tt
      by_patch none = held-IsSound s

  by_fetched-IsSound :
      (answer : Fetched) → EachStatus IsSound (by_fetched hmac quote cluster cfg now later answer).0
  unfolding by_fetched by_deletion cleanup EachStatus
  by_fetched-IsSound (unreadable (missing e)) = tt
  by_fetched-IsSound (unreadable (failed e)) = tt
  by_fetched-IsSound (malformed e) = tt
  by_fetched-IsSound (fetched s) = by_time s.deletion_timestamp
    where
      by_time :
          (deleted : Option Time)
          → EachStatus IsSound (by_deletion hmac quote cluster cfg now later s deleted).0
      by_time (some t) = tt
      by_time none = kept-IsSound s

  -- Every status that Reconcile writes has its creation time set; its terminal is ready only in
  -- phase Running, for a pod of that name that was read as running or succeeded; and in phase Failed
  -- its message is one that redact.String returned.
  pub reconcile-IsSound :
      (name : Str) → EachStatus IsSound (reconcile hmac quote cluster cfg now later name).0
  unfolding reconcile
  reconcile-IsSound name = by_fetched-IsSound (cluster.session name)
