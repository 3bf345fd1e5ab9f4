-- ===== src/Controller/Release.antt =====
-- When the controller takes its finalizer off a session.
use agentsty.Prelude.{
  ℕ, ◌≡◌, refl, sym, ◌∙◌, ◌≢◌, ◌⊎◌, inl, inr, true, Option, none, some, List, [], ◌∷◌, ◌++◌, Str,
  str_eq_refl, Result, ok, err, Bool-cases, arith,
}
use mathlib.Core.Option.{none-ne-some}
use agentsty.V1alpha1.{AgentSession, Time, finalizer}
use agentsty.Isolation.{check_runtime_class, Profile, ApiError, missing, failed}
use agentsty.Controller.{Config, has_finalizer, remove_finalizer, expired, pod_name_of}
use agentsty.Controller.Reconciler.{
  Fetched, unreadable, malformed, fetched, Cluster, Call, patched_finalizers, patched_status,
  created_pod, deleted_pod, patch, fail, cleanup, created, placed, classed, isolated, held,
  finalized, kept, by_deletion, by_fetched, reconcile,
}

has_finalizer-append : (values : List Str) (f : Str) → has_finalizer (values ++ f ∷ []) f ≡ true
unfolding has_finalizer
has_finalizer-append [] f = ground (arith, str_eq_refl f)
has_finalizer-append (value ∷ values) f = ground (arith, has_finalizer-append values f)

-- Every patch of finalizers leaves the controller's own in place.
pub KeepsFinalizer : List Call → Type 0
KeepsFinalizer [] = Unit
KeepsFinalizer (created_pod pod ∷ cs) = KeepsFinalizer cs
KeepsFinalizer (patched_finalizers name finalizers ∷ cs) =
    (has_finalizer finalizers finalizer ≡ true) × KeepsFinalizer cs
KeepsFinalizer (patched_status name status ∷ cs) = KeepsFinalizer cs
KeepsFinalizer (deleted_pod name ∷ cs) = KeepsFinalizer cs

module _ (hmac : Str → Str → List ℕ) (quote : Str → Str) (cluster : Cluster) (cfg : Config)
    (now later : Time) where
  created-KeepsFinalizer :
      (s : AgentSession) (answer : Option ApiError)
      → KeepsFinalizer (created hmac quote cluster cfg now later s answer).0
  unfolding created fail patch KeepsFinalizer
  created-KeepsFinalizer s none = tt
  created-KeepsFinalizer s (some e) = tt

  placed-KeepsFinalizer :
      (s : AgentSession) (profile : Profile) (answer : Result ApiError Str)
      → KeepsFinalizer (placed hmac quote cluster cfg now later s profile answer).0
  unfolding placed patch KeepsFinalizer
  placed-KeepsFinalizer s profile (ok phase) = tt
  placed-KeepsFinalizer s profile (err (failed e)) = tt
  placed-KeepsFinalizer s profile (err (missing e)) = created-KeepsFinalizer s _

  isolated-KeepsFinalizer :
      (s : AgentSession) (answer : Result Str Profile)
      → KeepsFinalizer (isolated hmac quote cluster cfg now later s answer).0
  unfolding isolated classed fail patch KeepsFinalizer
  isolated-KeepsFinalizer s (err e) = tt
  isolated-KeepsFinalizer s (ok profile) =
      by_class (check_runtime_class quote cluster.runtime_class profile)
    where
      by_class :
          (answer : Option Str)
          → KeepsFinalizer (classed hmac quote cluster cfg now later s profile answer).0
      by_class (some e) = tt
      by_class none = placed-KeepsFinalizer s profile _

  held-KeepsFinalizer :
      (s : AgentSession) → KeepsFinalizer (held hmac quote cluster cfg now later s).0
  unfolding held patch KeepsFinalizer
  held-KeepsFinalizer s = elim (Bool-cases (expired s now)) [
    | inl over ↦ rw (over, held) tt
    | inr live ↦ rw (live, held) (isolated-KeepsFinalizer s _)
  ]

  kept-KeepsFinalizer :
      (s : AgentSession) → KeepsFinalizer (kept hmac quote cluster cfg now later s).0
  unfolding kept finalized KeepsFinalizer
  kept-KeepsFinalizer s = elim (Bool-cases (has_finalizer s.finalizers finalizer)) [
    | inl there ↦ rw (there, kept) (held-KeepsFinalizer s)
    | inr lacks ↦
        rw (lacks, kept)
          (
            has_finalizer-append s.finalizers finalizer,
            by_patch (cluster.patch_finalizers s.name (s.finalizers ++ finalizer ∷ [])),
          )
  ]
    where
      by_patch :
          (answer : Option Str)
          → KeepsFinalizer (finalized hmac quote cluster cfg now later s answer).0
      by_patch (some e) = tt
      by_patch none = held-KeepsFinalizer s

  -- The session is being deleted, and the calls delete its pod, then take its finalizer off.
  pub record IsReleased (name : Str) (calls : List Call) : Type 0 where
    pub session : AgentSession
    pub found : cluster.session name ≡ fetched session
    pub deleted : session.deletion_timestamp ≢ none
    pub calls_made :
        calls
        ≡ deleted_pod (pod_name_of session.name)
          ∷ patched_finalizers session.name (remove_finalizer session.finalizers finalizer)
          ∷ []

  by_deletion-IsReleased :
      (name : Str) (s : AgentSession) (deleted : Option Time)
      → cluster.session name ≡ fetched s
      → s.deletion_timestamp ≡ deleted
      → IsReleased name (by_deletion hmac quote cluster cfg now later s deleted).0
        ⊎ KeepsFinalizer (by_deletion hmac quote cluster cfg now later s deleted).0
  unfolding by_deletion cleanup
  by_deletion-IsReleased name s (some t) there same = inl (record {
    session = s;
    found = there;
    deleted = λ e. none-ne-some t (sym e ∙ same);
    calls_made = refl;
  })
  by_deletion-IsReleased name s none there same = inr (kept-KeepsFinalizer s)

  by_fetched-IsReleased :
      (name : Str) (answer : Fetched)
      → cluster.session name ≡ answer
      → IsReleased name (by_fetched hmac quote cluster cfg now later answer).0
        ⊎ KeepsFinalizer (by_fetched hmac quote cluster cfg now later answer).0
  unfolding by_fetched KeepsFinalizer
  by_fetched-IsReleased name (unreadable (missing e)) there = inr tt
  by_fetched-IsReleased name (unreadable (failed e)) there = inr tt
  by_fetched-IsReleased name (malformed e) there = inr tt
  by_fetched-IsReleased name (fetched s) there =
      by_deletion-IsReleased name s s.deletion_timestamp there refl

  -- Either Reconcile finds a session that is being deleted, and its calls are to delete the session's
  -- pod and then to patch its finalizers to those left by removeFinalizer, or every patch of
  -- finalizers that it makes holds the controller's finalizer.
  pub reconcile-IsReleased :
      (name : Str)
      → IsReleased name (reconcile hmac quote cluster cfg now later name).0
        ⊎ KeepsFinalizer (reconcile hmac quote cluster cfg now later name).0
  unfolding reconcile
  reconcile-IsReleased name = by_fetched-IsReleased name (cluster.session name) refl
