-- ===== src/Controller/Placement.antt =====
-- When the controller creates a pod, and which.
use agentsty.Prelude.{
  ℕ, ◌≡◌, refl, subst, ◌⊎◌, inl, inr, true, false, Option, none, some, List, [], ◌∷◌, ◌++◌, Str,
  Result, ok, err, In, Bool-cases,
}
use agentsty.V1alpha1.{AgentSession, Time, finalizer}
use agentsty.Isolation.{Profile, Pod, ApiError, missing, failed, resolve, check_runtime_class}
use agentsty.Controller.{
  Config, profiles_or_default, has_finalizer, expired, pod_name_of, build_pod,
}
use agentsty.Controller.Reconciler.{
  Fetched, unreadable, malformed, fetched, Cluster, Call, patched_finalizers, patched_status,
  created_pod, deleted_pod, patch, fail, cleanup, created, placed, classed, isolated, held,
  finalized, kept, by_deletion, by_fetched, reconcile,
}

-- the pods that are created
unfoldable pub pods : List Call → List Pod
pods [] = []
pods (created_pod pod ∷ cs) = pod ∷ pods cs
pods (patched_finalizers name finalizers ∷ cs) = pods cs
pods (patched_status name status ∷ cs) = pods cs
pods (deleted_pod name ∷ cs) = pods cs

module _ (hmac : Str → Str → List ℕ) (quote : Str → Str) (cluster : Cluster) (cfg : Config)
    (now later : Time) where
  -- A pod for a session that is there, with an allowed profile whose runtime class is there, and
  -- that has no pod.
  pub record IsPodOf (s : AgentSession) (pod : Pod) : Type 0 where
    pub not_expired : expired s now ≡ false
    pub profile : Profile
    pub resolved :
        resolve quote (profiles_or_default cfg.profiles) s.spec.isolation.profile ≡ ok profile
    pub has_class : check_runtime_class quote cluster.runtime_class profile ≡ none
    pub error : Str
    pub no_pod : cluster.pod_phase (pod_name_of s.name) ≡ err (missing error)
    pub built : pod ≡ build_pod hmac s cfg profile later

  created-pods :
      (s : AgentSession) (answer : Option ApiError)
      → pods (created hmac quote cluster cfg now later s answer).0 ≡ []
  unfolding created fail patch pods
  created-pods s none = refl
  created-pods s (some e) = refl

  placed-pods :
      (s : AgentSession) (profile : Profile) (answer : Result ApiError Str) (pod : Pod)
      → In pod (pods (placed hmac quote cluster cfg now later s profile answer).0)
      → ((e : Str) × (answer ≡ err (missing e))) × (pod ≡ build_pod hmac s cfg profile later)
  unfolding placed patch pods In
  placed-pods s profile (ok phase) pod h = absurd h
  placed-pods s profile (err (failed e)) pod h = absurd h
  placed-pods s profile (err (missing e)) pod h = elim h [
    | inl built ↦ ((e, refl), built)
    | inr more ↦ absurd (
        subst (In pod) (created-pods s (cluster.create_pod (build_pod hmac s cfg profile later)))
          more)
  ]

  classed-pods :
      (s : AgentSession) (profile : Profile) (answer : Option Str) (pod : Pod)
      → In pod (pods (classed hmac quote cluster cfg now later s profile answer).0)
      → (answer ≡ none)
        × ((e : Str) × (cluster.pod_phase (pod_name_of s.name) ≡ err (missing e)))
        × (pod ≡ build_pod hmac s cfg profile later)
  unfolding classed fail patch pods In
  classed-pods s profile (some e) pod h = absurd h
  classed-pods s profile none pod h =
      let (no_pod, built) = placed-pods s profile _ pod h in (refl, no_pod, built)

  isolated-pods :
      (s : AgentSession) (answer : Result Str Profile) (pod : Pod)
      → expired s now ≡ false
      → resolve quote (profiles_or_default cfg.profiles) s.spec.isolation.profile ≡ answer
      → In pod (pods (isolated hmac quote cluster cfg now later s answer).0)
      → IsPodOf s pod
  unfolding isolated fail patch pods In
  isolated-pods s (err e) pod live same h = absurd h
  isolated-pods s (ok profile) pod live same h =
      let (has_class, (error, no_pod), built) = classed-pods s profile _ pod h in
      record {
        not_expired = live;
        profile = profile;
        resolved = same;
        has_class = has_class;
        error = error;
        no_pod = no_pod;
        built = built;
      }

  held-pods :
      (s : AgentSession) (pod : Pod)
      → In pod (pods (held hmac quote cluster cfg now later s).0)
      → IsPodOf s pod
  unfolding held patch pods In
  held-pods s pod h = elim (Bool-cases (expired s now)) [
    | inl over ↦ absurd (rw (over, held) at h)
    | inr live ↦ isolated-pods s _ pod live refl (rw (live, held) at h)
  ]

  -- The session has the finalizer, or the patch that adds it has succeeded.
  pub HasFinalizer : AgentSession → Type 0
  HasFinalizer s =
      (has_finalizer s.finalizers finalizer ≡ true)
      ⊎ (cluster.patch_finalizers s.name (s.finalizers ++ finalizer ∷ []) ≡ none)

  finalized-pods :
      (s : AgentSession) (answer : Option Str) (pod : Pod)
      → In pod (pods (finalized hmac quote cluster cfg now later s answer).0)
      → (answer ≡ none) × IsPodOf s pod
  unfolding finalized pods In
  finalized-pods s (some e) pod h = absurd h
  finalized-pods s none pod h = (refl, held-pods s pod h)

  kept-pods :
      (s : AgentSession) (pod : Pod)
      → In pod (pods (kept hmac quote cluster cfg now later s).0)
      → HasFinalizer s × IsPodOf s pod
  unfolding kept pods HasFinalizer
  kept-pods s pod h = elim (Bool-cases (has_finalizer s.finalizers finalizer)) [
    | inl there ↦ (inl there, held-pods s pod (rw (there, kept) at h))
    | inr lacks ↦
        let (patched, is_pod) = finalized-pods s _ pod (rw (lacks, kept) at h) in
        (inr patched, is_pod)
  ]

  pub record IsPlaced (name : Str) (pod : Pod) : Type 0 where
    pub session : AgentSession
    pub found : cluster.session name ≡ fetched session
    pub not_deleted : session.deletion_timestamp ≡ none
    pub finalizer_first : HasFinalizer session
    pub pod_of : IsPodOf session pod

  by_deletion-pods :
      (s : AgentSession) (deleted : Option Time) (pod : Pod)
      → In pod (pods (by_deletion hmac quote cluster cfg now later s deleted).0)
      → (deleted ≡ none) × HasFinalizer s × IsPodOf s pod
  unfolding by_deletion cleanup pods In
  by_deletion-pods s (some t) pod h = absurd h
  by_deletion-pods s none pod h =
      let (finalizer_first, is_pod) = kept-pods s pod h in (refl, finalizer_first, is_pod)

  by_fetched-pods :
      (name : Str) (answer : Fetched) (pod : Pod)
      → cluster.session name ≡ answer
      → In pod (pods (by_fetched hmac quote cluster cfg now later answer).0)
      → IsPlaced name pod
  unfolding by_fetched pods In
  by_fetched-pods name (unreadable (missing e)) pod same h = absurd h
  by_fetched-pods name (unreadable (failed e)) pod same h = absurd h
  by_fetched-pods name (malformed e) pod same h = absurd h
  by_fetched-pods name (fetched s) pod same h =
      let (not_deleted, finalizer_first, pod_of) = by_deletion-pods s _ pod h in
      record {
        session = s;
        found = same;
        not_deleted = not_deleted;
        finalizer_first = finalizer_first;
        pod_of = pod_of;
      }

  -- A pod that Reconcile creates is the one that BuildPod makes of a session that was read, is not
  -- being deleted and has not expired, that has the finalizer or was given it first, whose isolation
  -- profile is configured and has its runtime class, and that had no pod.
  pub reconcile-IsPlaced :
      (name : Str) (pod : Pod)
      → In pod (pods (reconcile hmac quote cluster cfg now later name).0)
      → IsPlaced name pod
  unfolding reconcile
  reconcile-IsPlaced name pod h = by_fetched-pods name _ pod refl h
