-- ===== src/Controller/Tests.antt =====
-- Runs of the theorems on the controller: a pending session that has no pod.
use agentsty.Prelude.{
  ℕ, ok, suc, ◌+◌, List, refl, inl, ◌⊎◌, none, [], ◌∷◌, Str, codes, pos, err, In, str_eq, lookup,
  ◌<ℤ◌, ◌+ℤ◌, FitsInt64, scale, wrap64, arith,
}
use agentsty.V1alpha1.{AgentSession, seconds, new_agent_session}
use agentsty.V1alpha1.Tests.{stub_spec}
use agentsty.Isolation.{Pod, Profile, missing, resolve, check_runtime_class, default_profiles}
use agentsty.ModelProxy.Token.{unix, from_unix}
use agentsty.ModelProxy.Token.Tests.{toy_hmac}
use agentsty.Controller.{Config, expired, has_finalizer, expiry_time, token_expiry, build_pod}
use agentsty.Controller.Reconciler.{
  Call, Cluster, fetched, reconcile, by_fetched, by_deletion, kept, finalized, held, isolated,
  classed, placed, created, patch,
}
use agentsty.Controller.Placement.{pods, IsPlaced, reconcile-IsPlaced}
use agentsty.Controller.Release.{IsReleased, KeepsFinalizer, reconcile-IsReleased}
use agentsty.Controller.Loop.{World, Tick, reconcile_all}
use agentsty.Controller.Loop.Rounds.{IsRound, reconcile_all-IsRound}
use agentsty.Controller.Statuses.{EachStatus, IsSound, reconcile-IsSound}

abbrev pending : AgentSession
pending = new_agent_session (codes "sess-1") (codes "agentcask-sessions") stub_spec (pos 5)

abbrev pub kind_cluster : Cluster
kind_cluster = record {
  session = λ name. fetched pending;
  pod_phase = λ name. err (missing (codes "pods not found"));
  runtime_class = λ name. none;
  create_pod = λ pod. none;
  patch_finalizers = λ name finalizers. none;
  patch_status = λ name status. none;
}

abbrev toy_config : Config
toy_config = record {
  namespace = codes "agentcask-sessions";
  runtime_image = codes "image";
  model_proxy_url = codes "http://proxy";
  token_secret = codes "test-secret";
  profiles = none;
  reconcile_interval = pos 0;
}

abbrev pub quoted : Str → Str
quoted s = s

abbrev plain : Profile
plain = record { runtime_class_name = []; node_selector = []; tolerations = [] }

abbrev built : Pod
built = build_pod toy_hmac pending toy_config plain (pos 9)

built_In :
    In built
      (pods (reconcile toy_hmac quoted kind_cluster toy_config (pos 7) (pos 9) (codes "sess-1")).0)
unfolding reconcile by_fetched by_deletion kept finalized held isolated classed placed created patch
    has_finalizer expired expiry_time new_agent_session seconds scale wrap64 resolve
    check_runtime_class default_profiles lookup str_eq pods In ◌+ℤ◌
built_In = inl refl

reconcile-IsPlaced_example :
    IsPlaced toy_hmac quoted kind_cluster toy_config (pos 7) (pos 9) (codes "sess-1") built
reconcile-IsPlaced_example =
    reconcile-IsPlaced toy_hmac quoted kind_cluster toy_config (pos 7) (pos 9) (codes "sess-1")
      built built_In

reconcile-IsSound_example :
    EachStatus
      (IsSound toy_hmac quoted kind_cluster toy_config (pos 7) (pos 9))
      (reconcile toy_hmac quoted kind_cluster toy_config (pos 7) (pos 9) (codes "sess-1")).0
reconcile-IsSound_example =
    reconcile-IsSound toy_hmac quoted kind_cluster toy_config (pos 7) (pos 9) (codes "sess-1")

pub expiry_fits : FitsInt64 (unix (token_expiry pending (pos 9)))
unfolding unix token_expiry expiry_time new_agent_session seconds scale wrap64 ◌+ℤ◌
expiry_fits = (omega arith, omega arith)

pub expiry_live : pos 7 <ℤ from_unix (unix (token_expiry pending (pos 9)))
unfolding unix token_expiry expiry_time new_agent_session seconds scale wrap64 ◌+ℤ◌
expiry_live = omega arith

reconcile-IsReleased_example :
    IsReleased toy_hmac quoted kind_cluster toy_config
      (pos 7)
      (pos 9)
      (codes "sess-1")
      (reconcile toy_hmac quoted kind_cluster toy_config (pos 7) (pos 9) (codes "sess-1")).0
    ⊎ KeepsFinalizer
        (reconcile toy_hmac quoted kind_cluster toy_config (pos 7) (pos 9) (codes "sess-1")).0
reconcile-IsReleased_example =
    reconcile-IsReleased toy_hmac quoted kind_cluster toy_config (pos 7) (pos 9) (codes "sess-1")

-- a cluster that counts the calls made to it
abbrev counted : List Call → ℕ
counted [] = 0
counted (c ∷ calls) = suc (counted calls)

abbrev toy_world : World
toy_world = record {
  State = ℕ;
  read = λ n. kind_cluster;
  perform = λ n calls. n + counted calls;
  names = λ n. ok (codes "sess-1" ∷ codes "sess-2" ∷ []);
}

abbrev tick : Tick
tick = record { now = (λ _. pos 7); later = (λ _. pos 9) }

reconcile_all-IsRound_example :
    IsRound toy_hmac quoted toy_config toy_world tick 0
      (ok (codes "sess-1" ∷ codes "sess-2" ∷ []))
      (reconcile_all toy_hmac quoted toy_config toy_world tick 0)
reconcile_all-IsRound_example = reconcile_all-IsRound toy_hmac quoted toy_config toy_world tick 0

-- a cluster whose session has a pod that runs
abbrev running_cluster : Cluster
running_cluster = record kind_cluster { pod_phase = λ name. ok (codes "Running") }
