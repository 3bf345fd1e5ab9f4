-- ===== src/ControllerProgram/Tests.antt =====
-- A run of the controller program and the proxy program with one secret: a pending session gets its pod,
-- whose token then comes to the proxy.
use agentsty.Prelude.{
  ◌≡◌, refl, inl, some, [], ◌∷◌, ◌++◌, Str, codes, pos, In, str_eq, lookup, ◌+ℤ◌, scale, wrap64,
}
use agentsty.V1alpha1.{seconds, new_agent_session}
use agentsty.Isolation.{Pod, resolve, check_runtime_class, default_profiles, apply}
use agentsty.Http.{Request, bearer, authorization, method_post, get, values}
use agentsty.ModelProxy.Token.Tests.{toy_hmac, sess_Lacks}
use agentsty.ModelProxy.Proxy.{authenticate}
use agentsty.Controller.{
  expired, has_finalizer, expiry_time, build_pod, agent_container, session_token, config,
}
use agentsty.Controller.Reconciler.{
  reconcile, by_fetched, by_deletion, kept, finalized, held, isolated, classed, placed, created,
  patch,
}
use agentsty.Controller.Placement.{pods}
use agentsty.Controller.Tests.{kind_cluster, quoted, expiry_fits, expiry_live}
use agentsty.Controller.Tokens.{IsEquipped}
use agentsty.Kube.Objects.{from_unstructured-to_unstructured}
use agentsty.Kube.Tests.{
  toy_unstructured, keeps_meta, print_time, read_time, pending, object_of_pending, created_back,
  expires_back,
}
use agentsty.ProxyProgram.{completions_path, proxy_of}
use agentsty.ProxyProgram.Sessions.{stored}
use agentsty.ProxyProgram.Tests.{cluster, in_cluster, usable}
use agentsty.ControllerProgram.{Settings, config_of, reconciler_config}
use agentsty.ControllerProgram.Tokens.{reconcile-authenticates}

abbrev settings : Settings
settings = record {
  namespace = codes "agentcask-sessions";
  kubeconfig = [];
  runtime_image = codes "image";
  model_proxy_url = codes "http://proxy";
  token_secret = codes "test-secret";
}

abbrev built : Pod
built =
    build_pod toy_hmac pending (reconciler_config settings)
      (record { runtime_class_name = []; node_selector = []; tolerations = [] }) (pos 9)

abbrev token : Str
token = session_token toy_hmac pending (reconciler_config settings) (pos 9)

built_In : In built (
    pods
      (reconcile toy_hmac quoted kind_cluster
        (reconciler_config settings)
        (pos 7)
        (pos 9)
        (codes "sess-1")).0)
unfolding reconcile by_fetched by_deletion kept finalized held isolated classed placed created patch
    has_finalizer expired expiry_time new_agent_session seconds scale wrap64 resolve
    check_runtime_class default_profiles lookup str_eq pods In ◌+ℤ◌ reconciler_config config
    config_of
built_In = inl refl

built_IsEquipped : IsEquipped built token
unfolding build_pod apply lookup str_eq
built_IsEquipped = record {
  container = agent_container toy_hmac pending (reconciler_config settings) token;
  alone = refl;
  session_key = refl;
  openai_key = refl;
  anthropic_key = refl;
}

abbrev request : Request
request = record {
  method = method_post;
  path = completions_path;
  header = (authorization, (bearer ++ token) ∷ []) ∷ [];
  body = some (codes "{}");
}

carried : get authorization request.header ≡ bearer ++ token
unfolding get values lookup str_eq
carried = refl

reconcile-authenticates_example :
    authenticate toy_hmac
      (proxy_of print_time read_time toy_unstructured cluster []
        agentsty.ProxyProgram.Tests.settings)
      (pos 7)
      (pos 7)
      request
    ≡ some (codes "sess-1")
unfolding new_agent_session
reconcile-authenticates_example =
    reconcile-authenticates print_time read_time toy_unstructured cluster []
      agentsty.ProxyProgram.Tests.settings toy_hmac quoted kind_cluster settings (pos 7) (pos 9)
      (pos 7) (pos 7) (codes "sess-1") pending in_cluster built token request refl refl built_In
      built_IsEquipped carried sess_Lacks expiry_fits expiry_live
      (stored object_of_pending refl (
        from_unstructured-to_unstructured print_time read_time toy_unstructured keeps_meta pending
          created_back expires_back))
      usable
