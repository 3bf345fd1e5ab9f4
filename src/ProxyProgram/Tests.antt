-- ===== src/ProxyProgram/Tests.antt =====
-- A run of the proxy program: a session's object is in the cluster, and a request carries its token.
use agentsty.Prelude.{
  some, [], ◌∷◌, ◌++◌, codes, refl, ◌≡◌, ap, arith, inl, str_eq, str_eq_iff, lookup, scale, wrap64,
  ◌+ℤ◌, OneOf, ok,
}
use mathlib.Core.Bool.{false≢true}
use agentsty.V1alpha1.{
  phase_pending, phase_expired, phase_terminating, phase_failed, AgentSession, new_agent_session,
  seconds,
}
use agentsty.Http.{Request, bearer, authorization, method_post, values, get, set}
use agentsty.ModelProxy.Token.{generate_until, from_unix, unix}
use agentsty.ModelProxy.Token.Tests.{toy_hmac, toy_manager, expiry, now, accepted_toy}
use agentsty.ModelProxy.Token.Acceptance.{validate_with_expiry-ok_iff}
use agentsty.ModelProxy.Proxy.{
  Proxy, UpstreamRequest, authenticate, handler, forward, send, upstream_header,
}
use agentsty.ModelProxy.Proxy.Authentication.{IsAdmitted, IsUsable, IsBefore, authenticate-ok_iff}
use agentsty.ModelProxy.Proxy.Tests.{accepts_all, toy_upstream}
use agentsty.Kube.Client.{Dynamic}
use agentsty.Kube.Objects.{stored, from_unstructured-to_unstructured}
use agentsty.Kube.Tests.{
  toy_unstructured, keeps_meta, print_time, read_time, pending, object_of_pending, toy_dynamic,
  created_back, expires_back,
}
use agentsty.ProxyProgram.{Settings, serve, completions_path, proxy_of, some_session}
use agentsty.ProxyProgram.Sessions.{IsBacked, serve-IsBacked}

abbrev pub cluster : Dynamic
cluster = record toy_dynamic { get = λ st name. ok object_of_pending }

abbrev pub settings : Settings
settings = record {
  addr = codes ":8080";
  namespace = codes "agentcask-sessions";
  kubeconfig = [];
  upstream_url = codes "https://upstream.invalid/v1";
  upstream_key = codes "key";
  token_secret = codes "test-secret";
}

abbrev program : Proxy
program = proxy_of print_time read_time toy_unstructured cluster [] settings

abbrev request : Request
request = record {
  method = method_post;
  path = completions_path;
  header =
      (authorization, (bearer ++ generate_until toy_hmac toy_manager (codes "sess-1") expiry) ∷ [])
      ∷ [];
  body = some (codes "{}");
}

abbrev forwarded : UpstreamRequest
forwarded = record {
  method = method_post;
  url = codes "https://upstream.invalid/v1";
  header = upstream_header program request.header;
  body = codes "{}";
}

abbrev pub in_cluster : AgentSession
in_cluster = stored print_time read_time toy_unstructured keeps_meta pending

pub usable : IsUsable now in_cluster
unfolding new_agent_session str_eq seconds scale wrap64 ◌+ℤ◌ OneOf IsBefore unix
usable = record {
  kept = refl;
  not_expired = λ e. false≢true ((str_eq_iff phase_pending phase_expired).1 e);
  not_terminating = λ e. false≢true ((str_eq_iff phase_pending phase_terminating).1 e);
  not_failed = λ e. false≢true ((str_eq_iff phase_pending phase_failed).1 e);
  live = omega arith;
  model = inl refl;
}

admitted : IsAdmitted program.sessions now (codes "sess-1")
unfolding IsAdmitted proxy_of agentsty.Kube.Client.get
admitted = (
  in_cluster,
  ap some_session (
      from_unstructured-to_unstructured print_time read_time toy_unstructured keeps_meta pending
        created_back expires_back),
  usable,
)

authenticated : authenticate toy_hmac program now now request ≡ some (codes "sess-1")
unfolding get values lookup str_eq proxy_of
authenticated = (authenticate-ok_iff toy_hmac program now now request (codes "sess-1")).1 (record {
  token = generate_until toy_hmac toy_manager (codes "sess-1") expiry;
  until = from_unix (unix expiry);
  carried = refl;
  signed =
      (validate_with_expiry-ok_iff toy_hmac toy_manager now
          (generate_until toy_hmac toy_manager (codes "sess-1") expiry) (codes "sess-1")
          (from_unix (unix expiry))).0
        accepted_toy;
  admitted = admitted;
})

sent :
    (serve print_time read_time toy_unstructured cluster [] settings toy_hmac accepts_all
      toy_upstream now now request).sent
    ≡ some forwarded
unfolding serve forward send str_eq handler set proxy_of
sent = rw (authenticated, handler) refl

serve-IsBacked_example :
    IsBacked print_time read_time toy_unstructured cluster [] settings toy_hmac accepts_all
      toy_upstream now now request forwarded
serve-IsBacked_example =
    serve-IsBacked print_time read_time toy_unstructured cluster [] settings toy_hmac accepts_all
      toy_upstream now now request forwarded sent
