-- ===== src/ProxyProgram/Sessions.antt =====
-- The proxy program and the objects of its sessions.
use agentsty.Prelude.{
  ℕ, Bool, Option, none, some, List, Str, codes, str_eq, Result, ok, err, ◌≡◌, refl, sym,
  Bool-cases, inl, inr, str_eq_iff, ap, ◌∙◌,
}
use mathlib.Core.Option.{none-ne-some, some-injective}
use agentsty.V1alpha1.{AgentSession, Time}
use agentsty.Http.{Request, Response}
use agentsty.ModelProxy.Proxy.{Proxy, UpstreamRequest, handler}
use agentsty.ModelProxy.Proxy.Authentication.{IsUsable, authenticate-ok_iff, IsAdmitted}
use agentsty.ModelProxy.Proxy.Forwarding.{IsForwarded, handler-IsForwarded}
use agentsty.Kube.{Unstructured, Fields, from_unstructured}
use agentsty.Kube.Client.{Dynamic, get, got, ready}
use agentsty.ProxyProgram.{Settings, serve, completions_path, some_session, proxy_of, readiness}

readiness_sent : (e : Option Str) → (readiness e).sent ≡ none
readiness_sent none = refl
readiness_sent (some e) = refl

module _ (format_time : Time → Str) (parse_time : Str → Option Time) (u : Unstructured)
    (dyn : Dynamic) (st : dyn.State) (settings : Settings) where
  -- a session's object, read as that session
  pub data IsStored (session_id : Str) (session : AgentSession) : Type 0 where
    stored :
        (object : Fields)
        → dyn.get st session_id ≡ ok object
        → from_unstructured format_time parse_time u (some object) ≡ ok session
        → IsStored session_id session

  read_some : (r : Result Str AgentSession) (s : AgentSession) → some_session r ≡ some s → r ≡ ok s
  read_some (ok t) s h = ap ok (some-injective _ _ h)
  read_some (err e) s h = absurd (none-ne-some s h)

  got_some :
      (answer : Result Str Fields) (session_id : Str) (s : AgentSession)
      → dyn.get st session_id ≡ answer
      → some_session (got format_time parse_time u dyn answer) ≡ some s
      → IsStored session_id s
  got_some (ok o) session_id s same h = stored o same (read_some _ s h)
  got_some (err e) session_id s same h = absurd (none-ne-some s h)

  module _ (hmac : Str → Str → List ℕ) (accepts : Str → Str → Bool)
      (upstream : UpstreamRequest → Option (Response Str)) (now later : Time) (r : Request) where
    abbrev proxy : Proxy
    proxy = proxy_of format_time parse_time u dyn st settings

    pub record IsBacked (sent : UpstreamRequest) : Type 0 where
      pub path : r.path ≡ completions_path
      pub forwarded :
          IsForwarded hmac accepts upstream
            (proxy_of format_time parse_time u dyn st settings)
            now
            later
            r
            sent
      pub session : AgentSession
      pub in_cluster : IsStored forwarded.session_id session
      pub usable : IsUsable later session

    admitted-IsStored :
        (session_id : Str)
        → IsAdmitted proxy.sessions later session_id
        → (s : AgentSession) × IsStored session_id s × IsUsable later s
    unfolding proxy_of get IsAdmitted
    admitted-IsStored session_id (s, found, usable) =
        (s, got_some (dyn.get st session_id) session_id s refl found, usable)

    proxied-IsBacked :
        (sent : UpstreamRequest)
        → r.path ≡ completions_path
        → (handler hmac accepts upstream proxy now later r).sent ≡ some sent
        → IsBacked sent
    proxied-IsBacked sent path h =
        let f = handler-IsForwarded hmac accepts upstream proxy now later r sent h in
        let a = (authenticate-ok_iff hmac proxy now later r f.session_id).0 f.authenticated in
        let (s, there, usable) = admitted-IsStored f.session_id a.admitted in
        record { path = path; forwarded = f; session = s; in_cluster = there; usable = usable }

    -- What the program sends upstream is for a request to the one path of the proxy, and goes out as the
    -- proxy forwards it, for a session whose object is in the cluster and which may use the model.
    pub serve-IsBacked :
        (sent : UpstreamRequest)
        → (serve format_time parse_time u dyn st settings hmac accepts upstream now later r).sent
          ≡ some sent
        → IsBacked sent
    unfolding serve
    serve-IsBacked sent h = elim (Bool-cases (str_eq r.path (codes "/healthz"))) [
      | inl health ↦ absurd (none-ne-some sent (rw (health, serve) at h))
      | inr e ↦ elim (Bool-cases (str_eq r.path (codes "/readyz"))) [
        | inl asked ↦ absurd (
            none-ne-some sent (
              sym (readiness_sent (ready format_time parse_time u dyn st))
              ∙ (rw (e, asked, serve) at h)))
        | inr e' ↦ elim (Bool-cases (str_eq r.path completions_path)) [
          | inl here ↦
              proxied-IsBacked sent ((str_eq_iff r.path completions_path).0 here)
                (rw (e, e', here, serve) at h)
          | inr e'' ↦ absurd (none-ne-some sent (rw (e, e', e'', serve) at h))
        ]
      ]
    ]
