-- ===== src/ModelProxy/Proxy/Forwarding.antt =====
-- What the proxy sends upstream, and what it lets back.
use agentsty.Prelude.{
  ℕ, ◌≡◌, refl, sym, subst, ◌⊎◌, ◌∙◌, ap, ◌≢◌, inl, inr, Bool, true, Option, none, some, List, [],
  ◌∷◌, ◌++◌, Str, codes, str_eq, str_eq_iff, arith, Option-cases, Bool-cases, if◌then◌else◌,
}
use mathlib.Core.Option.{none-ne-some, some-injective}
use mathlib.Core.Bool.{false≢true}
use agentsty.V1alpha1.{Time}
use agentsty.Http.{Request, Response, values, bearer, authorization, error_header, json_header}
use agentsty.Http.Laws.{values-nil}
use agentsty.ModelProxy.Proxy.{
  copy_header, Proxy, Body, error_text, raw, UpstreamRequest, Exchange, authenticate,
  upstream_header, send, forward, handler,
}
use agentsty.ModelProxy.Proxy.Copying.{
  is_withheld, gather, copy_header-withheld, copy_header-copied, values-error_header,
  values-json_header, values-upstream_header,
}

-- A request as the proxy passes it on.
module _ (hmac : Str → Str → List ℕ) (accepts : Str → Str → Bool)
    (upstream : UpstreamRequest → Option (Response Str)) (p : Proxy) (now later : Time)
    (r : Request) where
  pub record IsForwarded (u : UpstreamRequest) : Type 0 where
    pub session_id : Str
    pub authenticated : authenticate hmac p now later r ≡ some session_id
    pub configured : p.upstream_url ≢ []
    pub body : r.body ≡ some u.body
    pub method : u.method ≡ r.method
    pub url : u.url ≡ p.upstream_url
    pub header :
        (k : Str)
        → values k u.header ≡ (
            if str_eq authorization k
            then (if str_eq p.upstream_key [] then [] else (bearer ++ p.upstream_key) ∷ [])
            else values k r.header)

  send-sent : (u : UpstreamRequest) → (send hmac accepts upstream u).sent ≡ some u
  unfolding send
  send-sent u = ground arith

  send-withholds :
      (k : Str) (u : UpstreamRequest)
      → is_withheld k ≡ true
      → values k (send hmac accepts upstream u).response.header ≡ []
  unfolding send
  send-withholds k u w = elim (Option-cases (upstream u)) [
    | inl unavailable ↦ rw (unavailable, send) (values-error_header k w)
    | inr (resp, answered) ↦
        rw (answered, send) (copy_header-withheld k resp.header [] w ∙ values-nil k)
  ]

  -- the answer to a request that was sent
  pub IsAnswer : Option (Response Str) → Response Body → Type 0
  IsAnswer none answer =
      (answer.status ≡ 502) × (answer.body ≡ error_text (codes "upstream unavailable"))
  IsAnswer (some resp) answer =
      (answer.status ≡ resp.status)
      × (answer.body ≡ raw resp.body)
      × ((k : Str) → values k answer.header ≡ (if is_withheld k then [] else gather k resp.header))

  answered_values :
      (resp : Response Str) (k : Str)
      → values k (copy_header resp.header []) ≡ (if is_withheld k then [] else gather k resp.header)
  answered_values resp k = elim (Bool-cases (is_withheld k)) [
    | inl withheld ↦ rw withheld (copy_header-withheld k resp.header [] withheld ∙ values-nil k)
    | inr copied ↦ rw copied (
        copy_header-copied k resp.header [] copied
        ∙ ap (λ l. l ++ gather k resp.header) (values-nil k))
  ]

  send-IsAnswer :
      (u : UpstreamRequest) → IsAnswer (upstream u) (send hmac accepts upstream u).response
  unfolding send IsAnswer
  send-IsAnswer u = elim (Option-cases (upstream u)) [
    | inl unavailable ↦ rw (unavailable, send, IsAnswer) (refl, refl)
    | inr (resp, answered) ↦ rw (answered, send, IsAnswer) (refl, refl, answered_values resp)
  ]

  abbrev passed_on : Str → UpstreamRequest
  passed_on body = record {
    method = r.method;
    url = p.upstream_url;
    header = upstream_header p r.header;
    body = body;
  }

  -- The ways that a request of an authenticated session goes: it is answered here, or sent.
  IsQuiet : Exchange → Type 0
  IsQuiet x =
      (x.sent ≡ none) × ((x.response.header ≡ error_header) ⊎ (x.response.header ≡ json_header))

  IsSent : Exchange → Type 0
  IsSent x =
      (p.upstream_url ≢ [])
      × ((body : Str) × (r.body ≡ some body) × (x ≡ send hmac accepts upstream (passed_on body)))

  forward_cases :
      (id : Str)
      → IsQuiet (forward hmac accepts upstream p r id)
        ⊎ IsSent (forward hmac accepts upstream p r id)
  unfolding forward IsQuiet IsSent
  forward_cases id = elim (Bool-cases (str_eq p.upstream_url [])) [
    | inl missing ↦ inl (rw (missing, forward) (refl, inr refl))
    | inr url ↦ elim (Option-cases r.body) [
      | inl unread ↦ inl (rw (url, unread, forward) (refl, inl refl))
      | inr (body, read) ↦ elim (Bool-cases (accepts r.method p.upstream_url)) [
        | inl good ↦ inr (
          λ e. false≢true (sym url ∙ (str_eq_iff _ _).1 e),
          (body, read, rw (url, read, good, forward)),
        )
        | inr bad ↦ inl (rw (url, read, bad, forward) (refl, inl refl))
      ]
    ]
  ]

  forward-sent :
      (id : Str) (u : UpstreamRequest)
      → (forward hmac accepts upstream p r id).sent ≡ some u
      → (p.upstream_url ≢ [])
        × ((body : Str) × (r.body ≡ some body) × (passed_on body ≡ u))
        × IsAnswer (upstream u) (forward hmac accepts upstream p r id).response
  unfolding IsQuiet IsSent
  forward-sent id u h = elim (forward_cases id) [
    | inl (quiet, _) ↦ absurd (none-ne-some _ (sym quiet ∙ h))
    | inr (url, (body, read, e)) ↦
        let same : passed_on body ≡ u =
          some-injective _ _ (sym (send-sent (passed_on body)) ∙ ap (λ x. x.sent) (sym e) ∙ h) in
        (
          url,
          (body, read, same),
          rw e (
              subst
                (λ v. IsAnswer (upstream v) (send hmac accepts upstream (passed_on body)).response)
                same (send-IsAnswer (passed_on body))),
        )
  ]

  forward-withholds :
      (k id : Str)
      → is_withheld k ≡ true
      → values k (forward hmac accepts upstream p r id).response.header ≡ []
  unfolding IsQuiet IsSent
  forward-withholds k id w = elim (forward_cases id) [
    | inl (_, inl e) ↦ ap (values k) e ∙ values-error_header k w
    | inl (_, inr e) ↦ ap (values k) e ∙ values-json_header k w
    | inr (_, (body, _, e)) ↦
        ap (λ x. values k x.response.header) e ∙ send-withholds k (passed_on body) w
  ]

  -- What the proxy sends upstream belongs to an authenticated session, and is the client's method
  -- and body to the configured URL under the client's headers, but for Authorization: that one
  -- holds the upstream key alone, or nothing if there is no key.
  pub handler-IsForwarded :
      (u : UpstreamRequest)
      → (handler hmac accepts upstream p now later r).sent ≡ some u
      → IsForwarded u
  unfolding handler
  handler-IsForwarded u h = elim (Option-cases (authenticate hmac p now later r)) [
    | inl refused ↦ absurd (none-ne-some _ (rw (refused, handler) at h))
    | inr (id, authenticated) ↦
        let (configured, (body, read, same), _) =
          forward-sent id u (rw (authenticated, handler) at h) in
        record {
          session_id = id;
          authenticated = authenticated;
          configured = configured;
          body = read ∙ ap (λ v. some v.body) same;
          method = ap (λ v. v.method) (sym same);
          url = ap (λ v. v.url) (sym same);
          header =
              λ k. ap (λ v. values k v.header) (sym same) ∙ values-upstream_header p r.header k;
        }
  ]

  -- Whatever the request and the upstream's answer, no response holds a header that is spelled like
  -- Authorization or Set-Cookie without regard to case.
  pub handler_withholds :
      (k : Str)
      → is_withheld k ≡ true
      → values k (handler hmac accepts upstream p now later r).response.header ≡ []
  unfolding handler
  handler_withholds k w = elim (Option-cases (authenticate hmac p now later r)) [
    | inl refused ↦ rw (refused, handler) (values-error_header k w)
    | inr (id, authenticated) ↦ rw (authenticated, handler) (forward-withholds k id w)
  ]

  -- The answer to a request that was sent upstream is 502 if the upstream does not answer, and else
  -- has the upstream's status and body, and for every header key the upstream's values, or none for a
  -- key that is spelled like Authorization or Set-Cookie without regard to case.
  pub handler-IsAnswer :
      (u : UpstreamRequest)
      → (handler hmac accepts upstream p now later r).sent ≡ some u
      → IsAnswer (upstream u) (handler hmac accepts upstream p now later r).response
  unfolding handler
  handler-IsAnswer u h = elim (Option-cases (authenticate hmac p now later r)) [
    | inl refused ↦ absurd (none-ne-some _ (rw (refused, handler) at h))
    | inr (id, authenticated) ↦
        rw (authenticated, handler) (forward-sent id u (rw (authenticated, handler) at h)).2
  ]
