-- ===== src/ControllerProgram/Tokens.antt =====
-- The controller program and the proxy program: the token of a pod that the one creates, at the other.
use agentsty.Prelude.{
  ℕ, ◌≡◌, refl, sym, ap, ◌∙◌, subst, Option, none, some, List, [], ◌∷◌, ◌++◌, Str, codes, str_eq,
  lookup, Lacks, FitsInt64, ◌<ℤ◌, pos, In, Bool-cases, inl, inr,
}
use mathlib.Core.Option.{some-injective}
use agentsty.V1alpha1.{AgentSession, Time}
use agentsty.Isolation.{Profile, Pod, Container, apply}
use agentsty.Http.{Request, get, bearer, authorization}
use agentsty.ModelProxy.Token.{
  TokenManager, unix, from_unix, generate_until, validate_with_expiry, secret_or_default, signature,
  signed_token,
}
use agentsty.ModelProxy.Token.Acceptance.{validate_with_expiry-ok_iff}
use agentsty.ModelProxy.Token.RoundTrip.{validate_with_expiry-generate_until}
use agentsty.ModelProxy.Proxy.{authenticate}
use agentsty.ModelProxy.Proxy.Authentication.{IsAdmitted, IsUsable, authenticate-ok_iff}
use agentsty.Controller.{Config, token_expiry, session_token, build_pod, config, default_string}
use agentsty.Controller.Reconciler.{Fetched, fetched, Cluster, reconcile}
use agentsty.Controller.Placement.{pods, reconcile-IsPlaced}
use agentsty.Controller.Tokens.{IsEquipped}
use agentsty.Kube.{Unstructured}
use agentsty.Kube.Client.{Dynamic}
use agentsty.ControllerProgram.{Settings, config_of, reconciler_config}
use agentsty.ProxyProgram.{proxy_of, some_session}
use agentsty.ProxyProgram.Sessions.{IsStored, stored}

-- The default for an empty secret is the one that a token manager takes itself.
alike :
    (secret : Str) (ttl ttl' : Time)
    → secret_or_default
        (record { secret = default_string secret (codes "dev-session-proxy-secret"); ttl = ttl })
      ≡ secret_or_default (record { secret = secret; ttl = ttl' })
unfolding secret_or_default
alike secret ttl ttl' = elim (Bool-cases (str_eq secret [])) [
  | inl empty ↦ rw empty (unfold str_eq in refl)
  | inr named ↦ rw named (rw named refl)
]

-- A token hangs on the secret that its manager reads, and on nothing else of the manager.
signed_alike :
    (hmac : Str → Str → List ℕ) (m m' : TokenManager) (session_id expiry : Str)
    → secret_or_default m ≡ secret_or_default m'
    → signed_token hmac m session_id expiry ≡ signed_token hmac m' session_id expiry
unfolding signed_token signature
signed_alike hmac m m' session_id expiry same = rw same refl

first_key : List Container → Option Str
first_key [] = none
first_key (c ∷ cs) = lookup (codes "CASK_SESSION_TOKEN") c.env

-- what the variable of a pod that BuildPod makes holds
equipped_token :
    (hmac : Str → Str → List ℕ) (s : AgentSession) (cfg : Config) (profile : Profile) (now : Time)
    (token : Str)
    → IsEquipped (build_pod hmac s cfg profile now) token
    → token ≡ session_token hmac s cfg now
unfolding build_pod apply lookup str_eq first_key
equipped_token hmac s cfg profile now token e =
    some-injective _ _ (sym e.session_key ∙ ap first_key (sym e.alone))

session_in : Fetched → Option AgentSession
session_in (fetched s) = some s
session_in _ = none

fetched-injective : (s t : AgentSession) → fetched s ≡ fetched t → s ≡ t
unfolding session_in
fetched-injective s t h = some-injective _ _ (ap session_in h)

-- A reconciliation under the program's configuration signs with the secret of its settings.
session_token-signed :
    (hmac : Str → Str → List ℕ) (cs : Settings) (secret : Str) (s : AgentSession) (now : Time)
    → cs.token_secret ≡ secret
    → session_token hmac s (reconciler_config cs) now
      ≡ generate_until hmac (record { secret = secret; ttl = pos 0 }) s.name (token_expiry s now)
unfolding session_token generate_until reconciler_config config config_of
session_token-signed hmac cs secret s now same = signed_alike hmac _ _ s.name _ (
    alike cs.token_secret (pos 0) (pos 0)
    ∙ ap (λ x. secret_or_default (record { secret = x; ttl = pos 0 })) same)

module _ (hmac : Str → Str → List ℕ) (quote : Str → Str) (cluster : Cluster) (cs : Settings)
    (now later : Time) where
  -- The pod that a reconciliation creates carries the token of its session.
  reconcile-token :
      (name : Str) (s : AgentSession) (pod : Pod) (token : Str)
      → cluster.session name ≡ fetched s
      → In pod (pods (reconcile hmac quote cluster (reconciler_config cs) now later name).0)
      → IsEquipped pod token
      → token ≡ session_token hmac s (reconciler_config cs) later
  reconcile-token name s pod token there created equipped =
      let placed =
        reconcile-IsPlaced hmac quote cluster (reconciler_config cs) now later name pod created in
      let same : placed.session ≡ s = fetched-injective _ _ (sym placed.found ∙ there) in
      equipped_token hmac placed.session (reconciler_config cs) placed.pod_of.profile later token
        (subst (λ p. IsEquipped p token) placed.pod_of.built equipped)
      ∙ ap (λ x. session_token hmac x (reconciler_config cs) later) same

module _ (format_time : Time → Str) (parse_time : Str → Option Time) (u : Unstructured)
    (dyn : Dynamic) (st : dyn.State) (ps : agentsty.ProxyProgram.Settings) where
  IsStored-IsAdmitted :
      (session_id : Str) (s : AgentSession) (check : Time)
      → IsStored format_time parse_time u dyn st ps session_id s
      → IsUsable check s
      → IsAdmitted (proxy_of format_time parse_time u dyn st ps).sessions check session_id
  unfolding IsAdmitted proxy_of agentsty.Kube.Client.get
  IsStored-IsAdmitted session_id s check (stored object found read) usable =
      (s, rw found (ap some_session read), usable)

  module _ (hmac : Str → Str → List ℕ) (quote : Str → Str) (cluster : Cluster) (cs : Settings)
      (now later clock check : Time) where
    -- A pod that a reconciliation of the controller program creates can use the model: where the two
    -- programs have the same secret, the proxy program authenticates, for the pod's session, a request
    -- that carries the pod's token, before the token's expiry, if the session's name has no dot, its
    -- object is in the proxy's cluster, and the session may use the model.
    pub reconcile-authenticates :
        (name : Str) (s held : AgentSession) (pod : Pod) (token : Str) (r : Request)
        → cs.token_secret ≡ ps.token_secret
        → cluster.session name ≡ fetched s
        → In pod (pods (reconcile hmac quote cluster (reconciler_config cs) now later name).0)
        → IsEquipped pod token
        → get authorization r.header ≡ bearer ++ token
        → Lacks b'.' s.name
        → FitsInt64 (unix (token_expiry s later))
        → clock <ℤ from_unix (unix (token_expiry s later))
        → IsStored format_time parse_time u dyn st ps s.name held
        → IsUsable check held
        → authenticate hmac (proxy_of format_time parse_time u dyn st ps) clock check r
          ≡ some s.name
    unfolding proxy_of
    reconcile-authenticates name s held pod token r same there created equipped carried dotless fits
          live in_cluster usable =
        let p = proxy_of format_time parse_time u dyn st ps in
        let until = from_unix (unix (token_expiry s later)) in
        let is_token : token ≡ generate_until hmac p.tokens s.name (token_expiry s later) =
          reconcile-token hmac quote cluster cs now later name s pod token there created equipped
          ∙ session_token-signed hmac cs ps.token_secret s later same in
        (authenticate-ok_iff hmac p clock check r s.name).1 (record {
          token = token;
          until = until;
          carried = carried;
          signed = (validate_with_expiry-ok_iff hmac p.tokens clock token s.name until).0 (
              ap (validate_with_expiry hmac p.tokens clock) is_token
              ∙ validate_with_expiry-generate_until hmac p.tokens clock (token_expiry s later)
                  s.name dotless fits live);
          admitted = IsStored-IsAdmitted s.name held check in_cluster usable;
        })
