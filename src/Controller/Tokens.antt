-- ===== src/Controller/Tokens.antt =====
-- The token that a session's pod carries, and the proxy's test of it.
use agentsty.Prelude.{
  ℕ, ◌≡◌, refl, true, some, List, [], ◌∷◌, Str, codes, lookup, str_eq, Lacks, FitsInt64, ◌<ℤ◌,
}
use agentsty.V1alpha1.{AgentSession, Time}
use agentsty.Isolation.{Profile, Pod, Container, apply}
use agentsty.ModelProxy.Token.{
  unix, from_unix, generate_until, validate_with_expiry, secret_or_default, signature, signed_token,
}
use agentsty.ModelProxy.Token.RoundTrip.{validate_with_expiry-generate_until}
use agentsty.Controller.{Config, token_expiry, session_token, agent_container, build_pod}

-- The pod has one container, and each variable that a client reads its key from holds the token.
pub record IsEquipped (pod : Pod) (token : Str) : Type 0 where
  pub container : Container
  pub alone : pod.spec.containers ≡ container ∷ []
  pub session_key : lookup (codes "CASK_SESSION_TOKEN") container.env ≡ some token
  pub openai_key : lookup (codes "OPENAI_API_KEY") container.env ≡ some token
  pub anthropic_key : lookup (codes "ANTHROPIC_API_KEY") container.env ≡ some token

module _ (hmac : Str → Str → List ℕ) where
  -- The pod that BuildPod makes of a session with no dot in its name carries, in each of the three
  -- variables for a key, a token that a manager with the controller's secret accepts for that
  -- session at any time before its expiry, cut to seconds, if that fits int64.
  pub build_pod-IsEquipped :
      (s : AgentSession) (cfg : Config) (profile : Profile) (now clock : Time) (ttl : Time)
      → Lacks b'.' s.name
      → FitsInt64 (unix (token_expiry s now))
      → clock <ℤ from_unix (unix (token_expiry s now))
      → (token : Str) × IsEquipped (build_pod hmac s cfg profile now) token
        × (validate_with_expiry hmac (record { secret = cfg.token_secret; ttl = ttl }) clock token
            ≡ (s.name, some (from_unix (unix (token_expiry s now))), true))
  unfolding build_pod apply session_token lookup str_eq generate_until signed_token signature
      secret_or_default
  build_pod-IsEquipped s cfg profile now clock ttl dotless fits live = (
    session_token hmac s cfg now,
    record {
      container = agent_container hmac s cfg (session_token hmac s cfg now);
      alone = refl;
      session_key = refl;
      openai_key = refl;
      anthropic_key = refl;
    },
    validate_with_expiry-generate_until hmac (record { secret = cfg.token_secret; ttl = ttl }) clock
        (token_expiry s now) s.name dotless fits live,
  )
