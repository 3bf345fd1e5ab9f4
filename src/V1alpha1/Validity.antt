-- ===== src/V1alpha1/Validity.antt =====
-- What AgentSessionSpec.Validate accepts, and the sessions that NewAgentSession makes of it.
use agentsty.Prelude.{
  ◌*◌, ◌≡◌, refl, ◌≢◌, ◌↔◌, none, some, [], Str, str_eq_iff, mem_text_iff, OneOf, trim_space, ℤ,
  pos, negsuc, ap, +ℤ_parts, parts_apart, pos_part, ◌≤ℤ◌, ◌<ℤ◌, ◌+ℤ◌, scale, wrap64_of_FitsInt64,
  arith,
}
use agentsty.V1alpha1.{
  AgentSessionSpec, Time, validate, seconds, second, new_agent_session, allowed_tools,
  allowed_model_refs, allowed_resource_profiles, allowed_isolation_profiles,
}

pub record IsValidSpec (s : AgentSessionSpec) : Type 0 where
  pub has_user : trim_space s.user_id ≢ []
  pub tool : OneOf s.tool allowed_tools
  pub model_ref : OneOf s.model_ref allowed_model_refs
  pub resource_profile : OneOf s.resource_profile allowed_resource_profiles
  pub isolation : OneOf s.isolation.profile allowed_isolation_profiles
  pub ttl_positive : pos 0 <ℤ s.ttl_seconds
  pub ttl_at_most_a_day : s.ttl_seconds ≤ℤ pos 86400

-- Validate returns no error exactly for a spec with a user that is not blank, a listed tool, model,
-- resource and isolation profile, and a time to live of 1 to 86400 seconds.
pub validate-eq-none_iff : (s : AgentSessionSpec) → (validate s ≡ none) ↔ IsValidSpec s
unfolding validate
validate-eq-none_iff s = ground (
  arith,
  str_eq_iff (trim_space s.user_id) [],
  mem_text_iff s.tool allowed_tools,
  mem_text_iff s.model_ref allowed_model_refs,
  mem_text_iff s.resource_profile allowed_resource_profiles,
  mem_text_iff s.isolation.profile allowed_isolation_profiles,
)

-- The product of a valid time to live and a second does not leave int64.
seconds_in_range : (n : ℤ) → pos 0 <ℤ n → n ≤ℤ pos 86400 → seconds n ≡ pos (pos_part n * second)
unfolding seconds scale
seconds_in_range (pos n) lo hi =
    let e : scale (pos n) second ≡ pos (n * second) = ground arith in
    rw e (wrap64_of_FitsInt64 _ (omega arith))
seconds_in_range (negsuc n) lo hi = absurd (omega arith)

pub seconds_of_validate :
    (s : AgentSessionSpec)
    → validate s ≡ none
    → seconds s.ttl_seconds ≡ pos (pos_part s.ttl_seconds * second)
seconds_of_validate s h =
    let v = (validate-eq-none_iff s).0 h in
    seconds_in_range s.ttl_seconds v.ttl_positive v.ttl_at_most_a_day

-- A session made from a validated spec expires its time to live after the creation, later than
-- now and at most a day later.
pub new_agent_session-expires_at :
    (name namespace : Str) (s : AgentSessionSpec) (now : Time)
    → validate s ≡ none
    → (e : Time) × ((new_agent_session name namespace s now).status.expires_at ≡ some e)
      × (e ≡ now +ℤ pos (pos_part s.ttl_seconds * second))
      × (now <ℤ e)
      × (e ≤ℤ now +ℤ pos (86400 * second))
unfolding new_agent_session
new_agent_session-expires_at name namespace s now h =
    let v = (validate-eq-none_iff s).0 h in
    (
      now +ℤ seconds s.ttl_seconds,
      refl,
      ap (λ d. now +ℤ d) (seconds_of_validate s h),
      rw (seconds_of_validate s h)
          (omega (arith, +ℤ_parts now (pos (pos_part s.ttl_seconds * second)), v.ttl_positive)),
      rw (seconds_of_validate s h) (
          omega (
            arith,
            +ℤ_parts now (pos (pos_part s.ttl_seconds * second)),
            +ℤ_parts now (pos (86400 * second)),
            v.ttl_positive,
            v.ttl_at_most_a_day,
            parts_apart s.ttl_seconds,
          )),
    )
