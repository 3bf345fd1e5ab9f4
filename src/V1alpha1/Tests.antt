-- ===== src/V1alpha1/Tests.antt =====
-- Runs of the theorems on the resource, at a spec of the CLI's defaults.
use agentsty.Prelude.{
  ◌≡◌, refl, none, codes, trim_space, trim_left, trim_right, mem_text, str_eq, pos, ◌+ℤ◌, ◌<ℤ◌,
  ◌≤ℤ◌, ◌*◌, pos_part, some,
}
use agentsty.V1alpha1.{AgentSessionSpec, Time, second, validate, new_agent_session}
use agentsty.V1alpha1.Validity.{new_agent_session-expires_at}

abbrev pub stub_spec : AgentSessionSpec
stub_spec = record {
  user_id = codes "dev-user";
  tool = codes "stub";
  repo = record { url = codes "https://example.invalid/repo.git"; branch = codes "main" };
  model_ref = codes "default";
  resource_profile = codes "small";
  isolation = record { profile = codes "default" };
  ttl_seconds = pos 7200;
}

pub stub_spec-valid : validate stub_spec ≡ none
unfolding validate str_eq trim_space trim_left trim_right mem_text
stub_spec-valid = refl

new_agent_session-expires_at_example :
    (e : Time) × ((new_agent_session
        (codes "sess-1")
        (codes "ns")
        stub_spec
        (pos 5)).status.expires_at
      ≡ some e)
    × (e ≡ pos 5 +ℤ pos (pos_part (pos 7200) * second))
    × (pos 5 <ℤ e)
    × (e ≤ℤ pos 5 +ℤ pos (86400 * second))
new_agent_session-expires_at_example =
    new_agent_session-expires_at (codes "sess-1") (codes "ns") stub_spec (pos 5) stub_spec-valid
