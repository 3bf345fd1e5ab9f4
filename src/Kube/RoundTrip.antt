-- ===== src/Kube/RoundTrip.antt =====
-- Specs and statuses through maps, and back.
use agentsty.Prelude.{◌≡◌, refl, ◌≢◌, Option, none, some, [], Str, codes, str_eq, ne→str_eq, ok}
use agentsty.V1alpha1.{AgentSessionSpec, AgentSessionStatus, Time, container_name_agent}
use agentsty.ModelProxy.Token.{unix, from_unix}
use agentsty.Kube.{
  object, end, Fields, get_field, Unstructured, spec_to_map, spec_from_map, status_to_map,
  status_from_map, with_time, string_value, parse_time_ptr, default_string,
}

-- What NestedMap documents of a field that is a map, and of one that is missing.
pub record ReadsMaps (u : Unstructured) : Type 0 where
  pub nested_map_object :
      (m : Fields) (key : Str) (fs : Fields)
      → get_field key m ≡ some (object fs)
      → u.nested_map m key ≡ ok (some fs)
  pub nested_map_missing :
      (m : Fields) (key : Str) → get_field key m ≡ none → u.nested_map m key ≡ ok none

-- A spec is read back from its map.
pub spec_from_map-spec_to_map :
    (u : Unstructured) (spec : AgentSessionSpec)
    → ReadsMaps u
    → spec_from_map u (spec_to_map spec) ≡ spec
unfolding spec_from_map spec_to_map str_eq
spec_from_map-spec_to_map u spec r =
    rw
      (
        r.nested_map_object (spec_to_map spec) (codes "repo") _ refl,
        r.nested_map_object (spec_to_map spec) (codes "isolation") _ refl,
      )
      refl

-- the time, rounded down to a second
abbrev pub whole_seconds : Time → Time
whole_seconds t = from_unix (unix t)

abbrev pub in_seconds : Option Time → Option Time
in_seconds none = none
in_seconds (some t) = some (whole_seconds t)

module _ (format_time : Time → Str) (parse_time : Str → Option Time) where
  -- The print of the time, if there is one, is read back to the second, as RFC3339 prints it.
  unfoldable pub ReadsBack : Option Time → Type 0
  ReadsBack none = Unit
  ReadsBack (some t) = (format_time t ≢ []) × (parse_time (format_time t) ≡ some (whole_seconds t))

  -- what a status is after its way through the map
  abbrev pub normal : AgentSessionStatus → AgentSessionStatus
  normal status = record status {
    container_name = default_string status.container_name container_name_agent;
    created_at = in_seconds status.created_at;
    expires_at = in_seconds status.expires_at;
  }

  times : Option Time → Option Time → Fields
  times created expires =
      with_time format_time parse_time (codes "createdAt") created
        (with_time format_time parse_time (codes "expiresAt") expires end)

  parsed :
      (t : Time)
      → ReadsBack (some t)
      → parse_time_ptr format_time parse_time (format_time t) ≡ some (whole_seconds t)
  unfolding ReadsBack parse_time_ptr
  parsed t (nonempty, back) = rw (ne→str_eq (format_time t) [] nonempty) back

  created_back :
      (created expires : Option Time)
      → ReadsBack created
      → parse_time_ptr format_time parse_time
          (string_value (get_field (codes "createdAt") (times created expires)))
        ≡ in_seconds created
  unfolding get_field str_eq times parse_time_ptr
  created_back none none h = refl
  created_back none (some e) h = refl
  created_back (some c) expires h = parsed c h

  expires_back :
      (created expires : Option Time)
      → ReadsBack expires
      → parse_time_ptr format_time parse_time
          (string_value (get_field (codes "expiresAt") (times created expires)))
        ≡ in_seconds expires
  unfolding get_field str_eq times parse_time_ptr
  expires_back none none h = refl
  expires_back (some c) none h = refl
  expires_back none (some e) h = parsed e h
  expires_back (some c) (some e) h = parsed e h

  -- A status is read back from its map, with the container's name `agent` where it had none and with
  -- its times in whole seconds, if their prints are read back so.
  pub status_from_map-status_to_map :
      (status : AgentSessionStatus)
      → ReadsBack status.created_at
      → ReadsBack status.expires_at
      → status_from_map format_time parse_time (status_to_map format_time parse_time status)
        ≡ normal status
  unfolding status_from_map status_to_map str_eq times
  status_from_map-status_to_map status hc he = λ i. record status {
    container_name = default_string status.container_name container_name_agent;
    created_at = created_back status.created_at status.expires_at hc i;
    expires_at = expires_back status.created_at status.expires_at he i;
  }
