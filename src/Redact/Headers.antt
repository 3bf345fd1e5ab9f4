-- ===== src/Redact/Headers.antt =====
-- internal/redact/redact.go: Header. Every header key is in its canonical form, as net/http makes it.
use agentsty.Prelude.{
  ◌≡◌, Bool, true, false, List, [], ◌∷◌, Str, codes, mem_text, to_lower, In, if◌then◌else◌,
}
use agentsty.Http.{Header, values, set, add}
use agentsty.Redact.{redacted, redact}

abbrev pub sensitive_header_names : List Str
sensitive_header_names =
    codes "authorization"
    ∷ codes "cookie"
    ∷ codes "set-cookie"
    ∷ codes "x-api-key"
    ∷ codes "openai-api-key"
    ∷ codes "anthropic-api-key"
    ∷ []

unfoldable pub is_sensitive : Str → Bool
is_sensitive key = mem_text (to_lower key) sensitive_header_names

-- the inner loop
unfoldable pub add_redacted : Str → List Str → Header → Header
add_redacted key [] out = out
add_redacted key (value ∷ vs) out = add_redacted key vs (add key (redact value) out)

-- the loop over the header
unfoldable pub redact_from : Header → Header → Header
unfolding add_redacted
redact_from [] out = out
redact_from ((key, vs) ∷ h) out =
    redact_from h (if is_sensitive key then set key redacted out else add_redacted key vs out)

-- redact.Header
unfoldable pub redact_header : Header → Header
unfolding redact_from
redact_header h = redact_from h []

-- what a value for a key may be
pub IsCleanValue : Bool → Str → Type 0
IsCleanValue true value = value ≡ redacted
IsCleanValue false value = (original : Str) × (value ≡ redact original)

IsClean : Header → Type 0
IsClean h = (key value : Str) → In value (values key h) → IsCleanValue (is_sensitive key) value
