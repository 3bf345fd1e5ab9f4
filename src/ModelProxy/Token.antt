-- ===== src/ModelProxy/Token.antt =====
-- internal/modelproxy/token.go: signed session tokens `cask-proxy.<session>.<expiry>.<signature>`.
-- The package crypto/hmac is a parameter: `hmac secret payload` is the HMAC-SHA256, as bytes. The
-- clock is an argument of each call that reads it.
pub mod RoundTrip
pub mod Acceptance
pub mod Binding
pub mod Tests
use agentsty.Prelude.{
  ℕ, ◌+◌, ◌-◌, ◌*◌, ◌/◌, ◌%◌, Bool, true, false, Option, none, some, List, [], ◌∷◌, ◌++◌, Str,
  codes, str_eq, split, ℤ, pos, negsuc, ltb_ℤ, ◌+ℤ◌, scale, format_int, parse_int, ltb, ◌==◌, not,
  if◌then◌else◌,
}
use agentsty.V1alpha1.{Time, second}

abbrev pub token_prefix : Str
token_prefix = codes "cask-proxy"

-- 2 * time.Hour
abbrev pub default_token_ttl : ℤ
default_token_ttl = pos (2 * 60 * 60 * second)

pub record TokenManager : Type 0 where
  pub secret : Str
  pub ttl : ℤ

-- the URL-safe base64 alphabet
unfoldable pub b64_rune : ℕ → ℕ
b64_rune n =
    if ltb n 26
    then b'A' + n
    else if ltb n 52
    then b'a' + (n - 26)
    else if ltb n 62
    then b'0' + (n - 52)
    else if n == 62
    then b'-'
    else b'_'

-- base64.RawURLEncoding.EncodeToString: no padding
unfoldable pub b64_encode : List ℕ → Str
b64_encode [] = []
b64_encode (a ∷ []) = b64_rune (a / 4) ∷ b64_rune (a % 4 * 16) ∷ []
b64_encode (a ∷ b ∷ []) =
    b64_rune (a / 4) ∷ b64_rune (a % 4 * 16 + b / 16) ∷ b64_rune (b % 16 * 4) ∷ []
b64_encode (a ∷ b ∷ c ∷ r) =
    b64_rune (a / 4)
    ∷ b64_rune (a % 4 * 16 + b / 16)
    ∷ b64_rune (b % 16 * 4 + c / 64)
    ∷ b64_rune (c % 64)
    ∷ b64_encode r

-- TokenManager.secret
unfoldable pub secret_or_default : TokenManager → Str
secret_or_default m = if str_eq m.secret [] then codes "dev-session-proxy-secret" else m.secret

-- TokenManager.ttl
unfoldable pub ttl_or_default : TokenManager → ℤ
ttl_or_default m = if ltb_ℤ (pos 0) m.ttl then m.ttl else default_token_ttl

-- time.Time.Unix: whole seconds, rounded down
unfoldable pub unix : Time → ℤ
unix (pos n) = pos (n / second)
unix (negsuc n) = negsuc (n / second)

-- time.Unix(seconds, 0)
abbrev pub from_unix : ℤ → Time
from_unix n = scale n second

-- what a failed check returns, with the expiry if it was read; `none` is the zero time
abbrev pub rejected : Option Time → Str × Option Time × Bool
rejected t = ([], t, false)

-- the fields of a token split at its dots, if there are four; nothing reads the fourth
token_fields : List Str → Option (Str × Str × Str)
token_fields (a ∷ b ∷ c ∷ d ∷ []) = some (a, b, c)
token_fields _ = none

module _ (hmac : Str → Str → List ℕ) where
  unfoldable pub signature : TokenManager → Str → Str
  unfolding secret_or_default
  signature m payload = b64_encode (hmac (secret_or_default m) payload)

  -- the token of a session and the text of its expiry
  unfoldable pub signed_token : TokenManager → Str → Str → Str
  signed_token m session_id expiry =
      token_prefix
      ++ b'.' ∷ (session_id ++ b'.' ∷ (expiry ++ b'.' ∷ signature m (session_id ++ b'.' ∷ expiry)))

  unfoldable pub generate_until : TokenManager → Str → Time → Str
  generate_until m session_id expires_at = signed_token m session_id (format_int (unix expires_at))

  unfoldable pub generate : TokenManager → Time → Str → Str
  generate m now session_id = generate_until m session_id (now +ℤ ttl_or_default m)

  -- after the expiry has been read
  check_signature : TokenManager → Time → Str → Str → Str → Time → Str × Option Time × Bool
  check_signature m now token session_id expiry expires_at =
      if not (ltb_ℤ now expires_at)
      then rejected (some expires_at)
      else if not (str_eq (signed_token m session_id expiry) token)
      then rejected (some expires_at)
      else (session_id, some expires_at, true)

  check_expiry : TokenManager → Time → Str → Str → Str → Option ℤ → Str × Option Time × Bool
  check_expiry m now token session_id expiry none = rejected none
  check_expiry m now token session_id expiry (some n) =
      check_signature m now token session_id expiry (from_unix n)

  check_fields : TokenManager → Time → Str → Option (Str × Str × Str) → Str × Option Time × Bool
  check_fields m now token none = rejected none
  check_fields m now token (some (prefix, session_id, expiry)) =
      if str_eq prefix token_prefix
      then check_expiry m now token session_id expiry (parse_int expiry)
      else rejected none

  unfoldable pub validate_with_expiry : TokenManager → Time → Str → Str × Option Time × Bool
  unfolding check_fields check_expiry check_signature token_fields
  validate_with_expiry m now token = check_fields m now token (token_fields (split token b'.'))

  -- TokenManager.Validate
  unfoldable pub validate : TokenManager → Time → Str → Str × Bool
  validate m now token =
      let (session_id, _, accepted) = validate_with_expiry m now token in (session_id, accepted)
