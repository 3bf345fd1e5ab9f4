-- ===== src/Api/Requests.antt =====
-- internal/api/server.go: who makes a request, and what the body of a creation asks for.
-- The package encoding/json has read the body: an object is a map from keys to values, in the order
-- in which Go iterates over it, which is any. A number is kept as its conversion to int64. The
-- parameter `has_userinfo` says of a text that url.Parse reads it as a URL with user information.
pub mod Safety
pub mod Tests
use agentsty.Prelude.{
  ℕ, ◌+◌, ◌/◌, ◌%◌, Bool, true, false, ◌&&◌, ◌||◌, not, Option, none, some, List, [], ◌∷◌, ◌++◌,
  Str, codes, str_eq, mem_text, has_prefix, trim_prefix, trim_space, to_lower, contains,
  contains_any, ltb, ◌-◌, format_int, Dict, lookup, ℤ, pos, ltb_ℤ, leb_ℤ, if◌then◌else◌,
}
use agentsty.V1alpha1.{AgentSessionSpec}
use agentsty.Redact.{sentinel, contains_secret_like_key}
use agentsty.Http.{Request, get, bearer, authorization}

abbrev pub dev_user : Str
dev_user = codes "dev-user"

abbrev pub user_prefix : Str
user_prefix = codes "user:"

abbrev pub user_of_token : Str → Option Str
user_of_token token =
    if str_eq token []
    then none
    else if has_prefix token user_prefix && not (str_eq (trim_prefix token user_prefix) [])
    then some (trim_prefix token user_prefix)
    else some dev_user

-- userFromRequest
unfoldable pub user_from_request : Request → Option Str
user_from_request r =
    let header = get authorization r.header in
    if has_prefix header bearer
    then user_of_token (trim_space (trim_prefix header bearer))
    else none

mutual
  pub data Json : Type 0 where
    text : Str → Json
    number : ℤ → Json
    boolean : Bool → Json
    null : Json
    array : JsonItems → Json
    object : JsonFields → Json

  pub data JsonItems : Type 0 where
    no_item : JsonItems
    item : Json → JsonItems → JsonItems

  pub data JsonFields : Type 0 where
    no_field : JsonFields
    json_field : Str → Json → JsonFields → JsonFields

pub record CreateSessionRequest : Type 0 where
  pub tool : Str
  pub repo_url : Str
  pub branch : Str
  pub model_ref : Str
  pub resource_profile : Str
  pub isolation_profile : Str
  pub ttl_seconds : ℤ

abbrev pub string_value : Option Json → Str
string_value (some (text s)) = s
string_value _ = []

abbrev pub int64_value : Option Json → ℤ
int64_value (some (number n)) = n
int64_value _ = pos 0

unfoldable pub default_string : Str → Str → Str
default_string v fallback = if str_eq v [] then fallback else v

abbrev pub is_zero : ℤ → Bool
is_zero n = leb_ℤ n (pos 0) && leb_ℤ (pos 0) n

-- int64((2 * time.Hour).Seconds())
abbrev pub default_ttl : ℤ
default_ttl = pos 7200

-- the request that createSession reads from the object
unfoldable pub create_session_request : Dict Json → CreateSessionRequest
unfolding default_string
create_session_request raw =
    let ttl = int64_value (lookup (codes "ttlSeconds") raw) in
    record {
      tool = string_value (lookup (codes "tool") raw);
      repo_url = string_value (lookup (codes "repoUrl") raw);
      branch = default_string (string_value (lookup (codes "branch") raw)) (codes "main");
      model_ref = default_string (string_value (lookup (codes "modelRef") raw)) (codes "default");
      resource_profile =
          default_string (string_value (lookup (codes "resourceProfile") raw)) (codes "small");
      isolation_profile =
          default_string (string_value (lookup (codes "isolationProfile") raw)) (codes "default");
      ttl_seconds = if is_zero ttl then default_ttl else ttl;
    }

unfoldable pub spec_of : Str → CreateSessionRequest → AgentSessionSpec
spec_of user_id req = record {
  user_id = user_id;
  tool = req.tool;
  repo = record { url = req.repo_url; branch = req.branch };
  model_ref = req.model_ref;
  resource_profile = req.resource_profile;
  isolation = record { profile = req.isolation_profile };
  ttl_seconds = req.ttl_seconds;
}

abbrev pub allowed_fields : List Str
allowed_fields =
    codes "tool"
    ∷ codes "repoUrl"
    ∷ codes "branch"
    ∷ codes "modelRef"
    ∷ codes "resourceProfile"
    ∷ codes "isolationProfile"
    ∷ codes "ttlSeconds"
    ∷ []

abbrev pub secret_markers : List Str
secret_markers =
    codes "sk-"
    ∷ codes "ghp_"
    ∷ codes "github_pat_"
    ∷ codes "glpat-"
    ∷ codes "xoxb-"
    ∷ codes "akia"
    ∷ codes "anthropic_api_key"
    ∷ []

pub data RequestError : Type 0 where
  unsupported_field forbidden_field : Str → RequestError
  secret_looking_value : RequestError

-- hex.EncodeToString
hex_digit : ℕ → ℕ
hex_digit n = if ltb n 10 then b'0' + n else b'a' + (n - 10)

hex_encode : List ℕ → Str
unfolding hex_digit
hex_encode [] = []
hex_encode (b ∷ bytes) = hex_digit (b / 16) ∷ hex_digit (b % 16) ∷ hex_encode bytes

-- generateSessionID: from random bytes, or from the clock's nanoseconds if there are none
unfoldable pub generate_session_id : Option (List ℕ) → ℤ → Str
unfolding hex_encode
generate_session_id none nanos = codes "sess-" ++ format_int nanos
generate_session_id (some bytes) nanos = codes "sess-" ++ hex_encode bytes

module _ (has_userinfo : Str → Bool) where
  unfoldable pub is_secret_text : Str → Bool
  is_secret_text s =
      contains s sentinel || has_userinfo s || contains_any (to_lower s) secret_markers

  -- containsSecretValue; the texts within an array or an object are not looked at
  unfoldable pub contains_secret_value : Json → Bool
  unfolding is_secret_text
  contains_secret_value (text s) = is_secret_text s
  contains_secret_value _ = false

  -- rejectForbidden
  unfoldable pub reject_forbidden : Dict Json → Option RequestError
  reject_forbidden [] = none
  reject_forbidden ((key, value) ∷ rest) =
      let later = reject_forbidden rest in
      if not (mem_text key allowed_fields)
      then some (unsupported_field key)
      else if contains_secret_like_key key
      then some (forbidden_field key)
      else if contains_secret_value value
      then some secret_looking_value
      else later
