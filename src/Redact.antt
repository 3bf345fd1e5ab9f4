-- ===== src/Redact.antt =====
-- internal/redact/redact.go: what is struck out of texts and headers, and which keys look secret.
-- The two regular expressions are written out as matchers: in both, the runs that the star and plus
-- operators match are followed by runes that they cannot match, so a match is the greedy one.
pub mod Matching
pub mod Sentinel
pub mod Headers
pub mod Tests
use agentsty.Prelude.{
  ℕ, zero, suc, ◌+◌, ◌-◌, Bool, true, false, ◌&&◌, ◌||◌, not, Option, none, some, List, [], ◌∷◌,
  ◌++◌, map, Str, codes, leb, ◌==◌, if◌then◌else◌, contains_any, to_lower, fold_rune, replace_all,
  text_length,
}

abbrev pub sentinel : Str
sentinel = codes "REAL_UPSTREAM_KEY_SHOULD_NEVER_LEAK"

abbrev pub redacted : Str
redacted = codes "[REDACTED]"

-- \s of the package regexp
is_re_space : ℕ → Bool
is_re_space c = c == 9 || c == 10 || c == 12 || c == 13 || c == 32

-- A matcher takes a text to the runes that it matches at its start and the rest.
abbrev pub Matcher : Type 0
Matcher = Str → Option (Str × Str)

abbrev then_after : Str → Option (Str × Str) → Option (Str × Str)
then_after before none = none
then_after before (some (matched, rest)) = some (before ++ matched, rest)

abbrev seq_on : Option (Str × Str) → Matcher → Option (Str × Str)
seq_on none m = none
seq_on (some (matched, rest)) m = then_after matched (m rest)

unfoldable seq : Matcher → Matcher → Matcher
seq m n s = seq_on (m s) n

-- a literal of the pattern, in lower case; (?i) makes two runes the same if they fold to one
unfoldable literal : Str → Matcher
unfolding fold_rune
literal [] s = some ([], s)
literal (p ∷ ps) [] = none
literal (p ∷ ps) (c ∷ s) = if fold_rune c == p then then_after (c ∷ []) (literal ps s) else none

-- the longest run of runes with a property: `f*`
unfoldable many : (ℕ → Bool) → Str → Str × Str
many f [] = ([], [])
many f (c ∷ s) = let (run, rest) = many f s in if f c then (c ∷ run, rest) else ([], c ∷ s)

star : (ℕ → Bool) → Matcher
unfolding many
star f s = some (many f s)

abbrev nonempty : Str × Str → Option (Str × Str)
nonempty ([], rest) = none
nonempty (c ∷ run, rest) = some (c ∷ run, rest)

plus : (ℕ → Bool) → Matcher
unfolding many
plus f s = nonempty (many f s)

either : Matcher → Matcher → Matcher
either m n s = elim (m s) [ none ↦ n s | some r ↦ some r ]

-- the first group of `(?i)(Authorization:\s*Bearer\s+)[^\s]+`
pub bearer_group : Matcher
bearer_group =
    seq (literal (codes "authorization:"))
      (seq (star is_re_space) (seq (literal (codes "bearer")) (plus is_re_space)))

-- the first group of `(?i)((OPENAI_API_KEY|ANTHROPIC_API_KEY|CASK_SESSION_TOKEN)\s*=\s*)[^\s]+`
pub key_group : Matcher
key_group =
    seq
      (either (literal (codes "openai_api_key"))
        (either (literal (codes "anthropic_api_key")) (literal (codes "cask_session_token"))))
      (seq (star is_re_space) (seq (literal (codes "=")) (star is_re_space)))

-- the first group, and the length of the whole match: the group and `[^\s]+`
abbrev with_struck : Str → Option (Str × Str) → Option (Str × ℕ)
with_struck kept none = none
with_struck kept (some (struck, _)) = some (kept, text_length kept + text_length struck)

abbrev with_secret : Option (Str × Str) → Option (Str × ℕ)
with_secret none = none
with_secret (some (kept, rest)) = with_struck kept (plus (λ c. not (is_re_space c)) rest)

pub whole : Matcher → Str → Option (Str × ℕ)
whole group s = with_secret (group s)

-- Regexp.ReplaceAllString(in, `${1}[REDACTED]`), with the runes of a match still to be skipped
strike_from : Matcher → ℕ → Str → Str
strike_from group k [] = []
strike_from group (suc k) (c ∷ s) = strike_from group k s
strike_from group zero (c ∷ s) = elim (whole group (c ∷ s)) [
  | none ↦ c ∷ strike_from group zero s
  | some (kept, n) ↦ kept ++ (redacted ++ strike_from group (n - 1) s)
]

strike : Matcher → Str → Str
strike group s = strike_from group zero s

-- redact.String
unfoldable pub redact : Str → Str
unfolding strike strike_from whole bearer_group key_group seq literal star plus either is_re_space
redact s = strike key_group (strike bearer_group (replace_all s sentinel redacted))

abbrev pub secret_fragments : List Str
secret_fragments =
    codes "apikey"
    ∷ codes "api_key"
    ∷ codes "password"
    ∷ codes "passwd"
    ∷ codes "secret"
    ∷ codes "credential"
    ∷ codes "privatekey"
    ∷ codes "private_key"
    ∷ codes "token"
    ∷ codes "runtimeclassname"
    ∷ []

-- redact.ContainsSecretLikeKey
unfoldable pub contains_secret_like_key : Str → Bool
contains_secret_like_key key = contains_any (to_lower key) secret_fragments
