-- ===== src/Redact/Tests.antt =====
-- Runs of redact.String.
use agentsty.Prelude.{◌≡◌, refl, ◌≢◌, [], ◌∷◌, ◌++◌, codes, replace_all}
use agentsty.Http.{Header}
use agentsty.Redact.{sentinel, redact}
use agentsty.Redact.Sentinel.{redact-ne_part}

redact_tests :
    (redact (codes "x authorization:Bearer  abc REAL_UPSTREAM_KEY_SHOULD_NEVER_LEAK")
      ≡ codes "x authorization:Bearer  [REDACTED] [REDACTED]")
    × (redact (codes "a OPENAI_API_KEY = k1 Cask_Session_Token=k2")
        ≡ codes "a OPENAI_API_KEY = [REDACTED] Cask_Session_Token=[REDACTED]")
unfolding redact replace_all
redact_tests = (refl, refl)

redact-ne_part_example :
    redact (codes "key REAL_UPSTREAM_KEY_SHOULD_NEVER_LEAK") ≢ codes "key " ++ (sentinel ++ [])
redact-ne_part_example =
    redact-ne_part (codes "key REAL_UPSTREAM_KEY_SHOULD_NEVER_LEAK") (codes "key ") []

abbrev cookie : Header
cookie = (codes "Cookie", codes "c=1" ∷ []) ∷ []
