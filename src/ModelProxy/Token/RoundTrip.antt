-- ===== src/ModelProxy/Token/RoundTrip.antt =====
-- A generated token is accepted until it expires.
use agentsty.Prelude.{
  ℕ, ◌≡◌, ◌≢◌, true, some, List, [], ◌∷◌, ◌++◌, Str, split, split-part, split-last, Lacks,
  str_eq_refl, ℤ, ltb_ℤ_iff, ◌<ℤ◌, FitsInt64, format_int, parse_int, parse_int-format_int,
  format_int-Lacks, arith,
}
use agentsty.V1alpha1.{Time}
use agentsty.ModelProxy.Token.{
  TokenManager, token_prefix, b64_rune, b64_encode, unix, from_unix, signature, signed_token,
  generate_until, validate_with_expiry,
}

b64_rune-ne : (n : ℕ) → b64_rune n ≢ b'.'
unfolding b64_rune
b64_rune-ne n = ground arith

pub b64_encode-Lacks : (bytes : List ℕ) → Lacks b'.' (b64_encode bytes)
unfolding b64_encode
b64_encode-Lacks [] = tt
b64_encode-Lacks (a ∷ []) = (b64_rune-ne _, (b64_rune-ne _, tt))
b64_encode-Lacks (a ∷ b ∷ []) = (b64_rune-ne _, (b64_rune-ne _, (b64_rune-ne _, tt)))
b64_encode-Lacks (a ∷ b ∷ c ∷ r) =
    (b64_rune-ne _, (b64_rune-ne _, (b64_rune-ne _, (b64_rune-ne _, b64_encode-Lacks r))))

module _ (hmac : Str → Str → List ℕ) where
  -- A token whose session and expiry hold no dot splits into its four fields.
  pub split-signed_token :
      (m : TokenManager) (session_id expiry : Str)
      → Lacks b'.' session_id
      → Lacks b'.' expiry
      → split (signed_token hmac m session_id expiry) b'.'
        ≡ token_prefix ∷ session_id ∷ expiry ∷ signature hmac m (session_id ++ b'.' ∷ expiry) ∷ []
  unfolding signed_token signature
  split-signed_token m session_id expiry hs he = rw (
    split-part b'.' token_prefix _ (omega arith),
    split-part b'.' session_id _ hs,
    split-part b'.' expiry _ he,
    split-last b'.' _ (b64_encode-Lacks _),
  )

  pub validate_with_expiry-signed_token :
      (m : TokenManager) (now : Time) (session_id expiry : Str) (n : ℤ)
      → Lacks b'.' session_id
      → Lacks b'.' expiry
      → parse_int expiry ≡ some n
      → now <ℤ from_unix n
      → validate_with_expiry hmac m now (signed_token hmac m session_id expiry)
        ≡ (session_id, some (from_unix n), true)
  unfolding validate_with_expiry
  validate_with_expiry-signed_token m now session_id expiry n hs he hn live = rw (
    split-signed_token m session_id expiry hs he,
    str_eq_refl token_prefix,
    hn,
    (ltb_ℤ_iff now (from_unix n)).1 live,
    str_eq_refl (signed_token hmac m session_id expiry),
  )

  -- A token that GenerateUntil makes for a session with no dot in its name, and whose expiry is
  -- an int64 of seconds, is accepted for that session at any time before that second.
  pub validate_with_expiry-generate_until :
      (m : TokenManager) (now expires_at : Time) (session_id : Str)
      → Lacks b'.' session_id
      → FitsInt64 (unix expires_at)
      → now <ℤ from_unix (unix expires_at)
      → validate_with_expiry hmac m now (generate_until hmac m session_id expires_at)
        ≡ (session_id, some (from_unix (unix expires_at)), true)
  unfolding generate_until
  validate_with_expiry-generate_until m now expires_at session_id hs fits live =
      validate_with_expiry-signed_token m now session_id (format_int (unix expires_at))
        (unix expires_at) hs (format_int-Lacks _) (parse_int-format_int _ fits) live
