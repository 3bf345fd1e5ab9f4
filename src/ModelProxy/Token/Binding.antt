-- ===== src/ModelProxy/Token/Binding.antt =====
-- A token is bound to the session and the expiry that it was signed for.
use agentsty.Prelude.{
  ℕ, ◌+◌, ◌≡◌, refl, ap, sym, ◌∙◌, ◌≢◌, true, some, List, [], ◌∷◌, ◌++◌, Str, split, Lacks, ◌==◌,
  FitsInt64, format_int, format_int-Lacks, parse_int, parse_int-format_int, arith, if◌then◌else◌,
}
use mathlib.Core.Path.{ap₂}
use mathlib.Core.Option.{some-injective}
use agentsty.V1alpha1.{Time}
use agentsty.ModelProxy.Token.{
  TokenManager, secret_or_default, unix, from_unix, signature, signed_token, generate_until,
  validate_with_expiry,
}
use agentsty.ModelProxy.Token.RoundTrip.{b64_encode-Lacks, split-signed_token}
use agentsty.ModelProxy.Token.Acceptance.{validate_with_expiry-ok_iff}

count_rune : ℕ → Str → ℕ
count_rune a [] = 0
count_rune a (c ∷ s) = (if c == a then 1 else 0) + count_rune a s

count_rune-append : (a : ℕ) (s t : Str) → count_rune a (s ++ t) ≡ count_rune a s + count_rune a t
unfolding count_rune
count_rune-append a [] t = omega arith
count_rune-append a (c ∷ s) t = omega (arith, count_rune-append a s t)

Lacks-of_count_rune : (a : ℕ) (s : Str) → count_rune a s ≡ 0 → Lacks a s
unfolding count_rune
Lacks-of_count_rune a [] h = tt
Lacks-of_count_rune a (c ∷ s) h = (ground arith, Lacks-of_count_rune a s (omega arith))

count_rune_of_Lacks : (a : ℕ) (s : Str) → Lacks a s → count_rune a s ≡ 0
unfolding count_rune
count_rune_of_Lacks a [] h = refl
count_rune_of_Lacks a (c ∷ s) h = ground (arith, count_rune_of_Lacks a s h.1)

four_parts :
    {a b c d a' b' c' d' : Str}
    → ◌≡◌ {A = List Str} (a ∷ b ∷ c ∷ d ∷ []) (a' ∷ b' ∷ c' ∷ d' ∷ [])
    → (b ≡ b') × (c ≡ c') × (d ≡ d')
four_parts h = (cc, cc, cc)

module _ (hmac : Str → Str → List ℕ) where
  -- Whatever secrets two managers have, and whatever the times: if one accepts a token that the
  -- other made for a session with no dot in its name and an expiry in int64, it accepts it for that
  -- session and that expiry, and the two signatures of its payload are the same.
  pub validate_with_expiry_binds :
      (m issuer : TokenManager) (now expires_at t : Time) (session_id accepted : Str)
      → Lacks b'.' session_id
      → FitsInt64 (unix expires_at)
      → validate_with_expiry hmac m now (generate_until hmac issuer session_id expires_at)
        ≡ (accepted, some t, true)
      → (accepted ≡ session_id)
        × (t ≡ from_unix (unix expires_at))
        × (signature hmac m (session_id ++ b'.' ∷ format_int (unix expires_at))
            ≡ signature hmac issuer (session_id ++ b'.' ∷ format_int (unix expires_at)))
  unfolding generate_until
  validate_with_expiry_binds m issuer now expires_at t session_id accepted hs fits h =
      let v = (validate_with_expiry-ok_iff hmac m now _ accepted t).0 h in
      let fields =
        sym (
          split-signed_token hmac issuer session_id (format_int (unix expires_at)) hs
            (format_int-Lacks (unix expires_at)))
        ∙ ap (λ s. split s b'.') v.signed
        ∙ split-signed_token hmac m accepted v.expiry v.session_Lacks v.expiry_Lacks in
      let (same_session, same_expiry, same_signature) = four_parts fields in
      let read = parse_int-format_int (unix expires_at) fits in
      let seconds : v.seconds ≡ unix expires_at =
        some-injective _ _ (sym v.read ∙ ap parse_int (sym same_expiry) ∙ read) in
      (
        sym same_session,
        v.until ∙ ap from_unix seconds,
        ap₂ (λ x y. signature hmac m (x ++ b'.' ∷ y)) same_session same_expiry ∙ sym same_signature,
      )

  count_signed_token :
      (m : TokenManager) (session_id expiry : Str)
      → count_rune b'.' (signed_token hmac m session_id expiry)
        ≡ 3 + count_rune b'.' session_id + count_rune b'.' expiry
  unfolding signed_token signature count_rune
  count_signed_token m session_id expiry =
      let payload = session_id ++ b'.' ∷ expiry in
      omega (
        arith,
        count_rune-append b'.' session_id (b'.' ∷ (expiry ++ b'.' ∷ signature hmac m payload)),
        count_rune-append b'.' expiry (b'.' ∷ signature hmac m payload),
        count_rune_of_Lacks b'.' _ (b64_encode-Lacks (hmac (secret_or_default m) payload)),
      )

  -- No token is ever accepted that was made for a session with a dot in its name.
  pub validate_with_expiry-dotted :
      (m issuer : TokenManager) (now expires_at t : Time) (session_id accepted : Str)
      → ¬ Lacks b'.' session_id
      → validate_with_expiry hmac m now (generate_until hmac issuer session_id expires_at)
        ≢ (accepted, some t, true)
  unfolding generate_until
  validate_with_expiry-dotted m issuer now expires_at t session_id accepted dotted h =
      let v = (validate_with_expiry-ok_iff hmac m now _ accepted t).0 h in
      dotted (
        Lacks-of_count_rune b'.' session_id (
          omega (
            arith,
            ap (count_rune b'.') v.signed,
            count_signed_token issuer session_id (format_int (unix expires_at)),
            count_signed_token m accepted v.expiry,
            count_rune_of_Lacks b'.' accepted v.session_Lacks,
            count_rune_of_Lacks b'.' v.expiry v.expiry_Lacks,
          )))
