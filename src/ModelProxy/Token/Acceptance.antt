-- ===== src/ModelProxy/Token/Acceptance.antt =====
-- Which tokens are accepted.
use agentsty.Prelude.{
  ℕ, ◌≡◌, refl, ap, sym, ◌∙◌, subst, ◌↔◌, true, Option, none, some, List, [], ◌∷◌, Str, str_eq_iff,
  split, split-Lacks, Lacks, ℤ, ltb_ℤ_iff, ◌<ℤ◌, parse_int, arith,
}
use agentsty.V1alpha1.{Time}
use agentsty.ModelProxy.Token.{
  TokenManager, from_unix, signed_token, token_fields, check_fields, check_expiry, check_signature,
  validate_with_expiry,
}
use agentsty.ModelProxy.Token.RoundTrip.{validate_with_expiry-signed_token}

token_fields-some :
    (ps : List Str) {a b c : Str}
    → token_fields ps ≡ some (a, b, c)
    → (d : Str) × (ps ≡ a ∷ b ∷ c ∷ d ∷ [])
unfolding token_fields
token_fields-some [] h = cc
token_fields-some (a ∷ []) h = cc
token_fields-some (a ∷ b ∷ []) h = cc
token_fields-some (a ∷ b ∷ c ∷ []) h = cc
token_fields-some (a ∷ b ∷ c ∷ d ∷ []) h = (d, ground arith)
token_fields-some (a ∷ b ∷ c ∷ d ∷ e ∷ r) h = cc

-- A token that is accepted has an expiry.
module _ (hmac : Str → Str → List ℕ) (m : TokenManager) (now : Time) (token : Str) where
  check_expiry-until :
      (sid expiry session_id : Str) (o : Option Time) (n : Option ℤ)
      → check_expiry hmac m now token sid expiry n ≡ (session_id, o, true)
      → (t : Time) × (o ≡ some t)
  unfolding check_expiry check_signature
  check_expiry-until sid expiry session_id o none h = cc
  check_expiry-until sid expiry session_id o (some n) h = (from_unix n, ground arith)

  check_fields-until :
      (session_id : Str) (o : Option Time) (fs : Option (Str × Str × Str))
      → check_fields hmac m now token fs ≡ (session_id, o, true)
      → (t : Time) × (o ≡ some t)
  unfolding check_fields
  check_fields-until session_id o none h = cc
  check_fields-until session_id o (some (a, b, c)) h =
      check_expiry-until b c session_id o (parse_int c) (ground arith)

  pub validate_with_expiry-until :
      (session_id : Str) (o : Option Time)
      → validate_with_expiry hmac m now token ≡ (session_id, o, true)
      → (t : Time) × (o ≡ some t)
  unfolding validate_with_expiry
  validate_with_expiry-until session_id o h = check_fields-until session_id o _ h

module _ (hmac : Str → Str → List ℕ) (m : TokenManager) (now : Time) (token session_id : Str)
    (t : Time) where
  -- The token that the manager itself signs for the session and an expiry, which is `t` and is not
  -- yet reached.
  pub record IsSignedUntil : Type 0 where
    pub expiry : Str
    pub seconds : ℤ
    pub signed : token ≡ signed_token hmac m session_id expiry
    pub session_Lacks : Lacks b'.' session_id
    pub expiry_Lacks : Lacks b'.' expiry
    pub read : parse_int expiry ≡ some seconds
    pub until : t ≡ from_unix seconds
    pub live : now <ℤ t

  check_signature-ok :
      (sid expiry : Str) (at : Time)
      → check_signature hmac m now token sid expiry at ≡ (session_id, some t, true)
      → (now <ℤ at) × (token ≡ signed_token hmac m sid expiry) × (sid ≡ session_id) × (at ≡ t)
  unfolding check_signature
  check_signature-ok sid expiry at h =
      let same = str_eq_iff (signed_token hmac m sid expiry) token in
      let later = ltb_ℤ_iff now at in (ground arith, ground arith, ground arith, ground arith)

  check_expiry-ok :
      (sid expiry : Str) (n : Option ℤ)
      → parse_int expiry ≡ n
      → Lacks b'.' sid
      → Lacks b'.' expiry
      → check_expiry hmac m now token sid expiry n ≡ (session_id, some t, true)
      → IsSignedUntil
  unfolding check_expiry
  check_expiry-ok sid expiry none e hs he h = cc
  check_expiry-ok sid expiry (some n) e hs he h =
      let (live, signed, sid_eq, at_eq) = check_signature-ok sid expiry (from_unix n) h in
      record {
        expiry = expiry;
        seconds = n;
        signed = signed ∙ ap (λ x. signed_token hmac m x expiry) sid_eq;
        session_Lacks = subst (Lacks b'.') sid_eq hs;
        expiry_Lacks = he;
        read = e;
        until = sym at_eq;
        live = subst (λ x. now <ℤ x) at_eq live;
      }

  check_fields-ok :
      (fs : Option (Str × Str × Str))
      → token_fields (split token b'.') ≡ fs
      → check_fields hmac m now token fs ≡ (session_id, some t, true)
      → IsSignedUntil
  unfolding check_fields
  check_fields-ok none e h = cc
  check_fields-ok (some (a, b, c)) e h =
      let (d, parts) = token_fields-some _ e in
      let lacks = rw parts at (split-Lacks b'.' token) in
      check_expiry-ok b c (parse_int c) refl lacks.1.0 lacks.1.1.0 (ground arith)

  -- A token is accepted for a session until a time exactly if it is the token that the manager
  -- signs for that session and that expiry, the session's name holds no dot, and the time is not
  -- yet reached.
  pub validate_with_expiry-ok_iff :
      (validate_with_expiry hmac m now token ≡ (session_id, some t, true)) ↔ IsSignedUntil
  unfolding validate_with_expiry
  validate_with_expiry-ok_iff = (
    check_fields-ok _ refl,
    λ v.
        rw (v.signed, v.until)
          (validate_with_expiry-signed_token hmac m now session_id v.expiry v.seconds
            v.session_Lacks v.expiry_Lacks v.read (subst (λ x. now <ℤ x) v.until v.live)),
  )
