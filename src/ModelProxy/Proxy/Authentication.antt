-- ===== src/ModelProxy/Proxy/Authentication.antt =====
-- Which requests the proxy authenticates.
use agentsty.Prelude.{
  ℕ, ◌≡◌, refl, sym, subst, if◌then◌else◌, ◌∙◌, ap, ◌≢◌, ◌↔◌, inl, inr, Bool, true, false, Option,
  none, some, List, ◌++◌, Str, str_eq_iff, mem_text_iff, OneOf, has_prefix, trim_prefix,
  append-trim_prefix, has_prefix-append, trim_prefix-append, ltb_ℤ_iff, ◌<ℤ◌, arith, Option-cases,
  Bool-cases,
}
use mathlib.Core.Option.{none-ne-some, some-injective}
use mathlib.Core.Bool.{false≢true}
use agentsty.V1alpha1.{
  AgentSession, Time, phase_expired, phase_terminating, phase_failed, allowed_model_refs,
}
use agentsty.Http.{Request, get, bearer, authorization}
use agentsty.ModelProxy.Token.Acceptance.{
  IsSignedUntil, validate_with_expiry-ok_iff, validate_with_expiry-until,
}
use agentsty.ModelProxy.Proxy.{Proxy, is_usable, expired_at, admit, admit_token, authenticate}

-- before the time, if there is one
unfoldable pub IsBefore : Time → Option Time → Type 0
IsBefore now none = Unit
IsBefore now (some t) = now <ℤ t

pub record IsUsable (now : Time) (s : AgentSession) : Type 0 where
  pub kept : s.deletion_timestamp ≡ none
  pub not_expired : s.status.phase ≢ phase_expired
  pub not_terminating : s.status.phase ≢ phase_terminating
  pub not_failed : s.status.phase ≢ phase_failed
  pub live : IsBefore now s.status.expires_at
  pub model : OneOf s.spec.model_ref allowed_model_refs

expired_at_iff : (now : Time) (o : Option Time) → (expired_at now o ≡ false) ↔ IsBefore now o
unfolding expired_at IsBefore
expired_at_iff now none = (λ _. tt, λ _. refl)
expired_at_iff now (some t) = ground (arith, ltb_ℤ_iff now t)

is_usable_iff : (now : Time) (s : AgentSession) → (is_usable now s ≡ true) ↔ IsUsable now s
unfolding is_usable
is_usable_iff now s = ground (
  arith,
  str_eq_iff s.status.phase phase_expired,
  str_eq_iff s.status.phase phase_terminating,
  str_eq_iff s.status.phase phase_failed,
  expired_at_iff now s.status.expires_at,
  mem_text_iff s.spec.model_ref allowed_model_refs,
)

-- The session is found and usable, if the proxy has a resolver.
unfoldable pub IsAdmitted : Option (Str → Option AgentSession) → Time → Str → Type 0
IsAdmitted none now session_id = Unit
IsAdmitted (some resolve) now session_id =
    (s : AgentSession) × (resolve session_id ≡ some s) × IsUsable now s

admit-IsUsable :
    (now : Time) (s : AgentSession) (session_id id : Str)
    → ((if is_usable now s then some session_id else none) ≡ some id)
      ↔ ((session_id ≡ id) × IsUsable now s)
admit-IsUsable now s session_id id = elim (Bool-cases (is_usable now s)) [
  | inl usable ↦ rw usable (λ h. (cc, (is_usable_iff now s).0 usable), λ (e, _). ap some e)
  | inr not_usable ↦
      rw not_usable
        (λ h. cc, λ (_, u). absurd (false≢true (sym not_usable ∙ (is_usable_iff now s).1 u)))
]

admit_iff :
    (sessions : Option (Str → Option AgentSession)) (now : Time) (session_id id : Str)
    → (admit sessions now session_id ≡ some id)
      ↔ ((session_id ≡ id) × IsAdmitted sessions now session_id)
unfolding admit IsAdmitted
admit_iff none now session_id id = (λ h. (cc, tt), λ (e, _). ap some e)
admit_iff (some resolve) now session_id id = elim (Option-cases (resolve session_id)) [
  | inl missing ↦ (
    λ h. absurd (none-ne-some _ (rw (missing, admit) at h)),
    λ (e, a). let (s, found, _) = a in absurd (none-ne-some _ (sym missing ∙ found)),
  )
  | inr (s, found) ↦ (
    λ h.
        let (e, u) = (admit-IsUsable now s session_id id).0 (rw (found, admit) at h) in
        (e, (s, found, u)),
    λ (e, a).
        let (s', found', u) = a in
        let same : s' ≡ s = some-injective _ _ (sym found' ∙ found) in
        rw (found, admit) ((admit-IsUsable now s session_id id).1 (e, subst (IsUsable now) same u)),
  )
]

module _ (hmac : Str → Str → List ℕ) (p : Proxy) (now later : Time) (r : Request) (id : Str) where
  -- The request carries the token that the proxy's manager signs for the session, not yet expired,
  -- and the session is usable.
  pub record IsAuthenticated : Type 0 where
    pub token : Str
    pub until : Time
    pub carried : get authorization r.header ≡ bearer ++ token
    pub signed : IsSignedUntil hmac p.tokens now token id until
    pub admitted : IsAdmitted p.sessions later id

  admit_token-ok :
      (v : Str × Option Time × Bool)
      → admit_token p.sessions later v ≡ some id
      → (v ≡ (id, v.1, true)) × IsAdmitted p.sessions later id
  admit_token-ok (sid, o, true) h =
      let (e, a) = (admit_iff p.sessions later sid id).0 h in
      (cc, subst (IsAdmitted p.sessions later) e a)
  admit_token-ok (sid, o, false) h = cc

  authenticate-ok : authenticate hmac p now later r ≡ some id → IsAuthenticated
  unfolding authenticate
  authenticate-ok h = elim (Bool-cases (has_prefix (get authorization r.header) bearer)) [
    | inl e ↦
        let carried = get authorization r.header in
        let token = trim_prefix carried bearer in
        let (accepted, admitted) = admit_token-ok _ (rw (e, authenticate) at h) in
        let (t, until) = validate_with_expiry-until hmac p.tokens now token id _ accepted in
        record {
          token = token;
          until = t;
          carried = append-trim_prefix carried bearer e;
          signed =
              (validate_with_expiry-ok_iff hmac p.tokens now token id t).0
                (accepted ∙ ap (λ o. (id, o, true)) until);
          admitted = admitted;
        }
    | inr e ↦ absurd (none-ne-some _ (rw (e, authenticate) at h))
  ]

  -- The proxy authenticates a request for a session exactly if the request carries an unexpired
  -- token signed for it, and the session, if the proxy can resolve sessions, exists, is not being
  -- deleted, is not expired, terminating or failed, and uses an allowed model.
  pub authenticate-ok_iff : (authenticate hmac p now later r ≡ some id) ↔ IsAuthenticated
  unfolding authenticate
  authenticate-ok_iff = (
    authenticate-ok,
    λ a.
        let v = (validate_with_expiry-ok_iff hmac p.tokens now a.token id a.until).1 a.signed in
        rw (a.carried, has_prefix-append bearer a.token, trim_prefix-append bearer a.token, v)
          ((admit_iff p.sessions later id id).1 (refl, a.admitted)),
  )
