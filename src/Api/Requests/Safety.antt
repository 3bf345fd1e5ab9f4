-- ===== src/Api/Requests/Safety.antt =====
-- What a request for a session must not hold.
use agentsty.Prelude.{
  true, Str, List, ◌++◌, ◌⊎◌, ap, ◌∙◌, codes, Bool-cases, has_prefix, trim_prefix,
  append-trim_prefix, contains_of_part, ◌≡◌, refl, ◌↔◌, inl, inr, Bool, false, none, [], ◌∷◌,
  mem_text_iff, OneOf, contains, contains_any, to_lower, Dict, arith,
}
use mathlib.Core.Bool.{false≢true}
use agentsty.Redact.{sentinel, contains_secret_like_key}
use agentsty.Api.Requests.{
  Json, allowed_fields, text, is_secret_text, contains_secret_value, reject_forbidden,
}

-- None of the fields that are allowed looks secret, so that test never fails behind the other.
allowed_fields-plain : (key : Str) → OneOf key allowed_fields → contains_secret_like_key key ≡ false
unfolding OneOf contains_secret_like_key contains_any contains to_lower
allowed_fields-plain key (inl e) = rw e
allowed_fields-plain key (inr (inl e)) = rw e
allowed_fields-plain key (inr (inr (inl e))) = rw e
allowed_fields-plain key (inr (inr (inr (inl e)))) = rw e
allowed_fields-plain key (inr (inr (inr (inr (inl e))))) = rw e
allowed_fields-plain key (inr (inr (inr (inr (inr (inl e)))))) = rw e
allowed_fields-plain key (inr (inr (inr (inr (inr (inr (inl e))))))) = rw e
allowed_fields-plain key (inr (inr (inr (inr (inr (inr (inr x))))))) = elim x [ ]

-- the first text stands somewhere in the second
unfoldable pub IsPart : Str → Str → Type 0
IsPart p s = (before : Str) × (after : Str) × (s ≡ before ++ (p ++ after))

has_prefix-IsPart : (s p : Str) → has_prefix s p ≡ true → IsPart p s
unfolding IsPart
has_prefix-IsPart s p h = ([], trim_prefix s p, append-trim_prefix s p h)

contains-IsPart : (s p : Str) → contains s p ≡ true → IsPart p s
unfolding contains IsPart
contains-IsPart [] p h = has_prefix-IsPart [] p h
contains-IsPart (c ∷ s) p h = elim (Bool-cases (has_prefix (c ∷ s) p)) [
  | inl here ↦ has_prefix-IsPart (c ∷ s) p here
  | inr e ↦
      let (before, after, parts) = contains-IsPart s p (rw (e, contains) at h) in
      (c ∷ before, after, ap (λ t. c ∷ t) parts)
]

IsPart-contains : (s p : Str) → IsPart p s → contains s p ≡ true
unfolding IsPart
IsPart-contains s p (before, after, parts) =
    ap (λ t. contains t p) parts ∙ contains_of_part p before after

contains_any-cons_iff :
    (s m : Str) (ms : List Str)
    → (contains_any s (m ∷ ms) ≡ true) ↔ (IsPart m s ⊎ (contains_any s ms ≡ true))
unfolding contains_any
contains_any-cons_iff s m ms = ground (arith, contains-IsPart s m, IsPart-contains s m)

-- The texts of which one stands, in lower case, in a text that looks like a provider's key.
abbrev pub key_marks : List Str
key_marks =
    codes "sk-"
    ∷ codes "ghp_"
    ∷ codes "github_pat_"
    ∷ codes "glpat-"
    ∷ codes "xoxb-"
    ∷ codes "akia"
    ∷ codes "anthropic_api_key"
    ∷ []

-- one of the texts stands in the text
pub HasMark : List Str → Str → Type 0
HasMark [] s = ⊥
HasMark (m ∷ ms) s = IsPart m s ⊎ HasMark ms s

contains_any-HasMark : (s : Str) (ms : List Str) → (contains_any s ms ≡ true) ↔ HasMark ms s
unfolding HasMark contains_any
contains_any-HasMark s [] = (λ h. false≢true h, λ h. absurd h)
contains_any-HasMark s (m ∷ ms) =
    let both = contains_any-cons_iff s m ms in
    let rest = contains_any-HasMark s ms in
    (
      λ h. elim (both.0 h) [ inl here ↦ inl here | inr later ↦ inr (rest.0 later) ],
      λ h. both.1 (elim h [ inl here ↦ inl here | inr later ↦ inr (rest.1 later) ]),
    )

-- the fields that a request may have
abbrev pub request_fields : List Str
request_fields =
    codes "tool"
    ∷ codes "repoUrl"
    ∷ codes "branch"
    ∷ codes "modelRef"
    ∷ codes "resourceProfile"
    ∷ codes "isolationProfile"
    ∷ codes "ttlSeconds"
    ∷ []

module _ (has_userinfo : Str → Bool) where
  -- The text holds the sentinel key, is a URL with user information, or looks like a provider's key.
  pub IsSecret : Str → Type 0
  IsSecret s =
      IsPart (codes "REAL_UPSTREAM_KEY_SHOULD_NEVER_LEAK") s
      ⊎ (has_userinfo s ≡ true)
      ⊎ HasMark key_marks (to_lower s)

  is_secret_text-IsSecret : (s : Str) → (is_secret_text has_userinfo s ≡ true) ↔ IsSecret s
  unfolding is_secret_text IsSecret
  is_secret_text-IsSecret s = ground (
    arith,
    contains-IsPart s sentinel,
    IsPart-contains s sentinel,
    contains_any-HasMark (to_lower s) key_marks,
  )

  -- A value that is a text is no secret; the texts within an array or an object are not looked at.
  pub IsPlainValue : Json → Type 0
  IsPlainValue (text s) = ¬ IsSecret s
  IsPlainValue _ = Unit

  contains_secret_value-IsPlainValue :
      (value : Json) → (contains_secret_value has_userinfo value ≡ false) ↔ IsPlainValue value
  unfolding contains_secret_value IsPlainValue
  contains_secret_value-IsPlainValue (text s) = ground (arith, is_secret_text-IsSecret s)
  contains_secret_value-IsPlainValue (Json.number n) = (λ _. tt, λ _. refl)
  contains_secret_value-IsPlainValue (Json.boolean b) = (λ _. tt, λ _. refl)
  contains_secret_value-IsPlainValue Json.null = (λ _. tt, λ _. refl)
  contains_secret_value-IsPlainValue (Json.array items) = (λ _. tt, λ _. refl)
  contains_secret_value-IsPlainValue (Json.object fields) = (λ _. tt, λ _. refl)

  -- every field is one of the seven, and no value is a secret text
  pub IsSafeBody : Dict Json → Type 0
  IsSafeBody [] = Unit
  IsSafeBody ((key, value) ∷ rest) = OneOf key request_fields × IsPlainValue value × IsSafeBody rest

  -- rejectForbidden lets a body through exactly if it has only the seven fields, and none of their
  -- values is a text that holds the sentinel key, is a URL with user information, or holds in lower
  -- case one of the seven marks of a provider's key. Texts within an array or an object are let through.
  pub reject_forbidden-eq-none_iff :
      (raw : Dict Json) → (reject_forbidden has_userinfo raw ≡ none) ↔ IsSafeBody raw
  unfolding reject_forbidden IsSafeBody
  reject_forbidden-eq-none_iff [] = (λ _. tt, λ _. refl)
  reject_forbidden-eq-none_iff ((key, value) ∷ rest) = ground (
    arith,
    mem_text_iff key allowed_fields,
    allowed_fields-plain key,
    contains_secret_value-IsPlainValue value,
    reject_forbidden-eq-none_iff rest,
  )
