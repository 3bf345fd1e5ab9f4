-- ===== src/ModelProxy/Proxy/Copying.antt =====
-- The headers that the proxy makes and copies.
use agentsty.Prelude.{
  ◌≡◌, refl, sym, ◌∙◌, ap, inl, inr, Bool, true, false, ◌||◌, List, [], ◌∷◌, ◌++◌, append_assoc,
  append-nil, Str, codes, str_eq, str_eq_iff, equal_fold, lookup, arith, Bool-cases, if◌then◌else◌,
}
use mathlib.Core.Bool.{false≢true}
use agentsty.Http.{Header, values, add, del, bearer, authorization, error_header, json_header}
use agentsty.Http.Laws.{values-set, values-add, values-del}
use agentsty.ModelProxy.Proxy.{Proxy, upstream_header, add_all, copy_header}

abbrev pub is_withheld : Str → Bool
is_withheld k = equal_fold k authorization || equal_fold k (codes "Set-Cookie")

values-add_all :
    (k j : Str) (vs : List Str) (h : Header)
    → values j (add_all k vs h) ≡ (if str_eq k j then values j h ++ vs else values j h)
unfolding add_all
values-add_all k j [] h = ground (arith, append-nil (values j h))
values-add_all k j (v ∷ vs) h = ground (
  arith,
  values-add_all k j vs (add k v h),
  values-add k j v h,
  append_assoc (values j h) (v ∷ []) vs,
)

-- all the values that a header lists for a key
pub gather : Str → Header → List Str
gather k [] = []
gather k ((j, vs) ∷ h) = if str_eq j k then vs ++ gather k h else gather k h

withheld_apart : (j k : Str) → is_withheld j ≡ false → is_withheld k ≡ true → str_eq j k ≡ false
withheld_apart j k hj hk = elim (Bool-cases (str_eq j k)) [
  | inl same ↦ absurd (false≢true (sym hj ∙ ap is_withheld ((str_eq_iff j k).0 same) ∙ hk))
  | inr other ↦ other
]

pub copy_header-withheld :
    (k : Str) (hs h : Header) → is_withheld k ≡ true → values k (copy_header hs h) ≡ values k h
unfolding copy_header
copy_header-withheld k [] h w = refl
copy_header-withheld k ((j, vs) ∷ hs) h w = elim (Bool-cases (is_withheld j)) [
  | inl skipped ↦ rw skipped (copy_header-withheld k hs h w)
  | inr copied ↦ rw copied (
      copy_header-withheld k hs (add_all j vs h) w
      ∙ values-add_all j k vs h
      ∙ rw (withheld_apart j k copied w))
]

pub copy_header-copied :
    (k : Str) (hs h : Header)
    → is_withheld k ≡ false
    → values k (copy_header hs h) ≡ values k h ++ gather k hs
unfolding copy_header gather
copy_header-copied k [] h w = sym (append-nil _)
copy_header-copied k ((j, vs) ∷ hs) h w = elim (Bool-cases (str_eq j k)) [
  | inl same ↦
      let j_copied : is_withheld j ≡ false = ap is_withheld ((str_eq_iff j k).0 same) ∙ w in
      rw (j_copied, same)
        (copy_header-copied k hs (add_all j vs h) w
          ∙ ap (λ l. l ++ gather k hs) (values-add_all j k vs h ∙ rw same)
          ∙ append_assoc (values k h) vs (gather k hs))
  | inr other ↦ elim (Bool-cases (is_withheld j)) [
    | inl skipped ↦ rw (skipped, other) (copy_header-copied k hs h w)
    | inr copied ↦
        rw (copied, other)
          (copy_header-copied k hs (add_all j vs h) w
            ∙ ap (λ l. l ++ gather k hs) (values-add_all j k vs h ∙ rw other))
  ]
]

plain_keys :
    (is_withheld (codes "Content-Type") ≡ false)
    × (is_withheld (codes "X-Content-Type-Options") ≡ false)
unfolding equal_fold str_eq
plain_keys = (refl, refl)

pub values-error_header : (k : Str) → is_withheld k ≡ true → values k error_header ≡ []
unfolding values lookup
values-error_header k w = rw (withheld_apart _ k plain_keys.0 w, withheld_apart _ k plain_keys.1 w)

pub values-json_header : (k : Str) → is_withheld k ≡ true → values k json_header ≡ []
unfolding values lookup
values-json_header k w = rw (withheld_apart _ k plain_keys.0 w)

pub values-upstream_header :
    (p : Proxy) (h : Header) (k : Str)
    → values k (upstream_header p h) ≡ (
        if str_eq authorization k
        then (if str_eq p.upstream_key [] then [] else (bearer ++ p.upstream_key) ∷ [])
        else values k h)
values-upstream_header p h k = ground (
  arith,
  values-set authorization k (bearer ++ p.upstream_key) (del authorization h),
  values-del authorization k h,
)
