-- ===== src/Redact/Sentinel.antt =====
-- The sentinel key does not come through redact.String.
use agentsty.Prelude.{
  ℕ, zero, suc, ◌-◌, ◌≡◌, refl, sym, ◌∙◌, ◌≢◌, ◌⊎◌, inl, inr, true, false, [], ◌∷◌, ◌++◌, Str,
  codes, Lacks, has_prefix, has_prefix-append, contains, contains-append_sep, contains-append_left,
  contains-append_right, contains_of_part, has_prefix_cons_ne, has_prefix_nil,
  has_prefix-append_sep, has_prefix-append_left, replace_from, replace_all, text_length, arith,
  Bool-cases, Option-cases,
}
use mathlib.Core.Bool.{false≢true}
use mathlib.Core.List.{cons-ne-nil}
use agentsty.Redact.{
  Matcher, sentinel, redacted, bearer_group, key_group, whole, strike_from, strike, redact,
}
use agentsty.Redact.Matching.{Splits, bearer_group-Splits, key_group-Splits, whole-some}

has_prefix_cons :
    (x c : ℕ) (q s t : Str)
    → (has_prefix s q ≡ true → has_prefix t q ≡ true)
    → has_prefix (c ∷ s) (x ∷ q) ≡ true
    → has_prefix (c ∷ t) (x ∷ q) ≡ true
unfolding has_prefix
has_prefix_cons x c q s t h e = ground arith

contains_cons :
    (p : Str) (c : ℕ) (s t : Str)
    → (has_prefix (c ∷ s) p ≡ true → has_prefix (c ∷ t) p ≡ true)
    → (contains s p ≡ true → contains t p ≡ true)
    → contains (c ∷ s) p ≡ true
    → contains (c ∷ t) p ≡ true
unfolding contains
contains_cons p c s t h k e = ground arith

contains_cons_cases :
    (p : Str) (c : ℕ) (s : Str)
    → contains (c ∷ s) p ≡ true
    → (has_prefix (c ∷ s) p ≡ true) ⊎ (contains s p ≡ true)
unfolding contains
contains_cons_cases p c s h = ground arith

contains_nil_ne : (p : Str) → p ≢ [] → contains [] p ≢ true
unfolding contains
contains_nil_ne p n h = ground (arith, has_prefix_nil p n)

-- A text without brackets that is no part of the replacement.
module _ (p : Str) (nonempty : p ≢ []) (no_open : Lacks b'[' p) (no_close : Lacks b']' p)
    (foreign : contains (codes "REDACTED") p ≡ false) where
  contains-append_redacted :
      (a r : Str)
      → contains (a ++ (redacted ++ r)) p ≡ true
      → (contains a p ≡ true) ⊎ (contains r p ≡ true)
  contains-append_redacted a r h = elim (contains-append_sep b'[' p a _ nonempty no_open h) [
    | inl before ↦ inl before
    | inr after ↦ elim (contains-append_sep b']' p (codes "REDACTED") r nonempty no_close after) [
      | inl inside ↦ cc
      | inr behind ↦ inr behind
    ]
  ]

  module _ (group : Matcher) (splits : Splits group) where
    has_prefix-strike :
        (q s : Str)
        → Lacks b'[' q
        → has_prefix (strike_from group zero s) q ≡ true
        → has_prefix s q ≡ true
    unfolding strike_from
    has_prefix-strike [] s l h = has_prefix-append [] s
    has_prefix-strike (x ∷ q) [] l h = h
    has_prefix-strike (x ∷ q) (c ∷ s) l h = elim (Option-cases (whole group (c ∷ s))) [
      | inl missed ↦
          has_prefix_cons x c q (strike_from group zero s) s (has_prefix-strike q s l.1)
            (rw (missed, strike_from) at h)
      | inr ((kept, n), found) ↦
          let (rest, e) = whole-some group (c ∷ s) kept n splits found in
          rw e (
            has_prefix-append_left (x ∷ q) kept rest
              (has_prefix-append_sep b'[' (x ∷ q) kept _ l (rw (found, strike_from) at h)))
    ]

    -- It does not come about by striking something out.
    contains-strike_from :
        (k : ℕ) (s : Str) → contains (strike_from group k s) p ≡ true → contains s p ≡ true
    unfolding strike_from
    contains-strike_from k [] h = h
    contains-strike_from (suc k) (c ∷ s) h =
        contains-append_right p (c ∷ []) s (contains-strike_from k s h)
    contains-strike_from zero (c ∷ s) h = elim (Option-cases (whole group (c ∷ s))) [
      | inl missed ↦
          contains_cons p c (strike_from group zero s) s
            (λ e. has_prefix-strike p (c ∷ s) no_open (rw (missed, strike_from) e))
            (contains-strike_from zero s) (rw (missed, strike_from) at h)
      | inr ((kept, n), found) ↦
          let (rest, e) = whole-some group (c ∷ s) kept n splits found in
          elim (contains-append_redacted kept _ (rw (found, strike_from) at h)) [
            | inl before ↦ rw e (contains-append_left p kept rest nonempty before)
            | inr behind ↦
                contains-append_right p (c ∷ []) s (contains-strike_from (n - 1) s behind)
          ]
    ]

  -- It does not come through a replacement of it.
  has_prefix-replace_from :
      (q s : Str)
      → Lacks b'[' q
      → has_prefix (replace_from zero s p redacted) q ≡ true
      → has_prefix s q ≡ true
  unfolding replace_from
  has_prefix-replace_from [] s l h = has_prefix-append [] s
  has_prefix-replace_from (x ∷ q) [] l h = h
  has_prefix-replace_from (x ∷ q) (c ∷ s) l h = elim (Bool-cases (has_prefix (c ∷ s) p)) [
    | inl found ↦ absurd (
        false≢true (
          sym (has_prefix_cons_ne b'[' (x ∷ q) _ (cons-ne-nil x q) l)
          ∙ rw (found, replace_from) at h))
    | inr missed ↦
        has_prefix_cons x c q (replace_from zero s p redacted) s (has_prefix-replace_from q s l.1)
          (rw (missed, replace_from) at h)
  ]

  contains-replace_from : (k : ℕ) (s : Str) → contains (replace_from k s p redacted) p ≢ true
  unfolding replace_from
  contains-replace_from k [] h = contains_nil_ne p nonempty h
  contains-replace_from (suc k) (c ∷ s) h = contains-replace_from k s h
  contains-replace_from zero (c ∷ s) h = elim (Bool-cases (has_prefix (c ∷ s) p)) [
    | inl found ↦ elim (contains-append_redacted [] _ (rw (found, replace_from) at h)) [
      | inl nowhere ↦ contains_nil_ne p nonempty nowhere
      | inr behind ↦ contains-replace_from (text_length p - 1) s behind
    ]
    | inr missed ↦ elim (contains_cons_cases p c _ (rw (missed, replace_from) at h)) [
      | inl at_start ↦ false≢true (
          sym missed
          ∙ has_prefix-replace_from p (c ∷ s) no_open (rw (missed, replace_from) at_start))
      | inr later ↦ contains-replace_from zero s later
    ]
  ]

sentinel-foreign : contains (codes "REDACTED") sentinel ≡ false
unfolding contains
sentinel-foreign = refl

module _ (group : Matcher) (splits : Splits group) where
  contains-strike :
      (s : Str) → contains (strike group s) sentinel ≡ true → contains s sentinel ≡ true
  unfolding strike
  contains-strike =
      contains-strike_from sentinel (cc) (omega arith) (omega arith) sentinel-foreign group splits
        zero

-- Whatever the text, the sentinel key is no part of what redact.String makes of it.
pub redact-ne_part : (s a b : Str) → redact s ≢ a ++ (sentinel ++ b)
unfolding redact replace_all
redact-ne_part s a b e =
    let found : contains (redact s) sentinel ≡ true = rw e (contains_of_part sentinel a b) in
    contains-replace_from sentinel (cc) (omega arith) (omega arith) sentinel-foreign zero s (
      contains-strike bearer_group bearer_group-Splits _
        (contains-strike key_group key_group-Splits _ found))
