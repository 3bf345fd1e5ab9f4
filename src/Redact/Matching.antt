-- ===== src/Redact/Matching.antt =====
-- A match of the patterns of redact.String is a part of the text.
use agentsty.Prelude.{
  ℕ, ◌==◌, ◌≡◌, refl, ap, ◌∙◌, inl, inr, Bool, Option, none, some, [], ◌∷◌, ◌++◌, append_assoc, Str,
  fold_rune, codes, arith, Bool-cases, Option-cases,
}
use mathlib.Core.Option.{none-ne-some}
use agentsty.Redact.{
  Matcher, then_after, seq, literal, many, star, nonempty, plus, either, bearer_group, key_group,
  whole, with_struck, is_re_space,
}

-- What a matcher returns is the text in two parts.
pub Splits : Matcher → Type 0
Splits m = (s matched rest : Str) → m s ≡ some (matched, rest) → s ≡ matched ++ rest

then_after-eq :
    (before s matched rest : Str) (o : Option (Str × Str))
    → ((a b : Str) → o ≡ some (a, b) → s ≡ a ++ b)
    → then_after before o ≡ some (matched, rest)
    → before ++ s ≡ matched ++ rest
then_after-eq before s matched rest none h e = cc
then_after-eq before s matched rest (some (a, b)) h e =
    ground (arith, h a b refl, append_assoc before a b)

literal-Splits : (p : Str) → Splits (literal p)
unfolding Splits literal
literal-Splits [] s matched rest e = ground arith
literal-Splits (p ∷ ps) [] matched rest e = cc
literal-Splits (p ∷ ps) (c ∷ s) matched rest e = elim (Bool-cases (fold_rune c == p)) [
  | inl same ↦
      then_after-eq (c ∷ []) s matched rest (literal ps s) (literal-Splits ps s)
        (rw (same, literal) at e)
  | inr other ↦ absurd (none-ne-some _ (rw (other, literal) at e))
]

many-append : (f : ℕ → Bool) (s : Str) → s ≡ (many f s).0 ++ (many f s).1
unfolding many
many-append f [] = refl
many-append f (c ∷ s) = ground (arith, many-append f s)

star-Splits : (f : ℕ → Bool) → Splits (star f)
unfolding Splits star
star-Splits f s matched rest e = ground (arith, many-append f s)

nonempty-eq : (r : Str × Str) {a b : Str} → nonempty r ≡ some (a, b) → r ≡ (a, b)
nonempty-eq ([], rest) e = cc
nonempty-eq (c ∷ run, rest) e = ground arith

plus-Splits : (f : ℕ → Bool) → Splits (plus f)
unfolding Splits plus
plus-Splits f s matched rest e = ground (arith, many-append f s, nonempty-eq (many f s))

either-Splits : (m n : Matcher) → Splits m → Splits n → Splits (either m n)
unfolding Splits either
either-Splits m n hm hn s matched rest e = elim (Option-cases (m s)) [
  | inl missed ↦ hn s matched rest (rw (missed, either) at e)
  | inr (r, found) ↦ hm s matched rest (found ∙ rw (found, either) at e)
]

seq-Splits : (m n : Matcher) → Splits m → Splits n → Splits (seq m n)
unfolding Splits seq
seq-Splits m n hm hn s matched rest e = elim (Option-cases (m s)) [
  | inl missed ↦ absurd (none-ne-some _ (rw (missed, seq) at e))
  | inr ((a, b), found) ↦
      hm s a b found ∙ then_after-eq a b matched rest (n b) (hn b) (rw (found, seq) at e)
]

pub bearer_group-Splits : Splits bearer_group
unfolding bearer_group
bearer_group-Splits = seq-Splits _ _ (literal-Splits (codes "authorization:")) (
    seq-Splits _ _ (star-Splits is_re_space)
      (seq-Splits _ _ (literal-Splits (codes "bearer")) (plus-Splits is_re_space)))

pub key_group-Splits : Splits key_group
unfolding key_group
key_group-Splits =
    seq-Splits _ _
      (either-Splits _ _ (literal-Splits (codes "openai_api_key")) (
        either-Splits _ _ (literal-Splits (codes "anthropic_api_key"))
          (literal-Splits (codes "cask_session_token"))))
      (seq-Splits _ _ (star-Splits is_re_space)
        (seq-Splits _ _ (literal-Splits (codes "=")) (star-Splits is_re_space)))

with_struck-some :
    (a kept : Str) (n : ℕ) (o : Option (Str × Str)) → with_struck a o ≡ some (kept, n) → a ≡ kept
with_struck-some a kept n none e = cc
with_struck-some a kept n (some (struck, rest)) e = ground arith

pub whole-some :
    (group : Matcher) (s kept : Str) (n : ℕ)
    → Splits group
    → whole group s ≡ some (kept, n)
    → (rest : Str) × (s ≡ kept ++ rest)
unfolding Splits whole
whole-some group s kept n h e = elim (Option-cases (group s)) [
  | inl missed ↦ absurd (none-ne-some _ (rw (missed, whole) at e))
  | inr ((a, b), found) ↦
      (b, h s a b found ∙ ap (λ t. t ++ b) (with_struck-some a kept n _ (rw (found, whole) at e)))
]
