-- ===== src/Prelude/Text.antt =====
-- Go strings as the lists of their code points, and the functions of the package strings that the
-- program calls. Every text that the program splits at, trims or compares with is ASCII.
use Prim.Native.Nat.{ℕ}
use Prim.Native.Char.{code}
use Prim.Native.String.{String}
use mathlib.Core.Path.{◌≡◌, refl}
use mathlib.Core.Logic.{◌↔◌, ◌≢◌, inl, inr}
use mathlib.Core.Bool.{Bool, true, false, ◌&&◌}
use mathlib.Core.Option.{Option, none, some}
use mathlib.Core.List.{List, [], ◌∷◌, ◌++◌, append-nil, append_assoc}
use native.Mathlib.Omega.{arith}
use agentsty.Prelude.Tests.{◌==◌, ==_iff, if◌then◌else◌, Bool-cases}

abbrev pub Str : Type 0
Str = List ℕ

abbrev pub codes : String → Str
codes String.[] = []
codes (String.◌∷◌ c s) = code c ∷ codes s

-- `s == t`
unfoldable pub str_eq : Str → Str → Bool
str_eq [] [] = true
str_eq [] (_ ∷ _) = false
str_eq (_ ∷ _) [] = false
str_eq (a ∷ s) (b ∷ t) = a == b && str_eq s t

pub str_eq_iff : (s t : Str) → (str_eq s t ≡ true) ↔ (s ≡ t)
unfolding str_eq
str_eq_iff [] [] = ground arith
str_eq_iff [] (b ∷ t) = ground arith
str_eq_iff (a ∷ s) [] = ground arith
str_eq_iff (a ∷ s) (b ∷ t) = ground (arith, str_eq_iff s t)

pub str_eq_refl : (s : Str) → str_eq s s ≡ true
str_eq_refl s = (str_eq_iff s s).1 refl

pub ne→str_eq : (s t : Str) → s ≢ t → str_eq s t ≡ false
ne→str_eq s t h = ground (arith, str_eq_iff s t)

-- strings.HasPrefix, the prefix last as in Go
unfoldable pub has_prefix : Str → Str → Bool
has_prefix s [] = true
has_prefix [] (p ∷ ps) = false
has_prefix (c ∷ s) (p ∷ ps) = c == p && has_prefix s ps

-- what stands behind a prefix, if it is one
unfoldable pub cut_prefix : Str → Str → Option Str
cut_prefix s [] = some s
cut_prefix [] (p ∷ ps) = none
cut_prefix (c ∷ s) (p ∷ ps) = if c == p then cut_prefix s ps else none

abbrev or_else : Option Str → Str → Str
or_else (some t) s = t
or_else none s = s

-- strings.TrimPrefix
unfoldable pub trim_prefix : Str → Str → Str
unfolding cut_prefix
trim_prefix s p = or_else (cut_prefix s p) s

pub has_prefix-append : (p s : Str) → has_prefix (p ++ s) p ≡ true
unfolding has_prefix
has_prefix-append [] [] = refl
has_prefix-append [] (c ∷ s) = refl
has_prefix-append (p ∷ ps) s = ground (arith, has_prefix-append ps s)

cut_prefix-append : (p s : Str) → cut_prefix (p ++ s) p ≡ some s
unfolding cut_prefix
cut_prefix-append [] [] = refl
cut_prefix-append [] (c ∷ s) = refl
cut_prefix-append (p ∷ ps) s = ground (arith, cut_prefix-append ps s)

pub trim_prefix-append : (p s : Str) → trim_prefix (p ++ s) p ≡ s
unfolding trim_prefix
trim_prefix-append p s = rw (cut_prefix-append p s)

cut_prefix-of_has_prefix :
    (s p : Str) → has_prefix s p ≡ true → (t : Str) × (cut_prefix s p ≡ some t) × (s ≡ p ++ t)
unfolding has_prefix cut_prefix
cut_prefix-of_has_prefix [] [] h = ([], refl, refl)
cut_prefix-of_has_prefix (c ∷ s) [] h = (c ∷ s, refl, refl)
cut_prefix-of_has_prefix [] (p ∷ ps) h = cc
cut_prefix-of_has_prefix (c ∷ s) (p ∷ ps) h =
    let (t, cut, e) = cut_prefix-of_has_prefix s ps (ground arith) in
    (t, ground arith, ground arith)

-- A text with a prefix is the prefix and what trim_prefix leaves.
pub append-trim_prefix : (s p : Str) → has_prefix s p ≡ true → s ≡ p ++ trim_prefix s p
unfolding trim_prefix
append-trim_prefix s p h =
    let (t, cut, e) = cut_prefix-of_has_prefix s p h in rw (cut, trim_prefix) e

-- strings.Split by a separator of one rune; a text with no separator is one part.
unfoldable pub split_from : ℕ → Str → Str → List Str
split_from sep cur [] = cur ∷ []
split_from sep cur (c ∷ s) = elim (c == sep) [
  | true ↦ cur ∷ split_from sep [] s
  | false ↦ split_from sep (cur ++ c ∷ []) s
]

unfoldable pub split : Str → ℕ → List Str
unfolding split_from
split s sep = split_from sep [] s

-- no rune of the text is the given one
abbrev pub Lacks : ℕ → Str → Type 0
Lacks a [] = Unit
Lacks a (c ∷ s) = (c ≢ a) × Lacks a s

abbrev pub AllLack : ℕ → List Str → Type 0
AllLack a [] = Unit
AllLack a (p ∷ ps) = Lacks a p × AllLack a ps

pub append-Lacks : (a : ℕ) (s t : Str) → Lacks a s → Lacks a t → Lacks a (s ++ t)
append-Lacks a [] t hs ht = ht
append-Lacks a (c ∷ s) t (h, hs) ht = (h, append-Lacks a s t hs ht)

split_from-part :
    (sep : ℕ) (cur p rest : Str)
    → Lacks sep p
    → split_from sep cur (p ++ sep ∷ rest) ≡ (cur ++ p) ∷ split_from sep [] rest
unfolding split_from
split_from-part sep cur [] rest h = ground (arith, append-nil cur)
split_from-part sep cur (c ∷ p) rest h =
    ground (arith, split_from-part sep (cur ++ c ∷ []) p rest h.1, append_assoc cur (c ∷ []) p)

split_from-last : (sep : ℕ) (cur p : Str) → Lacks sep p → split_from sep cur p ≡ (cur ++ p) ∷ []
unfolding split_from
split_from-last sep cur [] h = ground (arith, append-nil cur)
split_from-last sep cur (c ∷ p) h =
    ground (arith, split_from-last sep (cur ++ c ∷ []) p h.1, append_assoc cur (c ∷ []) p)

-- A part with no separator, a separator and the rest: the part, and the parts of the rest.
pub split-part :
    (sep : ℕ) (p rest : Str) → Lacks sep p → split (p ++ sep ∷ rest) sep ≡ p ∷ split rest sep
unfolding split
split-part sep p rest h = split_from-part sep [] p rest h

pub split-last : (sep : ℕ) (p : Str) → Lacks sep p → split p sep ≡ p ∷ []
unfolding split
split-last sep p h = split_from-last sep [] p h

split_from-Lacks : (sep : ℕ) (cur s : Str) → Lacks sep cur → AllLack sep (split_from sep cur s)
unfolding split_from
split_from-Lacks sep cur [] h = (h, tt)
split_from-Lacks sep cur (c ∷ s) h = elim (Bool-cases (c == sep)) [
  | inl e ↦ rw (e, split_from) (h, split_from-Lacks sep [] s tt)
  | inr e ↦
      rw (e, split_from)
        (split_from-Lacks sep (cur ++ c ∷ []) s
          (append-Lacks sep cur (c ∷ []) h (ground (arith, ==_iff c sep))))
]

-- No part of a split holds the separator.
pub split-Lacks : (sep : ℕ) (s : Str) → AllLack sep (split s sep)
unfolding split
split-Lacks sep s = split_from-Lacks sep [] s tt
