-- ===== src/Prelude/Search.antt =====
-- Trimming, lowering, searching and replacing in texts, as the package strings does.
use Prim.Native.Nat.{ℕ, zero, suc, ◌+◌, ◌-◌}
use mathlib.Core.Path.{◌≡◌}
use mathlib.Core.Logic.{◌↔◌, ◌⊎◌}
use native.Mathlib.Omega.{arith}
use mathlib.Core.Bool.{Bool, true, false, ◌&&◌, ◌||◌}
use mathlib.Core.List.{List, [], ◌∷◌, ◌++◌, map}
use agentsty.Prelude.Tests.{leb, ◌==◌, if◌then◌else◌}
use agentsty.Prelude.Text.{Str, str_eq, str_eq_iff, has_prefix}

-- unicode.IsSpace
unfoldable pub is_space : ℕ → Bool
is_space c =
    (leb 9 c && leb c 13)
    || c == 32
    || c == 0x85
    || c == 0xA0
    || c == 0x1680
    || (leb 0x2000 c && leb c 0x200a)
    || c == 0x2028
    || c == 0x2029
    || c == 0x202f
    || c == 0x205f
    || c == 0x3000

unfoldable pub trim_left : (ℕ → Bool) → Str → Str
trim_left f [] = []
trim_left f (c ∷ s) = elim (f c) [ true ↦ trim_left f s | false ↦ c ∷ s ]

abbrev pub is_nil : Str → Bool
is_nil [] = true
is_nil (_ ∷ _) = false

unfoldable pub trim_right : (ℕ → Bool) → Str → Str
trim_right f [] = []
trim_right f (c ∷ s) = let r = trim_right f s in if f c && is_nil r then [] else c ∷ r

unfoldable pub trim : (ℕ → Bool) → Str → Str
unfolding trim_left trim_right
trim f s = trim_right f (trim_left f s)

-- strings.TrimSpace
unfoldable pub trim_space : Str → Str
unfolding trim is_space
trim_space s = trim is_space s

-- strings.ToLower on one rune. Besides A to Z, the runes U+0130 and U+212A alone are lowered to an
-- ASCII letter. Any other rune is lowered to a rune outside ASCII or is no capital: it is left as it
-- is, and the program only looks for ASCII texts in the result.
unfoldable pub lower_rune : ℕ → ℕ
lower_rune c =
    if leb b'A' c && leb c b'Z'
    then c + 32
    else if c == 0x130
    then b'i'
    else if c == 0x212A
    then b'k'
    else c

unfoldable pub to_lower : Str → Str
unfolding lower_rune
to_lower s = map lower_rune s

-- The smallest rune that a rune is the same as without regard to case. Outside ASCII, U+017F and
-- U+212A alone fold to an ASCII letter, and the program folds only to compare with ASCII texts.
unfoldable pub fold_rune : ℕ → ℕ
fold_rune c =
    if leb b'A' c && leb c b'Z'
    then c + 32
    else if c == 0x17F
    then b's'
    else if c == 0x212A
    then b'k'
    else c

-- strings.EqualFold
unfoldable pub equal_fold : Str → Str → Bool
unfolding fold_rune
equal_fold s t = str_eq (map fold_rune s) (map fold_rune t)

-- strings.Contains
unfoldable pub contains : Str → Str → Bool
unfolding has_prefix
contains [] sub = has_prefix [] sub
contains (c ∷ s) sub = has_prefix (c ∷ s) sub || contains s sub

unfoldable pub contains_any : Str → List Str → Bool
unfolding contains
contains_any s [] = false
contains_any s (sub ∷ subs) = contains s sub || contains_any s subs

abbrev pub text_length : Str → ℕ
text_length [] = 0
text_length (c ∷ s) = suc (text_length s)

-- strings.ReplaceAll for a text to replace that is not empty: the runes of a match still to be
-- skipped, the rest of the input, the text to replace and its replacement
unfoldable pub replace_from : ℕ → Str → Str → Str → Str
unfolding has_prefix
replace_from k [] old new = []
replace_from (suc k) (c ∷ s) old new = replace_from k s old new
replace_from zero (c ∷ s) old new = elim (has_prefix (c ∷ s) old) [
  | true ↦ new ++ replace_from (text_length old - 1) s old new
  | false ↦ c ∷ replace_from zero s old new
]

unfoldable pub replace_all : Str → Str → Str → Str
unfolding replace_from
replace_all s old new = replace_from zero s old new

-- a key in a Go map used as a set
unfoldable pub mem_text : Str → List Str → Bool
unfolding str_eq
mem_text s [] = false
mem_text s (t ∷ ts) = str_eq s t || mem_text s ts

unfoldable pub OneOf : Str → List Str → Type 0
OneOf s [] = ⊥
OneOf s (t ∷ ts) = (s ≡ t) ⊎ OneOf s ts

pub mem_text_iff : (s : Str) (ts : List Str) → (mem_text s ts ≡ true) ↔ OneOf s ts
unfolding mem_text OneOf
mem_text_iff s [] = ground arith
mem_text_iff s (t ∷ ts) = ground (arith, str_eq_iff s t, mem_text_iff s ts)
