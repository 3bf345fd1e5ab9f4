-- ===== src/Prelude/Occurrence.antt =====
-- Where a text occurs in a join of texts.
use Prim.Native.Nat.{ℕ}
use mathlib.Core.Path.{◌≡◌, refl}
use mathlib.Core.Logic.{◌≢◌, ◌⊎◌}
use mathlib.Core.Bool.{true, false}
use mathlib.Core.List.{[], ◌∷◌, ◌++◌}
use native.Mathlib.Omega.{arith}
use agentsty.Prelude.Text.{Str, Lacks, has_prefix, has_prefix-append}
use agentsty.Prelude.Search.{contains}

-- An occurrence at the start of a join does not cross a rune that it lacks.
pub has_prefix-append_sep :
    (x : ℕ) (p a r : Str) → Lacks x p → has_prefix (a ++ x ∷ r) p ≡ true → has_prefix a p ≡ true
unfolding has_prefix
has_prefix-append_sep x [] [] r l h = refl
has_prefix-append_sep x [] (c ∷ a) r l h = refl
has_prefix-append_sep x (q ∷ ps) [] r l h = ground arith
has_prefix-append_sep x (q ∷ ps) (c ∷ a) r l h = ground (arith, has_prefix-append_sep x ps a r l.1)

pub has_prefix-append_left : (p a r : Str) → has_prefix a p ≡ true → has_prefix (a ++ r) p ≡ true
unfolding has_prefix
has_prefix-append_left [] [] [] h = refl
has_prefix-append_left [] [] (c ∷ r) h = refl
has_prefix-append_left [] (c ∷ a) r h = refl
has_prefix-append_left (q ∷ ps) [] r h = cc
has_prefix-append_left (q ∷ ps) (c ∷ a) r h = ground (arith, has_prefix-append_left ps a r)

pub has_prefix_nil : (p : Str) → p ≢ [] → has_prefix [] p ≡ false
unfolding has_prefix
has_prefix_nil [] n = absurd (n refl)
has_prefix_nil (q ∷ ps) n = refl

pub has_prefix_cons_ne : (x : ℕ) (p r : Str) → p ≢ [] → Lacks x p → has_prefix (x ∷ r) p ≡ false
unfolding has_prefix
has_prefix_cons_ne x [] r n l = absurd (n refl)
has_prefix_cons_ne x (q ∷ ps) r n l = ground arith

-- Nor does an occurrence anywhere in a join: it stands before that rune or behind it.
pub contains-append_sep :
    (x : ℕ) (p a r : Str)
    → p ≢ []
    → Lacks x p
    → contains (a ++ x ∷ r) p ≡ true
    → (contains a p ≡ true) ⊎ (contains r p ≡ true)
unfolding contains
contains-append_sep x p [] r n l h = ground (arith, has_prefix_cons_ne x p r n l)
contains-append_sep x p (c ∷ a) r n l h =
    ground (arith, has_prefix-append_sep x p (c ∷ a) r l, contains-append_sep x p a r n l)

pub contains-append_left : (p a r : Str) → p ≢ [] → contains a p ≡ true → contains (a ++ r) p ≡ true
unfolding contains
contains-append_left p [] r n h = ground (arith, has_prefix_nil p n)
contains-append_left p (c ∷ a) r n h =
    ground (arith, has_prefix-append_left p (c ∷ a) r, contains-append_left p a r n)

contains_of_has_prefix : (p s : Str) → has_prefix s p ≡ true → contains s p ≡ true
unfolding contains
contains_of_has_prefix p [] h = h
contains_of_has_prefix p (c ∷ s) h = ground arith

pub contains-append_right : (p a r : Str) → contains r p ≡ true → contains (a ++ r) p ≡ true
unfolding contains
contains-append_right p [] r h = h
contains-append_right p (c ∷ a) r h = ground (arith, contains-append_right p a r)

-- A text occurs in every text that it is a part of.
pub contains_of_part : (p a r : Str) → contains (a ++ (p ++ r)) p ≡ true
contains_of_part p a r =
    contains-append_right p a (p ++ r) (contains_of_has_prefix p (p ++ r) (has_prefix-append p r))
