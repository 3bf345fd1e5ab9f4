-- ===== src/Prelude/Decimal.antt =====
-- The decimal texts of int64: `%d` of the package fmt, and strconv.ParseInt(s, 10, 64).
use Prim.Native.Nat.{ℕ, zero, suc, ◌+◌, ◌-◌, ◌*◌, ◌/◌, ◌%◌, ◌^◌, ◌≤◌, ◌<◌}
use mathlib.Core.Path.{◌≡◌, refl}
use mathlib.Core.Logic.{◌≢◌, inl, inr, dite, ite, if_pos, if_neg}
use mathlib.Core.Bool.{◌||◌}
use mathlib.Core.Option.{Option, none, some}
use mathlib.Core.List.{[], ◌∷◌, cons-ne-nil}
use mathlib.Core.WellFounded.{induction}
use mathlib.Core.WellFounded.{Acc, Acc-prop, WellFounded}
use native.Mathlib.Decide.{dec_lt}
use native.Mathlib.Omega.{arith}
use agentsty.Prelude.Tests.{ltb, ◌==◌, if◌then◌else◌, Bool-cases}
use agentsty.Prelude.Text.{Str, Lacks}
use agentsty.Prelude.Int.{ℤ, pos, negsuc, FitsInt64}

Acc-below : (k n : ℕ) → n < k → Acc ◌<◌ n
Acc-below zero n h = absurd (omega arith)
Acc-below (suc k) n h = Acc.intro n λ m lt. Acc-below k m (omega arith)

lt_wf : WellFounded ◌<◌
unfolding Acc-below
lt_wf = record { apply = λ n. Acc-below (suc n) n (omega arith) }

pub tenth-lt : {n : ℕ} → 0 < n → n / 10 < n
tenth-lt h = omega arith

-- the last digit
abbrev digit : ℕ → ℕ
digit n = b'0' + n % 10

render : (n : ℕ) → Acc ◌<◌ n → Str → Str
render n (Acc.intro _ below) out =
    dite (dec_lt 0 n) (λ h. render (n / 10) (below (n / 10) (tenth-lt h)) (digit n ∷ out))
      (λ _. out)

digits : ℕ → Str → Str
unfolding render lt_wf dec_lt
digits n = render n (lt_wf.apply n)

format_nat : ℕ → Str
unfolding digits
format_nat n = if n == 0 then b'0' ∷ [] else digits n []

unfoldable pub format_int : ℤ → Str
unfolding format_nat
format_int (pos n) = format_nat n
format_int (negsuc n) = b'-' ∷ format_nat (suc n)

-- ParseUint, whose value past the range is an error
scan : Str → ℕ → Option ℕ
scan [] n = some n
scan (c ∷ s) n =
    let rest = scan s (n * 10 + (c - b'0')) in
    if ltb c b'0' || ltb b'9' c
    then none
    else if ltb (2 ^ 64 - 1) (n * 10 + (c - b'0'))
    then none
    else rest

parse_nat : Str → Option ℕ
unfolding scan
parse_nat [] = none
parse_nat (c ∷ s) = scan (c ∷ s) 0

abbrev nonneg : ℕ → Option ℤ
nonneg n = if ltb n (2 ^ 63) then some (pos n) else none

abbrev negated : ℕ → Option ℤ
negated zero = some (pos 0)
negated (suc n) = if ltb n (2 ^ 63) then some (negsuc n) else none

bind {ℓ κ} : {A : Type ℓ} {B : Type κ} → Option A → (A → Option B) → Option B
bind none f = none
bind (some a) f = f a

unfoldable pub parse_int : Str → Option ℤ
unfolding parse_nat bind
parse_int [] = none
parse_int (c ∷ s) =
    if c == b'-'
    then bind (parse_nat s) negated
    else if c == b'+'
    then bind (parse_nat s) nonneg
    else bind (parse_nat (c ∷ s)) nonneg

-- any two proofs of `Acc` are equal
render_step :
    (out : Str) (n : ℕ) (a : Acc ◌<◌ n) (b : Acc ◌<◌ (n / 10))
    → render n a out ≡ ite (dec_lt 0 n) (render (n / 10) b (digit n ∷ out)) out
unfolding render
render_step out n (Acc.intro _ below) b = λ i.
    dite (dec_lt 0 n)
      (λ h. render (n / 10) (Acc-prop (below (n / 10) (tenth-lt h)) b i) (digit n ∷ out)) (λ _. out)

digits_step :
    (n : ℕ) (out : Str) → digits n out ≡ ite (dec_lt 0 n) (digits (n / 10) (digit n ∷ out)) out
unfolding digits
digits_step n out = render_step out n (lt_wf.apply n) (lt_wf.apply (n / 10))

scan_last : (n : ℕ) (out : Str) → n < 2 ^ 64 → scan (digit n ∷ out) (n / 10) ≡ scan out n
unfolding scan
scan_last n out h = ground arith

scan-digits : (n : ℕ) (out : Str) → n < 2 ^ 64 → scan (digits n out) 0 ≡ scan out n
scan-digits n =
    induction lt_wf {C = λ m. (out : Str) → m < 2 ^ 64 → scan (digits m out) 0 ≡ scan out m} n
      λ m ih out fits. grind (arith, digits_step m out, scan_last m out fits, ih (m / 10))

-- the first rune of a print is a digit, and it holds no dot
abbrev IsNumeral : Str → Type 0
IsNumeral [] = Unit
IsNumeral (c ∷ s) = (b'0' ≤ c) × (c ≤ b'9') × IsNumeral s

digits-IsNumeral : (n : ℕ) (out : Str) → IsNumeral out → IsNumeral (digits n out)
digits-IsNumeral n =
    induction lt_wf {C = λ m. (out : Str) → IsNumeral out → IsNumeral (digits m out)} n
      λ m ih out h. elim (dec_lt 0 m) [
        | yes p ↦
            rw (digits_step m out, if_pos _ p)
              (ih (m / 10) (omega arith) _ (omega arith, omega arith, h))
        | no p ↦ rw (digits_step m out, if_neg _ p) h
      ]

digits-ne-nil : (n : ℕ) (out : Str) → out ≢ [] → digits n out ≢ []
digits-ne-nil n =
    induction lt_wf {C = λ m. (out : Str) → out ≢ [] → digits m out ≢ []} n
      λ m ih out h. grind (arith, digits_step m out, ih (m / 10))

format_nat-ne-nil : (n : ℕ) → format_nat n ≢ []
unfolding format_nat
format_nat-ne-nil n =
    ground (arith, digits_step n [], digits-ne-nil (n / 10) _ (cons-ne-nil (digit n) []))

format_nat-IsNumeral : (n : ℕ) → IsNumeral (format_nat n)
unfolding format_nat
format_nat-IsNumeral n = elim (Bool-cases (n == 0)) [
  | inl e ↦ rw e (omega arith, omega arith, tt)
  | inr e ↦ rw e (digits-IsNumeral n [] tt)
]

parse_nat-scan : (s : Str) → s ≢ [] → parse_nat s ≡ scan s 0
unfolding parse_nat
parse_nat-scan [] h = absurd (h refl)
parse_nat-scan (c ∷ s) _ = refl

parse_nat-format_nat : (n : ℕ) → n < 2 ^ 64 → parse_nat (format_nat n) ≡ some n
unfolding format_nat scan
parse_nat-format_nat n h =
    rw (parse_nat-scan _ (format_nat-ne-nil n)) (ground (arith, scan-digits n [] h))

parse_int_of_IsNumeral : (s : Str) → s ≢ [] → IsNumeral s → parse_int s ≡ bind (parse_nat s) nonneg
unfolding parse_int
parse_int_of_IsNumeral [] h k = absurd (h refl)
parse_int_of_IsNumeral (c ∷ s) h (lo, hi, k) = ground arith

-- Every int64 is read back from its decimal print.
pub parse_int-format_int : (z : ℤ) → FitsInt64 z → parse_int (format_int z) ≡ some z
unfolding format_int bind
parse_int-format_int (pos n) h =
    rw
      (
        parse_int_of_IsNumeral _ (format_nat-ne-nil n) (format_nat-IsNumeral n),
        parse_nat-format_nat n (omega arith),
      )
      (ground arith)
parse_int-format_int (negsuc n) h =
    unfold parse_int in rw (parse_nat-format_nat (suc n) (omega arith)) (ground arith)

IsNumeral-Lacks : (s : Str) → IsNumeral s → Lacks b'.' s
IsNumeral-Lacks [] h = tt
IsNumeral-Lacks (c ∷ s) (lo, hi, h) = (omega arith, IsNumeral-Lacks s h)

-- A decimal print holds no dot.
pub format_int-Lacks : (z : ℤ) → Lacks b'.' (format_int z)
unfolding format_int
format_int-Lacks (pos n) = IsNumeral-Lacks _ (format_nat-IsNumeral n)
format_int-Lacks (negsuc n) = (omega arith, IsNumeral-Lacks _ (format_nat-IsNumeral (suc n)))
