-- ===== src/Terminal/Quoting.antt =====
-- shellQuote between single quotes, read back by the rules of a POSIX shell.
use agentsty.Prelude.{
  ℕ, ◌≡◌, refl, sym, ap, ◌∙◌, inl, inr, ==_iff, true, false, Option, none, some, [], ◌∷◌, ◌++◌, Str,
  codes, ◌==◌, has_prefix, replace_all, replace_from, Bool-cases, arith,
}
use agentsty.Terminal.{shell_quote}

-- outside quotes, inside single quotes, after a backslash outside quotes
pub data Mode : Type 0 where
  bare quoted escaped : Mode

-- The text that a word of the shell stands for, `none` if a quote is open at its end. Within single
-- quotes every rune but the quote stands for itself; outside, a backslash keeps the next rune.
unfoldable pub read_word : Mode → Str → Option Str
read_word bare [] = some []
read_word quoted [] = none
read_word escaped [] = none
read_word escaped (c ∷ s) = elim (read_word bare s) [ none ↦ none | some t ↦ some (c ∷ t) ]
read_word quoted (c ∷ s) = elim (c == b'\'') [
  | true ↦ read_word bare s
  | false ↦ elim (read_word quoted s) [ none ↦ none | some t ↦ some (c ∷ t) ]
]
read_word bare (c ∷ s) = elim (c == b'\'') [
  | true ↦ read_word quoted s
  | false ↦ elim (c == b'\\') [
    | true ↦ read_word escaped s
    | false ↦ elim (read_word bare s) [ none ↦ none | some t ↦ some (c ∷ t) ]
  ]
]

shell_quote-quote :
    (c : ℕ) (s : Str) → (c == b'\'') ≡ true → shell_quote (c ∷ s) ≡ codes "'\\''" ++ shell_quote s
unfolding shell_quote replace_all replace_from has_prefix
shell_quote-quote c s e = ground arith

shell_quote-plain :
    (c : ℕ) (s : Str) → (c == b'\'') ≡ false → shell_quote (c ∷ s) ≡ c ∷ shell_quote s
unfolding shell_quote replace_all replace_from has_prefix
shell_quote-plain c s e = ground arith

read_word-plain :
    (c : ℕ) (s t : Str)
    → (c == b'\'') ≡ false
    → read_word quoted s ≡ some t
    → read_word quoted (c ∷ s) ≡ some (c ∷ t)
unfolding read_word
read_word-plain c s t e h = ground arith

read_word-escape :
    (s t : Str)
    → read_word quoted s ≡ some t
    → read_word quoted (codes "'\\''" ++ s) ≡ some (b'\'' ∷ t)
unfolding read_word
read_word-escape s t h = ground arith

shell_quote-nil : read_word quoted (shell_quote [] ++ codes "'") ≡ some []
unfolding read_word shell_quote replace_all replace_from
shell_quote-nil = refl

-- behind the opening quote
read_word-quoted : (s : Str) → read_word quoted (shell_quote s ++ codes "'") ≡ some s
unfolding read_word
read_word-quoted [] = shell_quote-nil
read_word-quoted (c ∷ s) = elim (Bool-cases (c == b'\'')) [
  | inl quote ↦ rw (shell_quote-quote c s quote) (
      read_word-escape (shell_quote s ++ codes "'") s (read_word-quoted s)
      ∙ ap (λ x. some (x ∷ s)) (sym ((==_iff c b'\'').0 quote)))
  | inr plain ↦
      rw (shell_quote-plain c s plain)
        (read_word-plain c (shell_quote s ++ codes "'") s plain (read_word-quoted s))
]

-- A shell reads the quoted text between single quotes as one word, the text itself.
pub read_word-shell_quote :
    (s : Str) → read_word bare (codes "'" ++ (shell_quote s ++ codes "'")) ≡ some s
unfolding read_word
read_word-shell_quote s = read_word-quoted s
