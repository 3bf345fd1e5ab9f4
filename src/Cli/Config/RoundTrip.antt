-- ===== src/Cli/Config/RoundTrip.antt =====
-- A value that is written in quotes is read back.
use agentsty.Prelude.{
  ℕ, Bool, true, false, ◌&&◌, some, [], ◌∷◌, ◌++◌, Str, codes, str_eq, has_prefix, trim, trim_left,
  trim_right, is_nil, ◌≢◌, trim_space, if◌then◌else◌, ◌==◌, not, ◌≡◌, refl, arith, ap, ◌∙◌,
  is_space, append_assoc,
}
use agentsty.Cli.Config.{
  Config, split_colon, is_quote, entry, entry_of, trimmed, read_lines, setting, in_front,
}

-- every rune of a text fails a test
pub data AllFail (f : ℕ → Bool) : Str → Type 0 where
  none_left : AllFail f []
  next : {c : ℕ} {s : Str} → f c ≡ false → AllFail f s → AllFail f (c ∷ s)

-- the test for it
unfoldable pub fails : (ℕ → Bool) → Str → Bool
fails f [] = true
fails f (c ∷ s) = not (f c) && fails f s

pub fails-AllFail : (f : ℕ → Bool) (s : Str) → fails f s ≡ true → AllFail f s
unfolding fails
fails-AllFail f [] h = none_left
fails-AllFail f (c ∷ s) h = next (ground arith) (fails-AllFail f s (ground arith))

abbrev is_colon : ℕ → Bool
is_colon c = c == b':'

-- what stands in front of a rune that is kept is kept
kept : (b : Bool) (s : Str) (d : ℕ) (t : Str) → (if b && is_nil (s ++ d ∷ []) then [] else t) ≡ t
kept false s d t = refl
kept true [] d t = refl
kept true (c ∷ s) d t = refl

trim_right-keeps :
    (f : ℕ → Bool) (s : Str) (d : ℕ) → f d ≡ false → trim_right f (s ++ d ∷ []) ≡ s ++ d ∷ []
unfolding trim_right
trim_right-keeps f [] d h = rw h refl
trim_right-keeps f (c ∷ s) d h = rw (trim_right-keeps f s d h) (kept (f c) s d (c ∷ s ++ d ∷ []))

trim_right-AllFail : (f : ℕ → Bool) (s : Str) → AllFail f s → trim_right f s ≡ s
unfolding trim_right
trim_right-AllFail f [] none_left = refl
trim_right-AllFail f (c ∷ s) (next h hs) = rw (trim_right-AllFail f s hs, h) refl

trim_right-drops :
    (f : ℕ → Bool) (s : Str) (d : ℕ) → AllFail f s → f d ≡ true → trim_right f (s ++ d ∷ []) ≡ s
unfolding trim_right
trim_right-drops f [] d none_left h = rw h refl
trim_right-drops f (c ∷ s) d (next hc hs) h = rw (trim_right-drops f s d hs h, hc) refl

trim-nil : (f : ℕ → Bool) → trim f [] ≡ []
unfolding trim trim_left trim_right
trim-nil f = refl

trim-stop : (f : ℕ → Bool) (c : ℕ) (s : Str) → f c ≡ false → trim f (c ∷ s) ≡ trim_right f (c ∷ s)
unfolding trim trim_left
trim-stop f c s h = ap (λ b. trim_right f (elim b [ true ↦ trim_left f s | false ↦ c ∷ s ])) h

trim-skip : (f : ℕ → Bool) (c : ℕ) (s : Str) → f c ≡ true → trim f (c ∷ s) ≡ trim f s
unfolding trim trim_left
trim-skip f c s h = ap (λ b. trim_right f (elim b [ true ↦ trim_left f s | false ↦ c ∷ s ])) h

-- A text between two runes that are trimmed, none of its own runes one.
trim-drops :
    (f : ℕ → Bool) (s : Str) (d : ℕ) → AllFail f s → f d ≡ true → trim f (d ∷ s ++ d ∷ []) ≡ s
trim-drops f [] d none_left h = trim-skip f d (d ∷ []) h ∙ trim-skip f d [] h ∙ trim-nil f
trim-drops f (c ∷ s) d (next hc hs) h =
    trim-skip f d (c ∷ s ++ d ∷ []) h
    ∙ trim-stop f c (s ++ d ∷ []) hc
    ∙ trim_right-drops f (c ∷ s) d (next hc hs) h

split_colon-part :
    (key rest : Str) → AllFail is_colon key → split_colon (key ++ b':' ∷ rest) ≡ some (key, rest)
unfolding split_colon
split_colon-part [] rest none_left = refl
split_colon-part (c ∷ key) rest (next h hs) =
    rw (h, split_colon) (ap (in_front c) (split_colon-part key rest hs))

-- a line with a quoted value
unfoldable pub quoted : Str → Str → Str
quoted key value = key ++ codes ": \"" ++ value ++ codes "\""

trim_space-between :
    (c : ℕ) (s : Str) (d : ℕ)
    → is_space c ≡ false
    → is_space d ≡ false
    → trim_space (c ∷ s ++ d ∷ []) ≡ c ∷ s ++ d ∷ []
unfolding trim_space
trim_space-between c s d hc hd =
    trim-stop is_space c (s ++ d ∷ []) hc ∙ trim_right-keeps is_space (c ∷ s) d hd

trim_space-key : (c : ℕ) (s : Str) → AllFail is_space (c ∷ s) → trim_space (c ∷ s) ≡ c ∷ s
unfolding trim_space
trim_space-key c s (next hc hs) =
    trim-stop is_space c s hc ∙ trim_right-AllFail is_space (c ∷ s) (next hc hs)

trim_space-skip : (c : ℕ) (s : Str) → is_space c ≡ true → trim_space (c ∷ s) ≡ trim_space s
unfolding trim_space
trim_space-skip c s h = trim-skip is_space c s h

-- behind the colon stand a space and the quoted value
value_of-quoted :
    (value : Str)
    → AllFail is_quote value
    → trim is_quote (trim_space (codes " \"" ++ value ++ codes "\"")) ≡ value
unfolding is_space is_quote
value_of-quoted value hv =
    ap (trim is_quote) (
      trim_space-skip b' ' (codes "\"" ++ value ++ codes "\"") refl
      ∙ trim_space-between b'"' value b'"' refl refl)
    ∙ trim-drops is_quote value b'"' hv refl

trim_space-quoted :
    (k : ℕ) (key value : Str)
    → is_space k ≡ false
    → trim_space (quoted (k ∷ key) value) ≡ quoted (k ∷ key) value
unfolding quoted is_space
trim_space-quoted k key value h = trim_space-between k (key ++ codes ": \"" ++ value) b'"' h refl

entry_of-colon : (k : ℕ) (s : Str) → k ≢ b'#' → entry_of (k ∷ s) ≡ trimmed (split_colon (k ∷ s))
unfolding entry_of str_eq has_prefix
entry_of-colon k s h = ground arith

append_assoc_4 : (a b c d : Str) → ((a ++ b) ++ c) ++ d ≡ a ++ ((b ++ c) ++ d)
append_assoc_4 a b c d = ap (λ x. x ++ d) (append_assoc a b c) ∙ append_assoc a (b ++ c) d

entry-quoted :
    (k : ℕ) (key value : Str)
    → AllFail is_space (k ∷ key)
    → AllFail is_colon (k ∷ key)
    → k ≢ b'#'
    → AllFail is_quote value
    → entry (quoted (k ∷ key) value) ≡ some (k ∷ key, value)
unfolding entry quoted
entry-quoted k key value (next hk hks) hc hash hv =
    ap entry_of (trim_space-quoted k key value hk)
    ∙ entry_of-colon k (key ++ codes ": \"" ++ value ++ codes "\"") hash
    ∙ ap (λ x. trimmed (split_colon x)) (append_assoc_4 (k ∷ key) (codes ": \"") value (codes "\""))
    ∙ ap trimmed (split_colon-part (k ∷ key) (codes " \"" ++ value ++ codes "\"") hc)
    ∙ ap (λ x. some (x, trim is_quote (trim_space (codes " \"" ++ value ++ codes "\""))))
        (trim_space-key k key (next hk hks))
    ∙ ap (λ v. some (k ∷ key, v)) (value_of-quoted value hv)

server_entry :
    (v : Str)
    → AllFail is_quote v
    → entry (quoted (codes "apiServer") v) ≡ some (codes "apiServer", v)
unfolding is_space fails
server_entry v h =
    entry-quoted b'a' (codes "piServer") v (fails-AllFail is_space (codes "apiServer") refl)
      (fails-AllFail is_colon (codes "apiServer") refl) (ground arith) h

token_entry :
    (v : Str) → AllFail is_quote v → entry (quoted (codes "token") v) ≡ some (codes "token", v)
unfolding is_space fails
token_entry v h =
    entry-quoted b't' (codes "oken") v (fails-AllFail is_space (codes "token") refl)
      (fails-AllFail is_colon (codes "token") refl) (ground arith) h

-- A configuration whose texts have no quotes, written as two lines with quoted values, is read back,
-- whatever was set before.
pub read_lines-quoted :
    (cfg before : Config)
    → AllFail is_quote cfg.api_server
    → AllFail is_quote cfg.token
    → read_lines
        (quoted (codes "apiServer") cfg.api_server ∷ quoted (codes "token") cfg.token ∷ [])
        before
      ≡ cfg
unfolding read_lines setting str_eq
read_lines-quoted cfg before hs ht =
    rw (server_entry cfg.api_server hs, token_entry cfg.token ht) refl
