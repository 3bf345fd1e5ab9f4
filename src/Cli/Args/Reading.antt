-- ===== src/Cli/Args/Reading.antt =====
-- parseGetArgs on arguments that are written from options and words.
use agentsty.Prelude.{
  false, List, [], ◌∷◌, ◌++◌, append_assoc, append-nil, Str, str_eq, has_prefix, ok, ◌≡◌, refl, ◌∙◌,
  ap, sym,
}
use agentsty.Cli.Args.{dash_o, dash_o_eq, get_args, parse_get_args}

-- `-o v`, `-o=v`, or a word
pub data Item : Type 0 where
  spaced : Str → Item
  joined : Str → Item
  plain : (w : Str) → str_eq w dash_o ≡ false → has_prefix w dash_o_eq ≡ false → Item

unfoldable pub written : List Item → List Str
written [] = []
written (spaced v ∷ items) = dash_o ∷ v ∷ written items
written (joined v ∷ items) = (dash_o_eq ++ v) ∷ written items
written (plain w _ _ ∷ items) = w ∷ written items

-- the last option's value, or the given one
unfoldable pub last_output : Str → List Item → Str
last_output output [] = output
last_output output (spaced v ∷ items) = last_output v items
last_output output (joined v ∷ items) = last_output v items
last_output output (plain _ _ _ ∷ items) = last_output output items

unfoldable pub words_of : List Item → List Str
words_of [] = []
words_of (spaced _ ∷ items) = words_of items
words_of (joined _ ∷ items) = words_of items
words_of (plain w _ _ ∷ items) = w ∷ words_of items

get_args-joined :
    (output : Str) (words : List Str) (v : Str) (args : List Str)
    → get_args output words ((dash_o_eq ++ v) ∷ args) ≡ get_args v words args
unfolding get_args
get_args-joined output words v [] = refl
get_args-joined output words v (a ∷ args) = refl

get_args-spaced :
    (output : Str) (words : List Str) (v : Str) (args : List Str)
    → get_args output words (dash_o ∷ v ∷ args) ≡ get_args v words args
unfolding get_args
get_args-spaced output words v args = refl

get_args-end : (output : Str) (words : List Str) → get_args output words [] ≡ ok (output, words)
unfolding get_args
get_args-end output words = refl

get_args-plain :
    (output : Str) (words : List Str) (w : Str) (args : List Str)
    → str_eq w dash_o ≡ false
    → has_prefix w dash_o_eq ≡ false
    → get_args output words (w ∷ args) ≡ get_args output (words ++ w ∷ []) args
unfolding get_args
get_args-plain output words w [] no_o no_eq = rw (no_o, no_eq) refl
get_args-plain output words w (a ∷ args) no_o no_eq = rw (no_o, no_eq) refl

get_args-written :
    (output : Str) (words : List Str) (items : List Item)
    → get_args output words (written items) ≡ ok (last_output output items, words ++ words_of items)
unfolding written last_output words_of
get_args-written output words [] =
    get_args-end output words ∙ ap (λ ws. ok (output, ws)) (sym (append-nil words))
get_args-written output words (spaced v ∷ items) =
    get_args-spaced output words v (written items) ∙ get_args-written v words items
get_args-written output words (joined v ∷ items) =
    get_args-joined output words v (written items) ∙ get_args-written v words items
get_args-written output words (plain w no_o no_eq ∷ items) =
    get_args-plain output words w (written items) no_o no_eq
    ∙ get_args-written output (words ++ w ∷ []) items
    ∙ ap (λ ws. ok (last_output output items, ws)) (append_assoc words (w ∷ []) (words_of items))

-- Arguments written from options and words, in any order: parseGetArgs reads the value of the last
-- option, which is empty if there is none, and the words in their order.
pub parse_get_args-written :
    (items : List Item) → parse_get_args (written items) ≡ ok (last_output [] items, words_of items)
unfolding parse_get_args
parse_get_args-written items = get_args-written [] [] items
