-- ===== src/Http/Laws.antt =====
-- Laws of headers.
use agentsty.Prelude.{
  ◌≡◌, refl, [], ◌∷◌, ◌++◌, Str, str_eq, str_eq_iff, lookup, lookup-insert, lookup-erase,
  if◌then◌else◌, arith,
}
use agentsty.Http.{Header, values, values_or_nil, set, add, del}

pub values-set :
    (k j v : Str) (h : Header) → values j (set k v h) ≡ (if str_eq k j then v ∷ [] else values j h)
unfolding values set
values-set k j v h = ground (arith, lookup-insert k j (v ∷ []) h)

pub values-add :
    (k j v : Str) (h : Header)
    → values j (add k v h) ≡ (if str_eq k j then values j h ++ v ∷ [] else values j h)
unfolding values add
values-add k j v h =
    ground (arith, str_eq_iff k j, lookup-insert k j (values_or_nil (lookup k h) ++ v ∷ []) h)

pub values-del :
    (k j : Str) (h : Header) → values j (del k h) ≡ (if str_eq k j then [] else values j h)
unfolding values del
values-del k j h = ground (arith, lookup-erase k j h)

pub values-nil : (k : Str) → values k [] ≡ []
unfolding values lookup
values-nil k = refl
