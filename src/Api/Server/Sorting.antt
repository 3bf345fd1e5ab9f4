-- ===== src/Api/Server/Sorting.antt =====
-- The order in which the API lists sessions.
use agentsty.Prelude.{◌≡◌, refl, inl, inr, true, false, List, [], ◌∷◌, Str, Bool-cases, arith}
use mathlib.Core.List.{Perm}
use mathlib.Core.List.Perm
use agentsty.V1alpha1.{AgentSession}
use agentsty.Api.Store.{AllOwned}
use agentsty.Api.Server.{name_lt, insert_by_name, sort_by_name}

name_lt_asymm : (s t : Str) → name_lt s t ≡ true → name_lt t s ≡ false
unfolding name_lt
name_lt_asymm s [] h = cc
name_lt_asymm [] (b ∷ t) h = refl
name_lt_asymm (a ∷ s) (b ∷ t) h = ground (arith, name_lt_asymm s t)

-- no session's name comes before the name that stands before it
pub IsAfter : Str → List AgentSession → Type 0
IsAfter name [] = Unit
IsAfter name (s ∷ ss) = name_lt s.name name ≡ false

pub IsSorted : List AgentSession → Type 0
IsSorted [] = Unit
IsSorted (s ∷ ss) = IsAfter s.name ss × IsSorted ss

insert_by_name-IsAfter :
    (name : Str) (s : AgentSession) (ss : List AgentSession)
    → name_lt s.name name ≡ false
    → IsAfter name ss
    → IsAfter name (insert_by_name s ss)
unfolding insert_by_name IsAfter
insert_by_name-IsAfter name s [] h after = h
insert_by_name-IsAfter name s (t ∷ ts) h after = elim (Bool-cases (name_lt t.name s.name)) [
  | inl earlier ↦ rw earlier after
  | inr later ↦ rw later h
]

insert_by_name-IsSorted :
    (s : AgentSession) (ss : List AgentSession) → IsSorted ss → IsSorted (insert_by_name s ss)
unfolding insert_by_name IsSorted
insert_by_name-IsSorted s [] h = (unfold IsAfter in tt, tt)
insert_by_name-IsSorted s (t ∷ ts) (after, h) = elim (Bool-cases (name_lt t.name s.name)) [
  | inl earlier ↦ rw earlier (
    insert_by_name-IsAfter t.name s ts (name_lt_asymm t.name s.name earlier) after,
    insert_by_name-IsSorted s ts h,
  )
  | inr later ↦ rw later (unfold IsAfter in later, (after, h))
]

pub sort_by_name-IsSorted : (ss : List AgentSession) → IsSorted (sort_by_name ss)
unfolding sort_by_name IsSorted
sort_by_name-IsSorted [] = tt
sort_by_name-IsSorted (s ∷ ss) = insert_by_name-IsSorted s _ (sort_by_name-IsSorted ss)

insert_by_name-perm :
    (s : AgentSession) (ss : List AgentSession) → Perm (insert_by_name s ss) (s ∷ ss)
unfolding insert_by_name
insert_by_name-perm s [] = Perm.rfl
insert_by_name-perm s (t ∷ ts) = elim (Bool-cases (name_lt t.name s.name)) [
  | inl earlier ↦
      rw earlier (Perm.trans (Perm.cons t (insert_by_name-perm s ts)) (Perm.swap s t ts))
  | inr later ↦ rw later Perm.rfl
]

pub sort_by_name-perm : (ss : List AgentSession) → Perm (sort_by_name ss) ss
unfolding sort_by_name
sort_by_name-perm [] = Perm.rfl
sort_by_name-perm (s ∷ ss) =
    Perm.trans (insert_by_name-perm s _) (Perm.cons s (sort_by_name-perm ss))

insert_by_name-AllOwned :
    (user_id : Str) (s : AgentSession) (ss : List AgentSession)
    → s.spec.user_id ≡ user_id
    → AllOwned user_id ss
    → AllOwned user_id (insert_by_name s ss)
unfolding insert_by_name
insert_by_name-AllOwned user_id s [] own h = (own, tt)
insert_by_name-AllOwned user_id s (t ∷ ts) own (first, h) =
    elim (Bool-cases (name_lt t.name s.name)) [
      | inl earlier ↦ rw earlier (first, insert_by_name-AllOwned user_id s ts own h)
      | inr later ↦ rw later (own, (first, h))
    ]

pub sort_by_name-AllOwned :
    (user_id : Str) (ss : List AgentSession)
    → AllOwned user_id ss
    → AllOwned user_id (sort_by_name ss)
unfolding sort_by_name
sort_by_name-AllOwned user_id [] h = tt
sort_by_name-AllOwned user_id (s ∷ ss) (own, h) =
    insert_by_name-AllOwned user_id s _ own (sort_by_name-AllOwned user_id ss h)
