-- ===== src/Api/Store/Memory/Laws.antt =====
-- MemoryStore keeps each session under its own name, and answers as a map from names to sessions.
use agentsty.Prelude.{
  List, subst, ok-injective, ◌≡◌, refl, sym, ◌∙◌, ap, ◌≢◌, ◌↔◌, inl, inr, Bool, true, false, none,
  some, [], ◌∷◌, Str, str_eq, str_eq_iff, Dict, lookup, insert, erase, lookup-insert, lookup-erase,
  arith, Option-cases, Bool-cases, if◌then◌else◌,
}
use mathlib.Core.Option.{none-ne-some}
use agentsty.V1alpha1.{AgentSession}
use agentsty.Api.Store.{found, IsLawful, AllOwned, keep_owned, keep_owned-AllOwned}
use agentsty.Api.Store.Memory.{
  MemoryStore, new_memory_store, stored, create, get, delete, owned_by, list, memory_store,
}

-- every entry stands under its session's name, and no name stands twice
unfoldable pub IsKeyed : Dict AgentSession → Type 0
IsKeyed [] = Unit
IsKeyed ((k, s) ∷ d) = (s.name ≡ k) × (lookup k d ≡ none) × IsKeyed d

pub stored-name : (auto_run : Bool) (s : AgentSession) → (stored auto_run s).name ≡ s.name
unfolding stored
stored-name true s = refl
stored-name false s = refl

insert-IsKeyed :
    (s : AgentSession) (k : Str) (d : Dict AgentSession)
    → s.name ≡ k
    → IsKeyed d
    → IsKeyed (insert k s d)
unfolding IsKeyed insert
insert-IsKeyed s k [] e h = (e, (unfold lookup in refl), tt)
insert-IsKeyed s k ((j, t) ∷ d) e (named, fresh, h) = elim (Bool-cases (str_eq j k)) [
  | inl same ↦ rw same (e, ap (λ x. lookup x d) (sym ((str_eq_iff j k).0 same)) ∙ fresh, h)
  | inr other ↦
      rw other (named, lookup-insert k j s d ∙ rw (not_same other) fresh, insert-IsKeyed s k d e h)
]
  where
    not_same : str_eq j k ≡ false → str_eq k j ≡ false
    not_same h = ground (arith, str_eq_iff j k, str_eq_iff k j)

erase-IsKeyed : (k : Str) (d : Dict AgentSession) → IsKeyed d → IsKeyed (erase k d)
unfolding IsKeyed erase
erase-IsKeyed k [] h = tt
erase-IsKeyed k ((j, t) ∷ d) (named, fresh, h) = elim (Bool-cases (str_eq j k)) [
  | inl same ↦ rw same (erase-IsKeyed k d h)
  | inr other ↦ rw other (named, lookup-erase k j d ∙ ground arith, erase-IsKeyed k d h)
]

pub new_memory_store-IsKeyed : (auto_run : Bool) → IsKeyed (new_memory_store auto_run).sessions
unfolding new_memory_store IsKeyed
new_memory_store-IsKeyed auto_run = tt

-- Create and Delete keep every session under its own name, each name once.
pub create-IsKeyed :
    (m : MemoryStore) (s : AgentSession) → IsKeyed m.sessions → IsKeyed (create m s).0.sessions
unfolding create
create-IsKeyed m s h = insert-IsKeyed _ s.name m.sessions (stored-name m.auto_run s) h

pub delete-IsKeyed :
    (m : MemoryStore) (id : Str) → IsKeyed m.sessions → IsKeyed (delete m id).0.sessions
unfolding delete
delete-IsKeyed m id h = elim (Option-cases (lookup id m.sessions)) [
  | inl missing ↦ rw (missing, delete) h
  | inr (s, there) ↦ rw (there, delete) (erase-IsKeyed id m.sessions h)
]

pub found-get : (m : MemoryStore) (id : Str) → found (get m id) ≡ lookup id m.sessions
unfolding get
found-get m id = ground arith

-- After Create, Get of the session's name returns the stored session, which has the name and the
-- spec of the one given, and Get of any other name returns what it did before.
pub get-create :
    (m : MemoryStore) (s : AgentSession) (id : Str)
    → found (get (create m s).0 id)
      ≡ (if str_eq s.name id then some (stored m.auto_run s) else found (get m id))
unfolding create
get-create m s id =
    found-get (create m s).0 id
    ∙ lookup-insert s.name id (stored m.auto_run s) m.sessions
    ∙ ap (λ o. if str_eq s.name id then some (stored m.auto_run s) else o) (sym (found-get m id))

-- Delete reports an error exactly for a name that is missing, and afterwards Get returns nothing
-- for the name, and for any other name what it did before.
pub get-delete :
    (m : MemoryStore) (id j : Str)
    → (((delete m id).1 ≡ none) ↔ (found (get m id) ≢ none))
      × (found (get (delete m id).0 j) ≡ (if str_eq id j then none else found (get m j)))
unfolding delete
get-delete m id j = elim (Option-cases (lookup id m.sessions)) [
  | inl missing ↦
      rw (missing, delete)
        ((λ e. cc, λ h. absurd (h (found-get m id ∙ missing))), same_elsewhere missing)
  | inr (s, there) ↦
      rw (there, delete)
        (
          (λ _ e. none-ne-some s (sym e ∙ found-get m id ∙ there), λ _. refl),
          found-get _ j
              ∙ lookup-erase id j m.sessions
              ∙ ap (λ o. if str_eq id j then none else o) (sym (found-get m j)),
        )
]
  where
    same_elsewhere :
        lookup id m.sessions ≡ none
        → found (get m j) ≡ (if str_eq id j then none else found (get m j))
    same_elsewhere missing = elim (Bool-cases (str_eq id j)) [
      | inl same ↦
          rw same (
            found-get m j
            ∙ ap (λ x. lookup x m.sessions) (sym ((str_eq_iff id j).0 same))
            ∙ missing)
      | inr differ ↦ rw differ refl
    ]

sessions_of : Dict AgentSession → List AgentSession
sessions_of [] = []
sessions_of ((k, s) ∷ d) = s ∷ sessions_of d

owned_by-keep_owned :
    (user_id : Str) (d : Dict AgentSession)
    → owned_by user_id d ≡ keep_owned user_id (sessions_of d)
unfolding owned_by sessions_of
owned_by-keep_owned user_id [] = refl
owned_by-keep_owned user_id ((k, s) ∷ d) = ground (arith, owned_by-keep_owned user_id d)

-- The memory store keeps the contract of a store.
pub memory_store-IsLawful : IsLawful memory_store
unfolding memory_store list
memory_store-IsLawful = record {
  lists_own = λ m user_id ss named h.
      subst (AllOwned user_id) (sym (owned_by-keep_owned user_id m.sessions) ∙ ok-injective h)
        (keep_owned-AllOwned user_id (sessions_of m.sessions) named);
}

-- no operation changes whether new sessions run at once
pub create-auto_run : (m : MemoryStore) (s : AgentSession) → (create m s).0.auto_run ≡ m.auto_run
unfolding create
create-auto_run m s = refl

pub delete-auto_run : (m : MemoryStore) (id : Str) → (delete m id).0.auto_run ≡ m.auto_run
unfolding delete
delete-auto_run m id = elim (Option-cases (lookup id m.sessions)) [
  | inl missing ↦ rw (missing, delete)
  | inr (s, there) ↦ rw (there, delete)
]
