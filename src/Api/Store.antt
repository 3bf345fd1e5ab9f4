-- ===== src/Api/Store.antt =====
-- The interface Store of internal/api/server.go, and internal/api/memory_store.go, which implements
-- it. A store's state is passed along; a Go error is its text.
pub mod Memory
use agentsty.Prelude.{
  ◌≡◌, ◌↔◌, ◌≢◌, inl, inr, Bool, ◌||◌, Option, none, some, List, [], ◌∷◌, Str, Result, ok, err,
  str_eq, str_eq_iff, ne→str_eq, Bool-cases, if◌then◌else◌,
}
use agentsty.V1alpha1.{AgentSession}

pub record Store : Type 1 where
  pub State : Type 0
  pub ready : State → Option Str
  pub create : State → AgentSession → State × Result Str AgentSession
  pub list : State → Str → Result Str (List AgentSession)
  pub get : State → Str → Result Str AgentSession
  pub delete : State → Str → State × Option Str

-- the session of a result, if there is one
abbrev pub found : Result Str AgentSession → Option AgentSession
found (ok s) = some s
found (err e) = none

-- every session of the list is the user's
abbrev pub AllOwned : Str → List AgentSession → Type 0
AllOwned user_id [] = Unit
AllOwned user_id (s ∷ ss) = (s.spec.user_id ≡ user_id) × AllOwned user_id ss

-- the loop of each store's List that keeps the sessions of a user, or all for the empty text
abbrev pub keep_owned : Str → List AgentSession → List AgentSession
keep_owned user_id [] = []
keep_owned user_id (s ∷ ss) =
    let rest = keep_owned user_id ss in
    if str_eq user_id [] || str_eq s.spec.user_id user_id then s ∷ rest else rest

-- What the server relies on of its store: List for a user gives sessions of that user alone.
pub record IsLawful (store : Store) : Type 0 where
  pub lists_own :
      (st : store.State) (user_id : Str) (ss : List AgentSession)
      → user_id ≢ []
      → store.list st user_id ≡ ok ss
      → AllOwned user_id ss

pub keep_owned-AllOwned :
    (user_id : Str) (ss : List AgentSession)
    → user_id ≢ []
    → AllOwned user_id (keep_owned user_id ss)
keep_owned-AllOwned user_id [] named = tt
keep_owned-AllOwned user_id (s ∷ ss) named = elim (Bool-cases (str_eq s.spec.user_id user_id)) [
  | inl own ↦
      rw (ne→str_eq user_id [] named, own)
        ((str_eq_iff s.spec.user_id user_id).0 own, keep_owned-AllOwned user_id ss named)
  | inr foreign ↦ rw (ne→str_eq user_id [] named, foreign) (keep_owned-AllOwned user_id ss named)
]
