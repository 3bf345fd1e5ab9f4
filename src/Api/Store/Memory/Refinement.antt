-- ===== src/Api/Store/Memory/Refinement.antt =====
-- MemoryStore against an abstract store: a function from names to sessions.
use agentsty.Prelude.{
  ◌≡◌, refl, sym, ◌∙◌, ◌⊎◌, ap, ◌↔◌, inl, inr, Bool, true, ◌||◌, Option, none, some, List, [], ◌∷◌,
  Str, str_eq, str_eq_iff, Dict, lookup, In, Bool-cases, Option-cases, if◌then◌else◌, Result, ok,
  err, subst,
}
use mathlib.Core.Option.{none-ne-some, some-injective}
use agentsty.V1alpha1.{AgentSession}
use agentsty.Api.Store.{found}
use agentsty.Api.Store.Memory.{
  MemoryStore, new_memory_store, stored, create, get, delete, owned_by, list,
}
use agentsty.Api.Store.Memory.Laws.{
  IsKeyed, new_memory_store-IsKeyed, create-IsKeyed, delete-IsKeyed, get-create, get-delete,
  found-get,
}

pub data Operation : Type 0 where
  creates : AgentSession → Operation
  deletes : Str → Operation

unfoldable pub perform : List Operation → MemoryStore → MemoryStore
unfolding create delete
perform [] m = m
perform (creates s ∷ ops) m = perform ops (create m s).0
perform (deletes id ∷ ops) m = perform ops (delete m id).0

abbrev pub AbstractStore : Type 0
AbstractStore = Str → Option AgentSession

-- the abstract operations, with the test server's switch that runs a session at once
unfoldable pub specify : Bool → List Operation → AbstractStore → AbstractStore
unfolding stored str_eq
specify auto_run [] f = f
specify auto_run (creates s ∷ ops) f =
    specify auto_run ops (λ id. if str_eq s.name id then some (stored auto_run s) else f id)
specify auto_run (deletes name ∷ ops) f =
    specify auto_run ops (λ id. if str_eq name id then none else f id)

abbrev pub wanted : Str → AgentSession → Bool
wanted user_id s = str_eq user_id [] || str_eq s.spec.user_id user_id

abbrev pub ok_or_nil : Result Str (List AgentSession) → List AgentSession
ok_or_nil (ok ss) = ss
ok_or_nil (err e) = []

-- The store's answers are those of the abstract one.
pub record IsImage (f : AbstractStore) (m : MemoryStore) : Type 0 where
  pub gets : (id : Str) → found (get m id) ≡ f id
  pub lists :
      (user_id : Str) (s : AgentSession)
      → In s (ok_or_nil (list m user_id)) ↔ ((f s.name ≡ some s) × (wanted user_id s ≡ true))

lookup_here :
    (k : Str) (t : AgentSession) (d : Dict AgentSession)
    → t.name ≡ k
    → lookup t.name ((k, t) ∷ d) ≡ some t
unfolding lookup
lookup_here k t d named = let same = (str_eq_iff k t.name).1 (sym named) in rw same refl

lookup_there :
    (k : Str) (t : AgentSession) (name : Str) (s : AgentSession) (d : Dict AgentSession)
    → lookup k d ≡ none
    → lookup name d ≡ some s
    → lookup name ((k, t) ∷ d) ≡ some s
unfolding lookup
lookup_there k t name s d fresh there = elim (Bool-cases (str_eq k name)) [
  | inl same ↦
      absurd
        (none-ne-some s (sym fresh ∙ ap (λ x. lookup x d) ((str_eq_iff k name).0 same) ∙ there))
  | inr other ↦ rw other there
]

-- a session in the list of one entry and the rest
owned_by_cases :
    (user_id : Str) (s t : AgentSession) (k : Str) (d : Dict AgentSession)
    → In s (owned_by user_id ((k, t) ∷ d))
    → ((s ≡ t) × (wanted user_id t ≡ true)) ⊎ In s (owned_by user_id d)
unfolding owned_by In
owned_by_cases user_id s t k d h = elim (Bool-cases (wanted user_id t)) [
  | inl w ↦ elim (rw (w, owned_by) at h) [ inl same ↦ inl (same, w) | inr there ↦ inr there ]
  | inr w ↦ inr (rw (w, owned_by) at h)
]

owned_by_sound :
    (user_id : Str) (s : AgentSession) (d : Dict AgentSession)
    → IsKeyed d
    → In s (owned_by user_id d)
    → (lookup s.name d ≡ some s) × (wanted user_id s ≡ true)
unfolding IsKeyed
owned_by_sound user_id s [] keyed h = absurd (unfold owned_by In in h)
owned_by_sound user_id s ((k, t) ∷ d) (named, fresh, keyed) h =
    elim (owned_by_cases user_id s t k d h) [
      | inl (same, w) ↦
          subst (λ x. (lookup x.name ((k, t) ∷ d) ≡ some x) × (wanted user_id x ≡ true)) (sym same)
            (lookup_here k t d named, w)
      | inr there ↦
          let (found_later, w) = owned_by_sound user_id s d keyed there in
          (lookup_there k t s.name s d fresh found_later, w)
    ]

keep_head :
    (user_id : Str) (s : AgentSession) (k : Str) (d : Dict AgentSession)
    → wanted user_id s ≡ true
    → In s (owned_by user_id ((k, s) ∷ d))
unfolding owned_by In
keep_head user_id s k d w = rw (w, owned_by) (inl refl)

keep_tail :
    (user_id : Str) (s t : AgentSession) (k : Str) (d : Dict AgentSession)
    → In s (owned_by user_id d)
    → In s (owned_by user_id ((k, t) ∷ d))
unfolding owned_by In
keep_tail user_id s t k d h = elim (Bool-cases (wanted user_id t)) [
  | inl w ↦ rw (w, owned_by) (inr h)
  | inr w ↦ rw (w, owned_by) h
]

lookup_cases :
    (name k : Str) (t s : AgentSession) (d : Dict AgentSession)
    → lookup name ((k, t) ∷ d) ≡ some s
    → (t ≡ s) ⊎ (lookup name d ≡ some s)
unfolding lookup
lookup_cases name k t s d h = elim (Bool-cases (str_eq k name)) [
  | inl same ↦ inl (some-injective _ _ (rw (same, lookup) at h))
  | inr other ↦ inr (rw (other, lookup) at h)
]

lookup_nil : (name : Str) → none ≡ lookup {V = AgentSession} name []
unfolding lookup
lookup_nil name = refl

owned_by_complete :
    (user_id : Str) (s : AgentSession) (d : Dict AgentSession)
    → lookup s.name d ≡ some s
    → wanted user_id s ≡ true
    → In s (owned_by user_id d)
owned_by_complete user_id s [] h w = absurd (none-ne-some s (lookup_nil s.name ∙ h))
owned_by_complete user_id s ((k, t) ∷ d) h w = elim (lookup_cases s.name k t s d h) [
  | inl same ↦
      subst (λ x. In s (owned_by user_id ((k, x) ∷ d))) (sym same) (keep_head user_id s k d w)
  | inr later ↦ keep_tail user_id s t k d (owned_by_complete user_id s d later w)
]

created_auto_run : (m : MemoryStore) (s : AgentSession) → (create m s).0.auto_run ≡ m.auto_run
unfolding create
created_auto_run m s = refl

new_auto_run : (auto_run : Bool) → (new_memory_store auto_run).auto_run ≡ auto_run
unfolding new_memory_store
new_auto_run auto_run = refl

delete_auto_run : (m : MemoryStore) (name : Str) → (delete m name).0.auto_run ≡ m.auto_run
unfolding delete
delete_auto_run m name = elim (Option-cases (lookup name m.sessions)) [
  | inl missing ↦ rw (missing, delete) refl
  | inr (s, there) ↦ rw (there, delete) refl
]

perform-keeps :
    (auto_run : Bool) (ops : List Operation) (m : MemoryStore) (f : AbstractStore)
    → m.auto_run ≡ auto_run
    → IsKeyed m.sessions
    → ((id : Str) → found (get m id) ≡ f id)
    → IsKeyed (perform ops m).sessions
      × ((id : Str) → found (get (perform ops m) id) ≡ specify auto_run ops f id)
unfolding perform specify
perform-keeps auto_run [] m f e keyed same = (keyed, same)
perform-keeps auto_run (creates s ∷ ops) m f e keyed same =
    perform-keeps auto_run ops (create m s).0 _ (created_auto_run m s ∙ e)
      (create-IsKeyed m s keyed)
      (λ id. get-create m s id ∙ λ i. if str_eq s.name id then some (stored (e i) s) else same id i)
perform-keeps auto_run (deletes name ∷ ops) m f e keyed same =
    perform-keeps auto_run ops (delete m name).0 _ (delete_auto_run m name ∙ e)
      (delete-IsKeyed m name keyed)
      (λ id. (get-delete m name id).1 ∙ λ i. if str_eq name id then none else same id i)

keyed-IsImage :
    (f : AbstractStore) (m : MemoryStore)
    → IsKeyed m.sessions
    → ((id : Str) → found (get m id) ≡ f id)
    → IsImage f m
unfolding list
keyed-IsImage f m keyed same = record {
  gets = same;
  lists = λ user_id s. (
    λ h.
        let (there, w) = owned_by_sound user_id s m.sessions keyed h in
        (sym (same s.name) ∙ found-get m s.name ∙ there, w),
    λ (there, w).
        owned_by_complete user_id s m.sessions (sym (found-get m s.name) ∙ same s.name ∙ there) w,
  );
}

new_memory_store_empty :
    (auto_run : Bool) (id : Str) → found (get (new_memory_store auto_run) id) ≡ none
unfolding new_memory_store get lookup
new_memory_store_empty auto_run id = refl

-- A store that starts empty and has seen any sequence of creations and deletions answers as the
-- abstract store that has seen the same: Get returns what stands under a name, and List holds exactly
-- the sessions that stand under their names and are the user's, or any if no user is named.
pub perform-IsImage :
    (auto_run : Bool) (ops : List Operation)
    → IsImage (specify auto_run ops (λ id. none)) (perform ops (new_memory_store auto_run))
perform-IsImage auto_run ops =
    let m = new_memory_store auto_run in
    let (keyed, same) =
      perform-keeps auto_run ops m (λ id. none) (new_auto_run auto_run)
        (new_memory_store-IsKeyed auto_run) (new_memory_store_empty auto_run) in
    keyed-IsImage _ _ keyed same
