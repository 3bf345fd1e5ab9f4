-- ===== src/ApiProgram/History.antt =====
-- The API program with its in-memory store, from its start through any sequence of requests.
use agentsty.Prelude.{
  ◌≡◌, refl, sym, ap, ◌∙◌, ◌⊎◌, inl, inr, Bool, true, false, Option, none, some, List, [], ◌∷◌, Str,
  str_eq, str_eq_iff, Result, ok, err, In, Bool-cases, Option-cases, subst, if◌then◌else◌,
}
use mathlib.Core.Option.{none-ne-some, some-injective}
use agentsty.V1alpha1.{AgentSession, Time, validate}
use agentsty.Http.{Request, method_get, method_post}
use agentsty.Api.Store.{Store, found}
use agentsty.Api.Store.Memory.{
  MemoryStore, new_memory_store, stored, create, get, delete, memory_store,
}
use agentsty.Api.Store.Memory.Laws.{get-create, get-delete, create-auto_run, delete-auto_run}
use agentsty.Api.Requests.{user_from_request}
use agentsty.Api.Server.{Server, Ambient}
use agentsty.Api.Server.Ownership.{Change, IsPosted, unchanged, creates, deletes, handler-Change}
use agentsty.Kube.{Unstructured}
use agentsty.Kube.Client.{Dynamic}
use agentsty.Terminal.Admission.{IsReady}
use agentsty.Terminal.{ExecRequest, exec_request}
use agentsty.Terminal.Streams.{PodExec}
use agentsty.ApiProgram.{Settings, Outcome, in_memory, store_of, server, serve}
use agentsty.ApiProgram.Terminals.{Asks, serve-IsOpened}

-- a request, with what it reads from outside
pub record Visit : Type 0 where
  pub ambient : Ambient
  pub upgrades : Bool
  pub request : Request

-- One of the requests was a POST of the session's user to the path of the sessions, and the session
-- is what the store makes of the valid session that the fields of that request describe.
pub record IsFrom (has_userinfo : Str → Bool) (api : Server) (visits : List Visit) (id : Str)
    (s : AgentSession) : Type 0 where
  pub visit : Visit
  pub among : In visit visits
  pub user_id : Str
  pub by_user : user_from_request visit.request ≡ some user_id
  pub by_post : visit.request.method ≡ method_post
  pub new : AgentSession
  pub posted : IsPosted has_userinfo api visit.ambient visit.request user_id new
  pub owner : new.spec.user_id ≡ user_id
  pub valid : validate new.spec ≡ none
  pub named : new.name ≡ id
  pub is_stored : s ≡ stored true new

stored-spec : (auto_run : Bool) (s : AgentSession) → (stored auto_run s).spec ≡ s.spec
unfolding agentsty.Api.Store.Memory.stored
stored-spec true s = refl
stored-spec false s = refl

-- what a new session's name leads to
created_cases :
    (m : MemoryStore) (new s : AgentSession) (id : Str)
    → found (get (create m new).0 id) ≡ some s
    → ((new.name ≡ id) × (s ≡ stored m.auto_run new)) ⊎ (found (get m id) ≡ some s)
created_cases m new s id h = elim (Bool-cases (str_eq new.name id)) [
  | inl same ↦
      inl ((str_eq_iff _ _).0 same, some-injective _ _ (sym h ∙ get-create m new id ∙ rw same refl))
  | inr other ↦ inr (sym (get-create m new id ∙ rw other refl) ∙ h)
]

deleted_cases :
    (m : MemoryStore) (name : Str) (s : AgentSession) (id : Str)
    → found (get (delete m name).0 id) ≡ some s
    → found (get m id) ≡ some s
deleted_cases m name s id h = elim (Bool-cases (str_eq name id)) [
  | inl same ↦ absurd (none-ne-some s (sym ((get-delete m name id).1 ∙ rw same refl) ∙ h))
  | inr other ↦ sym ((get-delete m name id).1 ∙ rw other refl) ∙ h
]

module _ (has_userinfo : Str → Bool) (api : Server) where
  unfoldable pub MemoryChange : Ambient → MemoryStore → Request → MemoryStore → Type 0
  unfolding memory_store
  MemoryChange amb m r m' = Change has_userinfo memory_store api amb m r m'

  -- a store that was started with auto-run, and whose sessions come from the requests
  pub record IsHistory (visits : List Visit) (m : MemoryStore) : Type 0 where
    pub runs : m.auto_run ≡ true
    pub known :
        (id : Str) (s : AgentSession)
        → found (get m id) ≡ some s
        → IsFrom has_userinfo api visits id s

  IsFrom-later :
      (v : Visit) (vs : List Visit) (id : Str) (s : AgentSession)
      → IsFrom has_userinfo api vs id s
      → IsFrom has_userinfo api (v ∷ vs) id s
  unfolding In
  IsFrom-later v vs id s f = record {
    visit = f.visit;
    among = inr f.among;
    user_id = f.user_id;
    by_user = f.by_user;
    by_post = f.by_post;
    new = f.new;
    posted = f.posted;
    owner = f.owner;
    valid = f.valid;
    named = f.named;
    is_stored = f.is_stored;
  }

  -- One request keeps what the sessions of the store come from.
  Change-IsHistory :
      (m m' : MemoryStore) (v : Visit) (vs : List Visit)
      → IsHistory vs m
      → MemoryChange v.ambient m v.request m'
      → IsHistory (v ∷ vs) m'
  unfolding MemoryChange memory_store In
  Change-IsHistory m m' v vs k (unchanged same) = record {
    runs = ap (λ x. x.auto_run) same ∙ k.runs;
    known = (λ id s h.
        IsFrom-later v vs id s (k.known id s (ap (λ x. found (get x id)) (sym same) ∙ h)));
  }
  Change-IsHistory m m' v vs k (creates user_id new user post owner valid posted same) = record {
    runs = ap (λ x. x.auto_run) same ∙ create-auto_run m new ∙ k.runs;
    known = (λ id s h. elim (created_cases m new s id (ap (λ x. found (get x id)) (sym same) ∙ h)) [
      | inl (named, is_new) ↦ record {
        visit = v;
        among = inl refl;
        user_id = user_id;
        by_user = user;
        by_post = post;
        new = new;
        posted = posted;
        owner = owner;
        valid = valid;
        named = named;
        is_stored = is_new ∙ ap (λ b. stored b new) k.runs;
      }
      | inr before ↦ IsFrom-later v vs id s (k.known id s before)
    ]);
  }
  Change-IsHistory m m' v vs k (deletes user_id name old user del there owner same) = record {
    runs = ap (λ x. x.auto_run) same ∙ delete-auto_run m name ∙ k.runs;
    known = (λ id s h.
        IsFrom-later v vs id s
          (k.known id s (deleted_cases m name s id (ap (λ x. found (get x id)) (sym same) ∙ h))));
  }

module _ {C : Type 0} (format_time : Time → Str) (parse_time : Str → Option Time) (u : Unstructured)
    (dynamic : C → Str → Dynamic) (new_executor : C → PodExec → Option Str)
    (has_userinfo : Str → Bool) (settings : Settings) where
  -- the store after the requests, the last of which stands first
  unfoldable pub state_after : List Visit → MemoryStore
  unfolding new_memory_store store_of memory_store serve
  state_after [] = new_memory_store true
  state_after (v ∷ vs) =
      (serve format_time parse_time u dynamic new_executor in_memory has_userinfo settings
        (state_after vs) v.ambient v.upgrades v.request).0

  abbrev memory_server : Server
  memory_server =
      server format_time parse_time u dynamic new_executor in_memory has_userinfo settings

  serve-MemoryChange :
      (m : MemoryStore) (v : Visit)
      → MemoryChange has_userinfo memory_server v.ambient m v.request (
          unfold serve store_of memory_store in
          (serve format_time parse_time u dynamic new_executor in_memory has_userinfo settings m
            v.ambient v.upgrades v.request).0)
  unfolding MemoryChange serve store_of memory_store
  serve-MemoryChange m v =
      handler-Change has_userinfo format_time memory_store memory_server v.ambient m v.request

  empty_store : (id : Str) (s : AgentSession) → found (get (new_memory_store true) id) ≡ some s → ⊥
  unfolding new_memory_store get agentsty.Prelude.lookup
  empty_store id s h = none-ne-some s h

  state_after-IsHistory :
      (visits : List Visit) → IsHistory has_userinfo memory_server visits (state_after visits)
  unfolding state_after new_memory_store
  state_after-IsHistory [] = record { runs = refl; known = (λ id s h. absurd (empty_store id s h)) }
  state_after-IsHistory (v ∷ vs) =
      Change-IsHistory has_userinfo memory_server (state_after vs) _ v vs (state_after-IsHistory vs)
        (serve-MemoryChange (state_after vs) v)

  -- After any requests, each session that the store has under a name comes from one of them: a POST
  -- of the user whose session it is to the path of the sessions, with a JSON body without a
  -- forbidden field. The session is what the store makes of the new one of that name with the
  -- user, the fields of that body, the clock and the identifier of that request, which is valid.
  pub state_after-IsFrom :
      (visits : List Visit) (id : Str) (s : AgentSession)
      → found (get (state_after visits) id) ≡ some s
      → IsFrom has_userinfo memory_server visits id s
  state_after-IsFrom visits id s h = (state_after-IsHistory visits).known id s h

  -- The exec is that of a ready session which the store has after the requests, which one of them
  -- has made, and which belongs to the user who now asks for it.
  pub record IsOwnTerminal (visits : List Visit) (r : Request) (e : ExecRequest) : Type 0 where
    pub id : Str
    pub session : AgentSession
    pub there : found (get (state_after visits) id) ≡ some session
    pub made : IsFrom has_userinfo memory_server visits id session
    pub by_owner : user_from_request r ≡ some made.user_id
    pub is_get : r.method ≡ method_get
    pub ready : IsReady session
    pub for_session : exec_request session ≡ e

  unfoldable pub outcome_after : List Visit → Visit → Outcome
  unfolding state_after serve store_of memory_store
  outcome_after visits v =
      (serve format_time parse_time u dynamic new_executor in_memory has_userinfo settings
        (state_after visits) v.ambient v.upgrades v.request).1

  -- After any requests, a request for which the program asks for an exec is a GET of a user, and the
  -- exec is the one for a ready session that the store has at that moment and that one of the
  -- requests, a POST of the same user, has made as it describes.
  pub outcome_after-IsOwnTerminal :
      (visits : List Visit) (v : Visit) (e : ExecRequest)
      → Asks (outcome_after visits v) e
      → IsOwnTerminal visits v.request e
  unfolding outcome_after store_of memory_store
  outcome_after-IsOwnTerminal visits v e h =
      let (_, o) =
        serve-IsOpened format_time parse_time u dynamic new_executor in_memory has_userinfo settings
          v.ambient v.upgrades v.request (state_after visits) e h in
      let there = ap found o.found in
      let made = state_after-IsFrom visits o.id o.session there in
      record {
        id = o.id;
        session = o.session;
        there = there;
        made = made;
        by_owner =
            o.user
            ∙ ap some (
                sym o.owner
                ∙ ap (λ x. x.spec.user_id) made.is_stored
                ∙ ap (λ x. x.user_id) (stored-spec true made.new)
                ∙ made.owner);
        is_get = o.is_get;
        ready = o.ready;
        for_session = o.for_session;
      }
