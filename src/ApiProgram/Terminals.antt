-- ===== src/ApiProgram/Terminals.antt =====
-- For whom the API program asks for an exec.
use agentsty.Prelude.{
  ◌≡◌, sym, ap, ◌∙◌, subst, ◌≢◌, Bool, true, Option, none, some, Str, str_eq, str_eq_iff, Result,
  ok, err,
}
use mathlib.Core.Option.{none-ne-some, some-injective}
use mathlib.Core.Bool.{false≢true}
use agentsty.V1alpha1.{AgentSession, Time}
use agentsty.Http.{Request, method_get, method_post, method_delete}
use agentsty.Api.Store.{Store}
use agentsty.Api.Requests.{user_from_request}
use agentsty.Api.Server.{Server, Ambient, Reply, respond, to_terminal, redirect}
use agentsty.Api.Server.Ownership.{Change, unchanged, creates, deletes, handler-Change}
use agentsty.Api.Server.Replies.{IsPlain, IsPermitted, plain, shows, lists, shows_new, connects}
use agentsty.Api.Server.Visibility.{handler-IsPermitted}
use agentsty.Kube.{Unstructured}
use agentsty.Kube.Client.{Dynamic}
use agentsty.Terminal.{ExecRequest, exec_request}
use agentsty.Terminal.Streams.{PodExec}
use agentsty.Terminal.Admission.{IsReady, IsGrantedOf, HasAsked, serve-HasAsked_iff}
use agentsty.ApiProgram.{
  Settings, Backing, resolved, Outcome, responded, redirected, served, store_of, gateway_of,
  outcome, server, serve,
}

-- the program asks its backend for the exec
unfoldable pub Asks : Outcome → ExecRequest → Type 0
Asks (responded response) e = ⊥
Asks (redirected path) e = ⊥
Asks (served x) e = HasAsked x e

get_not_post : method_get ≢ method_post
unfolding str_eq
get_not_post h = false≢true ((str_eq_iff method_get method_post).1 h)

get_not_delete : method_get ≢ method_delete
unfolding str_eq
get_not_delete h = false≢true ((str_eq_iff method_get method_delete).1 h)

-- A GET leaves the store as it is.
Change-get :
    (has_userinfo : Str → Bool) (store : Store) (api : Server) (amb : Ambient)
    (st st' : store.State) (r : Request)
    → r.method ≡ method_get
    → Change has_userinfo store api amb st r st'
    → st' ≡ st
Change-get has_userinfo store api amb st st' r is_get (unchanged same) = same
Change-get has_userinfo store api amb st st' r is_get (creates _ s _ is_post _ _ _ _) =
    absurd (get_not_post (sym is_get ∙ is_post))
Change-get has_userinfo store api amb st st' r is_get (deletes _ id s _ is_delete _ _ _) =
    absurd (get_not_delete (sym is_get ∙ is_delete))

answered : Result Str (Option AgentSession) → Option AgentSession
answered (ok o) = o
answered (err e) = none

resolved-found :
    (r : Result Str AgentSession) (s : AgentSession) → resolved r ≡ ok (some s) → r ≡ ok s
unfolding answered
resolved-found (ok t) s h = ap ok (some-injective _ _ (ap answered h))
resolved-found (err e) s h = absurd (none-ne-some s (ap answered h))

module _ {C : Type 0} (format_time : Time → Str) (parse_time : Str → Option Time) (u : Unstructured)
    (dynamic : C → Str → Dynamic) (new_executor : C → PodExec → Option Str) (b : Backing C) where
  abbrev Store_of : Store
  Store_of = store_of format_time parse_time u dynamic new_executor b

  module _ (has_userinfo : Str → Bool) (settings : Settings) (amb : Ambient) (upgrades : Bool)
      (r : Request) where
    -- The request is a GET by a known user, its upgrade succeeds, and the store has a session of that
    -- user's that is ready; the exec is the one for that session.
    pub record IsOpened (st : (store_of format_time parse_time u dynamic new_executor b).State)
        (e : ExecRequest) : Type 0 where
      pub user_id : Str
      pub id : Str
      pub session : AgentSession
      pub user : user_from_request r ≡ some user_id
      pub is_get : r.method ≡ method_get
      pub upgraded : upgrades ≡ true
      pub found : (store_of format_time parse_time u dynamic new_executor b).get st id ≡ ok session
      pub owner : session.spec.user_id ≡ user_id
      pub ready : IsReady session
      pub for_session : exec_request session ≡ e

    plain-quiet :
        (st : Store_of.State) (reply : Reply) (e : ExecRequest)
        → IsPlain reply
        → Asks (outcome format_time parse_time u dynamic new_executor b st upgrades reply) e
        → ⊥
    unfolding outcome Asks IsPlain
    plain-quiet st (respond response) e p h = h
    plain-quiet st (redirect path) e p h = h
    plain-quiet st (to_terminal user_id id) e p h = p

    respond-quiet :
        (st : Store_of.State) (reply : Reply) (e : ExecRequest) {x : _}
        → reply ≡ respond x
        → Asks (outcome format_time parse_time u dynamic new_executor b st upgrades reply) e
        → ⊥
    unfolding outcome Asks
    respond-quiet st reply e same h =
        subst (λ y. Asks (outcome format_time parse_time u dynamic new_executor b st upgrades y) e)
          same h

    connects-IsOpened :
        (st : Store_of.State) (user_id id : Str) (e : ExecRequest)
        → user_from_request r ≡ some user_id
        → r.method ≡ method_get
        → Asks
            (outcome format_time parse_time u dynamic new_executor b st upgrades
              (to_terminal user_id id))
            e
        → IsOpened st e
    unfolding outcome Asks gateway_of IsGrantedOf
    connects-IsOpened st user_id id e user is_get h =
        let g = gateway_of format_time parse_time u dynamic new_executor b st in
        let (resolve, _, same, _, (s, found, upgraded, granted)) =
          (serve-HasAsked_iff g upgrades user_id id e).0 h in
        record {
          user_id = user_id;
          id = id;
          session = s;
          user = user;
          is_get = is_get;
          upgraded = upgraded;
          found = resolved-found _ s (ap (λ f. f id) (some-injective _ _ same) ∙ found);
          owner = granted.owner;
          ready = granted.ready;
          for_session = granted.request;
        }

    permitted-IsOpened :
        (st st' : Store_of.State) (reply : Reply) (e : ExecRequest)
        → (r.method ≡ method_get → st' ≡ st)
        → IsPermitted format_time Store_of st r reply
        → Asks (outcome format_time parse_time u dynamic new_executor b st' upgrades reply) e
        → (st' ≡ st) × IsOpened st e
    permitted-IsOpened st st' reply e kept (plain p) h = absurd (plain-quiet st' reply e p h)
    permitted-IsOpened st st' reply e kept (shows _ _ s _ _ _ same) h =
        absurd (respond-quiet st' reply e same h)
    permitted-IsOpened st st' reply e kept (lists _ ss _ _ same) h =
        absurd (respond-quiet st' reply e same h)
    permitted-IsOpened st st' reply e kept (shows_new _ s s' _ _ _ same) h =
        absurd (respond-quiet st' reply e same h)
    permitted-IsOpened st st' reply e kept (connects user_id id user is_get same) h =
        let opened = connects-IsOpened st' user_id id e user is_get (
          subst
            (λ y. Asks (outcome format_time parse_time u dynamic new_executor b st' upgrades y) e)
            same h) in
        (kept is_get, subst (λ x. IsOpened x e) (kept is_get) opened)

    -- The program asks for an exec, whatever store and backend it runs on, only for a GET by a known
    -- user whose upgrade succeeds, for a session that the store has, that is that user's, and that is
    -- running with its terminal ready; it asks for that session's pod and command, and the request
    -- changes nothing in the store.
    pub serve-IsOpened :
        (st : (store_of format_time parse_time u dynamic new_executor b).State) (e : ExecRequest)
        → Asks
            (serve format_time parse_time u dynamic new_executor b has_userinfo settings st amb
              upgrades r).1
            e
        → ((serve format_time parse_time u dynamic new_executor b has_userinfo settings st amb
              upgrades r).0
            ≡ st)
          × IsOpened st e
    unfolding serve
    serve-IsOpened st e h =
        let s = server format_time parse_time u dynamic new_executor b has_userinfo settings in
        permitted-IsOpened st _ _ e
          (λ is_get.
            Change-get has_userinfo Store_of s amb st _ r is_get
              (handler-Change has_userinfo format_time Store_of s amb st r))
          (handler-IsPermitted has_userinfo format_time Store_of s amb st r) h
