-- ===== src/Api/Server/Replies.antt =====
-- What the handlers' replies show, and to whom, over any store.
use agentsty.Prelude.{
  ◌≡◌, refl, sym, ap, inl, inr, Bool, true, false, Option, none, some, List, map, Str, str_eq,
  str_eq_iff, Dict, Result, ok, err, Result-cases, Option-cases, Bool-cases,
}
use agentsty.V1alpha1.{AgentSession, AgentSessionSpec, Time, new_agent_session, validate}
use agentsty.Http.{Request, method_get, method_delete}
use agentsty.Api.Store.{Store}
use agentsty.Api.Requests.{
  Json, user_from_request, spec_of, create_session_request, reject_forbidden,
}
use agentsty.Api.Server.{
  Server, Ambient, Reply, respond, to_terminal, redirect, Body, error_text, spec_error,
  request_error, status_json, session_json, items_json, deleted_json, write_json,
  response_from_session, sort_by_name, created, deleted, create_spec, create_body, list_sessions,
  get_session, delete_session, terminal, one_session,
}

unfoldable pub HasNoSession : Body → Type 0
HasNoSession (error_text t) = Unit
HasNoSession (spec_error e) = Unit
HasNoSession (request_error e) = Unit
HasNoSession (status_json t) = Unit
HasNoSession (session_json s) = ⊥
HasNoSession (items_json ss) = ⊥
HasNoSession (deleted_json id) = Unit

-- A reply that shows no session and opens no terminal.
unfoldable pub IsPlain : Reply → Type 0
unfolding HasNoSession
IsPlain (respond resp) = HasNoSession resp.body
IsPlain (to_terminal user_id id) = ⊥
IsPlain (redirect path) = Unit

module _ (format_time : Time → Str) (store : Store) (st : store.State) (r : Request) where
  -- The replies to a request: one that shows nothing, or one to an authenticated user, which shows a
  -- session of that user's that the store has, what the store lists for that user, by name, or the
  -- session of that user's that the store has just created, or which opens a terminal for that user.
  pub data IsPermitted (reply : Reply) : Type 0 where
    plain : IsPlain reply → IsPermitted reply
    shows :
        (user_id id : Str) (s : AgentSession)
        → user_from_request r ≡ some user_id
        → store.get st id ≡ ok s
        → s.spec.user_id ≡ user_id
        → reply ≡ write_json 200 (session_json (response_from_session format_time s false))
        → IsPermitted reply
    lists :
        (user_id : Str) (ss : List AgentSession)
        → user_from_request r ≡ some user_id
        → store.list st user_id ≡ ok ss
        → reply
          ≡ write_json 200
              (items_json (map (λ s. response_from_session format_time s false) (sort_by_name ss)))
        → IsPermitted reply
    shows_new :
        (user_id : Str) (s s' : AgentSession)
        → user_from_request r ≡ some user_id
        → s.spec.user_id ≡ user_id
        → (store.create st s).1 ≡ ok s'
        → reply ≡ write_json 201 (session_json (response_from_session format_time s' true))
        → IsPermitted reply
    connects :
        (user_id id : Str)
        → user_from_request r ≡ some user_id
        → r.method ≡ method_get
        → reply ≡ to_terminal user_id id
        → IsPermitted reply

module _ (has_userinfo : Str → Bool) (format_time : Time → Str) (store : Store) (server : Server)
    (amb : Ambient) (st : store.State) (r : Request) where
  abbrev pub IsOk : Reply → Type 0
  IsOk reply = IsPermitted format_time store st r reply

  deleted-IsPlain :
      (id : Str) (x : store.State × Option Str)
      → IsPlain (deleted has_userinfo format_time store id x).1
  unfolding IsPlain
  deleted-IsPlain id (st', none) = tt
  deleted-IsPlain id (st', some e) = tt

  module _ (user_id : Str) (user : user_from_request r ≡ some user_id) where
    created-IsOk :
        (s : AgentSession) (x : store.State × Result Str AgentSession)
        → x ≡ store.create st s
        → s.spec.user_id ≡ user_id
        → IsOk (created has_userinfo format_time store x).1
    unfolding IsPlain
    created-IsOk s (st', ok s') e owner =
        shows_new user_id s s' user owner (ap (λ y. y.1) (sym e)) refl
    created-IsOk s (st', err t) e owner = plain tt

    create_spec-IsOk :
        (spec : AgentSessionSpec)
        → spec.user_id ≡ user_id
        → IsOk (create_spec has_userinfo format_time store server st amb spec).1
    unfolding create_spec new_agent_session IsPlain
    create_spec-IsOk spec owner = elim (Option-cases (validate spec)) [
      | inl valid ↦
          rw (valid, create_spec) (created-IsOk (new_agent_session _ _ spec amb.now) _ refl owner)
      | inr (e, invalid) ↦ rw (invalid, create_spec) (plain tt)
    ]

    pub create_body-IsOk :
        (json : Option (Dict Json))
        → IsOk (create_body has_userinfo format_time store server st amb user_id json).1
    unfolding create_body spec_of IsPlain
    create_body-IsOk none = plain tt
    create_body-IsOk (some raw) = elim (Option-cases (reject_forbidden has_userinfo raw)) [
      | inl allowed ↦
          rw (allowed, create_body)
            (create_spec-IsOk (spec_of user_id (create_session_request raw)) refl)
      | inr (e, rejected) ↦ rw (rejected, create_body) (plain tt)
    ]

    pub list_sessions-IsOk : IsOk (list_sessions has_userinfo format_time store st user_id).1
    unfolding list_sessions IsPlain
    list_sessions-IsOk = elim (Result-cases (store.list st user_id)) [
      | inl (e, failed) ↦ rw (failed, list_sessions) (plain tt)
      | inr (ss, listed) ↦ rw (listed, list_sessions) (lists user_id ss user listed refl)
    ]

    get_session-IsOk :
        (id : Str) → IsOk (get_session has_userinfo format_time store st user_id id).1
    unfolding get_session IsPlain
    get_session-IsOk id = elim (Result-cases (store.get st id)) [
      | inl (e, missing) ↦ rw (missing, get_session) (plain tt)
      | inr (s, there) ↦ elim (Bool-cases (str_eq s.spec.user_id user_id)) [
        | inl own ↦
            rw (there, own, get_session)
              (shows user_id id s user there ((str_eq_iff _ _).0 own) refl)
        | inr other ↦ rw (there, other, get_session) (plain tt)
      ]
    ]

    delete_session-IsPlain :
        (id : Str) → IsPlain (delete_session has_userinfo format_time store st user_id id).1
    unfolding delete_session IsPlain
    delete_session-IsPlain id = elim (Result-cases (store.get st id)) [
      | inl (e, missing) ↦ rw (missing, delete_session) tt
      | inr (s, there) ↦ elim (Bool-cases (str_eq s.spec.user_id user_id)) [
        | inl own ↦ rw (there, own, delete_session) (deleted-IsPlain id _)
        | inr other ↦ rw (there, other, delete_session) tt
      ]
    ]

    pub one_session-IsOk :
        (id : Str) → IsOk (one_session has_userinfo format_time store st r user_id id).1
    unfolding one_session IsPlain
    one_session-IsOk id = elim (Bool-cases (str_eq r.method method_get)) [
      | inl read ↦ rw (read, one_session) (get_session-IsOk id)
      | inr e ↦ elim (Bool-cases (str_eq r.method method_delete)) [
        | inl del ↦ rw (e, del, one_session) (plain (delete_session-IsPlain id))
        | inr other ↦ rw (e, other, one_session) (plain tt)
      ]
    ]

    pub terminal-IsOk :
        (id : Str) → IsOk (terminal has_userinfo format_time store server st r user_id id).1
    unfolding terminal IsPlain
    terminal-IsOk id = elim (Bool-cases (str_eq r.method method_get)) [
      | inr other ↦ rw (other, terminal) (plain tt)
      | inl read ↦ elim (Bool-cases server.has_terminal) [
        | inr missing ↦ rw (read, missing, terminal) (plain tt)
        | inl there ↦
            rw (read, there, terminal) (connects user_id id user ((str_eq_iff _ _).0 read) refl)
      ]
    ]
