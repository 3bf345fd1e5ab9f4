-- ===== src/Api/Server/Ownership.antt =====
-- Whose sessions a request can change or see, over any store.
use agentsty.Prelude.{
  codes, ◌≡◌, refl, inl, inr, Bool, Option, none, some, List, [], ◌∷◌, Str, str_eq, str_eq_iff,
  Dict, Result, ok, err, Result-cases, arith, Option-cases, Bool-cases,
}
use agentsty.V1alpha1.{AgentSession, AgentSessionSpec, Time, new_agent_session, validate}
use agentsty.Http.{Request, method_get, method_post, method_delete}
use agentsty.Api.Store.{Store}
use agentsty.Api.Requests.{
  Json, user_from_request, spec_of, create_session_request, reject_forbidden, generate_session_id,
  default_string,
}
use agentsty.Api.Server.{
  sessions_path, Server, Ambient, created, deleted, sessions_of, healthz, readyz, create_spec,
  create_body, create_session, list_sessions, get_session, delete_session, sessions, terminal,
  one_session, by_parts, session_by_id, handler,
}
use agentsty.Api.Server.Routes.{handler_rule}

-- The request's body is a JSON object without a forbidden field, its path is that of the sessions,
-- and the session is the new one that its fields, the server's namespace, the clock and the random
-- bytes give.
pub record IsPosted (has_userinfo : Str → Bool) (server : Server) (amb : Ambient) (r : Request)
    (user_id : Str) (s : AgentSession) : Type 0 where
  pub raw : Dict Json
  pub is_object : amb.json ≡ some raw
  pub allowed : reject_forbidden has_userinfo raw ≡ none
  pub to_sessions : r.path ≡ sessions_path
  pub is_new :
      s
      ≡ new_agent_session
          (generate_session_id amb.random amb.nanos)
          (default_string server.namespace (codes "agentcask-sessions"))
          (spec_of user_id (create_session_request raw))
          amb.now

module _ (has_userinfo : Str → Bool) (store : Store) (server : Server) (amb : Ambient)
    (st : store.State) (r : Request) where
  -- What a request may do to the store: nothing, create the valid session that its own fields
  -- describe for the user who makes it, or delete a session that was the user's.
  pub data Change (st' : store.State) : Type 0 where
    unchanged : st' ≡ st → Change st'
    creates :
        (user_id : Str) (s : AgentSession)
        → user_from_request r ≡ some user_id
        → r.method ≡ method_post
        → s.spec.user_id ≡ user_id
        → validate s.spec ≡ none
        → IsPosted has_userinfo server amb r user_id s
        → st' ≡ (store.create st s).0
        → Change st'
    deletes :
        (user_id id : Str) (s : AgentSession)
        → user_from_request r ≡ some user_id
        → r.method ≡ method_delete
        → store.get st id ≡ ok s
        → s.spec.user_id ≡ user_id
        → st' ≡ (store.delete st id).0
        → Change st'

module _ (has_userinfo : Str → Bool) (format_time : Time → Str) (store : Store) (server : Server)
    (amb : Ambient) (st : store.State) where
  created-state :
      (x : store.State × Result Str AgentSession)
      → (created has_userinfo format_time store x).0 ≡ x.0
  created-state (st', ok s) = refl
  created-state (st', err e) = refl

  deleted-state :
      (id : Str) (x : store.State × Option Str)
      → (deleted has_userinfo format_time store id x).0 ≡ x.0
  deleted-state id (st', none) = refl
  deleted-state id (st', some e) = refl

  list_sessions-state :
      (user_id : Str) → (list_sessions has_userinfo format_time store st user_id).0 ≡ st
  unfolding list_sessions
  list_sessions-state user_id = elim (Result-cases (store.list st user_id)) [
    | inl (e, failed) ↦ rw (failed, list_sessions)
    | inr (ss, listed) ↦ rw (listed, list_sessions)
  ]

  get_session-state :
      (user_id id : Str) → (get_session has_userinfo format_time store st user_id id).0 ≡ st
  unfolding get_session
  get_session-state user_id id = elim (Result-cases (store.get st id)) [
    | inl (e, missing) ↦ rw (missing, get_session)
    | inr (s, there) ↦ rw (there, get_session) (ground arith)
  ]

  module _ (r : Request) (user_id : Str) (user : user_from_request r ≡ some user_id) where
    create_spec-Change :
        (spec : AgentSessionSpec)
        → r.method ≡ method_post
        → spec.user_id ≡ user_id
        → IsPosted has_userinfo server amb r user_id (
            new_agent_session
              (generate_session_id amb.random amb.nanos)
              (default_string server.namespace (codes "agentcask-sessions"))
              spec
              amb.now)
        → Change has_userinfo store server amb st r
            (create_spec has_userinfo format_time store server st amb spec).0
    unfolding create_spec new_agent_session
    create_spec-Change spec post owner posted = elim (Option-cases (validate spec)) [
      | inl valid ↦
          rw (valid, create_spec)
            (creates user_id (new_agent_session _ _ spec amb.now) user post owner valid posted
              (created-state _))
      | inr (e, invalid) ↦ rw (invalid, create_spec) (unchanged refl)
    ]

    create_body-Change :
        (json : Option (Dict Json))
        → amb.json ≡ json
        → r.path ≡ sessions_path
        → r.method ≡ method_post
        → Change has_userinfo store server amb st r
            (create_body has_userinfo format_time store server st amb user_id json).0
    unfolding create_body spec_of
    create_body-Change none e path post = unchanged refl
    create_body-Change (some raw) e path post =
        elim (Option-cases (reject_forbidden has_userinfo raw)) [
          | inl allowed ↦
              rw (allowed, create_body)
                (create_spec-Change (spec_of user_id (create_session_request raw)) post refl
                  (record {
                    raw = raw;
                    is_object = e;
                    allowed = allowed;
                    to_sessions = path;
                    is_new = refl;
                  }))
          | inr (x, rejected) ↦ rw (rejected, create_body) (unchanged refl)
        ]

    delete_session-Change :
        (id : Str)
        → r.method ≡ method_delete
        → Change has_userinfo store server amb st r
            (delete_session has_userinfo format_time store st user_id id).0
    unfolding delete_session
    delete_session-Change id del = elim (Result-cases (store.get st id)) [
      | inl (e, missing) ↦ rw (missing, delete_session) (unchanged refl)
      | inr (s, there) ↦ elim (Bool-cases (str_eq s.spec.user_id user_id)) [
        | inl own ↦
            rw (there, own, delete_session)
              (deletes user_id id s user del there ((str_eq_iff _ _).0 own) (deleted-state id _))
        | inr other ↦ rw (there, other, delete_session) (unchanged refl)
      ]
    ]

    one_session-Change :
        (id : Str)
        → Change has_userinfo store server amb st r
            (one_session has_userinfo format_time store st r user_id id).0
    unfolding one_session
    one_session-Change id = elim (Bool-cases (str_eq r.method method_get)) [
      | inl read ↦ rw (read, one_session) (unchanged (get_session-state user_id id))
      | inr e ↦ elim (Bool-cases (str_eq r.method method_delete)) [
        | inl del ↦ rw (e, del, one_session) (delete_session-Change id ((str_eq_iff _ _).0 del))
        | inr other ↦ rw (e, other, one_session) (unchanged refl)
      ]
    ]

    terminal-state :
        (id : Str) → (terminal has_userinfo format_time store server st r user_id id).0 ≡ st
    unfolding terminal
    terminal-state id = ground arith

    by_parts-Change :
        (parts : List Str)
        → Change has_userinfo store server amb st r
            (by_parts has_userinfo format_time store server st r user_id parts).0
    unfolding by_parts
    by_parts-Change [] = unchanged refl
    by_parts-Change (id ∷ []) = elim (Bool-cases (str_eq id [])) [
      | inl e ↦ rw (e, by_parts) (unchanged refl)
      | inr e ↦ rw (e, by_parts) (one_session-Change id)
    ]
    by_parts-Change (id ∷ action ∷ []) = unchanged (ground (arith, terminal-state id))
    by_parts-Change (id ∷ action ∷ more ∷ rest) = unchanged refl

    sessions_of-Change :
        r.path ≡ sessions_path
        → Change has_userinfo store server amb st r
            (sessions_of has_userinfo format_time store server st amb r user_id).0
    unfolding sessions_of create_session
    sessions_of-Change path = elim (Bool-cases (str_eq r.method method_post)) [
      | inl post ↦
          rw (post, sessions_of) (create_body-Change amb.json refl path ((str_eq_iff _ _).0 post))
      | inr e ↦ unchanged (rw (e, sessions_of) (ground (arith, list_sessions-state user_id)))
    ]

  module _ (r : Request) where
    sessions-Change :
        r.path ≡ sessions_path
        → Change has_userinfo store server amb st r
            (sessions has_userinfo format_time store server st amb r).0
    unfolding sessions
    sessions-Change path = elim (Option-cases (user_from_request r)) [
      | inl e ↦ rw (e, sessions) (unchanged refl)
      | inr (user_id, e) ↦ rw (e, sessions) (sessions_of-Change r user_id e path)
    ]

    session_by_id-Change :
        Change has_userinfo store server amb st r
          (session_by_id has_userinfo format_time store server st r).0
    unfolding session_by_id
    session_by_id-Change = elim (Option-cases (user_from_request r)) [
      | inl e ↦ rw (e, session_by_id) (unchanged refl)
      | inr (user_id, e) ↦ rw (e, session_by_id) (by_parts-Change r user_id e _)
    ]

    readyz-state : (readyz has_userinfo format_time store st).0 ≡ st
    unfolding readyz
    readyz-state = elim (Option-cases (store.ready st)) [
      | inl e ↦ rw (e, readyz)
      | inr (t, e) ↦ rw (e, readyz)
    ]

  -- Whatever the request, the state after it is the state before, or comes from one creation, by
  -- POST to the path of the sessions, of the valid session of the user whom the request names that
  -- the fields of its JSON body describe, none of them forbidden, or from one deletion, by DELETE,
  -- of a session that the store had and that belonged to that user.
  pub handler-Change :
      (r : Request)
      → Change has_userinfo store server amb st r
          (handler has_userinfo format_time store server st amb r).0
  unfolding healthz
  handler-Change r =
      handler_rule has_userinfo format_time store server amb st r
        (λ x. Change has_userinfo store server amb st r x.0) (unchanged refl) (unchanged refl)
        (unchanged (readyz-state r)) (sessions-Change r) (session_by_id-Change r) (unchanged refl)
