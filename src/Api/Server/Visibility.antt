-- ===== src/Api/Server/Visibility.antt =====
-- What a reply shows, and to whom, over any store.
use agentsty.Prelude.{
  ◌≡◌, inl, inr, Bool, some, List, [], ◌∷◌, Str, codes, str_eq, Option-cases, Bool-cases,
}
use agentsty.V1alpha1.{Time}
use agentsty.Http.{Request, method_get, method_post}
use agentsty.Api.Store.{Store}
use agentsty.Api.Requests.{user_from_request}
use agentsty.Api.Server.{
  Server, Ambient, create_session, sessions_of, sessions, by_parts, session_by_id, healthz, readyz,
  handler,
}
use agentsty.Api.Server.Routes.{handler_rule}
use agentsty.Api.Server.Replies.{
  IsPlain, IsPermitted, plain, IsOk, create_body-IsOk, list_sessions-IsOk, one_session-IsOk,
  terminal-IsOk,
}

module _ (has_userinfo : Str → Bool) (format_time : Time → Str) (store : Store) (server : Server)
    (amb : Ambient) (st : store.State) (r : Request) where
  module _ (user_id : Str) (user : user_from_request r ≡ some user_id) where
    by_parts-IsOk :
        (parts : List Str)
        → IsOk has_userinfo format_time store server amb st r
            (by_parts has_userinfo format_time store server st r user_id parts).1
    unfolding by_parts IsPlain
    by_parts-IsOk [] = plain tt
    by_parts-IsOk (id ∷ []) = elim (Bool-cases (str_eq id [])) [
      | inl e ↦ rw (e, by_parts) (plain tt)
      | inr e ↦
          rw (e, by_parts)
            (one_session-IsOk has_userinfo format_time store server amb st r user_id user id)
    ]
    by_parts-IsOk (id ∷ action ∷ []) = elim (Bool-cases (str_eq id [])) [
      | inl e ↦ rw (e, by_parts) (plain tt)
      | inr e ↦ elim (Bool-cases (str_eq action (codes "terminal"))) [
        | inl open_it ↦
            rw (e, open_it, by_parts)
              (terminal-IsOk has_userinfo format_time store server amb st r user_id user id)
        | inr other ↦ rw (e, other, by_parts) (plain tt)
      ]
    ]
    by_parts-IsOk (id ∷ action ∷ more ∷ rest) = plain tt

    sessions_of-IsOk :
        IsOk has_userinfo format_time store server amb st r
          (sessions_of has_userinfo format_time store server st amb r user_id).1
    unfolding sessions_of create_session IsPlain
    sessions_of-IsOk = elim (Bool-cases (str_eq r.method method_post)) [
      | inl post ↦
          rw (post, sessions_of)
            (create_body-IsOk has_userinfo format_time store server amb st r user_id user amb.json)
      | inr e ↦ elim (Bool-cases (str_eq r.method method_get)) [
        | inl read ↦
            rw (e, read, sessions_of)
              (list_sessions-IsOk has_userinfo format_time store server amb st r user_id user)
        | inr other ↦ rw (e, other, sessions_of) (plain tt)
      ]
    ]

  readyz-IsOk :
      IsOk has_userinfo format_time store server amb st r
        (readyz has_userinfo format_time store st).1
  unfolding readyz IsPlain
  readyz-IsOk = elim (Option-cases (store.ready st)) [
    | inl e ↦ rw (e, readyz) (plain tt)
    | inr (t, e) ↦ rw (e, readyz) (plain tt)
  ]

  sessions-IsOk :
      IsOk has_userinfo format_time store server amb st r
        (sessions has_userinfo format_time store server st amb r).1
  unfolding sessions IsPlain
  sessions-IsOk = elim (Option-cases (user_from_request r)) [
    | inl e ↦ rw (e, sessions) (plain tt)
    | inr (user_id, e) ↦ rw (e, sessions) (sessions_of-IsOk user_id e)
  ]

  session_by_id-IsOk :
      IsOk has_userinfo format_time store server amb st r
        (session_by_id has_userinfo format_time store server st r).1
  unfolding session_by_id IsPlain
  session_by_id-IsOk = elim (Option-cases (user_from_request r)) [
    | inl e ↦ rw (e, session_by_id) (plain tt)
    | inr (user_id, e) ↦ rw (e, session_by_id) (by_parts-IsOk user_id e _)
  ]

  -- Every reply to a request shows no session and opens no terminal, or goes to an authenticated
  -- user and shows one session that the store has and that belongs to that user, or what the store
  -- made of a new session of that user, or just what the store lists for that user, or opens a
  -- terminal for that user.
  pub handler-IsPermitted :
      IsPermitted format_time store st r (handler has_userinfo format_time store server st amb r).1
  unfolding healthz IsPlain
  handler-IsPermitted =
      handler_rule has_userinfo format_time store server amb st r
        (λ x. IsOk has_userinfo format_time store server amb st r x.1) (plain tt) (plain tt)
        readyz-IsOk (λ _. sessions-IsOk) session_by_id-IsOk (plain tt)
