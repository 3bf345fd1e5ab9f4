-- ===== src/Api/Server/Listing.antt =====
-- What the API lists, over a store that keeps its contract.
use agentsty.Prelude.{
  ◌≡◌, refl, ◌≢◌, inl, inr, Bool, false, Option, some, List, [], Str, map, str_eq, str_eq_iff,
  has_prefix, trim_prefix, Result, ok, err, Result-cases, Bool-cases, arith, split,
}
use mathlib.Core.List.{Perm}
use mathlib.Core.Option.{none-ne-some}
use agentsty.V1alpha1.{AgentSession, Time}
use agentsty.Redact.{redact}
use agentsty.Http.{Request, Header, method_get, bearer, authorization, get}
use agentsty.Api.Store.{Store, IsLawful, AllOwned}
use agentsty.Api.Requests.{user_from_request, user_of_token, user_prefix}
use agentsty.Api.Server.{
  Server, Ambient, Reply, http_error, write_json, error_text, items_json, response_from_session,
  sort_by_name, sessions_path, clean_path, handler, sessions, sessions_of, list_sessions,
}
use agentsty.Api.Server.Sorting.{
  IsSorted, sort_by_name-IsSorted, sort_by_name-perm, sort_by_name-AllOwned,
}

user_of_token-ne-nil : (token user_id : Str) → user_of_token token ≡ some user_id → user_id ≢ []
unfolding str_eq
user_of_token-ne-nil token user_id h e =
    ground (arith, str_eq_iff token [], str_eq_iff (trim_prefix token user_prefix) [])

-- No request is made by the user with the empty name, for whom a store would list all sessions.
pub user_from_request-ne-nil :
    (r : Request) (user_id : Str) → user_from_request r ≡ some user_id → user_id ≢ []
unfolding user_from_request
user_from_request-ne-nil r user_id h =
    elim (Bool-cases (has_prefix (get authorization r.header) bearer)) [
      | inl token ↦ user_of_token-ne-nil _ user_id (rw (token, user_from_request) at h)
      | inr no_token ↦ absurd (none-ne-some user_id (rw (no_token, user_from_request) at h))
    ]

-- a request for the list of sessions
abbrev pub listing : Header → Option Str → Request
listing header body = record {
  method = method_get;
  path = sessions_path;
  header = header;
  body = body;
}

module _ (has_userinfo : Str → Bool) (format_time : Time → Str) (store : Store) where
  -- The reply for what the store listed: a redacted error, or the listed sessions, which are the
  -- user's, in the order of their names.
  pub IsListing : Str → Result Str (List AgentSession) → Reply → Type 0
  IsListing user_id (err e) reply = reply ≡ http_error 500 (error_text (redact e))
  IsListing user_id (ok ss) reply =
      (shown : List AgentSession) × (reply
        ≡ write_json 200 (items_json (map (λ s. response_from_session format_time s false) shown)))
      × Perm shown ss
      × IsSorted shown
      × AllOwned user_id shown

  list_sessions-IsListing :
      (st : store.State) (user_id : Str)
      → IsLawful store
      → user_id ≢ []
      → ((list_sessions has_userinfo format_time store st user_id).0 ≡ st)
        × IsListing user_id
            (store.list st user_id)
            (list_sessions has_userinfo format_time store st user_id).1
  unfolding list_sessions IsListing
  list_sessions-IsListing st user_id lawful named = elim (Result-cases (store.list st user_id)) [
    | inl (e, failed) ↦ rw (failed, list_sessions) (refl, refl)
    | inr (ss, listed) ↦
        rw (listed, list_sessions)
          (
            refl,
            (
              sort_by_name ss,
              refl,
              sort_by_name-perm ss,
              sort_by_name-IsSorted ss,
              sort_by_name-AllOwned user_id ss (lawful.lists_own st user_id ss named listed),
            ),
          )
  ]

  -- A user who asks for the list of sessions gets exactly the sessions that the store lists for that
  -- user, all of them the user's own, in the order of their names, or the store's error, redacted; and
  -- the store's state stays as it is.
  pub handler-IsListing :
      (server : Server) (st : store.State) (amb : Ambient) (header : Header) (body : Option Str)
      (user_id : Str)
      → IsLawful store
      → user_from_request (listing header body) ≡ some user_id
      → ((handler has_userinfo format_time store server st amb (listing header body)).0 ≡ st)
        × IsListing user_id
            (store.list st user_id)
            (handler has_userinfo format_time store server st amb (listing header body)).1
  unfolding handler sessions sessions_of clean_path str_eq split
  handler-IsListing server st amb header body user_id lawful user =
      rw (user, sessions)
        (list_sessions-IsListing st user_id lawful
          (user_from_request-ne-nil (listing header body) user_id user))
