-- ===== src/Api/Server/Routes.antt =====
-- A rule for the routing: what holds of each route holds of the handler.
use agentsty.Prelude.{
  ◌≡◌, inl, inr, Bool, not, ◌&&◌, Str, codes, str_eq, str_eq_iff, has_prefix, Bool-cases,
}
use agentsty.V1alpha1.{Time}
use agentsty.Http.{Request}
use agentsty.Api.Store.{Store}
use agentsty.Api.Server.{
  Server, Ambient, redirect, Handled, clean_path, sessions_path, sessions_prefix, not_found,
  healthz, readyz, sessions, session_by_id, handler,
}

module _ {ℓ} (has_userinfo : Str → Bool) (format_time : Time → Str) (store : Store)
    (server : Server) (amb : Ambient) (st : store.State) (r : Request)
    (P : Handled has_userinfo format_time store → Type ℓ) where
  pub handler_rule :
      P (st, redirect (clean_path r.path))
      → P (healthz has_userinfo format_time store st)
      → P (readyz has_userinfo format_time store st)
      → (r.path ≡ sessions_path → P (sessions has_userinfo format_time store server st amb r))
      → P (session_by_id has_userinfo format_time store server st r)
      → P (not_found has_userinfo format_time store st)
      → P (handler has_userinfo format_time store server st amb r)
  unfolding handler
  handler_rule moved health ready all one missing =
      elim (Bool-cases
        (not (str_eq r.method (codes "CONNECT")) && not (str_eq (clean_path r.path) r.path))) [
          | inl e₀ ↦ rw (e₀, handler) moved
          | inr e₀ ↦ elim (Bool-cases (str_eq r.path (codes "/healthz"))) [
            | inl e₁ ↦ rw (e₀, e₁, handler) health
            | inr e₁ ↦ elim (Bool-cases (str_eq r.path (codes "/readyz"))) [
              | inl e₂ ↦ rw (e₀, e₁, e₂, handler) ready
              | inr e₂ ↦ elim (Bool-cases (str_eq r.path sessions_path)) [
                | inl e₃ ↦ rw (e₀, e₁, e₂, e₃, handler) (all ((str_eq_iff _ _).0 e₃))
                | inr e₃ ↦ elim (Bool-cases (has_prefix r.path sessions_prefix)) [
                  | inl e₄ ↦ rw (e₀, e₁, e₂, e₃, e₄, handler) one
                  | inr e₄ ↦ rw (e₀, e₁, e₂, e₃, e₄, handler) missing
                ]
              ]
            ]
          ]
        ]
