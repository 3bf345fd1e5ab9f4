-- ===== src/Api/Requests/Tests.antt =====
-- Runs of the theorem on bodies.
use agentsty.Prelude.{◌≡◌, ◌↔◌, Bool, false, none, [], ◌∷◌, Str, codes, Dict}
use agentsty.Api.Requests.{Json, text, reject_forbidden}
use agentsty.Api.Requests.Safety.{IsSafeBody, reject_forbidden-eq-none_iff}

abbrev pub no_userinfo : Str → Bool
no_userinfo s = false

abbrev pub stub_body : Dict Json
stub_body =
    (codes "tool", text (codes "stub"))
    ∷ (codes "repoUrl", text (codes "https://example.invalid"))
    ∷ []

reject_forbidden-eq-none_example :
    (reject_forbidden no_userinfo stub_body ≡ none) ↔ IsSafeBody no_userinfo stub_body
reject_forbidden-eq-none_example = reject_forbidden-eq-none_iff no_userinfo stub_body
