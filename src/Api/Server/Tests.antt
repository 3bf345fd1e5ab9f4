-- ===== src/Api/Server/Tests.antt =====
-- Runs of the theorems on the API: the memory store with one session, and requests of its owner.
use agentsty.Prelude.{◌≡◌, refl, false, none, some, [], ◌∷◌, Str, codes, pos}
use agentsty.V1alpha1.{Time}
use agentsty.Http.{Header, Request, authorization, method_get, method_delete}
use agentsty.Api.Store.Memory.{memory_store}
use agentsty.Api.Store.Memory.Tests.{one_session}
use agentsty.Api.Requests.Tests.{no_userinfo, stub_body}
use agentsty.Api.Server.{Server, Ambient, handler}
use agentsty.Api.Server.Ownership.{Change, handler-Change}
use agentsty.Api.Server.Replies.{IsPermitted}
use agentsty.Api.Server.Listing.{listing, IsListing, handler-IsListing}
use agentsty.Api.Requests.{user_from_request}
use agentsty.Api.Store.Memory.Laws.{memory_store-IsLawful}
use agentsty.Api.Server.Visibility.{handler-IsPermitted}

abbrev pub no_format : Time → Str
no_format t = []

abbrev pub server : Server
server = record { has_terminal = false; namespace = [] }

abbrev pub ambient : Ambient
ambient = record { now = pos 9; random = some (7 ∷ []); nanos = pos 9; json = some stub_body }

abbrev request : Str → Request
request method = record {
  method = method;
  path = codes "/api/v1/sessions/sess-1";
  header = (authorization, codes "Bearer dev" ∷ []) ∷ [];
  body = none;
}

pub state : memory_store.State
unfolding memory_store
state = one_session

handler-Change_example :
    Change no_userinfo memory_store server ambient state
      (request method_delete)
      (handler no_userinfo no_format memory_store server state ambient (request method_delete)).0
handler-Change_example =
    handler-Change no_userinfo no_format memory_store server ambient state (request method_delete)

handler-IsPermitted_example :
    IsPermitted no_format memory_store state
      (request method_get)
      (handler no_userinfo no_format memory_store server state ambient (request method_get)).1
handler-IsPermitted_example =
    handler-IsPermitted no_userinfo no_format memory_store server ambient state (request method_get)

abbrev dev_header : Header
dev_header = (authorization, codes "Bearer dev" ∷ []) ∷ []

asked_by_dev_user : user_from_request (listing dev_header none) ≡ some (codes "dev-user")
unfolding user_from_request agentsty.Http.get agentsty.Http.values agentsty.Prelude.lookup
    agentsty.Prelude.has_prefix agentsty.Prelude.trim_prefix agentsty.Prelude.trim_space
    agentsty.Prelude.str_eq
asked_by_dev_user = refl

handler-IsListing_example :
    ((handler no_userinfo no_format memory_store server state ambient (listing dev_header none)).0
      ≡ state)
    × IsListing no_userinfo no_format memory_store
        (codes "dev-user")
        (memory_store.list state (codes "dev-user"))
        (handler no_userinfo no_format memory_store server state ambient
          (listing dev_header none)).1
handler-IsListing_example =
    handler-IsListing no_userinfo no_format memory_store server state ambient dev_header none
      (codes "dev-user") memory_store-IsLawful asked_by_dev_user
