-- ===== src/ModelProxy/Proxy/Tests.antt =====
-- Runs of the theorems on the proxy: a client with a token for a running session, and an upstream
-- that answers with a cookie.
use agentsty.Prelude.{
  ◌≡◌, refl, ◌↔◌, Bool, true, Option, none, some, [], ◌∷◌, ◌++◌, Str, codes, equal_fold, str_eq,
  lookup,
}
use agentsty.Http.{Request, Response, bearer, authorization, method_post, values, set, get}
use agentsty.ModelProxy.Token.{generate_until, from_unix, unix}
use agentsty.ModelProxy.Token.Tests.{toy_hmac, toy_manager, expiry, now, accepted_toy}
use agentsty.ModelProxy.Token.Acceptance.{validate_with_expiry-ok_iff}
use agentsty.ModelProxy.Proxy.{
  Proxy, UpstreamRequest, authenticate, upstream_header, send, forward, handler,
}
use agentsty.ModelProxy.Proxy.Authentication.{IsAdmitted, IsAuthenticated, authenticate-ok_iff}
use agentsty.ModelProxy.Proxy.Copying.{is_withheld}
use agentsty.ModelProxy.Proxy.Forwarding.{
  IsForwarded, IsAnswer, handler-IsForwarded, handler_withholds, handler-IsAnswer,
}

abbrev toy_proxy : Proxy
toy_proxy = record {
  tokens = toy_manager;
  sessions = none;
  upstream_url = codes "https://upstream.invalid/v1";
  upstream_key = codes "key";
}

abbrev client_request : Request
client_request = record {
  method = method_post;
  path = codes "/internal/model-proxy/v1/chat";
  header =
      (authorization, (bearer ++ generate_until toy_hmac toy_manager (codes "sess-1") expiry) ∷ [])
      ∷ (codes "Accept", codes "*/*" ∷ [])
      ∷ [];
  body = some (codes "{}");
}

abbrev pub accepts_all : Str → Str → Bool
accepts_all method url = true

abbrev pub answer : Response Str
answer = record {
  status = 200;
  header = (codes "set-cookie", codes "c=1" ∷ []) ∷ (codes "X-Id", codes "7" ∷ []) ∷ [];
  body = codes "done";
}

abbrev pub toy_upstream : UpstreamRequest → Option (Response Str)
toy_upstream u = some answer

abbrev forwarded : UpstreamRequest
forwarded = record {
  method = method_post;
  url = codes "https://upstream.invalid/v1";
  header = upstream_header toy_proxy client_request.header;
  body = codes "{}";
}

authenticate-ok_example :
    (authenticate toy_hmac toy_proxy now now client_request ≡ some (codes "sess-1"))
    ↔ IsAuthenticated toy_hmac toy_proxy now now client_request (codes "sess-1")
authenticate-ok_example =
    authenticate-ok_iff toy_hmac toy_proxy now now client_request (codes "sess-1")

authenticated : authenticate toy_hmac toy_proxy now now client_request ≡ some (codes "sess-1")
unfolding get values lookup str_eq IsAdmitted
authenticated =
    (authenticate-ok_iff toy_hmac toy_proxy now now client_request (codes "sess-1")).1 (record {
      token = generate_until toy_hmac toy_manager (codes "sess-1") expiry;
      until = from_unix (unix expiry);
      carried = refl;
      signed =
          (validate_with_expiry-ok_iff toy_hmac toy_manager now
              (generate_until toy_hmac toy_manager (codes "sess-1") expiry) (codes "sess-1")
              (from_unix (unix expiry))).0
            accepted_toy;
      admitted = tt;
    })

sent :
    (handler toy_hmac accepts_all toy_upstream toy_proxy now now client_request).sent
    ≡ some forwarded
unfolding forward send str_eq handler set
sent = rw (authenticated, handler) refl

handler-IsForwarded_example :
    IsForwarded toy_hmac accepts_all toy_upstream toy_proxy now now client_request forwarded
handler-IsForwarded_example =
    handler-IsForwarded toy_hmac accepts_all toy_upstream toy_proxy now now client_request forwarded
      sent

cookie_withheld : is_withheld (codes "SET-cookie") ≡ true
unfolding equal_fold str_eq
cookie_withheld = refl

handler_withholds_example :
    values
      (codes "SET-cookie")
      (handler toy_hmac accepts_all toy_upstream toy_proxy now now client_request).response.header
    ≡ []
handler_withholds_example =
    handler_withholds toy_hmac accepts_all toy_upstream toy_proxy now now client_request
      (codes "SET-cookie") cookie_withheld

handler-IsAnswer_example :
    IsAnswer toy_hmac accepts_all toy_upstream toy_proxy now now client_request
      (toy_upstream forwarded)
      (handler toy_hmac accepts_all toy_upstream toy_proxy now now client_request).response
handler-IsAnswer_example =
    handler-IsAnswer toy_hmac accepts_all toy_upstream toy_proxy now now client_request forwarded
      sent
