-- ===== src/Http.antt =====
-- What the handlers use of net/http: headers, requests and responses.
-- A header is a map from canonical keys to lists of values, as the server and the client of
-- net/http make it; the handlers name keys in canonical form.
pub mod Laws
use agentsty.Prelude.{
  ℕ, Option, none, some, List, [], ◌∷◌, ◌++◌, Str, codes, Dict, lookup, insert, erase,
}

abbrev pub Header : Type 0
Header = Dict (List Str)

abbrev pub values_or_nil : Option (List Str) → List Str
values_or_nil none = []
values_or_nil (some vs) = vs

abbrev pub first_value : List Str → Str
first_value [] = []
first_value (v ∷ vs) = v

unfoldable pub values : Str → Header → List Str
values k h = values_or_nil (lookup k h)

-- Header.Get: the first value of a key, or the empty text
unfoldable pub get : Str → Header → Str
unfolding values
get k h = first_value (values k h)

-- Header.Set, Header.Add, Header.Del
unfoldable pub set : Str → Str → Header → Header
set k v h = insert k (v ∷ []) h

unfoldable pub add : Str → Str → Header → Header
unfolding values
add k v h = insert k (values k h ++ v ∷ []) h

unfoldable pub del : Str → Header → Header
del k h = erase k h

-- `none` for a body that cannot be read
pub record Request : Type 0 where
  pub method : Str
  pub path : Str
  pub header : Header
  pub body : Option Str

pub record Response (B : Type 0) : Type 0 where
  pub status : ℕ
  pub header : Header
  pub body : B

abbrev pub method_get : Str
method_get = codes "GET"

abbrev pub method_post : Str
method_post = codes "POST"

abbrev pub method_delete : Str
method_delete = codes "DELETE"

abbrev pub bearer : Str
bearer = codes "Bearer "

abbrev pub authorization : Str
authorization = codes "Authorization"

-- the header of http.Error
abbrev pub error_header : Header
error_header =
    (codes "Content-Type", codes "text/plain; charset=utf-8" ∷ [])
    ∷ (codes "X-Content-Type-Options", codes "nosniff" ∷ [])
    ∷ []

abbrev pub json_header : Header
json_header = (codes "Content-Type", codes "application/json" ∷ []) ∷ []
