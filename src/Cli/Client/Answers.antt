-- ===== src/Cli/Client/Answers.antt =====
-- What the client sends, and when a call has no error.
use agentsty.Prelude.{
  ℕ, Bool, true, false, Option, none, some, List, [], ◌∷◌, ◌++◌, Str, codes, subst, if◌then◌else◌,
  leb, Result, ok, err, ◌≡◌, refl, ◌↔◌, ◌<◌, arith, sym, Result-cases, Option-cases, Bool-cases,
  inl, inr,
}
use mathlib.Core.Option.{none-ne-some}
use agentsty.Http.{set, values, bearer, authorization}
use agentsty.Cli.Config.{Config}
use agentsty.Cli.Client.{
  Outgoing, Answer, Called, outgoing, base_url, content_type, do_request, answered, answered_body,
  requested, decoded_as, decoded_unless,
}

-- Requests of the method for the path, with the configured token, go to the configured server.
pub data IsSent (cfg : Config) (method path : Str) : Option Outgoing → Type 0 where
  nothing : IsSent cfg method path none
  request :
      {req : Outgoing}
      → req.method ≡ method
      → req.url ≡ base_url cfg ++ path
      → values authorization req.header ≡ (bearer ++ cfg.token) ∷ []
      → IsSent cfg method path (some req)

content_type-authorization :
    (cfg : Config) (payload : Option Str)
    → values authorization (content_type payload (set authorization (bearer ++ cfg.token) []))
      ≡ (bearer ++ cfg.token) ∷ []
unfolding values set agentsty.Prelude.lookup agentsty.Prelude.insert
content_type-authorization cfg none = refl
content_type-authorization cfg (some p) = refl

pub outgoing-authorization :
    (cfg : Config) (method path : Str) (payload : Option Str)
    → values authorization (outgoing cfg method path payload).header ≡ (bearer ++ cfg.token) ∷ []
unfolding outgoing
outgoing-authorization cfg method path payload = content_type-authorization cfg payload

outgoing-IsSent :
    (cfg : Config) (method path : Str) (payload : Option Str)
    → IsSent cfg method path (some (outgoing cfg method path payload))
unfolding outgoing
outgoing-IsSent cfg method path payload = request refl refl (content_type-authorization cfg payload)

body_sent : (req : Outgoing) (n : ℕ) (r : Result Str Str) → (answered_body req n r).sent ≡ some req
body_sent req n (err e) = refl
body_sent req n (ok text) = elim (Bool-cases (leb 300 n)) [ inl e ↦ rw e | inr e ↦ rw e ]

answered_sent : (req : Outgoing) (r : Result Str Answer) → (answered req r).sent ≡ some req
answered_sent req (err e) = refl
answered_sent req (ok a) = body_sent req a.status a.body

requested-IsSent :
    (cfg : Config) (method path : Str) (req : Outgoing) (e : Option Str) (r : Result Str Answer)
    → IsSent cfg method path (some req)
    → IsSent cfg method path (requested req e r).sent
requested-IsSent cfg method path req (some e) r sent = nothing
requested-IsSent cfg method path req none r sent =
    subst (IsSent cfg method path) (sym (answered_sent req r)) sent

decoded_as_sent :
    {A : Type 0} (z : A) (c : Called Str) (r : Result Str A) → (decoded_as z c r).sent ≡ c.sent
decoded_as_sent z c (err e) = refl
decoded_as_sent z c (ok a) = refl

-- Decoding sends nothing.
pub decoded_sent :
    {A : Type 0} (z : A) (decode : Str → Result Str A) (c : Called Str) (e : Option Str)
    → (decoded_unless z decode c e).sent ≡ c.sent
decoded_sent z decode c (some e) = refl
decoded_sent z decode c none = decoded_as_sent z c (decode c.body)

-- A body that was read of an answer below 300.
pub data IsTaken : Result Str Answer → Str → Type 0 where
  taken : {a : Answer} {text : Str} → a.status < 300 → a.body ≡ ok text → IsTaken (ok a) text

body_ok :
    (req : Outgoing) (n : ℕ) (r : Result Str Str)
    → (answered_body req n r).error ≡ none
    → (n < 300) × (r ≡ ok (answered_body req n r).body)
body_ok req n (err e) h = absurd (none-ne-some _ (sym h))
body_ok req n (ok text) h = elim (Bool-cases (leb 300 n)) [
  | inl e ↦ absurd (none-ne-some _ (sym (rw e at h)))
  | inr e ↦ rw e (ground arith, refl)
]

requested_ok :
    (req : Outgoing) (e : Option Str) (r : Result Str Answer)
    → (requested req e r).error ≡ none
    → (e ≡ none) × IsTaken r (requested req e r).body
requested_ok req (some e) r h = absurd (none-ne-some _ (sym h))
requested_ok req none (err e) h = absurd (none-ne-some _ (sym h))
requested_ok req none (ok a) h =
    let (low, read) = body_ok req a.status a.body h in (refl, taken low read)

body_taken :
    (req : Outgoing) (n : ℕ) (r : Result Str Str) (text : Str)
    → n < 300
    → r ≡ ok text
    → (answered_body req n r).error ≡ none
body_taken req n r text low read =
    rw read (elim (Bool-cases (leb 300 n)) [ inl e ↦ ground arith | inr e ↦ rw e refl ])

taken_ok :
    (req : Outgoing) (e : Option Str) (r : Result Str Answer) {body : Str}
    → e ≡ none
    → IsTaken r body
    → (requested req e r).error ≡ none
taken_ok req (some e) r h t = absurd (none-ne-some _ (sym h))
taken_ok req none r h (taken {a} {text} low read) = body_taken req a.status a.body text low read

module _ (request_error : Outgoing → Option Str) (exchange : Outgoing → Result Str Answer)
    (cfg : Config) (method path : Str) (payload : Option Str) where
  -- What `do` sends goes to the configured server with the configured token, if it sends anything.
  pub do_request-IsSent :
      IsSent cfg method path (do_request request_error exchange cfg method path payload).sent
  unfolding do_request
  do_request-IsSent =
      let req = outgoing cfg method path payload in
      requested-IsSent cfg method path req (request_error req) (exchange req)
        (outgoing-IsSent cfg method path payload)

  -- A call has no error exactly when http.NewRequest takes the request, the exchange has an answer with
  -- a status below 300, and the body of the answer can be read, which is then the body returned.
  pub do_request-ok_iff :
      ((do_request request_error exchange cfg method path payload).error ≡ none) ↔ (
        (request_error (outgoing cfg method path payload) ≡ none)
        × IsTaken
            (exchange (outgoing cfg method path payload))
            (do_request request_error exchange cfg method path payload).body)
  unfolding do_request
  do_request-ok_iff =
      let req = outgoing cfg method path payload in
      (
        requested_ok req (request_error req) (exchange req),
        λ (fine, t). taken_ok req (request_error req) (exchange req) fine t,
      )
