-- ===== src/ModelProxy/Token/Tests.antt =====
-- Runs of the theorems on tokens, with a concrete function in place of the HMAC.
use agentsty.Prelude.{
  ◌≡◌, ◌↔◌, ℕ, true, some, List, ◌∷◌, ◌++◌, ◌*◌, Str, codes, pos, FitsInt64, ◌<ℤ◌, Lacks,
  format_int, scale, arith,
}
use agentsty.V1alpha1.{Time, second}
use agentsty.ModelProxy.Token.{
  TokenManager, signature, unix, from_unix, generate_until, validate_with_expiry,
}
use agentsty.ModelProxy.Token.RoundTrip.{validate_with_expiry-generate_until}
use agentsty.ModelProxy.Token.Acceptance.{IsSignedUntil, validate_with_expiry-ok_iff}
use agentsty.ModelProxy.Token.Binding.{validate_with_expiry_binds}

-- the secret behind the payload
abbrev pub toy_hmac : Str → Str → List ℕ
toy_hmac secret payload = payload ++ secret

abbrev pub toy_manager : TokenManager
toy_manager = record { secret = codes "test-secret"; ttl = pos 0 }

abbrev pub expiry : Time
expiry = pos (100 * second)

abbrev pub now : Time
now = pos 7

pub sess_Lacks : Lacks b'.' (codes "sess-1")
sess_Lacks = ground arith

pub expiry_fits : FitsInt64 (unix expiry)
unfolding unix
expiry_fits = (omega arith, omega arith)

pub expiry_live : now <ℤ from_unix (unix expiry)
unfolding unix scale
expiry_live = omega arith

validate_with_expiry-generate_until_example :
    validate_with_expiry toy_hmac toy_manager now
      (generate_until toy_hmac toy_manager (codes "sess-1") expiry)
    ≡ (codes "sess-1", some (from_unix (unix expiry)), true)
validate_with_expiry-generate_until_example =
    validate_with_expiry-generate_until toy_hmac toy_manager now expiry (codes "sess-1") sess_Lacks
      expiry_fits expiry_live

validate_with_expiry-ok_example :
    (validate_with_expiry toy_hmac toy_manager now
        (generate_until toy_hmac toy_manager (codes "sess-1") expiry)
      ≡ (codes "sess-1", some (from_unix (unix expiry)), true))
    ↔ IsSignedUntil toy_hmac toy_manager now
        (generate_until toy_hmac toy_manager (codes "sess-1") expiry)
        (codes "sess-1")
        (from_unix (unix expiry))
validate_with_expiry-ok_example =
    validate_with_expiry-ok_iff toy_hmac toy_manager now
      (generate_until toy_hmac toy_manager (codes "sess-1") expiry) (codes "sess-1")
      (from_unix (unix expiry))

pub accepted_toy :
    validate_with_expiry toy_hmac toy_manager now
      (generate_until toy_hmac toy_manager (codes "sess-1") expiry)
    ≡ (codes "sess-1", some (from_unix (unix expiry)), true)
accepted_toy =
    validate_with_expiry-generate_until toy_hmac toy_manager now expiry (codes "sess-1") sess_Lacks
      expiry_fits expiry_live

validate_with_expiry_binds_example :
    (codes "sess-1" ≡ codes "sess-1")
    × (from_unix (unix expiry) ≡ from_unix (unix expiry))
    × (signature toy_hmac toy_manager (codes "sess-1" ++ b'.' ∷ format_int (unix expiry))
        ≡ signature toy_hmac toy_manager (codes "sess-1" ++ b'.' ∷ format_int (unix expiry)))
validate_with_expiry_binds_example =
    validate_with_expiry_binds toy_hmac toy_manager toy_manager now expiry (from_unix (unix expiry))
      (codes "sess-1") (codes "sess-1") sess_Lacks expiry_fits accepted_toy
