-- ===== src/Kube/Listing.antt =====
-- What the session client lists, and the contract of a store that it keeps.
use agentsty.Prelude.{
  ◌≡◌, refl, sym, ap, ◌≢◌, ◌∙◌, Option, none, some, List, [], ◌∷◌, Str, Result, ok, err, subst,
  ok-injective, arith,
}
use agentsty.V1alpha1.{AgentSession, Time}
use agentsty.Api.Store.{IsLawful, AllOwned, keep_owned, keep_owned-AllOwned}
use agentsty.Kube.{Fields, Unstructured, from_unstructured}
use agentsty.Kube.Client.{Dynamic, read_then, sessions_of, listed, list, session_client}

module _ (format_time : Time → Str) (parse_time : Str → Option Time) (u : Unstructured)
    (dyn : Dynamic) where
  abbrev pub cons_result :
      AgentSession → Result Str (List AgentSession) → Result Str (List AgentSession)
  cons_result s (err e) = err e
  cons_result s (ok ss) = ok (s ∷ ss)

  abbrev pub both :
      Result Str AgentSession → Result Str (List AgentSession) → Result Str (List AgentSession)
  both (err e) rest = err e
  both (ok s) rest = cons_result s rest

  -- all the objects as sessions, or the error of the first that is none
  pub read_all : List Fields → Result Str (List AgentSession)
  read_all [] = ok []
  read_all (o ∷ os) = both (from_unstructured format_time parse_time u (some o)) (read_all os)

  abbrev pub owned : Str → Result Str (List AgentSession) → Result Str (List AgentSession)
  owned user_id (err e) = err e
  owned user_id (ok ss) = ok (keep_owned user_id ss)

  read_then-owned :
      (user_id : Str) (one : Result Str AgentSession) (rest : Result Str (List AgentSession))
      → read_then format_time parse_time u dyn user_id one (owned user_id rest)
        ≡ owned user_id (both one rest)
  read_then-owned user_id (err e) rest = refl
  read_then-owned user_id (ok s) (err e) = refl
  read_then-owned user_id (ok s) (ok ss) = ground arith

  -- The loop of List gives what reading every object, and then keeping the user's sessions, gives: the
  -- error of the first object that cannot be read, also if that object is another user's, or else the
  -- user's sessions in the order of the objects.
  pub sessions_of-eq-owned :
      (user_id : Str) (os : List Fields)
      → sessions_of format_time parse_time u dyn user_id os ≡ owned user_id (read_all os)
  unfolding sessions_of read_all
  sessions_of-eq-owned user_id [] = refl
  sessions_of-eq-owned user_id (o ∷ os) =
      ap
        (read_then format_time parse_time u dyn user_id
          (from_unstructured format_time parse_time u (some o)))
        (sessions_of-eq-owned user_id os)
      ∙ read_then-owned user_id (from_unstructured format_time parse_time u (some o)) (read_all os)

  owned-AllOwned :
      (user_id : Str) (all : Result Str (List AgentSession)) (ss : List AgentSession)
      → user_id ≢ []
      → owned user_id all ≡ ok ss
      → AllOwned user_id ss
  owned-AllOwned user_id (err e) ss named h = cc
  owned-AllOwned user_id (ok all) ss named h =
      subst (AllOwned user_id) (ok-injective h) (keep_owned-AllOwned user_id all named)

  listed-AllOwned :
      (user_id : Str) (answer : Result Str (List Fields)) (ss : List AgentSession)
      → user_id ≢ []
      → listed format_time parse_time u dyn user_id answer ≡ ok ss
      → AllOwned user_id ss
  listed-AllOwned user_id (err e) ss named h = cc
  listed-AllOwned user_id (ok os) ss named h =
      owned-AllOwned user_id (read_all os) ss named (sym (sessions_of-eq-owned user_id os) ∙ h)

  -- The session client keeps the contract of a store.
  pub session_client-IsLawful : IsLawful (session_client format_time parse_time u dyn)
  unfolding session_client list
  session_client-IsLawful = record {
    lists_own = λ st user_id ss named h. listed-AllOwned user_id (dyn.list st none) ss named h;
  }
