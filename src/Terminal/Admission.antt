-- ===== src/Terminal/Admission.antt =====
-- Who may attach to a terminal.
use agentsty.Prelude.{
  ℕ, zero, suc, ◌≡◌, refl, sym, ap, subst, ◌≢◌, ◌↔◌, inl, inr, Bool, true, false, not, Option, none,
  some, List, [], ◌∷◌, Str, str_eq, str_eq_iff, Result, ok, err, Bool-cases, if◌then◌else◌, arith,
}
use mathlib.Core.Option.{none-ne-some, some-injective}
use mathlib.Core.Bool.{false≢true}
use agentsty.V1alpha1.{AgentSession, phase_running, phase_expired, phase_terminating, phase_failed}
use agentsty.Terminal.{
  Gateway, ExecRequest, Served, not_upgraded, exec_failed, attached, is_ready, exec_request,
  started, attach, resolved, serve_with, serve, session_stopped, close_when_session_stops,
}

-- running, with a terminal and a pod
pub record IsReady (s : AgentSession) : Type 0 where
  pub running : s.status.phase ≡ phase_running
  pub terminal : s.status.terminal_ready ≡ true
  pub pod : s.status.pod_name ≢ []

is_ready_iff : (s : AgentSession) → (is_ready s ≡ true) ↔ IsReady s
unfolding is_ready
is_ready_iff s =
    ground (arith, str_eq_iff s.status.phase phase_running, str_eq_iff s.status.pod_name [])

-- what Serve has come to when it asks the backend for an exec of the request
unfoldable pub HasAsked : Served → ExecRequest → Type 0
HasAsked (exec_failed request e) r = request ≡ r
HasAsked (attached request) r = request ≡ r
HasAsked _ r = ⊥

-- The session is the user's own and ready, and the request is the one for it.
pub record IsGranted (user_id : Str) (s : AgentSession) (r : ExecRequest) : Type 0 where
  pub owner : s.spec.user_id ≡ user_id
  pub ready : IsReady s
  pub request : exec_request s ≡ r

started-HasAsked_iff :
    (request r : ExecRequest) (answer : Option Str)
    → HasAsked (started request answer) r ↔ (request ≡ r)
unfolding HasAsked
started-HasAsked_iff request r none = (λ h. h, λ h. h)
started-HasAsked_iff request r (some e) = (λ h. h, λ h. h)

attach-HasAsked_iff :
    (start : ExecRequest → Option Str) (upgrades : Bool) (user_id : Str) (s : AgentSession)
    (r : ExecRequest)
    → HasAsked (attach start upgrades user_id s) r ↔ ((upgrades ≡ true) × IsGranted user_id s r)
unfolding attach HasAsked
attach-HasAsked_iff start upgrades user_id s r = elim (Bool-cases (str_eq s.spec.user_id user_id)) [
  | inr foreign ↦ rw foreign (λ h. absurd h, λ (_, g). absurd (differs g.owner foreign))
  | inl own ↦ elim (Bool-cases (is_ready s)) [
    | inr not_ready ↦
        rw (own, not_ready) (λ h. absurd h, λ (_, g). absurd (unready g.ready not_ready))
    | inl ready ↦ rw (own, ready) (by_upgrade upgrades own ready)
  ]
]
  where
    differs : s.spec.user_id ≡ user_id → str_eq s.spec.user_id user_id ≡ false → ⊥
    differs e h = ground (arith, str_eq_iff s.spec.user_id user_id)

    unready : IsReady s → is_ready s ≡ false → ⊥
    unready e h = ground (arith, is_ready_iff s)

    by_upgrade :
        (upgrades : Bool)
        → str_eq s.spec.user_id user_id ≡ true
        → is_ready s ≡ true
        → HasAsked
            (if not upgrades
              then not_upgraded
              else started (exec_request s) (start (exec_request s)))
            r
          ↔ ((upgrades ≡ true) × IsGranted user_id s r)
    by_upgrade false own ready = (λ h. absurd h, λ (e, _). false≢true e)
    by_upgrade true own ready = (
      λ h. (
        refl,
        record {
          owner = (str_eq_iff s.spec.user_id user_id).0 own;
          ready = (is_ready_iff s).0 ready;
          request = (started-HasAsked_iff (exec_request s) r (start (exec_request s))).0 h;
        },
      ),
      λ (_, g). (started-HasAsked_iff (exec_request s) r (start (exec_request s))).1 g.request,
    )

-- The upgrade succeeds, and the answer holds a session for which the request is granted
unfoldable pub IsGrantedOf : Bool → Str → Result Str (Option AgentSession) → ExecRequest → Type 0
IsGrantedOf upgrades user_id answer r =
    (s : AgentSession) × (answer ≡ ok (some s)) × (upgrades ≡ true) × IsGranted user_id s r

session_of : Result Str (Option AgentSession) → Option AgentSession
session_of (ok o) = o
session_of (err e) = none

resolved-HasAsked_iff :
    (start : ExecRequest → Option Str) (upgrades : Bool) (user_id : Str)
    (answer : Result Str (Option AgentSession)) (r : ExecRequest)
    → HasAsked (resolved start upgrades user_id answer) r ↔ IsGrantedOf upgrades user_id answer r
unfolding resolved HasAsked IsGrantedOf session_of
resolved-HasAsked_iff start upgrades user_id (err e) r =
    (λ h. absurd h, λ (s, e, _, _). none-ne-some s (ap session_of e))
resolved-HasAsked_iff start upgrades user_id (ok none) r =
    (λ h. absurd h, λ (s, e, _, _). none-ne-some s (ap session_of e))
resolved-HasAsked_iff start upgrades user_id (ok (some s)) r = (
  λ h. in_session ((attach-HasAsked_iff start upgrades user_id s r).0 h),
  λ (t, e, up, g). (attach-HasAsked_iff start upgrades user_id s r).1 (
      subst (λ x. (upgrades ≡ true) × IsGranted user_id x r)
        (sym (some-injective _ _ (ap session_of e))) (up, g)),
)
  where
    in_session :
        (upgrades ≡ true) × IsGranted user_id s r → IsGrantedOf upgrades user_id (ok (some s)) r
    in_session (up, g) = (s, refl, up, g)

serve_with-HasAsked_iff :
    (resolver : Option (Str → Result Str (Option AgentSession)))
    (backend : Option (ExecRequest → Option Str)) (upgrades : Bool) (user_id session_id : Str)
    (r : ExecRequest)
    → HasAsked (serve_with resolver backend upgrades user_id session_id) r ↔ (
        (resolve : Str → Result Str (Option AgentSession)) × (start : ExecRequest → Option Str)
        × (resolver ≡ some resolve)
        × (backend ≡ some start)
        × IsGrantedOf upgrades user_id (resolve session_id) r)
unfolding serve_with HasAsked
serve_with-HasAsked_iff none backend upgrades user_id session_id r =
    (λ h. absurd h, λ (f, _, e, _, _). none-ne-some f e)
serve_with-HasAsked_iff (some resolve) none upgrades user_id session_id r =
    (λ h. absurd h, λ (_, start, _, e, _). none-ne-some start e)
serve_with-HasAsked_iff (some resolve) (some start) upgrades user_id session_id r = (
  λ h. (
    resolve,
    start,
    refl,
    refl,
    (resolved-HasAsked_iff start upgrades user_id (resolve session_id) r).0 h,
  ),
  λ (f, _, e, _, g).
      (resolved-HasAsked_iff start upgrades user_id (resolve session_id) r).1
        (subst (λ x. IsGrantedOf upgrades user_id (x session_id) r) (sym (some-injective _ _ e)) g),
)

-- Serve asks the backend for an exec exactly if the gateway is configured, the upgrade succeeds,
-- and the resolver finds a session that is the user's own and ready; it asks for that session's
-- pod and container, with the command of its tool.
pub serve-HasAsked_iff :
    (g : Gateway) (upgrades : Bool) (user_id session_id : Str) (r : ExecRequest)
    → HasAsked (serve g upgrades user_id session_id) r ↔ (
        (resolve : Str → Result Str (Option AgentSession)) × (start : ExecRequest → Option Str)
        × (g.resolver ≡ some resolve)
        × (g.backend ≡ some start)
        × IsGrantedOf upgrades user_id (resolve session_id) r)
unfolding serve
serve-HasAsked_iff g upgrades user_id session_id r =
    serve_with-HasAsked_iff g.resolver g.backend upgrades user_id session_id r

-- not deleted, neither expired nor terminating nor failed, and with its terminal ready
pub record IsLive (s : AgentSession) : Type 0 where
  pub kept : s.deletion_timestamp ≡ none
  pub not_expired : s.status.phase ≢ phase_expired
  pub not_terminating : s.status.phase ≢ phase_terminating
  pub not_failed : s.status.phase ≢ phase_failed
  pub terminal : s.status.terminal_ready ≡ true

is_deleted_iff :
    {A : Type 0} (o : Option A) → (elim o [ none ↦ false | some t ↦ true ] ≡ false) ↔ (o ≡ none)
is_deleted_iff none = (λ _. refl, λ _. refl)
is_deleted_iff (some t) = (λ h. absurd (false≢true (sym h)), λ h. absurd (none-ne-some t (sym h)))

session_stopped-IsLive : (s : AgentSession) → (session_stopped (ok (some s)) ≡ false) ↔ IsLive s
unfolding session_stopped
session_stopped-IsLive s = ground (
  arith,
  is_deleted_iff s.deletion_timestamp,
  str_eq_iff s.status.phase phase_expired,
  str_eq_iff s.status.phase phase_terminating,
  str_eq_iff s.status.phase phase_failed,
)

-- the answers that hold a live session
pub IsLiveAnswer : Result Str (Option AgentSession) → Type 0
IsLiveAnswer (err e) = ⊥
IsLiveAnswer (ok none) = ⊥
IsLiveAnswer (ok (some s)) = IsLive s

session_stopped_iff :
    (answer : Result Str (Option AgentSession))
    → (session_stopped answer ≡ false) ↔ IsLiveAnswer answer
unfolding IsLiveAnswer
session_stopped_iff (err e) = unfold session_stopped in (λ h. false≢true (sym h), λ h. absurd h)
session_stopped_iff (ok none) = unfold session_stopped in (λ h. false≢true (sym h), λ h. absurd h)
session_stopped_iff (ok (some s)) = session_stopped-IsLive s

-- the first n answers hold a live session, and the one behind them does not
pub IsFirstStop : ℕ → List (Result Str (Option AgentSession)) → Type 0
IsFirstStop n [] = ⊥
IsFirstStop zero (a ∷ rest) = ¬ IsLiveAnswer a
IsFirstStop (suc n) (a ∷ rest) = IsLiveAnswer a × IsFirstStop n rest

-- closeWhenSessionStops closes the connection at the first tick at which the resolver does not
-- answer with a live session, and at no other: one that is found, not deleted, neither expired nor
-- terminating nor failed, and with its terminal ready.
pub close_when_session_stops_iff :
    (answers : List (Result Str (Option AgentSession))) (n : ℕ)
    → (close_when_session_stops answers ≡ some n) ↔ IsFirstStop n answers
unfolding close_when_session_stops IsFirstStop
close_when_session_stops_iff [] n = (λ h. none-ne-some n h, λ h. absurd h)
close_when_session_stops_iff (a ∷ rest) zero = ground (arith, session_stopped_iff a)
close_when_session_stops_iff (a ∷ rest) (suc n) =
    ground (arith, session_stopped_iff a, close_when_session_stops_iff rest n)
