-- ===== src/Controller/Times.antt =====
-- The times and the finalizers of a session.
use agentsty.Prelude.{
  ◌≡◌, refl, sym, ap, ◌≢◌, inl, inr, false, Option, none, some, List, [], ◌∷◌, Str, str_eq,
  str_eq_iff, ℤ, pos, ltb_ℤ, Bool-cases, if◌then◌else◌, arith,
}
use mathlib.Core.Option.{none-ne-some}
use agentsty.V1alpha1.{AgentSession, AgentSessionStatus, Time}
use agentsty.Controller.{has_finalizer, remove_finalizer, ensure_status_times, or_after, first_time}

or_after_again :
    (o : Option Time) (created : Time) (ttl : ℤ)
    → or_after (or_after o created ttl) created ttl ≡ or_after o created ttl
or_after_again (some t) created ttl = refl
or_after_again none created ttl = elim (Bool-cases (ltb_ℤ (pos 0) ttl)) [
  | inl positive ↦ rw (positive, or_after) refl
  | inr not_positive ↦ rw (not_positive, or_after, not_positive) refl
]

-- A status that ensureStatusTimes has been over keeps its times at every later reconciliation, and
-- its creation time is set.
pub ensure_status_times_again :
    (s : AgentSession) (status : AgentSessionStatus) (now later : Time)
    → (ensure_status_times s (ensure_status_times s status now) later
        ≡ ensure_status_times s status now)
      × ((ensure_status_times s status now).created_at ≢ none)
unfolding ensure_status_times
ensure_status_times_again s status now later = (
  ap (λ o. record status { created_at = some (created); expires_at = o })
      (or_after_again status.expires_at created s.spec.ttl_seconds),
  λ e. none-ne-some created (sym e),
)
  where
    created : Time
    created = first_time status.created_at (first_time s.creation_timestamp now)

-- After removeFinalizer the finalizer is gone, and every other one is there exactly if it was.
pub has_finalizer-remove_finalizer :
    (values : List Str) (f g : Str)
    → has_finalizer (remove_finalizer values f) g
      ≡ (if str_eq f g then false else has_finalizer values g)
unfolding has_finalizer remove_finalizer
has_finalizer-remove_finalizer [] f g = ground arith
has_finalizer-remove_finalizer (value ∷ values) f g = ground (
  arith,
  has_finalizer-remove_finalizer values f g,
  str_eq_iff value f,
  str_eq_iff value g,
  str_eq_iff f g,
)
