-- ===== src/Terminal/Exec/Output.antt =====
-- What comes out of an exec, in any order of the steps.
use agentsty.Prelude.{
  ◌≤◌, ◌≡◌, refl, sym, ap, ◌∙◌, ◌⊎◌, inl, inr, Bool, true, false, Option, none, some, List, [], ◌∷◌,
  ◌++◌, append_assoc, append-nil, Str, arith, subst,
}
use mathlib.Core.Bool.{false≢true}
use mathlib.Core.Option.{none-ne-some}
use agentsty.Terminal.Streams.{length, length-snoc}
use agentsty.Terminal.Exec.{
  Stage, streams, closes_done, closes_out, stage_returned, ExecOutput, out_capacity, exec_start,
  ExecStep, call_write, send, send_on_closed, stream_returns, close_done, close_out, receive, Reach,
  start, later,
}

abbrev pub held : Option Str → List Str
held none = []
held (some p) = p ∷ []

-- the channel is open while the executor streams, and no Write is under way behind it
Settled : Stage → Option Str → Bool → Type 0
Settled streams in_flight out_closed = out_closed ≡ false
Settled _ in_flight out_closed = in_flight ≡ none

IsQuiet : Bool → ExecOutput → Type 0
IsQuiet true s = Unit
IsQuiet false s = (s.panicked ≡ false) × Settled s.stage s.in_flight s.out_closed

pub record IsOutput (may_leave : Bool) (s : ExecOutput) : Type 0 where
  pub in_order : s.received ++ (s.out ++ held s.in_flight) ≡ s.written
  pub room : length s.out ≤ out_capacity
  pub no_panic : (s.panicked ≡ false) ⊎ (may_leave ≡ true)

record IsKept (may_leave : Bool) (s : ExecOutput) : Type 0 where
  in_order : s.received ++ (s.out ++ held s.in_flight) ≡ s.written
  room : length s.out ≤ out_capacity
  quiet : IsQuiet may_leave s

-- what is received, what waits, and what is in flight, when the last is known
at_flight :
    (s : ExecOutput) {o : Option Str}
    → s.in_flight ≡ o
    → s.received ++ (s.out ++ held s.in_flight) ≡ s.written
    → s.received ++ (s.out ++ held o) ≡ s.written
at_flight s e h = subst (λ o. s.received ++ (s.out ++ held o) ≡ s.written) e h

ExecStep-in_order :
    {may_leave : Bool} {s t : ExecOutput}
    → ExecStep may_leave s t
    → s.received ++ (s.out ++ held s.in_flight) ≡ s.written
    → t.received ++ (t.out ++ held t.in_flight) ≡ t.written
ExecStep-in_order {may_leave} {s} (call_write p c e) h =
    sym (append_assoc s.received s.out (p ∷ []))
    ∙ ap (λ l. l ++ p ∷ []) (ap (λ l. s.received ++ l) (sym (append-nil s.out)) ∙ at_flight s e h)
ExecStep-in_order {may_leave} {s} (send {p} e o r) h =
    ap (λ l. s.received ++ l) (append-nil (s.out ++ p ∷ [])) ∙ at_flight s e h
ExecStep-in_order (send_on_closed e c) h = h
ExecStep-in_order (stream_returns e l) h = h
ExecStep-in_order (close_done e) h = h
ExecStep-in_order (close_out e) h = h
ExecStep-in_order {may_leave} {s} (receive {p} {rest} e) h =
    append_assoc s.received (p ∷ []) (rest ++ held s.in_flight)
    ∙ subst (λ l. s.received ++ (l ++ held s.in_flight) ≡ s.written) e h

ExecStep-room :
    {may_leave : Bool} {s t : ExecOutput}
    → ExecStep may_leave s t
    → length s.out ≤ out_capacity
    → length t.out ≤ out_capacity
ExecStep-room (call_write p c e) h = h
ExecStep-room {may_leave} {s} (send {p} e o r) h = omega (arith, length-snoc s.out p)
ExecStep-room (send_on_closed e c) h = h
ExecStep-room (stream_returns e l) h = h
ExecStep-room (close_done e) h = h
ExecStep-room (close_out e) h = h
ExecStep-room {may_leave} {s} (receive {p} {rest} e) h = omega (arith, ap length e)

at_stage :
    (s : ExecOutput) {g : Stage}
    → s.stage ≡ g
    → Settled s.stage s.in_flight s.out_closed
    → Settled g s.in_flight s.out_closed
at_stage s e h = subst (λ g. Settled g s.in_flight s.out_closed) e h

-- A Write that returns leaves nothing under way.
Settled-sent : (g : Stage) (o : Option Str) (c : Bool) → Settled g o c → Settled g none c
unfolding Settled
Settled-sent streams o c h = h
Settled-sent closes_done o c h = refl
Settled-sent closes_out o c h = refl
Settled-sent stage_returned o c h = refl

Settled-closed : (g : Stage) (p : Str) (c : Bool) → c ≡ true → Settled g (some p) c → ⊥
unfolding Settled
Settled-closed streams p c e h = false≢true (sym h ∙ e)
Settled-closed closes_done p c e h = none-ne-some p (sym h)
Settled-closed closes_out p c e h = none-ne-some p (sym h)
Settled-closed stage_returned p c e h = none-ne-some p (sym h)

ExecStep-Quiet : {s t : ExecOutput} → ExecStep false s t → IsQuiet false s → IsQuiet false t
unfolding IsQuiet Settled
ExecStep-Quiet {s} (call_write p (inl e) none_yet) (calm, h) =
    (calm, subst (λ g. Settled g (some p) s.out_closed) (sym e) (at_stage s e h))
ExecStep-Quiet {s} (call_write p (inr leaves) none_yet) (calm, h) = absurd (false≢true leaves)
ExecStep-Quiet {s} (send e o r) (calm, h) = (calm, Settled-sent s.stage s.in_flight s.out_closed h)
ExecStep-Quiet {s} (send_on_closed {p} e c) (calm, h) =
    absurd
      (Settled-closed s.stage p s.out_closed c (subst (λ o. Settled s.stage o s.out_closed) e h))
ExecStep-Quiet {s} (stream_returns e (inl idle)) (calm, h) = (calm, idle)
ExecStep-Quiet {s} (stream_returns e (inr leaves)) (calm, h) = absurd (false≢true leaves)
ExecStep-Quiet {s} (close_done e) (calm, h) = (calm, at_stage s e h)
ExecStep-Quiet {s} (close_out e) (calm, h) = (calm, at_stage s e h)
ExecStep-Quiet {s} (receive e) (calm, h) = (calm, h)

ExecStep-IsQuiet :
    (may_leave : Bool) {s t : ExecOutput}
    → ExecStep may_leave s t
    → IsQuiet may_leave s
    → IsQuiet may_leave t
ExecStep-IsQuiet true st h = unfold IsQuiet in tt
ExecStep-IsQuiet false st h = ExecStep-Quiet st h

exec_start-IsKept : (may_leave : Bool) → IsKept may_leave exec_start
unfolding exec_start IsQuiet Settled
exec_start-IsKept true = record { in_order = refl; room = omega arith; quiet = tt }
exec_start-IsKept false = record { in_order = refl; room = omega arith; quiet = (refl, refl) }

Reach-IsKept : {may_leave : Bool} {s : ExecOutput} → Reach may_leave s → IsKept may_leave s
Reach-IsKept {may_leave} start = exec_start-IsKept may_leave
Reach-IsKept {may_leave} (later r st) =
    let k = Reach-IsKept r in
    record {
      in_order = ExecStep-in_order st k.in_order;
      room = ExecStep-room st k.room;
      quiet = ExecStep-IsQuiet may_leave st k.quiet;
    }

IsQuiet-no_panic :
    (may_leave : Bool) (s : ExecOutput)
    → IsQuiet may_leave s
    → (s.panicked ≡ false) ⊎ (may_leave ≡ true)
unfolding IsQuiet
IsQuiet-no_panic true s h = inr refl
IsQuiet-no_panic false s (calm, h) = inl calm

-- However the executor, the goroutine and the receiver take turns: the texts received, those that wait
-- and the one in flight are those that were written, in order; at most 32 wait; and no Write meets the
-- closed channel, which would panic, unless the executor may return while its copying goes on.
pub Reach-IsOutput : {may_leave : Bool} {s : ExecOutput} → Reach may_leave s → IsOutput may_leave s
Reach-IsOutput {may_leave} {s} r =
    let k = Reach-IsKept r in
    record { in_order = k.in_order; room = k.room; no_panic = IsQuiet-no_panic may_leave s k.quiet }
