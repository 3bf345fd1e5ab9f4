-- ===== src/Terminal/Exec.antt =====
-- internal/terminal/kubernetes.go: the output of an exec, from the goroutine of Start and outputWriter to
-- the stream's channel, which has room for 32 texts, and to who receives from it.
-- The executor of client-go is read through its calls of Write, one after the other since a terminal has
-- one stream of output, and through the return of StreamWithContext. `may_leave` says whether it may
-- return, as when its context is done, while its copying still goes on.
pub mod Output
pub mod Tests
use agentsty.Prelude.{
  ℕ, ◌<◌, ◌≡◌, ◌⊎◌, Bool, true, false, Option, none, some, List, [], ◌∷◌, ◌++◌, Str,
}
use agentsty.Terminal.Streams.{length}

-- the goroutine: StreamWithContext, and its deferred calls
pub data Stage : Type 0 where
  streams : Stage
  closes_done : Stage
  closes_out : Stage
  stage_returned : Stage

-- `written` are the texts that Write was called with, `in_flight` the one whose call has not returned,
-- `out` what waits in the channel.
pub record ExecOutput : Type 0 where
  pub written : List Str
  pub in_flight : Option Str
  pub out : List Str
  pub received : List Str
  pub stage : Stage
  pub done : Bool
  pub out_closed : Bool
  pub panicked : Bool

abbrev pub out_capacity : ℕ
out_capacity = 32

unfoldable pub exec_start : ExecOutput
exec_start = record {
  written = [];
  in_flight = none;
  out = [];
  received = [];
  stage = streams;
  done = false;
  out_closed = false;
  panicked = false;
}

pub data ExecStep (may_leave : Bool) (s : ExecOutput) : ExecOutput → Type 0 where
  call_write :
      (p : Str)
      → (s.stage ≡ streams) ⊎ (may_leave ≡ true)
      → s.in_flight ≡ none
      → ExecStep may_leave s (record s { written = s.written ++ p ∷ []; in_flight = some p })
  send :
      {p : Str}
      → s.in_flight ≡ some p
      → s.out_closed ≡ false
      → length s.out < out_capacity
      → ExecStep may_leave s (record s { in_flight = none; out = s.out ++ p ∷ [] })
  send_on_closed :
      {p : Str}
      → s.in_flight ≡ some p
      → s.out_closed ≡ true
      → ExecStep may_leave s (record s { panicked = true })
  stream_returns :
      s.stage ≡ streams
      → (s.in_flight ≡ none) ⊎ (may_leave ≡ true)
      → ExecStep may_leave s (record s { stage = closes_done })
  close_done :
      s.stage ≡ closes_done → ExecStep may_leave s (record s { stage = closes_out; done = true })
  close_out :
      s.stage ≡ closes_out
      → ExecStep may_leave s (record s { stage = stage_returned; out_closed = true })
  receive :
      {p : Str} {rest : List Str}
      → s.out ≡ p ∷ rest
      → ExecStep may_leave s (record s { out = rest; received = s.received ++ p ∷ [] })

pub data Reach (may_leave : Bool) : ExecOutput → Type 0 where
  start : Reach may_leave exec_start
  later : {s t : ExecOutput} → Reach may_leave s → ExecStep may_leave s t → Reach may_leave t
