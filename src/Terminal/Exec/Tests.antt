-- ===== src/Terminal/Exec/Tests.antt =====
-- Runs of an exec's output.
use agentsty.Prelude.{◌≡◌, refl, inl, inr, true, false, [], ◌∷◌, codes, arith}
use agentsty.Terminal.Exec.{
  ExecOutput, exec_start, stage_returned, call_write, send, send_on_closed, stream_returns,
  close_done, close_out, receive, Reach, start, later,
}
use agentsty.Terminal.Exec.Output.{IsOutput, Reach-IsOutput}

-- a text is written and received, and the exec ends
abbrev ended : ExecOutput
ended = record exec_start {
  written = codes "hi" ∷ [];
  received = codes "hi" ∷ [];
  stage = stage_returned;
  done = true;
  out_closed = true;
}

reach_ended : Reach false ended
unfolding exec_start
reach_ended =
    later
      (later
        (later
          (later
            (later (later start (call_write (codes "hi") (inl refl) refl))
              (send refl refl (omega arith)))
            (stream_returns refl (inl refl)))
          (close_done refl))
        (receive refl))
      (close_out refl)

Reach-IsOutput_example : IsOutput false ended
Reach-IsOutput_example = Reach-IsOutput reach_ended

-- An executor that leaves while a Write waits can come to the panic.
leaving_panics : (s : ExecOutput) × Reach true s × (s.panicked ≡ true)
unfolding exec_start
leaving_panics = (
  _,
  later
      (later
        (later
          (later (later start (call_write (codes "hi") (inl refl) refl))
            (stream_returns refl (inr refl)))
          (close_done refl))
        (close_out refl))
      (send_on_closed refl refl),
  refl,
)
