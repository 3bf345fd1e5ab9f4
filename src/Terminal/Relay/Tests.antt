-- ===== src/Terminal/Relay/Tests.antt =====
-- A run of an attached terminal: a message comes and is written, a text comes back and is shown, the
-- client goes, and the stream ends.
use agentsty.Prelude.{◌+◌, ◌*◌, ◌≤◌, refl, ◌⊎◌, true, [], ◌∷◌, codes, arith}
use agentsty.Terminal.{Message, binary, received, wrote, turn}
use agentsty.Terminal.Streams.{length}
use agentsty.Terminal.Relay.{
  Relay, attached_relay, handled, reader_returned, pump_closes_conn, by_reader, by_pump, by_watcher,
  outside, check_on, read_fails, read, handle, close_stream, cancel, close_conn, take, show, arrive,
  emit, end_stream, give_up, watcher_returned, range_ends, Reach, start, later, Run, here, next,
}
use agentsty.Terminal.Relay.Order.{IsInOrder, Reach-IsInOrder}
use agentsty.Terminal.Relay.Ending.{IsClosing, IsReturned, Run-bounded}
use agentsty.Terminal.Relay.Progress.{OwnStep, IsHeldUp, Reach-moves}

abbrev ls : Message
ls = binary (codes "ls")

-- after the message and the text
abbrev busy : Relay
busy = record attached_relay {
  arrived = ls ∷ [];
  turns = received ls true ∷ [];
  actions = wrote (codes "ls") ∷ [];
  emitted = codes "a b" ∷ [];
  shown = codes "a b" ∷ [];
}

-- the read fails, and the deferred calls are made; the stream ends on its close
abbrev closing : Relay
closing = record busy {
  reader = reader_returned;
  stream_closed = true;
  cancelled = true;
  conn_closed = true;
  stream_ended = true;
}

reach_busy : Reach 16 busy
unfolding attached_relay handled turn
reach_busy =
    later
      (later
        (later
          (later
            (later (later (later start (outside (arrive ls refl))) (by_reader (check_on refl refl)))
              (by_reader (read refl refl)))
            (by_reader (handle true refl (λ _. refl))))
          (outside (emit (codes "a b") refl (omega arith))))
        (by_pump (take refl refl)))
      (by_pump (show refl refl))

reach_closing : Reach 16 closing
unfolding attached_relay
reach_closing =
    later
      (later
        (later
          (later
            (later (later reach_busy (by_reader (check_on refl refl)))
              (by_reader (read_fails refl)))
            (by_reader (close_stream refl)))
          (by_reader (cancel refl)))
        (by_reader (close_conn refl)))
      (outside (end_stream refl))

abbrev closing_IsClosing : IsClosing closing
closing_IsClosing = record { conn = refl; stream = refl }

-- two steps after it
two_steps :
    Run 16 closing 2 (record closing { pump = pump_closes_conn []; watcher = watcher_returned })
unfolding attached_relay
two_steps = next (next here (by_pump (range_ends refl refl refl))) (by_watcher (give_up refl refl))

Reach-IsInOrder_example : IsInOrder busy
Reach-IsInOrder_example = Reach-IsInOrder reach_busy

Run-bounded_example : 2 ≤ 3 * length closing.incoming + 2 * length closing.queue + 15
Run-bounded_example = Run-bounded closing_IsClosing two_steps

Reach-moves_example : IsReturned closing ⊎ ((t : Relay) × OwnStep closing t) ⊎ IsHeldUp closing
Reach-moves_example = Reach-moves reach_closing closing_IsClosing
