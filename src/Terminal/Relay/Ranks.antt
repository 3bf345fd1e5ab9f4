-- ===== src/Terminal/Relay/Ranks.antt =====
-- How far each goroutine of an attached terminal is from its return.
use agentsty.Prelude.{ℕ, ◌≤◌, Bool, true, false, arith}
use agentsty.Terminal.Relay.{
  Reader, checks, reads, handles, closes_stream, cancels, closes_conn, reader_returned, Pump,
  ranges, shows, pump_closes_conn, pump_closes_done, pump_returned, Watcher, watches, stops_stream,
  stops_conn, stops_context, watcher_returned, after_turn,
}

-- how far each goroutine is from its return, for what it has read
unfoldable pub reader_rank : Reader → ℕ
reader_rank checks = 6
reader_rank reads = 5
reader_rank (handles m) = 7
reader_rank closes_stream = 3
reader_rank cancels = 2
reader_rank closes_conn = 1
reader_rank reader_returned = 0

unfoldable pub pump_rank : Pump → ℕ
pump_rank ranges = 3
pump_rank (shows p) = 4
pump_rank (pump_closes_conn lost) = 2
pump_rank (pump_closes_done lost) = 1
pump_rank (pump_returned lost) = 0

unfoldable pub watcher_rank : Watcher → ℕ
watcher_rank watches = 4
watcher_rank stops_stream = 3
watcher_rank stops_conn = 2
watcher_rank stops_context = 1
watcher_rank watcher_returned = 0

pub after_turn-rank : (b : Bool) → reader_rank (after_turn b) ≤ 6
unfolding reader_rank
after_turn-rank true = omega arith
after_turn-rank false = omega arith

pub reader_rank-le : (r : Reader) → reader_rank r ≤ 7
unfolding reader_rank
reader_rank-le checks = omega arith
reader_rank-le reads = omega arith
reader_rank-le (handles m) = omega arith
reader_rank-le closes_stream = omega arith
reader_rank-le cancels = omega arith
reader_rank-le closes_conn = omega arith
reader_rank-le reader_returned = omega arith

pub pump_rank-le : (p : Pump) → pump_rank p ≤ 4
unfolding pump_rank
pump_rank-le ranges = omega arith
pump_rank-le (shows p) = omega arith
pump_rank-le (pump_closes_conn lost) = omega arith
pump_rank-le (pump_closes_done lost) = omega arith
pump_rank-le (pump_returned lost) = omega arith

pub watcher_rank-le : (w : Watcher) → watcher_rank w ≤ 4
unfolding watcher_rank
watcher_rank-le watches = omega arith
watcher_rank-le stops_stream = omega arith
watcher_rank-le stops_conn = omega arith
watcher_rank-le stops_context = omega arith
watcher_rank-le watcher_returned = omega arith
