-- ===== src/Terminal/Relay/Shutting.antt =====
-- The stream of an attached terminal is closed before the context is cancelled and before the watch on
-- the session returns.
use agentsty.Prelude.{ℕ, ◌≡◌, refl, subst, Bool, true, false}
use agentsty.Terminal.Relay.{
  Reader, handles, closes_stream, cancels, closes_conn, reader_returned, Watcher, watches,
  stops_stream, stops_conn, stops_context, watcher_returned, Relay, attached_relay, after_turn,
  handled, ReaderStep, check_done, check_on, read_fails, read, handle, close_stream, cancel,
  close_conn, PumpStep, take, show, show_fails, range_ends, pump_close_conn, pump_close_done,
  TickStep, pass, stop, WatcherStep, give_up, stop_stream, stop_conn, stop_context, OutsideStep,
  arrive, emit, end_stream, by_reader, by_pump, by_tick, by_watcher, outside, Reach, start, later,
}

-- where Serve has closed the stream
abbrev pub ReaderShut : Reader → Bool → Type 0
ReaderShut cancels closed = closed ≡ true
ReaderShut closes_conn closed = closed ≡ true
ReaderShut reader_returned closed = closed ≡ true
ReaderShut _ closed = Unit {0}

abbrev pub CancelShut : Bool → Bool → Type 0
CancelShut true closed = closed ≡ true
CancelShut false closed = Unit {0}

abbrev pub WatcherShut : Watcher → Bool → Bool → Type 0
WatcherShut watches cancelled closed = CancelShut cancelled closed
WatcherShut stops_stream cancelled closed = CancelShut cancelled closed
WatcherShut _ cancelled closed = closed ≡ true

pub record IsShut (s : Relay) : Type 0 where
  pub reader : ReaderShut s.reader s.stream_closed
  pub watcher : WatcherShut s.watcher s.cancelled s.stream_closed

-- the invariant at what a goroutine is known to be
at_reader : (s : Relay) {r : Reader} → s.reader ≡ r → IsShut s → ReaderShut r s.stream_closed
at_reader s e v = subst (λ r. ReaderShut r s.stream_closed) e v.reader

at_watcher :
    (s : Relay) {w : Watcher} → s.watcher ≡ w → IsShut s → WatcherShut w s.cancelled s.stream_closed
at_watcher s e v = subst (λ w. WatcherShut w s.cancelled s.stream_closed) e v.watcher

after_turn-ReaderShut : (b closed : Bool) → ReaderShut (after_turn b) closed
after_turn-ReaderShut true closed = tt
after_turn-ReaderShut false closed = tt

CancelShut-of : (x c : Bool) → c ≡ true → CancelShut x c
CancelShut-of true c h = h
CancelShut-of false c h = tt

WatcherShut-of : (w : Watcher) (x c : Bool) → c ≡ true → WatcherShut w x c
WatcherShut-of watches x c h = CancelShut-of x c h
WatcherShut-of stops_stream x c h = CancelShut-of x c h
WatcherShut-of stops_conn x c h = h
WatcherShut-of stops_context x c h = h
WatcherShut-of watcher_returned x c h = h

ReaderShut-of : (r : Reader) → ReaderShut r true
ReaderShut-of Reader.checks = tt
ReaderShut-of Reader.reads = tt
ReaderShut-of (handles m) = tt
ReaderShut-of closes_stream = tt
ReaderShut-of cancels = refl
ReaderShut-of closes_conn = refl
ReaderShut-of reader_returned = refl

ReaderStep-IsShut : {s t : Relay} → ReaderStep s t → IsShut s → IsShut t
unfolding handled
ReaderStep-IsShut (check_done e d) v = record { reader = tt; watcher = v.watcher }
ReaderStep-IsShut (check_on e d) v = record { reader = tt; watcher = v.watcher }
ReaderStep-IsShut (read_fails e) v = record { reader = tt; watcher = v.watcher }
ReaderStep-IsShut (read e i) v = record { reader = tt; watcher = v.watcher }
ReaderStep-IsShut {s} (handle writes e o) v = record {
  reader = after_turn-ReaderShut _ s.stream_closed;
  watcher = v.watcher;
}
ReaderStep-IsShut {s} (close_stream e) v = record {
  reader = refl;
  watcher = WatcherShut-of s.watcher s.cancelled true refl;
}
ReaderStep-IsShut {s} (cancel e) v =
    let closed = at_reader s e v in
    record { reader = closed; watcher = WatcherShut-of s.watcher true s.stream_closed closed }
ReaderStep-IsShut {s} (close_conn e) v = record { reader = at_reader s e v; watcher = v.watcher }

PumpStep-IsShut : {s t : Relay} → PumpStep s t → IsShut s → IsShut t
PumpStep-IsShut (take e q) v = record { reader = v.reader; watcher = v.watcher }
PumpStep-IsShut (show e c) v = record { reader = v.reader; watcher = v.watcher }
PumpStep-IsShut (show_fails e) v = record { reader = v.reader; watcher = v.watcher }
PumpStep-IsShut (range_ends e q d) v = record { reader = v.reader; watcher = v.watcher }
PumpStep-IsShut (pump_close_conn e) v = record { reader = v.reader; watcher = v.watcher }
PumpStep-IsShut (pump_close_done e) v = record { reader = v.reader; watcher = v.watcher }

TickStep-IsShut : {s t : Relay} → TickStep s t → IsShut s → IsShut t
TickStep-IsShut (pass a e h) v = v
TickStep-IsShut {s} (stop a e h) v = record { reader = v.reader; watcher = at_watcher s e v }

WatcherStep-IsShut : {s t : Relay} → WatcherStep s t → IsShut s → IsShut t
WatcherStep-IsShut {s} (give_up e c) v = record {
  reader = v.reader;
  watcher = subst (λ x. CancelShut x s.stream_closed) c (at_watcher s e v);
}
WatcherStep-IsShut {s} (stop_stream e) v = record {
  reader = ReaderShut-of s.reader;
  watcher = refl;
}
WatcherStep-IsShut {s} (stop_conn e) v = record { reader = v.reader; watcher = at_watcher s e v }
WatcherStep-IsShut {s} (stop_context e) v = record { reader = v.reader; watcher = at_watcher s e v }

OutsideStep-IsShut : {capacity : ℕ} {s t : Relay} → OutsideStep capacity s t → IsShut s → IsShut t
OutsideStep-IsShut (arrive m c) v = record { reader = v.reader; watcher = v.watcher }
OutsideStep-IsShut (emit p d room) v = record { reader = v.reader; watcher = v.watcher }
OutsideStep-IsShut (end_stream d) v = record { reader = v.reader; watcher = v.watcher }

attached_relay-IsShut : IsShut attached_relay
unfolding attached_relay
attached_relay-IsShut = record { reader = tt; watcher = tt }

pub Reach-IsShut : {capacity : ℕ} {s : Relay} → Reach capacity s → IsShut s
Reach-IsShut start = attached_relay-IsShut
Reach-IsShut (later r (by_reader st)) = ReaderStep-IsShut st (Reach-IsShut r)
Reach-IsShut (later r (by_pump st)) = PumpStep-IsShut st (Reach-IsShut r)
Reach-IsShut (later r (by_tick st)) = TickStep-IsShut st (Reach-IsShut r)
Reach-IsShut (later r (by_watcher st)) = WatcherStep-IsShut st (Reach-IsShut r)
Reach-IsShut (later r (outside st)) = OutsideStep-IsShut st (Reach-IsShut r)

-- The stream is closed where the watch on the session has returned.
pub watch_over :
    {capacity : ℕ} {s : Relay}
    → Reach capacity s
    → s.watcher ≡ watcher_returned
    → s.stream_closed ≡ true
watch_over {s = s} r e = at_watcher s e (Reach-IsShut r)
