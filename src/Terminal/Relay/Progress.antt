-- ===== src/Terminal/Relay/Progress.antt =====
-- No goroutine of an attached terminal is left behind.
use agentsty.Prelude.{
  ℕ, ◌≡◌, sym, ap, ◌∙◌, refl, ◌⊎◌, inl, inr, Bool, true, false, List, [], ◌∷◌, Str, subst,
  Bool-cases,
}
use mathlib.Core.Bool.{false≢true}
use agentsty.Terminal.Relay.{
  Reader, checks, reads, handles, closes_stream, cancels, closes_conn, reader_returned, Pump,
  ranges, shows, pump_closes_conn, pump_closes_done, pump_returned, Watcher, watches, stops_stream,
  stops_conn, stops_context, watcher_returned, Relay, attached_relay, after_turn, handled, is_done,
  ReaderStep, check_done, check_on, read_fails, read, handle, close_stream, cancel, close_conn,
  PumpStep, take, show, show_fails, range_ends, pump_close_conn, pump_close_done, TickStep, pass,
  by_tick, WatcherStep, stop, give_up, stop_stream, stop_conn, stop_context, OutsideStep, arrive,
  emit, end_stream, by_reader, by_pump, by_watcher, outside, Reach, start, later,
}
use agentsty.Terminal.{Message, binary}
use agentsty.Terminal.Relay.Shutting.{watch_over}
use agentsty.Terminal.Relay.Ending.{IsClosing, IsReturned}

-- the context is cancelled where Serve has called cancel
abbrev IsCancelled : Reader → Bool → Type 0
IsCancelled closes_conn c = c ≡ true
IsCancelled reader_returned c = c ≡ true
IsCancelled _ c = Unit {0}

after_turn-IsCancelled : (b : Bool) (c : Bool) → IsCancelled (after_turn b) c
after_turn-IsCancelled true c = tt
after_turn-IsCancelled false c = tt

at_reader :
    (s : Relay) {r : Reader}
    → s.reader ≡ r
    → IsCancelled s.reader s.cancelled
    → IsCancelled r s.cancelled
at_reader s e v = subst (λ r. IsCancelled r s.cancelled) e v

reader_gone-IsCancelled : (r : Reader) → IsCancelled r true
reader_gone-IsCancelled checks = tt
reader_gone-IsCancelled reads = tt
reader_gone-IsCancelled (handles m) = tt
reader_gone-IsCancelled closes_stream = tt
reader_gone-IsCancelled cancels = tt
reader_gone-IsCancelled closes_conn = refl
reader_gone-IsCancelled reader_returned = refl

ReaderStep-IsCancelled :
    {s t : Relay}
    → ReaderStep s t
    → IsCancelled s.reader s.cancelled
    → IsCancelled t.reader t.cancelled
unfolding handled
ReaderStep-IsCancelled (check_done e d) v = tt
ReaderStep-IsCancelled (check_on e d) v = tt
ReaderStep-IsCancelled (read_fails e) v = tt
ReaderStep-IsCancelled (read e i) v = tt
ReaderStep-IsCancelled {s} (handle {m} writes e o) v = after_turn-IsCancelled _ s.cancelled
ReaderStep-IsCancelled (close_stream e) v = tt
ReaderStep-IsCancelled (cancel e) v = refl
ReaderStep-IsCancelled {s} (close_conn e) v = at_reader s e v

PumpStep-IsCancelled :
    {s t : Relay}
    → PumpStep s t
    → IsCancelled s.reader s.cancelled
    → IsCancelled t.reader t.cancelled
PumpStep-IsCancelled (take e q) v = v
PumpStep-IsCancelled (show e c) v = v
PumpStep-IsCancelled (show_fails e) v = v
PumpStep-IsCancelled (range_ends e q d) v = v
PumpStep-IsCancelled (pump_close_conn e) v = v
PumpStep-IsCancelled (pump_close_done e) v = v

WatcherStep-IsCancelled :
    {s t : Relay}
    → WatcherStep s t
    → IsCancelled s.reader s.cancelled
    → IsCancelled t.reader t.cancelled
WatcherStep-IsCancelled (give_up e c) v = v
WatcherStep-IsCancelled (stop_stream e) v = v
WatcherStep-IsCancelled (stop_conn e) v = v
WatcherStep-IsCancelled {s} (stop_context e) v = reader_gone-IsCancelled s.reader

TickStep-IsCancelled :
    {s t : Relay}
    → TickStep s t
    → IsCancelled s.reader s.cancelled
    → IsCancelled t.reader t.cancelled
TickStep-IsCancelled (pass a e h) v = v
TickStep-IsCancelled (stop a e h) v = v

OutsideStep-IsCancelled :
    {capacity : ℕ} {s t : Relay}
    → OutsideStep capacity s t
    → IsCancelled s.reader s.cancelled
    → IsCancelled t.reader t.cancelled
OutsideStep-IsCancelled (arrive m c) v = v
OutsideStep-IsCancelled (emit p d room) v = v
OutsideStep-IsCancelled (end_stream d) v = v

Reach-IsCancelled : {capacity : ℕ} {s : Relay} → Reach capacity s → IsCancelled s.reader s.cancelled
unfolding attached_relay
Reach-IsCancelled start = tt
Reach-IsCancelled (later r (by_reader st)) = ReaderStep-IsCancelled st (Reach-IsCancelled r)
Reach-IsCancelled (later r (by_pump st)) = PumpStep-IsCancelled st (Reach-IsCancelled r)
Reach-IsCancelled (later r (by_tick st)) = TickStep-IsCancelled st (Reach-IsCancelled r)
Reach-IsCancelled (later r (by_watcher st)) = WatcherStep-IsCancelled st (Reach-IsCancelled r)
Reach-IsCancelled (later r (outside st)) = OutsideStep-IsCancelled st (Reach-IsCancelled r)

-- in a Write to the stream
abbrev pub is_writing : Reader → Bool
is_writing (handles (binary payload)) = true
is_writing _ = false

-- A step for which a goroutine waits for nobody: a Write is one only where the stream is closed, and a
-- tick is none.
pub data OwnStep (s : Relay) : Relay → Type 0 where
  reader_on :
      {t : Relay}
      → ReaderStep s t
      → (is_writing s.reader ≡ false) ⊎ (s.stream_closed ≡ true)
      → OwnStep s t
  pump_on : {t : Relay} → PumpStep s t → OwnStep s t
  watcher_on : {t : Relay} → WatcherStep s t → OwnStep s t

-- The read loop waits in a Write to the open stream; the pump has returned, and the watch on the session
-- still goes on.
pub record IsHeldUp (s : Relay) : Type 0 where
  pub payload : Str
  pub writes : s.reader ≡ handles (binary payload)
  pub open_stream : s.stream_closed ≡ false
  pub pump : (lost : List Str) × (s.pump ≡ pump_returned lost)
  pub watcher : s.watcher ≡ watches

-- what the read loop can do: it has returned, it goes on, or it waits in a Write
abbrev Reading : Relay → Type 0
Reading s =
    (s.reader ≡ reader_returned)
    ⊎ ((t : Relay) × OwnStep s t)
    ⊎ ((payload : Str) × (s.reader ≡ handles (binary payload)) × (s.stream_closed ≡ false))

goes_on :
    (s : Relay) (r : Reader) {t : Relay}
    → s.reader ≡ r
    → is_writing r ≡ false
    → ReaderStep s t
    → Reading s
goes_on s r {t} e idle st = inr (inl (t, reader_on st (inl (ap is_writing e ∙ idle))))

reader_moves : (s : Relay) (r : Reader) → s.reader ≡ r → Reading s
reader_moves s checks e = elim (Bool-cases (is_done s.pump)) [
  | inl done ↦ goes_on s checks e refl (check_done e done)
  | inr on ↦ goes_on s checks e refl (check_on e on)
]
reader_moves s reads e = goes_on s reads e refl (read_fails e)
reader_moves s (handles (binary p)) e = elim (Bool-cases s.stream_closed) [
  | inl closed ↦ inr (inl (_, reader_on (handle false e (λ h. absurd (false≢true h))) (inr closed)))
  | inr open_yet ↦ inr (inr (p, e, open_yet))
]
reader_moves s (handles (Message.text c)) e =
    goes_on s (handles (Message.text c)) e refl (handle false e (λ h. absurd (false≢true h)))
reader_moves s (handles Message.close) e =
    goes_on s (handles Message.close) e refl (handle false e (λ h. absurd (false≢true h)))
reader_moves s (handles Message.other) e =
    goes_on s (handles Message.other) e refl (handle false e (λ h. absurd (false≢true h)))
reader_moves s closes_stream e = goes_on s closes_stream e refl (close_stream e)
reader_moves s cancels e = goes_on s cancels e refl (cancel e)
reader_moves s closes_conn e = goes_on s closes_conn e refl (close_conn e)
reader_moves s reader_returned e = inl e

range_moves :
    (s : Relay) (q : List Str)
    → s.pump ≡ ranges
    → s.queue ≡ q
    → s.stream_ended ≡ true
    → (t : Relay) × PumpStep s t
range_moves s [] e same ended = (_, range_ends e same ended)
range_moves s (p ∷ rest) e same ended = (_, take e same)

pump_moves :
    (s : Relay) (p : Pump)
    → s.pump ≡ p
    → s.stream_ended ≡ true
    → ((lost : List Str) × (s.pump ≡ pump_returned lost)) ⊎ ((t : Relay) × PumpStep s t)
pump_moves s ranges e ended = inr (range_moves s s.queue e refl ended)
pump_moves s (shows p) e ended = inr (_, show_fails e)
pump_moves s (pump_closes_conn lost) e ended = inr (_, pump_close_conn e)
pump_moves s (pump_closes_done lost) e ended = inr (_, pump_close_done e)
pump_moves s (pump_returned lost) e ended = inl (lost, e)

-- the watch has returned, it goes on, or it waits for its next tick
watcher_moves :
    (s : Relay) (w : Watcher)
    → s.watcher ≡ w
    → (s.watcher ≡ watcher_returned)
      ⊎ ((t : Relay) × WatcherStep s t)
      ⊎ ((s.watcher ≡ watches) × (s.cancelled ≡ false))
watcher_moves s watches e = elim (Bool-cases s.cancelled) [
  | inl c ↦ inr (inl (_, give_up e c))
  | inr c ↦ inr (inr (e, c))
]
watcher_moves s stops_stream e = inr (inl (_, stop_stream e))
watcher_moves s stops_conn e = inr (inl (_, stop_conn e))
watcher_moves s stops_context e = inr (inl (_, stop_context e))
watcher_moves s watcher_returned e = inl e

-- From the start, however the steps are interleaved: once the connection is closed and the stream has
-- ended, the read loop, the pump and the watch on the session have all returned; or one of them has a
-- step for which it waits for nobody; or the read loop waits in a Write to the stream, which is open
-- yet, with the pump returned and the watch still on.
pub Reach-moves :
    {capacity : ℕ} {s : Relay}
    → Reach capacity s
    → IsClosing s
    → IsReturned s ⊎ ((t : Relay) × OwnStep s t) ⊎ IsHeldUp s
Reach-moves {capacity} {s} r c = elim (pump_moves s s.pump refl c.stream) [
  | inr (t, st) ↦ inr (inl (t, pump_on st))
  | inl pump ↦ elim (watcher_moves s s.watcher refl) [
    | inr (inl (t, st)) ↦ inr (inl (t, watcher_on st))
    | inl watcher ↦ elim (reader_moves s s.reader refl) [
      | inl reader ↦ inl (record { reader = reader; pump = pump; watcher = watcher })
      | inr (inl own) ↦ inr (inl own)
      | inr (inr (p, writes, open_stream)) ↦
          absurd (false≢true (sym open_stream ∙ watch_over r watcher))
    ]
    | inr (inr (on, live)) ↦ elim (reader_moves s s.reader refl) [
      | inl reader ↦ absurd (false≢true (sym live ∙ at_reader s reader (Reach-IsCancelled r)))
      | inr (inl own) ↦ inr (inl own)
      | inr (inr (p, writes, open_stream)) ↦ inr (
          inr (record {
            payload = p;
            writes = writes;
            open_stream = open_stream;
            pump = pump;
            watcher = on;
          }))
    ]
  ]
]
