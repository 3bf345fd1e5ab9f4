-- ===== src/Terminal/Relay/Ending.antt =====
-- How an attached terminal ends once its connection is closed and its stream has ended.
use agentsty.Prelude.{ℕ, ◌+◌, ◌*◌, ◌≤◌, ◌<◌, ◌≡◌, refl, sym, ap, ◌∙◌, true, List, Str, arith}
use mathlib.Core.Bool.{false≢true}
use agentsty.Terminal.{turn, received}
use agentsty.Terminal.Streams.{length}
use agentsty.Terminal.Relay.{
  reader_returned, pump_returned, watcher_returned, Relay, handled, ReaderStep, check_done,
  check_on, read_fails, read, handle, close_stream, cancel, close_conn, PumpStep, take, show,
  show_fails, range_ends, pump_close_conn, pump_close_done, TickStep, pass, stop, by_tick, cost,
  WatcherStep, give_up, stop_stream, stop_conn, stop_context, OutsideStep, arrive, emit, end_stream,
  Step, by_reader, by_pump, by_watcher, outside, Run, here, next,
}
use agentsty.Terminal.Relay.Ranks.{
  reader_rank, pump_rank, watcher_rank, after_turn-rank, reader_rank-le, pump_rank-le,
  watcher_rank-le,
}

-- a bound on the steps that are left
unfoldable pub steps_left : Relay → ℕ
unfolding reader_rank pump_rank watcher_rank
steps_left s =
    (3 * length s.incoming + reader_rank s.reader)
    + (2 * length s.queue + pump_rank s.pump)
    + watcher_rank s.watcher

pub record IsClosing (s : Relay) : Type 0 where
  pub conn : s.conn_closed ≡ true
  pub stream : s.stream_ended ≡ true

pub record IsReturned (s : Relay) : Type 0 where
  pub reader : s.reader ≡ reader_returned
  pub pump : (lost : List Str) × (s.pump ≡ pump_returned lost)
  pub watcher : s.watcher ≡ watcher_returned

-- the messages and the reader
abbrev reader_left : Relay → ℕ
reader_left s = 3 * length s.incoming + reader_rank s.reader

abbrev pump_left : Relay → ℕ
pump_left s = 2 * length s.queue + pump_rank s.pump

ReaderStep-lt : {s t : Relay} → ReaderStep s t → reader_left t < reader_left s
unfolding reader_rank handled
ReaderStep-lt {s} (check_done e d) = omega (arith, ap reader_rank e)
ReaderStep-lt {s} (check_on e d) = omega (arith, ap reader_rank e)
ReaderStep-lt {s} (read_fails e) = omega (arith, ap reader_rank e)
ReaderStep-lt {s} (read {m} {rest} e i) = omega (arith, ap reader_rank e, ap length i)
ReaderStep-lt {s} (handle {m} writes e o) =
    omega (arith, ap reader_rank e, after_turn-rank (turn (received m writes)).1)
ReaderStep-lt {s} (close_stream e) = omega (arith, ap reader_rank e)
ReaderStep-lt {s} (cancel e) = omega (arith, ap reader_rank e)
ReaderStep-lt {s} (close_conn e) = omega (arith, ap reader_rank e)

PumpStep-lt : {s t : Relay} → PumpStep s t → s.conn_closed ≡ true → pump_left t < pump_left s
unfolding pump_rank
PumpStep-lt {s} (take {p} {rest} e q) c = omega (arith, ap pump_rank e, ap length q)
PumpStep-lt {s} (show e open_conn) c = absurd (false≢true (sym open_conn ∙ c))
PumpStep-lt {s} (show_fails e) c = omega (arith, ap pump_rank e)
PumpStep-lt {s} (range_ends e q d) c = omega (arith, ap pump_rank e)
PumpStep-lt {s} (pump_close_conn e) c = omega (arith, ap pump_rank e)
PumpStep-lt {s} (pump_close_done e) c = omega (arith, ap pump_rank e)

WatcherStep-lt : {s t : Relay} → WatcherStep s t → watcher_rank t.watcher < watcher_rank s.watcher
unfolding watcher_rank
WatcherStep-lt {s} (give_up e c) = omega (arith, ap watcher_rank e)
WatcherStep-lt {s} (stop_stream e) = omega (arith, ap watcher_rank e)
WatcherStep-lt {s} (stop_conn e) = omega (arith, ap watcher_rank e)
WatcherStep-lt {s} (stop_context e) = omega (arith, ap watcher_rank e)

-- what a step leaves: the part of the others, and the end of the stream and of the connection
abbrev Leaves : ℕ → ℕ → ℕ → ℕ → Relay → Relay → Type 0
Leaves a a' b b' s t =
    (a' ≡ a)
    × (b' ≡ b)
    × (t.stream_ended ≡ s.stream_ended)
    × (s.conn_closed ≡ true → t.conn_closed ≡ true)

ReaderStep-Leaves :
    {s t : Relay}
    → ReaderStep s t
    → Leaves (pump_left s) (pump_left t) (watcher_rank s.watcher) (watcher_rank t.watcher) s t
unfolding handled
ReaderStep-Leaves (check_done e d) = (refl, refl, refl, λ c. c)
ReaderStep-Leaves (check_on e d) = (refl, refl, refl, λ c. c)
ReaderStep-Leaves (read_fails e) = (refl, refl, refl, λ c. c)
ReaderStep-Leaves (read e i) = (refl, refl, refl, λ c. c)
ReaderStep-Leaves (handle w e o) = (refl, refl, refl, λ c. c)
ReaderStep-Leaves (close_stream e) = (refl, refl, refl, λ c. c)
ReaderStep-Leaves (cancel e) = (refl, refl, refl, λ c. c)
ReaderStep-Leaves (close_conn e) = (refl, refl, refl, λ c. refl)

PumpStep-Leaves :
    {s t : Relay}
    → PumpStep s t
    → Leaves (reader_left s) (reader_left t) (watcher_rank s.watcher) (watcher_rank t.watcher) s t
PumpStep-Leaves (take e q) = (refl, refl, refl, λ c. c)
PumpStep-Leaves (show e c) = (refl, refl, refl, λ c. c)
PumpStep-Leaves (show_fails e) = (refl, refl, refl, λ c. c)
PumpStep-Leaves (range_ends e q d) = (refl, refl, refl, λ c. c)
PumpStep-Leaves (pump_close_conn e) = (refl, refl, refl, λ c. refl)
PumpStep-Leaves (pump_close_done e) = (refl, refl, refl, λ c. c)

WatcherStep-Leaves :
    {s t : Relay}
    → WatcherStep s t
    → Leaves (reader_left s) (reader_left t) (pump_left s) (pump_left t) s t
WatcherStep-Leaves (give_up e c) = (refl, refl, refl, λ c. c)
WatcherStep-Leaves (stop_stream e) = (refl, refl, refl, λ c. c)
WatcherStep-Leaves (stop_conn e) = (refl, refl, refl, λ c. refl)
WatcherStep-Leaves (stop_context e) = (refl, refl, refl, λ c. c)

-- Once the connection is closed and the stream has ended, the client and the stream do nothing more.
OutsideStep-closing : {capacity : ℕ} {s t : Relay} → OutsideStep capacity s t → IsClosing s → ⊥
OutsideStep-closing (arrive m open_conn) c = false≢true (sym open_conn ∙ c.conn)
OutsideStep-closing (emit p on room) c = false≢true (sym on ∙ c.stream)
OutsideStep-closing (end_stream on) c = false≢true (sym on ∙ c.stream)

-- A tick that lets the session pass leaves everything; one that stops it leaves all but the watcher.
TickStep-le :
    (capacity : ℕ) {s t : Relay} (st : TickStep s t)
    → IsClosing s
    → (cost {capacity = capacity} (by_tick st) + steps_left t ≤ steps_left s) × IsClosing t
unfolding steps_left watcher_rank
TickStep-le capacity (pass answer w live) c = (omega arith, c)
TickStep-le capacity (stop answer w stopped) c =
    (omega (arith, ap watcher_rank w), record { conn = c.conn; stream = c.stream })

Step-le :
    {capacity : ℕ} {s t : Relay} (st : Step capacity s t)
    → IsClosing s
    → (cost st + steps_left t ≤ steps_left s) × IsClosing t
unfolding steps_left
Step-le (by_reader st) c =
    let (pump, watcher, ended, closed) = ReaderStep-Leaves st in
    (
      omega (arith, ReaderStep-lt st, pump, watcher),
      record { conn = closed c.conn; stream = ended ∙ c.stream },
    )
Step-le (by_pump st) c =
    let (reader, watcher, ended, closed) = PumpStep-Leaves st in
    (
      omega (arith, PumpStep-lt st c.conn, reader, watcher),
      record { conn = closed c.conn; stream = ended ∙ c.stream },
    )
Step-le {capacity} (by_tick st) c = TickStep-le capacity st c
Step-le (by_watcher st) c =
    let (reader, pump, ended, closed) = WatcherStep-Leaves st in
    (
      omega (arith, WatcherStep-lt st, reader, pump),
      record { conn = closed c.conn; stream = ended ∙ c.stream },
    )
Step-le (outside st) c = absurd (OutsideStep-closing st c)

Run-le :
    {capacity : ℕ} {s : Relay} {n : ℕ} {t : Relay}
    → Run capacity s n t
    → IsClosing s
    → (n + steps_left t ≤ steps_left s) × IsClosing t
Run-le here c = (omega arith, c)
Run-le (next r st) c =
    let (bound, closing) = Run-le r c in
    let (less, closing') = Step-le st closing in (omega (arith, bound, less), closing')

-- From a terminal whose connection is closed and whose stream has ended, whatever the order of the
-- steps: beside the ticks that let the session pass, a run has at most three steps for each message not
-- read yet, two for each text that waits, and fifteen more.
pub Run-bounded :
    {capacity n : ℕ} {s t : Relay}
    → IsClosing s
    → Run capacity s n t
    → n ≤ 3 * length s.incoming + 2 * length s.queue + 15
unfolding steps_left
Run-bounded {s = s} c r =
    omega (
      arith,
      (Run-le r c).0,
      reader_rank-le s.reader,
      pump_rank-le s.pump,
      watcher_rank-le s.watcher,
    )
