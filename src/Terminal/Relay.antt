-- ===== src/Terminal/Relay.antt =====
-- internal/terminal/gateway.go: an attached terminal, with its three goroutines: the read loop of Serve,
-- the pump of the output, and closeWhenSessionStops. Each step of one of them is a step of the whole, in
-- any order; so are the steps of the client, which sends messages, and of the stream, which emits texts
-- and ends.
-- The return of a Write to the stream is a step of the read loop, so that a Write may wait for as long as
-- the others' steps go on; it may fail while the stream is open, and does once the stream is closed. The
-- output channel of the stream has room for `capacity` texts. A read may fail at any time, as by the
-- deadline or when the connection is closed, and so may a write to the connection.
pub mod Heard
pub mod Order
pub mod Ranks
pub mod Shutting
pub mod Ending
pub mod Progress
pub mod Tests
use agentsty.Prelude.{
  ℕ, ◌+◌, zero, ◌<◌, ◌≡◌, Bool, true, false, Option, List, [], ◌∷◌, ◌++◌, Str, Result,
}
use agentsty.V1alpha1.{AgentSession}
use agentsty.Terminal.{Message, Turn, received, Action, turn, session_stopped}
use agentsty.Terminal.Streams.{length}

-- Serve, from the loop's select on; `closes_stream`, `cancels` and `closes_conn` are its deferred calls.
pub data Reader : Type 0 where
  checks : Reader
  reads : Reader
  handles : Message → Reader
  closes_stream : Reader
  cancels : Reader
  closes_conn : Reader
  reader_returned : Reader

-- the pump; behind its loop it keeps the text that it could not show, if there is one
pub data Pump : Type 0 where
  ranges : Pump
  shows : Str → Pump
  pump_closes_conn : List Str → Pump
  pump_closes_done : List Str → Pump
  pump_returned : List Str → Pump

pub data Watcher : Type 0 where
  watches : Watcher
  stops_stream : Watcher
  stops_conn : Watcher
  stops_context : Watcher
  watcher_returned : Watcher

-- `arrived` and `emitted` are all that came from the client and from the stream; `incoming` is not read
-- yet, and `queue` waits in the output channel. `turns` are the messages handled, `actions` the calls of
-- the stream, `shown` what the connection has taken.
pub record Relay : Type 0 where
  pub arrived : List Message
  pub incoming : List Message
  pub turns : List Turn
  pub actions : List Action
  pub emitted : List Str
  pub queue : List Str
  pub shown : List Str
  pub reader : Reader
  pub pump : Pump
  pub watcher : Watcher
  pub stream_closed : Bool
  pub stream_ended : Bool
  pub conn_closed : Bool
  pub cancelled : Bool

unfoldable pub attached_relay : Relay
attached_relay = record {
  arrived = [];
  incoming = [];
  turns = [];
  actions = [];
  emitted = [];
  queue = [];
  shown = [];
  reader = checks;
  pump = ranges;
  watcher = watches;
  stream_closed = false;
  stream_ended = false;
  conn_closed = false;
  cancelled = false;
}

-- the channel `done` is closed
abbrev pub is_done : Pump → Bool
is_done (pump_returned lost) = true
is_done _ = false

-- where a round leads to
abbrev pub after_turn : Bool → Reader
after_turn true = checks
after_turn false = closes_stream

-- the effect of a handled message
unfoldable pub handled : Relay → Message → Bool → Relay
unfolding turn
handled s m writes =
    let t = received m writes in
    record s {
      turns = s.turns ++ t ∷ [];
      actions = s.actions ++ (turn t).0;
      reader = after_turn (turn t).1;
    }

-- Serve: its loop, and its deferred calls
pub data ReaderStep (s : Relay) : Relay → Type 0 where
  check_done :
      s.reader ≡ checks → is_done s.pump ≡ true → ReaderStep s (record s { reader = closes_stream })
  check_on : s.reader ≡ checks → is_done s.pump ≡ false → ReaderStep s (record s { reader = reads })
  read_fails : s.reader ≡ reads → ReaderStep s (record s { reader = closes_stream })
  read :
      {m : Message} {rest : List Message}
      → s.reader ≡ reads
      → s.incoming ≡ m ∷ rest
      → ReaderStep s (record s { reader = handles m; incoming = rest })
  handle :
      {m : Message} (writes : Bool)
      → s.reader ≡ handles m
      → (writes ≡ true → s.stream_closed ≡ false)
      → ReaderStep s (handled s m writes)
  close_stream :
      s.reader ≡ closes_stream → ReaderStep s (record s { reader = cancels; stream_closed = true })
  cancel : s.reader ≡ cancels → ReaderStep s (record s { reader = closes_conn; cancelled = true })
  close_conn :
      s.reader ≡ closes_conn
      → ReaderStep s (record s { reader = reader_returned; conn_closed = true })

-- the pump: a range over the output, which ends when the channel is closed and empty
pub data PumpStep (s : Relay) : Relay → Type 0 where
  take :
      {p : Str} {rest : List Str}
      → s.pump ≡ ranges
      → s.queue ≡ p ∷ rest
      → PumpStep s (record s { pump = shows p; queue = rest })
  show :
      {p : Str}
      → s.pump ≡ shows p
      → s.conn_closed ≡ false
      → PumpStep s (record s { pump = ranges; shown = s.shown ++ p ∷ [] })
  show_fails :
      {p : Str} → s.pump ≡ shows p → PumpStep s (record s { pump = pump_closes_conn (p ∷ []) })
  range_ends :
      s.pump ≡ ranges
      → s.queue ≡ []
      → s.stream_ended ≡ true
      → PumpStep s (record s { pump = pump_closes_conn [] })
  pump_close_conn :
      {lost : List Str}
      → s.pump ≡ pump_closes_conn lost
      → PumpStep s (record s { pump = pump_closes_done lost; conn_closed = true })
  pump_close_done :
      {lost : List Str}
      → s.pump ≡ pump_closes_done lost
      → PumpStep s (record s { pump = pump_returned lost })

-- a tick of closeWhenSessionStops, with what the resolver answers: it lets a live session pass
pub data TickStep (s : Relay) : Relay → Type 0 where
  pass :
      (answer : Result Str (Option AgentSession))
      → s.watcher ≡ watches
      → session_stopped answer ≡ false
      → TickStep s s
  stop :
      (answer : Result Str (Option AgentSession))
      → s.watcher ≡ watches
      → session_stopped answer ≡ true
      → TickStep s (record s { watcher = stops_stream })

-- the rest of closeWhenSessionStops
pub data WatcherStep (s : Relay) : Relay → Type 0 where
  give_up :
      s.watcher ≡ watches
      → s.cancelled ≡ true
      → WatcherStep s (record s { watcher = watcher_returned })
  stop_stream :
      s.watcher ≡ stops_stream
      → WatcherStep s (record s { watcher = stops_conn; stream_closed = true })
  stop_conn :
      s.watcher ≡ stops_conn
      → WatcherStep s (record s { watcher = stops_context; conn_closed = true })
  stop_context :
      s.watcher ≡ stops_context
      → WatcherStep s (record s { watcher = watcher_returned; cancelled = true })

-- the client and the stream
pub data OutsideStep (capacity : ℕ) (s : Relay) : Relay → Type 0 where
  arrive :
      (m : Message)
      → s.conn_closed ≡ false
      → OutsideStep capacity s
          (record s { arrived = s.arrived ++ m ∷ []; incoming = s.incoming ++ m ∷ [] })
  emit :
      (p : Str)
      → s.stream_ended ≡ false
      → length s.queue < capacity
      → OutsideStep capacity s
          (record s { emitted = s.emitted ++ p ∷ []; queue = s.queue ++ p ∷ [] })
  end_stream : s.stream_ended ≡ false → OutsideStep capacity s (record s { stream_ended = true })

pub data Step (capacity : ℕ) (s t : Relay) : Type 0 where
  by_reader : ReaderStep s t → Step capacity s t
  by_pump : PumpStep s t → Step capacity s t
  by_tick : TickStep s t → Step capacity s t
  by_watcher : WatcherStep s t → Step capacity s t
  outside : OutsideStep capacity s t → Step capacity s t

pub data Reach (capacity : ℕ) : Relay → Type 0 where
  start : Reach capacity attached_relay
  later : {s t : Relay} → Reach capacity s → Step capacity s t → Reach capacity t

-- 0 for a tick that lets the session pass, 1 for any other step
abbrev pub cost : {capacity : ℕ} {s t : Relay} → Step capacity s t → ℕ
cost (by_tick (pass answer w live)) = 0
cost (by_tick (stop answer w stopped)) = 1
cost (by_reader st) = 1
cost (by_pump st) = 1
cost (by_watcher st) = 1
cost (outside st) = 1

-- steps lead from one state to another, so many beside the ticks that let the session pass
pub data Run (capacity : ℕ) (s : Relay) : ℕ → Relay → Type 0 where
  here : Run capacity s zero s
  next :
      {n : ℕ} {t u : Relay}
      → Run capacity s n t
      → (st : Step capacity t u) → Run capacity s (cost st + n) u
