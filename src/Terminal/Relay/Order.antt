-- ===== src/Terminal/Relay/Order.antt =====
-- What has passed through an attached terminal, in any order of its goroutines' steps.
use agentsty.Prelude.{ℕ, ◌≡◌, refl, sym, ap, ◌∙◌, List, [], ◌∷◌, ◌++◌, append_assoc, Str, subst}
use agentsty.Terminal.{relay}
use agentsty.Terminal.Relay.{
  Pump, ranges, shows, pump_closes_conn, pump_closes_done, pump_returned, Relay, attached_relay,
  handled, ReaderStep, check_done, check_on, read_fails, read, handle, close_stream, cancel,
  close_conn, PumpStep, take, show, show_fails, range_ends, pump_close_conn, pump_close_done,
  TickStep, pass, by_tick, WatcherStep, stop, give_up, stop_stream, stop_conn, stop_context,
  OutsideStep, arrive, emit, end_stream, Step, by_reader, by_pump, by_watcher, outside, Reach,
  start, later,
}
use agentsty.Terminal.Relay.Heard.{messages_of, in_hand, AllOn, IsOn, IsHeard, ReaderStep-IsHeard}

-- the text that has left the channel and is not shown
abbrev pub held : Pump → List Str
held ranges = []
held (shows p) = p ∷ []
held (pump_closes_conn lost) = lost
held (pump_closes_done lost) = lost
held (pump_returned lost) = lost

pub record IsInOrder (s : Relay) : Type 0 where
  pub heard : IsHeard s.arrived s.incoming s.turns s.actions s.reader
  pub shown_in_order : s.shown ++ (held s.pump ++ s.queue) ≡ s.emitted

-- the pump at what it is known to be, and what it has shown
abbrev Shows : Relay → Pump → List Str → Type 0
Shows s p queue = s.shown ++ (held p ++ queue) ≡ s.emitted

at_pump : (s : Relay) {p : Pump} → s.pump ≡ p → Shows s s.pump s.queue → Shows s p s.queue
at_pump s e v = subst (λ p. Shows s p s.queue) e v

PumpStep-Shows : {s t : Relay} → PumpStep s t → Shows s s.pump s.queue → Shows t t.pump t.queue
PumpStep-Shows {s} (take {p} {rest} e q) v = ap (λ l. s.shown ++ l) (sym q) ∙ at_pump s e v
PumpStep-Shows {s} (show {p} e c) v = append_assoc s.shown (p ∷ []) s.queue ∙ at_pump s e v
PumpStep-Shows {s} (show_fails e) v = at_pump s e v
PumpStep-Shows {s} (range_ends e q d) v = at_pump s e v
PumpStep-Shows {s} (pump_close_conn e) v = at_pump s e v
PumpStep-Shows {s} (pump_close_done e) v = at_pump s e v

-- one more at the end of what waits
snoc_waiting :
    {A : Type 0} (before now waiting all : List A) (x : A)
    → before ++ (now ++ waiting) ≡ all
    → before ++ (now ++ (waiting ++ x ∷ [])) ≡ all ++ x ∷ []
snoc_waiting before now waiting all x h =
    ap (λ l. before ++ l) (sym (append_assoc now waiting (x ∷ [])))
    ∙ sym (append_assoc before (now ++ waiting) (x ∷ []))
    ∙ ap (λ l. l ++ x ∷ []) h

OutsideStep-IsInOrder :
    {capacity : ℕ} {s t : Relay} → OutsideStep capacity s t → IsInOrder s → IsInOrder t
OutsideStep-IsInOrder {capacity} {s} (arrive m c) v = record {
  heard = record {
    in_order =
        snoc_waiting (messages_of s.turns) (in_hand s.reader) s.incoming s.arrived m
          v.heard.in_order;
    done = v.heard.done;
    on = v.heard.on;
  };
  shown_in_order = v.shown_in_order;
}
OutsideStep-IsInOrder {capacity} {s} (emit p d room) v = record {
  heard = v.heard;
  shown_in_order = snoc_waiting s.shown (held s.pump) s.queue s.emitted p v.shown_in_order;
}
OutsideStep-IsInOrder {capacity} {s} (end_stream d) v = record {
  heard = v.heard;
  shown_in_order = v.shown_in_order;
}

-- A step of the reader leaves the texts alone, a step of the pump the messages.
ReaderStep-Shows : {s t : Relay} → ReaderStep s t → Shows s s.pump s.queue → Shows t t.pump t.queue
unfolding handled
ReaderStep-Shows (check_done e d) v = v
ReaderStep-Shows (check_on e d) v = v
ReaderStep-Shows (read_fails e) v = v
ReaderStep-Shows (read e i) v = v
ReaderStep-Shows (handle w e o) v = v
ReaderStep-Shows (close_stream e) v = v
ReaderStep-Shows (cancel e) v = v
ReaderStep-Shows (close_conn e) v = v

PumpStep-IsHeard :
    {s t : Relay}
    → PumpStep s t
    → IsHeard s.arrived s.incoming s.turns s.actions s.reader
    → IsHeard t.arrived t.incoming t.turns t.actions t.reader
PumpStep-IsHeard (take e q) v = v
PumpStep-IsHeard (show e c) v = v
PumpStep-IsHeard (show_fails e) v = v
PumpStep-IsHeard (range_ends e q d) v = v
PumpStep-IsHeard (pump_close_conn e) v = v
PumpStep-IsHeard (pump_close_done e) v = v

WatcherStep-IsInOrder : {s t : Relay} → WatcherStep s t → IsInOrder s → IsInOrder t
WatcherStep-IsInOrder (give_up e c) v = record {
  heard = v.heard;
  shown_in_order = v.shown_in_order;
}
WatcherStep-IsInOrder (stop_stream e) v = record {
  heard = v.heard;
  shown_in_order = v.shown_in_order;
}
WatcherStep-IsInOrder (stop_conn e) v = record {
  heard = v.heard;
  shown_in_order = v.shown_in_order;
}
WatcherStep-IsInOrder (stop_context e) v = record {
  heard = v.heard;
  shown_in_order = v.shown_in_order;
}

TickStep-IsInOrder : {s t : Relay} → TickStep s t → IsInOrder s → IsInOrder t
TickStep-IsInOrder (pass a e h) v = v
TickStep-IsInOrder (stop a e h) v = record { heard = v.heard; shown_in_order = v.shown_in_order }

Step-IsInOrder : {capacity : ℕ} {s t : Relay} → Step capacity s t → IsInOrder s → IsInOrder t
Step-IsInOrder (by_reader st) v = record {
  heard = ReaderStep-IsHeard st v.heard;
  shown_in_order = ReaderStep-Shows st v.shown_in_order;
}
Step-IsInOrder (by_pump st) v = record {
  heard = PumpStep-IsHeard st v.heard;
  shown_in_order = PumpStep-Shows st v.shown_in_order;
}
Step-IsInOrder (by_tick st) v = TickStep-IsInOrder st v
Step-IsInOrder (by_watcher st) v = WatcherStep-IsInOrder st v
Step-IsInOrder (outside st) v = OutsideStep-IsInOrder st v

attached_relay-IsInOrder : IsInOrder attached_relay
unfolding attached_relay messages_of relay IsOn AllOn
attached_relay-IsInOrder = record {
  heard = record { in_order = refl; done = refl; on = tt };
  shown_in_order = refl;
}

-- However the steps of an attached terminal are interleaved: the messages handled, then the one in hand
-- and those that wait are what arrived, in order; the calls of the stream are those that the read loop,
-- run alone, makes for the messages handled; and the texts shown, then what is in hand or lost with
-- the connection, and those that wait are what the stream emitted, in order.
pub Reach-IsInOrder : {capacity : ℕ} {s : Relay} → Reach capacity s → IsInOrder s
Reach-IsInOrder start = attached_relay-IsInOrder
Reach-IsInOrder (later r st) = Step-IsInOrder st (Reach-IsInOrder r)
