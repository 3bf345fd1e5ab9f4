-- ===== src/Terminal/Relay/Heard.antt =====
-- How an attached terminal hears its client, in any order of its goroutines' steps.
use agentsty.Prelude.{
  ◌≡◌, refl, sym, ap, ◌∙◌, Bool, true, false, List, [], ◌∷◌, ◌++◌, append-nil, append_assoc,
  if◌then◌else◌, subst,
}
use agentsty.Terminal.{Message, Turn, received, Action, turn, relay}
use agentsty.Terminal.Relay.{
  Reader, checks, reads, handles, Relay, after_turn, handled, ReaderStep, check_done, check_on,
  read_fails, read, handle, close_stream, cancel, close_conn,
}

-- the messages of the rounds that had one
unfoldable pub messages_of : List Turn → List Message
messages_of [] = []
messages_of (received m writes ∷ ts) = m ∷ messages_of ts
messages_of (_ ∷ ts) = messages_of ts

-- the message that has been read and is not handled yet
abbrev pub in_hand : Reader → List Message
in_hand (handles m) = m ∷ []
in_hand _ = []

-- no round has ended the loop
unfoldable pub AllOn : List Turn → Type 0
AllOn [] = Unit
AllOn (t ∷ ts) = ((turn t).1 ≡ true) × AllOn ts

-- while the reader is in its loop
unfoldable pub IsOn : Reader → List Turn → Type 0
IsOn checks ts = AllOn ts
IsOn reads ts = AllOn ts
IsOn (handles m) ts = AllOn ts
IsOn _ ts = Unit

-- the way of the messages
pub record IsHeard (arrived incoming : List Message) (turns : List Turn) (actions : List Action)
    (reader : Reader) : Type 0 where
  pub in_order : messages_of turns ++ (in_hand reader ++ incoming) ≡ arrived
  pub done : actions ≡ relay turns
  pub on : IsOn reader turns

messages_of-snoc :
    (ts : List Turn) (m : Message) (w : Bool)
    → messages_of (ts ++ received m w ∷ []) ≡ messages_of ts ++ m ∷ []
unfolding messages_of
messages_of-snoc [] m w = refl
messages_of-snoc (Turn.output_ended ∷ ts) m w = messages_of-snoc ts m w
messages_of-snoc (Turn.read_failed ∷ ts) m w = messages_of-snoc ts m w
messages_of-snoc (received n v ∷ ts) m w = ap (λ l. n ∷ l) (messages_of-snoc ts m w)

AllOn-snoc : (ts : List Turn) (t : Turn) → AllOn ts → (turn t).1 ≡ true → AllOn (ts ++ t ∷ [])
unfolding AllOn
AllOn-snoc [] t on h = (h, tt)
AllOn-snoc (x ∷ ts) t (on, ons) h = (on, AllOn-snoc ts t ons h)

last_round : (b : Bool) → (if b then relay [] else []) ≡ []
unfolding relay
last_round true = refl
last_round false = refl

-- A round after rounds that all go on adds its own calls to theirs.
relay-snoc : (ts : List Turn) (t : Turn) → AllOn ts → relay (ts ++ t ∷ []) ≡ relay ts ++ (turn t).0
unfolding AllOn relay
relay-snoc [] t on =
    ap (λ l. (turn t).0 ++ l) (unfold relay in last_round (turn t).1) ∙ append-nil (turn t).0
relay-snoc (x ∷ ts) t (on, ons) = rw on (
    ap (λ l. (turn x).0 ++ l) (relay-snoc ts t ons)
    ∙ sym (append_assoc (turn x).0 (relay ts) (turn t).0))

in_hand-after_turn : (b : Bool) → in_hand (after_turn b) ≡ []
in_hand-after_turn true = refl
in_hand-after_turn false = refl

after_turn-IsOn :
    (b : Bool) (ts : List Turn) (t : Turn)
    → (turn t).1 ≡ b
    → AllOn ts
    → IsOn (after_turn b) (ts ++ t ∷ [])
unfolding IsOn
after_turn-IsOn true ts t e on = AllOn-snoc ts t on e
after_turn-IsOn false ts t e on = tt

handled-IsHeard :
    (s : Relay) (m : Message) (writes : Bool)
    → IsHeard s.arrived s.incoming s.turns s.actions (handles m)
    → let t = handled s m writes in IsHeard t.arrived t.incoming t.turns t.actions t.reader
unfolding handled IsOn
handled-IsHeard s m writes v =
    let t = received m writes in
    record {
      in_order =
          rw (in_hand-after_turn (turn t).1, messages_of-snoc s.turns m writes)
            (append_assoc (messages_of s.turns) (m ∷ []) s.incoming ∙ v.in_order);
      done = ap (λ l. l ++ (turn t).0) v.done ∙ sym (relay-snoc s.turns t v.on);
      on = after_turn-IsOn (turn t).1 s.turns t refl v.on;
    }

-- the invariant at what the reader is known to be
at_reader :
    (s : Relay) {r : Reader}
    → s.reader ≡ r
    → IsHeard s.arrived s.incoming s.turns s.actions s.reader
    → IsHeard s.arrived s.incoming s.turns s.actions r
at_reader s e v = subst (λ r. IsHeard s.arrived s.incoming s.turns s.actions r) e v

pub ReaderStep-IsHeard :
    {s t : Relay}
    → ReaderStep s t
    → IsHeard s.arrived s.incoming s.turns s.actions s.reader
    → IsHeard t.arrived t.incoming t.turns t.actions t.reader
unfolding IsOn
ReaderStep-IsHeard {s} (check_done e d) v =
    let w = at_reader s e v in record { in_order = w.in_order; done = w.done; on = tt }
ReaderStep-IsHeard {s} (check_on e d) v =
    let w = at_reader s e v in record { in_order = w.in_order; done = w.done; on = w.on }
ReaderStep-IsHeard {s} (read_fails e) v =
    let w = at_reader s e v in record { in_order = w.in_order; done = w.done; on = tt }
ReaderStep-IsHeard {s} (read {m} {rest} e i) v =
    let w = at_reader s e v in
    record {
      in_order = ap (λ l. messages_of s.turns ++ l) (sym i) ∙ w.in_order;
      done = w.done;
      on = w.on;
    }
ReaderStep-IsHeard {s} (handle {m} writes e open_stream) v =
    handled-IsHeard s m writes (at_reader s e v)
ReaderStep-IsHeard {s} (close_stream e) v =
    let w = at_reader s e v in record { in_order = w.in_order; done = w.done; on = tt }
ReaderStep-IsHeard {s} (cancel e) v =
    let w = at_reader s e v in record { in_order = w.in_order; done = w.done; on = tt }
ReaderStep-IsHeard {s} (close_conn e) v =
    let w = at_reader s e v in record { in_order = w.in_order; done = w.done; on = tt }
