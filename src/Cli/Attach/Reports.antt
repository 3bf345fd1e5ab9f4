-- ===== src/Cli/Attach/Reports.antt =====
-- What is reported to Connect, and what it returns, in any order of its goroutines' steps.
use agentsty.Prelude.{
  ℕ, ◌+◌, ◌≤◌, ◌≡◌, refl, sym, ap, ◌∙◌, ◌≢◌, Bool, true, false, Option, none, some, List, [], ◌∷◌,
  ◌++◌, Str, arith, subst,
}
use mathlib.Core.Bool.{false≢true}
use agentsty.Terminal.Streams.{length, length-snoc}
use agentsty.Cli.Attach.{
  Frame, binary_frame, text_frame, other_frame, Sender, sender_returned, Receiver, receives, prints,
  reports_closed, reports_print, receiver_closed, receiver_failed, Caller, waits, connect_returned,
  Attached, attached_client, after_write, after_frame, SenderStep, read_some, read_ends, write,
  write_fails, report_write, ReceiverStep, receive, receive_fails, print, print_fails,
  report_closed, report_print, CallerStep, cancel, take_error,
}

-- how many reports each goroutine may still make
abbrev pub sender_owes : Sender → ℕ
sender_owes (sender_returned lost) = 0
sender_owes _ = 1

abbrev pub receiver_owes : Receiver → ℕ
receiver_owes receiver_closed = 0
receiver_owes (receiver_failed p) = 0
receiver_owes _ = 1

-- where Connect has returned without an error, the connection has ended
pub Ended : Caller → Receiver → Type 0
Ended (connect_returned none) r = r ≡ receiver_closed
Ended _ r = Unit

-- Each report without an error is the receiver's, of a connection that has ended
pub Backed : Receiver → List (Option Str) → Type 0
Backed r [] = Unit
Backed r (some e ∷ es) = Backed r es
Backed r (none ∷ es) = (r ≡ receiver_closed) × Backed r es

Backed-moved :
    (r r' : Receiver) (es : List (Option Str)) → r ≢ receiver_closed → Backed r es → Backed r' es
unfolding Backed
Backed-moved r r' [] open_yet b = tt
Backed-moved r r' (some e ∷ es) open_yet b = Backed-moved r r' es open_yet b
Backed-moved r r' (none ∷ es) open_yet (closed, b) = absurd (open_yet closed)

Backed-snoc_some :
    (r : Receiver) (es : List (Option Str)) (e : Str) → Backed r es → Backed r (es ++ some e ∷ [])
unfolding Backed
Backed-snoc_some r [] e b = tt
Backed-snoc_some r (some x ∷ es) e b = Backed-snoc_some r es e b
Backed-snoc_some r (none ∷ es) e (closed, b) = (closed, Backed-snoc_some r es e b)

Backed-snoc_none :
    (es : List (Option Str)) → Backed receiver_closed es → Backed receiver_closed (es ++ none ∷ [])
unfolding Backed
Backed-snoc_none [] b = (refl, tt)
Backed-snoc_none (some x ∷ es) b = Backed-snoc_none es b
Backed-snoc_none (none ∷ es) (closed, b) = (closed, Backed-snoc_none es b)

Ended-moved : (c : Caller) (r r' : Receiver) → r ≢ receiver_closed → Ended c r → Ended c r'
unfolding Ended
Ended-moved waits r r' open_yet e = tt
Ended-moved (connect_returned none) r r' open_yet e = absurd (open_yet e)
Ended-moved (connect_returned (some x)) r r' open_yet e = tt

is_closed : Receiver → Bool
is_closed receiver_closed = true
is_closed _ = false

-- a receiver that is elsewhere has not closed
not_closed : (r r' : Receiver) → r ≡ r' → is_closed r' ≡ false → r ≢ receiver_closed
unfolding is_closed
not_closed r r' e open_yet closed = false≢true (sym open_yet ∙ ap is_closed (sym e ∙ closed))

-- the reports that wait and those that may still come
abbrev pub reports : Attached → ℕ
reports s = length s.errs + (sender_owes s.sender + receiver_owes s.receiver)

after_write-owes : (last : Bool) → sender_owes (after_write last) ≤ 1
after_write-owes true = omega arith
after_write-owes false = omega arith

after_frame-owes : (f : Frame) → receiver_owes (after_frame f) ≡ 1
after_frame-owes (binary_frame p) = refl
after_frame-owes (text_frame p) = refl
after_frame-owes (other_frame p) = refl

pub SenderStep-reports : {s t : Attached} → SenderStep s t → reports t ≤ reports s
SenderStep-reports {s} (read_some p last e some_text) = omega (arith, ap sender_owes e)
SenderStep-reports {s} (read_ends e) = omega (arith, ap sender_owes e)
SenderStep-reports {s} (write {p} {last} e open_conn) =
    omega (arith, ap sender_owes e, after_write-owes last)
SenderStep-reports {s} (write_fails x e) = omega (arith, ap sender_owes e)
SenderStep-reports {s} (report_write {p} {e = x} e r) =
    omega (arith, ap sender_owes e, length-snoc s.errs (some x))

pub ReceiverStep-reports : {s t : Attached} → ReceiverStep s t → reports t ≤ reports s
ReceiverStep-reports {s} (receive f e) = omega (arith, ap receiver_owes e, after_frame-owes f)
ReceiverStep-reports {s} (receive_fails e) = omega (arith, ap receiver_owes e)
ReceiverStep-reports {s} (print e) = omega (arith, ap receiver_owes e)
ReceiverStep-reports {s} (print_fails x e) = omega (arith, ap receiver_owes e)
ReceiverStep-reports {s} (report_closed e r) =
    omega (arith, ap receiver_owes e, length-snoc s.errs none)
ReceiverStep-reports {s} (report_print {p} {e = x} e r) =
    omega (arith, ap receiver_owes e, length-snoc s.errs (some x))

pub CallerStep-reports : {s t : Attached} → CallerStep s t → reports t ≤ reports s
CallerStep-reports (cancel x e) = omega arith
CallerStep-reports {s} (take_error e q) = omega (arith, ap length q)

-- the reports and what Connect has returned
pub record IsBacked (s : Attached) : Type 0 where
  pub backed : Backed s.receiver s.errs
  pub ended : Ended s.caller s.receiver

pub SenderStep-IsBacked : {s t : Attached} → SenderStep s t → IsBacked s → IsBacked t
SenderStep-IsBacked (read_some p last e some_text) b = record { backed = b.backed; ended = b.ended }
SenderStep-IsBacked (read_ends e) b = record { backed = b.backed; ended = b.ended }
SenderStep-IsBacked (write e open_conn) b = record { backed = b.backed; ended = b.ended }
SenderStep-IsBacked (write_fails x e) b = record { backed = b.backed; ended = b.ended }
SenderStep-IsBacked {s} (report_write {p} {e = x} e r) b = record {
  backed = Backed-snoc_some s.receiver s.errs x b.backed;
  ended = b.ended;
}

-- a receiver that has not closed moves on
moved :
    (s : Attached) (r' : Receiver)
    → s.receiver ≢ receiver_closed
    → IsBacked s
    → Backed r' s.errs × Ended s.caller r'
moved s r' open_yet b = (
  Backed-moved s.receiver r' s.errs open_yet b.backed,
  Ended-moved s.caller s.receiver r' open_yet b.ended,
)

pub ReceiverStep-IsBacked : {s t : Attached} → ReceiverStep s t → IsBacked s → IsBacked t
unfolding is_closed
ReceiverStep-IsBacked {s} (receive f e) b =
    let (backed, ended) = moved s (after_frame f) (not_closed s.receiver receives e refl) b in
    record { backed = backed; ended = ended }
ReceiverStep-IsBacked {s} (receive_fails e) b =
    let (backed, ended) = moved s reports_closed (not_closed s.receiver receives e refl) b in
    record { backed = backed; ended = ended }
ReceiverStep-IsBacked {s} (print {p} e) b =
    let (backed, ended) = moved s receives (not_closed s.receiver (prints p) e refl) b in
    record { backed = backed; ended = ended }
ReceiverStep-IsBacked {s} (print_fails {p} x e) b =
    let (backed, ended) = moved s (reports_print p x) (not_closed s.receiver (prints p) e refl) b in
    record { backed = backed; ended = ended }
ReceiverStep-IsBacked {s} (report_closed e r) b =
    let (backed, ended) = moved s receiver_closed (not_closed s.receiver reports_closed e refl) b in
    record { backed = Backed-snoc_none s.errs backed; ended = ended }
ReceiverStep-IsBacked {s} (report_print {p} {e = x} e r) b =
    let (backed, ended) =
      moved s (receiver_failed p) (not_closed s.receiver (reports_print p x) e refl) b in
    record { backed = Backed-snoc_some (receiver_failed p) s.errs x backed; ended = ended }

taken :
    (r : Receiver) (e : Option Str) (es : List (Option Str))
    → Backed r (e ∷ es)
    → Backed r es × Ended (connect_returned e) r
unfolding Backed Ended
taken r none es (closed, b) = (b, closed)
taken r (some x) es b = (b, tt)

pub CallerStep-IsBacked : {s t : Attached} → CallerStep s t → IsBacked s → IsBacked t
unfolding Ended
CallerStep-IsBacked (cancel x e) b = record { backed = b.backed; ended = tt }
CallerStep-IsBacked {s} (take_error {e} {rest} w q) b =
    let (backed, ended) = taken s.receiver e rest (subst (Backed s.receiver) q b.backed) in
    record { backed = backed; ended = ended }

pub attached_client-IsBacked : IsBacked attached_client
unfolding attached_client Backed Ended
attached_client-IsBacked = record { backed = tt; ended = tt }
