-- ===== src/Cli/Attach.antt =====
-- internal/cli/client.go: Connect, once it has dialled: the goroutine that copies its input to the
-- connection, the one that copies the connection to its output, and the select that waits for an error or
-- for the end of the context. Each step of one of them is a step of the whole, in any order; Connect
-- itself closes the connection when it returns, and the goroutines may go on.
-- A read of the input that gives nothing and no error is no step.
pub mod Reports
pub mod Copies
pub mod Tests
use agentsty.Prelude.{
  ℕ, ◌<◌, ◌≡◌, ◌≢◌, Bool, true, false, Option, none, some, List, [], ◌∷◌, ◌++◌, Str,
}
use agentsty.Terminal.Streams.{length}

-- what websocket.ReadMessage gives
pub data Frame : Type 0 where
  binary_frame : Str → Frame
  text_frame : Str → Frame
  other_frame : Str → Frame

-- the copying of the input; a text whose write failed is kept, as lost
pub data Sender : Type 0 where
  reads_in : Sender
  writes : Str → Bool → Sender
  reports_write : Str → Str → Sender
  sender_returned : List Str → Sender

-- the copying to the output; a text whose printing failed is kept, as lost
pub data Receiver : Type 0 where
  receives : Receiver
  prints : Str → Receiver
  reports_closed : Receiver
  reports_print : Str → Str → Receiver
  receiver_closed : Receiver
  receiver_failed : Str → Receiver

pub data Caller : Type 0 where
  waits : Caller
  connect_returned : Option Str → Caller

-- `read_in` is what the input gave, `sent` what the connection took, `frames` what came from it, `shown`
-- what was printed; `errs` waits in errCh, which has room for two.
pub record Attached : Type 0 where
  pub read_in : List Str
  pub sent : List Str
  pub frames : List Frame
  pub shown : List Str
  pub errs : List (Option Str)
  pub sender : Sender
  pub receiver : Receiver
  pub caller : Caller
  pub conn_closed : Bool

abbrev pub errs_capacity : ℕ
errs_capacity = 2

unfoldable pub attached_client : Attached
attached_client = record {
  read_in = [];
  sent = [];
  frames = [];
  shown = [];
  errs = [];
  sender = reads_in;
  receiver = receives;
  caller = waits;
  conn_closed = false;
}

-- the input ended with the text that was written, or goes on
abbrev pub after_write : Bool → Sender
after_write true = sender_returned []
after_write false = reads_in

abbrev pub after_frame : Frame → Receiver
after_frame (binary_frame p) = prints p
after_frame (text_frame p) = prints p
after_frame (other_frame p) = receives

-- `last` says that the read gave an error with the text
pub data SenderStep (s : Attached) : Attached → Type 0 where
  read_some :
      (p : Str) (last : Bool)
      → s.sender ≡ reads_in
      → p ≢ []
      → SenderStep s (record s { sender = writes p last; read_in = s.read_in ++ p ∷ [] })
  read_ends : s.sender ≡ reads_in → SenderStep s (record s { sender = sender_returned [] })
  write :
      {p : Str} {last : Bool}
      → s.sender ≡ writes p last
      → s.conn_closed ≡ false
      → SenderStep s (record s { sender = after_write last; sent = s.sent ++ p ∷ [] })
  write_fails :
      {p : Str} {last : Bool} (e : Str)
      → s.sender ≡ writes p last
      → SenderStep s (record s { sender = reports_write p e })
  report_write :
      {p e : Str}
      → s.sender ≡ reports_write p e
      → length s.errs < errs_capacity
      → SenderStep s (record s { sender = sender_returned (p ∷ []); errs = s.errs ++ some e ∷ [] })

pub data ReceiverStep (s : Attached) : Attached → Type 0 where
  receive :
      (f : Frame)
      → s.receiver ≡ receives
      → ReceiverStep s (record s { receiver = after_frame f; frames = s.frames ++ f ∷ [] })
  receive_fails : s.receiver ≡ receives → ReceiverStep s (record s { receiver = reports_closed })
  print :
      {p : Str}
      → s.receiver ≡ prints p
      → ReceiverStep s (record s { receiver = receives; shown = s.shown ++ p ∷ [] })
  print_fails :
      {p : Str} (e : Str)
      → s.receiver ≡ prints p
      → ReceiverStep s (record s { receiver = reports_print p e })
  report_closed :
      s.receiver ≡ reports_closed
      → length s.errs < errs_capacity
      → ReceiverStep s (record s { receiver = receiver_closed; errs = s.errs ++ none ∷ [] })
  report_print :
      {p e : Str}
      → s.receiver ≡ reports_print p e
      → length s.errs < errs_capacity
      → ReceiverStep s (record s { receiver = receiver_failed p; errs = s.errs ++ some e ∷ [] })

-- the select, and the deferred Close
pub data CallerStep (s : Attached) : Attached → Type 0 where
  cancel :
      (e : Str)
      → s.caller ≡ waits
      → CallerStep s (record s { caller = connect_returned (some e); conn_closed = true })
  take_error :
      {e : Option Str} {rest : List (Option Str)}
      → s.caller ≡ waits
      → s.errs ≡ e ∷ rest
      → CallerStep s (record s { caller = connect_returned e; errs = rest; conn_closed = true })

pub data Step (s t : Attached) : Type 0 where
  by_sender : SenderStep s t → Step s t
  by_receiver : ReceiverStep s t → Step s t
  by_caller : CallerStep s t → Step s t

pub data Reach : Attached → Type 0 where
  start : Reach attached_client
  later : {s t : Attached} → Reach s → Step s t → Reach t
