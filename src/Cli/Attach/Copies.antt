-- ===== src/Cli/Attach/Copies.antt =====
-- What Connect copies, and what it returns, in any order of its goroutines' steps.
use agentsty.Prelude.{
  ◌+◌, ◌≤◌, ◌≡◌, refl, sym, ap, ◌∙◌, Bool, true, false, List, [], ◌∷◌, ◌++◌, append-nil, Str, arith,
  subst,
}
use agentsty.Terminal.Streams.{length}
use agentsty.Cli.Attach.{
  Frame, binary_frame, text_frame, other_frame, Sender, reads_in, writes, reports_write,
  sender_returned, Receiver, prints, reports_print, receiver_failed, Attached, errs_capacity,
  attached_client, after_write, after_frame, SenderStep, read_some, read_ends, write, write_fails,
  report_write, ReceiverStep, receive, receive_fails, print, print_fails, report_closed,
  report_print, CallerStep, cancel, take_error, Step, by_sender, by_receiver, by_caller, Reach,
  start, later,
}
use agentsty.Cli.Attach.Reports.{
  sender_owes, receiver_owes, Ended, reports, IsBacked, SenderStep-reports, ReceiverStep-reports,
  CallerStep-reports, SenderStep-IsBacked, ReceiverStep-IsBacked, CallerStep-IsBacked,
  attached_client-IsBacked,
}

-- the texts of the frames that are printed
pub texts_of : List Frame → List Str
texts_of [] = []
texts_of (binary_frame p ∷ fs) = p ∷ texts_of fs
texts_of (text_frame p ∷ fs) = p ∷ texts_of fs
texts_of (other_frame p ∷ fs) = texts_of fs

abbrev pub unsent : Sender → List Str
unsent reads_in = []
unsent (writes p last) = p ∷ []
unsent (reports_write p e) = p ∷ []
unsent (sender_returned lost) = lost

abbrev pub unshown : Receiver → List Str
unshown (prints p) = p ∷ []
unshown (reports_print p e) = p ∷ []
unshown (receiver_failed p) = p ∷ []
unshown _ = []

pub record IsCopied (s : Attached) : Type 0 where
  pub sent_in_order : s.sent ++ unsent s.sender ≡ s.read_in
  pub shown_in_order : s.shown ++ unshown s.receiver ≡ texts_of s.frames
  pub room : length s.errs + (sender_owes s.sender + receiver_owes s.receiver) ≤ errs_capacity
  pub ended : Ended s.caller s.receiver

texts_of-snoc :
    (fs : List Frame) (f : Frame) → texts_of (fs ++ f ∷ []) ≡ texts_of fs ++ unshown (after_frame f)
unfolding texts_of
texts_of-snoc [] (binary_frame p) = refl
texts_of-snoc [] (text_frame p) = refl
texts_of-snoc [] (other_frame p) = refl
texts_of-snoc (binary_frame q ∷ fs) f = ap (λ l. q ∷ l) (texts_of-snoc fs f)
texts_of-snoc (text_frame q ∷ fs) f = ap (λ l. q ∷ l) (texts_of-snoc fs f)
texts_of-snoc (other_frame q ∷ fs) f = texts_of-snoc fs f

-- the invariants at what a goroutine is known to be
Sends : Attached → Sender → Type 0
Sends s x = s.sent ++ unsent x ≡ s.read_in

Shows : Attached → Receiver → Type 0
Shows s x = s.shown ++ unshown x ≡ texts_of s.frames

SenderStep-Sends : {s t : Attached} → SenderStep s t → Sends s s.sender → Sends t t.sender
unfolding Sends
SenderStep-Sends {s} (read_some p last e some_text) h =
    ap (λ l. l ++ p ∷ []) (sym (append-nil s.sent) ∙ subst (Sends s) e h)
SenderStep-Sends {s} (read_ends e) h = subst (Sends s) e h
SenderStep-Sends {s} (write {p} {last} e open_conn) h =
    after_write_sent last ∙ append-nil (s.sent ++ p ∷ []) ∙ subst (Sends s) e h
  where
    after_write_sent :
        (last : Bool) → (s.sent ++ p ∷ []) ++ unsent (after_write last) ≡ (s.sent ++ p ∷ []) ++ []
    after_write_sent true = refl
    after_write_sent false = refl
SenderStep-Sends {s} (write_fails x e) h = subst (Sends s) e h
SenderStep-Sends {s} (report_write e r) h = subst (Sends s) e h

ReceiverStep-Shows : {s t : Attached} → ReceiverStep s t → Shows s s.receiver → Shows t t.receiver
unfolding Shows
ReceiverStep-Shows {s} (receive f e) h =
    ap (λ l. l ++ unshown (after_frame f)) (sym (append-nil s.shown) ∙ subst (Shows s) e h)
    ∙ sym (texts_of-snoc s.frames f)
ReceiverStep-Shows {s} (receive_fails e) h = subst (Shows s) e h
ReceiverStep-Shows {s} (print {p} e) h = append-nil (s.shown ++ p ∷ []) ∙ subst (Shows s) e h
ReceiverStep-Shows {s} (print_fails x e) h = subst (Shows s) e h
ReceiverStep-Shows {s} (report_closed e r) h = subst (Shows s) e h
ReceiverStep-Shows {s} (report_print e r) h = subst (Shows s) e h

record IsKept (s : Attached) : Type 0 where
  sends : Sends s s.sender
  shows : Shows s s.receiver
  few : reports s ≤ errs_capacity
  backed : IsBacked s

SenderStep-showing : {s t : Attached} → SenderStep s t → Shows s s.receiver → Shows t t.receiver
unfolding Shows
SenderStep-showing (read_some p last e some_text) h = h
SenderStep-showing (read_ends e) h = h
SenderStep-showing (write e open_conn) h = h
SenderStep-showing (write_fails x e) h = h
SenderStep-showing (report_write e r) h = h

ReceiverStep-sending : {s t : Attached} → ReceiverStep s t → Sends s s.sender → Sends t t.sender
unfolding Sends
ReceiverStep-sending (receive f e) h = h
ReceiverStep-sending (receive_fails e) h = h
ReceiverStep-sending (print e) h = h
ReceiverStep-sending (print_fails x e) h = h
ReceiverStep-sending (report_closed e r) h = h
ReceiverStep-sending (report_print e r) h = h

CallerStep-sending : {s t : Attached} → CallerStep s t → Sends s s.sender → Sends t t.sender
unfolding Sends
CallerStep-sending (cancel x e) h = h
CallerStep-sending (take_error e q) h = h

CallerStep-showing : {s t : Attached} → CallerStep s t → Shows s s.receiver → Shows t t.receiver
unfolding Shows
CallerStep-showing (cancel x e) h = h
CallerStep-showing (take_error e q) h = h

Step-IsKept : {s t : Attached} → Step s t → IsKept s → IsKept t
Step-IsKept (by_sender st) k = record {
  sends = SenderStep-Sends st k.sends;
  shows = SenderStep-showing st k.shows;
  few = omega (arith, SenderStep-reports st, k.few);
  backed = SenderStep-IsBacked st k.backed;
}
Step-IsKept (by_receiver st) k = record {
  sends = ReceiverStep-sending st k.sends;
  shows = ReceiverStep-Shows st k.shows;
  few = omega (arith, ReceiverStep-reports st, k.few);
  backed = ReceiverStep-IsBacked st k.backed;
}
Step-IsKept (by_caller st) k = record {
  sends = CallerStep-sending st k.sends;
  shows = CallerStep-showing st k.shows;
  few = omega (arith, CallerStep-reports st, k.few);
  backed = CallerStep-IsBacked st k.backed;
}

attached_client-IsKept : IsKept attached_client
unfolding attached_client Sends Shows texts_of
attached_client-IsKept = record {
  sends = refl;
  shows = refl;
  few = omega arith;
  backed = attached_client-IsBacked;
}

Reach-IsKept : {s : Attached} → Reach s → IsKept s
Reach-IsKept start = attached_client-IsKept
Reach-IsKept (later r st) = Step-IsKept st (Reach-IsKept r)

-- However the steps of Connect and its goroutines are interleaved: the texts sent, then the one that is
-- being sent or was lost, are those read from the input, in order; the texts printed, then the one that
-- is being printed or was lost, are those of the binary and text frames received, in order; the channel
-- for errors has room for every report that may still come, so that no goroutine waits at it; and where
-- Connect has returned no error, the reading of the connection has ended.
pub Reach-IsCopied : {s : Attached} → Reach s → IsCopied s
unfolding Sends Shows
Reach-IsCopied r =
    let k = Reach-IsKept r in
    record {
      sent_in_order = k.sends;
      shown_in_order = k.shows;
      room = k.few;
      ended = k.backed.ended;
    }
