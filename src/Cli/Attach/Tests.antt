-- ===== src/Cli/Attach/Tests.antt =====
-- A run of Connect: a text is typed and sent, a frame comes and is printed, and the connection ends.
use agentsty.Prelude.{refl, false, true, none, [], ◌∷◌, codes, arith}
use agentsty.Cli.Attach.{
  Attached, attached_client, binary_frame, receiver_closed, connect_returned, by_sender,
  by_receiver, by_caller, read_some, write, receive, print, receive_fails, report_closed,
  take_error, Reach, start, later,
}
use agentsty.Cli.Attach.Copies.{IsCopied, Reach-IsCopied}

abbrev over : Attached
over = record attached_client {
  read_in = codes "ls" ∷ [];
  sent = codes "ls" ∷ [];
  frames = binary_frame (codes "a b") ∷ [];
  shown = codes "a b" ∷ [];
  receiver = receiver_closed;
  caller = connect_returned none;
  conn_closed = true;
}

reach_over : Reach over
unfolding attached_client
reach_over =
    later
      (later
        (later
          (later
            (later
              (later (later start (by_sender (read_some (codes "ls") false refl (λ e. cc))))
                (by_sender (write refl refl)))
              (by_receiver (receive (binary_frame (codes "a b")) refl)))
            (by_receiver (print refl)))
          (by_receiver (receive_fails refl)))
        (by_receiver (report_closed refl (omega arith))))
      (by_caller (take_error refl refl))

Reach-IsCopied_example : IsCopied over
Reach-IsCopied_example = Reach-IsCopied reach_over
