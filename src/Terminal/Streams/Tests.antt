-- ===== src/Terminal/Streams/Tests.antt =====
-- Runs of the theorems on the streams.
use agentsty.Prelude.{false, [], ◌∷◌, refl, codes, arith}
use agentsty.Terminal.{Size}
use agentsty.Terminal.Streams.{new_resize_queue, echo_start, echo_receive, send}
use agentsty.Terminal.Streams.Resizing.{
  pushes, nexts, operate, IsServed, operate-new_resize_queue-IsServed,
}
use agentsty.Terminal.Streams.Echoing.{Reach, started, writes, receives, IsEcho, Reach-IsEcho}

abbrev small : Size
small = record { cols = 80; rows = 24 }

operate-new_resize_queue-IsServed_example :
    IsServed
      (pushes small ∷ nexts ∷ nexts ∷ pushes small ∷ [])
      []
      (operate (pushes small ∷ nexts ∷ nexts ∷ pushes small ∷ []) new_resize_queue)
operate-new_resize_queue-IsServed_example =
    operate-new_resize_queue-IsServed (pushes small ∷ nexts ∷ nexts ∷ pushes small ∷ [])

one_written :
    Reach
      (codes "ls" ∷ [])
      []
      (record { out = codes "cask terminal ready\n" ∷ codes "ls" ∷ []; closed = false })
unfolding echo_start
one_written = writes started (send refl (omega arith))

banner_received :
    Reach
      (codes "ls" ∷ [])
      (codes "cask terminal ready\n" ∷ [])
      (record { out = codes "ls" ∷ []; closed = false })
unfolding echo_receive
banner_received = receives one_written refl

Reach-IsEcho_example :
    IsEcho
      (codes "ls" ∷ [])
      (codes "cask terminal ready\n" ∷ [])
      (record { out = codes "ls" ∷ []; closed = false })
Reach-IsEcho_example = Reach-IsEcho banner_received
