-- ===== src/Terminal/Relaying.antt =====
-- What the read loop passes on to the exec stream.
use agentsty.Prelude.{
  ◌≡◌, refl, ap, ◌↔◌, ◌<◌, inl, inr, true, false, Option, none, some, List, [], ◌∷◌, ◌++◌, Str,
  codes, str_eq_iff, Option-cases, if◌then◌else◌, arith,
}
use agentsty.Terminal.{
  Size, Control, handle_control, binary, text, close, other, Turn, output_ended, read_failed,
  received, Action, wrote, resized, resize, turn, relay,
}

-- handleControl resizes to exactly the size of a message that is a resize to positive numbers.
pub handle_control_iff :
    (msg : Control) (size : Size)
    → (handle_control (some msg) ≡ some size) ↔ (
        (msg.kind_of ≡ codes "resize")
        × (0 < msg.cols)
        × (0 < msg.rows)
        × (size ≡ record { cols = msg.cols; rows = msg.rows }))
unfolding handle_control
handle_control_iff msg size = ground (arith, str_eq_iff msg.kind_of (codes "resize"))

-- the payload of a binary message
pub payload_of : Turn → List Str
payload_of (received (binary payload) writes) = payload ∷ []
payload_of _ = []

-- the payloads that reach the stream
pub written : List Action → List Str
written [] = []
written (wrote payload ∷ rest) = payload ∷ written rest
written (resized size ∷ rest) = written rest

-- every resize is to a positive size
pub AllPositive : List Action → Type 0
AllPositive [] = Unit
AllPositive (wrote payload ∷ rest) = AllPositive rest
AllPositive (resized size ∷ rest) = (0 < size.cols) × (0 < size.rows) × AllPositive rest

-- the rounds up to the first that ends the loop, and with it
pub until_end : List Turn → List Turn
until_end [] = []
until_end (t ∷ ts) = t ∷ (if (turn t).1 then until_end ts else [])

pub payloads : List Turn → List Str
payloads [] = []
payloads (t ∷ ts) = payload_of t ++ payloads ts

IsPositive : Option Size → Type 0
IsPositive none = Unit
IsPositive (some size) = (0 < size.cols) × (0 < size.rows)

handle_control-IsPositive : (o : Option Control) → IsPositive (handle_control o)
unfolding IsPositive
handle_control-IsPositive none = unfold handle_control in tt
handle_control-IsPositive (some msg) = elim (Option-cases (handle_control (some msg))) [
  | inl nothing ↦ rw nothing tt
  | inr (size, some_size) ↦
      rw some_size (let h = (handle_control_iff msg size).0 some_size in rw h.3 (h.1, h.2))
]

resize-written :
    (o : Option Size) (rest : List Action) (expected : List Str)
    → IsPositive o
    → (written rest ≡ expected) × AllPositive rest
    → (written (resize o ++ rest) ≡ expected) × AllPositive (resize o ++ rest)
unfolding IsPositive written AllPositive
resize-written none rest expected h rest_lem = rest_lem
resize-written (some size) rest expected (cols, rows) (same, positive) =
    (same, (cols, rows, positive))

-- The read loop writes to the stream the payloads of the binary messages, in order, up to and with
-- the round that ends it, and resizes it to positive sizes only.
pub relay-written :
    (ts : List Turn) → (written (relay ts) ≡ payloads (until_end ts)) × AllPositive (relay ts)
unfolding relay turn until_end payloads written AllPositive payload_of
relay-written [] = (refl, tt)
relay-written (output_ended ∷ ts) = (refl, tt)
relay-written (read_failed ∷ ts) = (refl, tt)
relay-written (received (binary payload) true ∷ ts) =
    (ap (λ x. payload ∷ x) (relay-written ts).0, (relay-written ts).1)
relay-written (received (binary payload) false ∷ ts) = (refl, tt)
relay-written (received (text msg) writes ∷ ts) =
    resize-written (handle_control msg) (relay ts) _ (handle_control-IsPositive msg)
      (relay-written ts)
relay-written (received close writes ∷ ts) = (refl, tt)
relay-written (received other writes ∷ ts) = relay-written ts
