-- ===== src/Terminal/Streams/Echoing.antt =====
-- The echo stream over any sequence of writes, receives and closes.
use agentsty.Prelude.{
  ℕ, ◌≤◌, ◌≡◌, refl, ap, sym, ◌∙◌, some, List, [], ◌∷◌, ◌++◌, append_assoc, Str, codes, arith,
  subst, Bool,
}
use agentsty.Terminal.Streams.{
  length-snoc, EchoStream, echo_start, echo_capacity, accepted, EchoWrite, send, echo_receive,
  echo_close, length,
}
use mathlib.Core.Option.{none-ne-some, some-injective}

-- The texts that were accepted and those that were received on the way to a stream.
pub data Reach : List Str → List Str → EchoStream → Type 0 where
  started : Reach [] [] echo_start
  writes :
      {ws rs : List Str} {s s' : EchoStream} {p : Str} {n : ℕ}
      → Reach ws rs s
      → EchoWrite p s s' (accepted n)
      → Reach (ws ++ p ∷ []) rs s'
  receives :
      {ws rs : List Str} {s s' : EchoStream} {p : Str}
      → Reach ws rs s
      → echo_receive s ≡ some (p, s')
      → Reach ws (rs ++ p ∷ []) s'
  closes : {ws rs : List Str} {s : EchoStream} → Reach ws rs s → Reach ws rs (echo_close s)

abbrev pub banner : Str
banner = codes "cask terminal ready\n"

-- What was received and what waits are the banner and what was accepted, and the channel's room holds.
pub record IsEcho (ws rs : List Str) (s : EchoStream) : Type 0 where
  pub echoed : rs ++ s.out ≡ banner ∷ ws
  pub bounded : length s.out ≤ echo_capacity

writes-IsEcho :
    {ws rs : List Str} {s s' : EchoStream} {p : Str} {n : ℕ}
    → IsEcho ws rs s
    → EchoWrite p s s' (accepted n)
    → IsEcho (ws ++ p ∷ []) rs s'
writes-IsEcho {ws} {rs} {s} {s'} {p} v (send is_open room) = record {
  echoed = sym (append_assoc rs s.out (p ∷ [])) ∙ ap (λ l. l ++ p ∷ []) v.echoed;
  bounded = omega (arith, room, length-snoc s.out p);
}

-- Taking the oldest text that waits keeps the law.
takes-IsEcho :
    {ws rs rest : List Str} {c : Bool} {p : Str}
    → IsEcho ws rs (record { out = p ∷ rest; closed = c })
    → IsEcho ws (rs ++ p ∷ []) (record { out = rest; closed = c })
takes-IsEcho {ws} {rs} {rest} {c} {p} v = record {
  echoed = append_assoc rs (p ∷ []) rest ∙ v.echoed;
  bounded = omega (arith, v.bounded);
}

receives-IsEcho :
    {ws rs : List Str} (out : List Str) (c : Bool) {s' : EchoStream} {p : Str}
    → IsEcho ws rs (record { out = out; closed = c })
    → echo_receive (record { out = out; closed = c }) ≡ some (p, s')
    → IsEcho ws (rs ++ p ∷ []) s'
unfolding echo_receive
receives-IsEcho [] c v e = absurd (none-ne-some _ e)
receives-IsEcho {ws} {rs} (q ∷ rest) c v e =
    subst (λ (x : Str × EchoStream). IsEcho ws (rs ++ x.0 ∷ []) x.1) (some-injective _ _ e)
      (takes-IsEcho v)

-- From the start, whatever is written, received and closed: the texts received and then those that
-- wait are the banner and the texts whose write was accepted, in order, and at most sixteen wait.
pub Reach-IsEcho : {ws rs : List Str} {s : EchoStream} → Reach ws rs s → IsEcho ws rs s
unfolding echo_start echo_close
Reach-IsEcho started = record { echoed = refl; bounded = omega arith }
Reach-IsEcho (writes r w) = writes-IsEcho (Reach-IsEcho r) w
Reach-IsEcho (receives {s = s} r e) = receives-IsEcho s.out s.closed (Reach-IsEcho r) e
Reach-IsEcho (closes r) =
    let v = Reach-IsEcho r in record { echoed = v.echoed; bounded = v.bounded }
