-- ===== src/Terminal/Streams/Resizing.antt =====
-- The queue of sizes over any sequence of its operations.
use agentsty.Prelude.{
  ℕ, ◌+◌, ◌<◌, subst, ◌≤◌, ◌≡◌, ap, sym, ◌∙◌, inl, inr, Option, none, some, List, [], ◌∷◌, ◌++◌,
  append-nil, append_assoc, ltb, Bool-cases, arith,
}
use agentsty.Terminal.{Size}
use agentsty.Terminal.Streams.{
  length-snoc, ResizeQueue, length, resize_capacity, new_resize_queue, push, next,
}

pub data Operation : Type 0 where
  pushes : Size → Operation
  nexts : Operation

-- the sizes that are received, and the queue that is left; a Next that has to wait is passed over
abbrev received_one :
    Option (Size × ResizeQueue)
    → ResizeQueue
    → (ResizeQueue → List Size × ResizeQueue)
    → List Size × ResizeQueue
received_one none q rest = rest q
received_one (some (size, q')) q rest = let (sizes, left) = rest q' in (size ∷ sizes, left)

unfoldable pub operate : List Operation → ResizeQueue → List Size × ResizeQueue
unfolding push next
operate [] q = ([], q)
operate (pushes size ∷ ops) q = operate ops (push q size)
operate (nexts ∷ ops) q = received_one (next q) q (operate ops)

pub pushed : List Operation → List Size
pushed [] = []
pushed (pushes size ∷ ops) = size ∷ pushed ops
pushed (nexts ∷ ops) = pushed ops

-- the first list is the second with some of its entries left out
pub data IsSubsequence : List Size → List Size → Type 0 where
  none_left : IsSubsequence [] []
  taken :
      {size : Size} {xs ys : List Size}
      → IsSubsequence xs ys
      → IsSubsequence (size ∷ xs) (size ∷ ys)
  dropped : {size : Size} {xs ys : List Size} → IsSubsequence xs ys → IsSubsequence xs (size ∷ ys)

-- Which of the pushed sizes are kept, by how many wait: a size is lost where eight wait, and only there.
pub data IsKept : ℕ → List Operation → List Size → Type 0 where
  over : {n : ℕ} → IsKept n [] []
  keeps :
      {n : ℕ} {size : Size} {ops : List Operation} {kept : List Size}
      → n < 8
      → IsKept (1 + n) ops kept
      → IsKept n (pushes size ∷ ops) (size ∷ kept)
  loses :
      {n : ℕ} {size : Size} {ops : List Operation} {kept : List Size}
      → 8 ≤ n
      → IsKept n ops kept
      → IsKept n (pushes size ∷ ops) kept
  has_nothing :
      {ops : List Operation} {kept : List Size} → IsKept 0 ops kept → IsKept 0 (nexts ∷ ops) kept
  gives :
      {n : ℕ} {ops : List Operation} {kept : List Size}
      → IsKept n ops kept
      → IsKept (1 + n) (nexts ∷ ops) kept

-- What an operation sequence does to a queue: the sizes received and left are those of the queue,
-- then those pushed that found room; and there is never more than room for.
pub record IsServed (ops : List Operation) (q : ResizeQueue) (outcome : List Size × ResizeQueue)
    : Type 0 where
  pub kept : List Size
  pub in_order : outcome.0 ++ outcome.1 ≡ q ++ kept
  pub unless_full : IsKept (length q) ops kept
  pub from_pushed : IsSubsequence kept (pushed ops)
  pub bounded : length outcome.1 ≤ resize_capacity

operate-IsServed :
    (ops : List Operation) (q : ResizeQueue)
    → length q ≤ resize_capacity
    → IsServed ops q (operate ops q)
unfolding operate push next pushed
operate-IsServed [] q h = record {
  kept = [];
  unless_full = over;
  in_order = sym (append-nil q);
  from_pushed = none_left;
  bounded = h;
}
operate-IsServed (nexts ∷ ops) [] h =
    let v = operate-IsServed ops [] h in
    record {
      kept = v.kept;
      unless_full = has_nothing v.unless_full;
      in_order = v.in_order;
      from_pushed = v.from_pushed;
      bounded = v.bounded;
    }
operate-IsServed (nexts ∷ ops) (size ∷ q) h =
    let v = operate-IsServed ops q (omega arith) in
    record {
      kept = v.kept;
      unless_full = gives v.unless_full;
      in_order = ap (λ l. size ∷ l) v.in_order;
      from_pushed = v.from_pushed;
      bounded = v.bounded;
    }
operate-IsServed (pushes size ∷ ops) q h = elim (Bool-cases (ltb (length q) resize_capacity)) [
  | inl room ↦
      let v = operate-IsServed ops (q ++ size ∷ []) (ground (arith, length-snoc q size)) in
      rw (room, operate)
        (record {
          kept = size ∷ v.kept;
          unless_full =
              keeps (ground (arith, room))
                (subst (λ n. IsKept n ops v.kept) (length-snoc q size) v.unless_full);
          in_order = v.in_order ∙ append_assoc q (size ∷ []) v.kept;
          from_pushed = taken v.from_pushed;
          bounded = v.bounded;
        })
  | inr full ↦
      let v = operate-IsServed ops q h in
      rw (full, operate)
        (record {
          kept = v.kept;
          unless_full = loses (ground (arith, full)) v.unless_full;
          in_order = v.in_order;
          from_pushed = dropped v.from_pushed;
          bounded = v.bounded;
        })
]

-- Whatever is pushed and received, and in whatever order, the sizes received and then those left are
-- the pushed ones in the order in which they were pushed, but for those that were pushed while eight
-- waited; and no more than eight are left.
pub operate-new_resize_queue-IsServed :
    (ops : List Operation) → IsServed ops [] (operate ops new_resize_queue)
unfolding new_resize_queue
operate-new_resize_queue-IsServed ops = operate-IsServed ops [] (omega arith)
