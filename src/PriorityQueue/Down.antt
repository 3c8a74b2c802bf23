-- ===== src/PriorityQueue/Down.antt =====
-- src/util/priority_queue.h: `try_push` and `sift_down` restore the heap order below a cell.
use pbnf.Base.{
  ℕ, zero, suc, ◌+◌, ◌-◌, ◌*◌, ◌≤◌, ◌<◌, ◌≡◌, Bool, false, List, some, arith, length, set,
  length-set, get_or-set, Bool-cases, inl, inr, ltb, if◌then◌else◌,
}
use pbnf.PriorityQueue.{
  Pq, cell, parent_of, left_of, fill, set_index, write, push_child, try_push, sift_down,
}
use pbnf.PriorityQueue.Order.{IsStrictOrder, IsHeap, IsHeapAround, IsAbove, IsBelow, IsHeap-set}

module _ (pred : ℕ → ℕ → Bool) (o : IsStrictOrder pred) where
  -- `m` is the first of the children of `i`.
  pub record IsPushChild (a : List ℕ) (i m : ℕ) : Type 0 where
    pub inside : m < length a
    pub lower : i < m
    pub child : parent_of m ≡ i
    pub least : IsBelow pred a i (cell a m)

  pub push_child-IsPushChild :
      (q : Pq) (i : ℕ) → left_of i < fill q → IsPushChild q.heap i (push_child pred q i)
  unfolding push_child
  push_child-IsPushChild q i h = record {
    inside = ground arith;
    lower = ground arith;
    child = ground arith;
    least = λ c p r s. ground (
      arith,
      o.asym (cell q.heap (2 * i + 2)) (cell q.heap (2 * i + 1)),
      o.asym (cell q.heap c) (cell q.heap c),
    );
  }

  module _ (a : List ℕ) (i m : ℕ) (h : IsHeapAround pred a i) (s : IsPushChild a i m) where
    IsHeapAround-sink : IsHeapAround pred (set a i (cell a m)) m
    IsHeapAround-sink = record {
      inside = omega (arith, length-set a i (cell a m), s.inside);
      edges = λ c p q r t.
          rw
            (
              get_or-set a i c (cell a m) 0 h.inside,
              get_or-set a i (parent_of c) (cell a m) 0 h.inside,
            )
            (ground (
              arith,
              length-set a i (cell a m),
              s.child,
              h.edges c,
              h.bridged m,
              s.least c,
              s.inside,
              s.lower,
            ));
      bridged = λ c p q r t.
          rw
            (
              get_or-set a i c (cell a m) 0 h.inside,
              get_or-set a i (parent_of m) (cell a m) 0 h.inside,
            )
            (ground (arith, length-set a i (cell a m), s.child, s.lower, h.edges c));
    }

    IsAbove-sink : (e : ℕ) → pred e (cell a m) ≡ false → IsAbove pred (set a i (cell a m)) m e
    IsAbove-sink e worse p =
        rw (get_or-set a i (parent_of m) (cell a m) 0 h.inside) (ground (arith, s.child, worse))

  pub record Sunk (e : ℕ) (a : List ℕ) (j : ℕ) : Type 0 where
    pub around : IsHeapAround pred a j
    pub above : IsAbove pred a j e
    pub below : IsBelow pred a j e

  pub try_push-Sunk :
      (k : ℕ) (q : Pq) (e i : ℕ)
      → fill q ≤ k + i
      → IsHeapAround pred q.heap i
      → IsAbove pred q.heap i e
      → Sunk e (try_push pred k q e i).0.heap (try_push pred k q e i).1
  unfolding try_push
  try_push-Sunk zero q e i f h b = absurd (omega (arith, h.inside))
  try_push-Sunk (suc k) q e i f h b = elim (Bool-cases (ltb (left_of i) (fill q))) [
    | inl inner ↦
        rw inner
          (node (push_child pred q i) (push_child-IsPushChild q i (ground arith)) (try_push-Sunk k))
    | inr leaf ↦
        rw leaf (record { around = h; above = b; below = λ c p r s. absurd (ground arith) })
  ]
    where
      node :
          (m : ℕ)
          → IsPushChild q.heap i m
          → ((q : Pq) (e i : ℕ)
              → fill q ≤ k + i
              → IsHeapAround pred q.heap i
              → IsAbove pred q.heap i e
              → Sunk e (try_push pred k q e i).0.heap (try_push pred k q e i).1)
          → Sunk e
              (if pred e (cell q.heap m)
                then (q, i)
                else try_push pred k
                    (set_index (write q i (cell q.heap m)) (cell q.heap m) (some i))
                    e
                    m).0.heap
              (if pred e (cell q.heap m)
                then (q, i)
                else try_push pred k
                    (set_index (write q i (cell q.heap m)) (cell q.heap m) (some i))
                    e
                    m).1
      node m s ih = elim (Bool-cases (pred e (cell q.heap m))) [
        | inl better ↦ rw better (record {
          around = h;
          above = b;
          below = λ c p r t. ground (
            arith,
            s.least c,
            o.asym e (cell q.heap m),
            o.trans e (cell q.heap m) (cell q.heap c),
          );
        })
        | inr worse ↦ rw worse (
            ih (set_index (write q i (cell q.heap m)) (cell q.heap m) (some i)) e m
              (omega (arith, length-set q.heap i (cell q.heap m), s.lower))
              (IsHeapAround-sink q.heap i m h s) (IsAbove-sink q.heap i m h s e worse))
      ]

  -- `sift_down` makes a heap of an array that is in order but for what is below `i`.
  pub sift_down-IsHeap :
      (q : Pq) (e i : ℕ)
      → IsHeapAround pred q.heap i
      → IsAbove pred q.heap i e
      → IsHeap pred (sift_down pred q e i).0.heap
  unfolding sift_down
  sift_down-IsHeap q e i h b =
      let s = try_push-Sunk (fill q - i) q e i (omega (arith, h.inside)) h b in
      IsHeap-set pred _ _ e s.around s.above s.below
