-- ===== src/PriorityQueue/Up.antt =====
-- src/util/priority_queue.h: `sift_up` restores the heap order above a cell.
use pbnf.Base.{
  ℕ, zero, suc, ◌≤◌, ◌<◌, ◌≡◌, Bool, true, ◌&&◌, List, some, arith, set, length-set, get_or-set,
  Bool-cases, inl, inr, ltb,
}
use pbnf.PriorityQueue.{Pq, cell, parent_of, set_index, write, sift_up_loop}
use pbnf.PriorityQueue.Order.{IsStrictOrder, IsHeapAround, IsAbove, IsBelow}

module _ (pred : ℕ → ℕ → Bool) (o : IsStrictOrder pred) where
  -- Where the loop stops with the hole at `j`: `e` fits under the parent, and if it fitted over the
  -- children before, as `P` says, it does so still.
  pub record Risen (P : Type 0) (e : ℕ) (a : List ℕ) (j : ℕ) : Type 0 where
    pub around : IsHeapAround pred a j
    pub above : IsAbove pred a j e
    pub below : P → IsBelow pred a j e

  module _ (a : List ℕ) (i e : ℕ) (h : IsHeapAround pred a i) (pos : 0 < i) where
    IsHeapAround-lift : IsHeapAround pred (set a i (cell a (parent_of i))) (parent_of i)
    IsHeapAround-lift = record {
      inside = omega (arith, length-set a i (cell a (parent_of i)), h.inside);
      edges = λ c p q r s.
          rw
            (
              get_or-set a i c (cell a (parent_of i)) 0 h.inside,
              get_or-set a i (parent_of c) (cell a (parent_of i)) 0 h.inside,
            )
            (ground (arith, length-set a i (cell a (parent_of i)), h.edges c, h.bridged c));
      bridged = λ c p q r s.
          rw
            (
              get_or-set a i c (cell a (parent_of i)) 0 h.inside,
              get_or-set a i (parent_of (parent_of i)) (cell a (parent_of i)) 0 h.inside,
            )
            (ground (
              arith,
              length-set a i (cell a (parent_of i)),
              h.edges c,
              h.edges (parent_of i),
              o.trans (cell a (parent_of (parent_of i))) (cell a (parent_of i)) (cell a c),
            ));
    }

    IsBelow-lift :
        pred e (cell a (parent_of i)) ≡ true
        → IsBelow pred (set a i (cell a (parent_of i))) (parent_of i) e
    IsBelow-lift better c p q r = rw (get_or-set a i c (cell a (parent_of i)) 0 h.inside) (
        ground (
          arith,
          length-set a i (cell a (parent_of i)),
          h.edges c,
          o.asym e (cell a (parent_of i)),
          o.trans e (cell a (parent_of i)) (cell a c),
        ))

  pub sift_up_loop-Risen :
      (P : Type 0) (k : ℕ) (q : Pq) (e i : ℕ)
      → i ≤ k
      → IsHeapAround pred q.heap i
      → (P → IsBelow pred q.heap i e)
      → Risen P e (sift_up_loop pred k q e i).0.heap (sift_up_loop pred k q e i).1
  unfolding sift_up_loop
  sift_up_loop-Risen P zero q e i f h b = record {
    around = h;
    above = λ pos. absurd (omega arith);
    below = b;
  }
  sift_up_loop-Risen P (suc k) q e i f h b =
      elim (Bool-cases (ltb 0 i && pred e (cell q.heap (parent_of i)))) [
        | inl go ↦ rw go (
            sift_up_loop-Risen P k
              (set_index (write q i (cell q.heap (parent_of i))) (cell q.heap (parent_of i))
                (some i))
              e (parent_of i) (ground arith) (IsHeapAround-lift q.heap i e h (ground arith))
              (λ _. IsBelow-lift q.heap i e h (ground arith) (ground arith)))
        | inr stay ↦ rw stay (record { around = h; above = λ pos. ground arith; below = b })
      ]
