-- ===== src/PriorityQueue/Update.antt =====
-- src/util/priority_queue.h: `see_update`, and the way through `sift_up` and `sift_down` that it
-- shares with `remove`.
use pbnf.Base.{
  ℕ, ◌≤◌, ◌<◌, ◌≡◌, refl, ◌∙◌, Bool, true, false, List, arith, length, set, length-set, get_or-set,
  ◌==◌, if◌then◌else◌, is_some,
}
use pbnf.PriorityQueue.{
  Pq, cell, parent_of, fill, write, sift_up_loop, sift_up, sift_down, see_update,
}
use pbnf.PriorityQueue.Order.{IsStrictOrder, IsHeap, IsHeapAround, IsAbove}
use pbnf.PriorityQueue.Up.{sift_up_loop-Risen}
use pbnf.PriorityQueue.Down.{sift_down-IsHeap}
use pbnf.PriorityQueue.Index.{
  IsIndexed, IsIndexedBut, known, IsIndexedBut-write, sift_up_loop-Moved, sift_down-IsIndexed,
  sift_down_members,
}
use pbnf.PriorityQueue.Insert.{IsValidBut, IsValid, IsValidBut-congr}

module _ (pred : ℕ → ℕ → Bool) where
  -- What stands in the hole does not count.
  IsHeapAround-write :
      (a : List ℕ) (i e : ℕ) → IsHeapAround pred a i → IsHeapAround pred (set a i e) i
  IsHeapAround-write a i e h = record {
    inside = omega (arith, length-set a i e, h.inside);
    edges = λ c p q r s.
        rw (get_or-set a i c e 0 h.inside, get_or-set a i (parent_of c) e 0 h.inside)
          (ground (arith, length-set a i e, h.edges c));
    bridged = λ c p q r s.
        rw (get_or-set a i c e 0 h.inside, get_or-set a i (parent_of i) e 0 h.inside)
          (ground (arith, length-set a i e, h.bridged c));
  }

  IsAbove-write :
      (a : List ℕ) (i e x : ℕ) → i < length a → IsAbove pred a i x → IsAbove pred (set a i e) i x
  IsAbove-write a i e x lt h p = rw (get_or-set a i (parent_of i) e 0 lt) (ground (arith, h p))

  -- `r` has the elements of `q` and `e`, each in its place.
  pub record Resifted (stale : ℕ → Bool) (q : Pq) (e : ℕ) (r : Pq) : Type 0 where
    pub heap : IsHeap pred r.heap
    pub indexed : IsIndexed (known e stale) r
    pub length : fill r ≡ fill q
    pub size : r.size ≡ q.size
    pub members : (x : ℕ) → is_some (r.index x) ≡ (if e == x then true else is_some (q.index x))

  -- `sift_down(e, sift_up(i))`
  abbrev pub resift : Pq → ℕ → ℕ → Pq
  resift q i e = let (r, j) = sift_up pred q i in (sift_down pred r e j).0

  module _ (o : IsStrictOrder pred) where
    pub resift-Resifted :
        (stale : ℕ → Bool) (q : Pq) (i e : ℕ)
        → cell q.heap i ≡ e
        → stale e ≡ true
        → IsHeapAround pred q.heap i
        → IsIndexedBut stale q i
        → Resifted stale q e (resift q i e)
    unfolding sift_up sift_down
    resift-Resifted stale q i e at s h hole =
        let (r, j) = sift_up_loop pred i q e i in
        let up = sift_up_loop-Risen pred o ⊥ i q e i (omega arith) h (λ b. absurd b) in
        let v = sift_up_loop-Moved stale pred i q e i hole in
        let open_hole = IsIndexedBut-write stale r j e v.hole in
        let (length, size, members) = sift_down_members stale pred (write r j e) e j open_hole in
        rw at (record {
          heap =
              sift_down-IsHeap pred o (write r j e) e j (IsHeapAround-write r.heap j e up.around)
                (IsAbove-write r.heap j e e up.around.inside up.above);
          indexed = sift_down-IsIndexed stale pred (write r j e) e j s open_hole;
          length = length ∙ length-set r.heap j e ∙ v.same.length;
          size = size ∙ v.same.size;
          members = λ x. ground (arith, members x, v.same.members x);
        })

    -- An element of a valid queue leaves a hole at its cell.
    cut_out :
        (q : Pq) (i : ℕ)
        → IsIndexed (λ x. false) q
        → i < fill q
        → IsIndexedBut (λ x. cell q.heap i == x) q i
    cut_out q i h lt = record {
      inside = lt;
      cells = λ j p r. ground (arith, h.cells j, h.cells i);
      owners = λ x k p r. ground (arith, h.owners x k, h.cells i);
    }

    -- When the value of one element of a valid queue has changed, for better or worse, so that
    -- only the edges at its cell may be out of order, `see_update` makes the queue valid again
    -- and keeps its elements.
    pub see_update_correct :
        (q : Pq) (i : ℕ)
        → IsHeapAround pred q.heap i
        → IsIndexed (λ x. false) q
        → 0 < q.size
        → fill q ≤ q.size
        → IsValid pred (see_update pred q i)
          × (fill (see_update pred q i) ≡ fill q)
          × ((x : ℕ) → is_some ((see_update pred q i).index x) ≡ is_some (q.index x))
    unfolding see_update
    see_update_correct q i h indexed positive room =
        let e = cell q.heap i in
        let t =
          resift-Resifted (λ x. e == x) q i e refl (ground arith) h
            (cut_out q i indexed h.inside) in
        let v : IsValidBut pred (known e (λ x. e == x)) (resift q i e) = record {
          heap = t.heap;
          indexed = t.indexed;
          room = omega (arith, t.length, t.size);
          positive = omega (arith, t.size);
        } in
        (
          IsValidBut-congr pred (λ x. ground arith) v,
          t.length,
          λ x. ground (arith, t.members x, indexed.cells i h.inside),
        )
