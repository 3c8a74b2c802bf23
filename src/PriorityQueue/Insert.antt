-- ===== src/PriorityQueue/Insert.antt =====
-- src/util/priority_queue.h: `add` and `resort`, the heap order and the indices together.
use pbnf.Base.{
  ℕ, suc, ◌*◌, ◌≤◌, ◌<◌, ◌≡◌, refl, ◌∙◌, Bool, true, false, [], ◌∷◌, ◌++◌, none, some, arith,
  length-append, length-set, get_or-append, leb, Bool-cases, inl, inr, ◌==◌, if◌then◌else◌, is_some,
}
use pbnf.PriorityQueue.{Pq, cell, parent_of, fill, set_index, write, sift_up, grow, add}
use pbnf.PriorityQueue.Order.{IsStrictOrder, IsHeap, IsHeapAround, IsHeap-set}
use pbnf.PriorityQueue.Up.{Risen, sift_up_loop-Risen}
use pbnf.PriorityQueue.Index.{
  IsIndexed, IsIndexedBut, known, Moved, sift_up_loop-Moved, IsIndexedBut-fill,
}

module _ (pred : ℕ → ℕ → Bool) where
  -- A heap whose elements know their indices, within the allocated cells.
  pub record IsValidBut (stale : ℕ → Bool) (q : Pq) : Type 0 where
    pub heap : IsHeap pred q.heap
    pub indexed : IsIndexed stale q
    pub room : fill q ≤ q.size
    pub positive : 0 < q.size

  abbrev pub IsValid : Pq → Type 0
  IsValid = IsValidBut (λ x. false)

  pub IsValidBut-congr :
      {s t : ℕ → Bool} {q : Pq} → ((x : ℕ) → s x ≡ t x) → IsValidBut s q → IsValidBut t q
  IsValidBut-congr {q} e v = record {
    heap = v.heap;
    indexed = record {
      cells = λ j p. ground (arith, v.indexed.cells j, e (cell q.heap j));
      owners = λ x k p r. ground (arith, v.indexed.owners x k, e x);
    };
    room = v.room;
    positive = v.positive;
  }

  -- An element that is not in the queue may as well be stale.
  IsValidBut-except : (q : Pq) (e : ℕ) → IsValid q → q.index e ≡ none → IsValidBut (λ x. e == x) q
  IsValidBut-except q e v absent = record {
    heap = v.heap;
    indexed = record {
      cells = λ j p. ground (arith, v.indexed.cells j);
      owners = λ x k p r. v.indexed.owners x k refl r;
    };
    room = v.room;
    positive = v.positive;
  }

  -- The queue with `e` behind the last cell.
  abbrev pub pushed : Pq → ℕ → Pq
  pushed q e = record q { heap = q.heap ++ e ∷ [] }

  pushed-IsIndexedBut :
      (stale : ℕ → Bool) (q : Pq) (e : ℕ)
      → IsIndexed stale q
      → IsIndexedBut stale (pushed q e) (fill q)
  pushed-IsIndexedBut stale q e h =
      let size = length-append q.heap (e ∷ []) in
      record {
        inside = omega (arith, size);
        cells = λ j p r.
            rw (get_or-append q.heap e j 0 (omega (arith, size))) (ground (arith, size, h.cells j));
        owners = λ x k p r.
            let (lt, at) = h.owners x k p r in
            (
              omega (arith, size, lt),
              omega (arith, lt),
              rw (get_or-append q.heap e k 0 (omega (arith, lt))) (ground (arith, lt, at)),
            );
      }

  pushed-IsHeapAround :
      (q : Pq) (e : ℕ) → IsHeap pred q.heap → IsHeapAround pred (pushed q e).heap (fill q)
  pushed-IsHeapAround q e h =
      let size = length-append q.heap (e ∷ []) in
      record {
        inside = omega (arith, size);
        edges = λ c p r s t.
            rw
              (
                get_or-append q.heap e c 0 (omega (arith, size)),
                get_or-append q.heap e (parent_of c) 0 (omega (arith, size)),
              )
              (ground (arith, size, h c));
        bridged = λ c p r s t. absurd (omega (arith, size));
      }

  -- What `add` makes of the queue: `e` has joined, at its place.
  pub record Added (stale : ℕ → Bool) (q : Pq) (e : ℕ) (r : Pq) : Type 0 where
    pub valid : IsValidBut (known e stale) r
    pub length : fill r ≡ suc (fill q)
    pub members : (x : ℕ) → is_some (r.index x) ≡ (if e == x then true else is_some (q.index x))

  module _ (o : IsStrictOrder pred) where
    -- `sift_up` from the last cell, and the index of `e`.
    raise-Added :
        (stale : ℕ → Bool) (q : Pq) (e : ℕ)
        → stale e ≡ true
        → IsHeap pred q.heap
        → IsIndexed stale q
        → fill q < q.size
        → (r : Pq × ℕ) → Risen pred o (Unit {0}) e r.0.heap r.1
        → Moved stale pred (pushed q e) r
        → Added stale q e (set_index (write r.0 r.1 e) e (some r.1))
    raise-Added stale q e s h i lt r up v =
        let size = length-append q.heap (e ∷ []) in
        let total = length-set r.0.heap r.1 e in
        record {
          valid = record {
            heap = IsHeap-set pred r.0.heap r.1 e up.around up.above (up.below tt);
            indexed = IsIndexedBut-fill stale r.0 r.1 e s v.hole;
            room = omega (arith, size, total, v.same.length, v.same.size, lt);
            positive = omega (arith, v.same.size, lt);
          };
          length = omega (arith, size, total, v.same.length);
          members = λ x. ground (arith, v.same.members x);
        }

    pushed-Added :
        (stale : ℕ → Bool) (q : Pq) (e : ℕ)
        → stale e ≡ true
        → IsHeap pred q.heap
        → IsIndexed stale q
        → fill q < q.size
        → (let r = sift_up pred (pushed q e) (fill q) in
            Added stale q e (set_index r.0 e (some r.1)))
    unfolding sift_up
    pushed-Added stale q e s h i lt =
        let hole = pushed-IsIndexedBut stale q e i in
        let up =
          sift_up_loop-Risen pred o (Unit {0}) (fill q) (pushed q e) e (fill q) (omega arith)
            (pushed-IsHeapAround q e h)
            (λ u c p r t. absurd (omega (arith, length-append q.heap (e ∷ [])))) in
        let top : cell (pushed q e).heap (fill q) ≡ e =
          get_or-append q.heap e (fill q) 0 (omega arith) ∙ ground arith in
        rw top (raise-Added stale q e s h i lt _ up (sift_up_loop-Moved stale pred _ _ e _ hole))

    pub add-Added :
        (stale : ℕ → Bool) (q : Pq) (e : ℕ)
        → stale e ≡ true
        → IsValidBut stale q
        → Added stale q e (add pred q e)
    unfolding add grow
    add-Added stale q e s v = elim (Bool-cases (leb q.size (fill q))) [
      | inl full ↦
          let wide : Pq = record q { size = q.size * 2 } in
          let t : Added stale wide e (sift_up_set wide) =
            pushed-Added stale wide e s v.heap
              (record { cells = v.indexed.cells; owners = v.indexed.owners })
              (ground (arith, v.room, v.positive)) in
          rw full (record { valid = t.valid; length = t.length; members = t.members })
      | inr free ↦ rw free (pushed-Added stale q e s v.heap v.indexed (ground arith))
    ]
      where
        sift_up_set : Pq → Pq
        sift_up_set g = let r = sift_up pred (pushed g e) (fill g) in set_index r.0 e (some r.1)

    -- `add` on a valid queue, of an element that is not in it, keeps the queue valid and adds
    -- exactly that element, whether or not the array is full.
    pub add_correct :
        (q : Pq) (e : ℕ)
        → IsValid q
        → q.index e ≡ none
        → IsValid (add pred q e)
          × (fill (add pred q e) ≡ suc (fill q))
          × ((x : ℕ)
              → is_some ((add pred q e).index x) ≡ (if e == x then true else is_some (q.index x)))
    add_correct q e v absent =
        let t = add-Added (λ x. e == x) q e (ground arith) (IsValidBut-except q e v absent) in
        (IsValidBut-congr (λ x. ground arith) t.valid, t.length, t.members)
