-- ===== src/PriorityQueue/Remove.antt =====
-- src/util/priority_queue.h: `take` and `remove`.
use pbnf.Base.{
  ℕ, suc, ◌-◌, ◌<◌, ◌≡◌, ◌≢◌, refl, ◌∙◌, Bool, false, Option, none, some, arith, length, set, take,
  length-set, length-take, get_or-set, get_or-take, ltb, leb, Bool-cases, inl, inr, ◌==◌,
  if◌then◌else◌, is_some,
}
use pbnf.PriorityQueue.{Pq, cell, parent_of, fill, set_index, sift_down, take_front, remove}
use pbnf.PriorityQueue.Order.{IsStrictOrder, Le, IsHeap, IsHeapAround, IsHeap-root_below}
use pbnf.PriorityQueue.Down.{sift_down-IsHeap}
use pbnf.PriorityQueue.Index.{
  IsIndexed, IsIndexedBut, known, sift_down-IsIndexed, sift_down_members,
}
use pbnf.PriorityQueue.Insert.{IsValidBut, IsValid, IsValidBut-congr}
use pbnf.PriorityQueue.Update.{Resifted, resift, resift-Resifted}

module _ (pred : ℕ → ℕ → Bool) (o : IsStrictOrder pred) where
  -- `heap[i] = heap[fill - 1]; fill -= 1`, with the index of what stood at `i` set to -1
  abbrev pub cut : Pq → ℕ → Pq
  cut q i = record (set_index q (cell q.heap i) none) {
    heap = take (fill q - 1) (set q.heap i (cell q.heap (fill q - 1)));
  }

  -- What is left when the element at `i` has gone.
  pub record Removed (q : Pq) (i : ℕ) (r : Pq) : Type 0 where
    pub valid : IsValid pred r
    pub length : suc (fill r) ≡ fill q
    pub members :
        (x : ℕ) → is_some (r.index x) ≡ (if cell q.heap i == x then false else is_some (q.index x))

  module _ (q : Pq) (i : ℕ) (v : IsValid pred q) (lt : i < fill q) where
    abbrev last : ℕ
    last = fill q - 1

    abbrev moved : ℕ
    moved = cell q.heap last

    fill-cut : fill (cut q i) ≡ last
    fill-cut = length-take last (set q.heap i moved) (omega (arith, length-set q.heap i moved))

    cell-cut :
        (j : ℕ) → j < last → cell (cut q i).heap j ≡ (if i == j then moved else cell q.heap j)
    cell-cut j p = get_or-take last (set q.heap i moved) j 0 p ∙ get_or-set q.heap i j moved 0 lt

    cut-IsIndexed : i ≡ last → IsIndexed (λ x. false) (cut q i)
    cut-IsIndexed e = record {
      cells = λ j p.
          let below : j < last = omega (arith, fill-cut, p) in
          rw (cell-cut j below) (ground (arith, e, below, v.indexed.cells j, v.indexed.cells i));
      owners = λ x k p r.
          let at : q.index x ≡ some k = ground (arith, r) in
          let (inside, here) = v.indexed.owners x k refl at in
          let below : k < last = ground (arith, e, inside, here, r, v.indexed.cells i) in
          (omega (arith, fill-cut), rw (cell-cut k below) (ground (arith, e, below, here)));
    }

    cut-IsHeap : i ≡ last → IsHeap pred (cut q i).heap
    cut-IsHeap e c p r =
        let below : c < last = omega (arith, fill-cut, r) in
        rw (cell-cut c below, cell-cut (parent_of c) (omega arith))
          (ground (arith, e, below, v.heap c))

    cut-IsIndexedBut : i < last → IsIndexedBut (λ x. moved == x) (cut q i) i
    cut-IsIndexedBut inner = record {
      inside = omega (arith, fill-cut);
      cells = λ j p r.
          let below : j < last = omega (arith, fill-cut, p) in
          rw (cell-cut j below)
            (ground (arith, below, v.indexed.cells j, v.indexed.cells i, v.indexed.cells last));
      owners = λ x k p r.
          let at : q.index x ≡ some k = ground (arith, r) in
          let (inside, here) = v.indexed.owners x k refl at in
          let other : k ≢ i = ground (arith, here, r) in
          let below : k < last = ground (arith, inside, here, p) in
          (
            omega (arith, fill-cut),
            other,
            rw (cell-cut k below) (ground (arith, other, below, here)),
          );
    }

    cut-IsHeapAround : i < last → IsHeapAround pred (cut q i).heap i
    cut-IsHeapAround inner = record {
      inside = omega (arith, fill-cut);
      edges = λ c p r s t.
          let below : c < last = omega (arith, fill-cut, r) in
          rw (cell-cut c below, cell-cut (parent_of c) (omega arith))
            (ground (arith, below, v.heap c));
      bridged = λ c p r s t.
          let below : c < last = omega (arith, fill-cut, r) in
          rw (cell-cut c below, cell-cut (parent_of i) (omega arith))
            (ground (
              arith,
              below,
              v.heap c,
              v.heap i,
              o.trans (cell q.heap (parent_of i)) (cell q.heap i) (cell q.heap c),
            ));
    }

    cut-Removed : i ≡ last → Removed q i (cut q i)
    cut-Removed e = record {
      valid = record {
        heap = cut-IsHeap e;
        indexed = cut-IsIndexed e;
        room = omega (arith, fill-cut, v.room);
        positive = v.positive;
      };
      length = omega (arith, fill-cut);
      members = λ x. ground arith;
    }

    -- The element of the last cell is put back, by whatever places it.
    refill-Removed :
        i < last → (r : Pq) → Resifted pred (λ x. moved == x) (cut q i) moved r → Removed q i r
    refill-Removed inner r t =
        let w : IsValidBut pred (known moved (λ x. moved == x)) r = record {
          heap = t.heap;
          indexed = t.indexed;
          room = omega (arith, fill-cut, t.length, t.size, v.room);
          positive = omega (arith, t.size, v.positive);
        } in
        record {
          valid = IsValidBut-congr pred (λ x. ground arith) w;
          length = omega (arith, fill-cut, t.length);
          members = λ x. ground (arith, t.members x, v.indexed.cells last, v.indexed.cells i);
        }

    -- `remove` of any index in range keeps a valid queue valid and takes out exactly the element
    -- that stood there.
    pub remove_correct : Removed q i (remove pred q i)
    unfolding remove
    remove_correct = elim (Bool-cases (ltb i (fill q - 1))) [
      | inr e ↦ rw e (cut-Removed (ground (arith, lt, e)))
      | inl inner ↦
          let below : i < fill q - 1 = ground (arith, inner) in
          rw inner (
            refill-Removed below _
              (resift-marked (IsIndexedBut-mark (cut-IsIndexedBut below)) (cut-IsHeapAround below)))
    ]
      where
        marked : Pq
        marked = set_index (cut q i) moved (some i)

        IsIndexedBut-mark :
            IsIndexedBut (λ x. moved == x) (cut q i) i → IsIndexedBut (λ x. moved == x) marked i
        IsIndexedBut-mark h = record {
          inside = h.inside;
          cells = λ j p r. ground (arith, h.cells j p r);
          owners = λ x k p r. h.owners x k p (ground (arith, p, r));
        }

        resift-marked :
            IsIndexedBut (λ x. moved == x) marked i
            → IsHeapAround pred (cut q i).heap i
            → Resifted pred (λ x. moved == x) (cut q i) moved (resift pred marked i moved)
        resift-marked hole h =
            let at : cell (cut q i).heap i ≡ moved =
              cell-cut i (omega (arith, fill-cut, h.inside)) ∙ ground arith in
            let t =
              resift-Resifted pred o (λ x. moved == x) marked i moved at (ground arith) h hole in
            record {
              heap = t.heap;
              indexed = t.indexed;
              length = t.length;
              size = t.size;
              members = λ x. ground (arith, t.members x);
            }

  -- What `take` returns: the element at the root, before which no element of the queue comes.
  pub record Taken (q : Pq) (r : Option ℕ × Pq) : Type 0 where
    pub result : r.0 ≡ some (cell q.heap 0)
    pub removed : Removed q 0 r.1
    pub least : (x k : ℕ) → q.index x ≡ some k → Le pred (cell q.heap 0) x

  sink-Resifted :
      (q : Pq) (e : ℕ)
      → IsIndexedBut (λ x. e == x) q 0
      → IsHeapAround pred q.heap 0
      → Resifted pred (λ x. e == x) q e (sift_down pred q e 0).0
  sink-Resifted q e hole h =
      let (length, size, members) = sift_down_members (λ x. e == x) pred q e 0 hole in
      record {
        heap = sift_down-IsHeap pred o q e 0 h (λ p. absurd (omega arith));
        indexed = sift_down-IsIndexed (λ x. e == x) pred q e 0 (ground arith) hole;
        length = length;
        size = size;
        members = members;
      }

  -- `take` on a valid queue that is not empty returns the element at the root, before which no
  -- element of the queue comes; it takes out exactly that element and keeps the queue valid.
  pub take_front_correct : (q : Pq) → IsValid pred q → 0 < fill q → Taken q (take_front pred q)
  unfolding take_front
  take_front_correct q v pos =
      let some_left : leb (fill q) 0 ≡ false = ground (arith, pos) in
      rw some_left (record {
        result = refl;
        removed = elim (Bool-cases (ltb 0 (fill q - 1))) [
          | inr e ↦ rw e (cut-Removed q 0 v pos (ground (arith, pos, e)))
          | inl inner ↦
              let below : 0 < fill q - 1 = ground (arith, inner) in
              rw inner (
                refill-Removed q 0 v pos below _ (
                  sink-Resifted (cut q 0) (cell q.heap (fill q - 1))
                    (cut-IsIndexedBut q 0 v pos below) (cut-IsHeapAround q 0 v pos below)))
        ];
        least = λ x k at.
            let (inside, here) = v.indexed.owners x k refl at in
            rw here at (IsHeap-root_below pred o (suc k) q.heap k v.heap (omega arith) inside);
      })
