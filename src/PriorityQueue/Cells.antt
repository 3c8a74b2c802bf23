-- ===== src/PriorityQueue/Cells.antt =====
-- src/util/priority_queue.h: what holds of all the elements of a queue, in any order of them.
use pbnf.Base.{
  ℕ, zero, suc, ◌-◌, ◌<◌, ◌≡◌, refl, ◌∙◌, Bool, true, false, ◌&&◌, [], ◌∷◌, ◌++◌, arith, length-set,
  length-append, length-take, get_or-set, get_or-append, get_or-take, Bool-cases, inl, inr, ltb,
  leb, take, set, some, none,
}
use pbnf.PriorityQueue.{
  Pq, cell, parent_of, left_of, fill, set_index, write, sift_up_loop, sift_up, push_child, try_push,
  sift_down, grow, add, take_front, see_update,
}

-- Every element of the queue has the property.
abbrev pub AllCells : (ℕ → Bool) → Pq → Type 0
AllCells p q = (j : ℕ) → j < fill q → p (cell q.heap j) ≡ true

module _ (p : ℕ → Bool) where
  write-AllCells :
      (q : Pq) (i e : ℕ) → i < fill q → p e ≡ true → AllCells p q → AllCells p (write q i e)
  write-AllCells q i e lt own all j r =
      rw (get_or-set q.heap i j e 0 lt) (ground (arith, own, all j, length-set q.heap i e))

  -- What a loop of moves leaves: as many cells, all with the property, and a place among them.
  record Walked (q : Pq) (r : Pq × ℕ) : Type 0 where
    length : fill r.0 ≡ fill q
    inside : r.1 < fill q
    all : AllCells p r.0

  module _ (pred : ℕ → ℕ → Bool) where
    sift_up_loop-Walked :
        (k : ℕ) (q : Pq) (e i : ℕ)
        → i < fill q
        → AllCells p q
        → Walked q (sift_up_loop pred k q e i)
    unfolding sift_up_loop
    sift_up_loop-Walked zero q e i lt all = record { length = refl; inside = lt; all = all }
    sift_up_loop-Walked (suc k) q e i lt all =
        elim (Bool-cases (ltb 0 i && pred e (cell q.heap (parent_of i)))) [
          | inr stay ↦ rw stay (record { length = refl; inside = lt; all = all })
          | inl go ↦
              let parent = cell q.heap (parent_of i) in
              let size = length-set q.heap i parent in
              let up : parent_of i < fill q = omega (arith, lt) in
              let w =
                sift_up_loop-Walked k (set_index (write q i parent) parent (some i)) e (parent_of i)
                  (omega (arith, size, up))
                  (write-AllCells q i parent lt (all (parent_of i) up) all) in
              rw go (record {
                length = w.length ∙ size;
                inside = omega (arith, w.inside, size);
                all = w.all;
              })
        ]

    push_child-inside : (q : Pq) (i : ℕ) → left_of i < fill q → push_child pred q i < fill q
    unfolding push_child
    push_child-inside q i h = ground arith

    try_push-Walked :
        (k : ℕ) (q : Pq) (e i : ℕ) → i < fill q → AllCells p q → Walked q (try_push pred k q e i)
    unfolding try_push
    try_push-Walked zero q e i lt all = record { length = refl; inside = lt; all = all }
    try_push-Walked (suc k) q e i lt all = elim (Bool-cases (ltb (left_of i) (fill q))) [
      | inr leaf ↦ rw leaf (record { length = refl; inside = lt; all = all })
      | inl inner ↦
          let m = push_child pred q i in
          let down = push_child-inside q i (ground (arith, inner)) in
          elim (Bool-cases (pred e (cell q.heap m))) [
            | inl better ↦ rw (inner, better) (record { length = refl; inside = lt; all = all })
            | inr worse ↦
                let child = cell q.heap m in
                let size = length-set q.heap i child in
                let w =
                  try_push-Walked k (set_index (write q i child) child (some i)) e m
                    (omega (arith, size, down)) (write-AllCells q i child lt (all m down) all) in
                rw (inner, worse)
                  (record {
                    length = w.length ∙ size;
                    inside = omega (arith, w.inside, size);
                    all = w.all;
                  })
          ]
    ]

    sift_up-Walked : (q : Pq) (i : ℕ) → i < fill q → AllCells p q → Walked q (sift_up pred q i)
    unfolding sift_up
    sift_up-Walked q i lt all =
        let e = cell q.heap i in
        let r = sift_up_loop pred i q e i in
        let w = sift_up_loop-Walked i q e i lt all in
        record {
          length = length-set r.0.heap r.1 e ∙ w.length;
          inside = w.inside;
          all = write-AllCells r.0 r.1 e (omega (arith, w.length, w.inside)) (all i lt) w.all;
        }

    sift_down-AllCells :
        (q : Pq) (e i : ℕ)
        → i < fill q
        → p e ≡ true
        → AllCells p q
        → AllCells p (sift_down pred q e i).0
    unfolding sift_down
    sift_down-AllCells q e i lt own all =
        let r = try_push pred (fill q - i) q e i in
        let w = try_push-Walked (fill q - i) q e i lt all in
        write-AllCells r.0 r.1 e (omega (arith, w.length, w.inside)) own w.all

    -- `see_update` in range moves elements of the queue alone.
    pub see_update-AllCells :
        (q : Pq) (i : ℕ) → i < fill q → AllCells p q → AllCells p (see_update pred q i)
    unfolding see_update
    see_update-AllCells q i lt all =
        let r = sift_up pred q i in
        let w = sift_up-Walked q i lt all in
        sift_down-AllCells r.0 (cell q.heap i) r.1 (omega (arith, w.length, w.inside)) (all i lt)
          w.all

    pushed-AllCells :
        (q : Pq) (e : ℕ)
        → p e ≡ true
        → AllCells p q
        → AllCells p (record q { heap = q.heap ++ e ∷ [] })
    pushed-AllCells q e own all j r =
        let size = length-append q.heap (e ∷ []) in
        rw (get_or-append q.heap e j 0 (omega (arith, size))) (ground (arith, size, own, all j))

    pub add-AllCells : (q : Pq) (e : ℕ) → p e ≡ true → AllCells p q → AllCells p (add pred q e)
    unfolding add
    add-AllCells q e own all =
        let g = grow q in
        let same : g.heap ≡ q.heap = unfold grow in ground arith in
        let w =
          sift_up-Walked (record g { heap = g.heap ++ e ∷ [] }) (fill g)
            (omega (arith, length-append g.heap (e ∷ [])))
            (pushed-AllCells g e own (rw same all)) in
        w.all

    -- `take` gives an element of the queue, and leaves elements of it.
    pub take_front-AllCells :
        (q : Pq)
        → 0 < fill q
        → AllCells p q
        → ((take_front pred q).0 ≡ some (cell q.heap 0)) × AllCells p (take_front pred q).1
    unfolding take_front
    take_front-AllCells q pos all =
        let last = fill q - 1 in
        let e = cell q.heap 0 in
        let moved = cell q.heap last in
        let own : p moved ≡ true = all last (omega (arith, pos)) in
        let r : Pq = record (set_index q e none) { heap = take last (set q.heap 0 moved) } in
        let whole = length-set q.heap 0 moved in
        let size : fill r ≡ last = length-take last (set q.heap 0 moved) (omega (arith, whole)) in
        let rest : AllCells p r = λ j lt.
          rw (get_or-take last (set q.heap 0 moved) j 0 (omega (arith, lt, size)))
            (write-AllCells q 0 moved pos own all j (omega (arith, lt, size, whole))) in
        let some_left : leb (fill q) 0 ≡ false = ground (arith, pos) in
        elim (Bool-cases (ltb 0 last)) [
          | inl more ↦
              rw (some_left, more)
                (refl, sift_down-AllCells r moved 0 (ground (arith, more, size)) own rest)
          | inr one ↦ rw (some_left, one) (refl, rest)
        ]
