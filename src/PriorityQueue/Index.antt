-- ===== src/PriorityQueue/Index.antt =====
-- src/util/priority_queue.h: the index that each element keeps, through `sift_up` and `sift_down`.
use pbnf.Base.{
  ℕ, zero, suc, ◌-◌, ◌<◌, ◌≡◌, ◌≢◌, refl, ◌∙◌, Bool, true, false, ◌&&◌, some, arith, length-set,
  get_or-set, Bool-cases, inl, inr, ltb, ◌==◌, if◌then◌else◌, is_some,
}
use pbnf.PriorityQueue.{
  Pq, cell, parent_of, left_of, fill, set_index, write, sift_up_loop, push_child, try_push,
  sift_down,
}

-- Every cell's element knows its index, and an element that claims an index stands there. Of the
-- `stale` elements nothing is known, and none of them is in the array.
pub record IsIndexed (stale : ℕ → Bool) (q : Pq) : Type 0 where
  pub cells :
      (j : ℕ) → j < fill q → (stale (cell q.heap j) ≡ false) × (q.index (cell q.heap j) ≡ some j)
  pub owners : (x k : ℕ) → stale x ≡ false → q.index x ≡ some k → (k < fill q) × (cell q.heap k ≡ x)

-- The same for an array with a hole at `i`.
pub record IsIndexedBut (stale : ℕ → Bool) (q : Pq) (i : ℕ) : Type 0 where
  pub inside : i < fill q
  pub cells :
      (j : ℕ)
      → j < fill q
      → j ≢ i
      → (stale (cell q.heap j) ≡ false) × (q.index (cell q.heap j) ≡ some j)
  pub owners :
      (x k : ℕ)
      → stale x ≡ false
      → q.index x ≡ some k
      → (k < fill q) × (k ≢ i) × (cell q.heap k ≡ x)

-- The same elements have an index.
pub record SameMembers (q r : Pq) : Type 0 where
  pub length : fill r ≡ fill q
  pub size : r.size ≡ q.size
  pub members : (x : ℕ) → is_some (r.index x) ≡ is_some (q.index x)

pub SameMembers-refl : (q : Pq) → SameMembers q q
SameMembers-refl q = record { length = refl; size = refl; members = λ x. refl }

pub SameMembers-trans : {q r s : Pq} → SameMembers q r → SameMembers r s → SameMembers q s
SameMembers-trans a b = record {
  length = b.length ∙ a.length;
  size = b.size ∙ a.size;
  members = λ x. b.members x ∙ a.members x;
}

pub SameMembers-write : (q : Pq) (i e : ℕ) → SameMembers q (write q i e)
SameMembers-write q i e = record {
  length = length-set q.heap i e;
  size = refl;
  members = λ x. refl;
}

-- `e` is no longer stale.
abbrev pub known : ℕ → (ℕ → Bool) → ℕ → Bool
known e stale x = if e == x then false else stale x

module _ (stale : ℕ → Bool) where
  -- The move of both loops: the element of `m` comes to the hole at `i`.
  abbrev pub move : Pq → ℕ → ℕ → Pq
  move q i m = set_index (write q i (cell q.heap m)) (cell q.heap m) (some i)

  module _ (q : Pq) (i m : ℕ) (h : IsIndexedBut stale q i) (lt : m < fill q) (ne : m ≢ i) where
    move-IsIndexedBut : IsIndexedBut stale (move q i m) m
    move-IsIndexedBut = record {
      inside = omega (arith, length-set q.heap i (cell q.heap m));
      cells = λ j p r.
          rw (get_or-set q.heap i j (cell q.heap m) 0 h.inside)
            (ground (arith, length-set q.heap i (cell q.heap m), h.cells j, h.cells m));
      owners = λ x k p r.
          rw (get_or-set q.heap i k (cell q.heap m) 0 h.inside)
            (ground (arith, length-set q.heap i (cell q.heap m), h.owners x k, h.inside));
    }

    move-SameMembers : SameMembers q (move q i m)
    move-SameMembers = record {
      length = length-set q.heap i (cell q.heap m);
      size = refl;
      members = λ x. ground (arith, h.cells m);
    }

  pub IsIndexedBut-write :
      (q : Pq) (i e : ℕ) → IsIndexedBut stale q i → IsIndexedBut stale (write q i e) i
  IsIndexedBut-write q i e h = record {
    inside = omega (arith, length-set q.heap i e, h.inside);
    cells = λ j p r.
        rw (get_or-set q.heap i j e 0 h.inside) (ground (arith, length-set q.heap i e, h.cells j));
    owners = λ x k p r.
        rw (get_or-set q.heap i k e 0 h.inside)
          (ground (arith, length-set q.heap i e, h.owners x k));
  }

  -- `e` fills the hole and takes its index.
  pub IsIndexedBut-fill :
      (q : Pq) (i e : ℕ)
      → stale e ≡ true
      → IsIndexedBut stale q i
      → IsIndexed (known e stale) (set_index (write q i e) e (some i))
  IsIndexedBut-fill q i e s h = record {
    cells = λ j p.
        rw (get_or-set q.heap i j e 0 h.inside) (ground (arith, length-set q.heap i e, h.cells j));
    owners = λ x k p r.
        rw (get_or-set q.heap i k e 0 h.inside)
          (ground (arith, length-set q.heap i e, h.owners x k, h.inside));
  }

  module _ (pred : ℕ → ℕ → Bool) where
    -- What a loop does to a queue with a hole.
    pub record Moved (q : Pq) (r : Pq × ℕ) : Type 0 where
      pub hole : IsIndexedBut stale r.0 r.1
      pub same : SameMembers q r.0

    Moved-move :
        (q : Pq) (i m : ℕ) (r : Pq × ℕ)
        → IsIndexedBut stale q i
        → m < fill q
        → m ≢ i
        → Moved (move q i m) r
        → Moved q r
    Moved-move q i m r h lt ne v = record {
      hole = v.hole;
      same = SameMembers-trans (move-SameMembers q i m h lt ne) v.same;
    }

    Moved-stay : (q : Pq) (i : ℕ) → IsIndexedBut stale q i → Moved q (q, i)
    Moved-stay q i h = record { hole = h; same = SameMembers-refl q }

    pub sift_up_loop-Moved :
        (k : ℕ) (q : Pq) (e i : ℕ) → IsIndexedBut stale q i → Moved q (sift_up_loop pred k q e i)
    unfolding sift_up_loop
    sift_up_loop-Moved zero q e i h = Moved-stay q i h
    sift_up_loop-Moved (suc k) q e i h =
        elim (Bool-cases (ltb 0 i && pred e (cell q.heap (parent_of i)))) [
          | inl go ↦
              let pos : 0 < i = ground arith in
              let lt : parent_of i < fill q = omega (arith, h.inside) in
              rw go (
                Moved-move q i (parent_of i) _ h lt (omega arith) (
                  sift_up_loop-Moved k _ e (parent_of i)
                    (move-IsIndexedBut q i (parent_of i) h lt (omega arith))))
          | inr stay ↦ rw stay (Moved-stay q i h)
        ]

    push_child-lt :
        (q : Pq) (i : ℕ)
        → left_of i < fill q
        → (push_child pred q i < fill q) × (i < push_child pred q i)
    unfolding push_child
    push_child-lt q i h = (ground arith, ground arith)

    pub try_push-Moved :
        (k : ℕ) (q : Pq) (e i : ℕ) → IsIndexedBut stale q i → Moved q (try_push pred k q e i)
    unfolding try_push
    try_push-Moved zero q e i h = Moved-stay q i h
    try_push-Moved (suc k) q e i h = elim (Bool-cases (ltb (left_of i) (fill q))) [
      | inr leaf ↦ rw leaf (Moved-stay q i h)
      | inl inner ↦
          let c = push_child-lt q i (ground arith) in
          elim (Bool-cases (pred e (cell q.heap (push_child pred q i)))) [
            | inl better ↦ rw (inner, better) (Moved-stay q i h)
            | inr worse ↦
                rw (inner, worse)
                  (Moved-move q i (push_child pred q i) _ h c.0 (omega (arith, c.1)) (
                    try_push-Moved k _ e (push_child pred q i)
                      (move-IsIndexedBut q i (push_child pred q i) h c.0 (omega (arith, c.1)))))
          ]
    ]

    -- `sift_down` puts `e` into the hole.
    pub sift_down-IsIndexed :
        (q : Pq) (e i : ℕ)
        → stale e ≡ true
        → IsIndexedBut stale q i
        → IsIndexed (known e stale) (sift_down pred q e i).0
    unfolding sift_down
    sift_down-IsIndexed q e i s h =
        let v = try_push-Moved (fill q - i) q e i h in IsIndexedBut-fill _ _ e s v.hole

    -- Every other element keeps its membership.
    pub sift_down_members :
        (q : Pq) (e i : ℕ)
        → IsIndexedBut stale q i
        → (fill (sift_down pred q e i).0 ≡ fill q)
          × ((sift_down pred q e i).0.size ≡ q.size)
          × ((x : ℕ)
              → is_some ((sift_down pred q e i).0.index x)
                ≡ (if e == x then true else is_some (q.index x)))
    unfolding sift_down
    sift_down_members q e i h =
        let v = try_push-Moved (fill q - i) q e i h in
        (
          length-set _ (try_push pred (fill q - i) q e i).1 e ∙ v.same.length,
          v.same.size,
          λ x. ground (arith, v.same.members x),
        )
