-- ===== src/PriorityQueue/Whole.antt =====
-- src/util/priority_queue.h: the constructor, `reset`, `resort`, and the two checks for debugging.
use pbnf.Base.{
  ℕ, zero, suc, ◌+◌, ◌≤◌, ◌<◌, ◌≡◌, refl, ap, ◌∙◌, Bool, true, false, List, [], ◌∷◌, Option, none,
  some, arith, length, get_or, Bool-cases, inl, inr, if◌then◌else◌, is_some,
}
use mathlib.Core.Logic.{◌↔◌}
use pbnf.Base.{mem, Distinct, mem-get_or as mem-cell, get_or-mem as cell-mem}
use native.Mathlib.Decide.{dec_lt, ℕ_discrete}
use pbnf.PriorityQueue.{
  Pq, cell, parent_of, left_of, right_of, fill, update, forget, new, empty, front, reset,
  indexes_match, indexes_match_from, add, add_all, resort, heap_holds,
}
use pbnf.PriorityQueue.Order.{IsStrictOrder, IsHeap}
use pbnf.PriorityQueue.Index.{IsIndexed}
use pbnf.PriorityQueue.Insert.{IsValidBut, IsValid, IsValidBut-congr, add-Added}

forget-keeps : (a : List ℕ) (f : ℕ → Option ℕ) (x k : ℕ) → forget a f x ≡ some k → f x ≡ some k
unfolding forget
forget-keeps [] f x k h = h
forget-keeps (y ∷ a) f x k h = ground (arith, forget-keeps a (update f y none) x k h)

forget-none : (a : List ℕ) (f : ℕ → Option ℕ) (x : ℕ) → f x ≡ none → forget a f x ≡ none
unfolding forget
forget-none [] f x h = h
forget-none (y ∷ a) f x h = forget-none a (update f y none) x (ground (arith, h))

forget-cell : (a : List ℕ) (f : ℕ → Option ℕ) (j : ℕ) → j < length a → forget a f (cell a j) ≡ none
unfolding forget get_or
forget-cell [] f j h = absurd (omega arith)
forget-cell (y ∷ a) f zero h = forget-none a (update f y none) y (ground arith)
forget-cell (y ∷ a) f (suc j) h = forget-cell a (update f y none) j (omega arith)

indexes_match-cells :
    (a : List ℕ) (f : ℕ → Option ℕ) (n : ℕ)
    → indexes_match_from a f n ≡ true
    → (j : ℕ) → j < length a
    → f (cell a j) ≡ some (n + j)
unfolding indexes_match_from get_or
indexes_match-cells [] f n h j lt = absurd (omega arith)
indexes_match-cells (x ∷ a) f n h zero lt = ground (arith, h)
indexes_match-cells (x ∷ a) f n h (suc j) lt =
    indexes_match-cells a f (suc n) (ground (arith, h)) j (omega arith) ∙ ap some (omega arith)

cells-indexes_match :
    (a : List ℕ) (f : ℕ → Option ℕ) (n : ℕ)
    → ((j : ℕ) → j < length a → f (cell a j) ≡ some (n + j))
    → indexes_match_from a f n ≡ true
unfolding indexes_match_from get_or
cells-indexes_match [] f n h = refl
cells-indexes_match (x ∷ a) f n h = ground (
  arith,
  h 0 (omega arith),
  cells-indexes_match a f (suc n) (λ j p. h (suc j) (omega arith) ∙ ap some (omega arith)),
)

-- `indexes_match` is true exactly if every cell's element has the cell's number as its index.
pub indexes_match_iff :
    (q : Pq) → (indexes_match q ≡ true) ↔ ((j : ℕ) → j < fill q → q.index (cell q.heap j) ≡ some j)
unfolding indexes_match
indexes_match_iff q = (
  λ h j p. indexes_match-cells q.heap q.index 0 h j p ∙ ap some (omega arith),
  λ h. cells-indexes_match q.heap q.index 0 (λ j p. h j p ∙ ap some (omega arith)),
)

pub empty-true : (q : Pq) → empty q ≡ true → fill q ≡ 0
unfolding empty
empty-true q h = ground (arith, h)

pub empty-false : (q : Pq) → empty q ≡ false → 0 < fill q
unfolding empty
empty-false q h = ground (arith, h)

pub fill-empty : (q : Pq) → fill q ≡ 0 → empty q ≡ true
unfolding empty
fill-empty q h = ground (arith, h)

pub fill-filled : (q : Pq) → 0 < fill q → empty q ≡ false
unfolding empty
fill-filled q h = ground (arith, h)

pub new-index : (index : ℕ → Option ℕ) (x : ℕ) → (new index).index x ≡ index x
unfolding new
new-index index x = refl

pub front-some : (q : Pq) → 0 < fill q → front q ≡ some (cell q.heap 0)
unfolding front
front-some q h = ground (arith, h)

module _ (pred : ℕ → ℕ → Bool) where
  -- The empty queue over elements none of which has an index.
  pub new-IsValid : (index : ℕ → Option ℕ) → ((x : ℕ) → index x ≡ none) → IsValid pred (new index)
  unfolding new
  new-IsValid index h = record {
    heap = λ c p r. absurd (omega arith);
    indexed = record {
      cells = λ j p. absurd (omega arith);
      owners = λ x k p r. ground (arith, h x, r);
    };
    room = omega arith;
    positive = omega arith;
  }

  -- After `reset` on a valid queue no element has an index, and the queue is valid and empty.
  pub reset_correct :
      (q : Pq)
      → IsValid pred q
      → IsValid pred (reset q) × (fill (reset q) ≡ 0) × ((x : ℕ) → (reset q).index x ≡ none)
  unfolding reset
  reset_correct q v = (
    record {
      heap = λ c p r. absurd (omega arith);
      indexed = record {
        cells = λ j p. absurd (omega arith);
        owners = λ x k p r. ground (arith, all_gone x, r);
      };
      room = omega arith;
      positive = omega arith;
    },
    refl,
    all_gone,
  )
    where
      none_of : (x : ℕ) (r : Option ℕ) → forget q.heap q.index x ≡ r → r ≡ none
      none_of x none h = refl
      none_of x (some k) h =
          let (lt, at) = v.indexed.owners x k refl (forget-keeps q.heap q.index x k h) in
          let gone = rw at at (forget-cell q.heap q.index k lt) in ground (arith, h, gone)

      all_gone : (x : ℕ) → forget q.heap q.index x ≡ none
      all_gone x = none_of x (forget q.heap q.index x) refl

  -- The loop of `resort` over the cells that are left; their indices are stale until then.
  add_all-Members :
      (o : IsStrictOrder pred) (q : Pq) (l : List ℕ)
      → Distinct l
      → IsValidBut pred (λ x. mem x l) q
      → IsValid pred (add_all pred q l)
        × (fill (add_all pred q l) ≡ fill q + length l)
        × ((x : ℕ)
            → is_some ((add_all pred q l).index x)
              ≡ (if mem x l then true else is_some (q.index x)))
  unfolding add_all
  add_all-Members o q [] d v = (v, omega arith, λ x. refl)
  add_all-Members o q (y ∷ l) d v =
      let t = add-Added pred o (λ x. mem x (y ∷ l)) q y (ground arith) v in
      let (valid, size, members) =
        add_all-Members o (add pred q y) l d.1
          (IsValidBut-congr pred (λ x. ground (arith, d.0)) t.valid) in
      (valid, omega (arith, size, t.length), λ x. ground (arith, members x, t.members x))

  Indexed-Distinct :
      (l : List ℕ) (f : ℕ → Option ℕ) (n : ℕ)
      → ((j : ℕ) → j < length l → f (cell l j) ≡ some (n + j))
      → Distinct l
  unfolding get_or
  Indexed-Distinct [] f n h = tt
  Indexed-Distinct (y ∷ l) f n h = (
    elim (Bool-cases (mem y l)) [
      | inr absent ↦ absent
      | inl twice ↦
          let (k, lt, at) = mem-cell y l twice in
          absurd (ground (arith, at, h 0 (omega arith), h (suc k) (omega arith)))
    ],
    Indexed-Distinct l f (suc n) (λ j p. h (suc j) (omega arith) ∙ ap some (omega arith)),
  )

  -- `resort` takes a queue whose elements know their indices, in whatever order their values have
  -- come to be, and makes it valid again with the same elements.
  pub resort_correct :
      (o : IsStrictOrder pred) (q : Pq)
      → IsIndexed (λ x. false) q
      → 0 < q.size
      → IsValid pred (resort pred q)
        × (fill (resort pred q) ≡ fill q)
        × ((x : ℕ) → is_some ((resort pred q).index x) ≡ is_some (q.index x))
  unfolding resort
  resort_correct o q h pos =
      let start : IsValidBut pred (λ x. mem x q.heap) (record q { heap = [] }) = record {
        heap = λ c p r. absurd (omega arith);
        indexed = record {
          cells = λ j p. absurd (omega arith);
          owners = λ x k p r. absurd (unlisted x k p r);
        };
        room = omega arith;
        positive = pos;
      } in
      let (valid, size, members) =
        add_all-Members o _ q.heap
          (Indexed-Distinct q.heap q.index 0 (λ j p. (h.cells j p).1 ∙ ap some (omega arith)))
          start in
      (valid, omega (arith, size), λ x. members x ∙ listed x)
    where
      unlisted : (x k : ℕ) → mem x q.heap ≡ false → q.index x ≡ some k → ⊥
      unlisted x k p r =
          let (lt, at) = h.owners x k refl r in ground (arith, p, rw at at (cell-mem q.heap k lt))

      listed : (x : ℕ) → (if mem x q.heap then true else is_some (q.index x)) ≡ is_some (q.index x)
      listed x = elim (Bool-cases (mem x q.heap)) [
        | inr out ↦ rw out
        | inl inside ↦
            let (k, lt, at) = mem-cell x q.heap inside in
            let index = rw at at (h.cells k lt).1 in ground (arith, inside, index)
      ]

  heap_holds-edges :
      (n : ℕ) (q : Pq) (i : ℕ)
      → heap_holds pred n q i ≡ true
      → (c : ℕ) → 0 < c
      → c < fill q
      → i ≤ parent_of c
      → parent_of c < i + n
      → pred (cell q.heap c) (cell q.heap (parent_of c)) ≡ false
  unfolding heap_holds
  heap_holds-edges zero q i h c p r s t = absurd (omega arith)
  heap_holds-edges (suc n) q i h c p r s t = elim (dec_lt i (parent_of c)) [
    | yes later ↦ heap_holds-edges n q (suc i) (ground (arith, h)) c p r (omega arith) (omega arith)
    | no here ↦
        let at : parent_of c ≡ i = omega arith in
        elim (ℕ_discrete c (left_of i)) [
          | yes left ↦ rw (at, left) (ground (arith, h, r, left))
          | no right ↦ let e : c ≡ right_of i = omega arith in rw (at, e) (ground (arith, h, r, e))
        ]
  ]

  edges-heap_holds : (n : ℕ) (q : Pq) (i : ℕ) → IsHeap pred q.heap → heap_holds pred n q i ≡ true
  unfolding heap_holds
  edges-heap_holds zero q i h = refl
  edges-heap_holds (suc n) q i h =
      let up : parent_of (right_of i) ≡ i = omega arith in
      let over : parent_of (left_of i) ≡ i = omega arith in
      ground (
        arith,
        rw up at (h (right_of i) (omega arith)),
        rw over at (h (left_of i) (omega arith)),
        edges-heap_holds n q (suc i) h,
      )

  -- `heap_holds(0, fill - 1)` is true exactly of a heap.
  pub heap_holds_iff : (q : Pq) → (heap_holds pred (fill q) q 0 ≡ true) ↔ IsHeap pred q.heap
  heap_holds_iff q = (
    λ h c p r. heap_holds-edges (fill q) q 0 h c p r (omega arith) (omega arith),
    edges-heap_holds (fill q) q 0,
  )
