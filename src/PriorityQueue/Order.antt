-- ===== src/PriorityQueue/Order.antt =====
-- src/util/priority_queue.h: what a predecessor function promises, and the heap order.
use pbnf.Base.{
  ℕ, zero, suc, ◌<◌, ◌≡◌, ◌≢◌, Bool, true, false, List, arith, length, set, length-set, get_or-set,
}
use pbnf.PriorityQueue.{cell, parent_of}

-- A strict weak order, which the comment on the class asks for with "returns true if a is a
-- predecessor of b".
pub record IsStrictOrder (pred : ℕ → ℕ → Bool) : Type 0 where
  pub asym : (a b : ℕ) → pred a b ≡ true → pred b a ≡ false
  pub trans : (a b c : ℕ) → pred b a ≡ false → pred c b ≡ false → pred c a ≡ false

module _ (pred : ℕ → ℕ → Bool) where
  -- `a` may stand above `b`
  abbrev pub Le : ℕ → ℕ → Type 0
  Le a b = pred b a ≡ false

  abbrev pub IsHeap : List ℕ → Type 0
  IsHeap a = (c : ℕ) → 0 < c → c < length a → Le (cell a (parent_of c)) (cell a c)

  -- The edges away from `i` are in order, and so are those that a removal of `i` would leave,
  -- from its parent to its children.
  pub record IsHeapAround (a : List ℕ) (i : ℕ) : Type 0 where
    pub inside : i < length a
    pub edges :
        (c : ℕ)
        → 0 < c
        → c < length a
        → c ≢ i
        → parent_of c ≢ i
        → Le (cell a (parent_of c)) (cell a c)
    pub bridged :
        (c : ℕ)
        → 0 < c
        → c < length a
        → parent_of c ≡ i
        → 0 < i
        → Le (cell a (parent_of i)) (cell a c)

  -- `e` may stand at `i` under what is above it.
  abbrev pub IsAbove : List ℕ → ℕ → ℕ → Type 0
  IsAbove a i e = 0 < i → Le (cell a (parent_of i)) e

  -- `e` may stand at `i` over what is below it.
  abbrev pub IsBelow : List ℕ → ℕ → ℕ → Type 0
  IsBelow a i e = (c : ℕ) → 0 < c → c < length a → parent_of c ≡ i → Le e (cell a c)

  -- `e` closes the hole at `i`.
  pub IsHeap-set :
      (a : List ℕ) (i e : ℕ) → IsHeapAround a i → IsAbove a i e → IsBelow a i e → IsHeap (set a i e)
  IsHeap-set a i e h above below c pos lt =
      rw (get_or-set a i c e 0 h.inside, get_or-set a i (parent_of c) e 0 h.inside)
        (ground (arith, length-set a i e, h.edges c, below c))

  pub IsHeap-root_below :
      (o : IsStrictOrder pred) (k : ℕ) (a : List ℕ) (i : ℕ)
      → IsHeap a
      → i < k
      → i < length a
      → Le (cell a 0) (cell a i)
  IsHeap-root_below o zero a i h f p = absurd (omega arith)
  IsHeap-root_below o (suc k) a i h f p = ground (
    arith,
    h i,
    IsHeap-root_below o k a (parent_of i) h,
    o.trans (cell a 0) (cell a (parent_of i)) (cell a i),
    o.asym (cell a 0) (cell a 0),
  )
