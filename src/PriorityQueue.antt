-- ===== src/PriorityQueue.antt =====
-- src/util/priority_queue.h: a binary heap of pointers that keeps in each element its own index.
pub mod Order
pub mod Up
pub mod Down
pub mod Index
pub mod Insert
pub mod Update
pub mod Remove
pub mod Whole
pub mod Cells
mod Tests
use pbnf.Base.{
  ℕ, zero, suc, ◌+◌, ◌-◌, ◌*◌, ◌/◌, Bool, true, false, ◌&&◌, List, [], ◌∷◌, ◌++◌, Option, none,
  some, ltb, leb, ◌==◌, if◌then◌else◌, length, set, take, get_or,
}

-- `heap` holds the first `fill` cells of the array, `size` the cells that are allocated, and
-- `index` is the index field of every element, `none` for -1.
pub record Pq : Type 0 where
  pub heap : List ℕ
  pub size : ℕ
  pub index : ℕ → Option ℕ

abbrev pub fill : Pq → ℕ
fill q = length q.heap

-- `heap[i]`, NULL being element 0 of an array that is read past its end, which no caller does.
abbrev pub cell : List ℕ → ℕ → ℕ
cell a i = get_or a i 0

abbrev pub update : (ℕ → Option ℕ) → ℕ → Option ℕ → ℕ → Option ℕ
update f e v x = if e == x then v else f x

abbrev pub left_of : ℕ → ℕ
left_of i = 2 * i + 1

abbrev pub right_of : ℕ → ℕ
right_of i = 2 * i + 2

-- `(i - 1) / 2`, which is 0 at the root in C too
abbrev pub parent_of : ℕ → ℕ
parent_of i = (i - 1) / 2

unfoldable pub is_leaf : Pq → ℕ → Bool
is_leaf q i = leb (fill q) (left_of i) && leb (fill q) (right_of i)

abbrev pub set_index : Pq → ℕ → Option ℕ → Pq
set_index q e v = record q { index = update q.index e v }

-- `heap[i] = e`
abbrev pub write : Pq → ℕ → ℕ → Pq
write q i e = record q { heap = set q.heap i e }

abbrev pub init_size : ℕ
init_size = 100

-- The constructor, over the index fields of the elements.
unfoldable pub new : (ℕ → Option ℕ) → Pq
new index = record { heap = []; size = init_size; index = index }

unfoldable pub empty : Pq → Bool
empty q = leb (fill q) 0

unfoldable pub front : Pq → Option ℕ
front q = if leb (fill q) 0 then none else some (cell q.heap 0)

-- The doubling of the array in `add`; the cells are copied.
unfoldable pub grow : Pq → Pq
grow q = if leb q.size (fill q) then record q { size = q.size * 2 } else q

-- `set_index(heap[i], -1)` for every cell
unfoldable pub forget : List ℕ → (ℕ → Option ℕ) → ℕ → Option ℕ
forget [] f = f
forget (x ∷ a) f = forget a (update f x none)

unfoldable pub reset : Pq → Pq
unfolding forget
reset q = record { heap = []; size = init_size; index = forget q.heap q.index }

-- `push_front` of every cell in order
unfoldable pub to_list_loop : List ℕ → List ℕ → List ℕ
to_list_loop [] l = l
to_list_loop (x ∷ a) l = to_list_loop a (x ∷ l)

unfoldable pub to_list : Pq → List ℕ
unfolding to_list_loop
to_list q = to_list_loop q.heap []

abbrev pub is_index : Option ℕ → ℕ → Bool
is_index none j = false
is_index (some k) j = k == j

-- `indexes_match`, over the cells from `i` on
unfoldable pub indexes_match_from : List ℕ → (ℕ → Option ℕ) → ℕ → Bool
indexes_match_from [] f i = true
indexes_match_from (x ∷ a) f i = is_index (f x) i && indexes_match_from a f (suc i)

unfoldable pub indexes_match : Pq → Bool
unfolding indexes_match_from
indexes_match q = indexes_match_from q.heap q.index 0

-- The queue over `pred`, the order of the elements while an operation runs.
module _ (pred : ℕ → ℕ → Bool) where
  -- the child that comes first, of a node that is no leaf
  unfoldable pub max_child : Pq → ℕ → ℕ
  max_child q i =
      let right = right_of i in
      let left = left_of i in
      if ltb left (fill q) && ltb right (fill q)
      then (if pred (cell q.heap right) (cell q.heap left) then right else left)
      else (if ltb left (fill q) then left else right)

  -- The loop of `sift_up`; it takes at most `i` rounds, since the index at least halves.
  unfoldable pub sift_up_loop : ℕ → Pq → ℕ → ℕ → Pq × ℕ
  sift_up_loop zero q e i = (q, i)
  sift_up_loop (suc k) q e i =
      let p_ind = parent_of i in
      let parent = cell q.heap p_ind in
      let rest = sift_up_loop k (set_index (write q i parent) parent (some i)) e p_ind in
      if ltb 0 i && pred e parent then rest else (q, i)

  unfoldable pub sift_up : Pq → ℕ → Pq × ℕ
  unfolding sift_up_loop
  sift_up q i = let e = cell q.heap i in let (r, j) = sift_up_loop i q e i in (write r j e, j)

  -- The child that `try_push` compares with.
  unfoldable pub push_child : Pq → ℕ → ℕ
  push_child q i =
      if ltb (right_of i) (fill q) && pred (cell q.heap (right_of i)) (cell q.heap (left_of i))
      then right_of i
      else left_of i

  -- The index more than doubles with each call, so `fill - i` calls are enough.
  unfoldable pub try_push : ℕ → Pq → ℕ → ℕ → Pq × ℕ
  try_push zero q e i = (q, i)
  try_push (suc k) q e i =
      let child_i = push_child q i in
      let child = cell q.heap child_i in
      let rest = try_push k (set_index (write q i child) child (some i)) e child_i in
      if ltb (left_of i) (fill q) then (if pred e child then (q, i) else rest) else (q, i)

  unfoldable pub sift_down : Pq → ℕ → ℕ → Pq × ℕ
  unfolding try_push push_child
  sift_down q e i =
      let (r, j) = try_push (fill q - i) q e i in (set_index (write r j e) e (some j), j)

  unfoldable pub add : Pq → ℕ → Pq
  unfolding sift_up grow
  add q e =
      let g = grow q in
      let (r, i) = sift_up (record g { heap = g.heap ++ e ∷ [] }) (fill g) in set_index r e (some i)

  unfoldable pub take_front : Pq → Option ℕ × Pq
  unfolding sift_down
  take_front q =
      if leb (fill q) 0
      then (none, q)
      else let e = cell q.heap 0 in
        let last = fill q - 1 in
        let moved = cell q.heap last in
        let r = record (set_index q e none) { heap = take last (set q.heap 0 moved) } in
        (some e, if ltb 0 last then (sift_down r moved 0).0 else r)

  unfoldable pub remove : Pq → ℕ → Pq
  unfolding sift_down sift_up
  remove q i =
      let last = fill q - 1 in
      let moved = cell q.heap last in
      let r = record (set_index q (cell q.heap i) none) { heap = take last (set q.heap i moved) } in
      if ltb i last
      then (let (s, j) = sift_up (set_index r moved (some i)) i in (sift_down s moved j).0)
      else r

  unfoldable pub see_update : Pq → ℕ → Pq
  unfolding sift_down sift_up
  see_update q i = let (r, j) = sift_up q i in (sift_down r (cell q.heap i) j).0

  unfoldable pub add_all : Pq → List ℕ → Pq
  unfolding add
  add_all q [] = q
  add_all q (x ∷ a) = add_all (add q x) a

  unfoldable pub resort : Pq → Pq
  unfolding add_all
  resort q = add_all (record q { heap = [] }) q.heap

  -- `heap_holds(start, start + n - 1)`
  unfoldable pub heap_holds : ℕ → Pq → ℕ → Bool
  heap_holds zero q i = true
  heap_holds (suc n) q i =
      let right = right_of i in
      let left = left_of i in
      let rest = heap_holds n q (suc i) in
      if ltb right (fill q) && pred (cell q.heap right) (cell q.heap i)
      then false
      else if ltb left (fill q) && pred (cell q.heap left) (cell q.heap i)
      then false
      else rest
