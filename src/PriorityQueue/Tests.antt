-- ===== src/PriorityQueue/Tests.antt =====
-- src/util/priority_queue.h: runs of a queue of numbers, the least first.
use pbnf.Base.{
  ℕ, suc, ◌<◌, ◌≡◌, refl, true, false, [], ◌∷◌, none, some, arith, ltb, ◌==◌, if◌then◌else◌,
  is_some, get_or,
}
use mathlib.Core.Logic.{◌↔◌}
use pbnf.PriorityQueue.{
  Pq, cell, fill, new, add, remove, see_update, take_front, resort, reset, grow, to_list,
  to_list_loop, indexes_match, heap_holds, sift_up, sift_up_loop, sift_down, try_push, push_child,
  max_child, is_leaf,
}
use pbnf.PriorityQueue.Order.{IsStrictOrder, IsHeap, IsHeapAround}
use pbnf.PriorityQueue.Insert.{IsValid, add_correct}
use pbnf.PriorityQueue.Update.{see_update_correct}
use pbnf.PriorityQueue.Remove.{Removed, Taken, remove_correct, take_front_correct}
use pbnf.PriorityQueue.Whole.{
  new-IsValid, reset_correct, resort_correct, heap_holds_iff, indexes_match_iff,
}

less : IsStrictOrder ltb
less = record { asym = λ a b h. ground (arith, h); trans = λ a b c h k. ground (arith, h, k) }

greater : IsStrictOrder (λ a b. ltb b a)
greater = record { asym = λ a b h. ground (arith, h); trans = λ a b c h k. ground (arith, h, k) }

abbrev one_item : Pq
one_item = add ltb (new (λ x. none)) 5

abbrev two_items : Pq
two_items = add ltb one_item 3

abbrev items : Pq
items = add ltb (add ltb two_items 9) 1

one_item-IsValid : IsValid ltb one_item
unfolding new
one_item-IsValid =
    (add_correct ltb less (new (λ x. none)) 5 (new-IsValid ltb (λ x. none) (λ x. refl)) refl).0

two_items-IsValid : IsValid ltb two_items
unfolding new add grow sift_up sift_up_loop
two_items-IsValid = (add_correct ltb less one_item 3 one_item-IsValid refl).0

items-IsValid : IsValid ltb items
unfolding new add grow sift_up sift_up_loop get_or
items-IsValid =
    let three = (add_correct ltb less two_items 9 two_items-IsValid refl).0 in
    (add_correct ltb less (add ltb two_items 9) 1 three refl).0

items_heap : items.heap ≡ 1 ∷ 3 ∷ 9 ∷ 5 ∷ []
unfolding new add grow sift_up sift_up_loop get_or
items_heap = refl

fill-items : fill items ≡ 4
unfolding new add grow sift_up sift_up_loop get_or
fill-items = refl

items_list : to_list items ≡ 5 ∷ 9 ∷ 3 ∷ 1 ∷ []
unfolding new add grow sift_up sift_up_loop to_list to_list_loop get_or
items_list = refl

items_children : (max_child ltb items 0 ≡ 1) × (is_leaf items 0 ≡ false) × (is_leaf items 2 ≡ true)
unfolding new add grow sift_up sift_up_loop max_child is_leaf get_or
items_children = (refl, refl, refl)

remove_inner : (remove ltb items 0).heap ≡ 3 ∷ 5 ∷ 9 ∷ []
unfolding new add grow sift_up sift_up_loop remove sift_down try_push push_child get_or
remove_inner = refl

add_correct_example :
    IsValid ltb two_items
    × (fill two_items ≡ suc (fill one_item))
    × ((x : ℕ)
        → is_some (two_items.index x) ≡ (if 3 == x then true else is_some (one_item.index x)))
unfolding new add grow sift_up sift_up_loop
add_correct_example = add_correct ltb less one_item 3 one_item-IsValid refl

remove_correct_example : Removed ltb less items 1 (remove ltb items 1)
remove_correct_example = remove_correct ltb less items 1 items-IsValid (omega (arith, fill-items))

take_front_correct_example : Taken ltb less items (take_front ltb items)
take_front_correct_example =
    take_front_correct ltb less items items-IsValid (omega (arith, fill-items))

items-IsHeapAround : IsHeapAround ltb items.heap 1
unfolding new add grow sift_up sift_up_loop get_or
items-IsHeapAround = record {
  inside = omega (arith, fill-items);
  edges = λ c p q r s. items-IsValid.heap c p q;
  bridged = λ c p q r s. let e : c ≡ 3 = omega (arith, fill-items) in rw e refl;
}

see_update_correct_example :
    IsValid ltb (see_update ltb items 1)
    × (fill (see_update ltb items 1) ≡ fill items)
    × ((x : ℕ) → is_some ((see_update ltb items 1).index x) ≡ is_some (items.index x))
see_update_correct_example =
    see_update_correct ltb less items 1 items-IsHeapAround items-IsValid.indexed
      items-IsValid.positive items-IsValid.room

-- the order has been turned round
resort_correct_example :
    IsValid (λ a b. ltb b a) (resort (λ a b. ltb b a) items)
    × (fill (resort (λ a b. ltb b a) items) ≡ fill items)
    × ((x : ℕ) → is_some ((resort (λ a b. ltb b a) items).index x) ≡ is_some (items.index x))
resort_correct_example =
    resort_correct (λ a b. ltb b a) greater items items-IsValid.indexed items-IsValid.positive

reset_correct_run :
    IsValid ltb (reset items) × (fill (reset items) ≡ 0) × ((x : ℕ) → (reset items).index x ≡ none)
reset_correct_run = reset_correct ltb items items-IsValid

heap_holds_iff_run : (heap_holds ltb (fill items) items 0 ≡ true) ↔ IsHeap ltb items.heap
heap_holds_iff_run = heap_holds_iff ltb items

indexes_match_iff_run :
    (indexes_match items ≡ true)
    ↔ ((j : ℕ) → j < fill items → items.index (cell items.heap j) ≡ some j)
indexes_match_iff_run = indexes_match_iff items
