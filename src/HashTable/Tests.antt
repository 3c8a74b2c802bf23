-- ===== src/HashTable/Tests.antt =====
-- src/util/hash_table.h: runs of a table of numbers, with their remainder by 7 as the hash.
use pbnf.Base.{
  ℕ, ◌+◌, ◌%◌, ◌≡◌, refl, List, [], ◌∷◌, none, some, arith, ◌==◌, if◌then◌else◌, get_or, replicate,
}
use pbnf.HashTable.{
  Table, new, allocated, do_add, add_data, rehash, resize, add, lookup, remove, for_each, elements,
  counted,
}
use pbnf.HashTable.Buckets.{Chain, chain_add, chain_data}
use pbnf.HashTable.Laws.{IsPlaced, find, IsPlaced-replicate, do_add-IsPlaced}
use pbnf.HashTable.Resize.{resize_correct}
use pbnf.HashTable.Map.{IsValid, with_table, Removed, lookup-new, lookup-add, lookup-remove}

abbrev hash : ℕ → ℕ
hash x = x % 7

abbrev small : Table ℕ
small = add hash (new 9) 12

abbrev buckets : List (Chain ℕ)
buckets = do_add hash 9 (replicate 9 []) 12

small-IsValid : IsValid hash small
unfolding new
small-IsValid = (lookup-add hash (new 9) 12 (lookup-new hash 9 (omega arith)).0 (omega arith)).0

buckets-IsPlaced : IsPlaced hash 9 buckets
buckets-IsPlaced =
    do_add-IsPlaced hash 9 (omega arith) (replicate 9 []) (IsPlaced-replicate hash 9) 12

buckets-IsValid : IsValid hash (with_table hash buckets 9 1)
unfolding allocated
buckets-IsValid = record { positive = omega arith; placed = buckets-IsPlaced }

-- the third element makes the table grow, and one with an equal hash takes another's place
grown :
    (for_each (add hash (add hash small 8) 3) ≡ some (8 ∷ 3 ∷ 12 ∷ []))
    × ((add hash (add hash small 8) 3).size ≡ 90)
    × (for_each (add hash small 5) ≡ some (5 ∷ []))
    × ((add hash small 5).fill ≡ 2)
unfolding new add allocated do_add add_data rehash resize for_each counted elements chain_add
    chain_data replicate get_or
grown = (refl, refl, refl, refl)

lookup-new_example : IsValid hash (new 9) × ((h : ℕ) → lookup hash (new 9) h ≡ none)
lookup-new_example = lookup-new hash 9 (omega arith)

lookup-add_example :
    IsValid hash (add hash small 8)
    × ((h : ℕ)
        → lookup hash (add hash small 8) h ≡ (if h == hash 8 then some 8 else lookup hash small h))
    × ((add hash small 8).fill ≡ small.fill + 1)
unfolding new add
lookup-add_example = lookup-add hash small 8 small-IsValid (omega arith)

lookup-remove_example :
    (r : Table ℕ) × (remove hash (with_table hash buckets 9 1) 12 ≡ some r)
    × Removed hash (with_table hash buckets 9 1) 12 r
lookup-remove_example = lookup-remove hash buckets 9 1 12 buckets-IsValid

resize_correct_example :
    IsPlaced hash 90 (resize hash 9 buckets)
    × ((h : ℕ) → find hash 90 (resize hash 9 buckets) h ≡ find hash 9 buckets h)
resize_correct_example = resize_correct hash 9 buckets (omega arith) (omega arith) buckets-IsPlaced
