-- ===== src/ClosedList.antt =====
-- src/closed_list.cc: a closed list over a hash table of states.
pub mod Laws
mod Tests
use pbnf.Base.{ℕ, Bool, ◌||◌, List, [], ◌∷◌, ◌++◌, Option, none, some, if◌then◌else◌}
use pbnf.SearchState.{Store}
use pbnf.HashTable.{Table, for_each}
use pbnf.HashTable

-- `nodes` are the states that have been taken out, which are freed with the others.
pub record ClosedList : Type 0 where
  pub tbl : Table ℕ
  pub nodes : List ℕ

pub new : ℕ → ClosedList
new s = record { tbl = HashTable.new s; nodes = [] }

-- What becomes of the list when the table has changed; `none` if its loop does not end.
pub put_table : ClosedList → Option (Table ℕ) → Option ClosedList
put_table c none = none
put_table c (some t) = some (record c { tbl = t })

pub prune : ClosedList → Option ClosedList
unfolding put_table
prune c = put_table c (HashTable.prune c.tbl)

pub empty : ClosedList → Bool
empty c = HashTable.empty c.tbl

-- `delete_all_states`; the states that were taken out are freed, and their list stays.
pub delete_all_states : ClosedList → Option ClosedList
unfolding put_table
delete_all_states c = put_table c (HashTable.delete_all c.tbl)

-- `__remove_closed`, called for each state in order; `push_front` into the list `l`.
pub collect : Store → List ℕ → List ℕ → List ℕ
collect st [] l = l
collect st (s ∷ ss) l = collect st ss (if (st s).opened || (st s).incons then l else s ∷ l)

module _ (hash : ℕ → ℕ) where
  pub add : ClosedList → ℕ → ClosedList
  add c s = record c { tbl = HashTable.add hash c.tbl s }

  -- `lookup` of a state with the hash `h`
  pub lookup : ClosedList → ℕ → Option ℕ
  lookup c h = HashTable.lookup hash c.tbl h

  -- The loop that removes what has been collected.
  pub remove_all : Table ℕ → List ℕ → Option (Table ℕ)
  remove_all t [] = some t
  remove_all t (s ∷ l) = elim (HashTable.remove hash t s) [ none ↦ none | some u ↦ remove_all u l ]

  pub remove_collected : ClosedList → List ℕ → Option ClosedList
  remove_collected c closed = elim (remove_all c.tbl closed) [
    | none ↦ none
    | some u ↦ some (record { tbl = u; nodes = closed ++ c.nodes })
  ]

  -- `none` if the loop of `for_each` does not end, or `remove` fails.
  pub remove_closed_nodes : Store → ClosedList → Option ClosedList
  unfolding remove_collected
  remove_closed_nodes st c = elim (for_each c.tbl) [
    | none ↦ none
    | some ss ↦ remove_collected c (collect st ss [])
  ]
