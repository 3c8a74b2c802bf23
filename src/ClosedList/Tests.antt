-- ===== src/ClosedList/Tests.antt =====
-- src/closed_list.cc: a list of an open and a closed state.
use pbnf.Base.{ℕ, false, ◌∷◌, none, ◌==◌, []}
use pbnf.SearchState.{Store}
use pbnf.HashTable
use pbnf.HashTable.{Table, allocated}
use pbnf.ClosedList.{ClosedList}

abbrev hash : ℕ → ℕ
hash x = x

-- State 3 is open, and no other state.
abbrev states : Store
states x = record { parent = none; c = 1; g = 1; h = 1; opened = x == 3; incons = false }

abbrev one_state : Table ℕ
one_state = HashTable.add hash (HashTable.new 9) 3

abbrev states_3_4 : ClosedList
states_3_4 = record { tbl = HashTable.add hash one_state 4; nodes = 7 ∷ [] }
