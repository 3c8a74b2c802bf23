-- ===== src/InconsList/Tests.antt =====
-- src/incons_list.cc: a state that is added to an empty list.
use pbnf.Base.{ℕ, ◌≡◌, true, false, none, some, arith, ◌==◌, if◌then◌else◌}
use pbnf.SearchState.{Store}
use pbnf.HashTable
use pbnf.HashTable.Map.{lookup-new}
use pbnf.InconsList.{InconsList, add}
use pbnf.InconsList.Laws.{IsFlagged, add-IsFlagged}

abbrev hash : ℕ → ℕ
hash x = x

abbrev states : Store
states x = record { parent = none; c = 1; g = 1; h = 1; opened = false; incons = false }

abbrev no_states : InconsList
no_states = record { tbl = HashTable.new 9; states = states }

no_states-IsFlagged : IsFlagged hash no_states
no_states-IsFlagged = record { valid = (lookup-new hash 9 (omega arith)).0; found = λ x h. cc }

add-IsFlagged_example :
    (r : InconsList) × (add hash no_states 3 ≡ some r)
    × IsFlagged hash r
    × ((x : ℕ) → (r.states x).incons ≡ (if 3 == x then true else (no_states.states x).incons))
unfolding HashTable.new
add-IsFlagged_example =
    add-IsFlagged hash no_states 3 (λ x h e. e) no_states-IsFlagged (omega arith)
