-- ===== src/ClosedList/Laws.antt =====
-- src/closed_list.cc: what `remove_closed_nodes` takes out.
use pbnf.Base.{ℕ, Bool, false, ◌||◌, List, [], ◌∷◌, ◌==◌}
use pbnf.HashTable
use pbnf.ClosedList.{ClosedList}

-- A state of the list has the hash.
abbrev pub hashed : (ℕ → ℕ) → ℕ → List ℕ → Bool
hashed hash h [] = false
hashed hash h (s ∷ l) = h == hash s || hashed hash h l
