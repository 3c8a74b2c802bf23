-- ===== src/PbnfSearch/Tests.antt =====
-- src/pbnf_search.cc: a search over numbers, where a state's child is the next number, and the
-- decisions to leave a block.
use pbnf.Base.{ℕ, ◌+◌, ◌≡◌, refl, false, List, [], ◌∷◌, none, some, arith, ◌==◌, if◌then◌else◌}
use pbnf.PriorityQueue
use pbnf.HashTable
use pbnf.OpenList
use pbnf.OpenList.{OpenList, fp_infinity}
use pbnf.SearchState.{Store, State}
use pbnf.NblockGraph.{Graph, Open, init}
use pbnf.PbnfSearch.{World, Child, open_of, put_open, search_nblock}
use pbnf.PbnfSearch.Writes.{IsKept, IsInside, IsOwn, add-Same, search_nblock-IsKept}

abbrev plain : ℕ → ℕ → State
plain g h = record { parent = none; c = 1; g = g; h = h; opened = false; incons = false }

-- Every state is a block of its own, and has the next as its child.
abbrev project : ℕ → ℕ
project x = x

abbrev expand : Store → ℕ → List Child
expand st s = record { address = s + 1; state = plain ((st s).g + 1) 2 } ∷ []

abbrev blank : World
blank = record {
  states = λ x. plain 0 3;
  queues = λ b. PriorityQueue.new (λ x. none);
  bests = λ b. fp_infinity;
  closed = λ b. HashTable.new 4000;
}

abbrev begun : World
begun = put_open blank 0 (OpenList.add 10000 (open_of blank 0) 0)

-- The children of block 0 alone are in the scope of block 0.
expand-IsInside : (st : Store) (s : ℕ) → project s ≡ 0 → IsInside project (0 ∷ 1 ∷ []) (expand st s)
expand-IsInside st s e = (ground (arith, e), tt)

blank-IsOwn : IsOwn project blank
unfolding PriorityQueue.new
blank-IsOwn b j lt = absurd (omega arith)

begun-IsOwn : IsOwn project begun
begun-IsOwn =
    (add-Same project (0 ∷ 1 ∷ []) 10000 (λ x. x) (λ x. false) expand (λ s. 100) blank 0 0 refl
      blank-IsOwn refl).owned

search_nblock-IsKept_example :
    IsKept project
      (0 ∷ 1 ∷ [])
      begun
      (search_nblock 10000 (λ x. x) project (λ x. false) expand (λ s. 100) (λ k. false) 2 0 begun)
search_nblock-IsKept_example =
    search_nblock-IsKept project (0 ∷ 1 ∷ []) 10000 (λ x. x) (λ x. false) expand (λ s. 100)
      (λ x y e. e) (λ k. false) 2 0 begun refl expand-IsInside begun-IsOwn

-- Blocks 0 and 1 interfere.
abbrev beside : ℕ → List ℕ
beside x = if x == 0 then 1 ∷ [] else if x == 1 then 0 ∷ [] else []

abbrev opens : ℕ → Open
opens x = record { best_val = x + 4; top = some (record { f = x + 4; g = 1 }) }

-- Block 0 is free, and a thread with block 1 has made six expansions.
abbrev graph : Graph
graph = init 2 opens 0
