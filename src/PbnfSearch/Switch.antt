-- ===== src/PbnfSearch/Switch.antt =====
-- src/pbnf_search.cc: `should_switch` and the nblock graph.
use pbnf.Base.{
  ℕ, ◌<◌, ◌≡◌, Bool, true, false, not, ◌||◌, ◌&&◌, List, [], ◌∷◌, Option, none, some, ltb,
  if◌then◌else◌, is_some, mem,
}
use pbnf.PriorityQueue
use pbnf.NblockGraph.{Graph, best_value, best_val, best_in_scope, is_empty}
use pbnf.NblockGraph.Cold.{IsScope, Same}
use pbnf.NblockGraph.Claim.{IsConsistent}
use pbnf.NblockGraph.Hot.{CoolsScope, HeatsBlock}

-- Some block of the list has open nodes and a best value below `v`.
abbrev pub better_in : Graph → ℕ → List ℕ → Bool
better_in g v [] = false
better_in g v (x ∷ l) = not (is_empty (g.opens x)) && ltb (best_value g x) v || better_in g v l

-- The block that was found, if any, has a best value below `v`.
abbrev beats : Graph → ℕ → Option ℕ → Bool
beats g v none = false
beats g v (some b) = ltb (best_value g b) v

-- The value of the best free block.
abbrev pub free_val : Graph → ℕ
free_val g = best_val g (PriorityQueue.front g.free_list)

module _ (interferes : ℕ → List ℕ) (scope : IsScope interferes) (num_nblocks : ℕ)
    (inside : (a b : ℕ) → mem a (interferes b) ≡ true → a < num_nblocks) where
  abbrev IsGood : Graph → Type 0
  IsGood = IsConsistent interferes scope num_nblocks inside

  -- The block that livelock detection finds.
  abbrev pub watched : Bool → Graph → ℕ → Option ℕ
  watched detect g n = if detect then best_in_scope interferes g n else none

  -- With livelock detection, some block of the scope of `n` has open nodes and a best value below
  -- `v`.
  abbrev pub livelocked : Bool → Graph → ℕ → ℕ → Bool
  livelocked detect g n v = detect && better_in g v (interferes n)

  -- The best free block, or a block of the scope, is better than `n`.
  abbrev pub beaten : Bool → Graph → ℕ → Bool
  beaten detect g n = ltb (free_val g) (best_value g n) || livelocked detect g n (best_value g n)

  -- A block of the scope is better than the best free one.
  abbrev pub nearer : Bool → Graph → ℕ → Bool
  nearer detect g n = livelocked detect g n (free_val g)

  -- The ways of a decision to leave the graph.
  pub data Leaves (detect locked : Bool) (g : Graph) (n : ℕ) (h : Graph) : Type 0 where
    unlocked : locked ≡ false → h ≡ g → Leaves detect locked g n h
    free_first : watched detect g n ≡ none → h ≡ g → Leaves detect locked g n h
    switches :
        beaten detect g n ≡ true → nearer detect g n ≡ false → h ≡ g → Leaves detect locked g n h
    stays :
        beaten detect g n ≡ false
        → is_some (watched detect g n) ≡ true
        → locked ≡ true
        → CoolsScope interferes scope g n h
        → Leaves detect locked g n h
    heats :
        (b : ℕ)
        → beaten detect g n ≡ true
        → nearer detect g n ≡ true
        → watched detect g n ≡ some b
        → locked ≡ true
        → HeatsBlock interferes scope g b (best_value g b) h
        → Leaves detect locked g n h

  -- What is decided once there have been enough expansions.
  pub record Decided (detect locked : Bool) (g : Graph) (n : ℕ) (r : Bool × Graph) : Type 0 where
    pub good : IsGood r.1
    pub same : Same g r.1
    pub result : r.0 ≡ (beaten detect g n && (locked || not (nearer detect g n)))
    pub graph : Leaves detect locked g n r.1
