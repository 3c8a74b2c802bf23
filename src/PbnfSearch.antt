-- ===== src/PbnfSearch.antt =====
-- src/pbnf_search.cc: how a thread searches a block, and when it leaves it.
pub mod Writes
pub mod Switch
mod Tests
use pbnf.Base.{
  ℕ, zero, suc, Bool, true, false, not, ◌||◌, List, [], ◌∷◌, Option, none, some, ltb, leb,
  if◌then◌else◌, put,
}
use pbnf.PriorityQueue.{Pq}
use pbnf.PriorityQueue
use pbnf.SearchState.{Store, State, get_f, update}
use pbnf.OpenList.{OpenList}
use pbnf.OpenList
use pbnf.HashTable.{Table}
use pbnf.HashTable
use pbnf.NblockGraph.{Graph, best_value, best_val, best_in_scope, set_hot, wont_release}

-- The states, and the open and closed list of every block.
pub record World : Type 0 where
  pub states : Store
  pub queues : ℕ → Pq
  pub bests : ℕ → ℕ
  pub closed : ℕ → Table ℕ

-- `graph->get_nblock(b)->open`
abbrev pub open_of : World → ℕ → OpenList
open_of w b = record { pq = w.queues b; best = w.bests b; states = w.states }

abbrev pub put_open : World → ℕ → OpenList → World
put_open w b o = record w {
  states = o.states;
  queues = put w.queues b o.pq;
  bests = put w.bests b o.best;
}

-- The loops go on, or stop at a goal whose path is returned, or an assertion fails.
pub data Round : Type 0 where
  more : World → Round
  found : ℕ → World → Round
  failed : Round

-- A state that the search has generated, with its address.
pub record Child : Type 0 where
  pub address : ℕ
  pub state : State

-- Of the domain: the hash of a state, its block, whether it is a goal, and its children; the
-- weight of the heuristic. `bound` is what the bound reads as when a state is compared with it,
-- since other threads may lower it in between.
module _ (weight : ℕ) (hash : ℕ → ℕ) (project : ℕ → ℕ) (is_goal : ℕ → Bool)
    (expand : Store → ℕ → List Child) (bound : ℕ → ℕ) where
  -- `next_open->see_update(dup)`, which asserts that the state has an index.
  pub updated : World → ℕ → Option OpenList → Round
  updated w b none = failed
  updated w b (some o) = more (put_open w b o)

  -- A child that is found in the closed list as `dup`.
  pub improve : World → ℕ → ℕ → State → Round
  improve w b dup s =
      let v = record w { states = put w.states dup (update (w.states dup) s.parent s.c s.g) } in
      if ltb s.g (w.states dup).g
      then (if (w.states dup).opened
          then updated v b (OpenList.see_update weight (open_of v b) dup)
          else more (put_open v b (OpenList.add weight (open_of v b) dup)))
      else more w

  -- A child that is not.
  pub join : World → ℕ → ℕ → Round
  join w b c =
      let v = record w { closed = put w.closed b (HashTable.add hash (w.closed b) c) } in
      if is_goal c then found c v else more (put_open v b (OpenList.add weight (open_of v b) c))

  pub sort_in : World → ℕ → Child → Option ℕ → Round
  sort_in w b c none = join w b c.address
  sort_in w b c (some dup) = improve w b dup c.state

  -- A round of the loop over the children.
  pub visit : World → Child → Round
  visit w c =
      let v = record w { states = put w.states c.address c.state } in
      let b = project c.address in
      if leb (bound c.address) (get_f c.state)
      then more w
      else sort_in v b c (HashTable.lookup hash (w.closed b) (hash c.address))

  pub visit_all : List Child → World → Round
  visit_all [] w = more w
  visit_all (c ∷ cs) w = elim (visit w c) [
    | more v ↦ visit_all cs v
    | found s v ↦ found s v
    | failed ↦ failed
  ]

  -- The first `k` rounds of `search_nblock`; `switch` is what `should_switch` returns in each.
  pub search_nblock : (ℕ → Bool) → ℕ → ℕ → World → Round
  search_nblock switch zero n w = more w
  search_nblock switch (suc k) n w =
      let rest = search_nblock switch k n in
      if OpenList.empty weight (open_of w n) || switch k
      then more w
      else elim (OpenList.take weight (open_of w n)) [
        | none ↦ failed
        | some (s, o) ↦
            let v = put_open w n o in
            if leb (bound s) (get_f (v.states s))
            then rest v
            else if is_goal s
            then found s v
            else elim (visit_all (expand v.states s) v) [
              | more u ↦ rest u
              | found t u ↦ found t u
              | failed ↦ failed
            ]
      ]

-- What `should_switch` has decided: its result and the graph.
module _ (interferes : ℕ → List ℕ) where
  -- With the best block of the scope, where there is one. `locked` tells whether `try_lock`
  -- succeeds; `set_hot` returns just that.
  pub decide : Bool → Graph → ℕ → Option ℕ → Bool × Graph
  decide locked g n none = (ltb (best_val g (PriorityQueue.front g.free_list)) (best_value g n), g)
  decide locked g n (some b) =
      let free = best_val g (PriorityQueue.front g.free_list) in
      let cur = best_value g n in
      let scope = best_value g b in
      if not (ltb free cur || ltb scope cur)
      then (false, if locked then wont_release interferes g n else g)
      else if ltb scope free
      then (locked, if locked then set_hot interferes g b scope else g)
      else (true, g)

  -- The result, the count of expansions, and the graph.
  pub should_switch : Bool → ℕ → Bool → ℕ → Graph → ℕ → Bool × ℕ × Graph
  should_switch detect min_expansions locked expansions g n =
      if ltb expansions min_expansions
      then (false, expansions, g)
      else (let r = decide locked g n (if detect then best_in_scope interferes g n else none) in
          (r.0, 0, r.1))
