-- ===== src/OpenList.antt =====
-- src/open_list.cc and src/pq_open_list.h: an open list over a priority queue of states, in the
-- order `PQOpsFPrime`. The sizes that are kept for statistics are left out.
pub mod Laws
pub mod Cells
mod Tests
use pbnf.Base.{
  ℕ, Bool, true, false, List, [], ◌∷◌, Option, none, some, ◌-◌, ◌^◌, ltb, if◌then◌else◌, put,
}
use pbnf.PriorityQueue.{Pq, fill}
use pbnf.PriorityQueue
use pbnf.SearchState.{Store, State, get_f_prime, f_prime_before, set_open}

abbrev pub fp_infinity : ℕ
fp_infinity = 2 ^ 64 - 1

-- The queue, the best value, and the states of the program.
pub record OpenList : Type 0 where
  pub pq : Pq
  pub best : ℕ
  pub states : Store

module _ (weight : ℕ) where
  abbrev pub before : Store → ℕ → ℕ → Bool
  before st a b = f_prime_before weight (st a) (st b)

  -- `comp.get_value`
  abbrev pub value : Store → ℕ → ℕ
  value st s = get_f_prime weight (st s)

  -- `comp.get_value(pq.front())`, or infinity where there is no front.
  pub front_value : Store → Option ℕ → ℕ
  front_value st none = fp_infinity
  front_value st (some s) = value st s

  abbrev pub mark : Store → ℕ → Bool → Store
  mark st s b = put st s (set_open (st s) b)

  -- `set_best_val` of the front, or of infinity if the queue is empty
  pub rate : OpenList → OpenList
  rate o = record o {
    best =
        if PriorityQueue.empty o.pq
        then fp_infinity
        else front_value o.states (PriorityQueue.front o.pq);
  }

  pub add : OpenList → ℕ → OpenList
  add o s =
      let st = mark o.states s true in
      let q = PriorityQueue.add (before st) o.pq s in
      record { pq = q; best = front_value st (PriorityQueue.front q); states = st }

  -- `take`; on an empty list it would set the flag of NULL.
  pub close : OpenList → Option ℕ × Pq → Option (ℕ × OpenList)
  close o (none, q) = none
  close o (some s, q) = some (s, rate (record o { pq = q; states = mark o.states s false }))

  pub take : OpenList → Option (ℕ × OpenList)
  take o = close o (PriorityQueue.take_front (before o.states) o.pq)

  pub peek : OpenList → Option ℕ
  peek o = PriorityQueue.front o.pq

  pub empty : OpenList → Bool
  empty o = PriorityQueue.empty o.pq

  -- `see_update` of a state, whose index the queue asserts to be there and in range.
  pub see_update_at : OpenList → Option ℕ → Option OpenList
  see_update_at o none = none
  see_update_at o (some i) =
      let q = PriorityQueue.see_update (before o.states) o.pq i in
      if ltb i (fill o.pq)
      then some (record o { pq = q; best = front_value o.states (PriorityQueue.front q) })
      else none

  pub see_update : OpenList → ℕ → Option OpenList
  see_update o s = see_update_at o (o.pq.index s)

  -- `remove`, with the same assertions.
  pub remove_at : OpenList → ℕ → Option ℕ → Option OpenList
  remove_at o s none = none
  remove_at o s (some i) =
      let q = PriorityQueue.remove (before o.states) o.pq i in
      if ltb i (fill o.pq)
      then some (rate (record o { pq = q; states = mark o.states s false }))
      else none

  pub remove : OpenList → ℕ → Option OpenList
  remove o s = remove_at o s (o.pq.index s)

  pub resort : OpenList → OpenList
  resort o = rate (record o { pq = PriorityQueue.resort (before o.states) o.pq })

  -- `set_open(false)` for each element of the queue
  pub unmark_all : Store → List ℕ → Store
  unmark_all st [] = st
  unmark_all st (s ∷ l) = unmark_all (mark st s false) l

  -- `prune`; the best value stays.
  pub prune : OpenList → OpenList
  prune o = record o { pq = PriorityQueue.reset o.pq; states = unmark_all o.states o.pq.heap }
