-- ===== src/InconsList.antt =====
-- src/incons_list.cc: the states that have improved after they were closed, over a hash table.
pub mod Laws
mod Tests
use pbnf.Base.{ℕ, Bool, true, false, List, [], ◌∷◌, Option, none, some, if◌then◌else◌, ◌==◌, put}
use pbnf.SearchState.{Store, State}
use pbnf.HashTable.{Table, for_each}
use pbnf.HashTable
use pbnf.OpenList.{OpenList}
use pbnf.OpenList

-- The table, and the states of the program.
pub record InconsList : Type 0 where
  pub tbl : Table ℕ
  pub states : Store

pub set_incons : State → Bool → State
set_incons s b = record s { incons = b }

pub same : Option ℕ → ℕ → Bool
same none s = false
same (some x) s = x == s

pub empty : InconsList → Bool
empty l = HashTable.empty l.tbl

pub size : InconsList → ℕ
size l = l.tbl.fill

-- `__do_re_open`, called for each state in order
pub re_open_all : ℕ → OpenList → List ℕ → OpenList
re_open_all weight o [] = o
re_open_all weight o (s ∷ l) =
    let st = put o.states s (set_incons (o.states s) false) in
    re_open_all weight (OpenList.add weight (record o { states = st }) s) l

-- The end of `re_open`, with the table that `prune` leaves.
pub reopened : OpenList → Option (Table ℕ) → Option (InconsList × OpenList)
reopened r none = none
reopened r (some t) = some (record { tbl = t; states = r.states }, r)

-- `re_open` into the open list `o`, which holds the states of the program meanwhile; `none` if a
-- loop over the table does not end.
pub re_open : ℕ → InconsList → OpenList → Option (InconsList × OpenList)
unfolding reopened
re_open weight l o = elim (for_each l.tbl) [
  | none ↦ none
  | some ss ↦
      reopened (re_open_all weight (record o { states = l.states }) ss) (HashTable.prune l.tbl)
]

module _ (hash : ℕ → ℕ) where
  -- `lookup` of a state with the hash `h`
  pub lookup : InconsList → ℕ → Option ℕ
  lookup l h = HashTable.lookup hash l.tbl h

  -- `add`; of a state that is flagged it asserts that it is in the table.
  pub add : InconsList → ℕ → Option InconsList
  add l s =
      if (l.states s).incons
      then (if same (lookup l (hash s)) s then some l else none)
      else some (record {
        tbl = HashTable.add hash l.tbl s;
        states = put l.states s (set_incons (l.states s) true);
      })
