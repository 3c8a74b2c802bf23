-- ===== src/OpenList/Cells.antt =====
-- src/pq_open_list.h: what holds of all the states of an open list, in any order of them.
use pbnf.Base.{ℕ, ◌<◌, ◌≡◌, Bool, true, Option, none, some, arith, leb, ltb, Bool-cases, inl, inr}
use pbnf.PriorityQueue.{fill, cell}
use pbnf.PriorityQueue
use pbnf.PriorityQueue.Cells.{AllCells, add-AllCells, take_front-AllCells, see_update-AllCells}
use pbnf.OpenList.{OpenList, before, mark, add, take, close, rate, see_update, see_update_at}

module _ (p : ℕ → Bool) (weight : ℕ) where
  pub add_cells :
      (o : OpenList) (s : ℕ) → p s ≡ true → AllCells p o.pq → AllCells p (add weight o s).pq
  unfolding add
  add_cells o s own all =
      add-AllCells p (before weight (mark weight o.states s true)) o.pq s own all

  abbrev pub Updated : Option OpenList → Type 0
  Updated none = Unit
  Updated (some r) = AllCells p r.pq

  pub see_update-Updated :
      (o : OpenList) (s : ℕ) → AllCells p o.pq → Updated (see_update weight o s)
  unfolding see_update see_update_at
  see_update-Updated o s all = at (o.pq.index s)
    where
      at : (i : Option ℕ) → Updated (see_update_at weight o i)
      at none = tt
      at (some i) = elim (Bool-cases (ltb i (fill o.pq))) [
        | inl within ↦
            rw within
              (see_update-AllCells p (before weight o.states) o.pq i (ground (arith, within)) all)
        | inr past ↦ rw past tt
      ]

  -- The state that is taken has the property, and those that are left.
  abbrev pub Taken : Option (ℕ × OpenList) → Type 0
  Taken none = Unit
  Taken (some (s, r)) = (p s ≡ true) × AllCells p r.pq

  pub take-Taken : (o : OpenList) → AllCells p o.pq → Taken (take weight o)
  unfolding take close rate
  take-Taken o all = elim (Bool-cases (leb (fill o.pq) 0)) [
    | inl none_left ↦ unfold PriorityQueue.take_front in rw none_left tt
    | inr some_left ↦
        let pos : 0 < fill o.pq = ground (arith, some_left) in
        let (front, rest) = take_front-AllCells p (before weight o.states) o.pq pos all in
        rw front (all 0 pos, rest)
  ]
