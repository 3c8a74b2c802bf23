-- ===== src/NblockGraph.antt =====
-- src/pbnf/nblock_graph.{h,cc} and src/pbnf/nblock.{h,cc}: the nblock graph, which hands out
-- disjoint duplicate detection scopes.
pub mod FreeList
pub mod Cold
pub mod Sigma
pub mod Claim
pub mod Next
pub mod Hot
pub mod Scope
pub mod System
pub mod Exclusion
pub mod Start
mod Tests
use pbnf.Base.{
  ℕ, ◌+◌, ◌-◌, ◌*◌, ◌^◌, Bool, true, false, not, ◌&&◌, ◌||◌, List, [], ◌∷◌, Option, none, some, ltb,
  leb, ◌==◌, if◌then◌else◌, is_some, put,
}
use pbnf.PriorityQueue
use pbnf.PriorityQueue.{Pq}

-- `numeric_limits<uint64_t>::max()`
abbrev pub fp_infinity : ℕ
fp_infinity = 2 ^ 64 - 1

-- The values of a state that the graph compares.
pub record Node : Type 0 where
  pub f : ℕ
  pub g : ℕ

-- What the graph reads of the open list of an nblock: `get_best_val`, and `peek`, which gives
-- NULL exactly when the list is empty.
pub record Open : Type 0 where
  pub best_val : ℕ
  pub top : Option Node

abbrev pub is_empty : Open → Bool
is_empty o = not (is_some o.top)

-- The fields of every nblock as functions of its id, and the fields of the graph. The queue index
-- of a block is in `free_list`. `woken` is set when the condition variable is signalled.
pub record Graph : Type 0 where
  pub sigma : ℕ → ℕ
  pub sigma_hot : ℕ → ℕ
  pub hot : ℕ → Bool
  pub inuse : ℕ → Bool
  pub opens : ℕ → Open
  pub num_sigma_zero : ℕ
  pub free_list : Pq
  pub done : Bool
  pub woken : Bool

abbrev pub top_g : Option Node → ℕ
top_g none = fp_infinity
top_g (some s) = s.g

-- `NBlockPQFuncsFprime`: the two calls of `get_f` discard their results, so `af` and `bf` stay
-- infinite.
pub block_before : (ℕ → Open) → ℕ → ℕ → Bool
block_before opens a b =
    let afp = (opens a).best_val in
    let bfp = (opens b).best_val in
    let af = fp_infinity in
    let bf = fp_infinity in
    let ag = top_g (opens a).top in
    let bg = top_g (opens b).top in
    if afp == bfp then (if af == bf then ltb bg ag else ltb af bf) else ltb afp bfp

abbrev pub best_value : Graph → ℕ → ℕ
best_value g b = (g.opens b).best_val

-- The value of the block that `free_list.front()` gives.
pub best_val : Graph → Option ℕ → ℕ
best_val g none = fp_infinity
best_val g (some b) = best_value g b

pub is_free : Graph → ℕ → Bool
is_free g b = not (g.inuse b) && g.sigma b == 0 && g.sigma_hot b == 0 && not (is_empty (g.opens b))

-- `free_list.add(m)`
pub enlist : Graph → ℕ → Graph
enlist g m = record g { free_list = PriorityQueue.add (block_before g.opens) g.free_list m }

-- `free_list.remove(m->pq_index)`, if the index is not -1
pub delist_at : Graph → Option ℕ → Graph
delist_at g none = g
delist_at g (some i) = record g {
  free_list = PriorityQueue.remove (block_before g.opens) g.free_list i;
}

pub delist : Graph → ℕ → Graph
unfolding delist_at is_free
delist g m = if is_free g m then delist_at g (g.free_list.index m) else g

-- `if (is_free(m)) { free_list.add(m); broadcast = true; }`
pub offer : Graph → ℕ → Graph
unfolding enlist is_free
offer g m = if is_free g m then record (enlist g m) { woken = true } else g

-- One round of the loop of `set_cold`.
pub cool : Graph → ℕ → Graph
unfolding offer
cool g m = offer (record g { sigma_hot = put g.sigma_hot m (g.sigma_hot m - 1) }) m

pub cool_all : Graph → List ℕ → Graph
unfolding cool
cool_all g [] = g
cool_all g (m ∷ ms) = cool_all (cool g m) ms

pub set_done : Graph → Graph
set_done g = record g { done = true; woken = true }

-- `free_list.reset()`
pub prune_free_list : Graph → Graph
prune_free_list g = record g { free_list = PriorityQueue.reset g.free_list }

-- What `next_nblock` does once it has the lock: it returns NULL, waits, or gives out a block.
pub data Outcome : Type 0 where
  finished : Outcome
  waiting : Outcome
  aborted : Outcome
  assigned : ℕ → Outcome

-- The graph at the start: the initial state stands in the open list of the block `init_nblock`,
-- as `opens` says, and that block alone is in the free list. The index fields are all -1.
pub init : ℕ → (ℕ → Open) → ℕ → Graph
init num_nblocks opens init_nblock = record {
  sigma = λ x. 0;
  sigma_hot = λ x. 0;
  hot = λ x. false;
  inuse = λ x. false;
  opens = opens;
  num_sigma_zero = num_nblocks;
  free_list = PriorityQueue.add (block_before opens) (PriorityQueue.new (λ x. none)) init_nblock;
  done = false;
  woken = false;
}

module _ (interferes : ℕ → List ℕ) where
  pub set_cold : Graph → ℕ → Graph
  set_cold g b = cool_all (record g { hot = put g.hot b false }) (interferes b)

  -- `if (m->hot) broadcast |= set_cold(m)`
  pub cool_hot : Graph → ℕ → Graph
  cool_hot g m = if g.hot m then set_cold g m else g

  -- The first half of a round of `update_scope_sigmas`: a block that leaves sigma zero.
  pub leave_zero : Graph → ℕ → Graph
  leave_zero g m =
      if g.sigma m == 0 then record (delist g m) { num_sigma_zero = g.num_sigma_zero - 1 } else g

  -- The second half: a block that comes to sigma zero.
  pub reach_zero : Graph → ℕ → Graph
  reach_zero g m =
      if g.sigma m == 0
      then (let h = offer (cool_hot g m) m in record h { num_sigma_zero = h.num_sigma_zero + 1 })
      else g

  -- A round with `delta`: 1 if `up`, else -1. A sigma of 0 is not lowered: the code asserts that.
  pub shift_sigma : Bool → Graph → ℕ → Graph
  shift_sigma up g m =
      let h = leave_zero g m in
      reach_zero (record h { sigma = put h.sigma m (if up then h.sigma m + 1 else h.sigma m - 1) })
        m

  pub shift_sigmas : Bool → Graph → List ℕ → Graph
  shift_sigmas up g [] = g
  shift_sigmas up g (m ∷ ms) = shift_sigmas up (shift_sigma up g m) ms

  pub update_scope_sigmas : Bool → Graph → ℕ → Graph
  update_scope_sigmas up g n = shift_sigmas up g (interferes n)

  -- The part of `next_nblock` that releases a block.
  pub release : Graph → ℕ → Graph
  release g n = update_scope_sigmas false (offer (record g { inuse = put g.inuse n false }) n) n

  -- `n->inuse = true; update_scope_sigmas(n, 1);`
  pub occupy : Graph → ℕ → Graph
  occupy g n = update_scope_sigmas true (record g { inuse = put g.inuse n true }) n

  -- The loop of `set_hot` that looks for a better block that is hot already.
  pub rival : Graph → ℕ → List ℕ → Bool
  rival g val [] = false
  rival g val (m ∷ ms) = g.hot m && ltb (best_value g m) val || rival g val ms

  -- A round of its second loop.
  pub heat : Graph → ℕ → Graph
  heat g m =
      let h = cool_hot (delist g m) m in
      record h { sigma_hot = put h.sigma_hot m (h.sigma_hot m + 1) }

  pub heat_all : Graph → List ℕ → Graph
  heat_all g [] = g
  heat_all g (m ∷ ms) = heat_all (heat g m) ms

  -- `set_hot` with the lock; `val` is the block's value from before the lock was taken.
  pub set_hot : Graph → ℕ → ℕ → Graph
  set_hot g b val =
      if not (g.hot b) && ltb 0 (g.sigma b)
      then (if rival g val (interferes b)
          then g
          else heat_all (record g { hot = put g.hot b true }) (interferes b))
      else g

  pub cool_hot_all : Graph → List ℕ → Graph
  cool_hot_all g [] = g
  cool_hot_all g (m ∷ ms) = cool_hot_all (cool_hot g m) ms

  pub wont_release : Graph → ℕ → Graph
  wont_release g b = if g.sigma_hot b == 0 then g else cool_hot_all g (interferes b)

  -- The best block of a scope that has open nodes, and its value.
  unfoldable pub best_in : Graph → Option ℕ → ℕ → List ℕ → Option ℕ
  best_in g best val [] = best
  best_in g best val (b ∷ bs) =
      let better = not (is_empty (g.opens b)) && (not (is_some best) || ltb (best_value g b) val) in
      best_in g (if better then some b else best) (if better then best_value g b else val) bs

  unfoldable pub best_in_scope : Graph → ℕ → Option ℕ
  best_in_scope g b = best_in g none fp_infinity (interferes b)

  -- From the end of the wait loop on, with a block in the list: `limit` is
  -- `bound->read() * weight`. After a pruning the code goes back to `retry`, where it finds the
  -- list empty.
  pub take_block : Graph → Option ℕ × Pq → Graph × Outcome
  take_block g (none, q) = (g, aborted)
  take_block g (some n, q) = (occupy (record g { free_list = q }) n, assigned n)

  module _ (num_nblocks : ℕ) where
    -- `retry`, with an empty list
    pub starve : Graph → Graph × Outcome
    starve g =
        if g.num_sigma_zero == num_nblocks
        then (set_done g, finished)
        else (if g.done then (g, finished) else (g, waiting))

    -- From the end of the wait loop, which `done` or a block in the list ends.
    pub resume : ℕ → Graph → Graph × Outcome
    resume limit g =
        if g.done
        then (g, finished)
        else if PriorityQueue.empty g.free_list
        then (g, waiting)
        else if leb limit (best_val g (PriorityQueue.front g.free_list))
        then starve (prune_free_list g)
        else take_block g (PriorityQueue.take_front (block_before g.opens) g.free_list)

    pub next : ℕ → Graph → Graph × Outcome
    next limit g = if PriorityQueue.empty g.free_list then starve g else resume limit g

    -- `next_nblock` with the lock, for a thread with or without a finished block.
    pub next_nblock : ℕ → ℕ → Option ℕ → Graph → Graph × Outcome
    next_nblock bound weight none g = next (bound * weight) g
    next_nblock bound weight (some n) g = next (bound * weight) (release g n)
