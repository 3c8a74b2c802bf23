-- ===== src/NblockGraph/Tests.antt =====
-- src/pbnf/nblock_graph.cc and src/pbnf_search.cc: runs over three blocks in a row, each with an
-- edge to the next, so that the first and the last do not interfere.
use pbnf.Base.{
  ℕ, ◌+◌, ◌-◌, ◌^◌, ◌<◌, ◌≡◌, ◌≢◌, ◌⊎◌, refl, true, false, ◌&&◌, List, [], ◌∷◌, Option, none, some,
  arith, ltb, ◌==◌, if◌then◌else◌, mem, get_or,
}
use pbnf.PriorityQueue
use pbnf.PriorityQueue.{
  cell, fill, grow, forget, sift_up, sift_up_loop, sift_down, try_push, push_child,
}
use pbnf.NblockGraph.{
  Graph, Open, Outcome, finished, block_before, best_val, is_free, top_g, enlist, delist_at, delist,
  offer, cool, cool_all, set_done, prune_free_list, init, set_cold, cool_hot, leave_zero,
  reach_zero, shift_sigma, shift_sigmas, update_scope_sigmas, release, occupy, rival, heat,
  heat_all, set_hot, wont_release, take_block, starve, resume, next, next_nblock,
}
use mathlib.Core.Logic.{◌↔◌}
use pbnf.NblockGraph.FreeList.{listed}
use pbnf.NblockGraph.Cold.{IsScope, Same}
use pbnf.NblockGraph.Claim.{IsConsistent}
use pbnf.NblockGraph.Next.{Comes, given_back, next_nblock_correct}
use pbnf.NblockGraph.Hot.{HeatsBlock, CoolsScope, set_hot_correct, wont_release_correct}
use pbnf.NblockGraph.Scope.{
  Projection, IsProjection, set_insert, insert_all, insert_successors, others, interferes,
  interferes-IsScope, interferes_correct, interferes-lt, in_scope,
}
use pbnf.NblockGraph.System.{
  Thread, starting, searching, asleep, stopped, System, held, turn, ask, expand, Reach, here, later,
}
use pbnf.NblockGraph.Exclusion.{IsSound, Reach-IsSound, mutual_exclusion, done_quiescent}
use pbnf.NblockGraph.Start.{block_before-tie, init-IsConsistent, init_correct, isolated_end}

abbrev line : Projection
line = record {
  num_nblocks = 3;
  get_successors = λ a. if ltb (a + 1) 3 then (a + 1) ∷ [] else [];
  get_predecessors = λ b. if ltb b 3 && ltb 0 b then (b - 1) ∷ [] else [];
}

line-IsProjection : IsProjection line
line-IsProjection = record {
  inverse = λ a b. ground arith;
  range = λ a b h. (ground (arith, h), ground (arith, h));
}

line_scopes :
    (interferes line 0 ≡ 1 ∷ []) × (interferes line 1 ≡ 0 ∷ 2 ∷ []) × (interferes line 2 ≡ 1 ∷ [])
unfolding interferes insert_successors insert_all set_insert others
line_scopes = (refl, refl, refl)

interferes_correct_example :
    IsScope (interferes line)
    × ((a x : ℕ)
        → (mem x (interferes line a) ≡ true) ↔ (
            (a ≢ x)
            × ((s : ℕ) × (in_scope line line-IsProjection a s ≡ true)
                × (in_scope line line-IsProjection x s ≡ true))))
interferes_correct_example = interferes_correct line line-IsProjection

abbrev open_at : ℕ → Open
open_at f = record { best_val = f; top = some (record { f = f; g = 1 }) }

abbrev closed : Open
closed = record { best_val = 2 ^ 64 - 1; top = none }

-- The initial state is in block 0.
abbrev first : ℕ → Open
first x = if x == 0 then open_at 4 else closed

-- After the expansion in block 0, and after the one in block 1.
abbrev second : ℕ → Open
second x = if x == 0 then open_at 6 else if x == 1 then open_at 5 else closed

abbrev third : ℕ → Open
third x =
    if x == 0 then open_at 6 else if x == 1 then open_at 9 else if x == 2 then open_at 7 else closed

abbrev start : Graph
start = init 3 first 0

abbrev IsLine : Graph → Type 0
IsLine =
    IsConsistent (interferes line) (interferes-IsScope line line-IsProjection) 3
      (interferes-lt line line-IsProjection)

start-IsLine : IsLine start
start-IsLine =
    init-IsConsistent (interferes line) (interferes-IsScope line line-IsProjection) 3
      (interferes-lt line line-IsProjection) first 0 refl

init_correct_example :
    IsLine start
    × (is_free start 0 ≡ true)
    × (start.free_list.heap ≡ 0 ∷ [])
    × ((x : ℕ) → listed start x ≡ (0 == x))
    × ((x : ℕ) → (start.hot x ≡ false) × (start.inuse x ≡ false))
    × (start.done ≡ false)
init_correct_example =
    init_correct (interferes line) (interferes-IsScope line line-IsProjection) 3
      (interferes-lt line line-IsProjection) first 0 refl

-- one block
abbrev call : Option ℕ → Graph → Graph × Outcome
call = next_nblock (interferes line) 3 100 1

next_nblock_correct_example :
    IsLine (call none start).0
    × Comes
        (interferes line)
        (interferes-IsScope line line-IsProjection)
        3
        (interferes-lt line line-IsProjection)
        100
        (given_back
          (interferes line)
          (interferes-IsScope line line-IsProjection)
          3
          (interferes-lt line line-IsProjection)
          none
          start)
        (call none start).0
        (call none start).1
next_nblock_correct_example =
    next_nblock_correct (interferes line) (interferes-IsScope line line-IsProjection) 3
      (interferes-lt line line-IsProjection) 100 1 none start start-IsLine (λ n h. cc)

abbrev idle : System
idle = record { graph = start; threads = λ t. starting }

idle-IsSound : IsSound line line-IsProjection idle
idle-IsSound = record { graph = start-IsLine; used = λ t n h. cc; alone = λ t u n h k. cc }

-- What the threads have done when `a` and then `b` has been asked for a block.
abbrev asked : ℕ → System → System
asked t s = turn s t (call (held (s.threads t)) s.graph)

abbrev wrote : (ℕ → Open) → System → System
wrote opens s = record s { graph = record s.graph { opens = opens } }

abbrev searched : System
searched = wrote third (asked 0 (wrote second (asked 0 idle)))

abbrev both : System
both = asked 1 (asked 0 searched)

first_runs : ((asked 0 idle).threads 0 ≡ searching 0) × ((asked 0 idle).graph.opens ≡ first)
unfolding next_nblock next PriorityQueue.empty init PriorityQueue.add PriorityQueue.new resume
    best_val PriorityQueue.front get_or take_block PriorityQueue.take_front release
    update_scope_sigmas shift_sigmas interferes others insert_all insert_successors set_insert
    block_before cool cool_all cool_hot delist delist_at enlist is_free leave_zero occupy offer
    prune_free_list reach_zero set_cold set_done shift_sigma starve forget grow push_child
    PriorityQueue.remove PriorityQueue.reset sift_down sift_up sift_up_loop try_push
first_runs = (refl, refl)

second_runs :
    ((asked 0 (wrote second (asked 0 idle))).threads 0 ≡ searching 1)
    × ((asked 0 (wrote second (asked 0 idle))).graph.opens ≡ second)
unfolding next_nblock next PriorityQueue.empty init PriorityQueue.add PriorityQueue.new resume
    best_val PriorityQueue.front get_or take_block PriorityQueue.take_front release
    update_scope_sigmas shift_sigmas interferes others insert_all insert_successors set_insert
    block_before cool cool_all cool_hot delist delist_at enlist is_free leave_zero occupy offer
    prune_free_list reach_zero set_cold set_done shift_sigma starve forget grow push_child
    PriorityQueue.remove PriorityQueue.reset sift_down sift_up sift_up_loop try_push
second_runs = (refl, refl)

both_runs : (both.threads 0 ≡ searching 0) × (both.threads 1 ≡ searching 2)
unfolding next_nblock next PriorityQueue.empty init PriorityQueue.add PriorityQueue.new resume
    best_val PriorityQueue.front get_or take_block PriorityQueue.take_front release
    update_scope_sigmas shift_sigmas interferes others insert_all insert_successors set_insert
    block_before cool cool_all cool_hot delist delist_at enlist is_free leave_zero occupy offer
    prune_free_list reach_zero set_cold set_done shift_sigma starve forget grow push_child
    PriorityQueue.remove PriorityQueue.reset sift_down sift_up sift_up_loop try_push
both_runs = (refl, refl)

busy : (t : Thread) (n : ℕ) → t ≡ searching n → (t ≢ asleep) × (t ≢ stopped)
busy t n e = (λ h. cc, λ h. cc)

awake : (t : Thread) → t ≡ starting → (t ≢ asleep) × (t ≢ stopped)
awake t e = (λ h. cc, λ h. cc)

both-Reach : Reach line idle both
both-Reach =
    let first_awake = awake (idle.threads 0) refl in
    let s1 = later here (ask 0 100 1 refl first_awake.0 first_awake.1) in
    let s2 = later s1 (expand 0 second first_runs.0 (λ x h. rw first_runs.1 (ground (arith, h)))) in
    let on = busy _ 0 first_runs.0 in
    let s3 = later s2 (ask 0 100 1 refl on.0 on.1) in
    let s4 =
      later s3 (expand 0 third second_runs.0 (λ x h. rw second_runs.1 (ground (arith, h)))) in
    let off = busy _ 1 second_runs.0 in
    let s5 = later s4 (ask 0 100 1 refl off.0 off.1) in
    let fresh = awake ((asked 0 searched).threads 1) refl in
    later s5 (ask 1 100 1 refl fresh.0 fresh.1)

mutual_exclusion_example :
    ◌≢◌ {A = ℕ} 0 2
    × (mem 2 (interferes line 0) ≡ false)
    × ((x : ℕ)
        → in_scope line line-IsProjection 0 x ≡ true
        → in_scope line line-IsProjection 2 x ≡ false)
mutual_exclusion_example =
    mutual_exclusion line line-IsProjection idle-IsSound both-Reach 0 1 0 2 both_runs.0 both_runs.1
      (λ h. cc)

-- The only block has been searched, and nothing is open.
abbrev emptied : System
emptied = wrote (λ x. closed) (asked 0 idle)

emptied-IsSound : IsSound line line-IsProjection emptied
emptied-IsSound = Reach-IsSound line line-IsProjection idle-IsSound (
    later (later here (ask 0 100 1 refl (λ h. cc) (λ h. cc)))
      (expand 0 (λ x. closed) first_runs.0 (λ x h. rw first_runs.1 (ground (arith, h)))))

emptied_ends :
    ((call (held (emptied.threads 0)) emptied.graph).1 ≡ finished) × (emptied.graph.done ≡ false)
unfolding next_nblock next PriorityQueue.empty init PriorityQueue.add PriorityQueue.new resume
    best_val PriorityQueue.front get_or take_block PriorityQueue.take_front release
    update_scope_sigmas shift_sigmas interferes others insert_all insert_successors set_insert
    block_before cool cool_all cool_hot delist delist_at enlist is_free leave_zero occupy offer
    prune_free_list reach_zero set_cold set_done shift_sigma starve forget grow push_child
    PriorityQueue.remove PriorityQueue.reset sift_down sift_up sift_up_loop try_push
emptied_ends = (refl, refl)

line_linked : mem 0 (interferes line 1) ≡ true
unfolding interferes insert_successors insert_all set_insert others
line_linked = refl

done_quiescent_example : emptied.threads 1 ≢ searching 1
done_quiescent_example =
    done_quiescent line line-IsProjection emptied 0 100 1 emptied-IsSound emptied_ends.0
      emptied_ends.1 1 1 (λ h. cc) (0, line_linked)

-- Block 0 is being searched.
abbrev taken : Graph
taken = (call none start).0

taken_values : (taken.sigma 1 ≡ 1) × (taken.inuse 0 ≡ true) × (taken.free_list.heap ≡ [])
unfolding next_nblock next PriorityQueue.empty init PriorityQueue.add PriorityQueue.new resume
    best_val PriorityQueue.front get_or take_block PriorityQueue.take_front release
    update_scope_sigmas shift_sigmas interferes others insert_all insert_successors set_insert
    block_before cool cool_all cool_hot delist delist_at enlist is_free leave_zero occupy offer
    prune_free_list reach_zero set_cold set_done shift_sigma starve forget grow push_child
    PriorityQueue.remove PriorityQueue.reset sift_down sift_up sift_up_loop try_push
taken_values = (refl, refl, refl)

-- Block 1 waits for block 0.
abbrev wanted : Graph
wanted = set_hot (interferes line) taken 1 3

set_hot_correct_example :
    IsLine wanted
    × Same taken wanted
    × HeatsBlock (interferes line) (interferes-IsScope line line-IsProjection) taken 1 3 wanted
set_hot_correct_example =
    set_hot_correct (interferes line) (interferes-IsScope line line-IsProjection) 3
      (interferes-lt line line-IsProjection) taken 1 3 next_nblock_correct_example.0

wont_release_correct_example :
    IsLine (wont_release (interferes line) wanted 0)
    × Same wanted (wont_release (interferes line) wanted 0)
    × CoolsScope
        (interferes line)
        (interferes-IsScope line line-IsProjection)
        wanted
        0
        (wont_release (interferes line) wanted 0)
    × ((wont_release (interferes line) wanted 0).sigma_hot 0 ≡ 0)
    × ((0 < wanted.sigma_hot 0) ⊎ (wont_release (interferes line) wanted 0 ≡ wanted))
wont_release_correct_example =
    wont_release_correct (interferes line) (interferes-IsScope line line-IsProjection) 3
      (interferes-lt line line-IsProjection) wanted 0 set_hot_correct_example.0

wanted_values : (wanted.hot 1 ≡ true) × (wanted.sigma_hot 0 ≡ 1)
unfolding next_nblock next PriorityQueue.empty init PriorityQueue.add PriorityQueue.new resume
    best_val PriorityQueue.front get_or take_block PriorityQueue.take_front release
    update_scope_sigmas shift_sigmas interferes others insert_all insert_successors set_insert
    block_before cool cool_all cool_hot delist delist_at enlist is_free leave_zero occupy offer
    prune_free_list reach_zero set_cold set_done shift_sigma starve forget grow push_child
    PriorityQueue.remove PriorityQueue.reset sift_down sift_up sift_up_loop try_push set_hot
    heat_all heat rival
wanted_values = (refl, refl)

-- Two blocks, neither of which interferes with the other.
abbrev apart : ℕ → List ℕ
apart x = []

apart-IsScope : IsScope apart
apart-IsScope = record { irrefl = λ a. refl; symm = λ a b. refl; distinct = λ a. tt }

apart-lt : (a b : ℕ) → mem a (apart b) ≡ true → a < 2
apart-lt a b h = cc

abbrev pair : Graph
pair = init 2 first 0

pair-IsConsistent : IsConsistent apart apart-IsScope 2 apart-lt pair
pair-IsConsistent = init-IsConsistent apart apart-IsScope 2 apart-lt first 0 refl

abbrev pair_taken : Graph
pair_taken = (next_nblock apart 2 100 1 none pair).0

pair_taken-IsConsistent : IsConsistent apart apart-IsScope 2 apart-lt pair_taken
pair_taken-IsConsistent =
    (next_nblock_correct apart apart-IsScope 2 apart-lt 100 1 none pair pair-IsConsistent
      (λ n h. cc)).0

pair_taken_values : (fill pair_taken.free_list ≡ 0) × (pair_taken.inuse 0 ≡ true)
unfolding next_nblock next PriorityQueue.empty init PriorityQueue.add PriorityQueue.new resume
    best_val PriorityQueue.front get_or take_block PriorityQueue.take_front release
    update_scope_sigmas shift_sigmas interferes others insert_all insert_successors set_insert
    block_before cool cool_all cool_hot delist delist_at enlist is_free leave_zero occupy offer
    prune_free_list reach_zero set_cold set_done shift_sigma starve forget grow push_child
    PriorityQueue.remove PriorityQueue.reset sift_down sift_up sift_up_loop try_push
pair_taken_values = (refl, refl)

isolated_end_example :
    ((next_nblock apart 2 100 1 none pair_taken).1 ≡ finished)
    × ((next_nblock apart 2 100 1 none pair_taken).0.done ≡ true)
    × ((next_nblock apart 2 100 1 none pair_taken).0.inuse 0 ≡ true)
isolated_end_example =
    isolated_end apart apart-IsScope 2 apart-lt 100 1 pair_taken pair_taken-IsConsistent 0
      (λ x. refl) pair_taken_values.0 pair_taken_values.1

abbrev tied : ℕ → Open
tied x = record { best_val = 5; top = some (record { f = 9 - x; g = x }) }

tied_blocks : block_before tied 1 2 ≡ ltb (top_g (tied 2).top) (top_g (tied 1).top)
tied_blocks = block_before-tie tied 1 2 refl
