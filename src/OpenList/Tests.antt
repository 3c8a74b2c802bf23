-- ===== src/OpenList/Tests.antt =====
-- src/pq_open_list.h: runs of an open list at weight 1.5.
use pbnf.Base.{
  ℕ, ◌≤◌, ◌≡◌, refl, true, false, none, some, arith, ◌==◌, if◌then◌else◌, put, ◌*◌, ◌-◌, get_or,
}
use pbnf.PriorityQueue.{Pq, cell, fill, sift_up, sift_up_loop, grow}
use pbnf.PriorityQueue
use pbnf.PriorityQueue.Whole.{new-IsValid}
use pbnf.SearchState.{State, Store, get_f, get_f_prime, f_before, f_prime_before, set_open}
use pbnf.OpenList.{
  OpenList, fp_infinity, before, value, front_value, add, take, see_update, remove, resort, prune,
}
use pbnf.OpenList.Laws.{
  IsSound, Closed, best-le, add-IsSound, take_correct, remove_open_correct, see_update-IsSound,
  resort-IsSound, prune_stale,
}

abbrev plain : ℕ → State
plain h = record { parent = none; c = 1; g = 2; h = h; opened = false; incons = false }

abbrev start : OpenList
start = record {
  pq = PriorityQueue.new (λ x. none);
  best = fp_infinity;
  states = λ x. plain (x * 10000);
}

abbrev one_state : OpenList
one_state = add 15000 start 3

abbrev two_states : OpenList
two_states = add 15000 one_state 1

start-IsSound : IsSound 15000 start
unfolding PriorityQueue.new
start-IsSound = record {
  queue = new-IsValid (before 15000 start.states) (λ x. none) (λ x. refl);
  flags = λ x. refl;
  rated = refl;
}

one_state-IsSound : IsSound 15000 one_state
one_state-IsSound = (add-IsSound 15000 start 3 start-IsSound refl).0

two_states-IsSound : IsSound 15000 two_states
unfolding add set_open
two_states-IsSound = (add-IsSound 15000 one_state 1 one_state-IsSound refl).0

add-IsSound_example :
    IsSound 15000 two_states
    × ((x : ℕ)
        → (two_states.states x).opened ≡ (if 1 == x then true else (one_state.states x).opened))
unfolding add set_open
add-IsSound_example = add-IsSound 15000 one_state 1 one_state-IsSound refl

best-le_run : two_states.best ≤ value 15000 two_states.states 3
unfolding add set_open
best-le_run = best-le 15000 two_states 3 two_states-IsSound refl

fill-two_states : fill two_states.pq ≡ 2
unfolding add set_open front_value PriorityQueue.add PriorityQueue.new grow sift_up sift_up_loop
    get_f_prime f_prime_before get_f f_before get_or
fill-two_states = refl

take_correct_example :
    (s : ℕ) × (r : OpenList) × (take 15000 two_states ≡ some (s, r))
    × ((two_states.states s).opened ≡ true)
    × (value 15000 two_states.states s ≡ two_states.best)
    × ((x : ℕ) → (two_states.states x).opened ≡ true → before 15000 two_states.states x s ≡ false)
    × Closed 15000 two_states s r
take_correct_example =
    take_correct 15000 two_states two_states-IsSound (omega (arith, fill-two_states))

remove_open_correct_example :
    (r : OpenList) × (remove 15000 two_states 3 ≡ some r) × Closed 15000 two_states 3 r
unfolding add set_open
remove_open_correct_example = remove_open_correct 15000 two_states 3 two_states-IsSound refl

-- the state's h falls to 0
abbrev better : State
better = record { parent = some 1; c = 1; g = 2; h = 0; opened = true; incons = false }

see_update-IsSound_example :
    (r : OpenList) × (see_update 15000
        (record two_states { states = put two_states.states 3 better })
        3
      ≡ some r)
    × IsSound 15000 r
    × ((x : ℕ) → (r.states x).opened ≡ (two_states.states x).opened)
unfolding add set_open
see_update-IsSound_example =
    see_update-IsSound 15000 two_states 3 better two_states-IsSound refl refl

-- the values turn round
abbrev turned : Store
turned x = record (two_states.states x) { h = 90000 - x * 10000 }

resort-IsSound_run :
    IsSound 15000 (resort 15000 (record two_states { states = turned }))
    × ((x : ℕ)
        → ((resort 15000 (record two_states { states = turned })).states x).opened
          ≡ (two_states.states x).opened)
resort-IsSound_run = resort-IsSound 15000 two_states turned two_states-IsSound (λ x. refl)

prune_stale_example :
    (fill (prune 15000 two_states).pq ≡ 0)
    × ((prune 15000 two_states).best ≡ value 15000 two_states.states (cell two_states.pq.heap 0))
prune_stale_example =
    prune_stale 15000 two_states two_states-IsSound (omega (arith, fill-two_states))
