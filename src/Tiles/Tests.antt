-- ===== src/Tiles/Tests.antt =====
-- src/tiles/: runs on a puzzle of two rows of two cells.
use pbnf.Base.{
  ℕ, zero, suc, ◌+◌, ◌*◌, ◌^◌, ◌≤◌, ◌<◌, ◌≡◌, ap, refl, sym, inl, inr, Bool, true, false, List, [],
  ◌∷◌, none, some, arith, ltb, if◌then◌else◌, length, get_or, replicate, get_or-mem, Distinct,
}
use mathlib.Core.Logic.{◌↔◌}
use pbnf.NblockGraph.Scope.{IsProjection}
use pbnf.Tiles.Domain.{Tiles, TilesState, child, equals}
use pbnf.Tiles.Hash.{compute_hash}
use pbnf.Tiles.Hash.Rank.{factorial}
use pbnf.Tiles.Hash.Laws.{IsPermutation, compute_hash_inj}
use pbnf.Tiles.Manhattan.{table, rows, entries, entry, goal_pos, lookup_dist, compute, compute_full}
use pbnf.Tiles.Manhattan.Change.{dist_sum}
use pbnf.Tiles.Manhattan.Laws.{IsMove, moves, compute_incr-compute_full, compute_consistent}
use pbnf.Tiles.Expand.{initial_state, new_state, expand}
use pbnf.Tiles.Expand.Laws.{IsState, initial_state-IsState, All}
use pbnf.Tiles.Numbering.{empty, enter, loop, locate, note}
use pbnf.Tiles.Projections.{IsNumbering}
use pbnf.Tiles.OneTileProject
use pbnf.Tiles.TwoTileProject
use pbnf.Tiles.ThreeTileProject
use pbnf.Tiles.TwoTileNoBlankProject
use pbnf.Tiles.TwoTileNoBlankProject.{Names}
use pbnf.Tiles.TwoTileNoBlankProject.Children.{IsNames}
use pbnf.Tiles.Projections.Correct.{
  IsReached, tables_correct, projections_correct, children_correct,
}

abbrev puzzle : Tiles
puzzle = record { width = 2; height = 2; goal = 0 ∷ 1 ∷ 2 ∷ 3 ∷ []; cost = λ t. 10000 }

abbrev cells : List ℕ
cells = 1 ∷ 0 ∷ 2 ∷ 3 ∷ []

abbrev other_cells : List ℕ
other_cells = 1 ∷ 2 ∷ 0 ∷ 3 ∷ []

abbrev all_lt : ℕ → List ℕ → Bool
all_lt n [] = true
all_lt n (x ∷ l) = if ltb x n then all_lt n l else false

get_or-lt : (n : ℕ) (l : List ℕ) (j : ℕ) → 0 < n → all_lt n l ≡ true → get_or l j 0 < n
unfolding get_or
get_or-lt n [] j pos h = pos
get_or-lt n (x ∷ l) zero pos h = ground (arith, h)
get_or-lt n (x ∷ l) (suc j) pos h = get_or-lt n l j pos (ground (arith, h))

Distinct-get_or :
    (l : List ℕ) (j k : ℕ)
    → Distinct l
    → j < length l
    → k < length l
    → get_or l j 0 ≡ get_or l k 0
    → j ≡ k
unfolding get_or
Distinct-get_or [] j k d p q e = absurd (omega (arith, p))
Distinct-get_or (x ∷ l) zero zero d p q e = refl
Distinct-get_or (x ∷ l) zero (suc k) d p q e =
    absurd (let m = get_or-mem l k (omega (arith, q)) in ground (arith, rw (sym e) at m, d.0))
Distinct-get_or (x ∷ l) (suc j) zero d p q e =
    absurd (let m = get_or-mem l j (omega (arith, p)) in ground (arith, rw e at m, d.0))
Distinct-get_or (x ∷ l) (suc j) (suc k) d p q e =
    ap suc (Distinct-get_or l j k d.1 (omega (arith, p)) (omega (arith, q)) e)

permutation :
    (n : ℕ) (l : List ℕ) → 0 < n → length l ≡ n → all_lt n l ≡ true → Distinct l → IsPermutation n l
permutation n l pos len low d = record {
  cells = len;
  below = λ j h. get_or-lt n l j pos low;
  distinct = λ j k p q e. Distinct-get_or l j k d (omega (arith, p, len)) (omega (arith, q, len)) e;
}

cells-IsPermutation : IsPermutation 4 cells
cells-IsPermutation = permutation 4 cells (omega arith) refl refl (refl, (refl, (refl, (refl, tt))))

other_cells-IsPermutation : IsPermutation 4 other_cells
other_cells-IsPermutation =
    permutation 4 other_cells (omega arith) refl refl (refl, (refl, (refl, (refl, tt))))

abbrev start : TilesState
start = initial_state puzzle true cells 1

start-IsState : IsState puzzle true start
start-IsState =
    initial_state-IsState puzzle true cells 1 cells-IsPermutation (omega arith)
      (unfold get_or in refl)

three_tiles : IsNames 4 (record { a = 3; b = 0; c = 2 })
three_tiles = record {
  ab = λ e. absurd (omega (arith, e));
  ac = λ e. absurd (omega (arith, e));
  bc = λ e. absurd (omega (arith, e));
  a_lt = omega arith;
  b_lt = omega arith;
  c_lt = omega arith;
}

back_home : IsMove puzzle start 0
unfolding initial_state new_state dist_sum lookup_dist table rows entries entry goal_pos replicate
    get_or child
back_home = record {
  cells = cells-IsPermutation;
  blank_inside = omega arith;
  inside = omega arith;
  moved = λ e. absurd (omega (arith, e));
  blank_at = refl;
  room = omega arith;
  child_room = omega arith;
}

compute_hash_inj_example :
    (compute_hash cells < factorial 4)
    × ((compute_hash cells ≡ compute_hash other_cells) ↔ (cells ≡ other_cells))
compute_hash_inj_example =
    compute_hash_inj 4 cells other_cells (omega arith) cells-IsPermutation other_cells-IsPermutation

compute_incr-compute_full_example :
    compute puzzle (some start) (child start.tiles start.blank 0) 0
    ≡ compute_full puzzle (child start.tiles start.blank 0)
compute_incr-compute_full_example =
    compute_incr-compute_full puzzle start 0 back_home start-IsState.h

fits : (pos : ℕ) → pos < 4 → moves puzzle 1 pos * 10000 < 2 ^ 32
unfolding goal_pos
fits pos lt = ground (arith, lt)

compute_consistent_example :
    (start.h ≤ 10000 + compute puzzle (some start) (child start.tiles start.blank 0) 0)
    × (compute puzzle (some start) (child start.tiles start.blank 0) 0 ≤ start.h + 10000)
unfolding initial_state new_state get_or
compute_consistent_example =
    compute_consistent puzzle start 0 back_home (inl (refl, inr refl)) fits start-IsState.h

tables_correct_example :
    IsNumbering 4 2 (OneTileProject.init 4)
    × IsNumbering 4 3 (TwoTileProject.init 4)
    × IsNumbering 4 3 (TwoTileNoBlankProject.init 4)
    × IsNumbering 4 4 (ThreeTileProject.init 4)
tables_correct_example = tables_correct 4

projections_correct_example :
    IsProjection (OneTileProject.projection puzzle)
    × IsProjection (TwoTileProject.projection puzzle)
    × IsProjection (TwoTileNoBlankProject.projection puzzle (record { a = 3; b = 0; c = 2 }))
    × IsProjection (ThreeTileProject.projection puzzle)
projections_correct_example = projections_correct puzzle (record { a = 3; b = 0; c = 2 })

-- The block of the start, and that of the state in which the blank has moved left.
one_block : OneTileProject.project (OneTileProject.init 4) start ≡ 3
unfolding initial_state new_state OneTileProject.project OneTileProject.init
    OneTileProject.setup_proj OneTileProject.nnblocks loop enter empty replicate locate note get_or
    equals
one_block = refl

one_block_neighbors : OneTileProject.get_neighbors puzzle (OneTileProject.init 4) 3 ≡ 0 ∷ 9 ∷ []
unfolding OneTileProject.get_neighbors OneTileProject.neighbors OneTileProject.neighbor
    OneTileProject.init OneTileProject.setup_proj OneTileProject.nnblocks loop enter empty replicate
    get_or equals
one_block_neighbors = refl

children_correct_example :
    All (IsReached puzzle (record { a = 3; b = 0; c = 2 }) start) (expand puzzle true start none)
children_correct_example =
    children_correct puzzle true (record { a = 3; b = 0; c = 2 }) start none start-IsState
      three_tiles (omega arith)
