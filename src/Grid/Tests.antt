-- ===== src/Grid/Tests.antt =====
-- src/grid/: runs on a world of four columns and two rows.
use pbnf.Base.{◌+◌, ◌*◌, ◌≤◌, ◌<◌, ◌≡◌, refl, true, false, [], ◌∷◌, get_or, arith}
use mathlib.Core.Logic.{◌↔◌}
use pbnf.NblockGraph.Scope.{IsProjection}
use pbnf.Grid.World.{GridWorld, GridState, is_obstacle, child, expand4, expand8, expand}
use pbnf.Grid.World.Laws.{All}
use pbnf.Grid.Distance.{compute}
use pbnf.Grid.Distance.Laws.{IsWorld, distance_consistent}
use pbnf.Grid.RowModProject
use pbnf.Grid.CoarseProject
use pbnf.Grid.CoarseProject.{Coarse, new}
use pbnf.Grid.Projections.{
  IsEven, IsReached, corner, grid_projections_correct, grid_children_correct, coarse_corner_iff,
}

abbrev world : GridWorld
world = record {
  width = 4;
  height = 2;
  obstacles = false ∷ true ∷ [];
  unit = true;
  four = false;
  start_x = 0;
  start_y = 0;
  goal_x = 3;
  goal_y = 1;
}

abbrev start : GridState
start = record { x = 0; y = 0; c = 0; g = 0 }

world-IsWorld : IsWorld world
world-IsWorld = record {
  width = omega arith;
  height = omega arith;
  goal_x = omega arith;
  goal_y = omega arith;
}

halves : IsEven world (new world 2 1)
unfolding new
halves = record { cols = refl; rows = refl; moves = refl }

distance_consistent_example :
    All (λ r. compute world start ≤ r.c + compute world r) (expand world start)
    × (compute world (record start { x = 3; y = 1 }) ≡ 0)
distance_consistent_example =
    distance_consistent world start world-IsWorld refl (omega arith) (omega arith)

grid_projections_correct_example :
    IsProjection (RowModProject.projection 2)
    × IsProjection (CoarseProject.projection (new world 2 1))
grid_projections_correct_example = grid_projections_correct world 2 2 1

grid_children_correct_example : All (IsReached 2 (new world 2 1) start) (expand world start)
grid_children_correct_example =
    grid_children_correct world 2 (new world 2 1) start (omega arith) halves (omega arith)
      (omega arith)

-- Three columns over a world of four: one is added, and the last has no cell of its own.
coarse_corner_iff_example :
    (CoarseProject.project (new world 3 1) (corner world)
      < CoarseProject.get_num_nblocks (new world 3 1))
    ↔ (((new world 3 1).cols * (new world 3 1).cols_div ≡ 4)
        × ((new world 3 1).rows * (new world 3 1).rows_div ≡ 2))
unfolding new
coarse_corner_iff_example =
    coarse_corner_iff world 3 1 (omega arith) (omega arith) (omega arith) (omega arith)

abbrev wide_world : GridWorld
wide_world = record world { width = 7 }

-- Five columns over a world of seven: the blocks are 0 to 5, and the last state has block 6.
past_the_end :
    (CoarseProject.project (new wide_world 5 1) (corner wide_world) ≡ 6)
    × (CoarseProject.get_num_nblocks (new wide_world 5 1) ≡ 6)
unfolding new CoarseProject.project CoarseProject.get_id CoarseProject.get_num_nblocks
past_the_end = (refl, refl)

start_children :
    expand world start
    ≡ record { x = 0; y = 1; c = 10000; g = 10000 }
      ∷ record { x = 1; y = 1; c = 14142; g = 14142 }
      ∷ []
unfolding expand expand4 expand8 child is_obstacle get_or
start_children = refl
