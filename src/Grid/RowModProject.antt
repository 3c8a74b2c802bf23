-- ===== src/Grid/RowModProject.antt =====
-- src/grid/grid_world.cc: the projection `RowModProject`, which keeps the row modulo a number.
pub mod Laws
use pbnf.Base.{ℕ, ◌+◌, ◌-◌, ◌%◌, List, [], ◌∷◌, ltb, if◌then◌else◌}
use pbnf.NblockGraph.Scope.{Projection}
use pbnf.Grid.World.{GridState}

unfoldable pub project : ℕ → GridState → ℕ
project mod_val s = s.y % mod_val

unfoldable pub get_num_nblocks : ℕ → ℕ
get_num_nblocks mod_val = mod_val

unfoldable pub get_neighbors : ℕ → ℕ → List ℕ
get_neighbors mod_val b =
    (if ltb 0 b then (b - 1) % mod_val else mod_val - 1) ∷ (b + 1) % mod_val ∷ []

unfoldable pub get_successors : ℕ → ℕ → List ℕ
get_successors mod_val b = get_neighbors mod_val b

unfoldable pub get_predecessors : ℕ → ℕ → List ℕ
get_predecessors mod_val b = get_neighbors mod_val b

-- What the graph takes of the projection: it asks for the neighbours of its blocks alone.
unfoldable pub projection : ℕ → Projection
projection mod_val = record {
  num_nblocks = get_num_nblocks mod_val;
  get_successors = λ b. if ltb b (get_num_nblocks mod_val) then get_successors mod_val b else [];
  get_predecessors =
      λ b. if ltb b (get_num_nblocks mod_val) then get_predecessors mod_val b else [];
}
