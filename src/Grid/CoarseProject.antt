-- ===== src/Grid/CoarseProject.antt =====
-- src/grid/grid_world.cc: the projection `CoarseProject`, which lays a coarse grid over the world.
pub mod Laws
use pbnf.Base.{
  ℕ, ◌+◌, ◌-◌, ◌*◌, ◌/◌, ◌%◌, Bool, not, ◌&&◌, List, [], ◌∷◌, ◌++◌, ltb, ◌==◌, if◌then◌else◌,
}
use pbnf.NblockGraph.Scope.{Projection}
use pbnf.Grid.World.{GridWorld, GridState}

pub record Coarse : Type 0 where
  pub cols : ℕ
  pub rows : ℕ
  pub cols_div : ℕ
  pub rows_div : ℕ
  pub four : Bool

-- The constructor.
unfoldable pub new : GridWorld → ℕ → ℕ → Coarse
new w c r =
    let cols = if w.width % c == 0 then c else c + 1 in
    let rows = if w.height % r == 0 then r else r + 1 in
    record {
      cols = cols;
      rows = rows;
      cols_div = w.width / cols;
      rows_div = w.height / rows;
      four = w.four;
    }

unfoldable pub get_id : Coarse → ℕ → ℕ → ℕ
get_id p x y = y * p.cols + x

unfoldable pub project : Coarse → GridState → ℕ
unfolding get_id
project p s = get_id p (s.x / p.cols_div) (s.y / p.rows_div)

unfoldable pub get_num_nblocks : Coarse → ℕ
get_num_nblocks p = p.rows * p.cols

-- `p.push_back(get_id(x, y))`, if the test holds.
unfoldable pub push : Coarse → Bool → ℕ → ℕ → List ℕ
unfolding get_id
push p test x y = if test then get_id p x y ∷ [] else []

unfoldable pub get_neighbors : Coarse → ℕ → List ℕ
unfolding push
get_neighbors p b =
    let x = b % p.cols in
    let y = b / p.cols in
    push p (ltb 0 x) (x - 1) y
    ++ push p (ltb x (p.cols - 1)) (x + 1) y
    ++ push p (ltb 0 y) x (y - 1)
    ++ push p (ltb y (p.rows - 1)) x (y + 1)
    ++ (if p.four
        then []
        else push p (ltb 0 x && ltb 0 y) (x - 1) (y - 1)
          ++ push p (ltb x (p.cols - 1) && ltb 0 y) (x + 1) (y - 1)
          ++ push p (ltb x (p.cols - 1) && ltb y (p.rows - 1)) (x + 1) (y + 1)
          ++ push p (ltb 0 x && ltb y (p.rows - 1)) (x - 1) (y + 1))

unfoldable pub get_successors : Coarse → ℕ → List ℕ
get_successors p b = get_neighbors p b

unfoldable pub get_predecessors : Coarse → ℕ → List ℕ
get_predecessors p b = get_neighbors p b

-- What the graph takes of the projection: it asks for the neighbours of its blocks alone.
unfoldable pub projection : Coarse → Projection
projection p = record {
  num_nblocks = get_num_nblocks p;
  get_successors = λ b. if ltb b (get_num_nblocks p) then get_successors p b else [];
  get_predecessors = λ b. if ltb b (get_num_nblocks p) then get_predecessors p b else [];
}
