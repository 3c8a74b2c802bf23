-- ===== src/Tiles/OneTileProject.antt =====
-- src/tiles/tiles.cc: the projection `OneTileProject`, which keeps the blank and tile 1.
use pbnf.Base.{ℕ, ◌+◌, ◌-◌, ◌*◌, ◌/◌, ◌%◌, List, [], ◌∷◌, ◌++◌, ltb, ◌==◌, if◌then◌else◌, get_or}
use pbnf.NblockGraph.Scope.{Projection}
use pbnf.Tiles.Domain.{Tiles, TilesState, size}
use pbnf.Tiles.Numbering.{Numbering, empty, enter, loop, locate}

unfoldable pub nnblocks : ℕ → ℕ
nnblocks size = size * (size - 1)

-- The body of the loops of the constructor.
unfoldable pub setup_proj : ℕ → ℕ → Numbering → Numbering
setup_proj i j st = if i == j then st else enter (i ∷ j ∷ []) st

unfoldable pub init : ℕ → Numbering
init size = loop size 0 (λ i. loop size 0 (λ j. setup_proj i j)) (empty (nnblocks size))

unfoldable pub project : Numbering → TilesState → ℕ
project st s = st.proj (locate (0 ∷ 1 ∷ []) s.tiles 0 (0 ∷ 0 ∷ []))

-- The block when the blank moves to `i`.
unfoldable pub neighbor : Numbering → ℕ → ℕ → ℕ → ℕ
neighbor st blank one i = if one == i then st.proj (one ∷ blank ∷ []) else st.proj (i ∷ one ∷ [])

unfoldable pub neighbors : Tiles → Numbering → List ℕ → List ℕ
neighbors d st (blank ∷ one ∷ []) =
    let width = d.width in
    let col = blank % width in
    let row = blank / width in
    (if ltb 0 col then neighbor st blank one (blank - 1) ∷ [] else [])
    ++ (if ltb col (width - 1) then neighbor st blank one (blank + 1) ∷ [] else [])
    ++ (if ltb 0 row then neighbor st blank one (blank - width) ∷ [] else [])
    ++ (if ltb row (d.height - 1) then neighbor st blank one (blank + width) ∷ [] else [])
neighbors d st _ = []

-- A read past the end of `unproj` finds no cells.
unfoldable pub get_neighbors : Tiles → Numbering → ℕ → List ℕ
get_neighbors d st b = neighbors d st (get_or st.unproj b [])

unfoldable pub get_successors : Tiles → Numbering → ℕ → List ℕ
get_successors d st b = get_neighbors d st b

unfoldable pub get_predecessors : Tiles → Numbering → ℕ → List ℕ
get_predecessors d st b = get_neighbors d st b

unfoldable pub get_num_nblocks : Tiles → ℕ
get_num_nblocks d = nnblocks (size d)

-- What the graph of the nblocks takes of the projection.
unfoldable pub projection : Tiles → Projection
projection d =
    let st = init (size d) in
    record {
      num_nblocks = get_num_nblocks d;
      get_successors = get_successors d st;
      get_predecessors = get_predecessors d st;
    }
