-- ===== src/Tiles/ThreeTileProject.antt =====
-- src/tiles/tiles.cc: the projection `ThreeTileProject`, which keeps the blank and tiles 1, 2 and 3.
use pbnf.Base.{
  ℕ, ◌+◌, ◌-◌, ◌*◌, ◌/◌, ◌%◌, ◌||◌, List, [], ◌∷◌, ◌++◌, ltb, ◌==◌, if◌then◌else◌, get_or,
}
use pbnf.NblockGraph.Scope.{Projection}
use pbnf.Tiles.Domain.{Tiles, TilesState, size}
use pbnf.Tiles.Numbering.{Numbering, empty, enter, loop, locate}

unfoldable pub nnblocks : ℕ → ℕ
nnblocks size = size * (size - 1) * (size - 2) * (size - 3)

unfoldable pub setup_proj : ℕ → ℕ → ℕ → ℕ → Numbering → Numbering
setup_proj i j k l st =
    if i == j || i == k || i == l || j == k || j == l || l == k
    then st
    else enter (i ∷ j ∷ k ∷ l ∷ []) st

unfoldable pub init : ℕ → Numbering
init size =
    loop size 0 (λ i. loop size 0 (λ j. loop size 0 (λ k. loop size 0 (λ l. setup_proj i j k l))))
      (empty (nnblocks size))

unfoldable pub project : Numbering → TilesState → ℕ
project st s = st.proj (locate (0 ∷ 1 ∷ 2 ∷ 3 ∷ []) s.tiles 0 (0 ∷ 0 ∷ 0 ∷ 0 ∷ []))

unfoldable pub get_neighbor : Numbering → ℕ → ℕ → ℕ → ℕ → ℕ → ℕ
get_neighbor st blank one two three new_blank =
    if one == new_blank
    then st.proj (one ∷ blank ∷ two ∷ three ∷ [])
    else (if two == new_blank
        then st.proj (two ∷ one ∷ blank ∷ three ∷ [])
        else (if three == new_blank
            then st.proj (three ∷ one ∷ two ∷ blank ∷ [])
            else st.proj (new_blank ∷ one ∷ two ∷ three ∷ [])))

unfoldable pub neighbors : Tiles → Numbering → List ℕ → List ℕ
neighbors d st (blank ∷ one ∷ two ∷ three ∷ []) =
    let width = d.width in
    let col = blank % width in
    let row = blank / width in
    (if ltb 0 col then get_neighbor st blank one two three (blank - 1) ∷ [] else [])
    ++ (if ltb col (width - 1) then get_neighbor st blank one two three (blank + 1) ∷ [] else [])
    ++ (if ltb 0 row then get_neighbor st blank one two three (blank - width) ∷ [] else [])
    ++ (if ltb row (d.height - 1)
        then get_neighbor st blank one two three (blank + width) ∷ []
        else [])
neighbors d st _ = []

-- A read past the end of `unproj` finds no cells.
unfoldable pub get_neighbors : Tiles → Numbering → ℕ → List ℕ
get_neighbors d st b = neighbors d st (get_or st.unproj b [])

unfoldable pub get_successors : Tiles → Numbering → ℕ → List ℕ
get_successors d st b = get_neighbors d st b

unfoldable pub get_predecessors : Tiles → Numbering → ℕ → List ℕ
get_predecessors d st b = get_neighbors d st b

unfoldable pub get_num_nblocks : Tiles → ℕ
get_num_nblocks d = nnblocks (size d)

-- What the graph of the nblocks takes of the projection.
unfoldable pub projection : Tiles → Projection
projection d =
    let st = init (size d) in
    record {
      num_nblocks = get_num_nblocks d;
      get_successors = get_successors d st;
      get_predecessors = get_predecessors d st;
    }
