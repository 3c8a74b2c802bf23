-- ===== src/Tiles/TwoTileNoBlankProject.antt =====
-- src/tiles/tiles.cc: the projection `TwoTileNoBlankProject`, which keeps three tiles that the
-- caller names, the blank among them or not.
pub mod Hops
pub mod Laws
pub mod Children
use pbnf.Base.{
  ℕ, zero, suc, ◌+◌, ◌-◌, ◌*◌, ◌/◌, ◌%◌, Bool, true, false, ◌&&◌, ◌||◌, not, List, [], ◌∷◌, ◌++◌,
  ltb, ◌==◌, if◌then◌else◌, get_or,
}
use pbnf.NblockGraph.Scope.{Projection}
use pbnf.Tiles.Domain.{Tiles, TilesState, size}
use pbnf.Tiles.Numbering.{Numbering, empty, enter, loop, locate}

-- `a_tile`, `b_tile` and `c_tile`
pub record Names : Type 0 where
  pub a : ℕ
  pub b : ℕ
  pub c : ℕ

unfoldable pub swap_ab : Names → Names
swap_ab t = record { a = t.b; b = t.a; c = t.c }

unfoldable pub swap_bc : Names → Names
swap_bc t = record { a = t.a; b = t.c; c = t.b }

-- The bubble sort of `init`.
unfoldable pub sort : Names → Names
unfolding swap_ab swap_bc
sort t =
    let u = if ltb t.b t.a then swap_ab t else t in
    let v = if ltb u.c u.b then swap_bc u else u in if ltb v.b v.a then swap_ab v else v

unfoldable pub nnblocks : ℕ → ℕ
nnblocks size = size * (size - 1) * (size - 2)

unfoldable pub setup_proj : ℕ → ℕ → ℕ → Numbering → Numbering
setup_proj i j k st = if i == j || i == k || j == k then st else enter (i ∷ j ∷ k ∷ []) st

-- The tables that `init` fills.
unfoldable pub init : ℕ → Numbering
init size =
    loop size 0 (λ i. loop size 0 (λ j. loop size 0 (λ k. setup_proj i j k)))
      (empty (nnblocks size))

unfoldable pub project : Names → Numbering → TilesState → ℕ
project t st s = st.proj (locate (t.a ∷ t.b ∷ t.c ∷ []) s.tiles 0 (0 ∷ 0 ∷ 0 ∷ []))

-- The body of the branches for the first tile, which moves to `i`.
unfoldable pub move_a : Names → Numbering → ℕ → ℕ → ℕ → ℕ → List ℕ
move_a t st a b c i =
    if t.a == 0 && i == b
    then st.proj (i ∷ a ∷ c ∷ []) ∷ []
    else (if t.a == 0 && i == c
        then st.proj (i ∷ b ∷ a ∷ []) ∷ []
        else (if not (i == b) && not (i == c) then st.proj (i ∷ b ∷ c ∷ []) ∷ [] else []))

-- The same for the second tile.
unfoldable pub move_b : Numbering → ℕ → ℕ → ℕ → ℕ → List ℕ
move_b st a b c i = if not (i == a) && not (i == c) then st.proj (a ∷ i ∷ c ∷ []) ∷ [] else []

-- The same for the third tile.
unfoldable pub move_c : Numbering → ℕ → ℕ → ℕ → ℕ → List ℕ
move_c st a b c i = if not (i == a) && not (i == b) then st.proj (a ∷ b ∷ i ∷ []) ∷ [] else []

-- The four branches for the tile at `p`: left, right, up and down.
unfoldable pub four : Tiles → ℕ → (ℕ → List ℕ) → List ℕ
four d p move =
    let width = d.width in
    let col = p % width in
    let row = p / width in
    (if ltb 0 col then move (p - 1) else [])
    ++ (if ltb col (width - 1) then move (p + 1) else [])
    ++ (if ltb 0 row then move (p - width) else [])
    ++ (if ltb row (d.height - 1) then move (p + width) else [])

unfoldable pub neighbors : Tiles → Names → Numbering → List ℕ → List ℕ
neighbors d t st (a ∷ b ∷ c ∷ []) =
    four d a (move_a t st a b c) ++ four d b (move_b st a b c) ++ four d c (move_c st a b c)
neighbors d t st _ = []

-- A read past the end of `unproj` finds no cells.
unfoldable pub get_neighbors : Tiles → Names → Numbering → ℕ → List ℕ
get_neighbors d t st b = neighbors d t st (get_or st.unproj b [])

unfoldable pub get_successors : Tiles → Names → Numbering → ℕ → List ℕ
get_successors d t st b = get_neighbors d t st b

unfoldable pub get_predecessors : Tiles → Names → Numbering → ℕ → List ℕ
get_predecessors d t st b = get_neighbors d t st b

unfoldable pub get_num_nblocks : Tiles → ℕ
get_num_nblocks d = nnblocks (size d)

-- What the graph of the nblocks takes of the projection with the tiles `t`.
unfoldable pub projection : Tiles → Names → Projection
projection d t =
    let st = init (size d) in
    let names = sort t in
    record {
      num_nblocks = get_num_nblocks d;
      get_successors = get_successors d names st;
      get_predecessors = get_predecessors d names st;
    }
