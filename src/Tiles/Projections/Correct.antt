-- ===== src/Tiles/Projections/Correct.antt =====
-- src/tiles/tiles.cc: what the graph of the nblocks and the search need of the four projections.
use pbnf.Base.{ℕ, ◌≤◌, ◌<◌, ◌≡◌, ◌⊎◌, refl, Bool, true, [], ◌∷◌, Option, arith, mem}
use pbnf.NblockGraph.Scope.{IsProjection}
use pbnf.Tiles.Cells.{IsStep}
use pbnf.Tiles.Domain.{Tiles, TilesState, size}
use pbnf.Tiles.Expand.{slide, new_state, expand}
use pbnf.Tiles.Expand.Laws.{All, All-expand, IsState}
use pbnf.Tiles.Numbering.Count.{Inside}
use pbnf.Tiles.Projections.{IsNumbering}
use pbnf.Tiles.Projections.Instances.{
  one_tables, two_tables, three_tables, one_IsProjection, two_IsProjection, three_IsProjection,
  one_neighbors, two_neighbors, three_neighbors,
}
use pbnf.Tiles.Projections.Children.{block-child}
use pbnf.Tiles.OneTileProject
use pbnf.Tiles.TwoTileProject
use pbnf.Tiles.ThreeTileProject
use pbnf.Tiles.TwoTileNoBlankProject
use pbnf.Tiles.TwoTileNoBlankProject.{Names, sort}
use pbnf.Tiles.TwoTileNoBlankProject.Laws.{init-IsNumbering, no_blank-IsProjection}
use pbnf.Tiles.TwoTileNoBlankProject.Children.{IsNames, sort-IsSorted, no_blank-child}

-- The constructors of the four projections of a board of `n` cells give each tuple of different
-- cells of the kept tiles one number: the numbers go from 0 up to n (n - 1), n (n - 1) (n - 2) or
-- n (n - 1) (n - 2) (n - 3), and `proj` and `unproj` are inverse to each other on them.
pub tables_correct :
    (n : ℕ)
    → IsNumbering n 2 (OneTileProject.init n)
      × IsNumbering n 3 (TwoTileProject.init n)
      × IsNumbering n 3 (TwoTileNoBlankProject.init n)
      × IsNumbering n 4 (ThreeTileProject.init n)
tables_correct n = (one_tables n, two_tables n, init-IsNumbering n, three_tables n)

-- On every board, and for any three tiles that `TwoTileNoBlankProject` is given, the successors and
-- the predecessors of the four projections are those of one relation between the blocks below
-- `get_num_nblocks`.
pub projections_correct :
    (d : Tiles) (t : Names)
    → IsProjection (OneTileProject.projection d)
      × IsProjection (TwoTileProject.projection d)
      × IsProjection (TwoTileNoBlankProject.projection d t)
      × IsProjection (ThreeTileProject.projection d)
projections_correct d t =
    (one_IsProjection d, two_IsProjection d, no_blank-IsProjection d t, three_IsProjection d)

-- A child of `s` is in the block of `s` or in a successor of it under each of the projections.
pub record IsReached (d : Tiles) (t : Names) (s r : TilesState) : Type 0 where
  pub one :
      mem (OneTileProject.project (OneTileProject.init (size d)) r) (
        OneTileProject.get_successors d
          (OneTileProject.init (size d))
          (OneTileProject.project (OneTileProject.init (size d)) s))
      ≡ true
  pub two :
      mem (TwoTileProject.project (TwoTileProject.init (size d)) r) (
        TwoTileProject.get_successors d
          (TwoTileProject.init (size d))
          (TwoTileProject.project (TwoTileProject.init (size d)) s))
      ≡ true
  pub three :
      mem (ThreeTileProject.project (ThreeTileProject.init (size d)) r) (
        ThreeTileProject.get_successors d
          (ThreeTileProject.init (size d))
          (ThreeTileProject.project (ThreeTileProject.init (size d)) s))
      ≡ true
  pub no_blank :
      (TwoTileNoBlankProject.project (sort t) (TwoTileNoBlankProject.init (size d)) r
        ≡ TwoTileNoBlankProject.project (sort t) (TwoTileNoBlankProject.init (size d)) s)
      ⊎ (mem (TwoTileNoBlankProject.project (sort t) (TwoTileNoBlankProject.init (size d)) r) (
            TwoTileNoBlankProject.get_successors d
              (sort t)
              (TwoTileNoBlankProject.init (size d))
              (TwoTileNoBlankProject.project (sort t) (TwoTileNoBlankProject.init (size d)) s))
          ≡ true)

module _ (d : Tiles) (guided : Bool) (t : Names) (s : TilesState) (v : IsState d guided s)
    (names : IsNames (size d) t) (large : 4 ≤ size d) where
  slide-IsReached :
      (n : ℕ) → n < size d → IsStep d.width s.blank n → IsReached d t s (slide d guided s n)
  unfolding slide new_state OneTileProject.project TwoTileProject.project ThreeTileProject.project
      TwoTileNoBlankProject.project OneTileProject.get_successors TwoTileProject.get_successors
      ThreeTileProject.get_successors TwoTileNoBlankProject.get_successors
      TwoTileNoBlankProject.get_neighbors Inside
  slide-IsReached n lt step = record {
    one = rw (one_neighbors d (OneTileProject.project (OneTileProject.init (size d)) s)) (
        block-child d (OneTileProject.init (size d)) (1 ∷ []) (0 ∷ []) (one_tables (size d))
          (refl, (refl, tt)) (omega (arith, large), (omega (arith, large), tt)) refl s.tiles s.blank
          n v.cells v.inside lt v.blank_at step);
    two = rw (two_neighbors d (TwoTileProject.project (TwoTileProject.init (size d)) s)) (
        block-child d (TwoTileProject.init (size d)) (1 ∷ 2 ∷ []) (0 ∷ 0 ∷ []) (two_tables (size d))
          (refl, (refl, (refl, tt)))
          (omega (arith, large), (omega (arith, large), (omega (arith, large), tt))) refl s.tiles
          s.blank n v.cells v.inside lt v.blank_at step);
    three = rw (three_neighbors d (ThreeTileProject.project (ThreeTileProject.init (size d)) s)) (
        block-child d (ThreeTileProject.init (size d)) (1 ∷ 2 ∷ 3 ∷ []) (0 ∷ 0 ∷ 0 ∷ [])
          (three_tables (size d)) (refl, (refl, (refl, (refl, tt))))
          (
            omega (arith, large),
            (omega (arith, large), (omega (arith, large), (omega (arith, large), tt))),
          )
          refl s.tiles s.blank n v.cells v.inside lt v.blank_at step);
    no_blank =
        no_blank-child d (sort t) (TwoTileNoBlankProject.init (size d)) (init-IsNumbering (size d))
          (sort-IsSorted (size d) t names) s.tiles s.blank n v.cells v.inside lt v.blank_at step;
  }

-- On a board of at least four cells, each child that `expand` gives of a configuration of the
-- search is in a successor of the block of that configuration, under `OneTileProject`,
-- `TwoTileProject` and `ThreeTileProject`; under `TwoTileNoBlankProject` with three different tiles
-- it is there or in the block itself.
pub children_correct :
    (d : Tiles) (guided : Bool) (t : Names) (s : TilesState) (gp : Option TilesState)
    → IsState d guided s
    → IsNames (size d) t
    → 4 ≤ size d
    → All (IsReached d t s) (expand d guided s gp)
children_correct d guided t s gp v names large =
    All-expand d guided s gp v.inside (IsReached d t s) (slide-IsReached d guided t s v names large)
