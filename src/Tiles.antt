-- ===== src/Tiles.antt =====
-- src/tiles/: the sliding tile puzzle, its hash, its heuristic, its moves and its projections.
mod Tests
pub mod Hash
pub mod Cells
pub mod Domain
pub mod Manhattan
pub mod Expand
pub mod Numbering
pub mod Locate
pub mod OneTileProject
pub mod TwoTileProject
pub mod ThreeTileProject
pub mod TwoTileNoBlankProject
pub mod Projections
