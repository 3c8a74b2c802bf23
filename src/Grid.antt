-- ===== src/Grid.antt =====
-- src/grid/: pathfinding on a grid with obstacles, its heuristic and its projections.
mod Tests
pub mod World
pub mod Distance
pub mod RowModProject
pub mod CoarseProject
pub mod Projections
