-- ===== src/DivMergeProject/Tests.antt =====
-- src/div_merge_project.cc: runs on a ring of four blocks.
use pbnf.Base.{ℕ, ◌*◌, ◌/◌, ◌<◌, ◌≡◌, refl, [], ◌∷◌, arith}
use mathlib.Core.Logic.{◌↔◌}
use pbnf.NblockGraph.Scope.{Projection, IsProjection, set_insert}
use pbnf.Grid.RowModProject
use pbnf.Grid.RowModProject.Laws.{row_mod-IsProjection}
use pbnf.DivMergeProject.{project, get_num_nblocks, collect, merge, get_successors, projection}
use pbnf.DivMergeProject.Laws.{div_merge-IsProjection, last_merged_iff}

abbrev ring : ℕ → Projection
ring n = RowModProject.projection n

div_merge-IsProjection_example : IsProjection (projection 2 (ring 4))
unfolding RowModProject.projection RowModProject.get_num_nblocks
div_merge-IsProjection_example =
    div_merge-IsProjection 2 (ring 4) (omega arith) (row_mod-IsProjection 4) refl

last_merged_iff_example :
    (project 2 4 < get_num_nblocks 2 (ring 5)) ↔ ((ring 5).num_nblocks / 2 * 2 ≡ 5)
unfolding RowModProject.projection RowModProject.get_num_nblocks
last_merged_iff_example = last_merged_iff 2 (ring 5) (omega arith) (omega arith)

-- Six blocks in a ring make three.
ring_successors : get_successors 2 (ring 6) 0 ≡ 1 ∷ 2 ∷ []
unfolding get_successors merge collect set_insert RowModProject.projection
    RowModProject.get_num_nblocks RowModProject.get_successors RowModProject.get_neighbors
ring_successors = refl

-- Of five blocks the last is merged into block 2, and there are two.
left_over : (project 2 4 ≡ 2) × (get_num_nblocks 2 (ring 5) ≡ 2)
unfolding project get_num_nblocks RowModProject.projection RowModProject.get_num_nblocks
left_over = (refl, refl)
