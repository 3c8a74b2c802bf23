-- ===== src/Lib.antt =====
-- PBNF: parallel best-first search in which threads search disjoint parts of an abstract graph.
--
-- The parts of the program and how they interact:
--   A projection maps each state to an nblock. An nblock has an open list of states and a closed
--   list. The nblock graph keeps the blocks that are free in a priority queue; a thread asks it
--   for a block, searches there, writes into the open lists of the block and its successors, and
--   gives the block back. Counters in each block (`sigma`, `sigma_hot`) keep blocks from being
--   handed out whose scopes overlap. An open list is a priority queue of states, a closed list a
--   hash table.
--
-- Files, and the code that they are about:
--   PriorityQueue  src/util/priority_queue.h; `heap` and `size` are the array, `index` the index
--     fields of the elements. `take` is `take_front` here. Order, Up, Down and Index hold what the
--     sifts keep, Insert, Update, Remove and Whole the public operations, Cells what holds of
--     all elements in any order.
--   HashTable  src/util/hash_table.h; Buckets has the chains, Laws a table of chains, Resize the
--     growth, Map the public operations.
--   SearchState  src/state.h, src/state.cc, src/util/fixed_point.h: the values of states and the
--     orders on them; Path has `get_path`, whose fuel of g + 1 rounds is enough where each parent
--     has a smaller g.
--   OpenList  src/pq_open_list.h, src/open_list.cc; Laws has the theorems, Cells what holds of all
--     states of a list. `see_update` and `remove` are `none` where the queue asserts an index in range.
--   ClosedList  src/closed_list.cc: the closed list over the hash table; Laws has the theorem.
--   InconsList  src/incons_list.cc: the states that have improved after they were closed.
--   NblockMap  src/util/nblock_map.h: the blocks that are created when they are asked for.
--   NblockGraph  src/pbnf/nblock_graph.cc, src/pbnf/nblock_graph.h, src/pbnf/nblock.h, and the
--     constructor of src/pbnf/nblock.cc in Scope. FreeList, Cold, Sigma and Claim hold what its
--     steps keep, Next and Hot its public operations, System the threads of src/pbnf_search.cc,
--     Exclusion what holds in every state that they reach, Start the first state and edge cases.
--   PbnfSearch  src/pbnf_search.cc: how a thread searches a block and when it leaves it; Writes and
--     Switch have the theorems.
--   Tiles  src/tiles/tiles.cc and src/tiles/tiles_state.cc: Domain has a configuration, Hash its
--     hash, Manhattan the heuristic, Expand the children. Cells has the four neighbours of a cell.
--     Numbering and Locate are what the constructors and `project` of the projections share;
--     OneTileProject, TwoTileProject, ThreeTileProject and TwoTileNoBlankProject are the classes of
--     those names, and Projections relates them to the graph and to the children.
--   Grid  src/grid/grid_world.cc: World has the children of a state, Distance the heuristic,
--     RowModProject and CoarseProject the projections, Projections what relates them to the graph
--     and to the children.
--   DivMergeProject  src/div_merge_project.cc: a projection that merges blocks of another.
--   Base  lists that are read and written by index, counts of the members of a list, Booleans.
--   The files called Tests run the definitions on concrete inputs.
--
-- How the code is modelled:
--   A pointer to an element is a number. An index of -1 is `none`. The array of a queue is the
--   list of its first `fill` cells, beside the number of cells that are allocated.
--   The fields of all nblocks are functions of the block in one record, with the fields of the
--   graph. Blocks are created lazily in the code; one that has not been created reads as a fresh
--   one here, which is what the code makes of it when it is asked for.
--   A call of the graph holds the lock from its first change to its last, or to its wait, so it
--   is one step; where `try_lock` fails, nothing changes. `goto retry` after a pruning is the call
--   of `starve`, since the list is empty then.
--   The bound and the weight are natural numbers, and their product is exact. The code has a
--   double for the weight. Values of states wrap at 2 ^ 64.
--   A loop over the buckets of a hash table counts them with an unsigned int; where there are
--   2 ^ 32 or more it does not end, and the operation is `none`. `resize` cuts their number off.
--   A sift up takes at most as many rounds as the index it starts from, since the index at least
--   halves; a sift down at most `fill` less the index, since the index more than doubles. These
--   are the fuel of `sift_up_loop` and `try_push`; these numbers of rounds are enough.
--   `search_nblock` is given by the first rounds of its loop, for every number of rounds. What the
--   domain computes (hashes, blocks, goals, children) and what the bound reads as are parameters.
--
--   The puzzle has the cost of a move of each tile as a fixed point value. An int of the heuristic
--   is its pattern of 32 bits. The set of tiles in `compute_hash` is read by its binary digits;
--   the code has 32 of them. `proj` is a table from tuples of cells, with zeros where the code
--   does not write; a read of `unproj` past its end gives no cells and so no neighbours.
--   Coordinates of a grid are natural numbers. Products of them are exact, and a value of the
--   heuristic wraps at 2 ^ 64 when it is made a fixed point value.
--
-- Not modelled: the memory that is freed, printing, statistics of the builds with INSTRUMENTED,
--   QUEUE_SIZES and TIME_QUEUES, the reading of domains, the other searches and their
--   graphs, the lock-free containers, and the wrappers of threads, locks and clocks.
pub mod Base
pub mod PriorityQueue
pub mod HashTable
pub mod SearchState
pub mod OpenList
pub mod ClosedList
pub mod InconsList
pub mod NblockMap
pub mod NblockGraph
pub mod DivMergeProject
pub mod PbnfSearch
pub mod Tiles
pub mod Grid
