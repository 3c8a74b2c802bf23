-- ===== src/NblockGraph/Start.antt =====
-- src/pbnf/nblock_graph.cc: the graph that the constructor makes, and one on which
-- `next_nblock` does other than it means to.
use pbnf.Base.{
  ℕ, ◌<◌, ◌≡◌, refl, sym, ◌∙◌, true, false, List, [], ◌∷◌, get_or, none, arith, ltb, ◌==◌, mem,
  tally_below, tally-never, tally_below-always, tally-nil,
}
use mathlib.Core.Path.{fun_ext}
use pbnf.PriorityQueue.{fill, cell}
use pbnf.PriorityQueue
use pbnf.PriorityQueue.Insert.{add_correct}
use pbnf.PriorityQueue.Whole.{new-IsValid, new-index, fill-empty}
use pbnf.NblockGraph.{
  Graph, Open, finished, block_before, is_empty, is_free, top_g, init, set_done, next, next_nblock,
}
use pbnf.NblockGraph.FreeList.{block_before-IsStrictOrder, listed}
use pbnf.NblockGraph.Cold.{IsScope}
use pbnf.NblockGraph.Claim.{IsConsistent}
use pbnf.NblockGraph.Next.{starve-quiet}

-- Two blocks whose best values agree stand in the order of the g values of their best states: the
-- better f of a state does not count.
pub block_before-tie :
    (opens : ℕ → Open) (a b : ℕ)
    → (opens a).best_val ≡ (opens b).best_val
    → block_before opens a b ≡ ltb (top_g (opens b).top) (top_g (opens a).top)
unfolding block_before
block_before-tie opens a b e = ground (arith, e)

module _ (interferes : ℕ → List ℕ) (scope : IsScope interferes) (num_nblocks : ℕ)
    (inside : (a b : ℕ) → mem a (interferes b) ≡ true → a < num_nblocks) where
  pub init-IsConsistent :
      (opens : ℕ → Open) (b : ℕ)
      → is_empty (opens b) ≡ false
      → IsConsistent interferes scope num_nblocks inside (init num_nblocks opens b)
  unfolding init is_free
  init-IsConsistent opens b some_open =
      let q = PriorityQueue.new (λ x. none) in
      let (valid, size, members) =
        add_correct (block_before opens) (block_before-IsStrictOrder opens) q b
          (new-IsValid (block_before opens) (λ x. none) (λ x. refl)) (new-index (λ x. none) b) in
      record {
        steady = record {
          list = record {
            valid = valid;
            free = λ x h. ground (arith, some_open, members x, h, new-index (λ x. none) x);
          };
          counts = λ x. omega (arith, tally-never (interferes x));
          heated = λ x h. cc;
          zeros = sym (tally_below-always num_nblocks);
        };
        sigmas = λ x. sym (tally-never (interferes x));
        running = λ x h. refl;
      }

  init_heap : (opens : ℕ → Open) (b : ℕ) → (init num_nblocks opens b).free_list.heap ≡ b ∷ []
  unfolding init PriorityQueue.add PriorityQueue.new PriorityQueue.sift_up
      PriorityQueue.sift_up_loop PriorityQueue.grow get_or
  init_heap opens b = refl

  -- The graph of the constructor is consistent, the block of the initial state is free and stands
  -- alone in the free list, no block is hot or in use, and the search is not done.
  pub init_correct :
      (opens : ℕ → Open) (b : ℕ)
      → is_empty (opens b) ≡ false
      → (let g = init num_nblocks opens b in
          IsConsistent interferes scope num_nblocks inside g
          × (is_free g b ≡ true)
          × (g.free_list.heap ≡ b ∷ [])
          × ((x : ℕ) → listed g x ≡ (b == x))
          × ((x : ℕ) → (g.hot x ≡ false) × (g.inuse x ≡ false))
          × (g.done ≡ false))
  unfolding init is_free
  init_correct opens b some_open =
      let q = PriorityQueue.new (λ x. none) in
      let (valid, size, members) =
        add_correct (block_before opens) (block_before-IsStrictOrder opens) q b
          (new-IsValid (block_before opens) (λ x. none) (λ x. refl)) (new-index (λ x. none) b) in
      (
        init-IsConsistent opens b some_open,
        ground (arith, some_open),
        init_heap opens b,
        λ x. members x ∙ ground (arith, new-index (λ x. none) x),
        λ x. (refl, refl),
        refl,
      )

  module _ (bound w : ℕ) (g : Graph) (c : IsConsistent interferes scope num_nblocks inside g) where
    -- Where no block interferes with another, a thread that finds the free list empty ends the
    -- search, though another thread may still be searching a block.
    pub isolated_end :
        (n : ℕ)
        → ((x : ℕ) → interferes x ≡ [])
        → fill g.free_list ≡ 0
        → g.inuse n ≡ true
        → (let r = next_nblock interferes num_nblocks bound w none g in
            (r.1 ≡ finished) × (r.0.done ≡ true) × (r.0.inuse n ≡ true))
    unfolding next_nblock next set_done
    isolated_end n alone size used =
        let quiet : (g.num_sigma_zero == num_nblocks) ≡ true =
          ground (arith, c.steady.zeros, all_quiet) in
        rw (fill-empty g.free_list size, starve-quiet interferes scope num_nblocks inside g quiet)
          (refl, refl, used)
      where
        no_sigma : (x : ℕ) → g.sigma x ≡ 0
        no_sigma x = c.sigmas x ∙ rw (alone x) (tally-nil g.inuse)

        all_quiet : tally_below num_nblocks (λ x. g.sigma x == 0) ≡ num_nblocks
        all_quiet = rw (fun_ext no_sigma) (tally_below-always num_nblocks)
