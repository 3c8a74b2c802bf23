-- ===== src/NblockGraph/Claim.antt =====
-- src/pbnf/nblock_graph.cc: how `next_nblock` releases a block and occupies another.
use pbnf.Base.{
  ℕ, ◌<◌, ◌≡◌, ap, ◌∙◌, true, false, List, arith, mem, put, tally, tally-put, tally-pos,
}
use pbnf.NblockGraph.{Graph, is_free, offer, shift_sigmas, update_scope_sigmas, release, occupy}
use pbnf.NblockGraph.FreeList.{IsFreeList, listed, offer-Offered, IsFreeList-inuse}
use pbnf.NblockGraph.Cold.{IsScope}
use pbnf.NblockGraph.Sigma.{IsSteady, shift_sigmas-Raised, shift_sigmas-Lowered}

module _ (interferes : ℕ → List ℕ) (scope : IsScope interferes) (num_nblocks : ℕ)
    (inside : (a b : ℕ) → mem a (interferes b) ≡ true → a < num_nblocks) where
  -- The graph between two calls: sigma counts the blocks in use that a block interferes with, and
  -- a block in use interferes with none of them.
  pub record IsConsistent (g : Graph) : Type 0 where
    pub steady : IsSteady interferes scope num_nblocks g
    pub sigmas : (x : ℕ) → g.sigma x ≡ tally g.inuse (interferes x)
    pub running : (x : ℕ) → g.inuse x ≡ true → g.sigma x ≡ 0

  in_use-unlisted : (g : Graph) (n : ℕ) → IsFreeList g → g.inuse n ≡ true → listed g n ≡ false
  unfolding is_free
  in_use-unlisted g n l used = ground (arith, used, l.free n)

  -- The released block is no longer in use, and no other block has come into use.
  pub record Released (g : Graph) (n : ℕ) (h : Graph) : Type 0 where
    pub consistent : IsConsistent h
    pub inuse : (x : ℕ) → h.inuse x ≡ put g.inuse n false x
    pub opens : h.opens ≡ g.opens
    pub done : h.done ≡ g.done

  pub release-Released :
      (g : Graph) (n : ℕ)
      → IsConsistent g
      → g.inuse n ≡ true
      → Released g n (release interferes g n)
  unfolding release update_scope_sigmas
  release-Released g n c used =
      let idle : Graph = record g { inuse = put g.inuse n false } in
      let absent = in_use-unlisted g n c.steady.list used in
      let t = offer-Offered idle n (IsFreeList-inuse g c.steady.list n absent false) absent in
      let k = t.kept in
      let s =
        shift_sigmas-Lowered interferes scope num_nblocks (interferes n) (offer idle n)
          (scope.distinct n)
          (λ x h. (
            inside x n h,
            rw k.sigma (
                omega (
                  arith,
                  c.sigmas x,
                  tally-pos g.inuse n (interferes x) (scope.symm n x ∙ h) used,
                )),
          ))
          (record {
            list = t.list;
            counts = λ x. rw (k.sigma_hot, k.hot) (c.steady.counts x);
            heated = λ x h. rw k.sigma (c.steady.heated x (rw k.hot at h));
            zeros = rw (k.sigma, k.num_sigma_zero) c.steady.zeros;
          }) in
      let inuse : (x : ℕ)
          → (shift_sigmas interferes false (offer idle n) (interferes n)).inuse x
            ≡ put g.inuse n false x =
        λ x. ap (λ f. f x) (s.fixed.inuse ∙ k.inuse) in
      let sigma = λ (x : ℕ). s.sigma x ∙ ap (λ f. f x) k.sigma in
      record {
        consistent = record {
          steady = s.steady;
          sigmas = λ x.
              rw (s.fixed.inuse, k.inuse)
                (ground (
                  arith,
                  used,
                  sigma x,
                  c.sigmas x,
                  scope.symm x n,
                  tally-put g.inuse n false (interferes x) (scope.distinct x),
                ));
          running = λ x h. ground (arith, h, inuse x, sigma x, c.running x);
        };
        inuse = inuse;
        opens = s.fixed.opens ∙ k.opens;
        done = s.fixed.done ∙ k.done;
      }

  pub record Occupied (g : Graph) (n : ℕ) (h : Graph) : Type 0 where
    pub consistent : IsConsistent h
    pub inuse : (x : ℕ) → h.inuse x ≡ put g.inuse n true x
    pub opens : h.opens ≡ g.opens
    pub done : h.done ≡ g.done

  -- A block can be occupied that has sigma zero and has been taken off the free list.
  pub occupy-Occupied :
      (g : Graph) (n : ℕ)
      → IsConsistent g
      → listed g n ≡ false
      → g.sigma n ≡ 0
      → g.inuse n ≡ false
      → Occupied g n (occupy interferes g n)
  unfolding occupy update_scope_sigmas
  occupy-Occupied g n c absent quiet idle =
      let busy : Graph = record g { inuse = put g.inuse n true } in
      let s =
        shift_sigmas-Raised interferes scope num_nblocks (interferes n) busy (scope.distinct n)
          (λ x h. inside x n h)
          (record {
            list = IsFreeList-inuse g c.steady.list n absent true;
            counts = c.steady.counts;
            heated = c.steady.heated;
            zeros = c.steady.zeros;
          }) in
      let inuse : (x : ℕ)
          → (shift_sigmas interferes true busy (interferes n)).inuse x ≡ put g.inuse n true x =
        λ x. ap (λ f. f x) s.fixed.inuse in
      record {
        consistent = record {
          steady = s.steady;
          sigmas = λ x. rw s.fixed.inuse (
              ground (
                arith,
                idle,
                s.sigma x,
                c.sigmas x,
                scope.symm x n,
                tally-put g.inuse n true (interferes x) (scope.distinct x),
              ));
          running = λ x h. ground (
            arith,
            h,
            inuse x,
            s.sigma x,
            c.running x,
            quiet,
            c.sigmas n,
            scope.irrefl n,
            tally-pos g.inuse x (interferes n),
          );
        };
        inuse = inuse;
        opens = s.fixed.opens;
        done = s.fixed.done;
      }
