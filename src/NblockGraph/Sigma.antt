-- ===== src/NblockGraph/Sigma.antt =====
-- src/pbnf/nblock_graph.cc: the loop of `update_scope_sigmas`.
use pbnf.Base.{
  ℕ, ◌+◌, ◌-◌, ◌<◌, ◌≡◌, ◌≢◌, refl, ap, ◌∙◌, true, false, List, [], ◌∷◌, arith, Bool-cases, inl,
  inr, ◌==◌, mem, Distinct, put, to_nat, tally-pos, tally_below, tally_below-put,
}
use pbnf.NblockGraph.{
  Graph, is_free, delist, offer, cool_hot, leave_zero, reach_zero, shift_sigma, shift_sigmas,
}
use pbnf.NblockGraph.FreeList.{
  IsFreeList-zeros, IsFreeList-sigma, IsFreeList, listed, offer-Offered, delist-Delisted,
}
use pbnf.NblockGraph.Cold.{IsScope, CountsHot, cool_hot-Chilled}

module _ (interferes : ℕ → List ℕ) (scope : IsScope interferes) (num_nblocks : ℕ) where
  -- What holds in every round, whatever the sigmas stand at.
  pub record IsSteady (g : Graph) : Type 0 where
    pub list : IsFreeList g
    pub counts : CountsHot interferes scope (λ x. 0) g
    pub heated : (x : ℕ) → g.hot x ≡ true → 0 < g.sigma x
    pub zeros : g.num_sigma_zero ≡ tally_below num_nblocks (λ x. g.sigma x == 0)

  -- What no round changes.
  pub record Fixed (g h : Graph) : Type 0 where
    pub inuse : h.inuse ≡ g.inuse
    pub opens : h.opens ≡ g.opens
    pub done : h.done ≡ g.done

  pub Fixed-trans : {g h k : Graph} → Fixed g h → Fixed h k → Fixed g k
  Fixed-trans a b = record {
    inuse = b.inuse ∙ a.inuse;
    opens = b.opens ∙ a.opens;
    done = b.done ∙ a.done;
  }

  pub record Raised (g : Graph) (l : List ℕ) (h : Graph) : Type 0 where
    pub steady : IsSteady h
    pub fixed : Fixed g h
    pub sigma : (x : ℕ) → h.sigma x ≡ g.sigma x + to_nat (mem x l)

  pub record Lowered (g : Graph) (l : List ℕ) (h : Graph) : Type 0 where
    pub steady : IsSteady h
    pub fixed : Fixed g h
    pub sigma : (x : ℕ) → h.sigma x + to_nat (mem x l) ≡ g.sigma x

  -- A block that may have come to sigma zero, and is not counted yet if it has.
  record IsArriving (g : Graph) (m : ℕ) : Type 0 where
    list : IsFreeList g
    absent : listed g m ≡ false
    counts : CountsHot interferes scope (λ x. 0) g
    heated : (x : ℕ) → g.hot x ≡ true → x ≢ m → 0 < g.sigma x
    zeros :
        g.num_sigma_zero + to_nat (g.sigma m == 0) ≡ tally_below num_nblocks (λ x. g.sigma x == 0)

  reach_zero-Lowered :
      (g : Graph) (m : ℕ) → IsArriving g m → Lowered g [] (reach_zero interferes g m)
  unfolding reach_zero
  reach_zero-Lowered g m a = elim (Bool-cases (g.sigma m == 0)) [
    | inr busy ↦ rw busy (record {
      steady = record {
        list = a.list;
        counts = a.counts;
        heated = λ x h. ground (arith, h, busy, a.heated x);
        zeros = ground (arith, busy, a.zeros);
      };
      fixed = record { inuse = refl; opens = refl; done = refl };
      sigma = λ x. omega arith;
    })
    | inl zero ↦
        let c =
          cool_hot-Chilled interferes scope (λ x. 0) g m a.list a.counts
            (λ x hot h. tally-pos g.hot m (interferes x) (scope.symm m x ∙ h) hot) in
        let h = cool_hot interferes g m in
        let t = offer-Offered h m c.list (c.others m (scope.irrefl m) ∙ a.absent) in
        let sigma = t.kept.sigma ∙ c.same.sigma in
        let hot : (x : ℕ) → (offer h m).hot x ≡ put g.hot m false x =
          λ x. ap (λ f. f x) t.kept.hot ∙ c.hot x in
        rw zero (record {
          steady = record {
            list = IsFreeList-zeros (offer h m) t.list ((offer h m).num_sigma_zero + 1);
            counts = λ x. rw (t.kept.sigma_hot, t.kept.hot) (c.counts x);
            heated = λ x r. rw sigma (ground (arith, r, hot x, a.heated x));
            zeros =
                rw (sigma, t.kept.num_sigma_zero, c.same.num_sigma_zero)
                  (ground (arith, zero, a.zeros));
          };
          fixed = record {
            inuse = t.kept.inuse ∙ c.same.inuse;
            opens = t.kept.opens ∙ c.same.opens;
            done = t.kept.done ∙ c.same.done;
          };
          sigma = λ x. rw sigma (omega arith);
        })
  ]

  module _ (g : Graph) (m : ℕ) (s : IsSteady g) (lt : m < num_nblocks) where
    -- A block with a sigma is not free, and so not listed.
    busy-unlisted : 0 < g.sigma m → listed g m ≡ false
    unfolding is_free
    busy-unlisted pos = ground (arith, pos, s.list.free m)

    record Left (h : Graph) : Type 0 where
      list : IsFreeList h
      absent : listed h m ≡ false
      sigma : h.sigma ≡ g.sigma
      sigma_hot : h.sigma_hot ≡ g.sigma_hot
      hot : h.hot ≡ g.hot
      fixed : Fixed g h
      zeros :
          h.num_sigma_zero + to_nat (g.sigma m == 0) ≡ tally_below num_nblocks (λ x. g.sigma x == 0)

    leave_zero-Left : Left (leave_zero interferes g m)
    unfolding leave_zero
    leave_zero-Left = elim (Bool-cases (g.sigma m == 0)) [
      | inr busy ↦ rw busy (record {
        list = s.list;
        absent = busy-unlisted (ground (arith, busy));
        sigma = refl;
        sigma_hot = refl;
        hot = refl;
        fixed = record { inuse = refl; opens = refl; done = refl };
        zeros = ground (arith, busy, s.zeros);
      })
      | inl zero ↦
          let t = delist-Delisted g m s.list in
          let more =
            tally_below-put num_nblocks (λ x. g.sigma x == 0) (λ x. put g.sigma m 1 x == 0) m lt
              (λ j p r. ground (arith, r)) in
          rw zero (record {
            list = IsFreeList-zeros (delist g m) t.list (g.num_sigma_zero - 1);
            absent = t.members m ∙ ground arith;
            sigma = t.kept.sigma;
            sigma_hot = t.kept.sigma_hot;
            hot = t.kept.hot;
            fixed = record { inuse = t.kept.inuse; opens = t.kept.opens; done = t.kept.done };
            zeros = ground (arith, zero, s.zeros, more);
          })
    ]

    -- A round with `delta` 1.
    pub shift_sigma-Raised : Raised g (m ∷ []) (shift_sigma interferes true g m)
    unfolding shift_sigma reach_zero
    shift_sigma-Raised =
        let t = leave_zero-Left in
        let h = leave_zero interferes g m in
        let f = ap (λ s. s m) t.sigma in
        let no_zero : (h.sigma m + 1 == 0) ≡ false = ground arith in
        let at : put h.sigma m (h.sigma m + 1) m ≡ h.sigma m + 1 = ground arith in
        rw (at, no_zero)
          (record {
            steady = record {
              list = IsFreeList-sigma h t.list m t.absent (h.sigma m + 1);
              counts = λ x. rw (t.sigma_hot, t.hot) (s.counts x);
              heated = λ x r.
                  let old : g.hot x ≡ true = rw t.hot at r in
                  rw t.sigma (ground (arith, s.heated x old));
              zeros =
                  let less =
                    tally_below-put num_nblocks (λ x. g.sigma x == 0)
                      (λ x. put g.sigma m (g.sigma m + 1) x == 0) m lt
                      (λ j p r. ground (arith, r)) in
                  rw t.sigma (ground (arith, less, t.zeros));
            };
            fixed = record { inuse = t.fixed.inuse; opens = t.fixed.opens; done = t.fixed.done };
            sigma = λ x. rw t.sigma (ground arith);
          })

    -- A round with `delta` -1.
    pub shift_sigma-Lowered : 0 < g.sigma m → Lowered g (m ∷ []) (shift_sigma interferes false g m)
    unfolding shift_sigma leave_zero
    shift_sigma-Lowered pos =
        let busy : (g.sigma m == 0) ≡ false = ground (arith, pos) in
        let low : Graph = record g { sigma = put g.sigma m (g.sigma m - 1) } in
        let absent = busy-unlisted pos in
        let more =
          tally_below-put num_nblocks (λ x. g.sigma x == 0)
            (λ x. put g.sigma m (g.sigma m - 1) x == 0) m lt (λ j p r. ground (arith, r)) in
        let t = reach_zero-Lowered low m (record {
          list = IsFreeList-sigma g s.list m absent (g.sigma m - 1);
          absent = absent;
          counts = s.counts;
          heated = λ x h r. ground (arith, r, s.heated x h);
          zeros = ground (arith, pos, s.zeros, more);
        }) in
        rw busy (record {
          steady = t.steady;
          fixed = record { inuse = t.fixed.inuse; opens = t.fixed.opens; done = t.fixed.done };
          sigma = λ x. ground (arith, pos, t.sigma x);
        })

  -- The loop with `delta` 1 adds one to the sigma of each block of the list.
  pub shift_sigmas-Raised :
      (l : List ℕ) (g : Graph)
      → Distinct l
      → ((x : ℕ) → mem x l ≡ true → x < num_nblocks)
      → IsSteady g
      → Raised g l (shift_sigmas interferes true g l)
  unfolding shift_sigmas
  shift_sigmas-Raised [] g d lt s = record {
    steady = s;
    fixed = record { inuse = refl; opens = refl; done = refl };
    sigma = λ x. omega arith;
  }
  shift_sigmas-Raised (m ∷ l) g d lt s =
      let a = shift_sigma-Raised g m s (lt m (ground arith)) in
      let b =
        shift_sigmas-Raised l (shift_sigma interferes true g m) d.1
          (λ x h. lt x (ground (arith, h))) a.steady in
      record {
        steady = b.steady;
        fixed = Fixed-trans a.fixed b.fixed;
        sigma = λ x. ground (arith, a.sigma x, b.sigma x, d.0);
      }

  -- The loop with `delta` -1 takes one from each, where there is one to take.
  pub shift_sigmas-Lowered :
      (l : List ℕ) (g : Graph)
      → Distinct l
      → ((x : ℕ) → mem x l ≡ true → (x < num_nblocks) × (0 < g.sigma x))
      → IsSteady g
      → Lowered g l (shift_sigmas interferes false g l)
  unfolding shift_sigmas
  shift_sigmas-Lowered [] g d lt s = record {
    steady = s;
    fixed = record { inuse = refl; opens = refl; done = refl };
    sigma = λ x. omega arith;
  }
  shift_sigmas-Lowered (m ∷ l) g d lt s =
      let at = lt m (ground arith) in
      let a = shift_sigma-Lowered g m s at.0 at.1 in
      let b =
        shift_sigmas-Lowered l (shift_sigma interferes false g m) d.1
          (λ x h. ground (arith, h, lt x, a.sigma x, d.0)) a.steady in
      record {
        steady = b.steady;
        fixed = Fixed-trans a.fixed b.fixed;
        sigma = λ x. ground (arith, a.sigma x, b.sigma x, d.0);
      }
