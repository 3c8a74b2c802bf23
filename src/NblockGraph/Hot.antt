-- ===== src/NblockGraph/Hot.antt =====
-- src/pbnf/nblock_graph.cc: `set_hot` and `wont_release`.
use pbnf.Base.{
  ℕ, ◌+◌, ◌<◌, ◌≤◌, ◌≡◌, ◌≢◌, if◌then◌else◌, ltb, ◌⊎◌, refl, ap, ◌∙◌, true, false, ◌&&◌, not, List,
  [], ◌∷◌, arith, Bool-cases, inl, inr, ◌==◌, mem, Distinct, put, to_nat, tally, tally-put,
  tally-pos, tally-none, tally-two,
}
use pbnf.NblockGraph.{
  Graph, best_value, delist, cool_hot, rival, heat, heat_all, set_hot, cool_hot_all, wont_release,
}
use pbnf.NblockGraph.FreeList.{
  IsFreeList, listed, delist-Delisted, IsFreeList-hot, IsFreeList-sigma_hot,
}
use pbnf.NblockGraph.Cold.{
  IsScope, CountsHot, Same, Same-refl, Same-trans, Kept-Same, cool_hot-Chilled,
}
use pbnf.NblockGraph.Claim.{IsConsistent}

module _ (interferes : ℕ → List ℕ) (scope : IsScope interferes) where
  -- The hot blocks are counted again, the blocks of `l` are cold, and all others as they were.
  record Heated (g : Graph) (l : List ℕ) (h : Graph) : Type 0 where
    list : IsFreeList h
    same : Same g h
    counts : CountsHot interferes scope (λ x. 0) h
    hot : (x : ℕ) → h.hot x ≡ (if mem x l then false else g.hot x)

  -- The blocks of `l` are still to count the hot block `b`.
  abbrev owing : List ℕ → ℕ → ℕ
  owing l x = to_nat (mem x l)

  record Round (g : Graph) (m : ℕ) (l : List ℕ) (h : Graph) : Type 0 where
    list : IsFreeList h
    same : Same g h
    counts : CountsHot interferes scope (owing l) h
    hot : (x : ℕ) → h.hot x ≡ put g.hot m false x

  heat-Round :
      (b : ℕ) (g : Graph) (m : ℕ) (l : List ℕ)
      → mem m l ≡ false
      → ((x : ℕ) → mem x (m ∷ l) ≡ true → mem x (interferes b) ≡ true)
      → g.hot b ≡ true
      → IsFreeList g
      → CountsHot interferes scope (owing (m ∷ l)) g
      → Round g m l (heat interferes g m)
  unfolding heat
  heat-Round b g m l d sub hot f c =
      let t = delist-Delisted g m f in
      let other : m ≢ b = distinct (sub m (ground arith)) in
      let w =
        cool_hot-Chilled interferes scope (owing (m ∷ l)) (delist g m) m t.list
          (λ x. rw (t.kept.sigma_hot, t.kept.hot) (c x))
          (λ x warm h. rw t.kept.hot (paid x other (rw t.kept.hot at warm) h)) in
      let h = cool_hot interferes (delist g m) m in
      let absent : listed h m ≡ false = w.others m (scope.irrefl m) ∙ t.members m ∙ ground arith in
      record {
        list = IsFreeList-sigma_hot h w.list m absent (h.sigma_hot m + 1);
        same = settled (Same-trans (Kept-Same t.kept) w.same);
        counts = λ x. ground (arith, d, w.counts x);
        hot = λ x. w.hot x ∙ ap (λ f. put f m false x) t.kept.hot;
      }
    where
      distinct : mem m (interferes b) ≡ true → m ≢ b
      distinct h = ground (arith, h, scope.irrefl b)

      paid :
          (x : ℕ)
          → m ≢ b
          → g.hot m ≡ true
          → mem x (interferes m) ≡ true
          → owing (m ∷ l) x < tally g.hot (interferes x)
      paid x ne warm h = ground (
        arith,
        ne,
        warm,
        hot,
        h,
        sub x,
        scope.symm m x,
        scope.symm b x,
        tally-pos g.hot m (interferes x),
        tally-two g.hot m b (interferes x) ne,
      )

      settled : Same g (cool_hot interferes (delist g m) m) → Same g (heat interferes g m)
      settled s = record {
        sigma = s.sigma;
        inuse = s.inuse;
        opens = s.opens;
        num_sigma_zero = s.num_sigma_zero;
        done = s.done;
      }

  heat_all-Heated :
      (b : ℕ) (l : List ℕ) (g : Graph)
      → Distinct l
      → ((x : ℕ) → mem x l ≡ true → mem x (interferes b) ≡ true)
      → g.hot b ≡ true
      → IsFreeList g
      → CountsHot interferes scope (owing l) g
      → Heated g l (heat_all interferes g l)
  unfolding heat_all
  heat_all-Heated b [] g d sub hot f c = record {
    list = f;
    same = Same-refl g;
    counts = c;
    hot = λ x. refl;
  }
  heat_all-Heated b (m ∷ l) g d sub hot f c =
      let r = heat-Round b g m l d.0 sub hot f c in
      let still : (heat interferes g m).hot b ≡ true =
        r.hot b ∙ ground (arith, hot, sub m, scope.irrefl b) in
      let t =
        heat_all-Heated b l (heat interferes g m) d.1 (λ x h. sub x (ground (arith, h))) still
          r.list r.counts in
      record {
        list = t.list;
        same = Same-trans r.same t.same;
        counts = t.counts;
        hot = λ x. ground (arith, t.hot x, r.hot x);
      }

  cool_hot_all-Heated :
      (l : List ℕ) (g : Graph)
      → IsFreeList g
      → CountsHot interferes scope (λ x. 0) g
      → Heated g l (cool_hot_all interferes g l)
  unfolding cool_hot_all
  cool_hot_all-Heated [] g f c = record {
    list = f;
    same = Same-refl g;
    counts = c;
    hot = λ x. refl;
  }
  cool_hot_all-Heated (m ∷ l) g f c =
      let r =
        cool_hot-Chilled interferes scope (λ x. 0) g m f c
          (λ x warm h. tally-pos g.hot m (interferes x) (scope.symm m x ∙ h) warm) in
      let t = cool_hot_all-Heated l (cool_hot interferes g m) r.list r.counts in
      record {
        list = t.list;
        same = Same-trans r.same t.same;
        counts = t.counts;
        hot = λ x. ground (arith, t.hot x, r.hot x);
      }

  -- A block that is not hot, has a sigma, and has no hot block in its scope that is better than
  -- `val`.
  abbrev pub IsWanted : Graph → ℕ → ℕ → Type 0
  IsWanted g b val =
      (g.hot b ≡ false)
      × (0 < g.sigma b)
      × ((x : ℕ) → mem x (interferes b) ≡ true → g.hot x ≡ true → val ≤ best_value g x)

  -- In `h` no block of the scope of `b` is hot, and `b` and the blocks outside are as in `g`.
  abbrev pub CoolsScope : Graph → ℕ → Graph → Type 0
  CoolsScope g b h = (x : ℕ) → h.hot x ≡ (if mem x (interferes b) then false else g.hot x)

  -- What `set_hot` does with `b` in the two cases.
  abbrev pub HeatsBlock : Graph → ℕ → ℕ → Graph → Type 0
  HeatsBlock g b val h =
      (IsWanted g b val
        × ((x : ℕ)
            → h.hot x ≡ (if b == x then true else if mem x (interferes b) then false else g.hot x)))
      ⊎ ((¬ IsWanted g b val) × (h ≡ g))

  rival-false :
      (g : Graph) (val x : ℕ) (l : List ℕ)
      → rival interferes g val l ≡ false
      → mem x l ≡ true
      → g.hot x ≡ true
      → val ≤ best_value g x
  unfolding rival
  rival-false g val x [] r h hot = cc
  rival-false g val x (m ∷ l) r h hot = elim (Bool-cases (m == x)) [
    | inl same ↦ let e : m ≡ x = ground (arith, same) in ground (arith, rw e at r, hot)
    | inr other ↦ rival-false g val x l (ground (arith, r)) (ground (arith, h, other)) hot
  ]

  rival-true :
      (g : Graph) (val : ℕ) (l : List ℕ)
      → rival interferes g val l ≡ true
      → (x : ℕ) × (mem x l ≡ true) × (g.hot x ≡ true) × (best_value g x < val)
  unfolding rival
  rival-true g val [] r = cc
  rival-true g val (m ∷ l) r = elim (Bool-cases (g.hot m && ltb (best_value g m) val)) [
    | inl here ↦ (m, ground arith, ground (arith, here), ground (arith, here))
    | inr there ↦
        let (x, h, hot, less) = rival-true g val l (ground (arith, r, there)) in
        (x, ground (arith, h), hot, less)
  ]

  module _ (num_nblocks : ℕ)
      (inside : (a b : ℕ) → mem a (interferes b) ≡ true → a < num_nblocks) where
    abbrev IsGood : Graph → Type 0
    IsGood = IsConsistent interferes scope num_nblocks inside

    Heated-IsGood : (g : Graph) (l : List ℕ) (h : Graph) → IsGood g → Heated g l h → IsGood h
    Heated-IsGood g l h c t = record {
      steady = record {
        list = t.list;
        counts = t.counts;
        heated = λ x w. rw t.same.sigma (c.steady.heated x (ground (arith, t.hot x, w)));
        zeros = rw (t.same.sigma, t.same.num_sigma_zero) c.steady.zeros;
      };
      sigmas = λ x. rw (t.same.sigma, t.same.inuse) (c.sigmas x);
      running = λ x u. rw t.same.sigma (c.running x (rw t.same.inuse at u));
    }

    -- `wont_release` keeps the graph consistent, with every sigma and every block in use as it was.
    -- Afterwards no block of the scope is hot, so that the block has no hot sigma, and every other
    -- block is hot if it was. Where the block had no hot sigma, nothing changes.
    pub wont_release_correct :
        (g : Graph) (b : ℕ)
        → IsGood g
        → (let h = wont_release interferes g b in
            IsGood h
            × Same g h
            × CoolsScope g b h
            × (h.sigma_hot b ≡ 0)
            × ((0 < g.sigma_hot b) ⊎ (h ≡ g)))
    unfolding wont_release
    wont_release_correct g b c =
        let t = cool_hot_all-Heated (interferes b) g c.steady.list c.steady.counts in
        let counted = c.steady.counts b in
        let none_hot : g.sigma_hot b ≡ 0 → CoolsScope g b g =
          λ cold x. ground (arith, cold, counted, tally-pos g.hot x (interferes b)) in
        elim (Bool-cases (g.sigma_hot b == 0)) [
          | inl cold ↦
              let zero_hot : g.sigma_hot b ≡ 0 = ground (arith, cold) in
              rw cold (c, Same-refl g, none_hot zero_hot, zero_hot, inr refl)
          | inr warm ↦
              let quiet =
                tally-none (cool_hot_all interferes g (interferes b)).hot (interferes b)
                  (λ x h. ground (arith, h, t.hot x)) in
              rw warm (
                Heated-IsGood g (interferes b) _ c t,
                t.same,
                t.hot,
                omega (arith, t.counts b, quiet),
                inl (ground (arith, warm)),
              )
        ]

    -- `set_hot` keeps the graph consistent, with every sigma and every block in use as it was. If
    -- the block is not hot, has a sigma and has no hot block in its scope that is better than the
    -- value given, exactly it becomes hot and every block of its scope is cold then, with every
    -- other block as it was; if not, nothing changes.
    pub set_hot_correct :
        (g : Graph) (b val : ℕ)
        → IsGood g
        → (let h = set_hot interferes g b val in IsGood h × Same g h × HeatsBlock g b val h)
    unfolding set_hot
    set_hot_correct g b val c = elim (Bool-cases (not (g.hot b) && ltb 0 (g.sigma b))) [
      | inr no_need ↦
          rw no_need (c, Same-refl g, inr (λ w. ground (arith, no_need, w.0, w.1), refl))
      | inl need ↦ elim (Bool-cases (rival interferes g val (interferes b))) [
        | inl beaten ↦
            let (x, h, hot, less) = rival-true g val (interferes b) beaten in
            rw (need, beaten) (c, Same-refl g, inr (λ w. omega (arith, w.2 x h hot, less), refl))
        | inr best ↦
            let cold : g.hot b ≡ false = ground (arith, need) in
            let busy : 0 < g.sigma b = ground (arith, need) in
            let start : Graph = record g { hot = put g.hot b true } in
            let t =
              heat_all-Heated b (interferes b) start (scope.distinct b) (λ x h. h) (ground arith)
                (IsFreeList-hot g c.steady.list (put g.hot b true))
                (λ x. ground (
                  arith,
                  cold,
                  c.steady.counts x,
                  scope.symm x b,
                  tally-put g.hot b true (interferes x) (scope.distinct x),
                )) in
            let same : Same g (heat_all interferes start (interferes b)) = record {
              sigma = t.same.sigma;
              inuse = t.same.inuse;
              opens = t.same.opens;
              num_sigma_zero = t.same.num_sigma_zero;
              done = t.same.done;
            } in
            rw (need, best)
              (
                record {
                  steady = record {
                    list = t.list;
                    counts = t.counts;
                    heated = λ x w.
                        rw t.same.sigma (ground (arith, busy, t.hot x, w, c.steady.heated x));
                    zeros = rw (t.same.sigma, t.same.num_sigma_zero) c.steady.zeros;
                  };
                  sigmas = λ x. rw (t.same.sigma, t.same.inuse) (c.sigmas x);
                  running = λ x u. rw t.same.sigma (c.running x (rw t.same.inuse at u));
                },
                same,
                inl (
                  (cold, busy, λ x h hot. rival-false g val x (interferes b) best h hot),
                  λ x. ground (arith, t.hot x, scope.irrefl b),
                ),
              )
      ]
    ]
