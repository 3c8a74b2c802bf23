-- ===== src/NblockGraph/Cold.antt =====
-- src/pbnf/nblock_graph.cc: `set_cold` and `wont_release`.
use pbnf.Base.{
  ℕ, ◌+◌, ◌-◌, ◌<◌, ◌≡◌, refl, ap, ◌∙◌, true, false, List, [], ◌∷◌, arith, Bool-cases, inl, inr,
  mem, Distinct, put, to_nat, tally, tally-put,
}
use pbnf.NblockGraph.{Graph, is_free, cool, cool_all, set_cold, cool_hot}
use pbnf.NblockGraph.FreeList.{IsFreeList, listed, Kept, offer-Offered}

-- The interference scopes that an nblock is built with: no block is in its own scope, two blocks
-- are in each other's or in neither, and no block is in a scope twice.
pub record IsScope (interferes : ℕ → List ℕ) : Type 0 where
  pub irrefl : (a : ℕ) → mem a (interferes a) ≡ false
  pub symm : (a b : ℕ) → mem a (interferes b) ≡ mem b (interferes a)
  pub distinct : (a : ℕ) → Distinct (interferes a)

-- What the operations on hot blocks leave alone.
pub record Same (g h : Graph) : Type 0 where
  pub sigma : h.sigma ≡ g.sigma
  pub inuse : h.inuse ≡ g.inuse
  pub opens : h.opens ≡ g.opens
  pub num_sigma_zero : h.num_sigma_zero ≡ g.num_sigma_zero
  pub done : h.done ≡ g.done

pub Same-refl : (g : Graph) → Same g g
Same-refl g = record {
  sigma = refl;
  inuse = refl;
  opens = refl;
  num_sigma_zero = refl;
  done = refl;
}

pub Same-trans : {g h k : Graph} → Same g h → Same h k → Same g k
Same-trans a b = record {
  sigma = b.sigma ∙ a.sigma;
  inuse = b.inuse ∙ a.inuse;
  opens = b.opens ∙ a.opens;
  num_sigma_zero = b.num_sigma_zero ∙ a.num_sigma_zero;
  done = b.done ∙ a.done;
}

pub Kept-Same : {g h : Graph} → Kept g h → Same g h
Kept-Same k = record {
  sigma = k.sigma;
  inuse = k.inuse;
  opens = k.opens;
  num_sigma_zero = k.num_sigma_zero;
  done = k.done;
}

-- The heat of the blocks of `l` has gone down by one.
pub record Cooled (g : Graph) (l : List ℕ) (h : Graph) : Type 0 where
  pub list : IsFreeList h
  pub same : Same g h
  pub hot : h.hot ≡ g.hot
  pub heat : (x : ℕ) → h.sigma_hot x + to_nat (mem x l) ≡ g.sigma_hot x
  pub others : (x : ℕ) → mem x l ≡ false → listed h x ≡ listed g x

cool-Cooled : (g : Graph) (m : ℕ) → IsFreeList g → 0 < g.sigma_hot m → Cooled g (m ∷ []) (cool g m)
unfolding cool is_free
cool-Cooled g m l pos =
    let c : Graph = record g { sigma_hot = put g.sigma_hot m (g.sigma_hot m - 1) } in
    let absent : listed g m ≡ false = hidden (l.free m) in
    let t =
      offer-Offered c m
        (record { valid = l.valid; free = λ x h. ground (arith, h, absent, l.free x h) }) absent in
    record {
      list = t.list;
      same = record {
        sigma = t.kept.sigma;
        inuse = t.kept.inuse;
        opens = t.kept.opens;
        num_sigma_zero = t.kept.num_sigma_zero;
        done = t.kept.done;
      };
      hot = t.kept.hot;
      heat = λ x. rw t.kept.sigma_hot (ground (arith, pos));
      others = λ x h. t.members x ∙ ground (arith, h);
    }
  where
    hidden : (listed g m ≡ true → is_free g m ≡ true) → listed g m ≡ false
    hidden f = ground (arith, pos, f)

pub cool_all-Cooled :
    (l : List ℕ) (g : Graph)
    → Distinct l
    → IsFreeList g
    → ((x : ℕ) → mem x l ≡ true → 0 < g.sigma_hot x)
    → Cooled g l (cool_all g l)
unfolding cool_all
cool_all-Cooled [] g d f pos = record {
  list = f;
  same = Same-refl g;
  hot = refl;
  heat = λ x. omega arith;
  others = λ x h. refl;
}
cool_all-Cooled (m ∷ l) g d f pos =
    let a = cool-Cooled g m f (pos m (ground arith)) in
    let b =
      cool_all-Cooled l (cool g m) d.1 a.list (λ x h. ground (arith, pos x, a.heat x, d.0, h)) in
    record {
      list = b.list;
      same = Same-trans a.same b.same;
      hot = b.hot ∙ a.hot;
      heat = λ x. ground (arith, a.heat x, b.heat x, d.0);
      others = λ x h. ground (arith, a.others x, b.others x, h);
    }

module _ (interferes : ℕ → List ℕ) (scope : IsScope interferes) where
  -- Each block counts the hot blocks that it interferes with, but for what it is still owed.
  abbrev pub CountsHot : (ℕ → ℕ) → Graph → Type 0
  CountsHot owed g = (x : ℕ) → g.sigma_hot x + owed x ≡ tally g.hot (interferes x)

  pub record Chilled (owed : ℕ → ℕ) (g : Graph) (b : ℕ) (h : Graph) : Type 0 where
    pub list : IsFreeList h
    pub same : Same g h
    pub hot : (x : ℕ) → h.hot x ≡ put g.hot b false x
    pub counts : CountsHot owed h
    pub others : (x : ℕ) → mem x (interferes b) ≡ false → listed h x ≡ listed g x

  pub set_cold-Chilled :
      (owed : ℕ → ℕ) (g : Graph) (b : ℕ)
      → IsFreeList g
      → CountsHot owed g
      → g.hot b ≡ true
      → ((x : ℕ) → mem x (interferes b) ≡ true → owed x < tally g.hot (interferes x))
      → Chilled owed g b (set_cold interferes g b)
  unfolding set_cold is_free
  set_cold-Chilled owed g b l c hot paid =
      let start : Graph = record g { hot = put g.hot b false } in
      let t =
        cool_all-Cooled (interferes b) start (scope.distinct b)
          (record { valid = l.valid; free = l.free }) (λ x h. omega (arith, c x, paid x h)) in
      record {
        list = t.list;
        same = record {
          sigma = t.same.sigma;
          inuse = t.same.inuse;
          opens = t.same.opens;
          num_sigma_zero = t.same.num_sigma_zero;
          done = t.same.done;
        };
        hot = λ x. ap (λ f. f x) t.hot;
        counts = λ x. rw t.hot (
            ground (
              arith,
              c x,
              hot,
              t.heat x,
              scope.symm x b,
              tally-put g.hot b false (interferes x) (scope.distinct x),
            ));
        others = t.others;
      }

  pub cool_hot-Chilled :
      (owed : ℕ → ℕ) (g : Graph) (b : ℕ)
      → IsFreeList g
      → CountsHot owed g
      → ((x : ℕ)
          → g.hot b ≡ true
          → mem x (interferes b) ≡ true
          → owed x < tally g.hot (interferes x))
      → Chilled owed g b (cool_hot interferes g b)
  unfolding cool_hot
  cool_hot-Chilled owed g b l c paid = elim (Bool-cases (g.hot b)) [
    | inl hot ↦ rw hot (set_cold-Chilled owed g b l c hot (λ x h. paid x hot h))
    | inr cold ↦ rw cold (record {
      list = l;
      same = Same-refl g;
      hot = λ x. ground (arith, cold);
      counts = c;
      others = λ x h. refl;
    })
  ]
