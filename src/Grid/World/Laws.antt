-- ===== src/Grid/World/Laws.antt =====
-- src/grid/grid_world.cc: the children of a state.
use pbnf.Base.{
  ℕ, ◌+◌, ◌-◌, ◌*◌, ◌%◌, ◌<◌, ◌≡◌, ◌⊎◌, inl, inr, refl, Bool, true, false, not, ◌&&◌, List, [], ◌∷◌,
  ◌++◌, arith, ltb, if◌then◌else◌, Bool-cases,
}
use pbnf.Grid.World.{
  u64, fp_one, fp_sqrt2, GridWorld, GridState, is_obstacle, child, expand4, expand8, expand,
}

pub All : (GridState → Type 0) → List GridState → Type 0
All p [] = Unit
All p (r ∷ l) = p r × All p l

All-append : (p : GridState → Type 0) (a b : List GridState) → All p a → All p b → All p (a ++ b)
unfolding All
All-append p [] b u v = v
All-append p (r ∷ a) b u v = (u.0, All-append p a b u.1 v)

All-if :
    (p : GridState → Type 0) (b : Bool) (l m : List GridState)
    → (b ≡ true → All p l)
    → (b ≡ false → All p m)
    → All p (if b then l else m)
All-if p true l m f g = f refl
All-if p false l m f g = g refl

-- The cost of a step from row `y`, along a side of the cell or over a corner.
unfoldable pub step_cost : GridWorld → Bool → ℕ → ℕ
step_cost w over y =
    let one = if over then fp_sqrt2 else fp_one in if w.unit then one else y * one % u64

-- `r` stands free in the world, one step from `s`, along a side or, in a world of eight-way moves,
-- over a corner.
pub record IsMove (w : GridWorld) (s r : GridState) : Type 0 where
  pub over : Bool
  pub way : w.four ≡ true → over ≡ false
  pub x_in : r.x < w.width
  pub y_in : r.y < w.height
  pub open_cell : is_obstacle w r.x r.y ≡ false
  pub x_step : (r.x ≡ s.x) ⊎ ((r.x + 1 ≡ s.x) ⊎ (r.x ≡ s.x + 1))
  pub y_step : (r.y ≡ s.y) ⊎ ((r.y + 1 ≡ s.y) ⊎ (r.y ≡ s.y + 1))
  pub turn : (over ≡ true) ⊎ ((r.x ≡ s.x) ⊎ (r.y ≡ s.y))
  pub cost : r.c ≡ step_cost w over s.y
  pub path : r.g ≡ (s.g + step_cost w over s.y) % u64

module _ (w : GridWorld) (s : GridState) where
  All-child :
      (p : GridState → Type 0) (cost x y : ℕ) (test : Bool)
      → (test ≡ true
          → is_obstacle w x y ≡ false
          → p (record { x = x; y = y; c = cost; g = (s.g + cost) % u64 }))
      → All p (child w s cost test x y)
  unfolding child All
  All-child p cost x y test h = elim (Bool-cases (test && not (is_obstacle w x y))) [
    | inl free ↦ rw free (h (ground (arith, free)) (ground (arith, free)), tt)
    | inr blocked ↦ rw blocked tt
  ]

  module _ (lx : s.x < w.width) (ly : s.y < w.height) where
    side :
        (x y : ℕ) (test : Bool)
        → (test ≡ true → (x < w.width) × (y < w.height))
        → (test ≡ true → ((x ≡ s.x) ⊎ ((x + 1 ≡ s.x) ⊎ (x ≡ s.x + 1))))
        → (test ≡ true → ((y ≡ s.y) ⊎ ((y + 1 ≡ s.y) ⊎ (y ≡ s.y + 1))))
        → ((x ≡ s.x) ⊎ (y ≡ s.y))
        → All (IsMove w s) (child w s (step_cost w false s.y) test x y)
    side x y test inside xs ys t =
        All-child (IsMove w s) (step_cost w false s.y) x y test (λ h free. record {
          over = false;
          way = λ e. refl;
          x_in = (inside h).0;
          y_in = (inside h).1;
          open_cell = free;
          x_step = xs h;
          y_step = ys h;
          turn = inr t;
          cost = refl;
          path = refl;
        })

    corner :
        (x y : ℕ) (test : Bool)
        → w.four ≡ false
        → (test ≡ true → (x < w.width) × (y < w.height))
        → (test ≡ true → ((x ≡ s.x) ⊎ ((x + 1 ≡ s.x) ⊎ (x ≡ s.x + 1))))
        → (test ≡ true → ((y ≡ s.y) ⊎ ((y + 1 ≡ s.y) ⊎ (y ≡ s.y + 1))))
        → All (IsMove w s) (child w s (step_cost w true s.y) test x y)
    corner x y test eight inside xs ys =
        All-child (IsMove w s) (step_cost w true s.y) x y test (λ h free. record {
          over = true;
          way = λ e. ground (arith, e, eight);
          x_in = (inside h).0;
          y_in = (inside h).1;
          open_cell = free;
          x_step = xs h;
          y_step = ys h;
          turn = inl refl;
          cost = refl;
          path = refl;
        })

    expand4-IsMove : All (IsMove w s) (expand4 w s)
    unfolding expand4 step_cost
    expand4-IsMove =
        All-append (IsMove w s) _ _
          (All-append (IsMove w s) _ _
            (All-append (IsMove w s) _ _
              (side (s.x - 1) s.y (ltb 0 s.x) (λ h. ground (arith, h, lx, ly))
                (λ h. inr (inl (ground (arith, h)))) (λ h. inl refl) (inr refl))
              (side (s.x + 1) s.y (ltb s.x (w.width - 1)) (λ h. ground (arith, h, lx, ly))
                (λ h. inr (inr refl)) (λ h. inl refl) (inr refl)))
            (side s.x (s.y - 1) (ltb 0 s.y) (λ h. ground (arith, h, lx, ly)) (λ h. inl refl)
              (λ h. inr (inl (ground (arith, h)))) (inl refl)))
          (side s.x (s.y + 1) (ltb s.y (w.height - 1)) (λ h. ground (arith, h, lx, ly))
            (λ h. inl refl) (λ h. inr (inr refl)) (inl refl))

    expand8-IsMove : w.four ≡ false → All (IsMove w s) (expand8 w s)
    unfolding expand8 step_cost
    expand8-IsMove eight =
        All-append (IsMove w s) _ _
          (All-append (IsMove w s) _ _
            (All-append (IsMove w s) _ _
              (All-append (IsMove w s) _ _ expand4-IsMove (
                corner (s.x - 1) (s.y - 1) (ltb 0 s.x && ltb 0 s.y) eight
                  (λ h. ground (arith, h, lx, ly)) (λ h. inr (inl (ground (arith, h))))
                  (λ h. inr (inl (ground (arith, h))))))
              (corner (s.x + 1) (s.y - 1) (ltb s.x (w.width - 1) && ltb 0 s.y) eight
                (λ h. ground (arith, h, lx, ly)) (λ h. inr (inr refl))
                (λ h. inr (inl (ground (arith, h))))))
            (corner (s.x + 1) (s.y + 1) (ltb s.x (w.width - 1) && ltb s.y (w.height - 1)) eight
              (λ h. ground (arith, h, lx, ly)) (λ h. inr (inr refl)) (λ h. inr (inr refl))))
          (corner (s.x - 1) (s.y + 1) (ltb 0 s.x && ltb s.y (w.height - 1)) eight
            (λ h. ground (arith, h, lx, ly)) (λ h. inr (inl (ground (arith, h))))
            (λ h. inr (inr refl)))

    -- Each child stands on a free cell one step away, reached at the cost of that step.
    pub expand-IsMove : All (IsMove w s) (expand w s)
    unfolding expand
    expand-IsMove = All-if (IsMove w s) w.four _ _ (λ four. expand4-IsMove) expand8-IsMove

-- What follows for each from a property of all.
pub All-map :
    (p q : GridState → Type 0) (l : List GridState)
    → ((r : GridState) → p r → q r)
    → All p l
    → All q l
unfolding All
All-map p q [] h a = tt
All-map p q (r ∷ l) h a = (h r a.0, All-map p q l h a.1)
