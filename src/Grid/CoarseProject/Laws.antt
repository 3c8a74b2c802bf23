-- ===== src/Grid/CoarseProject/Laws.antt =====
-- src/grid/grid_world.cc: `CoarseProject` gives the graph that src/projection.h asks for, and when
-- the blocks of the states are among those of the graph.
use pbnf.Base.{
  ℕ, ◌+◌, ◌-◌, ◌*◌, ◌/◌, ◌%◌, ◌<◌, ◌≡◌, ◌⊎◌, inl, inr, ap, refl, sym, ◌∙◌, Bool, true, false, ◌&&◌,
  ◌||◌, List, [], ◌∷◌, ◌++◌, arith, ltb, ◌==◌, if◌then◌else◌, mem, Bool-cases,
}
use pbnf.NblockGraph.Scope.{IsProjection}
use pbnf.Tiles.Cells.{lt_parts, right_parts}
use pbnf.Grid.CoarseProject.{
  Coarse, get_id, get_num_nblocks, push, get_neighbors, get_successors, get_predecessors,
  projection,
}

mem-append : (x : ℕ) (a b : List ℕ) → mem x (a ++ b) ≡ (mem x a || mem x b)
mem-append x [] b = refl
mem-append x (y ∷ a) b = ground (arith, mem-append x a b)

parts : (w a x y : ℕ) → x < w → (y * w + x == a) ≡ (a % w == x && a / w == y)
parts w a x y lt = elim (Bool-cases (y * w + x == a)) [
  | inl e ↦
      let f : a ≡ y * w + x = ground (arith, e) in
      let c : a % w ≡ x = grind arith in
      let r : a / w ≡ y = grind arith in rw e (ground (arith, c, r))
  | inr ne ↦ elim (Bool-cases (a % w == x && a / w == y)) [
    | inr out ↦ rw (ne, out) refl
    | inl both ↦
        let c : a % w ≡ x = ground (arith, both) in
        let r : a / w ≡ y = ground (arith, both) in
        let f : y * w + x ≡ a = grind arith in absurd (ground (arith, f, ne))
  ]
]

module _ (p : Coarse) where
  mem-push :
      (a x y : ℕ) (test : Bool)
      → (test ≡ true → x < p.cols)
      → mem a (push p test x y) ≡ (test && (a % p.cols == x && a / p.cols == y))
  unfolding push get_id
  mem-push a x y true h = ground (arith, parts p.cols a x y (h refl))
  mem-push a x y false h = refl

  left : ℕ → ℕ → ℕ → ℕ → Bool
  left x y ax ay = (ltb 0 x) && (ax == x - 1 && ay == y)

  right : ℕ → ℕ → ℕ → ℕ → Bool
  right x y ax ay = (ltb x (p.cols - 1)) && (ax == x + 1 && ay == y)

  up : ℕ → ℕ → ℕ → ℕ → Bool
  up x y ax ay = (ltb 0 y) && (ax == x && ay == y - 1)

  down : ℕ → ℕ → ℕ → ℕ → Bool
  down x y ax ay = (ltb y (p.rows - 1)) && (ax == x && ay == y + 1)

  left_up : ℕ → ℕ → ℕ → ℕ → Bool
  left_up x y ax ay = (ltb 0 x && ltb 0 y) && (ax == x - 1 && ay == y - 1)

  right_up : ℕ → ℕ → ℕ → ℕ → Bool
  right_up x y ax ay = (ltb x (p.cols - 1) && ltb 0 y) && (ax == x + 1 && ay == y - 1)

  right_down : ℕ → ℕ → ℕ → ℕ → Bool
  right_down x y ax ay = (ltb x (p.cols - 1) && ltb y (p.rows - 1)) && (ax == x + 1 && ay == y + 1)

  left_down : ℕ → ℕ → ℕ → ℕ → Bool
  left_down x y ax ay = (ltb 0 x && ltb y (p.rows - 1)) && (ax == x - 1 && ay == y + 1)

  straight : ℕ → ℕ → ℕ → ℕ → Bool
  straight x y ax ay = left x y ax ay || right x y ax ay || up x y ax ay || down x y ax ay

  diagonal : ℕ → ℕ → ℕ → ℕ → Bool
  diagonal x y ax ay =
      left_up x y ax ay || right_up x y ax ay || right_down x y ax ay || left_down x y ax ay

  -- Whether the code goes from (x, y) to (ax, ay).
  pub near : ℕ → ℕ → ℕ → ℕ → Bool
  near x y ax ay = straight x y ax ay || (if p.four then false else diagonal x y ax ay)

  mem-left :
      (a x y : ℕ)
      → x < p.cols
      → mem a (push p (ltb 0 x) (x - 1) y) ≡ left x y (a % p.cols) (a / p.cols)
  unfolding left
  mem-left a x y narrow = mem-push a (x - 1) y (ltb 0 x) (λ h. ground (arith, h, narrow))

  mem-right :
      (a x y : ℕ)
      → x < p.cols
      → mem a (push p (ltb x (p.cols - 1)) (x + 1) y) ≡ right x y (a % p.cols) (a / p.cols)
  unfolding right
  mem-right a x y narrow =
      mem-push a (x + 1) y (ltb x (p.cols - 1)) (λ h. ground (arith, h, narrow))

  mem-up :
      (a x y : ℕ)
      → x < p.cols
      → mem a (push p (ltb 0 y) x (y - 1)) ≡ up x y (a % p.cols) (a / p.cols)
  unfolding up
  mem-up a x y narrow = mem-push a x (y - 1) (ltb 0 y) (λ h. ground (arith, h, narrow))

  mem-down :
      (a x y : ℕ)
      → x < p.cols
      → mem a (push p (ltb y (p.rows - 1)) x (y + 1)) ≡ down x y (a % p.cols) (a / p.cols)
  unfolding down
  mem-down a x y narrow = mem-push a x (y + 1) (ltb y (p.rows - 1)) (λ h. ground (arith, h, narrow))

  mem-left_up :
      (a x y : ℕ)
      → x < p.cols
      → mem a (push p (ltb 0 x && ltb 0 y) (x - 1) (y - 1)) ≡ left_up x y (a % p.cols) (a / p.cols)
  unfolding left_up
  mem-left_up a x y narrow =
      mem-push a (x - 1) (y - 1) (ltb 0 x && ltb 0 y) (λ h. ground (arith, h, narrow))

  mem-right_up :
      (a x y : ℕ)
      → x < p.cols
      → mem a (push p (ltb x (p.cols - 1) && ltb 0 y) (x + 1) (y - 1))
        ≡ right_up x y (a % p.cols) (a / p.cols)
  unfolding right_up
  mem-right_up a x y narrow =
      mem-push a (x + 1) (y - 1) (ltb x (p.cols - 1) && ltb 0 y) (λ h. ground (arith, h, narrow))

  mem-right_down :
      (a x y : ℕ)
      → x < p.cols
      → mem a (push p (ltb x (p.cols - 1) && ltb y (p.rows - 1)) (x + 1) (y + 1))
        ≡ right_down x y (a % p.cols) (a / p.cols)
  unfolding right_down
  mem-right_down a x y narrow =
      mem-push a (x + 1) (y + 1) (ltb x (p.cols - 1) && ltb y (p.rows - 1))
        (λ h. ground (arith, h, narrow))

  mem-left_down :
      (a x y : ℕ)
      → x < p.cols
      → mem a (push p (ltb 0 x && ltb y (p.rows - 1)) (x - 1) (y + 1))
        ≡ left_down x y (a % p.cols) (a / p.cols)
  unfolding left_down
  mem-left_down a x y narrow =
      mem-push a (x - 1) (y + 1) (ltb 0 x && ltb y (p.rows - 1)) (λ h. ground (arith, h, narrow))

  pub mem-get_neighbors :
      (a b : ℕ)
      → 0 < p.cols
      → mem a (get_neighbors p b) ≡ near (b % p.cols) (b / p.cols) (a % p.cols) (a / p.cols)
  unfolding get_neighbors near straight diagonal left right up down left_up right_up right_down
      left_down
  mem-get_neighbors a b pos =
      let x = b % p.cols in
      let y = b / p.cols in
      let narrow : b % p.cols < p.cols = grind arith in
      elim (Bool-cases p.four) [
        | inl four ↦ rw four (
            simp (
              mem-append,
              mem-left a x y narrow,
              mem-right a x y narrow,
              mem-up a x y narrow,
              mem-down a x y narrow,
            ))
        | inr eight ↦ rw eight (
            simp (
              mem-append,
              mem-left a x y narrow,
              mem-right a x y narrow,
              mem-up a x y narrow,
              mem-down a x y narrow,
              mem-left_up a x y narrow,
              mem-right_up a x y narrow,
              mem-right_down a x y narrow,
              mem-left_down a x y narrow,
            ))
      ]

  left_back :
      (x y ax ay : ℕ)
      → x < p.cols
      → y < p.rows
      → ax < p.cols
      → ay < p.rows
      → left x y ax ay ≡ right ax ay x y
  unfolding left right
  left_back x y ax ay lx ly la lb = ground arith

  up_back :
      (x y ax ay : ℕ)
      → x < p.cols
      → y < p.rows
      → ax < p.cols
      → ay < p.rows
      → up x y ax ay ≡ down ax ay x y
  unfolding up down
  up_back x y ax ay lx ly la lb = ground arith

  left_up_back :
      (x y ax ay : ℕ)
      → x < p.cols
      → y < p.rows
      → ax < p.cols
      → ay < p.rows
      → left_up x y ax ay ≡ right_down ax ay x y
  unfolding left_up right_down
  left_up_back x y ax ay lx ly la lb = ground arith

  right_up_back :
      (x y ax ay : ℕ)
      → x < p.cols
      → y < p.rows
      → ax < p.cols
      → ay < p.rows
      → right_up x y ax ay ≡ left_down ax ay x y
  unfolding right_up left_down
  right_up_back x y ax ay lx ly la lb = ground arith

  near_symm :
      (x y ax ay : ℕ)
      → x < p.cols
      → y < p.rows
      → ax < p.cols
      → ay < p.rows
      → near x y ax ay ≡ near ax ay x y
  unfolding near straight diagonal
  near_symm x y ax ay lx ly la lb = ground (
    arith,
    left_back x y ax ay lx ly la lb,
    left_back ax ay x y la lb lx ly,
    up_back x y ax ay lx ly la lb,
    up_back ax ay x y la lb lx ly,
    left_up_back x y ax ay lx ly la lb,
    left_up_back ax ay x y la lb lx ly,
    right_up_back x y ax ay lx ly la lb,
    right_up_back ax ay x y la lb lx ly,
  )

  near-lt : (x y ax ay : ℕ) → y < p.rows → near x y ax ay ≡ true → ay < p.rows
  unfolding near straight diagonal left right up down left_up right_up right_down left_down
  near-lt x y ax ay ly h = ground (arith, h)

  abbrev num : ℕ
  num = p.rows * p.cols

  cell-lt : (b : ℕ) → b < num → (0 < p.cols) × (b % p.cols < p.cols) × (b / p.cols < p.rows)
  cell-lt b lt =
      let pos : 0 < p.cols = elim (Bool-cases (ltb 0 p.cols)) [
        | inl more ↦ ground (arith, more)
        | inr empty ↦
            let e : p.cols ≡ 0 = ground (arith, empty) in absurd (omega (arith, rw e at lt))
      ] in
      let e : p.rows * p.cols ≡ p.cols * p.rows = omega arith in
      (pos, grind arith, (lt_parts p.cols p.rows b pos).1 (rw e at lt))

  pub lt-cell : (b : ℕ) → 0 < p.cols → b / p.cols < p.rows → b < num
  lt-cell b pos lt =
      let e : p.rows * p.cols ≡ p.cols * p.rows = omega arith in
      rw e ((lt_parts p.cols p.rows b pos).0 lt)

  edge :
      (a b : ℕ)
      → b < num
      → mem a (get_neighbors p b) ≡ true
      → (a < num) × (mem b (get_neighbors p a) ≡ true)
  edge a b lt h =
      let (pos, bx, by) = cell-lt b lt in
      let there = rw (mem-get_neighbors a b pos) at h in
      let ay = near-lt (b % p.cols) (b / p.cols) (a % p.cols) (a / p.cols) by there in
      let ax : a % p.cols < p.cols = grind arith in
      (
        lt-cell a pos ay,
        mem-get_neighbors b a pos
            ∙ near_symm (a % p.cols) (a / p.cols) (b % p.cols) (b / p.cols) ax ay bx by
            ∙ there,
      )

  pub coarse-IsProjection : IsProjection (projection p)
  unfolding projection get_num_nblocks get_successors get_predecessors
  coarse-IsProjection = record {
    inverse = λ a b. elim (Bool-cases (ltb b num)) [
      | inr out ↦ elim (Bool-cases (ltb a num)) [
        | inr far ↦ rw (out, far) refl
        | inl there ↦ rw (out, there) (ground (arith, out, there, edge b a (ground (arith, there))))
      ]
      | inl here ↦ elim (Bool-cases (ltb a num)) [
        | inr far ↦ rw (here, far) (ground (arith, far, here, edge a b (ground (arith, here))))
        | inl there ↦
            rw (here, there)
              (ground (arith, edge a b (ground (arith, here)), edge b a (ground (arith, there))))
      ]
    ];
    range = λ a b h. elim (Bool-cases (ltb b num)) [
      | inr out ↦ let g = rw out at h in absurd (cc)
      | inl here ↦ let lt : b < num = ground (arith, here) in ((edge a b lt (rw here at h)).0, lt)
    ];
  }

pub id-parts : (w x y : ℕ) → x < w → ((y * w + x) % w ≡ x) × ((y * w + x) / w ≡ y)
id-parts w x y lt =
    let here : (y * w + x == y * w + x) ≡ true = ground arith in
    let e = parts w (y * w + x) x y lt in (ground (arith, e, here), ground (arith, e, here))

-- One step in the world is at most one step in the coarse grid.
pub div-step :
    (k x y : ℕ)
    → 0 < k
    → ((y ≡ x) ⊎ ((y + 1 ≡ x) ⊎ (y ≡ x + 1)))
    → (y / k ≡ x / k) ⊎ ((y / k + 1 ≡ x / k) ⊎ (y / k ≡ x / k + 1))
div-step k x y pos (inl e) = inl (ap (λ z. z / k) e)
div-step k x y pos (inr (inl e)) = elim (Bool-cases (y % k + 1 == k)) [
  | inl wrap ↦
      let f : y % k + 1 ≡ k = ground (arith, wrap) in inr (inl (rw (sym e) (grind (arith, f))))
  | inr flat ↦
      let low : y % k < k = grind arith in
      inl (rw (sym e) (sym (right_parts k y pos (ground (arith, flat, low))).0))
]
div-step k x y pos (inr (inr e)) = elim (Bool-cases (x % k + 1 == k)) [
  | inl wrap ↦ let f : x % k + 1 ≡ k = ground (arith, wrap) in inr (inr (rw e (grind (arith, f))))
  | inr flat ↦
      let low : x % k < k = grind arith in
      inl (rw e (right_parts k x pos (ground (arith, flat, low))).0)
]

module _ (p : Coarse) where
  pub touching :
      (x y ax ay : ℕ)
      → x < p.cols
      → y < p.rows
      → ax < p.cols
      → ay < p.rows
      → ((ax ≡ x) ⊎ ((ax + 1 ≡ x) ⊎ (ax ≡ x + 1)))
      → ((ay ≡ y) ⊎ ((ay + 1 ≡ y) ⊎ (ay ≡ y + 1)))
      → (p.four ≡ true → (ax ≡ x) ⊎ (ay ≡ y))
      → ((ax ≡ x) × (ay ≡ y)) ⊎ (near p x y ax ay ≡ true)
  unfolding near straight diagonal left right up down left_up right_up right_down left_down
  touching x y ax ay lx ly la lb (inl e) (inl f) turn = inl (e, f)
  touching x y ax ay lx ly la lb (inl e) (inr (inl f)) turn = inr (ground (arith, e, f))
  touching x y ax ay lx ly la lb (inl e) (inr (inr f)) turn = inr (ground (arith, e, f, lb))
  touching x y ax ay lx ly la lb (inr (inl e)) (inl f) turn = inr (ground (arith, e, f))
  touching x y ax ay lx ly la lb (inr (inr e)) (inl f) turn = inr (ground (arith, e, f, la))
  touching x y ax ay lx ly la lb (inr (inl e)) (inr (inl f)) turn = inr (ground (arith, e, f, turn))
  touching x y ax ay lx ly la lb (inr (inl e)) (inr (inr f)) turn =
      inr (ground (arith, e, f, lb, turn))
  touching x y ax ay lx ly la lb (inr (inr e)) (inr (inl f)) turn =
      inr (ground (arith, e, f, la, turn))
  touching x y ax ay lx ly la lb (inr (inr e)) (inr (inr f)) turn =
      inr (ground (arith, e, f, la, lb, turn))
