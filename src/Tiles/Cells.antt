-- ===== src/Tiles/Cells.antt =====
-- src/tiles/tiles.cc: the four neighbours of a cell, which the moves and the projections go
-- through in one order.
use pbnf.Base.{
  ℕ, ◌+◌, ◌-◌, ◌*◌, ◌/◌, ◌%◌, ◌<◌, ◌≡◌, ◌≢◌, refl, sym, ◌∙◌, ◌⊎◌, inl, inr, Bool, true, false, List,
  [], ◌∷◌, ◌++◌, arith, ltb, ◌==◌, if◌then◌else◌, mem,
}
use mathlib.Core.Logic.{◌↔◌}
use native.Mathlib.Nat.{div-lt_iff_lt-mul}

-- One step from a cell to another of a board with rows of `w` cells.
abbrev pub IsStep : ℕ → ℕ → ℕ → Type 0
IsStep w a b =
    ((a / w ≡ b / w) × ((a % w + 1 ≡ b % w) ⊎ (b % w + 1 ≡ a % w)))
    ⊎ ((a % w ≡ b % w) × ((a / w + 1 ≡ b / w) ⊎ (b / w + 1 ≡ a / w)))

pub IsStep_symm : (w a b : ℕ) → IsStep w a b → IsStep w b a
IsStep_symm w a b (inl (same, inl e)) = inl (sym same, inr e)
IsStep_symm w a b (inl (same, inr e)) = inl (sym same, inl e)
IsStep_symm w a b (inr (same, inl e)) = inr (sym same, inr e)
IsStep_symm w a b (inr (same, inr e)) = inr (sym same, inl e)

-- Left, right, up and down, where the board of `h` rows has such a cell.
unfoldable pub around : ℕ → ℕ → ℕ → List ℕ
around w h b =
    (if ltb 0 (b % w) then (b - 1) ∷ [] else [])
    ++ (if ltb (b % w) (w - 1) then (b + 1) ∷ [] else [])
    ++ (if ltb 0 (b / w) then (b - w) ∷ [] else [])
    ++ (if ltb (b / w) (h - 1) then (b + w) ∷ [] else [])

parts_inj : (w a b : ℕ) → a / w ≡ b / w → a % w ≡ b % w → a ≡ b
parts_inj w a b p q = grind arith

module _ (w b : ℕ) (pos : 0 < w) where
  pub left_parts : 0 < b % w → ((b - 1) / w ≡ b / w) × ((b - 1) % w + 1 ≡ b % w)
  left_parts h = grind arith

  pub right_parts : b % w + 1 < w → ((b + 1) / w ≡ b / w) × ((b + 1) % w ≡ b % w + 1)
  right_parts h = grind arith

  pub up_parts : 0 < b / w → ((b - w) / w + 1 ≡ b / w) × ((b - w) % w ≡ b % w)
  up_parts h = grind arith

  pub down_parts : ((b + w) / w ≡ b / w + 1) × ((b + w) % w ≡ b % w)
  down_parts = grind arith

pub lt_parts : (w h b : ℕ) → 0 < w → (b / w < h) ↔ (b < w * h)
lt_parts w h b pos =
    let e : h * w ≡ w * h = omega arith in rw e at (div-lt_iff_lt-mul {k = w} {x = b} {y = h} pos)

mem-append : (x : ℕ) (a b : List ℕ) → mem x (a ++ b) ≡ (if mem x a then true else mem x b)
mem-append x [] b = refl
mem-append x (y ∷ a) b = ground (arith, mem-append x a b)

-- The four ways in which a cell is one of them.
abbrev Way : ℕ → ℕ → ℕ → ℕ → Type 0
Way w h b n =
    ((0 < b % w) × (n ≡ b - 1))
    ⊎ ((b % w < w - 1) × (n ≡ b + 1))
    ⊎ ((0 < b / w) × (n ≡ b - w))
    ⊎ ((b / w < h - 1) × (n ≡ b + w))

mem-one : (n x : ℕ) (t : Bool) → mem n (if t then x ∷ [] else []) ≡ (if t then x == n else false)
mem-one n x true = ground arith
mem-one n x false = refl

mem-around_cases :
    (w h b n : ℕ)
    → mem n (around w h b) ≡ (
        if (if (if (if ltb 0 (b % w) then b - 1 == n else false)
            then true
            else (if ltb (b % w) (w - 1) then b + 1 == n else false))
          then true
          else (if ltb 0 (b / w) then b - w == n else false))
        then true
        else (if ltb (b / w) (h - 1) then b + w == n else false))
unfolding around
mem-around_cases w h b n = simp (mem-append, mem-one)

mem-Way : (w h b n : ℕ) → mem n (around w h b) ≡ true → Way w h b n
mem-Way w h b n e = ground (arith, mem-around_cases w h b n, e)

Way-mem : (w h b n : ℕ) → Way w h b n → mem n (around w h b) ≡ true
Way-mem w h b n e = ground (arith, mem-around_cases w h b n, e)

module _ (w h b n : ℕ) (pos : 0 < w) (inside : b < w * h) where
  low_row : b / w < h
  low_row = (lt_parts w h b pos).1 inside

  Way-IsStep : Way w h b n → (n < w * h) × IsStep w b n
  Way-IsStep (inl (g, e)) =
      let (row, col) = left_parts w b pos g in
      (omega (arith, e, inside), rw e (inl (sym row, inr col)))
  Way-IsStep (inr (inl (g, e))) =
      let (row, col) = right_parts w b pos (omega arith) in
      let lt = (lt_parts w h (b + 1) pos).0 (omega (arith, row, low_row)) in
      (rw e lt, rw e (inl (sym row, inl (sym col))))
  Way-IsStep (inr (inr (inl (g, e)))) =
      let (row, col) = up_parts w b pos g in
      (omega (arith, e, inside), rw e (inr (sym col, inr row)))
  Way-IsStep (inr (inr (inr (g, e)))) =
      let (row, col) = down_parts w b pos in
      let lt = (lt_parts w h (b + w) pos).0 (omega (arith, row, g)) in
      (rw e lt, rw e (inr (sym col, inl (sym row))))

  high_row : n < w * h → n / w < h
  high_row lt = (lt_parts w h n pos).1 lt

  IsStep-Way : n < w * h → IsStep w b n → Way w h b n
  IsStep-Way lt (inl (row, inl e)) =
      let narrow : n % w < w = grind arith in
      let (r, c) = right_parts w b pos (omega (arith, e, narrow)) in
      inr (inl (omega (arith, e, narrow), parts_inj w n (b + 1) (sym row ∙ sym r) (sym e ∙ sym c)))
  IsStep-Way lt (inl (row, inr e)) =
      let g : 0 < b % w = omega (arith, e) in
      let (r, c) = left_parts w b pos g in
      inl (g, parts_inj w n (b - 1) (sym row ∙ sym r) (omega (arith, e, c)))
  IsStep-Way lt (inr (col, inl e)) =
      let (r, c) = down_parts w b pos in
      inr (
        inr (
          inr (
            omega (arith, e, high_row lt),
            parts_inj w n (b + w) (sym e ∙ sym r) (sym col ∙ sym c),
          )))
  IsStep-Way lt (inr (col, inr e)) =
      let g : 0 < b / w = omega (arith, e) in
      let (r, c) = up_parts w b pos g in
      inr (inr (inl (g, parts_inj w n (b - w) (omega (arith, e, r)) (sym col ∙ sym c))))

  -- The list holds the cells one step away, and no other.
  pub mem-around_iff : (mem n (around w h b) ≡ true) ↔ ((n < w * h) × IsStep w b n)
  mem-around_iff =
      (λ m. Way-IsStep (mem-Way w h b n m), λ (lt, step). Way-mem w h b n (IsStep-Way lt step))

pub IsStep-ne : (w a b : ℕ) → IsStep w a b → a ≢ b
IsStep-ne w a b (inl (same, inl e)) = λ f. absurd (ground (arith, f, e))
IsStep-ne w a b (inl (same, inr e)) = λ f. absurd (ground (arith, f, e))
IsStep-ne w a b (inr (same, inl e)) = λ f. absurd (ground (arith, f, e))
IsStep-ne w a b (inr (same, inr e)) = λ f. absurd (ground (arith, f, e))
