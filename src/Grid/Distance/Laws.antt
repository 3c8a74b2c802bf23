-- ===== src/Grid/Distance/Laws.antt =====
-- src/grid/grid_world.cc: the heuristic of the worlds of unit costs is consistent.
use pbnf.Base.{
  ℕ, ◌+◌, ◌-◌, ◌*◌, ◌%◌, ◌^◌, ◌≤◌, ◌<◌, ◌≡◌, ◌⊎◌, ap, ◌∙◌, inl, inr, true, arith, ltb,
  if◌then◌else◌, Bool-cases,
}
use native.Mathlib.Nat.{mod-eq_of_lt}
use pbnf.Grid.World.{u64, GridWorld, GridState, expand}
use pbnf.Grid.World.Laws.{All, All-map, IsMove, step_cost, expand-IsMove}
use pbnf.Grid.Distance.{apart, least, most, cost_from, arc, compute4, compute8, compute}

-- The states and the goal are in the world, and distances in it stay far below 2^64.
pub record IsWorld (w : GridWorld) : Type 0 where
  pub width : w.width ≤ 2 ^ 31
  pub height : w.height ≤ 2 ^ 31
  pub goal_x : w.goal_x < w.width
  pub goal_y : w.goal_y < w.height

-- As many corners as fit, then sides.
octile : ℕ → ℕ → ℕ
octile a b = least a b * 14142 + (most a b - least a b) * 10000

octile-lt : (a b : ℕ) → a < 2 ^ 31 → b < 2 ^ 31 → octile a b < 2 ^ 64
unfolding octile
octile-lt a b la lb = ground (arith, la, lb)

octile-side_x : (a b c : ℕ) → a ≤ c + 1 → octile a b ≤ 10000 + octile c b
unfolding octile
octile-side_x a b c h = ground (arith, h)

octile-side_y : (a b c : ℕ) → b ≤ c + 1 → octile a b ≤ 10000 + octile a c
unfolding octile
octile-side_y a b c h = ground (arith, h)

octile-corner : (a b c d : ℕ) → a ≤ c + 1 → b ≤ d + 1 → octile a b ≤ 14142 + octile c d
unfolding octile
octile-corner a b c d h k = ground (arith, h, k)

apart-step : (g x y : ℕ) → ((y ≡ x) ⊎ ((y + 1 ≡ x) ⊎ (y ≡ x + 1))) → apart g x ≤ apart g y + 1
apart-step g x y h = ground (arith, h)

apart-lt : (a b n : ℕ) → a < n → b < n → apart a b < n
apart-lt a b n la lb = ground (arith, la, lb)

module _ (w : GridWorld) (v : IsWorld w) (unit : w.unit ≡ true) where
  compute4-unit :
      (x y : ℕ)
      → x < w.width
      → y < w.height
      → compute4 w x y ≡ (apart w.goal_x x + apart w.goal_y y) * 10000
  unfolding compute4
  compute4-unit x y lx ly = ground (arith, unit, lx, ly, v.width, v.height, v.goal_x, v.goal_y)

  compute8-unit :
      (x y : ℕ)
      → x < w.width
      → y < w.height
      → compute8 w x y ≡ octile (apart w.goal_x x) (apart w.goal_y y)
  unfolding compute8 octile
  compute8-unit x y lx ly =
      let a = apart w.goal_x x in
      let b = apart w.goal_y y in
      let la : a < 2 ^ 31 =
        apart-lt w.goal_x x (2 ^ 31) (omega (arith, v.goal_x, v.width))
          (omega (arith, lx, v.width)) in
      let lb : b < 2 ^ 31 =
        apart-lt w.goal_y y (2 ^ 31) (omega (arith, v.goal_y, v.height))
          (omega (arith, ly, v.height)) in
      ap
        (λ u.
          if u
          then (least a b * 14142 + (most a b - least a b) * 10000) % u64
          else if ltb b a
          then arc y w.goal_y a b * 10000 % u64
          else cost_from y w.goal_y * 10000 % u64)
        unit
      ∙ mod-eq_of_lt (octile-lt a b la lb)

  four_consistent :
      (s r : GridState)
      → s.x < w.width
      → s.y < w.height
      → IsMove w s r
      → w.four ≡ true
      → compute4 w s.x s.y ≤ r.c + compute4 w r.x r.y
  unfolding step_cost
  four_consistent s r lx ly m four =
      rw (compute4-unit s.x s.y lx ly, compute4-unit r.x r.y m.x_in m.y_in)
        (ground (arith, m.cost, m.way four, m.turn, m.x_step, m.y_step, unit))

  eight_consistent :
      (s r : GridState)
      → s.x < w.width
      → s.y < w.height
      → IsMove w s r
      → compute8 w s.x s.y ≤ r.c + compute8 w r.x r.y
  unfolding step_cost
  eight_consistent s r lx ly m =
      let a = apart w.goal_x s.x in
      let b = apart w.goal_y s.y in
      let c = apart w.goal_x r.x in
      let d = apart w.goal_y r.y in
      let xs : a ≤ c + 1 = apart-step w.goal_x s.x r.x m.x_step in
      let ys : b ≤ d + 1 = apart-step w.goal_y s.y r.y m.y_step in
      let enough : octile a b ≤ (if m.over then 14142 else 10000) + octile c d =
        elim (Bool-cases m.over) [
          | inl over ↦ rw over (octile-corner a b c d xs ys)
          | inr side ↦ elim m.turn [
            | inl over ↦ absurd (ground (arith, over, side))
            | inr (inl same) ↦ rw (side, same) (octile-side_y a b d ys)
            | inr (inr same) ↦ rw (side, same) (octile-side_x a b c xs)
          ]
        ] in
      let paid : r.c ≡ (if m.over then 14142 else 10000) = m.cost ∙ ground (arith, unit) in
      rw (compute8-unit s.x s.y lx ly, compute8-unit r.x r.y m.x_in m.y_in, paid) enough

  at_goal : (s : GridState) → compute w (record s { x = w.goal_x; y = w.goal_y }) ≡ 0
  unfolding compute octile
  at_goal s =
      let four : compute4 w w.goal_x w.goal_y ≡ 0 =
        compute4-unit w.goal_x w.goal_y v.goal_x v.goal_y ∙ ground arith in
      let eight : compute8 w w.goal_x w.goal_y ≡ 0 =
        compute8-unit w.goal_x w.goal_y v.goal_x v.goal_y ∙ ground arith in
      ground (arith, four, eight)

-- In a world of unit costs with at most 2^31 columns and rows, for a state in it: the heuristic is
-- at most the cost of the step to a child and the heuristic there, for every child that `expand`
-- gives, with four-way and with eight-way moves; and it is 0 at the goal.
pub distance_consistent :
    (w : GridWorld) (s : GridState)
    → IsWorld w
    → w.unit ≡ true
    → s.x < w.width
    → s.y < w.height
    → All (λ r. compute w s ≤ r.c + compute w r) (expand w s)
      × (compute w (record s { x = w.goal_x; y = w.goal_y }) ≡ 0)
unfolding compute
distance_consistent w s v unit lx ly = (
  All-map (IsMove w s) _ (expand w s)
      (λ r m. elim (Bool-cases w.four) [
        | inl four ↦ ground (arith, four, four_consistent w v unit s r lx ly m four)
        | inr eight ↦ ground (arith, eight, eight_consistent w v unit s r lx ly m)
      ])
      (expand-IsMove w s lx ly),
  at_goal w v unit s,
)
