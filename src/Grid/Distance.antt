-- ===== src/Grid/Distance.antt =====
-- src/grid/grid_world.cc: `ManhattanDist`.
pub mod Laws
use pbnf.Base.{ℕ, ◌+◌, ◌-◌, ◌*◌, ◌/◌, ◌%◌, Bool, ltb, if◌then◌else◌}
use pbnf.Grid.World.{u64, fp_one, fp_sqrt2, GridWorld, GridState}

-- `abs(a - b)`
abbrev pub apart : ℕ → ℕ → ℕ
apart a b = if ltb a b then b - a else a - b

abbrev pub least : ℕ → ℕ → ℕ
least a b = if ltb a b then a else b

abbrev pub most : ℕ → ℕ → ℕ
most a b = if ltb b a then a else b

unfoldable pub cost_from : ℕ → ℕ → ℕ
cost_from a b =
    let last = if ltb b a then b + 1 else if ltb a b then b - 1 else b in (a + last) * apart a b / 2

unfoldable pub compute_up_over4 : ℕ → ℕ → ℕ → ℕ → ℕ
unfolding cost_from
compute_up_over4 x y gx gy =
    let min_y = least y gy in let dx = apart gx x in dx * min_y + cost_from y gy

unfoldable pub compute_up_over_down4 : ℕ → ℕ → ℕ
compute_up_over_down4 y gy = (y * y + y + gy * gy - gy) / 2

unfoldable pub compute4 : GridWorld → ℕ → ℕ → ℕ
unfolding compute_up_over4 compute_up_over_down4
compute4 w x y =
    let gx = w.goal_x in
    let gy = w.goal_y in
    let cost_up_over_down = compute_up_over_down4 y gy in
    let cost_up_over = compute_up_over4 x y gx gy in
    if w.unit
    then (apart gx x + apart gy y) * fp_one % u64
    else if ltb cost_up_over_down cost_up_over
    then cost_up_over_down * fp_one % u64
    else cost_up_over * fp_one % u64

-- The arc that the eight-way heuristic makes where every step costs its row.
unfoldable pub arc : ℕ → ℕ → ℕ → ℕ → ℕ
unfolding cost_from
arc y gy dx dy =
    let max_up = least y gy in
    let extra = dx - dy in
    let up = least max_up (extra / 2) in
    let high_y = least y gy - up in
    let across = extra - 2 * up in cost_from y high_y + across * high_y + cost_from high_y gy

unfoldable pub compute8 : GridWorld → ℕ → ℕ → ℕ
unfolding arc cost_from
compute8 w x y =
    let gx = w.goal_x in
    let gy = w.goal_y in
    let dx = apart gx x in
    let dy = apart gy y in
    let total = most dx dy in
    let diag = least dx dy in
    if w.unit
    then (diag * fp_sqrt2 + (total - diag) * fp_one) % u64
    else if ltb dy dx
    then arc y gy dx dy * fp_one % u64
    else cost_from y gy * fp_one % u64

unfoldable pub compute : GridWorld → GridState → ℕ
unfolding compute4 compute8
compute w s = if w.four then compute4 w s.x s.y else compute8 w s.x s.y
