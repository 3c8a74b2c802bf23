-- ===== src/SearchState.antt =====
-- src/state.{h,cc} and src/util/fixed_point.h: the values of a search state, and the orders in
-- which the priority queues keep states.
mod Tests
pub mod Path
use pbnf.Base.{
  ℕ, ◌+◌, ◌-◌, ◌*◌, ◌/◌, ◌%◌, ◌^◌, ◌<◌, ◌≡◌, Bool, true, false, not, Option, arith, ltb,
  if◌then◌else◌,
}
use pbnf.PriorityQueue.Order.{IsStrictOrder}

-- `fp_type` is `uint64_t`.
abbrev pub fp_mod : ℕ
fp_mod = 2 ^ 64

abbrev pub fp_one : ℕ
fp_one = 10000

-- The fields of `State` but for the domain and the queue indices, which the queues keep. A state
-- is named by a number, its pointer.
pub record State : Type 0 where
  pub parent : Option ℕ
  pub c : ℕ
  pub g : ℕ
  pub h : ℕ
  pub opened : Bool
  pub incons : Bool

-- The constructor; `h` is -1 until a subclass sets it.
pub new : Option ℕ → ℕ → ℕ → State
new parent c g = record {
  parent = parent;
  c = c;
  g = g;
  h = fp_mod - 1;
  opened = false;
  incons = false;
}

unfoldable pub get_f : State → ℕ
get_f s = (s.g + s.h) % fp_mod

-- `g + ((weight * h) / fp_one)`, for the weight of the domain's heuristic
unfoldable pub get_f_prime : ℕ → State → ℕ
get_f_prime weight s = (s.g + weight * s.h % fp_mod / fp_one) % fp_mod

-- `update`, where the code asserts that `g` falls
unfoldable pub update : State → Option ℕ → ℕ → ℕ → State
update s p c_val g_val = record s { parent = p; c = c_val; g = g_val }

unfoldable pub set_open : State → Bool → State
set_open s b = record s { opened = b }

-- `PQOpsF`: by f, and of two with one f the one with the greater g.
unfoldable pub f_before : State → State → Bool
f_before a b =
    let fa = get_f a in
    let fb = get_f b in if ltb fa fb then true else if ltb fb fa then false else ltb b.g a.g

-- `PQOpsFPrime`: by f', and then as `PQOpsF`.
unfoldable pub f_prime_before : ℕ → State → State → Bool
f_prime_before weight a b =
    let fa = get_f_prime weight a in
    let fb = get_f_prime weight b in
    if ltb fa fb then true else if ltb fb fa then false else f_before a b

-- `PQOpsFPrimeSilviaTieBreaking`: by f' alone.
pub silvia_before : ℕ → State → State → Bool
silvia_before weight a b =
    let fa = get_f_prime weight a in
    let fb = get_f_prime weight b in if ltb fa fb then true else if ltb fb fa then false else false

-- `PQOpsFPrimeGreaterFTieBreaking`: by f', and then the other way round than `PQOpsF`.
pub greater_f_before : ℕ → State → State → Bool
greater_f_before weight a b =
    let fa = get_f_prime weight a in
    let fb = get_f_prime weight b in
    if ltb fa fb then true else if ltb fb fa then false else not (f_before a b)

-- A store gives each pointer its state.
abbrev pub Store : Type 0
Store = ℕ → State

-- `PQOpsF`, `PQOpsFPrime` and `PQOpsFPrimeSilviaTieBreaking` are strict weak orders of the states
-- of every store, as the priority queue needs them.
pub orders-IsStrictOrder :
    (weight : ℕ) (st : Store)
    → IsStrictOrder (λ a b. f_before (st a) (st b))
      × IsStrictOrder (λ a b. f_prime_before weight (st a) (st b))
      × IsStrictOrder (λ a b. silvia_before weight (st a) (st b))
unfolding f_before f_prime_before silvia_before
orders-IsStrictOrder weight st = (
  record { asym = λ a b h. ground (arith, h); trans = λ a b c h k. ground (arith, h, k) },
  record { asym = λ a b h. ground (arith, h); trans = λ a b c h k. ground (arith, h, k) },
  record { asym = λ a b h. ground (arith, h); trans = λ a b c h k. ground (arith, h, k) },
)

-- Of two states with one f', one f and one g, `PQOpsFPrimeGreaterFTieBreaking` says of each that it
-- comes before the other.
pub greater_f_before_ties :
    (weight : ℕ) (a b : State)
    → get_f_prime weight a ≡ get_f_prime weight b
    → get_f a ≡ get_f b
    → a.g ≡ b.g
    → (greater_f_before weight a b ≡ true) × (greater_f_before weight b a ≡ true)
unfolding greater_f_before f_before
greater_f_before_ties weight a b e f g = (ground (arith, e, f, g), ground (arith, e, f, g))

-- The estimate f' of a state is its f at weight 1, where nothing overflows.
pub get_f_prime-one : (s : State) → fp_one * s.h < fp_mod → get_f_prime fp_one s ≡ get_f s
unfolding get_f_prime get_f
get_f_prime-one s h = omega arith
