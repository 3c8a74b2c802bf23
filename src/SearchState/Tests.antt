-- ===== src/SearchState/Tests.antt =====
-- src/state.{h,cc}: states of small values.
use pbnf.Base.{ℕ, zero, suc, ◌<◌, ◌≡◌, refl, true, List, [], ◌∷◌, none, some, arith}
use pbnf.SearchState.{
  State, Store, fp_one, new, get_f, get_f_prime, update, f_before, f_prime_before, silvia_before,
  greater_f_before, orders-IsStrictOrder, greater_f_before_ties, get_f_prime-one,
}
use pbnf.PriorityQueue.Order.{IsStrictOrder}
use pbnf.SearchState.Path.{push, get_path, IsPath, get_path_correct}

-- `h` is given in units of `fp_one`.
abbrev at : ℕ → ℕ → State
at g h = record (new none 0 g) { h = h }

abbrev numbered : Store
numbered x = at x 20000

values : (get_f (at 10000 20000) ≡ 30000) × (get_f_prime 15000 (at 10000 20000) ≡ 40000)
unfolding new get_f get_f_prime
values = (refl, refl)

improved : (update (at 10000 20000) (some 1) 5000 7000).g ≡ 7000
unfolding new update
improved = refl

orders-IsStrictOrder_example :
    IsStrictOrder (λ a b. f_before (numbered a) (numbered b))
    × IsStrictOrder (λ a b. f_prime_before 15000 (numbered a) (numbered b))
    × IsStrictOrder (λ a b. silvia_before 15000 (numbered a) (numbered b))
orders-IsStrictOrder_example = orders-IsStrictOrder 15000 numbered

tied :
    (greater_f_before 15000 (at 3 4) (at 3 4) ≡ true)
    × (greater_f_before 15000 (at 3 4) (at 3 4) ≡ true)
tied = greater_f_before_ties 15000 (at 3 4) (at 3 4) refl refl refl

get_f_prime-one_example : get_f_prime fp_one (at 3 4) ≡ get_f (at 3 4)
unfolding new
get_f_prime-one_example = get_f_prime-one (at 3 4) (omega arith)

-- Each state but the first has the one before as its parent.
abbrev chain : Store
chain zero = new none 0 0
chain (suc x) = new (some x) 1 (suc x)

chain_g : (x : ℕ) → (chain x).g ≡ x
unfolding new
chain_g zero = refl
chain_g (suc x) = refl

chain_down : (x q : ℕ) → (chain x).parent ≡ some q → (chain q).g < (chain x).g
unfolding new
chain_down zero q e = cc
chain_down (suc x) q e = let f : x ≡ q = cc in omega (arith, chain_g q, f)

get_path_correct_example :
    (l : List ℕ) × (get_path chain (suc (chain 2).g) 2 ≡ some (2 ∷ l)) × IsPath chain 2 l
get_path_correct_example = get_path_correct chain 2 chain_down

chain_path : get_path chain 3 2 ≡ some (2 ∷ 1 ∷ 0 ∷ [])
unfolding get_path push new
chain_path = refl
