-- ===== src/Base/Members.antt =====
-- Membership in lists of numbers as a test, and the number of members that pass a test.
use Prim.Native.Nat.{ℕ, zero, suc, ◌+◌, ◌≤◌, ◌<◌}
use mathlib.Core.Path.{◌≡◌, refl}
use mathlib.Core.Logic.{◌≢◌, inl, inr}
use mathlib.Core.Bool.{Bool, true, false, ◌&&◌}
use native.Mathlib.Decide.{dec_lt}
use mathlib.Core.List.{List, [], ◌∷◌}
use native.Mathlib.Omega.{arith}
use pbnf.Base.Arrays.{length, get_or}
use pbnf.Base.Tests.{◌==◌, if◌then◌else◌, Bool-cases}

abbrev pub mem : ℕ → List ℕ → Bool
mem x [] = false
mem x (y ∷ l) = if y == x then true else mem x l

-- No element is more than once in the list.
abbrev pub Distinct : List ℕ → Type 0
Distinct [] = Unit
Distinct (x ∷ l) = (mem x l ≡ false) × Distinct l

pub mem-get_or :
    (x : ℕ) (l : List ℕ) → mem x l ≡ true → (k : ℕ) × (k < length l) × (get_or l k 0 ≡ x)
unfolding get_or
mem-get_or x [] h = cc
mem-get_or x (y ∷ l) h = elim (Bool-cases (y == x)) [
  | inl here ↦ (0, omega arith, ground (arith, here))
  | inr there ↦
      let (k, lt, at) = mem-get_or x l (ground (arith, h, there)) in (suc k, omega arith, at)
]

pub get_or-mem : (l : List ℕ) (k : ℕ) → k < length l → mem (get_or l k 0) l ≡ true
unfolding get_or
get_or-mem [] k h = absurd (omega arith)
get_or-mem (y ∷ l) zero h = ground arith
get_or-mem (y ∷ l) (suc k) h = ground (arith, get_or-mem l k)

abbrev pub to_nat : Bool → ℕ
to_nat true = 1
to_nat false = 0

-- `f`, with another value at `i`
abbrev pub put {ℓ} : {A : Type ℓ} → (ℕ → A) → ℕ → A → ℕ → A
put f i v x = if i == x then v else f x

-- How many elements of the list pass the test.
pub tally : (ℕ → Bool) → List ℕ → ℕ
tally p [] = 0
tally p (x ∷ l) = to_nat (p x) + tally p l

pub tally-put_absent :
    (p : ℕ → Bool) (i : ℕ) (v : Bool) (l : List ℕ)
    → mem i l ≡ false
    → tally (put p i v) l ≡ tally p l
unfolding tally
tally-put_absent p i v [] h = refl
tally-put_absent p i v (x ∷ l) h = ground (arith, h, tally-put_absent p i v l)

pub tally-put :
    (p : ℕ → Bool) (i : ℕ) (v : Bool) (l : List ℕ)
    → Distinct l
    → tally (put p i v) l + to_nat (mem i l && p i) ≡ tally p l + to_nat (mem i l && v)
unfolding tally
tally-put p i v [] d = refl
tally-put p i v (x ∷ l) d = ground (arith, d.0, tally-put p i v l d.1, tally-put_absent p i v l)

pub tally-pos : (p : ℕ → Bool) (i : ℕ) (l : List ℕ) → mem i l ≡ true → p i ≡ true → 0 < tally p l
unfolding tally
tally-pos p i [] m h = cc
tally-pos p i (x ∷ l) m h = ground (arith, m, h, tally-pos p i l)

pub tally-none :
    (p : ℕ → Bool) (l : List ℕ) → ((x : ℕ) → mem x l ≡ true → p x ≡ false) → tally p l ≡ 0
unfolding tally
tally-none p [] h = refl
tally-none p (x ∷ l) h =
    let rest = tally-none p l (λ y m. h y (ground (arith, m))) in
    let head : p x ≡ false = h x (ground arith) in ground (arith, rest, head)

pub tally-two :
    (p : ℕ → Bool) (i j : ℕ) (l : List ℕ)
    → i ≢ j
    → mem i l ≡ true
    → p i ≡ true
    → mem j l ≡ true
    → p j ≡ true
    → 2 ≤ tally p l
unfolding tally
tally-two p i j [] ne m h n k = cc
tally-two p i j (x ∷ l) ne m h n k =
    ground (arith, ne, m, h, n, k, tally-pos p i l, tally-pos p j l, tally-two p i j l ne)

-- How many of the numbers below `n` pass the test.
unfoldable pub tally_below : ℕ → (ℕ → Bool) → ℕ
tally_below zero p = 0
tally_below (suc n) p = tally_below n p + to_nat (p n)

pub tally_below-congr :
    (n : ℕ) (p q : ℕ → Bool) → ((i : ℕ) → i < n → p i ≡ q i) → tally_below n p ≡ tally_below n q
unfolding tally_below
tally_below-congr zero p q h = refl
tally_below-congr (suc n) p q h =
    ground (arith, h n (omega arith), tally_below-congr n p q (λ i lt. h i (omega arith)))

-- The tests differ at `i` alone.
pub tally_below-put :
    (n : ℕ) (p q : ℕ → Bool) (i : ℕ)
    → i < n
    → ((j : ℕ) → j < n → j ≢ i → p j ≡ q j)
    → tally_below n q + to_nat (p i) ≡ tally_below n p + to_nat (q i)
unfolding tally_below
tally_below-put zero p q i lt h = absurd (omega arith)
tally_below-put (suc n) p q i lt h = elim (dec_lt i n) [
  | yes below ↦ ground (
    arith,
    h n (omega arith) (omega arith),
    tally_below-put n p q i below (λ j l r. h j (omega arith) r),
  )
  | no last ↦
      let e : i ≡ n = omega arith in
      rw e (ground (arith, tally_below-congr n p q (λ j l. h j (omega arith) (omega arith))))
]

pub tally_below-le : (n : ℕ) (p : ℕ → Bool) → tally_below n p ≤ n
unfolding tally_below
tally_below-le zero p = omega arith
tally_below-le (suc n) p = ground (arith, tally_below-le n p)

-- All of them pass.
pub tally_below-all : (n : ℕ) (p : ℕ → Bool) → tally_below n p ≡ n → (i : ℕ) → i < n → p i ≡ true
unfolding tally_below
tally_below-all zero p h i lt = absurd (omega arith)
tally_below-all (suc n) p h i lt =
    let few = tally_below-le n p in
    let top : p n ≡ true = ground (arith, h, few) in
    elim (dec_lt i n) [
      | yes below ↦ tally_below-all n p (ground (arith, h, top)) i below
      | no last ↦ let e : i ≡ n = omega arith in rw e top
    ]

-- No element passes, and every number passes.
pub tally-never : (l : List ℕ) → tally (λ x. false) l ≡ 0
unfolding tally
tally-never [] = refl
tally-never (x ∷ l) = omega (arith, tally-never l)

pub tally_below-always : (n : ℕ) → tally_below n (λ x. true) ≡ n
unfolding tally_below
tally_below-always zero = refl
tally_below-always (suc n) = omega (arith, tally_below-always n)

pub tally_below-never : (n : ℕ) → tally_below n (λ x. false) ≡ 0
unfolding tally_below
tally_below-never zero = refl
tally_below-never (suc n) = omega (arith, tally_below-never n)

pub tally-nil : (p : ℕ → Bool) → tally p [] ≡ 0
unfolding tally
tally-nil p = refl
