-- ===== src/Tiles/Numbering/Count.antt =====
-- src/tiles/tiles.cc: the tuples that the nested loops go through, and how many of them have
-- different cells, which is `nnblocks`.
use pbnf.Base.{
  ℕ, zero, suc, ◌+◌, ◌-◌, ◌*◌, ◌≤◌, ◌<◌, ◌≡◌, ◌⊎◌, ap, refl, sym, ◌∙◌, inl, inr, Bool, false, not,
  List, [], ◌∷◌, ◌++◌, arith, if◌then◌else◌, length, mem, Bool-cases, to_nat, tally_below,
  tally_below-put, tally_below-always,
}
use native.Mathlib.Decide.{ℕ_discrete}
use pbnf.Tiles.Numbering.Laws.{fresh, prefix, each, tuples, kept, Member, Once, Uniform}

unfoldable pub Inside : ℕ → List ℕ → Type 0
Inside n [] = Unit
Inside n (x ∷ t) = (x < n) × Inside n t

Member-append : (t : List ℕ) (a b : List (List ℕ)) → Member t (a ++ b) → Member t a ⊎ Member t b
unfolding Member
Member-append t [] b m = inr m
Member-append t (u ∷ a) b (inl e) = inl (inl e)
Member-append t (u ∷ a) b (inr m) = elim (Member-append t a b m) [
  | inl l ↦ inl (inr l)
  | inr r ↦ inr r
]

Member-left : (t : List ℕ) (a b : List (List ℕ)) → Member t a → Member t (a ++ b)
unfolding Member
Member-left t [] b m = elim m [ ]
Member-left t (u ∷ a) b (inl e) = inl e
Member-left t (u ∷ a) b (inr m) = inr (Member-left t a b m)

Member-right : (t : List ℕ) (a b : List (List ℕ)) → Member t b → Member t (a ++ b)
unfolding Member
Member-right t [] b m = m
Member-right t (u ∷ a) b m = inr (Member-right t a b m)

Member-prefix :
    (u : List ℕ) (i : ℕ) (l : List (List ℕ))
    → Member u (prefix i l)
    → (t : List ℕ) × (u ≡ i ∷ t) × Member t l
unfolding Member prefix
Member-prefix u i [] m = elim m [ ]
Member-prefix u i (t ∷ l) (inl e) = (t, e, inl refl)
Member-prefix u i (t ∷ l) (inr m) = let (v, e, n) = Member-prefix u i l m in (v, e, inr n)

prefix-Member : (t : List ℕ) (i : ℕ) (l : List (List ℕ)) → Member t l → Member (i ∷ t) (prefix i l)
unfolding Member prefix
prefix-Member t i [] m = elim m [ ]
prefix-Member t i (u ∷ l) (inl e) = inl (ap (λ x. i ∷ x) e)
prefix-Member t i (u ∷ l) (inr m) = inr (prefix-Member t i l m)

Member-each :
    (u : List ℕ) (count first : ℕ) (l : List (List ℕ))
    → Member u (each count first l)
    → (i : ℕ) × (t : List ℕ) × (u ≡ i ∷ t) × (first ≤ i) × (i < first + count) × Member t l
unfolding Member each
Member-each u zero first l m = elim m [ ]
Member-each u (suc count) first l m = elim (Member-append u (prefix first l) _ m) [
  | inl here ↦
      let (t, e, n) = Member-prefix u first l here in (first, t, e, omega arith, omega arith, n)
  | inr later ↦
      let (i, t, e, ge, lt, n) = Member-each u count (suc first) l later in
      (i, t, e, omega (arith, ge), omega (arith, lt), n)
]

each-Member :
    (i : ℕ) (t : List ℕ) (count first : ℕ) (l : List (List ℕ))
    → first ≤ i
    → i < first + count
    → Member t l
    → Member (i ∷ t) (each count first l)
unfolding each
each-Member i t zero first l ge lt m = absurd (omega (arith, ge, lt))
each-Member i t (suc count) first l ge lt m = elim (ℕ_discrete first i) [
  | yes e ↦
      Member-left (i ∷ t) (prefix first l) (each count (suc first) l) (rw e (prefix-Member t i l m))
  | no ne ↦
      Member-right (i ∷ t) (prefix first l) _
        (each-Member i t count (suc first) l (omega (arith, ge, ne)) (omega (arith, lt)) m)
]

pub Inside-Member : (n k : ℕ) (t : List ℕ) → length t ≡ k → Inside n t → Member t (tuples n k)
unfolding Inside tuples Member
Inside-Member n zero [] len h = inl refl
Inside-Member n zero (x ∷ t) len h = absurd (omega (arith, len))
Inside-Member n (suc k) [] len h = absurd (omega (arith, len))
Inside-Member n (suc k) (x ∷ t) len h =
    each-Member x t n 0 (tuples n k) (omega arith) (omega (arith, h.0))
      (Inside-Member n k t (omega (arith, len)) h.1)

pub Member-Inside : (n k : ℕ) (t : List ℕ) → Member t (tuples n k) → Inside n t
unfolding Inside tuples Member
Member-Inside n zero t (inl e) = rw e tt
Member-Inside n zero t (inr m) = elim m [ ]
Member-Inside n (suc k) u m =
    let (i, t, e, ge, lt, r) = Member-each u n 0 (tuples n k) m in
    rw e (omega (arith, lt), Member-Inside n k t r)

Uniform-append : (k : ℕ) (a b : List (List ℕ)) → Uniform k a → Uniform k b → Uniform k (a ++ b)
unfolding Uniform
Uniform-append k [] b p q = q
Uniform-append k (t ∷ a) b p q = (p.0, Uniform-append k a b p.1 q)

Uniform-prefix : (k i : ℕ) (l : List (List ℕ)) → Uniform k l → Uniform (suc k) (prefix i l)
unfolding Uniform prefix
Uniform-prefix k i [] p = tt
Uniform-prefix k i (t ∷ l) p = (ap suc p.0, Uniform-prefix k i l p.1)

Uniform-each :
    (k count first : ℕ) (l : List (List ℕ)) → Uniform k l → Uniform (suc k) (each count first l)
unfolding Uniform each
Uniform-each k zero first l p = tt
Uniform-each k (suc count) first l p =
    Uniform-append (suc k) (prefix first l) _ (Uniform-prefix k first l p)
      (Uniform-each k count (suc first) l p)

pub Uniform-tuples : (n k : ℕ) → Uniform k (tuples n k)
unfolding Uniform tuples
Uniform-tuples n zero = (refl, tt)
Uniform-tuples n (suc k) = Uniform-each k n 0 (tuples n k) (Uniform-tuples n k)

Once-append :
    (a b : List (List ℕ))
    → Once a
    → Once b
    → ((t : List ℕ) → Member t a → ¬ Member t b)
    → Once (a ++ b)
unfolding Once Member
Once-append [] b p q apart = q
Once-append (t ∷ a) b p q apart = (
  λ m. elim (Member-append t a b m) [ inl l ↦ p.0 l | inr r ↦ apart t (inl refl) r ],
  Once-append a b p.1 q (λ u m. apart u (inr m)),
)

head : List ℕ → ℕ
head [] = 0
head (x ∷ t) = x

tail : List ℕ → List ℕ
tail [] = []
tail (x ∷ t) = t

Once-prefix : (i : ℕ) (l : List (List ℕ)) → Once l → Once (prefix i l)
unfolding Once prefix tail
Once-prefix i [] p = tt
Once-prefix i (t ∷ l) p = (
  λ m. let (u, e, n) = Member-prefix (i ∷ t) i l m in p.0 (rw (ap tail e) n),
  Once-prefix i l p.1,
)

Once-each : (count first : ℕ) (l : List (List ℕ)) → Once l → Once (each count first l)
unfolding Once each head
Once-each zero first l p = tt
Once-each (suc count) first l p =
    Once-append (prefix first l) _ (Once-prefix first l p) (Once-each count (suc first) l p)
      (λ u m n.
        let (t, e, at) = Member-prefix u first l m in
        let (i, v, f, ge, lt, on) = Member-each u count (suc first) l n in
        let same : first ≡ i = sym (ap head e) ∙ ap head f in absurd (omega (arith, same, ge)))

pub Once-tuples : (n k : ℕ) → Once (tuples n k)
unfolding Once tuples Member
Once-tuples n zero = (λ m. m, tt)
Once-tuples n (suc k) = Once-each n 0 (tuples n k) (Once-tuples n k)

-- `n * (n - 1) * ...` with `k` factors
unfoldable pub falling : ℕ → ℕ → ℕ
falling n zero = 1
falling n (suc k) = n * falling (n - 1) k

-- How many of the tuples have different cells that are not in `avoid`.
kept_from : List ℕ → List (List ℕ) → ℕ
kept_from avoid [] = 0
kept_from avoid (t ∷ l) = to_nat (fresh avoid t) + kept_from avoid l

kept_from-append :
    (avoid : List ℕ) (a b : List (List ℕ))
    → kept_from avoid (a ++ b) ≡ kept_from avoid a + kept_from avoid b
unfolding kept_from
kept_from-append avoid [] b = omega arith
kept_from-append avoid (t ∷ a) b = omega (arith, kept_from-append avoid a b)

kept_from-prefix :
    (avoid : List ℕ) (i : ℕ) (l : List (List ℕ))
    → kept_from avoid (prefix i l) ≡ (if mem i avoid then 0 else kept_from (i ∷ avoid) l)
unfolding kept_from prefix fresh
kept_from-prefix avoid i [] = ground arith
kept_from-prefix avoid i (t ∷ l) = ground (arith, kept_from-prefix avoid i l)

abbrev free : ℕ → List ℕ → ℕ
free n avoid = tally_below n (λ x. not (mem x avoid))

free_cons :
    (n i : ℕ) (avoid : List ℕ) → i < n → mem i avoid ≡ false → free n (i ∷ avoid) + 1 ≡ free n avoid
free_cons n i avoid lt out = ground (
  arith,
  tally_below-put n (λ x. not (mem x avoid)) (λ x. not (mem x (i ∷ avoid))) i lt
      (λ j l ne. ground (arith, ne)),
  out,
)

tally_below-suc : (n : ℕ) (p : ℕ → Bool) → tally_below (suc n) p ≡ tally_below n p + to_nat (p n)
unfolding tally_below
tally_below-suc n p = refl

module _ (n k : ℕ) (avoid : List ℕ)
    (inner : (i : ℕ) → kept_from (i ∷ avoid) (tuples n k) ≡ falling (free n (i ∷ avoid)) k) where
  abbrev free_below : ℕ → ℕ
  free_below i = tally_below i (λ x. not (mem x avoid))

  abbrev each_free : ℕ
  each_free = falling (free n avoid - 1) k

  kept_from-one :
      (i : ℕ)
      → i < n
      → kept_from avoid (prefix i (tuples n k)) + free_below i * each_free
        ≡ free_below (suc i) * each_free
  kept_from-one i lt = elim (Bool-cases (mem i avoid)) [
    | inl taken ↦
        let a = kept_from-prefix avoid i (tuples n k) in
        let b : free_below (suc i) ≡ free_below i =
          ground (arith, taken, tally_below-suc i (λ x. not (mem x avoid))) in
        rw (a, taken, b) (omega arith)
    | inr out ↦
        let a = kept_from-prefix avoid i (tuples n k) in
        let b : free_below (suc i) ≡ free_below i + 1 =
          ground (arith, out, tally_below-suc i (λ x. not (mem x avoid))) in
        let c : free n (i ∷ avoid) ≡ free n avoid - 1 = omega (arith, free_cons n i avoid lt out) in
        rw (a, out, b, inner i, c) (grind arith)
  ]

  kept_from-each :
      (count first : ℕ)
      → first + count ≤ n
      → kept_from avoid (each count first (tuples n k)) + free_below first * each_free
        ≡ free_below (first + count) * each_free
  unfolding each kept_from
  kept_from-each zero first le = let e : first + 0 ≡ first = omega arith in rw e (omega arith)
  kept_from-each (suc count) first le =
      let e : first + suc count ≡ suc first + count = omega arith in
      let rest = kept_from-each count (suc first) (omega (arith, le)) in
      let both =
        kept_from-append avoid (prefix first (tuples n k)) (each count (suc first) (tuples n k)) in
      rw e (omega (arith, rest, both, kept_from-one first (omega (arith, le))))

kept_from-tuples :
    (n k : ℕ) (avoid : List ℕ) → kept_from avoid (tuples n k) ≡ falling (free n avoid) k
unfolding tuples falling kept_from fresh tally_below
kept_from-tuples n zero avoid = omega arith
kept_from-tuples n (suc k) avoid =
    let e : 0 + n ≡ n = omega arith in
    let all = kept_from-each n k avoid (λ i. kept_from-tuples n k (i ∷ avoid)) n 0 (omega arith) in
    omega (arith, rw e at all)

kept-kept_from : (l : List (List ℕ)) → kept l ≡ kept_from [] l
unfolding kept kept_from
kept-kept_from [] = refl
kept-kept_from (t ∷ l) = ap (λ x. to_nat (fresh [] t) + x) (kept-kept_from l)

-- The loops give out `n * (n - 1) * ...` numbers.
pub kept-tuples : (n k : ℕ) → kept (tuples n k) ≡ falling n k
kept-tuples n k =
    kept-kept_from (tuples n k)
    ∙ kept_from-tuples n k []
    ∙ ap (λ m. falling m k) (tally_below-always n)
