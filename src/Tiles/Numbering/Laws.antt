-- ===== src/Tiles/Numbering/Laws.antt =====
-- src/tiles/tiles.cc: the nested loops give each tuple of different cells one number.
use pbnf.Base.{
  ℕ, zero, suc, ◌+◌, ◌≤◌, ◌<◌, ◌≡◌, ◌≢◌, ◌⊎◌, ap, refl, sym, ◌∙◌, inl, inr, Bool, true, false, not,
  ◌&&◌, List, [], ◌∷◌, ◌++◌, arith, if◌then◌else◌, length, get_or, set, get_or-set, length-set, mem,
  Bool-cases, to_nat,
}
use native.Mathlib.Decide.{ℕ_discrete}
use pbnf.Tiles.Domain.{equals}
use pbnf.Tiles.Numbering.{Numbering, enter, loop}

pub equals_refl : (t : List ℕ) → equals t t ≡ true
unfolding equals
equals_refl [] = refl
equals_refl (x ∷ t) = ground (arith, equals_refl t)

-- Two tuples of one length that are the same cell by cell are one.
pub equals-eq : (t u : List ℕ) → length t ≡ length u → equals t u ≡ true → t ≡ u
unfolding equals
equals-eq [] [] l e = refl
equals-eq [] (y ∷ u) l e = absurd (omega (arith, l))
equals-eq (x ∷ t) [] l e = absurd (omega (arith, l))
equals-eq (x ∷ t) (y ∷ u) l e =
    let same : x ≡ y = ground (arith, e) in
    rw (same, equals-eq t u (omega (arith, l)) (ground (arith, e))) refl

-- The cells are all different, and none is in `avoid`.
unfoldable pub fresh : List ℕ → List ℕ → Bool
fresh avoid [] = true
fresh avoid (x ∷ t) = not (mem x avoid) && fresh (x ∷ avoid) t

-- `setup_proj`, for any number of tiles
unfoldable pub enter_fresh : List ℕ → Numbering → Numbering
enter_fresh t st = if fresh [] t then enter t st else st

-- `k` nested loops over the cells.
unfoldable pub nest : ℕ → ℕ → (List ℕ → Numbering → Numbering) → Numbering → Numbering
nest n zero body st = body [] st
nest n (suc k) body st = loop n 0 (λ i. nest n k (λ t. body (i ∷ t))) st

-- The tuples in the order of the loops.
unfoldable pub prefix : ℕ → List (List ℕ) → List (List ℕ)
prefix i [] = []
prefix i (t ∷ l) = (i ∷ t) ∷ prefix i l

unfoldable pub each : ℕ → ℕ → List (List ℕ) → List (List ℕ)
each zero first l = []
each (suc count) first l = prefix first l ++ each count (suc first) l

unfoldable pub tuples : ℕ → ℕ → List (List ℕ)
tuples n zero = [] ∷ []
tuples n (suc k) = each n 0 (tuples n k)

unfoldable pub run : (List ℕ → Numbering → Numbering) → List (List ℕ) → Numbering → Numbering
run body [] st = st
run body (t ∷ l) st = run body l (body t st)

run-append :
    (body : List ℕ → Numbering → Numbering) (a b : List (List ℕ)) (st : Numbering)
    → run body (a ++ b) st ≡ run body b (run body a st)
unfolding run
run-append body [] b st = refl
run-append body (t ∷ a) b st = run-append body a b (body t st)

run-prefix :
    (body : List ℕ → Numbering → Numbering) (i : ℕ) (l : List (List ℕ)) (st : Numbering)
    → run body (prefix i l) st ≡ run (λ t. body (i ∷ t)) l st
unfolding run prefix
run-prefix body i [] st = refl
run-prefix body i (t ∷ l) st = run-prefix body i l (body (i ∷ t) st)

pub nest-run :
    (n k : ℕ) (body : List ℕ → Numbering → Numbering) (st : Numbering)
    → nest n k body st ≡ run body (tuples n k) st
unfolding nest tuples run loop each
nest-run n zero body st = refl
nest-run n (suc k) body st = go n 0 (λ i. nest-run n k (λ t. body (i ∷ t))) st
  where
    go :
        (count first : ℕ)
        → ((i : ℕ) (st : Numbering)
            → nest n k (λ t. body (i ∷ t)) st ≡ run (λ t. body (i ∷ t)) (tuples n k) st)
        → (st : Numbering)
        → loop count first (λ i. nest n k (λ t. body (i ∷ t))) st
          ≡ run body (each count first (tuples n k)) st
    go zero first inner st = refl
    go (suc count) first inner st = rw (inner first st) (
        go count (suc first) inner (run (λ t. body (first ∷ t)) (tuples n k) st)
        ∙ rw (sym (run-prefix body first (tuples n k) st)) (
            sym (
              run-append body (prefix first (tuples n k)) (each count (suc first) (tuples n k))
                st)))

unfoldable pub Member : List ℕ → List (List ℕ) → Type 0
Member t [] = ⊥
Member t (u ∷ l) = (t ≡ u) ⊎ Member t l

unfoldable pub Once : List (List ℕ) → Type 0
Once [] = Unit
Once (t ∷ l) = (¬ Member t l) × Once l

unfoldable pub Uniform : ℕ → List (List ℕ) → Type 0
Uniform k [] = Unit
Uniform k (t ∷ l) = (length t ≡ k) × Uniform k l

-- How many of the tuples get a number.
unfoldable pub kept : List (List ℕ) → ℕ
kept [] = 0
kept (t ∷ l) = to_nat (fresh [] t) + kept l

abbrev pub enter_all : List (List ℕ) → Numbering → Numbering
enter_all = run enter_fresh

enter_all-new :
    (t : List ℕ) (l : List (List ℕ)) (st : Numbering)
    → fresh [] t ≡ true
    → enter_all (t ∷ l) st ≡ enter_all l (enter t st)
unfolding run enter_fresh
enter_all-new t l st new = ap (λ b. enter_all l (if b then enter t st else st)) new

enter_all-old :
    (t : List ℕ) (l : List (List ℕ)) (st : Numbering)
    → fresh [] t ≡ false
    → enter_all (t ∷ l) st ≡ enter_all l st
unfolding run enter_fresh
enter_all-old t l st old = ap (λ b. enter_all l (if b then enter t st else st)) old

kept-new : (t : List ℕ) (l : List (List ℕ)) → fresh [] t ≡ true → kept (t ∷ l) ≡ 1 + kept l
unfolding kept
kept-new t l new = ap (λ b. to_nat b + kept l) new

kept-old : (t : List ℕ) (l : List (List ℕ)) → fresh [] t ≡ false → kept (t ∷ l) ≡ kept l
unfolding kept
kept-old t l old = omega (arith, ap to_nat old)

pub id-enter_all : (l : List (List ℕ)) (st : Numbering) → (enter_all l st).id ≡ st.id + kept l
unfolding run kept enter
id-enter_all [] st = omega arith
id-enter_all (t ∷ l) st = elim (Bool-cases (fresh [] t)) [
  | inl new ↦
      rw (enter_all-new t l st new, kept-new t l new) (id-enter_all l (enter t st) ∙ omega arith)
  | inr old ↦ rw (enter_all-old t l st old, kept-old t l old) (id-enter_all l st)
]

pub length-enter_all :
    (l : List (List ℕ)) (st : Numbering) → length (enter_all l st).unproj ≡ length st.unproj
unfolding run enter
length-enter_all [] st = refl
length-enter_all (t ∷ l) st = elim (Bool-cases (fresh [] t)) [
  | inl new ↦
      rw (enter_all-new t l st new) (length-enter_all l (enter t st) ∙ length-set st.unproj st.id t)
  | inr old ↦ rw (enter_all-old t l st old) (length-enter_all l st)
]

pub Member-length :
    (k : ℕ) (t : List ℕ) (l : List (List ℕ)) → Uniform k l → Member t l → length t ≡ k
unfolding Uniform Member
Member-length k t [] u h = elim h [ ]
Member-length k t (v ∷ l) u (inl e) = rw e u.0
Member-length k t (v ∷ l) u (inr m) = Member-length k t l u.1 m

-- A tuple that is none of those that follow keeps its number.
proj-enter_all :
    (k : ℕ) (t : List ℕ) (l : List (List ℕ)) (st : Numbering)
    → length t ≡ k
    → Uniform k l
    → ¬ Member t l
    → (enter_all l st).proj t ≡ st.proj t
unfolding run enter Uniform Member
proj-enter_all k t [] st len u m = refl
proj-enter_all k t (v ∷ l) st len u m = elim (Bool-cases (fresh [] v)) [
  | inl new ↦ rw (enter_all-new v l st new) (
      proj-enter_all k t l (enter v st) len u.1 (λ h. m (inr h)) ∙ elim (Bool-cases (equals v t)) [
        | inl same ↦ absurd (m (inl (sym (equals-eq v t (u.0 ∙ sym len) same))))
        | inr other ↦ rw other refl
      ])
  | inr old ↦ rw (enter_all-old v l st old) (proj-enter_all k t l st len u.1 (λ h. m (inr h)))
]

get_or-set_other :
    (l : List (List ℕ)) (i j : ℕ) (v : List ℕ) → i ≢ j → get_or (set l i v) j [] ≡ get_or l j []
unfolding get_or
get_or-set_other [] i j v ne = refl
get_or-set_other (x ∷ l) zero zero v ne = absurd (ne refl)
get_or-set_other (x ∷ l) zero (suc j) v ne = refl
get_or-set_other (x ∷ l) (suc i) zero v ne = refl
get_or-set_other (x ∷ l) (suc i) (suc j) v ne = get_or-set_other l i j v (λ e. ne (ap suc e))

-- Numbers that are given keep their cells.
unproj-enter_all :
    (i : ℕ) (l : List (List ℕ)) (st : Numbering)
    → i < st.id
    → get_or (enter_all l st).unproj i [] ≡ get_or st.unproj i []
unfolding run enter
unproj-enter_all i [] st lt = refl
unproj-enter_all i (t ∷ l) st lt = elim (Bool-cases (fresh [] t)) [
  | inl new ↦ rw (enter_all-new t l st new) (
      unproj-enter_all i l (enter t st) (omega (arith, lt))
      ∙ get_or-set_other st.unproj st.id i t (λ e. absurd (omega (arith, e, lt))))
  | inr old ↦ rw (enter_all-old t l st old) (unproj-enter_all i l st lt)
]

-- The number of a tuple, and the tuple of the number.
pub record Numbered (r : Numbering) (from : ℕ) (t : List ℕ) (i : ℕ) : Type 0 where
  pub low : from ≤ i
  pub high : i < r.id
  pub number : r.proj t ≡ i
  pub back : get_or r.unproj i [] ≡ t

earlier : {r : Numbering} {n : ℕ} {t : List ℕ} {i : ℕ} → Numbered r (n + 1) t i → Numbered r n t i
earlier v = record { low = omega (arith, v.low); high = v.high; number = v.number; back = v.back }

room :
    (t : List ℕ) (l : List (List ℕ)) (st : Numbering)
    → fresh [] t ≡ true
    → st.id + kept (t ∷ l) ≤ length st.unproj
    → (st.id < length st.unproj) × ((enter t st).id + kept l ≤ length (enter t st).unproj)
unfolding kept enter
room t l st new h =
    let more = rw (kept-new t l new) at h in
    (omega (arith, more), omega (arith, more, length-set st.unproj st.id t))

module _ (k : ℕ) where
  first_given :
      (t : List ℕ) (l : List (List ℕ)) (st : Numbering)
      → Uniform k (t ∷ l)
      → Once (t ∷ l)
      → st.id < length st.unproj
      → Numbered (enter_all l (enter t st)) st.id t st.id
  unfolding enter Uniform Once
  first_given t l st u o lt = record {
    low = omega arith;
    high = omega (arith, id-enter_all l (enter t st));
    number = proj-enter_all k t l (enter t st) u.0 u.1 o.0 ∙ rw (equals_refl t) refl;
    back =
        unproj-enter_all st.id l (enter t st) (omega arith)
        ∙ get_or-set st.unproj st.id st.id t [] lt
        ∙ ground arith;
  }

  -- Each tuple of different cells has a number that leads back to it.
  pub number_of :
      (t : List ℕ) (l : List (List ℕ)) (st : Numbering)
      → Uniform k l
      → Once l
      → st.id + kept l ≤ length st.unproj
      → Member t l
      → fresh [] t ≡ true
      → Numbered (enter_all l st) st.id t ((enter_all l st).proj t)
  unfolding run enter Uniform Once Member kept
  number_of t [] st u o h m new = elim m [ ]
  number_of t (v ∷ l) st u o h (inl e) new =
      let here = rw e at new in
      let (lt, more) = room v l st here h in
      let n = first_given v l st u o lt in rw (e, enter_all-new v l st here, n.number) n
  number_of t (v ∷ l) st u o h (inr m) new = elim (Bool-cases (fresh [] v)) [
    | inl there ↦
        let (lt, more) = room v l st there h in
        rw (enter_all-new v l st there) (earlier (number_of t l (enter v st) u.1 o.1 more m new))
    | inr old ↦
        let more = rw (kept-old v l old) at h in
        rw (enter_all-old v l st old) (number_of t l st u.1 o.1 (omega (arith, more)) m new)
  ]

  -- Each number that is given is the number of a tuple.
  pub tuple_of :
      (i : ℕ) (l : List (List ℕ)) (st : Numbering)
      → Uniform k l
      → Once l
      → st.id + kept l ≤ length st.unproj
      → st.id ≤ i
      → i < st.id + kept l
      → (t : List ℕ) × Member t l × (fresh [] t ≡ true) × Numbered (enter_all l st) st.id t i
  unfolding run enter Uniform Once Member kept
  tuple_of i [] st u o h le lt = absurd (omega (arith, le, lt))
  tuple_of i (v ∷ l) st u o h le lt = elim (Bool-cases (fresh [] v)) [
    | inl there ↦
        let (less, more) = room v l st there h in
        let last = rw (kept-new v l there) at lt in
        elim (ℕ_discrete st.id i) [
          | yes same ↦
              rw (sym same)
                (v, inl refl, there, rw (enter_all-new v l st there) (first_given v l st u o less))
          | no other ↦
              let (t, m, new, n) =
                tuple_of i l (enter v st) u.1 o.1 more (omega (arith, other, le))
                  (omega (arith, last)) in
              (t, inr m, new, rw (enter_all-new v l st there) (earlier n))
        ]
    | inr old ↦
        let more = rw (kept-old v l old) at h in
        let last = rw (kept-old v l old) at lt in
        let (t, m, new, n) =
          tuple_of i l st u.1 o.1 (omega (arith, more)) le (omega (arith, last)) in
        (t, inr m, new, rw (enter_all-old v l st old) n)
  ]
