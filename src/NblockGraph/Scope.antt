-- ===== src/NblockGraph/Scope.antt =====
-- src/pbnf/nblock.cc: the interference scope that an nblock is built with, over the projection of
-- src/projection.h.
use pbnf.Base.{
  ℕ, ◌<◌, ◌≡◌, ◌≢◌, ◌⊎◌, inl, inr, refl, sym, ◌∙◌, Bool, true, false, ◌||◌, List, [], ◌∷◌, arith,
  ltb, Bool-cases, ◌==◌, if◌then◌else◌, mem, Distinct,
}
use mathlib.Core.Logic.{◌↔◌}
use pbnf.NblockGraph.Cold.{IsScope}

-- What a projection says of the abstract graph.
pub record Projection : Type 0 where
  pub num_nblocks : ℕ
  pub get_successors : ℕ → List ℕ
  pub get_predecessors : ℕ → List ℕ

-- The two lists are those of one relation between the blocks below `num_nblocks`.
pub record IsProjection (p : Projection) : Type 0 where
  pub inverse : (a b : ℕ) → mem a (p.get_predecessors b) ≡ mem b (p.get_successors a)
  pub range :
      (a b : ℕ) → mem a (p.get_predecessors b) ≡ true → (a < p.num_nblocks) × (b < p.num_nblocks)

-- `set::insert`: a set is the ascending list of its elements.
unfoldable pub set_insert : ℕ → List ℕ → List ℕ
set_insert x [] = x ∷ []
set_insert x (y ∷ l) =
    let rest = y ∷ set_insert x l in if x == y then y ∷ l else if ltb x y then x ∷ y ∷ l else rest

unfoldable pub insert_all : List ℕ → List ℕ → List ℕ
insert_all [] l = l
insert_all (x ∷ xs) l = insert_all xs (set_insert x l)

-- The loop over the successors.
unfoldable pub insert_successors : Projection → List ℕ → List ℕ → List ℕ
insert_successors p [] l = l
insert_successors p (i ∷ is) l =
    insert_successors p is (insert_all (p.get_predecessors i) (set_insert i l))

-- The loop that fills `interferes`.
unfoldable pub others : ℕ → List ℕ → List ℕ
others id [] = []
others id (k ∷ ks) = if k == id then others id ks else k ∷ others id ks

-- The `interferes` array of the constructor.
unfoldable pub interferes : Projection → ℕ → List ℕ
interferes p id =
    others id (insert_successors p (p.get_successors id) (insert_all (p.get_predecessors id) []))

Ascending : List ℕ → Type 0
Ascending [] = Unit
Ascending (x ∷ l) = ((y : ℕ) → mem y l ≡ true → x < y) × Ascending l

pub mem-set_insert :
    (x y : ℕ) (l : List ℕ) → mem x (set_insert y l) ≡ (if y == x then true else mem x l)
unfolding set_insert
mem-set_insert x y [] = refl
mem-set_insert x y (z ∷ l) = ground (arith, mem-set_insert x y l)

Ascending-set_insert : (x : ℕ) (l : List ℕ) → Ascending l → Ascending (set_insert x l)
unfolding set_insert Ascending
Ascending-set_insert x [] a = (λ y h. cc, tt)
Ascending-set_insert x (y ∷ l) a = elim (Bool-cases (x == y)) [
  | inl same ↦ rw same a
  | inr other ↦ elim (Bool-cases (ltb x y)) [
    | inl less ↦ rw (other, less) (λ z h. ground (arith, h, less, a.0 z), a)
    | inr more ↦
        rw (other, more)
          (
            λ z h. ground (arith, h, other, more, a.0 z, mem-set_insert z x l),
            Ascending-set_insert x l a.1,
          )
  ]
]

Ascending-Distinct : (l : List ℕ) → Ascending l → Distinct l
unfolding Ascending
Ascending-Distinct [] a = tt
Ascending-Distinct (x ∷ l) a = (ground (arith, a.0 x), Ascending-Distinct l a.1)

mem-insert_all :
    (x : ℕ) (ys l : List ℕ) → mem x (insert_all ys l) ≡ (if mem x ys then true else mem x l)
unfolding insert_all
mem-insert_all x [] l = refl
mem-insert_all x (y ∷ ys) l =
    mem-insert_all x ys (set_insert y l) ∙ ground (arith, mem-set_insert x y l)

Ascending-insert_all : (ys l : List ℕ) → Ascending l → Ascending (insert_all ys l)
unfolding insert_all
Ascending-insert_all [] l a = a
Ascending-insert_all (y ∷ ys) l a =
    Ascending-insert_all ys (set_insert y l) (Ascending-set_insert y l a)

-- `x` is one of the blocks, or a predecessor of one.
abbrev reached : Projection → ℕ → List ℕ → Bool
reached p x [] = false
reached p x (s ∷ ss) = if s == x || mem x (p.get_predecessors s) then true else reached p x ss

mem-insert_successors :
    (p : Projection) (x : ℕ) (ss l : List ℕ)
    → mem x (insert_successors p ss l) ≡ (if reached p x ss then true else mem x l)
unfolding insert_successors
mem-insert_successors p x [] l = refl
mem-insert_successors p x (s ∷ ss) l =
    mem-insert_successors p x ss (insert_all (p.get_predecessors s) (set_insert s l))
    ∙ ground (arith, mem-insert_all x (p.get_predecessors s) (set_insert s l), mem-set_insert x s l)

Ascending-insert_successors :
    (p : Projection) (ss l : List ℕ) → Ascending l → Ascending (insert_successors p ss l)
unfolding insert_successors
Ascending-insert_successors p [] l a = a
Ascending-insert_successors p (s ∷ ss) l a =
    Ascending-insert_successors p ss _
      (Ascending-insert_all (p.get_predecessors s) _ (Ascending-set_insert s l a))

mem-others : (id x : ℕ) (l : List ℕ) → mem x (others id l) ≡ (if id == x then false else mem x l)
unfolding others
mem-others id x [] = ground arith
mem-others id x (y ∷ l) = ground (arith, mem-others id x l)

Ascending-others : (id : ℕ) (l : List ℕ) → Ascending l → Ascending (others id l)
unfolding others Ascending
Ascending-others id [] a = tt
Ascending-others id (y ∷ l) a = elim (Bool-cases (y == id)) [
  | inl same ↦ rw same (Ascending-others id l a.1)
  | inr other ↦
      rw other (λ z h. ground (arith, h, a.0 z, mem-others id z l), Ascending-others id l a.1)
]

reached-mem :
    (p : Projection) (x : ℕ) (ss : List ℕ)
    → reached p x ss ≡ true
    → (s : ℕ) × (mem s ss ≡ true) × ((s == x || mem x (p.get_predecessors s)) ≡ true)
reached-mem p x [] h = cc
reached-mem p x (s ∷ ss) h = elim (Bool-cases (s == x || mem x (p.get_predecessors s))) [
  | inl here ↦ (s, ground arith, here)
  | inr there ↦
      let (t, at, by) = reached-mem p x ss (ground (arith, h, there)) in (t, ground (arith, at), by)
]

mem-reached :
    (p : Projection) (x s : ℕ) (ss : List ℕ)
    → mem s ss ≡ true
    → (s == x || mem x (p.get_predecessors s)) ≡ true
    → reached p x ss ≡ true
mem-reached p x s [] h by = cc
mem-reached p x s (t ∷ ss) h by = elim (Bool-cases (t == s)) [
  | inl same ↦ let e : t ≡ s = ground (arith, same) in rw e (ground (arith, by))
  | inr other ↦ ground (arith, other, h, mem-reached p x s ss (ground (arith, h, other)) by)
]

-- What the array holds: every other block that is a predecessor, a successor, or a predecessor of
-- a successor.
pub mem-interferes :
    (p : Projection) (a x : ℕ)
    → mem x (interferes p a)
      ≡ (if a == x then false else mem x (p.get_predecessors a) || reached p x (p.get_successors a))
unfolding interferes
mem-interferes p a x =
    mem-others a x _
    ∙ ground (
      arith,
      mem-insert_successors p x (p.get_successors a) (insert_all (p.get_predecessors a) []),
      mem-insert_all x (p.get_predecessors a) [],
    )

module _ (p : Projection) (ok : IsProjection p) where
  mem-interferes_symm : (a x : ℕ) → mem x (interferes p a) ≡ true → mem a (interferes p x) ≡ true
  mem-interferes_symm a x h =
      let at = mem-interferes p a x in
      elim (Bool-cases (mem x (p.get_predecessors a))) [
        | inl before ↦
            let back : reached p a (p.get_successors x) ≡ true =
              mem-reached p a a (p.get_successors x) (sym (ok.inverse x a) ∙ before)
                (ground arith) in
            mem-interferes p x a ∙ ground (arith, back, at, h)
        | inr after ↦
            let (s, here, by) =
              reached-mem p x (p.get_successors a) (ground (arith, h, at, after)) in
            elim (Bool-cases (s == x)) [
              | inl same ↦
                  let e : s ≡ x = ground (arith, same) in
                  let back : mem a (p.get_predecessors x) ≡ true = ok.inverse a x ∙ rw e at here in
                  mem-interferes p x a ∙ ground (arith, back, at, h)
              | inr other ↦
                  let over : mem x (p.get_predecessors s) ≡ true = ground (arith, by, other) in
                  let back : reached p a (p.get_successors x) ≡ true =
                    mem-reached p a s (p.get_successors x) (sym (ok.inverse x s) ∙ over) (
                      let e : mem a (p.get_predecessors s) ≡ true = ok.inverse a s ∙ here in
                      ground (arith, e)) in
                  mem-interferes p x a ∙ ground (arith, back, at, h)
            ]
      ]

  pub interferes-IsScope : IsScope (interferes p)
  unfolding interferes
  interferes-IsScope = record {
    irrefl = λ a. mem-interferes p a a ∙ ground arith;
    symm = λ a b. ground (arith, mem-interferes_symm a b, mem-interferes_symm b a);
    distinct = λ a. Ascending-Distinct _ (
        Ascending-others a _ (
          Ascending-insert_successors p (p.get_successors a) _
            (Ascending-insert_all (p.get_predecessors a) [] (unfold Ascending in tt))));
  }

  pub interferes-lt : (a b : ℕ) → mem a (interferes p b) ≡ true → a < p.num_nblocks
  interferes-lt a b h =
      let at = mem-interferes p b a in
      elim (Bool-cases (mem a (p.get_predecessors b))) [
        | inl before ↦ (ok.range a b before).0
        | inr after ↦
            let (s, here, by) =
              reached-mem p a (p.get_successors b) (ground (arith, h, at, after)) in
            let edge = ok.range b s (ok.inverse b s ∙ here) in
            elim (Bool-cases (s == a)) [
              | inl same ↦ let e : s ≡ a = ground (arith, same) in rw e at edge.1
              | inr other ↦ (ok.range a s (ground (arith, by, other))).0
            ]
      ]

  -- A successor of a block is the block itself or interferes with it.
  pub mem-successors :
      (a x : ℕ) → mem x (p.get_successors a) ≡ true → (a ≡ x) ⊎ (mem x (interferes p a) ≡ true)
  mem-successors a x h = elim (Bool-cases (a == x)) [
    | inl same ↦ inl (ground (arith, same))
    | inr other ↦ inr (
        mem-interferes p a x
        ∙ ground (arith, other, mem-reached p x x (p.get_successors a) h (ground arith)))
  ]

  -- The duplicate detection scope of a block, into which a thread with the block writes: the
  -- block and its successors.
  abbrev pub in_scope : ℕ → ℕ → Bool
  in_scope n x = n == x || mem x (p.get_successors n)

  -- Two different blocks that do not interfere have disjoint duplicate detection scopes.
  pub in_scope-disjoint :
      (n m x : ℕ)
      → n ≢ m
      → mem m (interferes p n) ≡ false
      → in_scope n x ≡ true
      → in_scope m x ≡ false
  in_scope-disjoint n m x ne apart h = elim (Bool-cases (in_scope m x)) [
    | inr out ↦ out
    | inl both ↦
        let at = mem-interferes p n m in
        let over : mem x (p.get_successors n) ≡ true → reached p m (p.get_successors n) ≡ true =
          λ s. mem-reached p m x (p.get_successors n) s (ground (arith, both, ok.inverse m x)) in
        absurd (ground (arith, ne, apart, h, both, at, over, ok.inverse m x, ok.inverse m n))
  ]

  -- The constructor builds interference scopes: no block is in its own, two blocks are in each
  -- other's or in neither, and no block is in one twice. The scope of a block holds exactly the
  -- other blocks whose duplicate detection scope has a block in common with its own.
  pub interferes_correct :
      IsScope (interferes p)
      × ((a x : ℕ)
          → (mem x (interferes p a) ≡ true)
            ↔ ((a ≢ x) × ((s : ℕ) × (in_scope a s ≡ true) × (in_scope x s ≡ true))))
  interferes_correct = (interferes-IsScope, λ a x. (shared a x, λ w. met a x w.1.0 w.0 w.1.1 w.1.2))
    where
      shared :
          (a x : ℕ)
          → mem x (interferes p a) ≡ true
          → (a ≢ x) × ((s : ℕ) × (in_scope a s ≡ true) × (in_scope x s ≡ true))
      shared a x h =
          let at = mem-interferes p a x in
          (
            ground (arith, at, h),
            elim (Bool-cases (mem x (p.get_predecessors a))) [
              | inl before ↦ (a, ground arith, ground (arith, before, ok.inverse x a))
              | inr after ↦
                  let (s, here, by) =
                    reached-mem p x (p.get_successors a) (ground (arith, h, at, after)) in
                  (s, ground (arith, here), ground (arith, by, ok.inverse x s))
            ],
          )

      met :
          (a x s : ℕ)
          → a ≢ x
          → in_scope a s ≡ true
          → in_scope x s ≡ true
          → mem x (interferes p a) ≡ true
      met a x s ne h k = elim (Bool-cases (mem x (interferes p a))) [
        | inl inside ↦ inside
        | inr apart ↦ absurd (ground (arith, k, in_scope-disjoint a x s ne apart h))
      ]
