-- ===== src/Tiles/Locate.antt =====
-- src/tiles/tiles.cc: the loop of `project` finds the cells of the tiles that the projection keeps.
use pbnf.Base.{
  ℕ, suc, ◌+◌, ◌<◌, ◌≡◌, ap, refl, sym, ◌∙◌, inl, inr, true, false, List, [], ◌∷◌, arith, ◌==◌,
  if◌then◌else◌, length, get_or, mem, mem-get_or, Bool-cases, tally_below, tally_below-put,
  tally_below-all, tally_below-never, Distinct,
}
use pbnf.Tiles.Hash.Laws.{IsPermutation}
use pbnf.Tiles.Numbering.{note, locate}
use pbnf.Tiles.Numbering.Laws.{fresh}
use pbnf.Tiles.Numbering.Count.{Inside}

-- The tiles of these names are in these cells.
unfoldable pub At : List ℕ → List ℕ → List ℕ → Type 0
At tiles [] [] = Unit
At tiles (name ∷ names) (p ∷ ps) =
    (p < length tiles) × (get_or tiles p 0 ≡ name) × At tiles names ps
At tiles _ _ = ⊥

-- The loop for one tile.
spot : ℕ → List ℕ → ℕ → ℕ → ℕ
spot name [] i p = p
spot name (x ∷ tiles) i p = spot name tiles (suc i) (if x == name then i else p)

note-absent :
    (names : List ℕ) (x i : ℕ) (ps : List ℕ)
    → mem x names ≡ false
    → length names ≡ length ps
    → note names x i ps ≡ ps
unfolding note
note-absent [] x i ps h l = refl
note-absent (name ∷ names) x i [] h l = absurd (omega (arith, l))
note-absent (name ∷ names) x i (p ∷ ps) h l =
    let other : (x == name) ≡ false = ground (arith, h) in
    rw other (ap (λ r. p ∷ r) (note-absent names x i ps (ground (arith, h)) (omega (arith, l))))

length-note :
    (names : List ℕ) (x i : ℕ) (ps : List ℕ)
    → length names ≡ length ps
    → length names ≡ length (note names x i ps)
unfolding note
length-note [] x i ps l = l
length-note (name ∷ names) x i [] l = absurd (omega (arith, l))
length-note (name ∷ names) x i (p ∷ ps) l = elim (Bool-cases (x == name)) [
  | inl same ↦ rw same l
  | inr other ↦ rw other (ap suc (length-note names x i ps (omega (arith, l))))
]

locate-spot :
    (name : ℕ) (names tiles : List ℕ) (i p : ℕ) (ps : List ℕ)
    → mem name names ≡ false
    → length names ≡ length ps
    → locate (name ∷ names) tiles i (p ∷ ps) ≡ spot name tiles i p ∷ locate names tiles i ps
unfolding locate spot note
locate-spot name names [] i p ps h l = refl
locate-spot name names (x ∷ tiles) i p ps h l = elim (Bool-cases (x == name)) [
  | inl same ↦
      let e : x ≡ name = ground (arith, same) in
      rw (same, note-absent names x i ps (rw e h) l) (locate-spot name names tiles (suc i) i ps h l)
  | inr other ↦
      rw other
        (locate-spot name names tiles (suc i) p (note names x i ps) h (length-note names x i ps l))
]

spot-absent :
    (name : ℕ) (tiles : List ℕ) (i p : ℕ) → mem name tiles ≡ false → spot name tiles i p ≡ p
unfolding spot
spot-absent name [] i p h = refl
spot-absent name (x ∷ tiles) i p h =
    let other : (x == name) ≡ false = ground (arith, h) in
    rw other (spot-absent name tiles (suc i) p (ground (arith, h)))

-- Where a tile that is there is found.
spot-get_or :
    (name : ℕ) (tiles : List ℕ) (i p : ℕ)
    → mem name tiles ≡ true
    → (k : ℕ) × (spot name tiles i p ≡ i + k) × (k < length tiles) × (get_or tiles k 0 ≡ name)
unfolding spot get_or
spot-get_or name [] i p h = cc
spot-get_or name (x ∷ tiles) i p h = elim (Bool-cases (mem name tiles)) [
  | inl later ↦
      let (k, e, lt, at) = spot-get_or name tiles (suc i) (if x == name then i else p) later in
      (suc k, e ∙ omega arith, omega (arith, lt), at)
  | inr here ↦
      let same : x ≡ name = ground (arith, h, here) in
      (
        0,
        spot-absent name tiles (suc i) (if x == name then i else p) here ∙ ground (arith, same),
        omega arith,
        same,
      )
]

abbrev AllIn : List ℕ → List ℕ → Type 0
AllIn tiles [] = Unit
AllIn tiles (name ∷ names) = (mem name tiles ≡ true) × AllIn tiles names

locate-At :
    (tiles names ps : List ℕ)
    → Distinct names
    → AllIn tiles names
    → length names ≡ length ps
    → At tiles names (locate names tiles 0 ps)
unfolding At locate note
locate-At tiles [] [] d a l = rw (go tiles 0) tt
  where
    go : (tiles : List ℕ) (i : ℕ) → locate [] tiles i [] ≡ []
    go [] i = refl
    go (x ∷ tiles) i = go tiles (suc i)
locate-At tiles [] (p ∷ ps) d a l = absurd (omega (arith, l))
locate-At tiles (name ∷ names) [] d a l = absurd (omega (arith, l))
locate-At tiles (name ∷ names) (p ∷ ps) d a l =
    let (k, e, lt, at) = spot-get_or name tiles 0 p a.0 in
    let found : spot name tiles 0 p ≡ k = omega (arith, e) in
    rw (locate-spot name names tiles 0 p ps d.0 (omega (arith, l)), found)
      (lt, at, locate-At tiles names ps d.1 a.1 (omega (arith, l)))

mem-count :
    (n : ℕ) (l : List ℕ)
    → ((j : ℕ) → j < length l → get_or l j 0 < n)
    → ((j k : ℕ) → j < length l → k < length l → get_or l j 0 ≡ get_or l k 0 → j ≡ k)
    → tally_below n (λ x. mem x l) ≡ length l
unfolding get_or
mem-count n [] below once = tally_below-never n
mem-count n (x ∷ l) below once =
    let new : mem x l ≡ false = elim (Bool-cases (mem x l)) [
      | inr out ↦ out
      | inl old ↦
          let (k, lt, at) = mem-get_or x l old in
          absurd (ground (arith, once 0 (suc k) (omega arith) (omega (arith, lt)) (sym at)))
    ] in
    let change =
      tally_below-put n (λ y. mem y l) (λ y. mem y (x ∷ l)) x (below 0 (omega arith))
        (λ j lt ne. ground (arith, ne)) in
    let rest =
      mem-count n l (λ j lt. below (suc j) (omega (arith, lt)))
        (λ j k p q e.
          let same = once (suc j) (suc k) (omega (arith, p)) (omega (arith, q)) e in
          omega (arith, same)) in
    ground (arith, change, rest, new)

module _ (n : ℕ) (tiles : List ℕ) (v : IsPermutation n tiles) where
  -- A board holds each tile.
  pub mem-tiles : (x : ℕ) → x < n → mem x tiles ≡ true
  mem-tiles =
      tally_below-all n (λ x. mem x tiles)
        (mem-count n tiles (λ j lt. v.below j (omega (arith, lt, v.cells)))
            (λ j k p q. v.distinct j k (omega (arith, p, v.cells)) (omega (arith, q, v.cells)))
          ∙ v.cells)

  At-eq : (names ps qs : List ℕ) → At tiles names ps → At tiles names qs → ps ≡ qs
  unfolding At
  At-eq [] [] [] a b = refl
  At-eq [] [] (q ∷ qs) a b = elim b [ ]
  At-eq [] (p ∷ ps) qs a b = elim a [ ]
  At-eq (name ∷ names) [] qs a b = elim a [ ]
  At-eq (name ∷ names) (p ∷ ps) [] a b = elim b [ ]
  At-eq (name ∷ names) (p ∷ ps) (q ∷ qs) a b =
      let same : p ≡ q =
        v.distinct p q (omega (arith, a.0, v.cells)) (omega (arith, b.0, v.cells))
          (a.1 ∙ sym b.1) in
      rw (same, At-eq names ps qs a.2 b.2) refl

  Inside-AllIn : (names : List ℕ) → Inside n names → AllIn tiles names
  unfolding Inside
  Inside-AllIn [] h = tt
  Inside-AllIn (x ∷ names) h = (mem-tiles x h.0, Inside-AllIn names h.1)

  -- The loop of `project` finds the cells of the tiles, whatever it starts from.
  pub locate_correct :
      (names ps : List ℕ)
      → Distinct names
      → Inside n names
      → length names ≡ length ps
      → At tiles names (locate names tiles 0 ps)
  locate_correct names ps d h l = locate-At tiles names ps d (Inside-AllIn names h) l

  -- They are the only ones.
  pub locate_unique :
      (names ps qs : List ℕ)
      → Distinct names
      → Inside n names
      → length names ≡ length ps
      → At tiles names qs
      → locate names tiles 0 ps ≡ qs
  locate_unique names ps qs d h l at = At-eq names _ qs (locate_correct names ps d h l) at

  pub At-Inside : (names ps : List ℕ) → At tiles names ps → Inside n ps
  unfolding At Inside
  At-Inside [] [] a = tt
  At-Inside [] (p ∷ ps) a = elim a [ ]
  At-Inside (name ∷ names) [] a = elim a [ ]
  At-Inside (name ∷ names) (p ∷ ps) a = (omega (arith, a.0, v.cells), At-Inside names ps a.2)

  -- A cell with one tile is none of those with others.
  pub At-absent :
      (names ps : List ℕ) (p : ℕ)
      → p < n
      → At tiles names ps
      → mem (get_or tiles p 0) names ≡ false
      → mem p ps ≡ false
  unfolding At
  At-absent [] [] p lt a out = refl
  At-absent [] (q ∷ ps) p lt a out = elim a [ ]
  At-absent (name ∷ names) [] p lt a out = elim a [ ]
  At-absent (name ∷ names) (q ∷ ps) p lt a out = elim (Bool-cases (q == p)) [
    | inl same ↦ let e : q ≡ p = ground (arith, same) in absurd (ground (arith, e, a.1, out))
    | inr other ↦ rw other (At-absent names ps p lt a.2 (ground (arith, out)))
  ]

  pub At-Distinct : (names ps : List ℕ) → Distinct names → At tiles names ps → Distinct ps
  unfolding At
  At-Distinct [] [] d a = tt
  At-Distinct [] (p ∷ ps) d a = elim a [ ]
  At-Distinct (name ∷ names) [] d a = elim a [ ]
  At-Distinct (name ∷ names) (p ∷ ps) d a = (
    At-absent names ps p (omega (arith, a.0, v.cells)) a.2 (rw a.1 d.0),
    At-Distinct names ps d.1 a.2,
  )

pub At-length : (tiles names ps : List ℕ) → At tiles names ps → length ps ≡ length names
unfolding At
At-length tiles [] [] a = refl
At-length tiles [] (p ∷ ps) a = elim a [ ]
At-length tiles (name ∷ names) [] a = elim a [ ]
At-length tiles (name ∷ names) (p ∷ ps) a = ap suc (At-length tiles names ps a.2)

fresh-apart :
    (avoid t : List ℕ)
    → Distinct t
    → ((x : ℕ) → mem x avoid ≡ true → mem x t ≡ false)
    → fresh avoid t ≡ true
unfolding fresh
fresh-apart avoid [] d out = refl
fresh-apart avoid (x ∷ t) d out =
    let new : mem x avoid ≡ false = ground (arith, out x) in
    let rest = fresh-apart (x ∷ avoid) t d.1 (λ y h. ground (arith, h, d.0, out y)) in
    rw (new, rest) refl

-- The test of `setup_proj` is that no cell is twice in the tuple.
pub Distinct-fresh : (t : List ℕ) → Distinct t → fresh [] t ≡ true
Distinct-fresh t d = fresh-apart [] t d (λ x h. cc)

apart-fresh :
    (avoid t : List ℕ)
    → fresh avoid t ≡ true
    → Distinct t × ((x : ℕ) → mem x avoid ≡ true → mem x t ≡ false)
unfolding fresh
apart-fresh avoid [] h = (tt, λ x m. refl)
apart-fresh avoid (x ∷ t) h =
    let rest = apart-fresh (x ∷ avoid) t (ground (arith, h)) in
    ((rest.1 x (ground arith), rest.0), λ y m. ground (arith, h, m, rest.1 y))

pub fresh-Distinct : (t : List ℕ) → fresh [] t ≡ true → Distinct t
fresh-Distinct t h = (apart-fresh [] t h).0
