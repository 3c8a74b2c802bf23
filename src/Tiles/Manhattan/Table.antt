-- ===== src/Tiles/Manhattan/Table.antt =====
-- src/tiles/tiles.cc: the table of `ManhattanDist` holds the distances.
use pbnf.Base.{
  ℕ, zero, suc, ◌+◌, ◌-◌, ◌*◌, ◌<◌, ◌≡◌, refl, ap, ◌∙◌, List, [], ◌∷◌, ◌++◌, arith, ltb, ◌==◌,
  if◌then◌else◌, length, get_or, replicate, length-replicate,
}
use pbnf.Tiles.Domain.{Tiles, size}
use pbnf.Tiles.Manhattan.{entry, entries, rows, table, lookup_dist}

get_or-append_list :
    (xs ys : List ℕ) (i : ℕ)
    → get_or (xs ++ ys) i 0
      ≡ (if ltb i (length xs) then get_or xs i 0 else get_or ys (i - length xs) 0)
unfolding get_or
get_or-append_list [] ys i = let e : i - 0 ≡ i = omega arith in ground (arith, e)
get_or-append_list (x ∷ xs) ys zero = ground arith
get_or-append_list (x ∷ xs) ys (suc i) =
    let e : suc i - suc (length xs) ≡ i - length xs = omega arith in
    ground (arith, e, get_or-append_list xs ys i)

length-entries : (d : Tiles) (tile pos n : ℕ) → length (entries d tile pos n) ≡ n
unfolding entries
length-entries d tile pos zero = refl
length-entries d tile pos (suc n) = ap suc (length-entries d tile (suc pos) n)

get_or-entries :
    (d : Tiles) (tile pos n i : ℕ)
    → i < n
    → get_or (entries d tile pos n) i 0 ≡ entry d tile (pos + i)
unfolding entries get_or
get_or-entries d tile pos zero i h = absurd (omega arith)
get_or-entries d tile pos (suc n) zero h = ap (entry d tile) (omega arith)
get_or-entries d tile pos (suc n) (suc i) h =
    get_or-entries d tile (suc pos) n i (omega arith) ∙ ap (entry d tile) (omega arith)

-- The first row of `rows`.
abbrev row : Tiles → ℕ → List ℕ
row d tile = if tile == 0 then replicate (size d) 0 else entries d tile 0 (size d)

length-row : (d : Tiles) (tile : ℕ) → length (row d tile) ≡ size d
length-row d tile =
    ground (arith, length-replicate {A = ℕ} (size d) 0, length-entries d tile 0 (size d))

get_or-row :
    (d : Tiles) (tile pos : ℕ)
    → 0 < tile
    → pos < size d
    → get_or (row d tile) pos 0 ≡ entry d tile pos
get_or-row d tile pos h lt =
    let e : 0 + pos ≡ pos = omega arith in
    let at = get_or-entries d tile 0 (size d) pos lt in ground (arith, rw e at at)

get_or-rows :
    (d : Tiles) (tile n j pos : ℕ)
    → j < n
    → pos < size d
    → get_or (rows d tile n) (j * size d + pos) 0 ≡ get_or (row d (tile + j)) pos 0
unfolding rows
get_or-rows d tile zero j pos h lt = absurd (omega arith)
get_or-rows d tile (suc n) zero pos h lt =
    let e : 0 * size d + pos ≡ pos = omega arith in
    let f : tile + 0 ≡ tile = omega arith in
    rw (e, f)
      (get_or-append_list (row d tile) (rows d (suc tile) n) pos
        ∙ ground (arith, length-row d tile))
get_or-rows d tile (suc n) (suc j) pos h lt =
    let out : (suc j) * size d + pos ≡ size d + (j * size d + pos) = grind arith in
    let f : tile + suc j ≡ suc tile + j = omega arith in
    let back : size d + (j * size d + pos) - size d ≡ j * size d + pos = omega arith in
    rw (out, f)
      (get_or-append_list (row d tile) (rows d (suc tile) n) (size d + (j * size d + pos))
        ∙ rw (length-row d tile, back)
            (ground (arith, get_or-rows d (suc tile) n j pos (omega arith) lt)))

-- `lookup_dist` of a tile and a cell of the puzzle is the entry that `init` computes for them.
pub lookup_dist-entry :
    (d : Tiles) (num pos : ℕ)
    → 0 < num
    → num < size d
    → pos < size d
    → lookup_dist d num pos ≡ entry d num pos
unfolding lookup_dist table
lookup_dist-entry d num pos h lt inside =
    let e : 0 + num ≡ num = omega arith in
    get_or-rows d 0 (size d) num pos lt inside ∙ rw e (get_or-row d num pos h inside)
