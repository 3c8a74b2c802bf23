-- ===== src/HashTable/Map.antt =====
-- src/util/hash_table.h: the public operations against the map from hashes to elements.
use pbnf.Base.{
  ℕ, ◌+◌, ◌-◌, ◌*◌, ◌/◌, ◌%◌, ◌^◌, ◌<◌, ◌≡◌, refl, sym, true, ap, ◌∙◌, List, [], Option, none, some,
  arith, true, leb, Bool-cases, inl, inr, ◌==◌, if◌then◌else◌, is_some, set, get_or, get_or-set,
  get_or-replicate,
}
use pbnf.HashTable.{Table, new, allocated, resize, add, lookup, remove, for_each, counted, elements}
use pbnf.HashTable.Buckets.{
  Chain, chain_lookup, chain_lookup-hash, chain_remove, IsSorted-chain_remove, IsHome-chain_remove,
  chain_lookup-chain_remove, chain_remove-found,
}
use pbnf.HashTable.Laws.{
  IsPlaced, find, IsPlaced-replicate, do_add-IsPlaced, find-do_add, slot-lt, set-IsPlaced,
}
use pbnf.HashTable.Resize.{resize_correct}

-- Below 2 ^ 32 buckets the loop of `for_each` ends.
pub for_each-some :
    {E : Type 0} (t : Table E)
    → is_some t.table ≡ true
    → t.size < 2 ^ 32
    → (all : List E) × (for_each t ≡ some all)
unfolding for_each counted
for_each-some {E = E} t on small = buckets t.table on
  where
    buckets :
        (o : Option (List (Chain E)))
        → is_some o ≡ true
        → (all : List E) × ((elim o [ none ↦ some [] | some cs ↦ counted t.size (elements cs) ])
            ≡ some all)
    buckets none h = cc
    buckets (some cs) h = (elements cs, ground (arith, small))

module _ {E : Type 0} (hash : E → ℕ) where
  pub record IsValid (t : Table E) : Type 0 where
    pub positive : 0 < t.size
    pub placed : IsPlaced hash t.size (allocated t.table t.size)

  lookup-find :
      (t : Table E) (h : ℕ) → lookup hash t h ≡ find hash t.size (allocated t.table t.size) h
  unfolding lookup allocated
  lookup-find t h =
      elim t.table
        as (λ o.
          (elim o [ none ↦ none | some cs ↦ chain_lookup hash h (get_or cs (h % t.size) []) ])
          ≡ find hash t.size (allocated o t.size) h) [
            | none ↦
                rw (get_or-replicate {A = Chain E} t.size (h % t.size) [])
                  (unfold chain_lookup in refl)
            | some cs ↦ refl
          ]

  -- What is found under a hash has it.
  pub lookup-hash : (t : Table E) (h : ℕ) (x : E) → lookup hash t h ≡ some x → hash x ≡ h
  unfolding lookup
  lookup-hash t h x e = buckets t.table e
    where
      buckets :
          (o : Option (List (Chain E)))
          → (elim o [ none ↦ none | some cs ↦ chain_lookup hash h (get_or cs (h % t.size) []) ])
            ≡ some x
          → hash x ≡ h
      buckets none e = cc
      buckets (some cs) e = chain_lookup-hash hash h (get_or cs (h % t.size) []) x e

  -- A table that has been allocated.
  abbrev pub with_table : List (Chain E) → ℕ → ℕ → Table E
  with_table cs size fill = record { table = some cs; size = size; fill = fill }

  lookup-some :
      (cs : List (Chain E)) (size fill h : ℕ)
      → lookup hash (with_table cs size fill) h ≡ find hash size cs h
  unfolding lookup
  lookup-some cs size fill h = refl

  -- A new table of a positive size is valid and holds nothing.
  pub lookup-new :
      (size : ℕ) → 0 < size → IsValid (new size) × ((h : ℕ) → lookup hash (new size) h ≡ none)
  unfolding new lookup allocated
  lookup-new size pos =
      (record { positive = pos; placed = IsPlaced-replicate hash size }, λ h. refl)

  -- `add` keeps the table valid, whether it grows or not; afterwards the hash of the element has
  -- that element, and every other hash has what it had. The fill goes up by one in any case.
  pub lookup-add :
      (t : Table E) (s : E)
      → IsValid t
      → t.size < 2 ^ 32
      → IsValid (add hash t s)
        × ((h : ℕ)
            → lookup hash (add hash t s) h ≡ (if h == hash s then some s else lookup hash t h))
        × ((add hash t s).fill ≡ t.fill + 1)
  unfolding add
  lookup-add t s v small =
      let cs = allocated t.table t.size in
      elim (Bool-cases (leb (t.size / 3) (t.fill + 1))) [
        | inr roomy ↦ rw roomy (
          record {
            positive = v.positive;
            placed = unfold allocated in do_add-IsPlaced hash t.size v.positive cs v.placed s;
          },
          λ h.
              lookup-some _ t.size (t.fill + 1) h
              ∙ find-do_add hash t.size v.positive cs v.placed s h
              ∙ ap (λ o. if h == hash s then some s else o) (sym (lookup-find t h)),
          refl,
        )
        | inl full ↦
            let (placed, finds) = resize_correct hash t.size cs v.positive small v.placed in
            let wide : 0 < t.size * 10 = omega (arith, v.positive) in
            let grown = resize hash t.size cs in
            rw full (
              record {
                positive = wide;
                placed = unfold allocated in do_add-IsPlaced hash (t.size * 10) wide grown placed s;
              },
              λ h.
                  lookup-some _ (t.size * 10) (t.fill + 1) h
                  ∙ find-do_add hash (t.size * 10) wide grown placed s h
                  ∙ ap (λ o. if h == hash s then some s else o) (finds h ∙ sym (lookup-find t h)),
              refl,
            )
      ]

  -- What `remove` leaves.
  pub record Removed (t : Table E) (s : E) (r : Table E) : Type 0 where
    pub valid : IsValid r
    pub finds : (h : ℕ) → lookup hash r h ≡ (if h == hash s then none else lookup hash t h)
    pub remains : is_some r.table ≡ true
    pub fill : r.fill ≡ (if is_some (lookup hash t (hash s)) then t.fill - 1 else t.fill)

  -- `remove` on a table that has been allocated takes out the element with the hash, if there is
  -- one, and only then lowers the fill; every other hash keeps its element.
  pub lookup-remove :
      (cs : List (Chain E)) (size fill : ℕ) (s : E)
      → IsValid (with_table cs size fill)
      → (r : Table E) × (remove hash (with_table cs size fill) s ≡ some r)
        × Removed (with_table cs size fill) s r
  unfolding remove lookup allocated
  lookup-remove cs size fill s v =
      let i = hash s % size in
      let c = get_or cs i [] in
      let o = v.placed.sorted i in
      let lt = slot-lt hash size v.positive cs v.placed (hash s) in
      let found = chain_remove-found hash (hash s) c o in
      let rest = (chain_remove hash (hash s) c).1 in
      let cut_at : (h : ℕ)
          → find hash size (set cs i rest) h ≡ (if h == hash s then none else find hash size cs h) =
        λ h. rw (get_or-set cs i (h % size) rest [] lt) (elim (Bool-cases (i == h % size)) [
          | inl same ↦
              let e : i ≡ h % size = ground (arith, same) in
              rw same (chain_lookup-chain_remove hash h (hash s) c o ∙ rw e)
          | inr other ↦ rw other (elim (Bool-cases (h == hash s)) [
            | inl equal ↦
                let e : h ≡ hash s = ground (arith, equal) in
                absurd (ground (arith, other, ap (λ x. x % size) e))
            | inr different ↦ rw different
          ])
        ]) in
      elim (Bool-cases (chain_remove hash (hash s) c).0) [
        | inl yes_found ↦ (
          with_table (set cs i rest) size (fill - 1),
          rw yes_found,
          record {
            valid = record {
              positive = v.positive;
              placed =
                  set-IsPlaced hash size v.positive cs v.placed i rest lt
                    (IsSorted-chain_remove hash (hash s) c o)
                    (IsHome-chain_remove hash (λ h. h % size ≡ i) (hash s) c (v.placed.home i));
            };
            finds = cut_at;
            remains = refl;
            fill = ground (arith, found, yes_found);
          },
        )
        | inr missing ↦ (
          with_table cs size fill,
          rw missing,
          record {
            valid = v;
            finds = λ h. elim (Bool-cases (h == hash s)) [
              | inl equal ↦
                  let e : h ≡ hash s = ground (arith, equal) in
                  rw (equal, e) (ground (arith, found, missing))
              | inr different ↦ rw different
            ];
            remains = refl;
            fill = ground (arith, found, missing);
          },
        )
      ]
