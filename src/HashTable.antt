-- ===== src/HashTable.antt =====
-- src/util/hash_table.h: a chained hash table whose chains are kept in the order of the hashes.
-- Two elements with one hash count as one element.
pub mod Buckets
pub mod Laws
pub mod Resize
pub mod Map
mod Tests
use pbnf.Base.{
  ℕ, ◌+◌, ◌-◌, ◌*◌, ◌/◌, ◌%◌, ◌^◌, Bool, true, false, List, [], ◌∷◌, ◌++◌, Option, none, some, ltb,
  leb, ◌==◌, if◌then◌else◌, is_some, take, set, get_or, replicate,
}
use pbnf.HashTable.Buckets.{Chain, chain_add, chain_lookup, chain_remove, chain_data}

-- `table` is NULL until the first `add`; NULL buckets are empty chains.
pub record Table (E : Type 0) : Type 0 where
  pub table : Option (List (Chain E))
  pub size : ℕ
  pub fill : ℕ

abbrev pub default_size : ℕ
default_size = 1000000

-- What a loop over the buckets leaves. Its counter is an `unsigned int`, which never reaches a
-- size of 2 ^ 32 or more: `none`, since the loop does not end then.
pub counted {ℓ} : {A : Type ℓ} → ℕ → A → Option A
counted size r = if ltb size (2 ^ 32) then some r else none

module _ {E : Type 0} where
  -- `init`
  unfoldable pub new : ℕ → Table E
  new s = record { table = none; size = s; fill = 0 }

  -- The table that `new_table` leaves: it is allocated once.
  pub allocated : Option (List (Chain E)) → ℕ → List (Chain E)
  allocated none size = replicate size []
  allocated (some t) size = t

  pub prune : Table E → Option (Table E)
  unfolding counted
  prune t = elim t.table [
    | none ↦ some t
    | some cs ↦ counted t.size (record t { table = none; fill = 0 })
  ]

  -- `delete_all`: the fill stays as it is.
  pub delete_chains : List (Chain E) → List (Chain E)
  delete_chains [] = []
  delete_chains (c ∷ cs) = [] ∷ delete_chains cs

  pub delete_all : Table E → Option (Table E)
  unfolding delete_chains counted
  delete_all t = elim t.table [
    | none ↦ some t
    | some cs ↦ counted t.size (record t { table = some (delete_chains cs) })
  ]

  -- The elements of the buckets in order.
  pub elements : List (Chain E) → List E
  elements [] = []
  elements (c ∷ cs) = chain_data c ++ elements cs

  -- The elements that the function is called with.
  pub for_each : Table E → Option (List E)
  unfolding elements counted
  for_each t = elim t.table [ none ↦ some [] | some cs ↦ counted t.size (elements cs) ]

  pub empty : Table E → Bool
  empty t = t.fill == 0

  module _ (hash : E → ℕ) where
    -- `do_add` over the buckets of a table with `size` of them
    pub do_add : ℕ → List (Chain E) → E → List (Chain E)
    do_add size cs s = let i = hash s % size in set cs i (chain_add hash s (get_or cs i []))

    pub add_data : ℕ → List (Chain E) → List E → List (Chain E)
    add_data size cs [] = cs
    add_data size cs (x ∷ xs) = add_data size (do_add size cs x) xs

    -- The loop of `resize` over the old buckets.
    pub rehash : ℕ → List (Chain E) → List (Chain E) → List (Chain E)
    rehash size fresh [] = fresh
    rehash size fresh (c ∷ cs) = rehash size (add_data size fresh (chain_data c)) cs

    -- `old_size` is an `unsigned int`.
    pub resize : ℕ → List (Chain E) → List (Chain E)
    resize size cs = rehash (size * 10) (replicate (size * 10) []) (take (size % 2 ^ 32) cs)

    unfoldable pub add : Table E → E → Table E
    add t s =
        let cs = allocated t.table t.size in
        if leb (t.size / 3) (t.fill + 1)
        then record {
          table = some (do_add (t.size * 10) (resize t.size cs) s);
          size = t.size * 10;
          fill = t.fill + 1;
        }
        else record { table = some (do_add t.size cs s); size = t.size; fill = t.fill + 1 }

    -- `lookup`, of an element with the hash `h`
    pub lookup : Table E → ℕ → Option E
    lookup t h = elim t.table [
      | none ↦ none
      | some cs ↦ chain_lookup hash h (get_or cs (h % t.size) [])
    ]

    -- `remove`, which reads `table[i]` without a test: `none` if there is no table.
    pub remove : Table E → E → Option (Table E)
    remove t s = elim t.table [
      | none ↦ none
      | some cs ↦
          let i = hash s % t.size in
          let c = get_or cs i [] in
          let r = chain_remove hash (hash s) c in
          some (if r.0 then record t { table = some (set cs i r.1); fill = t.fill - 1 } else t)
    ]
