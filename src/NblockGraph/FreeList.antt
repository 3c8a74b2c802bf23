-- ===== src/NblockGraph/FreeList.antt =====
-- src/pbnf/nblock_graph.cc: the list of free blocks under `free_list.add` and `free_list.remove`.
use pbnf.Base.{
  ℕ, ◌≡◌, refl, ◌∙◌, Bool, true, false, none, arith, Bool-cases, inl, inr, ◌==◌, if◌then◌else◌,
  is_some, is_some-true, put,
}
use pbnf.PriorityQueue.Order.{IsStrictOrder}
use pbnf.PriorityQueue.Insert.{IsValid, add_correct}
use pbnf.PriorityQueue.Remove.{remove_correct}
use pbnf.NblockGraph.{Open, Graph, block_before, is_free, enlist, delist_at, delist, offer}

-- The order of the free list is a strict weak order, so the queue's guarantees hold for it.
pub block_before-IsStrictOrder : (opens : ℕ → Open) → IsStrictOrder (block_before opens)
unfolding block_before
block_before-IsStrictOrder opens = record {
  asym = λ a b h. ground (arith, h);
  trans = λ a b c h k. ground (arith, h, k);
}

abbrev pub listed : Graph → ℕ → Bool
listed g x = is_some (g.free_list.index x)

-- The free list is a valid queue of free blocks.
pub record IsFreeList (g : Graph) : Type 0 where
  pub valid : IsValid (block_before g.opens) g.free_list
  pub free : (x : ℕ) → listed g x ≡ true → is_free g x ≡ true

-- Nothing but the free list has changed.
pub record Kept (g h : Graph) : Type 0 where
  pub sigma : h.sigma ≡ g.sigma
  pub sigma_hot : h.sigma_hot ≡ g.sigma_hot
  pub hot : h.hot ≡ g.hot
  pub inuse : h.inuse ≡ g.inuse
  pub opens : h.opens ≡ g.opens
  pub num_sigma_zero : h.num_sigma_zero ≡ g.num_sigma_zero
  pub done : h.done ≡ g.done

pub Kept-refl : (g : Graph) → Kept g g
Kept-refl g = record {
  sigma = refl;
  sigma_hot = refl;
  hot = refl;
  inuse = refl;
  opens = refl;
  num_sigma_zero = refl;
  done = refl;
}

pub not-listed : (g : Graph) (x : ℕ) → listed g x ≡ false → g.free_list.index x ≡ none
not-listed g x h = ground (arith, h)

-- `offer` lists a free block that was not listed.
pub record Offered (g : Graph) (m : ℕ) (h : Graph) : Type 0 where
  pub list : IsFreeList h
  pub kept : Kept g h
  pub members : (x : ℕ) → listed h x ≡ (if m == x then is_free g m else listed g x)

pub offer-Offered :
    (g : Graph) (m : ℕ) → IsFreeList g → listed g m ≡ false → Offered g m (offer g m)
unfolding offer enlist
offer-Offered g m l absent = elim (Bool-cases (is_free g m)) [
  | inr busy ↦
      rw busy (record { list = l; kept = Kept-refl g; members = λ x. ground (arith, absent) })
  | inl free ↦
      let (valid, size, members) =
        add_correct (block_before g.opens) (block_before-IsStrictOrder g.opens) g.free_list m
          l.valid (not-listed g m absent) in
      rw free (record {
        list = record { valid = valid; free = λ x h. still_free x (members x) free h };
        kept = record {
          sigma = refl;
          sigma_hot = refl;
          hot = refl;
          inuse = refl;
          opens = refl;
          num_sigma_zero = refl;
          done = refl;
        };
        members = λ x. members x ∙ ground (arith, free);
      })
]
  where
    still_free :
        (x : ℕ) {b : Bool}
        → b ≡ (if m == x then true else listed g x)
        → is_free g m ≡ true
        → b ≡ true
        → is_free g x ≡ true
    still_free x e free h = elim (Bool-cases (m == x)) [
      | inl same ↦ let p : m ≡ x = ground (arith, same) in rw p at free
      | inr other ↦ l.free x (ground (arith, e, h, other))
    ]

-- `delist` takes a block out.
pub record Delisted (g : Graph) (m : ℕ) (h : Graph) : Type 0 where
  pub list : IsFreeList h
  pub kept : Kept g h
  pub members : (x : ℕ) → listed h x ≡ (if m == x then false else listed g x)

pub delist-Delisted : (g : Graph) (m : ℕ) → IsFreeList g → Delisted g m (delist g m)
unfolding delist
delist-Delisted g m l = elim (Bool-cases (listed g m)) [
  | inr absent ↦
      rw (unlisted absent)
        (record { list = l; kept = Kept-refl g; members = λ x. ground (arith, absent) })
  | inl present ↦
      let (i, at) = is_some-true (g.free_list.index m) present in
      let (inside, here) = l.valid.indexed.owners m i refl at in
      let t =
        remove_correct (block_before g.opens) (block_before-IsStrictOrder g.opens) g.free_list i
          l.valid inside in
      let members = rw here at t.members in
      rw (l.free m present, at)
        (record {
          list = record { valid = t.valid; free = λ x h. l.free x (kept_on x (members x) h) };
          kept = record {
            sigma = refl;
            sigma_hot = refl;
            hot = refl;
            inuse = refl;
            opens = refl;
            num_sigma_zero = refl;
            done = refl;
          };
          members = members;
        })
]
  where
    kept_on :
        (x : ℕ) {b : Bool}
        → b ≡ (if m == x then false else listed g x)
        → b ≡ true
        → listed g x ≡ true
    kept_on x e h = ground (arith, e, h)

    unlisted :
        listed g m ≡ false → (if is_free g m then delist_at g (g.free_list.index m) else g) ≡ g
    unlisted absent = ground (arith, absent)

-- Changes of the graph that the free list does not see.
module _ (g : Graph) (l : IsFreeList g) where
  pub IsFreeList-zeros : (n : ℕ) → IsFreeList (record g { num_sigma_zero = n })
  unfolding is_free
  IsFreeList-zeros n = record { valid = l.valid; free = l.free }

  pub IsFreeList-hot : (f : ℕ → Bool) → IsFreeList (record g { hot = f })
  unfolding is_free
  IsFreeList-hot f = record { valid = l.valid; free = l.free }

  pub IsFreeList-done : (b w : Bool) → IsFreeList (record g { done = b; woken = w })
  unfolding is_free
  IsFreeList-done b w = record { valid = l.valid; free = l.free }

  -- The fields of a block that is not listed may change.
  module _ (m : ℕ) (absent : listed g m ≡ false) where
    pub IsFreeList-sigma : (v : ℕ) → IsFreeList (record g { sigma = put g.sigma m v })
    unfolding is_free
    IsFreeList-sigma v = record {
      valid = l.valid;
      free = λ x h. ground (arith, h, absent, l.free x h);
    }

    pub IsFreeList-sigma_hot : (v : ℕ) → IsFreeList (record g { sigma_hot = put g.sigma_hot m v })
    unfolding is_free
    IsFreeList-sigma_hot v = record {
      valid = l.valid;
      free = λ x h. ground (arith, h, absent, l.free x h);
    }

    pub IsFreeList-inuse : (v : Bool) → IsFreeList (record g { inuse = put g.inuse m v })
    unfolding is_free
    IsFreeList-inuse v = record {
      valid = l.valid;
      free = λ x h. ground (arith, h, absent, l.free x h);
    }
