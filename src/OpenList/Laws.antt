-- ===== src/OpenList/Laws.antt =====
-- src/pq_open_list.h: the open flags, the best value and the queue agree.
use pbnf.Base.{
  ℕ, ◌+◌, ◌≤◌, ◌<◌, ◌≡◌, ◌≢◌, refl, sym, ◌∙◌, Bool, true, false, some, arith, leb, ltb, Bool-cases,
  inl, inr, ◌==◌, if◌then◌else◌, is_some, is_some-true, put,
}
use mathlib.Core.Path.{subst, fun_ext}
use pbnf.PriorityQueue.{Pq, cell, fill, parent_of}
use pbnf.PriorityQueue
use pbnf.PriorityQueue.Order.{IsStrictOrder, IsHeapAround, IsHeap-root_below}
use pbnf.PriorityQueue.Insert.{IsValid, add_correct}
use pbnf.PriorityQueue.Update.{see_update_correct}
use pbnf.PriorityQueue.Remove.{Removed, remove_correct, take_front_correct}
use pbnf.PriorityQueue.Whole.{front-some, empty-true, empty-false, reset_correct, resort_correct}
use pbnf.SearchState.{
  Store, State, get_f, get_f_prime, f_before, f_prime_before, set_open, orders-IsStrictOrder,
}
use pbnf.OpenList.{
  OpenList, fp_infinity, before, value, front_value, mark, rate, add, take, close, see_update,
  see_update_at, remove, remove_at, resort, prune,
}

module _ (weight : ℕ) where
  before-IsStrictOrder : (st : Store) → IsStrictOrder (before weight st)
  before-IsStrictOrder st = (orders-IsStrictOrder weight st).1

  -- The order does not see the open flag.
  before-mark :
      (st : Store) (s : ℕ) (b : Bool) → before weight (mark weight st s b) ≡ before weight st
  unfolding f_prime_before f_before get_f get_f_prime set_open
  before-mark st s b = fun_ext (λ x. fun_ext (λ y. ground arith))

  value-mark :
      (st : Store) (s : ℕ) (b : Bool) (x : ℕ)
      → value weight (mark weight st s b) x ≡ value weight st x
  unfolding get_f_prime set_open
  value-mark st s b x = ground arith

  -- The least value of a queue that is a heap.
  abbrev pub least_value : Store → Pq → ℕ
  least_value st q = if leb (fill q) 0 then fp_infinity else value weight st (cell q.heap 0)

  -- The queue is a heap of the states that are flagged as open, and the best value is that of its
  -- front.
  pub record IsSound (o : OpenList) : Type 0 where
    pub queue : IsValid (before weight o.states) o.pq
    pub flags : (x : ℕ) → (o.states x).opened ≡ is_some (o.pq.index x)
    pub rated : o.best ≡ least_value o.states o.pq

  -- The best value is a bound: no open state has a lower f'.
  pub best-le :
      (o : OpenList) (x : ℕ)
      → IsSound o
      → (o.states x).opened ≡ true
      → o.best ≤ value weight o.states x
  unfolding f_prime_before
  best-le o x v h =
      let (k, at) = is_some-true (o.pq.index x) (sym (v.flags x) ∙ h) in
      let (lt, here) = v.queue.indexed.owners x k refl at in
      let top =
        IsHeap-root_below (before weight o.states) (before-IsStrictOrder o.states) (k + 1) o.pq.heap
          k v.queue.heap (omega arith) lt in
      ground (arith, lt, v.rated, rw here at top)

  rate-least : (o : OpenList) → (rate weight o).best ≡ least_value o.states o.pq
  unfolding rate front_value
  rate-least o = elim (Bool-cases (PriorityQueue.empty o.pq)) [
    | inl none_left ↦ rw none_left (ground (arith, empty-true o.pq none_left))
    | inr some_left ↦
        let pos = empty-false o.pq some_left in
        rw (some_left, front-some o.pq pos) (ground (arith, pos))
  ]

  -- `add` of a state that is not open makes exactly that state open as well.
  pub add-IsSound :
      (o : OpenList) (s : ℕ)
      → IsSound o
      → (o.states s).opened ≡ false
      → IsSound (add weight o s)
        × ((x : ℕ)
            → ((add weight o s).states x).opened ≡ (if s == x then true else (o.states x).opened))
  unfolding add set_open front_value
  add-IsSound o s v shut =
      let st = mark weight o.states s true in
      let start = subst (λ p. IsValid p o.pq) (sym (before-mark o.states s true)) v.queue in
      let (valid, size, members) =
        add_correct (before weight st) (before-IsStrictOrder st) o.pq s start
          (ground (arith, shut, v.flags s)) in
      let pos : 0 < fill (PriorityQueue.add (before weight st) o.pq s) = omega (arith, size) in
      (
        record {
          queue = valid;
          flags = λ x. ground (arith, v.flags x, members x);
          rated =
              rw (front-some (PriorityQueue.add (before weight st) o.pq s) pos)
                (ground (arith, pos));
        },
        λ x. ground arith,
      )

  -- What `take` and `remove` leave when `s` has gone.
  pub record Closed (o : OpenList) (s : ℕ) (r : OpenList) : Type 0 where
    pub sound : IsSound r
    pub flags : (x : ℕ) → (r.states x).opened ≡ (if s == x then false else (o.states x).opened)
    pub values : (x : ℕ) → value weight r.states x ≡ value weight o.states x

  rate-Closed :
      (o : OpenList) (i s : ℕ) (q : Pq)
      → IsSound o
      → cell o.pq.heap i ≡ s
      → Removed (before weight o.states) (before-IsStrictOrder o.states) o.pq i q
      → Closed o s (rate weight (record o { pq = q; states = mark weight o.states s false }))
  unfolding set_open rate
  rate-Closed o i s q v here t =
      let st = mark weight o.states s false in
      record {
        sound = record {
          queue = subst (λ p. IsValid p q) (sym (before-mark o.states s false)) t.valid;
          flags = λ x. ground (arith, here, v.flags x, t.members x);
          rated = rate-least (record o { pq = q; states = st });
        };
        flags = λ x. ground arith;
        values = λ x. value-mark o.states s false x;
      }

  -- `take` on an open list that is not empty returns an open state whose f' is the best value and
  -- before which no open state comes, and makes exactly that state not open.
  pub take_correct :
      (o : OpenList)
      → IsSound o
      → 0 < fill o.pq
      → (s : ℕ) × (r : OpenList) × (take weight o ≡ some (s, r))
        × ((o.states s).opened ≡ true)
        × (value weight o.states s ≡ o.best)
        × ((x : ℕ) → (o.states x).opened ≡ true → before weight o.states x s ≡ false)
        × Closed o s r
  unfolding take close
  take_correct o v pos =
      let s = cell o.pq.heap 0 in
      let t =
        take_front_correct (before weight o.states) (before-IsStrictOrder o.states) o.pq v.queue
          pos in
      let q = (PriorityQueue.take_front (before weight o.states) o.pq).1 in
      (
        s,
        rate weight (record o { pq = q; states = mark weight o.states s false }),
        rw t.result refl,
        ground (arith, v.flags s, v.queue.indexed.cells 0 pos),
        ground (arith, pos, v.rated),
        λ x h. let (k, at) = is_some-true (o.pq.index x) (sym (v.flags x) ∙ h) in t.least x k at,
        rate-Closed o 0 s q v refl t.removed,
      )

  -- `remove` of an open state makes exactly that state not open.
  pub remove_open_correct :
      (o : OpenList) (s : ℕ)
      → IsSound o
      → (o.states s).opened ≡ true
      → (r : OpenList) × (remove weight o s ≡ some r) × Closed o s r
  unfolding remove remove_at
  remove_open_correct o s v h =
      let (i, at) = is_some-true (o.pq.index s) (sym (v.flags s) ∙ h) in
      let (lt, here) = v.queue.indexed.owners s i refl at in
      let t =
        remove_correct (before weight o.states) (before-IsStrictOrder o.states) o.pq i v.queue lt in
      let in_range : ltb i (fill o.pq) ≡ true = ground (arith, lt) in
      (_, rw (at, in_range) refl, rate-Closed o i s _ v here t)

  -- A state of the list gets other values; the order at every other place is as it was.
  revalued-IsHeapAround :
      (o : OpenList) (s i : ℕ) (v : State)
      → IsSound o
      → o.pq.index s ≡ some i
      → IsHeapAround (before weight (put o.states s v)) o.pq.heap i
  unfolding f_prime_before f_before get_f get_f_prime
  revalued-IsHeapAround o s i v sound at =
      let q = sound.queue in
      let (lt, here) = q.indexed.owners s i refl at in
      let other : (j : ℕ)
          → j < fill o.pq
          → j ≢ i
          → put o.states s v (cell o.pq.heap j) ≡ o.states (cell o.pq.heap j) =
        λ j r ne. ground (arith, ne, at, (q.indexed.cells j r).1) in
      record {
        inside = lt;
        edges = λ c p r x y. rw (other c r x, other (parent_of c) (omega arith) y) (q.heap c p r);
        bridged = λ c p r x y.
            rw (other c r (omega arith), other (parent_of i) (omega arith) (omega arith))
              ((before-IsStrictOrder o.states).trans (cell o.pq.heap (parent_of i))
                (cell o.pq.heap i) (cell o.pq.heap c) (q.heap i y lt) (rw x at (q.heap c p r)));
      }

  -- When the values of an open state have changed in any way, with its flag as it was, `see_update`
  -- puts the queue in order and the best value right again, and the same states are open.
  pub see_update-IsSound :
      (o : OpenList) (s : ℕ) (v : State)
      → IsSound o
      → (o.states s).opened ≡ true
      → v.opened ≡ true
      → (r : OpenList) × (see_update weight (record o { states = put o.states s v }) s ≡ some r)
        × IsSound r
        × ((x : ℕ) → (r.states x).opened ≡ (o.states x).opened)
  unfolding see_update see_update_at front_value
  see_update-IsSound o s v sound h k =
      let (i, at) = is_some-true (o.pq.index s) (sym (sound.flags s) ∙ h) in
      let st = put o.states s v in
      let around = revalued-IsHeapAround o s i v sound at in
      let (valid, size, members) =
        see_update_correct (before weight st) (before-IsStrictOrder st) o.pq i around
          sound.queue.indexed sound.queue.positive sound.queue.room in
      let q = PriorityQueue.see_update (before weight st) o.pq i in
      let pos : 0 < fill q = omega (arith, size, around.inside) in
      let in_range : ltb i (fill o.pq) ≡ true = ground (arith, around.inside) in
      (
        record { pq = q; best = value weight st (cell q.heap 0); states = st },
        rw (at, in_range, front-some q pos) refl,
        record {
          queue = valid;
          flags = λ x. ground (arith, h, k, sound.flags x, members x);
          rated = ground (arith, pos);
        },
        λ x. ground (arith, h, k),
      )

  -- After all values may have changed, `resort` makes the list sound again.
  pub resort-IsSound :
      (o : OpenList) (st : Store)
      → IsSound o
      → ((x : ℕ) → (st x).opened ≡ (o.states x).opened)
      → IsSound (resort weight (record o { states = st }))
        × ((x : ℕ)
            → ((resort weight (record o { states = st })).states x).opened ≡ (o.states x).opened)
  unfolding resort rate
  resort-IsSound o st v same =
      let (valid, size, members) =
        resort_correct (before weight st) (before-IsStrictOrder st) o.pq v.queue.indexed
          v.queue.positive in
      (
        record {
          queue = valid;
          flags = λ x. same x ∙ v.flags x ∙ sym (members x);
          rated =
              rate-least
                (record o { pq = PriorityQueue.resort (before weight st) o.pq; states = st });
        },
        same,
      )

  -- `prune` empties the queue but leaves the best value: that of a list which was not empty stays
  -- at the f' of its former front.
  pub prune_stale :
      (o : OpenList)
      → IsSound o
      → 0 < fill o.pq
      → (fill (prune weight o).pq ≡ 0)
        × ((prune weight o).best ≡ value weight o.states (cell o.pq.heap 0))
  unfolding prune
  prune_stale o v pos =
      let (valid, size, gone) = reset_correct (before weight o.states) o.pq v.queue in
      (size, ground (arith, pos, v.rated))
