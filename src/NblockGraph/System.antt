-- ===== src/NblockGraph/System.antt =====
-- src/pbnf_search.cc: the search threads over one nblock graph, interleaved in any order. A call
-- of the graph holds the lock throughout, so it is one step; a thread that waits on the condition
-- variable has let the lock go and goes on from the end of the wait. What a thread does to the
-- open lists between two calls is left open but for where it writes.
use pbnf.Base.{ℕ, ◌≡◌, ◌≢◌, false, ◌∷◌, Option, none, some, mem, put}
use pbnf.NblockGraph.{
  Graph, Open, Outcome, finished, waiting, aborted, assigned, set_done, set_hot, wont_release,
  resume, next_nblock,
}
use pbnf.NblockGraph.Scope.{Projection, interferes}

-- Where a search thread stands: before its first call, searching a block, waiting in
-- `next_nblock`, or after the loop of `run`.
pub data Thread : Type 0 where
  starting : Thread
  searching : ℕ → Thread
  asleep : Thread
  stopped : Thread

pub record System : Type 0 where
  pub graph : Graph
  pub threads : ℕ → Thread

-- The block that a thread hands to `next_nblock`.
abbrev pub held : Thread → Option ℕ
held (searching n) = some n
held _ = none

-- Where the outcome of `next_nblock` leaves a thread.
abbrev pub after : Outcome → Thread
after finished = stopped
after waiting = asleep
after aborted = stopped
after (assigned n) = searching n

abbrev pub turn : System → ℕ → Graph × Outcome → System
turn s t r = record { graph = r.0; threads = put s.threads t (after r.1) }

module _ (p : Projection) where
  pub data Step (s : System) : System → Type 0 where
    -- `next_nblock` got the lock.
    ask :
        (t bound weight : ℕ) {o : Option ℕ}
        → held (s.threads t) ≡ o
        → s.threads t ≢ asleep
        → s.threads t ≢ stopped
        → Step s (turn s t (next_nblock (interferes p) p.num_nblocks bound weight o s.graph))
    -- A thread wakes up in `next_nblock`.
    wake :
        (t limit : ℕ)
        → s.threads t ≡ asleep
        → Step s (turn s t (resume (interferes p) p.num_nblocks limit s.graph))
    -- `should_switch` calls `set_hot`, and `try_lock` succeeds.
    want :
        (t b val : ℕ) {n : ℕ}
        → s.threads t ≡ searching n
        → Step s (record s { graph = set_hot (interferes p) s.graph b val })
    -- `should_switch` calls `wont_release`, and `try_lock` succeeds.
    keep :
        (t : ℕ) {n : ℕ}
        → s.threads t ≡ searching n
        → Step s (record s { graph = wont_release (interferes p) s.graph n })
    -- `search_nblock` takes from and adds to open lists in the scope of its block.
    expand :
        (t : ℕ) {n : ℕ} (opens : ℕ → Open)
        → s.threads t ≡ searching n
        → ((x : ℕ) → mem x (n ∷ p.get_successors n) ≡ false → opens x ≡ s.graph.opens x)
        → Step s (record s { graph = record s.graph { opens = opens } })
    -- The last call of `run`.
    quit : (t : ℕ) → s.threads t ≡ stopped → Step s (record s { graph = set_done s.graph })

  pub data Reach (start : System) : System → Type 0 where
    here : Reach start start
    later : {s u : System} → Reach start s → Step s u → Reach start u
