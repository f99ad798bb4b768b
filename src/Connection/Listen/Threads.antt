-- ===== src/Connection/Listen/Threads.antt =====
-- The master and the workers on the pool of accepted connections (src/uct_connection.c,
-- src/uct_cycle.c) as threads: each step is one action of one of them on the semaphore, the spin
-- lock or the queue, in any order.
pub mod Reached
pub mod Inv
pub mod Kept
use umicat.Base.{
  ℕ, ◌+◌, ◌-◌, ◌<◌, ◌≡◌, Bool, true, false, List, [], ◌∷◌, ◌++◌, Option, some, length, get_elem?,
  set, drop, replicate,
}
use umicat.Base.Distinct.{NotIn}
use umicat.Queue.{Heap, queue_init, queue_insert_head, queue_last, queue_remove}

-- Where the master is: it accepts, `uct_listening_pool_add` waits for the lock, has it, has linked
-- the connection, and has given the lock back but not posted yet.
pub data Master : Type 0 where
  accepts : Master
  wants : (conn : ℕ) → Master
  inside : (conn : ℕ) → Master
  linked : Master
  unposted : Master

-- Where a worker is: it asks, `uct_listening_pool_get` has passed the semaphore, has the lock, has
-- read the last node, and has taken it out.
pub data Worker : Type 0 where
  asks : Worker
  counted : Worker
  locks : Worker
  found : (q : ℕ) → Worker
  unlinked : (q : ℕ) → Worker

-- The nodes, the semaphore and the spin lock of the pool, and the threads. `added` and `given` are the
-- connections that were put into the queue and taken out of it, in the order in which that was.
pub record System : Type 0 where
  pub heap : Heap
  pub items : ℕ
  pub locked : Bool
  pub master : Master
  pub workers : List Worker
  pub added : List ℕ
  pub given : List ℕ

-- The connections that were added and not given yet.
abbrev pub waiting : System → List ℕ
waiting s = drop (length s.given) s.added

-- One action, with the sentinel of the queue at `q`. A connection is accepted at an address that is
-- neither the sentinel's nor that of one that waits.
pub data Step (q : ℕ) (s : System) : System → Type 0 where
  accept_conn :
      (c : ℕ)
      → s.master ≡ accepts
      → NotIn c (q ∷ waiting s)
      → Step q s (record s { master = wants c })
  lock_add :
      (c : ℕ)
      → s.master ≡ wants c
      → s.locked ≡ false
      → Step q s (record s { master = inside c; locked = true })
  link :
      (c : ℕ)
      → s.master ≡ inside c
      → Step q s (record s {
        master = linked;
        heap = queue_insert_head q c s.heap;
        added = s.added ++ c ∷ [];
      })
  unlock_add : s.master ≡ linked → Step q s (record s { master = unposted; locked = false })
  post : s.master ≡ unposted → Step q s (record s { master = accepts; items = s.items + 1 })
  try_wait :
      (i : ℕ)
      → get_elem? s.workers i ≡ some asks
      → 0 < s.items
      → Step q s (record s { items = s.items - 1; workers = set s.workers i counted })
  lock_get :
      (i : ℕ)
      → get_elem? s.workers i ≡ some counted
      → s.locked ≡ false
      → Step q s (record s { locked = true; workers = set s.workers i locks })
  read_last :
      (i : ℕ)
      → get_elem? s.workers i ≡ some locks
      → Step q s (record s { workers = set s.workers i (found (queue_last q s.heap)) })
  unlink :
      (i x : ℕ)
      → get_elem? s.workers i ≡ some (found x)
      → Step q s (record s {
        heap = queue_remove x s.heap;
        workers = set s.workers i (unlinked x);
        given = s.given ++ x ∷ [];
      })
  unlock_get :
      (i x : ℕ)
      → get_elem? s.workers i ≡ some (unlinked x)
      → Step q s (record s { locked = false; workers = set s.workers i asks })

-- The pool as `uct_listening_pool_init` leaves it, with `n` workers.
unfoldable pub init : ℕ → ℕ → Heap → System
init q n heap = record {
  heap = queue_init q heap;
  items = 0;
  locked = false;
  master = accepts;
  workers = replicate n asks;
  added = [];
  given = [];
}

-- The systems that the threads can come to.
pub data Reach (q n : ℕ) (heap : Heap) : System → Type 0 where
  start : Reach q n heap (init q n heap)
  later : {s t : System} → Step q s t → Reach q n heap s → Reach q n heap t
