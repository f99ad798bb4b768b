-- ===== src/Connection/Listen.antt =====
-- The pool of accepted connections of uct_connection.c: a queue under a spin lock, and a semaphore
-- that counts its items. A connection is the address of its queue node.
pub mod Fifo
pub mod Threads
use umicat.Base.{
  ℕ, ◌+◌, ◌-◌, ◌≡◌, ap, ◌∙◌, Bool, true, false, List, [], ◌∷◌, ◌++◌, Option, none, some, arith,
  length, ◌==◌, if◌then◌else◌, length-append,
}
use umicat.Queue.{Heap, queue_init, queue_insert_head, queue_last, queue_remove}
use umicat.Base.Distinct.{NotIn}
use umicat.Queue.Links.{IsQueue, queue_insert_head-IsQueue, queue_remove-queue_last}

-- `uct_listening_pool_t`: its sentinel and the value of `items`; and the nodes' links.
pub record ListeningPool : Type 0 where
  pub listen_q : ℕ
  pub items : ℕ
  pub heap : Heap

unfoldable pub listening_pool_init : ℕ → Heap → ListeningPool
listening_pool_init q heap = record { listen_q = q; items = 0; heap = queue_init q heap }

-- `locked` says whether the spin lock was taken. `UCT_OK` is 0, so that the pointer that the source
-- returns is null in both cases.
unfoldable pub listening_pool_add : Bool → ℕ → ListeningPool → ListeningPool
listening_pool_add locked conn p =
    if locked
    then record p { items = p.items + 1; heap = queue_insert_head p.listen_q conn p.heap }
    else p

-- The semaphore is tried first, and posted again if the spin lock is not taken.
unfoldable pub listening_pool_get : Bool → ListeningPool → Option ℕ × ListeningPool
listening_pool_get locked p =
    let q = queue_last p.listen_q p.heap in
    if p.items == 0
    then (none, p)
    else if locked
    then (some q, record p { items = p.items - 1; heap = queue_remove q p.heap })
    else (none, record p { items = p.items - 1 + 1 })

-- The pool holds the connections `xs`, the newest first.
pub record Holds (p : ListeningPool) (xs : List ℕ) : Type 0 where
  pub queue : IsQueue p.heap p.listen_q xs
  pub count : p.items ≡ length xs

-- If the spin lock is taken, a connection that the pool does not hold is added in front of the
-- others.
pub add-Holds :
    (conn : ℕ) (p : ListeningPool) (xs : List ℕ)
    → NotIn conn (p.listen_q ∷ xs)
    → Holds p xs
    → Holds (listening_pool_add true conn p) (conn ∷ xs)
unfolding listening_pool_add
add-Holds conn p xs n v = record {
  queue = queue_insert_head-IsQueue p.heap p.listen_q conn xs n v.queue;
  count = omega (arith, v.count);
}

-- If the spin lock is taken, the pool gives out the connection that it has held the longest, and
-- keeps the others in order: a pool that holds `xs` and, before all of them, `x`, answers `x` and
-- holds `xs`.
pub get-Holds :
    (x : ℕ) (p : ListeningPool) (xs : List ℕ)
    → Holds p (xs ++ x ∷ [])
    → ((listening_pool_get true p).0 ≡ some x) × Holds (listening_pool_get true p).1 xs
unfolding listening_pool_get
get-Holds x p xs v =
    let size : p.items ≡ length xs + 1 = v.count ∙ length-append xs (x ∷ []) in
    let some_left : (p.items == 0) ≡ false = ground arith in
    let (e, q) = queue_remove-queue_last p.heap p.listen_q x xs v.queue in
    rw some_left (ap some e, record { queue = q; count = omega (arith, size) })
