-- ===== src/Connection/Listen/Threads/Reached.antt =====
-- Every system that the threads can come to is as the pool of accepted connections should be.
use umicat.Base.{ℕ, zero, suc, ◌≡◌, refl, [], arith, replicate}
use umicat.Queue.{Heap}
use umicat.Queue.Links.{queue_init-IsQueue}
use umicat.Connection.Listen.Threads.{
  Worker, asks, System, Step, accept_conn, lock_add, link, unlock_add, post, try_wait, lock_get,
  read_last, unlink, unlock_get, init, Reach, start, later,
}
use umicat.Connection.Listen.Threads.Inv.{Inv, holds, owed, total, AllFound-no_holds}
use umicat.Connection.Listen.Threads.Kept.{
  link-Inv, read_last-Inv, unlink-Inv, accept_conn-Inv, lock_add-Inv, unlock_add-Inv, post-Inv,
  try_wait-Inv, lock_get-Inv, unlock_get-Inv,
}

pub Step-Inv : (q : ℕ) (s t : System) → Step q s t → Inv q s → Inv q t
Step-Inv q s t (accept_conn c e n) v = accept_conn-Inv q s v c e n
Step-Inv q s t (lock_add c e l) v = lock_add-Inv q s v c e l
Step-Inv q s t (link c e) v = link-Inv q s v c e
Step-Inv q s t (unlock_add e) v = unlock_add-Inv q s v e
Step-Inv q s t (post e) v = post-Inv q s v e
Step-Inv q s t (try_wait i e h) v = try_wait-Inv q s v i e h
Step-Inv q s t (lock_get i e l) v = lock_get-Inv q s v i e l
Step-Inv q s t (read_last i e) v = read_last-Inv q s v i e
Step-Inv q s t (unlink i x e) v = unlink-Inv q s v i x e
Step-Inv q s t (unlock_get i x e) v = unlock_get-Inv q s v i x e

total-replicate : (w : Worker → ℕ) (n : ℕ) → w asks ≡ 0 → total w (replicate n asks) ≡ 0
total-replicate w zero e = refl
total-replicate w (suc n) e = omega (arith, e, total-replicate w n e)

init-Inv : (q n : ℕ) (heap : Heap) → Inv q (init q n heap)
unfolding init
init-Inv q n heap =
    let free = total-replicate holds n refl in
    record {
      conns = [];
      queue = queue_init-IsQueue heap q;
      in_order = refl;
      count = omega (arith, total-replicate owed n refl);
      mutex = omega (arith, free);
      oldest = AllFound-no_holds (replicate n asks) [] free;
      fresh = tt;
    }

-- Whatever actions the master and the workers have made, in any order: the queue holds the
-- connections that were added and not given, in the order of their coming; the semaphore and the
-- threads under way account for each of them; at most one thread has the lock; and a worker that
-- has read a node to take it out has the connection that waits the longest.
pub Reach-Inv : (q n : ℕ) (heap : Heap) (s : System) → Reach q n heap s → Inv q s
Reach-Inv q n heap s start = init-Inv q n heap
Reach-Inv q n heap s (later {s = r} step reach) = Step-Inv q r s step (Reach-Inv q n heap r reach)
