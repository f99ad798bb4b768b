-- ===== src/Examples/Queues.antt =====
-- A queue and the pool of accepted connections with concrete nodes.
use umicat.Queue.Halves.{queue_split-IsQueue, queue_add-queue_split}
use umicat.Queue.Tail.{queue_insert_tail-IsQueue, queue_empty_lem}
use umicat.Queue.{queue_insert_tail, queue_split, queue_add, queue_empty, queue_middle}
use umicat.Queue.Middle.{queue_middle_lem}
use umicat.Connection.Listen.Threads.{
  System, accepts, asks, found, Reach, start, later, accept_conn, lock_add, link, unlock_add, post,
  try_wait, lock_get, read_last, init,
}
use umicat.Connection.Listen.Threads.Inv.{Inv}
use umicat.Connection.Listen.Threads.Reached.{Reach-Inv}
use umicat.Queue.Sort.Order.{Le, Sorts, queue_sort-Sorts}
use umicat.Base.Int.{ℤ, pos, ◌-ℤ◌}
use umicat.Base.{ℕ, ◌/◌, ◌==◌, ◌⊎◌, Bool, true, false, arith, ◌≡◌, refl, List, [], ◌∷◌, some, none}
use umicat.Connection.Listen.Fifo.{Call, add, get, run, run_refines}
use umicat.Queue.{
  Heap, queue_sort, queue_init, queue_insert_head, queue_last, queue_remove, set_next, set_prev,
}
use umicat.Queue.Links.{IsQueue, queue_init-IsQueue, queue_insert_head-IsQueue}
use umicat.Connection.Listen.{
  ListeningPool, listening_pool_init, listening_pool_add, listening_pool_get, Holds,
}

abbrev heap : Heap
heap = record { prev = λ a. 0; next = λ a. 0 }

abbrev lpool : ListeningPool
lpool = listening_pool_init 8 heap

lpool-Holds : Holds lpool []
unfolding listening_pool_init
lpool-Holds = record { queue = queue_init-IsQueue heap 8; count = refl }

-- Two connections come, three are asked for.
abbrev calls : List Call
calls = add 16 ∷ add 24 ∷ get ∷ get ∷ get ∷ []

run_test : (run calls lpool).0 ≡ (some 16 ∷ some 24 ∷ none ∷ [])
unfolding run listening_pool_init listening_pool_add listening_pool_get queue_insert_head queue_last
    queue_remove queue_init set_next set_prev
run_test = refl

run_refines_example :
    ((run calls lpool).0 ≡ (some 16 ∷ some 24 ∷ none ∷ [])) × Holds (run calls lpool).1 []
unfolding listening_pool_init
run_refines_example =
    run_refines 8 calls lpool [] refl ((refl, tt), ((refl, (refl, tt)), tt)) lpool-Holds

-- Three nodes, of which the first and the last are equal: the tens count.
abbrev tens : ℕ → ℕ → ℤ
tens a b = pos (a / 10) -ℤ pos (b / 10)

abbrev three : Heap
three = queue_insert_head 8 25 (queue_insert_head 8 11 (queue_insert_head 8 21 (queue_init 8 heap)))

three-IsQueue : IsQueue three 8 (25 ∷ 11 ∷ 21 ∷ [])
three-IsQueue =
    queue_insert_head-IsQueue _ 8 25 (11 ∷ 21 ∷ []) (refl, (refl, (refl, tt)))
      (queue_insert_head-IsQueue _ 8 11 (21 ∷ []) (refl, (refl, tt))
        (queue_insert_head-IsQueue _ 8 21 [] (refl, tt) (queue_init-IsQueue heap 8)))

abbrev in_twenties : ℕ → Bool
in_twenties a = a / 10 == 2

tens_total : (a b : ℕ) → Le tens a b ⊎ Le tens b a
unfolding ◌-ℤ◌
tens_total a b = ground arith

tens_trans : (a b c : ℕ) → Le tens a b → Le tens b c → Le tens a c
unfolding ◌-ℤ◌
tens_trans a b c h k = ground arith

tens_same : (a b : ℕ) → in_twenties a ≡ true → in_twenties b ≡ true → Le tens a b
unfolding ◌-ℤ◌
tens_same a b h k = ground arith

queue_sort-Sorts_example : Sorts tens in_twenties 8 (25 ∷ 11 ∷ 21 ∷ []) (queue_sort tens 3 8 three)
queue_sort-Sorts_example =
    queue_sort-Sorts tens in_twenties 3 three 8 (25 ∷ 11 ∷ 21 ∷ []) tens_total tens_trans tens_same
      (omega arith) three-IsQueue

-- One worker and one connection, up to where the worker has read its node.
abbrev begun : System
begun = record {
  heap = queue_init 8 heap;
  items = 0;
  locked = false;
  master = accepts;
  workers = asks ∷ [];
  added = [];
  given = [];
}

abbrev read : System
read = record begun {
  heap = queue_insert_head 8 16 (queue_init 8 heap);
  locked = true;
  workers = found (queue_last 8 (queue_insert_head 8 16 (queue_init 8 heap))) ∷ [];
  added = 16 ∷ [];
}

read-Reach : Reach 8 1 heap read
unfolding init
read-Reach = later (read_last 0 refl) (
    later (lock_get 0 refl refl) (
      later (try_wait 0 refl (omega arith)) (
        later (post refl) (
          later (unlock_add refl) (
            later (link 16 refl)
              (later (lock_add 16 refl refl) (later (accept_conn 16 refl (refl, tt)) start)))))))

read_test : read.workers ≡ (found 16 ∷ [])
unfolding queue_last queue_insert_head queue_init set_next set_prev
read_test = refl

Reach-Inv_example : Inv 8 read
Reach-Inv_example = Reach-Inv 8 1 heap read read-Reach

middle_test : queue_middle 3 8 three ≡ some 11
middle_test = queue_middle_lem 3 three 8 (25 ∷ 11 ∷ 21 ∷ []) (omega arith) three-IsQueue

abbrev four : Heap
four = queue_insert_tail 8 30 three

four-IsQueue : IsQueue four 8 (25 ∷ 11 ∷ 21 ∷ 30 ∷ [])
four-IsQueue =
    queue_insert_tail-IsQueue three 8 30 (25 ∷ 11 ∷ 21 ∷ []) (refl, (refl, (refl, (refl, tt))))
      three-IsQueue

empty_test : queue_empty 8 (queue_init 8 heap) ≡ true
empty_test = (queue_empty_lem (queue_init 8 heap) 8 [] (queue_init-IsQueue heap 8)).1 refl

abbrev halves : Heap
halves = queue_split 8 21 50 four

halves-IsQueue : IsQueue halves 8 (25 ∷ 11 ∷ []) × IsQueue halves 50 (21 ∷ 30 ∷ [])
halves-IsQueue =
    queue_split-IsQueue four 8 21 50 (25 ∷ 11 ∷ []) (30 ∷ [])
      (refl, (refl, (refl, (refl, (refl, tt))))) four-IsQueue

rejoined-IsQueue : IsQueue (queue_add 8 50 halves) 8 (25 ∷ 11 ∷ 21 ∷ 30 ∷ [])
rejoined-IsQueue =
    queue_add-queue_split four 8 21 50 (25 ∷ 11 ∷ []) (30 ∷ [])
      (refl, (refl, (refl, (refl, (refl, tt))))) four-IsQueue
