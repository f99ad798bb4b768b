-- ===== src/Queue.antt =====
-- The intrusive doubly linked queue of uct_queue.h and uct_queue.c, on a heap of nodes.
pub mod Links
pub mod Rotate
pub mod Sort
pub mod Middle
pub mod Tail
pub mod Halves
use umicat.Base.{ℕ, zero, suc, Bool, true, false, Option, none, some, ◌==◌, if◌then◌else◌}
use umicat.Base.Int.{ℤ, pos, leb_ℤ}

-- The `prev` and `next` fields of all nodes, by their addresses.
pub record Heap : Type 0 where
  pub prev : ℕ → ℕ
  pub next : ℕ → ℕ

abbrev pub update : ℕ → ℕ → (ℕ → ℕ) → ℕ → ℕ
update a v f b = if a == b then v else f b

unfoldable pub set_next : ℕ → ℕ → Heap → Heap
set_next a v heap = record heap { next = update a v heap.next }

unfoldable pub set_prev : ℕ → ℕ → Heap → Heap
set_prev a v heap = record heap { prev = update a v heap.prev }

-- `uct_queue_init`, `uct_queue_insert_head`, `uct_queue_insert_tail`, `uct_queue_empty`,
-- `uct_queue_last` and `uct_queue_remove`.
unfoldable pub queue_init : ℕ → Heap → Heap
queue_init q heap = set_next q q (set_prev q q heap)

unfoldable pub queue_insert_head : ℕ → ℕ → Heap → Heap
queue_insert_head h x heap =
    let heap1 = set_next x (heap.next h) heap in
    let heap2 = set_prev (heap1.next x) x heap1 in
    let heap3 = set_prev x h heap2 in set_next h x heap3

unfoldable pub queue_insert_tail : ℕ → ℕ → Heap → Heap
queue_insert_tail h x heap =
    let heap1 = set_prev x (heap.prev h) heap in
    let heap2 = set_next (heap1.prev x) x heap1 in
    let heap3 = set_next x h heap2 in set_prev h x heap3

unfoldable pub queue_empty : ℕ → Heap → Bool
queue_empty h heap = h == heap.prev h

unfoldable pub queue_last : ℕ → Heap → ℕ
queue_last h heap = heap.prev h

unfoldable pub queue_remove : ℕ → Heap → Heap
queue_remove x heap =
    let heap1 = set_prev (heap.next x) (heap.prev x) heap in
    set_next (heap1.prev x) (heap1.next x) heap1

-- `uct_queue_split` moves `q` and the nodes behind it to the sentinel `n`, and `uct_queue_add` puts
-- the nodes of `n` behind those of `h`.
unfoldable pub queue_split : ℕ → ℕ → ℕ → Heap → Heap
queue_split h q n heap =
    let heap1 = set_prev n (heap.prev h) heap in
    let heap2 = set_next (heap1.prev n) n heap1 in
    let heap3 = set_next n q heap2 in
    let heap4 = set_prev h (heap3.prev q) heap3 in
    let heap5 = set_next (heap4.prev h) h heap4 in set_prev q n heap5

unfoldable pub queue_add : ℕ → ℕ → Heap → Heap
queue_add h n heap =
    let heap1 = set_next (heap.prev h) (heap.next n) heap in
    let heap2 = set_prev (heap1.next n) (heap1.prev h) heap1 in
    let heap3 = set_prev h (heap2.prev n) heap2 in set_next (heap3.prev h) h heap3

-- The sort of uct_queue.c, on fuel: the outer loop goes once over the nodes, the inner one at most
-- over those in front. It gives `none` when the fuel has run out.
module _ (cmp : ℕ → ℕ → ℤ) where
  -- The inner loop: back from `prev` to a node that is not above `q`, or to the sentinel.
  unfoldable pub find_place : ℕ → ℕ → ℕ → ℕ → Heap → Option ℕ
  find_place zero h q prev heap = none
  find_place (suc fuel) h q prev heap = elim (leb_ℤ (cmp prev q) (pos 0)) [
    | true ↦ some prev
    | false ↦ elim (heap.prev prev == h) [
      | true ↦ some h
      | false ↦ find_place fuel h q (heap.prev prev) heap
    ]
  ]

  -- The outer loop; `steps` is the fuel of the inner one.
  unfoldable pub sort_loop : ℕ → ℕ → ℕ → ℕ → Heap → Option Heap
  sort_loop zero steps h q heap = elim (q == h) [ true ↦ some heap | false ↦ none ]
  sort_loop (suc fuel) steps h q heap = elim (q == h) [
    | true ↦ some heap
    | false ↦
        let prev = heap.prev q in
        let next = heap.next q in
        let heap1 = queue_remove q heap in
        elim (find_place steps h q prev heap1) [
          | none ↦ none
          | some place ↦ sort_loop fuel steps h next (queue_insert_head place q heap1)
        ]
  ]

  unfoldable pub queue_sort : ℕ → ℕ → Heap → Option Heap
  queue_sort fuel h heap =
      let q = heap.next h in
      elim (q == queue_last h heap) [
        | true ↦ some heap
        | false ↦ sort_loop fuel fuel h (heap.next q) heap
      ]

-- `uct_queue_middle`, with fuel for the rounds of its loop.
unfoldable pub middle_loop : ℕ → ℕ → ℕ → ℕ → Heap → Option ℕ
middle_loop zero h middle next heap = none
middle_loop (suc fuel) h middle next heap = elim (heap.next next == queue_last h heap) [
  | true ↦ some (heap.next middle)
  | false ↦ elim (heap.next (heap.next next) == queue_last h heap) [
    | true ↦ some (heap.next middle)
    | false ↦ middle_loop fuel h (heap.next middle) (heap.next (heap.next next)) heap
  ]
]

unfoldable pub queue_middle : ℕ → ℕ → Heap → Option ℕ
queue_middle fuel h heap = elim (heap.next h == queue_last h heap) [
  | true ↦ some (heap.next h)
  | false ↦ middle_loop fuel h (heap.next h) (heap.next h) heap
]
