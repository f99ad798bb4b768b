-- ===== src/Queue/Tail.antt =====
-- The other end of a queue: a node put in front of the sentinel, and the test for an empty queue.
use umicat.Base.{
  ℕ, ◌≡◌, ◌==◌, ◌↔◌, refl, sym, ◌∙◌, true, false, List, [], ◌∷◌, ◌++◌, arith, fun_ext, subst,
  ==_iff,
}
use mathlib.Core.List.{append-nil}
use umicat.Base.Distinct.{NotIn}
use umicat.Queue.{Heap, set_next, set_prev, queue_insert_head, queue_insert_tail, queue_empty}
use umicat.Queue.Links.{IsQueue}
use umicat.Queue.Rotate.{
  onto, first_or, insert_after-IsQueue, prev_ne, last-first_or, NotIn-onto, onto-onto,
}

-- To insert in front of the sentinel is to insert behind the last node, which the sentinel follows.
insert_tail-eq :
    (heap : Heap) (h x p : ℕ)
    → heap.prev h ≡ p
    → heap.next p ≡ h
    → (x == h) ≡ false
    → (x == p) ≡ false
    → queue_insert_tail h x heap ≡ queue_insert_head p x heap
unfolding queue_insert_tail queue_insert_head set_next set_prev
insert_tail-eq heap h x p e n a b =
    let prevs : (queue_insert_tail h x heap).prev ≡ (queue_insert_head p x heap).prev =
      fun_ext (λ c. ground (arith, e, n, a, b)) in
    let nexts : (queue_insert_tail h x heap).next ≡ (queue_insert_head p x heap).next =
      fun_ext (λ c. ground (arith, e, n, a, b)) in
    λ i. record { prev = prevs i; next = nexts i }

first_or_ne : (x h : ℕ) (rf : List ℕ) → NotIn x (h ∷ onto rf []) → (x == first_or rf h) ≡ false
first_or_ne x h [] n = n.0
first_or_ne x h (p ∷ rf) n = (NotIn-onto x p rf [] n.1).0

-- A node that is not in the queue is put behind the others.
pub queue_insert_tail-IsQueue :
    (heap : Heap) (h x : ℕ) (xs : List ℕ)
    → NotIn x (h ∷ xs)
    → IsQueue heap h xs
    → IsQueue (queue_insert_tail h x heap) h (xs ++ x ∷ [])
queue_insert_tail-IsQueue heap h x xs n q =
    let rf = onto xs [] in
    let same : onto rf [] ≡ xs = onto-onto xs [] [] ∙ append-nil xs in
    let there : IsQueue heap h (onto rf []) = subst (IsQueue heap h) (sym same) q in
    let fresh : NotIn x (h ∷ onto rf []) = (n.0, subst (NotIn x) (sym same) n.1) in
    let (last, back) = last-first_or heap h rf there in
    rw (insert_tail-eq heap h x (first_or rf h) last back n.0 (first_or_ne x h rf fresh)) (
      subst (IsQueue (queue_insert_head (first_or rf h) x heap) h) (onto-onto xs [] (x ∷ []))
        (insert_after-IsQueue heap h x rf [] fresh there))

-- The test for an empty queue holds of the queue that links no node, and of no other.
pub queue_empty_lem :
    (heap : Heap) (h : ℕ) (xs : List ℕ)
    → IsQueue heap h xs
    → (queue_empty h heap ≡ true) ↔ (xs ≡ [])
unfolding queue_empty
queue_empty_lem heap h [] q = (λ e. refl, λ e. (==_iff h (heap.prev h)).1 (sym q.links.1))
queue_empty_lem heap h (x ∷ xs) q =
    let other = prev_ne heap h h x h xs q.distinct.0 q.links in (λ e. absurd (cc), λ e. absurd (cc))
