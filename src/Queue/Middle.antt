-- ===== src/Queue/Middle.antt =====
-- `uct_queue_middle` (src/uct_queue.c): the node with as many before it as behind it, or one more.
use umicat.Base.{
  ℕ, zero, suc, ◌+◌, ◌/◌, ◌≤◌, ◌<◌, ◌≡◌, ◌==◌, sym, ap, ◌∙◌, true, false, some, List, [], ◌∷◌, ◌++◌,
  arith, length, get_or, ==_iff,
}
use umicat.Base.Distinct.{Distinct}
use umicat.Queue.{Heap, queue_last, middle_loop, queue_middle}
use umicat.Queue.Links.{IsQueue, Linked}
use umicat.Queue.Rotate.{prev_ne}

-- `middle` has `ms` behind it and `next` has `ns`.
middle_loop_lem :
    (fuel : ℕ) (heap : Heap) (h m n : ℕ) (ms ns : List ℕ)
    → Linked heap m (ms ++ h ∷ [])
    → Linked heap n (ns ++ h ∷ [])
    → Distinct ns
    → 0 < length ns
    → length ns ≤ length ms
    → length ns ≤ fuel
    → middle_loop fuel h m n heap ≡ some (get_or (m ∷ ms) ((length ns + 1) / 2) h)
unfolding middle_loop queue_last
middle_loop_lem fuel heap h m n ms [] l k d p s f = absurd (omega arith)
middle_loop_lem fuel heap h m n [] (n1 ∷ ns) l k d p s f = absurd (omega arith)
middle_loop_lem zero heap h m n ms (n1 ∷ ns) l k d p s f = absurd (omega arith)
middle_loop_lem (suc fuel) heap h m n (m1 ∷ ms) (n1 ∷ []) l k d p s f =
    let end : (heap.next n == heap.prev h) ≡ true = (==_iff _ _).1 (k.0 ∙ sym k.2.1) in
    rw (end, middle_loop) (ap (λ (a : ℕ). some a) l.0)
middle_loop_lem (suc fuel) heap h m n (m1 ∷ ms) (n1 ∷ n2 ∷ []) l k d p s f =
    let more : (heap.next n == heap.prev h) ≡ false = rw k.0 (prev_ne heap n1 n1 n2 h [] d.0 k.2) in
    let two : heap.next (heap.next n) ≡ n2 = ap heap.next k.0 ∙ k.2.0 in
    let end : (heap.next (heap.next n) == heap.prev h) ≡ true =
      (==_iff _ _).1 (two ∙ sym k.2.2.1) in
    rw (more, end, middle_loop) (ap (λ (a : ℕ). some a) l.0)
middle_loop_lem (suc fuel) heap h m n (m1 ∷ ms) (n1 ∷ n2 ∷ n3 ∷ ns) l k d p s f =
    let more : (heap.next n == heap.prev h) ≡ false =
      rw k.0 (prev_ne heap n1 n1 n2 h (n3 ∷ ns) d.0 k.2) in
    let two : heap.next (heap.next n) ≡ n2 = ap heap.next k.0 ∙ k.2.0 in
    let more2 : (heap.next (heap.next n) == heap.prev h) ≡ false =
      rw two (prev_ne heap n2 n2 n3 h ns d.1.0 k.2.2) in
    let rest =
      middle_loop_lem fuel heap h m1 n2 ms (n3 ∷ ns) l.2 k.2.2 d.1.1 (omega arith) (omega arith)
        (omega arith) in
    let half : (length (n1 ∷ n2 ∷ n3 ∷ ns) + 1) / 2 ≡ suc ((length (n3 ∷ ns) + 1) / 2) =
      omega arith in
    rw (more, more2, middle_loop) (rw (half, l.0, two) rest)

-- With as much fuel as there are nodes, the call gives the node that half of them, rounded down,
-- are in front of; for an empty queue it gives the sentinel.
pub queue_middle_lem :
    (fuel : ℕ) (heap : Heap) (h : ℕ) (xs : List ℕ)
    → length xs ≤ fuel
    → IsQueue heap h xs
    → queue_middle fuel h heap ≡ some (get_or xs (length xs / 2) h)
unfolding queue_middle queue_last
queue_middle_lem fuel heap h [] f q =
    let one : (heap.next h == heap.prev h) ≡ true = (==_iff _ _).1 (q.links.0 ∙ sym q.links.1) in
    rw (one, queue_middle) (ap (λ (a : ℕ). some a) q.links.0)
queue_middle_lem fuel heap h (x ∷ []) f q =
    let one : (heap.next h == heap.prev h) ≡ true = (==_iff _ _).1 (q.links.0 ∙ sym q.links.2.1) in
    rw (one, queue_middle) (ap (λ (a : ℕ). some a) q.links.0)
queue_middle_lem fuel heap h (x ∷ y ∷ ys) f q =
    let more : (heap.next h == heap.prev h) ≡ false =
      rw q.links.0 (prev_ne heap x x y h ys q.distinct.1.0 q.links.2) in
    let half : length (x ∷ y ∷ ys) / 2 ≡ (length (y ∷ ys) + 1) / 2 = omega arith in
    let rest =
      middle_loop_lem fuel heap h x x (y ∷ ys) (y ∷ ys) q.links.2 q.links.2 q.distinct.1.1
        (omega arith) (omega arith) (omega arith) in
    rw (more, queue_middle)
      (ap (λ (a : ℕ). middle_loop fuel h a a heap) q.links.0
        ∙ rest
        ∙ sym (ap (λ (i : ℕ). some (get_or (x ∷ y ∷ ys) i h)) half))
