-- ===== src/Queue/Sort.antt =====
-- `uct_queue_sort` (src/uct_queue.c): the insertion sort of the nodes of a queue, and what it makes of
-- the list of its nodes.
pub mod Order
use umicat.Base.{
  ℕ, zero, suc, ◌+◌, ◌≤◌, ◌<◌, ◌≡◌, ◌==◌, refl, sym, ap, ◌∙◌, Bool, true, false, Option, none, some,
  List, [], ◌∷◌, ◌++◌, arith, length, ==_iff, Bool-cases, inl, inr, subst,
}
use umicat.Base.Int.{ℤ, pos, leb_ℤ}
use umicat.Base.Distinct.{NotIn, Distinct, eq_sym}
use umicat.Queue.{
  Heap, queue_insert_head, queue_last, queue_remove, find_place, sort_loop, queue_sort,
}
use umicat.Queue.Links.{IsQueue, Linked}
use umicat.Queue.Rotate.{
  NotIn-onto, NotIn-rest, prev_ne, onto, first_or, prev-first_or, next-first_or,
  insert_after-IsQueue, queue_remove-IsQueue,
}

module _ (cmp : ℕ → ℕ → ℤ) where
  -- On lists that are read backwards: a node is put behind the last one that is not above it, and
  -- the nodes of a list one after the other.
  unfoldable pub insert_back : ℕ → List ℕ → List ℕ
  insert_back q [] = q ∷ []
  insert_back q (p ∷ rf) =
      let rest = insert_back q rf in
      elim (leb_ℤ (cmp p q) (pos 0)) [ true ↦ q ∷ p ∷ rf | false ↦ p ∷ rest ]

  unfoldable pub insert_each : List ℕ → List ℕ → List ℕ
  insert_each [] rf = rf
  insert_each (q ∷ qs) rf = insert_each qs (insert_back q rf)

  -- The sorted list, first to last.
  unfoldable pub sorted : List ℕ → List ℕ
  sorted xs = onto (insert_each xs []) []

  -- Where the loop puts `q` when the nodes of `p ∷ rf`, read backwards, are in front of `ys`.
  record Placed (heap : Heap) (h q : ℕ) (rf ys : List ℕ) (r : Option ℕ) : Type 0 where
    node : ℕ
    found : r ≡ some node
    queue : IsQueue (queue_insert_head node q heap) h (onto (insert_back q rf) ys)

  module _ (fuel : ℕ) (heap : Heap) (h q p : ℕ) (rf ys : List ℕ)
      (n : NotIn q (h ∷ onto (p ∷ rf) ys)) (k : IsQueue heap h (onto (p ∷ rf) ys)) where
    -- The search ends at `p`.
    Placed-here :
        leb_ℤ (cmp p q) (pos 0) ≡ true
        → Placed heap h q (p ∷ rf) ys (find_place cmp (suc fuel) h q p heap)
    unfolding find_place insert_back
    Placed-here e =
        rw (e, find_place)
          (record {
            node = p;
            found = refl;
            queue = rw (e, insert_back) (insert_after-IsQueue heap h q (p ∷ rf) ys n k);
          })

  find_place-Placed :
      (fuel : ℕ) (heap : Heap) (h q p : ℕ) (rf ys : List ℕ)
      → length (p ∷ rf) ≤ fuel
      → NotIn q (h ∷ onto (p ∷ rf) ys)
      → IsQueue heap h (onto (p ∷ rf) ys)
      → Placed heap h q (p ∷ rf) ys (find_place cmp fuel h q p heap)
  unfolding find_place insert_back
  find_place-Placed zero heap h q p rf ys f n k = absurd (omega arith)
  find_place-Placed (suc fuel) heap h q p [] ys f n k =
      elim (Bool-cases (leb_ℤ (cmp p q) (pos 0))) [
        | inl e ↦ Placed-here fuel heap h q p [] ys n k e
        | inr e ↦
            let top : (heap.prev p == h) ≡ true = (==_iff _ _).1 (prev-first_or heap h p [] ys k) in
            rw (e, top, find_place)
              (record {
                node = h;
                found = refl;
                queue = rw (e, insert_back) (insert_after-IsQueue heap h q [] (p ∷ ys) n k);
              })
      ]
  find_place-Placed (suc fuel) heap h q p (p2 ∷ rf) ys f n k =
      elim (Bool-cases (leb_ℤ (cmp p q) (pos 0))) [
        | inl e ↦ Placed-here fuel heap h q p (p2 ∷ rf) ys n k e
        | inr e ↦
            let prev : heap.prev p ≡ p2 = prev-first_or heap h p (p2 ∷ rf) ys k in
            let more : (p2 == h) ≡ false =
              eq_sym h p2 (NotIn-onto h p2 rf (p ∷ ys) k.distinct.0).0 in
            let m = find_place-Placed fuel heap h q p2 rf (p ∷ ys) (omega arith) n k in
            let apart : (heap.prev p == h) ≡ false = rw prev more in
            rw (e, apart, find_place)
              (record {
                node = m.node;
                found = ap (λ (v : ℕ). find_place cmp fuel h q v heap) prev ∙ m.found;
                queue = rw (e, insert_back) m.queue;
              })
      ]

  length-insert_back : (q : ℕ) (rf : List ℕ) → length (insert_back q rf) ≡ suc (length rf)
  unfolding insert_back
  length-insert_back q [] = refl
  length-insert_back q (p ∷ rf) = elim (Bool-cases (leb_ℤ (cmp p q) (pos 0))) [
    | inl e ↦ rw (e, insert_back) refl
    | inr e ↦ rw (e, insert_back) (ap suc (length-insert_back q rf))
  ]

  -- What the rest of the loop leaves, when the nodes in front of `ys` are in order.
  record Looped (h : ℕ) (rf ys : List ℕ) (r : Option Heap) : Type 0 where
    heap : Heap
    ends : r ≡ some heap
    queue : IsQueue heap h (onto (insert_each ys rf) [])

  sort_loop-Looped :
      (fuel steps : ℕ) (heap : Heap) (h : ℕ) (rf ys : List ℕ)
      → 0 < length rf
      → length ys ≤ fuel
      → length rf + length ys ≤ steps
      → IsQueue heap h (onto rf ys)
      → Looped h rf ys (sort_loop cmp fuel steps h (first_or ys h) heap)
  unfolding sort_loop insert_each
  sort_loop-Looped zero steps heap h rf [] l f s k =
      let end : (h == h) ≡ true = (==_iff h h).1 refl in
      rw (end, sort_loop) (record { heap = heap; ends = refl; queue = k })
  sort_loop-Looped (suc fuel) steps heap h rf [] l f s k =
      let end : (h == h) ≡ true = (==_iff h h).1 refl in
      rw (end, sort_loop) (record { heap = heap; ends = refl; queue = k })
  sort_loop-Looped zero steps heap h rf (y ∷ ys) l f s k = absurd (omega arith)
  sort_loop-Looped (suc fuel) steps heap h [] (y ∷ ys) l f s k = absurd (omega arith)
  sort_loop-Looped (suc fuel) steps heap h (p ∷ rf) (y ∷ ys) l f s k =
      let heap1 = queue_remove y heap in
      let more : (y == h) ≡ false = eq_sym h y (NotIn-onto h y (p ∷ rf) ys k.distinct.0).0 in
      let prev : heap.prev y ≡ p = prev-first_or heap h y (p ∷ rf) ys k in
      let next : heap.next y ≡ first_or ys h = next-first_or heap h y (p ∷ rf) ys k in
      let out = queue_remove-IsQueue heap h y (p ∷ rf) ys k in
      let fresh : NotIn y (h ∷ onto (p ∷ rf) ys) = (more, NotIn-rest y (p ∷ rf) ys k.distinct.1) in
      let m = find_place-Placed steps heap1 h y p rf ys (omega arith) fresh out in
      let size = length-insert_back y (p ∷ rf) in
      let rest =
        sort_loop-Looped fuel steps (queue_insert_head m.node y heap1) h (insert_back y (p ∷ rf)) ys
          (omega (arith, size)) (omega arith) (omega (arith, size)) m.queue in
      rw (more, prev, m.found, sort_loop, next)
        (record { heap = rest.heap; ends = rest.ends; queue = rest.queue })

  -- What the sort leaves of a queue with the nodes `xs`.
  pub record Sorted (h : ℕ) (xs : List ℕ) (r : Option Heap) : Type 0 where
    pub heap : Heap
    pub ends : r ≡ some heap
    pub queue : IsQueue heap h (sorted xs)

  pub queue_sort-Sorted :
      (fuel : ℕ) (heap : Heap) (h : ℕ) (xs : List ℕ)
      → length xs ≤ fuel
      → IsQueue heap h xs
      → Sorted h xs (queue_sort cmp fuel h heap)
  unfolding queue_sort sorted insert_each insert_back queue_last
  queue_sort-Sorted fuel heap h [] f k =
      let one : (heap.next h == heap.prev h) ≡ true = (==_iff _ _).1 (k.links.0 ∙ sym k.links.1) in
      rw (one, queue_sort) (record { heap = heap; ends = refl; queue = k })
  queue_sort-Sorted fuel heap h (x ∷ []) f k =
      let one : (heap.next h == heap.prev h) ≡ true =
        (==_iff _ _).1 (k.links.0 ∙ sym k.links.2.1) in
      rw (one, queue_sort) (record { heap = heap; ends = refl; queue = k })
  queue_sort-Sorted fuel heap h (x ∷ y ∷ ys) f k =
      let more : (heap.next h == heap.prev h) ≡ false =
        rw k.links.0 (prev_ne heap x x y h ys k.distinct.1.0 k.links.2) in
      let next : heap.next (heap.next h) ≡ y = ap heap.next k.links.0 ∙ k.links.2.0 in
      let m =
        sort_loop-Looped fuel fuel heap h (x ∷ []) (y ∷ ys) (omega arith) (omega arith)
          (omega arith) k in
      rw (more, next, queue_sort) (record { heap = m.heap; ends = m.ends; queue = m.queue })
