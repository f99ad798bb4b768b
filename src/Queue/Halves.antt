-- ===== src/Queue/Halves.antt =====
-- `uct_queue_split` and `uct_queue_add`: a queue in two, and two queues in one.
use umicat.Base.{ℕ, ◌≡◌, ◌==◌, false, List, [], ◌∷◌, ◌++◌, arith, fun_ext, subst}
use mathlib.Core.List.{append_assoc}
use umicat.Base.Distinct.{NotIn, Distinct, eq_sym, NotIn-append}
use umicat.Queue.{Heap, update, set_next, set_prev, queue_split, queue_add}
use umicat.Queue.Links.{
  Linked, IsQueue, before, prev_before, drop_last, Linked-set_next, Linked-set_prev,
}
use umicat.Queue.Rotate.{Linked-join, Linked-parts, Distinct-swap, NotIn-both, NotIn-parts}

before-NotIn : (a : ℕ) (xs zs : List ℕ) → Distinct (a ∷ xs ++ zs) → NotIn (before a xs) zs
unfolding before
before-NotIn a [] zs d = d.0
before-NotIn a (x ∷ xs) zs d = before-NotIn x xs zs d.1

ne_before : (n a : ℕ) (xs : List ℕ) → NotIn n (a ∷ xs) → (n == before a xs) ≡ false
unfolding before
ne_before n a [] m = m.0
ne_before n a (x ∷ xs) m = ne_before n x xs m.1

Distinct-parts : (xs ys : List ℕ) → Distinct (xs ++ ys) → Distinct xs × Distinct ys
Distinct-parts [] ys d = (tt, d)
Distinct-parts (x ∷ xs) ys d =
    let (a, b) = Distinct-parts xs ys d.1 in (((NotIn-parts x xs ys d.0).0, a), b)

split-eq :
    (heap : Heap) (h q n l p : ℕ)
    → heap.prev h ≡ l
    → heap.prev q ≡ p
    → (n == q) ≡ false
    → queue_split h q n heap
      ≡ set_prev q n (set_next p h (set_prev h p (set_next n q (set_next l n (set_prev n l heap)))))
unfolding queue_split set_next set_prev
split-eq heap h q n l p e f a =
    let prevs : (queue_split h q n heap).prev ≡ update q n (update h p (update n l heap.prev)) =
      fun_ext (λ c. ground (arith, e, f, a)) in
    let nexts : (queue_split h q n heap).next ≡ update p h (update n q (update l n heap.next)) =
      fun_ext (λ c. ground (arith, e, f, a)) in
    λ i. record { prev = prevs i; next = nexts i }

-- The first queue keeps the nodes in front of `q`, and `n` has `q` and those behind it.
pub queue_split-IsQueue :
    (heap : Heap) (h q n : ℕ) (xs ys : List ℕ)
    → NotIn n (h ∷ xs ++ q ∷ ys)
    → IsQueue heap h (xs ++ q ∷ ys)
    → IsQueue (queue_split h q n heap) h xs × IsQueue (queue_split h q n heap) n (q ∷ ys)
unfolding set_next set_prev
queue_split-IsQueue heap h q n xs ys m w =
    let links : Linked heap h (xs ++ (q ∷ (ys ++ h ∷ []))) =
      subst (Linked heap h) (append_assoc xs (q ∷ ys) (h ∷ [])) w.links in
    let (front, back) = Linked-parts heap h q xs (ys ++ h ∷ []) links in
    let (m_h, m_q) = NotIn-parts n (h ∷ xs) (q ∷ ys) m in
    let turned = Distinct-swap (h ∷ xs) (q ∷ ys) w.distinct in
    let (d_h, d_q) = Distinct-parts (h ∷ xs) (q ∷ ys) w.distinct in
    let p = before h xs in
    let l = before q ys in
    let q_h = NotIn-parts q ys (h ∷ xs) turned.0 in
    let h_q = NotIn-parts h xs (q ∷ ys) w.distinct.0 in
    let p_q = before-NotIn h xs (q ∷ ys) w.distinct in
    let l_h = before-NotIn q ys (h ∷ xs) turned in
    let eq =
      split-eq heap h q n l p (prev_before heap q h ys back) (prev_before heap h q xs front)
        m_q.0 in
    let front1 =
      Linked-set_prev heap n l h (xs ++ q ∷ []) (NotIn-append n xs q m_h.1 m_q.0) front in
    let front2 = Linked-set_next _ l n h xs q l_h front1 in
    let front3 = Linked-set_next _ n q h xs q m_h front2 in
    let front5 = drop_last _ h h q xs d_h h_q.0 front3 in
    let front6 =
      Linked-set_prev _ q n h (xs ++ h ∷ []) (NotIn-append q xs h q_h.1.1 q_h.1.0) front5 in
    let back2 = drop_last heap n q h ys d_q m_q.1 back in
    let back3 = Linked-set_next _ n q q ys n m_q back2 in
    let back4 =
      Linked-set_prev _ h p q (ys ++ n ∷ []) (NotIn-append h ys n h_q.1.1 (eq_sym n h m_h.0))
        back3 in
    let back5 = Linked-set_next _ p h q ys n p_q back4 in
    let back6 =
      Linked-set_prev _ q n q (ys ++ n ∷ []) (NotIn-append q ys n q_h.0 (eq_sym n q m_q.0)) back5 in
    let apart = eq_sym n p (ne_before n h xs m_h) in
    rw eq (
      record { links = front6; distinct = d_h },
      record { links = (ground (arith, apart), ground arith, back6); distinct = (m_q, d_q) },
    )

add-eq :
    (heap : Heap) (h n l m y : ℕ)
    → heap.prev h ≡ l
    → heap.prev n ≡ m
    → heap.next n ≡ y
    → (l == n) ≡ false
    → (y == n) ≡ false
    → queue_add h n heap ≡ set_next m h (set_prev h m (set_next l y (set_prev y l heap)))
unfolding queue_add set_next set_prev
add-eq heap h n l m y e f g a b =
    let prevs : (queue_add h n heap).prev ≡ update h m (update y l heap.prev) =
      fun_ext (λ c. ground (arith, e, f, g, a, b)) in
    let nexts : (queue_add h n heap).next ≡ update m h (update l y heap.next) =
      fun_ext (λ c. ground (arith, e, f, g, a, b)) in
    λ i. record { prev = prevs i; next = nexts i }

-- The nodes of `n`, which has one at least, come behind those of `h`.
pub queue_add-IsQueue :
    (heap : Heap) (h n y : ℕ) (xs ys : List ℕ)
    → Distinct ((h ∷ xs) ++ n ∷ y ∷ ys)
    → IsQueue heap h xs
    → IsQueue heap n (y ∷ ys)
    → IsQueue (queue_add h n heap) h (xs ++ y ∷ ys)
queue_add-IsQueue heap h n y xs ys d v w =
    let (d_h, d_n) = Distinct-parts (h ∷ xs) (n ∷ y ∷ ys) d in
    let turned = Distinct-swap (h ∷ xs) (n ∷ y ∷ ys) d in
    let l = before h xs in
    let m = before y ys in
    let h_n = NotIn-parts h xs (n ∷ y ∷ ys) d.0 in
    let n_h = NotIn-parts n (y ∷ ys) (h ∷ xs) turned.0 in
    let y_h = NotIn-parts y ys (h ∷ xs) turned.1.0 in
    let l_n = before-NotIn h xs (n ∷ y ∷ ys) d in
    let m_h = before-NotIn y ys (h ∷ xs) turned.1 in
    let eq =
      add-eq heap h n l m y (prev_before heap h h xs v.links) (prev_before heap y n ys w.links.2)
        w.links.0 l_n.0 (eq_sym n y n_h.0.0) in
    let front2 = drop_last heap y h h xs d_h y_h.1.1 v.links in
    let front3 =
      Linked-set_prev _ h m h (xs ++ y ∷ []) (NotIn-append h xs y d_h.0 h_n.1.1.0) front2 in
    let front4 = Linked-set_next _ m h h xs y m_h front3 in
    let back1 =
      Linked-set_prev heap y l y (ys ++ n ∷ []) (NotIn-append y ys n y_h.0 (eq_sym n y n_h.0.0))
        w.links.2 in
    let back2 = Linked-set_next _ l y y ys n l_n.1 back1 in
    let back4 = drop_last _ h y n ys d_n.1 h_n.1.1.1 back2 in
    rw eq (record {
      links =
          rw (append_assoc xs (y ∷ ys) (h ∷ [])) (Linked-join _ h y xs (ys ++ h ∷ []) front4 back4);
      distinct = Distinct-swap (y ∷ ys) (h ∷ xs) turned.1;
    })

-- A queue that is split and joined again holds the nodes that it held.
pub queue_add-queue_split :
    (heap : Heap) (h q n : ℕ) (xs ys : List ℕ)
    → NotIn n (h ∷ xs ++ q ∷ ys)
    → IsQueue heap h (xs ++ q ∷ ys)
    → IsQueue (queue_add h n (queue_split h q n heap)) h (xs ++ q ∷ ys)
queue_add-queue_split heap h q n xs ys m w =
    let (v, u) = queue_split-IsQueue heap h q n xs ys m w in
    let fresh = NotIn-parts n (h ∷ xs) (q ∷ ys) m in
    let turned : Distinct (n ∷ (q ∷ ys) ++ h ∷ xs) = (
      NotIn-both n (q ∷ ys) (h ∷ xs) fresh.1 fresh.0,
      Distinct-swap (h ∷ xs) (q ∷ ys) w.distinct,
    ) in
    queue_add-IsQueue (queue_split h q n heap) h n q xs ys
      (Distinct-swap (n ∷ q ∷ ys) (h ∷ xs) turned) v u
