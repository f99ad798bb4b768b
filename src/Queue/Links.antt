-- ===== src/Queue/Links.antt =====
-- The nodes that a queue links, in order, and what the operations make of them.
use umicat.Base.{ℕ, ◌≡◌, ◌==◌, refl, sym, ap, ◌∙◌, false, List, [], ◌∷◌, ◌++◌, arith, subst}
use mathlib.Core.List.{append_assoc}
use umicat.Base.Distinct.{NotIn, Distinct, eq_sym, NotIn-append, NotIn-init, Distinct-init}
use umicat.Queue.{
  Heap, update, set_next, set_prev, queue_init, queue_insert_head, queue_last, queue_remove,
}

-- Each node of the list is linked to the one before it, the first to `a`.
abbrev pub Linked : Heap → ℕ → List ℕ → Type 0
Linked heap a [] = Unit {0}
Linked heap a (b ∷ bs) = (heap.next a ≡ b) × (heap.prev b ≡ a) × Linked heap b bs

-- The queue with sentinel `h` holds the nodes `xs`: round from `h` through them and back.
pub record IsQueue (heap : Heap) (h : ℕ) (xs : List ℕ) : Type 0 where
  pub links : Linked heap h (xs ++ h ∷ [])
  pub distinct : Distinct (h ∷ xs)

update_ne : (a v b : ℕ) (f : ℕ → ℕ) → (a == b) ≡ false → update a v f b ≡ f b
update_ne a v b f e = rw e refl

update_eq : (a v : ℕ) (f : ℕ → ℕ) → update a v f a ≡ v
update_eq a v f = ground arith

-- A write to a node's `next` is not seen by a list that the node is not a source of.
pub Linked-set_next :
    (heap : Heap) (x v a : ℕ) (bs : List ℕ) (c : ℕ)
    → NotIn x (a ∷ bs)
    → Linked heap a (bs ++ c ∷ [])
    → Linked (set_next x v heap) a (bs ++ c ∷ [])
unfolding set_next
Linked-set_next heap x v a [] c n l = (update_ne x v a heap.next n.0 ∙ l.0, l.1, tt)
Linked-set_next heap x v a (b ∷ bs) c n l =
    (update_ne x v a heap.next n.0 ∙ l.0, l.1, Linked-set_next heap x v b bs c n.1 l.2)

-- A write to a node's `prev` is not seen by a list that the node is not in.
pub Linked-set_prev :
    (heap : Heap) (x v a : ℕ) (bs : List ℕ)
    → NotIn x bs
    → Linked heap a bs
    → Linked (set_prev x v heap) a bs
unfolding set_prev
Linked-set_prev heap x v a [] n l = tt
Linked-set_prev heap x v a (b ∷ bs) n l =
    (l.0, update_ne x v b heap.prev n.0 ∙ l.1, Linked-set_prev heap x v b bs n.1 l.2)

insert_links :
    (heap : Heap) (h x : ℕ) (xs : List ℕ)
    → NotIn x (h ∷ xs)
    → IsQueue heap h xs
    → Linked (queue_insert_head h x heap) h (x ∷ xs ++ h ∷ [])
unfolding queue_insert_head set_next set_prev
insert_links heap h x [] n q =
    let next1 : ℕ → ℕ = update x (heap.next h) heap.next in
    let prev2 : ℕ → ℕ = update (next1 x) x heap.prev in
    let first : heap.next h ≡ h = q.links.0 in
    let apart : (h == x) ≡ false = eq_sym x h n.0 in
    (
      update_eq h x next1,
      update_eq x h prev2,
      (ground (arith, first, apart, n.0), ground (arith, first, apart, n.0), tt),
    )
insert_links heap h x (y ∷ xs) n q =
    let next1 : ℕ → ℕ = update x (heap.next h) heap.next in
    let prev2 : ℕ → ℕ = update (next1 x) x heap.prev in
    let c : update x (heap.next h) heap.next x ≡ y =
      update_eq x (heap.next h) heap.next ∙ q.links.0 in
    let n_x : NotIn x (xs ++ h ∷ []) = NotIn-append x xs h n.1.1 n.0 in
    let n_y : NotIn (update x (heap.next h) heap.next x) (xs ++ h ∷ []) =
      subst (λ d. NotIn d (xs ++ h ∷ [])) (sym c)
        (NotIn-append y xs h q.distinct.1.0 (eq_sym h y q.distinct.0.0)) in
    (
      update_eq h x next1,
      update_eq x h prev2,
      (
        update_ne h x x next1 (eq_sym x h n.0) ∙ c,
        update_ne x h y prev2 n.1.0 ∙ ap (λ d. update d x heap.prev y) c ∙ update_eq y x heap.prev,
        Linked-set_next _ h x y xs h q.distinct.0 (
            Linked-set_prev _ x h y (xs ++ h ∷ []) n_x (
              Linked-set_prev _ (update x (heap.next h) heap.next x) x y (xs ++ h ∷ []) n_y
                (Linked-set_next heap x (heap.next h) y xs h n.1 q.links.2))),
      ),
    )

-- A node that is not in the queue is put at its head.
pub queue_insert_head-IsQueue :
    (heap : Heap) (h x : ℕ) (xs : List ℕ)
    → NotIn x (h ∷ xs)
    → IsQueue heap h xs
    → IsQueue (queue_insert_head h x heap) h (x ∷ xs)
queue_insert_head-IsQueue heap h x xs n q = record {
  links = insert_links heap h x xs n q;
  distinct = ((eq_sym x h n.0, q.distinct.0), (n.1, q.distinct.1));
}

-- A list of nodes and one more behind it.
Linked-split :
    (heap : Heap) (a b c : ℕ) (xs : List ℕ)
    → Linked heap a (xs ++ b ∷ c ∷ [])
    → Linked heap a (xs ++ b ∷ []) × (heap.next b ≡ c) × (heap.prev c ≡ b)
Linked-split heap a b c [] l = ((l.0, l.1, tt), l.2.0, l.2.1)
Linked-split heap a b c (x ∷ xs) l =
    let (m, p, q) = Linked-split heap x b c xs l.2 in ((l.0, l.1, m), p, q)

-- The last node of a list, or the one in front of it.
unfoldable pub before : ℕ → List ℕ → ℕ
before a [] = a
before a (x ∷ xs) = before x xs

before_ne : (a y : ℕ) (xs : List ℕ) → NotIn a (y ∷ xs) → (before y xs == a) ≡ false
unfolding before
before_ne a y [] n = eq_sym a y n.0
before_ne a y (z ∷ xs) n = before_ne a z xs n.1

pub prev_before :
    (heap : Heap) (a x : ℕ) (xs : List ℕ) → Linked heap a (xs ++ x ∷ []) → heap.prev x ≡ before a xs
unfolding before
prev_before heap a x [] l = l.1
prev_before heap a x (y ∷ xs) l = prev_before heap y x xs l.2

-- The last node is taken out by linking `h` to the node before it.
pub drop_last :
    (heap : Heap) (h a x : ℕ) (xs : List ℕ)
    → Distinct (a ∷ xs)
    → NotIn h xs
    → Linked heap a (xs ++ x ∷ [])
    → Linked (set_next (before a xs) h (set_prev h (before a xs) heap)) a (xs ++ h ∷ [])
unfolding before set_next set_prev
drop_last heap h a x [] d n l = (update_eq a h heap.next, update_eq h a heap.prev, tt)
drop_last heap h a x (y ∷ xs) d n l = (
  update_ne (before y xs) h a heap.next (before_ne a y xs d.0) ∙ l.0,
  update_ne h (before y xs) y heap.prev n.0 ∙ l.1,
  drop_last heap h y x xs d.1 n.1 l.2,
)

queue_remove-eq :
    (heap : Heap) (h x p : ℕ)
    → heap.next x ≡ h
    → heap.prev x ≡ p
    → (h == x) ≡ false
    → queue_remove x heap ≡ set_next p h (set_prev h p heap)
unfolding queue_remove set_next set_prev
queue_remove-eq heap h x p n q e = rw (n, q) (rw e refl)

-- The last node of a queue is the one that is found from the sentinel, and removing it leaves the
-- others as they were.
pub queue_remove-queue_last :
    (heap : Heap) (h x : ℕ) (xs : List ℕ)
    → IsQueue heap h (xs ++ x ∷ [])
    → (queue_last h heap ≡ x) × IsQueue (queue_remove (queue_last h heap) heap) h xs
unfolding queue_last
queue_remove-queue_last heap h x xs q =
    let links : Linked heap h (xs ++ x ∷ h ∷ []) =
      subst (Linked heap h) (append_assoc xs (x ∷ []) (h ∷ [])) q.links in
    let (l, n, p) = Linked-split heap h x h xs links in
    let (m, e) = NotIn-init h x xs q.distinct.0 in
    let d : Distinct (h ∷ xs) = (m, Distinct-init x xs q.distinct.1) in
    (
      p,
      rw (p, queue_remove-eq heap h x (before h xs) n (prev_before heap h x xs l) e)
          (record { links = drop_last heap h h x xs d m l; distinct = d }),
    )

-- A queue that is set up is empty.
pub queue_init-IsQueue : (heap : Heap) (h : ℕ) → IsQueue (queue_init h heap) h []
unfolding queue_init set_next set_prev
queue_init-IsQueue heap h = record {
  links = (update_eq h h heap.next, update_eq h h heap.prev, tt);
  distinct = (tt, tt);
}
