-- ===== src/Queue/Rotate.antt =====
-- A queue read from any of its nodes: each is the sentinel of a queue with the others in turn, so
-- that the facts about a queue's ends serve in its middle.
use umicat.Base.{ℕ, ◌≡◌, ◌==◌, refl, sym, false, List, [], ◌∷◌, ◌++◌, subst}
use mathlib.Core.List.{append_assoc, append-nil}
use umicat.Base.Distinct.{NotIn, Distinct, eq_sym}
use umicat.Queue.{Heap, queue_insert_head, queue_remove}
use umicat.Queue.Links.{Linked, IsQueue, queue_insert_head-IsQueue, queue_remove-queue_last}

-- The first list backwards, in front of the second.
abbrev pub onto : List ℕ → List ℕ → List ℕ
onto [] ys = ys
onto (x ∷ xs) ys = onto xs (x ∷ ys)

-- The first node of a list that `a` ends.
abbrev pub first_or : List ℕ → ℕ → ℕ
first_or [] a = a
first_or (x ∷ xs) a = x

onto-append : (xs ys zs : List ℕ) → onto xs (ys ++ zs) ≡ onto xs ys ++ zs
onto-append [] ys zs = refl
onto-append (x ∷ xs) ys zs = onto-append xs (x ∷ ys) zs

pub NotIn-both : (x : ℕ) (xs ys : List ℕ) → NotIn x xs → NotIn x ys → NotIn x (xs ++ ys)
NotIn-both x [] ys n m = m
NotIn-both x (y ∷ xs) ys n m = (n.0, NotIn-both x xs ys n.1 m)

pub NotIn-parts : (x : ℕ) (xs ys : List ℕ) → NotIn x (xs ++ ys) → NotIn x xs × NotIn x ys
NotIn-parts x [] ys n = (tt, n)
NotIn-parts x (y ∷ xs) ys n = let (a, b) = NotIn-parts x xs ys n.1 in ((n.0, a), b)

-- One node from the front to the back.
Distinct-turn : (x : ℕ) (xs : List ℕ) → NotIn x xs → Distinct xs → Distinct (xs ++ x ∷ [])
Distinct-turn x [] n d = (tt, tt)
Distinct-turn x (y ∷ xs) n d =
    (NotIn-both y xs (x ∷ []) d.0 (eq_sym x y n.0, tt), Distinct-turn x xs n.1 d.1)

pub Distinct-swap : (xs ys : List ℕ) → Distinct (xs ++ ys) → Distinct (ys ++ xs)
Distinct-swap [] ys d = rw (append-nil ys) d
Distinct-swap (x ∷ xs) ys d = rw (append_assoc ys (x ∷ []) xs) at (
    Distinct-swap xs (ys ++ x ∷ [])
      (rw (append_assoc xs ys (x ∷ [])) at (Distinct-turn x (xs ++ ys) d.0 d.1)))

-- Two stretches that meet in a node.
pub Linked-join :
    (heap : Heap) (a b : ℕ) (xs zs : List ℕ)
    → Linked heap a (xs ++ b ∷ [])
    → Linked heap b zs
    → Linked heap a (xs ++ b ∷ zs)
Linked-join heap a b [] zs l m = (l.0, l.1, m)
Linked-join heap a b (x ∷ xs) zs l m = (l.0, l.1, Linked-join heap x b xs zs l.2 m)

pub Linked-parts :
    (heap : Heap) (a b : ℕ) (xs zs : List ℕ)
    → Linked heap a (xs ++ b ∷ zs)
    → Linked heap a (xs ++ b ∷ []) × Linked heap b zs
Linked-parts heap a b [] zs l = ((l.0, l.1, tt), l.2)
Linked-parts heap a b (x ∷ xs) zs l =
    let (m, n) = Linked-parts heap x b xs zs l.2 in ((l.0, l.1, m), n)

-- From the sentinel `h` to the node `y`.
pub IsQueue-rotate :
    (heap : Heap) (h y : ℕ) (xs ys : List ℕ)
    → IsQueue heap h (xs ++ y ∷ ys)
    → IsQueue heap y (ys ++ h ∷ xs)
IsQueue-rotate heap h y xs ys q =
    let links : Linked heap h (xs ++ (y ∷ (ys ++ h ∷ []))) =
      subst (Linked heap h) (append_assoc xs (y ∷ ys) (h ∷ [])) q.links in
    let (front, back) = Linked-parts heap h y xs (ys ++ h ∷ []) links in
    record {
      links =
          subst (Linked heap y) (sym (append_assoc ys (h ∷ xs) (y ∷ [])))
            (Linked-join heap y h ys (xs ++ y ∷ []) back front);
      distinct = Distinct-swap (h ∷ xs) (y ∷ ys) q.distinct;
    }

onto-split : (xs ys : List ℕ) → onto xs ys ≡ onto xs [] ++ ys
onto-split xs ys = onto-append xs [] ys

module _ {heap : Heap} {h : ℕ} (p : ℕ) (rf ys : List ℕ) where
  -- The queue seen from the last node of its front, and back.
  IsQueue-from : IsQueue heap h (onto (p ∷ rf) ys) → IsQueue heap p (ys ++ h ∷ onto rf [])
  IsQueue-from q =
      IsQueue-rotate heap h p (onto rf []) ys (subst (IsQueue heap h) (onto-split rf (p ∷ ys)) q)

  IsQueue-back : IsQueue heap p (ys ++ h ∷ onto rf []) → IsQueue heap h (onto (p ∷ rf) ys)
  IsQueue-back q =
      subst (IsQueue heap h) (sym (onto-split rf (p ∷ ys)))
        (IsQueue-rotate heap p h ys (onto rf []) q)

NotIn-from :
    (h p x : ℕ) (rf ys : List ℕ)
    → NotIn x (h ∷ onto (p ∷ rf) ys)
    → NotIn x (p ∷ (ys ++ h ∷ onto rf []))
NotIn-from h p x rf ys n =
    let parts =
      NotIn-parts x (onto rf []) (p ∷ ys) (subst (NotIn x) (onto-split rf (p ∷ ys)) n.1) in
    (parts.1.0, NotIn-both x ys (h ∷ onto rf []) parts.1.1 (n.0, parts.0))

pub NotIn-onto :
    (x p : ℕ) (rf ys : List ℕ)
    → NotIn x (onto (p ∷ rf) ys)
    → ((x == p) ≡ false) × NotIn x (onto rf ys)
NotIn-onto x p rf ys n =
    let parts = NotIn-parts x (onto rf []) (p ∷ ys) (subst (NotIn x) (onto-split rf (p ∷ ys)) n) in
    (
      parts.1.0,
      subst (NotIn x) (sym (onto-split rf ys)) (NotIn-both x (onto rf []) ys parts.0 parts.1.1),
    )

-- A node of a list without doubles is in no other place.
pub NotIn-rest : (x : ℕ) (rf ys : List ℕ) → Distinct (onto rf (x ∷ ys)) → NotIn x (onto rf ys)
NotIn-rest x [] ys d = d.0
NotIn-rest x (p ∷ rf) ys d =
    let turned : Distinct ((x ∷ ys) ++ onto (p ∷ rf) []) =
      Distinct-swap (onto (p ∷ rf) []) (x ∷ ys) (subst Distinct (onto-split (p ∷ rf) (x ∷ ys)) d) in
    let parts = NotIn-parts x ys (onto (p ∷ rf) []) turned.0 in
    subst (NotIn x) (sym (onto-split (p ∷ rf) ys))
      (NotIn-both x (onto (p ∷ rf) []) ys parts.1 parts.0)

-- The node before a node in the middle of a queue, and the one behind it.
pub prev-first_or :
    (heap : Heap) (h x : ℕ) (rf ys : List ℕ)
    → IsQueue heap h (onto rf (x ∷ ys))
    → heap.prev x ≡ first_or rf h
prev-first_or heap h x [] ys q = q.links.1
prev-first_or heap h x (p ∷ rf) ys q = (IsQueue-from p rf (x ∷ ys) q).links.1

pub next-first_or :
    (heap : Heap) (h x : ℕ) (rf ys : List ℕ)
    → IsQueue heap h (onto rf (x ∷ ys))
    → heap.next x ≡ first_or ys h
next-first_or heap h x rf [] q = (IsQueue-from x rf [] q).links.0
next-first_or heap h x rf (y ∷ ys) q = (IsQueue-from x rf (y ∷ ys) q).links.0

-- A fresh node is put behind the front.
pub insert_after-IsQueue :
    (heap : Heap) (h x : ℕ) (rf ys : List ℕ)
    → NotIn x (h ∷ onto rf ys)
    → IsQueue heap h (onto rf ys)
    → IsQueue (queue_insert_head (first_or rf h) x heap) h (onto (x ∷ rf) ys)
insert_after-IsQueue heap h x [] ys n q = queue_insert_head-IsQueue heap h x ys n q
insert_after-IsQueue heap h x (p ∷ rf) ys n q = IsQueue-back p rf (x ∷ ys) (
    queue_insert_head-IsQueue heap p x (ys ++ h ∷ onto rf []) (NotIn-from h p x rf ys n)
      (IsQueue-from p rf ys q))

remove_last :
    (heap : Heap) (h x : ℕ) (xs : List ℕ)
    → IsQueue heap h (xs ++ x ∷ [])
    → IsQueue (queue_remove x heap) h xs
remove_last heap h x xs q =
    let (last, rest) = queue_remove-queue_last heap h x xs q in
    subst (λ (l : ℕ). IsQueue (queue_remove l heap) h xs) last rest

-- A node is taken out of the middle.
pub queue_remove-IsQueue :
    (heap : Heap) (h x : ℕ) (rf ys : List ℕ)
    → IsQueue heap h (onto rf (x ∷ ys))
    → IsQueue (queue_remove x heap) h (onto rf ys)
queue_remove-IsQueue heap h x rf [] q =
    remove_last heap h x (onto rf []) (subst (IsQueue heap h) (onto-split rf (x ∷ [])) q)
queue_remove-IsQueue heap h x rf (y ∷ ys) q =
    let seen : IsQueue heap y (ys ++ h ∷ onto rf (x ∷ [])) = IsQueue-from y (x ∷ rf) ys q in
    let last : IsQueue heap y ((ys ++ h ∷ onto rf []) ++ x ∷ []) =
      rw (append_assoc ys (h ∷ onto rf []) (x ∷ []), sym (onto-split rf (x ∷ []))) seen in
    IsQueue-back y rf ys (remove_last heap y x (ys ++ h ∷ onto rf []) last)

-- The last node is one of the others.
pub prev_ne :
    (heap : Heap) (w a z h : ℕ) (zs : List ℕ)
    → NotIn w (z ∷ zs)
    → Linked heap a (z ∷ zs ++ h ∷ [])
    → (w == heap.prev h) ≡ false
prev_ne heap w a z h [] n l = rw l.2.1 n.0
prev_ne heap w a z h (y ∷ zs) n l = prev_ne heap w z y h zs n.1 l.2

pub onto-onto : (xs ys zs : List ℕ) → onto (onto xs ys) zs ≡ onto ys (xs ++ zs)
onto-onto [] ys zs = refl
onto-onto (x ∷ xs) ys zs = onto-onto xs (x ∷ ys) zs

-- The last node and the sentinel are linked to each other.
pub last-first_or :
    (heap : Heap) (h : ℕ) (rf : List ℕ)
    → IsQueue heap h (onto rf [])
    → (heap.prev h ≡ first_or rf h) × (heap.next (first_or rf h) ≡ h)
last-first_or heap h [] q = (q.links.1, q.links.0)
last-first_or heap h (p ∷ rf) q = let seen = IsQueue-from p rf [] q in (seen.links.1, seen.links.0)
