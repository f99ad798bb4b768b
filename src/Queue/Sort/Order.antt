-- ===== src/Queue/Sort/Order.antt =====
-- The list that the sort of a queue makes: in order, the same nodes, equal ones in their old order.
use umicat.Base.{
  ℕ, ◌≡◌, refl, ap, ◌∙◌, Bool, true, false, Option, some, List, [], ◌∷◌, ◌++◌, ◌⊎◌, inl, inr,
  if◌then◌else◌, Bool-cases, ◌≤◌, length,
}
use mathlib.Core.List.{Perm, perm_middle, append-nil}
use mathlib.Core.List.Perm
use umicat.Base.Int.{ℤ, pos, leb_ℤ}
use umicat.Queue.{Heap, queue_sort}
use umicat.Queue.Links.{IsQueue}
use umicat.Queue.Rotate.{onto, onto-onto}
use umicat.Queue.Sort.{insert_back, insert_each, sorted, queue_sort-Sorted}

-- The nodes that pass a test, in their order.
unfoldable pub keep : (ℕ → Bool) → List ℕ → List ℕ
keep t [] = []
keep t (x ∷ xs) = let rest = keep t xs in if t x then x ∷ rest else rest

keep-onto : (t : ℕ → Bool) (rf ys : List ℕ) → keep t (onto rf ys) ≡ onto (keep t rf) (keep t ys)
unfolding keep
keep-onto t [] ys = refl
keep-onto t (x ∷ rf) ys = elim (Bool-cases (t x)) [
  | inl e ↦ keep-onto t rf (x ∷ ys) ∙ rw e refl
  | inr e ↦ keep-onto t rf (x ∷ ys) ∙ rw e refl
]

onto-Perm : (rf ys : List ℕ) → Perm (onto rf ys) (rf ++ ys)
onto-Perm [] ys = Perm.refl ys
onto-Perm (x ∷ rf) ys = Perm.trans (onto-Perm rf (x ∷ ys)) (perm_middle rf ys)

module _ (cmp : ℕ → ℕ → ℤ) where
  -- `cmp` puts the first node not behind the second.
  abbrev pub Le : ℕ → ℕ → Type 0
  Le a b = leb_ℤ (cmp a b) (pos 0) ≡ true

  abbrev pub Above : ℕ → List ℕ → Type 0
  Above a [] = Unit {0}
  Above a (x ∷ xs) = Le a x × Above a xs

  abbrev pub IsSorted : List ℕ → Type 0
  IsSorted [] = Unit {0}
  IsSorted (x ∷ xs) = Above x xs × IsSorted xs

  insert_back-Perm : (q : ℕ) (rf : List ℕ) → Perm (insert_back cmp q rf) (q ∷ rf)
  unfolding insert_back
  insert_back-Perm q [] = Perm.refl _
  insert_back-Perm q (p ∷ rf) = elim (Bool-cases (leb_ℤ (cmp p q) (pos 0))) [
    | inl e ↦ rw (e, insert_back) (Perm.refl (q ∷ p ∷ rf))
    | inr e ↦
        rw (e, insert_back) (Perm.trans (Perm.cons p (insert_back-Perm q rf)) (Perm.swap q p rf))
  ]

  insert_each-Perm : (xs rf : List ℕ) → Perm (insert_each cmp xs rf) (xs ++ rf)
  unfolding insert_each
  insert_each-Perm [] rf = Perm.refl rf
  insert_each-Perm (q ∷ xs) rf =
      Perm.trans (insert_each-Perm xs (insert_back cmp q rf))
        (Perm.trans (Perm.append_left xs (insert_back-Perm q rf)) (perm_middle xs rf))

  sorted-Perm : (xs : List ℕ) → Perm (sorted cmp xs) xs
  unfolding sorted
  sorted-Perm xs =
      let all = insert_each-Perm xs [] in
      let back = onto-Perm (insert_each cmp xs []) [] in
      rw (append-nil xs) at (Perm.trans (rw (append-nil (insert_each cmp xs [])) at back) all)

  -- A class of nodes that `cmp` does not put one behind the other.
  module _ (t : ℕ → Bool) (same : (a b : ℕ) → t a ≡ true → t b ≡ true → Le a b) where
    behind :
        (q p : ℕ) (rf : List ℕ)
        → leb_ℤ (cmp p q) (pos 0) ≡ false
        → keep t (insert_back cmp q rf) ≡ keep t (q ∷ rf)
        → keep t (p ∷ insert_back cmp q rf) ≡ keep t (q ∷ p ∷ rf)
    unfolding keep
    behind q p rf e ih = elim (Bool-cases (t p)) [
      | inr f ↦ rw (f, ih) refl
      | inl f ↦ elim (Bool-cases (t q)) [
        | inr g ↦ rw (f, ih, g) refl
        | inl g ↦ let le : Le p q = same p q f g in absurd (cc)
      ]
    ]

    keep-insert_back : (q : ℕ) (rf : List ℕ) → keep t (insert_back cmp q rf) ≡ keep t (q ∷ rf)
    unfolding insert_back keep
    keep-insert_back q [] = refl
    keep-insert_back q (p ∷ rf) = elim (Bool-cases (leb_ℤ (cmp p q) (pos 0))) [
      | inl e ↦ rw (e, insert_back) refl
      | inr e ↦ rw (e, insert_back) (behind q p rf e (keep-insert_back q rf))
    ]

    keep-insert_each :
        (xs rf : List ℕ) → keep t (insert_each cmp xs rf) ≡ onto (keep t xs) (keep t rf)
    unfolding insert_each keep
    keep-insert_each [] rf = refl
    keep-insert_each (q ∷ xs) rf =
        keep-insert_each xs (insert_back cmp q rf)
        ∙ ap (onto (keep t xs)) (keep-insert_back q rf)
        ∙ elim (Bool-cases (t q)) [ inl e ↦ rw e refl | inr e ↦ rw e refl ]

    keep-sorted : (xs : List ℕ) → keep t (sorted cmp xs) ≡ keep t xs
    unfolding sorted keep
    keep-sorted xs =
        keep-onto t (insert_each cmp xs []) []
        ∙ ap (λ (l : List ℕ). onto l []) (keep-insert_each xs [])
        ∙ onto-onto (keep t xs) [] []
        ∙ append-nil (keep t xs)

  module _ (total : (a b : ℕ) → Le a b ⊎ Le b a)
      (trans : (a b c : ℕ) → Le a b → Le b c → Le a c) where
    abbrev Below : List ℕ → ℕ → Type 0
    Below [] a = Unit {0}
    Below (x ∷ xs) a = Le x a × Below xs a

    abbrev SortedBack : List ℕ → Type 0
    SortedBack [] = Unit {0}
    SortedBack (p ∷ rf) = Below rf p × SortedBack rf

    Below-insert_back :
        (a q : ℕ) (rf : List ℕ) → Le q a → Below rf a → Below (insert_back cmp q rf) a
    unfolding insert_back
    Below-insert_back a q [] l b = (l, tt)
    Below-insert_back a q (p ∷ rf) l b = elim (Bool-cases (leb_ℤ (cmp p q) (pos 0))) [
      | inl e ↦ rw (e, insert_back) (l, b)
      | inr e ↦ rw (e, insert_back) (b.0, Below-insert_back a q rf l b.1)
    ]

    Below-trans : (a b : ℕ) (rf : List ℕ) → Le a b → Below rf a → Below rf b
    Below-trans a b [] l h = tt
    Below-trans a b (x ∷ rf) l h = (trans x a b h.0 l, Below-trans a b rf l h.1)

    SortedBack-insert_back :
        (q : ℕ) (rf : List ℕ) → SortedBack rf → SortedBack (insert_back cmp q rf)
    unfolding insert_back
    SortedBack-insert_back q [] s = (tt, tt)
    SortedBack-insert_back q (p ∷ rf) s = elim (Bool-cases (leb_ℤ (cmp p q) (pos 0))) [
      | inl e ↦ rw (e, insert_back) ((e, Below-trans p q rf e s.0), s)
      | inr e ↦
          let over : Le q p = elim (total p q) [ inl l ↦ absurd (cc) | inr l ↦ l ] in
          rw (e, insert_back) (Below-insert_back p q rf over s.0, SortedBack-insert_back q rf s.1)
    ]

    SortedBack-insert_each : (xs rf : List ℕ) → SortedBack rf → SortedBack (insert_each cmp xs rf)
    unfolding insert_each
    SortedBack-insert_each [] rf s = s
    SortedBack-insert_each (q ∷ xs) rf s =
        SortedBack-insert_each xs (insert_back cmp q rf) (SortedBack-insert_back q rf s)

    -- Every node of the front is at most every one behind it.
    abbrev Apart : List ℕ → List ℕ → Type 0
    Apart [] ys = Unit {0}
    Apart (x ∷ rf) ys = Above x ys × Apart rf ys

    Apart-cons : (x : ℕ) (rf ys : List ℕ) → Below rf x → Apart rf ys → Apart rf (x ∷ ys)
    Apart-cons x [] ys b a = tt
    Apart-cons x (y ∷ rf) ys b a = ((b.0, a.0), Apart-cons x rf ys b.1 a.1)

    onto-IsSorted :
        (rf ys : List ℕ) → SortedBack rf → Apart rf ys → IsSorted ys → IsSorted (onto rf ys)
    onto-IsSorted [] ys s a i = i
    onto-IsSorted (x ∷ rf) ys s a i =
        onto-IsSorted rf (x ∷ ys) s.1 (Apart-cons x rf ys s.0 a.1) (a.0, i)

    Apart-nothing : (rf : List ℕ) → Apart rf []
    Apart-nothing [] = tt
    Apart-nothing (x ∷ rf) = (tt, Apart-nothing rf)

    sorted-IsSorted : (xs : List ℕ) → IsSorted (sorted cmp xs)
    unfolding sorted
    sorted-IsSorted xs =
        let back = insert_each cmp xs [] in
        onto-IsSorted back [] (SortedBack-insert_each xs [] tt) (Apart-nothing back) tt

-- What the sort makes of a queue with the nodes `xs`: a queue with the same nodes in order, those
-- that pass the test `t` one behind the other as before.
pub record Sorts (cmp : ℕ → ℕ → ℤ) (t : ℕ → Bool) (h : ℕ) (xs : List ℕ) (r : Option Heap)
    : Type 0 where
  pub heap : Heap
  pub nodes : List ℕ
  pub ends : r ≡ some heap
  pub queue : IsQueue heap h nodes
  pub permuted : Perm nodes xs
  pub ordered : IsSorted cmp nodes
  pub stable : keep t nodes ≡ keep t xs

-- For a queue, an order that is total and transitive, nodes that are equal in it, and as much fuel as
-- there are nodes: the sort ends and leaves the queue of the same nodes in order, and does not
-- change the order of the equal ones.
pub queue_sort-Sorts :
    (cmp : ℕ → ℕ → ℤ) (equal : ℕ → Bool) (fuel : ℕ) (heap : Heap) (h : ℕ) (xs : List ℕ)
    → ((a b : ℕ) → Le cmp a b ⊎ Le cmp b a)
    → ((a b c : ℕ) → Le cmp a b → Le cmp b c → Le cmp a c)
    → ((a b : ℕ) → equal a ≡ true → equal b ≡ true → Le cmp a b)
    → length xs ≤ fuel
    → IsQueue heap h xs
    → Sorts cmp equal h xs (queue_sort cmp fuel h heap)
queue_sort-Sorts cmp equal fuel heap h xs total trans same f q =
    let s = queue_sort-Sorted cmp fuel heap h xs f q in
    record {
      heap = s.heap;
      nodes = sorted cmp xs;
      ends = s.ends;
      queue = s.queue;
      permuted = sorted-Perm cmp xs;
      ordered = sorted-IsSorted cmp total trans xs;
      stable = keep-sorted cmp equal same xs;
    }
