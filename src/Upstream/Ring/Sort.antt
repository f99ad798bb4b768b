-- ===== src/Upstream/Ring/Sort.antt =====
-- The bubble sort orders the points by their hashes and loses none.
use umicat.Base.{
  ℕ, zero, suc, ◌≤◌, ◌≡◌, refl, ap, List, [], ◌∷◌, ◌++◌, ltb, arith, length, Bool-cases, inl, inr,
}
use mathlib.Core.List.{Perm, perm_middle, append-nil}
use mathlib.Core.List.Perm
use umicat.Upstream.Server.{Srv}
use umicat.Upstream.Ring.{RingPoint, pass, passes, bubble_sort, all_points, init_hash_ring}

abbrev pub All : (RingPoint → Type 0) → List RingPoint → Type 0
All P [] = Unit {0}
All P (p ∷ ps) = P p × All P ps

-- Each point has at most the hash of those behind it.
abbrev pub IsSorted : List RingPoint → Type 0
IsSorted [] = Unit {0}
IsSorted (p ∷ ps) = All (λ q. p.hash ≤ q.hash) ps × IsSorted ps

-- Every point of the front has at most the hash of every point of the back.
abbrev Below : List RingPoint → List RingPoint → Type 0
Below front back = All (λ p. All (λ q. p.hash ≤ q.hash) back) front

-- What the inner loop makes of a front of `suc k` points: its greatest comes last.
record Sunk (k : ℕ) (front back out : List RingPoint) : Type 1 where
  init : List RingPoint
  top : RingPoint
  split : out ≡ init ++ top ∷ back
  size : length init ≡ k
  same : Perm (top ∷ init) front
  tops : All (λ p. p.hash ≤ top.hash) front
  keeps : (P : RingPoint → Type 0) → All P front → P top × All P init

-- One more comparison in front: it leaves the lower point behind and carries the higher on.
Sunk-cons :
    (k : ℕ) (p x lo hi : RingPoint) (xs back out : List RingPoint)
    → lo.hash ≤ hi.hash
    → Perm (lo ∷ hi ∷ xs) (p ∷ x ∷ xs)
    → ((t : ℕ) → hi.hash ≤ t → (p.hash ≤ t) × (x.hash ≤ t))
    → ((P : RingPoint → Type 0) → P p → P x → P lo × P hi)
    → Sunk k (hi ∷ xs) back out
    → Sunk (suc k) (p ∷ x ∷ xs) back (lo ∷ out)
Sunk-cons k p x lo hi xs back out le perm upper both s = record {
  init = lo ∷ s.init;
  top = s.top;
  split = ap (λ ps. lo ∷ ps) s.split;
  size = ap suc s.size;
  same = Perm.trans (Perm.swap lo s.top s.init) (Perm.trans (Perm.cons lo s.same) perm);
  tops = ((upper s.top.hash s.tops.0).0, ((upper s.top.hash s.tops.0).1, s.tops.1));
  keeps = λ P a.
      let (first, second) = both P a.0 a.1.0 in
      let (t, i) = s.keeps P (second, a.1.1) in (t, (first, i));
}

pass-Sunk :
    (k : ℕ) (p : RingPoint) (xs back : List RingPoint)
    → length xs ≡ k
    → Sunk k (p ∷ xs) back (pass k (p ∷ (xs ++ back)))
unfolding pass
pass-Sunk zero p [] back e = record {
  init = [];
  top = p;
  split = refl;
  size = refl;
  same = Perm.refl _;
  tops = (omega arith, tt);
  keeps = λ P a. a;
}
pass-Sunk zero p (x ∷ xs) back e = absurd (omega arith)
pass-Sunk (suc k) p [] back e = absurd (omega arith)
pass-Sunk (suc k) p (x ∷ xs) back e = elim (Bool-cases (ltb x.hash p.hash)) [
  | inl l ↦ rw l (
      Sunk-cons k p x x p xs back _ (ground arith) (Perm.swap p x xs) (λ t h. (h, ground arith))
        (λ P a b. (b, a)) (pass-Sunk k p xs back (omega arith)))
  | inr l ↦ rw l (
      Sunk-cons k p x p x xs back _ (ground arith) (Perm.refl _) (λ t h. (ground arith, h))
        (λ P a b. (a, b)) (pass-Sunk k x xs back (omega arith)))
]

All-both :
    (P Q : RingPoint → Type 0) (ps : List RingPoint) → All P ps → All Q ps → All (λ p. P p × Q p) ps
All-both P Q [] a b = tt
All-both P Q (p ∷ ps) a b = ((a.0, b.0), All-both P Q ps a.1 b.1)

-- What the rest of the sort makes of a front and a back that is in order behind it.
passes_lem :
    (m : ℕ) (front back : List RingPoint)
    → length front ≡ m
    → Below front back
    → IsSorted back
    → IsSorted (passes m (front ++ back)) × Perm (passes m (front ++ back)) (front ++ back)
unfolding passes
passes_lem zero [] back e b s = (s, Perm.refl back)
passes_lem zero (p ∷ ps) back e b s = absurd (omega arith)
passes_lem (suc m) [] back e b s = absurd (omega arith)
passes_lem (suc m) (p ∷ xs) back e b s =
    let k = pass-Sunk m p xs back (omega arith) in
    let (low, lows) = k.keeps (λ q. All (λ r. q.hash ≤ r.hash) back) b in
    let below = (k.keeps (λ q. q.hash ≤ k.top.hash) k.tops).1 in
    let (sorted, perm) =
      passes_lem m k.init (k.top ∷ back) k.size (All-both _ _ k.init below lows) (low, s) in
    rw k.split (
      sorted,
      Perm.trans perm (Perm.trans (perm_middle k.init back) (Perm.append_right back k.same)),
    )

-- The ring that `uct_upstream_init_hash_ring` leaves is in the order of the hashes, and holds the
-- points of all servers, each as often as it was made: whatever the digest and the keys are.
pub init_hash_ring_sorts :
    (digest : List ℕ → List ℕ) (hash_key : List ℕ → ℕ → ℕ → List ℕ) (srvs : List Srv)
    → IsSorted (init_hash_ring digest hash_key srvs)
      × Perm (init_hash_ring digest hash_key srvs) (all_points digest hash_key 0 srvs)
unfolding init_hash_ring bubble_sort
init_hash_ring_sorts digest hash_key srvs =
    let ps = all_points digest hash_key 0 srvs in
    rw (append-nil ps) at (passes_lem (length ps) ps [] refl (nothing_behind ps) tt)
  where
    nothing_behind : (ps : List RingPoint) → Below ps []
    nothing_behind [] = tt
    nothing_behind (p ∷ ps) = (tt, nothing_behind ps)
