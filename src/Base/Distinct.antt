-- ===== src/Base/Distinct.antt =====
-- Lists of addresses with no address twice.
use umicat.Base.{ℕ, ◌≡◌, ◌==◌, false, List, [], ◌∷◌, ◌++◌, arith}

abbrev pub NotIn : ℕ → List ℕ → Type 0
NotIn x [] = Unit {0}
NotIn x (y ∷ ys) = ((x == y) ≡ false) × NotIn x ys

abbrev pub Distinct : List ℕ → Type 0
Distinct [] = Unit {0}
Distinct (x ∷ xs) = NotIn x xs × Distinct xs

pub eq_sym : (a b : ℕ) → (a == b) ≡ false → (b == a) ≡ false
eq_sym a b e = ground arith

pub NotIn-append :
    (x : ℕ) (xs : List ℕ) (c : ℕ) → NotIn x xs → (x == c) ≡ false → NotIn x (xs ++ c ∷ [])
NotIn-append x [] c n e = (e, tt)
NotIn-append x (y ∷ xs) c n e = (n.0, NotIn-append x xs c n.1 e)

pub NotIn-init : (a x : ℕ) (xs : List ℕ) → NotIn a (xs ++ x ∷ []) → NotIn a xs × ((a == x) ≡ false)
NotIn-init a x [] n = (tt, n.0)
NotIn-init a x (y ∷ xs) n = let (m, e) = NotIn-init a x xs n.1 in ((n.0, m), e)

pub Distinct-init : (x : ℕ) (xs : List ℕ) → Distinct (xs ++ x ∷ []) → Distinct xs
Distinct-init x [] d = tt
Distinct-init x (y ∷ xs) d = ((NotIn-init y x xs d.0).0, Distinct-init x xs d.1)
