-- ===== src/Upstream/Ring/Search/Next.antt =====
-- The search for the next point of the ring whose server may take over.
use umicat.Base.{
  ℕ, zero, suc, ◌+◌, ◌-◌, ◌^◌, ◌≤◌, ◌<◌, ◌≡◌, refl, Bool, true, false, List, Option, none, some,
  ◌⊎◌, inl, inr, arith, length, get_or, Bool-cases, dec_lt, subst,
}
use umicat.Base.Word.{sub64-eq-sub}
use umicat.Upstream.Server.{Srv}
use umicat.Upstream.Ring.{
  RingPoint, no_point, hash_at, bisect, takes_over, first_valid, next_valid_point,
}
use umicat.Upstream.Ring.Sort.{IsSorted}
use umicat.Upstream.Ring.Search.{hash_mono, Found, searched}

from_first :
    (P : ℕ → Type 0) (k m : ℕ)
    → P k
    → ((x : ℕ) → k + 1 ≤ x → x < m → P x)
    → (x : ℕ) → k ≤ x
    → x < m
    → P x
from_first P k m h f x a b = elim (dec_lt k x) [
  | yes l ↦ f x (omega arith) b
  | no l ↦ let e : k ≡ x = omega arith in subst P e h
]

abbrev takes : List Srv → List RingPoint → ℕ → Bool
takes srvs ps x = takes_over srvs (get_or ps x no_point)

first_valid_cases :
    (srvs : List Srv) (ps : List RingPoint) (k n m : ℕ)
    → m ≡ k + n
    → ((j : ℕ) × (first_valid srvs ps k n ≡ some j)
        × (k ≤ j)
        × (j < m)
        × (takes srvs ps j ≡ true)
        × ((x : ℕ) → k ≤ x → x < j → takes srvs ps x ≡ false))
      ⊎ ((first_valid srvs ps k n ≡ none) × ((x : ℕ) → k ≤ x → x < m → takes srvs ps x ≡ false))
unfolding first_valid
first_valid_cases srvs ps k zero m s = inr (refl, λ x a b. absurd (omega arith))
first_valid_cases srvs ps k (suc n) m s = elim (Bool-cases (takes srvs ps k)) [
  | inl e ↦ inl (k, rw e refl, omega arith, omega arith, e, λ x a b. absurd (omega arith))
  | inr e ↦ rw e (elim (first_valid_cases srvs ps (k + 1) n m (omega arith)) [
    | inl (j, p, a, b, t, q) ↦
        inl (j, p, omega arith, b, t, from_first (λ x. takes srvs ps x ≡ false) k j e q)
    | inr (p, q) ↦ inr (p, from_first (λ x. takes srvs ps x ≡ false) k m e q)
  ])
]

-- What `uct_upstream_next_valid_point` may answer for a hash.
abbrev pub NextValid : List Srv → List RingPoint → ℕ → Option ℕ → Type 0
NextValid srvs ps hash r =
    ((j : ℕ) × (r ≡ some j)
      × (j < length ps)
      × (hash ≤ hash_at ps j)
      × (takes_over srvs (get_or ps j no_point) ≡ true)
      × ((x : ℕ) → x < j → hash ≤ hash_at ps x → takes_over srvs (get_or ps x no_point) ≡ false))
    ⊎ ((r ≡ none)
        × ((x : ℕ)
            → x < length ps
            → hash ≤ hash_at ps x
            → takes_over srvs (get_or ps x no_point) ≡ false))

reaches :
    (ps : List RingPoint) (hash last i x : ℕ) → Found ps hash last i → hash ≤ hash_at ps x → i ≤ x
reaches ps hash last i x f h = elim (dec_lt x i) [
  | yes l ↦ absurd (omega (arith, f.before x l))
  | no l ↦ omega arith
]

-- On a ring in order, with fewer than 2 ^ 63 points, the search that starts at the ring's point `p`
-- returns the first point from its hash on whose server is up and may take over. It returns none
-- exactly when there is no such point from that hash to the end of the ring: it does not go round.
pub next_valid_point-NextValid :
    (srvs : List Srv) (ps : List RingPoint) (p : ℕ)
    → IsSorted ps
    → p < length ps
    → length ps < 2 ^ 63
    → NextValid srvs ps (hash_at ps p) (next_valid_point srvs ps (get_or ps p no_point))
unfolding next_valid_point
next_valid_point-NextValid srvs ps p s h small =
    rw (sub64-eq-sub (length ps) 1 (omega arith) (omega arith))
      (elim (first_valid_cases srvs ps i (length ps - i) (length ps) (omega (arith, f.inside))) [
        | inl (j, e, a, b, t, q) ↦ inl (
          j,
          e,
          b,
          omega (arith, reached, hash_mono ps i j s a b),
          t,
          λ x l d. q x (reaches ps _ _ i x f d) l,
        )
        | inr (e, q) ↦ inr (e, λ x l d. q x (reaches ps _ _ i x f d) l)
      ])
  where
    i : ℕ
    i = bisect (length ps) ps (hash_at ps p) 0 (length ps - 1)

    f : Found ps (hash_at ps p) (length ps - 1) i
    f = searched ps (hash_at ps p) s (omega arith) small

    reached : hash_at ps p ≤ hash_at ps i
    reached = elim f.here [ inr l ↦ l | inl e ↦ hash_mono ps p i s (omega arith) (omega arith) ]
