-- ===== src/Upstream/Ring/Search.antt =====
-- The binary search of a ring in order: which point serves a hash.
pub mod Next
use umicat.Base.{
  ℕ, zero, suc, ◌+◌, ◌-◌, ◌/◌, ◌^◌, ◌≤◌, ◌<◌, ◌≡◌, ◌==◌, ◌&&◌, ◌||◌, refl, Bool, true, false, List,
  [], ◌∷◌, Option, none, some, ◌⊎◌, inl, inr, arith, ltb, length, get_or, if◌then◌else◌, Bool-cases,
  dec_lt, subst,
}
use umicat.Base.Word.{add64, add64-eq-add, sub64-eq-sub}
use umicat.Upstream.Server.{Srv}
use umicat.Upstream.Ring.{
  RingPoint, no_point, hash_at, bisect, get_hash_point, takes_over, first_valid, next_valid_point,
}
use umicat.Upstream.Ring.Sort.{All, IsSorted}

All-get_or :
    (P : RingPoint → Type 0) (ps : List RingPoint) (i : ℕ)
    → All P ps
    → i < length ps
    → P (get_or ps i no_point)
All-get_or P [] i a h = absurd (omega arith)
All-get_or P (p ∷ ps) zero a h = a.0
All-get_or P (p ∷ ps) (suc i) a h = All-get_or P ps i a.1 (omega arith)

pub hash_mono :
    (ps : List RingPoint) (x y : ℕ)
    → IsSorted ps
    → x ≤ y
    → y < length ps
    → hash_at ps x ≤ hash_at ps y
hash_mono [] x y s h l = absurd (omega arith)
hash_mono (p ∷ ps) zero zero s h l = omega arith
hash_mono (p ∷ ps) zero (suc y) s h l = All-get_or (λ q. p.hash ≤ q.hash) ps y s.0 (omega arith)
hash_mono (p ∷ ps) (suc x) zero s h l = absurd (omega arith)
hash_mono (p ∷ ps) (suc x) (suc y) s h l = hash_mono ps x y s.1 (omega arith) (omega arith)

-- What the binary search returns: no point before it reaches the hash, and it does, or is the last.
pub record Found (ps : List RingPoint) (hash last r : ℕ) : Type 0 where
  inside : r ≤ last
  before : (x : ℕ) → x < r → hash_at ps x < hash
  here : (r ≡ last) ⊎ (hash ≤ hash_at ps r)

module _ (ps : List RingPoint) (hash last : ℕ) (sorted : IsSorted ps) (whole : suc last ≡ length ps)
    (small : length ps < 2 ^ 63) where
  bisect-Found :
      (fuel i j : ℕ)
      → j - i ≤ fuel
      → i ≤ j
      → j ≤ last
      → ((x : ℕ) → x < i → hash_at ps x < hash)
      → (j ≡ last) ⊎ (hash ≤ hash_at ps j)
      → Found ps hash last (bisect fuel ps hash i j)
  unfolding bisect
  bisect-Found zero i j f h l low high =
      let e : j ≡ i = omega arith in
      record {
        inside = omega arith;
        before = low;
        here = subst (λ k. (k ≡ last) ⊎ (hash ≤ hash_at ps k)) e high;
      }
  bisect-Found (suc fuel) i j f h l low high = elim (dec_lt i j) [
    | no stop ↦
        let e : j ≡ i = omega arith in
        let t : ltb i j ≡ false = ground arith in
        rw t (record {
          inside = omega arith;
          before = low;
          here = subst (λ k. (k ≡ last) ⊎ (hash ≤ hash_at ps k)) e high;
        })
    | yes more ↦
        let t : ltb i j ≡ true = ground arith in
        let sum : add64 i j ≡ i + j = add64-eq-add i j (omega arith) in
        let next : add64 ((i + j) / 2) 1 ≡ (i + j) / 2 + 1 = add64-eq-add _ 1 (omega arith) in
        rw (t, sum, next)
          (elim (dec_lt (hash_at ps ((i + j) / 2)) hash) [
            | yes right ↦
                let u : ltb (hash_at ps ((i + j) / 2)) hash ≡ true = ground arith in
                rw u (
                  bisect-Found fuel ((i + j) / 2 + 1) j (omega arith) (omega arith) l
                    (λ x b.
                      omega
                        (arith, hash_mono ps x ((i + j) / 2) sorted (omega arith) (omega arith)))
                    high)
            | no left ↦
                let u : ltb (hash_at ps ((i + j) / 2)) hash ≡ false = ground arith in
                rw u (
                  bisect-Found fuel i ((i + j) / 2) (omega arith) (omega arith) (omega arith) low
                    (inr (omega arith)))
          ])
  ]

-- The point that serves a hash, by its definition: the first that reaches it, going round to the
-- start of the ring if none does.
abbrev pub Serves : List RingPoint → ℕ → ℕ → Type 0
Serves ps hash r =
    ((r < length ps) × (hash ≤ hash_at ps r) × ((x : ℕ) → x < r → hash_at ps x < hash))
    ⊎ ((r ≡ 0) × ((x : ℕ) → x < length ps → hash_at ps x < hash))

pub searched :
    (ps : List RingPoint) (hash : ℕ)
    → IsSorted ps
    → 0 < length ps
    → length ps < 2 ^ 63
    → Found ps hash (length ps - 1) (bisect (length ps) ps hash 0 (length ps - 1))
searched ps hash s h small =
    bisect-Found ps hash (length ps - 1) s (omega arith) small (length ps) 0 (length ps - 1)
      (omega arith) (omega arith) (omega arith) (λ x l. absurd (omega arith)) (inl refl)

serve :
    (ps : List RingPoint) (hash i last : ℕ)
    → suc last ≡ length ps
    → Found ps hash last i
    → Serves ps hash (if ((i == last) && ltb (hash_at ps i) hash) || ltb last i then 0 else i)
serve ps hash i last e f = elim (dec_lt (hash_at ps i) hash) [
  | no reached ↦
      let t : ltb (hash_at ps i) hash ≡ false = ground arith in
      let u : ltb last i ≡ false = ground (arith, f.inside) in
      rw (t, u) (rw (and_false (i == last)) (inl (omega (arith, f.inside), omega arith, f.before)))
  | yes short ↦
      let same : i ≡ last = omega (arith, f.here) in
      let t : ltb (hash_at ps i) hash ≡ true = ground arith in
      let u : (i == last) ≡ true = ground arith in
      rw (t, u)
        (inr (
          refl,
          λ x l. elim (dec_lt x i) [
            | yes b ↦ f.before x b
            | no b ↦
                let here : i ≡ x = omega (arith, e, same) in
                subst (λ y. hash_at ps y < hash) here short
          ],
        ))
]
  where
    and_false : (b : Bool) → (b && false) ≡ false
    and_false true = refl
    and_false false = refl

-- On a ring in order, with at least one point and fewer than 2 ^ 63, the search returns the point
-- that serves the hash.
pub get_hash_point-Serves :
    (ps : List RingPoint) (hash : ℕ)
    → IsSorted ps
    → 0 < length ps
    → length ps < 2 ^ 63
    → Serves ps hash (get_hash_point ps hash)
unfolding get_hash_point
get_hash_point-Serves ps hash s h small =
    rw (sub64-eq-sub (length ps) 1 (omega arith) h)
      (serve ps hash _ (length ps - 1) (omega arith) (searched ps hash s h small))
