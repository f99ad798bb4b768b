-- ===== src/Upstream/Random/Share.antt =====
-- While every server is up: how many of the numbers below the total of the weights draw each server.
pub mod Draw
use umicat.Base.{
  ℕ, zero, suc, ◌+◌, ◌-◌, ◌%◌, ◌≤◌, ◌<◌, ◌≡◌, ◌==◌, refl, sym, ap, ◌∙◌, Bool, true, false, List, [],
  ◌∷◌, Option, none, some, arith, if◌then◌else◌, get_elem?, ltb, dec_lt, ◌≢◌,
}
use umicat.Base.Int.{
  ℤ, pos, pos_part, neg_part, ltb_ℤ, ◌≤ℤ◌, ◌+ℤ◌, ◌-ℤ◌, int_laws, sum_ℤ, zero-add, eq_of_parts,
}
use umicat.Upstream.Server.{Srv, skipped}
use umicat.Upstream.RoundRobin.{revive}
use umicat.Upstream.RoundRobin.Healthy.{effective}
use umicat.Upstream.Random.{add_weights, remainder, draw, random_get}
use native.Mathlib.Nat.{mod-eq_of_lt, add-zero}
use mathlib.Core.Path.{ap₂}
use mathlib.Core.Option.{some-injective}

-- How many numbers below `n` meet `p`.
abbrev pub count_below : ℕ → (ℕ → Bool) → ℕ
count_below zero p = 0
count_below (suc n) p = count_below n p + (if p n then 1 else 0)

-- The index that the number `r` chooses, if it chooses one.
abbrev pub chooses : ℕ → Option ℕ → Bool
chooses i none = false
chooses i (some j) = j == i

count_below-add :
    (a b : ℕ) (p : ℕ → Bool)
    → count_below (b + a) p ≡ count_below a p + count_below b (λ x. p (a + x))
count_below-add a zero p = let e : 0 + a ≡ a = omega arith in rw e (omega arith)
count_below-add a (suc b) p =
    let e : suc b + a ≡ suc (b + a) = omega arith in
    let f : b + a ≡ a + b = omega arith in rw e (rw (← f) (omega (arith, count_below-add a b p)))

pub count_below-cong :
    (n : ℕ) (p q : ℕ → Bool) → ((x : ℕ) → x < n → p x ≡ q x) → count_below n p ≡ count_below n q
count_below-cong zero p q h = refl
count_below-cong (suc n) p q h =
    rw (count_below-cong n p q (λ x l. h x (omega arith)), h n (omega arith))

count_below_all : (n : ℕ) → count_below n (λ x. true) ≡ n
count_below_all zero = refl
count_below_all (suc n) = omega (arith, count_below_all n)

count_below_none : (n : ℕ) → count_below n (λ x. false) ≡ 0
count_below_none zero = refl
count_below_none (suc n) = omega (arith, count_below_none n)

-- Every server is up and has an effective weight that is not negative.
abbrev pub IsDrawable : List Srv → Type 0
IsDrawable [] = Unit {0}
IsDrawable (s ∷ ss) = (s.is_down ≡ false) × (pos 0 ≤ℤ s.effective_weight) × IsDrawable ss

abbrev size : Srv → ℕ
size s = pos_part s.effective_weight

abbrev pub sizes : List Srv → ℕ
sizes [] = 0
sizes (s ∷ ss) = sizes ss + size s

-- `draw` over numbers.
pub landing : ℕ → ℕ → List Srv → ℕ
landing i x [] = 0
landing i x (s ∷ ss) =
    let rest = landing (i + 1) (x - size s) ss in if ltb x (size s) then i else rest

pub up_skipped : (now : ℕ) (s : Srv) → s.is_down ≡ false → skipped now s ≡ false
unfolding skipped
up_skipped now s u = rw u refl

pub draw-landing :
    (now i x : ℕ) (ss : List Srv) → IsDrawable ss → draw now i (pos x) ss ≡ landing i x ss
unfolding draw landing
draw-landing now i x [] d = refl
draw-landing now i x (s ∷ ss) d = rw (up_skipped now s d.0) (elim (dec_lt x (size s)) [
  | yes l ↦
      let e : ltb_ℤ (pos x) s.effective_weight ≡ true = ground (arith, d.1) in
      let f : ltb x (size s) ≡ true = ground arith in rw (e, f) refl
  | no l ↦
      let e : ltb_ℤ (pos x) s.effective_weight ≡ false = ground (arith, d.1) in
      let f : ltb x (size s) ≡ false = ground arith in
      let g : pos x -ℤ s.effective_weight ≡ pos (x - size s) = unfold ◌-ℤ◌ in ground (arith, d.1) in
      rw (e, f, g) (draw-landing now (i + 1) (x - size s) ss d.2)
])

place-ge : (i x : ℕ) (ss : List Srv) → x < sizes ss → i ≤ landing i x ss
unfolding landing
place-ge i x [] h = absurd (omega arith)
place-ge i x (s ∷ ss) h = ground (arith, place-ge (i + 1) (x - size s) ss)

place_here : (i x : ℕ) (s : Srv) (ss : List Srv) → x < size s → landing i x (s ∷ ss) ≡ i
unfolding landing
place_here i x s ss h = ground arith

place_there :
    (i x : ℕ) (s : Srv) (ss : List Srv) → landing i (size s + x) (s ∷ ss) ≡ landing (i + 1) x ss
unfolding landing
place_there i x s ss =
    let e : ltb (size s + x) (size s) ≡ false = ground arith in
    let f : size s + x - size s ≡ x = omega arith in rw (e, f) refl

-- The numbers below the first weight, and those above it.
place_split :
    (i k : ℕ) (s : Srv) (ss : List Srv)
    → count_below (sizes (s ∷ ss)) (λ x. landing i x (s ∷ ss) == k)
      ≡ count_below (size s) (λ x. i == k) + count_below (sizes ss) (λ x. landing (i + 1) x ss == k)
place_split i k s ss =
    count_below-add (size s) (sizes ss) (λ x. landing i x (s ∷ ss) == k)
    ∙ ap₂ ◌+◌ (count_below-cong (size s) _ _ (λ x l. ap (λ n. n == k) (place_here i x s ss l)))
        (count_below-cong (sizes ss) _ _ (λ x l. ap (λ n. n == k) (place_there i x s ss)))

eq_true : (a b : ℕ) → a ≡ b → (a == b) ≡ true
eq_true a b h = ground arith

pub eq_false : (a b : ℕ) → a ≢ b → (a == b) ≡ false
eq_false a b h = ground arith

count_below_const : (n : ℕ) (b : Bool) → count_below n (λ x. b) ≡ (if b then n else 0)
count_below_const n true = count_below_all n
count_below_const n false = count_below_none n

pub place_count :
    (i j k : ℕ) (ss : List Srv) (s : Srv)
    → k ≡ i + j
    → get_elem? ss j ≡ some s
    → count_below (sizes ss) (λ x. landing i x ss == k) ≡ size s
place_count i j k [] s e g = cc
place_count i zero k (y ∷ ss) s e g =
    place_split i k y ss
    ∙ ap₂ ◌+◌
        (count_below_const (size y) (i == k)
          ∙ ap (λ b. if b then size y else 0) (eq_true i k (omega arith)))
        (count_below-cong (sizes ss) _ _
            (λ x l. eq_false _ k (omega (arith, place-ge (i + 1) x ss l)))
          ∙ count_below_none (sizes ss))
    ∙ add-zero (size y)
    ∙ ap size (some-injective y s g)
place_count i (suc j) k (y ∷ ss) s e g =
    place_split i k y ss
    ∙ ap₂ ◌+◌
        (count_below_const (size y) (i == k)
          ∙ ap (λ b. if b then size y else 0) (eq_false i k (omega arith)))
        (place_count (i + 1) j k ss s (omega arith) g)
    ∙ omega arith
