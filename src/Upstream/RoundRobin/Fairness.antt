-- ===== src/Upstream/RoundRobin/Fairness.antt =====
-- Over one full period, as many choices as the weights add up to, each server is chosen as often as
-- its weight says.
use umicat.Base.{
  ℕ, zero, suc, ◌+◌, ◌*◌, ◌<◌, ◌≡◌, refl, sym, ap, ◌∙◌, false, List, [], ◌∷◌, map, some, arith,
  length, get_elem?, subst, dec_lt,
}
use umicat.Base.Int.{ℤ, pos, pos_part, neg_part, negsuc, sum_ℤ, ◌+ℤ◌, ◌≤ℤ◌, int_laws, eq_of_parts}
use umicat.Upstream.Server.{Srv}
use umicat.Upstream.RoundRobin.{rounds}
use umicat.Upstream.RoundRobin.Conservation.{current}
use umicat.Upstream.RoundRobin.Healthy.{AllUp, effective, reset}
use umicat.Upstream.RoundRobin.Even.{tally, Fair, Fairs, Even}
use umicat.Upstream.RoundRobin.Even.Rounds.{Even-cong, rounds-Even, rounds-reset}

-- At the end of a period nobody is behind: what it is behind by is a multiple of the period.
settled :
    (w c : ℕ) (e a : ℤ)
    → w * c + pos_part a ≡ w * pos_part e + neg_part a
    → neg_part a < w
    → neg_part a ≡ 0
settled w c e (pos n) h k = refl
settled w c e (negsuc n) h k = elim (dec_lt (pos_part e) c) [
  | yes more ↦ absurd (grind arith)
  | no less ↦ absurd (grind arith)
]

-- A server that nobody has chosen yet, with a weight that is not negative.
abbrev pub IsFresh : List Srv → Type 0
IsFresh [] = Unit {0}
IsFresh (s ∷ ss) =
    (s.is_down ≡ false) × (pos 0 ≤ℤ s.effective_weight) × (s.current_weight ≡ pos 0) × IsFresh ss

IsFresh-reset : (ss : List Srv) → IsFresh ss → map reset ss ≡ ss
IsFresh-reset [] f = refl
IsFresh-reset (s ∷ ss) f = rw (IsFresh-reset ss f.3) (ground (arith, f.2))

IsFresh-Fairs : (w i : ℕ) (ss : List Srv) → 0 < w → IsFresh ss → Fairs w 0 (λ k. 0) i ss
IsFresh-Fairs w i [] h f = f
IsFresh-Fairs w i (s ∷ ss) h f = (ground (arith, f.2, f.1), IsFresh-Fairs w (suc i) ss h f.3)

IsFresh-AllUp : (ss : List Srv) → IsFresh ss → AllUp ss
IsFresh-AllUp [] f = f
IsFresh-AllUp (s ∷ ss) f = (f.0, IsFresh-AllUp ss f.3)

IsFresh-balanced : (ss : List Srv) → IsFresh ss → sum_ℤ current ss ≡ pos 0
unfolding sum_ℤ
IsFresh-balanced [] f = refl
IsFresh-balanced (s ∷ ss) f = rw (f.2, IsFresh-balanced ss f.3) (omega int_laws)

abbrev Unowing : List Srv → Type 0
Unowing [] = Unit {0}
Unowing (s ∷ ss) = (neg_part s.current_weight ≡ 0) × Unowing ss

Fairs-Unowing : (w i : ℕ) (c : ℕ → ℕ) (ss : List Srv) → Fairs w w c i ss → Unowing ss
Fairs-Unowing w i c [] f = f
Fairs-Unowing w i c (s ∷ ss) f = (
  settled w (c i) s.effective_weight s.current_weight (omega (arith, f.0.exact)) f.0.behind,
  Fairs-Unowing w (suc i) c ss f.1,
)

Unowing-sum : (ss : List Srv) → Unowing ss → pos 0 ≤ℤ sum_ℤ current ss
unfolding sum_ℤ
Unowing-sum [] u = omega arith
Unowing-sum (s ∷ ss) u = omega (int_laws, Unowing-sum ss u.1)

-- Weights that add up to 0, none of them negative, are all 0.
Unowing-reset : (ss : List Srv) → Unowing ss → sum_ℤ current ss ≡ pos 0 → map reset ss ≡ ss
unfolding sum_ℤ
Unowing-reset [] u e = refl
Unowing-reset (s ∷ ss) u e =
    rw (Unowing-reset ss u.1 rest) (ap (λ a. record s { current_weight = a } ∷ ss) (sym none_left))
  where
    parts :
        (pos_part (current s +ℤ sum_ℤ current ss) ≡ 0)
        × (neg_part (current s +ℤ sum_ℤ current ss) ≡ 0)
    parts = (ap pos_part e, ap neg_part e)

    rest : sum_ℤ current ss ≡ pos 0
    rest = omega (int_laws, Unowing-sum ss u.1, parts.0, parts.1, u.0)

    none_left : current s ≡ pos 0
    none_left = omega (int_laws, Unowing-sum ss u.1, parts.0, parts.1, u.0)

cancel_period : (w c e : ℕ) → 0 < w → w * c ≡ w * e → c ≡ e
cancel_period w c e h p = grind arith

due :
    (w c : ℕ) (s : Srv)
    → 0 < w
    → pos 0 ≤ℤ s.effective_weight
    → s.current_weight ≡ pos 0
    → Fair w w c s
    → pos c ≡ s.effective_weight
due w c s h n z f = eq_of_parts _ _ (
    omega (
      arith,
      n,
      f.nonneg,
      cancel_period w c (pos_part s.effective_weight) h
          (omega (arith, f.exact, ap pos_part z, ap neg_part z)),
    ))

Fairs-tally :
    (w i j k : ℕ) (c : ℕ → ℕ) (ss : List Srv) (s : Srv)
    → 0 < w
    → k ≡ i + j
    → IsFresh ss
    → Fairs w w c i ss
    → get_elem? ss j ≡ some s
    → pos (c k) ≡ s.effective_weight
Fairs-tally w i j k c [] s h e f v g = cc
Fairs-tally w i zero k c (x ∷ ss) s h e f v g =
    let same : k ≡ i = omega arith in rw same (due w (c i) x h f.1 f.2 v.0 ∙ cc)
Fairs-tally w i (suc j) k c (x ∷ ss) s h e f v g =
    Fairs-tally w (suc i) j k c ss s h (omega arith) f.3 v.1 g

module _ (w : ℕ) (ss : List Srv) (nows : List ℕ) (h : 0 < w) (f : IsFresh ss)
    (e : sum_ℤ effective ss ≡ pos w) (l : length nows ≡ w) where
  start : Even w 0 (λ k. 0) ss
  start = record {
    up = IsFresh-AllUp ss f;
    weights = e;
    balanced = IsFresh-balanced ss f;
    fair = IsFresh-Fairs w 0 ss h f;
  }

  end : Even w w (tally (rounds ss nows).0) (rounds ss nows).1
  end =
      Even-cong w (rounds ss nows).1 (omega arith) (λ k. omega arith)
        (rounds-Even w 0 (λ k. 0) ss nows h start)

  same : (rounds ss nows).1 ≡ ss
  same =
      sym (Unowing-reset _ (Fairs-Unowing w 0 _ _ end.fair) end.balanced)
      ∙ rounds-reset w 0 (λ k. 0) ss nows h start
      ∙ IsFresh-reset ss f

-- Smooth weighted round robin is fair. While all servers are up, starting with no current weight,
-- with effective weights that are not negative and add up to a period `w` above 0: whenever the
-- choices are made, `w` of them in a row leave every server as it was at the start, and choose the
-- server at any index `i` exactly as often as its effective weight says.
pub round_robin_fair :
    (w : ℕ) (ss : List Srv) (nows : List ℕ) (i : ℕ) (s : Srv)
    → 0 < w
    → IsFresh ss
    → sum_ℤ effective ss ≡ pos w
    → length nows ≡ w
    → get_elem? ss i ≡ some s
    → ((rounds ss nows).1 ≡ ss) × (pos (tally (rounds ss nows).0 i) ≡ s.effective_weight)
round_robin_fair w ss nows i s h f e l g =
    let back = same w ss nows h f e l in
    (
      back,
      Fairs-tally w 0 i i (tally (rounds ss nows).0) ss s h (omega arith) f
          (subst (Fairs w w (tally (rounds ss nows).0) 0) back (end w ss nows h f e l).fair) g,
    )
