-- ===== src/Upstream/Random/Share/Draw.antt =====
-- The random choice among servers that are up, over all remainders.
use umicat.Base.{
  ℕ, zero, suc, ◌%◌, ◌<◌, ◌≡◌, ◌==◌, refl, sym, ap, ◌∙◌, false, List, [], ◌∷◌, Option, some, arith,
  get_elem?,
}
use umicat.Base.Int.{ℤ, pos, pos_part, neg_part, ◌≤ℤ◌, ◌+ℤ◌, int_laws, sum_ℤ, zero-add, eq_of_parts}
use umicat.Upstream.Server.{Srv}
use umicat.Upstream.RoundRobin.{revive}
use umicat.Upstream.RoundRobin.Healthy.{effective}
use umicat.Upstream.Random.{add_weights, remainder, random_get}
use native.Mathlib.Nat.{mod-eq_of_lt}
use mathlib.Core.Option.{some-injective}
use umicat.Upstream.Random.Share.{
  count_below, chooses, count_below-cong, IsDrawable, sizes, landing, up_skipped, draw-landing,
  eq_false, place_count,
}

sizes-sum : (ss : List Srv) → IsDrawable ss → sum_ℤ effective ss ≡ pos (sizes ss)
unfolding sum_ℤ
sizes-sum [] d = refl
sizes-sum (s ∷ ss) d = rw (sizes-sum ss d.2) (unfold ◌+ℤ◌ in ground (arith, d.1))

revive_up : (now : ℕ) (s : Srv) → s.is_down ≡ false → revive now s ≡ s
unfolding revive
revive_up now s u = ground arith

add_weights_up :
    (now : ℕ) (total : ℤ) (ss : List Srv)
    → IsDrawable ss
    → add_weights now total ss ≡ (total +ℤ sum_ℤ effective ss, ss)
unfolding add_weights sum_ℤ
add_weights_up now total [] d = ap (λ t. (t, [])) (omega int_laws)
add_weights_up now total (s ∷ ss) d =
    rw (up_skipped now s d.0, weigh_up)
      (rw (add_weights_up now (total +ℤ s.effective_weight) ss d.2)
        (ap (λ t. (t, s ∷ ss)) (omega int_laws)))
  where
    weigh_up : revive now s ≡ s
    weigh_up = revive_up now s d.0

drawable_elem :
    (ss : List Srv) (i : ℕ) (s : Srv)
    → IsDrawable ss
    → get_elem? ss i ≡ some s
    → neg_part s.effective_weight ≡ 0
drawable_elem [] i s d g = cc
drawable_elem (y ∷ ss) zero s d g =
    ap (λ (t : Srv). neg_part t.effective_weight) (sym (some-injective y s g))
    ∙ nonneg_part y.effective_weight d.1
  where
    nonneg_part : (a : ℤ) → pos 0 ≤ℤ a → neg_part a ≡ 0
    nonneg_part a h = ground arith
drawable_elem (y ∷ ss) (suc i) s d g = drawable_elem ss i s d.2 g

random_get_up :
    (w now later r : ℕ) (ss : List Srv)
    → 0 < w
    → IsDrawable ss
    → sum_ℤ effective ss ≡ pos w
    → random_get ss now later r ≡ (some (landing 0 (r % w) ss), ss)
unfolding random_get remainder
random_get_up w now later r ss h d e =
    rw (add_weights_up now (pos 0) ss d, e, zero-add (pos w), whole, random_get)
      (rw (add_weights_up now (pos 0) ss d)
        (ap (λ n. (some n, ss)) (draw-landing later 0 (r % w) ss d)))
  where
    whole : remainder r (pos w) ≡ some (r % w)
    whole = rw (eq_false w 0 (omega arith)) refl

-- While all servers are up, with effective weights that are not negative and add up to `w` above 0:
-- of the `w` remainders that the random number can leave, exactly as many choose a server as its
-- effective weight says, whatever the two times are; and no number `r` changes a server.
pub random_get_share :
    (w now later i r : ℕ) (ss : List Srv) (s : Srv)
    → 0 < w
    → IsDrawable ss
    → sum_ℤ effective ss ≡ pos w
    → get_elem? ss i ≡ some s
    → (pos (count_below w (λ r. chooses i (random_get ss now later r).0)) ≡ s.effective_weight)
      × ((random_get ss now later r).1 ≡ ss)
random_get_share w now later i r ss s h d e g = (
  ap pos (
        count_below-cong w _ _ (λ x l. small x l)
        ∙ ap (λ n. count_below n (λ x. landing 0 x ss == i)) total
        ∙ place_count 0 i i ss s (omega arith) g)
      ∙ eq_of_parts _ _ (omega (arith, drawable_elem ss i s d g)),
  ap (λ (t : Option ℕ × List Srv). t.1) (random_get_up w now later r ss h d e),
)
  where
    total : w ≡ sizes ss
    total = ap pos_part (sym e ∙ sizes-sum ss d)

    small : (x : ℕ) → x < w → chooses i (random_get ss now later x).0 ≡ (landing 0 x ss == i)
    small x l =
        ap (λ (t : Option ℕ × List Srv). chooses i t.0) (random_get_up w now later x ss h d e)
        ∙ ap (λ n. landing 0 n ss == i) (mod-eq_of_lt l)
