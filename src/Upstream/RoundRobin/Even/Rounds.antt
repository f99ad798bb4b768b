-- ===== src/Upstream/RoundRobin/Even/Rounds.antt =====
-- A round robin choice on servers of even shares, and many of them.
use umicat.Base.{
  ℕ, suc, ◌+◌, ◌<◌, ◌≡◌, refl, ap, ◌∙◌, inl, inr, List, [], ◌∷◌, map, some, arith, length,
  get_elem?, subst, fun_ext,
}
use umicat.Base.Int.{pos, pos_part, neg_part, sum_ℤ, ◌<ℤ◌, int_laws, zero-add}
use umicat.Upstream.Server.{Srv, modify}
use umicat.Upstream.RoundRobin.{pick, round_robin_get, rounds}
use umicat.Upstream.RoundRobin.Conservation.{current, accumulate_total}
use umicat.Upstream.RoundRobin.Healthy.{
  AllUp, effective, raise, reset, sum-gain, accumulate_up, AllUp-raise, pick_up, AtMost-sum,
}
use umicat.Upstream.RoundRobin.Conservation.{round_robin_get_conserves}
use umicat.Upstream.RoundRobin.Even.{
  hit, tally, Fairs-raise, lower, Fairs-modify, Even, AllUp-modify, sum-modify, sum-raise,
  sum-current-raise, reset-raise, reset-modify,
}

-- A choice in the terms of the lemmas above.
round_robin_get_up :
    (w now : ℕ) (ss : List Srv)
    → AllUp ss
    → sum_ℤ effective ss ≡ pos w
    → let best = pick now 0 0 (pos 0) (map raise ss) in
      round_robin_get ss now ≡ (best, modify (map raise ss) best (lower (pos w)))
unfolding round_robin_get
round_robin_get_up w now ss u e = rw (
  accumulate_total now (pos 0) ss,
  accumulate_up now (pos 0) ss u,
  sum-gain now ss u,
  e,
  zero-add,
)

round_robin_get-reset :
    (w now : ℕ) (ss : List Srv)
    → AllUp ss
    → sum_ℤ effective ss ≡ pos w
    → map reset (round_robin_get ss now).1 ≡ map reset ss
round_robin_get-reset w now ss u e = rw (round_robin_get_up w now ss u e, reset-modify, reset-raise)

-- Some server has weight to give, since the raised weights add up to the whole period.
chosen :
    (w t now : ℕ) (c : ℕ → ℕ) (ss : List Srv)
    → 0 < w
    → Even w t c ss
    → (j : ℕ) × (s : Srv) × (pick now 0 0 (pos 0) (map raise ss) ≡ j)
      × (get_elem? (map raise ss) j ≡ some s)
      × (pos 0 <ℤ s.current_weight)
chosen w t now c ss h v = elim (pick_up now 0 0 (pos 0) (map raise ss) (AllUp-raise ss v.up)) [
  | inr (j, s, p, g, lt) ↦ (j, s, omega arith, g, lt)
  | inl (p, all) ↦
      absurd
        (omega (int_laws, AtMost-sum (map raise ss) all, ap pos_part raised, ap neg_part raised))
]
  where
    raised : sum_ℤ current (map raise ss) ≡ pos w
    raised = sum-current-raise ss ∙ rw (v.balanced, v.weights, zero-add)

servers_of_weight : (w : ℕ) (ss : List Srv) → 0 < w → sum_ℤ effective ss ≡ pos w → 0 < length ss
unfolding sum_ℤ
servers_of_weight w [] h e = absurd (omega (arith, ap pos_part e))
servers_of_weight w (s ∷ ss) h e = omega arith

round_robin_get-Even :
    (w t now : ℕ) (c : ℕ → ℕ) (ss : List Srv)
    → 0 < w
    → Even w t c ss
    → Even w (suc t) (λ k. hit (round_robin_get ss now).0 k + c k) (round_robin_get ss now).1
round_robin_get-Even w t now c ss h v =
    let (j, s, p, g, lt) = chosen w t now c ss h v in
    record {
      up =
          rw (round_robin_get_up w now ss v.up v.weights)
            (AllUp-modify (pos w) _ (map raise ss) (AllUp-raise ss v.up));
      weights =
          rw (round_robin_get_up w now ss v.up v.weights)
            (sum-modify (pos w) _ (map raise ss) ∙ sum-raise ss ∙ v.weights);
      balanced = round_robin_get_conserves ss now (servers_of_weight w ss h v.weights) ∙ v.balanced;
      fair =
          rw (round_robin_get_up w now ss v.up v.weights, p)
            (Fairs-modify w (suc t) c 0 j j s (map raise ss) (omega arith) g lt
              (Fairs-raise w t c 0 ss v.fair));
    }

pub Even-cong :
    (w : ℕ) {t t' : ℕ} {c c' : ℕ → ℕ} (ss : List Srv)
    → t ≡ t'
    → ((k : ℕ) → c k ≡ c' k)
    → Even w t c ss
    → Even w t' c' ss
Even-cong w {t' = t'} {c = c} ss e f v =
    subst (λ d. Even w t' d ss) (fun_ext f) (subst (λ t. Even w t c ss) e v)

pub rounds-Even :
    (w t : ℕ) (c : ℕ → ℕ) (ss : List Srv) (nows : List ℕ)
    → 0 < w
    → Even w t c ss
    → Even w (length nows + t) (λ k. tally (rounds ss nows).0 k + c k) (rounds ss nows).1
unfolding rounds
rounds-Even w t c ss [] h v = Even-cong w ss (omega arith) (λ k. omega arith) v
rounds-Even w t c ss (now ∷ nows) h v =
    Even-cong w _ (omega arith) (λ k. omega arith)
      (rounds-Even w (suc t) _ (round_robin_get ss now).1 nows h
        (round_robin_get-Even w t now c ss h v))

pub rounds-reset :
    (w t : ℕ) (c : ℕ → ℕ) (ss : List Srv) (nows : List ℕ)
    → 0 < w
    → Even w t c ss
    → map reset (rounds ss nows).1 ≡ map reset ss
unfolding rounds
rounds-reset w t c ss [] h v = refl
rounds-reset w t c ss (now ∷ nows) h v =
    rounds-reset w (suc t) _ (round_robin_get ss now).1 nows h
      (round_robin_get-Even w t now c ss h v)
    ∙ round_robin_get-reset w now ss v.up v.weights
