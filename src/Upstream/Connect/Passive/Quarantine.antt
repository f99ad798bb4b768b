-- ===== src/Upstream/Connect/Passive/Quarantine.antt =====
-- What a server that the passive check took down is given until it is up again.
use umicat.Base.{
  ℕ, zero, suc, ◌+◌, ◌≤◌, ◌≡◌, refl, ◌∙◌, ap, true, false, arith, ltb, inl, inr, min, if◌then◌else◌,
}
use umicat.Base.Int.{pos, ◌+ℤ◌, ltb_ℤ}
use umicat.Base.Word.{sub64}
use umicat.Upstream.Server.{Srv, skipped}
use umicat.Upstream.RoundRobin.Conservation.{gain}
use umicat.Upstream.RoundRobin.{revive}
use umicat.Upstream.Connect.{penalty, clamp, count_fail, on_failure, on_success}
use umicat.Upstream.Connect.Weight.{judge_cases, count_fail_keeps}
use umicat.Upstream.Connect.Weight.Success.{on_success_fields}

-- A server that a failure took down at `now`.
record TakenDown (now timeout : ℕ) (s : Srv) : Type 0 where
  down : s.is_down ≡ true
  since : s.last_fail_time ≡ now
  window : s.fail_timeout ≡ timeout
  fallback : s.is_fallback ≡ true
  none_left : s.effective_weight ≡ pos 0

on_failure-TakenDown :
    (now : ℕ) (s : Srv)
    → s.is_down ≡ false
    → s.is_fallback ≡ true
    → (on_failure now s).is_down ≡ true
    → TakenDown now s.fail_timeout (on_failure now s)
unfolding on_failure
on_failure-TakenDown now s u b d = elim (judge_cases now (count_fail now t)) [
  | inl (j, g) ↦ absurd (cc (ap (λ (r : Srv). r.is_down) j, (count_fail_keeps now t).2))
  | inr (j, g) ↦ rw j (record {
    down = refl;
    since = refl;
    window = (count_fail_keeps now t).4;
    fallback = (count_fail_keeps now t).5 ∙ b;
    none_left = refl;
  })
]
  where
    t : Srv
    t = record s { effective_weight = clamp (penalty s) }

taken_gain :
    (now timeout t : ℕ) (s : Srv)
    → TakenDown now timeout s
    → (skipped t s ≡ ltb (sub64 t now) timeout)
      × (gain t s ≡ (if ltb timeout (sub64 t now) then pos 1 else pos 0))
unfolding gain
taken_gain now timeout t s v = (passed, rw passed weight)
  where
    passed : skipped t s ≡ ltb (sub64 t now) timeout
    passed = unfold skipped in rw (v.down, v.fallback, v.since, v.window) refl

    weight :
        (if ltb (sub64 t now) timeout then pos 0 else (revive t s).effective_weight)
        ≡ (if ltb timeout (sub64 t now) then pos 1 else pos 0)
    weight = unfold revive ◌+ℤ◌ in rw (v.since, v.window) (ground (arith, v.down, v.none_left))

-- A failure takes down a server that was up and may be passed over. From then on, at any time `t`,
-- it is passed over for less than `fail_timeout` by the test that round robin, least_conn and
-- random share; round robin gives it no weight for `fail_timeout` and, after that, the weight 1 to
-- try it again.
pub failure_quarantines :
    (now t : ℕ) (s : Srv)
    → s.is_down ≡ false
    → s.is_fallback ≡ true
    → (on_failure now s).is_down ≡ true
    → (skipped t (on_failure now s) ≡ ltb (sub64 t now) s.fail_timeout)
      × (gain t (on_failure now s) ≡ (if ltb s.fail_timeout (sub64 t now) then pos 1 else pos 0))
failure_quarantines now t s u b d =
    taken_gain now s.fail_timeout t _ (on_failure-TakenDown now s u b d)

-- `n` connections in a row.
pub success_run : ℕ → Srv → Srv
success_run zero s = s
success_run (suc n) s = success_run n (on_success s)

success_effective :
    (e w : ℕ)
    → e ≤ w
    → (if ltb_ℤ (pos e) (pos w) then pos e +ℤ pos 1 else pos e) ≡ pos (min w (e + 1))
unfolding ◌+ℤ◌
success_effective e w h = ground arith

success_run_effective :
    (n e w : ℕ) (s : Srv)
    → s.effective_weight ≡ pos e
    → s.weight ≡ pos w
    → e ≤ w
    → (success_run n s).effective_weight ≡ pos (min w (e + n))
unfolding success_run
success_run_effective zero e w s p q h = p ∙ ap pos (omega arith)
success_run_effective (suc n) e w s p q h =
    let f = on_success_fields s in
    success_run_effective n (min w (e + 1)) w (on_success s)
      (f.3 ∙ rw (p, q) (success_effective e w h)) (f.0 ∙ q) (omega arith)
    ∙ ap pos (omega arith)

success_run_up : (n : ℕ) (s : Srv) → (success_run (suc n) s).is_down ≡ false
unfolding success_run
success_run_up zero s = (on_success_fields s).1
success_run_up (suc n) s = success_run_up n (on_success s)

-- A server with effective weight `e` of a weight `w`, at least `e`, has, after one or more
-- connections in a row, regained one unit for each of them, up to `w`, and it is up.
pub successes_restore :
    (n e w : ℕ) (s : Srv)
    → s.effective_weight ≡ pos e
    → s.weight ≡ pos w
    → e ≤ w
    → ((success_run (suc n) s).effective_weight ≡ pos (min w (e + suc n)))
      × ((success_run (suc n) s).is_down ≡ false)
successes_restore n e w s p q h = (success_run_effective (suc n) e w s p q h, success_run_up n s)
