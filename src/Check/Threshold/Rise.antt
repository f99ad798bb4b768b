-- ===== src/Check/Threshold/Rise.antt =====
-- How many checks it takes to mark a server up.
use umicat.Base.{
  ℕ, suc, ◌+◌, ◌^◌, ◌<◌, ◌≡◌, refl, ◌∙◌, Bool, true, false, List, [], ◌∷◌, arith, leb, ap, subst,
  inl, inr, Bool-cases,
}
use umicat.Base.Int.{pos, ◌+ℤ◌}
use umicat.Base.Word.{add64, sub64}
use umicat.Upstream.Server.{Srv, skipped}
use umicat.Upstream.RoundRobin.Conservation.{gain}
use umicat.Check.{check_success, check_fail, rise, fall}
use umicat.Check.Threshold.{check_run, successes, fallen}

-- A server that is down, with a limit of `f` checks that succeed and `c` of them counted.
record Rising (f c : ℕ) (s : Srv) : Type 0 where
  down : s.is_down ≡ true
  limit : s.check_rise ≡ f
  count : s.check_successes ≡ c

fail-Rising : (f c : ℕ) (s : Srv) → Rising f c s → Rising f c (check_fail s)
unfolding check_fail fall
fail-Rising f c s v = rw v.down (record { down = refl; limit = v.limit; count = v.count })

rise_eq :
    (f c : ℕ) (s : Srv)
    → c < f
    → f < 2 ^ 64
    → Rising f c s
    → leb s.check_rise (add64 s.check_successes 1) ≡ leb f (c + 1)
unfolding add64
rise_eq f c s h k v = rw (v.limit, v.count) (ground arith)

success-Rising :
    (f c : ℕ) (s : Srv) → c + 1 < f → f < 2 ^ 64 → Rising f c s → Rising f (suc c) (check_success s)
unfolding check_success rise
success-Rising f c s h k v =
    rw (v.down, rise_eq f c s (omega arith) k v, few)
      (record {
        down = refl;
        limit = v.limit;
        count = ap (λ n. add64 n 1) v.count ∙ unfold add64 in omega arith;
      })
  where
    few : leb f (c + 1) ≡ false
    few = ground arith

success_last :
    (f c : ℕ) (s : Srv)
    → c + 1 ≡ f
    → f < 2 ^ 64
    → Rising f c s
    → ((check_success s).is_down ≡ false)
      × ((check_success s).effective_weight ≡ s.effective_weight +ℤ pos 1)
unfolding check_success rise
success_last f c s h k v = rw (v.down, rise_eq f c s (omega arith) k v, enough) (refl, refl)
  where
    enough : leb f (c + 1) ≡ true
    enough = ground arith

run-Rising :
    (f c : ℕ) (rs : List Bool) (s : Srv)
    → successes rs + c < f
    → f < 2 ^ 64
    → Rising f c s
    → Rising f (successes rs + c) (check_run rs s)
unfolding check_run
run-Rising f c [] s h k v = subst (λ n. Rising f n s) (omega arith) v
run-Rising f c (true ∷ rs) s h k v =
    subst (λ n. Rising f n (check_run rs (check_success s))) (omega arith)
      (run-Rising f (suc c) rs _ (omega arith) k (success-Rising f c s (omega arith) k v))
run-Rising f c (false ∷ rs) s h k v = run-Rising f c rs _ h k (fail-Rising f c s v)

-- A server that is down, with no successful check counted, is still down after checks of which one
-- fewer than `check_rise` succeeded, a machine word, and the next success brings it up with one
-- more unit of effective weight. It makes no difference how many checks fail, nor when.
pub checks_bring_up :
    (rs : List Bool) (s : Srv)
    → s.is_down ≡ true
    → s.check_successes ≡ 0
    → successes rs + 1 ≡ s.check_rise
    → s.check_rise < 2 ^ 64
    → let t = check_run rs s in
      (t.is_down ≡ true)
      × ((check_success t).is_down ≡ false)
      × ((check_success t).effective_weight ≡ t.effective_weight +ℤ pos 1)
checks_bring_up rs s u z e small = (v.down, last.0, last.1)
  where
    v : Rising s.check_rise (successes rs + 0) (check_run rs s)
    v =
        run-Rising s.check_rise 0 rs s (omega arith) small
          (record { down = u; limit = refl; count = z })

    last :
        ((check_success (check_run rs s)).is_down ≡ false)
        × ((check_success (check_run rs s)).effective_weight
            ≡ (check_run rs s).effective_weight +ℤ pos 1)
    last = success_last s.check_rise _ _ (omega arith) small v

-- A failed check that takes a server down leaves its `last_fail_time` alone. So if the last failed
-- connection is more than `fail_timeout` ago, the policies do not pass the server over, and round
-- robin gives it the weight 1 at once.
pub check_fail_not_skipped :
    (now : ℕ) (s : Srv)
    → s.is_down ≡ false
    → (check_fail s).is_down ≡ true
    → s.fail_timeout < sub64 now s.last_fail_time
    → (skipped now (check_fail s) ≡ false) × (gain now (check_fail s) ≡ pos 1)
unfolding check_fail fall
check_fail_not_skipped now s u d late =
    elim (Bool-cases (leb s.check_fall (add64 s.check_fails 1))) [
      | inr e ↦ absurd (cc (rw (u, e) at d))
      | inl e ↦ rw (u, e) (fallen now _ refl refl late)
    ]
