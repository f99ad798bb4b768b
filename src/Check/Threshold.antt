-- ===== src/Check/Threshold.antt =====
-- How many failed checks it takes to mark a server down.
pub mod Rise
use umicat.Base.{
  ℕ, suc, ◌+◌, ◌^◌, ◌<◌, ◌≡◌, refl, ◌∙◌, Bool, true, false, List, [], ◌∷◌, arith, leb, ap, subst,
  inl, inr, Bool-cases,
}
use umicat.Base.Int.{pos, ◌+ℤ◌}
use umicat.Base.Word.{add64, sub64}
use umicat.Upstream.Server.{Srv, skipped}
use umicat.Upstream.RoundRobin.{revive}
use umicat.Upstream.RoundRobin.Conservation.{gain}
use umicat.Check.{check_success, check_fail, rise, fall}

-- The outcomes of checks of one server, in order.
unfoldable pub check_run : List Bool → Srv → Srv
check_run [] s = s
check_run (true ∷ rs) s = check_run rs (check_success s)
check_run (false ∷ rs) s = check_run rs (check_fail s)

abbrev pub failures : List Bool → ℕ
failures [] = 0
failures (true ∷ rs) = failures rs
failures (false ∷ rs) = suc (failures rs)

abbrev pub successes : List Bool → ℕ
successes [] = 0
successes (true ∷ rs) = suc (successes rs)
successes (false ∷ rs) = successes rs

-- A server that is up, with a limit of `f` failed checks and `c` of them counted.
record Failing (f c : ℕ) (s : Srv) : Type 0 where
  up : s.is_down ≡ false
  limit : s.check_fall ≡ f
  count : s.check_fails ≡ c

-- A server that is down with no weight is given the weight 1 once `fail_timeout` is over.
pub fallen :
    (now : ℕ) (s : Srv)
    → s.is_down ≡ true
    → s.effective_weight ≡ pos 0
    → s.fail_timeout < sub64 now s.last_fail_time
    → (skipped now s ≡ false) × (gain now s ≡ pos 1)
unfolding gain
fallen now s d z late = (open_again, rw open_again weight)
  where
    open_again : skipped now s ≡ false
    open_again = unfold skipped in ground arith

    weight : (revive now s).effective_weight ≡ pos 1
    weight = unfold revive ◌+ℤ◌ in ground (arith, d, z)

success-Failing : (f c : ℕ) (s : Srv) → Failing f c s → Failing f c (check_success s)
unfolding check_success rise
success-Failing f c s v = rw v.up (record { up = refl; limit = v.limit; count = v.count })

fall_eq :
    (f c : ℕ) (s : Srv)
    → c < f
    → f < 2 ^ 64
    → Failing f c s
    → leb s.check_fall (add64 s.check_fails 1) ≡ leb f (c + 1)
unfolding add64
fall_eq f c s h k v = rw (v.limit, v.count) (ground arith)

fail-Failing :
    (f c : ℕ) (s : Srv) → c + 1 < f → f < 2 ^ 64 → Failing f c s → Failing f (suc c) (check_fail s)
unfolding check_fail fall
fail-Failing f c s h k v =
    rw (v.up, fall_eq f c s (omega arith) k v, few)
      (record {
        up = refl;
        limit = v.limit;
        count = ap (λ n. add64 n 1) v.count ∙ unfold add64 in omega arith;
      })
  where
    few : leb f (c + 1) ≡ false
    few = ground arith

fail_last :
    (f c : ℕ) (s : Srv) → c + 1 ≡ f → f < 2 ^ 64 → Failing f c s → (check_fail s).is_down ≡ true
unfolding check_fail fall
fail_last f c s h k v = rw (v.up, fall_eq f c s (omega arith) k v, enough) refl
  where
    enough : leb f (c + 1) ≡ true
    enough = ground arith

run-Failing :
    (f c : ℕ) (rs : List Bool) (s : Srv)
    → failures rs + c < f
    → f < 2 ^ 64
    → Failing f c s
    → Failing f (failures rs + c) (check_run rs s)
unfolding check_run
run-Failing f c [] s h k v = subst (λ n. Failing f n s) (omega arith) v
run-Failing f c (true ∷ rs) s h k v = run-Failing f c rs _ h k (success-Failing f c s v)
run-Failing f c (false ∷ rs) s h k v =
    subst (λ n. Failing f n (check_run rs (check_fail s))) (omega arith)
      (run-Failing f (suc c) rs _ (omega arith) k (fail-Failing f c s (omega arith) k v))

-- A server that is up, with no failed check counted, is still up after checks of which one fewer
-- than `check_fall` failed, a machine word, and the next failed check takes it down. It makes no
-- difference how many checks succeed, nor when.
pub checks_take_down :
    (rs : List Bool) (s : Srv)
    → s.is_down ≡ false
    → s.check_fails ≡ 0
    → failures rs + 1 ≡ s.check_fall
    → s.check_fall < 2 ^ 64
    → ((check_run rs s).is_down ≡ false) × ((check_fail (check_run rs s)).is_down ≡ true)
checks_take_down rs s u z e small = (v.up, fail_last s.check_fall _ _ (omega arith) small v)
  where
    v : Failing s.check_fall (failures rs + 0) (check_run rs s)
    v =
        run-Failing s.check_fall 0 rs s (omega arith) small
          (record { up = u; limit = refl; count = z })
