-- ===== src/Upstream/Connect/Passive.antt =====
-- The passive health check over several connections: how failures take a server down.
pub mod Quarantine
use umicat.Base.{
  ℕ, zero, suc, ◌+◌, ◌^◌, ◌≤◌, ◌<◌, ◌≡◌, refl, ◌∙◌, ap, true, false, List, [], ◌∷◌, arith, ltb, leb,
  length, inl, inr, ◌⊎◌, min, if◌then◌else◌, dec_lt,
}
use umicat.Base.Int.{pos, ◌+ℤ◌, ltb_ℤ}
use umicat.Base.Word.{add64, sub64}
use umicat.Upstream.Server.{Srv, skipped}
use umicat.Upstream.RoundRobin.Conservation.{gain}
use umicat.Upstream.RoundRobin.{revive}
use umicat.Upstream.Connect.{
  penalty, clamp, count_fail, must_go_down, judge, on_failure, on_success,
}
use umicat.Upstream.Connect.Weight.{judge_cases, count_fail_keeps}
use umicat.Upstream.Connect.Weight.Success.{on_success_fields}

-- Failed connections to one server, in the order of their times.
pub fail_run : List ℕ → Srv → Srv
fail_run [] s = s
fail_run (now ∷ nows) s = fail_run nows (on_failure now s)

-- Each time is at most `timeout` after `start`.
abbrev pub Within : ℕ → ℕ → List ℕ → Type 0
Within start timeout [] = Unit {0}
Within start timeout (now ∷ nows) = (sub64 now start ≤ timeout) × Within start timeout nows

on_failure_down : (now : ℕ) (s : Srv) → s.is_down ≡ true → (on_failure now s).is_down ≡ true
unfolding on_failure judge count_fail
on_failure_down now s d = ground arith

fail_run_down : (nows : List ℕ) (s : Srv) → s.is_down ≡ true → (fail_run nows s).is_down ≡ true
unfolding fail_run
fail_run_down [] s d = d
fail_run_down (now ∷ nows) s d = fail_run_down nows (on_failure now s) (on_failure_down now s d)

-- The server is up after `c` failures of the window that began at `start`.
record Counted (start timeout m c : ℕ) (s : Srv) : Type 0 where
  up : s.is_down ≡ false
  limit : s.max_fails ≡ m
  window : s.fail_timeout ≡ timeout
  since : s.last_fail_time ≡ start
  count : s.fails ≡ c

same_window :
    (now : ℕ) (s : Srv)
    → sub64 now s.last_fail_time ≤ s.fail_timeout
    → count_fail now s ≡ record s { fails = add64 s.fails 1 }
unfolding count_fail
same_window now s h =
    let e : ltb s.fail_timeout (sub64 now s.last_fail_time) ≡ false = ground arith in rw e refl

new_window :
    (now : ℕ) (s : Srv)
    → s.fail_timeout < sub64 now s.last_fail_time
    → count_fail now s ≡ record s { last_fail_time = now; fails = 1 }
unfolding count_fail
new_window now s h =
    let e : ltb s.fail_timeout (sub64 now s.last_fail_time) ≡ true = ground arith in rw e refl

must_go_down_eq :
    (now c : ℕ) (s : Srv)
    → s.fails ≡ suc c
    → sub64 now s.last_fail_time ≤ s.fail_timeout
    → must_go_down now s ≡ leb s.max_fails (suc c)
unfolding must_go_down
must_go_down_eq now c s e h = rw e (ground arith)

judge_down : (now : ℕ) (s : Srv) → must_go_down now s ≡ true → (judge now s).is_down ≡ true
unfolding judge
judge_down now s e = rw e refl

judge_stay : (now : ℕ) (s : Srv) → must_go_down now s ≡ false → judge now s ≡ s
unfolding judge
judge_stay now s e = rw e refl

-- A server as it stands after its `c`-th failure was counted, before the judgement.
judged :
    (start timeout m c now : ℕ) (s : Srv)
    → c < m
    → sub64 now start ≤ timeout
    → Counted start timeout m (suc c) s
    → ((m ≡ suc c) × ((judge now s).is_down ≡ true))
      ⊎ ((suc c < m) × Counted start timeout m (suc c) (judge now s))
judged start timeout m c now s lt w v = elim (dec_lt (suc c) m) [
  | yes more ↦ inr (more, rw (judge_stay now s (verdict ∙ ground arith)) v)
  | no last ↦ inl (omega arith, judge_down now s (verdict ∙ ground arith))
]
  where
    verdict : must_go_down now s ≡ leb m (suc c)
    verdict =
        must_go_down_eq now c s v.count (rw (v.since, v.window) w) ∙ ap (λ k. leb k (suc c)) v.limit

next_failure :
    (start timeout m c now : ℕ) (s : Srv)
    → c < m
    → m < 2 ^ 64
    → sub64 now start ≤ timeout
    → Counted start timeout m c s
    → ((m ≡ suc c) × ((on_failure now s).is_down ≡ true))
      ⊎ ((suc c < m) × Counted start timeout m (suc c) (on_failure now s))
unfolding on_failure
next_failure start timeout m c now s lt small w v =
    rw (same_window now t (rw (v.since, v.window) w)) (
      judged start timeout m c now _ lt w (record {
        up = v.up;
        limit = v.limit;
        window = v.window;
        since = v.since;
        count = ap (λ k. add64 k 1) v.count ∙ unfold add64 in omega arith;
      }))
  where
    t : Srv
    t = record s { effective_weight = clamp (penalty s) }

fail_run-Counted :
    (start timeout m c : ℕ) (nows : List ℕ) (s : Srv)
    → c < m
    → m < 2 ^ 64
    → Within start timeout nows
    → Counted start timeout m c s
    → (fail_run nows s).is_down ≡ leb m (length nows + c)
unfolding fail_run
fail_run-Counted start timeout m c [] s lt small w v = v.up ∙ ground arith
fail_run-Counted start timeout m c (now ∷ nows) s lt small w v =
    elim (next_failure start timeout m c now s lt small w.0 v) [
      | inl (e, d) ↦ fail_run_down nows _ d ∙ ground arith
      | inr (more, v') ↦
          fail_run-Counted start timeout m (suc c) nows _ more small w.1 v' ∙ ground arith
    ]

sub64_self : (a : ℕ) → sub64 a a ≡ 0
unfolding sub64
sub64_self a = omega arith

first_failure :
    (start : ℕ) (s : Srv)
    → s.is_down ≡ false
    → 0 < s.max_fails
    → s.fail_timeout < sub64 start s.last_fail_time
    → ((s.max_fails ≡ 1) × ((on_failure start s).is_down ≡ true))
      ⊎ ((1 < s.max_fails) × Counted start s.fail_timeout s.max_fails 1 (on_failure start s))
unfolding on_failure
first_failure start s u h late = rw (new_window start t late) (
    judged start s.fail_timeout s.max_fails 0 start _ h (rw sub64_self (omega arith))
      (record { up = u; limit = refl; window = refl; since = refl; count = refl }))
  where
    t : Srv
    t = record s { effective_weight = clamp (penalty s) }

-- A server that is up, whose last failure is more than `fail_timeout` ago, then fails at `start`
-- and at some times within `fail_timeout` of it: it is down exactly when that makes `max_fails`
-- failures or more, if `max_fails` is a machine word and not 0.
pub failures_take_down :
    (start : ℕ) (nows : List ℕ) (s : Srv)
    → s.is_down ≡ false
    → 0 < s.max_fails
    → s.max_fails < 2 ^ 64
    → s.fail_timeout < sub64 start s.last_fail_time
    → Within start s.fail_timeout nows
    → (fail_run (start ∷ nows) s).is_down ≡ leb s.max_fails (length nows + 1)
unfolding fail_run
failures_take_down start nows s u h small late w = elim (first_failure start s u h late) [
  | inl (e, d) ↦ fail_run_down nows _ d ∙ ground arith
  | inr (more, v) ↦ fail_run-Counted start s.fail_timeout s.max_fails 1 nows _ more small w v
]
