-- ===== src/Examples/Health.antt =====
-- The passive and the active health check on concrete servers.
use umicat.Base.{◌≡◌, refl, true, false, List, [], ◌∷◌, some, arith, get_elem?}
use umicat.Base.Int.{pos, negsuc}
use umicat.Base.Word.{add64, sub64}
use umicat.Upstream.Server.{Srv, skipped}
use umicat.Upstream.RoundRobin.Conservation.{gain}
use umicat.Upstream.Connect.{tcp, connect, on_failure, count_fail, judge, must_go_down}
use umicat.Upstream.Connect.Weight.{IsWeighted}
use umicat.Upstream.Connect.Weight.Success.{connect-IsWeighted}
use umicat.Upstream.Connect.Passive.{fail_run, failures_take_down}
use umicat.Upstream.Connect.Passive.Quarantine.{failure_quarantines}
use umicat.Check.{
  check_tcp, check_fail, Checker, Event, timer, connection, refused, in_progress, cycle,
}
use umicat.Check.Threshold.{check_run, checks_take_down}
use umicat.Check.Cycle.{cycle_refines}
use umicat.Examples.Data.{server, busy_server, mixed_servers}

failures_take_down_example : (fail_run (100 ∷ 103 ∷ 107 ∷ []) (server 6)).is_down ≡ true
unfolding sub64
failures_take_down_example =
    failures_take_down 100 (103 ∷ 107 ∷ []) (server 6) refl (omega arith) (omega arith)
      (omega arith) (omega arith, (omega arith, tt))

-- Two failures are counted, the last of them at 98.
abbrev failing_server : Srv
failing_server = record (server 6) { fails = 2; last_fail_time = 98 }

failure_quarantines_example :
    (skipped 105 (on_failure 100 failing_server) ≡ true)
    × (gain 105 (on_failure 100 failing_server) ≡ pos 0)
unfolding sub64 on_failure count_fail judge must_go_down add64
failure_quarantines_example = failure_quarantines 100 105 failing_server refl refl refl

connect-IsWeighted_example : IsWeighted (connect tcp (negsuc 0) true 100 failing_server).1
connect-IsWeighted_example =
    connect-IsWeighted tcp (negsuc 0) true 100 failing_server
      (record { nonneg = omega arith; capped = omega arith; small = omega arith })

checks_take_down_example :
    ((check_run (false ∷ true ∷ []) (server 2)).is_down ≡ false)
    × ((check_fail (check_run (false ∷ true ∷ []) (server 2))).is_down ≡ true)
checks_take_down_example =
    checks_take_down (false ∷ true ∷ []) (server 2) refl refl refl (omega arith)

abbrev checker : Checker
checker = record { srvs = mixed_servers; pending = [] }

abbrev events : List Event
events =
    timer 1 (refused (pos 9) ∷ []) 100
    ∷ timer 2 (in_progress (pos 10) ∷ []) 100
    ∷ timer 1 (refused (pos 9) ∷ []) 105
    ∷ connection (record { srv = 2; fd = pos 10; start_time = 100 }) (pos 0) 101
    ∷ []

cycle_refines_example :
    get_elem? (cycle checker events).srvs 1 ≡ some (check_run (false ∷ false ∷ []) busy_server)
unfolding check_tcp
cycle_refines_example = cycle_refines events checker 1 busy_server refl
