-- ===== src/Examples/Policies.antt =====
-- The policies and their common end on concrete servers.
use umicat.Base.{◌≤◌, ◌≡◌, refl, false, [], ◌∷◌, some, arith, get_elem?}
use umicat.Base.Int.{pos, ◌≤ℤ◌, ◌+ℤ◌, ◌-ℤ◌, sum_ℤ}
use umicat.Base.Word.{add64, sub64}
use umicat.Upstream.Server.{Srv, skipped, modify}
use umicat.Upstream.RoundRobin.{rounds, round_robin_get, accumulate, visit, revive, pick, consider}
use umicat.Upstream.RoundRobin.Conservation.{current, round_robin_get_conserves}
use umicat.Upstream.RoundRobin.Greatest.{visited, round_robin_get_greatest}
use umicat.Upstream.RoundRobin.Even.{tally}
use umicat.Upstream.RoundRobin.Fairness.{round_robin_fair}
use umicat.Upstream.LeastConn.{least_conn_get, least_conn_get_least}
use umicat.Upstream.Random.{random_get}
use umicat.Upstream.Random.Share.{count_below, chooses}
use umicat.Upstream.Random.Share.Draw.{random_get_share}
use umicat.Examples.Data.{server, busy_server, three_servers, mixed_servers}

rounds_test : (rounds three_servers (100 ∷ 100 ∷ 101 ∷ 101 ∷ [])).0 ≡ 0 ∷ 0 ∷ 1 ∷ 0 ∷ []
unfolding rounds round_robin_get accumulate visit revive skipped pick consider modify ◌+ℤ◌ ◌-ℤ◌
    sub64
rounds_test = refl

round_robin_fair_example :
    ((rounds three_servers (100 ∷ 100 ∷ 101 ∷ 101 ∷ [])).1 ≡ three_servers)
    × (pos (tally (rounds three_servers (100 ∷ 100 ∷ 101 ∷ 101 ∷ [])).0 0) ≡ pos 3)
unfolding sum_ℤ ◌+ℤ◌
round_robin_fair_example =
    round_robin_fair 4 three_servers (100 ∷ 100 ∷ 101 ∷ 101 ∷ []) 0 (server 3) (omega arith)
      (refl, omega arith, refl, (refl, omega arith, refl, (refl, omega arith, refl, tt))) refl refl
      refl

round_robin_get_conserves_example :
    sum_ℤ current (round_robin_get mixed_servers 100).1 ≡ sum_ℤ current mixed_servers
round_robin_get_conserves_example = round_robin_get_conserves mixed_servers 100 (omega arith)

round_robin_get_greatest_example :
    let (best, after) = round_robin_get mixed_servers 100 in
    let total = (accumulate 100 (pos 0) mixed_servers).0 in
    (t : Srv) × (get_elem? mixed_servers best ≡ some t)
    × (skipped 100 t ≡ false)
    × ((visited 100 busy_server).current_weight ≤ℤ (visited 100 t).current_weight)
    × (get_elem? after best
        ≡ some
            (record (visited 100 t) { current_weight = (visited 100 t).current_weight -ℤ total }))
unfolding skipped visited visit revive ◌+ℤ◌ sub64
round_robin_get_greatest_example =
    round_robin_get_greatest mixed_servers 100 1 busy_server refl refl (omega arith)

least_conn_get_least_example :
    let (best, after) = least_conn_get mixed_servers 100 in
    (t : Srv) × (get_elem? mixed_servers best ≡ some t)
    × (skipped 100 t ≡ false)
    × (t.connection_n ≤ 4)
    × (get_elem? after best ≡ some (record t { connection_n = add64 t.connection_n 1 }))
unfolding skipped sub64
least_conn_get_least_example =
    least_conn_get_least mixed_servers 100 1 busy_server refl refl (omega arith)

random_get_share_example :
    (pos (count_below 4 (λ r. chooses 1 (random_get three_servers 100 101 r).0)) ≡ pos 1)
    × ((random_get three_servers 100 101 9).1 ≡ three_servers)
unfolding sum_ℤ ◌+ℤ◌
random_get_share_example =
    random_get_share 4 100 101 1 9 three_servers (server 1) (omega arith)
      (refl, omega arith, (refl, omega arith, (refl, omega arith, tt))) refl refl
