-- ===== src/Examples/Ring.antt =====
-- The hash ring and the dispatch over all policies on concrete servers.
use umicat.Base.{ℕ, ◌≡◌, refl, true, List, [], ◌∷◌, arith}
use mathlib.Core.List.{Perm}
use umicat.Base.Int.{pos, ◌+ℤ◌, ◌-ℤ◌}
use umicat.Base.Word.{add64, sub64}
use umicat.Strings.Number.{itoa}
use umicat.Upstream.Server.{skipped, modify}
use umicat.Upstream.RoundRobin.{round_robin_get, accumulate, visit, revive, pick, consider}
use umicat.Upstream.Connect.{tcp, connect}
use umicat.Upstream.Ring.{
  RingPoint, all_points, init_hash_ring, get_hash_point, next_valid_point, bisect, bubble_sort,
}
use umicat.Upstream.Ring.Sort.{IsSorted, init_hash_ring_sorts}
use umicat.Upstream.Ring.Search.{Serves, get_hash_point-Serves}
use umicat.Upstream.Ring.Search.Next.{NextValid, next_valid_point-NextValid}
use umicat.Upstream.Select.{
  round_robin, Conn, Env, reply, connect_best, round_robin_get_conn, get_connection,
}
use umicat.Upstream.Select.Result.{Served, get_connection-Served}
use umicat.Examples.Data.{server, mixed_servers}

-- A digest and a key to try the ring with.
abbrev digest : List ℕ → List ℕ
digest text = text

abbrev hash_key : List ℕ → ℕ → ℕ → List ℕ
hash_key ip port j = j ∷ port ∷ ip

abbrev ring : List RingPoint
ring =
    record { hash = 10; srv = 2 }
    ∷ record { hash = 20; srv = 0 }
    ∷ record { hash = 20; srv = 1 }
    ∷ record { hash = 70; srv = 0 }
    ∷ []

abbrev ring-IsSorted : IsSorted ring
ring-IsSorted = (
  (omega arith, (omega arith, (omega arith, tt))),
  ((omega arith, (omega arith, tt)), ((omega arith, tt), (tt, tt))),
)

get_hash_point_test : get_hash_point ring 15 ≡ 1
unfolding get_hash_point bisect add64 sub64
get_hash_point_test = refl

get_hash_point_round_test : get_hash_point ring 71 ≡ 0
unfolding get_hash_point bisect add64 sub64
get_hash_point_round_test = refl

bubble_sort_test :
    bubble_sort (record { hash = 3; srv = 0 } ∷ record { hash = 1; srv = 1 } ∷ [])
    ≡ record { hash = 1; srv = 1 } ∷ record { hash = 3; srv = 0 } ∷ []
unfolding bubble_sort
bubble_sort_test = refl

init_hash_ring_sorts_example :
    IsSorted (init_hash_ring digest hash_key (server 1 ∷ []))
    × Perm
        (init_hash_ring digest hash_key (server 1 ∷ []))
        (all_points digest hash_key 0 (server 1 ∷ []))
init_hash_ring_sorts_example = init_hash_ring_sorts digest hash_key (server 1 ∷ [])

get_hash_point-Serves_example : Serves ring 15 (get_hash_point ring 15)
get_hash_point-Serves_example =
    get_hash_point-Serves ring 15 ring-IsSorted (omega arith) (omega arith)

next_valid_point-NextValid_example :
    NextValid mixed_servers ring 20
      (next_valid_point mixed_servers ring (record { hash = 20; srv = 0 }))
next_valid_point-NextValid_example =
    next_valid_point-NextValid mixed_servers ring 1 ring-IsSorted (omega arith) (omega arith)

-- Every socket opens as descriptor 5.
abbrev env : Env
env = record {
  now = 100;
  later = 101;
  connect_time = 100;
  rand = 9;
  socket_to = λ mode s. pos 5;
  locks = λ s. true;
  digest = digest;
}

abbrev conn : ℕ → Conn
conn i = record {
  fd = pos 5;
  ip_text = b'1' ∷ [];
  port_text = itoa (pos 8080) 10;
  upstream_srv = i;
}

get_connection-Served_example :
    Served (get_connection round_robin env tcp ring [] mixed_servers).1 (conn 1)
unfolding get_connection round_robin_get_conn connect_best reply connect round_robin_get accumulate
    visit revive pick consider skipped modify sub64 ◌+ℤ◌ ◌-ℤ◌
get_connection-Served_example =
    get_connection-Served round_robin env tcp ring [] mixed_servers (conn 1) refl
