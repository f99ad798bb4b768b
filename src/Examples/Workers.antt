-- ===== src/Examples/Workers.antt =====
-- A few turns of a worker over TCP and over UDP.
use umicat.Base.{◌≡◌, ◌≢◌, refl, true, List, [], ◌∷◌, none, some, arith}
use umicat.Base.Int.{pos, negsuc, ◌+ℤ◌, ◌-ℤ◌}
use umicat.Base.Word.{add64, sub64}
use umicat.Upstream.Server.{skipped, modify}
use umicat.Upstream.RoundRobin.{revive, visit, accumulate, consider, pick, round_robin_get}
use umicat.Upstream.Connect.{tcp, udp, connect, on_success, bring_up, regain}
use umicat.Upstream.Select.{
  round_robin, least_conn, Env, get_connection, round_robin_get_conn, connect_best, reply,
}
use umicat.Connection.Read.{unset}
use umicat.Connection.Events.{
  Worker, done, upstream, process_events_udp, on_upstream, finish, disconnect, release,
}
use umicat.Connection.Events.Account.{IsBalanced}
use umicat.Cycle.Worker.{
  Settings, Turn, worker_thread_cycle, Packet, running, worker_thread_cycle_udp, worker_turn_udp,
  serve_udp,
}
use umicat.Cycle.Worker.Balance.{
  worker_thread_cycle-IsBalanced, worker_thread_cycle_udp-falls_behind,
}
use umicat.Examples.Data.{server}

-- Every connection gets the descriptor 5.
abbrev env : Env
env = record {
  now = 100;
  later = 100;
  connect_time = 100;
  rand = 0;
  socket_to = λ mode s. pos 5;
  locks = λ s. true;
  digest = λ text. [];
}

abbrev tcp_settings : Settings
tcp_settings = record { policy = round_robin; mode = tcp; ring = [] }

abbrev udp_settings : Settings
udp_settings = record { policy = round_robin; mode = udp; ring = [] }

abbrev idle_worker : Worker
idle_worker = record { srvs = server 3 ∷ server 1 ∷ []; connection_n = 0 }

-- A client comes; then nobody does, and the connection ends.
abbrev turns : List Turn
turns =
    record { client = some (b'1' ∷ []); env = env; ready = [] }
    ∷ record { client = none; env = env; ready = upstream 0 (done [] 0 unset []) ∷ [] }
    ∷ []

not_least : round_robin ≢ least_conn
not_least h = cc

worker_thread_cycle-IsBalanced_example :
    IsBalanced 0 (worker_thread_cycle tcp_settings turns idle_worker)
worker_thread_cycle-IsBalanced_example =
    worker_thread_cycle-IsBalanced 0 tcp_settings turns idle_worker not_least
      (tt, ((omega arith, tt), tt)) refl

-- A packet comes, and the connection that it opens ends in the same turn.
abbrev packets : List Packet
packets =
    record {
      client_ip = b'1' ∷ [];
      backfd = pos 6;
      env = env;
      ready = (0, done [] 0 unset []) ∷ [];
    }
    ∷ []

-- The worker's count wraps.
abbrev wrapped_worker : Worker
wrapped_worker = record {
  srvs =
      record (server 3) { current_weight = negsuc 0 }
      ∷ record (server 1) { current_weight = pos 1 }
      ∷ [];
  connection_n = 18446744073709551615;
}

runs : worker_thread_cycle_udp udp_settings packets idle_worker ≡ running wrapped_worker
unfolding worker_thread_cycle_udp worker_turn_udp serve_udp get_connection round_robin_get_conn
    round_robin_get accumulate visit revive skipped pick consider modify connect_best reply connect
    on_success bring_up regain process_events_udp on_upstream finish disconnect release add64 sub64
    ◌+ℤ◌ ◌-ℤ◌
runs = refl

worker_thread_cycle_udp-falls_behind_example : IsBalanced 1 wrapped_worker
worker_thread_cycle_udp-falls_behind_example =
    worker_thread_cycle_udp-falls_behind 0 udp_settings packets idle_worker wrapped_worker not_least
      ((omega arith, tt), tt) refl runs
