-- ===== src/Examples/Data.antt =====
-- Servers to try the models on.
use umicat.Base.{ℕ, true, false, List, [], ◌∷◌}
use umicat.Base.Int.{pos}
use umicat.Upstream.Server.{Srv}

-- A server of weight `w` that is up, as it is configured: three failures within 10 seconds take it
-- down.
abbrev pub server : ℕ → Srv
server w = record {
  upstream_ip = b'1' ∷ [];
  upstream_port = 8080;
  weight = pos w;
  current_weight = pos 0;
  effective_weight = pos w;
  connection_n = 0;
  traffic = 0;
  traffic_window = 60;
  last_send_time = 0;
  fails = 0;
  max_fails = 3;
  fail_timeout = 10;
  last_fail_time = 0;
  is_down = false;
  is_fallback = true;
  check_type = 0;
  check_port = 0;
  check_interval = 5;
  check_timeout = 3;
  check_fall = 2;
  check_rise = 2;
  check_fails = 0;
  check_successes = 0;
  timerfd = pos 7;
}

abbrev pub down_server : Srv
down_server = record (server 4) {
  is_down = true;
  effective_weight = pos 0;
  last_fail_time = 95;
  fails = 3;
}

abbrev pub busy_server : Srv
busy_server = record (server 2) { connection_n = 4; traffic = 900 }

abbrev pub three_servers : List Srv
three_servers = server 3 ∷ server 1 ∷ server 0 ∷ []

abbrev pub mixed_servers : List Srv
mixed_servers = down_server ∷ busy_server ∷ server 1 ∷ []
