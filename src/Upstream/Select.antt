-- ===== src/Upstream/Select.antt =====
-- `uct_upstream_get_connetion` and the five functions that it dispatches to (src/uct_upstream.c):
-- a server is chosen by the policy, and a connection to it opened.
pub mod Result
use umicat.Base.{ℕ, Bool, true, false, ◌&&◌, List, Option, none, some, if◌then◌else◌, get_elem?}
use umicat.Base.Int.{ℤ, pos, leb_ℤ}
use umicat.Upstream.Server.{Srv, modify}
use umicat.Upstream.RoundRobin.{round_robin_get}
use umicat.Upstream.LeastConn.{least_conn_get}
use umicat.Upstream.Random.{random_get}
use umicat.Upstream.Heuristic.{heuristic_get}
use umicat.Upstream.Ring.{RingPoint, md5_hash, get_hash_point, next_valid_point}
use umicat.Upstream.Connect.{Mode, connect}
use umicat.Strings.Number.{itoa}

-- `UCT_ROUND_ROBIN` to `UCT_HEURISTIC`, and any other number.
pub data Policy : Type 0 where
  round_robin ip_hash least_conn random heuristic unknown : Policy

-- `uct_connection_t`, without its pool and its place in a queue. The server is an index.
pub record Conn : Type 0 where
  pub fd : ℤ
  pub ip_text : List ℕ
  pub port_text : List ℕ
  pub upstream_srv : ℕ

-- What the system answers during one call: the clock where it is read, rand, the socket that opening
-- a connection to a server gives, whether its spin lock is taken, and MD5.
pub record Env : Type 0 where
  pub now : ℕ
  pub later : ℕ
  pub connect_time : ℕ
  pub rand : ℕ
  pub socket_to : Mode → Srv → ℤ
  pub locks : Srv → Bool
  pub digest : List ℕ → List ℕ

-- What is returned for a descriptor: no connection, or one that names the server.
unfoldable pub reply : Srv → ℕ → ℤ → Option Conn
reply s best fd =
    if leb_ℤ fd (pos 0)
    then none
    else some (record {
      fd = fd;
      ip_text = s.upstream_ip;
      port_text = itoa (pos s.upstream_port) 10;
      upstream_srv = best;
    })

-- The end that the five functions share: connect to the server at `best`. An index out of range,
-- which the source does not test, gives none.
unfoldable pub connect_best : Env → Mode → List Srv → ℕ → Option Conn × List Srv
connect_best env mode srvs best = elim (get_elem? srvs best) [
  | none ↦ (none, srvs)
  | some s ↦
      let (fd, t) = connect mode (env.socket_to mode s) (env.locks s) env.connect_time s in
      (reply s best fd, modify srvs best (λ _. t))
]

-- The same where the policy may give no server.
unfoldable pub connect_choice : Env → Mode → List Srv → Option ℕ → Option Conn × List Srv
connect_choice env mode srvs none = (none, srvs)
connect_choice env mode srvs (some best) = connect_best env mode srvs best

unfoldable pub round_robin_get_conn : Env → Mode → List Srv → Option Conn × List Srv
round_robin_get_conn env mode srvs =
    let (best, srvs') = round_robin_get srvs env.now in connect_best env mode srvs' best

unfoldable pub least_conn_get_conn : Env → Mode → List Srv → Option Conn × List Srv
least_conn_get_conn env mode srvs =
    let (best, srvs') = least_conn_get srvs env.now in connect_best env mode srvs' best

-- The division by zero of `uct_upstream_random_get` gives none here; the source stops.
unfoldable pub random_get_conn : Env → Mode → List Srv → Option Conn × List Srv
random_get_conn env mode srvs =
    let (chosen, srvs') = random_get srvs env.now env.later env.rand in
    connect_choice env mode srvs' chosen

unfoldable pub heuristic_get_conn : Env → Mode → List Srv → Option Conn × List Srv
heuristic_get_conn env mode srvs = connect_best env mode srvs (heuristic_get srvs)

-- The server for a client's address: that of the point of its hash, or, if that is down and may be
-- passed over, that of the next valid point. On a ring with no points the source reads memory that
-- holds none; there is no server here.
unfoldable pub ip_hash_get : (List ℕ → List ℕ) → List Srv → List RingPoint → List ℕ → Option ℕ
ip_hash_get digest srvs ring client_ip =
    elim (get_elem? ring (get_hash_point ring (md5_hash digest client_ip))) [
      | none ↦ none
      | some point ↦ elim (get_elem? srvs point.srv) [
        | none ↦ none
        | some s ↦
            if s.is_down && s.is_fallback
            then elim (next_valid_point srvs ring point) [
              | none ↦ none
              | some k ↦ elim (get_elem? ring k) [ none ↦ none | some next ↦ some next.srv ]
            ]
            else some point.srv
      ]
    ]

unfoldable pub ip_hash_get_conn :
    Env → Mode → List RingPoint → List ℕ → List Srv → Option Conn × List Srv
ip_hash_get_conn env mode ring client_ip srvs =
    connect_choice env mode srvs (ip_hash_get env.digest srvs ring client_ip)

-- `uct_upstream_get_connetion`, for a client at an address.
unfoldable pub get_connection :
    Policy → Env → Mode → List RingPoint → List ℕ → List Srv → Option Conn × List Srv
get_connection round_robin env mode ring client_ip srvs = round_robin_get_conn env mode srvs
get_connection ip_hash env mode ring client_ip srvs = ip_hash_get_conn env mode ring client_ip srvs
get_connection least_conn env mode ring client_ip srvs = least_conn_get_conn env mode srvs
get_connection random env mode ring client_ip srvs = random_get_conn env mode srvs
get_connection heuristic env mode ring client_ip srvs = heuristic_get_conn env mode srvs
get_connection unknown env mode ring client_ip srvs = (none, srvs)
