-- ===== src/Cycle/Worker.antt =====
-- The loops of `uct_worker_thread_cycle` and `uct_worker_thread_cycle_udp` (src/uct_cycle.c). A turn of
-- a loop is given by what the system answers in it; the queue of accepted connections is
-- Connection.Listen's.
pub mod Gains
pub mod Balance
use umicat.Base.{ℕ, suc, ◌+◌, List, [], ◌∷◌, Bool, Option, none, some, if◌then◌else◌}
use umicat.Base.Int.{ℤ, pos, ltb_ℤ}
use umicat.Base.Word.{add64}
use umicat.Upstream.Server.{Srv}
use umicat.Upstream.Connect.{Mode}
use umicat.Upstream.Ring.{RingPoint}
use umicat.Upstream.Select.{Policy, Conn, Env, get_connection}
use umicat.Connection.Events.{Worker, Relay, Ready, process_events, process_events_udp}

-- What a worker keeps through its loop.
pub record Settings : Type 0 where
  pub policy : Policy
  pub mode : Mode
  pub ring : List RingPoint

-- One turn: the address of the client that the pool of accepted connections gave, if any, what the
-- system answers while a server is found for it, and the sockets that are then ready.
pub record Turn : Type 0 where
  pub client : Option (List ℕ)
  pub env : Env
  pub ready : List Ready

-- With no connection to a server the client is closed and the turn is over.
unfoldable pub serve_client : Option Conn × List Srv → List Ready → Worker → Worker
serve_client (none, srvs) ready w = record w { srvs = srvs }
serve_client (some c, srvs) ready w =
    process_events ready (record w { srvs = srvs; connection_n = add64 w.connection_n 1 })

unfoldable pub worker_turn : Settings → Turn → Worker → Worker
worker_turn k t w = elim t.client [
  | none ↦ process_events t.ready w
  | some ip ↦ serve_client (get_connection k.policy t.env k.mode k.ring ip w.srvs) t.ready w
]

unfoldable pub worker_thread_cycle : Settings → List Turn → Worker → Worker
worker_thread_cycle k [] w = w
worker_thread_cycle k (t ∷ ts) w = worker_thread_cycle k ts (worker_turn k t w)

-- One turn over UDP: the address of the packet that was received, the descriptor of the socket back to
-- the client, what the system answers, and the sockets that are then ready.
pub record Packet : Type 0 where
  pub client_ip : List ℕ
  pub backfd : ℤ
  pub env : Env
  pub ready : List (ℕ × Relay)

-- The thread runs on, has returned, or reads a null pointer.
pub data Thread : Type 0 where
  running : Worker → Thread
  returned : Worker → Thread
  null_read : Worker → Thread

-- `up_conn->fd` is read whatever `uct_upstream_get_connetion` returned, and `wk_cycle->connection_n`
-- is left alone.
unfoldable pub serve_udp : Option Conn × List Srv → List (ℕ × Relay) → Worker → Thread
serve_udp (none, srvs) ready w = null_read (record w { srvs = srvs })
serve_udp (some c, srvs) ready w = running (process_events_udp ready (record w { srvs = srvs }))

unfoldable pub worker_turn_udp : Settings → Packet → Worker → Thread
worker_turn_udp k p w =
    if ltb_ℤ p.backfd (pos 0)
    then returned w
    else serve_udp (get_connection k.policy p.env k.mode k.ring p.client_ip w.srvs) p.ready w

unfoldable pub worker_thread_cycle_udp : Settings → List Packet → Worker → Thread
worker_thread_cycle_udp k [] w = running w
worker_thread_cycle_udp k (p ∷ ps) w = elim (worker_turn_udp k p w) [
  | running w' ↦ worker_thread_cycle_udp k ps w'
  | returned w' ↦ returned w'
  | null_read w' ↦ null_read w'
]
