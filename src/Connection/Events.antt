-- ===== src/Connection/Events.antt =====
-- The event loops of uct_connection.c: what a ready socket makes of its proxied connection.
pub mod Forward
pub mod Account
use umicat.Base.{
  ℕ, zero, suc, ◌+◌, ◌<◌, Bool, List, [], ◌∷◌, ◌++◌, length, leb, ltb, ◌==◌, if◌then◌else◌, Option,
  none, some,
}
use umicat.Base.Int.{ℤ}
use umicat.Base.Word.{add64, sub64, to_u64}
use umicat.Upstream.Server.{Srv, modify}
use umicat.Sockets.Write.{Write, Writing, writen}
use umicat.Connection.Read.{Errno, unset, intr, again, failed, Arrival, Reading, readn}

-- `UCT_BUF_SIZE`.
abbrev pub buf_size : ℕ
buf_size = 65535

-- What the loop that relays one socket to the other comes to. It ended: the bytes that were sent, the
-- traffic that was counted, the errno and what the socket still has to deliver. Or the fuel ran out,
-- a write was asked to send more bytes than the buffer holds, or a write waits for ever.
pub data Relay : Type 0 where
  done : List ℕ → ℕ → Errno → List Arrival → Relay
  out_of_fuel : Relay
  overrun : ℕ → Relay
  stuck : Relay

-- The bytes and the traffic of one round come before those of the rest.
relayed : List ℕ → ℕ → Relay → Relay
relayed bytes traffic (done sent total e rest) = done (bytes ++ sent) (add64 traffic total) e rest
relayed bytes traffic out_of_fuel = out_of_fuel
relayed bytes traffic (overrun n) = overrun n
relayed bytes traffic stuck = stuck

-- `while ((n = uct_readn(...)) > 0)`: `n` is unsigned, so that -1 is a large number. What
-- `uct_writen` returns is not looked at: `n` is counted also if it failed. `errno` counts only as the
-- last read left it, which sets it to 0 first. The last argument is how the other socket answers.
unfoldable pub relay : ℕ → Errno → List Arrival → List Write → Relay
unfolding relayed
relay zero e arrivals answers = out_of_fuel
relay (suc fuel) e arrivals answers =
    let r = readn buf_size buf_size e arrivals in
    let n = to_u64 r.ret in
    let next : Relay = elim (writen n answers r.buf) [
      | none ↦ stuck
      | some w ↦ relayed w.sent n (relay fuel r.errno r.rest w.rest)
    ] in
    if n == 0 then done [] 0 r.errno r.rest else if leb n buf_size then next else overrun n

-- The accounting of `conn_traffic` bytes that went to a server.
unfoldable pub account : ℕ → ℕ → Srv → Srv
account now conn_traffic s =
    let t : Srv = record s { traffic = add64 s.traffic conn_traffic } in
    if conn_traffic == 0
    then s
    else if leb t.traffic_window (sub64 now t.last_send_time)
    then record t { traffic = conn_traffic; last_send_time = now }
    else record t { traffic = add64 t.traffic conn_traffic }

-- A disconnection gives back the server's connection.
unfoldable pub release : Srv → Srv
release s = record s { connection_n = sub64 s.connection_n 1 }

-- A worker: the servers, which it shares, and the number of its connections.
pub record Worker : Type 0 where
  pub srvs : List Srv
  pub connection_n : ℕ

-- `errno == EAGAIN || errno == EWOULDBLOCK`.
abbrev pub would_block : Errno → Bool
would_block again = Bool.true
would_block unset = Bool.false
would_block intr = Bool.false
would_block failed = Bool.false

-- The end of a connection to server `i`, on either side.
unfoldable pub disconnect : ℕ → Worker → Worker
disconnect i w = record w { srvs = modify w.srvs i release; connection_n = sub64 w.connection_n 1 }

unfoldable pub finish : ℕ → Errno → Worker → Worker
finish i e w = if would_block e then w else disconnect i w

-- An event of a client's socket, relayed to server `i` as given.
unfoldable pub on_client : ℕ → ℕ → Relay → Worker → Worker
on_client i now (done sent total e rest) w =
    finish i e (record w { srvs = modify w.srvs i (account now total) })
on_client i now out_of_fuel w = w
on_client i now (overrun n) w = w
on_client i now stuck w = w

-- An event of an upstream's socket, over TCP and over UDP. No traffic is counted.
unfoldable pub on_upstream : ℕ → Relay → Worker → Worker
on_upstream i (done sent total e rest) w = finish i e w
on_upstream i out_of_fuel w = w
on_upstream i (overrun n) w = w
on_upstream i stuck w = w

-- A ready socket of a connection to a server: the client's, at some time, or the upstream's.
pub data Ready : Type 0 where
  client : ℕ → ℕ → Relay → Ready
  upstream : ℕ → Relay → Ready

unfoldable pub on_ready : Ready → Worker → Worker
on_ready (client i now r) w = on_client i now r w
on_ready (upstream i r) w = on_upstream i r w

-- The sockets that epoll reports are served one after the other.
unfoldable pub process_events : List Ready → Worker → Worker
process_events [] w = w
process_events (r ∷ rs) w = process_events rs (on_ready r w)

-- The loop over UDP, where only upstreams' sockets are watched.
unfoldable pub process_events_udp : List (ℕ × Relay) → Worker → Worker
process_events_udp [] w = w
process_events_udp ((i, r) ∷ rs) w = process_events_udp rs (on_upstream i r w)
