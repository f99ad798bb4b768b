-- ===== src/Cycle/Worker/Balance.antt =====
-- The connections that the worker threads of src/uct_cycle.c count, and those that their servers count.
use umicat.Base.{
  ℕ, ◌+◌, ◌≡◌, ◌≢◌, refl, sym, ◌∙◌, ◌⊎◌, inl, inr, List, [], ◌∷◌, Option, none, some, arith, length,
  Option-cases, Bool-cases, subst,
}
use umicat.Base.Int.{pos, ltb_ℤ}
use umicat.Base.Word.{add64}
use umicat.Upstream.Server.{Srv}
use umicat.Upstream.Select.{least_conn, Conn, get_connection}
use umicat.Connection.Events.{Worker, Ready, Relay}
use umicat.Connection.Events.Account.{
  IsBalanced, AllOf, AllOfUdp, process_events-IsBalanced, process_events_udp-IsBalanced,
  length-process_events, length-process_events_udp,
}
use umicat.Cycle.Worker.{
  Settings, Turn, serve_client, worker_turn, worker_thread_cycle, Packet, Thread, running, returned,
  null_read, serve_udp, worker_turn_udp, worker_thread_cycle_udp,
}
use umicat.Cycle.Worker.Gains.{Gains, opened, get_connection-Gains}

-- The ready sockets of every turn are of servers of the array.
abbrev pub AllTurns : ℕ → List Turn → Type 0
AllTurns n [] = Unit {0}
AllTurns n (t ∷ ts) = AllOf n t.ready × AllTurns n ts

module _ (others : ℕ) where
  serve_client-IsBalanced :
      (found : Option Conn × List Srv) (ready : List Ready) (w : Worker)
      → Gains (opened found.0) w.srvs found.1
      → AllOf (length w.srvs) ready
      → IsBalanced others w
      → IsBalanced others (serve_client found ready w)
        × (length (serve_client found ready w).srvs ≡ length w.srvs)
  unfolding serve_client
  serve_client-IsBalanced (none, srvs) ready w g a b = (omega (arith, g.counted, b), g.as_many)
  serve_client-IsBalanced (some c, srvs) ready w g a b =
      let w' : Worker = record w { srvs = srvs; connection_n = add64 w.connection_n 1 } in
      let b' : IsBalanced others w' = unfold add64 in omega (arith, g.counted, b) in
      (
        process_events-IsBalanced others ready w' (subst (λ n. AllOf n ready) (sym g.as_many) a) b',
        length-process_events ready w' ∙ g.as_many,
      )

  worker_turn-IsBalanced :
      (k : Settings) (t : Turn) (w : Worker)
      → k.policy ≢ least_conn
      → AllOf (length w.srvs) t.ready
      → IsBalanced others w
      → IsBalanced others (worker_turn k t w) × (length (worker_turn k t w).srvs ≡ length w.srvs)
  unfolding worker_turn
  worker_turn-IsBalanced k t w p a b = elim (Option-cases t.client) [
    | inl n ↦
        rw (n, worker_turn)
          (process_events-IsBalanced others t.ready w a b, length-process_events t.ready w)
    | inr (ip, e) ↦
        rw (e, worker_turn)
          (serve_client-IsBalanced (get_connection k.policy t.env k.mode k.ring ip w.srvs) t.ready w
            (get_connection-Gains k.policy t.env k.mode k.ring ip w.srvs p) a b)
  ]

-- A worker over TCP, through any turns: if its policy is not `least_conn` and the ready sockets are of
-- servers of the array, then as many connections as it counts itself, and those of the others, are
-- counted by the servers, up to wrapping, where that was so at the start. It holds whether a client
-- waits in a turn or not, and whether a server is found for it or not.
pub worker_thread_cycle-IsBalanced :
    (others : ℕ) (k : Settings) (ts : List Turn) (w : Worker)
    → k.policy ≢ least_conn
    → AllTurns (length w.srvs) ts
    → IsBalanced others w
    → IsBalanced others (worker_thread_cycle k ts w)
unfolding worker_thread_cycle
worker_thread_cycle-IsBalanced others k [] w p a b = b
worker_thread_cycle-IsBalanced others k (t ∷ ts) w p a b =
    let (balanced, len) = worker_turn-IsBalanced others k t w p a.0 b in
    worker_thread_cycle-IsBalanced others k ts (worker_turn k t w) p
      (subst (λ n. AllTurns n ts) (sym len) a.1) balanced

abbrev pub AllPackets : ℕ → List Packet → Type 0
AllPackets n [] = Unit {0}
AllPackets n (p ∷ ps) = AllOfUdp n p.ready × AllPackets n ps

Thread-cases :
    (t : Thread)
    → ((v : Worker) × (t ≡ running v))
      ⊎ (((v : Worker) × (t ≡ returned v)) ⊎ ((v : Worker) × (t ≡ null_read v)))
Thread-cases (running v) = inl (v, refl)
Thread-cases (returned v) = inr (inl (v, refl))
Thread-cases (null_read v) = inr (inr (v, refl))

running-injective : {v w : Worker} → running v ≡ running w → v ≡ w
running-injective h = cc

module _ (others : ℕ) where
  serve_udp-IsBalanced :
      (found : Option Conn × List Srv) (ready : List (ℕ × Relay)) (w w' : Worker)
      → Gains (opened found.0) w.srvs found.1
      → AllOfUdp (length w.srvs) ready
      → IsBalanced others w
      → serve_udp found ready w ≡ running w'
      → IsBalanced (others + 1) w' × (length w'.srvs ≡ length w.srvs)
  unfolding serve_udp
  serve_udp-IsBalanced (none, srvs) ready w w' g a b e = cc
  serve_udp-IsBalanced (some c, srvs) ready w w' g a b e =
      let w1 : Worker = record w { srvs = srvs } in
      let b1 : IsBalanced (others + 1) w1 = omega (arith, g.counted, b) in
      subst (λ (v : Worker). IsBalanced (others + 1) v × (length v.srvs ≡ length w.srvs))
        (running-injective e)
        (
          process_events_udp-IsBalanced (others + 1) ready w1
              (subst (λ n. AllOfUdp n ready) (sym g.as_many) a) b1,
          length-process_events_udp ready w1 ∙ g.as_many,
        )

  worker_turn_udp-IsBalanced :
      (k : Settings) (p : Packet) (w w' : Worker)
      → k.policy ≢ least_conn
      → AllOfUdp (length w.srvs) p.ready
      → IsBalanced others w
      → worker_turn_udp k p w ≡ running w'
      → IsBalanced (others + 1) w' × (length w'.srvs ≡ length w.srvs)
  unfolding worker_turn_udp
  worker_turn_udp-IsBalanced k p w w' h a b e = elim (Bool-cases (ltb_ℤ p.backfd (pos 0))) [
    | inl closed ↦ let stop = rw closed at e in cc
    | inr open_fd ↦
        serve_udp-IsBalanced (get_connection k.policy p.env k.mode k.ring p.client_ip w.srvs)
          p.ready w w' (get_connection-Gains k.policy p.env k.mode k.ring p.client_ip w.srvs h) a b
          (rw open_fd at e)
  ]

-- A worker over UDP, through any packets after which it still runs: its own count falls behind those
-- of the servers by one for each packet, since it counts the connections that end and not those that
-- are opened. This is so under every policy but `least_conn`, and if the ready sockets are of servers
-- of the array.
pub worker_thread_cycle_udp-falls_behind :
    (others : ℕ) (k : Settings) (ps : List Packet) (w w' : Worker)
    → k.policy ≢ least_conn
    → AllPackets (length w.srvs) ps
    → IsBalanced others w
    → worker_thread_cycle_udp k ps w ≡ running w'
    → IsBalanced (others + length ps) w'
unfolding worker_thread_cycle_udp
worker_thread_cycle_udp-falls_behind others k [] w w' h a b e =
    subst (IsBalanced (others + 0)) (running-injective e) (omega (arith, b))
worker_thread_cycle_udp-falls_behind others k (p ∷ ps) w w' h a b e =
    elim (Thread-cases (worker_turn_udp k p w)) [
      | inl (v, q) ↦
          let (balanced, len) = worker_turn_udp-IsBalanced others k p w v h a.0 b q in
          let last =
            worker_thread_cycle_udp-falls_behind (others + 1) k ps v w' h
              (subst (λ n. AllPackets n ps) (sym len) a.1) balanced
              (rw (q, worker_thread_cycle_udp) at e) in
          omega (arith, last)
      | inr (inl (v, q)) ↦ let stop = rw (q, worker_thread_cycle_udp) at e in cc
      | inr (inr (v, q)) ↦ let stop = rw (q, worker_thread_cycle_udp) at e in cc
    ]
