-- ===== src/Connection/Events/Account.antt =====
-- The counters that the event loops keep: traffic, and the connections of servers and workers.
use umicat.Base.{
  ℕ, zero, suc, ◌+◌, ◌*◌, ◌%◌, ◌^◌, ◌<◌, ◌≡◌, refl, ap, ◌∙◌, List, [], ◌∷◌, arith, length, leb,
  ◌==◌, true, false, Bool-cases, inl, inr,
}
use umicat.Base.Int.{ℤ, pos, leb_ℤ}
use umicat.Base.Word.{add64, sub64, sub64-add64}
use umicat.Upstream.Server.{Srv, modify, length-modify}
use umicat.Upstream.Connect.{tcp, udp, on_success, connect}
use umicat.Upstream.Connect.Weight.Success.{on_success_fields}
use umicat.Connection.Read.{Errno}
use umicat.Connection.Events.{
  Relay, done, out_of_fuel, overrun, stuck, account, release, Worker, would_block, disconnect,
  finish, on_client, on_upstream, Ready, client, upstream, on_ready, process_events,
  process_events_udp,
}

-- Bytes, one or more, that arrive within the window of a server are counted twice, if the count
-- does not wrap.
pub account_counts_twice :
    (now n : ℕ) (s : Srv)
    → 0 < n
    → s.traffic + 2 * n < 2 ^ 64
    → sub64 now s.last_send_time < s.traffic_window
    → (account now n s).traffic ≡ s.traffic + 2 * n
unfolding account add64
account_counts_twice now n s p h early =
    let nz : (n == 0) ≡ false = ground arith in
    let f : leb s.traffic_window (sub64 now s.last_send_time) ≡ false = ground arith in
    rw (nz, f) (omega arith)

-- The connections of all servers.
abbrev pub connections : List Srv → ℕ
connections [] = 0
connections (s ∷ ss) = s.connection_n + connections ss

-- The servers have as many connections as the worker and, in number, the others, up to wrapping.
abbrev pub IsBalanced : ℕ → Worker → Type 0
IsBalanced others w = connections w.srvs % 2 ^ 64 ≡ (w.connection_n + others) % 2 ^ 64

-- The event is of a server of the array.
abbrev pub IsOf : ℕ → Ready → Type 0
IsOf n (client i now r) = i < n
IsOf n (upstream i r) = i < n

abbrev pub AllOf : ℕ → List Ready → Type 0
AllOf n [] = Unit {0}
AllOf n (r ∷ rs) = IsOf n r × AllOf n rs

account_keeps : (now n : ℕ) (s : Srv) → (account now n s).connection_n ≡ s.connection_n
unfolding account
account_keeps now n s = elim (Bool-cases (n == 0)) [
  | inl e ↦ rw e refl
  | inr e ↦ elim (Bool-cases (leb s.traffic_window (sub64 now s.last_send_time))) [
    | inl f ↦ rw (e, f) refl
    | inr f ↦ rw (e, f) refl
  ]
]

connections-account :
    (ss : List Srv) (i now n : ℕ) → connections (modify ss i (account now n)) ≡ connections ss
unfolding modify
connections-account [] i now n = refl
connections-account (s ∷ ss) zero now n = ap (λ m. m + connections ss) (account_keeps now n s)
connections-account (s ∷ ss) (suc i) now n =
    ap (λ m. s.connection_n + m) (connections-account ss i now n)

connections-release :
    (ss : List Srv) (i : ℕ)
    → i < length ss
    → (connections (modify ss i release) + 1) % 2 ^ 64 ≡ connections ss % 2 ^ 64
unfolding modify release sub64
connections-release [] i h = absurd (omega arith)
connections-release (s ∷ ss) zero h = omega arith
connections-release (s ∷ ss) (suc i) h = omega (arith, connections-release ss i (omega arith))

finish-IsBalanced :
    (others i : ℕ) (e : Errno) (w : Worker)
    → i < length w.srvs
    → IsBalanced others w
    → IsBalanced others (finish i e w)
unfolding finish disconnect sub64
finish-IsBalanced others i e w h b = elim (Bool-cases (would_block e)) [
  | inl t ↦ rw t b
  | inr f ↦ rw f (omega (arith, connections-release w.srvs i h, b))
]

length-finish : (i : ℕ) (e : Errno) (w : Worker) → length (finish i e w).srvs ≡ length w.srvs
unfolding finish disconnect
length-finish i e w = elim (Bool-cases (would_block e)) [
  | inl t ↦ rw t refl
  | inr f ↦ rw f (length-modify w.srvs i release)
]

on_ready-IsBalanced :
    (others : ℕ) (r : Ready) (w : Worker)
    → IsOf (length w.srvs) r
    → IsBalanced others w
    → IsBalanced others (on_ready r w)
unfolding on_ready on_client on_upstream
on_ready-IsBalanced others (client i now (done sent total e rest)) w h b =
    finish-IsBalanced others i e _ (omega (arith, length-modify w.srvs i (account now total)))
      (ap (λ m. m % 2 ^ 64) (connections-account w.srvs i now total) ∙ b)
on_ready-IsBalanced others (client i now out_of_fuel) w h b = b
on_ready-IsBalanced others (client i now (overrun n)) w h b = b
on_ready-IsBalanced others (client i now stuck) w h b = b
on_ready-IsBalanced others (upstream i (done sent total e rest)) w h b =
    finish-IsBalanced others i e w h b
on_ready-IsBalanced others (upstream i out_of_fuel) w h b = b
on_ready-IsBalanced others (upstream i (overrun n)) w h b = b
on_ready-IsBalanced others (upstream i stuck) w h b = b

length-on_ready : (r : Ready) (w : Worker) → length (on_ready r w).srvs ≡ length w.srvs
unfolding on_ready on_client on_upstream
length-on_ready (client i now (done sent total e rest)) w =
    length-finish i e _ ∙ length-modify w.srvs i (account now total)
length-on_ready (client i now out_of_fuel) w = refl
length-on_ready (client i now (overrun n)) w = refl
length-on_ready (client i now stuck) w = refl
length-on_ready (upstream i (done sent total e rest)) w = length-finish i e w
length-on_ready (upstream i out_of_fuel) w = refl
length-on_ready (upstream i (overrun n)) w = refl
length-on_ready (upstream i stuck) w = refl

pub length-process_events :
    (rs : List Ready) (w : Worker) → length (process_events rs w).srvs ≡ length w.srvs
unfolding process_events
length-process_events [] w = refl
length-process_events (r ∷ rs) w = length-process_events rs (on_ready r w) ∙ length-on_ready r w

-- Whatever the sockets deliver and however they end, a round of events takes as many connections
-- from the servers as from the worker: if the two counts agreed, up to wrapping and the connections
-- of other workers, they still do. Each event must be of a server of the array.
pub process_events-IsBalanced :
    (others : ℕ) (rs : List Ready) (w : Worker)
    → AllOf (length w.srvs) rs
    → IsBalanced others w
    → IsBalanced others (process_events rs w)
unfolding process_events
process_events-IsBalanced others [] w h b = b
process_events-IsBalanced others (r ∷ rs) w h b =
    process_events-IsBalanced others rs (on_ready r w) (rw (length-on_ready r w) h.1)
      (on_ready-IsBalanced others r w h.0 b)

abbrev pub AllOfUdp : ℕ → List (ℕ × Relay) → Type 0
AllOfUdp n [] = Unit {0}
AllOfUdp n ((i, r) ∷ rs) = (i < n) × AllOfUdp n rs

pub length-process_events_udp :
    (rs : List (ℕ × Relay)) (w : Worker) → length (process_events_udp rs w).srvs ≡ length w.srvs
unfolding process_events_udp on_ready
length-process_events_udp [] w = refl
length-process_events_udp ((i, r) ∷ rs) w =
    length-process_events_udp rs (on_upstream i r w) ∙ length-on_ready (upstream i r) w

-- The same over UDP: a round of events of servers of the array keeps the two counts in agreement.
pub process_events_udp-IsBalanced :
    (others : ℕ) (rs : List (ℕ × Relay)) (w : Worker)
    → AllOfUdp (length w.srvs) rs
    → IsBalanced others w
    → IsBalanced others (process_events_udp rs w)
unfolding process_events_udp on_ready
process_events_udp-IsBalanced others [] w h b = b
process_events_udp-IsBalanced others ((i, r) ∷ rs) w h b =
    process_events_udp-IsBalanced others rs (on_upstream i r w)
      (rw (length-on_ready (upstream i r) w) h.1)
      (on_ready-IsBalanced others (upstream i r) w h.0 b)

-- A connection over TCP or UDP that was opened, with a descriptor above 0 and the lock taken, and
-- then ends gives the server's count back, where the count is a machine word.
pub release-connect :
    (fd : ℤ) (now : ℕ) (s : Srv)
    → leb_ℤ fd (pos 0) ≡ false
    → s.connection_n < 2 ^ 64
    → ((release (connect tcp fd true now s).1).connection_n ≡ s.connection_n)
      × ((release (connect udp fd true now s).1).connection_n ≡ s.connection_n)
unfolding connect release
release-connect fd now s h small =
    let back : sub64 (on_success s).connection_n 1 ≡ s.connection_n =
      ap (λ c. sub64 c 1) (on_success_fields s).2 ∙ sub64-add64 s.connection_n small in
    rw h (back, back)
