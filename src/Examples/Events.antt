-- ===== src/Examples/Events.antt =====
-- Reads, relays and the counters of the event loops on concrete arrivals.
use umicat.Base.{◌≡◌, refl, List, [], ◌∷◌, arith}
use umicat.Base.Int.{pos}
use umicat.Base.Word.{add64, sub64, to_u64}
use umicat.Connection.Read.{
  unset, intr, again, failed, Arrival, chunk, error, readn, Reads, readn-Reads,
}
use umicat.Sockets.Write.{Write, took, refused, writen}
use umicat.Connection.Events.{
  done, stuck, relay, Worker, Ready, client, upstream, on_ready, on_client, on_upstream, finish,
  disconnect, process_events,
}
use umicat.Connection.Events.Forward.{Relays, relay-Relays}
use umicat.Examples.Data.{server, busy_server}

abbrev arrivals : List Arrival
arrivals =
    chunk (1 ∷ 2 ∷ 3 ∷ [])
    ∷ error intr
    ∷ chunk (4 ∷ [])
    ∷ error again
    ∷ chunk (5 ∷ [])
    ∷ chunk []
    ∷ []

readn_test : readn 2 2 unset arrivals ≡ record {
  ret = pos 2;
  buf = 1 ∷ 2 ∷ [];
  errno = unset;
  rest =
      chunk (3 ∷ []) ∷ error intr ∷ chunk (4 ∷ []) ∷ error again ∷ chunk (5 ∷ []) ∷ chunk [] ∷ [];
}
unfolding readn
readn_test = refl

readn-Reads_example : Reads 8 8 arrivals (readn 8 8 unset arrivals)
readn-Reads_example = readn-Reads 8 8 unset arrivals (omega arith) tt

-- The other socket takes two bytes, then one, and then answers with EAGAIN twice.
abbrev answers : List Write
answers = took 1 ∷ took 0 ∷ refused again ∷ refused again ∷ took 7 ∷ took 0 ∷ took 0 ∷ []

relay_test : relay 3 unset arrivals answers ≡ done (1 ∷ 2 ∷ 3 ∷ 4 ∷ 5 ∷ []) 5 unset (chunk [] ∷ [])
unfolding relay writen readn to_u64 add64
relay_test = refl

-- A write that fails loses bytes, which are counted all the same.
relay-lost_test :
    relay 3 unset arrivals (took 1 ∷ refused failed ∷ took 7 ∷ [])
    ≡ done (1 ∷ 2 ∷ 5 ∷ []) 5 unset (chunk [] ∷ [])
unfolding relay writen readn to_u64 add64
relay-lost_test = refl

relay-stuck_test : relay 3 unset arrivals (took 1 ∷ []) ≡ stuck
unfolding relay writen readn to_u64 add64
relay-stuck_test = refl

relay-Relays_example : Relays arrivals answers (relay 6 unset arrivals answers)
relay-Relays_example =
    relay-Relays 6 unset arrivals answers tt (omega arith) (omega arith) (omega arith)

-- A worker with all four connections of the busy server.
abbrev worker : Worker
worker = record { srvs = busy_server ∷ server 1 ∷ []; connection_n = 4 }

abbrev ready : List Ready
ready = client 0 30 (done (1 ∷ []) 1 unset []) ∷ upstream 0 (done [] 0 again []) ∷ []

process_events_test : (process_events ready worker).connection_n ≡ 3
unfolding process_events on_ready on_client on_upstream finish disconnect sub64
process_events_test = refl
