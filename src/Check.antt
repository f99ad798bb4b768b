-- ===== src/Check.antt =====
-- uct_check.c: the checker thread, which tries to connect to each server at an interval and marks
-- it down or up by the outcomes.
pub mod Threshold
pub mod Cycle
use umicat.Base.{
  ℕ, Bool, true, false, ◌&&◌, not, List, [], ◌∷◌, ◌++◌, ltb, leb, ◌==◌, if◌then◌else◌,
}
use umicat.Base.Int.{ℤ, pos, negsuc, eqb_ℤ, ltb_ℤ, ◌+ℤ◌}
use umicat.Base.Word.{add64, sub64}
use umicat.Upstream.Server.{Srv, modify}

-- `UCT_CHECK_TCP_CONNECTED`, `UCT_CHECK_TCP_DISCONNECTED`.
abbrev pub connected : ℤ
connected = pos 0

abbrev pub disconnected : ℤ
disconnected = negsuc 1

-- A server that is down comes up once enough checks have succeeded.
unfoldable pub rise : Srv → Srv
rise s =
    if s.is_down && leb s.check_rise s.check_successes
    then record s {
      effective_weight = s.effective_weight +ℤ pos 1;
      is_down = false;
      fails = 0;
      check_successes = 0;
      check_fails = 0;
    }
    else s

-- A server that is up goes down once enough checks have failed.
unfoldable pub fall : Srv → Srv
fall s =
    if not s.is_down && leb s.check_fall s.check_fails
    then record s {
      effective_weight = pos 0;
      is_down = true;
      fails = 1;
      check_fails = 0;
      check_successes = 0;
    }
    else s

-- What a check that succeeds and one that fails do to the server.
unfoldable pub check_success : Srv → Srv
check_success s = rise (record s { check_successes = add64 s.check_successes 1 })

unfoldable pub check_fail : Srv → Srv
check_fail s = fall (record s { check_fails = add64 s.check_fails 1 })

-- One address of the list that getaddrinfo gave, and what became of a connection to it: no socket,
-- or the socket `fd` and what `uct_connect_nonblocking` returned for it.
pub data Attempt : Type 0 where
  no_socket : Attempt
  in_progress : ℤ → Attempt
  succeeded : ℤ → Attempt
  refused : ℤ → Attempt

-- `uct_check_tcp`: its result, and the descriptors that it closed. (`UCT_CHECK_TCP_CONNECTING` is
-- never returned: the descriptor stands for it.)
unfoldable pub check_tcp : List Attempt → ℤ × List ℤ
check_tcp [] = (disconnected, [])
check_tcp (no_socket ∷ rest) = check_tcp rest
check_tcp (in_progress fd ∷ rest) = (fd, [])
check_tcp (succeeded fd ∷ rest) = (connected, fd ∷ [])
check_tcp (refused fd ∷ rest) = (disconnected, fd ∷ [])

-- `struct uct_check_data` of a connection that is in progress; the server is an index.
pub record CheckData : Type 0 where
  pub srv : ℕ
  pub fd : ℤ
  pub start_time : ℕ

-- What the loop of `uct_check_tcp_cycle` goes by: the servers, and the connections in progress that
-- its epoll set holds.
pub record Checker : Type 0 where
  pub srvs : List Srv
  pub pending : List CheckData

-- The set-up before the loop: the counters are cleared, and no connection is in progress.
clear : List Srv → List Srv
clear [] = []
clear (s ∷ ss) = record s { check_fails = 0; check_successes = 0 } ∷ clear ss

unfoldable pub start_checks : List Srv → Checker
unfolding clear
start_checks srvs = record { srvs = clear srvs; pending = [] }

-- A timer of server `i` went off, and `uct_check_tcp` met these addresses.
unfoldable pub on_timer : ℕ → List Attempt → ℕ → Checker → Checker
on_timer i attempts now c =
    let (ret, closed) = check_tcp attempts in
    if eqb_ℤ ret connected
    then record c { srvs = modify c.srvs i check_success }
    else if eqb_ℤ ret disconnected
    then record c { srvs = modify c.srvs i check_fail }
    else if ltb_ℤ (pos 0) ret
    then record c { pending = record { srv = i; fd = ret; start_time = now } ∷ c.pending }
    else c

-- The entry of a descriptor leaves the set, as its socket is closed.
unfoldable pub forget : ℤ → List CheckData → List CheckData
forget fd [] = []
forget fd (d ∷ ds) = if eqb_ℤ d.fd fd then forget fd ds else d ∷ forget fd ds

-- A connection in progress reported: `err` is its `SO_ERROR`.
unfoldable pub on_connect : CheckData → ℤ → ℕ → Checker → Checker
on_connect d err now c = record {
  srvs =
      (if eqb_ℤ err (pos 0)
        then modify c.srvs d.srv (λ s.
          if ltb (sub64 now d.start_time) s.check_timeout then check_success s else check_fail s)
        else modify c.srvs d.srv check_fail);
  pending = forget d.fd c.pending;
}

-- What `epoll_wait` hands to the loop, one at a time, with what the system calls then answer.
pub data Event : Type 0 where
  timer : ℕ → List Attempt → ℕ → Event
  connection : CheckData → ℤ → ℕ → Event

unfoldable pub step : Checker → Event → Checker
step c (timer i attempts now) = on_timer i attempts now c
step c (connection d err now) = on_connect d err now c

-- `uct_check_tcp_cycle` over a sequence of events.
unfoldable pub cycle : Checker → List Event → Checker
cycle c [] = c
cycle c (e ∷ es) = cycle (step c e) es
