-- ===== src/Upstream/Connect.antt =====
-- `uct_upstream_connect` (src/uct_upstream.c): opening a connection to a server, and the passive
-- health check that goes by its outcome.
pub mod Weight
pub mod Passive
use umicat.Base.{ℕ, ◌+◌, ◌/◌, Bool, true, false, ◌&&◌, not, ltb, leb, ◌==◌, if◌then◌else◌}
use umicat.Base.Int.{ℤ, pos, negsuc, ltb_ℤ, leb_ℤ, ◌+ℤ◌}
use umicat.Base.Word.{add64, sub64, to_u64, to_i64}
use umicat.Upstream.Server.{Srv}

-- `UCT_TCP_MODE`, `UCT_UDP_MODE` and `UCT_HTTP_MODE`.
pub data Mode : Type 0 where
  tcp udp http : Mode

-- `effective_weight -= weight / max_fails`. `max_fails` is unsigned, so both operations are.
unfoldable pub penalty : Srv → ℤ
penalty s =
    if s.max_fails == 0
    then s.effective_weight
    else to_i64 (sub64 (to_u64 s.effective_weight) (to_u64 s.weight / s.max_fails))

unfoldable pub clamp : ℤ → ℤ
clamp a = if ltb_ℤ a (pos 0) then pos 0 else a

-- The failure is counted: a first one if the last is more than `fail_timeout` ago.
unfoldable pub count_fail : ℕ → Srv → Srv
count_fail now s =
    if ltb s.fail_timeout (sub64 now s.last_fail_time)
    then record s { last_fail_time = now; fails = 1 }
    else record s { fails = add64 s.fails 1 }

-- `fails && fails >= max_fails && now - last_fail_time <= fail_timeout`.
unfoldable pub must_go_down : ℕ → Srv → Bool
must_go_down now s =
    not (s.fails == 0)
    && (leb s.max_fails s.fails && leb (sub64 now s.last_fail_time) s.fail_timeout)

unfoldable pub judge : ℕ → Srv → Srv
judge now s =
    if must_go_down now s
    then record s { is_down = true; effective_weight = pos 0; last_fail_time = now }
    else s

-- The critical section after a failed connection.
unfoldable pub on_failure : ℕ → Srv → Srv
on_failure now s = judge now (count_fail now (record s { effective_weight = clamp (penalty s) }))

unfoldable pub bring_up : Srv → Srv
bring_up s = if s.is_down then record s { is_down = false; fails = 0 } else s

unfoldable pub regain : Srv → Srv
regain s =
    if ltb_ℤ s.effective_weight s.weight
    then record s { effective_weight = s.effective_weight +ℤ pos 1 }
    else s

-- The critical section after a connection.
unfoldable pub on_success : Srv → Srv
on_success s = let r = regain (bring_up s) in record r { connection_n = add64 r.connection_n 1 }

-- `fd` is what the call that opens a socket of the mode returned, and `locked` says whether the
-- spin lock was taken. The result is the descriptor or -1.
unfoldable pub connect : Mode → ℤ → Bool → ℕ → Srv → ℤ × Srv
connect http fd locked now s = (negsuc 0, s)
connect mode fd locked now s =
    if leb_ℤ fd (pos 0)
    then (negsuc 0, (if locked then on_failure now s else s))
    else if locked
    then (fd, on_success s)
    else (negsuc 0, s)
