-- ===== src/Upstream/LeastConn.antt =====
-- `uct_upstream_least_conn_get` (src/uct_upstream.c). The semaphore makes the body one step.
use umicat.Base.{ℕ, ◌≤◌, ◌<◌, ◌≡◌, false, List, some, get_elem?}
use umicat.Base.Word.{add64, max_int}
use umicat.Upstream.Server.{Srv, skipped, modify, get_elem?-modify_self}
use umicat.Upstream.Scan.{least, least_lem}

-- `min` is signed, but only ever holds a number below 2 ^ 63, so each comparison is one of numbers.
unfoldable pub least_conn_get : List Srv → ℕ → ℕ × List Srv
least_conn_get srvs now =
    let best = least (skipped now) (λ s. s.connection_n) 0 0 max_int srvs in
    (best, modify srvs best (λ s. record s { connection_n = add64 s.connection_n 1 }))

-- If a server `s` may be chosen and has fewer than `max_int` connections, then a server is chosen
-- that may be, that has at most as many connections as `s`, and whose connections are counted up.
pub least_conn_get_least :
    (ss : List Srv) (now i : ℕ) (s : Srv)
    → get_elem? ss i ≡ some s
    → skipped now s ≡ false
    → s.connection_n < max_int
    → let (best, after) = least_conn_get ss now in
      (t : Srv) × (get_elem? ss best ≡ some t)
      × (skipped now t ≡ false)
      × (t.connection_n ≤ s.connection_n)
      × (get_elem? after best ≡ some (record t { connection_n = add64 t.connection_n 1 }))
unfolding least_conn_get
least_conn_get_least ss now i s g o lt =
    let (t, h, p, le) = least_lem (skipped now) (λ s. s.connection_n) max_int i ss s g o lt in
    (t, h, p, le, get_elem?-modify_self ss _ t _ h)
