-- ===== src/Upstream/Heuristic.antt =====
-- The choice of `uct_upstream_heuristic_get_conn` (src/uct_upstream.c): the server with the least
-- traffic. It passes over every server that is down and may be, however long ago it failed.
use umicat.Base.{ℕ, ◌≤◌, ◌<◌, ◌≡◌, Bool, false, ◌&&◌, List, some, get_elem?}
use umicat.Base.Word.{max_int}
use umicat.Upstream.Server.{Srv}
use umicat.Upstream.Scan.{least, least_lem}

unfoldable pub out : Srv → Bool
out s = s.is_down && s.is_fallback

unfoldable pub heuristic_get : List Srv → ℕ
heuristic_get srvs = least out (λ s. s.traffic) 0 0 max_int srvs

-- If a server `s` may be chosen and its traffic is below `max_int`, then a server is chosen that may
-- be and that has at most the traffic of `s`.
pub heuristic_get_least :
    (ss : List Srv) (i : ℕ) (s : Srv)
    → get_elem? ss i ≡ some s
    → out s ≡ false
    → s.traffic < max_int
    → (t : Srv) × (get_elem? ss (heuristic_get ss) ≡ some t)
      × (out t ≡ false)
      × (t.traffic ≤ s.traffic)
unfolding heuristic_get
heuristic_get_least ss i s g o lt = least_lem out (λ s. s.traffic) max_int i ss s g o lt
