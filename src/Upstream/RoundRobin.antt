-- ===== src/Upstream/RoundRobin.antt =====
-- `uct_upstream_round_robin_get` (src/uct_upstream.c): smooth weighted round robin.
-- The list holds the `n` servers of the array. The semaphore makes the body one step.
pub mod Conservation
pub mod Healthy
pub mod Even
pub mod Fairness
pub mod Greatest
use umicat.Base.{ℕ, ◌+◌, Bool, ◌&&◌, List, [], ◌∷◌, ltb, if◌then◌else◌}
use umicat.Base.Int.{ℤ, pos, ltb_ℤ, eqb_ℤ, ◌+ℤ◌, ◌-ℤ◌}
use umicat.Base.Word.{sub64}
use umicat.Upstream.Server.{Srv, skipped, modify}

-- A server that is down gets the weight 1 again once its `fail_timeout` is over.
unfoldable pub revive : ℕ → Srv → Srv
revive now s =
    if ltb s.fail_timeout (sub64 now s.last_fail_time)
      && (s.is_down && eqb_ℤ s.effective_weight (pos 0))
    then record s { effective_weight = s.effective_weight +ℤ pos 1 }
    else s

-- One round of the first loop: the new total and the server.
unfoldable pub visit : ℕ → ℤ → Srv → ℤ × Srv
visit now total s =
    let r = revive now s in
    if skipped now s then (total, s) else (
      total +ℤ r.effective_weight,
      record r { current_weight = r.current_weight +ℤ r.effective_weight },
    )

unfoldable pub accumulate : ℕ → ℤ → List Srv → ℤ × List Srv
accumulate now total [] = (total, [])
accumulate now total (s ∷ ss) =
    let (total', s') = visit now total s in
    let (sum, rest) = accumulate now total' ss in (sum, s' ∷ rest)

-- One round of the second loop: the best index so far and its weight.
unfoldable pub consider : ℕ → ℕ → ℕ → ℤ → Srv → ℕ × ℤ
consider now i best max s =
    if skipped now s
    then (best, max)
    else if ltb_ℤ max s.current_weight
    then (i, s.current_weight)
    else (best, max)

unfoldable pub pick : ℕ → ℕ → ℕ → ℤ → List Srv → ℕ
pick now i best max [] = best
pick now i best max (s ∷ ss) =
    let (best', max') = consider now i best max s in pick now (i + 1) best' max' ss

-- The index of the chosen server, and the servers with their weights moved.
unfoldable pub round_robin_get : List Srv → ℕ → ℕ × List Srv
round_robin_get srvs now =
    let (total, visited) = accumulate now (pos 0) srvs in
    let best = pick now 0 0 (pos 0) visited in
    (best, modify visited best (λ s. record s { current_weight = s.current_weight -ℤ total }))

-- Successive choices, one for each time: what was chosen, and the servers after the last.
unfoldable pub rounds : List Srv → List ℕ → List ℕ × List Srv
rounds srvs [] = ([], srvs)
rounds srvs (now ∷ nows) =
    let (best, srvs') = round_robin_get srvs now in
    let (bests, last) = rounds srvs' nows in (best ∷ bests, last)
