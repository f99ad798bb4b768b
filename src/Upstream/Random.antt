-- ===== src/Upstream/Random.antt =====
-- `uct_upstream_random_get` (src/uct_upstream.c). The number that rand returns and the two times
-- are arguments.
pub mod Share
use umicat.Base.{
  ℕ, suc, ◌+◌, ◌%◌, Bool, true, false, ◌==◌, List, [], ◌∷◌, Option, none, some, if◌then◌else◌,
}
use umicat.Base.Int.{ℤ, pos, negsuc, ltb_ℤ, ◌+ℤ◌, ◌-ℤ◌}
use umicat.Upstream.Server.{Srv, skipped}
use umicat.Upstream.RoundRobin.{revive}

-- One round of the first loop: the new total, and the server, which may be revived.
unfoldable pub weigh : ℕ → ℤ → Srv → ℤ × Srv
weigh now total s =
    let r = revive now s in if skipped now s then (total, s) else (total +ℤ r.effective_weight, r)

unfoldable pub add_weights : ℕ → ℤ → List Srv → ℤ × List Srv
unfolding weigh
add_weights now total [] = (total, [])
add_weights now total (s ∷ ss) =
    let (total', s') = weigh now total s in
    let (sum, rest) = add_weights now total' ss in (sum, s' ∷ rest)

-- `rand() % total_weight`; `none` is the division by zero.
unfoldable pub remainder : ℕ → ℤ → Option ℕ
remainder r (pos n) = if n == 0 then none else some (r % n)
remainder r (negsuc n) = some (r % suc n)

-- The second loop, which stops at the first server with more weight than is left of the number.
unfoldable pub draw : ℕ → ℕ → ℤ → List Srv → ℕ
draw now i left [] = 0
draw now i left (s ∷ ss) =
    let next = draw now (i + 1) left ss in
    let later = draw now (i + 1) (left -ℤ s.effective_weight) ss in
    if skipped now s then next else if ltb_ℤ left s.effective_weight then i else later

unfoldable pub random_get : List Srv → ℕ → ℕ → ℕ → Option ℕ × List Srv
random_get srvs now later r =
    let (total, weighed) = add_weights now (pos 0) srvs in
    elim (remainder r total) [
      | none ↦ (none, weighed)
      | some left ↦ (some (draw later 0 (pos left) weighed), weighed)
    ]
