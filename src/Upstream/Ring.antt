-- ===== src/Upstream/Ring.antt =====
-- The consistent-hash ring of `ip_hash` (src/uct_upstream.c): its points, their order, and the
-- point that serves a hash.
pub mod Sort
pub mod Search
use Prim.Native.Nat.{bit_or}
use umicat.Base.{
  ℕ, zero, suc, ◌+◌, ◌-◌, ◌*◌, ◌/◌, ◌%◌, ◌^◌, Bool, false, ◌&&◌, ◌||◌, not, List, [], ◌∷◌, ◌++◌,
  Option, none, some, ltb, ◌==◌, if◌then◌else◌, length, get_or, get_elem?,
}
use umicat.Base.Int.{ℤ, pos, ◌*ℤ◌}
use umicat.Base.Word.{add64, sub64, to_u64}
use umicat.Upstream.Server.{Srv}

-- `uct_upstream_ring_point_t`; the server is its index in the array.
pub record RingPoint : Type 0 where
  pub hash : ℕ
  pub srv : ℕ

abbrev pub no_point : RingPoint
no_point = record { hash = 0; srv = 0 }

-- `digest` is the MD5 of a text, as 16 bytes. The first four make up an `int`, which the cast to
-- `uct_uint_t` extends by its sign.
unfoldable pub md5_hash : (List ℕ → List ℕ) → List ℕ → ℕ
md5_hash digest text =
    let d = digest text in
    let n =
      bit_or
        (bit_or (bit_or (get_or d 3 0 * 2 ^ 24 % 2 ^ 32) (get_or d 2 0 * 2 ^ 16))
          (get_or d 1 0 * 2 ^ 8))
        (get_or d 0 0) in
    if ltb n (2 ^ 31) then n else n + (2 ^ 64 - 2 ^ 32)

-- `hash_key ip port j` is the text that sprintf makes of "%s:%ld-%ld".
module _ (digest : List ℕ → List ℕ) (hash_key : List ℕ → ℕ → ℕ → List ℕ) where
  -- The points `j`, `j + 1`, … of server `i`, as many as `n`.
  srv_points : ℕ → Srv → ℕ → ℕ → List RingPoint
  srv_points i s j zero = []
  srv_points i s j (suc n) =
      record { hash = md5_hash digest (hash_key s.upstream_ip s.upstream_port j); srv = i }
      ∷ srv_points i s (j + 1) n

  -- Each server has 160 points for each unit of its weight.
  unfoldable pub all_points : ℕ → List Srv → List RingPoint
  unfolding srv_points
  all_points i [] = []
  all_points i (s ∷ ss) = srv_points i s 0 (to_u64 (s.weight *ℤ pos 160)) ++ all_points (i + 1) ss

-- One comparison of the bubble sort: the two points in the order in which it leaves them.
order : RingPoint → RingPoint → RingPoint × RingPoint
order p q = if ltb q.hash p.hash then (q, p) else (p, q)

-- The inner loop, of `k` rounds.
pass : ℕ → List RingPoint → List RingPoint
unfolding order
pass zero ps = ps
pass (suc k) [] = []
pass (suc k) (p ∷ []) = p ∷ []
pass (suc k) (p ∷ q ∷ rest) = let (lo, hi) = order p q in lo ∷ pass k (hi ∷ rest)

-- The outer loop with `m` rounds left; the next has `m - 1` comparisons to make.
passes : ℕ → List RingPoint → List RingPoint
passes zero ps = ps
passes (suc m) ps = passes m (pass m ps)

unfoldable pub bubble_sort : List RingPoint → List RingPoint
unfolding pass passes
bubble_sort ps = passes (length ps) ps

-- `uct_upstream_init_hash_ring`.
unfoldable pub init_hash_ring :
    (List ℕ → List ℕ) → (List ℕ → ℕ → ℕ → List ℕ) → List Srv → List RingPoint
init_hash_ring digest hash_key srvs = bubble_sort (all_points digest hash_key 0 srvs)

abbrev pub hash_at : List RingPoint → ℕ → ℕ
hash_at points k = (get_or points k no_point).hash

-- `while (i < j)` of the binary search. Each round at least narrows the range, so that the number
-- of points is enough fuel.
unfoldable pub bisect : ℕ → List RingPoint → ℕ → ℕ → ℕ → ℕ
bisect zero points hash i j = i
bisect (suc fuel) points hash i j =
    let k = add64 i j / 2 in
    let right = bisect fuel points hash (add64 k 1) j in
    let left = bisect fuel points hash i k in
    if ltb i j then (if ltb (hash_at points k) hash then right else left) else i

-- `uct_upstream_get_hash_point`: the index of the point.
unfoldable pub get_hash_point : List RingPoint → ℕ → ℕ
get_hash_point points hash =
    let last = sub64 (length points) 1 in
    let i = bisect (length points) points hash 0 last in
    if ((i == last) && ltb (hash_at points i) hash) || ltb last i then 0 else i

-- A server to which a client may be moved.
unfoldable pub takes_over : List Srv → RingPoint → Bool
takes_over srvs p = elim (get_elem? srvs p.srv) [
  | none ↦ false
  | some s ↦ not s.is_down && s.is_fallback
]

-- The scan of `uct_upstream_next_valid_point` from index `k`, with `n` points left.
unfoldable pub first_valid : List Srv → List RingPoint → ℕ → ℕ → Option ℕ
first_valid srvs points k zero = none
first_valid srvs points k (suc n) =
    let rest = first_valid srvs points (k + 1) n in
    if takes_over srvs (get_or points k no_point) then some k else rest

unfoldable pub next_valid_point : List Srv → List RingPoint → RingPoint → Option ℕ
next_valid_point srvs points point =
    let i = bisect (length points) points point.hash 0 (sub64 (length points) 1) in
    first_valid srvs points i (length points - i)
