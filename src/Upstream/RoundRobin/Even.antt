-- ===== src/Upstream/RoundRobin/Even.antt =====
-- The share that round robin owes each server while all are up: a server is ahead or behind of it by
-- its current weight, and behind by less than a period.
pub mod Rounds
use umicat.Base.{
  ℕ, zero, suc, ◌+◌, ◌*◌, ◌<◌, ◌≡◌, ◌==◌, refl, ap, ◌∙◌, inl, inr, List, [], ◌∷◌, map, some, arith,
  length, get_elem?, if◌then◌else◌, subst, fun_ext,
}
use umicat.Base.Int.{ℤ, pos, pos_part, neg_part, sum_ℤ, ◌+ℤ◌, ◌-ℤ◌, ◌<ℤ◌, int_laws, zero-add}
use umicat.Upstream.Server.{Srv, modify}
use umicat.Upstream.RoundRobin.{pick, round_robin_get, rounds}
use umicat.Upstream.RoundRobin.Conservation.{current, accumulate_total}
use umicat.Upstream.RoundRobin.Healthy.{
  AllUp, effective, raise, reset, sum-gain, accumulate_up, AllUp-raise, pick_up, AtMost-sum,
}
use umicat.Upstream.RoundRobin.Conservation.{round_robin_get_conserves}

-- 1 at the index that was chosen.
abbrev pub hit : ℕ → ℕ → ℕ
hit best i = if best == i then 1 else 0

-- How often index `i` was chosen.
abbrev pub tally : List ℕ → ℕ → ℕ
tally [] i = 0
tally (best ∷ bests) i = hit best i + tally bests i

-- After `t` choices of a period of `w`, with `c i` of them for server `i`: what a server is ahead
-- or behind is its current weight, and it is behind by less than the period.
pub record Fair (w t c : ℕ) (s : Srv) : Type 0 where
  pub nonneg : neg_part s.effective_weight ≡ 0
  pub behind : neg_part s.current_weight < w
  pub exact :
      pos_part s.current_weight + w * c
      ≡ t * pos_part s.effective_weight + neg_part s.current_weight

abbrev pub Fairs : ℕ → ℕ → (ℕ → ℕ) → ℕ → List Srv → Type 0
Fairs w t c i [] = Unit {0}
Fairs w t c i (s ∷ ss) = Fair w t (c i) s × Fairs w t c (suc i) ss

-- The state between the loops and the last write: the weights of choice `t + 1`, not yet the count.
raise-Fair : (w t c : ℕ) (s : Srv) → Fair w t c s → Fair w (suc t) c (raise s)
unfolding ◌+ℤ◌
raise-Fair w t c s f = ground arith

pub Fairs-raise :
    (w t : ℕ) (c : ℕ → ℕ) (i : ℕ) (ss : List Srv)
    → Fairs w t c i ss
    → Fairs w (suc t) c i (map raise ss)
Fairs-raise w t c i [] f = f
Fairs-raise w t c i (s ∷ ss) f = (raise-Fair w t (c i) s f.0, Fairs-raise w t c (suc i) ss f.1)

-- The last write.
abbrev pub lower : ℤ → Srv → Srv
lower total s = record s { current_weight = s.current_weight -ℤ total }

lower-Fair :
    (w t c : ℕ) (s : Srv)
    → Fair w t c s
    → pos 0 <ℤ s.current_weight
    → Fair w t (suc c) (lower (pos w) s)
unfolding ◌-ℤ◌
lower-Fair w t c s f p = ground arith

Fairs-later :
    (w t : ℕ) (c : ℕ → ℕ) (best i : ℕ) (ss : List Srv)
    → best < i
    → Fairs w t c i ss
    → Fairs w t (λ k. hit best k + c k) i ss
Fairs-later w t c best i [] h f = f
Fairs-later w t c best i (s ∷ ss) h f =
    (ground (arith, f.0), Fairs-later w t c best (suc i) ss (omega arith) f.1)

-- The index `i + j` is chosen, and its server has something to give.
pub Fairs-modify :
    (w t : ℕ) (c : ℕ → ℕ) (i j best : ℕ) (s : Srv) (ss : List Srv)
    → best ≡ i + j
    → get_elem? ss j ≡ some s
    → pos 0 <ℤ s.current_weight
    → Fairs w t c i ss
    → Fairs w t (λ k. hit best k + c k) i (modify ss j (lower (pos w)))
unfolding modify
Fairs-modify w t c i j best s [] e g p f = f
Fairs-modify w t c i zero best s (x ∷ ss) e g p f = (
  ground (arith, lower-Fair w t (c i) x f.0),
  Fairs-later w t c best (suc i) ss (omega arith) f.1,
)
Fairs-modify w t c i (suc j) best s (x ∷ ss) e g p f =
    (ground (arith, f.0), Fairs-modify w t c (suc i) j best s ss (omega arith) g p f.1)

-- What one choice keeps while every server is up.
pub record Even (w t : ℕ) (c : ℕ → ℕ) (ss : List Srv) : Type 0 where
  pub up : AllUp ss
  pub weights : sum_ℤ effective ss ≡ pos w
  pub balanced : sum_ℤ current ss ≡ pos 0
  pub fair : Fairs w t c 0 ss

pub AllUp-modify :
    (total : ℤ) (i : ℕ) (ss : List Srv) → AllUp ss → AllUp (modify ss i (lower total))
unfolding modify
AllUp-modify total i [] u = u
AllUp-modify total zero (s ∷ ss) u = u
AllUp-modify total (suc i) (s ∷ ss) u = (u.0, AllUp-modify total i ss u.1)

pub sum-modify :
    (total : ℤ) (i : ℕ) (ss : List Srv)
    → sum_ℤ effective (modify ss i (lower total)) ≡ sum_ℤ effective ss
unfolding modify sum_ℤ
sum-modify total i [] = refl
sum-modify total zero (s ∷ ss) = refl
sum-modify total (suc i) (s ∷ ss) = rw (sum-modify total i ss)

pub sum-raise : (ss : List Srv) → sum_ℤ effective (map raise ss) ≡ sum_ℤ effective ss
unfolding sum_ℤ
sum-raise [] = refl
sum-raise (s ∷ ss) = rw (sum-raise ss)

pub sum-current-raise :
    (ss : List Srv) → sum_ℤ current (map raise ss) ≡ sum_ℤ current ss +ℤ sum_ℤ effective ss
unfolding sum_ℤ
sum-current-raise [] = omega int_laws
sum-current-raise (s ∷ ss) = rw (sum-current-raise ss) (omega int_laws)

pub reset-raise : (ss : List Srv) → map reset (map raise ss) ≡ map reset ss
reset-raise [] = refl
reset-raise (s ∷ ss) = rw (reset-raise ss)

pub reset-modify :
    (total : ℤ) (i : ℕ) (ss : List Srv) → map reset (modify ss i (lower total)) ≡ map reset ss
unfolding modify
reset-modify total i [] = refl
reset-modify total zero (s ∷ ss) = refl
reset-modify total (suc i) (s ∷ ss) = rw (reset-modify total i ss)
