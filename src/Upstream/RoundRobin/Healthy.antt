-- ===== src/Upstream/RoundRobin/Healthy.antt =====
-- Round robin while every server is up: nobody is passed over or revived.
use umicat.Base.{
  ℕ, zero, suc, ◌+◌, ◌≡◌, refl, ◌⊎◌, inl, inr, false, List, [], ◌∷◌, map, some, arith, get_elem?,
}
use umicat.Base.Int.{ℤ, pos, sum_ℤ, ◌+ℤ◌, ◌≤ℤ◌, ◌<ℤ◌, int_laws}
use umicat.Upstream.Server.{Srv, skipped}
use umicat.Upstream.RoundRobin.{revive, visit, accumulate, consider, pick}
use umicat.Upstream.RoundRobin.Conservation.{current, gain}

-- Every server is up.
abbrev pub AllUp : List Srv → Type 0
AllUp [] = Unit {0}
AllUp (s ∷ ss) = (s.is_down ≡ false) × AllUp ss

abbrev pub effective : Srv → ℤ
effective s = s.effective_weight

-- The first loop adds its weight to a server.
abbrev pub raise : Srv → Srv
raise s = record s { current_weight = s.current_weight +ℤ s.effective_weight }

-- A server without its current weight: what no choice changes.
abbrev pub reset : Srv → Srv
reset s = record s { current_weight = pos 0 }

pub gain_up : (now : ℕ) (s : Srv) → s.is_down ≡ false → gain now s ≡ effective s
unfolding gain skipped revive
gain_up now s u = ground arith

visit_up : (now : ℕ) (total : ℤ) (s : Srv) → s.is_down ≡ false → (visit now total s).1 ≡ raise s
unfolding visit skipped revive
visit_up now total s u = ground arith

pub sum-gain : (now : ℕ) (ss : List Srv) → AllUp ss → sum_ℤ (gain now) ss ≡ sum_ℤ effective ss
unfolding sum_ℤ
sum-gain now [] u = refl
sum-gain now (s ∷ ss) u = rw (gain_up now s u.0, sum-gain now ss u.1)

pub accumulate_up :
    (now : ℕ) (total : ℤ) (ss : List Srv) → AllUp ss → (accumulate now total ss).1 ≡ map raise ss
unfolding accumulate
accumulate_up now total [] u = refl
accumulate_up now total (s ∷ ss) u =
    rw (visit_up now total s u.0, accumulate_up now (visit now total s).0 ss u.1)

pub AllUp-raise : (ss : List Srv) → AllUp ss → AllUp (map raise ss)
AllUp-raise [] u = u
AllUp-raise (s ∷ ss) u = (u.0, AllUp-raise ss u.1)

consider_up :
    (now i best : ℕ) (max : ℤ) (s : Srv)
    → s.is_down ≡ false
    → ((consider now i best max s ≡ (best, max)) × (s.current_weight ≤ℤ max))
      ⊎ ((consider now i best max s ≡ (i, s.current_weight)) × (max <ℤ s.current_weight))
unfolding consider skipped
consider_up now i best max s u = ground arith

-- No server of the list has more than `max`.
abbrev pub AtMost : ℤ → List Srv → Type 0
AtMost max [] = Unit {0}
AtMost max (s ∷ ss) = (s.current_weight ≤ℤ max) × AtMost max ss

-- The second loop keeps its index, or finds a server that has more.
pub pick_up :
    (now i best : ℕ) (max : ℤ) (ss : List Srv)
    → AllUp ss
    → ((pick now i best max ss ≡ best) × AtMost max ss)
      ⊎ ((j : ℕ) × (s : Srv) × (pick now i best max ss ≡ i + j)
          × (get_elem? ss j ≡ some s)
          × (max <ℤ s.current_weight))
unfolding pick
pick_up now i best max [] u = inl (refl, tt)
pick_up now i best max (s ∷ ss) u = elim (consider_up now i best max s u.0) [
  | inl (e, le) ↦
      rw (e, pick)
        (elim (pick_up now (i + 1) best max ss u.1) [
          | inl (p, all) ↦ inl (p, (le, all))
          | inr (j, t, p, g, lt) ↦ inr (suc j, t, omega arith, g, lt)
        ])
  | inr (e, lt) ↦
      rw (e, pick)
        (elim (pick_up now (i + 1) i s.current_weight ss u.1) [
          | inl (p, all) ↦ inr (zero, s, omega arith, refl, lt)
          | inr (j, t, p, g, more) ↦ inr (suc j, t, omega arith, g, omega arith)
        ])
]

pub AtMost-sum : (ss : List Srv) → AtMost (pos 0) ss → sum_ℤ current ss ≤ℤ pos 0
unfolding sum_ℤ
AtMost-sum [] h = omega arith
AtMost-sum (s ∷ ss) h = omega (int_laws, AtMost-sum ss h.1)
