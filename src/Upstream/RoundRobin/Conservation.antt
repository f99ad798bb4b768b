-- ===== src/Upstream/RoundRobin/Conservation.antt =====
-- What one choice of round robin does to the current weights, whatever the state of the servers.
use umicat.Base.{
  ℕ, zero, suc, ◌+◌, ◌≤◌, ◌<◌, ◌≡◌, refl, Bool-cases, if◌then◌else◌, inl, inr, List, [], ◌∷◌, arith,
  length,
}
use umicat.Base.Int.{ℤ, pos, sum_ℤ, ◌+ℤ◌, ◌-ℤ◌, int_laws}
use umicat.Upstream.Server.{Srv, modify, skipped}
use umicat.Upstream.RoundRobin.{revive, visit, accumulate, consider, pick, round_robin_get}

abbrev pub current : Srv → ℤ
current s = s.current_weight

-- What the first loop adds to the current weight of a server.
unfoldable pub gain : ℕ → Srv → ℤ
gain now s = if skipped now s then pos 0 else (revive now s).effective_weight

add_zero : (a : ℤ) → a +ℤ pos 0 ≡ a
add_zero a = omega int_laws

pub visit_total : (now : ℕ) (total : ℤ) (s : Srv) → (visit now total s).0 ≡ total +ℤ gain now s
unfolding visit gain
visit_total now total s = elim (Bool-cases (skipped now s)) [
  | inl e ↦ rw e (omega int_laws)
  | inr e ↦ rw e
]

current-revive : (now : ℕ) (s : Srv) → current (revive now s) ≡ current s
unfolding revive
current-revive now s = ground arith

pub current-visit :
    (now : ℕ) (total : ℤ) (s : Srv) → current (visit now total s).1 ≡ current s +ℤ gain now s
unfolding visit gain
current-visit now total s = elim (Bool-cases (skipped now s)) [
  | inl e ↦ rw e (omega int_laws)
  | inr e ↦ rw (e, current-revive now s)
]

pub accumulate_total :
    (now : ℕ) (total : ℤ) (ss : List Srv)
    → (accumulate now total ss).0 ≡ total +ℤ sum_ℤ (gain now) ss
unfolding accumulate sum_ℤ
accumulate_total now total [] = omega int_laws
accumulate_total now total (s ∷ ss) =
    rw (accumulate_total now (visit now total s).0 ss, visit_total now total s) (omega int_laws)

pub accumulate-current :
    (now : ℕ) (total : ℤ) (ss : List Srv)
    → sum_ℤ current (accumulate now total ss).1 ≡ sum_ℤ current ss +ℤ sum_ℤ (gain now) ss
unfolding accumulate sum_ℤ
accumulate-current now total [] = omega int_laws
accumulate-current now total (s ∷ ss) =
    rw (accumulate-current now (visit now total s).0 ss, current-visit now total s) (omega int_laws)

pub length-accumulate :
    (now : ℕ) (total : ℤ) (ss : List Srv) → length (accumulate now total ss).1 ≡ length ss
unfolding accumulate
length-accumulate now total [] = refl
length-accumulate now total (s ∷ ss) = omega (arith, length-accumulate now (visit now total s).0 ss)

modify_sum :
    (ss : List Srv) (i : ℕ) (t : ℤ)
    → i < length ss
    → sum_ℤ current (modify ss i (λ s. record s { current_weight = s.current_weight -ℤ t }))
      ≡ sum_ℤ current ss -ℤ t
unfolding modify sum_ℤ
modify_sum [] i t h = absurd (omega arith)
modify_sum (s ∷ ss) zero t h = omega int_laws
modify_sum (s ∷ ss) (suc i) t h = rw (modify_sum ss i t (omega arith)) (omega int_laws)

pick-lt :
    (now i best : ℕ) (max : ℤ) (ss : List Srv) (n : ℕ)
    → best < n
    → i + length ss ≤ n
    → pick now i best max ss < n
unfolding pick consider
pick-lt now i best max [] n h k = h
pick-lt now i best max (s ∷ ss) n h k = pick-lt now (i + 1) _ _ ss n (ground arith) (omega arith)

-- The chosen index is one of the array, if there is a server at all.
pub round_robin_get_in_range :
    (ss : List Srv) (now : ℕ) → 0 < length ss → (round_robin_get ss now).0 < length ss
unfolding round_robin_get
round_robin_get_in_range ss now h =
    pick-lt now 0 0 (pos 0) (accumulate now (pos 0) ss).1 (length ss) h
      (omega (arith, length-accumulate now (pos 0) ss))

-- A choice moves weight between the servers and makes up none: whichever servers are down, passed
-- over or revived, the sum of the current weights is what it was, if there is a server at all.
pub round_robin_get_conserves :
    (ss : List Srv) (now : ℕ)
    → 0 < length ss
    → sum_ℤ current (round_robin_get ss now).1 ≡ sum_ℤ current ss
unfolding round_robin_get
round_robin_get_conserves ss now h =
    let t = accumulate now (pos 0) ss in
    rw
      (
        modify_sum t.1 (pick now 0 0 (pos 0) t.1) t.0 (
            pick-lt now 0 0 (pos 0) t.1 _ (omega (arith, length-accumulate now (pos 0) ss))
              (omega arith)),
        accumulate-current now (pos 0) ss,
        accumulate_total now (pos 0) ss,
      )
      (omega int_laws)
