-- ===== src/Upstream/Scan.antt =====
-- The loop that `uct_upstream_least_conn_get` and `uct_upstream_heuristic_get_conn`
-- (src/uct_upstream.c) share: the first server with the least key among those not passed over.
use umicat.Base.{
  ℕ, zero, suc, ◌+◌, ◌≤◌, ◌<◌, ◌≡◌, refl, Bool, false, List, [], ◌∷◌, some, ◌⊎◌, inl, inr, arith,
  ltb, if◌then◌else◌, get_elem?, Bool-cases, subst,
}
use mathlib.Core.Option.{some-injective}
use umicat.Upstream.Server.{Srv}

module _ (skip : Srv → Bool) (key : Srv → ℕ) where
  -- One round: the best index so far and its key.
  compare_key : ℕ → ℕ → ℕ → Srv → ℕ × ℕ
  compare_key i best min s =
      if skip s then (best, min) else if ltb (key s) min then (i, key s) else (best, min)

  unfoldable pub least : ℕ → ℕ → ℕ → List Srv → ℕ
  unfolding compare_key
  least i best min [] = best
  least i best min (s ∷ ss) =
      let (best', min') = compare_key i best min s in least (i + 1) best' min' ss

  -- No server that may be chosen has a key below `m`.
  AtLeast : ℕ → List Srv → Type 0
  AtLeast m [] = Unit {0}
  AtLeast m (s ∷ ss) = (skip s ≡ false → m ≤ key s) × AtLeast m ss

  compare_key_cases :
      (i best min : ℕ) (s : Srv)
      → ((compare_key i best min s ≡ (best, min)) × (skip s ≡ false → min ≤ key s))
        ⊎ ((compare_key i best min s ≡ (i, key s)) × (skip s ≡ false) × (key s < min))
  unfolding compare_key
  compare_key_cases i best min s = elim (Bool-cases (skip s)) [
    | inl e ↦ inl (rw e refl, λ o. absurd (cc))
    | inr e ↦ elim (Bool-cases (ltb (key s) min)) [
      | inl l ↦ inr (rw (e, l) refl, e, ground arith)
      | inr l ↦ inl (rw (e, l) refl, λ o. ground arith)
    ]
  ]

  least_cases :
      (i best min : ℕ) (ss : List Srv)
      → ((least i best min ss ≡ best) × AtLeast min ss)
        ⊎ ((j : ℕ) × (s : Srv) × (least i best min ss ≡ i + j)
            × (get_elem? ss j ≡ some s)
            × (skip s ≡ false)
            × (key s < min)
            × AtLeast (key s) ss)
  unfolding least AtLeast
  least_cases i best min [] = inl (refl, tt)
  least_cases i best min (s ∷ ss) = elim (compare_key_cases i best min s) [
    | inl (e, le) ↦
        rw (e, least)
          (elim (least_cases (i + 1) best min ss) [
            | inl (p, all) ↦ inl (p, (le, all))
            | inr (j, t, p, g, o, lt, all) ↦
                inr (suc j, t, omega arith, g, o, lt, ((λ q. omega (arith, le q)), all))
          ])
    | inr (e, o, lt) ↦
        rw (e, least)
          (elim (least_cases (i + 1) i (key s) ss) [
            | inl (p, all) ↦ inr (zero, s, omega arith, refl, o, lt, ((λ q. omega arith), all))
            | inr (j, t, p, g, o', lt', all) ↦
                inr (suc j, t, omega arith, g, o', omega arith, ((λ q. omega arith), all))
          ])
  ]

  AtLeast-elem :
      (m j : ℕ) (ss : List Srv) (s : Srv)
      → AtLeast m ss
      → get_elem? ss j ≡ some s
      → skip s ≡ false
      → m ≤ key s
  unfolding AtLeast
  AtLeast-elem m j [] s a g o = cc
  AtLeast-elem m zero (x ∷ ss) s a g o =
      subst (λ (x : Srv). skip x ≡ false → m ≤ key x) (some-injective x s g) a.0 o
  AtLeast-elem m (suc j) (x ∷ ss) s a g o = AtLeast-elem m j ss s a.1 g o

  -- If some server may be chosen and has a key below the bound, the scan chooses one of the least.
  pub least_lem :
      (min i : ℕ) (ss : List Srv) (s : Srv)
      → get_elem? ss i ≡ some s
      → skip s ≡ false
      → key s < min
      → (t : Srv) × (get_elem? ss (least 0 0 min ss) ≡ some t) × (skip t ≡ false) × (key t ≤ key s)
  least_lem min i ss s g o lt = elim (least_cases 0 0 min ss) [
    | inl (p, all) ↦ absurd (omega (arith, AtLeast-elem min i ss s all g o))
    | inr (j, t, p, h, q, l, all) ↦
        let e : least 0 0 min ss ≡ j = omega arith in
        (t, rw e h, q, AtLeast-elem (key t) i ss s all g o)
  ]
