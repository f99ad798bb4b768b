-- ===== src/Upstream/RoundRobin/Greatest.antt =====
-- Which server round robin chooses, in any state of the servers.
use umicat.Base.{
  ℕ, zero, suc, ◌+◌, ◌≡◌, refl, sym, ap, ◌∙◌, false, List, [], ◌∷◌, some, ◌⊎◌, inl, inr, arith,
  get_elem?, Bool-cases, subst,
}
use mathlib.Core.Option.{some-injective}
use umicat.Base.Int.{ℤ, pos, ltb_ℤ, ◌≤ℤ◌, ◌<ℤ◌, ◌-ℤ◌}
use umicat.Upstream.Server.{Srv, skipped, get_elem?-modify_self}
use umicat.Upstream.RoundRobin.{revive, visit, accumulate, consider, pick, round_robin_get}

-- The server as the first loop leaves it.
unfoldable pub visited : ℕ → Srv → Srv
visited now s = (visit now (pos 0) s).1

visit-visited : (now : ℕ) (total : ℤ) (s : Srv) → (visit now total s).1 ≡ visited now s
unfolding visited visit
visit-visited now total s = elim (Bool-cases (skipped now s)) [
  | inl e ↦ rw (e, visited, visit) refl
  | inr e ↦ rw (e, visited, visit) refl
]

skipped-visited : (now : ℕ) (s : Srv) → skipped now (visited now s) ≡ skipped now s
unfolding visited visit revive skipped
skipped-visited now s = ground arith

get_elem?-accumulate :
    (now : ℕ) (total : ℤ) (ss : List Srv) (i : ℕ) (s : Srv)
    → get_elem? ss i ≡ some s
    → get_elem? (accumulate now total ss).1 i ≡ some (visited now s)
unfolding accumulate
get_elem?-accumulate now total [] i s e = absurd (cc)
get_elem?-accumulate now total (x ∷ ss) zero s e =
    ap (λ (y : Srv). some y) (visit-visited now total x ∙ ap (visited now) (some-injective x s e))
get_elem?-accumulate now total (x ∷ ss) (suc i) s e =
    get_elem?-accumulate now (visit now total x).0 ss i s e

-- No server that may be chosen has a current weight above `m`.
AtMost : ℕ → ℤ → List Srv → Type 0
AtMost now m [] = Unit {0}
AtMost now m (s ∷ ss) = (skipped now s ≡ false → s.current_weight ≤ℤ m) × AtMost now m ss

consider_cases :
    (now i best : ℕ) (max : ℤ) (s : Srv)
    → ((consider now i best max s ≡ (best, max))
        × (skipped now s ≡ false → s.current_weight ≤ℤ max))
      ⊎ ((consider now i best max s ≡ (i, s.current_weight))
          × (skipped now s ≡ false)
          × (max <ℤ s.current_weight))
unfolding consider
consider_cases now i best max s = elim (Bool-cases (skipped now s)) [
  | inl e ↦ inl (rw e refl, λ o. absurd (cc))
  | inr e ↦ elim (Bool-cases (ltb_ℤ max s.current_weight)) [
    | inl l ↦ inr (rw (e, l) refl, e, ground arith)
    | inr l ↦ inl (rw (e, l) refl, λ o. ground arith)
  ]
]

pick_cases :
    (now i best : ℕ) (max : ℤ) (ss : List Srv)
    → ((pick now i best max ss ≡ best) × AtMost now max ss)
      ⊎ ((j : ℕ) × (s : Srv) × (pick now i best max ss ≡ i + j)
          × (get_elem? ss j ≡ some s)
          × (skipped now s ≡ false)
          × (max <ℤ s.current_weight)
          × AtMost now s.current_weight ss)
unfolding pick AtMost
pick_cases now i best max [] = inl (refl, tt)
pick_cases now i best max (s ∷ ss) = elim (consider_cases now i best max s) [
  | inl (e, le) ↦
      rw (e, pick)
        (elim (pick_cases now (i + 1) best max ss) [
          | inl (p, all) ↦ inl (p, (le, all))
          | inr (j, t, p, g, o, lt, all) ↦
              inr (suc j, t, omega arith, g, o, lt, ((λ q. omega (arith, le q)), all))
        ])
  | inr (e, o, lt) ↦
      rw (e, pick)
        (elim (pick_cases now (i + 1) i s.current_weight ss) [
          | inl (p, all) ↦ inr (zero, s, omega arith, refl, o, lt, ((λ q. omega arith), all))
          | inr (j, t, p, g, o', lt', all) ↦
              inr (suc j, t, omega arith, g, o', omega arith, ((λ q. omega arith), all))
        ])
]

AtMost-elem :
    (now : ℕ) (m : ℤ) (j : ℕ) (ss : List Srv) (s : Srv)
    → AtMost now m ss
    → get_elem? ss j ≡ some s
    → skipped now s ≡ false
    → s.current_weight ≤ℤ m
unfolding AtMost
AtMost-elem now m j [] s a g o = absurd (cc)
AtMost-elem now m zero (x ∷ ss) s a g o =
    subst (λ (x : Srv). skipped now x ≡ false → x.current_weight ≤ℤ m) (some-injective x s g) a.0 o
AtMost-elem now m (suc j) (x ∷ ss) s a g o = AtMost-elem now m j ss s a.1 g o

-- The servers after the first loop, and those before it that they come from.
accumulate_elem :
    (now : ℕ) (total : ℤ) (ss : List Srv) (i : ℕ) (t : Srv)
    → get_elem? (accumulate now total ss).1 i ≡ some t
    → (s : Srv) × (get_elem? ss i ≡ some s) × (visited now s ≡ t)
unfolding accumulate
accumulate_elem now total [] i t e = absurd (cc)
accumulate_elem now total (x ∷ ss) zero t e =
    (x, refl, sym (visit-visited now total x) ∙ some-injective _ t e)
accumulate_elem now total (x ∷ ss) (suc i) t e = accumulate_elem now (visit now total x).0 ss i t e

-- Whatever the state of the servers: if a server `s` is not passed over and has a weight above zero
-- once its own is added, then a server is chosen that is not passed over either and has, so
-- counted, at least the weight of `s`; and that server pays the total of the weights.
pub round_robin_get_greatest :
    (ss : List Srv) (now i : ℕ) (s : Srv)
    → get_elem? ss i ≡ some s
    → skipped now s ≡ false
    → pos 0 <ℤ (visited now s).current_weight
    → let (best, after) = round_robin_get ss now in
      let total = (accumulate now (pos 0) ss).0 in
      (t : Srv) × (get_elem? ss best ≡ some t)
      × (skipped now t ≡ false)
      × ((visited now s).current_weight ≤ℤ (visited now t).current_weight)
      × (get_elem? after best
          ≡ some
              (record (visited now t) { current_weight = (visited now t).current_weight -ℤ total }))
unfolding round_robin_get
round_robin_get_greatest ss now i s g o lt =
    let (total, raised) = accumulate now (pos 0) ss in
    let here = get_elem?-accumulate now (pos 0) ss i s g in
    let open_ : skipped now (visited now s) ≡ false = skipped-visited now s ∙ o in
    elim (pick_cases now 0 0 (pos 0) raised) [
      | inl (p, all) ↦
          absurd
            (omega (arith, AtMost-elem now (pos 0) i raised (visited now s) all here open_, lt))
      | inr (j, u, p, h, q, l, all) ↦
          let e : pick now 0 0 (pos 0) raised ≡ j = omega arith in
          let (t, found, same) = accumulate_elem now (pos 0) ss j u h in
          let le = AtMost-elem now u.current_weight i raised (visited now s) all here open_ in
          (
            t,
            rw e found,
            sym (skipped-visited now t) ∙ ap (skipped now) same ∙ q,
            rw same le,
            rw (e, same) (get_elem?-modify_self raised j u _ h),
          )
    ]
