-- ===== src/Upstream/Connect/Weight.antt =====
-- What a failed connection does to the weight and the counters of a server.
pub mod Success
use umicat.Base.{
  ℕ, ◌+◌, ◌-◌, ◌/◌, ◌^◌, ◌%◌, ◌≤◌, ◌≡◌, ◌==◌, Bool, true, false, arith, ◌⊎◌, inl, inr, Bool-cases,
  refl, ltb, ◌≢◌, if◌then◌else◌, ◌∙◌, ap, dec_lt,
}
use native.Mathlib.Nat.{div-le_self}
use umicat.Base.Int.{ℤ, pos, negsuc, pos_part, neg_part, ◌≤ℤ◌, ◌+ℤ◌, ltb_ℤ, leb_ℤ}
use umicat.Base.Word.{add64, sub64, to_u64, to_i64, max_int}
use umicat.Upstream.Server.{Srv}
use umicat.Upstream.Connect.{
  penalty, clamp, on_failure, on_success, regain, bring_up, connect, count_fail, judge, Mode, http,
  must_go_down,
}

-- The weights of a configured server: not negative, a word, the effective one at most the other.
pub record IsWeighted (s : Srv) : Type 0 where
  pub nonneg : pos 0 ≤ℤ s.effective_weight
  pub capped : s.effective_weight ≤ℤ s.weight
  pub small : s.weight ≤ℤ pos max_int

clamp-sub64 : (e q : ℕ) → e ≤ max_int → q ≤ max_int → clamp (to_i64 (sub64 e q)) ≡ pos (e - q)
unfolding clamp to_i64 sub64
clamp-sub64 e q h k = ground arith

-- The unsigned penalty, clamped, is the truncated difference of numbers.
clamp-penalty :
    (e w : ℕ) (s : Srv)
    → s.effective_weight ≡ pos e
    → s.weight ≡ pos w
    → e ≤ w
    → w ≤ max_int
    → clamp (penalty s) ≡ (if s.max_fails == 0 then pos e else pos (e - w / s.max_fails))
unfolding penalty to_u64
clamp-penalty e w s p q h k = elim (Bool-cases (s.max_fails == 0)) [
  | inl z ↦ rw (z, p) (unfold clamp in ground arith)
  | inr z ↦
      rw (z, p, q)
        (rw (words.0, words.1)
          (clamp-sub64 e (w / s.max_fails) (omega arith)
            (omega (arith, div-le_self w s.max_fails))))
]
  where
    words : (e % 2 ^ 64 ≡ e) × (w % 2 ^ 64 ≡ w)
    words = omega arith

number : (a : ℤ) → pos 0 ≤ℤ a → a ≡ pos (pos_part a)
number (pos n) h = refl
number (negsuc n) h = absurd (omega arith)

pub judge_cases :
    (now : ℕ) (s : Srv)
    → ((judge now s ≡ s) × (must_go_down now s ≡ false))
      ⊎ ((judge now s ≡ record s { is_down = true; effective_weight = pos 0; last_fail_time = now })
          × (must_go_down now s ≡ true))
unfolding judge
judge_cases now s = elim (Bool-cases (must_go_down now s)) [
  | inl e ↦ inr (rw e refl, e)
  | inr e ↦ inl (rw e refl, e)
]

pub count_fail_keeps :
    (now : ℕ) (s : Srv)
    → ((count_fail now s).effective_weight ≡ s.effective_weight)
      × ((count_fail now s).weight ≡ s.weight)
      × ((count_fail now s).is_down ≡ s.is_down)
      × ((count_fail now s).max_fails ≡ s.max_fails)
      × ((count_fail now s).fail_timeout ≡ s.fail_timeout)
      × ((count_fail now s).is_fallback ≡ s.is_fallback)
unfolding count_fail
count_fail_keeps now s = elim (Bool-cases (ltb s.fail_timeout (sub64 now s.last_fail_time))) [
  | inl e ↦ rw e (refl, refl, refl, refl, refl, refl)
  | inr e ↦ rw e (refl, refl, refl, refl, refl, refl)
]

-- A failed connection costs a server that was up `weight / max_fails` of its effective weight, down
-- to 0, or all of it if the failure takes the server down. The effective weight must be a number of
-- at most the weight, a machine word, and `max_fails` not 0.
pub on_failure_weight :
    (now e w : ℕ) (s : Srv)
    → s.effective_weight ≡ pos e
    → s.weight ≡ pos w
    → e ≤ w
    → w ≤ max_int
    → s.max_fails ≢ 0
    → s.is_down ≡ false
    → (on_failure now s).effective_weight
      ≡ (if (on_failure now s).is_down then pos 0 else pos (e - w / s.max_fails))
unfolding on_failure
on_failure_weight now e w s p q h k m u =
    let t : Srv = record s { effective_weight = clamp (penalty s) } in
    elim (judge_cases now (count_fail now t)) [
      | inr (j, g) ↦ rw j refl
      | inl (j, g) ↦
          rw
            (
              j,
              (count_fail_keeps now t).0,
              (count_fail_keeps now t).2,
              clamp-penalty e w s p q h k,
              u,
            )
            (ground arith)
    ]

-- The same weights as numbers.
pub numbers :
    (s : Srv)
    → IsWeighted s
    → (e : ℕ) × (w : ℕ) × (s.effective_weight ≡ pos e)
      × (s.weight ≡ pos w)
      × (e ≤ w)
      × (w ≤ max_int)
numbers s v = (
  pos_part s.effective_weight,
  pos_part s.weight,
  number s.effective_weight v.nonneg,
  number s.weight (omega (arith, v.nonneg, v.capped)),
  e_le,
  w_le,
)
  where
    e_neg : neg_part s.effective_weight ≡ 0
    e_neg = ap neg_part (number s.effective_weight v.nonneg)

    w_neg : neg_part s.weight ≡ 0
    w_neg = ap neg_part (number s.weight (omega (arith, v.nonneg, v.capped)))

    e_le : pos_part s.effective_weight ≤ pos_part s.weight
    e_le = omega (arith, v.capped, e_neg, w_neg)

    w_le : pos_part s.weight ≤ max_int
    w_le = omega (arith, v.small, w_neg)

on_failure-weight : (now : ℕ) (s : Srv) → (on_failure now s).weight ≡ s.weight
unfolding on_failure
on_failure-weight now s =
    let t : Srv = record s { effective_weight = clamp (penalty s) } in
    elim (judge_cases now (count_fail now t)) [
      | inr (j, g) ↦ rw (j, (count_fail_keeps now t).1) refl
      | inl (j, g) ↦ rw (j, (count_fail_keeps now t).1) refl
    ]

penalty-le :
    (s : Srv) (e w : ℕ)
    → s.effective_weight ≡ pos e
    → s.weight ≡ pos w
    → e ≤ w
    → w ≤ max_int
    → (k : ℕ) × (clamp (penalty s) ≡ pos k) × (k ≤ e)
penalty-le s e w p q h k = elim (Bool-cases (s.max_fails == 0)) [
  | inl z ↦ (e, clamp-penalty e w s p q h k ∙ rw z refl, omega arith)
  | inr z ↦ (e - w / s.max_fails, clamp-penalty e w s p q h k ∙ rw z refl, omega arith)
]

pub of_numbers :
    (s : Srv) (e w : ℕ)
    → s.effective_weight ≡ pos e
    → s.weight ≡ pos w
    → e ≤ w
    → w ≤ max_int
    → IsWeighted s
of_numbers s e w p q h k = record {
  nonneg = rw p (omega arith);
  capped = rw (p, q) (omega arith);
  small = rw q (omega arith);
}

on_failure-le :
    (now : ℕ) (s : Srv) (f : ℕ)
    → clamp (penalty s) ≡ pos f
    → (k : ℕ) × ((on_failure now s).effective_weight ≡ pos k) × (k ≤ f)
unfolding on_failure
on_failure-le now s f r =
    let t : Srv = record s { effective_weight = clamp (penalty s) } in
    elim (judge_cases now (count_fail now t)) [
      | inr (j, g) ↦ (0, rw j refl, omega arith)
      | inl (j, g) ↦ (f, rw (j, (count_fail_keeps now t).0) r, omega arith)
    ]

pub on_failure-IsWeighted : (now : ℕ) (s : Srv) → IsWeighted s → IsWeighted (on_failure now s)
on_failure-IsWeighted now s v =
    let (e, w, p, q, h, k) = numbers s v in
    let (f, r, l) = penalty-le s e w p q h k in
    let (g, r', l') = on_failure-le now s f r in
    of_numbers (on_failure now s) g w r' (on_failure-weight now s ∙ q) (omega arith) k
