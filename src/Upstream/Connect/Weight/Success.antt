-- ===== src/Upstream/Connect/Weight/Success.antt =====
-- The effective weight after a connection that succeeds, and after any attempt.
use umicat.Base.{
  ℕ, ◌+◌, ◌≤◌, ◌≡◌, Bool, true, false, arith, inl, inr, Bool-cases, if◌then◌else◌, ◌∙◌, dec_lt,
}
use umicat.Base.Int.{ℤ, pos, ◌+ℤ◌, ltb_ℤ, leb_ℤ}
use umicat.Base.Word.{add64}
use umicat.Upstream.Server.{Srv}
use umicat.Upstream.Connect.{on_success, regain, bring_up, connect, Mode, http}
use umicat.Upstream.Connect.Weight.{IsWeighted, numbers, of_numbers, on_failure-IsWeighted}

-- What a connection does to the fields that the policies read.
pub on_success_fields :
    (s : Srv)
    → ((on_success s).weight ≡ s.weight)
      × ((on_success s).is_down ≡ false)
      × ((on_success s).connection_n ≡ add64 s.connection_n 1)
      × ((on_success s).effective_weight ≡ (
          if ltb_ℤ s.effective_weight s.weight
          then s.effective_weight +ℤ pos 1
          else s.effective_weight))
unfolding on_success regain bring_up
on_success_fields s = ground arith

on_success-IsWeighted : (s : Srv) → IsWeighted s → IsWeighted (on_success s)
on_success-IsWeighted s v =
    let (e, w, p, q, h, k) = numbers s v in
    let (f, r, l) = gained e w h in
    of_numbers (on_success s) f w ((on_success_fields s).3 ∙ rw (p, q) r)
      ((on_success_fields s).0 ∙ q) l k
  where
    gained :
        (e w : ℕ)
        → e ≤ w
        → (f : ℕ) × ((if ltb_ℤ (pos e) (pos w) then pos e +ℤ pos 1 else pos e) ≡ pos f) × (f ≤ w)
    gained e w h = elim (dec_lt e w) [
      | yes lt ↦ (e + 1, unfold ◌+ℤ◌ in ground arith, omega arith)
      | no ge ↦ (e, ground arith, h)
    ]

-- If the effective weight is between 0 and the configured weight, a machine word, then so it is
-- after every outcome of `uct_upstream_connect`, in every mode.
pub connect-IsWeighted :
    (mode : Mode) (fd : ℤ) (locked : Bool) (now : ℕ) (s : Srv)
    → IsWeighted s
    → IsWeighted (connect mode fd locked now s).1
unfolding connect
connect-IsWeighted http fd locked now s v = v
connect-IsWeighted mode fd true now s v = elim (Bool-cases (leb_ℤ fd (pos 0))) [
  | inl e ↦ rw e (on_failure-IsWeighted now s v)
  | inr e ↦ rw e (on_success-IsWeighted s v)
]
connect-IsWeighted mode fd false now s v = elim (Bool-cases (leb_ℤ fd (pos 0))) [
  | inl e ↦ rw e v
  | inr e ↦ rw e v
]
