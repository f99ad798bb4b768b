-- ===== src/Check/Cycle.antt =====
-- The event loop of the checker, seen from one server: the outcomes of its own checks in order.
use umicat.Base.{
  ℕ, ◌≡◌, refl, sym, ap, ◌∙◌, Bool, true, false, List, [], ◌∷◌, ◌++◌, some, arith, ltb, ◌==◌,
  if◌then◌else◌, Bool-cases, inl, inr, get_elem?, ==_iff,
}
use umicat.Base.Int.{ℤ, pos, eqb_ℤ, ltb_ℤ}
use umicat.Base.Word.{sub64}
use umicat.Upstream.Server.{Srv, modify, get_elem?-modify_ne, get_elem?-modify_self}
use umicat.Check.{
  Checker, CheckData, Attempt, Event, timer, connection, check_tcp, connected, disconnected,
  on_timer, on_connect, step, cycle, check_success, check_fail, rise, fall,
}
use umicat.Check.Threshold.{check_run}

-- What a walk over the addresses says of the server, if the connection is not still in progress.
abbrev pub timer_verdict : ℤ → List Bool
timer_verdict ret =
    if eqb_ℤ ret connected then true ∷ [] else if eqb_ℤ ret disconnected then false ∷ [] else []

-- What a connection that was in progress says: it succeeded in time, or not.
abbrev pub connect_verdict : ℕ → CheckData → ℤ → ℕ → Bool
connect_verdict timeout d err now =
    if eqb_ℤ err (pos 0) then ltb (sub64 now d.start_time) timeout else false

-- What an event says of server `i`, whose `check_timeout` is given.
abbrev pub verdict : ℕ → ℕ → Event → List Bool
verdict i timeout (timer j attempts now) =
    if j == i then timer_verdict (check_tcp attempts).0 else []
verdict i timeout (connection d err now) =
    if d.srv == i then connect_verdict timeout d err now ∷ [] else []

abbrev pub verdicts : ℕ → ℕ → List Event → List Bool
verdicts i timeout [] = []
verdicts i timeout (e ∷ es) = verdict i timeout e ++ verdicts i timeout es

check-timeout : (rs : List Bool) (s : Srv) → (check_run rs s).check_timeout ≡ s.check_timeout
unfolding check_run
check-timeout [] s = refl
check-timeout (true ∷ rs) s =
    check-timeout rs (check_success s) ∙ unfold check_success rise in ground arith
check-timeout (false ∷ rs) s =
    check-timeout rs (check_fail s) ∙ unfold check_fail fall in ground arith

check_run-append :
    (rs ts : List Bool) (s : Srv) → check_run (rs ++ ts) s ≡ check_run ts (check_run rs s)
unfolding check_run
check_run-append [] ts s = refl
check_run-append (true ∷ rs) ts s = check_run-append rs ts (check_success s)
check_run-append (false ∷ rs) ts s = check_run-append rs ts (check_fail s)

-- A change of server `j`, seen at server `i`.
modified :
    (ss : List Srv) (i j : ℕ) (s : Srv) (f : Srv → Srv) (rs : List Bool)
    → get_elem? ss i ≡ some s
    → f s ≡ check_run rs s
    → get_elem? (modify ss j f) i ≡ some (check_run (if j == i then rs else []) s)
modified ss i j s f rs h e = elim (Bool-cases (j == i)) [
  | inl same ↦
      let p : j ≡ i = (==_iff j i).0 same in
      rw (same, p) (get_elem?-modify_self ss i s f h ∙ ap some e)
  | inr other ↦ rw other (get_elem?-modify_ne ss i j f other ∙ h ∙ unfold check_run in refl)
]

untouched : (i j : ℕ) (s : Srv) → some s ≡ some (check_run (if j == i then [] else []) s)
unfolding check_run
untouched i j s = elim (Bool-cases (j == i)) [ inl e ↦ rw e refl | inr e ↦ rw e refl ]

timer_verdict_step :
    (c : Checker) (j : ℕ) (attempts : List Attempt) (now i : ℕ) (s : Srv)
    → get_elem? c.srvs i ≡ some s
    → get_elem? (on_timer j attempts now c).srvs i
      ≡ some (check_run (if j == i then timer_verdict (check_tcp attempts).0 else []) s)
unfolding on_timer
timer_verdict_step c j attempts now i s h =
    let ret : ℤ = (check_tcp attempts).0 in
    elim (Bool-cases (eqb_ℤ ret connected)) [
      | inl e ↦ rw e (modified c.srvs i j s check_success _ h (unfold check_run in refl))
      | inr e ↦ rw e (elim (Bool-cases (eqb_ℤ ret disconnected)) [
        | inl e' ↦ rw e' (modified c.srvs i j s check_fail _ h (unfold check_run in refl))
        | inr e' ↦ rw e' (elim (Bool-cases (ltb_ℤ (pos 0) ret)) [
          | inl e'' ↦ rw e'' (h ∙ untouched i j s)
          | inr e'' ↦ rw e'' (h ∙ untouched i j s)
        ])
      ])
    ]

by_deadline :
    (b : Bool) (s : Srv) → (if b then check_success s else check_fail s) ≡ check_run (b ∷ []) s
unfolding check_run
by_deadline true s = refl
by_deadline false s = refl

connect_verdict_step :
    (c : Checker) (d : CheckData) (err : ℤ) (now i : ℕ) (s : Srv)
    → get_elem? c.srvs i ≡ some s
    → get_elem? (on_connect d err now c).srvs i
      ≡ some
          (check_run (if d.srv == i then connect_verdict s.check_timeout d err now ∷ [] else []) s)
unfolding on_connect
connect_verdict_step c d err now i s h = elim (Bool-cases (eqb_ℤ err (pos 0))) [
  | inr e ↦ rw e (modified c.srvs i d.srv s check_fail _ h (unfold check_run in refl))
  | inl e ↦ rw e (
      modified c.srvs i d.srv s _ _ h
        (by_deadline (ltb (sub64 now d.start_time) s.check_timeout) s))
]

step-verdict :
    (c : Checker) (e : Event) (i : ℕ) (s : Srv)
    → get_elem? c.srvs i ≡ some s
    → get_elem? (step c e).srvs i ≡ some (check_run (verdict i s.check_timeout e) s)
unfolding step
step-verdict c (timer j attempts now) i s h = timer_verdict_step c j attempts now i s h
step-verdict c (connection d err now) i s h = connect_verdict_step c d err now i s h

-- Whatever the checker's loop is handed, a server ends as the outcomes of its own checks make it,
-- taken in their order: the events of other servers do not touch it.
pub cycle_refines :
    (es : List Event) (c : Checker) (i : ℕ) (s : Srv)
    → get_elem? c.srvs i ≡ some s
    → get_elem? (cycle c es).srvs i ≡ some (check_run (verdicts i s.check_timeout es) s)
unfolding cycle
cycle_refines [] c i s h = h ∙ unfold check_run in refl
cycle_refines (e ∷ es) c i s h =
    let t : Srv = check_run (verdict i s.check_timeout e) s in
    cycle_refines es (step c e) i t (step-verdict c e i s h)
    ∙ ap some (
        ap (λ n. check_run (verdicts i n es) t) (check-timeout (verdict i s.check_timeout e) s)
        ∙ sym (check_run-append (verdict i s.check_timeout e) (verdicts i s.check_timeout es) s))
