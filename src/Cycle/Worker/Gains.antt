-- ===== src/Cycle/Worker/Gains.antt =====
-- How the policies of src/uct_upstream.c change the connections that the servers count.
use umicat.Base.{
  ℕ, zero, suc, ◌+◌, ◌%◌, ◌^◌, ◌≡◌, ◌≢◌, refl, ap, ◌∙◌, ◌⊎◌, inl, inr, Bool, true, false, List, [],
  ◌∷◌, Option, none, some, arith, length, get_elem?, Bool-cases, Option-cases,
}
use umicat.Base.Int.{ℤ, pos, negsuc, leb_ℤ}
use umicat.Base.Word.{add64}
use umicat.Upstream.Server.{Srv, modify}
use umicat.Upstream.RoundRobin.{revive, visit, accumulate, round_robin_get}
use umicat.Upstream.Random.{weigh, add_weights, random_get, remainder}
use umicat.Upstream.Connect.{Mode, http, connect, on_success, on_failure, judge, count_fail}
use umicat.Upstream.Connect.Weight.Success.{on_success_fields}
use umicat.Upstream.Ring.{RingPoint}
use umicat.Upstream.Select.{
  Policy, round_robin, ip_hash, least_conn, random, heuristic, unknown, Conn, Env, reply,
  connect_best, connect_choice, round_robin_get_conn, random_get_conn, heuristic_get_conn,
  ip_hash_get_conn, get_connection,
}
use umicat.Connection.Events.Account.{connections}

-- The servers count `more` connections more than before, up to wrapping, and are as many.
pub record Gains (more : ℕ) (before after : List Srv) : Type 0 where
  pub counted : connections after % 2 ^ 64 ≡ (connections before + more) % 2 ^ 64
  pub as_many : length after ≡ length before

Gains-refl : (ss : List Srv) → Gains 0 ss ss
Gains-refl ss = record { counted = omega arith; as_many = refl }

Gains-trans : (n : ℕ) (xs ys zs : List Srv) → Gains 0 xs ys → Gains n ys zs → Gains n xs zs
Gains-trans n xs ys zs g h = record {
  counted = omega (arith, g.counted, h.counted);
  as_many = h.as_many ∙ g.as_many;
}

-- A change of a server that leaves its count alone.
modify-Gains :
    (ss : List Srv) (i : ℕ) (f : Srv → Srv)
    → ((s : Srv) → (f s).connection_n ≡ s.connection_n)
    → Gains 0 ss (modify ss i f)
unfolding modify
modify-Gains [] i f h = record { counted = omega arith; as_many = refl }
modify-Gains (s ∷ ss) zero f h = record { counted = omega (arith, h s); as_many = refl }
modify-Gains (s ∷ ss) (suc i) f h =
    let rest = modify-Gains ss i f h in
    record { counted = omega (arith, rest.counted); as_many = ap suc rest.as_many }

-- A server that is replaced by one with `more` connections more.
replace-Gains :
    (more : ℕ) (ss : List Srv) (i : ℕ) (s t : Srv)
    → get_elem? ss i ≡ some s
    → t.connection_n % 2 ^ 64 ≡ (s.connection_n + more) % 2 ^ 64
    → Gains more ss (modify ss i (λ _. t))
unfolding modify
replace-Gains more [] i s t g h = cc
replace-Gains more (x ∷ ss) zero s t g h =
    let same : x.connection_n ≡ s.connection_n = ground (arith) in
    record { counted = omega (arith, same, h); as_many = refl }
replace-Gains more (x ∷ ss) (suc i) s t g h =
    let rest = replace-Gains more ss i s t g h in
    record { counted = omega (arith, rest.counted); as_many = ap suc rest.as_many }

-- Choosing a server counts nothing.
visit_keeps : (now : ℕ) (total : ℤ) (s : Srv) → (visit now total s).1.connection_n ≡ s.connection_n
unfolding visit revive
visit_keeps now total s = ground arith

weigh_keeps : (now : ℕ) (total : ℤ) (s : Srv) → (weigh now total s).1.connection_n ≡ s.connection_n
unfolding weigh revive
weigh_keeps now total s = ground arith

accumulate-Gains : (now : ℕ) (total : ℤ) (ss : List Srv) → Gains 0 ss (accumulate now total ss).1
unfolding accumulate
accumulate-Gains now total [] = record { counted = omega arith; as_many = refl }
accumulate-Gains now total (s ∷ ss) =
    let rest = accumulate-Gains now (visit now total s).0 ss in
    record {
      counted = omega (arith, rest.counted, visit_keeps now total s);
      as_many = ap suc rest.as_many;
    }

add_weights-Gains : (now : ℕ) (total : ℤ) (ss : List Srv) → Gains 0 ss (add_weights now total ss).1
unfolding add_weights
add_weights-Gains now total [] = record { counted = omega arith; as_many = refl }
add_weights-Gains now total (s ∷ ss) =
    let rest = add_weights-Gains now (weigh now total s).0 ss in
    record {
      counted = omega (arith, rest.counted, weigh_keeps now total s);
      as_many = ap suc rest.as_many;
    }

round_robin_get-Gains : (ss : List Srv) (now : ℕ) → Gains 0 ss (round_robin_get ss now).1
unfolding round_robin_get
round_robin_get-Gains ss now =
    let visited = accumulate now (pos 0) ss in
    Gains-trans 0 ss visited.1 _ (accumulate-Gains now (pos 0) ss)
      (modify-Gains visited.1 _ _ (λ s. refl))

random_get-Gains : (ss : List Srv) (now later r : ℕ) → Gains 0 ss (random_get ss now later r).1
unfolding random_get
random_get-Gains ss now later r = elim (Option-cases (remainder r (add_weights now (pos 0) ss).0)) [
  | inl e ↦ rw (e, random_get) (add_weights-Gains now (pos 0) ss)
  | inr (left, e) ↦ rw (e, random_get) (add_weights-Gains now (pos 0) ss)
]

-- A connection that is returned is counted once.
abbrev pub opened : Option Conn → ℕ
opened none = 0
opened (some c) = 1

on_failure_keeps : (now : ℕ) (s : Srv) → (on_failure now s).connection_n ≡ s.connection_n
unfolding on_failure judge count_fail
on_failure_keeps now s = ground arith

connect_cases :
    (mode : Mode) (fd : ℤ) (locked : Bool) (now : ℕ) (s : Srv)
    → (((connect mode fd locked now s).0 ≡ negsuc 0)
        × ((connect mode fd locked now s).1.connection_n ≡ s.connection_n))
      ⊎ ((connect mode fd locked now s ≡ (fd, on_success s)) × (leb_ℤ fd (pos 0) ≡ false))
unfolding connect
connect_cases http fd locked now s = inl (refl, refl)
connect_cases mode fd true now s = elim (Bool-cases (leb_ℤ fd (pos 0))) [
  | inl e ↦ inl (rw e (refl, on_failure_keeps now s))
  | inr e ↦ inr (rw e (refl, refl))
]
connect_cases mode fd false now s = elim (Bool-cases (leb_ℤ fd (pos 0))) [
  | inl e ↦ inl (rw e (refl, refl))
  | inr e ↦ inl (rw e (refl, refl))
]

opened-reply :
    (s : Srv) (best : ℕ) (fd : ℤ) → leb_ℤ fd (pos 0) ≡ false → opened (reply s best fd) ≡ 1
unfolding reply
opened-reply s best fd e = rw e

reply_refused : (s : Srv) (best : ℕ) → opened (reply s best (negsuc 0)) ≡ 0
unfolding reply
reply_refused s best = refl

on_success_counts : (s : Srv) → (on_success s).connection_n % 2 ^ 64 ≡ (s.connection_n + 1) % 2 ^ 64
unfolding add64
on_success_counts s = omega (arith, (on_success_fields s).2)

connect_best-Gains :
    (env : Env) (mode : Mode) (ss : List Srv) (best : ℕ)
    → let r = connect_best env mode ss best in Gains (opened r.0) ss r.1
unfolding connect_best
connect_best-Gains env mode ss best = elim (Option-cases (get_elem? ss best)) [
  | inl n ↦ rw (n, connect_best) (Gains-refl ss)
  | inr (s, g) ↦
      let fd = env.socket_to mode s in
      elim (connect_cases mode fd (env.locks s) env.connect_time s) [
        | inl (f, k) ↦
            rw (g, connect_best)
              (rw (f, reply_refused s best) (replace-Gains 0 ss best s _ g (omega (arith, k))))
        | inr (e, f) ↦
            rw (g, connect_best)
              (rw (e, opened-reply s best fd f)
                (replace-Gains 1 ss best s (on_success s) g (on_success_counts s)))
      ]
]

connect_choice-Gains :
    (env : Env) (mode : Mode) (ss : List Srv) (choice : Option ℕ)
    → let r = connect_choice env mode ss choice in Gains (opened r.0) ss r.1
unfolding connect_choice
connect_choice-Gains env mode ss none = Gains-refl ss
connect_choice-Gains env mode ss (some best) = connect_best-Gains env mode ss best

-- Under every policy but `least_conn`, the servers count one connection more if one is returned, and
-- none more if none is.
pub get_connection-Gains :
    (policy : Policy) (env : Env) (mode : Mode) (ring : List RingPoint) (ip : List ℕ)
    (ss : List Srv)
    → policy ≢ least_conn
    → let r = get_connection policy env mode ring ip ss in Gains (opened r.0) ss r.1
unfolding get_connection round_robin_get_conn random_get_conn heuristic_get_conn ip_hash_get_conn
get_connection-Gains round_robin env mode ring ip ss h =
    Gains-trans _ ss _ _ (round_robin_get-Gains ss env.now) (connect_best-Gains env mode _ _)
get_connection-Gains ip_hash env mode ring ip ss h = connect_choice-Gains env mode ss _
get_connection-Gains least_conn env mode ring ip ss h = absurd (h refl)
get_connection-Gains random env mode ring ip ss h =
    Gains-trans _ ss _ _ (random_get-Gains ss env.now env.later env.rand)
      (connect_choice-Gains env mode _ _)
get_connection-Gains heuristic env mode ring ip ss h = connect_best-Gains env mode ss _
get_connection-Gains unknown env mode ring ip ss h = Gains-refl ss
