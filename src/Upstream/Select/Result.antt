-- ===== src/Upstream/Select/Result.antt =====
-- What a caller of `uct_upstream_get_connetion` may rely on, whichever policy is in force.
use umicat.Base.{
  ℕ, ◌≡◌, refl, sym, ap, ◌∙◌, ◌⊎◌, inl, inr, Bool, true, false, List, Option, none, some, get_elem?,
  Bool-cases, Option-cases, subst,
}
use umicat.Base.Int.{ℤ, pos, negsuc, leb_ℤ}
use umicat.Base.Word.{add64}
use mathlib.Core.Option.{some-injective}
use umicat.Strings.Number.{itoa}
use umicat.Upstream.Server.{Srv, modify, get_elem?-modify_self}
use umicat.Upstream.Connect.{Mode, http, connect, on_success}
use umicat.Upstream.Connect.Weight.Success.{on_success_fields}
use umicat.Upstream.LeastConn.{least_conn_get}
use umicat.Upstream.Ring.{RingPoint}
use umicat.Upstream.Select.{
  Policy, round_robin, ip_hash, least_conn, random, heuristic, unknown, Conn, Env, reply,
  connect_best, connect_choice, round_robin_get_conn, least_conn_get_conn, random_get_conn,
  heuristic_get_conn, ip_hash_get, ip_hash_get_conn, get_connection,
}

connect_cases :
    (mode : Mode) (fd : ℤ) (locked : Bool) (now : ℕ) (s : Srv)
    → ((connect mode fd locked now s).0 ≡ negsuc 0)
      ⊎ ((connect mode fd locked now s ≡ (fd, on_success s)) × (leb_ℤ fd (pos 0) ≡ false))
unfolding connect
connect_cases http fd locked now s = inl refl
connect_cases mode fd true now s = elim (Bool-cases (leb_ℤ fd (pos 0))) [
  | inl e ↦ inl (rw e refl)
  | inr e ↦ inr (rw e (refl, refl))
]
connect_cases mode fd false now s = elim (Bool-cases (leb_ℤ fd (pos 0))) [
  | inl e ↦ inl (rw e refl)
  | inr e ↦ inl (rw e refl)
]

-- A connection `c` was opened to the server at its index, which was `s` just before.
record Opened (srvs after : List Srv) (best : ℕ) (c : Conn) : Type 0 where
  pub index : c.upstream_srv ≡ best
  pub server : Srv
  pub found : get_elem? srvs c.upstream_srv ≡ some server
  pub open_fd : leb_ℤ c.fd (pos 0) ≡ false
  pub left : get_elem? after c.upstream_srv ≡ some (on_success server)

connect_best_eq :
    (env : Env) (mode : Mode) (srvs : List Srv) (best : ℕ) (s : Srv)
    → get_elem? srvs best ≡ some s
    → let r = connect mode (env.socket_to mode s) (env.locks s) env.connect_time s in
      connect_best env mode srvs best ≡ (reply s best r.0, modify srvs best (λ _. r.1))
unfolding connect_best
connect_best_eq env mode srvs best s g = rw (g, connect_best) refl

connect_best-none :
    (env : Env) (mode : Mode) (srvs : List Srv) (best : ℕ)
    → get_elem? srvs best ≡ none
    → (connect_best env mode srvs best).0 ≡ none
unfolding connect_best
connect_best-none env mode srvs best g = rw (g, connect_best) refl

reply_refused : (s : Srv) (best : ℕ) → reply s best (negsuc 0) ≡ none
unfolding reply
reply_refused s best = refl

reply-Opened :
    (srvs : List Srv) (s : Srv) (best : ℕ) (fd : ℤ) (c : Conn)
    → get_elem? srvs best ≡ some s
    → leb_ℤ fd (pos 0) ≡ false
    → reply s best fd ≡ some c
    → Opened srvs (modify srvs best (λ _. on_success s)) best c
unfolding reply
reply-Opened srvs s best fd c g o e =
    let same : record {
      fd = fd;
      ip_text = s.upstream_ip;
      port_text = itoa (pos s.upstream_port) 10;
      upstream_srv = best;
    }
        ≡ c =
      some-injective _ c (rw o at e) in
    subst (λ (d : Conn). Opened srvs (modify srvs best (λ _. on_success s)) best d) same
      (record {
        index = refl;
        server = s;
        found = g;
        open_fd = o;
        left = get_elem?-modify_self srvs best s (λ _. on_success s) g;
      })

connect_best-Opened :
    (env : Env) (mode : Mode) (srvs : List Srv) (best : ℕ) (c : Conn)
    → (connect_best env mode srvs best).0 ≡ some c
    → Opened srvs (connect_best env mode srvs best).1 best c
connect_best-Opened env mode srvs best c e = elim (Option-cases (get_elem? srvs best)) [
  | inl n ↦ absurd (cc (connect_best-none env mode srvs best n))
  | inr (s, g) ↦
      let fd : ℤ = env.socket_to mode s in
      elim (connect_cases mode fd (env.locks s) env.connect_time s) [
        | inl r ↦ absurd (
            cc (
              ap (λ (t : Option Conn × List Srv). t.0) (connect_best_eq env mode srvs best s g),
              ap (reply s best) r,
              reply_refused s best,
            ))
        | inr (r, o) ↦
            let q : connect_best env mode srvs best
                ≡ (reply s best fd, modify srvs best (λ _. on_success s)) =
              connect_best_eq env mode srvs best s g
              ∙ ap (λ (t : ℤ × Srv). (reply s best t.0, modify srvs best (λ _. t.1))) r in
            rw q (reply-Opened srvs s best fd c g o (rw q at e))
      ]
]

-- The server of a connection as it is when the connection has been opened.
pub record Served (after : List Srv) (c : Conn) : Type 0 where
  pub server : Srv
  pub stands : get_elem? after c.upstream_srv ≡ some server
  pub up : server.is_down ≡ false
  pub opened : leb_ℤ c.fd (pos 0) ≡ false

Opened-Served :
    (srvs after : List Srv) (best : ℕ) (c : Conn) → Opened srvs after best c → Served after c
Opened-Served srvs after best c o = record {
  server = on_success o.server;
  stands = o.left;
  up = (on_success_fields o.server).1;
  opened = o.open_fd;
}

Served-best :
    (env : Env) (mode : Mode) (srvs : List Srv) (best : ℕ) (c : Conn)
    → (connect_best env mode srvs best).0 ≡ some c
    → Served (connect_best env mode srvs best).1 c
Served-best env mode srvs best c e =
    Opened-Served srvs _ best c (connect_best-Opened env mode srvs best c e)

Served-choice :
    (env : Env) (mode : Mode) (srvs : List Srv) (choice : Option ℕ) (c : Conn)
    → (connect_choice env mode srvs choice).0 ≡ some c
    → Served (connect_choice env mode srvs choice).1 c
unfolding connect_choice
Served-choice env mode srvs none c e = absurd (cc e)
Served-choice env mode srvs (some best) c e = Served-best env mode srvs best c e

-- Whatever the policy, the mode and the answers of the system, a connection that is returned has a
-- descriptor above 0 and names a server of the array, which is up when the call is over.
pub get_connection-Served :
    (policy : Policy) (env : Env) (mode : Mode) (ring : List RingPoint) (client_ip : List ℕ)
    (srvs : List Srv) (c : Conn)
    → (get_connection policy env mode ring client_ip srvs).0 ≡ some c
    → Served (get_connection policy env mode ring client_ip srvs).1 c
unfolding get_connection round_robin_get_conn least_conn_get_conn random_get_conn heuristic_get_conn
    ip_hash_get_conn
get_connection-Served round_robin env mode ring ip srvs c e = Served-best env mode _ _ c e
get_connection-Served ip_hash env mode ring ip srvs c e =
    Served-choice env mode srvs (ip_hash_get env.digest srvs ring ip) c e
get_connection-Served least_conn env mode ring ip srvs c e = Served-best env mode _ _ c e
get_connection-Served random env mode ring ip srvs c e = Served-choice env mode _ _ c e
get_connection-Served heuristic env mode ring ip srvs c e = Served-best env mode srvs _ c e
get_connection-Served unknown env mode ring ip srvs c e = absurd (cc e)

-- If `least_conn` returns a connection, it has counted it twice: once when it chose the server,
-- which is one of the array, and once when it connected.
pub least_conn_counts_twice :
    (env : Env) (mode : Mode) (srvs : List Srv) (c : Conn) (s : Srv)
    → (least_conn_get_conn env mode srvs).0 ≡ some c
    → get_elem? srvs c.upstream_srv ≡ some s
    → (t : Srv) × (get_elem? (least_conn_get_conn env mode srvs).1 c.upstream_srv ≡ some t)
      × (t.connection_n ≡ add64 (add64 s.connection_n 1) 1)
unfolding least_conn_get_conn least_conn_get
least_conn_counts_twice env mode srvs c s e g = (
  on_success o.server,
  o.left,
  (on_success_fields o.server).2
      ∙ ap (λ (r : Srv). add64 r.connection_n 1) (some-injective _ _ (sym o.found ∙ counted)),
)
  where
    best : ℕ
    best = (least_conn_get srvs env.now).0

    chosen : List Srv
    chosen = (least_conn_get srvs env.now).1

    o : Opened chosen (least_conn_get_conn env mode srvs).1 best c
    o = connect_best-Opened env mode chosen best c e

    counted :
        get_elem? chosen c.upstream_srv ≡ some (record s { connection_n = add64 s.connection_n 1 })
    counted =
        ap (get_elem? chosen) o.index
        ∙ get_elem?-modify_self srvs best s _ (ap (get_elem? srvs) (sym o.index) ∙ g)
