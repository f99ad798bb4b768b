-- ===== src/Cycle/Config/Servers.antt =====
-- The servers that `uct_conf_parse_upstream` (src/uct_cycle.c) reads, as no policy has touched them.
pub mod Described
use umicat.Base.{
  ℕ, suc, ◌≡◌, refl, ap, false, List, [], ◌∷◌, Option, none, some, arith, length, subst,
  Option-cases, inl, inr,
}
use umicat.Base.Int.{pos}
use umicat.Upstream.Server.{Srv}
use umicat.Strings.Bytes.{codes}
use umicat.Cycle.Config.{
  JsonApi, Outcome, ok, error_return, null_read, ◌>>=◌, int_item, string_item, parse_check,
  parse_server, parse_servers, conf_parse_upstream,
}

-- A server as no policy and no check has touched it yet.
pub record IsNew (s : Srv) : Type 0 where
  pub up : s.is_down ≡ false
  pub full : s.effective_weight ≡ s.weight
  pub still : s.current_weight ≡ pos 0
  pub idle : s.connection_n ≡ 0

abbrev pub AllNew : List Srv → Type 0
AllNew [] = Unit {0}
AllNew (s ∷ ss) = IsNew s × AllNew ss

-- Two steps that went well: the value that passed between them.
pub >>=-ok {ℓ κ} :
    {A : Type ℓ} {B : Type κ} (step : Outcome A) (next : A → Outcome B) {result : B}
    → (step >>= next) ≡ ok result
    → (value : A) × (next value ≡ ok result) × (step ≡ ok value)
>>=-ok null_read next went = cc
>>=-ok error_return next went = cc
>>=-ok (ok value) next went = (value, went, refl)

pub ok-injective {ℓ} : {A : Type ℓ} {a b : A} → ok a ≡ ok b → a ≡ b
ok-injective h = cc

module _ {Node : Type 0} (api : JsonApi Node) where
  parse_check-IsNew :
      (check : Option Node) (s t : Srv) → IsNew s → parse_check api check s ≡ ok t → IsNew t
  unfolding parse_check
  parse_check-IsNew none s t v e = ground (arith, v.up)
  parse_check-IsNew (some c) s t v e =
      let (name, e0, p0) = >>=-ok (string_item api c (codes "type")) _ e in
      let (port, e1, p1) = >>=-ok (int_item api c (codes "port")) _ e0 in
      let (interval, e2, p2) = >>=-ok (int_item api c (codes "interval")) _ e1 in
      let (timeout, e3, p3) = >>=-ok (int_item api c (codes "timeout")) _ e2 in
      let (fall, e4, p4) = >>=-ok (int_item api c (codes "fall")) _ e3 in
      let (rise, e5, p5) = >>=-ok (int_item api c (codes "rise")) _ e4 in ground (arith, v.up, e5)

  parse_server-IsNew : (raw s : Srv) (uit : Node) → parse_server api raw uit ≡ ok s → IsNew s
  unfolding parse_server
  parse_server-IsNew raw s uit e =
      let (ip, e0, p0) = >>=-ok (string_item api uit (codes "upstream_ip")) _ e in
      let (port, e1, p1) = >>=-ok (int_item api uit (codes "upstream_port")) _ e0 in
      let (weight, e2, p2) = >>=-ok (int_item api uit (codes "weight")) _ e1 in
      let (max, e3, p3) = >>=-ok (int_item api uit (codes "max_fails")) _ e2 in
      let (time, e4, p4) = >>=-ok (int_item api uit (codes "fail_timeout")) _ e3 in
      let (back, e5, p5) = >>=-ok (int_item api uit (codes "is_fallback")) _ e4 in
      let (window, e6, p6) = >>=-ok (int_item api uit (codes "traffic_window")) _ e5 in
      parse_check-IsNew _ _ s (record { up = refl; full = refl; still = refl; idle = refl }) e6

  parse_servers-AllNew :
      (raw : ℕ → Srv) (i : ℕ) (items : List Node) (ss : List Srv)
      → parse_servers api raw i items ≡ ok ss
      → AllNew ss × (length ss ≡ length items)
  unfolding parse_servers
  parse_servers-AllNew raw i [] ss e =
      let none_left : [] ≡ ss = ok-injective e in
      subst (λ (r : List Srv). AllNew r × (length r ≡ 0)) none_left (tt, refl)
  parse_servers-AllNew raw i (uit ∷ items) ss e =
      let (s, e0, p) = >>=-ok (parse_server api (raw i) uit) _ e in
      let (rest, e1, q) = >>=-ok (parse_servers api raw (suc i) items) _ e0 in
      let (new, len) = parse_servers-AllNew raw (suc i) items rest q in
      subst (λ (r : List Srv). AllNew r × (length r ≡ suc (length items))) (ok-injective e1)
        ((parse_server-IsNew (raw i) s uit p, new), ap suc len)

-- If the configuration is read without an error, each of its servers is up, idle, at its full weight
-- and with no current weight, whatever the memory of the array held.
pub conf_parse_upstream-AllNew :
    {Node : Type 0} (api : JsonApi Node) (raw : ℕ → Srv) (root : Node) (ss : List Srv)
    → conf_parse_upstream api raw root ≡ ok ss
    → AllNew ss
unfolding conf_parse_upstream
conf_parse_upstream-AllNew api raw root ss e =
    elim (Option-cases (api.object_item root (codes "upstream"))) [
      | inl n ↦
          let none_left : [] ≡ ss = ok-injective (rw (n, conf_parse_upstream) at e) in
          subst AllNew none_left tt
      | inr (u, p) ↦
          (parse_servers-AllNew api raw 0 (api.array_items u) ss
            (rw (p, conf_parse_upstream) at e)).0
    ]
