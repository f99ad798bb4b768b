-- ===== src/Cycle/Config/Servers/Described.antt =====
-- What the items of the configuration say of the servers (`uct_conf_parse_upstream` of
-- src/uct_cycle.c).
use umicat.Base.{ℕ, suc, ◌≡◌, ap, sym, List, [], ◌∷◌, Option, none, some, subst}
use umicat.Base.Int.{ℤ}
use umicat.Base.Word.{to_u64}
use umicat.Upstream.Server.{Srv}
use umicat.Strings.Bytes.{codes}
use umicat.Strings.Compare.{cpystrn}
use umicat.Cycle.Config.{
  JsonApi, ok, deref, int_item, string_item, string_in, parse_check, parse_server, parse_servers,
  conf_parse_upstream,
}
use umicat.Cycle.Config.Servers.{>>=-ok, ok-injective}

deref-ok {ℓ} : {A : Type ℓ} (x : Option A) {a : A} → deref x ≡ ok a → x ≡ some a
deref-ok none e = cc
deref-ok (some b) e = cc

module _ {Node : Type 0} (api : JsonApi Node) where
  -- The node has an item of this name with this number, or with this text.
  abbrev pub HasInt : Node → List ℕ → ℤ → Type 0
  HasInt node name v =
      (item : Node) × (api.object_item node name ≡ some item) × (api.valueint item ≡ v)

  abbrev pub HasText : Node → List ℕ → List ℕ → Type 0
  HasText node name text =
      (item : Node) × (api.object_item node name ≡ some item) × (api.valuestring item ≡ some text)

  -- The server has the address, cut to the 63 bytes that are kept, the port and the weight of the item.
  pub record Describes (node : Node) (s : Srv) : Type 0 where
    pub address :
        (text : List ℕ) × HasText node (codes "upstream_ip") text
        × (s.upstream_ip ≡ string_in (cpystrn text 64))
    pub port : (p : ℤ) × HasInt node (codes "upstream_port") p × (s.upstream_port ≡ to_u64 p)
    pub weight : HasInt node (codes "weight") s.weight

  abbrev pub AllDescribe : List Node → List Srv → Type 0
  AllDescribe [] [] = Unit {0}
  AllDescribe [] (s ∷ ss) = ⊥
  AllDescribe (item ∷ items) [] = ⊥
  AllDescribe (item ∷ items) (s ∷ ss) = Describes item s × AllDescribe items ss

  -- The numbers under "weight" in the items.
  abbrev pub HaveWeights : List Node → List ℤ → Type 0
  HaveWeights [] [] = Unit {0}
  HaveWeights [] (v ∷ ws) = ⊥
  HaveWeights (item ∷ items) [] = ⊥
  HaveWeights (item ∷ items) (v ∷ ws) = HasInt item (codes "weight") v × HaveWeights items ws

  int_item-HasInt :
      (node : Node) (name : List ℕ) {v : ℤ} → int_item api node name ≡ ok v → HasInt node name v
  unfolding int_item
  int_item-HasInt node name e =
      let (item, e0, p) = >>=-ok (deref (api.object_item node name)) _ e in
      (item, deref-ok _ p, ok-injective e0)

  string_item-HasText :
      (node : Node) (name : List ℕ) {text : List ℕ}
      → string_item api node name ≡ ok text
      → HasText node name text
  unfolding string_item
  string_item-HasText node name e =
      let (item, e0, p) = >>=-ok (deref (api.object_item node name)) _ e in
      (item, deref-ok _ p, deref-ok _ e0)

  parse_check_keeps :
      (check : Option Node) (s t : Srv)
      → parse_check api check s ≡ ok t
      → (t.upstream_ip ≡ s.upstream_ip)
        × (t.upstream_port ≡ s.upstream_port)
        × (t.weight ≡ s.weight)
  unfolding parse_check
  parse_check_keeps none s t e =
      let same = sym (ok-injective e) in
      (ap (λ x. x.upstream_ip) same, ap (λ x. x.upstream_port) same, ap (λ x. x.weight) same)
  parse_check_keeps (some c) s t e =
      let (name, e0, p0) = >>=-ok (string_item api c (codes "type")) _ e in
      let (port, e1, p1) = >>=-ok (int_item api c (codes "port")) _ e0 in
      let (interval, e2, p2) = >>=-ok (int_item api c (codes "interval")) _ e1 in
      let (timeout, e3, p3) = >>=-ok (int_item api c (codes "timeout")) _ e2 in
      let (fall, e4, p4) = >>=-ok (int_item api c (codes "fall")) _ e3 in
      let (rise, e5, p5) = >>=-ok (int_item api c (codes "rise")) _ e4 in
      let same = sym (ok-injective e5) in
      (ap (λ x. x.upstream_ip) same, ap (λ x. x.upstream_port) same, ap (λ x. x.weight) same)

  parse_server-Describes :
      (raw s : Srv) (uit : Node) → parse_server api raw uit ≡ ok s → Describes uit s
  unfolding parse_server
  parse_server-Describes raw s uit e =
      let (ip, e0, p0) = >>=-ok (string_item api uit (codes "upstream_ip")) _ e in
      let (port, e1, p1) = >>=-ok (int_item api uit (codes "upstream_port")) _ e0 in
      let (weight, e2, p2) = >>=-ok (int_item api uit (codes "weight")) _ e1 in
      let (max, e3, p3) = >>=-ok (int_item api uit (codes "max_fails")) _ e2 in
      let (time, e4, p4) = >>=-ok (int_item api uit (codes "fail_timeout")) _ e3 in
      let (back, e5, p5) = >>=-ok (int_item api uit (codes "is_fallback")) _ e4 in
      let (window, e6, p6) = >>=-ok (int_item api uit (codes "traffic_window")) _ e5 in
      let (same_ip, same_port, same_weight) = parse_check_keeps _ _ s e6 in
      record {
        address = (ip, string_item-HasText uit _ p0, same_ip);
        port = (port, int_item-HasInt uit _ p1, same_port);
        weight = subst (HasInt uit (codes "weight")) (sym same_weight) (int_item-HasInt uit _ p2);
      }

  parse_servers-AllDescribe :
      (raw : ℕ → Srv) (i : ℕ) (items : List Node) (ss : List Srv)
      → parse_servers api raw i items ≡ ok ss
      → AllDescribe items ss
  unfolding parse_servers
  parse_servers-AllDescribe raw i [] ss e = subst (AllDescribe []) (ok-injective e) tt
  parse_servers-AllDescribe raw i (uit ∷ items) ss e =
      let (s, e0, p) = >>=-ok (parse_server api (raw i) uit) _ e in
      let (rest, e1, q) = >>=-ok (parse_servers api raw (suc i) items) _ e0 in
      subst (AllDescribe (uit ∷ items)) (ok-injective e1)
        (parse_server-Describes (raw i) s uit p, parse_servers-AllDescribe raw (suc i) items rest q)

  pub conf_parse_upstream-AllDescribe :
      (raw : ℕ → Srv) (root upstream : Node) (ss : List Srv)
      → api.object_item root (codes "upstream") ≡ some upstream
      → conf_parse_upstream api raw root ≡ ok ss
      → AllDescribe (api.array_items upstream) ss
  unfolding conf_parse_upstream
  conf_parse_upstream-AllDescribe raw root upstream ss p e =
      parse_servers-AllDescribe raw 0 (api.array_items upstream) ss
        (rw (p, conf_parse_upstream) at e)
