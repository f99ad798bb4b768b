-- ===== src/Cycle/Config/Fair.antt =====
-- Round robin (src/uct_upstream.c) on the servers that the configuration names (src/uct_cycle.c).
use umicat.Base.{
  ℕ, zero, suc, ◌<◌, ◌≡◌, refl, ap, sym, ◌∙◌, List, [], ◌∷◌, some, arith, length, get_elem?, subst,
}
use mathlib.Core.Option.{some-injective}
use umicat.Base.Int.{ℤ, pos, ◌≤ℤ◌, sum_ℤ}
use umicat.Upstream.Server.{Srv}
use umicat.Upstream.RoundRobin.{rounds}
use umicat.Upstream.RoundRobin.Healthy.{effective}
use umicat.Upstream.RoundRobin.Even.{tally}
use umicat.Upstream.RoundRobin.Fairness.{IsFresh, round_robin_fair}
use umicat.Strings.Bytes.{codes}
use umicat.Cycle.Config.{JsonApi, ok, conf_parse_upstream}
use umicat.Cycle.Config.Servers.{AllNew, conf_parse_upstream-AllNew}
use umicat.Cycle.Config.Servers.Described.{
  HasInt, Describes, AllDescribe, HaveWeights, conf_parse_upstream-AllDescribe,
}

-- Weights that are not negative.
abbrev NoneNegative : List Srv → Type 0
NoneNegative [] = Unit {0}
NoneNegative (s ∷ ss) = (pos 0 ≤ℤ s.weight) × NoneNegative ss

abbrev weight_of : Srv → ℤ
weight_of s = s.weight

AllNew-IsFresh : (ss : List Srv) → AllNew ss → NoneNegative ss → IsFresh ss
AllNew-IsFresh [] n h = tt
AllNew-IsFresh (s ∷ ss) n h = (n.0.up, rw n.0.full h.0, n.0.still, AllNew-IsFresh ss n.1 h.1)

AllNew-weights : (ss : List Srv) → AllNew ss → sum_ℤ effective ss ≡ sum_ℤ weight_of ss
unfolding sum_ℤ
AllNew-weights [] n = refl
AllNew-weights (s ∷ ss) n = rw (n.0.full, AllNew-weights ss n.1)

AllNew-full :
    (ss : List Srv) (i : ℕ) (s : Srv)
    → AllNew ss
    → get_elem? ss i ≡ some s
    → s.effective_weight ≡ s.weight
AllNew-full [] i s n g = cc
AllNew-full (x ∷ ss) zero s n g = ground (arith, n.0.full)
AllNew-full (x ∷ ss) (suc i) s n g = AllNew-full ss i s n.1 g

abbrev AllNonNegative : List ℤ → Type 0
AllNonNegative [] = Unit {0}
AllNonNegative (v ∷ ws) = (pos 0 ≤ℤ v) × AllNonNegative ws

module _ {Node : Type 0} (api : JsonApi Node) where
  HasInt-unique :
      (node : Node) (name : List ℕ) (v w : ℤ)
      → HasInt api node name v
      → HasInt api node name w
      → v ≡ w
  HasInt-unique node name v w (a, p, e) (b, q, f) =
      sym e ∙ ap api.valueint (some-injective a b (sym p ∙ q)) ∙ f

  AllDescribe-NoneNegative :
      (items : List Node) (ss : List Srv) (ws : List ℤ)
      → AllDescribe api items ss
      → HaveWeights api items ws
      → AllNonNegative ws
      → NoneNegative ss
  AllDescribe-NoneNegative [] [] [] d h n = tt
  AllDescribe-NoneNegative [] [] (v ∷ ws) d h n = elim h [ ]
  AllDescribe-NoneNegative [] (s ∷ ss) ws d h n = elim d [ ]
  AllDescribe-NoneNegative (item ∷ items) [] ws d h n = elim d [ ]
  AllDescribe-NoneNegative (item ∷ items) (s ∷ ss) [] d h n = elim h [ ]
  AllDescribe-NoneNegative (item ∷ items) (s ∷ ss) (v ∷ ws) d h n = (
    rw (HasInt-unique item _ s.weight v d.0.weight h.0) n.0,
    AllDescribe-NoneNegative items ss ws d.1 h.1 n.1,
  )

  AllDescribe-sum :
      (items : List Node) (ss : List Srv) (ws : List ℤ)
      → AllDescribe api items ss
      → HaveWeights api items ws
      → sum_ℤ weight_of ss ≡ sum_ℤ (λ v. v) ws
  unfolding sum_ℤ
  AllDescribe-sum [] [] [] d h = refl
  AllDescribe-sum [] [] (v ∷ ws) d h = elim h [ ]
  AllDescribe-sum [] (s ∷ ss) ws d h = elim d [ ]
  AllDescribe-sum (item ∷ items) [] ws d h = elim d [ ]
  AllDescribe-sum (item ∷ items) (s ∷ ss) [] d h = elim h [ ]
  AllDescribe-sum (item ∷ items) (s ∷ ss) (v ∷ ws) d h =
      rw (HasInt-unique item _ s.weight v d.0.weight h.0, AllDescribe-sum items ss ws d.1 h.1) refl

  AllDescribe-elem :
      (items : List Node) (ss : List Srv) (i : ℕ) (item : Node)
      → AllDescribe api items ss
      → get_elem? items i ≡ some item
      → (s : Srv) × (get_elem? ss i ≡ some s) × Describes api item s
  AllDescribe-elem [] ss i item d g = cc
  AllDescribe-elem (x ∷ items) [] i item d g = elim d [ ]
  AllDescribe-elem (x ∷ items) (s ∷ ss) zero item d g =
      (s, refl, subst (λ y. Describes api y s) (some-injective x item g) d.0)
  AllDescribe-elem (x ∷ items) (s ∷ ss) (suc i) item d g = AllDescribe-elem items ss i item d.1 g

-- From the configuration to the choices. If it is read without an error, and the weights in the items
-- of "upstream" are not negative and add up to w above 0, then there is a server for each item, with
-- its address, port and weight; and w choices of round robin in a row, whenever they are made, choose
-- that server exactly as often as the weight in the item says, and leave all servers as they were
-- configured.
pub configured_fair :
    {Node : Type 0} (api : JsonApi Node) (raw : ℕ → Srv) (root upstream : Node) (ss : List Srv)
    (ws : List ℤ) (w : ℕ) (nows : List ℕ) (i : ℕ) (item : Node) (v : ℤ)
    → conf_parse_upstream api raw root ≡ ok ss
    → api.object_item root (codes "upstream") ≡ some upstream
    → HaveWeights api (api.array_items upstream) ws
    → AllNonNegative ws
    → 0 < w
    → sum_ℤ (λ x. x) ws ≡ pos w
    → length nows ≡ w
    → get_elem? (api.array_items upstream) i ≡ some item
    → HasInt api item (codes "weight") v
    → ((rounds ss nows).1 ≡ ss)
      × ((s : Srv) × (get_elem? ss i ≡ some s)
          × Describes api item s
          × (pos (tally (rounds ss nows).0 i) ≡ v))
configured_fair api raw root upstream ss ws w nows i item v e u h n more sum l g hv =
    let items = api.array_items upstream in
    let new = conf_parse_upstream-AllNew api raw root ss e in
    let all = conf_parse_upstream-AllDescribe api raw root upstream ss u e in
    let none = AllDescribe-NoneNegative api items ss ws all h n in
    let (s, at, d) = AllDescribe-elem api items ss i item all g in
    let (back, often) =
      round_robin_fair w ss nows i s more (AllNew-IsFresh ss new none)
        (AllNew-weights ss new ∙ AllDescribe-sum api items ss ws all h ∙ sum) l at in
    (
      back,
      (
        s,
        at,
        d,
        often ∙ AllNew-full ss i s new at ∙ HasInt-unique api item _ s.weight v d.weight hv,
      ),
    )
