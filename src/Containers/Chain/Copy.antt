-- ===== src/Containers/Chain/Copy.antt =====
-- `uct_chain_add_copy`: which links are copied, and what they take from the pool.
use umicat.Base.{
  ℕ, suc, ◌-◌, ◌≡◌, refl, sym, ap, ◌∙◌, Bool, List, [], ◌∷◌, ◌++◌, map, length, take, drop,
  drop_nil, take_nil, leb, arith,
}
use umicat.Containers.Chain.{
  Link, Store, ChainPool, next_supply, alloc_chain_link, copy_links, chain_add_copy,
}
use umicat.Containers.Chain.Stream.{bufs}

abbrev pub addresses : List Link → List ℕ
addresses = map (λ cl. cl.at)

-- The addresses that links can be given: first those of the pool's list.
abbrev pub available : ChainPool → List ℕ
available p = addresses p.chain ++ p.supply

-- What the loop makes of `in_`: a copy of each link, or of as many as there are addresses for.
pub record Copied (in_ : List Link) (p : ChainPool) (r : Bool × List Link × ChainPool)
    : Type 0 where
  pub whole : r.0 ≡ leb (length in_) (length (available p))
  pub same_bufs : bufs r.1 ≡ take (length (available p)) (bufs in_)
  pub new_links : addresses r.1 ≡ take (length in_) (available p)
  pub chain_left : r.2.chain ≡ drop (length in_) p.chain
  pub supply_left : r.2.supply ≡ drop (length in_ - length p.chain) p.supply
  pub same_store : r.2.store ≡ p.store

abbrev pool : List Link → List ℕ → Store → ChainPool
pool c s st = record { chain = c; supply = s; store = st }

-- One more link, copied to the address `a`, in front of the others.
Copied-cons :
    (cl : Link) (in_ : List Link) (a : ℕ) (c c' : List Link) (s s' : List ℕ) (st : Store)
    → (r : Bool × List Link × ChainPool) → addresses c ++ s ≡ a ∷ addresses c' ++ s'
    → drop (length in_) c' ≡ drop (suc (length in_)) c
    → drop (length in_ - length c') s' ≡ drop (suc (length in_) - length c) s
    → Copied in_ (pool c' s' st) r
    → Copied (cl ∷ in_) (pool c s st) (r.0, record { at = a; buf = cl.buf } ∷ r.1, r.2)
Copied-cons cl in_ a c c' s s' st r e chain supply m = record {
  whole = rw e (m.whole ∙ ground arith);
  same_bufs = rw e (ap (◌∷◌ cl.buf) m.same_bufs);
  new_links = rw e (ap (◌∷◌ a) m.new_links);
  chain_left = m.chain_left ∙ chain;
  supply_left = m.supply_left ∙ supply;
  same_store = m.same_store;
}

copy_links-Copied :
    (in_ : List Link) (c : List Link) (s : List ℕ) (st : Store)
    → Copied in_ (pool c s st) (copy_links in_ (pool c s st))
unfolding copy_links alloc_chain_link next_supply
copy_links-Copied [] c s st =
    let none_ : 0 - length c ≡ 0 = omega arith in
    record {
      whole = ground arith;
      same_bufs = sym (take_nil (length (addresses c ++ s)));
      new_links = refl;
      chain_left = refl;
      supply_left = rw none_ refl;
      same_store = refl;
    }
copy_links-Copied (cl ∷ in_) [] [] st = record {
  whole = ground arith;
  same_bufs = refl;
  new_links = refl;
  chain_left = refl;
  supply_left = sym (drop_nil (suc (length in_) - 0));
  same_store = refl;
}
copy_links-Copied (cl ∷ in_) [] (a ∷ s) st =
    let one_more : suc (length in_) - 0 ≡ suc (length in_ - 0) = omega arith in
    Copied-cons cl in_ a [] [] (a ∷ s) s st _ refl (drop_nil (length in_)) (rw one_more refl)
      (copy_links-Copied in_ [] s st)
copy_links-Copied (cl ∷ in_) (link ∷ c) s st =
    let same : suc (length in_) - suc (length c) ≡ length in_ - length c = omega arith in
    Copied-cons cl in_ link.at (link ∷ c) c s s st _ refl refl (rw same refl)
      (copy_links-Copied in_ c s st)

-- The call appends copies of the links of `in_`, with their buffers, to the chain: of all of them,
-- and it gives UCT_OK, exactly if the pool has an address for each, and else of as many from the
-- front as it has addresses for. The links of the pool's list are used before its supply, in their
-- order, and no buffer is changed.
pub chain_add_copy-Copied :
    (chain in_ : List Link) (p : ChainPool)
    → (let r = chain_add_copy chain in_ p in
        (copies : List Link) × (r.1 ≡ chain ++ copies) × Copied in_ p (r.0, copies, r.2))
unfolding chain_add_copy
chain_add_copy-Copied chain in_ p =
    let r = copy_links in_ p in (r.1, refl, copy_links-Copied in_ p.chain p.supply p.store)
