-- ===== src/Containers/Chain/Create.antt =====
-- `uct_create_chain_of_bufs`: the blocks of the buffers, and when the pool has not enough.
use umicat.Base.{
  false, ℕ, zero, suc, ◌+◌, ◌-◌, ◌≤◌, ◌<◌, ◌≡◌, refl, ap, ◌∙◌, Option, none, some, List, [], ◌∷◌,
  length, arith, ◌==◌, ◌*◌, ◌^◌, sym, subst,
}
use umicat.Base.Int.{ℤ, pos, ◌+ℤ◌, ◌≤ℤ◌}
use umicat.Base.Word.{mul64-eq-mul}
use umicat.Base.Distinct.{NotIn, Distinct}
use umicat.Containers.Chain.Stream.{write_self, write_other}
use umicat.Containers.Chain.{
  prepend_link, Buf, Blocks, Link, Store, ChainPool, write, put, next_supply, and_then, calloc_buf,
  zero_buf, temp_buf, alloc_chain_link, create_bufs, create_chain_of_bufs,
}

-- Each buffer is empty, of `size` bytes, and its block is behind that of the one before, from `a` on.
abbrev pub Laid : ℕ → ℤ → List Link → Store → Type 0
Laid size a [] st = Unit {0}
Laid size a (cl ∷ cls) st =
    (st cl.buf ≡ temp_buf a (a +ℤ pos size) zero_buf) × Laid size (a +ℤ pos size) cls st

-- What `num` buffers and their links take from the supply: as many links as can be come from the
-- pool's list.
abbrev pub needed : ℕ → List Link → ℕ
needed num chain = num + (num - length chain)

-- A chain of `num` buffers, or a null pointer if the supply is too short.
abbrev pub Outcome : ℕ → ℤ → ℕ → ℕ → ℕ → Option (List Link) → Store → Type 0
Outcome size a num need have none st = have < need
Outcome size a num need have (some cls) st = (need ≤ have) × (length cls ≡ num) × Laid size a cls st

record Made (size : ℕ) (a : ℤ) (num : ℕ) (c : List Link) (s : List ℕ) (st : Store)
    (r : Option (List Link) × ChainPool) : Type 0 where
  outcome : Outcome size a num (needed num c) (length s) r.0 r.1.store
  outside : (b : ℕ) → NotIn b s → r.1.store b ≡ st b

abbrev pool : List Link → List ℕ → Store → ChainPool
pool c s st = record { chain = c; supply = s; store = st }

module _ (size : ℕ) (a : ℤ) (num b at : ℕ) (c c' : List Link) (s s' : List ℕ) (st st1 : Store) where
  -- One more buffer, at `b`, with a link at `at`, in front of those that the rest of the loop makes.
  Made-prepend :
      (r : Option (List Link) × ChainPool)
      → needed (suc num) c + length s' ≡ needed num c' + length s
      → NotIn b s'
      → ((x : ℕ) → NotIn x s → ((x == b) ≡ false) × NotIn x s')
      → st1 b ≡ temp_buf a (a +ℤ pos size) zero_buf
      → ((x : ℕ) → (x == b) ≡ false → st1 x ≡ st x)
      → Made size (a +ℤ pos size) num c' s' st1 r
      → Made size a (suc num) c s st (prepend_link (record { at = at; buf = b }) r)
  unfolding prepend_link
  Made-prepend (none, p) e n sub mine others m = record {
    outcome = let short : length s' < needed num c' = m.outcome in omega (arith, e, short);
    outside = λ x i. m.outside x (sub x i).1 ∙ others x (sub x i).0;
  }
  Made-prepend (some cls, p) e n sub mine others m = record {
    outcome =
        let (enough, len, laid) = m.outcome in
        (omega (arith, e, enough), ap suc len, (m.outside b n ∙ mine, laid));
    outside = λ x i. m.outside x (sub x i).1 ∙ others x (sub x i).0;
  }

-- The store when the buffer at `b` is set up.
module _ (size : ℕ) (a : ℤ) (b : ℕ) (st : Store) where
  abbrev set_up : Store
  set_up = write b (temp_buf a (a +ℤ pos size) (write b zero_buf st b)) (write b zero_buf st)

  set_up_self : set_up b ≡ temp_buf a (a +ℤ pos size) zero_buf
  set_up_self = write_self b _ _ ∙ rw (write_self b zero_buf st) refl

  set_up_other : (x : ℕ) → (x == b) ≡ false → set_up x ≡ st x
  set_up_other x e = write_other b _ _ x e ∙ write_other b zero_buf st x e

create_bufs-Made :
    (size : ℕ) (a : ℤ) (num : ℕ) (c : List Link) (s : List ℕ) (st : Store)
    → Distinct s
    → Made size a num c s st (create_bufs size a num (pool c s st))
unfolding create_bufs and_then calloc_buf next_supply put alloc_chain_link
create_bufs-Made size a zero c s st d = record {
  outcome = (omega arith, refl, tt);
  outside = λ b n. refl;
}
create_bufs-Made size a (suc num) c [] st d = record {
  outcome = omega arith;
  outside = λ b n. refl;
}
create_bufs-Made size a (suc num) (cl ∷ c) (b ∷ s) st d =
    let st1 = set_up size a b st in
    Made-prepend size a num b cl.at (cl ∷ c) c (b ∷ s) s st st1 _ (omega arith) d.0 (λ x n. n)
      (set_up_self size a b st) (set_up_other size a b st)
      (create_bufs-Made size (a +ℤ pos size) num c s st1 d.1)
create_bufs-Made size a (suc num) [] (b ∷ []) st d = record {
  outcome = omega arith;
  outside = λ x n. set_up_other size a b st x n.0;
}
create_bufs-Made size a (suc num) [] (b ∷ at ∷ s) st d =
    let st1 = set_up size a b st in
    Made-prepend size a num b at [] [] (b ∷ at ∷ s) s st st1 _ (omega arith) d.0.1
      (λ x n. (n.0, n.1.1)) (set_up_self size a b st) (set_up_other size a b st)
      (create_bufs-Made size (a +ℤ pos size) num [] s st1 d.1.1)

-- Every buffer of the chain has its block of `size` bytes inside that from `a` to `z`.
abbrev pub Inside : ℕ → ℤ → ℤ → List Link → Store → Type 0
Inside size a z [] st = Unit {0}
Inside size a z (cl ∷ cls) st =
    ((st cl.buf).end_ ≡ (st cl.buf).start +ℤ pos size)
    × (a ≤ℤ (st cl.buf).start)
    × ((st cl.buf).end_ ≤ℤ z)
    × Inside size a z cls st

pos_add : (a b : ℕ) → pos a +ℤ pos b ≡ pos (a + b)
unfolding ◌+ℤ◌
pos_add a b = ground arith

Laid-Inside :
    (size a b z : ℕ) (cls : List Link) (st : Store)
    → a ≤ b
    → b + length cls * size ≤ z
    → Laid size (pos b) cls st
    → Inside size (pos a) (pos z) cls st
unfolding temp_buf
Laid-Inside size a b z [] st h k l = tt
Laid-Inside size a b z (cl ∷ cls) st h k l =
    let start : (st cl.buf).start ≡ pos b = ap (λ (x : Buf). x.start) l.0 in
    let end_ : (st cl.buf).end_ ≡ pos (b + size) = ap (λ (x : Buf). x.end_) l.0 ∙ pos_add b size in
    let step : suc (length cls) * size ≡ size + length cls * size = grind arith in
    (
      end_ ∙ sym (rw start (pos_add b size)),
      rw start (omega arith),
      rw end_ (omega arith),
      Laid-Inside size a (b + size) z cls st (omega arith) (omega arith)
          (subst (λ x. Laid size x cls st) (pos_add b size) l.1),
    )

-- What the call comes to, by what the pool answered to the request for the block.
abbrev pub Created : Option ℕ → ℕ → ℕ → ℕ → ℕ → Option (List Link) → Store → Type 0
Created none num size need have r st = r ≡ none
Created (some a) num size need have none st = have < need
Created (some a) num size need have (some cls) st =
    (need ≤ have)
    × (length cls ≡ num)
    × Laid size (pos a) cls st
    × Inside size (pos a) (pos (a + num * size)) cls st

Created-outcome :
    (a num size need have : ℕ) (r : Option (List Link)) (st : Store)
    → Outcome size (pos a) num need have r st
    → Created (some a) num size need have r st
Created-outcome a num size need have none st o = o
Created-outcome a num size need have (some cls) st (enough, len, laid) = (
  enough,
  len,
  laid,
  Laid-Inside size a a (a + num * size) cls st (omega arith) (rw len (omega arith)) laid,
)

-- For a pool whose supply has no address twice, and where `num` times `size` is a machine word: the
-- call asks for one block of that many bytes. If the pool has none it gives a null pointer. Else it
-- gives a chain of `num` empty buffers of `size` bytes, one behind the other from the start of that
-- block and all inside it, if the supply is enough for the buffers and for the links that the pool's
-- list has not; and a null pointer if not.
pub create_chain_of_bufs_lem :
    (blocks : Blocks) (num size : ℕ) (c : List Link) (s : List ℕ) (st : Store)
    → Distinct s
    → num * size < 2 ^ 64
    → (let r =
          create_chain_of_bufs blocks num size (record { chain = c; supply = s; store = st }) in
        Created (blocks (num * size)) num size (needed num c) (length s) r.0 r.1.store)
unfolding create_chain_of_bufs and_then
create_chain_of_bufs_lem blocks num size c s st d small =
    rw (mul64-eq-mul num size small) (answered (blocks (num * size)))
  where
    answered :
        (block : Option ℕ)
        → (let r = and_then (block, pool c s st) (λ a q. create_bufs size (pos a) num q) in
            Created block num size (needed num c) (length s) r.0 r.1.store)
    answered none = refl
    answered (some a) =
        Created-outcome a num size (needed num c) (length s) _ _
          (create_bufs-Made size (pos a) num c s st d).outcome
