-- ===== src/Pool/Ownership.antt =====
-- No memory is lost or freed twice by an allocation: what a pool took from the system is what it gave
-- back and what destroying it frees.
pub mod Operations
use umicat.Base.{
  ℕ, zero, suc, ◌+◌, ◌≡◌, refl, ap, ◌∙◌, sym, Bool, true, false, List, [], ◌∷◌, ◌++◌, Option, none,
  some, ◌==◌, leb, if◌then◌else◌, arith, Bool-cases, Option-cases, inl, inr, ==_iff,
}
use mathlib.Core.Option.{some-injective}
use umicat.Pool.{
  Block, Pool, Outcome, alloc_in, count_failed, new_block, block_size, palloc_block, palloc_small,
  add_large, reuse, palloc_large, palloc, pnalloc, pmemalign, drop_large, pfree, large_blocks,
  bases, reset_blocks, reset_pool, destroy_pool, Op, alloc, nalloc, memalign, free, reset, perform,
  perform_all, has_room, pool_large_size,
}

-- How often an address is in a list.
abbrev pub count : ℕ → List ℕ → ℕ
count x [] = 0
count x (y ∷ ys) = (if x == y then 1 else 0) + count x ys

pub count-append : (x : ℕ) (xs ys : List ℕ) → count x (xs ++ ys) ≡ count x xs + count x ys
count-append x [] ys = omega arith
count-append x (y ∷ xs) ys = omega (arith, count-append x xs ys)

-- What an operation took and held before is what it holds and gave back.
abbrev pub Balances : ℕ → Pool → Outcome → Type 0
Balances x pool o =
    count x (destroy_pool o.pool) + count x o.freed ≡ count x (destroy_pool pool) + count x o.taken

pub count-destroy :
    (x : ℕ) (pool : Pool)
    → count x (destroy_pool pool) ≡ count x (large_blocks pool.large) + count x (bases pool.blocks)
unfolding destroy_pool
count-destroy x pool = count-append x (large_blocks pool.large) (bases pool.blocks)

bases-append : (bs cs : List Block) → bases (bs ++ cs) ≡ bases bs ++ bases cs
unfolding bases
bases-append [] cs = refl
bases-append (b ∷ bs) cs = ap (λ xs. b.base ∷ xs) (bases-append bs cs)

bases-alloc_in :
    (align : Bool) (size skip : ℕ) (bs : List Block)
    → bases (alloc_in align size skip bs).1 ≡ bases bs
unfolding bases alloc_in
bases-alloc_in align size zero [] = refl
bases-alloc_in align size (suc skip) [] = refl
bases-alloc_in align size (suc skip) (b ∷ bs) =
    ap (λ xs. b.base ∷ xs) (bases-alloc_in align size skip bs)
bases-alloc_in align size zero (b ∷ bs) = elim (Bool-cases (has_room align size b)) [
  | inl e ↦ rw e refl
  | inr e ↦ rw e (ap (λ xs. b.base ∷ xs) (bases-alloc_in align size zero bs))
]

bases-count_failed :
    (i skip current : ℕ) (bs : List Block) → bases (count_failed i skip current bs).1 ≡ bases bs
unfolding bases count_failed
bases-count_failed i zero current [] = refl
bases-count_failed i (suc skip) current [] = refl
bases-count_failed i (suc skip) current (b ∷ bs) =
    ap (λ xs. b.base ∷ xs) (bases-count_failed (i + 1) skip current bs)
bases-count_failed i zero current (b ∷ []) = refl
bases-count_failed i zero current (b ∷ c ∷ bs) =
    ap (λ xs. b.base ∷ xs) (bases-count_failed (i + 1) zero _ (c ∷ bs))

bases_new :
    (x m psize size : ℕ) (bs : List Block)
    → count x (bases (bs ++ new_block m psize size ∷ [])) ≡ count x (bases bs) + count x (m ∷ [])
unfolding bases new_block
bases_new x m psize size bs =
    ap (count x) (bases-append bs (new_block m psize size ∷ []))
    ∙ count-append x (bases bs) (m ∷ [])

palloc_block-Balances :
    (x : ℕ) (pool : Pool) (size : ℕ) (fresh : Option ℕ)
    → Balances x pool (palloc_block pool size fresh)
unfolding palloc_block
palloc_block-Balances x pool size none = refl
palloc_block-Balances x pool size (some m) =
    let bs : List Block = (count_failed 0 pool.current pool.current pool.blocks).1 in
    omega (
      arith,
      count-destroy x (palloc_block pool size (some m)).pool,
      count-destroy x pool,
      bases_new x m (block_size pool.blocks) size bs,
      ap (count x) (bases-count_failed 0 pool.current pool.current pool.blocks),
    )

palloc_small-Balances :
    (x : ℕ) (pool : Pool) (size : ℕ) (align : Bool) (fresh : Option ℕ)
    → Balances x pool (palloc_small pool size align fresh)
unfolding palloc_small
palloc_small-Balances x pool size align fresh =
    let r : Option ℕ × List Block = alloc_in align size pool.current pool.blocks in
    elim (Option-cases r.0) [
      | inl e ↦ rw (e, palloc_small) (palloc_block-Balances x pool size fresh)
      | inr (p, e) ↦
          rw (e, palloc_small)
            (omega (
              arith,
              count-destroy x (record pool { blocks = r.1 }),
              count-destroy x pool,
              ap (count x) (bases-alloc_in align size pool.current pool.blocks),
            ))
    ]

add_large-Balances :
    (x : ℕ) (pool : Pool) (p : ℕ) (fresh : Option ℕ) → Balances x pool (add_large pool p fresh)
unfolding add_large
add_large-Balances x pool p fresh =
    let o : Outcome = palloc_small pool pool_large_size true fresh in
    let b = palloc_small-Balances x pool pool_large_size true fresh in
    elim (Option-cases o.ptr) [
      | inl e ↦ rw (e, add_large) (omega (arith, b))
      | inr (q, e) ↦
          rw (e, add_large)
            (unfold large_blocks in
              omega (
                arith,
                b,
                count-destroy x (record (o.pool) { large = some p ∷ o.pool.large }),
                count-destroy x o.pool,
              ))
    ]

count-reuse :
    (x n p : ℕ) (ls ls' : List (Option ℕ))
    → reuse n p ls ≡ some ls'
    → count x (large_blocks ls') ≡ count x (large_blocks ls) + count x (p ∷ [])
unfolding reuse large_blocks
count-reuse x zero p ls ls' e = absurd (cc e)
count-reuse x (suc n) p [] ls' e = absurd (cc e)
count-reuse x (suc n) p (none ∷ ls) ls' e =
    ap (λ l. count x (large_blocks l)) (sym (some-injective _ _ e)) ∙ omega arith
count-reuse x (suc n) p (some q ∷ ls) ls' e = elim (Option-cases (reuse n p ls)) [
  | inl f ↦ absurd (cc (rw f at e))
  | inr (ms, f) ↦
      ap (λ l. count x (large_blocks l)) (sym (some-injective _ _ (rw f at e)))
      ∙ omega (arith, count-reuse x n p ls ms f)
]

palloc_large-Balances :
    (x : ℕ) (pool : Pool) (got fresh : Option ℕ) → Balances x pool (palloc_large pool got fresh)
unfolding palloc_large
palloc_large-Balances x pool none fresh = refl
palloc_large-Balances x pool (some p) fresh = elim (Option-cases (reuse 5 p pool.large)) [
  | inl e ↦ rw (e, palloc_large) (add_large-Balances x pool p fresh)
  | inr (ls, e) ↦
      rw (e, palloc_large)
        (omega (
          arith,
          count-destroy x (record pool { large = ls }),
          count-destroy x pool,
          count-reuse x 5 p pool.large ls e,
        ))
]

pub palloc-Balances :
    (x : ℕ) (pool : Pool) (size : ℕ) (got fresh : Option ℕ)
    → Balances x pool (palloc pool size got fresh)
unfolding palloc
palloc-Balances x pool size got fresh = elim (Bool-cases (leb size pool.max)) [
  | inl e ↦ rw e (palloc_small-Balances x pool size true fresh)
  | inr e ↦ rw e (palloc_large-Balances x pool got fresh)
]

pub pnalloc-Balances :
    (x : ℕ) (pool : Pool) (size : ℕ) (got fresh : Option ℕ)
    → Balances x pool (pnalloc pool size got fresh)
unfolding pnalloc
pnalloc-Balances x pool size got fresh = elim (Bool-cases (leb size pool.max)) [
  | inl e ↦ rw e (palloc_small-Balances x pool size false fresh)
  | inr e ↦ rw e (palloc_large-Balances x pool got fresh)
]

pub pmemalign-Balances :
    (x : ℕ) (pool : Pool) (got fresh : Option ℕ) → Balances x pool (pmemalign pool got fresh)
unfolding pmemalign
pmemalign-Balances x pool none fresh = refl
pmemalign-Balances x pool (some p) fresh = add_large-Balances x pool p fresh
