-- ===== src/Pool/Small.antt =====
-- What `uct_palloc_small` promises of every allocation.
use umicat.Base.{
  ℕ, ◌+◌, ◌%◌, ◌^◌, ◌≤◌, ◌<◌, ◌≡◌, refl, ap, ◌∙◌, sym, Bool, List, [], ◌∷◌, ◌++◌, Option, none,
  some, arith, subst, inl, inr, ◌⊎◌, length, get_elem?, length-append,
}
use mathlib.Core.Option.{some-injective}
use umicat.Base.Word.{add64, sub64}
use umicat.Pool.{
  Block, Pool, Outcome, count_failed, new_block, block_size, palloc_block, palloc_small,
  create_pool, align_ptr, pool_data_size, pool_size,
}
use umicat.Pool.Bounds.{
  IsBlock, AllBlocks, IsPool, IsAnswer, Room, Grows, Grows-refl, Placed, alloc_in_cases,
}
use umicat.Pool.Bounds.Failed.{count_failed-Counted}

-- The outcome of an allocation of `size` bytes, where the system answered `fresh` if it was asked:
-- the pool is well formed, its blocks handed out nothing less, and the allocation has its place, or
-- there was no memory and nothing changed.
pub record Allocates (psize : ℕ) (align : Bool) (size : ℕ) (fresh : Option ℕ) (pool : Pool)
    (o : Outcome) : Type 0 where
  pub formed : IsPool psize o.pool
  pub grows : Grows pool.blocks o.pool.blocks
  pub spot :
      ((o.ptr ≡ none) × (fresh ≡ none) × (o.pool ≡ pool))
      ⊎ ((m : ℕ) × (o.ptr ≡ some m) × Placed align m size pool.blocks o.pool.blocks)

AllBlocks-append :
    (psize : ℕ) (bs cs : List Block)
    → AllBlocks psize bs
    → AllBlocks psize cs
    → AllBlocks psize (bs ++ cs)
AllBlocks-append psize [] cs v w = w
AllBlocks-append psize (b ∷ bs) cs v w = (v.0, AllBlocks-append psize bs cs v.1 w)

Grows-append : (bs cs ds : List Block) → Grows bs cs → Grows bs (cs ++ ds)
Grows-append [] cs ds g = tt
Grows-append (b ∷ bs) [] ds g = elim g [ ]
Grows-append (b ∷ bs) (c ∷ cs) ds (p, q, r, g) = (p, q, r, Grows-append bs cs ds g)

get_elem?-last : (bs : List Block) (b : Block) → get_elem? (bs ++ b ∷ []) (length bs) ≡ some b
get_elem?-last [] b = refl
get_elem?-last (c ∷ bs) b = get_elem?-last bs b

block_size-eq :
    (psize : ℕ) (bs : List Block) → 0 < length bs → AllBlocks psize bs → block_size bs ≡ psize
unfolding block_size sub64
block_size-eq psize [] h v = absurd (omega arith)
block_size-eq psize (b ∷ bs) h v = omega (arith, v.0.whole, v.0.word)

-- The block that is made for an allocation, before it is handed out.
abbrev empty_block : ℕ → ℕ → Block
empty_block m psize = record { base = m; last = m + pool_data_size; limit = m + psize; failed = 0 }

new_block_lem :
    (psize size m : ℕ) (align : Bool)
    → psize % 8 ≡ 0
    → size + pool_size ≤ psize
    → IsAnswer psize (some m)
    → (align_ptr (add64 m pool_data_size) ≡ m + pool_data_size)
      × IsBlock psize (new_block m psize size)
      × Room align (m + pool_data_size) size (empty_block m psize) (new_block m psize size)
unfolding new_block add64
new_block_lem psize size m align h l (a, w) = (
  omega arith,
  record {
    aligned = a;
    whole = omega arith;
    word = omega arith;
    above = omega arith;
    inside = omega arith;
  },
  record {
    same_base = refl;
    same_limit = omega arith;
    fresh = omega arith;
    taken = omega arith;
    inside = omega arith;
    aligned = ground arith;
  },
)

palloc_block-Allocates :
    (psize size : ℕ) (align : Bool) (pool : Pool) (fresh : Option ℕ)
    → IsPool psize pool
    → size ≤ pool.max
    → IsAnswer psize fresh
    → Allocates psize align size fresh pool (palloc_block pool size fresh)
unfolding palloc_block
palloc_block-Allocates psize size align pool none v l a = record {
  formed = v;
  grows = Grows-refl pool.blocks;
  spot = inl (refl, refl, refl);
}
palloc_block-Allocates psize size align pool (some m) v l a =
    let c = count_failed-Counted psize 0 pool.current pool.current pool.blocks v.blocks in
    let (e, b, r) = new_block_lem psize size m align v.rounded (omega (arith, v.fits)) a in
    rw (block_size-eq psize pool.blocks v.held v.blocks) (record {
      formed = record {
        rounded = v.rounded;
        blocks = AllBlocks-append psize _ _ c.blocks (b, tt);
        held = omega (
          arith,
          length-append (count_failed 0 pool.current pool.current pool.blocks).1
              (new_block m psize size ∷ []),
        );
        fits = v.fits;
      };
      grows = Grows-append pool.blocks _ _ c.grows;
      spot = inr (
        m + pool_data_size,
        ap some e,
        inr (
          empty_block m psize,
          new_block m psize size,
          ap (get_elem? _) (sym c.longer)
              ∙ get_elem?-last (count_failed 0 pool.current pool.current pool.blocks).1
                  (new_block m psize size),
          ap (λ n. n + pool_data_size) (sym r.same_base),
          r,
        ),
      );
    })

-- On a well-formed pool, for at most `max` bytes, and if the system answers with aligned memory or
-- none: the allocation is in a block, inside its limits and behind all that the block handed out
-- before, at an aligned address where that is asked for; the pool stays well formed. Only if the
-- system has no memory is there no allocation, and then the pool is as it was.
pub palloc_small-Allocates :
    (psize size : ℕ) (align : Bool) (pool : Pool) (fresh : Option ℕ)
    → IsPool psize pool
    → size ≤ pool.max
    → IsAnswer psize fresh
    → Allocates psize align size fresh pool (palloc_small pool size align fresh)
unfolding palloc_small
palloc_small-Allocates psize size align pool fresh v l a =
    elim (alloc_in_cases psize size pool.current align pool.blocks v.rounded v.blocks) [
      | inl e ↦ rw (e, palloc_small) (palloc_block-Allocates psize size align pool fresh v l a)
      | inr (m, e, s) ↦
          rw (e, palloc_small)
            (record {
              formed = record {
                rounded = v.rounded;
                blocks = s.blocks;
                held = omega (arith, s.longer, v.held);
                fits = v.fits;
              };
              grows = s.grows;
              spot = inr (m, refl, inl s.spot);
            })
    ]

-- A pool that is created from an aligned block of `size` bytes below 2^64, a multiple of the
-- alignment with room for the header, is well formed, where a page has at least one byte and fewer
-- than 2^64.
pub create_pool-IsPool :
    (pagesize size m : ℕ) (pool : Pool)
    → 0 < pagesize
    → pagesize < 2 ^ 64
    → size % 8 ≡ 0
    → pool_size ≤ size
    → IsAnswer size (some m)
    → create_pool pagesize size (some m) ≡ some pool
    → IsPool size pool
unfolding create_pool add64 sub64
create_pool-IsPool pagesize size m pool p q r h (a, w) e =
    subst (IsPool size) (some-injective _ _ e) (record {
      rounded = r;
      blocks = (
        record {
          aligned = a;
          whole = omega arith;
          word = omega arith;
          above = omega arith;
          inside = omega arith;
        },
        tt,
      );
      held = omega arith;
      fits = ground arith;
    })
