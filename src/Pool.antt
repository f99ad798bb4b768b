-- ===== src/Pool.antt =====
-- The memory pool of uct_palloc.c. A pointer is a number below 2 ^ 64; what malloc and
-- posix_memalign return is an argument of each operation that may call them.
pub mod Cleanup
pub mod Bounds
pub mod Small
pub mod Ownership
use umicat.Base.{
  ℕ, zero, suc, ◌+◌, ◌-◌, ◌*◌, ◌/◌, ◌%◌, ◌^◌, Bool, true, false, List, [], ◌∷◌, ◌++◌, Option, none,
  some, ltb, leb, ◌==◌, if◌then◌else◌, map, length,
}
use umicat.Base.Word.{add64, sub64}

-- The sizes of `uct_pool_t`, `uct_pool_data_t` and `uct_pool_large_t`, and `UCT_ALIGNMENT`.
abbrev pub pool_size : ℕ
pool_size = 80

abbrev pub pool_data_size : ℕ
pool_data_size = 32

abbrev pub pool_large_size : ℕ
pool_large_size = 16

abbrev pub alignment : ℕ
alignment = 8

-- `uct_align_ptr(p, UCT_ALIGNMENT)`.
abbrev pub align_ptr : ℕ → ℕ
align_ptr p = add64 p (alignment - 1) / alignment * alignment

-- `uct_pool_data_t` of the block at address `base`.
pub record Block : Type 0 where
  pub base : ℕ
  pub last : ℕ
  pub limit : ℕ
  pub failed : ℕ

-- `uct_pool_t`: its blocks in the order of `d.next`, the first of which holds the pool itself, the
-- index of `current`, `max`, and the `alloc` fields of the chain of large blocks.
pub record Pool : Type 0 where
  pub blocks : List Block
  pub current : ℕ
  pub max : ℕ
  pub large : List (Option ℕ)

-- `uct_create_pool`, with `UCT_MAX_ALLOC_FROM_POOL`.
unfoldable pub create_pool : ℕ → ℕ → Option ℕ → Option Pool
create_pool pagesize size none = none
create_pool pagesize size (some p) =
    let rest = sub64 size pool_size in
    let most = sub64 pagesize 1 in
    some (record {
      blocks = record { base = p; last = add64 p pool_size; limit = add64 p size; failed = 0 } ∷ [];
      current = 0;
      max = if ltb rest most then rest else most;
      large = [];
    })

-- Where a block would put an allocation, and whether it has the room.
unfoldable pub place : Bool → Block → ℕ
place align b = if align then align_ptr b.last else b.last

unfoldable pub has_room : Bool → ℕ → Block → Bool
has_room align size b = leb size (sub64 b.limit (place align b))

-- The loop of `uct_palloc_small`, after the `skip` blocks before `current`.
unfoldable pub alloc_in : Bool → ℕ → ℕ → List Block → Option ℕ × List Block
alloc_in align size skip [] = (none, [])
alloc_in align size (suc skip) (b ∷ bs) = let (m, bs') = alloc_in align size skip bs in (m, b ∷ bs')
alloc_in align size zero (b ∷ bs) =
    let rest = alloc_in align size zero bs in
    if has_room align size b
    then (some (place align b), record b { last = add64 (place align b) size } ∷ bs)
    else (rest.0, b ∷ rest.1)

-- The loop of `uct_palloc_block` over the blocks from `current` on, of which the next is the `i`-th:
-- all but the last count a failure, and `current` moves behind one that had more than four.
unfoldable pub count_failed : ℕ → ℕ → ℕ → List Block → ℕ × List Block
count_failed i skip current [] = (current, [])
count_failed i (suc skip) current (b ∷ bs) =
    let (c, bs') = count_failed (i + 1) skip current bs in (c, b ∷ bs')
count_failed i zero current (b ∷ []) = (current, b ∷ [])
count_failed i zero current (b ∷ next ∷ bs) =
    let current' = if ltb 4 b.failed then i + 1 else current in
    let (c, bs') = count_failed (i + 1) zero current' (next ∷ bs) in
    (c, record b { failed = add64 b.failed 1 } ∷ bs')

-- The size of the first block, which each further block has.
unfoldable pub block_size : List Block → ℕ
block_size [] = 0
block_size (b ∷ bs) = sub64 b.limit b.base

-- The new block at `m`, with an allocation at its start.
unfoldable pub new_block : ℕ → ℕ → ℕ → Block
new_block m psize size = record {
  base = m;
  last = add64 (align_ptr (add64 m pool_data_size)) size;
  limit = add64 m psize;
  failed = 0;
}

-- The pointer that an operation returns, the pool, the addresses that the system gave during it, and
-- those that it gave back to free.
pub record Outcome : Type 0 where
  pub ptr : Option ℕ
  pub pool : Pool
  pub taken : List ℕ
  pub freed : List ℕ

unfoldable pub palloc_block : Pool → ℕ → Option ℕ → Outcome
palloc_block pool size none = record { ptr = none; pool = pool; taken = []; freed = [] }
palloc_block pool size (some m) =
    let (c, bs) = count_failed 0 pool.current pool.current pool.blocks in
    record {
      ptr = some (align_ptr (add64 m pool_data_size));
      pool = record pool {
        blocks = bs ++ new_block m (block_size pool.blocks) size ∷ [];
        current = c;
      };
      taken = m ∷ [];
      freed = [];
    }

unfoldable pub palloc_small : Pool → ℕ → Bool → Option ℕ → Outcome
palloc_small pool size align fresh =
    let (m, bs) = alloc_in align size pool.current pool.blocks in
    elim m [
      | some p ↦ record { ptr = some p; pool = record pool { blocks = bs }; taken = []; freed = [] }
      | none ↦ palloc_block pool size fresh
    ]

-- The large block `p` is taken into the chain, at a new entry of it, or freed if there is no memory
-- for one.
unfoldable pub add_large : Pool → ℕ → Option ℕ → Outcome
add_large pool p fresh =
    let o = palloc_small pool pool_large_size true fresh in
    elim o.ptr [
      | none ↦ record o { taken = p ∷ o.taken; freed = p ∷ o.freed }
      | some _ ↦ record o {
        ptr = some p;
        pool = record (o.pool) { large = some p ∷ o.pool.large };
        taken = p ∷ o.taken;
      }
    ]

-- The first `n` entries of the chain are searched for one whose block was freed.
unfoldable pub reuse : ℕ → ℕ → List (Option ℕ) → Option (List (Option ℕ))
reuse zero p ls = none
reuse (suc n) p [] = none
reuse (suc n) p (none ∷ ls) = some (some p ∷ ls)
reuse (suc n) p (some q ∷ ls) = elim (reuse n p ls) [ none ↦ none | some ls' ↦ some (some q ∷ ls') ]

-- `uct_palloc_large`; `got` is what malloc returned. Five entries are looked at.
unfoldable pub palloc_large : Pool → Option ℕ → Option ℕ → Outcome
palloc_large pool none fresh = record { ptr = none; pool = pool; taken = []; freed = [] }
palloc_large pool (some p) fresh = elim (reuse 5 p pool.large) [
  | some ls ↦ record { ptr = some p; pool = record pool { large = ls }; taken = p ∷ []; freed = [] }
  | none ↦ add_large pool p fresh
]

-- `uct_palloc` and `uct_pnalloc`: `got` answers malloc, `fresh` posix_memalign, if they are called.
unfoldable pub palloc : Pool → ℕ → Option ℕ → Option ℕ → Outcome
palloc pool size got fresh =
    if leb size pool.max then palloc_small pool size true fresh else palloc_large pool got fresh

unfoldable pub pnalloc : Pool → ℕ → Option ℕ → Option ℕ → Outcome
pnalloc pool size got fresh =
    if leb size pool.max then palloc_small pool size false fresh else palloc_large pool got fresh

-- `uct_pmemalign`, where posix_memalign may be called twice.
unfoldable pub pmemalign : Pool → Option ℕ → Option ℕ → Outcome
pmemalign pool none fresh = record { ptr = none; pool = pool; taken = []; freed = [] }
pmemalign pool (some p) fresh = add_large pool p fresh

-- What is freed for `p`, and the chain without it, if an entry of the chain holds it. A null pointer is
-- found in an entry that was emptied before, and nothing is freed.
unfoldable pub drop_large : ℕ → List (Option ℕ) → Option (List ℕ × List (Option ℕ))
drop_large p [] = none
drop_large p (none ∷ ls) =
    if p == 0
    then some ([], none ∷ ls)
    else elim (drop_large p ls) [ none ↦ none | some r ↦ some (r.0, none ∷ r.1) ]
drop_large p (some q ∷ ls) =
    if p == q
    then some (p ∷ [], none ∷ ls)
    else elim (drop_large p ls) [ none ↦ none | some r ↦ some (r.0, some q ∷ r.1) ]

-- `uct_pfree`: whether it answers `UCT_OK`, the pool, and what was freed.
unfoldable pub pfree : Pool → ℕ → Bool × Pool × List ℕ
pfree pool p = elim (drop_large p pool.large) [
  | some r ↦ (true, record pool { large = r.1 }, r.0)
  | none ↦ (false, pool, [])
]

-- The large blocks that are not freed.
unfoldable pub large_blocks : List (Option ℕ) → List ℕ
large_blocks [] = []
large_blocks (none ∷ ls) = large_blocks ls
large_blocks (some p ∷ ls) = p ∷ large_blocks ls

unfoldable pub bases : List Block → List ℕ
bases [] = []
bases (b ∷ bs) = b.base ∷ bases bs

-- `uct_reset_pool`, and what it frees.
unfoldable pub reset_blocks : List Block → List Block
reset_blocks [] = []
reset_blocks (b ∷ bs) = record b { last = add64 b.base pool_size; failed = 0 } ∷ reset_blocks bs

unfoldable pub reset_pool : Pool → Pool × List ℕ
reset_pool pool = (
  record pool { blocks = reset_blocks pool.blocks; current = 0; large = [] },
  large_blocks pool.large,
)

-- `uct_destroy_pool`: what it frees, in order.
unfoldable pub destroy_pool : Pool → List ℕ
destroy_pool pool = large_blocks pool.large ++ bases pool.blocks

-- An operation on a pool, with what the system answers if it is asked.
pub data Op : Type 0 where
  alloc : ℕ → Option ℕ → Option ℕ → Op
  nalloc : ℕ → Option ℕ → Option ℕ → Op
  memalign : Option ℕ → Option ℕ → Op
  free : ℕ → Op
  reset : Op

unfoldable pub perform : Op → Pool → Outcome
perform (alloc size got fresh) pool = palloc pool size got fresh
perform (nalloc size got fresh) pool = pnalloc pool size got fresh
perform (memalign got fresh) pool = pmemalign pool got fresh
perform (free p) pool =
    let (ok, pool', freed) = pfree pool p in
    record { ptr = none; pool = pool'; taken = []; freed = freed }
perform reset pool =
    let (pool', freed) = reset_pool pool in
    record { ptr = none; pool = pool'; taken = []; freed = freed }

-- Operations one after the other, with all that was taken from the system and given back.
unfoldable pub perform_all : List Op → Pool → Outcome
perform_all [] pool = record { ptr = none; pool = pool; taken = []; freed = [] }
perform_all (op ∷ ops) pool =
    let o = perform op pool in
    let rest = perform_all ops o.pool in
    record rest { taken = o.taken ++ rest.taken; freed = o.freed ++ rest.freed }
