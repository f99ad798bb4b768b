-- ===== src/Examples/Memory.antt =====
-- Allocations from a concrete pool.
use umicat.Pool.Cleanup.{
  Cleanup, delete_file, cleanup_file, closed, deleted, close_files, run_cleanup_file, run_cleanups,
  run_handler, is_file, cleanup_add,
}
use umicat.Base.{◌≡◌, refl, true, false, List, [], ◌∷◌, none, some, arith}
use umicat.Base.Word.{add64, sub64}
use umicat.Pool.{
  Pool, alloc, nalloc, free, palloc_small, palloc_block, alloc_in, has_room, place, perform_all,
}
use umicat.Pool.Bounds.{IsPool}
use umicat.Pool.Small.{Allocates, palloc_small-Allocates}
use umicat.Pool.Ownership.{Balances}
use umicat.Pool.Ownership.Operations.{perform_all-Balances}

-- A block of 256 bytes at 4096, of which 87 are used.
abbrev pool : Pool
pool = record {
  blocks = record { base = 4096; last = 4183; limit = 4352; failed = 0 } ∷ [];
  current = 0;
  max = 176;
  large = [];
}

palloc_small_test : (palloc_small pool 10 true none).ptr ≡ some 4184
unfolding palloc_small alloc_in has_room place add64 sub64
palloc_small_test = refl

palloc_small_block_test : (palloc_small pool 176 true (some 8192)).ptr ≡ some 8224
unfolding palloc_small palloc_block alloc_in has_room place add64 sub64
palloc_small_block_test = refl

pool-IsPool : IsPool 256 pool
pool-IsPool = record {
  rounded = refl;
  blocks = (
    record {
      aligned = refl;
      whole = refl;
      word = omega arith;
      above = omega arith;
      inside = omega arith;
    },
    tt,
  );
  held = omega arith;
  fits = omega arith;
}

abbrev new_pool : Pool
new_pool = record {
  blocks = record { base = 4096; last = 4176; limit = 4352; failed = 0 } ∷ [];
  current = 0;
  max = 176;
  large = [];
}

palloc_small-Allocates_example :
    Allocates 256 true 176 (some 8192) pool (palloc_small pool 176 true (some 8192))
palloc_small-Allocates_example =
    palloc_small-Allocates 256 176 true pool (some 8192) pool-IsPool (omega arith)
      (refl, omega arith)

perform_all-Balances_example :
    Balances 8192 pool
      (perform_all (alloc 1000 (some 8192) none ∷ nalloc 40 none none ∷ free 8192 ∷ []) pool)
perform_all-Balances_example =
    perform_all-Balances 8192 (alloc 1000 (some 8192) none ∷ nalloc 40 none none ∷ free 8192 ∷ [])
      pool

-- Two files, of which one is closed before the pool is destroyed.
abbrev files : List Cleanup
files =
    record { handler = some delete_file; fd = 5; name = 50 }
    ∷ record { handler = some cleanup_file; fd = 4; name = 40 }
    ∷ []

close_files_test : close_files (4 ∷ 4 ∷ []) files ≡ (closed 4 ∷ deleted 50 ∷ closed 5 ∷ [])
unfolding close_files run_cleanup_file run_cleanups run_handler is_file
close_files_test = refl

cleanup_add_test :
    (cleanup_add 16 (some 1) none (record { handler = none; fd = 0; name = 0 }) files).0 ≡ false
unfolding cleanup_add
cleanup_add_test = refl
