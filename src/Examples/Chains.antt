-- ===== src/Examples/Chains.antt =====
-- Chains of buffers.
use umicat.Base.{
  ℕ, ◌+◌, ◌≡◌, refl, true, false, none, some, List, [], ◌∷◌, ◌++◌, ◌≤◌, arith, if◌then◌else◌, ◌==◌,
  leb,
}
use mathlib.Core.List.{Perm}
use umicat.Base.Word.{mul64}
use umicat.Base.Int.{pos, ◌+ℤ◌, ◌-ℤ◌}
use umicat.Containers.Chain.{
  Buf, Blocks, Link, Store, ChainPool, Chains, zero_buf, write, next_supply, and_then, put,
  calloc_buf, alloc_chain_link, free_chain, create_temp_buf, create_bufs, prepend_link,
  create_chain_of_bufs, chain_add_copy, chain_get_free_buf, release_sent, chain_update_chains,
  chain_update_sent, buf_size, buf_in_memory, buf_in_memory_only, buf_special, buf_sync_only,
}
use umicat.Containers.Chain.Stream.{IsSound}
use umicat.Containers.Chain.Sent.{Sent, chain_update_sent-Sent}
use umicat.Containers.Chain.Update.{Released, chain_update_chains_lem}
use umicat.Containers.Chain.Create.{Created, needed, create_chain_of_bufs_lem}
use umicat.Containers.Chain.Copy.{Copied, chain_add_copy-Copied}
use umicat.Containers.Chain.Coalesce.{coalesce, to_page, goes_on, chain_coalesce_file}
use umicat.Containers.Chain.Coalesce.Run.{Coalesced, run, chain_coalesce_file-Coalesced}

-- Three bytes in memory, and two pieces of one file.
abbrev text : Buf
text = record zero_buf {
  pos_ = pos 100;
  last = pos 103;
  start = pos 100;
  end_ = pos 108;
  temporary = true;
}

abbrev piece : ℕ → ℕ → Buf
piece a z = record zero_buf { file_pos = pos a; file_last = pos z; in_file = true; fd = 4 }

abbrev end_mark : Buf
end_mark = record zero_buf { last_buf = true }

abbrev store : Store
store a =
    if a == 1
    then text
    else (if a == 2 then piece 0 5000 else (if a == 3 then piece 5000 9000 else end_mark))

abbrev link : ℕ → Link
link a = record { at = 10 + a; buf = a }

abbrev chain : List Link
chain = link 1 ∷ link 2 ∷ link 3 ∷ link 4 ∷ []

abbrev pool : ChainPool
pool = record { chain = link 9 ∷ []; supply = 40 ∷ 50 ∷ 60 ∷ 70 ∷ []; store = store }

macros_test :
    (buf_in_memory_only text ≡ true)
    × (buf_special end_mark ≡ true)
    × (buf_sync_only end_mark ≡ false)
unfolding buf_in_memory_only buf_in_memory buf_special buf_sync_only
macros_test = (refl, refl, refl)

-- The first two buffers and a part of the third are sent.
sent_test : (chain_update_sent chain (pos 5010) store).0 ≡ (link 3 ∷ link 4 ∷ [])
unfolding chain_update_sent write buf_size buf_in_memory buf_special ◌-ℤ◌ ◌+ℤ◌
sent_test = refl

text-IsSound : IsSound text
unfolding buf_size buf_in_memory buf_special ◌-ℤ◌
text-IsSound = record { sized = omega arith; kept = refl }

piece-IsSound : (a z : ℕ) → a ≤ z → IsSound (piece a z)
unfolding buf_size buf_in_memory buf_special ◌-ℤ◌
piece-IsSound a z h = record { sized = ground arith; kept = refl }

mark-IsSound : IsSound end_mark
unfolding buf_size buf_in_memory buf_special ◌-ℤ◌
mark-IsSound = record { sized = omega arith; kept = refl }

chain_update_sent-Sent_example : Sent 5010 chain store (chain_update_sent chain (pos 5010) store)
chain_update_sent-Sent_example =
    chain_update_sent-Sent chain 5010 store
      ((refl, (refl, (refl, tt))), ((refl, (refl, tt)), ((refl, tt), (tt, tt))))
      (
        text-IsSound,
        (
          piece-IsSound 0 5000 (omega arith),
          (piece-IsSound 5000 9000 (omega arith), (mark-IsSound, tt)),
        ),
      )

-- A busy chain with one buffer of another module and one of this, both sent, and new ones behind.
abbrev chains : Chains
chains = record { free = []; busy = link 4 ∷ link 5 ∷ []; out = link 1 ∷ link 2 ∷ [] }

update_test :
    (chain_update_chains 7 chains pool).0
    ≡ record { free = []; busy = link 1 ∷ link 2 ∷ []; out = [] }
unfolding chain_update_chains release_sent buf_size buf_in_memory free_chain ◌-ℤ◌
update_test = refl

chain_update_chains_lem_example :
    Released 7 [] (link 4 ∷ link 5 ∷ link 1 ∷ link 2 ∷ []) pool (chain_update_chains 7 chains pool)
    × (let r = chain_update_chains 7 chains pool in
        Perm
          (r.0.free ++ (r.0.busy ++ r.1.chain))
          ([] ++ ((link 4 ∷ link 5 ∷ link 1 ∷ link 2 ∷ []) ++ link 9 ∷ [])))
chain_update_chains_lem_example =
    chain_update_chains_lem 7 chains pool
      ((refl, (refl, (refl, tt))), ((refl, (refl, tt)), ((refl, tt), (tt, tt))))

-- The pool has one block of 1024 bytes.
abbrev one_block : Blocks
one_block n = if leb n 1024 then some 5000 else none

create_test :
    (create_chain_of_bufs one_block 2 512 pool).0
    ≡ some (record { at = 19; buf = 40 } ∷ record { at = 60; buf = 50 } ∷ [])
unfolding create_chain_of_bufs create_bufs prepend_link and_then calloc_buf next_supply put mul64
    alloc_chain_link
create_test = refl

create_temp_test : (create_temp_buf one_block 2048 pool).0 ≡ none
unfolding create_temp_buf and_then calloc_buf next_supply put
create_temp_test = refl

free_buf_test : (chain_get_free_buf [] pool).0 ≡ some (record { at = 19; buf = 40 })
unfolding chain_get_free_buf and_then calloc_buf next_supply put alloc_chain_link
free_buf_test = refl

create_chain_of_bufs_lem_example :
    (let r =
        create_chain_of_bufs one_block 2 512
          (record { chain = link 9 ∷ []; supply = 50 ∷ 60 ∷ 70 ∷ []; store = store }) in
      Created (some 5000) 2 512 (needed 2 (link 9 ∷ [])) 3 r.0 r.1.store)
create_chain_of_bufs_lem_example =
    create_chain_of_bufs_lem one_block 2 512 (link 9 ∷ []) (50 ∷ 60 ∷ 70 ∷ []) store
      ((refl, (refl, tt)), ((refl, tt), (tt, tt))) (omega arith)

chain_add_copy-Copied_example :
    (let r = chain_add_copy (link 1 ∷ []) chain pool in
      (copies : List Link) × (r.1 ≡ (link 1 ∷ []) ++ copies) × Copied chain pool (r.0, copies, r.2))
chain_add_copy-Copied_example = chain_add_copy-Copied (link 1 ∷ []) chain pool

-- Both pieces of the file are in one run; of the second, what ends a page is added to the limit.
coalesce_test :
    (chain_coalesce_file 4096 store (link 2) (link 3 ∷ link 4 ∷ []) (pos 6000))
    ≡ (pos 8192, link 3 ∷ link 4 ∷ [])
unfolding chain_coalesce_file coalesce to_page goes_on ◌-ℤ◌ ◌+ℤ◌
coalesce_test = refl

chain_coalesce_file-Coalesced_example :
    Coalesced 4096
      (pos 6000)
      (pos 0)
      (run 4 store (link 2) (link 3 ∷ link 4 ∷ []))
      store
      (link 2 ∷ link 3 ∷ link 4 ∷ [])
      (chain_coalesce_file 4096 store (link 2) (link 3 ∷ link 4 ∷ []) (pos 6000))
unfolding ◌-ℤ◌
chain_coalesce_file-Coalesced_example =
    chain_coalesce_file-Coalesced 4096 6000 store (link 2) (link 3 ∷ link 4 ∷ []) (omega arith)
      (omega arith, (omega arith, (omega arith, tt)))
