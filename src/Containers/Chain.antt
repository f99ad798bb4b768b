-- ===== src/Containers/Chain.antt =====
-- The buffers and chains of uct_buf.h and uct_buf.c. A chain is the list of its links, each with its
-- address and that of its buffer, so that the link's `next` is the rest of the list; the buffers are
-- in a store, which chains share. `supply` are the addresses that `uct_palloc` has still to give: it
-- answers with a null pointer when there are none. The blocks for the contents of buffers come apart,
-- since their sizes differ: `Blocks`.
pub mod Coalesce
pub mod Copy
pub mod Create
pub mod Sent
pub mod Stream
pub mod Update
use umicat.Base.{
  ℕ, zero, suc, ◌+◌, Bool, true, false, ◌&&◌, ◌||◌, not, Option, none, some, List, [], ◌∷◌, ◌++◌,
  ◌==◌, if◌then◌else◌,
}
use umicat.Base.Int.{ℤ, pos, ◌+ℤ◌, ◌-ℤ◌, eqb_ℤ, leb_ℤ}
use umicat.Base.Word.{mul64}

-- `uct_buf_t`; `temporary` to `last_buf` are its one-bit flags. `fd` is the descriptor of its file.
pub record Buf : Type 0 where
  pub pos_ : ℤ
  pub last : ℤ
  pub file_pos : ℤ
  pub file_last : ℤ
  pub start : ℤ
  pub end_ : ℤ
  pub tag : ℕ
  pub fd : ℕ
  pub temporary : Bool
  pub memory : Bool
  pub mmap : Bool
  pub in_file : Bool
  pub flush : Bool
  pub sync : Bool
  pub last_buf : Bool

-- The macros `uct_buf_in_memory`, `uct_buf_in_memory_only`, `uct_buf_special`, `uct_buf_sync_only`
-- and `uct_buf_size`.
unfoldable pub buf_in_memory : Buf → Bool
buf_in_memory b = b.temporary || b.memory || b.mmap

unfoldable pub buf_in_memory_only : Buf → Bool
buf_in_memory_only b = buf_in_memory b && not b.in_file

unfoldable pub buf_special : Buf → Bool
buf_special b = (b.flush || b.last_buf || b.sync) && not (buf_in_memory b) && not b.in_file

unfoldable pub buf_sync_only : Buf → Bool
buf_sync_only b = b.sync && not (buf_in_memory b) && not b.in_file && not b.flush && not b.last_buf

unfoldable pub buf_size : Buf → ℤ
buf_size b = if buf_in_memory b then b.last -ℤ b.pos_ else b.file_last -ℤ b.file_pos

-- `uct_chain_t` at the address `at`.
pub record Link : Type 0 where
  pub at : ℕ
  pub buf : ℕ

abbrev pub Store : Type 0
Store = ℕ → Buf

unfoldable pub write : ℕ → Buf → Store → Store
write a b st c = if a == c then b else st c

-- The pool as these functions use it: the list `chain` of free links, and what it can still give;
-- with the buffers.
pub record ChainPool : Type 0 where
  pub chain : List Link
  pub supply : List ℕ
  pub store : Store

unfoldable pub next_supply : ChainPool → Option ℕ × ChainPool
next_supply p = elim p.supply [ [] ↦ (none, p) | a ∷ rest ↦ (some a, record p { supply = rest }) ]

-- What `uct_pcalloc` leaves in a buffer.
abbrev pub zero_buf : Buf
zero_buf = record {
  pos_ = pos 0;
  last = pos 0;
  file_pos = pos 0;
  file_last = pos 0;
  start = pos 0;
  end_ = pos 0;
  tag = 0;
  fd = 0;
  temporary = false;
  memory = false;
  mmap = false;
  in_file = false;
  flush = false;
  sync = false;
  last_buf = false;
}

-- What follows an allocation, which a null pointer ends.
unfoldable pub and_then {ℓ} :
    {A : Type ℓ}
    → Option ℕ × ChainPool
    → (ℕ → ChainPool → Option A × ChainPool)
    → Option A × ChainPool
and_then (none, p) next = (none, p)
and_then (some a, p) next = next a p

unfoldable pub put : ℕ → Buf → ChainPool → ChainPool
put a b p = record p { store = write a b p.store }

unfoldable pub calloc_buf : ChainPool → Option ℕ × ChainPool
calloc_buf p = and_then (next_supply p) (λ a q. (some a, put a zero_buf q))

-- A link from the pool's list, or a new one. What its `buf` field holds is not used before it is
-- written, so that only the address is given.
unfoldable pub alloc_chain_link : ChainPool → Option ℕ × ChainPool
alloc_chain_link p = elim p.chain [
  | [] ↦ next_supply p
  | cl ∷ rest ↦ (some cl.at, record p { chain = rest })
]

unfoldable pub free_chain : Link → ChainPool → ChainPool
free_chain cl p = record p { chain = cl ∷ p.chain }

-- The empty buffer on the block from `a` up to `z`.
unfoldable pub temp_buf : ℤ → ℤ → Buf → Buf
temp_buf a z b = record b { pos_ = a; last = a; start = a; end_ = z; temporary = true }

-- What `uct_palloc` answers to the request for a block of so many bytes, for the contents of buffers.
abbrev pub Blocks : Type 0
Blocks = ℕ → Option ℕ

unfoldable pub create_temp_buf : Blocks → ℕ → ChainPool → Option ℕ × ChainPool
create_temp_buf blocks size p = and_then (calloc_buf p) (λ b q.
    and_then (blocks size, q)
      (λ a r. (some b, put b (temp_buf (pos a) (pos a +ℤ pos size) (r.store b)) r)))

-- A link in front of the chain that the rest of the loop gives, if it gives one.
unfoldable pub prepend_link : Link → Option (List Link) × ChainPool → Option (List Link) × ChainPool
prepend_link cl (none, p) = (none, p)
prepend_link cl (some cls, p) = (some (cl ∷ cls), p)

-- The loop, with the address of the next block and the number of buffers still to make.
unfoldable pub create_bufs : ℕ → ℤ → ℕ → ChainPool → Option (List Link) × ChainPool
create_bufs size a zero p = (some [], p)
create_bufs size a (suc num) p = and_then (calloc_buf p) (λ b q.
    and_then (alloc_chain_link (put b (temp_buf a (a +ℤ pos size) (q.store b)) q))
      (λ at r. prepend_link (record { at = at; buf = b }) (create_bufs size (a +ℤ pos size) num r)))

-- The product is of `size_t` and wraps.
unfoldable pub create_chain_of_bufs : Blocks → ℕ → ℕ → ChainPool → Option (List Link) × ChainPool
create_chain_of_bufs blocks num size p =
    and_then (blocks (mul64 num size), p) (λ a q. create_bufs size (pos a) num q)

-- The copies of the links, and whether all were made.
unfoldable pub copy_links : List Link → ChainPool → Bool × List Link × ChainPool
copy_links [] p = (true, [], p)
copy_links (cl ∷ in_) p =
    let (link, q) = alloc_chain_link p in
    elim link [
      | none ↦ (false, [], q)
      | some at ↦
          let (ok, cls, r) = copy_links in_ q in (ok, record { at = at; buf = cl.buf } ∷ cls, r)
    ]

-- `true` for UCT_OK, `false` for UCT_ERROR.
unfoldable pub chain_add_copy : List Link → List Link → ChainPool → Bool × List Link × ChainPool
chain_add_copy chain in_ p = let (ok, cls, q) = copy_links in_ p in (ok, chain ++ cls, q)

-- The link, what is left of `free`, and the pool.
unfoldable pub chain_get_free_buf : List Link → ChainPool → Option Link × List Link × ChainPool
chain_get_free_buf (cl ∷ free) p = (some cl, free, p)
chain_get_free_buf [] p =
    let (link, q) =
      and_then (alloc_chain_link p)
        (λ at q. and_then (calloc_buf q) (λ b r. (some (record { at = at; buf = b }), r))) in
    (link, [], q)

-- `*free`, `*busy` and `*out`.
pub record Chains : Type 0 where
  pub free : List Link
  pub busy : List Link
  pub out : List Link

unfoldable pub reset_buf : Buf → Buf
reset_buf b = record b { pos_ = b.start; last = b.start }

-- The loop over `*busy`.
unfoldable pub release_sent : ℕ → List Link → List Link → ChainPool → Chains × ChainPool
release_sent tag free [] p = (record { free = free; busy = []; out = [] }, p)
release_sent tag free (cl ∷ busy) p =
    let b = p.store cl.buf in
    elim (eqb_ℤ (buf_size b) (pos 0)) [
      | false ↦ (record { free = free; busy = cl ∷ busy; out = [] }, p)
      | true ↦ elim (b.tag == tag) [
        | false ↦ release_sent tag free busy (free_chain cl p)
        | true ↦ release_sent tag (cl ∷ free) busy (put cl.buf (reset_buf b) p)
      ]
    ]

unfoldable pub chain_update_chains : ℕ → Chains → ChainPool → Chains × ChainPool
chain_update_chains tag c p = release_sent tag c.free (c.busy ++ c.out) p

-- What a buffer becomes of which all is sent, and of which `sent` bytes are.
unfoldable pub sent_all : Buf → Buf
sent_all b = record b {
  pos_ = (if buf_in_memory b then b.last else b.pos_);
  file_pos = (if b.in_file then b.file_last else b.file_pos);
}

unfoldable pub sent_some : ℤ → Buf → Buf
sent_some sent b = record b {
  pos_ = (if buf_in_memory b then b.pos_ +ℤ sent else b.pos_);
  file_pos = (if b.in_file then b.file_pos +ℤ sent else b.file_pos);
}

unfoldable pub chain_update_sent : List Link → ℤ → Store → List Link × Store
chain_update_sent [] sent st = ([], st)
chain_update_sent (cl ∷ in_) sent st =
    let b = st cl.buf in
    elim (buf_special b) [
      | true ↦ chain_update_sent in_ sent st
      | false ↦ elim (eqb_ℤ sent (pos 0)) [
        | true ↦ (cl ∷ in_, st)
        | false ↦ elim (leb_ℤ (buf_size b) sent) [
          | true ↦ chain_update_sent in_ (sent -ℤ buf_size b) (write cl.buf (sent_all b) st)
          | false ↦ (cl ∷ in_, write cl.buf (sent_some sent b) st)
        ]
      ]
    ]
