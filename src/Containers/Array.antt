-- ===== src/Containers/Array.antt =====
-- The growing array of uct_array.c and uct_array.h. Addresses, counts and sizes are machine words, and
-- their sums and products wrap. What `uct_palloc` does to
-- the block at the front of the pool, and the address that it gives, is an argument.
pub mod Push
use umicat.Base.{ℕ, ◌+◌, ◌-◌, Bool, ◌&&◌, Option, none, some, leb, ltb, ◌==◌, if◌then◌else◌}
use umicat.Base.Word.{add64, sub64, mul64}

-- `uct_array_t`, without its pool.
pub record Array : Type 0 where
  pub elts : ℕ
  pub nelts : ℕ
  pub size : ℕ
  pub nalloc : ℕ

-- `pool->d.last` and `pool->d.end`.
pub record Space : Type 0 where
  pub last : ℕ
  pub limit : ℕ

-- The array, the pool and the bytes of the memory.
pub record State : Type 0 where
  pub array : Array
  pub space : Space
  pub bytes : ℕ → ℕ

-- `uct_palloc`: the address, `none` for a null pointer, and the front of the pool after the call.
abbrev pub Palloc : Type 0
Palloc = ℕ → Space → Option ℕ × Space

-- `uct_memcpy(dst, src, n)`.
unfoldable pub memcpy : ℕ → ℕ → ℕ → (ℕ → ℕ) → ℕ → ℕ
memcpy dst src n bytes a = if leb dst a && ltb a (dst + n) then bytes (src + (a - dst)) else bytes a

unfoldable pub array_init : Palloc → ℕ → ℕ → Space → Option Array × Space
array_init palloc n size space =
    let (elts, space') = palloc (mul64 n size) space in
    elim elts [
      | none ↦ (none, space')
      | some p ↦ (some (record { elts = p; nelts = 0; size = size; nalloc = n }), space')
    ]

-- `header` is the address of the array's own structure, and `header_size` what it takes.
unfoldable pub array_destroy : ℕ → ℕ → Array → Space → Space
array_destroy header header_size a space =
    let size = mul64 a.size a.nalloc in
    let s1 : Space =
      (if add64 a.elts size == space.last
        then record space { last = sub64 space.last size }
        else space) in
    if add64 header header_size == s1.last then record s1 { last = header } else s1

-- The new element's address, with the count raised.
unfoldable pub take_place : ℕ → State → Option ℕ × State
take_place n s = (
  some (add64 s.array.elts (mul64 s.array.size s.array.nelts)),
  record s { array = record (s.array) { nelts = add64 s.array.nelts n } },
)

-- The array moved to `room` new places at the address that the pool gave, with the bytes that are
-- copied there.
unfoldable pub move : Option ℕ × Space → ℕ → ℕ → ℕ → State → Option ℕ × State
move (none, space) n room copied s = (none, record s { space = space })
move (some p, space) n room copied s = take_place n (record {
  array = record (s.array) { elts = p; nalloc = room };
  space = space;
  bytes = memcpy p s.array.elts copied s.bytes;
})

unfoldable pub array_push : Palloc → State → Option ℕ × State
array_push palloc s =
    let a = s.array in
    let size = mul64 a.size a.nalloc in
    if a.nelts == a.nalloc
    then (if add64 a.elts size == s.space.last && leb (add64 s.space.last a.size) s.space.limit
        then take_place 1 (record s {
          array = record a { nalloc = add64 a.nalloc 1 };
          space = record (s.space) { last = add64 s.space.last a.size };
        })
        else move (palloc (mul64 2 size) s.space) 1 (mul64 a.nalloc 2) size s)
    else take_place 1 s

unfoldable pub array_push_n : Palloc → ℕ → State → Option ℕ × State
array_push_n palloc n s =
    let a = s.array in
    let size = mul64 n a.size in
    let nalloc = mul64 2 (if leb a.nalloc n then n else a.nalloc) in
    if ltb a.nalloc (add64 a.nelts n)
    then (if add64 a.elts (mul64 a.size a.nalloc) == s.space.last
          && leb (add64 s.space.last size) s.space.limit
        then take_place n (record s {
          array = record a { nalloc = add64 a.nalloc n };
          space = record (s.space) { last = add64 s.space.last size };
        })
        else move (palloc (mul64 nalloc a.size) s.space) n nalloc (mul64 a.nelts a.size) s)
    else take_place n s
