-- ===== src/Pool/Bounds.antt =====
-- Where the pool puts an allocation: inside a block, behind everything that the block handed out
-- before.
pub mod Failed
use umicat.Base.{
  ℕ, zero, suc, ◌+◌, ◌-◌, ◌*◌, ◌/◌, ◌%◌, ◌^◌, ◌≤◌, ◌<◌, ◌≡◌, refl, ap, Bool, true, false, List, [],
  ◌∷◌, Option, none, some, if◌then◌else◌, arith, Bool-cases, inl, inr, ◌⊎◌, length, get_elem?,
}
use umicat.Base.Word.{add64, sub64}
use umicat.Pool.{
  Block, Pool, place, has_room, alloc_in, count_failed, alignment, pool_data_size, pool_size,
}

-- A block of `psize` bytes: aligned, below 2 ^ 64, and its free part inside it, behind its header.
pub record IsBlock (psize : ℕ) (b : Block) : Type 0 where
  pub aligned : b.base % 16 ≡ 0
  pub whole : b.base + psize ≡ b.limit
  pub word : b.limit < 2 ^ 64
  pub above : b.base + pool_data_size ≤ b.last
  pub inside : b.last ≤ b.limit

abbrev pub AllBlocks : ℕ → List Block → Type 0
AllBlocks psize [] = Unit {0}
AllBlocks psize (b ∷ bs) = IsBlock psize b × AllBlocks psize bs

-- A pool whose blocks have `psize` bytes, a multiple of the alignment.
pub record IsPool (psize : ℕ) (pool : Pool) : Type 0 where
  pub rounded : psize % 8 ≡ 0
  pub blocks : AllBlocks psize pool.blocks
  pub held : 0 < length pool.blocks
  pub fits : pool.max + pool_size ≤ psize

-- What posix_memalign may answer: no memory, or an aligned block of `psize` bytes.
abbrev pub IsAnswer : ℕ → Option ℕ → Type 0
IsAnswer psize none = Unit {0}
IsAnswer psize (some m) = (m % 16 ≡ 0) × (m + psize < 2 ^ 64)

-- An allocation of `size` bytes at `m` that turns block `b` into `b'`.
pub record Room (align : Bool) (m size : ℕ) (b b' : Block) : Type 0 where
  pub same_base : b'.base ≡ b.base
  pub same_limit : b'.limit ≡ b.limit
  pub fresh : b.last ≤ m
  pub taken : m + size ≡ b'.last
  pub inside : b'.last ≤ b'.limit
  pub aligned : (if align then m % alignment else 0) ≡ 0

place-Room :
    (psize size : ℕ) (align : Bool) (b : Block)
    → psize % 8 ≡ 0
    → IsBlock psize b
    → has_room align size b ≡ true
    → Room align (place align b) size b (record b { last = add64 (place align b) size })
unfolding place has_room add64 sub64
place-Room psize size true b h v e =
    let roomy : size ≤ (b.limit + 2 ^ 64 - (b.last + 7) % 2 ^ 64 / 8 * 8) % 2 ^ 64 = ground arith in
    record {
      same_base = refl;
      same_limit = refl;
      fresh = omega (arith, v.aligned, v.whole, v.word, v.inside);
      taken = omega (arith, v.aligned, v.whole, v.word, v.inside);
      inside = omega (arith, v.aligned, v.whole, v.word, v.inside);
      aligned = omega arith;
    }
place-Room psize size false b h v e =
    let roomy : size ≤ (b.limit + 2 ^ 64 - b.last) % 2 ^ 64 = ground arith in
    record {
      same_base = refl;
      same_limit = refl;
      fresh = omega arith;
      taken = omega (arith, v.aligned, v.whole, v.word, v.inside);
      inside = omega (arith, v.aligned, v.whole, v.word, v.inside);
      aligned = refl;
    }

-- The blocks of the first list are still there, and have handed out as much or more.
abbrev pub Grows : List Block → List Block → Type 0
Grows [] cs = Unit {0}
Grows (b ∷ bs) [] = ⊥
Grows (b ∷ bs) (c ∷ cs) = (c.base ≡ b.base) × (c.limit ≡ b.limit) × (b.last ≤ c.last) × Grows bs cs

pub Grows-refl : (bs : List Block) → Grows bs bs
Grows-refl [] = tt
Grows-refl (b ∷ bs) = (refl, refl, omega arith, Grows-refl bs)

-- The allocation at `m` is in a block of the pool, or in a new one behind them, whose header it
-- leaves alone.
abbrev pub Placed : Bool → ℕ → ℕ → List Block → List Block → Type 0
Placed align m size bs cs =
    ((i : ℕ) × (b : Block) × (c : Block) × (get_elem? bs i ≡ some b)
      × (get_elem? cs i ≡ some c)
      × Room align m size b c)
    ⊎ ((b : Block) × (c : Block) × (get_elem? cs (length bs) ≡ some c)
        × (b.last ≡ c.base + pool_data_size)
        × Room align m size b c)

Placed-cons :
    (align : Bool) (m size : ℕ) (b : Block) (bs cs : List Block)
    → ((i : ℕ) × (x : Block) × (y : Block) × (get_elem? bs i ≡ some x)
        × (get_elem? cs i ≡ some y)
        × Room align m size x y)
    → (i : ℕ) × (x : Block) × (y : Block) × (get_elem? (b ∷ bs) i ≡ some x)
      × (get_elem? (b ∷ cs) i ≡ some y)
      × Room align m size x y
Placed-cons align m size b bs cs (i, x, y, p, q, r) = (suc i, x, y, p, q, r)

-- What the loop over the blocks comes to: no block from the `skip`-th on has room, and none is
-- changed, or one of them is given the allocation.
pub record Searched (psize : ℕ) (align : Bool) (size : ℕ) (bs : List Block) (m : ℕ)
    (cs : List Block) : Type 0 where
  pub blocks : AllBlocks psize cs
  pub grows : Grows bs cs
  pub longer : length cs ≡ length bs
  pub spot :
      (i : ℕ) × (b : Block) × (c : Block) × (get_elem? bs i ≡ some b)
      × (get_elem? cs i ≡ some c)
      × Room align m size b c

IsBlock-Room :
    (psize m size : ℕ) (align : Bool) (b : Block) (last : ℕ)
    → IsBlock psize b
    → Room align m size b (record b { last = last })
    → IsBlock psize (record b { last = last })
IsBlock-Room psize m size align b last v r = record {
  aligned = v.aligned;
  whole = v.whole;
  word = v.word;
  above = omega (arith, v.above, r.fresh, r.taken);
  inside = r.inside;
}

pub alloc_in_cases :
    (psize size skip : ℕ) (align : Bool) (bs : List Block)
    → psize % 8 ≡ 0
    → AllBlocks psize bs
    → ((alloc_in align size skip bs).0 ≡ none)
      ⊎ ((m : ℕ) × ((alloc_in align size skip bs).0 ≡ some m)
          × Searched psize align size bs m (alloc_in align size skip bs).1)
unfolding alloc_in
alloc_in_cases psize size zero align [] h v = inl refl
alloc_in_cases psize size (suc skip) align [] h v = inl refl
alloc_in_cases psize size (suc skip) align (b ∷ bs) h v =
    elim (alloc_in_cases psize size skip align bs h v.1) [
      | inl e ↦ inl e
      | inr (m, e, s) ↦ inr (
        m,
        e,
        record {
          blocks = (v.0, s.blocks);
          grows = (refl, refl, omega arith, s.grows);
          longer = ap suc s.longer;
          spot = Placed-cons align m size b bs _ s.spot;
        },
      )
    ]
alloc_in_cases psize size zero align (b ∷ bs) h v = elim (Bool-cases (has_room align size b)) [
  | inl e ↦
      let r = place-Room psize size align b h v.0 e in
      rw e (
        inr (
          place align b,
          refl,
          record {
            blocks = (IsBlock-Room psize _ size align b _ v.0 r, v.1);
            grows = (refl, refl, omega (arith, r.fresh, r.taken), Grows-refl bs);
            longer = refl;
            spot = (0, b, _, refl, refl, r);
          },
        ))
  | inr e ↦ rw e (elim (alloc_in_cases psize size zero align bs h v.1) [
    | inl f ↦ inl f
    | inr (m, f, s) ↦ inr (
      m,
      f,
      record {
        blocks = (v.0, s.blocks);
        grows = (refl, refl, omega arith, s.grows);
        longer = ap suc s.longer;
        spot = Placed-cons align m size b bs _ s.spot;
      },
    )
  ])
]
