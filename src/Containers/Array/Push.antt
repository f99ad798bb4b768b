-- ===== src/Containers/Array/Push.antt =====
-- What a push of uct_array.c keeps, where the new elements lie, and whose memory that is.
pub mod Succeeds
use umicat.Base.{
  ℕ, ◌+◌, ◌-◌, ◌*◌, ◌^◌, ◌≤◌, ◌<◌, ◌≡◌, refl, ap, ◌∙◌, true, ◌&&◌, Option, none, some, arith, leb,
  ltb, ◌==◌, if◌then◌else◌, Bool-cases, inl, inr,
}
use umicat.Base.Word.{add64, mul64, add64-eq-add, mul64-eq-mul}
use umicat.Containers.Array.{
  Array, Space, State, Palloc, memcpy, take_place, move, array_push, array_push_n,
}

-- How the room of the array after a push is memory that it has: it is the room from before; or that
-- and the free bytes of the pool's front block behind it, which are taken from the block and inside
-- it; or inside a block of `m` bytes that the pool gave when asked for them.
pub data HasRoom (palloc : Palloc) (n : ℕ) (before after : State) : Type 0 where
  same_room :
      after.array.elts ≡ before.array.elts
      → after.array.nalloc ≡ before.array.nalloc
      → after.space ≡ before.space
      → HasRoom palloc n before after
  longer :
      after.array.elts ≡ before.array.elts
      → before.array.elts + before.array.size * before.array.nalloc ≡ before.space.last
      → after.space.last ≡ before.space.last + before.array.size * n
      → after.array.elts + after.array.size * after.array.nalloc ≡ after.space.last
      → after.space.last ≤ before.space.limit
      → HasRoom palloc n before after
  moved :
      (m : ℕ)
      → palloc m before.space ≡ (some after.array.elts, after.space)
      → after.array.size * after.array.nalloc ≤ m
      → HasRoom palloc n before after

-- After a push of n elements the first of which is at `p`: they lie behind the others and within the
-- room of the array, and the others have the same bytes as before, wherever the array is now.
pub record Pushed (palloc : Palloc) (n p : ℕ) (before after : State) : Type 0 where
  pub counted : after.array.nelts ≡ before.array.nelts + n
  pub sized : after.array.size ≡ before.array.size
  pub room : after.array.nelts ≤ after.array.nalloc
  pub housed : HasRoom palloc n before after
  pub placed : p ≡ after.array.elts + after.array.size * before.array.nelts
  pub kept :
      (j : ℕ)
      → j < before.array.size * before.array.nelts
      → after.bytes (after.array.elts + j) ≡ before.bytes (before.array.elts + j)

-- The result of a push. It fails only if the array is full and the pool has no block.
abbrev pub Succeeds : Palloc → ℕ → State → Option ℕ × State → Type 0
Succeeds palloc n s (none, t) =
    (t.array ≡ s.array)
    × ((a : ℕ) → t.bytes a ≡ s.bytes a)
    × (s.array.nalloc < s.array.nelts + n)
    × ((m : ℕ) × (palloc m s.space ≡ (none, t.space)))
Succeeds palloc n s (some p, t) = Pushed palloc n p s t

-- A block that the pool gives does not go round the end of the addresses.
abbrev pub GivesBlocks : Palloc → Type 0
GivesBlocks palloc =
    (m p : ℕ) (space space' : Space) → palloc m space ≡ (some p, space') → p + m < 2 ^ 64

-- An array for a push of n elements: no more elements than it has room for, and twice the room for
-- those and n more can be counted and addressed.
pub record IsSound (n : ℕ) (s : State) : Type 0 where
  pub used : s.array.nelts ≤ s.array.nalloc
  pub count : 2 * (s.array.nalloc + n) < 2 ^ 64
  pub bytes : s.array.size * (2 * (s.array.nalloc + n)) < 2 ^ 64
  pub place : s.array.elts + s.array.size * s.array.nalloc < 2 ^ 64
  pub front : s.space.last + s.array.size * n < 2 ^ 64

memcpy_copied :
    (dst src n j : ℕ) (bytes : ℕ → ℕ) → j < n → memcpy dst src n bytes (dst + j) ≡ bytes (src + j)
unfolding memcpy
memcpy_copied dst src n j bytes h =
    let low : leb dst (dst + j) ≡ true = ground arith in
    let high : ltb (dst + j) (dst + n) ≡ true = ground arith in
    let back : dst + j - dst ≡ j = omega arith in rw (low, high, back)

pub mul_mono : (z a b : ℕ) → a ≤ b → z * a ≤ z * b
mul_mono z a b h = grind arith

-- The address behind the elements, where nothing wraps.
place-eq :
    (elts size nelts : ℕ)
    → elts + size * nelts < 2 ^ 64
    → add64 elts (mul64 size nelts) ≡ elts + size * nelts
place-eq elts size nelts h =
    ap (add64 elts) (mul64-eq-mul size nelts (omega arith)) ∙ add64-eq-add elts (size * nelts) h

module _ (palloc : Palloc) (n : ℕ) (s : State) (v : IsSound n s) where
  pub take_place-Pushed :
      (a : Array) (space : Space)
      → a.elts ≡ s.array.elts
      → a.nelts ≡ s.array.nelts
      → a.size ≡ s.array.size
      → s.array.nelts + n ≤ a.nalloc
      → ((t : State)
          → t.array.elts ≡ a.elts
          → t.array.size ≡ a.size
          → t.array.nalloc ≡ a.nalloc
          → t.space ≡ space
          → HasRoom palloc n s t)
      → Succeeds palloc n s (take_place n (record s { array = a; space = space }))
  unfolding take_place
  take_place-Pushed a space e k z h housed =
      let less = mul_mono s.array.size s.array.nelts s.array.nalloc v.used in
      record {
        counted = add64-eq-add a.nelts n (omega (arith, k, v.used, v.count)) ∙ ap (λ m. m + n) k;
        sized = z;
        room = omega (arith, h, add64-eq-add a.nelts n (omega (arith, k, v.used, v.count)), k);
        housed = housed _ refl refl refl refl;
        placed =
            rw (e, z, k)
              (place-eq s.array.elts s.array.size s.array.nelts (omega (arith, v.place)));
        kept = λ j l. rw e;
      }

  move-answered :
      (m room copied : ℕ) (answer : Option ℕ × Space)
      → GivesBlocks palloc
      → s.array.nalloc < s.array.nelts + n
      → s.array.nelts + n ≤ room
      → s.array.size * room ≤ m
      → copied ≡ s.array.size * s.array.nelts
      → palloc m s.space ≡ answer
      → Succeeds palloc n s (move answer n room copied s)
  unfolding move take_place
  move-answered m room copied (none, space) blocks full h fits c e =
      (refl, (λ a. refl), full, (m, e))
  move-answered m room copied (some p, space) blocks full h fits c e =
      let sum = add64-eq-add s.array.nelts n (omega (arith, v.used, v.count)) in
      let less = mul_mono s.array.size s.array.nelts room (omega arith) in
      record {
        counted = sum;
        sized = refl;
        room = omega (arith, sum);
        housed = moved m e fits;
        placed = place-eq p s.array.size s.array.nelts (omega (arith, blocks m p s.space space e));
        kept = λ j l. memcpy_copied p s.array.elts copied j s.bytes (omega (arith, l, c));
      }

  -- The array is full, and is made longer in place or moved.
  pub array_push-full :
      (m room copied : ℕ)
      → GivesBlocks palloc
      → s.array.nalloc < s.array.nelts + n
      → s.array.nelts + n ≤ room
      → s.array.size * room ≤ m
      → copied ≡ s.array.size * s.array.nelts
      → Succeeds palloc n s (
          if s.array.elts + s.array.size * s.array.nalloc == s.space.last
            && leb (s.space.last + s.array.size * n) s.space.limit
          then take_place n (record s {
            array = record (s.array) { nalloc = s.array.nalloc + n };
            space = record (s.space) { last = s.space.last + s.array.size * n };
          })
          else move (palloc m s.space) n room copied s)
  array_push-full m room copied blocks full h fits c =
      elim (Bool-cases (
        s.array.elts + s.array.size * s.array.nalloc == s.space.last
        && leb (s.space.last + s.array.size * n) s.space.limit)) [
          | inl next ↦
              let ends : s.array.elts + s.array.size * s.array.nalloc ≡ s.space.last =
                ground arith in
              let inside : s.space.last + s.array.size * n ≤ s.space.limit = ground arith in
              let more : s.array.size * (s.array.nalloc + n)
                  ≡ s.array.size * s.array.nalloc + s.array.size * n =
                grind arith in
              rw next (
                take_place-Pushed _ _ refl refl refl (omega (arith, v.used)) (λ t e z a sp.
                  longer e ends (ap (λ (x : Space). x.last) sp)
                    (rw (e, z, a, sp) (omega (arith, ends, more))) (rw sp inside)))
          | inr away ↦
              rw away (move-answered m room copied (palloc m s.space) blocks full h fits c refl)
        ]
