-- ===== src/Containers/Array/Push/Succeeds.antt =====
-- The two pushes of uct_array.c: what they come to.
use umicat.Base.{
  ℕ, ◌+◌, ◌*◌, ◌≤◌, ◌<◌, ◌≡◌, refl, ap, ◌∙◌, arith, leb, ltb, ◌==◌, if◌then◌else◌, Bool-cases, inl,
  inr,
}
use umicat.Base.Word.{add64, mul64, add64-eq-add, mul64-eq-mul}
use umicat.Containers.Array.{State, Palloc, array_push, array_push_n}
use umicat.Containers.Array.Push.{
  same_room, Succeeds, GivesBlocks, IsSound, mul_mono, take_place-Pushed, array_push-full,
}

array_push-Pushed :
    (palloc : Palloc) (s : State)
    → GivesBlocks palloc
    → 0 < s.array.nalloc
    → IsSound 1 s
    → Succeeds palloc 1 s (array_push palloc s)
unfolding array_push
array_push-Pushed palloc s blocks h v = elim (Bool-cases (s.array.nelts == s.array.nalloc)) [
  | inl full ↦
      let z = s.array.size in
      let c = s.array.nalloc in
      let all : c ≡ s.array.nelts = ground arith in
      let double : z * (2 * (c + 1)) ≡ 2 * (z * c) + 2 * z = grind arith in
      let twice : z * (c * 2) ≡ 2 * (z * c) = grind arith in
      let size : mul64 z c ≡ z * c = mul64-eq-mul z c (omega (arith, v.bytes)) in
      let ends : add64 s.array.elts (z * c) ≡ s.array.elts + z * c =
        add64-eq-add s.array.elts (z * c) v.place in
      let next : add64 s.space.last z ≡ s.space.last + z * 1 =
        add64-eq-add s.space.last z (omega (arith, v.front)) ∙ omega arith in
      let one : add64 c 1 ≡ c + 1 = add64-eq-add c 1 (omega (arith, v.count)) in
      let asked : mul64 2 (z * c) ≡ 2 * (z * c) = mul64-eq-mul 2 (z * c) (omega (arith, v.bytes)) in
      let room : mul64 c 2 ≡ c * 2 = mul64-eq-mul c 2 (omega (arith, v.count)) in
      rw (full, size, ends, next, one, asked, room)
        (array_push-full palloc 1 s v (2 * (z * c)) (c * 2) (z * c) blocks (omega arith)
          (omega arith) (omega arith) (ap (λ (k : ℕ). z * k) all))
  | inr free ↦ rw free (
      take_place-Pushed palloc 1 s v s.array s.space refl refl refl (ground (arith, v.used))
        (λ t e z a sp. same_room e a sp))
]

array_push_n-Pushed :
    (palloc : Palloc) (n : ℕ) (s : State)
    → GivesBlocks palloc
    → IsSound n s
    → Succeeds palloc n s (array_push_n palloc n s)
unfolding array_push_n
array_push_n-Pushed palloc n s blocks v =
    let z = s.array.size in
    let c = s.array.nalloc in
    let count : add64 s.array.nelts n ≡ s.array.nelts + n =
      add64-eq-add s.array.nelts n (omega (arith, v.used, v.count)) in
    elim (Bool-cases (ltb c (s.array.nelts + n))) [
      | inl full ↦
          let most : ℕ = if leb c n then n else c in
          let bound : 2 * most ≤ 2 * (c + n) = ground arith in
          let enough : s.array.nelts + n ≤ 2 * most = ground (arith, v.used) in
          let fits = mul_mono z (2 * most) (2 * (c + n)) bound in
          let used = mul_mono z s.array.nelts (2 * (c + n)) (omega (arith, v.used)) in
          let each = mul_mono z n (2 * (c + n)) (omega arith) in
          let held = mul_mono z c (2 * (c + n)) (omega arith) in
          let size : mul64 n z ≡ z * n = mul64-eq-mul n z (omega (arith, v.bytes)) ∙ omega arith in
          let all : mul64 z c ≡ z * c = mul64-eq-mul z c (omega (arith, v.bytes)) in
          let ends : add64 s.array.elts (z * c) ≡ s.array.elts + z * c =
            add64-eq-add s.array.elts (z * c) v.place in
          let next : add64 s.space.last (z * n) ≡ s.space.last + z * n =
            add64-eq-add s.space.last (z * n) v.front in
          let more : add64 c n ≡ c + n = add64-eq-add c n (omega (arith, v.count)) in
          let room : mul64 2 most ≡ 2 * most =
            mul64-eq-mul 2 most (omega (arith, bound, v.count)) in
          let asked : mul64 (2 * most) z ≡ z * (2 * most) =
            mul64-eq-mul (2 * most) z (omega (arith, fits, v.bytes)) ∙ omega arith in
          let copied : mul64 s.array.nelts z ≡ z * s.array.nelts =
            mul64-eq-mul s.array.nelts z (omega (arith, v.bytes)) ∙ omega arith in
          rw (count, full, size, all, ends, next, more, room, asked, copied)
            (array_push-full palloc n s v (z * (2 * most)) (2 * most) (z * s.array.nelts) blocks
              (ground arith) enough (omega arith) refl)
      | inr free ↦
          rw (count, free)
            (take_place-Pushed palloc n s v s.array s.space refl refl refl (ground (arith, v.used))
              (λ t e y a sp. same_room e a sp))
    ]

-- For an array with room for one element at least, and pushes for which twice the room and the new
-- elements can be counted and addressed; and a pool whose blocks do not go round the end of the
-- addresses. A push of one element or of n either returns a null pointer and changes neither the array
-- nor the bytes, and then the array was full and the pool refused a block. Or it returns the address
-- of the new elements, behind the others and within the room, with all bytes of the others kept. All
-- the room is memory that the array has: what it had; that and free bytes of the pool's block right
-- behind it, inside the block; or a block that the pool gave, which was asked to be as long.
pub array_push-Succeeds :
    (palloc : Palloc) (n : ℕ) (s : State)
    → GivesBlocks palloc
    → 0 < s.array.nalloc
    → IsSound 1 s
    → IsSound n s
    → Succeeds palloc 1 s (array_push palloc s) × Succeeds palloc n s (array_push_n palloc n s)
array_push-Succeeds palloc n s blocks h one v =
    (array_push-Pushed palloc s blocks h one, array_push_n-Pushed palloc n s blocks v)
