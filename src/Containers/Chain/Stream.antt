-- ===== src/Containers/Chain/Stream.antt =====
-- The bytes that the buffers of a chain have still to send, and what sending does to one buffer.
use umicat.Base.{
  ℕ, zero, suc, ◌-◌, ◌≤◌, ◌≡◌, refl, sym, ap, ◌∙◌, Bool, true, false, ◌||◌, List, [], ◌∷◌, ◌++◌,
  map, length, drop, arith, ◌==◌, if◌then◌else◌, Bool-cases, inl, inr,
}
use umicat.Base.Int.{ℤ, pos, negsuc, ◌+ℤ◌, ◌-ℤ◌, ◌≤ℤ◌, pos_part, int_laws, leb_ℤ}
use umicat.Base.Distinct.{NotIn, eq_sym}
use umicat.Containers.Chain.{
  Buf, Link, Store, write, buf_in_memory, buf_special, buf_size, sent_all, sent_some,
}

-- A byte by its place: in memory or in a file, which file, and where.
abbrev pub Place : Type 0
Place = Bool × ℕ × ℤ

unfoldable pub places : Bool → ℕ → ℤ → ℕ → List Place
places m fd a zero = []
places m fd a (suc n) = (m, fd, a) ∷ places m fd (a +ℤ pos 1) n

-- The bytes of a buffer that are still to be sent; a special buffer has none.
unfoldable pub unsent : Buf → List Place
unsent b =
    if buf_special b
    then []
    else places (buf_in_memory b) b.fd (if buf_in_memory b then b.pos_ else b.file_pos)
        (pos_part (buf_size b))

unfoldable pub stream : Store → List Link → List Place
stream st [] = []
stream st (cl ∷ cls) = unsent (st cl.buf) ++ stream st cls

-- A buffer does not end before its position, and is in memory or in a file if it is not special.
pub record IsSound (b : Buf) : Type 0 where
  pub sized : pos 0 ≤ℤ buf_size b
  pub kept : (buf_in_memory b || b.in_file || buf_special b) ≡ true

abbrev pub AllSound : Store → List Link → Type 0
AllSound st [] = Unit {0}
AllSound st (cl ∷ cls) = IsSound (st cl.buf) × AllSound st cls

abbrev pub bufs : List Link → List ℕ
bufs = map (λ cl. cl.buf)

length-places : (m : Bool) (fd : ℕ) (a : ℤ) (n : ℕ) → length (places m fd a n) ≡ n
unfolding places
length-places m fd a zero = refl
length-places m fd a (suc n) = ap suc (length-places m fd (a +ℤ pos 1) n)

drop-places :
    (m : Bool) (fd : ℕ) (a : ℤ) (k n : ℕ)
    → k ≤ n
    → drop k (places m fd a n) ≡ places m fd (a +ℤ pos k) (n - k)
unfolding places
drop-places m fd a zero n h =
    let here : a +ℤ pos 0 ≡ a = omega int_laws in
    let all : n - 0 ≡ n = omega arith in rw (here, all)
drop-places m fd a (suc k) zero h = absurd (omega arith)
drop-places m fd a (suc k) (suc n) h =
    let same : a +ℤ pos 1 +ℤ pos k ≡ a +ℤ pos (suc k) = omega int_laws in
    let left : suc n - suc k ≡ n - k = omega arith in
    rw (left, sym same) (drop-places m fd (a +ℤ pos 1) k n (omega arith))

-- A write to a buffer is not seen by a chain without it.
pub stream-write :
    (st : Store) (a : ℕ) (b : Buf) (cls : List Link)
    → NotIn a (bufs cls)
    → stream (write a b st) cls ≡ stream st cls
unfolding stream write
stream-write st a b [] n = refl
stream-write st a b (cl ∷ cls) n = rw (n.0, stream-write st a b cls n.1) refl

pub AllSound-write :
    (st : Store) (a : ℕ) (b : Buf) (cls : List Link)
    → NotIn a (bufs cls)
    → AllSound st cls
    → AllSound (write a b st) cls
unfolding write
AllSound-write st a b [] n s = tt
AllSound-write st a b (cl ∷ cls) n s = (rw n.0 s.0, AllSound-write st a b cls n.1 s.1)

pub unsent_special : (b : Buf) → buf_special b ≡ true → unsent b ≡ []
unfolding unsent
unsent_special b e = rw e refl

pub length-unsent : (b : Buf) → buf_special b ≡ false → length (unsent b) ≡ pos_part (buf_size b)
unfolding unsent
length-unsent b e = rw e (length-places _ _ _ _)

in_memory-sent_all : (b : Buf) → buf_in_memory (sent_all b) ≡ buf_in_memory b
unfolding sent_all buf_in_memory
in_memory-sent_all b = refl

special-sent_all : (b : Buf) → buf_special (sent_all b) ≡ buf_special b
unfolding sent_all buf_special buf_in_memory
special-sent_all b = refl

in_memory-sent_some : (k : ℤ) (b : Buf) → buf_in_memory (sent_some k b) ≡ buf_in_memory b
unfolding sent_some buf_in_memory
in_memory-sent_some k b = refl

special-sent_some : (k : ℤ) (b : Buf) → buf_special (sent_some k b) ≡ buf_special b
unfolding sent_some buf_special buf_in_memory
special-sent_some k b = refl

-- A buffer that is not special and not in memory is in a file.
in_file_of_not :
    (b : Buf) → IsSound b → buf_special b ≡ false → buf_in_memory b ≡ false → b.in_file ≡ true
in_file_of_not b h e m = ground (arith, h.kept, e, m)

size-sent_all : (b : Buf) → IsSound b → buf_special b ≡ false → buf_size (sent_all b) ≡ pos 0
unfolding buf_size sent_all
size-sent_all b h e = elim (Bool-cases (buf_in_memory b)) [
  | inl m ↦ rw (in_memory-sent_all b, m) (omega int_laws)
  | inr m ↦ rw (in_memory-sent_all b, m, in_file_of_not b h e m) (omega int_laws)
]

pub unsent-sent_all : (b : Buf) → IsSound b → buf_special b ≡ false → unsent (sent_all b) ≡ []
unfolding unsent places
unsent-sent_all b h e = rw (special-sent_all b, e, size-sent_all b h e) refl

size-sent_some :
    (b : Buf) (k : ℤ)
    → IsSound b
    → buf_special b ≡ false
    → buf_size (sent_some k b) ≡ buf_size b -ℤ k
unfolding buf_size sent_some
size-sent_some b k h e = elim (Bool-cases (buf_in_memory b)) [
  | inl m ↦ rw (in_memory-sent_some k b, m) (omega int_laws)
  | inr m ↦ rw (in_memory-sent_some k b, m, in_file_of_not b h e m) (omega int_laws)
]

-- Where the unsent bytes begin.
unfoldable first : Buf → ℤ
first b = if buf_in_memory b then b.pos_ else b.file_pos

first-sent_some :
    (b : Buf) (k : ℤ) → IsSound b → buf_special b ≡ false → first (sent_some k b) ≡ first b +ℤ k
unfolding first sent_some
first-sent_some b k h e = elim (Bool-cases (buf_in_memory b)) [
  | inl m ↦ rw (in_memory-sent_some k b, m) refl
  | inr m ↦ rw (in_memory-sent_some k b, m, in_file_of_not b h e m) refl
]

unsent-eq :
    (b : Buf)
    → buf_special b ≡ false
    → unsent b ≡ places (buf_in_memory b) b.fd (first b) (pos_part (buf_size b))
unfolding unsent first
unsent-eq b e = rw e refl

-ℤ_below : (a : ℤ) (k : ℕ) → pos 0 ≤ℤ a → k ≤ pos_part a → a -ℤ pos k ≡ pos (pos_part a - k)
unfolding ◌-ℤ◌
-ℤ_below (pos n) k h l = ground arith
-ℤ_below (negsuc n) k h l = absurd (omega arith)

pub sub_size : (a : ℤ) (k : ℕ) → pos 0 ≤ℤ a → pos_part a ≤ k → pos k -ℤ a ≡ pos (k - pos_part a)
unfolding ◌-ℤ◌
sub_size (pos n) k h l = ground arith
sub_size (negsuc n) k h l = absurd (omega arith)

pub unsent-sent_some :
    (b : Buf) (k : ℕ)
    → IsSound b
    → buf_special b ≡ false
    → leb_ℤ (buf_size b) (pos k) ≡ false
    → unsent (sent_some (pos k) b) ≡ drop k (unsent b)
unfolding sent_some
unsent-sent_some b k h e l =
    let less : k ≤ pos_part (buf_size b) = ground (arith, h.sized) in
    let size : pos_part (buf_size b -ℤ pos k) ≡ pos_part (buf_size b) - k =
      ap pos_part (-ℤ_below (buf_size b) k h.sized less) in
    unsent-eq (sent_some (pos k) b) (special-sent_some (pos k) b ∙ e)
    ∙ rw
        (
          in_memory-sent_some (pos k) b,
          first-sent_some b (pos k) h e,
          size-sent_some b (pos k) h e,
          size,
          unsent-eq b e,
          drop-places (buf_in_memory b) b.fd (first b) k (pos_part (buf_size b)) less,
        )
        refl

pub write_self : (a : ℕ) (b : Buf) (st : Store) → write a b st a ≡ b
unfolding write
write_self a b st = ground arith

pub write_other : (a : ℕ) (b : Buf) (st : Store) (c : ℕ) → (c == a) ≡ false → write a b st c ≡ st c
unfolding write
write_other a b st c e = rw (eq_sym c a e) refl
