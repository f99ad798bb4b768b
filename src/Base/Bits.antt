-- ===== src/Base/Bits.antt =====
-- Shifts, masks and unions of bits as the string routines use them: a masked value is a remainder,
-- and the union of a shifted value with a smaller one is their sum.
use Prim.Native.Nat.{bit_and, bit_or, digits, bitwise, bit_and-bitwise, bit_or-bitwise, min, max}
use umicat.Base.{
  ℕ, zero, suc, ◌+◌, ◌*◌, ◌/◌, ◌%◌, ◌≤◌, ◌<◌, ◌≡◌, refl, sym, ap, ◌∙◌, dec_lt, Bool, true, ◌&&◌,
  arith,
}

-- A table: every number below `size` passes the test.
unfoldable pub holds_below : (ℕ → Bool) → ℕ → Bool
holds_below test zero = true
holds_below test (suc size) = holds_below test size && test size

pub holds_below-at :
    (test : ℕ → Bool) (size : ℕ) → holds_below test size ≡ true → (x : ℕ) → x < size → test x ≡ true
unfolding holds_below
holds_below-at test zero whole x h = elim h [ ]
holds_below-at test (suc size) whole x h = elim (dec_lt x size) [
  | yes below ↦ holds_below-at test size (ground arith) x below
  | no last ↦ let same : x ≡ size = omega arith in rw same (ground arith)
]

-- The recursion that the native operations stand for, with `empty` the result once the first number
-- has run out of digits.
module _ (empty : ℕ → ℕ) (join : ℕ → ℕ → ℕ) where
  digits-suc : (n a b : ℕ) → a ≤ n → digits empty join (suc n) a b ≡ digits empty join n a b
  digits-suc zero zero b h = refl
  digits-suc (suc n) zero b h = refl
  digits-suc zero (suc a) b h = elim h [ ]
  digits-suc (suc n) (suc a) b h =
      ap (λ (high : ℕ). high * 2 + join (suc a % 2) (b % 2))
        (digits-suc n (suc a / 2) (b / 2) (omega arith))

  -- A longer count of digits makes no difference.
  digits_longer : (m n a b : ℕ) → n ≤ m → a ≤ n → digits empty join m a b ≡ digits empty join n a b
  digits_longer zero n a b l h = let same : n ≡ 0 = omega arith in rw same
  digits_longer (suc m) n a b l h = elim (dec_lt m n) [
    | yes top ↦ let same : n ≡ suc m = omega arith in rw same
    | no more ↦ digits-suc m a b (omega arith) ∙ digits_longer m n a b (omega arith) h
  ]

  -- The lowest digit comes last.
  bitwise-suc :
      (a b : ℕ)
      → bitwise empty join (suc a) b
        ≡ bitwise empty join (suc a / 2) (b / 2) * 2 + join (suc a % 2) (b % 2)
  bitwise-suc a b =
      ap (λ (high : ℕ). high * 2 + join (suc a % 2) (b % 2))
        (digits_longer a (suc a / 2) (suc a / 2) (b / 2) (omega arith) (omega arith))

bit_and_step : (a b : ℕ) → bit_and a b ≡ bit_and (a / 2) (b / 2) * 2 + min (a % 2) (b % 2)
bit_and_step zero b = omega (arith, bit_and-bitwise 0 b, bit_and-bitwise 0 (b / 2))
bit_and_step (suc a) b =
    bit_and-bitwise (suc a) b
    ∙ bitwise-suc (λ c. zero) min a b
    ∙ ap (λ (high : ℕ). high * 2 + min (suc a % 2) (b % 2))
        (sym (bit_and-bitwise (suc a / 2) (b / 2)))

bit_or_step : (a b : ℕ) → bit_or a b ≡ bit_or (a / 2) (b / 2) * 2 + max (a % 2) (b % 2)
bit_or_step zero b = omega (arith, bit_or-bitwise 0 b, bit_or-bitwise 0 (b / 2))
bit_or_step (suc a) b =
    bit_or-bitwise (suc a) b
    ∙ bitwise-suc (λ c. c) max a b
    ∙ ap (λ (high : ℕ). high * 2 + max (suc a % 2) (b % 2))
        (sym (bit_or-bitwise (suc a / 2) (b / 2)))

-- A number and no bits, halved until nothing is left.
no_bits : (n a : ℕ) → a ≤ n → (bit_and a 0 ≡ 0) × (bit_or a 0 ≡ a)
no_bits n zero h = (refl, refl)
no_bits zero (suc a) h = elim h [ ]
no_bits (suc n) (suc a) h =
    let (both, either) = no_bits n (suc a / 2) (omega arith) in
    (omega (arith, bit_and_step (suc a) 0, both), omega (arith, bit_or_step (suc a) 0, either))

-- A mask of ones is a remainder.
pub bit_and-one : (a : ℕ) → bit_and a 1 ≡ a % 2
bit_and-one a = omega (arith, bit_and_step a 1, (no_bits (a / 2) (a / 2) (omega arith)).0)

pub bit_and-three : (a : ℕ) → bit_and a 3 ≡ a % 4
bit_and-three a = omega (arith, bit_and_step a 3, bit_and-one (a / 2))

pub bit_and-seven : (a : ℕ) → bit_and a 7 ≡ a % 8
bit_and-seven a = omega (arith, bit_and_step a 7, bit_and-three (a / 2))

pub bit_and-fifteen : (a : ℕ) → bit_and a 15 ≡ a % 16
bit_and-fifteen a = omega (arith, bit_and_step a 15, bit_and-seven (a / 2))

pub bit_and_31 : (a : ℕ) → bit_and a 31 ≡ a % 32
bit_and_31 a = omega (arith, bit_and_step a 31, bit_and-fifteen (a / 2))

pub bit_and_63 : (a : ℕ) → bit_and a 63 ≡ a % 64
bit_and_63 a = omega (arith, bit_and_step a 63, bit_and_31 (a / 2))

-- A value shifted up has no bit in common with what fits below it.
pub bit_or-zero : (a : ℕ) → bit_or a 0 ≡ a
bit_or-zero a = (no_bits a a (omega arith)).1

pub bit_or-shl1 : (x y : ℕ) → y < 2 → bit_or (x * 2) y ≡ x * 2 + y
bit_or-shl1 x y h =
    let low : y / 2 ≡ 0 = omega arith in
    let high : x * 2 / 2 ≡ x = omega arith in
    rw (bit_or_step (x * 2) y, low, high, bit_or-zero x) (omega arith)

pub bit_or-shl2 : (x y : ℕ) → y < 4 → bit_or (x * 4) y ≡ x * 4 + y
bit_or-shl2 x y h =
    let high : x * 4 / 2 ≡ x * 2 = omega arith in
    rw (bit_or_step (x * 4) y, high, bit_or-shl1 x (y / 2) (omega arith)) (omega arith)

pub bit_or-shl4 : (x y : ℕ) → y < 16 → bit_or (x * 16) y ≡ x * 16 + y
bit_or-shl4 x y h =
    let once : x * 16 / 2 ≡ x * 8 = omega arith in
    let twice : x * 8 / 2 ≡ x * 4 = omega arith in
    rw (bit_or_step (x * 16) y, once, bit_or_step (x * 8) (y / 2), twice)
      (rw (bit_or-shl2 x (y / 2 / 2) (omega arith)) (omega arith))

pub bit_or-shl6 : (x y : ℕ) → y < 64 → bit_or (x * 64) y ≡ x * 64 + y
bit_or-shl6 x y h =
    let once : x * 64 / 2 ≡ x * 32 = omega arith in
    let twice : x * 32 / 2 ≡ x * 16 = omega arith in
    rw (bit_or_step (x * 64) y, once, bit_or_step (x * 32) (y / 2), twice)
      (rw (bit_or-shl4 x (y / 2 / 2) (omega arith)) (omega arith))
