-- ===== src/Strings/Number/HexDump.antt =====
-- `uct_hex_dump` (src/uct_string.c): the bytes as hexadecimal digits, and `uct_hextoi` on them.
use Prim.Native.Nat.{bit_and}
use umicat.Base.{
  ℕ, ◌+◌, ◌*◌, ◌/◌, ◌<◌, ◌≤◌, ◌≡◌, refl, ap, ◌∙◌, true, List, [], ◌∷◌, ◌==◌, ==_iff, leb, get_or,
  arith,
}
use umicat.Base.Int.{pos}
use umicat.Base.Word.{max_int}
use umicat.Base.Bits.{holds_below, holds_below-at, bit_and-fifteen}
use umicat.Strings.Bytes.{codes, IsBytes}
use umicat.Strings.Number.{hex_value, hextoi}
use umicat.Strings.Number.Hex.{hex_from, all_hex, hextoi_lem}

abbrev hex_lower : ℕ → ℕ
hex_lower d = get_or (codes "0123456789abcdef") d 0

unfoldable pub hex_dump : List ℕ → List ℕ
hex_dump [] = []
hex_dump (c ∷ src) = hex_lower (c / 16) ∷ hex_lower (bit_and c 0xf) ∷ hex_dump src

digit_table : holds_below (λ d. hex_value (hex_lower d) == d) 16 ≡ true
unfolding holds_below hex_value
digit_table = refl

digit_value : (d : ℕ) → d < 16 → hex_value (hex_lower d) ≡ d
digit_value d h = (==_iff _ d).0 (holds_below-at _ 16 digit_table d h)

-- The number whose digits to the base 256 are the bytes, after those that make up `value`.
abbrev pub bytes_from : ℕ → List ℕ → ℕ
bytes_from value [] = value
bytes_from value (c ∷ src) = bytes_from (value * 256 + c) src

all_hex-hex_dump : (src : List ℕ) → IsBytes src → all_hex (hex_dump src) ≡ true
unfolding hex_dump
all_hex-hex_dump [] h = refl
all_hex-hex_dump (c ∷ src) h =
    let low : bit_and c 0xf < 16 = omega (arith, bit_and-fifteen c) in
    ground (
      arith,
      digit_value (c / 16) (omega arith),
      digit_value (bit_and c 0xf) low,
      all_hex-hex_dump src h.1,
    )

hex_from-hex_dump :
    (value : ℕ) (src : List ℕ) → IsBytes src → hex_from value (hex_dump src) ≡ bytes_from value src
unfolding hex_dump
hex_from-hex_dump value [] h = refl
hex_from-hex_dump value (c ∷ src) h =
    let low : bit_and c 0xf < 16 = omega (arith, bit_and-fifteen c) in
    let joined : (value * 16 + hex_value (hex_lower (c / 16))) * 16
          + hex_value (hex_lower (bit_and c 0xf))
        ≡ value * 256 + c =
      omega (
        arith,
        bit_and-fifteen c,
        digit_value (c / 16) (omega arith),
        digit_value (bit_and c 0xf) low,
      ) in
    ap (λ (v : ℕ). hex_from v (hex_dump src)) joined ∙ hex_from-hex_dump (value * 256 + c) src h.1

-- For one byte or more: reading the dump as a hexadecimal number gives the number with these bytes
-- as its digits, if that is at most the largest of the type.
pub hextoi-hex_dump :
    (c : ℕ) (src : List ℕ)
    → IsBytes (c ∷ src)
    → bytes_from 0 (c ∷ src) ≤ max_int
    → hextoi (hex_dump (c ∷ src)) ≡ pos (bytes_from 0 (c ∷ src))
unfolding hex_dump
hextoi-hex_dump c src h k =
    let first = hextoi_lem (hex_lower (c / 16)) (hex_lower (bit_and c 0xf) ∷ hex_dump src) in
    let dump = hex_lower (c / 16) ∷ hex_lower (bit_and c 0xf) ∷ hex_dump src in
    let digits : all_hex dump ≡ true = all_hex-hex_dump (c ∷ src) h in
    let number : hex_from 0 dump ≡ bytes_from 0 (c ∷ src) = hex_from-hex_dump 0 (c ∷ src) h in
    let fits : leb (bytes_from 0 (c ∷ src)) max_int ≡ true = ground arith in
    first ∙ rw (digits, number, fits)
