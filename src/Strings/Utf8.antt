-- ===== src/Strings/Utf8.antt =====
-- `uct_utf8_decode`, `uct_utf8_length` and `uct_utf8_cpystrn` (src/uct_string.c). A list holds the
-- `n` (or `last - p`, or `len`) bytes from the pointer on; where the source reads on behind them it
-- relies on a final '\0'.
pub mod Decode
pub mod Length
pub mod Copy
use Prim.Native.Nat.{bit_and, bit_or}
use umicat.Base.{
  ℕ, zero, suc, ◌+◌, ◌-◌, ◌*◌, List, [], ◌∷◌, ◌++◌, ltb, leb, ◌==◌, if◌then◌else◌, Option, none,
  some, length, take,
}

abbrev pub decode_error : ℕ
decode_error = 0xffffffff

abbrev pub decode_incomplete : ℕ
decode_incomplete = 0xfffffffe

-- `while (len)`: what follows the first byte. The result is `u` and the bytes behind `*p`. `u` stays
-- below 2 ^ 21, so that the shift loses nothing.
unfoldable pub decode_rest : ℕ → ℕ → ℕ → List ℕ → ℕ × List ℕ
decode_rest zero valid u p = (if ltb valid u then u else decode_error, p)
decode_rest (suc len) valid u [] = (decode_error, [])
decode_rest (suc len) valid u (i ∷ p) =
    let next = decode_rest len valid (bit_or (u * 64) (bit_and i 0x3f)) p in
    if ltb i 0x80 then (decode_error, p) else next

-- The test of the length that is left, and the loop.
abbrev decode_after : ℕ → ℕ → ℕ → ℕ → List ℕ → ℕ × List ℕ
decode_after len valid u first p =
    if ltb (length p) len then (decode_incomplete, first ∷ p) else decode_rest len valid u p

unfoldable pub utf8_decode : List ℕ → ℕ × List ℕ
utf8_decode [] = (decode_incomplete, [])
utf8_decode (first ∷ p) =
    if leb 0xf0 first
    then decode_after 3 0xffff (bit_and first 0x07) first p
    else if leb 0xe0 first
    then decode_after 2 0x7ff (bit_and first 0x0f) first p
    else if leb 0xc2 first
    then decode_after 1 0x7f (bit_and first 0x1f) first p
    else (decode_error, p)

-- The loop of `uct_utf8_length`; `none` means that the rounds ran out.
length_loop : ℕ → ℕ → ℕ → List ℕ → Option ℕ
length_loop fuel n len [] = some len
length_loop zero n len (c ∷ p) = none
length_loop (suc fuel) n len (c ∷ p) =
    let plain = length_loop fuel n (len + 1) p in
    let decoded = utf8_decode (c ∷ p) in
    let coded = length_loop fuel n (len + 1) decoded.1 in
    if ltb c 0x80 then plain else if ltb 0x10ffff decoded.0 then some n else coded

-- Each round reads a byte at least, so that as many rounds as bytes are enough.
unfoldable pub utf8_length : List ℕ → Option ℕ
unfolding length_loop
utf8_length p = length_loop (length p) (length p) 0 p

-- The loop of `uct_utf8_cpystrn`, with `n` rounds left: what is written from `dst` on.
copy_loop : ℕ → List ℕ → List ℕ
copy_loop zero src = 0 ∷ []
copy_loop (suc n) [] = 0 ∷ []
copy_loop (suc n) (c ∷ src) =
    let plain = c ∷ copy_loop n src in
    let decoded = utf8_decode (c ∷ src) in
    let coded = take (length (c ∷ src) - length decoded.1) (c ∷ src) ++ copy_loop n decoded.1 in
    if ltb c 0x80
    then (if c == 0 then 0 ∷ [] else plain)
    else if ltb 0x10ffff decoded.0
    then 0 ∷ []
    else coded

unfoldable pub utf8_cpystrn : List ℕ → ℕ → List ℕ
unfolding copy_loop
utf8_cpystrn src zero = []
utf8_cpystrn src (suc n) = copy_loop n src
