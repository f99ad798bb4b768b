-- ===== src/Strings/Number.antt =====
-- `uct_atoi`, `uct_atosz`, `uct_atoof`, `uct_atotm`, `uct_hextoi` and `uct_itoa` (src/uct_string.c).
-- The first four are the same code, and the line holds the `n` bytes that they read.
pub mod Decimal
pub mod Fixed
pub mod Hex
pub mod HexDump
use Prim.Native.Nat.{bit_or}
use umicat.Base.{
  ℕ, zero, suc, ◌+◌, ◌-◌, ◌*◌, ◌/◌, ◌%◌, ◌^◌, Bool, true, false, ◌&&◌, ◌||◌, List, [], ◌∷◌, ltb,
  leb, ◌==◌, if◌then◌else◌, get_or,
}
use mathlib.Core.List.{reverse}
use umicat.Base.Int.{ℤ, pos, negsuc}
use umicat.Base.Word.{max_int}

-- `UCT_ERROR`.
abbrev pub uct_error : ℤ
uct_error = negsuc 0

abbrev pub cutoff : ℕ
cutoff = 922337203685477580

abbrev pub cutlim : ℕ
cutlim = 7

abbrev pub is_digit : ℕ → Bool
is_digit c = leb b'0' c && leb c b'9'

-- The test that `value * 10 + digit` would pass the largest number.
abbrev pub overflows : ℕ → ℕ → Bool
overflows value c = leb cutoff value && (ltb cutoff value || ltb cutlim (c - b'0'))

abbrev pub atoi_loop : ℕ → List ℕ → ℤ
atoi_loop value [] = pos value
atoi_loop value (c ∷ rest) =
    let next = atoi_loop (value * 10 + (c - b'0')) rest in
    if is_digit c then (if overflows value c then uct_error else next) else uct_error

unfoldable pub atoi : List ℕ → ℤ
atoi [] = uct_error
atoi (c ∷ rest) = atoi_loop 0 (c ∷ rest)

-- The other integer types are as wide as `uct_int_t`.
unfoldable pub atosz : List ℕ → ℤ
atosz [] = uct_error
atosz (c ∷ rest) = atoi_loop 0 (c ∷ rest)

unfoldable pub atoof : List ℕ → ℤ
atoof [] = uct_error
atoof (c ∷ rest) = atoi_loop 0 (c ∷ rest)

unfoldable pub atotm : List ℕ → ℤ
atotm [] = uct_error
atotm (c ∷ rest) = atoi_loop 0 (c ∷ rest)

-- `while (point--)`: the fraction is filled up with zeros.
fill : ℕ → ℕ → ℤ
fill zero value = pos value
fill (suc point) value =
    let rest = fill point (value * 10) in if ltb cutoff value then uct_error else rest

-- The loop of `uct_atofp`, with `point` digits of the fraction still to come; `dot` says whether the
-- dot was read.
atofp_loop : ℕ → Bool → ℕ → List ℕ → ℤ
atofp_loop value dot point [] = fill point value
atofp_loop value dot zero (c ∷ rest) = uct_error
atofp_loop value dot (suc point) (c ∷ rest) =
    let at_dot = atofp_loop value true (suc point) rest in
    let next = atofp_loop (value * 10 + (c - b'0')) dot (if dot then point else suc point) rest in
    if c == b'.'
    then (if dot then uct_error else at_dot)
    else if is_digit c
    then (if overflows value c then uct_error else next)
    else uct_error

unfoldable pub atofp : List ℕ → ℕ → ℤ
unfolding fill atofp_loop
atofp [] point = uct_error
atofp (c ∷ rest) point = atofp_loop 0 false point (c ∷ rest)

-- The value of a hexadecimal digit, 16 for any other byte.
unfoldable pub hex_value : ℕ → ℕ
hex_value ch =
    let c = bit_or ch 0x20 in
    if is_digit ch then ch - b'0' else if leb b'a' c && leb c b'f' then c - b'a' + 10 else 16

hextoi_loop : ℕ → List ℕ → ℤ
hextoi_loop value [] = pos value
hextoi_loop value (ch ∷ rest) =
    let next = hextoi_loop (value * 16 + hex_value ch) rest in
    if ltb (max_int / 16) value then uct_error else if hex_value ch == 16 then uct_error else next

unfoldable pub hextoi : List ℕ → ℤ
unfolding hextoi_loop
hextoi [] = uct_error
hextoi (c ∷ rest) = hextoi_loop 0 (c ∷ rest)

-- `index[d]`.
abbrev pub digit_char : ℕ → ℕ
digit_char d = if ltb d 10 then b'0' + d else b'A' + (d - 10)

-- The digits of a number, the last first. 32 rounds are enough for an `unsigned` at radix 2 and up.
digits_loop : ℕ → ℕ → ℕ → List ℕ
digits_loop zero radix unum = []
digits_loop (suc fuel) radix unum =
    let rest = digits_loop fuel radix (unum / radix) in
    digit_char (unum % radix) ∷ (if unum / radix == 0 then [] else rest)

-- `num` is an `int`. The swaps at the end reverse the digits, which stand behind the sign.
unfoldable pub itoa : ℤ → ℕ → List ℕ
unfolding digits_loop
itoa (pos n) radix = reverse (digits_loop 32 radix n)
itoa (negsuc n) radix =
    if radix == 10
    then b'-' ∷ reverse (digits_loop 32 radix (suc n))
    else reverse (digits_loop 32 radix (2 ^ 32 - suc n))
