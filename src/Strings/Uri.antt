-- ===== src/Strings/Uri.antt =====
-- `uct_escape_uri` and `uct_unescape_uri` (src/uct_string.c). A text is the list of its bytes.
pub mod RoundTrip
use Prim.Native.Nat.{bit_and, bit_or}
use umicat.Base.{
  ℕ, suc, ◌+◌, ◌-◌, ◌*◌, ◌/◌, ◌%◌, ◌^◌, Bool, not, ◌&&◌, List, [], ◌∷◌, ◌++◌, ltb, leb, ◌==◌,
  if◌then◌else◌, get_or,
}
use umicat.Strings.Bytes.{codes}
use umicat.Strings.Number.{is_digit}

abbrev all_bits : ℕ
all_bits = 0xffffffff

-- The bits of the bytes to be escaped, 32 to a word.
abbrev pub uri : List ℕ
uri =
    all_bits ∷ 0x80000029 ∷ 0x00000000 ∷ 0x80000000 ∷ all_bits ∷ all_bits ∷ all_bits ∷ all_bits ∷ []

abbrev pub args : List ℕ
args =
    all_bits ∷ 0x88000869 ∷ 0x00000000 ∷ 0x80000000 ∷ all_bits ∷ all_bits ∷ all_bits ∷ all_bits ∷ []

abbrev pub uri_component : List ℕ
uri_component =
    all_bits ∷ 0xfc009fff ∷ 0x78000001 ∷ 0xb8000001 ∷ all_bits ∷ all_bits ∷ all_bits ∷ all_bits ∷ []

abbrev pub html : List ℕ
html =
    all_bits ∷ 0x000000ad ∷ 0x00000000 ∷ 0x80000000 ∷ all_bits ∷ all_bits ∷ all_bits ∷ all_bits ∷ []

abbrev pub refresh : List ℕ
refresh =
    all_bits ∷ 0x00000085 ∷ 0x00000000 ∷ 0x80000000 ∷ all_bits ∷ all_bits ∷ all_bits ∷ all_bits ∷ []

abbrev pub memcached : List ℕ
memcached = all_bits ∷ 0x00000021 ∷ 0 ∷ 0 ∷ 0 ∷ 0 ∷ 0 ∷ 0 ∷ []

-- `map[type]`, the types in the order of the `UCT_ESCAPE_` constants.
abbrev pub escape_map : ℕ → List ℕ
escape_map type =
    get_or (uri ∷ args ∷ uri_component ∷ html ∷ refresh ∷ memcached ∷ memcached ∷ []) type []

-- `escape[c >> 5] & (1U << (c & 0x1f))`.
unfoldable pub is_marked : List ℕ → ℕ → Bool
is_marked escape c = not (bit_and (get_or escape (c / 32) 0) (2 ^ bit_and c 0x1f) == 0)

abbrev pub hex_upper : ℕ → ℕ
hex_upper d = get_or (codes "0123456789ABCDEF") d 0

-- The call with no `dst`: how many bytes are to be escaped.
unfoldable pub escape_uri_count : ℕ → List ℕ → ℕ
escape_uri_count type [] = 0
escape_uri_count type (c ∷ src) =
    (if is_marked (escape_map type) c then 1 else 0) + escape_uri_count type src

-- The call with a `dst`: what is written there.
unfoldable pub escape_uri : ℕ → List ℕ → List ℕ
escape_uri type [] = []
escape_uri type (c ∷ src) =
    (if is_marked (escape_map type) c
      then b'%' ∷ hex_upper (c / 16) ∷ hex_upper (bit_and c 0xf) ∷ []
      else c ∷ [])
    ++ escape_uri type src

pub data UnescapeState : Type 0 where
  usual : UnescapeState
  quoted : UnescapeState
  quoted_second : UnescapeState

-- One round of the loop: `*d++` for each byte of `out`, then either `goto done` or the state and the
-- `decoded` with which the loop goes on.
pub data Round : Type 0 where
  done : (out : List ℕ) → Round
  next : (out : List ℕ) → UnescapeState → (decoded : ℕ) → Round

-- `type & UCT_UNESCAPE_URI`, and `type & UCT_UNESCAPE_REDIRECT`.
abbrev pub for_uri : ℕ → Bool
for_uri type = not (bit_and type 1 == 0)

abbrev pub for_redirect : ℕ → Bool
for_redirect type = not (bit_and type 2 == 0)

abbrev is_hex_letter : ℕ → Bool
is_hex_letter ch = let c = bit_or ch 0x20 in leb b'a' c && leb c b'f'

-- Under `UCT_UNESCAPE_REDIRECT` a byte that is not printable stays quoted; `first` and `second` are
-- `*(s - 2)` and `*(s - 1)`.
redirected : ℕ → ℕ → ℕ → ℕ → Round
redirected first second decoded ch =
    if ltb b'%' ch && ltb ch 0x7f
    then next (ch ∷ []) usual decoded
    else next (b'%' ∷ first ∷ second ∷ []) usual decoded

-- The body of the loop, by the state. `prev` is the byte before `ch`.
unescape_round : ℕ → UnescapeState → ℕ → ℕ → ℕ → Round
unescape_round type usual decoded prev ch =
    if ch == b'?' && not (bit_and type 3 == 0)
    then done (ch ∷ [])
    else if ch == b'%'
    then next [] quoted decoded
    else next (ch ∷ []) usual decoded
unescape_round type quoted decoded prev ch =
    if is_digit ch
    then next [] quoted_second (ch - b'0')
    else if is_hex_letter ch
    then next [] quoted_second ((bit_or ch 0x20 - b'a' + 10) % 256)
    else next (ch ∷ []) usual decoded
unescape_round type quoted_second decoded prev ch =
    let by_digit = (decoded * 16 + (ch - b'0')) % 256 in
    let by_letter = (decoded * 16 + (bit_or ch 0x20 - b'a') + 10) % 256 in
    if is_digit ch
    then (if for_redirect type
        then redirected prev ch decoded by_digit
        else next (by_digit ∷ []) usual decoded)
    else if is_hex_letter ch
    then (if for_uri type
        then (if by_letter == b'?'
            then done (by_letter ∷ [])
            else next (by_letter ∷ []) usual decoded)
        else if for_redirect type
        then (if by_letter == b'?'
            then done (by_letter ∷ [])
            else redirected prev ch decoded by_letter)
        else next (by_letter ∷ []) usual decoded)
    else next [] usual decoded

-- What is written to `dst`, and what of `src` is left unread.
unescape_loop : ℕ → UnescapeState → ℕ → ℕ → List ℕ → List ℕ × List ℕ
unescape_loop type state decoded prev [] = ([], [])
unescape_loop type state decoded prev (ch ∷ src) =
    elim (unescape_round type state decoded prev ch) [
      | done out ↦ (out, src)
      | next out state' decoded' ↦
          let rest = unescape_loop type state' decoded' ch src in (out ++ rest.0, rest.1)
    ]

unfoldable pub unescape_uri : ℕ → List ℕ → List ℕ × List ℕ
unfolding unescape_loop unescape_round redirected
unescape_uri type src = unescape_loop type usual 0 0 src
