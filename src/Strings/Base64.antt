-- ===== src/Strings/Base64.antt =====
-- `uct_encode_base64`, `uct_encode_base64url`, `uct_decode_base64` and `uct_decode_base64url`
-- (src/uct_string.c). A text is the list of its bytes; the result is what is written to `dst`, whose
-- length becomes `dst->len`.
pub mod RoundTrip
pub mod Length
use Prim.Native.Nat.{bit_and, bit_or}
use umicat.Base.{
  ℕ, ◌+◌, ◌*◌, ◌/◌, ◌%◌, Bool, true, false, List, [], ◌∷◌, ◌++◌, ◌==◌, if◌then◌else◌, get_or,
  length, Option, none, some, take, suc,
}
use umicat.Strings.Bytes.{codes}

-- `basis[i]`.
abbrev pub at_index : List ℕ → ℕ → ℕ
at_index basis i = get_or basis i 0

-- What is left after the whole groups of three: nothing, one byte or two.
encode_rest : List ℕ → Bool → List ℕ → List ℕ
encode_rest basis padding (a ∷ []) =
    at_index basis (bit_and (a / 4) 0x3f)
    ∷ at_index basis (bit_and a 3 * 16)
    ∷ (if padding then b'=' ∷ b'=' ∷ [] else [])
encode_rest basis padding (a ∷ b ∷ []) =
    at_index basis (bit_and (a / 4) 0x3f)
    ∷ at_index basis (bit_or (bit_and a 3 * 16) (b / 16))
    ∷ at_index basis (bit_and b 0x0f * 4)
    ∷ (if padding then b'=' ∷ [] else [])
encode_rest basis padding other = []

-- The three bytes of a group give four characters.
encode_group : List ℕ → ℕ → ℕ → ℕ → List ℕ → List ℕ
encode_group basis a b c out =
    at_index basis (bit_and (a / 4) 0x3f)
    ∷ at_index basis (bit_or (bit_and a 3 * 16) (b / 16))
    ∷ at_index basis (bit_or (bit_and b 0x0f * 4) (c / 64))
    ∷ at_index basis (bit_and c 0x3f)
    ∷ out

-- `while (len > 2)`; the list holds the `len` bytes from `s` on.
unfoldable pub encode_internal : List ℕ → Bool → List ℕ → List ℕ
unfolding encode_rest encode_group
encode_internal basis padding (a ∷ b ∷ c ∷ s) =
    encode_group basis a b c (encode_internal basis padding s)
encode_internal basis padding (a ∷ b ∷ []) = encode_rest basis padding (a ∷ b ∷ [])
encode_internal basis padding (a ∷ []) = encode_rest basis padding (a ∷ [])
encode_internal basis padding [] = []

abbrev pub encode_basis64 : List ℕ
encode_basis64 = codes "ABCDEFGHIJKLMNOPQRSTUVWXYZabcdefghijklmnopqrstuvwxyz0123456789+/"

abbrev pub encode_basis64url : List ℕ
encode_basis64url = codes "ABCDEFGHIJKLMNOPQRSTUVWXYZabcdefghijklmnopqrstuvwxyz0123456789-_"

unfoldable pub encode_base64 : List ℕ → List ℕ
encode_base64 src = encode_internal encode_basis64 true src

unfoldable pub encode_base64url : List ℕ → List ℕ
encode_base64url src = encode_internal encode_basis64url false src

-- The first loop: `len` stops at the first '=' or at the end; `none` is `UCT_ERROR`.
scan : List ℕ → ℕ → List ℕ → Option ℕ
scan basis len [] = some len
scan basis len (c ∷ rest) =
    let next = scan basis (suc len) rest in
    if c == b'=' then some len else if at_index basis c == 77 then none else next

-- The second loop and the two tests after it; the list holds the `len` bytes from `s` on.
decode_loop : List ℕ → List ℕ → List ℕ
decode_loop basis (a ∷ b ∷ c ∷ d ∷ s) =
    bit_or (at_index basis a * 4) (at_index basis b / 16) % 256
    ∷ bit_or (at_index basis b * 16) (at_index basis c / 4) % 256
    ∷ bit_or (at_index basis c * 64) (at_index basis d) % 256
    ∷ decode_loop basis s
decode_loop basis (a ∷ b ∷ c ∷ []) =
    bit_or (at_index basis a * 4) (at_index basis b / 16) % 256
    ∷ bit_or (at_index basis b * 16) (at_index basis c / 4) % 256
    ∷ []
decode_loop basis (a ∷ b ∷ []) = bit_or (at_index basis a * 4) (at_index basis b / 16) % 256 ∷ []
decode_loop basis other = []

unfoldable pub decode_internal : List ℕ → List ℕ → Option (List ℕ)
unfolding scan decode_loop
decode_internal basis src = elim (scan basis 0 src) [
  | none ↦ none
  | some len ↦ if len % 4 == 1 then none else some (decode_loop basis (take len src))
]

abbrev pub decode_basis64 : List ℕ
decode_basis64 =
    77 ∷ 77 ∷ 77 ∷ 77 ∷ 77 ∷ 77 ∷ 77 ∷ 77 ∷ 77 ∷ 77 ∷ 77 ∷ 77 ∷ 77 ∷ 77 ∷ 77 ∷ 77 ∷ 77 ∷ 77 ∷ 77
    ∷ 77 ∷ 77 ∷ 77 ∷ 77 ∷ 77 ∷ 77 ∷ 77 ∷ 77 ∷ 77 ∷ 77 ∷ 77 ∷ 77 ∷ 77 ∷ 77 ∷ 77 ∷ 77 ∷ 77 ∷ 77 ∷ 77
    ∷ 77 ∷ 77 ∷ 77 ∷ 77 ∷ 77 ∷ 62 ∷ 77 ∷ 77 ∷ 77 ∷ 63 ∷ 52 ∷ 53 ∷ 54 ∷ 55 ∷ 56 ∷ 57 ∷ 58 ∷ 59 ∷ 60
    ∷ 61 ∷ 77 ∷ 77 ∷ 77 ∷ 77 ∷ 77 ∷ 77 ∷ 77 ∷ 0 ∷ 1 ∷ 2 ∷ 3 ∷ 4 ∷ 5 ∷ 6 ∷ 7 ∷ 8 ∷ 9 ∷ 10 ∷ 11 ∷ 12
    ∷ 13 ∷ 14 ∷ 15 ∷ 16 ∷ 17 ∷ 18 ∷ 19 ∷ 20 ∷ 21 ∷ 22 ∷ 23 ∷ 24 ∷ 25 ∷ 77 ∷ 77 ∷ 77 ∷ 77 ∷ 77 ∷ 77
    ∷ 26 ∷ 27 ∷ 28 ∷ 29 ∷ 30 ∷ 31 ∷ 32 ∷ 33 ∷ 34 ∷ 35 ∷ 36 ∷ 37 ∷ 38 ∷ 39 ∷ 40 ∷ 41 ∷ 42 ∷ 43 ∷ 44
    ∷ 45 ∷ 46 ∷ 47 ∷ 48 ∷ 49 ∷ 50 ∷ 51 ∷ 77 ∷ 77 ∷ 77 ∷ 77 ∷ 77 ∷ 77 ∷ 77 ∷ 77 ∷ 77 ∷ 77 ∷ 77 ∷ 77
    ∷ 77 ∷ 77 ∷ 77 ∷ 77 ∷ 77 ∷ 77 ∷ 77 ∷ 77 ∷ 77 ∷ 77 ∷ 77 ∷ 77 ∷ 77 ∷ 77 ∷ 77 ∷ 77 ∷ 77 ∷ 77 ∷ 77
    ∷ 77 ∷ 77 ∷ 77 ∷ 77 ∷ 77 ∷ 77 ∷ 77 ∷ 77 ∷ 77 ∷ 77 ∷ 77 ∷ 77 ∷ 77 ∷ 77 ∷ 77 ∷ 77 ∷ 77 ∷ 77 ∷ 77
    ∷ 77 ∷ 77 ∷ 77 ∷ 77 ∷ 77 ∷ 77 ∷ 77 ∷ 77 ∷ 77 ∷ 77 ∷ 77 ∷ 77 ∷ 77 ∷ 77 ∷ 77 ∷ 77 ∷ 77 ∷ 77 ∷ 77
    ∷ 77 ∷ 77 ∷ 77 ∷ 77 ∷ 77 ∷ 77 ∷ 77 ∷ 77 ∷ 77 ∷ 77 ∷ 77 ∷ 77 ∷ 77 ∷ 77 ∷ 77 ∷ 77 ∷ 77 ∷ 77 ∷ 77
    ∷ 77 ∷ 77 ∷ 77 ∷ 77 ∷ 77 ∷ 77 ∷ 77 ∷ 77 ∷ 77 ∷ 77 ∷ 77 ∷ 77 ∷ 77 ∷ 77 ∷ 77 ∷ 77 ∷ 77 ∷ 77 ∷ 77
    ∷ 77 ∷ 77 ∷ 77 ∷ 77 ∷ 77 ∷ 77 ∷ 77 ∷ 77 ∷ 77 ∷ 77 ∷ 77 ∷ 77 ∷ 77 ∷ 77 ∷ 77 ∷ 77 ∷ 77 ∷ 77 ∷ 77
    ∷ 77 ∷ 77 ∷ 77 ∷ 77 ∷ 77 ∷ 77 ∷ 77 ∷ []

abbrev pub decode_basis64url : List ℕ
decode_basis64url =
    77 ∷ 77 ∷ 77 ∷ 77 ∷ 77 ∷ 77 ∷ 77 ∷ 77 ∷ 77 ∷ 77 ∷ 77 ∷ 77 ∷ 77 ∷ 77 ∷ 77 ∷ 77 ∷ 77 ∷ 77 ∷ 77
    ∷ 77 ∷ 77 ∷ 77 ∷ 77 ∷ 77 ∷ 77 ∷ 77 ∷ 77 ∷ 77 ∷ 77 ∷ 77 ∷ 77 ∷ 77 ∷ 77 ∷ 77 ∷ 77 ∷ 77 ∷ 77 ∷ 77
    ∷ 77 ∷ 77 ∷ 77 ∷ 77 ∷ 77 ∷ 77 ∷ 77 ∷ 62 ∷ 77 ∷ 77 ∷ 52 ∷ 53 ∷ 54 ∷ 55 ∷ 56 ∷ 57 ∷ 58 ∷ 59 ∷ 60
    ∷ 61 ∷ 77 ∷ 77 ∷ 77 ∷ 77 ∷ 77 ∷ 77 ∷ 77 ∷ 0 ∷ 1 ∷ 2 ∷ 3 ∷ 4 ∷ 5 ∷ 6 ∷ 7 ∷ 8 ∷ 9 ∷ 10 ∷ 11 ∷ 12
    ∷ 13 ∷ 14 ∷ 15 ∷ 16 ∷ 17 ∷ 18 ∷ 19 ∷ 20 ∷ 21 ∷ 22 ∷ 23 ∷ 24 ∷ 25 ∷ 77 ∷ 77 ∷ 77 ∷ 77 ∷ 63 ∷ 77
    ∷ 26 ∷ 27 ∷ 28 ∷ 29 ∷ 30 ∷ 31 ∷ 32 ∷ 33 ∷ 34 ∷ 35 ∷ 36 ∷ 37 ∷ 38 ∷ 39 ∷ 40 ∷ 41 ∷ 42 ∷ 43 ∷ 44
    ∷ 45 ∷ 46 ∷ 47 ∷ 48 ∷ 49 ∷ 50 ∷ 51 ∷ 77 ∷ 77 ∷ 77 ∷ 77 ∷ 77 ∷ 77 ∷ 77 ∷ 77 ∷ 77 ∷ 77 ∷ 77 ∷ 77
    ∷ 77 ∷ 77 ∷ 77 ∷ 77 ∷ 77 ∷ 77 ∷ 77 ∷ 77 ∷ 77 ∷ 77 ∷ 77 ∷ 77 ∷ 77 ∷ 77 ∷ 77 ∷ 77 ∷ 77 ∷ 77 ∷ 77
    ∷ 77 ∷ 77 ∷ 77 ∷ 77 ∷ 77 ∷ 77 ∷ 77 ∷ 77 ∷ 77 ∷ 77 ∷ 77 ∷ 77 ∷ 77 ∷ 77 ∷ 77 ∷ 77 ∷ 77 ∷ 77 ∷ 77
    ∷ 77 ∷ 77 ∷ 77 ∷ 77 ∷ 77 ∷ 77 ∷ 77 ∷ 77 ∷ 77 ∷ 77 ∷ 77 ∷ 77 ∷ 77 ∷ 77 ∷ 77 ∷ 77 ∷ 77 ∷ 77 ∷ 77
    ∷ 77 ∷ 77 ∷ 77 ∷ 77 ∷ 77 ∷ 77 ∷ 77 ∷ 77 ∷ 77 ∷ 77 ∷ 77 ∷ 77 ∷ 77 ∷ 77 ∷ 77 ∷ 77 ∷ 77 ∷ 77 ∷ 77
    ∷ 77 ∷ 77 ∷ 77 ∷ 77 ∷ 77 ∷ 77 ∷ 77 ∷ 77 ∷ 77 ∷ 77 ∷ 77 ∷ 77 ∷ 77 ∷ 77 ∷ 77 ∷ 77 ∷ 77 ∷ 77 ∷ 77
    ∷ 77 ∷ 77 ∷ 77 ∷ 77 ∷ 77 ∷ 77 ∷ 77 ∷ 77 ∷ 77 ∷ 77 ∷ 77 ∷ 77 ∷ 77 ∷ 77 ∷ 77 ∷ 77 ∷ 77 ∷ 77 ∷ 77
    ∷ 77 ∷ 77 ∷ 77 ∷ 77 ∷ 77 ∷ 77 ∷ 77 ∷ []

unfoldable pub decode_base64 : List ℕ → Option (List ℕ)
decode_base64 src = decode_internal decode_basis64 src

unfoldable pub decode_base64url : List ℕ → Option (List ℕ)
decode_base64url src = decode_internal decode_basis64url src

-- `uct_base64_encoded_length` and `uct_base64_decoded_length`: how large callers make `dst`.
unfoldable pub base64_encoded_length : ℕ → ℕ
base64_encoded_length len = (len + 2) / 3 * 4

unfoldable pub base64_decoded_length : ℕ → ℕ
base64_decoded_length len = (len + 3) / 4 * 3
