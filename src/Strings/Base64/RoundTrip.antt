-- ===== src/Strings/Base64/RoundTrip.antt =====
-- What the decoders of src/uct_string.c make of an encoded text. The proofs go through the list of
-- six-bit values that a text stands for.
use Prim.Native.Nat.{bit_or}
use umicat.Base.{
  ℕ, ◌+◌, ◌*◌, ◌/◌, ◌%◌, ◌<◌, ◌≡◌, refl, Bool, true, false, List, [], ◌∷◌, ◌++◌, map, ◌==◌,
  if◌then◌else◌, length, take, suc, some, arith, not, ◌&&◌,
}
use umicat.Base.Bits.{
  holds_below, holds_below-at, bit_and-three, bit_and-fifteen, bit_and_63, bit_or-shl2, bit_or-shl4,
  bit_or-shl6,
}
use umicat.Strings.Bytes.{IsBytes}
use umicat.Strings.Base64.{
  at_index, encode_rest, encode_group, encode_internal, scan, decode_loop, decode_internal,
  encode_basis64, encode_basis64url, decode_basis64, decode_basis64url, encode_base64,
  encode_base64url, decode_base64, decode_base64url,
}

-- The six-bit values of a text, by arithmetic.
abbrev pub sextets : List ℕ → List ℕ
sextets (a ∷ b ∷ c ∷ s) =
    (a / 4) ∷ (a % 4 * 16 + b / 16) ∷ (b % 16 * 4 + c / 64) ∷ (c % 64) ∷ sextets s
sextets (a ∷ b ∷ []) = (a / 4) ∷ (a % 4 * 16 + b / 16) ∷ (b % 16 * 4) ∷ []
sextets (a ∷ []) = (a / 4) ∷ (a % 4 * 16) ∷ []
sextets [] = []

abbrev pub pad : List ℕ → List ℕ
pad (a ∷ b ∷ c ∷ s) = pad s
pad (a ∷ b ∷ []) = b'=' ∷ []
pad (a ∷ []) = b'=' ∷ b'=' ∷ []
pad [] = []

abbrev AreSextets : List ℕ → Type 0
AreSextets [] = Unit {0}
AreSextets (x ∷ xs) = (x < 64) × AreSextets xs

-- Nothing, or a text that starts with '='.
abbrev IsPadding : List ℕ → Type 0
IsPadding [] = Unit {0}
IsPadding (c ∷ cs) = c ≡ b'='

-- The two tables of an alphabet: what one writes, the other reads, and neither writes '='.
record IsCodec (enc dec : List ℕ) : Type 0 where
  read_back : (i : ℕ) → i < 64 → at_index dec (at_index enc i) ≡ i
  not_pad : (i : ℕ) → i < 64 → (at_index enc i == b'=') ≡ false

sextets-AreSextets : (s : List ℕ) → IsBytes s → AreSextets (sextets s)
sextets-AreSextets (a ∷ b ∷ c ∷ s) h =
    (omega arith, (omega arith, (omega arith, (omega arith, sextets-AreSextets s h.1.1.1))))
sextets-AreSextets (a ∷ b ∷ []) h = (omega arith, (omega arith, (omega arith, tt)))
sextets-AreSextets (a ∷ []) h = (omega arith, (omega arith, tt))
sextets-AreSextets [] h = tt

pad-IsPadding : (s : List ℕ) → IsPadding (pad s)
pad-IsPadding (a ∷ b ∷ c ∷ s) = pad-IsPadding s
pad-IsPadding (a ∷ b ∷ []) = refl
pad-IsPadding (a ∷ []) = refl
pad-IsPadding [] = tt

pub encode_internal-eq-map :
    (enc : List ℕ) (p : Bool) (s : List ℕ)
    → IsBytes s
    → encode_internal enc p s ≡ map (at_index enc) (sextets s) ++ (if p then pad s else [])
unfolding encode_internal encode_group encode_rest
encode_internal-eq-map enc p (a ∷ b ∷ c ∷ s) h =
    let top : a / 4 % 64 ≡ a / 4 = omega arith in
    rw (
      bit_and_63 (a / 4),
      top,
      bit_and-three a,
      bit_and-fifteen b,
      bit_and_63 c,
      bit_or-shl4 (a % 4) (b / 16) (omega arith),
      bit_or-shl2 (b % 16) (c / 64) (omega arith),
      encode_internal-eq-map enc p s h.1.1.1,
    )
encode_internal-eq-map enc p (a ∷ b ∷ []) h =
    let top : a / 4 % 64 ≡ a / 4 = omega arith in
    rw (
      bit_and_63 (a / 4),
      top,
      bit_and-three a,
      bit_and-fifteen b,
      bit_or-shl4 (a % 4) (b / 16) (omega arith),
    )
encode_internal-eq-map enc p (a ∷ []) h =
    let top : a / 4 % 64 ≡ a / 4 = omega arith in rw (bit_and_63 (a / 4), top, bit_and-three a)
encode_internal-eq-map enc true [] h = refl
encode_internal-eq-map enc false [] h = refl

-- What the decoder joins is what the encoder split.
join_first :
    (a b : ℕ) → a < 256 → b < 256 → bit_or (a / 4 * 4) ((a % 4 * 16 + b / 16) / 16) % 256 ≡ a
join_first a b h k =
    rw (bit_or-shl2 (a / 4) ((a % 4 * 16 + b / 16) / 16) (omega arith)) (omega arith)

join_second :
    (a b c : ℕ)
    → a < 256
    → b < 256
    → c < 256
    → bit_or ((a % 4 * 16 + b / 16) * 16) ((b % 16 * 4 + c / 64) / 4) % 256 ≡ b
join_second a b c h k l =
    rw (bit_or-shl4 (a % 4 * 16 + b / 16) ((b % 16 * 4 + c / 64) / 4) (omega arith)) (omega arith)

join_third : (b c : ℕ) → b < 256 → c < 256 → bit_or ((b % 16 * 4 + c / 64) * 64) (c % 64) % 256 ≡ c
join_third b c h k = rw (bit_or-shl6 (b % 16 * 4 + c / 64) (c % 64) (omega arith)) (omega arith)

length-sextets : (s : List ℕ) → (length (sextets s) % 4 == 1) ≡ false
length-sextets (a ∷ b ∷ c ∷ s) = ground (arith, length-sextets s)
length-sextets (a ∷ b ∷ []) = refl
length-sextets (a ∷ []) = refl
length-sextets [] = refl

take-map :
    (enc xs rest : List ℕ)
    → take (length xs) (map (at_index enc) xs ++ rest) ≡ map (at_index enc) xs
take-map enc [] rest = refl
take-map enc (x ∷ xs) rest = rw (take-map enc xs rest)

pad_if-IsPadding : (p : Bool) (s : List ℕ) → IsPadding (if p then pad s else [])
pad_if-IsPadding true s = pad-IsPadding s
pad_if-IsPadding false s = tt

module _ (enc dec : List ℕ) (codec : IsCodec enc dec) where
  open codec use {read_back, not_pad}

  scan-map :
      (xs : List ℕ) (rest : List ℕ) (n : ℕ)
      → AreSextets xs
      → IsPadding rest
      → scan dec n (map (at_index enc) xs ++ rest) ≡ some (n + length xs)
  unfolding scan
  scan-map [] [] n h k = ground arith
  scan-map [] (c ∷ cs) n h k = ground arith
  scan-map (x ∷ xs) rest n h k =
      ground (arith, read_back x h.0, not_pad x h.0, scan-map xs rest (suc n) h.1 k)

  decode_loop-sextets :
      (s : List ℕ) → IsBytes s → decode_loop dec (map (at_index enc) (sextets s)) ≡ s
  unfolding decode_loop
  decode_loop-sextets (a ∷ b ∷ c ∷ s) h = rw (
    read_back (a / 4) (omega arith),
    read_back (a % 4 * 16 + b / 16) (omega arith),
    read_back (b % 16 * 4 + c / 64) (omega arith),
    read_back (c % 64) (omega arith),
    join_first a b h.0 h.1.0,
    join_second a b c h.0 h.1.0 h.1.1.0,
    join_third b c h.1.0 h.1.1.0,
    decode_loop-sextets s h.1.1.1,
  )
  decode_loop-sextets (a ∷ b ∷ []) h =
      rw
        (
          read_back (a / 4) (omega arith),
          read_back (a % 4 * 16 + b / 16) (omega arith),
          read_back (b % 16 * 4) (omega arith),
          join_first a b h.0 h.1.0,
        )
        (let second : bit_or ((a % 4 * 16 + b / 16) * 16) (b % 16 * 4 / 4) % 256 ≡ b =
            rw (bit_or-shl4 (a % 4 * 16 + b / 16) (b % 16 * 4 / 4) (omega arith)) (omega arith) in
          rw second)
  decode_loop-sextets (a ∷ []) h =
      rw (read_back (a / 4) (omega arith), read_back (a % 4 * 16) (omega arith))
        (let first : bit_or (a / 4 * 4) (a % 4 * 16 / 16) % 256 ≡ a =
            rw (bit_or-shl2 (a / 4) (a % 4 * 16 / 16) (omega arith)) (omega arith) in
          rw first)
  decode_loop-sextets [] h = refl

  decode_internal-encode_internal :
      (p : Bool) (s : List ℕ) → IsBytes s → decode_internal dec (encode_internal enc p s) ≡ some s
  unfolding decode_internal
  decode_internal-encode_internal p s h =
      let rest = if p then pad s else [] in
      let found = scan-map (sextets s) rest 0 (sextets-AreSextets s h) (pad_if-IsPadding p s) in
      let zero_add : 0 + length (sextets s) ≡ length (sextets s) = omega arith in
      rw (encode_internal-eq-map enc p s h, decode_internal, found, zero_add, length-sextets s)
        (rw (
          encode_internal-eq-map enc p s h,
          take-map enc (sextets s) rest,
          decode_loop-sextets s h,
        ))

abbrev reads_back : List ℕ → List ℕ → ℕ → Bool
reads_back enc dec i = (at_index dec (at_index enc i) == i) && not (at_index enc i == b'=')

IsCodec-of_table : (enc dec : List ℕ) → holds_below (reads_back enc dec) 64 ≡ true → IsCodec enc dec
IsCodec-of_table enc dec h = record {
  read_back = λ i k. ground (arith, holds_below-at (reads_back enc dec) 64 h i k);
  not_pad = λ i k. ground (arith, holds_below-at (reads_back enc dec) 64 h i k);
}

standard : IsCodec encode_basis64 decode_basis64
unfolding holds_below
standard = IsCodec-of_table encode_basis64 decode_basis64 refl

url : IsCodec encode_basis64url decode_basis64url
unfolding holds_below
url = IsCodec-of_table encode_basis64url decode_basis64url refl

-- For any bytes, each decoder returns the text that the encoder of its alphabet was given, with
-- padding in the standard alphabet and without it in the alphabet for addresses.
pub decode_base64-encode_base64 :
    (src : List ℕ)
    → IsBytes src
    → (decode_base64 (encode_base64 src) ≡ some src)
      × (decode_base64url (encode_base64url src) ≡ some src)
unfolding decode_base64 encode_base64 decode_base64url encode_base64url
decode_base64-encode_base64 src h = (
  decode_internal-encode_internal encode_basis64 decode_basis64 standard true src h,
  decode_internal-encode_internal encode_basis64url decode_basis64url url false src h,
)
