-- ===== src/Strings/Utf8/Decode.antt =====
-- `uct_utf8_decode` (src/uct_string.c) against the encoding of RFC 3629.
use Prim.Native.Nat.{bit_and}
use umicat.Base.{
  ℕ, suc, ◌+◌, ◌*◌, ◌/◌, ◌%◌, ◌<◌, ◌≤◌, ◌≡◌, List, [], ◌∷◌, ◌++◌, ltb, leb, if◌then◌else◌, length,
  arith, Bool-cases, inl, inr, false, true, ap, ◌∙◌,
}
use umicat.Base.Bits.{bit_and-seven, bit_and-fifteen, bit_and_31, bit_and_63, bit_or-shl6}
use umicat.Strings.Utf8.{decode_rest, utf8_decode}

-- The bytes of a code point, by arithmetic.
abbrev pub encode : ℕ → List ℕ
encode v =
    if ltb v 0x80
    then v ∷ []
    else if ltb v 0x800
    then (0xc0 + v / 64) ∷ (0x80 + v % 64) ∷ []
    else if ltb v 0x10000
    then (0xe0 + v / 4096) ∷ (0x80 + v / 64 % 64) ∷ (0x80 + v % 64) ∷ []
    else (0xf0 + v / 262144) ∷ (0x80 + v / 4096 % 64) ∷ (0x80 + v / 64 % 64) ∷ (0x80 + v % 64) ∷ []

-- One more byte of a sequence.
decode_rest-suc :
    (len valid u d : ℕ) (p : List ℕ)
    → d < 64
    → decode_rest (suc len) valid u ((0x80 + d) ∷ p) ≡ decode_rest len valid (u * 64 + d) p
unfolding decode_rest
decode_rest-suc len valid u d p h =
    let masked : bit_and (0x80 + d) 0x3f ≡ d = omega (arith, bit_and_63 (0x80 + d)) in
    let high : ltb (0x80 + d) 0x80 ≡ false = ground arith in rw (high, masked, bit_or-shl6 u d h)

decode_rest-zero : (valid u : ℕ) (p : List ℕ) → valid < u → decode_rest 0 valid u p ≡ (u, p)
unfolding decode_rest
decode_rest-zero valid u p h = ground arith

-- Sequences of two, three and four bytes, by their parts.
decode_two :
    (a b : ℕ) (p : List ℕ)
    → a < 32
    → 2 ≤ a
    → b < 64
    → utf8_decode ((0xc0 + a) ∷ (0x80 + b) ∷ p) ≡ (a * 64 + b, p)
unfolding utf8_decode
decode_two a b p h k l =
    let first : bit_and (0xc0 + a) 0x1f ≡ a = omega (arith, bit_and_31 (0xc0 + a)) in
    let four : leb 0xf0 (0xc0 + a) ≡ false = ground arith in
    let three : leb 0xe0 (0xc0 + a) ≡ false = ground arith in
    let two : leb 0xc2 (0xc0 + a) ≡ true = ground arith in
    let enough : ltb (suc (length p)) 1 ≡ false = ground arith in
    rw (four, three, two, enough, first, decode_rest-suc 0 0x7f a b p l)
      (decode_rest-zero 0x7f (a * 64 + b) p (omega arith))

decode_three :
    (a b c : ℕ) (p : List ℕ)
    → a < 16
    → b < 64
    → c < 64
    → 0x7ff < a * 4096 + b * 64 + c
    → utf8_decode ((0xe0 + a) ∷ (0x80 + b) ∷ (0x80 + c) ∷ p) ≡ (a * 4096 + b * 64 + c, p)
unfolding utf8_decode
decode_three a b c p h k l m =
    let first : bit_and (0xe0 + a) 0x0f ≡ a = omega (arith, bit_and-fifteen (0xe0 + a)) in
    let four : leb 0xf0 (0xe0 + a) ≡ false = ground arith in
    let three : leb 0xe0 (0xe0 + a) ≡ true = ground arith in
    let enough : ltb (suc (suc (length p))) 2 ≡ false = ground arith in
    let joined : (a * 64 + b) * 64 + c ≡ a * 4096 + b * 64 + c = omega arith in
    rw
      (
        four,
        three,
        enough,
        first,
        decode_rest-suc 1 0x7ff a b ((0x80 + c) ∷ p) k,
        decode_rest-suc 0 0x7ff (a * 64 + b) c p l,
        joined,
      )
      (decode_rest-zero 0x7ff (a * 4096 + b * 64 + c) p m)

decode_four :
    (a b c d : ℕ) (p : List ℕ)
    → a < 8
    → b < 64
    → c < 64
    → d < 64
    → 0xffff < a * 262144 + b * 4096 + c * 64 + d
    → utf8_decode ((0xf0 + a) ∷ (0x80 + b) ∷ (0x80 + c) ∷ (0x80 + d) ∷ p)
      ≡ (a * 262144 + b * 4096 + c * 64 + d, p)
unfolding utf8_decode
decode_four a b c d p h k l m o =
    let first : bit_and (0xf0 + a) 0x07 ≡ a = omega (arith, bit_and-seven (0xf0 + a)) in
    let four : leb 0xf0 (0xf0 + a) ≡ true = ground arith in
    let enough : ltb (suc (suc (suc (length p)))) 3 ≡ false = ground arith in
    let joined : ((a * 64 + b) * 64 + c) * 64 + d ≡ a * 262144 + b * 4096 + c * 64 + d =
      omega arith in
    rw
      (
        four,
        enough,
        first,
        decode_rest-suc 2 0xffff a b ((0x80 + c) ∷ (0x80 + d) ∷ p) k,
        decode_rest-suc 1 0xffff (a * 64 + b) c ((0x80 + d) ∷ p) l,
        decode_rest-suc 0 0xffff ((a * 64 + b) * 64 + c) d p m,
        joined,
      )
      (decode_rest-zero 0xffff (a * 262144 + b * 4096 + c * 64 + d) p o)

-- For every code point of more than one byte, whatever follows it: the decoder returns the code
-- point and stops behind its bytes.
pub utf8_decode-encode :
    (v : ℕ) (rest : List ℕ) → 0x80 ≤ v → v ≤ 0x10ffff → utf8_decode (encode v ++ rest) ≡ (v, rest)
utf8_decode-encode v rest low high =
    let wide : ltb v 0x80 ≡ false = ground arith in
    elim (Bool-cases (ltb v 0x800)) [
      | inl two ↦
          let whole : v / 64 * 64 + v % 64 ≡ v = omega arith in
          rw (wide, two)
            (decode_two (v / 64) (v % 64) rest (ground arith) (omega arith) (omega arith)
              ∙ ap (λ (w : ℕ). (w, rest)) whole)
      | inr more ↦ elim (Bool-cases (ltb v 0x10000)) [
        | inl three ↦
            let whole : v / 4096 * 4096 + v / 64 % 64 * 64 + v % 64 ≡ v = omega arith in
            rw (wide, more, three)
              (decode_three (v / 4096) (v / 64 % 64) (v % 64) rest (ground arith) (omega arith)
                  (omega arith) (ground arith)
                ∙ ap (λ (w : ℕ). (w, rest)) whole)
        | inr four ↦
            let whole : v / 262144 * 262144 + v / 4096 % 64 * 4096 + v / 64 % 64 * 64 + v % 64 ≡ v =
              omega arith in
            rw (wide, more, four)
              (decode_four (v / 262144) (v / 4096 % 64) (v / 64 % 64) (v % 64) rest (omega arith)
                  (omega arith) (omega arith) (omega arith) (ground arith)
                ∙ ap (λ (w : ℕ). (w, rest)) whole)
      ]
    ]
