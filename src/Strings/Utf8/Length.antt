-- ===== src/Strings/Utf8/Length.antt =====
-- The loop of `uct_utf8_length` (src/uct_string.c): it ends, stays within the bytes, and counts the
-- characters of a well-formed text.
use umicat.Base.{
  ℕ, zero, suc, ◌+◌, ◌≤◌, ◌≡◌, refl, List, [], ◌∷◌, ◌++◌, ltb, leb, length, arith, Bool-cases, inl,
  inr, false, true, ap, ◌∙◌, some, dec_lt, length-append, subst,
}
use umicat.Strings.Utf8.{decode_rest, decode_after, utf8_decode, length_loop, utf8_length}
use umicat.Strings.Utf8.Decode.{encode, utf8_decode-encode}

decode_rest-le : (len valid u : ℕ) (p : List ℕ) → length (decode_rest len valid u p).1 ≤ length p
unfolding decode_rest
decode_rest-le zero valid u p = omega arith
decode_rest-le (suc len) valid u [] = omega arith
decode_rest-le (suc len) valid u (i ∷ p) = elim (Bool-cases (ltb i 0x80)) [
  | inl e ↦ rw e (omega arith)
  | inr e ↦ rw e (omega (arith, decode_rest-le len valid _ p))
]

decode_after-le :
    (len valid u c : ℕ) (p : List ℕ)
    → ltb 0x10ffff (decode_after len valid u c p).0 ≡ false
    → length (decode_after len valid u c p).1 ≤ length p
decode_after-le len valid u c p = elim (Bool-cases (ltb (length p) len)) [
  | inl e ↦ rw e (λ h. cc)
  | inr e ↦ rw e (λ h. decode_rest-le len valid u p)
]

-- A valid sequence is read to beyond its first byte.
pub utf8_decode-lt :
    (c : ℕ) (p : List ℕ)
    → ltb 0x10ffff (utf8_decode (c ∷ p)).0 ≡ false
    → length (utf8_decode (c ∷ p)).1 ≤ length p
unfolding utf8_decode
utf8_decode-lt c p = elim (Bool-cases (leb 0xf0 c)) [
  | inl four ↦ rw four (decode_after-le 3 0xffff _ c p)
  | inr a ↦ elim (Bool-cases (leb 0xe0 c)) [
    | inl three ↦ rw (a, three) (decode_after-le 2 0x7ff _ c p)
    | inr b ↦ elim (Bool-cases (leb 0xc2 c)) [
      | inl two ↦ rw (a, b, two) (decode_after-le 1 0x7f _ c p)
      | inr d ↦ rw (a, b, d) (λ h. omega arith)
    ]
  ]
]

length_loop-le :
    (fuel n len : ℕ) (p : List ℕ)
    → length p ≤ fuel
    → len + length p ≤ n
    → (r : ℕ) × (length_loop fuel n len p ≡ some r) × (r ≤ n)
unfolding length_loop
length_loop-le fuel n len [] h k = (len, refl, omega arith)
length_loop-le zero n len (c ∷ p) h k = absurd (omega arith)
length_loop-le (suc fuel) n len (c ∷ p) h k = elim (Bool-cases (ltb c 0x80)) [
  | inl e ↦ rw e (length_loop-le fuel n (len + 1) p (omega arith) (omega arith))
  | inr e ↦ elim (Bool-cases (ltb 0x10ffff (utf8_decode (c ∷ p)).0)) [
    | inl bad ↦ (n, rw (e, bad), omega arith)
    | inr good ↦
        let shorter = utf8_decode-lt c p good in
        rw (e, good)
          (length_loop-le fuel n (len + 1) (utf8_decode (c ∷ p)).1 (omega arith) (omega arith))
  ]
]

-- For any bytes: the rounds are enough, so that the loop ends, and the count is at most the number
-- of bytes.
pub utf8_length-total : (p : List ℕ) → (r : ℕ) × (utf8_length p ≡ some r) × (r ≤ length p)
unfolding utf8_length
utf8_length-total p = length_loop-le (length p) (length p) 0 p (omega arith) (omega arith)

-- A text of code points, and its bytes.
abbrev pub encode_all : List ℕ → List ℕ
encode_all [] = []
encode_all (v ∷ vs) = encode v ++ encode_all vs

abbrev pub AreCodePoints : List ℕ → Type 0
AreCodePoints [] = Unit {0}
AreCodePoints (v ∷ vs) = (v ≤ 0x10ffff) × AreCodePoints vs

-- A code point of more than one byte starts with a byte that says so.
pub encode-cons :
    (v : ℕ) → 0x80 ≤ v → (c : ℕ) × (t : List ℕ) × (encode v ≡ c ∷ t) × (ltb c 0x80 ≡ false)
encode-cons v h =
    let wide : ltb v 0x80 ≡ false = ground arith in
    elim (Bool-cases (ltb v 0x800)) [
      | inl two ↦ rw (wide, two) (_, _, refl, ground arith)
      | inr more ↦ elim (Bool-cases (ltb v 0x10000)) [
        | inl three ↦ rw (wide, more, three) (_, _, refl, ground arith)
        | inr four ↦ rw (wide, more, four) (_, _, refl, ground arith)
      ]
    ]

-- The bytes of such a code point, taken apart: its first byte is not plain and the decoder reads the
-- whole.
pub decode-cons :
    (v : ℕ) (rest : List ℕ)
    → 0x80 ≤ v
    → v ≤ 0x10ffff
    → (c : ℕ) × (t : List ℕ) × (encode v ≡ c ∷ t)
      × (ltb c 0x80 ≡ false)
      × (utf8_decode (c ∷ (t ++ rest)) ≡ (v, rest))
decode-cons v rest h k =
    let (c, t, e, high) = encode-cons v h in
    (
      c,
      t,
      e,
      high,
      subst (λ b. utf8_decode (b ++ rest) ≡ (v, rest)) e (utf8_decode-encode v rest h k),
    )

length_loop-plain :
    (fuel n len c : ℕ) (p : List ℕ)
    → ltb c 0x80 ≡ true
    → length_loop (suc fuel) n len (c ∷ p) ≡ length_loop fuel n (len + 1) p
unfolding length_loop
length_loop-plain fuel n len c p h = rw h

length_loop-coded :
    (fuel n len c v : ℕ) (p rest : List ℕ)
    → ltb c 0x80 ≡ false
    → v ≤ 0x10ffff
    → utf8_decode (c ∷ p) ≡ (v, rest)
    → length_loop (suc fuel) n len (c ∷ p) ≡ length_loop fuel n (len + 1) rest
unfolding length_loop
length_loop-coded fuel n len c v p rest h k d =
    let small : ltb 0x10ffff v ≡ false = ground arith in rw (h, d, small)

length_loop-encode_all :
    (fuel n len : ℕ) (vs : List ℕ)
    → AreCodePoints vs
    → length (encode_all vs) ≤ fuel
    → length_loop fuel n len (encode_all vs) ≡ some (len + length vs)
length_loop-encode_all fuel n len [] h k = unfold length_loop in ap some (omega arith)
length_loop-encode_all zero n len (v ∷ vs) h k = elim (dec_lt v 0x80) [
  | yes small ↦
      let e : ltb v 0x80 ≡ true = ground arith in
      let k' : length (v ∷ encode_all vs) ≤ 0 = rw e at k in absurd (omega arith)
  | no large ↦
      let (c, t, e, high) = encode-cons v (omega arith) in
      let k' : length (c ∷ (t ++ encode_all vs)) ≤ 0 = rw e at k in absurd (omega arith)
]
length_loop-encode_all (suc fuel) n len (v ∷ vs) h k = elim (dec_lt v 0x80) [
  | yes small ↦
      let e : ltb v 0x80 ≡ true = ground arith in
      let k' : length (v ∷ encode_all vs) ≤ suc fuel = rw e at k in
      rw (e, length_loop-plain fuel n len v (encode_all vs) e)
        (length_loop-encode_all fuel n (len + 1) vs h.1 (omega arith) ∙ ap some (omega arith))
  | no large ↦
      let (c, t, e, high, d) = decode-cons v (encode_all vs) (omega arith) h.0 in
      let k' : length (c ∷ (t ++ encode_all vs)) ≤ suc fuel = rw e at k in
      let shorter = length-append t (encode_all vs) in
      rw (e, length_loop-coded fuel n len c v (t ++ encode_all vs) (encode_all vs) high h.0 d)
        (length_loop-encode_all fuel n (len + 1) vs h.1 (omega arith) ∙ ap some (omega arith))
]

-- For any code points: the length of their bytes is the number of code points.
pub utf8_length-encode_all :
    (vs : List ℕ) → AreCodePoints vs → utf8_length (encode_all vs) ≡ some (length vs)
unfolding utf8_length
utf8_length-encode_all vs h =
    length_loop-encode_all (length (encode_all vs)) (length (encode_all vs)) 0 vs h (omega arith)
    ∙ ap some (omega arith)
