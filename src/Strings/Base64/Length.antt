-- ===== src/Strings/Base64/Length.antt =====
-- How much the encoders and decoders of src/uct_string.c write.
use umicat.Base.{
  ℕ, ◌+◌, ◌*◌, ◌/◌, ◌%◌, ◌≤◌, ◌≡◌, refl, true, false, List, [], ◌∷◌, ◌==◌, length, take, some, none,
  arith, Bool-cases, Option-cases, inl, inr, length-take, Option,
}
use umicat.Strings.Base64.{
  encode_rest, encode_group, encode_internal, scan, decode_loop, decode_internal, encode_base64,
  encode_base64url, decode_base64, decode_base64url, base64_encoded_length, base64_decoded_length,
  encode_basis64, encode_basis64url, decode_basis64, decode_basis64url,
}

encode_internal-padded :
    (enc s : List ℕ) → length (encode_internal enc true s) ≡ base64_encoded_length (length s)
unfolding encode_internal encode_group encode_rest base64_encoded_length
encode_internal-padded enc (a ∷ b ∷ c ∷ s) = omega (arith, encode_internal-padded enc s)
encode_internal-padded enc (a ∷ b ∷ []) = refl
encode_internal-padded enc (a ∷ []) = refl
encode_internal-padded enc [] = refl

encode_internal-unpadded :
    (enc s : List ℕ) → length (encode_internal enc false s) ≡ (length s * 4 + 2) / 3
unfolding encode_internal encode_group encode_rest
encode_internal-unpadded enc (a ∷ b ∷ c ∷ s) = omega (arith, encode_internal-unpadded enc s)
encode_internal-unpadded enc (a ∷ b ∷ []) = refl
encode_internal-unpadded enc (a ∷ []) = refl
encode_internal-unpadded enc [] = refl

length-decode_loop : (dec s : List ℕ) → length (decode_loop dec s) ≡ length s * 3 / 4
unfolding decode_loop
length-decode_loop dec (a ∷ b ∷ c ∷ d ∷ s) = omega (arith, length-decode_loop dec s)
length-decode_loop dec (a ∷ b ∷ c ∷ []) = refl
length-decode_loop dec (a ∷ b ∷ []) = refl
length-decode_loop dec (a ∷ []) = refl
length-decode_loop dec [] = refl

-- What a decoder writes; nothing where it fails.
abbrev pub written : Option (List ℕ) → List ℕ
written none = []
written (some out) = out

length-decode_internal :
    (dec s : List ℕ) → length (written (decode_internal dec s)) ≤ base64_decoded_length (length s)
unfolding decode_internal base64_decoded_length
length-decode_internal dec s = elim (Option-cases (scan dec 0 s)) [
  | inl e ↦ rw (e, decode_internal) (omega arith)
  | inr (len, e) ↦ elim (Bool-cases (len % 4 == 1)) [
    | inl t ↦ rw (e, decode_internal) (rw t (omega arith))
    | inr t ↦
        rw (e, decode_internal)
          (rw t (omega (arith, length-decode_loop dec (take len s), length-take len s)))
  ]
]

-- For any bytes: a padded text fills the buffer of `uct_base64_encoded_length` bytes exactly, one
-- without padding fits into it, and what either decoder writes fits into
-- `uct_base64_decoded_length` bytes.
pub length-base64-le :
    (src : List ℕ)
    → (length (encode_base64 src) ≡ base64_encoded_length (length src))
      × (length (encode_base64url src) ≤ base64_encoded_length (length src))
      × (length (written (decode_base64 src)) ≤ base64_decoded_length (length src))
      × (length (written (decode_base64url src)) ≤ base64_decoded_length (length src))
unfolding encode_base64 encode_base64url decode_base64 decode_base64url base64_encoded_length
length-base64-le src = (
  unfold base64_encoded_length in encode_internal-padded encode_basis64 src,
  omega (arith, encode_internal-unpadded encode_basis64url src),
  length-decode_internal decode_basis64 src,
  length-decode_internal decode_basis64url src,
)
