-- ===== src/Strings/Utf8/Copy.antt =====
-- What `uct_utf8_cpystrn` (src/uct_string.c) writes for a well-formed text.
use mathlib.Core.List.{append_assoc}
use umicat.Base.{
  ℕ, zero, suc, ◌-◌, ◌<◌, ◌≤◌, ◌≡◌, refl, List, [], ◌∷◌, ◌++◌, ltb, ◌==◌, length, arith, false,
  true, ap, dec_lt, length-append, take,
}
use umicat.Strings.Utf8.{utf8_decode, copy_loop, utf8_cpystrn}
use umicat.Strings.Utf8.Length.{encode_all, decode-cons}

-- Code points other than zero, which would end the text.
abbrev pub AreCharacters : List ℕ → Type 0
AreCharacters [] = Unit {0}
AreCharacters (v ∷ vs) = (0 < v) × (v ≤ 0x10ffff) × AreCharacters vs

take-append : (xs ys : List ℕ) → take (length (xs ++ ys) - length ys) (xs ++ ys) ≡ xs
take-append [] ys = let none_left : length ys - length ys ≡ 0 = omega arith in rw none_left
take-append (x ∷ xs) ys =
    let longer : suc (length (xs ++ ys)) - length ys ≡ suc (length (xs ++ ys) - length ys) =
      omega (arith, length-append xs ys) in
    rw longer (ap (λ t. x ∷ t) (take-append xs ys))

copy_loop-plain :
    (n c : ℕ) (src : List ℕ)
    → 0 < c
    → ltb c 0x80 ≡ true
    → copy_loop (suc n) (c ∷ src) ≡ c ∷ copy_loop n src
unfolding copy_loop
copy_loop-plain n c src h k = let e : (c == 0) ≡ false = ground arith in rw (k, e)

copy_loop-coded :
    (n c v : ℕ) (t rest : List ℕ)
    → ltb c 0x80 ≡ false
    → v ≤ 0x10ffff
    → utf8_decode (c ∷ (t ++ rest)) ≡ (v, rest)
    → copy_loop (suc n) (c ∷ (t ++ rest)) ≡ (c ∷ t) ++ copy_loop n rest
unfolding copy_loop
copy_loop-coded n c v t rest h k d =
    let small : ltb 0x10ffff v ≡ false = ground arith in rw (h, d, small, take-append (c ∷ t) rest)

copy_loop-encode_all :
    (n : ℕ) (vs : List ℕ)
    → AreCharacters vs
    → copy_loop n (encode_all vs) ≡ encode_all (take n vs) ++ 0 ∷ []
copy_loop-encode_all zero vs h = unfold copy_loop in refl
copy_loop-encode_all (suc n) [] h = unfold copy_loop in refl
copy_loop-encode_all (suc n) (v ∷ vs) h =
    let rest = copy_loop-encode_all n vs h.2 in
    elim (dec_lt v 0x80) [
      | yes small ↦
          let e : ltb v 0x80 ≡ true = ground arith in
          rw (e, copy_loop-plain n v (encode_all vs) h.0 e, rest)
      | no large ↦
          let (c, t, e, high, d) = decode-cons v (encode_all vs) (omega arith) h.1 in
          rw (e, copy_loop-coded n c v t (encode_all vs) high h.1 d, rest, append_assoc)
    ]

-- For any characters, none of them zero, and a limit of `n + 1`: the first `n` characters are
-- written, none of them in part, and then the final zero.
pub utf8_cpystrn-encode_all :
    (n : ℕ) (vs : List ℕ)
    → AreCharacters vs
    → utf8_cpystrn (encode_all vs) (suc n) ≡ encode_all (take n vs) ++ 0 ∷ []
unfolding utf8_cpystrn
utf8_cpystrn-encode_all n vs h = copy_loop-encode_all n vs h
