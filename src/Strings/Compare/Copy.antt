-- ===== src/Strings/Compare/Copy.antt =====
-- What `uct_strlow`, `uct_strnlen` and `uct_cpystrn` (src/uct_string.c) make of a C string.
use umicat.Base.{
  ℕ, zero, suc, ◌≤◌, ◌≡◌, refl, List, [], ◌∷◌, ◌++◌, map, arith, take, length, ap, min,
}
use umicat.Strings.Compare.{tolower, strlow, strnlen, cpystrn_loop, cpystrn}
use umicat.Strings.Compare.Caseless.{IsText}

strnlen_lem : (s : List ℕ) (n : ℕ) → IsText s → strnlen s n ≡ min n (length s)
unfolding strnlen
strnlen_lem s zero h = omega arith
strnlen_lem [] (suc n) h = omega arith
strnlen_lem (c ∷ s) (suc n) h = ground (arith, strnlen_lem s n h.1)

cpystrn_loop_lem : (s : List ℕ) (n : ℕ) → IsText s → cpystrn_loop s n ≡ take n s ++ 0 ∷ []
unfolding cpystrn_loop
cpystrn_loop_lem s zero h = refl
cpystrn_loop_lem [] (suc n) h = refl
cpystrn_loop_lem (c ∷ s) (suc n) h = ground (arith, cpystrn_loop_lem s n h.1)

strlow_lem : (s : List ℕ) (n : ℕ) → n ≤ length s → strlow s n ≡ map tolower (take n s)
unfolding strlow
strlow_lem s zero h = refl
strlow_lem [] (suc n) h = absurd (omega arith)
strlow_lem (c ∷ s) (suc n) h = ap (λ t. tolower c ∷ t) (strlow_lem s n (omega arith))

-- For a C string and a limit n within it: `uct_strnlen` is the smaller of the limit and the length,
-- a copy into n + 1 bytes is the first n bytes and the final zero, and `uct_strlow` writes the first n
-- bytes in lower case.
pub cpystrn_lem :
    (s : List ℕ) (n : ℕ)
    → IsText s
    → n ≤ length s
    → (strnlen s n ≡ min n (length s))
      × (cpystrn s (suc n) ≡ take n s ++ 0 ∷ [])
      × (strlow s n ≡ map tolower (take n s))
unfolding cpystrn
cpystrn_lem s n h k = (strnlen_lem s n h, cpystrn_loop_lem s n h, strlow_lem s n k)
