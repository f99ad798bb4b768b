-- ===== src/Strings/Compare/Caseless.antt =====
-- The comparisons of src/uct_string.c that disregard case.
use Prim.Native.Nat.{bit_or}
use umicat.Base.{
  ℕ, zero, suc, ◌+◌, ◌<◌, ◌≡◌, ◌↔◌, refl, Bool, true, ◌&&◌, List, [], ◌∷◌, map, leb, ◌==◌,
  if◌then◌else◌, arith, Bool-cases, inl, inr, take,
}
use umicat.Base.Int.{pos, ◌-ℤ◌}
use umicat.Base.Bits.{holds_below, holds_below-at}
use umicat.Strings.Compare.{tolower, strcasecmp, strncasecmp}

-- The bytes of a C string, none of them 0.
abbrev pub IsText : List ℕ → Type 0
IsText [] = Unit {0}
IsText (c ∷ s) = (0 < c) × IsText s

abbrev adds_32 : ℕ → Bool
adds_32 c = if leb b'A' c then bit_or c 0x20 == c + 32 else true

case_table : holds_below adds_32 91 ≡ true
unfolding holds_below
case_table = refl

pub tolower_lem : (c : ℕ) → tolower c ≡ (if leb b'A' c && leb c b'Z' then c + 32 else c)
unfolding tolower
tolower_lem c = elim (Bool-cases (leb b'A' c && leb c b'Z')) [
  | inl e ↦
      let small : c < 91 = ground arith in
      let sum = holds_below-at adds_32 91 case_table c small in ground arith
  | inr e ↦ rw e
]

pub tolower-pos : (c : ℕ) → 0 < c → 0 < tolower c
tolower-pos c h = ground (arith, tolower_lem c)

pub tolower_zero : tolower 0 ≡ 0
unfolding tolower
tolower_zero = refl

strcasecmp_zero :
    (s1 s2 : List ℕ)
    → strcasecmp s1 s2 ≡ pos 0
    → IsText s1
    → IsText s2
    → map tolower s1 ≡ map tolower s2
unfolding strcasecmp
strcasecmp_zero [] [] e h k = refl
strcasecmp_zero [] (b ∷ s2) e h k = ground (arith, tolower-pos b k.0)
strcasecmp_zero (a ∷ s1) [] e h k = ground (arith, tolower_zero, tolower-pos a h.0)
strcasecmp_zero (a ∷ s1) (b ∷ s2) e h k =
    ground
      (arith, tolower-pos a h.0, λ (r : strcasecmp s1 s2 ≡ pos 0). strcasecmp_zero s1 s2 r h.1 k.1)

strcasecmp_same : (s1 s2 : List ℕ) → map tolower s1 ≡ map tolower s2 → strcasecmp s1 s2 ≡ pos 0
unfolding strcasecmp
strcasecmp_same [] [] e = ground (arith, tolower_zero)
strcasecmp_same [] (b ∷ s2) e = cc
strcasecmp_same (a ∷ s1) [] e = cc
strcasecmp_same (a ∷ s1) (b ∷ s2) e =
    ground (arith, λ (r : map tolower s1 ≡ map tolower s2). strcasecmp_same s1 s2 r)

take_nil : (n : ℕ) → take {A = ℕ} n [] ≡ []
take_nil zero = refl
take_nil (suc n) = refl

strncasecmp-eq-strcasecmp :
    (s1 s2 : List ℕ) (n : ℕ) → strncasecmp s1 s2 n ≡ strcasecmp (take n s1) (take n s2)
unfolding strncasecmp strcasecmp
strncasecmp-eq-strcasecmp s1 s2 zero = ground (arith, tolower_zero)
strncasecmp-eq-strcasecmp [] [] (suc n) = ground (arith, tolower_zero)
strncasecmp-eq-strcasecmp [] (b ∷ s2) (suc n) = ground (arith, tolower_zero)
strncasecmp-eq-strcasecmp (a ∷ s1) [] (suc n) =
    ground (arith, tolower_zero, strncasecmp-eq-strcasecmp s1 [] n, take_nil n)
strncasecmp-eq-strcasecmp (a ∷ s1) (b ∷ s2) (suc n) =
    ground (arith, strncasecmp-eq-strcasecmp s1 s2 n)

strcasecmp_swap : (s1 s2 : List ℕ) → strcasecmp s2 s1 ≡ pos 0 -ℤ strcasecmp s1 s2
unfolding strcasecmp ◌-ℤ◌
strcasecmp_swap [] [] = ground (arith, tolower_zero)
strcasecmp_swap [] (b ∷ s2) = ground (arith, tolower_zero, strcasecmp_swap [] s2)
strcasecmp_swap (a ∷ s1) [] = ground (arith, tolower_zero, strcasecmp_swap s1 [])
strcasecmp_swap (a ∷ s1) (b ∷ s2) = ground (arith, strcasecmp_swap s1 s2)

-- For two C strings: the result is 0 exactly where the strings are equal in lower case, and turns its
-- sign where they are exchanged; the comparison of the first n bytes is that of the strings cut off
-- after n bytes.
pub strcasecmp_lem :
    (s1 s2 : List ℕ) (n : ℕ)
    → IsText s1
    → IsText s2
    → ((strcasecmp s1 s2 ≡ pos 0) ↔ (map tolower s1 ≡ map tolower s2))
      × (strcasecmp s2 s1 ≡ pos 0 -ℤ strcasecmp s1 s2)
      × (strncasecmp s1 s2 n ≡ strcasecmp (take n s1) (take n s2))
strcasecmp_lem s1 s2 n h k = (
  (λ e. strcasecmp_zero s1 s2 e h k, strcasecmp_same s1 s2),
  strcasecmp_swap s1 s2,
  strncasecmp-eq-strcasecmp s1 s2 n,
)
