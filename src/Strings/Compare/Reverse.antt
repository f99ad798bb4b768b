-- ===== src/Strings/Compare/Reverse.antt =====
-- The comparisons of src/uct_string.c that start at the end, and `uct_memn2cmp`.
use umicat.Base.{
  ℕ, zero, suc, ◌<◌, ◌≡◌, ◌↔◌, refl, List, [], ◌∷◌, ◌++◌, ◌==◌, if◌then◌else◌, arith, Bool-cases,
  inl, inr, take, ap, length, get_or, dec_lt, subst, length-append, ==_iff, ◌∙◌, sym,
}
use umicat.Base.Int.{ℤ, pos, negsuc, sub_ℕ}
use umicat.Strings.Compare.{toupper, rstrncmp, rstrncasecmp, memn2cmp}

-- Both comparisons, over what they compare of a byte.
last_difference : (ℕ → ℕ) → List ℕ → List ℕ → ℕ → ℤ
last_difference key s1 s2 zero = pos 0
last_difference key s1 s2 (suc n) =
    let c1 = key (get_or s1 n 0) in
    let c2 = key (get_or s2 n 0) in
    let rest = last_difference key s1 s2 n in if c1 == c2 then rest else sub_ℕ c1 c2

rstrncmp-eq : (s1 s2 : List ℕ) (n : ℕ) → rstrncmp s1 s2 n ≡ last_difference (λ c. c) s1 s2 n
unfolding rstrncmp last_difference
rstrncmp-eq s1 s2 zero = refl
rstrncmp-eq s1 s2 (suc n) = ground (arith, rstrncmp-eq s1 s2 n)

rstrncasecmp-eq : (s1 s2 : List ℕ) (n : ℕ) → rstrncasecmp s1 s2 n ≡ last_difference toupper s1 s2 n
unfolding rstrncasecmp last_difference
rstrncasecmp-eq s1 s2 zero = refl
rstrncasecmp-eq s1 s2 (suc n) = ground (arith, rstrncasecmp-eq s1 s2 n)

-- The strings agree, under `key`, at the places below n.
abbrev pub Agree : (ℕ → ℕ) → List ℕ → List ℕ → ℕ → Type 0
Agree key s1 s2 n = (i : ℕ) → i < n → key (get_or s1 i 0) ≡ key (get_or s2 i 0)

module _ (key : ℕ → ℕ) (s1 s2 : List ℕ) where
  difference_same : (n : ℕ) → Agree key s1 s2 n → last_difference key s1 s2 n ≡ pos 0
  unfolding last_difference
  difference_same zero h = refl
  difference_same (suc n) h =
      ground (arith, h n (omega arith), difference_same n (λ i k. h i (omega arith)))

  difference_zero : (n : ℕ) → last_difference key s1 s2 n ≡ pos 0 → Agree key s1 s2 n
  unfolding last_difference
  difference_zero zero e i h = absurd (omega arith)
  difference_zero (suc n) e i h = elim (Bool-cases (key (get_or s1 n 0) == key (get_or s2 n 0))) [
    | inl t ↦
        let rest : last_difference key s1 s2 n ≡ pos 0 = ground arith in
        elim (dec_lt i n) [
          | yes below ↦ difference_zero n rest i below
          | no last ↦ let same : i ≡ n = omega arith in rw same ((==_iff _ _).0 t)
        ]
    | inr f ↦ ground arith
  ]

-- `memcmp` of the C library, on its documented behaviour: 0 means that the first n bytes are equal.
pub record IsMemcmp (memcmp : List ℕ → List ℕ → ℕ → ℤ) : Type 0 where
  pub zero_iff : (a b : List ℕ) (n : ℕ) → (memcmp a b n ≡ pos 0) ↔ (take n a ≡ take n b)

-- For any two strings the result is 0 exactly where all of the first n bytes agree, in upper case
-- for the comparison without case.
pub rstrncmp_lem :
    (s1 s2 : List ℕ) (n : ℕ)
    → ((rstrncmp s1 s2 n ≡ pos 0) ↔ Agree (λ c. c) s1 s2 n)
      × ((rstrncasecmp s1 s2 n ≡ pos 0) ↔ Agree toupper s1 s2 n)
rstrncmp_lem s1 s2 n = (
  (
    λ e. difference_zero (λ c. c) s1 s2 n (sym (rstrncmp-eq s1 s2 n) ∙ e),
    λ h. rstrncmp-eq s1 s2 n ∙ difference_same (λ c. c) s1 s2 n h,
  ),
  (
    λ e. difference_zero toupper s1 s2 n (sym (rstrncasecmp-eq s1 s2 n) ∙ e),
    λ h. rstrncasecmp-eq s1 s2 n ∙ difference_same toupper s1 s2 n h,
  ),
)

take_all : (s : List ℕ) → take (length s) s ≡ s
take_all [] = refl
take_all (c ∷ s) = ap (λ t. c ∷ t) (take_all s)

take_prefix : (s t : List ℕ) → take (length s) (s ++ t) ≡ take (length s) s
take_prefix [] t = refl
take_prefix (c ∷ s) t = ap (λ u. c ∷ u) (take_prefix s t)

-- The result is 0 only if the lengths are the same and so is what `memcmp` compares.
memn2cmp_zero :
    (memcmp : List ℕ → List ℕ → ℕ → ℤ) (s1 s2 : List ℕ) (n1 n2 : ℕ)
    → memn2cmp memcmp s1 s2 n1 n2 ≡ pos 0
    → (n1 ≡ n2) × (memcmp s1 s2 n1 ≡ pos 0)
unfolding memn2cmp
memn2cmp_zero memcmp s1 s2 n1 n2 e = ground arith

memn2cmp_same :
    (memcmp : List ℕ → List ℕ → ℕ → ℤ) (s : List ℕ) (n : ℕ)
    → memcmp s s n ≡ pos 0
    → memn2cmp memcmp s s n n ≡ pos 0
unfolding memn2cmp
memn2cmp_same memcmp s n e = ground arith

memn2cmp_prefix :
    (memcmp : List ℕ → List ℕ → ℕ → ℤ) (s t : List ℕ) (n1 n2 : ℕ)
    → memcmp s t n1 ≡ pos 0
    → n1 < n2
    → memn2cmp memcmp s t n1 n2 ≡ negsuc 0
unfolding memn2cmp
memn2cmp_prefix memcmp s t n1 n2 e h = ground arith

-- With a `memcmp` as documented, and for strings of any lengths: the result is 0 exactly where the
-- strings are equal, and a string is smaller than each that continues it.
pub memn2cmp_lem :
    (memcmp : List ℕ → List ℕ → ℕ → ℤ) (s1 s2 : List ℕ) (c : ℕ)
    → IsMemcmp memcmp
    → ((memn2cmp memcmp s1 s2 (length s1) (length s2) ≡ pos 0) ↔ (s1 ≡ s2))
      × (memn2cmp memcmp s1 (s1 ++ c ∷ s2) (length s1) (length (s1 ++ c ∷ s2)) ≡ negsuc 0)
memn2cmp_lem memcmp s1 s2 c laws = (
  (
    λ e.
        let (len, z) = memn2cmp_zero memcmp s1 s2 (length s1) (length s2) e in
        let front = (laws.zero_iff s1 s2 (length s1)).0 z in
        let whole : take (length s1) s2 ≡ s2 = rw len (take_all s2) in
        sym (take_all s1) ∙ (front ∙ whole),
    λ e.
        subst (λ t. memn2cmp memcmp s1 t (length s1) (length t) ≡ pos 0) e
          (memn2cmp_same memcmp s1 (length s1) ((laws.zero_iff s1 s1 (length s1)).1 refl)),
  ),
  memn2cmp_prefix memcmp s1 (s1 ++ c ∷ s2) (length s1) (length (s1 ++ c ∷ s2))
      ((laws.zero_iff s1 (s1 ++ c ∷ s2) (length s1)).1 (sym (take_prefix s1 (c ∷ s2))))
      (omega (arith, length-append s1 (c ∷ s2))),
)
