-- ===== src/Strings/Search/First.antt =====
-- The searches of src/uct_string.c find the first occurrence.
use umicat.Base.{
  ℕ, zero, suc, ◌<◌, ◌≤◌, ◌≡◌, ◌↔◌, refl, Bool, ◌&&◌, true, false, List, [], ◌∷◌, map, ◌==◌,
  if◌then◌else◌, arith, take, length, Option, none, some, leb, ltb, Bool-cases, inl, inr,
  length-map, sym, length-take,
}
use umicat.Base.Int.{ℤ, pos, eqb_ℤ}
use umicat.Strings.Compare.{tolower, strncasecmp}
use umicat.Strings.Compare.Caseless.{IsText, tolower-pos, tolower_zero}
use umicat.Strings.Search.{strnstr, strstrn, strcasestrn, strlcasestrn}

-- The first place, from the left, whose string passes a test.
abbrev pub first_place : (List ℕ → Bool) → List ℕ → Option (List ℕ)
first_place test [] = none
first_place test (c ∷ s) = if test (c ∷ s) then some (c ∷ s) else first_place test s

-- A string starts with a text, or does so in lower case.
abbrev pub starts_with : List ℕ → List ℕ → Bool
starts_with [] s = true
starts_with (b ∷ t) [] = false
starts_with (b ∷ t) (a ∷ s) = (a == b) && starts_with t s

abbrev pub starts_caseless : List ℕ → List ℕ → Bool
starts_caseless t s = starts_with (map tolower t) (map tolower s)

-- The comparison of the first bytes of a string with a text is that test.
strncasecmp-starts :
    (s t : List ℕ)
    → IsText s
    → IsText t
    → eqb_ℤ (strncasecmp s t (length t)) (pos 0) ≡ starts_caseless t s
unfolding strncasecmp
strncasecmp-starts s [] h k = refl
strncasecmp-starts [] (b ∷ t) h k = ground (arith, tolower-pos b k.0, tolower_zero)
strncasecmp-starts (a ∷ s) (b ∷ t) h k =
    ground (arith, tolower-pos a h.0, strncasecmp-starts s t h.1 k.1)

strcasestrn_lem :
    (s : List ℕ) (c : ℕ) (t : List ℕ)
    → IsText s
    → IsText t
    → strcasestrn s c t (length t) ≡ first_place (starts_caseless (c ∷ t)) s
unfolding strcasestrn
strcasestrn_lem [] c t h k = refl
strcasestrn_lem (a ∷ s) c t h k =
    ground (arith, strncasecmp-starts s t h.1 k, strcasestrn_lem s c t h.1 k)

-- Too few bytes are left for the text.
starts_short : (s t : List ℕ) → length s < length t → starts_with t s ≡ false
starts_short [] [] h = elim h [ ]
starts_short [] (b ∷ t) h = refl
starts_short (a ∷ s) [] h = elim h [ ]
starts_short (a ∷ s) (b ∷ t) h = ground (arith, starts_short s t (omega arith))

first_short : (s t : List ℕ) → length s < length t → first_place (starts_caseless t) s ≡ none
first_short [] t h = refl
first_short (a ∷ s) t h =
    let short =
      starts_short (map tolower (a ∷ s)) (map tolower t)
        (omega (arith, length-map s tolower, length-map t tolower)) in
    ground (arith, short, first_short s t (omega arith))

strlcasestrn_lem :
    (s : List ℕ) (c : ℕ) (t : List ℕ)
    → IsText s
    → IsText t
    → strlcasestrn s c t (length t) ≡ first_place (starts_caseless (c ∷ t)) s
unfolding strlcasestrn
strlcasestrn_lem [] c t h k = refl
strlcasestrn_lem (a ∷ s) c t h k = elim (Bool-cases (leb (length (a ∷ s)) (length t))) [
  | inl e ↦ rw e (sym (first_short (a ∷ s) (c ∷ t) (ground arith)))
  | inr e ↦ rw e (ground (arith, strncasecmp-starts s t h.1 k, strlcasestrn_lem s c t h.1 k))
]

-- For two C strings: each of the searches without case returns the first place at which the string
-- starts with the text in lower case, and nothing where there is none.
pub strcasestrn-first :
    (s : List ℕ) (c : ℕ) (t : List ℕ)
    → IsText s
    → IsText t
    → (strcasestrn s c t (length t) ≡ first_place (starts_caseless (c ∷ t)) s)
      × (strlcasestrn s c t (length t) ≡ first_place (starts_caseless (c ∷ t)) s)
strcasestrn-first s c t h k = (strcasestrn_lem s c t h k, strlcasestrn_lem s c t h k)

-- `strncmp` of the C library, on its documented behaviour: 0 means that the first n bytes are equal.
pub record IsStrncmp (strncmp : List ℕ → List ℕ → ℕ → ℤ) : Type 0 where
  pub zero_iff :
      (a b : List ℕ) (n : ℕ) → IsText a → IsText b → (strncmp a b n ≡ pos 0) ↔ (take n a ≡ take n b)

-- The first place at which the text lies whole within the next `len` bytes.
abbrev pub first_within : List ℕ → ℕ → List ℕ → Option (List ℕ)
first_within t len [] = none
first_within t zero (c ∷ s) = none
first_within t (suc len) (c ∷ s) =
    if starts_with t (take (suc len) (c ∷ s)) then some (c ∷ s) else first_within t len s

starts_take : (s t : List ℕ) → starts_with t s ≡ true → take (length t) s ≡ take (length t) t
starts_take s [] h = refl
starts_take [] (b ∷ t) h = cc
starts_take (a ∷ s) (b ∷ t) h = ground (arith, starts_take s t)

take_starts : (s t : List ℕ) → take (length t) s ≡ take (length t) t → starts_with t s ≡ true
take_starts s [] h = refl
take_starts [] (b ∷ t) h = cc
take_starts (a ∷ s) (b ∷ t) h =
    ground (arith, λ (r : take (length t) s ≡ take (length t) t). take_starts s t r)

starts-take :
    (s t : List ℕ) (len : ℕ) → length t ≤ len → starts_with t (take len s) ≡ starts_with t s
starts-take s [] len h = refl
starts-take [] (b ∷ t) zero h = refl
starts-take [] (b ∷ t) (suc len) h = refl
starts-take (a ∷ s) (b ∷ t) zero h = absurd (omega arith)
starts-take (a ∷ s) (b ∷ t) (suc len) h = ground (arith, starts-take s t len (omega arith))

within_short : (s t : List ℕ) (len : ℕ) → len < length t → first_within t len s ≡ none
within_short [] t len h = refl
within_short (a ∷ s) t zero h = refl
within_short (a ∷ s) t (suc len) h =
    let short = starts_short (take (suc len) (a ∷ s)) t (omega (arith, length-take len s)) in
    rw short (within_short s t len (omega arith))

module _ (strncmp : List ℕ → List ℕ → ℕ → ℤ) (laws : IsStrncmp strncmp) where
  strncmp-starts :
      (s t : List ℕ)
      → IsText s
      → IsText t
      → eqb_ℤ (strncmp s t (length t)) (pos 0) ≡ starts_with t s
  strncmp-starts s t h k =
      let law = laws.zero_iff s t (length t) h k in
      elim (Bool-cases (starts_with t s)) [
        | inl e ↦ let z = law.1 (starts_take s t e) in rw (e, z)
        | inr e ↦ elim (Bool-cases (eqb_ℤ (strncmp s t (length t)) (pos 0))) [
          | inl z ↦ let same = take_starts s t (law.0 (ground arith)) in cc
          | inr z ↦ rw (e, z)
        ]
      ]

  strnstr_lem :
      (s : List ℕ) (c : ℕ) (t : List ℕ) (len : ℕ)
      → IsText s
      → IsText t
      → strnstr strncmp s c t len ≡ first_within (c ∷ t) len s
  unfolding strnstr
  strnstr_lem [] c t len h k = refl
  strnstr_lem (a ∷ s) c t zero h k = refl
  strnstr_lem (a ∷ s) c t (suc len) h k = elim (Bool-cases (ltb len (length t))) [
    | inl short ↦
        let none_starts = starts_short (take len s) t (ground (arith, length-take len s)) in
        let none_within = within_short s (c ∷ t) len (ground arith) in
        ground (arith, none_starts, none_within, strnstr_lem s c t len h.1 k)
    | inr room ↦
        let cut = starts-take s t len (ground arith) in
        ground (arith, cut, strncmp-starts s t h.1 k, strnstr_lem s c t len h.1 k)
  ]

  strstrn_lem :
      (s : List ℕ) (c : ℕ) (t : List ℕ)
      → IsText s
      → IsText t
      → strstrn strncmp s c t (length t) ≡ first_place (starts_with (c ∷ t)) s
  unfolding strstrn
  strstrn_lem [] c t h k = refl
  strstrn_lem (a ∷ s) c t h k = ground (arith, strncmp-starts s t h.1 k, strstrn_lem s c t h.1 k)

-- With a `strncmp` as documented, and for two C strings: `uct_strstrn` returns the first place at
-- which the string starts with the text, and `uct_strnstr` the first at which the whole text stands
-- within the first `len` bytes; each returns nothing where there is none.
pub strnstr-first :
    (strncmp : List ℕ → List ℕ → ℕ → ℤ) (s : List ℕ) (c : ℕ) (t : List ℕ) (len : ℕ)
    → IsStrncmp strncmp
    → IsText s
    → IsText t
    → (strstrn strncmp s c t (length t) ≡ first_place (starts_with (c ∷ t)) s)
      × (strnstr strncmp s c t len ≡ first_within (c ∷ t) len s)
strnstr-first strncmp s c t len laws h k =
    (strstrn_lem strncmp laws s c t h k, strnstr_lem strncmp laws s c t len h k)
