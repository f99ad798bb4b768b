-- ===== src/Strings/Search.antt =====
-- The searches of src/uct_string.c and `uct_strlchr` (src/uct_string.h). A string is the list of the
-- bytes from a pointer on, up to the final '\0' or, with `last`, up to that pointer; a result is the
-- list from the place found, `none` for `NULL`. The text to find is `c2` and, behind it, `s2`.
pub mod First
use umicat.Base.{
  ℕ, zero, suc, ◌-◌, Bool, true, false, List, [], ◌∷◌, leb, ltb, ◌==◌, if◌then◌else◌, Option, none,
  some, length,
}
use umicat.Base.Int.{ℤ, pos, eqb_ℤ}
use umicat.Strings.Compare.{tolower, strncasecmp}

-- `strncmp` of the C library is an argument.
unfoldable pub strnstr : (List ℕ → List ℕ → ℕ → ℤ) → List ℕ → ℕ → List ℕ → ℕ → Option (List ℕ)
strnstr strncmp [] c2 s2 len = none
strnstr strncmp (c1 ∷ s1) c2 s2 zero = none
strnstr strncmp (c1 ∷ s1) c2 s2 (suc len) =
    let next = strnstr strncmp s1 c2 s2 len in
    if c1 == 0
    then none
    else if c1 == c2
    then (if ltb len (length s2)
        then none
        else if eqb_ℤ (strncmp s1 s2 (length s2)) (pos 0)
        then some (c1 ∷ s1)
        else next)
    else next

unfoldable pub strstrn : (List ℕ → List ℕ → ℕ → ℤ) → List ℕ → ℕ → List ℕ → ℕ → Option (List ℕ)
strstrn strncmp [] c2 s2 n = none
strstrn strncmp (c1 ∷ s1) c2 s2 n =
    let next = strstrn strncmp s1 c2 s2 n in
    if c1 == 0
    then none
    else if c1 == c2
    then (if eqb_ℤ (strncmp s1 s2 n) (pos 0) then some (c1 ∷ s1) else next)
    else next

unfoldable pub strcasestrn : List ℕ → ℕ → List ℕ → ℕ → Option (List ℕ)
strcasestrn [] c2 s2 n = none
strcasestrn (c1 ∷ s1) c2 s2 n =
    let next = strcasestrn s1 c2 s2 n in
    if c1 == 0
    then none
    else if tolower c1 == tolower c2
    then (if eqb_ℤ (strncasecmp s1 s2 n) (pos 0) then some (c1 ∷ s1) else next)
    else next

-- `s1 >= last - n`: no more than n bytes are left.
unfoldable pub strlcasestrn : List ℕ → ℕ → List ℕ → ℕ → Option (List ℕ)
strlcasestrn [] c2 s2 n = none
strlcasestrn (c1 ∷ s1) c2 s2 n =
    let next = strlcasestrn s1 c2 s2 n in
    if leb (length (c1 ∷ s1)) n
    then none
    else if tolower c1 == tolower c2
    then (if eqb_ℤ (strncasecmp s1 s2 n) (pos 0) then some (c1 ∷ s1) else next)
    else next

unfoldable pub strlchr : List ℕ → ℕ → Option (List ℕ)
strlchr [] c = none
strlchr (b ∷ p) c = let next = strlchr p c in if b == c then some (b ∷ p) else next
