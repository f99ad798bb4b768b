-- ===== src/Strings/Compare.antt =====
-- The comparisons of texts in src/uct_string.c, and the copies `uct_strlow`, `uct_cpystrn` and
-- `uct_strnlen`. A pointer to a C string is the list of the bytes from it up to the final '\0', which
-- is what is read behind the list; a byte 0 in the list ends the string too. A result is read as the
-- `uct_int_t` that it stands for: `c1 - c2` is negative where `c1` is smaller.
pub mod Caseless
pub mod Reverse
pub mod Copy
pub mod Order
use Prim.Native.Nat.{bit_or}
use umicat.Base.{
  ℕ, zero, suc, ◌+◌, ◌-◌, ◌≤◌, ◌≡◌, Bool, ◌&&◌, ◌||◌, not, List, [], ◌∷◌, leb, ◌==◌, if◌then◌else◌,
  get_or, take, true, false,
}
use umicat.Base.Int.{ℤ, pos, negsuc, sub_ℕ, eqb_ℤ}

-- `(c >= 'A' && c <= 'Z') ? (c | 0x20) : c`, also `uct_tolower`.
unfoldable pub tolower : ℕ → ℕ
tolower c = if leb b'A' c && leb c b'Z' then bit_or c 0x20 else c

-- `*s++`: the byte, and the string behind it.
abbrev pub first : List ℕ → ℕ
first [] = 0
first (c ∷ s) = c

abbrev pub behind : List ℕ → List ℕ
behind [] = []
behind (c ∷ s) = s

unfoldable pub strlow : List ℕ → ℕ → List ℕ
strlow src zero = []
strlow src (suc n) = tolower (first src) ∷ strlow (behind src) n

unfoldable pub strnlen : List ℕ → ℕ → ℕ
strnlen p zero = 0
strnlen p (suc n) = let rest = suc (strnlen (behind p) n) in if first p == 0 then 0 else rest

-- `while (--n)` with `n` rounds left: what is written from `dst` on.
cpystrn_loop : List ℕ → ℕ → List ℕ
cpystrn_loop src zero = 0 ∷ []
cpystrn_loop src (suc n) =
    let rest = first src ∷ cpystrn_loop (behind src) n in if first src == 0 then 0 ∷ [] else rest

unfoldable pub cpystrn : List ℕ → ℕ → List ℕ
unfolding cpystrn_loop
cpystrn src zero = []
cpystrn src (suc n) = cpystrn_loop src n

unfoldable pub strcasecmp : List ℕ → List ℕ → ℤ
strcasecmp [] s2 = let c2 = tolower (first s2) in if 0 == c2 then pos 0 else sub_ℕ 0 c2
strcasecmp (a ∷ s1) s2 =
    let c1 = tolower a in
    let c2 = tolower (first s2) in
    let rest = strcasecmp s1 (behind s2) in
    if c1 == c2 then (if c1 == 0 then pos 0 else rest) else sub_ℕ c1 c2

unfoldable pub strncasecmp : List ℕ → List ℕ → ℕ → ℤ
strncasecmp s1 s2 zero = pos 0
strncasecmp s1 s2 (suc n) =
    let c1 = tolower (first s1) in
    let c2 = tolower (first s2) in
    let rest = strncasecmp (behind s1) (behind s2) n in
    if c1 == c2 then (if c1 == 0 then pos 0 else rest) else sub_ℕ c1 c2

-- From the last of `n` bytes to the first.
unfoldable pub rstrncmp : List ℕ → List ℕ → ℕ → ℤ
rstrncmp s1 s2 zero = pos 0
rstrncmp s1 s2 (suc n) =
    let c1 = get_or s1 n 0 in
    let c2 = get_or s2 n 0 in let rest = rstrncmp s1 s2 n in if c1 == c2 then rest else sub_ℕ c1 c2

-- `if (c >= 'a' && c <= 'z') c -= 'a' - 'A'`.
unfoldable pub toupper : ℕ → ℕ
toupper c = if leb b'a' c && leb c b'z' then c - (b'a' - b'A') else c

unfoldable pub rstrncasecmp : List ℕ → List ℕ → ℕ → ℤ
rstrncasecmp s1 s2 zero = pos 0
rstrncasecmp s1 s2 (suc n) =
    let c1 = toupper (get_or s1 n 0) in
    let c2 = toupper (get_or s2 n 0) in
    let rest = rstrncasecmp s1 s2 n in if c1 == c2 then rest else sub_ℕ c1 c2

-- `memcmp` is the C library's.
unfoldable pub memn2cmp : (List ℕ → List ℕ → ℕ → ℤ) → List ℕ → List ℕ → ℕ → ℕ → ℤ
memn2cmp memcmp s1 s2 n1 n2 =
    let n = if leb n1 n2 then n1 else n2 in
    let z = if leb n1 n2 then negsuc 0 else pos 1 in
    let m = memcmp s1 s2 n in if not (eqb_ℤ m (pos 0)) || n1 == n2 then m else z

abbrev dot_first : ℕ → ℕ
dot_first c = if c == b'.' then b' ' else c

unfoldable pub dns_strcmp : List ℕ → List ℕ → ℤ
dns_strcmp [] s2 = let c2 = tolower (first s2) in if 0 == c2 then pos 0 else sub_ℕ 0 (dot_first c2)
dns_strcmp (a ∷ s1) s2 =
    let c1 = tolower a in
    let c2 = tolower (first s2) in
    let rest = dns_strcmp s1 (behind s2) in
    if c1 == c2 then (if c1 == 0 then pos 0 else rest) else sub_ℕ (dot_first c1) (dot_first c2)

abbrev slash_first : ℕ → ℕ
slash_first c = if c == b'/' then 0 else c

-- Without `uct_HAVE_CASELESS_FILESYSTEM`, which no build file defines.
unfoldable pub filename_cmp : List ℕ → List ℕ → ℕ → ℤ
filename_cmp s1 s2 zero = pos 0
filename_cmp s1 s2 (suc n) =
    let c1 = first s1 in
    let c2 = first s2 in
    let rest = filename_cmp (behind s1) (behind s2) n in
    if c1 == c2
    then (if c1 == 0 then pos 0 else rest)
    else if c1 == 0 || c2 == 0
    then sub_ℕ c1 c2
    else sub_ℕ (slash_first c1) (slash_first c2)
