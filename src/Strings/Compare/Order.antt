-- ===== src/Strings/Compare/Order.antt =====
-- The comparisons of src/uct_string.c under which a separator is the lowest byte: of host names by
-- `uct_dns_strcmp` and of file names by `uct_filename_cmp`.
use umicat.Base.{ℕ, zero, suc, ◌<◌, ◌≡◌, ◌≢◌, ◌↔◌, refl, List, [], ◌∷◌, ◌++◌, arith, take, length}
use umicat.Base.Int.{pos, ◌<ℤ◌}
use umicat.Strings.Compare.{dns_strcmp, filename_cmp}
use umicat.Strings.Compare.Caseless.{IsText, tolower_lem, tolower-pos}

-- The first n bytes are compared: 0 exactly where they are equal.
filename_cmp_zero :
    (s1 s2 : List ℕ) (n : ℕ)
    → filename_cmp s1 s2 n ≡ pos 0
    → IsText s1
    → IsText s2
    → take n s1 ≡ take n s2
unfolding filename_cmp
filename_cmp_zero s1 s2 zero e h k = refl
filename_cmp_zero [] [] (suc n) e h k = refl
filename_cmp_zero [] (b ∷ s2) (suc n) e h k = ground arith
filename_cmp_zero (a ∷ s1) [] (suc n) e h k = ground arith
filename_cmp_zero (a ∷ s1) (b ∷ s2) (suc n) e h k =
    ground (arith, λ (r : filename_cmp s1 s2 n ≡ pos 0). filename_cmp_zero s1 s2 n r h.1 k.1)

filename_cmp_same : (s1 s2 : List ℕ) (n : ℕ) → take n s1 ≡ take n s2 → filename_cmp s1 s2 n ≡ pos 0
unfolding filename_cmp
filename_cmp_same s1 s2 zero e = refl
filename_cmp_same [] [] (suc n) e = refl
filename_cmp_same [] (b ∷ s2) (suc n) e = cc
filename_cmp_same (a ∷ s1) [] (suc n) e = cc
filename_cmp_same (a ∷ s1) (b ∷ s2) (suc n) e =
    ground (arith, λ (r : take n s1 ≡ take n s2). filename_cmp_same s1 s2 n r)

-- Behind a common part, a separator comes before any other byte.
filename_cmp_slash :
    (common : List ℕ) (c : ℕ) (s1 s2 : List ℕ) (n : ℕ)
    → IsText common
    → 0 < c
    → c ≢ b'/'
    → length common < n
    → filename_cmp (common ++ b'/' ∷ s1) (common ++ c ∷ s2) n <ℤ pos 0
unfolding filename_cmp
filename_cmp_slash common c s1 s2 zero t h k l = absurd (omega arith)
filename_cmp_slash [] c s1 s2 (suc n) t h k l = ground arith
filename_cmp_slash (a ∷ common) c s1 s2 (suc n) t h k l =
    ground (arith, filename_cmp_slash common c s1 s2 n t.1 h k (omega arith))

dns_strcmp_dot :
    (common : List ℕ) (c : ℕ) (s1 s2 : List ℕ)
    → IsText common
    → 0x20 < c
    → c ≢ b'.'
    → dns_strcmp (common ++ b'.' ∷ s1) (common ++ c ∷ s2) <ℤ pos 0
unfolding dns_strcmp
dns_strcmp_dot [] c s1 s2 t h k = ground (arith, tolower_lem c, tolower_lem b'.')
dns_strcmp_dot (a ∷ common) c s1 s2 t h k =
    ground (arith, tolower-pos a t.0, dns_strcmp_dot common c s1 s2 t.1 h k)

-- For two file names: 0 exactly where they are equal within the limit; and after what they have in
-- common, within the limit, the one that goes on with a slash comes first. For two host names: the one
-- that goes on with a dot comes first, whatever the case, if the other goes on with a byte above the
-- space.
pub filename_cmp_lem :
    (common : List ℕ) (c : ℕ) (s1 s2 : List ℕ) (n : ℕ)
    → IsText common
    → IsText s1
    → IsText s2
    → 0x20 < c
    → c ≢ b'/'
    → c ≢ b'.'
    → length common < n
    → ((filename_cmp s1 s2 n ≡ pos 0) ↔ (take n s1 ≡ take n s2))
      × (filename_cmp (common ++ b'/' ∷ s1) (common ++ c ∷ s2) n <ℤ pos 0)
      × (dns_strcmp (common ++ b'.' ∷ s1) (common ++ c ∷ s2) <ℤ pos 0)
filename_cmp_lem common c s1 s2 n t t1 t2 h slash dot l = (
  (λ e. filename_cmp_zero s1 s2 n e t1 t2, filename_cmp_same s1 s2 n),
  filename_cmp_slash common c s1 s2 n t (omega arith) slash l,
  dns_strcmp_dot common c s1 s2 t h dot,
)
