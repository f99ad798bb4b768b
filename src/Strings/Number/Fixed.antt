-- ===== src/Strings/Number/Fixed.antt =====
-- What `uct_atofp` makes of a number with a fraction.
use umicat.Base.{
  ℕ, zero, suc, ◌+◌, ◌-◌, ◌*◌, ◌^◌, ◌≤◌, ◌<◌, ◌≡◌, refl, sym, ap, ◌∙◌, true, false, List, [], ◌∷◌,
  ◌++◌, ltb, leb, ◌==◌, if◌then◌else◌, arith, dec_lt, length,
}
use native.Mathlib.Nat.{pow-succ', mul_assoc}
use umicat.Base.Int.{ℤ, pos}
use umicat.Base.Word.{max_int}
use umicat.Strings.Number.{uct_error, cutoff, is_digit, overflows, fill, atofp_loop, atofp}
use umicat.Strings.Number.Decimal.{value_from, all_digits, value_from-ge, overflows_iff}

-- The number if it is one of the type, or else -1.
abbrev pub in_range : ℕ → ℤ
in_range n = if leb n max_int then pos n else uct_error

times_suc : (v k : ℕ) → v * 10 ^ suc k ≡ v * 10 * 10 ^ k
times_suc v k = ap (λ x. v * x) (pow-succ' 10 k) ∙ sym (mul_assoc v 10 (10 ^ k))

mul-ge : (a k : ℕ) → a ≤ a * 10 ^ k
mul-ge a zero = omega arith
mul-ge a (suc k) = omega (arith, mul-ge (a * 10) k, times_suc a k)

out_of_range : (n k : ℕ) → max_int < n → in_range (n * 10 ^ k) ≡ uct_error
out_of_range n k h =
    let t : leb (n * 10 ^ k) max_int ≡ false = ground (arith, mul-ge n k) in rw t refl

fill_lem : (k v : ℕ) → v ≤ max_int → fill k v ≡ in_range (v * 10 ^ k)
unfolding fill
fill_lem zero v h = ground arith
fill_lem (suc k) v h = elim (dec_lt cutoff v) [
  | yes l ↦
      let t : ltb cutoff v ≡ true = ground arith in
      rw (t, times_suc v k, out_of_range (v * 10) k (omega arith)) refl
  | no l ↦
      let t : ltb cutoff v ≡ false = ground arith in
      rw (t, times_suc v k) (fill_lem k (v * 10) (omega arith))
]

-- A round of the loop at a digit, which is not the dot.
at_digit :
    (v c : ℕ) (dotted next target : ℤ)
    → is_digit c ≡ true
    → (max_int < v * 10 + (c - b'0') → target ≡ uct_error)
    → (v * 10 + (c - b'0') ≤ max_int → next ≡ target)
    → (if c == b'.'
        then dotted
        else if is_digit c
        then (if overflows v c then uct_error else next)
        else uct_error)
      ≡ target
at_digit v c dotted next target d over fits =
    let dot : (c == b'.') ≡ false = ground arith in
    rw (dot, d, overflows_iff v c d)
      (elim (dec_lt max_int (v * 10 + (c - b'0'))) [
        | yes l ↦
            let t : ltb max_int (v * 10 + (c - b'0')) ≡ true = ground arith in rw t (sym (over l))
        | no l ↦
            let t : ltb max_int (v * 10 + (c - b'0')) ≡ false = ground arith in
            rw t (fits (omega arith))
      ])

first_digit :
    (c : ℕ) (cs : List ℕ)
    → all_digits (c ∷ cs) ≡ true
    → (is_digit c ≡ true) × (all_digits cs ≡ true)
first_digit c cs d = (ground arith, ground arith)

-- The digits behind the dot.
fraction_lem :
    (v point : ℕ) (fs : List ℕ)
    → v ≤ max_int
    → all_digits fs ≡ true
    → length fs ≤ point
    → atofp_loop v true point fs ≡ in_range (value_from v fs * 10 ^ (point - length fs))
unfolding atofp_loop
fraction_lem v point [] h d l = fill_lem point v h ∙ ap (λ k. in_range (v * 10 ^ k)) (omega arith)
fraction_lem v zero (c ∷ fs) h d l = absurd (omega arith)
fraction_lem v (suc point) (c ∷ fs) h d l =
    let (digit, digits) = first_digit c fs d in
    let w : ℕ = v * 10 + (c - b'0') in
    at_digit v c _ _ _ digit (λ over. out_of_range _ _ (omega (arith, value_from-ge w fs)))
      (λ fits.
        fraction_lem w point fs fits digits (omega arith)
        ∙ ap (λ k. in_range (value_from w fs * 10 ^ k)) (omega arith))

-- The digits in front of the dot and the rest.
whole_lem :
    (v point : ℕ) (ds fs : List ℕ)
    → v ≤ max_int
    → all_digits ds ≡ true
    → all_digits fs ≡ true
    → length fs ≤ suc point
    → atofp_loop v false (suc point) (ds ++ b'.' ∷ fs)
      ≡ in_range (value_from v (ds ++ fs) * 10 ^ (suc point - length fs))
unfolding atofp_loop
whole_lem v point [] fs h d e l = fraction_lem v (suc point) fs h e l
whole_lem v point (c ∷ ds) fs h d e l =
    let (digit, digits) = first_digit c ds d in
    let w : ℕ = v * 10 + (c - b'0') in
    at_digit v c _ _ _ digit (λ over. out_of_range _ _ (omega (arith, value_from-ge w (ds ++ fs))))
      (λ fits. whole_lem w point ds fs fits digits e l)

-- `uct_atofp` reads digits, a dot and at most `point` digits, of which there may be none, as the
-- number of units of the last place that is asked for, or -1 if that is more than the type holds:
-- "10.5" with two places is 1050. There must be a place to ask for.
pub atofp_lem :
    (ds fs : List ℕ) (point : ℕ)
    → all_digits ds ≡ true
    → all_digits fs ≡ true
    → 0 < point
    → length fs ≤ point
    → atofp (ds ++ b'.' ∷ fs) point ≡ in_range (value_from 0 (ds ++ fs) * 10 ^ (point - length fs))
unfolding atofp
atofp_lem ds fs zero d e p l = absurd (omega arith)
atofp_lem [] fs (suc point) d e p l = whole_lem 0 point [] fs (omega arith) d e l
atofp_lem (c ∷ ds) fs (suc point) d e p l = whole_lem 0 point (c ∷ ds) fs (omega arith) d e l
