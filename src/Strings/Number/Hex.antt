-- ===== src/Strings/Number/Hex.antt =====
-- What `uct_hextoi` accepts.
use umicat.Base.{
  ℕ, ◌+◌, ◌*◌, ◌/◌, ◌≤◌, ◌≡◌, refl, Bool, true, false, ◌&&◌, not, List, [], ◌∷◌, ltb, leb, ◌==◌,
  if◌then◌else◌, arith, dec_lt, Bool-cases, inl, inr,
}
use umicat.Base.Int.{pos}
use umicat.Base.Word.{max_int}
use umicat.Strings.Number.{uct_error, hex_value, hextoi_loop, hextoi}
use umicat.Strings.Number.Decimal.{and_false}

-- The number that a line of hexadecimal digits stands for, after those that make up `value`.
abbrev pub hex_from : ℕ → List ℕ → ℕ
hex_from value [] = value
hex_from value (c ∷ rest) = hex_from (value * 16 + hex_value c) rest

abbrev pub all_hex : List ℕ → Bool
all_hex [] = true
all_hex (c ∷ rest) = not (hex_value c == 16) && all_hex rest

hex_from-ge : (v : ℕ) (cs : List ℕ) → v ≤ hex_from v cs
hex_from-ge v [] = omega arith
hex_from-ge v (c ∷ cs) = omega (arith, hex_from-ge (v * 16 + hex_value c) cs)

hex_value-le : (c : ℕ) → hex_value c ≤ 16
unfolding hex_value
hex_value-le c = ground arith

hextoi_loop_lem :
    (v : ℕ) (cs : List ℕ)
    → v ≤ max_int
    → hextoi_loop v cs
      ≡ (if all_hex cs && leb (hex_from v cs) max_int then pos (hex_from v cs) else uct_error)
unfolding hextoi_loop
hextoi_loop_lem v [] h = ground arith
hextoi_loop_lem v (c ∷ cs) h = elim (Bool-cases (hex_value c == 16)) [
  | inl e ↦ rw e (ground arith)
  | inr e ↦ elim (dec_lt (max_int / 16) v) [
    | yes l ↦
        let t : ltb (max_int / 16) v ≡ true = ground arith in
        let u : leb (hex_from (v * 16 + hex_value c) cs) max_int ≡ false =
          ground (arith, hex_from-ge (v * 16 + hex_value c) cs) in
        rw (t, u, e, and_false (all_hex cs)) refl
    | no l ↦
        let t : ltb (max_int / 16) v ≡ false = ground arith in
        rw (t, e) (hextoi_loop_lem (v * 16 + hex_value c) cs (ground (arith, hex_value-le c)))
  ]
]

-- A line that is not empty is read as its hexadecimal value, in upper or lower case, if all its bytes
-- are digits and the value is at most the largest number of the type; any other line is refused.
pub hextoi_lem :
    (c : ℕ) (cs : List ℕ)
    → hextoi (c ∷ cs) ≡ (
        if all_hex (c ∷ cs) && leb (hex_from 0 (c ∷ cs)) max_int
        then pos (hex_from 0 (c ∷ cs))
        else uct_error)
unfolding hextoi
hextoi_lem c cs = hextoi_loop_lem 0 (c ∷ cs) (omega arith)
