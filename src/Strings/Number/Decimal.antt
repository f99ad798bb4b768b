-- ===== src/Strings/Number/Decimal.antt =====
-- What `uct_atoi` accepts, and that it reads what `uct_itoa` writes.
use umicat.Base.{
  ℕ, zero, suc, ◌+◌, ◌-◌, ◌*◌, ◌/◌, ◌%◌, ◌^◌, ◌≤◌, ◌<◌, ◌≡◌, refl, ◌∙◌, Bool, true, false, ◌&&◌,
  List, [], ◌∷◌, ◌++◌, ltb, leb, ◌==◌, if◌then◌else◌, arith, dec_lt, Bool-cases, inl, inr,
}
use umicat.Base.Int.{pos}
use umicat.Base.Word.{max_int}
use umicat.Strings.Number.{
  uct_error, is_digit, overflows, atoi_loop, atoi, itoa, digits_loop, digit_char,
}
use mathlib.Core.List.{reverse, reverse-cons}
use native.Mathlib.Nat.{pow-suc}

-- The number that a line of digits stands for, after those that make up `value`.
abbrev pub value_from : ℕ → List ℕ → ℕ
value_from value [] = value
value_from value (c ∷ rest) = value_from (value * 10 + (c - b'0')) rest

abbrev pub all_digits : List ℕ → Bool
all_digits [] = true
all_digits (c ∷ rest) = is_digit c && all_digits rest

pub value_from-ge : (v : ℕ) (cs : List ℕ) → v ≤ value_from v cs
value_from-ge v [] = omega arith
value_from-ge v (c ∷ cs) = omega (arith, value_from-ge (v * 10 + (c - b'0')) cs)

pub overflows_iff :
    (v c : ℕ) → is_digit c ≡ true → overflows v c ≡ ltb max_int (v * 10 + (c - b'0'))
overflows_iff v c d = ground arith

pub and_false : (b : Bool) → (b && false) ≡ false
and_false true = refl
and_false false = refl

and_assoc : (a b c : Bool) → (a && (b && c)) ≡ ((a && b) && c)
and_assoc true b c = refl
and_assoc false b c = refl

atoi_loop_lem :
    (v : ℕ) (cs : List ℕ)
    → v ≤ max_int
    → atoi_loop v cs ≡ (
        if all_digits cs && leb (value_from v cs) max_int then pos (value_from v cs) else uct_error)
atoi_loop_lem v [] h = ground arith
atoi_loop_lem v (c ∷ cs) h = elim (Bool-cases (is_digit c)) [
  | inr e ↦ rw e refl
  | inl e ↦
      rw (e, overflows_iff v c e)
        (elim (dec_lt max_int (v * 10 + (c - b'0'))) [
          | yes l ↦
              let t : ltb max_int (v * 10 + (c - b'0')) ≡ true = ground arith in
              let u : leb (value_from (v * 10 + (c - b'0')) cs) max_int ≡ false =
                ground (arith, value_from-ge (v * 10 + (c - b'0')) cs) in
              rw (t, u, and_false (all_digits cs)) refl
          | no l ↦
              let t : ltb max_int (v * 10 + (c - b'0')) ≡ false = ground arith in
              rw t (atoi_loop_lem (v * 10 + (c - b'0')) cs (omega arith))
        ])
]

-- A line that is not empty is read as its decimal value if all its bytes are digits and the value is
-- at most the largest number of the type; any other line is refused with -1.
pub atoi_lem :
    (c : ℕ) (cs : List ℕ)
    → atoi (c ∷ cs) ≡ (
        if all_digits (c ∷ cs) && leb (value_from 0 (c ∷ cs)) max_int
        then pos (value_from 0 (c ∷ cs))
        else uct_error)
unfolding atoi
atoi_lem c cs = atoi_loop_lem 0 (c ∷ cs) (omega arith)

value_from-snoc :
    (v : ℕ) (cs : List ℕ) (d : ℕ) → value_from v (cs ++ d ∷ []) ≡ value_from v cs * 10 + (d - b'0')
value_from-snoc v [] d = refl
value_from-snoc v (c ∷ cs) d = value_from-snoc (v * 10 + (c - b'0')) cs d

all_digits-snoc : (cs : List ℕ) (d : ℕ) → all_digits (cs ++ d ∷ []) ≡ (all_digits cs && is_digit d)
all_digits-snoc [] d = ground arith
all_digits-snoc (c ∷ cs) d =
    rw (all_digits-snoc cs d) (and_assoc (is_digit c) (all_digits cs) (is_digit d))

digit_facts : (d : ℕ) → d < 10 → (is_digit (b'0' + d) ≡ true) × (b'0' + d - b'0' ≡ d)
digit_facts d h = (ground arith, omega arith)

low_digit : (d : ℕ) → d < 10 → digit_char d ≡ b'0' + d
low_digit d h = ground arith

-- What a text of digits must be for the number `n`.
record Writes (n : ℕ) (cs : List ℕ) : Type 0 where
  value : value_from 0 cs ≡ n
  digits : all_digits cs ≡ true

one_digit : (n : ℕ) → n < 10 → Writes n (reverse (digit_char (n % 10) ∷ []))
one_digit n h = record { value = ground arith; digits = ground arith }

more_digits :
    (n : ℕ) (rest : List ℕ)
    → Writes (n / 10) (reverse rest)
    → Writes n (reverse (digit_char (n % 10) ∷ rest))
more_digits n rest w =
    let e = low_digit (n % 10) (omega arith) in
    let f = digit_facts (n % 10) (omega arith) in
    rw (e, reverse-cons (b'0' + n % 10) rest)
      (record {
        value = value_from-snoc 0 (reverse rest) (b'0' + n % 10) ∙ omega (arith, w.value, f.1);
        digits = all_digits-snoc (reverse rest) (b'0' + n % 10) ∙ rw (w.digits, f.0) refl;
      })

-- With `fuel` rounds to come after the first, a number below 10 ^ (fuel + 1) is written out in full.
digits-Writes : (fuel n : ℕ) → n < 10 ^ suc fuel → Writes n (reverse (digits_loop (suc fuel) 10 n))
unfolding digits_loop
digits-Writes zero n h = let e : (n / 10 == 0) ≡ true = ground arith in rw e (one_digit n h)
digits-Writes (suc fuel) n h = elim (dec_lt n 10) [
  | yes small ↦ let e : (n / 10 == 0) ≡ true = ground arith in rw e (one_digit n small)
  | no big ↦
      let e : (n / 10 == 0) ≡ false = ground arith in
      rw e (
        more_digits n (digits_loop (suc fuel) 10 (n / 10))
          (digits-Writes fuel (n / 10) (omega (arith, pow-suc 10 (suc fuel)))))
]

accepted :
    (n : ℕ) (cs : List ℕ)
    → n ≤ max_int
    → Writes n cs
    → (if all_digits cs && leb (value_from 0 cs) max_int then pos (value_from 0 cs) else uct_error)
      ≡ pos n
accepted n cs h w = let e : leb n max_int ≡ true = ground arith in rw (w.digits, w.value, e) refl

atoi-Writes :
    (n : ℕ) (cs : List ℕ) (d : ℕ)
    → n ≤ max_int
    → Writes n (cs ++ d ∷ [])
    → atoi (cs ++ d ∷ []) ≡ pos n
atoi-Writes n [] d h w = atoi_lem d [] ∙ accepted n (d ∷ []) h w
atoi-Writes n (c ∷ cs) d h w = atoi_lem c (cs ++ d ∷ []) ∙ accepted n (c ∷ (cs ++ d ∷ [])) h w

-- `uct_atoi` reads back every number below 2^31 that `uct_itoa` writes in decimal.
pub atoi-itoa : (n : ℕ) → n < 2 ^ 31 → atoi (itoa (pos n) 10) ≡ pos n
unfolding itoa digits_loop
atoi-itoa n h =
    rw (reverse-cons (digit_char (n % 10)) (if n / 10 == 0 then [] else digits_loop 31 10 (n / 10)))
      (atoi-Writes n _ _ (omega arith) (rw (← reverse-cons _ _) (digits-Writes 31 n (omega arith))))
