-- ===== src/Strings/Markup/Json.antt =====
-- What `uct_escape_json` (src/uct_string.c) counts and writes: the body of a JSON string that
-- denotes the given bytes.
use Prim.Native.Nat.{bit_and}
use umicat.Base.{
  ℕ, zero, suc, ◌+◌, ◌*◌, ◌/◌, ◌<◌, ◌≡◌, refl, List, [], ◌∷◌, ◌++◌, ltb, ◌==◌, if◌then◌else◌,
  length, arith, false, true, ◌||◌, Bool-cases, inl, inr, Option, none, some, ==_iff, ap, ◌∙◌, sym,
}
use umicat.Base.Bits.{holds_below, holds_below-at, bit_and-fifteen}
use umicat.Strings.Number.{hex_value}
use umicat.Strings.Markup.{escape_json, escape_json_count, control, json_digit}

length-escape_json : (src : List ℕ) → length (escape_json src) ≡ length src + escape_json_count src
unfolding escape_json escape_json_count control
length-escape_json [] = refl
length-escape_json (c ∷ src) = ground (arith, length-escape_json src)

-- A reader of the body of a JSON string, from the standard and not from the code: it is at a plain
-- place, after a backslash, or has `left` digits of a code to read after those that make up `acc`.
pub data Reader : Type 0 where
  plain : Reader
  backslash : Reader
  hex : (left acc : ℕ) → Reader

-- What a backslash and this letter stand for.
short : ℕ → Option ℕ
short e =
    if e == b'"'
    then some b'"'
    else if e == 92
    then some 92
    else if e == b'/'
    then some b'/'
    else if e == b'b'
    then some 8
    else if e == b'f'
    then some 12
    else if e == b'n'
    then some 10
    else if e == b'r'
    then some 13
    else if e == b't'
    then some 9
    else none

-- One byte read: what it adds to the text, and the new state; `none` for a body that is not one.
read_byte : Reader → ℕ → Option (List ℕ × Reader)
read_byte plain c =
    if ltb c 32
    then none
    else if c == b'"'
    then none
    else if c == 92
    then some ([], backslash)
    else some (c ∷ [], plain)
read_byte backslash c =
    if c == b'u'
    then some ([], hex 4 0)
    else elim (short c) [ none ↦ none | some v ↦ some (v ∷ [], plain) ]
read_byte (hex zero acc) c = none
read_byte (hex (suc left) acc) c =
    let acc' = acc * 16 + hex_value c in
    if hex_value c == 16
    then none
    else if left == 0
    then some (acc' ∷ [], plain)
    else some ([], hex left acc')

prefix : List ℕ → Option (List ℕ) → Option (List ℕ)
prefix out none = none
prefix out (some t) = some (out ++ t)

pub read_json : Reader → List ℕ → Option (List ℕ)
read_json plain [] = some []
read_json backslash [] = none
read_json (hex left acc) [] = none
read_json r (c ∷ t) = elim (read_byte r c) [
  | none ↦ none
  | some (out, r') ↦ prefix out (read_json r' t)
]

digit_table : holds_below (λ h. hex_value (json_digit h) == h) 16 ≡ true
unfolding holds_below hex_value
digit_table = refl

digit_read : (h : ℕ) → h < 16 → hex_value (json_digit h) ≡ h
digit_read h k = (==_iff _ h).0 (holds_below-at _ 16 digit_table h k)

read_high : (h : ℕ) → h < 2 → read_byte (hex 2 0) (b'0' + h) ≡ some ([], hex 1 h)
unfolding read_byte hex_value
read_high zero k = refl
read_high (suc zero) k = refl
read_high (suc (suc h)) k = absurd (omega arith)

read_low :
    (h l : ℕ)
    → h < 2
    → l < 16
    → read_byte (hex 1 h) (json_digit l) ≡ some ((h * 16 + l) ∷ [], plain)
unfolding read_byte
read_low h l j k = rw (digit_read l k) (ground arith)

read_json_step :
    (r : Reader) (c : ℕ) (t : List ℕ) {out s : List ℕ} {r' : Reader}
    → read_byte r c ≡ some (out, r')
    → read_json r' t ≡ some s
    → read_json r (c ∷ t) ≡ some (out ++ s)
unfolding read_json prefix
read_json_step plain c t e h = rw (e, read_json, h)
read_json_step backslash c t e h = rw (e, read_json, h)
read_json_step (hex left acc) c t e h = rw (e, read_json, h)

module _ (c : ℕ) (t : List ℕ) {src : List ℕ} (small : c < 32)
    (read : read_json plain t ≡ some src) where
  -- The long escape of a control character.
  read_code :
      read_json plain (92 ∷ b'u' ∷ b'0' ∷ b'0' ∷ (b'0' + c / 16) ∷ json_digit (bit_and c 0xf) ∷ t)
      ≡ some (c ∷ src)
  unfolding read_byte hex_value
  read_code =
      let low : bit_and c 0xf < 16 = omega (arith, bit_and-fifteen c) in
      let joined : c / 16 * 16 + bit_and c 0xf ≡ c = omega (arith, bit_and-fifteen c) in
      let last =
        read_json_step (hex 1 (c / 16)) (json_digit (bit_and c 0xf)) t
          (read_low (c / 16) (bit_and c 0xf) (omega arith) low) read in
      let digits =
        read_json_step (hex 2 0) (b'0' + c / 16) _ (read_high (c / 16) (omega arith)) last in
      let zeros =
        read_json_step (hex 4 0) b'0' _ refl (read_json_step (hex 3 0) b'0' _ refl digits) in
      let whole = read_json_step plain 92 _ refl (read_json_step backslash b'u' _ refl zeros) in
      whole ∙ ap (λ v. some (v ∷ src)) joined

  -- An escape of one letter.
  read_short :
      (v letter : ℕ)
      → (c == v) ≡ true
      → read_byte backslash letter ≡ some (v ∷ [], plain)
      → read_json plain (92 ∷ letter ∷ t) ≡ some (c ∷ src)
  unfolding read_byte
  read_short v letter e letter_read =
      let whole =
        read_json_step plain 92 _ refl (read_json_step backslash letter t letter_read read) in
      whole ∙ ap (λ w. some (w ∷ src)) (sym ((==_iff c v).0 e))

  read_control : read_json plain (92 ∷ (control c ++ t)) ≡ some (c ∷ src)
  unfolding control read_byte short
  read_control = elim (Bool-cases (c == 10)) [
    | inl e ↦ rw e (read_short 10 b'n' e refl)
    | inr a ↦ elim (Bool-cases (c == 13)) [
      | inl e ↦ rw (a, e) (read_short 13 b'r' e refl)
      | inr b ↦ elim (Bool-cases (c == 9)) [
        | inl e ↦ rw (a, b, e) (read_short 9 b't' e refl)
        | inr d ↦ elim (Bool-cases (c == 8)) [
          | inl e ↦ rw (a, b, d, e) (read_short 8 b'b' e refl)
          | inr f ↦ elim (Bool-cases (c == 12)) [
            | inl e ↦ rw (a, b, d, f, e) (read_short 12 b'f' e refl)
            | inr g ↦ rw (a, b, d, f, g) read_code
          ]
        ]
      ]
    ]
  ]

read_own : (c : ℕ) → (c == 92 || c == b'"') ≡ true → read_byte backslash c ≡ some (c ∷ [], plain)
unfolding read_byte short
read_own c h = ground arith

read_plain :
    (c : ℕ)
    → ltb 0x1f c ≡ true
    → (c == 92 || c == b'"') ≡ false
    → read_byte plain c ≡ some (c ∷ [], plain)
unfolding read_byte
read_plain c h k = ground arith

backslash_read : read_byte plain 92 ≡ some ([], backslash)
unfolding read_byte
backslash_read = refl

read_json-escape_json : (src : List ℕ) → read_json plain (escape_json src) ≡ some src
unfolding escape_json
read_json-escape_json [] = unfold read_json in refl
read_json-escape_json (c ∷ src) =
    let rest = read_json-escape_json src in
    elim (Bool-cases (ltb 0x1f c)) [
      | inl e ↦ elim (Bool-cases (c == 92 || c == b'"')) [
        | inl q ↦
            rw (e, q)
              (read_json_step plain 92 _ backslash_read
                (read_json_step backslash c (escape_json src) (read_own c q) rest))
        | inr q ↦ rw (e, q) (read_json_step plain c (escape_json src) (read_plain c e q) rest)
      ]
      | inr e ↦ rw e (read_control c (escape_json src) (ground arith) rest)
    ]

-- For any text: a reader of JSON strings gets the text back from what is written, and the call with
-- no `dst` counts how much longer that is.
pub escape_json_lem :
    (src : List ℕ)
    → (read_json plain (escape_json src) ≡ some src)
      × (length (escape_json src) ≡ length src + escape_json_count src)
escape_json_lem src = (read_json-escape_json src, length-escape_json src)
