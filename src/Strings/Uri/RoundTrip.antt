-- ===== src/Strings/Uri/RoundTrip.antt =====
-- Unescaping what `uct_escape_uri` (src/uct_string.c) wrote, and how much it writes.
use Prim.Native.Nat.{bit_and, bit_or}
use umicat.Base.{
  ℕ, ◌+◌, ◌-◌, ◌*◌, ◌/◌, ◌<◌, ◌≡◌, refl, Bool, true, false, List, [], ◌∷◌, ◌==◌, if◌then◌else◌,
  length, arith, ◌&&◌, Bool-cases, inl, inr, subst, ==_iff,
}
use umicat.Base.Bits.{holds_below, holds_below-at, bit_and-fifteen}
use umicat.Strings.Bytes.{IsBytes}
use umicat.Strings.Number.{is_digit}
use umicat.Strings.Uri.{
  is_marked, escape_map, hex_upper, escape_uri, escape_uri_count, usual, quoted, quoted_second,
  next, is_hex_letter, unescape_round, unescape_loop, unescape_uri,
}

-- For every type of escaping, the call with no `dst` counts the bytes that the other call replaces:
-- each of them takes two more bytes than it had.
pub length-escape_uri :
    (type : ℕ) (src : List ℕ)
    → length (escape_uri type src) ≡ length src + 2 * escape_uri_count type src
unfolding escape_uri escape_uri_count
length-escape_uri type [] = refl
length-escape_uri type (c ∷ src) = elim (Bool-cases (is_marked (escape_map type) c)) [
  | inl e ↦ rw e (omega (arith, length-escape_uri type src))
  | inr e ↦ rw e (omega (arith, length-escape_uri type src))
]

-- A digit that `uct_escape_uri` writes is read back with its value.
abbrev reads_digit : ℕ → Bool
reads_digit h =
    let ch = hex_upper h in
    if is_digit ch then ch - b'0' == h else is_hex_letter ch && (bit_or ch 0x20 - b'a' + 10 == h)

digit_table : holds_below reads_digit 16 ≡ true
unfolding holds_below
digit_table = refl

round_quoted :
    (d p h : ℕ) → h < 16 → unescape_round 0 quoted d p (hex_upper h) ≡ next [] quoted_second h
unfolding unescape_round
round_quoted d p h k =
    let read = holds_below-at reads_digit 16 digit_table h k in
    elim (Bool-cases (is_digit (hex_upper h))) [
      | inl e ↦ rw e (ground arith)
      | inr e ↦ rw e (ground arith)
    ]

round_second :
    (p h l : ℕ)
    → h < 16
    → l < 16
    → unescape_round 0 quoted_second h p (hex_upper l) ≡ next ((h * 16 + l) ∷ []) usual h
unfolding unescape_round
round_second p h l j k =
    let read = holds_below-at reads_digit 16 digit_table l k in
    elim (Bool-cases (is_digit (hex_upper l))) [
      | inl e ↦ rw e (ground arith)
      | inr e ↦ rw e (ground arith)
    ]

round_percent : (d p : ℕ) → unescape_round 0 usual d p b'%' ≡ next [] quoted d
unfolding unescape_round
round_percent d p = refl

-- A byte that is not a percent sign is passed on.
round_usual :
    (d p c : ℕ) → (c == b'%') ≡ false → unescape_round 0 usual d p c ≡ next (c ∷ []) usual d
unfolding unescape_round
round_usual d p c e = ground arith

-- A type whose table escapes the percent sign.
abbrev pub EscapesPercent : ℕ → Type 0
EscapesPercent type = is_marked (escape_map type) b'%' ≡ true

not_percent :
    (type c : ℕ) → EscapesPercent type → is_marked (escape_map type) c ≡ false → (c == b'%') ≡ false
not_percent type c h e = elim (Bool-cases (c == b'%')) [
  | inl t ↦
      let same : c ≡ b'%' = (==_iff c b'%').0 t in
      let marked = subst (λ x. is_marked (escape_map type) x ≡ false) same e in cc
  | inr t ↦ t
]

unescape_loop-escape_uri :
    (type d p : ℕ) (src : List ℕ)
    → EscapesPercent type
    → IsBytes src
    → unescape_loop 0 usual d p (escape_uri type src) ≡ (src, [])
unfolding unescape_loop escape_uri
unescape_loop-escape_uri type d p [] h b = refl
unescape_loop-escape_uri type d p (c ∷ src) h b =
    elim (Bool-cases (is_marked (escape_map type) c)) [
      | inl e ↦
          let high = c / 16 in
          let low = bit_and c 0xf in
          let small : low < 16 = omega (arith, bit_and-fifteen c) in
          let joined : high * 16 + low ≡ c = omega (arith, bit_and-fifteen c) in
          let rest = unescape_loop-escape_uri type high (hex_upper low) src h b.1 in
          rw (
            e,
            round_percent d p,
            unescape_loop,
            round_quoted d b'%' high (omega arith),
            unescape_loop,
            round_second (hex_upper high) high low (omega arith) small,
            joined,
            rest,
          )
      | inr e ↦
          let rest = unescape_loop-escape_uri type d c src h b.1 in
          rw (e, round_usual d p c (not_percent type c h e), unescape_loop, rest)
    ]

-- For every type whose table escapes the percent sign, unescaping with no flag what was escaped
-- gives the bytes back and leaves nothing unread.
pub unescape_uri-escape_uri :
    (type : ℕ) (src : List ℕ)
    → EscapesPercent type
    → IsBytes src
    → unescape_uri 0 (escape_uri type src) ≡ (src, [])
unfolding unescape_uri
unescape_uri-escape_uri type src h b = unescape_loop-escape_uri type 0 0 src h b
