-- ===== src/Examples/Text.antt =====
-- The numbers of uct_string.c on concrete texts.
use umicat.Base.{◌≡◌, refl, ◌&&◌, [], ◌∷◌, arith, leb, if◌then◌else◌}
use umicat.Base.Int.{pos, negsuc}
use umicat.Base.Word.{max_int}
use umicat.Strings.Number.{uct_error, atoi, hextoi, hex_value, itoa}
use umicat.Strings.Number.Decimal.{atoi_lem, atoi-itoa, all_digits, value_from}

atoi_test : atoi (b'8' ∷ b'0' ∷ b'8' ∷ b'0' ∷ []) ≡ pos 8080
unfolding atoi
atoi_test = refl

hextoi_test : hextoi (b'f' ∷ b'F' ∷ []) ≡ pos 255
unfolding hextoi hex_value
hextoi_test = refl

itoa_test : itoa (pos 8080) 10 ≡ (b'8' ∷ b'0' ∷ b'8' ∷ b'0' ∷ [])
unfolding itoa
itoa_test = refl

itoa_negative_test : itoa (negsuc 11) 10 ≡ (b'-' ∷ b'1' ∷ b'2' ∷ [])
unfolding itoa
itoa_negative_test = refl

-- The port 8080, as atoi reads it.
atoi_lem_example : atoi (b'8' ∷ b'0' ∷ b'8' ∷ b'0' ∷ []) ≡ (
    if all_digits (b'8' ∷ b'0' ∷ b'8' ∷ b'0' ∷ [])
      && leb (value_from 0 (b'8' ∷ b'0' ∷ b'8' ∷ b'0' ∷ [])) max_int
    then pos (value_from 0 (b'8' ∷ b'0' ∷ b'8' ∷ b'0' ∷ []))
    else uct_error)
atoi_lem_example = atoi_lem b'8' (b'0' ∷ b'8' ∷ b'0' ∷ [])

atoi-itoa_example : atoi (itoa (pos 65535) 10) ≡ pos 65535
atoi-itoa_example = atoi-itoa 65535 (omega arith)
