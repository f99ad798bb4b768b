-- ===== src/Examples/Bytes.antt =====
-- The routines of uct_string.c on bytes, at concrete texts.
use umicat.Base.{ℕ, ◌+◌, ◌≤◌, ◌≡◌, refl, [], ◌∷◌, some, none, arith, length}
use umicat.Strings.Bytes.{codes}
use umicat.Strings.Base64.{
  encode_base64, encode_base64url, decode_base64, decode_base64url, encode_internal,
  decode_internal,
}
use umicat.Strings.Base64.RoundTrip.{decode_base64-encode_base64}
use umicat.Strings.Uri.{escape_uri, unescape_uri, is_marked}
use umicat.Strings.Uri.RoundTrip.{EscapesPercent, unescape_uri-escape_uri}
use umicat.Strings.Markup.{escape_html, escape_json, escape_json_count}
use umicat.Strings.Markup.Json.{plain, read_json, escape_json_lem}
use umicat.Strings.Utf8.{utf8_decode, utf8_length, utf8_cpystrn, decode_rest}
use umicat.Strings.Utf8.Decode.{utf8_decode-encode}
use umicat.Strings.Utf8.Length.{utf8_length-total}
use umicat.Strings.Number.HexDump.{hex_dump}

encode_test : encode_base64 (codes "light") ≡ codes "bGlnaHQ="
unfolding encode_base64 encode_internal
encode_test = refl

decode_test : decode_base64 (codes "bGl*") ≡ none
unfolding decode_base64 decode_internal
decode_test = refl

decode_base64-encode_base64_example :
    (decode_base64 (encode_base64 (0 ∷ 255 ∷ [])) ≡ some (0 ∷ 255 ∷ []))
    × (decode_base64url (encode_base64url (0 ∷ 255 ∷ [])) ≡ some (0 ∷ 255 ∷ []))
decode_base64-encode_base64_example =
    decode_base64-encode_base64 (0 ∷ 255 ∷ []) (omega arith, (omega arith, tt))

escape_uri_test : escape_uri 2 (codes "a b/c") ≡ codes "a%20b%2Fc"
unfolding escape_uri is_marked
escape_uri_test = refl

-- A text that is to be redirected keeps what is not printable in its quoted form.
unescape_uri_test : unescape_uri 2 (codes "a%20%41?b%42") ≡ (codes "a%20A?", codes "b%42")
unfolding unescape_uri
unescape_uri_test = refl

-- The table of `UCT_ESCAPE_REFRESH` leaves the percent sign alone.
escape_refresh_test : escape_uri 4 (codes "50%41") ≡ codes "50%41"
unfolding escape_uri is_marked
escape_refresh_test = refl

component : EscapesPercent 2
unfolding is_marked
component = refl

unescape_uri-escape_uri_example :
    unescape_uri 0 (escape_uri 2 (b'%' ∷ 255 ∷ b'a' ∷ [])) ≡ (b'%' ∷ 255 ∷ b'a' ∷ [], [])
unescape_uri-escape_uri_example =
    unescape_uri-escape_uri 2 (b'%' ∷ 255 ∷ b'a' ∷ []) component
      (omega arith, (omega arith, (omega arith, tt)))

escape_html_test : escape_html (codes "<a>&") ≡ codes "&lt;a&gt;&amp;"
unfolding escape_html
escape_html_test = refl

escape_json_test : escape_json (b'"' ∷ 10 ∷ 31 ∷ []) ≡ (92 ∷ b'"' ∷ 92 ∷ b'n' ∷ 92 ∷ codes "u001F")
unfolding escape_json
escape_json_test = refl

escape_json_lem_example :
    (read_json plain (escape_json (b'"' ∷ 10 ∷ 31 ∷ [])) ≡ some (b'"' ∷ 10 ∷ 31 ∷ []))
    × (length (escape_json (b'"' ∷ 10 ∷ 31 ∷ [])) ≡ 3 + escape_json_count (b'"' ∷ 10 ∷ 31 ∷ []))
escape_json_lem_example = escape_json_lem (b'"' ∷ 10 ∷ 31 ∷ [])

utf8_decode_test : utf8_decode (0xe2 ∷ 0x82 ∷ 0xac ∷ []) ≡ (0x20ac, [])
unfolding utf8_decode decode_rest
utf8_decode_test = refl

-- A byte that starts a sequence is taken for one that continues it.
utf8_lax_test : utf8_decode (0xc3 ∷ 0xc3 ∷ []) ≡ (0xc3, [])
unfolding utf8_decode decode_rest
utf8_lax_test = refl

utf8_decode-encode_example : utf8_decode (0xe2 ∷ 0x82 ∷ 0xac ∷ b'x' ∷ []) ≡ (0x20ac, b'x' ∷ [])
utf8_decode-encode_example = utf8_decode-encode 0x20ac (b'x' ∷ []) (omega arith) (omega arith)

utf8_cpystrn_test : utf8_cpystrn (b'a' ∷ 0xc3 ∷ 0xa9 ∷ b'b' ∷ []) 3 ≡ (b'a' ∷ 0xc3 ∷ 0xa9 ∷ 0 ∷ [])
unfolding utf8_cpystrn utf8_decode decode_rest
utf8_cpystrn_test = refl

utf8_length-total_example : (r : ℕ) × (utf8_length (b'a' ∷ 0xc3 ∷ 0xa9 ∷ []) ≡ some r) × (r ≤ 3)
utf8_length-total_example = utf8_length-total (b'a' ∷ 0xc3 ∷ 0xa9 ∷ [])

hex_dump_test : hex_dump (0 ∷ 0x4f ∷ 255 ∷ []) ≡ codes "004fff"
unfolding hex_dump
hex_dump_test = refl
