-- ===== src/Strings/Markup.antt =====
-- `uct_escape_html` and `uct_escape_json` (src/uct_string.c). A text is the list of its bytes. Each
-- has two calls: with no `dst` it counts how many bytes the text grows by, with a `dst` it writes.
pub mod Html
pub mod Json
use Prim.Native.Nat.{bit_and}
use umicat.Base.{ℕ, ◌+◌, ◌-◌, ◌/◌, Bool, ◌||◌, List, [], ◌∷◌, ◌++◌, ltb, leb, ◌==◌, if◌then◌else◌}
use umicat.Strings.Bytes.{codes}

-- `sizeof("&lt;") - 2`, and so on: the literal's bytes with its final zero, less two.
unfoldable pub escape_html_count : List ℕ → ℕ
escape_html_count [] = 0
escape_html_count (c ∷ src) =
    (if c == b'<'
      then 5 - 2
      else if c == b'>'
      then 5 - 2
      else if c == b'&'
      then 6 - 2
      else if c == b'"'
      then 7 - 2
      else 0)
    + escape_html_count src

unfoldable pub escape_html : List ℕ → List ℕ
escape_html [] = []
escape_html (c ∷ src) =
    (if c == b'<'
      then b'&' ∷ b'l' ∷ b't' ∷ b';' ∷ []
      else if c == b'>'
      then b'&' ∷ b'g' ∷ b't' ∷ b';' ∷ []
      else if c == b'&'
      then b'&' ∷ b'a' ∷ b'm' ∷ b'p' ∷ b';' ∷ []
      else if c == b'"'
      then b'&' ∷ b'q' ∷ b'u' ∷ b'o' ∷ b't' ∷ b';' ∷ []
      else c ∷ [])
    ++ escape_html src

-- The control characters with an escape of their own: line feed, carriage return, tab, backspace
-- and form feed.
abbrev is_short : ℕ → Bool
is_short c = c == 10 || (c == 13 || (c == 9 || (c == 8 || c == 12)))

unfoldable pub escape_json_count : List ℕ → ℕ
escape_json_count [] = 0
escape_json_count (c ∷ src) =
    (if c == 92 || c == b'"'
      then 1
      else if leb c 0x1f
      then (if is_short c then 1 else 7 - 2)
      else 0)
    + escape_json_count src

abbrev json_digit : ℕ → ℕ
json_digit h = if ltb h 10 then b'0' + h else b'A' + h - 10

-- What is written after the backslash of a control character.
control : ℕ → List ℕ
control c =
    if c == 10
    then b'n' ∷ []
    else if c == 13
    then b'r' ∷ []
    else if c == 9
    then b't' ∷ []
    else if c == 8
    then b'b' ∷ []
    else if c == 12
    then b'f' ∷ []
    else b'u' ∷ b'0' ∷ b'0' ∷ (b'0' + c / 16) ∷ json_digit (bit_and c 0xf) ∷ []

unfoldable pub escape_json : List ℕ → List ℕ
unfolding control
escape_json [] = []
escape_json (c ∷ src) =
    (if ltb 0x1f c then (if c == 92 || c == b'"' then 92 ∷ c ∷ [] else c ∷ []) else 92 ∷ control c)
    ++ escape_json src
