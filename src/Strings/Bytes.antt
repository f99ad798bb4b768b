-- ===== src/Strings/Bytes.antt =====
-- Bytes and text literals, and the tests and conversions of letters in uct_string.h.
use Prim.Native.Char.{code}
use Prim.Native.String.{String}
use umicat.Base.{ℕ, ◌<◌, List, [], ◌∷◌}

-- The bytes of a text.
abbrev pub codes : String → List ℕ
codes String.[] = []
codes (String.◌∷◌ c s) = code c ∷ codes s

-- Every item is the value of a `u_char`.
abbrev pub IsBytes : List ℕ → Type 0
IsBytes [] = Unit {0}
IsBytes (c ∷ cs) = (c < 256) × IsBytes cs
