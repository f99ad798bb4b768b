-- ===== src/Strings/Markup/Html.antt =====
-- What `uct_escape_html` (src/uct_string.c) counts and writes.
use umicat.Base.{
  ℕ, ◌+◌, ◌≡◌, refl, List, [], ◌∷◌, ◌++◌, ◌==◌, ==_iff, if◌then◌else◌, length, arith, Bool, false,
  true, ◌&&◌, Bool-cases, inl, inr, ap, ◌∙◌,
}
use umicat.Strings.Bytes.{codes}
use umicat.Strings.Markup.{escape_html, escape_html_count}

length-escape_html : (src : List ℕ) → length (escape_html src) ≡ length src + escape_html_count src
unfolding escape_html escape_html_count
length-escape_html [] = refl
length-escape_html (c ∷ src) = ground (arith, length-escape_html src)

-- A text in which no byte can open or close a tag or a quoted attribute.
abbrev pub NoMarkup : List ℕ → Type 0
NoMarkup [] = Unit {0}
NoMarkup (c ∷ cs) =
    ((c == b'<') ≡ false) × ((c == b'>') ≡ false) × ((c == b'"') ≡ false) × NoMarkup cs

escape_html-NoMarkup : (src : List ℕ) → NoMarkup (escape_html src)
unfolding escape_html
escape_html-NoMarkup [] = tt
escape_html-NoMarkup (c ∷ src) = ground (arith, escape_html-NoMarkup src)

-- A reader of HTML text, from the standard and not from the code: `outside` a character reference,
-- or inside one with the name read so far.
pub data Reader : Type 0 where
  outside : Reader
  inside : List ℕ → Reader

same_bytes : List ℕ → List ℕ → Bool
same_bytes [] [] = true
same_bytes (a ∷ xs) (b ∷ ys) = (a == b) && same_bytes xs ys
same_bytes other others = false

referred : List ℕ → ℕ
referred name =
    if same_bytes name (codes "lt")
    then b'<'
    else if same_bytes name (codes "gt")
    then b'>'
    else if same_bytes name (codes "amp")
    then b'&'
    else if same_bytes name (codes "quot")
    then b'"'
    else 0

pub read_html : Reader → List ℕ → List ℕ
read_html r [] = []
read_html outside (c ∷ t) = elim (c == b'&') [
  | true ↦ read_html (inside []) t
  | false ↦ c ∷ read_html outside t
]
read_html (inside name) (c ∷ t) = elim (c == b';') [
  | true ↦ referred name ∷ read_html outside t
  | false ↦ read_html (inside (name ++ c ∷ [])) t
]

read_plain :
    (c : ℕ) (t : List ℕ) → (c == b'&') ≡ false → read_html outside (c ∷ t) ≡ c ∷ read_html outside t
unfolding read_html
read_plain c t k = rw (k, read_html)

read_html-escape_html : (src : List ℕ) → read_html outside (escape_html src) ≡ src
unfolding escape_html read_html referred same_bytes
read_html-escape_html [] = refl
read_html-escape_html (c ∷ src) =
    let rest = read_html-escape_html src in
    elim (Bool-cases (c == b'<')) [
      | inl e ↦ rw (e, rest, (==_iff c b'<').0 e)
      | inr n ↦ elim (Bool-cases (c == b'>')) [
        | inl e ↦ rw (n, e, rest, (==_iff c b'>').0 e)
        | inr m ↦ elim (Bool-cases (c == b'&')) [
          | inl e ↦ rw (n, m, e, rest, (==_iff c b'&').0 e)
          | inr k ↦ elim (Bool-cases (c == b'"')) [
            | inl e ↦ rw (n, m, k, e, rest, (==_iff c b'"').0 e)
            | inr l ↦ rw (n, m, k, l) (read_plain c (escape_html src) k ∙ ap (λ t. c ∷ t) rest)
          ]
        ]
      ]
    ]

-- For any text: a reader of HTML gets the text back from what is written, no byte of that opens or
-- closes a tag or a quoted attribute, and the call with no `dst` counts how much longer it is.
pub escape_html_lem :
    (src : List ℕ)
    → (read_html outside (escape_html src) ≡ src)
      × NoMarkup (escape_html src)
      × (length (escape_html src) ≡ length src + escape_html_count src)
escape_html_lem src = (read_html-escape_html src, escape_html-NoMarkup src, length-escape_html src)
