-- ===== src/Containers/Parts.antt =====
-- The list of parts of uct_list.c and uct_list.h. `supply` are the addresses that `uct_palloc` has
-- still to give: it answers with a null pointer when there are none.
use umicat.Base.{
  ℕ, zero, suc, ◌+◌, ◌*◌, ◌≤◌, ◌<◌, ◌≡◌, refl, sym, ap, ◌∙◌, true, false, Option, none, some, List,
  [], ◌∷◌, ◌++◌, ◌==◌, arith, length, Bool-cases, inl, inr,
}
use native.Mathlib.Nat.{mul-le-mul_left}
use mathlib.Core.List.{append_assoc, append-nil}

-- `uct_list_part_t`; its `next` is the part behind it in the list.
pub record Part : Type 0 where
  pub elts : ℕ
  pub nelts : ℕ

-- `uct_list_t`, without its pool: the parts before the last one, and the last.
pub record Parts : Type 0 where
  pub before : List Part
  pub last : Part
  pub size : ℕ
  pub nalloc : ℕ

unfoldable pub list_init : ℕ → ℕ → List ℕ → Option Parts × List ℕ
list_init n size [] = (none, [])
list_init n size (a ∷ supply) = (
  some (record { before = []; last = record { elts = a; nelts = 0 }; size = size; nalloc = n }),
  supply,
)

-- The structure is allocated, and its address is not used further.
unfoldable pub list_create : ℕ → ℕ → List ℕ → Option Parts × List ℕ
list_create n size [] = (none, [])
list_create n size (header ∷ supply) = list_init n size supply

-- The next place of the last part.
unfoldable pub next_place : Parts → Option ℕ × Parts
next_place l = (
  some (l.last.elts + l.size * l.last.nelts),
  record l { last = record (l.last) { nelts = l.last.nelts + 1 } },
)

-- A new part, for its structure and its elements.
unfoldable pub new_part : List ℕ → Parts → Option ℕ × Parts × List ℕ
new_part [] l = (none, l, [])
new_part (header ∷ []) l = (none, l, [])
new_part (header ∷ a ∷ supply) l =
    let (elt, l') =
      next_place
        (record l { before = l.before ++ l.last ∷ []; last = record { elts = a; nelts = 0 } }) in
    (elt, l', supply)

unfoldable pub list_push : List ℕ → Parts → Option ℕ × Parts × List ℕ
list_push supply l = elim (l.last.nelts == l.nalloc) [
  | true ↦ new_part supply l
  | false ↦ let (elt, l') = next_place l in (elt, l', supply)
]

-- The addresses of the elements in use of a part, and of all parts.
unfoldable pub places_from : ℕ → ℕ → ℕ → List ℕ
places_from a size zero = []
places_from a size (suc n) = a ∷ places_from (a + size) size n

unfoldable pub all_places : ℕ → List Part → List ℕ
all_places size [] = []
all_places size (p ∷ ps) = places_from p.elts size p.nelts ++ all_places size ps

unfoldable pub elements : Parts → List ℕ
elements l = all_places l.size (l.before ++ l.last ∷ [])

-- Every part before the last is full, and the last has no more than its elements.
abbrev pub AllFull : ℕ → List Part → Type 0
AllFull n [] = Unit {0}
AllFull n (p ∷ ps) = (p.nelts ≡ n) × AllFull n ps

pub record IsParts (l : Parts) : Type 0 where
  pub some_room : 0 < l.nalloc
  pub full : AllFull l.nalloc l.before
  pub fits : l.last.nelts ≤ l.nalloc

-- A push gives a place behind all others, within its part, or nothing and leaves the list.
abbrev pub Pushed : Parts → List ℕ → Option ℕ → Parts → Type 0
Pushed l supply none l' = (l' ≡ l) × (length supply < 2) × (l.last.nelts ≡ l.nalloc)
Pushed l supply (some a) l' =
    (elements l' ≡ elements l ++ a ∷ [])
    × (l'.last.elts ≤ a)
    × (a + l.size ≤ l'.last.elts + l.size * l.nalloc)

all_places-append :
    (size : ℕ) (ps qs : List Part)
    → all_places size (ps ++ qs) ≡ all_places size ps ++ all_places size qs
unfolding all_places
all_places-append size [] qs = refl
all_places-append size (p ∷ ps) qs =
    ap (λ (l : List ℕ). places_from p.elts size p.nelts ++ l) (all_places-append size ps qs)
    ∙ sym (append_assoc (places_from p.elts size p.nelts) (all_places size ps) (all_places size qs))

places_from-last :
    (a size n : ℕ) → places_from a size (suc n) ≡ places_from a size n ++ (a + size * n) ∷ []
unfolding places_from
places_from-last a size zero = let same : a + size * 0 ≡ a = omega arith in rw same refl
places_from-last a size (suc n) =
    let same : a + size + size * n ≡ a + size * suc n = omega arith in
    ap (λ (l : List ℕ). a ∷ l) (places_from-last (a + size) size n ∙ rw same refl)

AllFull-append :
    (n : ℕ) (ps : List Part) (p : Part) → AllFull n ps → p.nelts ≡ n → AllFull n (ps ++ p ∷ [])
AllFull-append n [] p f e = (e, tt)
AllFull-append n (q ∷ ps) p f e = (f.0, AllFull-append n ps p f.1 e)

elements-eq :
    (l : Parts)
    → elements l ≡ all_places l.size l.before ++ places_from l.last.elts l.size l.last.nelts
unfolding elements all_places
elements-eq l =
    all_places-append l.size l.before (l.last ∷ [])
    ∙ ap (λ (xs : List ℕ). all_places l.size l.before ++ xs)
        (append-nil (places_from l.last.elts l.size l.last.nelts))

next_place-elements :
    (l : Parts)
    → elements (next_place l).1 ≡ elements l ++ (l.last.elts + l.size * l.last.nelts) ∷ []
unfolding next_place
next_place-elements l =
    let e = l.last.elts in
    let n = l.last.nelts in
    let one_more : n + 1 ≡ suc n = omega arith in
    elements-eq (next_place l).1
    ∙ ap (λ (k : ℕ). all_places l.size l.before ++ places_from e l.size k) one_more
    ∙ ap (λ (xs : List ℕ). all_places l.size l.before ++ xs) (places_from-last e l.size n)
    ∙ sym
        (append_assoc (all_places l.size l.before) (places_from e l.size n) ((e + l.size * n) ∷ []))
    ∙ ap (λ (xs : List ℕ). xs ++ (e + l.size * n) ∷ []) (sym (elements-eq l))

-- A new part with no element in use adds none.
new_part-elements :
    (l : Parts) (a : ℕ)
    → elements
        (record l { before = l.before ++ l.last ∷ []; last = record { elts = a; nelts = 0 } })
      ≡ elements l
unfolding elements all_places places_from
new_part-elements l a =
    all_places-append l.size (l.before ++ l.last ∷ []) (record { elts = a; nelts = 0 } ∷ [])
    ∙ append-nil (all_places l.size (l.before ++ l.last ∷ []))

-- A place within a part.
place_fits : (e size k n : ℕ) → k < n → e + size * k + size ≤ e + size * n
place_fits e size k n h =
    let more : size * suc k ≤ size * n = mul-le-mul_left size h in omega (arith, more)

-- For a list with room in a part, whose parts are full up to the last: a push gives the place behind
-- those in use, within the last part, which keeps the form of the list, or it gives none and
-- leaves the list, and that only if the last part is full and the pool cannot give a new one.
pub list_push-Pushed :
    (supply : List ℕ) (l : Parts)
    → IsParts l
    → (let r = list_push supply l in Pushed l supply r.0 r.1 × IsParts r.1)
unfolding list_push new_part next_place
list_push-Pushed supply l v = elim (Bool-cases (l.last.nelts == l.nalloc)) [
  | inr e ↦
      rw (e, list_push)
        (
          (
            next_place-elements l,
            omega arith,
            place_fits l.last.elts l.size l.last.nelts l.nalloc (ground (arith, v.fits)),
          ),
          record { some_room = v.some_room; full = v.full; fits = ground (arith, v.fits) },
        )
  | inl e ↦ rw (e, list_push) (renewed supply l v (ground arith))
]
  where
    renewed :
        (supply : List ℕ) (l : Parts)
        → IsParts l
        → l.last.nelts ≡ l.nalloc
        → (let r = new_part supply l in Pushed l supply r.0 r.1 × IsParts r.1)
    renewed [] l v e = ((refl, omega arith, e), v)
    renewed (header ∷ []) l v e = ((refl, omega arith, e), v)
    renewed (header ∷ a ∷ supply) l v e =
        let l1 : Parts = record l {
          before = l.before ++ l.last ∷ [];
          last = record { elts = a; nelts = 0 };
        } in
        (
          (
            next_place-elements l1
                ∙ ap (λ (xs : List ℕ). xs ++ (a + l.size * 0) ∷ []) (new_part-elements l a),
            omega arith,
            place_fits a l.size 0 l.nalloc v.some_room,
          ),
          record {
            some_room = v.some_room;
            full = AllFull-append l.nalloc l.before l.last v.full e;
            fits = omega (arith, v.some_room);
          },
        )
