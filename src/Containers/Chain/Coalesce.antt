-- ===== src/Containers/Chain/Coalesce.antt =====
-- `uct_chain_coalesce_file`: how much of a file the buffers at the front of a chain cover in one
-- piece.
pub mod Run
use umicat.Base.{
  ℕ, ◌+◌, ◌-◌, ◌*◌, ◌/◌, ◌<◌, ◌≡◌, ◌⊎◌, inl, inr, refl, ap, ◌∙◌, Bool, ◌&&◌, List, [], ◌∷◌, ◌++◌,
  ◌==◌, if◌then◌else◌, arith, Bool-cases, leb→le, ltb→lt,
}
use umicat.Base.Int.{
  ℤ, pos, negsuc, ◌+ℤ◌, ◌-ℤ◌, ◌≤ℤ◌, ◌<ℤ◌, ltb_ℤ, leb_ℤ, eqb_ℤ, sum_ℤ, int_laws, +ℤ_assoc,
}
use native.Mathlib.Nat.{div-mul-le_self, lt-div-mul-add}
use umicat.Containers.Chain.{Buf, Link, Store}

-- The greatest multiple of the page size that is not above: `& ~(uct_pagesize - 1)`, where the page
-- size is a power of two.
abbrev pub align_down : ℕ → ℤ → ℤ
align_down page (pos n) = pos (n / page * page)
align_down page (negsuc n) = negsuc ((n / page + 1) * page - 1)

abbrev pub file_size : Buf → ℤ
file_size b = b.file_last -ℤ b.file_pos

-- What the last buffer counts for, of which `size` bytes are within the limit: up to the end of a
-- page, if the buffer reaches it.
unfoldable pub to_page : ℕ → ℤ → Buf → ℤ
to_page page size b =
    let aligned = align_down page (b.file_pos +ℤ size +ℤ pos page -ℤ pos 1) in
    if leb_ℤ aligned b.file_last then aligned -ℤ b.file_pos else size

-- Whether the next buffer goes on in the same file where the last one ends.
unfoldable pub goes_on : ℕ → ℤ → Buf → Bool
goes_on fd fprev b = b.in_file && (fd == b.fd && eqb_ℤ fprev b.file_pos)

-- The loop at the link `cl`, with `in_` behind it: the total and what `*in` is set to.
unfoldable pub coalesce : ℕ → ℤ → ℕ → Store → ℤ → Link → List Link → ℤ × List Link
coalesce page limit fd st total cl [] =
    let b = st cl.buf in
    if ltb_ℤ (limit -ℤ total) (file_size b)
    then (total +ℤ to_page page (limit -ℤ total) b, cl ∷ [])
    else (total +ℤ file_size b, [])
coalesce page limit fd st total cl (next ∷ in_) =
    let b = st cl.buf in
    let total' = total +ℤ file_size b in
    let rest = coalesce page limit fd st total' next in_ in
    if ltb_ℤ (limit -ℤ total) (file_size b)
    then (total +ℤ to_page page (limit -ℤ total) b, cl ∷ next ∷ in_)
    else (if goes_on fd (b.file_pos +ℤ file_size b) (st next.buf) && ltb_ℤ total' limit
        then rest
        else (total', next ∷ in_))

-- The first link is read before any test.
unfoldable pub chain_coalesce_file : ℕ → Store → Link → List Link → ℤ → ℤ × List Link
chain_coalesce_file page st cl in_ limit = coalesce page limit (st cl.buf).fd st (pos 0) cl in_
