-- ===== src/Containers/Chain/Coalesce/Run.antt =====
-- The total that `uct_chain_coalesce_file` counts, against the run of the file from the first buffer on.
use umicat.Base.{
  ℕ, ◌+◌, ◌*◌, ◌/◌, ◌<◌, ◌≡◌, ◌⊎◌, inl, inr, refl, ap, ◌∙◌, List, [], ◌∷◌, ◌++◌, if◌then◌else◌,
  arith, Bool-cases, leb→le, ltb→lt,
}
use umicat.Base.Int.{
  ℤ, pos, negsuc, ◌+ℤ◌, ◌-ℤ◌, ◌≤ℤ◌, ◌<ℤ◌, ltb_ℤ, leb_ℤ, sum_ℤ, int_laws, +ℤ_assoc,
}
use native.Mathlib.Nat.{div-mul-le_self, lt-div-mul-add}
use umicat.Containers.Chain.{Buf, Link, Store}
use umicat.Containers.Chain.Coalesce.{
  align_down, file_size, to_page, goes_on, coalesce, chain_coalesce_file,
}

-- The bytes of the file from the first buffer on that the buffers cover without a gap.
unfoldable pub run : ℕ → Store → Link → List Link → ℤ
run fd st cl [] = file_size (st cl.buf)
run fd st cl (next ∷ in_) =
    let b = st cl.buf in
    let rest = run fd st next in_ in
    if goes_on fd (b.file_pos +ℤ file_size b) (st next.buf)
    then file_size b +ℤ rest
    else file_size b

-- No buffer's part of its file ends before it begins.
abbrev pub InOrder : Store → List Link → Type 0
InOrder st [] = Unit {0}
InOrder st (cl ∷ cls) = (pos 0 ≤ℤ file_size (st cl.buf)) × InOrder st cls

-- What the call may give, with `total` counted already and `most` the bytes in one piece from there.
pub record Coalesced (page : ℕ) (limit total most : ℤ) (st : Store) (cls : List Link)
    (r : ℤ × List Link) : Type 0 where
  pub covered : r.0 ≤ℤ total +ℤ most
  pub limited : r.0 <ℤ limit +ℤ pos page
  pub enough : (limit ≤ℤ r.0) ⊎ (r.0 ≡ total +ℤ most)
  pub front : List Link
  pub split : front ++ r.1 ≡ cls
  pub whole : total +ℤ sum_ℤ (λ cl. file_size (st cl.buf)) front ≤ℤ r.0

align_down_lem :
    (page : ℕ) (x : ℤ) → 0 < page → (align_down page x ≤ℤ x) × (x <ℤ align_down page x +ℤ pos page)
align_down_lem page (pos n) h =
    let below = div-mul-le_self n page in
    let above : n < n / page * page + page = lt-div-mul-add h in
    (omega (arith, below), omega (int_laws, above))
align_down_lem page (negsuc n) h =
    let below = div-mul-le_self n page in
    let above : n < n / page * page + page = lt-div-mul-add h in
    let next : (n / page + 1) * page ≡ n / page * page + page = omega arith in
    (omega (arith, above, next), omega (int_laws, below, next, h))

to_page_lem :
    (page : ℕ) (size : ℤ) (b : Buf)
    → 0 < page
    → size <ℤ file_size b
    → (size ≤ℤ to_page page size b)
      × (to_page page size b ≤ℤ file_size b)
      × (to_page page size b <ℤ size +ℤ pos page)
unfolding to_page
to_page_lem page size b h l =
    let x = b.file_pos +ℤ size +ℤ pos page -ℤ pos 1 in
    let (below, above) = align_down_lem page x h in
    elim (Bool-cases (leb_ℤ (align_down page x) b.file_last)) [
      | inl e ↦
          let fits : align_down page x ≤ℤ b.file_last = leb→le _ _ e in
          rw e (omega (int_laws, above), omega (int_laws, fits), omega (int_laws, below))
      | inr e ↦ rw e (omega arith, omega (arith, l), omega (int_laws, h))
    ]

-- The last buffer is only taken in part.
Coalesced-part :
    (page : ℕ) (limit total : ℤ) (st : Store) (cl : Link) (in_ : List Link) (most : ℤ)
    → 0 < page
    → total ≤ℤ limit
    → file_size (st cl.buf) ≤ℤ most
    → limit -ℤ total <ℤ file_size (st cl.buf)
    → Coalesced page limit total most st
        (cl ∷ in_)
        (total +ℤ to_page page (limit -ℤ total) (st cl.buf), cl ∷ in_)
unfolding sum_ℤ
Coalesced-part page limit total st cl in_ most h t m l =
    let (least, greatest, near) = to_page_lem page (limit -ℤ total) (st cl.buf) h l in
    record {
      covered = omega (int_laws, greatest, m);
      limited = omega (int_laws, near);
      enough = inl (omega (int_laws, least));
      front = [];
      split = refl;
      whole = omega (int_laws, least, t);
    }

-- The buffer is counted whole and the loop ends behind it.
Coalesced-end :
    (page : ℕ) (limit total : ℤ) (st : Store) (cl : Link) (in_ : List Link) (most : ℤ)
    → 0 < page
    → file_size (st cl.buf) ≤ℤ limit -ℤ total
    → file_size (st cl.buf) ≤ℤ most
    → (limit ≤ℤ total +ℤ file_size (st cl.buf)) ⊎ (most ≡ file_size (st cl.buf))
    → Coalesced page limit total most st (cl ∷ in_) (total +ℤ file_size (st cl.buf), in_)
unfolding sum_ℤ
Coalesced-end page limit total st cl in_ most h l m e = record {
  covered = omega (int_laws, m);
  limited = omega (int_laws, l, h);
  enough = elim e [ inl full ↦ inl full | inr same ↦ inr (rw same refl) ];
  front = cl ∷ [];
  split = refl;
  whole = omega int_laws;
}

Coalesced-next :
    (page : ℕ) (limit total : ℤ) (st : Store) (cl : Link) (in_ : List Link) (most : ℤ)
    (r : ℤ × List Link)
    → Coalesced page limit (total +ℤ file_size (st cl.buf)) most st in_ r
    → Coalesced page limit total (file_size (st cl.buf) +ℤ most) st (cl ∷ in_) r
unfolding sum_ℤ
Coalesced-next page limit total st cl in_ most r c =
    let size = file_size (st cl.buf) in
    let same : total +ℤ size +ℤ most ≡ total +ℤ (size +ℤ most) = +ℤ_assoc total size most in
    record {
      covered = omega (int_laws, c.covered);
      limited = c.limited;
      enough = elim c.enough [ inl full ↦ inl full | inr all ↦ inr (all ∙ same) ];
      front = cl ∷ c.front;
      split = ap (◌∷◌ cl) c.split;
      whole = omega (int_laws, c.whole);
    }

run_nonneg :
    (fd : ℕ) (st : Store) (cl : Link) (in_ : List Link)
    → InOrder st (cl ∷ in_)
    → (pos 0 ≤ℤ run fd st cl in_) × (file_size (st cl.buf) ≤ℤ run fd st cl in_)
unfolding run
run_nonneg fd st cl [] s = (s.0, omega arith)
run_nonneg fd st cl (next ∷ in_) s =
    let b = st cl.buf in
    let rest = (run_nonneg fd st next in_ s.1).0 in
    elim (Bool-cases (goes_on fd (b.file_pos +ℤ file_size b) (st next.buf))) [
      | inl g ↦ rw (g, run) (omega (int_laws, rest, s.0), omega (int_laws, rest))
      | inr g ↦ rw (g, run) (s.0, omega arith)
    ]

coalesce-Coalesced :
    (page fd : ℕ) (limit total : ℤ) (st : Store) (cl : Link) (in_ : List Link)
    → 0 < page
    → total ≤ℤ limit
    → InOrder st (cl ∷ in_)
    → Coalesced page limit total
        (run fd st cl in_)
        st
        (cl ∷ in_)
        (coalesce page limit fd st total cl in_)
unfolding coalesce run
coalesce-Coalesced page fd limit total st cl [] h t s =
    let b = st cl.buf in
    elim (Bool-cases (ltb_ℤ (limit -ℤ total) (file_size b))) [
      | inl l ↦
          rw l (
            Coalesced-part page limit total st cl [] (file_size b) h t (omega arith) (ltb→lt _ _ l))
      | inr l ↦ rw l (
          Coalesced-end page limit total st cl [] (file_size b) h (ground arith) (omega arith)
            (inr refl))
    ]
coalesce-Coalesced page fd limit total st cl (next ∷ in_) h t s =
    let b = st cl.buf in
    let total' = total +ℤ file_size b in
    let most = (run_nonneg fd st cl (next ∷ in_) s).1 in
    elim (Bool-cases (ltb_ℤ (limit -ℤ total) (file_size b))) [
      | inl l ↦
          rw (l, coalesce)
            (Coalesced-part page limit total st cl (next ∷ in_) _ h t most (ltb→lt _ _ l))
      | inr l ↦
          let room : file_size b ≤ℤ limit -ℤ total = ground arith in
          let under : total' ≤ℤ limit = omega (int_laws, room) in
          elim (Bool-cases (goes_on fd (b.file_pos +ℤ file_size b) (st next.buf))) [
            | inr g ↦
                rw (l, g, coalesce, run)
                  (Coalesced-end page limit total st cl (next ∷ in_) (file_size b) h room
                    (omega arith) (inr refl))
            | inl g ↦ elim (Bool-cases (ltb_ℤ total' limit)) [
              | inr f ↦
                  let full : limit ≤ℤ total' = ground arith in
                  let more : file_size b ≤ℤ file_size b +ℤ run fd st next in_ =
                    omega (int_laws, (run_nonneg fd st next in_ s.1).0) in
                  rw (l, g, f, coalesce, run)
                    (Coalesced-end page limit total st cl (next ∷ in_)
                      (file_size b +ℤ run fd st next in_) h room more (inl full))
              | inl f ↦
                  rw (l, g, f, coalesce, run)
                    (Coalesced-next page limit total st cl (next ∷ in_) _ _
                      (coalesce-Coalesced page fd limit total' st next in_ h under s.1))
            ]
          ]
    ]

-- For a page size and a limit of zero or more, and buffers that do not end before they begin: the
-- total that the call gives is at most what the buffers cover in one piece, and less than a page
-- above the limit; it is all that they cover in one piece or reaches the limit. The chain that it
-- leaves is behind links whose parts of the file are within the total.
pub chain_coalesce_file-Coalesced :
    (page limit : ℕ) (st : Store) (cl : Link) (in_ : List Link)
    → 0 < page
    → InOrder st (cl ∷ in_)
    → Coalesced page
        (pos limit)
        (pos 0)
        (run (st cl.buf).fd st cl in_)
        st
        (cl ∷ in_)
        (chain_coalesce_file page st cl in_ (pos limit))
unfolding chain_coalesce_file
chain_coalesce_file-Coalesced page limit st cl in_ h s =
    coalesce-Coalesced page (st cl.buf).fd (pos limit) (pos 0) st cl in_ h (omega arith) s
