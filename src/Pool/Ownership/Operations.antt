-- ===== src/Pool/Ownership/Operations.antt =====
-- The balance of freeing and resetting, and of any operations one after the other.
use umicat.Base.{
  ℕ, ◌+◌, ◌≡◌, refl, ap, ◌∙◌, sym, List, [], ◌∷◌, Option, none, some, ◌==◌, arith, Bool-cases,
  Option-cases, inl, inr, ==_iff,
}
use mathlib.Core.Option.{some-injective}
use umicat.Pool.{
  Block, Pool, Outcome, drop_large, pfree, large_blocks, bases, reset_blocks, reset_pool, Op, alloc,
  nalloc, memalign, free, reset, perform, perform_all,
}
use umicat.Pool.Ownership.{
  count, count-append, Balances, count-destroy, palloc-Balances, pnalloc-Balances,
  pmemalign-Balances,
}

-- What the chain has and what was freed, together.
after_drop : ℕ → List ℕ × List (Option ℕ) → ℕ
after_drop x r = count x (large_blocks r.1) + count x r.0

count-drop_large :
    (x p : ℕ) (ls : List (Option ℕ)) (r : List ℕ × List (Option ℕ))
    → drop_large p ls ≡ some r
    → after_drop x r ≡ count x (large_blocks ls)
unfolding drop_large large_blocks after_drop
count-drop_large x p [] r e = absurd (cc e)
count-drop_large x p (none ∷ ls) r e = elim (Bool-cases (p == 0)) [
  | inl null ↦ ap (after_drop x) (sym (some-injective _ _ (rw null at e))) ∙ omega arith
  | inr other ↦ elim (Option-cases (drop_large p ls)) [
    | inl f ↦ absurd (cc (rw (other, f) at e))
    | inr (m, f) ↦
        ap (after_drop x) (sym (some-injective _ _ (rw (other, f) at e)))
        ∙ count-drop_large x p ls m f
  ]
]
count-drop_large x p (some q ∷ ls) r e = elim (Bool-cases (p == q)) [
  | inl same ↦
      let same' : p ≡ q = (==_iff p q).0 same in
      ap (after_drop x) (sym (some-injective _ _ (rw same at e)))
      ∙ omega (arith, ap (λ y. count x (y ∷ [])) same')
  | inr other ↦ elim (Option-cases (drop_large p ls)) [
    | inl f ↦ absurd (cc (rw (other, f) at e))
    | inr (m, f) ↦
        ap (after_drop x) (sym (some-injective _ _ (rw (other, f) at e)))
        ∙ omega (arith, count-drop_large x p ls m f)
  ]
]

free-Balances : (x : ℕ) (pool : Pool) (p : ℕ) → Balances x pool (perform (free p) pool)
unfolding perform pfree after_drop
free-Balances x pool p = elim (Option-cases (drop_large p pool.large)) [
  | inl e ↦ rw (e, pfree) refl
  | inr (r, e) ↦
      rw (e, pfree)
        (omega (
          arith,
          count-destroy x (record pool { large = r.1 }),
          count-destroy x pool,
          count-drop_large x p pool.large r e,
        ))
]

bases-reset_blocks : (bs : List Block) → bases (reset_blocks bs) ≡ bases bs
unfolding bases reset_blocks
bases-reset_blocks [] = refl
bases-reset_blocks (b ∷ bs) = ap (λ xs. b.base ∷ xs) (bases-reset_blocks bs)

reset-Balances : (x : ℕ) (pool : Pool) → Balances x pool (perform reset pool)
unfolding perform reset_pool large_blocks
reset-Balances x pool = omega (
  arith,
  count-destroy x (reset_pool pool).0,
  count-destroy x pool,
  ap (count x) (bases-reset_blocks pool.blocks),
)

perform-Balances : (x : ℕ) (op : Op) (pool : Pool) → Balances x pool (perform op pool)
unfolding perform
perform-Balances x (alloc size got fresh) pool = palloc-Balances x pool size got fresh
perform-Balances x (nalloc size got fresh) pool = pnalloc-Balances x pool size got fresh
perform-Balances x (memalign got fresh) pool = pmemalign-Balances x pool got fresh
perform-Balances x (free p) pool = free-Balances x pool p
perform-Balances x reset pool = reset-Balances x pool

-- No memory is lost and none is freed twice: over any operations on a pool, whatever the system
-- answers, each address is freed by them and by destroying the pool that they leave exactly as often
-- as it was taken from the system by them, or would have been freed before them.
pub perform_all-Balances :
    (x : ℕ) (ops : List Op) (pool : Pool) → Balances x pool (perform_all ops pool)
unfolding perform_all
perform_all-Balances x [] pool = refl
perform_all-Balances x (op ∷ ops) pool =
    let o : Outcome = perform op pool in
    let rest : Outcome = perform_all ops o.pool in
    omega (
      arith,
      perform-Balances x op pool,
      perform_all-Balances x ops o.pool,
      count-append x o.taken rest.taken,
      count-append x o.freed rest.freed,
    )
