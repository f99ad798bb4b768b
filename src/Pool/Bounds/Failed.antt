-- ===== src/Pool/Bounds/Failed.antt =====
-- The failures that the blocks count keep them in shape.
use umicat.Base.{ℕ, zero, suc, ◌+◌, ◌≡◌, refl, ap, List, [], ◌∷◌, arith, length}
use umicat.Base.Word.{add64}
use umicat.Pool.{Block, count_failed}
use umicat.Pool.Bounds.{IsBlock, AllBlocks, Grows, Grows-refl}

-- The count of failures leaves the blocks as they are.
pub record Counted (psize : ℕ) (bs cs : List Block) : Type 0 where
  pub blocks : AllBlocks psize cs
  pub grows : Grows bs cs
  pub longer : length cs ≡ length bs

Counted-cons :
    (psize : ℕ) (b : Block) (failed : ℕ) (bs cs : List Block)
    → IsBlock psize b
    → Counted psize bs cs
    → Counted psize (b ∷ bs) (record b { failed = failed } ∷ cs)
Counted-cons psize b failed bs cs v s = record {
  blocks = (
    record {
      aligned = v.aligned;
      whole = v.whole;
      word = v.word;
      above = v.above;
      inside = v.inside;
    },
    s.blocks,
  );
  grows = (refl, refl, omega arith, s.grows);
  longer = ap suc s.longer;
}

pub count_failed-Counted :
    (psize i skip current : ℕ) (bs : List Block)
    → AllBlocks psize bs
    → Counted psize bs (count_failed i skip current bs).1
unfolding count_failed
count_failed-Counted psize i zero current [] v = record { blocks = tt; grows = tt; longer = refl }
count_failed-Counted psize i (suc skip) current [] v = record {
  blocks = tt;
  grows = tt;
  longer = refl;
}
count_failed-Counted psize i (suc skip) current (b ∷ bs) v =
    Counted-cons psize b b.failed bs _ v.0 (count_failed-Counted psize (i + 1) skip current bs v.1)
count_failed-Counted psize i zero current (b ∷ []) v = record {
  blocks = v;
  grows = Grows-refl (b ∷ []);
  longer = refl;
}
count_failed-Counted psize i zero current (b ∷ c ∷ bs) v =
    Counted-cons psize b (add64 b.failed 1) (c ∷ bs) _ v.0
      (count_failed-Counted psize (i + 1) zero _ (c ∷ bs) v.1)
