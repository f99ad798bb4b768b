-- ===== src/Containers/Chain/Update.antt =====
-- `uct_chain_update_chains` against a description by lists: of the buffers in the busy chain and the
-- one behind it, those up to the first with bytes left go to the free chain or back to the pool.
use umicat.Base.{
  ℕ, ◌≡◌, refl, ap, ◌∙◌, Bool, true, false, not, List, [], ◌∷◌, ◌++◌, ◌==◌, if◌then◌else◌,
  Bool-cases, inl, inr,
}
use mathlib.Core.List.{Perm, perm_middle}
use mathlib.Core.List.Perm
use umicat.Base.Int.{pos, eqb_ℤ}
use umicat.Base.Distinct.{NotIn, Distinct}
use umicat.Containers.Chain.{
  Buf, Link, Store, ChainPool, Chains, write, put, free_chain, buf_size, reset_buf, release_sent,
  chain_update_chains,
}
use umicat.Containers.Chain.Stream.{bufs}

abbrev is_sent : Store → Link → Bool
is_sent st cl = eqb_ℤ (buf_size (st cl.buf)) (pos 0)

-- The links up to the first whose buffer has bytes left, and those from there on.
unfoldable pub done : Store → List Link → List Link
done st [] = []
done st (cl ∷ cls) = let rest = done st cls in if is_sent st cl then cl ∷ rest else []

unfoldable pub left : Store → List Link → List Link
left st [] = []
left st (cl ∷ cls) = let rest = left st cls in if is_sent st cl then rest else cl ∷ cls

-- The links whose buffers have the tag, or have it not, put before others: the last comes first.
unfoldable pub pile : (Link → Bool) → List Link → List Link → List Link
pile test [] onto = onto
pile test (cl ∷ cls) onto = pile test cls (if test cl then cl ∷ onto else onto)

abbrev pub tagged : ℕ → Store → Link → Bool
tagged tag st cl = (st cl.buf).tag == tag

abbrev pub untagged : ℕ → Store → Link → Bool
untagged tag st cl = not ((st cl.buf).tag == tag)

-- What the store holds after the buffers with the tag are reset.
unfoldable pub reset_all : ℕ → List Link → Store → Store
reset_all tag [] st = st
reset_all tag (cl ∷ cls) st =
    reset_all tag cls
      (if (st cl.buf).tag == tag then write cl.buf (reset_buf (st cl.buf)) st else st)

-- A buffer that is written is in no other link, so that the tests on the others are as before.
module _ (a : ℕ) (b : Buf) (st : Store) where
  done-write : (cls : List Link) → NotIn a (bufs cls) → done (write a b st) cls ≡ done st cls
  unfolding done write
  done-write [] n = refl
  done-write (cl ∷ cls) n = rw (n.0, done-write cls n.1) refl

  left-write : (cls : List Link) → NotIn a (bufs cls) → left (write a b st) cls ≡ left st cls
  unfolding left write
  left-write [] n = refl
  left-write (cl ∷ cls) n = rw (n.0, left-write cls n.1) refl

  pile-write :
      (tag : ℕ) (cls onto : List Link)
      → NotIn a (bufs cls)
      → (pile (tagged tag (write a b st)) cls onto ≡ pile (tagged tag st) cls onto)
        × (pile (untagged tag (write a b st)) cls onto ≡ pile (untagged tag st) cls onto)
  unfolding pile write
  pile-write tag [] onto n = (refl, refl)
  pile-write tag (cl ∷ cls) onto n =
      rw n.0 ((pile-write tag cls _ n.1).0, (pile-write tag cls _ n.1).1)

NotIn-done :
    (a : ℕ) (st : Store) (cls : List Link) → NotIn a (bufs cls) → NotIn a (bufs (done st cls))
unfolding done
NotIn-done a st [] n = tt
NotIn-done a st (cl ∷ cls) n = elim (Bool-cases (is_sent st cl)) [
  | inl e ↦ rw (e, done) (n.0, NotIn-done a st cls n.1)
  | inr e ↦ rw (e, done) tt
]

-- What the loop makes of a busy chain, whatever is free already.
pub record Released (tag : ℕ) (free busy : List Link) (p : ChainPool) (r : Chains × ChainPool)
    : Type 0 where
  pub busy_ : r.0.busy ≡ left p.store busy
  pub out_ : r.0.out ≡ []
  pub free_ : r.0.free ≡ pile (tagged tag p.store) (done p.store busy) free
  pub chain_ : r.1.chain ≡ pile (untagged tag p.store) (done p.store busy) p.chain
  pub store_ : r.1.store ≡ reset_all tag (done p.store busy) p.store
  pub supply_ : r.1.supply ≡ p.supply

-- A link whose buffer is sent and has the tag, in front of the others.
Released-tagged :
    (tag : ℕ) (free busy : List Link) (cl : Link) (p : ChainPool) (r : Chains × ChainPool)
    → NotIn cl.buf (bufs busy)
    → is_sent p.store cl ≡ true
    → ((p.store cl.buf).tag == tag) ≡ true
    → Released tag (cl ∷ free) busy (put cl.buf (reset_buf (p.store cl.buf)) p) r
    → Released tag free (cl ∷ busy) p r
unfolding put left done pile reset_all
Released-tagged tag free busy cl p r n e t s =
    let b = reset_buf (p.store cl.buf) in
    let same = done-write cl.buf b p.store busy n in
    let piles = pile-write cl.buf b p.store tag (done p.store busy) in
    let m = NotIn-done cl.buf p.store busy n in
    record {
      busy_ = s.busy_ ∙ rw (e, left) (left-write cl.buf b p.store busy n);
      out_ = s.out_;
      free_ = s.free_ ∙ rw (e, done, pile, t, same) (piles (cl ∷ free) m).0;
      chain_ = s.chain_ ∙ rw (e, done, pile, t, same) (piles p.chain m).1;
      store_ = s.store_ ∙ rw (e, done, reset_all, t, same) refl;
      supply_ = s.supply_;
    }

-- A link whose buffer is sent and has another tag.
Released-untagged :
    (tag : ℕ) (free busy : List Link) (cl : Link) (p : ChainPool) (r : Chains × ChainPool)
    → is_sent p.store cl ≡ true
    → ((p.store cl.buf).tag == tag) ≡ false
    → Released tag free busy (free_chain cl p) r
    → Released tag free (cl ∷ busy) p r
unfolding free_chain left done pile reset_all
Released-untagged tag free busy cl p r e t s = record {
  busy_ = s.busy_ ∙ rw (e, left) refl;
  out_ = s.out_;
  free_ = s.free_ ∙ rw (e, done, pile, t) refl;
  chain_ = s.chain_ ∙ rw (e, done, pile, t) refl;
  store_ = s.store_ ∙ rw (e, done, reset_all, t) refl;
  supply_ = s.supply_;
}

release_sent-Released :
    (tag : ℕ) (free busy : List Link) (p : ChainPool)
    → Distinct (bufs busy)
    → Released tag free busy p (release_sent tag free busy p)
unfolding release_sent done left pile reset_all
release_sent-Released tag free [] p d = record {
  busy_ = refl;
  out_ = refl;
  free_ = refl;
  chain_ = refl;
  store_ = refl;
  supply_ = refl;
}
release_sent-Released tag free (cl ∷ busy) p d = elim (Bool-cases (is_sent p.store cl)) [
  | inr e ↦
      rw (e, release_sent)
        (record {
          busy_ = rw (e, left) refl;
          out_ = refl;
          free_ = rw (e, done) refl;
          chain_ = rw (e, done) refl;
          store_ = rw (e, done) refl;
          supply_ = refl;
        })
  | inl e ↦ elim (Bool-cases ((p.store cl.buf).tag == tag)) [
    | inl t ↦
        rw (e, t, release_sent)
          (Released-tagged tag free busy cl p _ d.0 e t
            (release_sent-Released tag (cl ∷ free) busy _ d.1))
    | inr t ↦
        rw (e, t, release_sent)
          (Released-untagged tag free busy cl p _ e t (release_sent-Released tag free busy _ d.1))
  ]
]

done-left : (st : Store) (cls : List Link) → done st cls ++ left st cls ≡ cls
unfolding done left
done-left st [] = refl
done-left st (cl ∷ cls) = elim (Bool-cases (is_sent st cl)) [
  | inl e ↦ rw (e, done, left) (ap (◌∷◌ cl) (done-left st cls))
  | inr e ↦ rw (e, done, left) refl
]

-- Each link goes to one of the two piles.
piles-Perm :
    (tag : ℕ) (st : Store) (cls f l c : List Link)
    → Perm
        (pile (tagged tag st) cls f ++ (l ++ pile (untagged tag st) cls c))
        (f ++ ((cls ++ l) ++ c))
unfolding pile
piles-Perm tag st [] f l c = Perm.refl _
piles-Perm tag st (cl ∷ cls) f l c = elim (Bool-cases ((st cl.buf).tag == tag)) [
  | inl t ↦
      rw (t, pile)
        (Perm.trans (piles-Perm tag st cls (cl ∷ f) l c)
          (Perm.symm (perm_middle f ((cls ++ l) ++ c))))
  | inr t ↦
      rw (t, pile)
        (Perm.trans (piles-Perm tag st cls f l (cl ∷ c))
          (Perm.append_left f (perm_middle (cls ++ l) c)))
]

-- For busy and new buffers that are all different: the sent ones at the front, up to the first with
-- bytes left, are put on the free chain and reset if they have the tag and given to the pool's
-- chain if not, the last one first; the others stay busy and nothing is left of the new chain. No
-- link is lost or doubled.
pub chain_update_chains_lem :
    (tag : ℕ) (c : Chains) (p : ChainPool)
    → Distinct (bufs (c.busy ++ c.out))
    → Released tag c.free (c.busy ++ c.out) p (chain_update_chains tag c p)
      × (let r = chain_update_chains tag c p in
          Perm (r.0.free ++ (r.0.busy ++ r.1.chain)) (c.free ++ ((c.busy ++ c.out) ++ p.chain)))
unfolding chain_update_chains
chain_update_chains_lem tag c p d =
    let cls = c.busy ++ c.out in
    let r = release_sent-Released tag c.free cls p d in
    (
      r,
      rw (r.free_, r.busy_, r.chain_)
          (rw (done-left p.store cls) at
            (piles-Perm tag p.store (done p.store cls) c.free (left p.store cls) p.chain)),
    )
