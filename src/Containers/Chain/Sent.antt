-- ===== src/Containers/Chain/Sent.antt =====
-- What `uct_chain_update_sent` leaves of a chain: the bytes behind those that were sent.
use umicat.Base.{
  ℕ, ◌-◌, ◌≤◌, ◌≡◌, refl, sym, ap, ◌∙◌, false, List, [], ◌∷◌, ◌++◌, drop, drop_nil,
  drop-append_long, drop-append_short, arith, Bool-cases, inl, inr,
}
use umicat.Base.Int.{ℤ, pos, ◌-ℤ◌, pos_part, eqb_ℤ, leb_ℤ}
use umicat.Base.Distinct.{NotIn, Distinct}
use umicat.Containers.Chain.{
  Link, Store, write, buf_special, buf_size, sent_all, sent_some, chain_update_sent,
}
use umicat.Containers.Chain.Stream.{
  unsent, stream, bufs, IsSound, AllSound, AllSound-write, stream-write, unsent_special, write_self,
  write_other, length-unsent, unsent-sent_all, unsent-sent_some, sub_size,
}

-- Buffers out of the chain stay as they are.
pub chain_update_sent-outside :
    (cls : List Link) (sent : ℤ) (st : Store) (a : ℕ)
    → NotIn a (bufs cls)
    → (chain_update_sent cls sent st).1 a ≡ st a
unfolding chain_update_sent
chain_update_sent-outside [] k st a n = refl
chain_update_sent-outside (cl ∷ cls) k st a n =
    let b = st cl.buf in
    elim (Bool-cases (buf_special b)) [
      | inl e ↦ rw (e, chain_update_sent) (chain_update_sent-outside cls k st a n.1)
      | inr e ↦ elim (Bool-cases (eqb_ℤ k (pos 0))) [
        | inl z ↦ rw (e, z, chain_update_sent) refl
        | inr z ↦ elim (Bool-cases (leb_ℤ (buf_size b) k)) [
          | inl l ↦
              rw (e, z, l, chain_update_sent)
                (chain_update_sent-outside cls (k -ℤ buf_size b) _ a n.1
                  ∙ write_other cl.buf (sent_all b) st a n.0)
          | inr l ↦ rw (e, z, l, chain_update_sent) (write_other cl.buf (sent_some k b) st a n.0)
        ]
      ]
    ]

-- A chain whose front is sent: of the bytes, `k` are gone, and the chain goes on behind them.
pub record Sent (k : ℕ) (cls : List Link) (st : Store) (r : List Link × Store) : Type 0 where
  pub front : List Link
  pub split : front ++ r.0 ≡ cls
  pub drained : stream r.1 front ≡ []
  pub left : stream r.1 r.0 ≡ drop k (stream st cls)

Sent-cons :
    (k j : ℕ) (cl : Link) (cls : List Link) (st st' : Store) (r : List Link × Store)
    → unsent (r.1 cl.buf) ≡ []
    → drop k (stream st (cl ∷ cls)) ≡ drop j (stream st' cls)
    → Sent j cls st' r
    → Sent k (cl ∷ cls) st r
unfolding stream
Sent-cons k j cl cls st st' r e d s = record {
  front = cl ∷ s.front;
  split = ap (◌∷◌ cl) s.split;
  drained = rw e s.drained;
  left = s.left ∙ sym d;
}

Sent-nothing :
    (k : ℕ) (cls : List Link) (st : Store)
    → drop k (stream st cls) ≡ stream st cls
    → Sent k cls st (cls, st)
unfolding stream
Sent-nothing k cls st e = record { front = []; split = refl; drained = refl; left = sym e }

-- The buffer at the front is sent whole, and `sent` is not less than what it has.
module _ (k : ℕ) (cl : Link) (cls : List Link) (st : Store) (n : NotIn cl.buf (bufs cls))
    (s : IsSound (st cl.buf)) (e : buf_special (st cl.buf) ≡ false) where
  drop_whole :
      pos_part (buf_size (st cl.buf)) ≤ k
      → drop k (stream st (cl ∷ cls))
        ≡ drop
            (k - pos_part (buf_size (st cl.buf)))
            (stream (write cl.buf (sent_all (st cl.buf)) st) cls)
  unfolding stream
  drop_whole l =
      let size = length-unsent (st cl.buf) e in
      drop-append_long k (unsent (st cl.buf)) (stream st cls) (omega (arith, size))
      ∙ rw (size, stream-write st cl.buf (sent_all (st cl.buf)) cls n) refl

  Sent-part :
      leb_ℤ (buf_size (st cl.buf)) (pos k) ≡ false
      → Sent k (cl ∷ cls) st (cl ∷ cls, write cl.buf (sent_some (pos k) (st cl.buf)) st)
  unfolding stream
  Sent-part l =
      let b = st cl.buf in
      let size = length-unsent b e in
      let more : k ≤ pos_part (buf_size b) = ground (arith, s.sized) in
      record {
        front = [];
        split = refl;
        drained = refl;
        left =
            rw
              (
                write_self cl.buf (sent_some (pos k) b) st,
                stream-write st cl.buf (sent_some (pos k) b) cls n,
                unsent-sent_some b k s e l,
              )
              (sym (drop-append_short k (unsent b) (stream st cls) (omega (arith, size, more))));
      }

-- For a chain of sound buffers, no two of them the same: the call gives the rest of the chain, and
-- the bytes that are left to send in it are those of the whole chain without the first `sent`; the
-- buffers before it have none left.
pub chain_update_sent-Sent :
    (cls : List Link) (sent : ℕ) (st : Store)
    → Distinct (bufs cls)
    → AllSound st cls
    → Sent sent cls st (chain_update_sent cls (pos sent) st)
unfolding chain_update_sent stream
chain_update_sent-Sent [] k st d s = Sent-nothing k [] st (drop_nil k)
chain_update_sent-Sent (cl ∷ cls) k st d s =
    let b = st cl.buf in
    let st1 = write cl.buf (sent_all b) st in
    elim (Bool-cases (buf_special b)) [
      | inl e ↦
          rw (e, chain_update_sent)
            (Sent-cons k k cl cls st st _
              (rw (chain_update_sent-outside cls (pos k) st cl.buf d.0) (unsent_special b e))
              (rw (stream, unsent_special b e) refl) (chain_update_sent-Sent cls k st d.1 s.1))
      | inr e ↦ elim (Bool-cases (eqb_ℤ (pos k) (pos 0))) [
        | inl z ↦
            let none_ : k ≡ 0 = ground arith in
            rw (e, z, chain_update_sent) (Sent-nothing k (cl ∷ cls) st (rw none_ refl))
        | inr z ↦ elim (Bool-cases (leb_ℤ (buf_size b) (pos k))) [
          | inl l ↦
              let enough : pos_part (buf_size b) ≤ k = ground (arith, s.0.sized) in
              rw (e, z, l, chain_update_sent, sub_size (buf_size b) k s.0.sized enough)
                (Sent-cons k (k - pos_part (buf_size b)) cl cls st st1 _
                  (rw
                    (
                      chain_update_sent-outside cls (pos (k - pos_part (buf_size b))) st1 cl.buf
                          d.0,
                      write_self cl.buf (sent_all b) st,
                    )
                    (unsent-sent_all b s.0 e))
                  (drop_whole k cl cls st d.0 s.0 e enough)
                  (chain_update_sent-Sent cls (k - pos_part (buf_size b)) st1 d.1
                    (AllSound-write st cl.buf (sent_all b) cls d.0 s.1)))
          | inr l ↦ rw (e, z, l, chain_update_sent) (Sent-part k cl cls st d.0 s.0 e l)
        ]
      ]
    ]
