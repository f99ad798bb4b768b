-- ===== src/Connection/Read.antt =====
-- `uct_readn` (src/uct_socket.c) over what a non-blocking socket has to deliver.
use umicat.Base.{
  ℕ, zero, suc, ◌+◌, ◌-◌, ◌≤◌, ◌<◌, ◌≡◌, refl, ap, ◌∙◌, ◌⊎◌, inl, inr, List, [], ◌∷◌, ◌++◌, arith,
  dec_lt, length, take, drop, if◌then◌else◌, leb, take-append-drop, length-append, length-take,
  length-drop, sym, true, false,
}
use mathlib.Core.List.{append_assoc}
use umicat.Base.Int.{ℤ, pos, negsuc}

-- `errno` as the code tells it apart: not set, EINTR, EWOULDBLOCK or EAGAIN, any other.
pub data Errno : Type 0 where
  unset intr again failed : Errno

-- What a socket delivers: bytes, which read takes up to the number it asks for, or an error. An
-- empty chunk is the end of the stream, which stays. A socket with nothing left answers EAGAIN.
pub data Arrival : Type 0 where
  chunk : List ℕ → Arrival
  error : Errno → Arrival

-- The value of `uct_readn`, what it put into the buffer, the errno it left, and what the socket
-- still has.
pub record Reading : Type 0 where
  pub ret : ℤ
  pub buf : List ℕ
  pub errno : Errno
  pub rest : List Arrival

-- `uct_readn` of `n` bytes with `nleft` of them still wanted.
unfoldable pub readn : ℕ → ℕ → Errno → List Arrival → Reading
readn n zero e arrivals = record { ret = pos n; buf = []; errno = e; rest = arrivals }
readn n (suc k) e [] = record { ret = pos (n - suc k); buf = []; errno = again; rest = [] }
readn n (suc k) e (chunk [] ∷ more) = record {
  ret = pos (n - suc k);
  buf = [];
  errno = unset;
  rest = chunk [] ∷ more;
}
readn n (suc k) e (chunk (b ∷ bs) ∷ more) =
    let r = readn n (k - length bs) unset more in
    if leb (length bs) k then record r { buf = b ∷ (bs ++ r.buf) } else record {
      ret = pos n;
      buf = take (suc k) (b ∷ bs);
      errno = unset;
      rest = chunk (drop (suc k) (b ∷ bs)) ∷ more;
    }
readn n (suc k) e (error intr ∷ more) = readn n (suc k) intr more
readn n (suc k) e (error again ∷ more) = record {
  ret = pos (n - suc k);
  buf = [];
  errno = again;
  rest = more;
}
readn n (suc k) e (error e' ∷ more) = record { ret = negsuc 0; buf = []; errno = e'; rest = more }

-- The bytes that a socket delivers before the end of its stream.
abbrev pub content : List Arrival → List ℕ
content [] = []
content (chunk [] ∷ more) = []
content (chunk (b ∷ bs) ∷ more) = b ∷ (bs ++ content more)
content (error e ∷ more) = content more

-- No read fails, but for EINTR and EAGAIN.
abbrev pub IsReadable : List Arrival → Type 0
IsReadable [] = Unit {0}
IsReadable (chunk bs ∷ more) = IsReadable more
IsReadable (error intr ∷ more) = IsReadable more
IsReadable (error again ∷ more) = IsReadable more
IsReadable (error unset ∷ more) = ⊥
IsReadable (error failed ∷ more) = ⊥

-- A reading that did not fail: it returns how many bytes it put into the buffer, at most as many as
-- were wanted, and those and what the socket still has are what it had.
pub record Reads (n k : ℕ) (arrivals : List Arrival) (r : Reading) : Type 0 where
  pub count : r.ret ≡ pos (n - k + length r.buf)
  pub fits : length r.buf ≤ k
  pub bytes : r.buf ++ content r.rest ≡ content arrivals
  pub readable : IsReadable r.rest
  pub stop : (length r.buf ≡ k) ⊎ ((r.errno ≡ again) ⊎ ((r.errno ≡ unset) × (content r.rest ≡ [])))

content-chunk :
    (bs : List ℕ) (more : List Arrival)
    → 0 < length bs
    → content (chunk bs ∷ more) ≡ bs ++ content more
content-chunk [] more h = absurd (omega arith)
content-chunk (b ∷ bs) more h = refl

-- A call that puts nothing into the buffer.
nothing :
    (n k : ℕ) (e : Errno) (arrivals rest : List Arrival)
    → k ≤ n
    → IsReadable rest
    → content rest ≡ content arrivals
    → (0 ≡ k) ⊎ ((e ≡ again) ⊎ ((e ≡ unset) × (content rest ≡ [])))
    → Reads n k arrivals (record { ret = pos (n - k); buf = []; errno = e; rest = rest })
nothing n k e arrivals rest h v c s = record {
  count = ap pos (omega arith);
  fits = omega arith;
  bytes = c;
  readable = v;
  stop = s;
}

take_all : (bs : List ℕ) (k : ℕ) → k < length bs → length (take k bs) ≡ k
take_all bs k h = omega (arith, length-take k bs)

-- If no read fails, but for EINTR and EAGAIN, `uct_readn` with `k` of `n` bytes still wanted counts
-- the bytes that it put into the buffer, at most as many as were wanted, loses none, makes none up
-- and keeps their order. It stops when the buffer is full, with EAGAIN, or with no error at the end
-- of the stream.
pub readn-Reads :
    (n k : ℕ) (e : Errno) (arrivals : List Arrival)
    → k ≤ n
    → IsReadable arrivals
    → Reads n k arrivals (readn n k e arrivals)
unfolding readn
readn-Reads n zero e arrivals h v = record {
  count = ap pos (omega arith);
  fits = omega arith;
  bytes = refl;
  readable = v;
  stop = inl refl;
}
readn-Reads n (suc k) e [] h v = nothing n (suc k) again [] [] h v refl (inr (inl refl))
readn-Reads n (suc k) e (chunk [] ∷ more) h v =
    nothing n (suc k) unset _ (chunk [] ∷ more) h v refl (inr (inr (refl, refl)))
readn-Reads n (suc k) e (chunk (b ∷ bs) ∷ more) h v = elim (dec_lt k (length bs)) [
  | no fits ↦
      let t : leb (length bs) k ≡ true = ground arith in
      let r : Reading = readn n (k - length bs) unset more in
      let ih = readn-Reads n (k - length bs) unset more (omega arith) v in
      rw t (record {
        count = ih.count ∙ ap pos (omega (arith, length-append bs r.buf));
        fits = omega (arith, ih.fits, length-append bs r.buf);
        bytes = ap (λ xs. b ∷ xs) (append_assoc bs _ _ ∙ ap (λ xs. bs ++ xs) ih.bytes);
        readable = ih.readable;
        stop = elim ih.stop [
          | inl full ↦ inl (omega (arith, length-append bs r.buf))
          | inr idle ↦ inr idle
        ];
      })
  | yes over ↦
      let t : leb (length bs) k ≡ false = ground arith in
      rw t (record {
        count = ap pos (omega (arith, take_all bs k over));
        fits = omega (arith, take_all bs k over);
        bytes =
            ap (λ xs. b ∷ xs)
              (ap (λ xs. take k bs ++ xs)
                  (content-chunk (drop k bs) more (omega (arith, length-drop k bs)))
                ∙ sym (append_assoc (take k bs) (drop k bs) (content more))
                ∙ ap (λ xs. xs ++ content more) (take-append-drop k bs));
        readable = v;
        stop = inl (ap suc (take_all bs k over));
      })
]
readn-Reads n (suc k) e (error intr ∷ more) h v =
    let r = readn-Reads n (suc k) intr more h v in
    record { count = r.count; fits = r.fits; bytes = r.bytes; readable = r.readable; stop = r.stop }
readn-Reads n (suc k) e (error again ∷ more) h v =
    nothing n (suc k) again _ more h v refl (inr (inl refl))
readn-Reads n (suc k) e (error unset ∷ more) h v = elim v [ ]
readn-Reads n (suc k) e (error failed ∷ more) h v = elim v [ ]
