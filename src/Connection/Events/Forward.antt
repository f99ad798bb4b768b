-- ===== src/Connection/Events/Forward.antt =====
-- What the loop of uct_connection.c relays from one socket to the other.
use umicat.Base.{
  ℕ, zero, suc, ◌+◌, ◌-◌, ◌^◌, ◌≤◌, ◌<◌, ◌≡◌, refl, ap, ◌∙◌, ◌⊎◌, inl, inr, List, [], ◌∷◌, ◌++◌,
  arith, length, leb, ◌==◌, length-append, true, false, dec_lt, sym, some,
}
use mathlib.Core.List.{append_assoc}
use umicat.Base.Int.{pos}
use umicat.Base.Word.{add64, to_u64, add64-eq-add}
use umicat.Connection.Read.{
  Errno, unset, again, failed, Arrival, error, Reading, readn, content, IsReadable, Reads,
  readn-Reads,
}
use umicat.Sockets.Write.{Write, Writing, IsWritable, takes, writen, Writes, writen-Writes}
use umicat.Connection.Events.{Relay, done, overrun, relayed, relay, buf_size}

-- The loop ended by itself. The bytes `taken` from the socket and those that it still has are what it
-- had; the traffic is the number of bytes taken; if no write failed they were all sent; and the loop
-- ended with EAGAIN or at the end of the stream.
pub data Relays (arrivals : List Arrival) (answers : List Write) : Relay → Type 0 where
  relays :
      (taken sent : List ℕ) (total : ℕ) (e : Errno) (rest : List Arrival)
      → taken ++ content rest ≡ content arrivals
      → total ≡ length taken
      → (IsWritable answers → sent ≡ taken)
      → (e ≡ again) ⊎ ((e ≡ unset) × (content rest ≡ []))
      → Relays arrivals answers (done sent total e rest)

read-to_u64 : (m : ℕ) → m ≤ buf_size → to_u64 (pos m) ≡ m
unfolding to_u64
read-to_u64 m h = omega arith

length-eq-zero : (xs : List ℕ) → length xs ≡ 0 → xs ≡ []
length-eq-zero [] e = refl
length-eq-zero (x ∷ xs) e = absurd (omega arith)

abbrev reads :
    (e : Errno) (arrivals : List Arrival)
    → IsReadable arrivals
    → Reads buf_size buf_size arrivals (readn buf_size buf_size e arrivals)
reads e arrivals v = readn-Reads buf_size buf_size e arrivals (omega arith) v

-- A round adds its bytes and its traffic.
Relays-relayed :
    (bytes : List ℕ) (arrivals arrivals' : List Arrival) (answers : List Write) (w : Writing)
    (next : Relay)
    → bytes ++ content arrivals' ≡ content arrivals
    → length (content arrivals) < 2 ^ 64
    → Writes answers bytes w
    → Relays arrivals' w.rest next
    → Relays arrivals answers (relayed w.sent (length bytes) next)
unfolding relayed
Relays-relayed bytes arrivals arrivals' answers w _ h small v
      (relays taken sent total e rest c t f stop) =
    let all : (bytes ++ taken) ++ content rest ≡ content arrivals =
      append_assoc bytes taken (content rest) ∙ ap (λ xs. bytes ++ xs) c ∙ h in
    let size : length (content arrivals) ≡ length bytes + length taken + length (content rest) =
      ap length (sym all)
      ∙ length-append (bytes ++ taken) (content rest)
      ∙ ap (λ m. m + length (content rest)) (length-append bytes taken) in
    relays (bytes ++ taken) (w.sent ++ sent) (add64 (length bytes) total) e rest all
      (add64-eq-add (length bytes) total (omega arith) ∙ omega (arith, length-append bytes taken))
      (λ ok. let (whole, next) = v.whole ok in rw (whole, f next) refl) stop

-- A round that reads something and writes it.
relay_round :
    (fuel : ℕ) (e : Errno) (arrivals : List Arrival) (answers : List Write) (w : Writing)
    → let r = readn buf_size buf_size e arrivals in
      to_u64 r.ret ≡ length r.buf
      → 0 < length r.buf
      → length r.buf ≤ buf_size
      → writen (length r.buf) answers r.buf ≡ some w
      → relay (suc fuel) e arrivals answers
        ≡ relayed w.sent (length r.buf) (relay fuel r.errno r.rest w.rest)
unfolding relay
relay_round fuel e arrivals answers w n more fits out =
    let r : Reading = readn buf_size buf_size e arrivals in
    let nz : (to_u64 r.ret == 0) ≡ false = ground arith in
    let le : leb (to_u64 r.ret) buf_size ≡ true = ground arith in
    let written : writen (to_u64 r.ret) answers r.buf ≡ some w =
      ap (λ m. writen m answers r.buf) n ∙ out in
    rw (nz, le, written) (ap (λ m. relayed w.sent m (relay fuel r.errno r.rest w.rest)) n)

-- If no read fails, but for EINTR and EAGAIN, the socket has fewer than 2^64 bytes, and the other
-- socket takes some in as many answers at least: with more fuel than bytes the loop ends. The bytes
-- that it took and those that the socket still has are what the socket had, and the traffic that it
-- counted is the number of bytes taken, whether they were sent or not. If no write fails, but for
-- EINTR and EAGAIN, they were all sent, in order. It stopped with EAGAIN or, with no error, at the
-- end of the stream.
pub relay-Relays :
    (fuel : ℕ) (e : Errno) (arrivals : List Arrival) (answers : List Write)
    → IsReadable arrivals
    → length (content arrivals) < 2 ^ 64
    → length (content arrivals) < fuel
    → length (content arrivals) ≤ takes answers
    → Relays arrivals answers (relay fuel e arrivals answers)
unfolding relay
relay-Relays zero e arrivals answers v small enough room = absurd (omega arith)
relay-Relays (suc fuel) e arrivals answers v small enough room =
    let r : Reading = readn buf_size buf_size e arrivals in
    let read = reads e arrivals v in
    let n : to_u64 r.ret ≡ length r.buf =
      ap to_u64 (read.count ∙ ap pos (omega arith)) ∙ read-to_u64 (length r.buf) read.fits in
    let size : length (content arrivals) ≡ length r.buf + length (content r.rest) =
      ap length (sym read.bytes) ∙ length-append r.buf (content r.rest) in
    elim (dec_lt 0 (length r.buf)) [
      | no none ↦
          let z : (to_u64 r.ret == 0) ≡ true = ground arith in
          let nil : r.buf ≡ [] = length-eq-zero r.buf (omega arith) in
          rw z (
            relays [] [] 0 r.errno r.rest (ap (λ xs. xs ++ content r.rest) (sym nil) ∙ read.bytes)
              refl (λ ok. refl)
              (elim read.stop [ inl full ↦ absurd (omega arith) | inr idle ↦ idle ]))
      | yes more ↦
          let (w, out, h) = writen-Writes (length r.buf) answers r.buf (omega arith) in
          rw (relay_round fuel e arrivals answers w n more read.fits out) (
            Relays-relayed r.buf arrivals r.rest answers w _ read.bytes small h (
              relay-Relays fuel r.errno r.rest w.rest read.readable (omega arith) (omega arith)
                (omega (arith, h.left))))
    ]

-- If the next read fails, the number of bytes to write becomes 2^64 - 1, more than the buffer
-- holds.
pub relay_overruns :
    (fuel : ℕ) (e : Errno) (more : List Arrival) (answers : List Write)
    → (relay (suc fuel) e (error failed ∷ more) answers ≡ overrun (2 ^ 64 - 1))
      × (buf_size < 2 ^ 64 - 1)
unfolding relay readn to_u64
relay_overruns fuel e more answers = (refl, omega arith)
