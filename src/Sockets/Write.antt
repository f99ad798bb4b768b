-- ===== src/Sockets/Write.antt =====
-- `uct_writen` and `uct_accept` (src/uct_socket.c) over what the system answers.
use umicat.Base.{
  ℕ, suc, ◌+◌, ◌≤◌, ◌≡◌, refl, ap, List, [], ◌∷◌, ◌++◌, Option, none, some, arith, length, take,
  drop, take-append-drop, length-drop,
}
use umicat.Base.Int.{ℤ, pos, negsuc}
use umicat.Connection.Read.{Errno, unset, intr, again, failed}

-- An answer of `write`: it took `more` + 1 bytes, or all that it was given if that is less, or it
-- returned 0 or less with an errno.
pub data Write : Type 0 where
  took : (more : ℕ) → Write
  refused : Errno → Write

-- What `uct_writen` returned, what it sent, and the answers still to come.
pub record Writing : Type 0 where
  pub ret : ℤ
  pub sent : List ℕ
  pub rest : List Write

prepend : List ℕ → Option Writing → Option Writing
prepend bytes none = none
prepend bytes (some w) = some (record w { sent = bytes ++ w.sent })

-- `uct_writen` of `n` bytes, of which the list is left. `none` means that it still waits after the last
-- answer.
unfoldable pub writen : ℕ → List Write → List ℕ → Option Writing
unfolding prepend
writen n answers [] = some (record { ret = pos n; sent = []; rest = answers })
writen n [] (b ∷ bs) = none
writen n (took more ∷ answers) (b ∷ bs) =
    prepend (take (suc more) (b ∷ bs)) (writen n answers (drop (suc more) (b ∷ bs)))
writen n (refused intr ∷ answers) (b ∷ bs) = writen n answers (b ∷ bs)
writen n (refused again ∷ answers) (b ∷ bs) = writen n answers (b ∷ bs)
writen n (refused e ∷ answers) (b ∷ bs) =
    some (record { ret = negsuc 0; sent = []; rest = answers })

-- How many bytes the answers take in all.
abbrev pub capacity : List Write → ℕ
capacity [] = 0
capacity (took more ∷ answers) = suc more + capacity answers
capacity (refused e ∷ answers) = capacity answers

-- No write fails, but for EINTR and EAGAIN.
abbrev pub IsWritable : List Write → Type 0
IsWritable [] = Unit {0}
IsWritable (took more ∷ answers) = IsWritable answers
IsWritable (refused intr ∷ answers) = IsWritable answers
IsWritable (refused again ∷ answers) = IsWritable answers
IsWritable (refused unset ∷ answers) = ⊥
IsWritable (refused failed ∷ answers) = ⊥

-- If no write fails but for EINTR and EAGAIN, and the socket takes as many bytes in all as there are,
-- then `uct_writen` ends: it returns n and has sent the bytes in order.
pub writen_ends :
    (n : ℕ) (answers : List Write) (buf : List ℕ)
    → IsWritable answers
    → length buf ≤ capacity answers
    → (rest : List Write) × (writen n answers buf
        ≡ some (record { ret = pos n; sent = buf; rest = rest }))
unfolding writen
writen_ends n answers [] h k = (answers, refl)
writen_ends n [] (b ∷ bs) h k = absurd (omega arith)
writen_ends n (took more ∷ answers) (b ∷ bs) h k =
    let (rest, e) = writen_ends n answers (drop more bs) h (omega (arith, length-drop more bs)) in
    (rest, rw (e, prepend) (rw (take-append-drop more bs)))
writen_ends n (refused intr ∷ answers) (b ∷ bs) h k = writen_ends n answers (b ∷ bs) h k
writen_ends n (refused again ∷ answers) (b ∷ bs) h k = writen_ends n answers (b ∷ bs) h k
writen_ends n (refused unset ∷ answers) (b ∷ bs) h k = elim h [ ]
writen_ends n (refused failed ∷ answers) (b ∷ bs) h k = elim h [ ]

-- How many of the answers take bytes.
abbrev pub takes : List Write → ℕ
takes [] = 0
takes (took more ∷ answers) = suc (takes answers)
takes (refused e ∷ answers) = takes answers

-- A write that ended: it used at most as many of the answers that take bytes as there were bytes, and
-- sent them all if none failed.
pub record Writes (answers : List Write) (buf : List ℕ) (w : Writing) : Type 0 where
  pub left : takes answers ≤ takes w.rest + length buf
  pub whole : IsWritable answers → (w.sent ≡ buf) × IsWritable w.rest

-- With as many answers that take bytes as there are bytes `uct_writen` ends, failed or not.
pub writen-Writes :
    (n : ℕ) (answers : List Write) (buf : List ℕ)
    → length buf ≤ takes answers
    → (w : Writing) × (writen n answers buf ≡ some w) × Writes answers buf w
unfolding writen
writen-Writes n answers [] k = (_, refl, record { left = omega arith; whole = λ v. (refl, v) })
writen-Writes n [] (b ∷ bs) k = absurd (omega arith)
writen-Writes n (took more ∷ answers) (b ∷ bs) k =
    let (w, e, h) = writen-Writes n answers (drop more bs) (omega (arith, length-drop more bs)) in
    (
      record w { sent = b ∷ (take more bs ++ w.sent) },
      rw (e, prepend) refl,
      record {
        left = omega (arith, h.left, length-drop more bs);
        whole = λ v.
            let (all, next) = h.whole v in
            (rw all (ap (λ xs. b ∷ xs) (take-append-drop more bs)), next);
      },
    )
writen-Writes n (refused intr ∷ answers) (b ∷ bs) k =
    let (w, e, h) = writen-Writes n answers (b ∷ bs) k in
    (w, e, record { left = h.left; whole = h.whole })
writen-Writes n (refused again ∷ answers) (b ∷ bs) k =
    let (w, e, h) = writen-Writes n answers (b ∷ bs) k in
    (w, e, record { left = h.left; whole = h.whole })
writen-Writes n (refused unset ∷ answers) (b ∷ bs) k =
    (_, refl, record { left = omega arith; whole = λ v. elim v [ ] })
writen-Writes n (refused failed ∷ answers) (b ∷ bs) k =
    (_, refl, record { left = omega arith; whole = λ v. elim v [ ] })

-- An answer of `accept`: a descriptor, or an errno after which it is called again, or another.
pub data Accept : Type 0 where
  accepted : ℕ → Accept
  retry : Accept
  broken : Accept

-- `none` means that it still waits after the last answer.
unfoldable pub accept : List Accept → Option (ℤ × List Accept)
accept [] = none
accept (accepted fd ∷ answers) = some (pos fd, answers)
accept (retry ∷ answers) = accept answers
accept (broken ∷ answers) = some (negsuc 0, answers)
