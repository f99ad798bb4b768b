-- ===== src/Connection/Listen/Fifo.antt =====
-- The pool of accepted connections (src/uct_connection.c) as a queue: first in, first out.
use mathlib.Core.List.{reverse, reverse-append}
use umicat.Base.{ℕ, ◌≡◌, refl, ap, ◌∙◌, true, List, [], ◌∷◌, ◌++◌, Option, none, some, arith, ◌==◌}
use umicat.Base.Distinct.{NotIn}
use umicat.Connection.Listen.{
  ListeningPool, listening_pool_add, listening_pool_get, Holds, add-Holds, get-Holds,
}

-- A call of the pool: the master adds a connection, or a worker asks for one.
pub data Call : Type 0 where
  add : (conn : ℕ) → Call
  get : Call

-- The calls one after the other, each with the spin lock taken: the answers, and the pool.
unfoldable pub run : List Call → ListeningPool → List (Option ℕ) × ListeningPool
run [] p = ([], p)
run (add c ∷ calls) p = run calls (listening_pool_add true c p)
run (get ∷ calls) p =
    let (answer, p') = listening_pool_get true p in
    let (answers, last) = run calls p' in (answer ∷ answers, last)

-- The same on a list, the oldest connection first.
abbrev pub fifo : List Call → List ℕ → List (Option ℕ) × List ℕ
fifo [] xs = ([], xs)
fifo (add c ∷ calls) xs = fifo calls (xs ++ c ∷ [])
fifo (get ∷ calls) [] = let r = fifo calls [] in (none ∷ r.0, r.1)
fifo (get ∷ calls) (x ∷ xs) = let r = fifo calls xs in (some x ∷ r.0, r.1)

-- Each connection that is added is neither the sentinel nor one that the pool holds.
abbrev pub AllFresh : ℕ → List Call → List ℕ → Type 0
AllFresh q [] xs = Unit {0}
AllFresh q (add c ∷ calls) xs = NotIn c (q ∷ reverse xs) × AllFresh q calls (xs ++ c ∷ [])
AllFresh q (get ∷ calls) [] = AllFresh q calls []
AllFresh q (get ∷ calls) (x ∷ xs) = AllFresh q calls xs

add-listen_q : (c : ℕ) (p : ListeningPool) → (listening_pool_add true c p).listen_q ≡ p.listen_q
unfolding listening_pool_add
add-listen_q c p = refl

get-listen_q : (p : ListeningPool) → (listening_pool_get true p).1.listen_q ≡ p.listen_q
unfolding listening_pool_get
get-listen_q p = ground arith

get_empty : (p : ListeningPool) → Holds p [] → listening_pool_get true p ≡ (none, p)
unfolding listening_pool_get
get_empty p h = let empty : (p.items == 0) ≡ true = ground (arith, h.count) in rw empty

-- Through any calls that add fresh connections, the pool gives the same answers as the list and holds
-- what the list has left: the oldest connection first, and none where there is none.
pub run_refines :
    (q : ℕ) (calls : List Call) (p : ListeningPool) (xs : List ℕ)
    → p.listen_q ≡ q
    → AllFresh q calls xs
    → Holds p (reverse xs)
    → ((run calls p).0 ≡ (fifo calls xs).0) × Holds (run calls p).1 (reverse (fifo calls xs).1)
unfolding run
run_refines q [] p xs e f h = (refl, h)
run_refines q (add c ∷ calls) p xs e f h =
    let fresh : NotIn c (p.listen_q ∷ reverse xs) = rw e f.0 in
    let held = add-Holds c p (reverse xs) fresh h in
    run_refines q calls (listening_pool_add true c p) (xs ++ c ∷ []) (add-listen_q c p ∙ e) f.1
      (rw (reverse-append xs (c ∷ [])) held)
run_refines q (get ∷ calls) p [] e f h =
    let none_left = get_empty p h in
    let (same, left) = run_refines q calls p [] e f h in
    rw none_left (ap (λ t. none ∷ t) same, left)
run_refines q (get ∷ calls) p (x ∷ xs) e f h =
    let (answer, held) = get-Holds x p (reverse xs) (rw (reverse-append (x ∷ []) xs) at h) in
    let (same, left) =
      run_refines q calls (listening_pool_get true p).1 xs (get-listen_q p ∙ e) f held in
    (rw (answer, same), left)
