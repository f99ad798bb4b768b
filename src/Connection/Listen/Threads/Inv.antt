-- ===== src/Connection/Listen/Threads/Inv.antt =====
-- What holds of the threads on the pool of accepted connections, and lemmas on a list of workers.
use mathlib.Core.List.{reverse, reverse_aux}
use umicat.Base.{
  ℕ, zero, suc, ◌+◌, ◌≤◌, ◌<◌, ◌≡◌, refl, ap, subst, List, [], ◌∷◌, ◌++◌, some, arith, length,
  get_elem?, set, if◌then◌else◌,
}
use umicat.Base.Distinct.{NotIn}
use umicat.Queue.Links.{IsQueue}
use umicat.Connection.Listen.Threads.{
  Master, accepts, wants, inside, linked, unposted, Worker, asks, counted, locks, found, unlinked,
  System,
}

-- 1 for a thread that has the lock.
abbrev pub holds : Worker → ℕ
holds asks = 0
holds counted = 0
holds locks = 1
holds (found q) = 1
holds (unlinked q) = 1

abbrev pub master_holds : Master → ℕ
master_holds accepts = 0
master_holds (wants c) = 0
master_holds (inside c) = 1
master_holds linked = 1
master_holds unposted = 0

-- 1 for a worker that has taken from the semaphore and not from the queue yet, and for the master
-- if it has put into the queue and not posted yet.
abbrev pub owed : Worker → ℕ
owed asks = 0
owed counted = 1
owed locks = 1
owed (found q) = 1
owed (unlinked q) = 0

abbrev pub master_owes : Master → ℕ
master_owes accepts = 0
master_owes (wants c) = 0
master_owes (inside c) = 0
master_owes linked = 1
master_owes unposted = 1

abbrev pub total : (Worker → ℕ) → List Worker → ℕ
total w [] = 0
total w (x ∷ xs) = w x + total w xs

-- `x` is the oldest of the connections, of which the newest comes first.
abbrev pub Oldest : ℕ → List ℕ → Type 0
Oldest x xs = (ys : List ℕ) × (xs ≡ ys ++ x ∷ [])

abbrev pub Found : Worker → List ℕ → Type 0
Found asks xs = Unit {0}
Found counted xs = Unit {0}
Found locks xs = Unit {0}
Found (found q) xs = Oldest q xs
Found (unlinked q) xs = Unit {0}

abbrev pub AllFound : List Worker → List ℕ → Type 0
AllFound [] xs = Unit {0}
AllFound (w ∷ ws) xs = Found w xs × AllFound ws xs

-- The connection that the master has accepted and not linked yet is not in the queue.
abbrev pub Fresh : ℕ → List ℕ → Master → Type 0
Fresh q xs accepts = Unit {0}
Fresh q xs (wants c) = NotIn c (q ∷ xs)
Fresh q xs (inside c) = NotIn c (q ∷ xs)
Fresh q xs linked = Unit {0}
Fresh q xs unposted = Unit {0}

-- The queue holds the connections `conns`: those that were added, less those that were given, in
-- the order of their coming. The semaphore and the threads under way account for each of them, at
-- most one thread has the lock, and a worker that has read a node has the oldest.
pub record Inv (q : ℕ) (s : System) : Type 0 where
  pub conns : List ℕ
  pub queue : IsQueue s.heap q conns
  pub in_order : s.added ≡ s.given ++ reverse conns
  pub count : length conns ≡ s.items + total owed s.workers + master_owes s.master
  pub mutex : total holds s.workers + master_holds s.master ≡ (if s.locked then 1 else 0)
  pub oldest : AllFound s.workers conns
  pub fresh : Fresh q conns s.master

pub total-set :
    (w : Worker → ℕ) (ws : List Worker) (i : ℕ) (a b : Worker)
    → get_elem? ws i ≡ some a
    → total w (set ws i b) + w a ≡ total w ws + w b
total-set w [] i a b e = absurd (cc)
total-set w (x ∷ ws) zero a b e = let same : w x ≡ w a = ground (arith) in omega (arith, same)
total-set w (x ∷ ws) (suc i) a b e = omega (arith, total-set w ws i a b e)

pub AllFound-set :
    (ws : List Worker) (i : ℕ) (b : Worker) (xs : List ℕ)
    → Found b xs
    → AllFound ws xs
    → AllFound (set ws i b) xs
AllFound-set [] i b xs f a = tt
AllFound-set (w ∷ ws) zero b xs f a = (f, a.1)
AllFound-set (w ∷ ws) (suc i) b xs f a = (a.0, AllFound-set ws i b xs f a.1)

-- Where no worker has the lock, none has read a node.
pub AllFound-no_holds : (ws : List Worker) (xs : List ℕ) → total holds ws ≡ 0 → AllFound ws xs
AllFound-no_holds [] xs e = tt
AllFound-no_holds (asks ∷ ws) xs e = (tt, AllFound-no_holds ws xs (omega arith))
AllFound-no_holds (counted ∷ ws) xs e = (tt, AllFound-no_holds ws xs (omega arith))
AllFound-no_holds (locks ∷ ws) xs e = absurd (omega arith)
AllFound-no_holds (found q ∷ ws) xs e = absurd (omega arith)
AllFound-no_holds (unlinked q ∷ ws) xs e = absurd (omega arith)

Found-no_holds : (w : Worker) (xs : List ℕ) → holds w ≡ 0 → Found w xs
Found-no_holds asks xs e = tt
Found-no_holds counted xs e = tt
Found-no_holds locks xs e = absurd (omega arith)
Found-no_holds (found q) xs e = absurd (omega arith)
Found-no_holds (unlinked q) xs e = absurd (omega arith)

pub total_member :
    (w : Worker → ℕ) (ws : List Worker) (i : ℕ) (a : Worker)
    → get_elem? ws i ≡ some a
    → w a ≤ total w ws
total_member w [] i a e = absurd (cc)
total_member w (x ∷ ws) zero a e = let same : w x ≡ w a = ground (arith) in omega (arith, same)
total_member w (x ∷ ws) (suc i) a e = omega (arith, total_member w ws i a e)

-- Where one worker alone has the lock, none has read a node once that one is past it.
pub AllFound-one_holds :
    (ws : List Worker) (i : ℕ) (a b : Worker) (xs : List ℕ)
    → get_elem? ws i ≡ some a
    → holds a ≡ 1
    → total holds ws ≤ 1
    → Found b xs
    → AllFound (set ws i b) xs
AllFound-one_holds [] i a b xs e h t f = absurd (cc)
AllFound-one_holds (w ∷ ws) zero a b xs e h t f =
    let same : holds w ≡ holds a = ground (arith) in
    (f, AllFound-no_holds ws xs (omega (arith, same)))
AllFound-one_holds (w ∷ ws) (suc i) a b xs e h t f =
    let one = total_member holds ws i a e in
    (Found-no_holds w xs (omega (arith, one)), AllFound-one_holds ws i a b xs e h (omega arith) f)

pub Found-Oldest :
    (ws : List Worker) (i x : ℕ) (xs : List ℕ)
    → get_elem? ws i ≡ some (found x)
    → AllFound ws xs
    → Oldest x xs
Found-Oldest [] i x xs e a = absurd (cc)
Found-Oldest (w ∷ ws) zero x xs e a =
    let same : w ≡ found x = cc in subst (λ v. Found v xs) same a.0
Found-Oldest (w ∷ ws) (suc i) x xs e a = Found-Oldest ws i x xs e a.1

pub NotIn-reverse_aux :
    (c : ℕ) (xs acc : List ℕ) → NotIn c (reverse_aux xs acc) → NotIn c xs × NotIn c acc
NotIn-reverse_aux c [] acc n = (tt, n)
NotIn-reverse_aux c (x ∷ xs) acc n =
    let (a, b) = NotIn-reverse_aux c xs (x ∷ acc) n in ((b.0, a), b.1)

-- A list with an element has a last one.
pub last_of : (xs : List ℕ) → 0 < length xs → (x : ℕ) × Oldest x xs
last_of [] h = absurd (omega arith)
last_of (x ∷ []) h = (x, ([], refl))
last_of (x ∷ y ∷ xs) h =
    let (z, (ys, e)) = last_of (y ∷ xs) (omega arith) in (z, (x ∷ ys, ap (◌∷◌ x) e))
