-- ===== src/Connection/Listen/Threads/Kept.antt =====
-- Every action of the threads on the pool of accepted connections keeps what holds of them.
use mathlib.Core.List.{reverse, reverse-append, append_assoc}
use umicat.Base.{
  ℕ, ◌+◌, ◌-◌, ◌≤◌, ◌<◌, ◌≡◌, refl, sym, ap, ◌∙◌, subst, true, false, List, [], ◌∷◌, ◌++◌, some,
  arith, length, length-append, get_elem?, set, drop, drop-append_long, if◌then◌else◌,
}
use umicat.Base.Distinct.{NotIn, NotIn-init}
use umicat.Queue.{queue_insert_head, queue_last, queue_remove}
use umicat.Queue.Links.{IsQueue, queue_insert_head-IsQueue, queue_remove-queue_last}
use umicat.Connection.Listen.Threads.{
  Master, accepts, wants, inside, linked, unposted, Worker, asks, counted, locks, found, unlinked,
  System, waiting,
}
use umicat.Connection.Listen.Threads.Inv.{
  Inv, holds, owed, master_holds, total, Fresh, total-set, AllFound-set, AllFound-no_holds,
  total_member, AllFound-one_holds, Found-Oldest, NotIn-reverse_aux, last_of,
}

module _ (q : ℕ) (s : System) (v : Inv q s) where
  -- A worker that has the lock is the only thread that has it.
  alone :
      (i : ℕ) (a : Worker)
      → get_elem? s.workers i ≡ some a
      → holds a ≡ 1
      → (total holds s.workers ≡ 1) × (master_holds s.master ≡ 0)
  alone i a e h =
      let one = total_member holds s.workers i a e in
      let most : (if s.locked then 1 else 0) ≤ 1 = ground arith in
      (omega (arith, one, v.mutex, most), omega (arith, one, v.mutex, most))

  Fresh-fewer : (xs : List ℕ) (x : ℕ) (m : Master) → Fresh q (xs ++ x ∷ []) m → Fresh q xs m
  Fresh-fewer xs x accepts f = tt
  Fresh-fewer xs x (wants c) f = (f.0, (NotIn-init c x xs f.1).0)
  Fresh-fewer xs x (inside c) f = (f.0, (NotIn-init c x xs f.1).0)
  Fresh-fewer xs x linked f = tt
  Fresh-fewer xs x unposted f = tt

  drop-given : waiting s ≡ reverse v.conns
  drop-given =
      let none_ : length s.given - length s.given ≡ 0 = omega arith in
      rw v.in_order (
        drop-append_long (length s.given) s.given (reverse v.conns) (omega arith)
        ∙ ap (λ (n : ℕ). drop n (reverse v.conns)) none_)

  -- The master's actions.
  pub link-Inv :
      (c : ℕ)
      → s.master ≡ inside c
      → Inv q (record s {
        master = linked;
        heap = queue_insert_head q c s.heap;
        added = s.added ++ c ∷ [];
      })
  link-Inv c e =
      let fresh : NotIn c (q ∷ v.conns) = subst (Fresh q v.conns) e v.fresh in
      let none_ : total holds s.workers ≡ 0 = ground (arith, v.mutex) in
      record {
        conns = c ∷ v.conns;
        queue = queue_insert_head-IsQueue s.heap q c v.conns fresh v.queue;
        in_order =
            ap (λ (l : List ℕ). l ++ c ∷ []) v.in_order
            ∙ append_assoc s.given (reverse v.conns) (c ∷ [])
            ∙ ap (λ (l : List ℕ). s.given ++ l) (sym (reverse-append (c ∷ []) v.conns));
        count = ground (arith, v.count);
        mutex = ground (arith, v.mutex);
        oldest = AllFound-no_holds s.workers (c ∷ v.conns) none_;
        fresh = tt;
      }

  pub read_last-Inv :
      (i : ℕ)
      → get_elem? s.workers i ≡ some locks
      → Inv q (record s { workers = set s.workers i (found (queue_last q s.heap)) })
  read_last-Inv i e =
      let (one, out) = alone i locks e refl in
      let due = total_member owed s.workers i locks e in
      let (x, (ys, last)) = last_of v.conns (omega (arith, v.count, due)) in
      let node : queue_last q s.heap ≡ x =
        (queue_remove-queue_last s.heap q x ys (subst (IsQueue s.heap q) last v.queue)).0 in
      let b = found (queue_last q s.heap) in
      record {
        conns = v.conns;
        queue = v.queue;
        in_order = v.in_order;
        count = omega (arith, v.count, total-set owed s.workers i locks b e);
        mutex = omega (arith, v.mutex, total-set holds s.workers i locks b e);
        oldest = AllFound-set s.workers i b v.conns (ys, rw node last) v.oldest;
        fresh = v.fresh;
      }

  pub unlink-Inv :
      (i x : ℕ)
      → get_elem? s.workers i ≡ some (found x)
      → Inv q (record s {
        heap = queue_remove x s.heap;
        workers = set s.workers i (unlinked x);
        given = s.given ++ x ∷ [];
      })
  unlink-Inv i x e =
      let (one, out) = alone i (found x) e refl in
      let (ys, last) = Found-Oldest s.workers i x v.conns e v.oldest in
      let (node, rest) =
        queue_remove-queue_last s.heap q x ys (subst (IsQueue s.heap q) last v.queue) in
      let b = unlinked x in
      let size : length v.conns ≡ length ys + 1 = ap length last ∙ length-append ys (x ∷ []) in
      record {
        conns = ys;
        queue = subst (λ (l : ℕ). IsQueue (queue_remove l s.heap) q ys) node rest;
        in_order =
            v.in_order
            ∙ ap (λ (l : List ℕ). s.given ++ reverse l) last
            ∙ ap (λ (l : List ℕ). s.given ++ l) (reverse-append ys (x ∷ []))
            ∙ sym (append_assoc s.given (x ∷ []) (reverse ys));
        count = omega (arith, v.count, size, total-set owed s.workers i (found x) b e);
        mutex = omega (arith, v.mutex, total-set holds s.workers i (found x) b e);
        oldest = AllFound-one_holds s.workers i (found x) b ys e refl (omega (arith, one)) tt;
        fresh = Fresh-fewer ys x s.master (subst (λ l. Fresh q l s.master) last v.fresh);
      }

  -- Where a worker goes on that stays with the lock as it was, and the same for the queue.
  pub accept_conn-Inv :
      (c : ℕ) → s.master ≡ accepts → NotIn c (q ∷ waiting s) → Inv q (record s { master = wants c })
  accept_conn-Inv c e n = record {
    conns = v.conns;
    queue = v.queue;
    in_order = v.in_order;
    count = ground (arith, v.count);
    mutex = ground (arith, v.mutex);
    oldest = v.oldest;
    fresh = (n.0, (NotIn-reverse_aux c v.conns [] (subst (NotIn c) drop-given n.1)).0);
  }

  pub lock_add-Inv :
      (c : ℕ)
      → s.master ≡ wants c
      → s.locked ≡ false
      → Inv q (record s { master = inside c; locked = true })
  lock_add-Inv c e l = record {
    conns = v.conns;
    queue = v.queue;
    in_order = v.in_order;
    count = ground (arith, v.count);
    mutex = ground (arith, v.mutex);
    oldest = v.oldest;
    fresh = subst (Fresh q v.conns) e v.fresh;
  }

  pub unlock_add-Inv : s.master ≡ linked → Inv q (record s { master = unposted; locked = false })
  unlock_add-Inv e =
      let one : (if s.locked then 1 else 0) ≤ 1 = ground arith in
      record {
        conns = v.conns;
        queue = v.queue;
        in_order = v.in_order;
        count = ground (arith, v.count);
        mutex = ground (arith, v.mutex, one);
        oldest = v.oldest;
        fresh = tt;
      }

  pub post-Inv : s.master ≡ unposted → Inv q (record s { master = accepts; items = s.items + 1 })
  post-Inv e = record {
    conns = v.conns;
    queue = v.queue;
    in_order = v.in_order;
    count = ground (arith, v.count);
    mutex = ground (arith, v.mutex);
    oldest = v.oldest;
    fresh = tt;
  }

  pub try_wait-Inv :
      (i : ℕ)
      → get_elem? s.workers i ≡ some asks
      → 0 < s.items
      → Inv q (record s { items = s.items - 1; workers = set s.workers i counted })
  try_wait-Inv i e h = record {
    conns = v.conns;
    queue = v.queue;
    in_order = v.in_order;
    count = omega (arith, v.count, total-set owed s.workers i asks counted e);
    mutex = omega (arith, v.mutex, total-set holds s.workers i asks counted e);
    oldest = AllFound-set s.workers i counted v.conns tt v.oldest;
    fresh = v.fresh;
  }

  pub lock_get-Inv :
      (i : ℕ)
      → get_elem? s.workers i ≡ some counted
      → s.locked ≡ false
      → Inv q (record s { locked = true; workers = set s.workers i locks })
  lock_get-Inv i e l =
      let free : ◌≡◌ {A = ℕ} (if s.locked then 1 else 0) 0 = rw l refl in
      record {
        conns = v.conns;
        queue = v.queue;
        in_order = v.in_order;
        count = omega (arith, v.count, total-set owed s.workers i counted locks e);
        mutex = omega (arith, v.mutex, free, total-set holds s.workers i counted locks e);
        oldest = AllFound-set s.workers i locks v.conns tt v.oldest;
        fresh = v.fresh;
      }

  pub unlock_get-Inv :
      (i x : ℕ)
      → get_elem? s.workers i ≡ some (unlinked x)
      → Inv q (record s { locked = false; workers = set s.workers i asks })
  unlock_get-Inv i x e =
      let (one, out) = alone i (unlinked x) e refl in
      record {
        conns = v.conns;
        queue = v.queue;
        in_order = v.in_order;
        count = omega (arith, v.count, total-set owed s.workers i (unlinked x) asks e);
        mutex = omega (arith, one, out, total-set holds s.workers i (unlinked x) asks e);
        oldest = AllFound-set s.workers i asks v.conns tt v.oldest;
        fresh = v.fresh;
      }
