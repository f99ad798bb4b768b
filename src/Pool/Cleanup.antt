-- ===== src/Pool/Cleanup.antt =====
-- The cleanup handlers of a pool (src/uct_palloc.c): how they are added, run one by one for a file,
-- and run all when the pool is destroyed.
use umicat.Base.{
  ℕ, ◌≡◌, ◌==◌, refl, ap, Bool, true, false, ◌||◌, Option, none, some, List, [], ◌∷◌, ◌++◌,
  if◌then◌else◌, ==_iff, Bool-cases, inl, inr,
}
use mathlib.Core.List.{Perm, perm_middle}
use mathlib.Core.List.Perm

-- `uct_pool_cleanup_file`, `uct_pool_delete_file` or a function of the program, by a number.
pub data Handler : Type 0 where
  cleanup_file : Handler
  delete_file : Handler
  other : (id : ℕ) → Handler

-- `uct_pool_cleanup_t` with the data that it points to; a handler of `none` is a null pointer.
pub record Cleanup : Type 0 where
  pub handler : Option Handler
  pub fd : ℕ
  pub name : ℕ

-- What a handler does.
pub data Effect : Type 0 where
  closed : (fd : ℕ) → Effect
  deleted : (name : ℕ) → Effect
  called : (id : ℕ) → Effect

unfoldable pub run_handler : Option Handler → Cleanup → List Effect
run_handler none c = []
run_handler (some cleanup_file) c = closed c.fd ∷ []
run_handler (some delete_file) c = deleted c.name ∷ closed c.fd ∷ []
run_handler (some (other id)) c = called id ∷ []

-- `uct_pool_cleanup_add` with what the pool answers for the structure and, if data is asked for, for
-- the data: the new cleanup stands in front and has no handler yet.
unfoldable pub cleanup_add : ℕ → Option ℕ → Option ℕ → Cleanup → List Cleanup → Bool × List Cleanup
cleanup_add size none data_ unset cs = (false, cs)
cleanup_add size (some c) none unset cs =
    if size == 0 then (true, record unset { handler = none } ∷ cs) else (false, cs)
cleanup_add size (some c) (some d) unset cs = (true, record unset { handler = none } ∷ cs)

-- Whether a handler is the one that closes a file, and its data is of the descriptor `fd`.
unfoldable pub is_file : ℕ → Option Handler → ℕ → Bool
is_file fd (some cleanup_file) own = own == fd
is_file fd _ own = false

-- `uct_pool_run_cleanup_file`: what it does and the cleanups after it.
unfoldable pub run_cleanup_file : ℕ → List Cleanup → List Effect × List Cleanup
run_cleanup_file fd [] = ([], [])
run_cleanup_file fd (c ∷ cs) =
    let rest = run_cleanup_file fd cs in
    if is_file fd c.handler c.fd
    then (run_handler c.handler c, record c { handler = none } ∷ cs)
    else (rest.0, c ∷ rest.1)

-- The first loop of `uct_destroy_pool`.
unfoldable pub run_cleanups : List Cleanup → List Effect
run_cleanups [] = []
run_cleanups (c ∷ cs) = run_handler c.handler c ++ run_cleanups cs

-- The files closed one by one, and then the pool destroyed.
unfoldable pub close_files : List ℕ → List Cleanup → List Effect
close_files [] cs = run_cleanups cs
close_files (fd ∷ fds) cs = let r = run_cleanup_file fd cs in r.0 ++ close_files fds r.1

unfoldable pub has_file : ℕ → List Cleanup → Bool
has_file fd [] = false
has_file fd (c ∷ cs) = let rest = has_file fd cs in is_file fd c.handler c.fd || rest

file_closes :
    (fd : ℕ) (h : Option Handler) (c : Cleanup)
    → is_file fd h c.fd ≡ true
    → run_handler h c ≡ closed fd ∷ []
unfolding is_file run_handler
file_closes fd none c e = absurd (cc)
file_closes fd (some cleanup_file) c e = ap (λ (f : ℕ). closed f ∷ []) ((==_iff c.fd fd).0 e)
file_closes fd (some delete_file) c e = absurd (cc)
file_closes fd (some (other id)) c e = absurd (cc)

-- The call closes the descriptor if there is a file with it that is not closed yet, and else nothing.
pub run_cleanup_file-closes :
    (fd : ℕ) (cs : List Cleanup)
    → (run_cleanup_file fd cs).0 ≡ (if has_file fd cs then closed fd ∷ [] else [])
unfolding run_cleanup_file has_file
run_cleanup_file-closes fd [] = refl
run_cleanup_file-closes fd (c ∷ cs) = elim (Bool-cases (is_file fd c.handler c.fd)) [
  | inl e ↦ rw e (file_closes fd c.handler c e)
  | inr e ↦ rw e (run_cleanup_file-closes fd cs)
]

-- A part in front of the others.
Perm-front {ℓ} : {A : Type ℓ} (xs ys zs : List A) → Perm (xs ++ (ys ++ zs)) (ys ++ (xs ++ zs))
Perm-front [] ys zs = Perm.refl _
Perm-front (x ∷ xs) ys zs =
    Perm.trans (Perm.cons x (Perm-front xs ys zs)) (Perm.symm (perm_middle ys (xs ++ zs)))

run_cleanup_file-Perm :
    (fd : ℕ) (cs : List Cleanup)
    → (let r = run_cleanup_file fd cs in Perm (r.0 ++ run_cleanups r.1) (run_cleanups cs))
unfolding run_cleanup_file run_cleanups run_handler
run_cleanup_file-Perm fd [] = Perm.refl []
run_cleanup_file-Perm fd (c ∷ cs) = elim (Bool-cases (is_file fd c.handler c.fd)) [
  | inl e ↦ rw e (Perm.refl _)
  | inr e ↦ rw e (
      let r = run_cleanup_file fd cs in
      Perm.trans (Perm-front r.0 (run_handler c.handler c) (run_cleanups r.1))
        (Perm.append_left (run_handler c.handler c) (run_cleanup_file-Perm fd cs)))
]

-- Whatever files are closed one by one, and with those that the pool does not have among them: until
-- the pool is destroyed every handler is run exactly as often as if it had been destroyed at once.
pub close_files-Perm :
    (fds : List ℕ) (cs : List Cleanup) → Perm (close_files fds cs) (run_cleanups cs)
unfolding close_files
close_files-Perm [] cs = Perm.refl _
close_files-Perm (fd ∷ fds) cs =
    let r = run_cleanup_file fd cs in
    Perm.trans (Perm.append_left r.0 (close_files-Perm fds r.1)) (run_cleanup_file-Perm fd cs)
