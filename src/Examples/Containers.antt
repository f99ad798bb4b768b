-- ===== src/Examples/Containers.antt =====
-- The growing array and the options of the command line on concrete inputs.
use umicat.Containers.Parts.{Parts, list_init, list_create, list_push, new_part, next_place}
use umicat.Base.{
  ℕ, ◌+◌, ◌≤◌, ◌≡◌, refl, ap, true, false, List, [], ◌∷◌, some, none, arith, leb, Bool-cases, inl,
  inr,
}
use mathlib.Core.Option.{some-injective}
use umicat.Base.Word.{add64, sub64, mul64}
use umicat.Strings.Bytes.{codes}
use umicat.Containers.Array.{
  State, Palloc, take_place, move, array_init, array_destroy, array_push, array_push_n,
}
use umicat.Containers.Array.Push.{Succeeds, GivesBlocks, IsSound}
use umicat.Containers.Array.Push.Succeeds.{array_push-Succeeds}
use umicat.Options.{Options, letters, option_word, get_options}
use umicat.Options.Given.{
  Given, flags, question, help, version, conf, log_joined, command_line, all_asked,
  get_options-command_line,
}

-- The pool gives the front of its block, up to the address 500.
abbrev bump : Palloc
bump n space = elim (leb (space.last + n) 500) [
  | true ↦ (some space.last, record space { last = space.last + n })
  | false ↦ (none, space)
]

bump-GivesBlocks : GivesBlocks bump
bump-GivesBlocks m p space space' e = elim (Bool-cases (leb (space.last + m) 500)) [
  | inl t ↦
      let given : (some space.last, record space { last = space.last + m }) ≡ (some p, space') =
        rw (t, bump) at e in
      let same : space.last ≡ p = some-injective space.last p (ap (λ r. r.0) given) in
      ground (arith, same, t)
  | inr f ↦
      let given : (none, space) ≡ (some p, space') = rw (f, bump) at e in
      let none_given : none ≡ some p = ap (λ r. r.0) given in absurd (cc)
]

-- Two elements of 4 bytes fill the array at 100; something else stands behind it.
abbrev full : State
full = record {
  array = record { elts = 100; nelts = 2; size = 4; nalloc = 2 };
  space = record { last = 120; limit = 400 };
  bytes = λ a. a;
}

full-IsSound : (n : ℕ) → n ≤ 8 → IsSound n full
full-IsSound n h = record {
  used = omega arith;
  count = omega arith;
  bytes = omega arith;
  place = omega arith;
  front = omega arith;
}

array_init_test : array_init bump 2 4 (record { last = 100; limit = 400 }) ≡ (
  some (record { elts = 100; nelts = 0; size = 4; nalloc = 2 }),
  record { last = 108; limit = 400 },
)
unfolding array_init mul64
array_init_test = refl

array_push_test : (array_push bump full).0 ≡ some 128
unfolding array_push move take_place add64 mul64
array_push_test = refl

array_destroy_test :
    array_destroy 60 40 full.array (record { last = 108; limit = 400 })
    ≡ record { last = 60; limit = 400 }
unfolding array_destroy add64 sub64 mul64
array_destroy_test = refl

array_push-Succeeds_example :
    Succeeds bump 1 full (array_push bump full) × Succeeds bump 3 full (array_push_n bump 3 full)
array_push-Succeeds_example =
    array_push-Succeeds bump 3 full bump-GivesBlocks (omega arith) (full-IsSound 1 (omega arith))
      (full-IsSound 3 (omega arith))

-- Right behind the array the front of the pool is free.
array_push-longer_test :
    (array_push bump (record full { space = record { last = 108; limit = 400 } })).0 ≡ some 108
unfolding array_push take_place add64 mul64
array_push-longer_test = refl

-- The pool has no block for twice 100 elements.
array_push_n-none_test : (array_push_n bump 100 full).0 ≡ none
unfolding array_push_n move add64 mul64
array_push_n-none_test = refl

abbrev no_options : Options
no_options = record { show_version = false; show_help = false; conf_file = none; log_file = none }

abbrev givens : List Given
givens =
    flags question (version ∷ help ∷ [])
    ∷ conf (codes "u.conf")
    ∷ log_joined b'u' (codes ".log")
    ∷ []

get_options_test : get_options no_options (codes "-vcu.conf" ∷ codes "-l" ∷ []) ≡ none
unfolding get_options option_word letters
get_options_test = refl

get_options-command_line_example :
    get_options no_options (command_line givens) ≡ some (all_asked no_options givens)
get_options-command_line_example = get_options-command_line no_options givens

-- A full part of two elements: the third goes to a new one.
abbrev full_part : Parts
full_part = record { before = []; last = record { elts = 100; nelts = 2 }; size = 8; nalloc = 2 }

list_push_test : (list_push (300 ∷ 400 ∷ []) full_part).0 ≡ some 400
unfolding list_push new_part next_place
list_push_test = refl

list_push-none_test : (list_push (300 ∷ []) full_part).0 ≡ none
unfolding list_push new_part next_place
list_push-none_test = refl

list_create_test : (list_create 2 8 (60 ∷ [])).0 ≡ none
unfolding list_create list_init
list_create_test = refl
