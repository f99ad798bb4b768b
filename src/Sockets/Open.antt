-- ===== src/Sockets/Open.antt =====
-- `uct_open_listenfd`, `uct_open_listenfd_udp`, `uct_open_clientfd` and `uct_open_clientfd_udp`
-- (src/uct_socket.c), over the addresses that `getaddrinfo` gave.
use umicat.Base.{
  ◌≡◌, refl, sym, ap, ◌∙◌, Bool, true, not, List, [], ◌∷◌, ◌++◌, if◌then◌else◌, Bool-cases, inl,
  inr,
}
use mathlib.Core.List.{append-nil}
use umicat.Base.Int.{ℤ, pos, negsuc, ltb_ℤ, eqb_ℤ}

-- What the system answers for one address: `socket`, and then `bind` or `connect`.
pub record Address : Type 0 where
  pub fd : ℤ
  pub attached : ℤ

-- What a call returns, and the descriptors that it opened and closed, in order.
pub record Opening : Type 0 where
  pub ret : ℤ
  pub opened : List ℤ
  pub closed : List ℤ

-- The same after a descriptor that was opened and closed again.
abbrev retried : ℤ → Opening → Opening
retried fd o = record o { opened = fd ∷ o.opened; closed = fd ∷ o.closed }

-- The walk over the addresses, with the test that ends it; `p` is null at the end of the list.
walk : (Address → Bool) → List Address → Opening
walk success [] = record { ret = negsuc 0; opened = []; closed = [] }
walk success (a ∷ rest) =
    let next = walk success rest in
    let after = retried a.fd next in
    if ltb_ℤ a.fd (pos 0)
    then next
    else if success a
    then record { ret = a.fd; opened = a.fd ∷ []; closed = [] }
    else after

-- `uct_bind(...) == 0`, and `uct_connect(...) != -1`.
abbrev is_bound : Address → Bool
is_bound a = eqb_ℤ a.attached (pos 0)

abbrev is_connected : Address → Bool
is_connected a = not (eqb_ℤ a.attached (negsuc 0))

unfoldable pub open_listenfd : List Address → ℤ → Opening
unfolding walk
open_listenfd addresses listened =
    let o = walk is_bound addresses in
    if ltb_ℤ o.ret (pos 0)
    then o
    else if ltb_ℤ listened (pos 0)
    then record o { ret = negsuc 0; closed = o.closed ++ o.ret ∷ [] }
    else o

unfoldable pub open_listenfd_udp : List Address → Opening
unfolding walk
open_listenfd_udp addresses = walk is_bound addresses

unfoldable pub open_clientfd : List Address → Opening
unfolding walk
open_clientfd addresses = walk is_connected addresses

unfoldable pub open_clientfd_udp : List Address → Opening
unfolding walk
open_clientfd_udp addresses = walk (λ a. true) addresses

-- The descriptor that the caller now has.
abbrev pub kept : ℤ → List ℤ
kept ret = if ltb_ℤ ret (pos 0) then [] else ret ∷ []

-- What was opened was closed or is returned, each descriptor once.
abbrev pub IsAccounted : Opening → Type 0
IsAccounted o = o.opened ≡ o.closed ++ kept o.ret

walk-IsAccounted :
    (success : Address → Bool) (addresses : List Address) → IsAccounted (walk success addresses)
unfolding walk
walk-IsAccounted success [] = refl
walk-IsAccounted success (a ∷ rest) = elim (Bool-cases (ltb_ℤ a.fd (pos 0))) [
  | inl e ↦ rw e (walk-IsAccounted success rest)
  | inr e ↦ elim (Bool-cases (success a)) [
    | inl s ↦ rw (e, s) (rw e)
    | inr s ↦ rw (e, s) (ap (λ t. a.fd ∷ t) (walk-IsAccounted success rest))
  ]
]

-- Whatever the addresses and the answers of the system, none of the four functions loses a
-- descriptor: those that it opened are those that it closed and, last, the one that it returns.
pub open-IsAccounted :
    (addresses : List Address) (listened : ℤ)
    → IsAccounted (open_listenfd addresses listened)
      × IsAccounted (open_listenfd_udp addresses)
      × IsAccounted (open_clientfd addresses)
      × IsAccounted (open_clientfd_udp addresses)
unfolding open_listenfd open_listenfd_udp open_clientfd open_clientfd_udp
open-IsAccounted addresses listened = (
  elim (Bool-cases (ltb_ℤ (walk is_bound addresses).ret (pos 0))) [
    | inl e ↦ rw e (walk-IsAccounted is_bound addresses)
    | inr e ↦ elim (Bool-cases (ltb_ℤ listened (pos 0))) [
      | inl l ↦
          let last : (walk is_bound addresses).opened
              ≡ (walk is_bound addresses).closed ++ (walk is_bound addresses).ret ∷ [] =
            rw e at (walk-IsAccounted is_bound addresses) in
          rw (e, l) (last ∙ sym (append-nil _))
      | inr l ↦ rw (e, l) (walk-IsAccounted is_bound addresses)
    ]
  ],
  walk-IsAccounted is_bound addresses,
  walk-IsAccounted is_connected addresses,
  walk-IsAccounted (λ a. true) addresses,
)
