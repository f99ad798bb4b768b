-- ===== src/Examples/Sockets.antt =====
-- Opening and writing to sockets with concrete answers of the system.
use umicat.Base.{◌≡◌, refl, List, [], ◌∷◌, some, arith}
use umicat.Base.Int.{pos, negsuc}
use umicat.Connection.Read.{intr, again}
use umicat.Sockets.Open.{
  Address, open_listenfd, open_listenfd_udp, open_clientfd, open_clientfd_udp, IsAccounted,
  open-IsAccounted,
}
use umicat.Sockets.Write.{Write, took, refused, writen, writen_ends, accept, accepted, retry}

-- No socket for the first address, one that cannot be bound for the second.
abbrev addresses : List Address
addresses =
    record { fd = negsuc 0; attached = pos 0 }
    ∷ record { fd = pos 5; attached = negsuc 0 }
    ∷ record { fd = pos 6; attached = pos 0 }
    ∷ []

open_listenfd_test :
    open_listenfd addresses (negsuc 0)
    ≡ record { ret = negsuc 0; opened = pos 5 ∷ pos 6 ∷ []; closed = pos 5 ∷ pos 6 ∷ [] }
unfolding open_listenfd
open_listenfd_test = refl

open-IsAccounted_example :
    IsAccounted (open_listenfd addresses (pos 0))
    × IsAccounted (open_listenfd_udp addresses)
    × IsAccounted (open_clientfd addresses)
    × IsAccounted (open_clientfd_udp addresses)
open-IsAccounted_example = open-IsAccounted addresses (pos 0)

abbrev answers : List Write
answers = refused again ∷ took 1 ∷ refused intr ∷ took 4 ∷ []

writen_ends_example :
    (rest : List Write) × (writen 3 answers (1 ∷ 2 ∷ 3 ∷ [])
      ≡ some (record { ret = pos 3; sent = 1 ∷ 2 ∷ 3 ∷ []; rest = rest }))
writen_ends_example = writen_ends 3 answers (1 ∷ 2 ∷ 3 ∷ []) tt (omega arith)

accept_test : accept (retry ∷ accepted 9 ∷ []) ≡ some (pos 9, [])
unfolding accept
accept_test = refl
