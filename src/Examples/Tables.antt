-- ===== src/Examples/Tables.antt =====
-- A peer table and a request queue.
use peer_file_torrent.Base.{
  ltb, ◌≡◌, refl, [], ◌∷◌, none, some, arith, str_eq, ◌==◌, ◌&&◌, u16, if◌then◌else◌, ◌>>=◌,
  Ensures,
}
use peer_file_torrent.Peers.{Peer, Peers, peers_add, peers_remove, peers_find, is_at, find_slot}
use peer_file_torrent.Peers.Valid.{IsValid, peers_remove-IsValid, peers_add-IsValid}
use peer_file_torrent.Peers.Lookup.{Distinct, peers_find-peers_add, peers_find-peers_remove}
use peer_file_torrent.Queue.{QueueState, RequestQ, reqs_create, reqs_dequeue, reqs_drain}
use peer_file_torrent.Queue.Fifo.{
  IsQueue, IsRequestQ, reqs_dequeue-IsRequestQ, enqueue_all, reqs_drain-enqueue_all,
}

-- A peer at address 1 in a table with room for one more.
abbrev old : Peer
old = record { ip = 49 ∷ []; port = 80; sock_fd = 3; reqs_q = 0 }

abbrev new : Peer
new = record { ip = 50 ∷ []; port = 81; sock_fd = 4; reqs_q = 1 }

abbrev table : Peers
table = record { list = some old ∷ none ∷ []; npeers_cur = 1; npeers_max = 2 }

table-IsValid : IsValid table
table-IsValid = record { sized = refl; counted = refl; bounded = omega arith }

peers_add-IsValid_example : IsValid (peers_add table new)
peers_add-IsValid_example = peers_add-IsValid table new table-IsValid

peers_remove-IsValid_example : IsValid (peers_remove table (49 ∷ []) 80)
peers_remove-IsValid_example = peers_remove-IsValid table (49 ∷ []) 80 table-IsValid

peers_find-peers_add_example : peers_find (peers_add table new) (50 ∷ []) 81 ≡ (
    if ltb new.port 65536 && is_at (50 ∷ []) (u16 81) new
    then some new
    else peers_find table (50 ∷ []) 81)
unfolding peers_find find_slot is_at str_eq
peers_find-peers_add_example =
    peers_find-peers_add table new (50 ∷ []) 81 table-IsValid (omega arith) refl

peers_find-peers_remove_example :
    (peers_find (peers_remove table (49 ∷ []) 80) (49 ∷ []) 80 ≡ (
      if str_eq (49 ∷ []) (49 ∷ []) && 80 == u16 80 then none else peers_find table (49 ∷ []) 80))
    × Distinct (peers_remove table (49 ∷ []) 80).list
unfolding peers_find find_slot is_at str_eq
peers_find-peers_remove_example = peers_find-peers_remove table (49 ∷ []) (49 ∷ []) 80 80 (refl, tt)

reqs_drain-enqueue_all_example :
    Ensures
      (λ (q, ys). ys ≡ 7 ∷ 8 ∷ 9 ∷ [])
      (do r ← enqueue_all (reqs_create []) (7 ∷ 8 ∷ 9 ∷ []); reqs_drain 4 r.queue)
reqs_drain-enqueue_all_example = reqs_drain-enqueue_all [] (7 ∷ 8 ∷ 9 ∷ [])

-- A queue of two requests, with a cell that was freed between their nodes.
abbrev two : QueueState
two = record {
  heap =
      some (record { q_data = 7; next = some 2 })
      ∷ none
      ∷ some (record { q_data = 8; next = none })
      ∷ [];
  head = some 0;
  tail = some 2;
}

two-IsQueue : IsQueue two (7 ∷ 8 ∷ [])
two-IsQueue = record {
  cells = (0, 7) ∷ (2, 8) ∷ [];
  chain = (refl, ((λ e. omega arith), tt), (refl, tt, tt));
  head = refl;
  tail = refl;
  holds = refl;
}

abbrev waiting_two : RequestQ
waiting_two = record { queue = two; count = 2; ready = 1 }

reqs_dequeue-IsRequestQ_example :
    Ensures (λ (r', d). (d ≡ some 7) × IsRequestQ r' (8 ∷ [])) (reqs_dequeue waiting_two)
reqs_dequeue-IsRequestQ_example =
    reqs_dequeue-IsRequestQ waiting_two (7 ∷ 8 ∷ []) (record { queue = two-IsQueue; count = refl })
