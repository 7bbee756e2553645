-- ===== src/Peers.antt =====
-- src/peer_2_peer/peer_data_sync.c: the table of connected peers. The C array of `npeers_max`
-- pointers is a list of slots; the mutex makes each operation one step.
pub mod Lookup
pub mod Valid
pub mod Queues
use peer_file_torrent.Base.{
  ℕ, zero, suc, ◌+◌, ◌-◌, ◌%◌, Bool, true, false, ◌&&◌, Option, none, some, List, [], ◌∷◌, ltb, leb,
  ◌==◌, if◌then◌else◌, u16, u64, take, replicate, str_eq,
}

pub data RequestStatus : Type 0 where
  waiting failed success : RequestStatus

-- `struct peer`, less its thread; `reqs_q` is the index of its request queue (see `Queue`).
pub record Peer : Type 0 where
  pub ip : List ℕ
  pub port : ℕ
  pub sock_fd : ℕ
  pub reqs_q : ℕ

-- `peer_create` with the queue that `reqs_create` returns: 16 is INET_ADDRSTRLEN, and -1 is
-- stored into a `uint16_t`.
unfoldable pub peer_create : List ℕ → ℕ → ℕ → Peer
peer_create ip port reqs_q = record {
  ip = take 16 ip;
  port = port;
  sock_fd = 65535;
  reqs_q = reqs_q;
}

pub record Peers : Type 0 where
  pub list : List (Option Peer)
  pub npeers_cur : ℕ
  pub npeers_max : ℕ

unfoldable pub peer_list_create : ℕ → Peers
peer_list_create max_peers = record {
  list = replicate max_peers none;
  npeers_cur = 0;
  npeers_max = max_peers;
}

-- The loop of `peers_add`: the first free slot is taken. The flag says whether there was one.
fill_slot : Peer → List (Option Peer) → List (Option Peer) × Bool
fill_slot p [] = ([], false)
fill_slot p (none ∷ slots) = (some p ∷ slots, true)
fill_slot p (some q ∷ slots) = let (slots', found) = fill_slot p slots in (some q ∷ slots', found)

unfoldable pub peers_add : Peers → Peer → Peers
unfolding fill_slot
peers_add ps p =
    if leb ps.npeers_max ps.npeers_cur
    then ps
    else (let (slots, found) = fill_slot p ps.list in
        record ps {
          list = slots;
          npeers_cur = if found then u64 (ps.npeers_cur + 1) else ps.npeers_cur;
        })

-- The test that `peers_remove` and `peers_find` make of a peer that is there.
unfoldable pub is_at : List ℕ → ℕ → Peer → Bool
is_at ip port p = str_eq p.ip ip && p.port == port

-- The loop of `peers_remove`: the first slot with that address is cleared.
clear_slot : List ℕ → ℕ → List (Option Peer) → List (Option Peer) × Bool
unfolding is_at
clear_slot ip port [] = ([], false)
clear_slot ip port (none ∷ slots) =
    let (slots', found) = clear_slot ip port slots in (none ∷ slots', found)
clear_slot ip port (some q ∷ slots) =
    let (slots', found) = clear_slot ip port slots in
    if is_at ip port q then (none ∷ slots, true) else (some q ∷ slots', found)

unfoldable pub peers_remove : Peers → List ℕ → ℕ → Peers
unfolding clear_slot
peers_remove ps ip port =
    let (slots, found) = clear_slot ip port ps.list in
    record ps {
      list = slots;
      npeers_cur = if found then u64 (ps.npeers_cur + 18446744073709551615) else ps.npeers_cur;
    }

unfoldable pub find_slot : List ℕ → ℕ → List (Option Peer) → Option Peer
unfolding is_at
find_slot ip port [] = none
find_slot ip port (none ∷ slots) = find_slot ip port slots
find_slot ip port (some q ∷ slots) =
    let later = find_slot ip port slots in if is_at ip port q then some q else later

-- `peers_find`; the port is cut to a `uint16_t` at the call.
unfoldable pub peers_find : Peers → List ℕ → ℕ → Option Peer
unfolding find_slot
peers_find ps ip port = find_slot ip (u16 port) ps.list
