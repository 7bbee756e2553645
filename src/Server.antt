-- ===== src/Server.antt =====
-- src/peer_2_peer/peer_server.c: the thread that accepts connections. What `accept` returns is a
-- parameter.
use peer_file_torrent.Base.{ℕ, Option, none, some, List, [], ◌∷◌, ◌++◌, length, u16}
use peer_file_torrent.Queue.{reqs_create}
use peer_file_torrent.Peers.{peer_create, peers_add}
use peer_file_torrent.Handler.Notify.{Shared}

-- A connection: its socket, and the address of the peer.
pub record Accepted : Type 0 where
  pub new_sock_fd : ℕ
  pub ip : List ℕ
  pub port : ℕ

-- A round of the loop of `p2p_server_listening`: the shared data, and the queue of the peer for which a
-- thread was created; `none` is a failure of `accept`.
unfoldable pub accept_peer : Shared → Option Accepted → Shared × Option ℕ
accept_peer sh none = (sh, none)
accept_peer sh (some a) =
    let x = length sh.queues in
    let peer = record (peer_create a.ip a.port x) { sock_fd = u16 a.new_sock_fd } in
    (
      record sh {
        peers = peers_add sh.peers peer;
        queues = sh.queues ++ (some (reqs_create []) ∷ []);
      },
      some x,
    )

-- The threads that were created, oldest first.
unfoldable pub started : Option ℕ → List ℕ → List ℕ
started none threads = threads
started (some x) threads = x ∷ threads

-- `p2p_server_listening`, over what `accept` returns in turn.
unfoldable pub p2p_server_listening : Shared → List (Option Accepted) → Shared × List ℕ
p2p_server_listening sh [] = (sh, [])
p2p_server_listening sh (a ∷ accepted) =
    let (sh', thread) = accept_peer sh a in
    let (sh'', threads) = p2p_server_listening sh' accepted in (sh'', started thread threads)
