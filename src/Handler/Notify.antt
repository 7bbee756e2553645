-- ===== src/Handler/Notify.antt =====
-- src/peer_2_peer/peer_handler.c and src/peer_2_peer/package.c: requests for other threads. What the
-- threads share are the peers, their request queues, the requests in memory and the packages.
use peer_file_torrent.Base.{
  ℕ, zero, suc, Option, none, some, List, [], ◌∷◌, map, set, Run, done, fault, ◌>>=◌,
}
use peer_file_torrent.Queue.{RequestQ, reqs_enqueue}
use peer_file_torrent.Package.{Bpkgs}
use peer_file_torrent.Peers.{Peer, Peers}
use peer_file_torrent.Packet.{Pkt, pkt_create}
use peer_file_torrent.Handler.{pkt_msg_png, pkt_msg_dsn, empty_payload}
use peer_file_torrent.Handler.Loop.{Memory, live, req_create}

-- A queue is `none` once it is destroyed.
pub record Shared : Type 0 where
  pub peers : Peers
  pub queues : List (Option RequestQ)
  pub memory : Memory
  pub bpkgs : Bpkgs

-- A request with the packet is created, and put into the queue at `x`.
unfoldable pub enqueue_pkt : Shared → ℕ → Pkt → Run Shared
enqueue_pkt sh x p = do
  let (m, r) = req_create sh.memory p
  q ← live sh.queues x
  q ← reqs_enqueue q r
  done (record sh { memory = m; queues = set sh.queues x (some q) })

-- The loop that puts a packet into the queues of the peers in the first `n` slots.
unfoldable pub notify : Pkt → ℕ → List (Option Peer) → Shared → Run Shared
notify p zero slots sh = done sh
notify p (suc n) [] sh = fault
notify p (suc n) (none ∷ slots) sh = notify p n slots sh
notify p (suc n) (some peer ∷ slots) sh = do sh ← enqueue_pkt sh peer.reqs_q p; notify p n slots sh

-- `send_png_all`, which goes to the number of peers, and not to the end of the table.
unfoldable pub send_png_all : Shared → Run Shared
send_png_all sh =
    notify (pkt_create pkt_msg_png 0 empty_payload) sh.peers.npeers_cur sh.peers.list sh

-- `cancel_all_peers`, up to the release of the table.
unfoldable pub cancel_all_peers : Shared → Run Shared
cancel_all_peers sh = do
  sh ← notify (pkt_create pkt_msg_dsn 0 empty_payload) sh.peers.npeers_max sh.peers.list sh
  done (record sh { peers = record sh.peers { list = map (λ _. none) sh.peers.list } })
