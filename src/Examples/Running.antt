-- ===== src/Examples/Running.antt =====
-- Two connections are accepted, and the program is left.
use peer_file_torrent.Base.{ℕ, ◌≡◌, [], ◌∷◌, arith, Option, none, some, map, All, Ensures}
use peer_file_torrent.Peers.Queues.{queues_of}
use peer_file_torrent.Handler.Notify.{cancel_all_peers}
use peer_file_torrent.Server.{Accepted, accept_peer}
use peer_file_torrent.Cli.{Cli}
use peer_file_torrent.System.{IsConnected, accepts, init_server}
use peer_file_torrent.System.Invariant.{Step-IsConnected}
use peer_file_torrent.System.Shutdown.{
  IsToldToLeave, init_server-IsConnected, cancel_all_peers-IsToldToLeave,
}

abbrev connection : ℕ → Option Accepted
connection port = some (record { new_sock_fd = 5; ip = 49 ∷ []; port = port })

abbrev started_cli : Cli
started_cli = record {
  shared = init_server 2;
  files = λ path. none;
  directory = [];
  threads = [];
  output = [];
}

abbrev with_one : Cli
with_one = record started_cli { shared = (accept_peer started_cli.shared (connection 80)).0 }

abbrev with_two : Cli
with_two = record with_one { shared = (accept_peer with_one.shared (connection 81)).0 }

with_one-IsConnected : IsConnected with_one.shared
with_one-IsConnected =
    Step-IsConnected 1 {c = started_cli} (accepts (connection 80))
      (init_server-IsConnected 2 (omega arith))

Step-IsConnected_example : IsConnected with_two.shared
Step-IsConnected_example =
    Step-IsConnected 1 {c = with_one} (accepts (connection 81)) with_one-IsConnected

cancel_all_peers-IsToldToLeave_example :
    Ensures
      (λ sh'.
        All (IsToldToLeave with_two.shared sh') (queues_of with_two.shared.peers.list)
        × (sh'.peers.list ≡ map (λ _. none) with_two.shared.peers.list))
      (cancel_all_peers with_two.shared)
cancel_all_peers-IsToldToLeave_example =
    cancel_all_peers-IsToldToLeave with_two.shared
      (Step-IsConnected 1 {c = with_one} (accepts (connection 81)) with_one-IsConnected)
