-- ===== src/Examples/Shell.antt =====
-- Two peers and a package on the command line.
use peer_file_torrent.Base.{
  ℕ, zero, suc, ◌≡◌, refl, List, [], ◌∷◌, arith, false, none, some, str_eq, done, Ensures,
}
use peer_file_torrent.Queue.{RequestQ}
use peer_file_torrent.Queue.Fifo.{IsRequestQ}
use peer_file_torrent.Peers.{Peer, peers_find, find_slot, is_at}
use peer_file_torrent.Handler.{is_complete}
use peer_file_torrent.Handler.Held.{Entry}
use peer_file_torrent.Handler.Replies.{bare}
use peer_file_torrent.Handler.Notify.{Shared}
use peer_file_torrent.Handler.Backlog.{Waiting, Notified}
use peer_file_torrent.Load.{Files}
use peer_file_torrent.Cli.{
  Cli, connected_to, peer_line, package_line, print_all, not_positive, cli_list_peers,
  cli_report_packages, cli_disconnect,
}
use peer_file_torrent.Cli.Lists.{cli_list_peers-Notified, cli_report_packages-package_lines}
use peer_file_torrent.Cli.Effects.{IsLeaving, cli_disconnect-IsLeaving}
use peer_file_torrent.Examples.Serving.{
  three, three-IsRequestQ, in_memory, entry, managed, managed-IsBpkgs, one_chunk, chunk_node,
}

abbrev first_peer : Peer
first_peer = record { ip = 49 ∷ []; port = 80; sock_fd = 3; reqs_q = 0 }

abbrev second_peer : Peer
second_peer = record { ip = 50 ∷ []; port = 81; sock_fd = 4; reqs_q = 1 }

abbrev empty : RequestQ
empty = record { queue = record { heap = []; head = none; tail = none }; count = 0; ready = 1 }

-- The queue of the first peer holds three requests.
abbrev shared : Shared
shared = record {
  peers = record {
    list = some first_peer ∷ none ∷ some second_peer ∷ [];
    npeers_cur = 2;
    npeers_max = 3;
  };
  queues = some three ∷ some empty ∷ [];
  memory = record {
    requests = in_memory 0 ∷ in_memory 1 ∷ in_memory 2 ∷ [];
    pkts = some (bare 255) ∷ some (bare 255) ∷ some (bare 3) ∷ [];
  };
  bpkgs = managed;
}

abbrev queued : List Entry
queued = entry 0 (bare 255) ∷ entry 1 (bare 255) ∷ entry 2 (bare 3) ∷ []

abbrev backlog : ℕ → List Entry
backlog zero = queued
backlog (suc x) = []

first_waiting : Waiting shared 0 queued
first_waiting = record {
  reqs_q = three;
  at = refl;
  queue = three-IsRequestQ;
  held = (
    (refl, refl),
    (((λ e. omega arith), (λ e. omega arith)), (((λ e. omega arith), (λ e. omega arith)), tt)),
    ((refl, refl), (((λ e. omega arith), (λ e. omega arith)), tt), ((refl, refl), tt, tt)),
  );
}

empty-IsRequestQ : IsRequestQ empty []
empty-IsRequestQ = record {
  queue = record { cells = []; chain = tt; head = refl; tail = refl; holds = refl };
  count = refl;
}

second_waiting : Waiting shared 1 []
second_waiting = record { reqs_q = empty; at = refl; queue = empty-IsRequestQ; held = tt }

-- A package file that is not there, and one that is empty.
abbrev some_files : Files
some_files [] = none
some_files (x ∷ path) = some []

abbrev cli : Cli
cli = record {
  shared = shared;
  files = some_files;
  directory = 100 ∷ [];
  threads = [];
  output = [];
}

cli_list_peers-Notified_example :
    Ensures
      (λ c'.
        (c'.output ≡ connected_to ∷ peer_line 1 (49 ∷ []) 80 ∷ peer_line 2 (50 ∷ []) 81 ∷ [])
        × Notified (bare 255) backlog c'.shared (0 ∷ 1 ∷ [])
        × (c'.shared.peers ≡ shared.peers))
      (cli_list_peers cli)
cli_list_peers-Notified_example =
    cli_list_peers-Notified cli backlog refl refl (((λ e. omega arith), tt), (tt, tt))
      (first_waiting, (second_waiting, tt))

cli_report_packages-package_lines_example :
    cli_report_packages 2 cli
    ≡ done (print_all cli (package_line 1 (65 ∷ 49 ∷ []) (102 ∷ []) (is_complete chunk_node) ∷ []))
cli_report_packages-package_lines_example =
    cli_report_packages-package_lines 2 cli (0 ∷ []) ((one_chunk, chunk_node) ∷ []) managed-IsBpkgs
      ((refl, (0, refl, refl)), tt) refl (omega arith)

second_found : peers_find shared.peers (50 ∷ []) 81 ≡ some second_peer
unfolding peers_find find_slot is_at str_eq
second_found = refl

positive : not_positive 81 ≡ false
unfolding not_positive
positive = refl

cli_disconnect-IsLeaving_example :
    Ensures (IsLeaving cli (50 ∷ []) 81 second_peer []) (cli_disconnect cli (50 ∷ []) 81)
unfolding find_slot is_at str_eq
cli_disconnect-IsLeaving_example =
    cli_disconnect-IsLeaving cli (50 ∷ []) 81 second_peer [] positive (refl, (refl, tt))
      second_found second_waiting
