-- ===== src/System.antt =====
-- The command line and the server on what they share: a command line, or an accepted connection, as
-- one step, between whatever the handler threads do.
pub mod Growth
pub mod Commands
pub mod Invariant
pub mod Shutdown
use peer_file_torrent.Base.{ℕ, ◌≡◌, Bool, List, [], Option, All, done}
use peer_file_torrent.Package.{pkgs_init}
use peer_file_torrent.Peers.{peer_list_create}
use peer_file_torrent.Peers.Valid.{IsValid}
use peer_file_torrent.Peers.Queues.{queues_of, Distinct}
use peer_file_torrent.Handler.Held.{Entry}
use peer_file_torrent.Handler.Notify.{Shared}
use peer_file_torrent.Handler.Backlog.{Waiting}
use peer_file_torrent.Server.{Accepted, accept_peer}
use peer_file_torrent.Cli.{Cli, Network, Fresh}
use peer_file_torrent.Cli.Commands.{cli_process_command}

-- What `init_server` creates, from the configured number of peers.
unfoldable pub init_server : ℕ → Shared
init_server max_peers = record {
  peers = peer_list_create max_peers;
  queues = [];
  memory = record { requests = []; pkts = [] };
  bpkgs = pkgs_init;
}

-- A step: the server accepts a connection, or a command line is processed.
pub data Step (fuel : ℕ) (c : Cli) : Cli → Type 0 where
  accepts : (a : Option Accepted) → Step fuel c (record c { shared = (accept_peer c.shared a).0 })
  processes :
      {c' : Cli} (net : Network) (g : Fresh) (input : List ℕ) (again : Bool)
      → cli_process_command net g fuel c input ≡ done (c', again)
      → Step fuel c c'

-- The queue at `x` holds some requests, which are in memory.
abbrev pub IsQueued : Shared → ℕ → Type 0
IsQueued sh x = (es : List Entry) × Waiting sh x es

-- The table is valid, each peer in it has a queue of its own, and these hold requests in memory.
pub record IsConnected (sh : Shared) : Type 0 where
  pub valid : IsValid sh.peers
  pub distinct : Distinct (queues_of sh.peers.list)
  pub queued : All (IsQueued sh) (queues_of sh.peers.list)
