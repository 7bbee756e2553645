-- ===== src/System/Invariant.antt =====
-- No step of the command line or the server breaks the table or the queues.
use peer_file_torrent.Base.{
  ℕ, refl, inl, inr, Bool, Option, none, some, List, str_eq, Bool-cases, Returns, returned,
  Returns-then, returned_value,
}
use peer_file_torrent.Peers.{peer_create}
use peer_file_torrent.Handler.Notify.{Shared}
use peer_file_torrent.Server.{Accepted, accept_peer}
use peer_file_torrent.Cli.{Cli, Network, Fresh, print}
use peer_file_torrent.Cli.Commands.{
  connect_name, disconnect_name, addpackage_name, rempackage_name, packages_name, peers_name,
  fetch_name, quit_name, run_named, run_command, cli_process_command,
}
use peer_file_torrent.System.{IsConnected, Step, accepts, processes}
use peer_file_torrent.System.Growth.{add_peer-IsConnected}
use peer_file_torrent.System.Commands.{
  Keeps, if-Keeps, run_connect-IsConnected, run_disconnect-Keeps, run_add-Keeps, run_rem-Keeps,
  cli_report_packages-Keeps, run_fetch-Keeps, cli_list_peers-Keeps,
}

-- Any command but QUIT.
run_named-Keeps :
    (net : Network) (g : Fresh) (fuel : ℕ) (c : Cli) (command : List ℕ) (args : Option (List ℕ))
    → IsConnected c.shared
    → Keeps (run_named net g fuel c command args)
unfolding run_named print
run_named-Keeps net g fuel c command args v =
    if-Keeps (str_eq command connect_name) (returned (run_connect-IsConnected net c args v)) (
      if-Keeps (str_eq command disconnect_name) (run_disconnect-Keeps c args v) (
        if-Keeps (str_eq command addpackage_name) (run_add-Keeps g c args v) (
          if-Keeps (str_eq command rempackage_name) (run_rem-Keeps fuel c args v) (
            if-Keeps (str_eq command packages_name) (cli_report_packages-Keeps fuel c v) (
              if-Keeps (str_eq command peers_name) (cli_list_peers-Keeps c v)
                (if-Keeps (str_eq command fetch_name) (run_fetch-Keeps c args v) (returned v)))))))

run_command-IsConnected :
    (net : Network) (g : Fresh) (fuel : ℕ) (c : Cli) (command args : Option (List ℕ))
    → IsConnected c.shared
    → Returns (λ (c', again). IsConnected c'.shared) (run_command net g fuel c command args)
unfolding run_command print
run_command-IsConnected net g fuel c none args v = returned v
run_command-IsConnected net g fuel c (some name) args v =
    elim (Bool-cases (str_eq name quit_name)) [
      | inl e ↦ rw e (returned v)
      | inr e ↦ rw e (Returns-then (run_named-Keeps net g fuel c name args v) λ c' v'. returned v')
    ]

accept_peer-IsConnected :
    (sh : Shared) (a : Option Accepted) → IsConnected sh → IsConnected (accept_peer sh a).0
unfolding accept_peer peer_create
accept_peer-IsConnected sh none v = v
accept_peer-IsConnected sh (some a) v = add_peer-IsConnected sh _ refl v

-- Where the table is valid, and each peer in it has a queue of its own that holds requests in memory,
-- the same is true after an accepted connection, and after any command line whose processing returns,
-- taken as one step in which no handler thread runs.
pub Step-IsConnected :
    (fuel : ℕ) {c c' : Cli} → Step fuel c c' → IsConnected c.shared → IsConnected c'.shared
unfolding cli_process_command
Step-IsConnected fuel (accepts a) v = accept_peer-IsConnected _ a v
Step-IsConnected fuel {c} {c'} (processes net g input again e) v =
    returned_value {P = λ (x : Cli × Bool). IsConnected x.0.shared} (c', again)
      (run_command-IsConnected net g fuel c _ _ v) e
