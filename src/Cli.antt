-- ===== src/Cli.antt =====
-- src/peer_2_peer/cli.c: the commands. What a command prints is a list of messages; the network is a
-- parameter.
pub mod Scan
pub mod Commands
pub mod Lists
pub mod Effects
use peer_file_torrent.Base.{
  ℕ, zero, suc, ◌+◌, ◌-◌, Bool, true, false, not, ◌&&◌, ◌||◌, Option, none, some, List, [], ◌∷◌,
  ◌++◌, ltb, leb, ◌==◌, if◌then◌else◌, length, take, drop, set, get_elem?, strn_eq, Run, done, fail,
  fault, out_of_fuel, ◌>>=◌, deref,
}
use peer_file_torrent.Queue.{load, reqs_create}
use peer_file_torrent.Merkle.{Node, node_at}
use peer_file_torrent.Package.{Bpkg, Bpkgs, pkgs_add, pkgs_rem}
use peer_file_torrent.Peers.{Peer, Peers, peer_create, peers_add, peers_remove, peers_find}
use peer_file_torrent.Packet.{Pkt, pkt_create}
use peer_file_torrent.Handler.{pkt_msg_dsn, pkt_msg_png, empty_payload, is_complete}
use peer_file_torrent.Handler.Notify.{Shared, enqueue_pkt}
use peer_file_torrent.Load.{Disk, Files, bpkg_load}
use peer_file_torrent.Unpack.{Unused}

-- What is printed.
pub data Message : Type 0 where
  invalid_input missing_address already_connected could_not_connect table_full : Message
  connected unknown_peer disconnected missing_file missing_ident short_ident : Message
  no_such_package removed no_packages invalid_package no_peers connected_to : Message
  missing_arguments wrong_arguments : Message
  package_line : ℕ → List ℕ → List ℕ → Bool → Message
  peer_line : ℕ → List ℕ → ℕ → Message

-- What the commands work on: the shared data, the files, the directory of the packages, the queues of
-- the peers for which a thread was created, and the output.
pub record Cli : Type 0 where
  pub shared : Shared
  pub files : Files
  pub directory : List ℕ
  pub threads : List ℕ
  pub output : List Message

unfoldable pub print : Message → Cli → Cli
print m c = record c { output = c.output ++ (m ∷ []) }

-- What `socket` returns, as it is stored, and whether `connect` succeeds.
pub record Network : Type 0 where
  pub socket : ℕ
  pub connect : List ℕ → ℕ → Bool

-- What the memory of new nodes and of a new package held, and what the operating system says of
-- paths.
pub record Fresh : Type 0 where
  pub os : Disk
  pub nodes : Unused
  pub ident : List ℕ
  pub f_size : ℕ

-- `port <= 0`, where the number is an `int` that was read as a `uint32_t`.
unfoldable pub not_positive : ℕ → Bool
not_positive port = port == 0 || leb 2147483648 port

-- `cli_connect` once the peer is connected.
unfoldable pub print_full : Peers → Cli → Cli
print_full ps c = if leb ps.npeers_max ps.npeers_cur then print table_full c else c

unfoldable pub connect_peer : Cli → Peer → Cli
connect_peer c peer =
    let ps = c.shared.peers in
    let c' = print_full ps c in
    print connected (record c' {
      shared = record c'.shared { peers = peers_add ps peer };
      threads = c'.threads ++ (peer.reqs_q ∷ []);
    })

-- `cli_connect` for a peer that is new; the queue is destroyed when there is no connection.
unfoldable pub connect_new : Network → Cli → List ℕ → ℕ → Cli
connect_new net c ip port =
    let x = length c.shared.queues in
    let peer = record (peer_create ip port x) { sock_fd = net.socket } in
    let queued = some (reqs_create []) in
    if net.connect ip peer.port
    then connect_peer
        (record c { shared = record c.shared { queues = c.shared.queues ++ (queued ∷ []) } }) peer
    else print could_not_connect
        (record c { shared = record c.shared { queues = c.shared.queues ++ (none ∷ []) } })

unfoldable pub connect_unless : Network → Cli → List ℕ → ℕ → Option Peer → Cli
connect_unless net c ip port none = connect_new net c ip port
connect_unless net c ip port (some p) = print already_connected c

unfoldable pub cli_connect : Network → Cli → List ℕ → ℕ → Cli
cli_connect net c ip port =
    if not_positive port
    then c
    else connect_unless net c ip port (peers_find c.shared.peers ip port)

-- `cli_disconnect`.
unfoldable pub disconnect_from : Cli → List ℕ → ℕ → Option Peer → Run Cli
disconnect_from c ip port none = done (print unknown_peer c)
disconnect_from c ip port (some peer) = do
  sh ←
      enqueue_pkt (record c.shared { peers = peers_remove c.shared.peers ip port }) peer.reqs_q
        (pkt_create pkt_msg_dsn 0 empty_payload)
  done (print disconnected (record c { shared = sh }))

unfoldable pub cli_disconnect : Cli → List ℕ → ℕ → Run Cli
cli_disconnect c ip port =
    if not_positive port
    then done (print missing_address c)
    else disconnect_from c ip port (peers_find c.shared.peers ip port)

-- `cli_add_package`: a package that could not be loaded is added as a null pointer.
unfoldable pub package_path : List ℕ → List ℕ → List ℕ
package_path directory filename =
    let name = if strn_eq 2 filename (46 ∷ 47 ∷ []) then drop 2 filename else filename in
    take 511 (directory ++ (47 ∷ name))

unfoldable pub add_loaded : Cli → Files × Option Bpkg → Run Cli
add_loaded c (fs, bpkg) = do
  let b = c.shared.bpkgs
  b' ← pkgs_add (record b { objects = b.objects ++ (bpkg ∷ []) }) (length b.objects)
  done (record c { shared = record c.shared { bpkgs = b' }; files = fs })

unfoldable pub add_path : Fresh → Cli → List ℕ → Run Cli
add_path g c filename = do
  loaded ← bpkg_load g.os g.nodes g.ident g.f_size c.files (package_path c.directory filename)
  add_loaded c loaded

unfoldable pub cli_add_package : Fresh → Cli → List ℕ → Run Cli
cli_add_package g c filename =
    if leb (length filename) 1 then done (print missing_file c) else add_path g c filename

-- `cli_rem_package`, with fuel for the number of packages.
unfoldable pub removal : Cli → Run Bpkgs → Run Cli
removal c (done b) = done (print removed (record c { shared = record c.shared { bpkgs = b } }))
removal c fail = done (print no_such_package c)
removal c fault = fault
removal c out_of_fuel = out_of_fuel

unfoldable pub cli_rem_package : ℕ → Cli → List ℕ → Run Cli
cli_rem_package fuel c ident =
    if ltb (length ident) 20
    then done (print short_ident c)
    else removal c (pkgs_rem fuel c.shared.bpkgs ident)

-- A round of the loop of `cli_report_packages`: the line, and the number of the next one.
unfoldable pub line_for_root : ℕ → Bpkg → Option ℕ → Run (Message × ℕ)
line_for_root i bpkg none = done (invalid_package, i)
line_for_root i bpkg (some r) = do
  root ← node_at bpkg.mtree.nodes r
  done (package_line i (take 32 bpkg.ident) bpkg.filename (is_complete root), i + 1)

unfoldable pub line_for : ℕ → Option Bpkg → Run (Message × ℕ)
line_for i none = done (invalid_package, i)
line_for i (some bpkg) = line_for_root i bpkg bpkg.mtree.root

unfoldable pub report_step :
    (ℕ → Option ℕ → Run (List Message)) → Bpkgs → ℕ → Option ℕ → Run (List Message)
report_step rec b i none = done []
report_step rec b i (some a) = do
  n ← load b.ls.heap a
  cell ← deref (get_elem? b.objects n.q_data)
  (m, next) ← line_for i cell
  ms ← rec next n.next
  done (m ∷ ms)

unfoldable pub report_loop : ℕ → Bpkgs → ℕ → Option ℕ → Run (List Message)
report_loop zero b i current = out_of_fuel
report_loop (suc fuel) b i current = report_step (report_loop fuel b) b i current

unfoldable pub print_all : Cli → List Message → Cli
print_all c ms = record c { output = c.output ++ ms }

-- `cli_report_packages`, with fuel for the number of packages.
unfoldable pub cli_report_packages : ℕ → Cli → Run Cli
cli_report_packages fuel c =
    let b = c.shared.bpkgs in
    if b.count == 0
    then done (print no_packages c)
    else (do ms ← report_loop fuel b 1 b.ls.head; done (print_all c ms))

-- The loop of `cli_list_peers`.
unfoldable pub list_slots : ℕ → ℕ → List (Option Peer) → Cli → Run Cli
list_slots j zero slots c = done c
list_slots j (suc n) [] c = fault
list_slots j (suc n) (none ∷ slots) c = list_slots j n slots c
list_slots j (suc n) (some peer ∷ slots) c = do
  sh ← enqueue_pkt c.shared peer.reqs_q (pkt_create pkt_msg_png 0 empty_payload)
  list_slots (j + 1) n slots (print (peer_line j peer.ip peer.port) (record c { shared = sh }))

-- `cli_list_peers`.
unfoldable pub cli_list_peers : Cli → Run Cli
cli_list_peers c =
    let ps = c.shared.peers in
    if ps.npeers_cur == 0
    then done (print no_peers c)
    else list_slots 1 ps.npeers_max ps.list (print connected_to c)
