-- ===== src/System/Commands.antt =====
-- No command breaks the table or the queues.
use peer_file_torrent.Base.{
  ℕ, zero, suc, ◌+◌, ◌≤◌, ◌≡◌, refl, sym, subst, inl, inr, arith, Bool, true, false, Option, none,
  some, List, [], ◌∷◌, ◌++◌, leb, ltb, ◌==◌, length, All, All-map, Bool-cases, if◌then◌else◌, Run,
  done, fail, fault, out_of_fuel, Returns, returned, faulting, starved, Returns-then, after,
  Ensures-Returns,
}
use peer_file_torrent.Package.{Bpkg, Bpkgs, pkgs_add, pkgs_rem}
use peer_file_torrent.Peers.{Peer, peer_create, peers_add, peers_find, peers_remove}
use peer_file_torrent.Peers.Valid.{peers_remove-IsValid}
use peer_file_torrent.Peers.Queues.{
  queues_of, peers_find-All, peers_remove-All, peers_remove-Distinct,
}
use peer_file_torrent.Handler.Notify.{Shared}
use peer_file_torrent.Load.{Files, bpkg_load}
use peer_file_torrent.Cli.{
  Cli, Network, Fresh, print, print_full, print_all, not_positive, connect_peer, connect_new,
  connect_unless, cli_connect, disconnect_from, cli_disconnect, add_loaded, add_path, package_path,
  cli_add_package, removal, cli_rem_package, report_loop, cli_report_packages, cli_list_peers,
  connected_to, list_slots,
}
use peer_file_torrent.Cli.Scan.{scan_address, scan_fetch}
use peer_file_torrent.Cli.Commands.{
  fetch_scanned, cli_fetch, connect_to, run_connect, disconnect_at, run_disconnect, run_add,
  run_rem, run_fetch,
}
use peer_file_torrent.System.{IsQueued, IsConnected}
use peer_file_torrent.System.Growth.{
  Grows-IsConnected, add_queue-Grows, add_peer-IsConnected, enqueue_pkt-Grows,
}

-- The shared data of the state that a command returns, if it does.
abbrev pub Keeps : Run Cli → Type 0
Keeps r = Returns (λ c. IsConnected c.shared) r

pub if-Keeps : {r r' : Run Cli} (test : Bool) → Keeps r → Keeps r' → Keeps (if test then r else r')
if-Keeps true h h' = h
if-Keeps false h h' = h'

-- The packages do not matter.
with_bpkgs : (sh : Shared) (b : Bpkgs) → IsConnected sh → IsConnected (record sh { bpkgs = b })
with_bpkgs sh b v = record {
  valid = v.valid;
  distinct = v.distinct;
  queued =
      All-map (queues_of sh.peers.list) v.queued
        λ y (es, u). (es, record { reqs_q = u.reqs_q; at = u.at; queue = u.queue; held = u.held });
}

without_peer :
    (sh : Shared) (ip : List ℕ) (port : ℕ)
    → IsConnected sh
    → IsConnected (record sh { peers = peers_remove sh.peers ip port })
without_peer sh ip port v = record {
  valid = peers_remove-IsValid sh.peers ip port v.valid;
  distinct = peers_remove-Distinct sh.peers ip port v.distinct;
  queued = peers_remove-All _ sh.peers ip port (
      All-map (queues_of sh.peers.list) v.queued
        λ y (es, u). (es, record { reqs_q = u.reqs_q; at = u.at; queue = u.queue; held = u.held }));
}

connect_peer-shared :
    (c : Cli) (peer : Peer)
    → (connect_peer c peer).shared ≡ record c.shared { peers = peers_add c.shared.peers peer }
unfolding connect_peer print_full print
connect_peer-shared c peer =
    elim (Bool-cases (leb c.shared.peers.npeers_max c.shared.peers.npeers_cur)) [
      | inl e ↦ rw e refl
      | inr e ↦ rw e refl
    ]

connect_new-IsConnected :
    (net : Network) (c : Cli) (ip : List ℕ) (port : ℕ)
    → IsConnected c.shared
    → IsConnected (connect_new net c ip port).shared
unfolding connect_new print peer_create
connect_new-IsConnected net c ip port v =
    let sh = c.shared in
    let peer = record (peer_create ip port (length sh.queues)) { sock_fd = net.socket } in
    elim (Bool-cases (net.connect ip peer.port)) [
      | inl e ↦ rw e (
          subst IsConnected (sym (connect_peer-shared _ peer))
            (add_peer-IsConnected sh peer refl v))
      | inr e ↦ rw e (Grows-IsConnected sh _ (add_queue-Grows sh none) v)
    ]

connect_unless-IsConnected :
    (net : Network) (c : Cli) (ip : List ℕ) (port : ℕ) (found : Option Peer)
    → IsConnected c.shared
    → IsConnected (connect_unless net c ip port found).shared
unfolding connect_unless print
connect_unless-IsConnected net c ip port none v = connect_new-IsConnected net c ip port v
connect_unless-IsConnected net c ip port (some p) v = v

cli_connect-IsConnected :
    (net : Network) (c : Cli) (ip : List ℕ) (port : ℕ)
    → IsConnected c.shared
    → IsConnected (cli_connect net c ip port).shared
unfolding cli_connect
cli_connect-IsConnected net c ip port v = elim (Bool-cases (not_positive port)) [
  | inl e ↦ rw e v
  | inr e ↦ rw e (connect_unless-IsConnected net c ip port (peers_find c.shared.peers ip port) v)
]

connect_to-IsConnected :
    (net : Network) (c : Cli) (address : Option (List ℕ × ℕ))
    → IsConnected c.shared
    → IsConnected (connect_to net c address).shared
unfolding connect_to print
connect_to-IsConnected net c none v = v
connect_to-IsConnected net c (some (ip, port)) v = cli_connect-IsConnected net c ip port v

pub run_connect-IsConnected :
    (net : Network) (c : Cli) (args : Option (List ℕ))
    → IsConnected c.shared
    → IsConnected (run_connect net c args).shared
unfolding run_connect print
run_connect-IsConnected net c none v = v
run_connect-IsConnected net c (some args) v = connect_to-IsConnected net c (scan_address args) v

disconnect_from-Keeps :
    (c : Cli) (ip : List ℕ) (port : ℕ) (found : Option Peer)
    → peers_find c.shared.peers ip port ≡ found
    → IsConnected c.shared
    → Keeps (disconnect_from c ip port found)
unfolding disconnect_from print
disconnect_from-Keeps c ip port none e v = returned v
disconnect_from-Keeps c ip port (some p) e v =
    let ps = peers_remove c.shared.peers ip port in
    let sh : Shared = record c.shared { peers = ps } in
    let (es, u) = peers_find-All (IsQueued c.shared) c.shared.peers ip port p v.queued e in
    let own : IsQueued sh p.reqs_q =
      (es, record { reqs_q = u.reqs_q; at = u.at; queue = u.queue; held = u.held }) in
    Returns-then (Ensures-Returns (enqueue_pkt-Grows sh p.reqs_q _ own))
      λ sh' g. returned (Grows-IsConnected sh sh' g (without_peer c.shared ip port v))

cli_disconnect-Keeps :
    (c : Cli) (ip : List ℕ) (port : ℕ) → IsConnected c.shared → Keeps (cli_disconnect c ip port)
unfolding cli_disconnect print
cli_disconnect-Keeps c ip port v = elim (Bool-cases (not_positive port)) [
  | inl e ↦ rw e (returned v)
  | inr e ↦ rw e (disconnect_from-Keeps c ip port (peers_find c.shared.peers ip port) refl v)
]

disconnect_at-Keeps :
    (c : Cli) (address : Option (List ℕ × ℕ))
    → IsConnected c.shared
    → Keeps (disconnect_at c address)
unfolding disconnect_at print
disconnect_at-Keeps c none v = returned v
disconnect_at-Keeps c (some (ip, port)) v = cli_disconnect-Keeps c ip port v

pub run_disconnect-Keeps :
    (c : Cli) (args : Option (List ℕ)) → IsConnected c.shared → Keeps (run_disconnect c args)
unfolding run_disconnect print
run_disconnect-Keeps c none v = returned v
run_disconnect-Keeps c (some args) v = disconnect_at-Keeps c (scan_address args) v

-- ADDPACKAGE and REMPACKAGE change the packages alone.
add_loaded-Keeps :
    (c : Cli) (loaded : Files × Option Bpkg) → IsConnected c.shared → Keeps (add_loaded c loaded)
unfolding add_loaded
add_loaded-Keeps c (fs, bpkg) v =
    let b = c.shared.bpkgs in
    after (pkgs_add (record b { objects = b.objects ++ (bpkg ∷ []) }) (length b.objects))
      λ b'. returned (with_bpkgs c.shared b' v)

cli_add_package-Keeps :
    (g : Fresh) (c : Cli) (filename : List ℕ)
    → IsConnected c.shared
    → Keeps (cli_add_package g c filename)
unfolding cli_add_package add_path print
cli_add_package-Keeps g c filename v = elim (Bool-cases (leb (length filename) 1)) [
  | inl e ↦ rw e (returned v)
  | inr e ↦ rw e (
      after (bpkg_load g.os g.nodes g.ident g.f_size c.files (package_path c.directory filename))
        λ loaded. add_loaded-Keeps c loaded v)
]

pub run_add-Keeps :
    (g : Fresh) (c : Cli) (args : Option (List ℕ)) → IsConnected c.shared → Keeps (run_add g c args)
unfolding run_add print
run_add-Keeps g c none v = returned v
run_add-Keeps g c (some args) v = cli_add_package-Keeps g c args v

removal-Keeps : (c : Cli) (r : Run Bpkgs) → IsConnected c.shared → Keeps (removal c r)
unfolding removal print
removal-Keeps c (done b) v = returned (with_bpkgs c.shared b v)
removal-Keeps c fail v = returned v
removal-Keeps c fault v = faulting
removal-Keeps c out_of_fuel v = starved

pub run_rem-Keeps :
    (fuel : ℕ) (c : Cli) (args : Option (List ℕ))
    → IsConnected c.shared
    → Keeps (run_rem fuel c args)
unfolding run_rem cli_rem_package print
run_rem-Keeps fuel c none v = returned v
run_rem-Keeps fuel c (some ident) v = elim (Bool-cases (ltb (length ident) 20)) [
  | inl e ↦ rw e (returned v)
  | inr e ↦ rw e (removal-Keeps c (pkgs_rem fuel c.shared.bpkgs ident) v)
]

-- PACKAGES and FETCH change nothing that is shared.
pub cli_report_packages-Keeps :
    (fuel : ℕ) (c : Cli) → IsConnected c.shared → Keeps (cli_report_packages fuel c)
unfolding cli_report_packages print print_all
cli_report_packages-Keeps fuel c v =
    if-Keeps (c.shared.bpkgs.count == 0) (returned v)
      (after (report_loop fuel c.shared.bpkgs 1 c.shared.bpkgs.ls.head) λ ms. returned v)

fetch_scanned-IsConnected :
    (c : Cli) (ok : Bool) → IsConnected c.shared → IsConnected (fetch_scanned c ok).shared
unfolding fetch_scanned print
fetch_scanned-IsConnected c true v = v
fetch_scanned-IsConnected c false v = v

pub run_fetch-Keeps :
    (c : Cli) (args : Option (List ℕ)) → IsConnected c.shared → Keeps (run_fetch c args)
unfolding run_fetch cli_fetch print
run_fetch-Keeps c none v = returned v
run_fetch-Keeps c (some args) v =
    after (scan_fetch args) λ ok. returned (fetch_scanned-IsConnected c ok v)

-- PEERS puts pings into the queues.
list_slots-Keeps :
    (j n : ℕ) (slots : List (Option Peer)) (c : Cli)
    → n ≤ length slots
    → All (IsQueued c.shared) (queues_of slots)
    → IsConnected c.shared
    → Keeps (list_slots j n slots c)
unfolding list_slots print
list_slots-Keeps j zero slots c le q v = returned v
list_slots-Keeps j (suc n) [] c le q v = absurd (omega arith)
list_slots-Keeps j (suc n) (none ∷ slots) c le q v = list_slots-Keeps j n slots c (omega arith) q v
list_slots-Keeps j (suc n) (some p ∷ slots) c le (own, q) v =
    Returns-then (Ensures-Returns (enqueue_pkt-Grows c.shared p.reqs_q _ own)) λ sh g.
      list_slots-Keeps (j + 1) n slots _ (omega arith) (All-map (queues_of slots) q g.keeps)
        (Grows-IsConnected c.shared sh g v)

pub cli_list_peers-Keeps : (c : Cli) → IsConnected c.shared → Keeps (cli_list_peers c)
unfolding cli_list_peers print
cli_list_peers-Keeps c v =
    let ps = c.shared.peers in
    let full = v.valid.sized in
    if-Keeps (ps.npeers_cur == 0) (returned v)
      (list_slots-Keeps 1 ps.npeers_max ps.list (print connected_to c) (omega arith) v.queued v)
