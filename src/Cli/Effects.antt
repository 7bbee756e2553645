-- ===== src/Cli/Effects.antt =====
-- What the other commands do.
use peer_file_torrent.Base.{
  ap, sym, ◌∙◌, u16, ltb, ◌==◌, ◌&&◌, if◌then◌else◌, arith, str_eq_refl, ℕ, ◌≡◌, ◌≢◌, refl, subst,
  inl, inr, Bool, true, false, not, Option, none, some, List, [], ◌∷◌, ◌++◌, str_eq, Bool-cases,
  Run, done, fail, fault, out_of_fuel, ◌>>=◌, Ensures, ensured, and_then,
}
use peer_file_torrent.Peers.{Peer, Peers, peers_find, peers_remove}
use peer_file_torrent.Peers.Lookup.{Distinct, peers_find-peers_remove}
use peer_file_torrent.Packet.{pkt_create}
use peer_file_torrent.Handler.Replies.{bare}
use peer_file_torrent.Handler.Held.{Entry}
use peer_file_torrent.Handler.Notify.{Shared}
use peer_file_torrent.Handler.Backlog.{Waiting, enqueue_pkt-Enqueued}
use peer_file_torrent.Cli.{
  Cli, Network, Fresh, print, disconnected, not_positive, disconnect_from, cli_disconnect,
}
use peer_file_torrent.Cli.Scan.{strtok, is_blank}
use peer_file_torrent.Cli.Commands.{quit_name, run_named, run_command, cli_process_command, cli_run}

-- The effect of a disconnect command on the peer: it is not found any more, unless the port has more
-- than 16 bits, no other search has another answer, and a disconnect packet is behind what was waiting
-- in its queue, the other queues holding what they held.
pub record IsLeaving (c : Cli) (ip : List ℕ) (port : ℕ) (p : Peer) (es : List Entry) (c' : Cli)
    : Type 0 where
  pub gone : peers_find c'.shared.peers ip port ≡ (if ltb port 65536 then none else some p)
  pub kept :
      (jp : List ℕ) (qort : ℕ)
      → (str_eq ip jp && port == u16 qort) ≡ false
      → peers_find c'.shared.peers jp qort ≡ peers_find c.shared.peers jp qort
  pub queued : (e : Entry) × (e.pkt ≡ bare 3) × Waiting c'.shared p.reqs_q (es ++ (e ∷ []))
  pub others :
      (y : ℕ) (fs : List Entry) → y ≢ p.reqs_q → Waiting c.shared y fs → Waiting c'.shared y fs
  pub output : c'.output ≡ c.output ++ (disconnected ∷ [])

disconnect_runs :
    (c : Cli) (ip : List ℕ) (port : ℕ)
    → not_positive port ≡ false
    → cli_disconnect c ip port ≡ disconnect_from c ip port (peers_find c.shared.peers ip port)
unfolding cli_disconnect
disconnect_runs c ip port e = rw e refl

-- The searches after the removal.
not_found :
    (ps : Peers) (ip : List ℕ) (port : ℕ) (p : Peer)
    → Distinct ps.list
    → peers_find ps ip port ≡ some p
    → peers_find (peers_remove ps ip port) ip port ≡ (if ltb port 65536 then none else some p)
not_found ps ip port p d found =
    (peers_find-peers_remove ps ip ip port port d).0 ∙ rw (str_eq_refl ip, found) (ground arith)

still_found :
    (ps : Peers) (ip jp : List ℕ) (port qort : ℕ)
    → Distinct ps.list
    → (str_eq ip jp && port == u16 qort) ≡ false
    → peers_find (peers_remove ps ip port) jp qort ≡ peers_find ps jp qort
still_found ps ip jp port qort d other =
    (peers_find-peers_remove ps ip jp port qort d).0 ∙ rw other refl

with_peers :
    (sh : Shared) (ps : Peers) {y : ℕ} {fs : List Entry}
    → Waiting sh y fs
    → Waiting (record sh { peers = ps }) y fs
with_peers sh ps u = record { reqs_q = u.reqs_q; at = u.at; queue = u.queue; held = u.held }

disconnect_from-IsLeaving :
    (c : Cli) (ip : List ℕ) (port : ℕ) (p : Peer) (es : List Entry)
    → Distinct c.shared.peers.list
    → peers_find c.shared.peers ip port ≡ some p
    → Waiting c.shared p.reqs_q es
    → Ensures (IsLeaving c ip port p es) (disconnect_from c ip port (some p))
unfolding disconnect_from pkt_create print
disconnect_from-IsLeaving c ip port p es d found v =
    let sh : Shared = record c.shared { peers = peers_remove c.shared.peers ip port } in
    let here = with_peers c.shared (peers_remove c.shared.peers ip port) v in
    and_then (enqueue_pkt-Enqueued sh p.reqs_q es (bare 3) here) λ sh' q. ensured (record {
      gone =
          ap (λ (ps : Peers). peers_find ps ip port) q.peers
          ∙ not_found c.shared.peers ip port p d found;
      kept = λ jp qort other.
          ap (λ (ps : Peers). peers_find ps jp qort) q.peers
          ∙ still_found c.shared.peers ip jp port qort d other;
      queued = (q.entry, q.pkt, q.own);
      others = λ y fs ne u.
          q.others y fs ne (with_peers c.shared (peers_remove c.shared.peers ip port) u);
      output = refl;
    })

-- In a table that holds no address twice, disconnecting from a peer that is found puts a disconnect
-- packet behind what was waiting in its queue and says so, and a search for the address finds nothing
-- afterwards, every other search answering as before. The port is a positive `int`: with one beyond 16
-- bits the peer that was found stays in the table.
pub cli_disconnect-IsLeaving :
    (c : Cli) (ip : List ℕ) (port : ℕ) (p : Peer) (es : List Entry)
    → not_positive port ≡ false
    → Distinct c.shared.peers.list
    → peers_find c.shared.peers ip port ≡ some p
    → Waiting c.shared p.reqs_q es
    → Ensures (IsLeaving c ip port p es) (cli_disconnect c ip port)
cli_disconnect-IsLeaving c ip port p es pos d found v = rw (disconnect_runs c ip port pos) (
    subst (λ o. Ensures (IsLeaving c ip port p es) (disconnect_from c ip port o)) (sym found)
      (disconnect_from-IsLeaving c ip port p es d found v))

-- The first token of a line is QUIT.
abbrev pub is_quit : List ℕ → Bool
is_quit input = elim (strtok is_blank input).0 [
  | none ↦ false
  | some command ↦ str_eq command quit_name
]

-- What a run returns, if it does, says whether to go on.
abbrev Says : Bool → Run (Cli × Bool) → Type 0
Says again (done (c, flag)) = flag ≡ again
Says again fail = Unit
Says again fault = Unit
Says again out_of_fuel = Unit

named-Says : (r : Run Cli) → Says true (do c ← r; done (c, true))
named-Says (done c) = refl
named-Says fail = tt
named-Says fault = tt
named-Says out_of_fuel = tt

run_command-Says :
    (net : Network) (g : Fresh) (fuel : ℕ) (c : Cli) (command args : Option (List ℕ))
    → Says
        (not (elim command [ none ↦ false | some name ↦ str_eq name quit_name ]))
        (run_command net g fuel c command args)
unfolding run_command
run_command-Says net g fuel c none args = refl
run_command-Says net g fuel c (some name) args = elim (Bool-cases (str_eq name quit_name)) [
  | inl quit ↦ rw quit refl
  | inr other ↦ rw other (named-Says (run_named net g fuel c name args))
]

-- A command that returns says to go on exactly when it is not QUIT.
pub cli_process_command-is_quit :
    (net : Network) (g : Fresh) (fuel : ℕ) (c c' : Cli) (input : List ℕ) (again : Bool)
    → cli_process_command net g fuel c input ≡ done (c', again)
    → again ≡ not (is_quit input)
unfolding cli_process_command
cli_process_command-is_quit net g fuel c c' input again e =
    subst (Says (not (is_quit input))) e (run_command-Says net g fuel c _ _)

run_command_quit :
    (net : Network) (g : Fresh) (fuel : ℕ) (c : Cli) (command args : Option (List ℕ))
    → elim command [ none ↦ false | some name ↦ str_eq name quit_name ] ≡ true
    → run_command net g fuel c command args ≡ done (c, false)
unfolding run_command
run_command_quit net g fuel c none args e = absurd cc
run_command_quit net g fuel c (some name) args e = rw e refl

-- The loop of the command line ends with a QUIT: it has done nothing for it, and does not look at the
-- lines behind it.
pub cli_run_quit :
    (net : Network) (g : Fresh) (fuel : ℕ) (c : Cli) (input : List ℕ) (lines : List (List ℕ))
    → is_quit input ≡ true
    → cli_run net g fuel c (input ∷ lines) ≡ done c
unfolding cli_run cli_process_command
cli_run_quit net g fuel c input lines e = rw (run_command_quit net g fuel c _ _ e) refl
