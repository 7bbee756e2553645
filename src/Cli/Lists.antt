-- ===== src/Cli/Lists.antt =====
-- What the commands that list peers and packages print.
use peer_file_torrent.Base.{
  ℕ, zero, suc, ◌+◌, ◌<◌, ◌≡◌, refl, sym, ap, ◌∙◌, subst, arith, false, Option, none, some, List,
  [], ◌∷◌, ◌++◌, append_assoc, append-nil, ◌==◌, length, take, get_elem?, map, Run, done, fail,
  fault, out_of_fuel, ◌>>=◌, Ensures, ensured, and_then,
}
use peer_file_torrent.Queue.Chain.{Cells, first, Chain}
use peer_file_torrent.Merkle.{Node}
use peer_file_torrent.Package.{Bpkg, Bpkgs}
use peer_file_torrent.Package.Manage.{IsBpkgs}
use peer_file_torrent.Peers.{Peer}
use peer_file_torrent.Packet.{pkt_create}
use peer_file_torrent.Handler.{is_complete}
use peer_file_torrent.Handler.Replies.{bare}
use peer_file_torrent.Handler.Held.{Entry}
use peer_file_torrent.Handler.Notify.{Shared, enqueue_pkt, notify}
use peer_file_torrent.Peers.Queues.{queues_of, Distinct}
use peer_file_torrent.Handler.Backlog.{Backlog, Notified, notify-Round, take-length_of}
use peer_file_torrent.Cli.{
  Cli, Message, peer_line, package_line, connected_to, print, print_all, list_slots, cli_list_peers,
  line_for, line_for_root, report_step, report_loop, cli_report_packages,
}

-- A line for each peer, with consecutive numbers.
abbrev pub peer_lines : ℕ → List (Option Peer) → List Message
peer_lines j [] = []
peer_lines j (none ∷ slots) = peer_lines j slots
peer_lines j (some p ∷ slots) = peer_line j p.ip p.port ∷ peer_lines (j + 1) slots

abbrev with_lines : Cli → List Message → Shared → Cli
with_lines c ms sh = record c { shared = sh; output = c.output ++ ms }

bind_ext :
    {A B : Type 0} (r : Run A) (k k' : A → Run B) → ((a : A) → k a ≡ k' a) → (r >>= k) ≡ (r >>= k')
bind_ext (done a) k k' e = e a
bind_ext fail k k' e = refl
bind_ext fault k k' e = refl
bind_ext out_of_fuel k k' e = refl

bind_assoc :
    {A B C : Type 0} (r : Run A) (f : A → Run B) (g : B → Run C)
    → (r >>= λ a. f a >>= g) ≡ ((r >>= f) >>= g)
bind_assoc (done a) f g = refl
bind_assoc fail f g = refl
bind_assoc fault f g = refl
bind_assoc out_of_fuel f g = refl

-- The loop puts pings into the queues as `notify` does, and prints the lines.
list_slots-notify :
    (j n : ℕ) (slots : List (Option Peer)) (c : Cli)
    → list_slots j n slots c ≡ (
        notify (bare 255) n slots c.shared >>= λ sh.
        done (with_lines c (peer_lines j (take n slots)) sh))
unfolding list_slots notify pkt_create print
list_slots-notify j zero slots c = rw (append-nil c.output) refl
list_slots-notify j (suc n) [] c = refl
list_slots-notify j (suc n) (none ∷ slots) c = list_slots-notify j n slots c
list_slots-notify j (suc n) (some p ∷ slots) c =
    bind_ext (enqueue_pkt c.shared p.reqs_q (bare 255)) _ _ (λ sh.
      list_slots-notify (j + 1) n slots (print (peer_line j p.ip p.port) (record c { shared = sh }))
      ∙ bind_ext (notify (bare 255) n slots sh) _ _ λ sh'.
        ap (λ (ms : List Message). done (record c { shared = sh'; output = ms }))
          (append_assoc c.output (peer_line j p.ip p.port ∷ [])
            (peer_lines (j + 1) (take n slots))))
    ∙ bind_assoc (enqueue_pkt c.shared p.reqs_q (bare 255)) (notify (bare 255) n slots) _

list_peers_runs :
    (c : Cli)
    → c.shared.peers.npeers_cur == 0 ≡ false
    → cli_list_peers c
      ≡ list_slots 1 c.shared.peers.npeers_max c.shared.peers.list (print connected_to c)
unfolding cli_list_peers
list_peers_runs c e = rw e refl

-- Where some peer is counted, the command lists every peer of the table, in the order of the slots and
-- numbered from 1, and puts a ping behind what waits in the queue of each, the queues being different
-- ones.
pub cli_list_peers-Notified :
    (c : Cli) (B : ℕ → List Entry)
    → c.shared.peers.npeers_cur == 0 ≡ false
    → c.shared.peers.npeers_max ≡ length c.shared.peers.list
    → Distinct (queues_of c.shared.peers.list)
    → Backlog c.shared (queues_of c.shared.peers.list) B
    → Ensures
        (λ c'.
          (c'.output ≡ c.output ++ (connected_to ∷ peer_lines 1 c.shared.peers.list))
          × Notified (bare 255) B c'.shared (queues_of c.shared.peers.list)
          × (c'.shared.peers ≡ c.shared.peers))
        (cli_list_peers c)
unfolding print
cli_list_peers-Notified c B e full far b =
    let n = c.shared.peers.npeers_max in
    let slots = c.shared.peers.list in
    let all = take-length_of n slots full in
    let run =
      notify-Round (bare 255) n slots c.shared B (omega arith)
        (subst (λ (s : List (Option Peer)). Distinct (queues_of s)) (sym all) far)
        (subst (λ (s : List (Option Peer)). Backlog c.shared (queues_of s) B) (sym all) b) in
    rw (list_peers_runs c e) (
      rw (list_slots-notify 1 n slots (print connected_to c)) (
        and_then run λ sh r. ensured (
          append_assoc c.output (connected_to ∷ []) (peer_lines 1 (take n slots))
              ∙ ap (λ s. c.output ++ (connected_to ∷ peer_lines 1 s)) all,
          subst (λ (s : List (Option Peer)). Notified (bare 255) B sh (queues_of s)) all r.notified,
          r.peers,
        )))

-- The object `x` is a package whose tree has the root `y.1`.
abbrev pub IsListed : Bpkgs → ℕ → Bpkg × Node → Type 0
IsListed b x y =
    (get_elem? b.objects x ≡ some (some y.0))
    × ((r : ℕ) × (y.0.mtree.root ≡ some r) × (get_elem? y.0.mtree.nodes r ≡ some y.1))

abbrev pub AreListed : Bpkgs → List ℕ → List (Bpkg × Node) → Type 0
AreListed b [] [] = Unit
AreListed b (x ∷ xs) (y ∷ ys) = IsListed b x y × AreListed b xs ys
AreListed b _ _ = ⊥

-- A line for each package, with consecutive numbers: the start of its identifier, its file, and
-- whether the hashes of its root agree.
abbrev pub package_lines : ℕ → List (Bpkg × Node) → List Message
package_lines i [] = []
package_lines i (y ∷ ys) =
    package_line i (take 32 y.0.ident) y.0.filename (is_complete y.1) ∷ package_lines (i + 1) ys

line_for_root-package_line :
    (i r : ℕ) (p : Bpkg) (n : Node)
    → get_elem? p.mtree.nodes r ≡ some n
    → line_for_root i p (some r)
      ≡ done (package_line i (take 32 p.ident) p.filename (is_complete n), i + 1)
unfolding line_for_root
line_for_root-package_line i r p n at = rw at refl

line_for-package_line :
    (i r : ℕ) (p : Bpkg) (n : Node)
    → p.mtree.root ≡ some r
    → get_elem? p.mtree.nodes r ≡ some n
    → line_for i (some p)
      ≡ done (package_line i (take 32 p.ident) p.filename (is_complete n), i + 1)
unfolding line_for
line_for-package_line i r p n e at =
    ap (line_for_root i p) e ∙ line_for_root-package_line i r p n at

report_loop-package_lines :
    (b : Bpkgs) (fuel i : ℕ) (ps : Cells) (ys : List (Bpkg × Node))
    → Chain b.ls.heap ps
    → AreListed b (map (λ (p : ℕ × ℕ). p.1) ps) ys
    → length (map (λ (p : ℕ × ℕ). p.1) ps) < fuel
    → report_loop fuel b i (first ps) ≡ done (package_lines i ys)
unfolding report_loop report_step
report_loop-package_lines b zero i ps ys k listed enough = absurd (omega arith)
report_loop-package_lines b (suc fuel) i [] [] k listed enough = refl
report_loop-package_lines b (suc fuel) i [] (y ∷ ys) k listed enough = absurd listed
report_loop-package_lines b (suc fuel) i (c ∷ ps) [] k listed enough = absurd listed
report_loop-package_lines b (suc fuel) i (c ∷ ps) (y ∷ ys) (e, apart, k)
      ((at, (r, root, node)), listed) enough =
    let rest = report_loop-package_lines b fuel (i + 1) ps ys k listed (omega arith) in
    rw (e) (rw (at) (rw (line_for-package_line i r y.0 y.1 root node) (rw rest refl)))

report_runs :
    (fuel : ℕ) (c : Cli)
    → c.shared.bpkgs.count == 0 ≡ false
    → cli_report_packages fuel c
      ≡ (do ms ← report_loop fuel c.shared.bpkgs 1 c.shared.bpkgs.ls.head; done (print_all c ms))
unfolding cli_report_packages
report_runs fuel c e = rw e refl

-- Where the number of managed packages is no multiple of 256, the command lists all of them, in the
-- order in which they are managed and numbered from 1, each with whether it is complete, and changes
-- nothing else; the trees have their roots.
pub cli_report_packages-package_lines :
    (fuel : ℕ) (c : Cli) (xs : List ℕ) (ys : List (Bpkg × Node))
    → IsBpkgs c.shared.bpkgs xs
    → AreListed c.shared.bpkgs xs ys
    → c.shared.bpkgs.count == 0 ≡ false
    → length xs < fuel
    → cli_report_packages fuel c ≡ done (print_all c (package_lines 1 ys))
cli_report_packages-package_lines fuel c xs ys w listed e enough =
    let b = c.shared.bpkgs in
    let q = w.list in
    let found =
      report_loop-package_lines b fuel 1 q.cells ys q.chain
        (subst (λ (zs : List ℕ). AreListed b zs ys) (sym q.holds) listed)
        (subst (λ (zs : List ℕ). length zs < fuel) (sym q.holds) enough) in
    report_runs fuel c e
    ∙ ap (λ (r : Run (List Message)). r >>= λ ms. done (print_all c ms))
        (ap (report_loop fuel b 1) q.head ∙ found)
