-- ===== src/System/Growth.antt =====
-- What adding a queue and enqueueing a packet leave of the queues.
use peer_file_torrent.Base.{
  get_elem?_inside, ℕ, zero, suc, ◌≤◌, ◌≡◌, refl, sym, ap, ◌∙◌, subst, arith, Option, none, some,
  List, [], ◌∷◌, ◌++◌, length, get_elem?, All, All-map, ℕ_discrete, Ensures, ensured, and_then,
  weaken, get_elem?-append_length,
}
use peer_file_torrent.Queue.{RequestQ, reqs_create}
use peer_file_torrent.Queue.Fifo.{reqs_create-IsRequestQ}
use peer_file_torrent.Peers.{Peer, Peers, peers_add}
use peer_file_torrent.Peers.Valid.{IsValid, peers_add-IsValid}
use peer_file_torrent.Peers.Queues.{queues_of, Distinct, peers_add-All, peers_add-Distinct}
use peer_file_torrent.Packet.{Pkt}
use peer_file_torrent.Handler.Notify.{Shared, enqueue_pkt, notify}
use peer_file_torrent.Handler.Backlog.{get_elem?_grow, enqueue_pkt-Enqueued}
use peer_file_torrent.System.{IsQueued, IsConnected}

-- Every queue that held requests holds some afterwards, and the table is as it was.
pub record Grows (sh sh' : Shared) : Type 0 where
  pub keeps : (y : ℕ) → IsQueued sh y → IsQueued sh' y
  pub peers : sh'.peers ≡ sh.peers

pub Grows-refl : (sh : Shared) → Grows sh sh
Grows-refl sh = record { keeps = λ y q. q; peers = refl }

pub Grows-trans : (a b c : Shared) → Grows a b → Grows b c → Grows a c
Grows-trans a b c g h = record { keeps = λ y q. h.keeps y (g.keeps y q); peers = h.peers ∙ g.peers }

pub Grows-IsConnected : (sh sh' : Shared) → Grows sh sh' → IsConnected sh → IsConnected sh'
Grows-IsConnected sh sh' g v =
    let back = sym g.peers in
    record {
      valid = subst IsValid back v.valid;
      distinct = subst (λ (ps : Peers). Distinct (queues_of ps.list)) back v.distinct;
      queued =
          subst (λ (ps : Peers). All (IsQueued sh') (queues_of ps.list)) back
            (All-map (queues_of sh.peers.list) v.queued g.keeps);
    }

pub enqueue_pkt-Grows :
    (sh : Shared) (x : ℕ) (p : Pkt) → IsQueued sh x → Ensures (Grows sh) (enqueue_pkt sh x p)
enqueue_pkt-Grows sh x p (es, v) = weaken (enqueue_pkt-Enqueued sh x es p v) λ sh' q. record {
  keeps = λ y (fs, u). elim (ℕ_discrete y x) [
    | yes e ↦ subst (IsQueued sh') (sym e) (es ++ (q.entry ∷ []), q.own)
    | no ne ↦ (fs, q.others y fs ne u)
  ];
  peers = q.peers;
}

pub notify-Grows :
    (p : Pkt) (n : ℕ) (slots : List (Option Peer)) (sh : Shared)
    → n ≤ length slots
    → All (IsQueued sh) (queues_of slots)
    → Ensures (Grows sh) (notify p n slots sh)
unfolding notify
notify-Grows p zero slots sh le q = ensured (Grows-refl sh)
notify-Grows p (suc n) [] sh le q = absurd (omega arith)
notify-Grows p (suc n) (none ∷ slots) sh le q = notify-Grows p n slots sh (omega arith) q
notify-Grows p (suc n) (some peer ∷ slots) sh le (own, q) =
    and_then (enqueue_pkt-Grows sh peer.reqs_q p own) λ sh1 g.
      weaken (notify-Grows p n slots sh1 (omega arith) (All-map (queues_of slots) q g.keeps))
        λ sh2 h. Grows-trans sh sh1 sh2 g h

-- A queue behind the others, destroyed or not, changes none of them, whatever the table is.
add_queue-IsQueued :
    (sh : Shared) (ps : Peers) (cell : Option RequestQ) (y : ℕ)
    → IsQueued sh y
    → IsQueued (record sh { peers = ps; queues = sh.queues ++ (cell ∷ []) }) y
add_queue-IsQueued sh ps cell y (es, v) = (
  es,
  record {
    reqs_q = v.reqs_q;
    at = get_elem?_grow sh.queues (cell ∷ []) y v.at;
    queue = v.queue;
    held = v.held;
  },
)

pub add_queue-Grows :
    (sh : Shared) (cell : Option RequestQ)
    → Grows sh (record sh { queues = sh.queues ++ (cell ∷ []) })
add_queue-Grows sh cell = record {
  keeps = λ y q. add_queue-IsQueued sh sh.peers cell y q;
  peers = refl;
}

-- A peer with a new queue joins.
pub add_peer-IsConnected :
    (sh : Shared) (p : Peer)
    → p.reqs_q ≡ length sh.queues
    → IsConnected sh
    → IsConnected (record sh {
      peers = peers_add sh.peers p;
      queues = sh.queues ++ (some (reqs_create []) ∷ []);
    })
add_peer-IsConnected sh p e v =
    let fresh = some (reqs_create []) in
    let ps = peers_add sh.peers p in
    let xs = queues_of sh.peers.list in
    record {
      valid = peers_add-IsValid sh.peers p v.valid;
      distinct = peers_add-Distinct sh.peers p v.distinct (
          All-map xs v.queued
            λ y (es, u) same. let inside = get_elem?_inside sh.queues y u.at in omega arith);
      queued =
          peers_add-All (IsQueued (record sh { peers = ps; queues = sh.queues ++ (fresh ∷ []) }))
            sh.peers p (All-map xs v.queued λ y q. add_queue-IsQueued sh ps fresh y q)
            (
              [],
              record {
                reqs_q = reqs_create [];
                at =
                    ap (get_elem? (sh.queues ++ (fresh ∷ []))) e
                    ∙ get_elem?-append_length sh.queues fresh;
                queue = reqs_create-IsRequestQ [];
                held = tt;
              },
            );
    }
