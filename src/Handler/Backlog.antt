-- ===== src/Handler/Backlog.antt =====
-- The requests that wait in the queues of the peers.
use peer_file_torrent.Base.{
  get_elem?_inside, ℕ, zero, suc, ◌≤◌, ◌≡◌, ◌≢◌, refl, sym, ap, ◌∙◌, subst, arith, Option, none,
  some, List, [], ◌∷◌, ◌++◌, length, get_elem?, get_elem?-set_ne, get_elem?-set_self,
  get_elem?-append_length, map, map-append, take, All, All-append, All-map, Ensures, ensured,
  and_then, weaken,
}
use peer_file_torrent.Queue.{RequestQ}
use peer_file_torrent.Queue.Fifo.{IsRequestQ, reqs_enqueue-IsRequestQ}
use peer_file_torrent.Peers.{Peer, Peers, waiting}
use peer_file_torrent.Peers.Queues.{queues_of, Distinct}
use peer_file_torrent.Packet.{Pkt, pkt_create}
use peer_file_torrent.Handler.Replies.{bare}
use peer_file_torrent.Handler.Loop.{Memory, req_create}
use peer_file_torrent.Handler.Held.{Entry, Apart, AreHeld, requests_of}
use peer_file_torrent.Handler.Notify.{Shared, enqueue_pkt, notify, send_png_all, cancel_all_peers}

-- The queue at `x` holds the requests, in order, and they are in memory.
pub record Waiting (sh : Shared) (x : ℕ) (es : List Entry) : Type 0 where
  pub reqs_q : RequestQ
  pub at : get_elem? sh.queues x ≡ some (some reqs_q)
  pub queue : IsRequestQ reqs_q (requests_of es)
  pub held : AreHeld sh.memory es

pub get_elem?_grow {ℓ} :
    {A : Type ℓ} (xs ys : List A) (i : ℕ) {x : A}
    → get_elem? xs i ≡ some x
    → get_elem? (xs ++ ys) i ≡ some x
get_elem?_grow [] ys i e = absurd cc
get_elem?_grow (x ∷ xs) ys zero e = e
get_elem?_grow (x ∷ xs) ys (suc i) e = get_elem?_grow xs ys i e

-- The entry of the next request.
abbrev fresh : Memory → Pkt → Entry
fresh m p = record {
  request = length m.requests;
  status = waiting;
  pkt_at = length m.pkts;
  pkt = p;
}

pub grow-AreHeld :
    (m : Memory) (p : Pkt) (es : List Entry) → AreHeld m es → AreHeld (req_create m p).0 es
unfolding req_create
grow-AreHeld m p [] held = tt
grow-AreHeld m p (e ∷ es) ((at, pkt), far, held) = (
  (get_elem?_grow m.requests _ e.request at, get_elem?_grow m.pkts _ e.pkt_at pkt),
  far,
  grow-AreHeld m p es held,
)

fresh-AreHeld :
    (m : Memory) (p : Pkt) (es : List Entry)
    → AreHeld m es
    → AreHeld (req_create m p).0 (es ++ (fresh m p ∷ []))
unfolding req_create
fresh-AreHeld m p [] held =
    ((get_elem?-append_length m.requests _, get_elem?-append_length m.pkts _), tt, tt)
fresh-AreHeld m p (e ∷ es) ((at, pkt), far, held) = (
  (get_elem?_grow m.requests _ e.request at, get_elem?_grow m.pkts _ e.pkt_at pkt),
  All-append (Apart e) es (fresh m p ∷ []) far ((other, other_pkt), tt),
  fresh-AreHeld m p es held,
)
  where
    other : e.request ≢ length m.requests
    other same = let h = get_elem?_inside m.requests e.request at in omega arith

    other_pkt : e.pkt_at ≢ length m.pkts
    other_pkt same = let h = get_elem?_inside m.pkts e.pkt_at pkt in omega arith

-- An enqueued packet is behind what waits in its queue; other queues hold what they held.
pub record Enqueued (sh : Shared) (x : ℕ) (es : List Entry) (p : Pkt) (sh' : Shared) : Type 0 where
  pub entry : Entry
  pub pkt : entry.pkt ≡ p
  pub own : Waiting sh' x (es ++ (entry ∷ []))
  pub others : (y : ℕ) (fs : List Entry) → y ≢ x → Waiting sh y fs → Waiting sh' y fs
  pub peers : sh'.peers ≡ sh.peers

pub enqueue_pkt-Enqueued :
    (sh : Shared) (x : ℕ) (es : List Entry) (p : Pkt)
    → Waiting sh x es
    → Ensures (Enqueued sh x es p) (enqueue_pkt sh x p)
unfolding enqueue_pkt req_create
enqueue_pkt-Enqueued sh x es p v = rw (v.at) (
    and_then (reqs_enqueue-IsRequestQ v.reqs_q (requests_of es) (length sh.memory.requests) v.queue)
      λ q w. ensured (record {
        entry = fresh sh.memory p;
        pkt = refl;
        own = record {
          reqs_q = q;
          at = get_elem?-set_self sh.queues x (some q) (get_elem?_inside sh.queues x v.at);
          queue =
              subst (IsRequestQ q)
                (sym (map-append (λ (e : Entry). e.request) es (fresh sh.memory p ∷ []))) w;
          held = fresh-AreHeld sh.memory p es v.held;
        };
        others = λ y fs ne u. record {
          reqs_q = u.reqs_q;
          at = get_elem?-set_ne sh.queues (some q) (λ e. ne (sym e)) ∙ u.at;
          queue = u.queue;
          held = grow-AreHeld sh.memory p fs u.held;
        };
        peers = refl;
      }))

-- Each queue holds the requests that `B` says.
abbrev pub Backlog : Shared → List ℕ → (ℕ → List Entry) → Type 0
Backlog sh xs B = All (λ x. Waiting sh x (B x)) xs

-- A request with the packet is behind what was waiting in each queue.
abbrev pub Notified : Pkt → (ℕ → List Entry) → Shared → List ℕ → Type 0
Notified p B sh xs = All (λ x. (e : Entry) × (e.pkt ≡ p) × Waiting sh x (B x ++ (e ∷ []))) xs

-- Queues other than `x` hold what they held.
others-Backlog :
    (sh sh' : Shared) (x : ℕ) (xs : List ℕ) (B : ℕ → List Entry)
    → ((y : ℕ) (fs : List Entry) → y ≢ x → Waiting sh y fs → Waiting sh' y fs)
    → All (λ y. y ≢ x) xs
    → Backlog sh xs B
    → Backlog sh' xs B
others-Backlog sh sh' x [] B keep far b = tt
others-Backlog sh sh' x (y ∷ xs) B keep (ne, far) (v, b) =
    (keep y (B y) ne v, others-Backlog sh sh' x xs B keep far b)

-- What the loop has done: requests behind what was waiting, and no change to other queues.
pub record Round (sh : Shared) (xs : List ℕ) (B : ℕ → List Entry) (p : Pkt) (sh' : Shared)
    : Type 0 where
  pub notified : Notified p B sh' xs
  pub others : (y : ℕ) (fs : List Entry) → All (λ x. y ≢ x) xs → Waiting sh y fs → Waiting sh' y fs
  pub peers : sh'.peers ≡ sh.peers

far_back : (x : ℕ) (xs : List ℕ) → All (λ y. y ≢ x) xs → All (λ y. x ≢ y) xs
far_back x [] far = tt
far_back x (y ∷ xs) (ne, far) = (λ e. ne (sym e), far_back x xs far)

pub notify-Round :
    (p : Pkt) (n : ℕ) (slots : List (Option Peer)) (sh : Shared) (B : ℕ → List Entry)
    → n ≤ length slots
    → Distinct (queues_of (take n slots))
    → Backlog sh (queues_of (take n slots)) B
    → Ensures (Round sh (queues_of (take n slots)) B p) (notify p n slots sh)
unfolding notify
notify-Round p zero slots sh B le far b =
    ensured (record { notified = tt; others = λ y fs _ v. v; peers = refl })
notify-Round p (suc n) [] sh B le far b = absurd (omega arith)
notify-Round p (suc n) (none ∷ slots) sh B le far b =
    notify-Round p n slots sh B (omega arith) far b
notify-Round p (suc n) (some peer ∷ slots) sh B le (far, rest) (v, b) =
    let x = peer.reqs_q in
    let xs = queues_of (take n slots) in
    and_then (enqueue_pkt-Enqueued sh x (B x) p v) λ sh1 done_one.
      weaken
        (notify-Round p n slots sh1 B (omega arith) rest
          (others-Backlog sh sh1 x xs B done_one.others far b))
        λ sh2 done_rest. record {
          notified = (
            (
              done_one.entry,
              done_one.pkt,
              done_rest.others x (B x ++ (done_one.entry ∷ [])) (far_back x xs far) done_one.own,
            ),
            done_rest.notified,
          );
          others = λ y fs (ne, nes) u. done_rest.others y fs nes (done_one.others y fs ne u);
          peers = done_rest.peers ∙ done_one.peers;
        }

pub take-length_of : (n : ℕ) (slots : List (Option Peer)) → n ≡ length slots → take n slots ≡ slots
take-length_of zero [] e = refl
take-length_of zero (o ∷ slots) e = absurd (omega arith)
take-length_of (suc n) [] e = absurd (omega arith)
take-length_of (suc n) (o ∷ slots) e = ap (λ t. o ∷ t) (take-length_of n slots (omega arith))

-- Pinging puts a ping behind what waits in the queue of each peer in the first `npeers_cur` slots, the
-- queues being different ones, and leaves the table as it is.
pub send_png_all-Notified :
    (sh : Shared) (B : ℕ → List Entry)
    → sh.peers.npeers_cur ≤ length sh.peers.list
    → Distinct (queues_of (take sh.peers.npeers_cur sh.peers.list))
    → Backlog sh (queues_of (take sh.peers.npeers_cur sh.peers.list)) B
    → Ensures
        (λ sh'.
          Notified (bare 255) B sh' (queues_of (take sh.peers.npeers_cur sh.peers.list))
          × (sh'.peers ≡ sh.peers))
        (send_png_all sh)
unfolding send_png_all pkt_create
send_png_all-Notified sh B le far b =
    weaken (notify-Round (bare 255) sh.peers.npeers_cur sh.peers.list sh B le far b)
      λ sh' r. (r.notified, r.peers)

-- Leaving puts a disconnect packet behind what waits in the queue of every peer of the table, the
-- queues being different ones, and clears each slot.
pub cancel_all_peers-Notified :
    (sh : Shared) (B : ℕ → List Entry)
    → sh.peers.npeers_max ≡ length sh.peers.list
    → Distinct (queues_of sh.peers.list)
    → Backlog sh (queues_of sh.peers.list) B
    → Ensures
        (λ sh'.
          Notified (bare 3) B sh' (queues_of sh.peers.list)
          × (sh'.peers.list ≡ map (λ _. none) sh.peers.list))
        (cancel_all_peers sh)
unfolding cancel_all_peers pkt_create
cancel_all_peers-Notified sh B e far b =
    let n = sh.peers.npeers_max in
    let slots = sh.peers.list in
    let all = take-length_of n slots e in
    let run =
      notify-Round (bare 3) n slots sh B (omega arith)
        (subst (λ (s : List (Option Peer)). Distinct (queues_of s)) (sym all) far)
        (subst (λ (s : List (Option Peer)). Backlog sh (queues_of s) B) (sym all) b) in
    and_then run λ sh1 r. ensured (
      subst
          (λ (s : List (Option Peer)).
            Notified (bare 3) B
              (record sh1 { peers = record sh1.peers { list = map (λ _. none) sh1.peers.list } })
              (queues_of s))
          all
          (All-map (queues_of (take n slots)) r.notified λ x (entry, pkt, v).
            (entry, pkt, record { reqs_q = v.reqs_q; at = v.at; queue = v.queue; held = v.held })),
      ap (λ (ps : Peers). map (λ _. none) ps.list) r.peers,
    )
