-- ===== src/System/Shutdown.antt =====
-- The system is left in good order.
use peer_file_torrent.Base.{
  ℕ, ◌<◌, ◌≡◌, ◌≢◌, refl, sym, subst, arith, true, false, none, List, [], ◌∷◌, ◌++◌, ◌==◌, map, All,
  if◌then◌else◌, Ensures, weaken,
}
use peer_file_torrent.Peers.{peer_list_create}
use peer_file_torrent.Peers.Valid.{peer_list_create-IsValid}
use peer_file_torrent.Peers.Queues.{queues_of, Distinct, queues_of-replicate}
use peer_file_torrent.Handler.Held.{Entry}
use peer_file_torrent.Handler.Replies.{bare}
use peer_file_torrent.Handler.Notify.{Shared, cancel_all_peers}
use peer_file_torrent.Handler.Backlog.{Waiting, Backlog, Notified, cancel_all_peers-Notified}
use peer_file_torrent.System.{IsQueued, IsConnected, init_server}

-- A fresh system is in good order.
pub init_server-IsConnected : (n : ℕ) → n < 18446744073709551616 → IsConnected (init_server n)
unfolding init_server peer_list_create
init_server-IsConnected n h = record {
  valid = peer_list_create-IsValid n h;
  distinct = subst Distinct (sym (queues_of-replicate n)) tt;
  queued = subst (All (IsQueued (init_server n))) (sym (queues_of-replicate n)) tt;
}

-- What waits in each queue.
backlog : (sh : Shared) (xs : List ℕ) → All (IsQueued sh) xs → ℕ → List Entry
backlog sh [] q y = []
backlog sh (x ∷ xs) (own, q) y = if y == x then own.0 else backlog sh xs q y

backlog_other :
    (sh : Shared) (x : ℕ) (xs : List ℕ) (own : IsQueued sh x) (q : All (IsQueued sh) xs) (y : ℕ)
    → y ≢ x
    → backlog sh (x ∷ xs) (own, q) y ≡ backlog sh xs q y
unfolding backlog
backlog_other sh x xs own q y ne = let test : (y == x) ≡ false = ground arith in rw test refl

backlog_own :
    (sh : Shared) (x : ℕ) (xs : List ℕ) (own : IsQueued sh x) (q : All (IsQueued sh) xs)
    → backlog sh (x ∷ xs) (own, q) x ≡ own.0
unfolding backlog
backlog_own sh x xs own q = let test : (x == x) ≡ true = ground arith in rw test refl

same-Backlog :
    (sh : Shared) (xs : List ℕ) (B B' : ℕ → List Entry) (x : ℕ)
    → ((y : ℕ) → y ≢ x → B' y ≡ B y)
    → All (λ y. y ≢ x) xs
    → Backlog sh xs B
    → Backlog sh xs B'
same-Backlog sh [] B B' x e far b = tt
same-Backlog sh (y ∷ xs) B B' x e (ne, far) (v, b) =
    (subst (Waiting sh y) (sym (e y ne)) v, same-Backlog sh xs B B' x e far b)

backlog-Backlog :
    (sh : Shared) (xs : List ℕ) (q : All (IsQueued sh) xs)
    → Distinct xs
    → Backlog sh xs (backlog sh xs q)
backlog-Backlog sh [] q far = tt
backlog-Backlog sh (x ∷ xs) (own, q) (ne, far) = (
  subst (Waiting sh x) (sym (backlog_own sh x xs own q)) own.1,
  same-Backlog sh xs (backlog sh xs q) (backlog sh (x ∷ xs) (own, q)) x
      (backlog_other sh x xs own q) ne (backlog-Backlog sh xs q far),
)

-- A disconnect packet is behind what was waiting in the queue at `x`.
abbrev pub IsToldToLeave : Shared → Shared → ℕ → Type 0
IsToldToLeave sh sh' x =
    (es : List Entry) × (e : Entry) × Waiting sh x es
    × (e.pkt ≡ bare 3)
    × Waiting sh' x (es ++ (e ∷ []))

told :
    (sh sh' : Shared) (B : ℕ → List Entry) (xs : List ℕ)
    → Backlog sh xs B
    → Notified (bare 3) B sh' xs
    → All (IsToldToLeave sh sh') xs
told sh sh' B [] b n = tt
told sh sh' B (x ∷ xs) (v, b) ((e, pkt, u), n) = ((B x, e, v, pkt, u), told sh sh' B xs b n)

-- Where the table is valid, and each peer in it has a queue of its own that holds requests in memory,
-- leaving returns: a disconnect packet is behind what was waiting in the queue of every peer of the
-- table, and every slot is cleared. Leaving is taken as one step in which no handler thread runs.
pub cancel_all_peers-IsToldToLeave :
    (sh : Shared)
    → IsConnected sh
    → Ensures
        (λ sh'.
          All (IsToldToLeave sh sh') (queues_of sh.peers.list)
          × (sh'.peers.list ≡ map (λ _. none) sh.peers.list))
        (cancel_all_peers sh)
cancel_all_peers-IsToldToLeave sh v =
    let xs = queues_of sh.peers.list in
    let B = backlog sh xs v.queued in
    let b = backlog-Backlog sh xs v.queued v.distinct in
    weaken (cancel_all_peers-Notified sh B (sym v.valid.sized) v.distinct b)
      λ sh' (notified, cleared). (told sh sh' B xs b notified, cleared)
