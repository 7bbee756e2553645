-- ===== src/Peers/Queues.antt =====
-- The request queues of the peers in the table.
use peer_file_torrent.Base.{
  ℕ, zero, suc, ◌≡◌, ◌≢◌, refl, sym, inl, inr, Option, none, some, List, [], ◌∷◌, leb, replicate,
  All, Bool-cases, subst, u16,
}
use peer_file_torrent.Peers.{
  Peer, Peers, fill_slot, peers_add, is_at, clear_slot, peers_remove, find_slot, peers_find,
}

-- The queues of the peers in some slots.
abbrev pub queues_of : List (Option Peer) → List ℕ
queues_of [] = []
queues_of (none ∷ slots) = queues_of slots
queues_of (some peer ∷ slots) = peer.reqs_q ∷ queues_of slots

-- No queue is listed twice.
abbrev pub Distinct : List ℕ → Type 0
Distinct [] = Unit
Distinct (x ∷ xs) = All (λ y. y ≢ x) xs × Distinct xs

pub queues_of-replicate : (n : ℕ) → queues_of (replicate n none) ≡ []
queues_of-replicate zero = refl
queues_of-replicate (suc n) = queues_of-replicate n

module _ (P : ℕ → Type 0) where
  fill_slot-All :
      (p : Peer) (slots : List (Option Peer))
      → All P (queues_of slots)
      → P p.reqs_q
      → All P (queues_of (fill_slot p slots).0)
  unfolding fill_slot
  fill_slot-All p [] h own = tt
  fill_slot-All p (none ∷ slots) h own = (own, h)
  fill_slot-All p (some q ∷ slots) (hq, h) own = (hq, fill_slot-All p slots h own)

  -- What holds of the queues of the table and of the queue of a new peer holds of the queues of the
  -- table with the peer.
  pub peers_add-All :
      (ps : Peers) (p : Peer)
      → All P (queues_of ps.list)
      → P p.reqs_q
      → All P (queues_of (peers_add ps p).list)
  unfolding peers_add
  peers_add-All ps p h own = elim (Bool-cases (leb ps.npeers_max ps.npeers_cur)) [
    | inl full ↦ rw full h
    | inr free ↦ rw free (fill_slot-All p ps.list h own)
  ]

  clear_slot-All :
      (ip : List ℕ) (port : ℕ) (slots : List (Option Peer))
      → All P (queues_of slots)
      → All P (queues_of (clear_slot ip port slots).0)
  unfolding clear_slot
  clear_slot-All ip port [] h = tt
  clear_slot-All ip port (none ∷ slots) h = clear_slot-All ip port slots h
  clear_slot-All ip port (some q ∷ slots) (hq, h) = elim (Bool-cases (is_at ip port q)) [
    | inl e ↦ rw e h
    | inr e ↦ rw e (hq, clear_slot-All ip port slots h)
  ]

  pub peers_remove-All :
      (ps : Peers) (ip : List ℕ) (port : ℕ)
      → All P (queues_of ps.list)
      → All P (queues_of (peers_remove ps ip port).list)
  unfolding peers_remove
  peers_remove-All ps ip port h = clear_slot-All ip port ps.list h

module _ (P : ℕ → Type 0) where
  find_slot-All :
      (ip : List ℕ) (port : ℕ) (slots : List (Option Peer)) (p : Peer)
      → All P (queues_of slots)
      → find_slot ip port slots ≡ some p
      → P p.reqs_q
  unfolding find_slot
  find_slot-All ip port [] p h e = absurd cc
  find_slot-All ip port (none ∷ slots) p h e = find_slot-All ip port slots p h e
  find_slot-All ip port (some q ∷ slots) p (hq, h) e = elim (Bool-cases (is_at ip port q)) [
    | inl t ↦ subst (λ (r : Peer). P r.reqs_q) (some_same (rw t at e)) hq
    | inr f ↦ find_slot-All ip port slots p h (rw f at e)
  ]
    where
      some_same : {a b : Peer} → some a ≡ some b → a ≡ b
      some_same e = cc

  pub peers_find-All :
      (ps : Peers) (ip : List ℕ) (port : ℕ) (p : Peer)
      → All P (queues_of ps.list)
      → peers_find ps ip port ≡ some p
      → P p.reqs_q
  unfolding peers_find
  peers_find-All ps ip port p h e = find_slot-All ip (u16 port) ps.list p h e

fill_slot-Distinct :
    (p : Peer) (slots : List (Option Peer))
    → Distinct (queues_of slots)
    → All (λ y. y ≢ p.reqs_q) (queues_of slots)
    → Distinct (queues_of (fill_slot p slots).0)
unfolding fill_slot
fill_slot-Distinct p [] h new = tt
fill_slot-Distinct p (none ∷ slots) h new = (new, h)
fill_slot-Distinct p (some q ∷ slots) (far, h) (ne, new) = (
  fill_slot-All (λ y. y ≢ q.reqs_q) p slots far (λ e. ne (sym e)),
  fill_slot-Distinct p slots h new,
)

pub peers_add-Distinct :
    (ps : Peers) (p : Peer)
    → Distinct (queues_of ps.list)
    → All (λ y. y ≢ p.reqs_q) (queues_of ps.list)
    → Distinct (queues_of (peers_add ps p).list)
unfolding peers_add
peers_add-Distinct ps p h new = elim (Bool-cases (leb ps.npeers_max ps.npeers_cur)) [
  | inl full ↦ rw full h
  | inr free ↦ rw free (fill_slot-Distinct p ps.list h new)
]

clear_slot-Distinct :
    (ip : List ℕ) (port : ℕ) (slots : List (Option Peer))
    → Distinct (queues_of slots)
    → Distinct (queues_of (clear_slot ip port slots).0)
unfolding clear_slot
clear_slot-Distinct ip port [] h = tt
clear_slot-Distinct ip port (none ∷ slots) h = clear_slot-Distinct ip port slots h
clear_slot-Distinct ip port (some q ∷ slots) (far, h) = elim (Bool-cases (is_at ip port q)) [
  | inl e ↦ rw e h
  | inr e ↦
      rw e
        (clear_slot-All (λ y. y ≢ q.reqs_q) ip port slots far, clear_slot-Distinct ip port slots h)
]

pub peers_remove-Distinct :
    (ps : Peers) (ip : List ℕ) (port : ℕ)
    → Distinct (queues_of ps.list)
    → Distinct (queues_of (peers_remove ps ip port).list)
unfolding peers_remove
peers_remove-Distinct ps ip port h = clear_slot-Distinct ip port ps.list h
