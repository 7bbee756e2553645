-- ===== src/Handler/Held.antt =====
-- The requests that a queue holds in memory, and what destroying them leaves.
use peer_file_torrent.Base.{
  get_elem?_inside, get_elem?-set_self, sym, done, refl, ℕ, ◌≡◌, ◌≢◌, ◌∙◌, none, some, List, [],
  ◌∷◌, get_elem?, get_elem?-set_ne, map, All, Ensures, ensured, set,
}
use peer_file_torrent.Peers.{RequestStatus}
use peer_file_torrent.Packet.{Pkt}
use peer_file_torrent.Handler.Loop.{Memory, req_destroy, destroy_all}

-- A request in memory, with its packet.
pub record Entry : Type 0 where
  pub request : ℕ
  pub status : RequestStatus
  pub pkt_at : ℕ
  pub pkt : Pkt

abbrev pub IsHeld : Memory → Entry → Type 0
IsHeld m e =
    (get_elem? m.requests e.request ≡ some (some (record { pkt = e.pkt_at; status = e.status })))
    × (get_elem? m.pkts e.pkt_at ≡ some (some e.pkt))

-- Two requests are different objects, and so are their packets.
abbrev pub Apart : Entry → Entry → Type 0
Apart e f = (e.request ≢ f.request) × (e.pkt_at ≢ f.pkt_at)

-- The memory holds the requests, and no two of them share an object.
abbrev pub AreHeld : Memory → List Entry → Type 0
AreHeld m [] = Unit
AreHeld m (e ∷ es) = IsHeld m e × All (Apart e) es × AreHeld m es

abbrev pub requests_of : List Entry → List ℕ
requests_of es = map (λ (e : Entry). e.request) es

-- The memory without a request and its packet.
abbrev without : Memory → Entry → Memory
without m e = record { requests = set m.requests e.request none; pkts = set m.pkts e.pkt_at none }

without-AreHeld :
    (m : Memory) (e : Entry) (es : List Entry)
    → All (Apart e) es
    → AreHeld m es
    → AreHeld (without m e) es
without-AreHeld m e [] far held = tt
without-AreHeld m e (f ∷ es) ((r, a), far) ((at, pkt), far', held) = (
  (get_elem?-set_ne m.requests none r ∙ at, get_elem?-set_ne m.pkts none a ∙ pkt),
  far',
  without-AreHeld m e es far held,
)

-- Destroying a request frees it and its packet, and leaves the others.
pub req_destroy-AreHeld :
    (m : Memory) (e : Entry) (es : List Entry)
    → AreHeld m (e ∷ es)
    → Ensures (λ m'. AreHeld m' es) (req_destroy m e.request)
unfolding req_destroy
req_destroy-AreHeld m e es ((at, pkt), far, held) =
    rw at (rw pkt (ensured (without-AreHeld m e es far held)))

-- A request that is freed with its packet.
abbrev pub IsFreed : Memory → Entry → Type 0
IsFreed m e = (get_elem? m.requests e.request ≡ some none) × (get_elem? m.pkts e.pkt_at ≡ some none)

abbrev without_all : Memory → List Entry → Memory
without_all m [] = m
without_all m (e ∷ es) = without_all (without m e) es

still-IsFreed :
    (m : Memory) (e : Entry) (es : List Entry)
    → All (Apart e) es
    → IsFreed m e
    → IsFreed (without_all m es) e
still-IsFreed m e [] far freed = freed
still-IsFreed m e (f ∷ es) ((r, a), far) (freed, pkt) = still-IsFreed (without m f) e es far (
  get_elem?-set_ne m.requests none (λ q. r (sym q)) ∙ freed,
  get_elem?-set_ne m.pkts none (λ q. a (sym q)) ∙ pkt,
)

all-IsFreed : (m : Memory) (es : List Entry) → AreHeld m es → All (IsFreed (without_all m es)) es
all-IsFreed m [] held = tt
all-IsFreed m (e ∷ es) ((at, pkt), far, held) = (
  still-IsFreed (without m e) e es far (
    get_elem?-set_self m.requests e.request none (get_elem?_inside m.requests e.request at),
    get_elem?-set_self m.pkts e.pkt_at none (get_elem?_inside m.pkts e.pkt_at pkt),
  ),
  all-IsFreed (without m e) es (without-AreHeld m e es far held),
)

destroy_all-without_all :
    (m : Memory) (es : List Entry)
    → AreHeld m es
    → destroy_all m (requests_of es) ≡ done (without_all m es)
unfolding destroy_all req_destroy
destroy_all-without_all m [] held = refl
destroy_all-without_all m (e ∷ es) ((at, pkt), far, held) =
    rw at (rw pkt (destroy_all-without_all (without m e) es (without-AreHeld m e es far held)))

-- Destroying requests frees each of them and its packet.
pub destroy_all-IsFreed :
    (m : Memory) (es : List Entry)
    → AreHeld m es
    → Ensures (λ m'. All (IsFreed m') es) (destroy_all m (requests_of es))
destroy_all-IsFreed m es held =
    rw (destroy_all-without_all m es held) (ensured (all-IsFreed m es held))
