-- ===== src/Handler/Respond.antt =====
-- What `send_res_pkts` answers.
use peer_file_torrent.Base.{
  ℕ, suc, ◌+◌, ◌≤◌, ◌<◌, ◌≡◌, refl, inl, inr, arith, true, false, Option, none, some, List, [], ◌∷◌,
  length, take, drop, Bool-cases, length-replicate, done, Ensures, weaken, get_elem?, ◌>>=◌,
}
use peer_file_torrent.Packet.{Pkt, Fields, req_t, read_struct, pkt_create}
use peer_file_torrent.Packet.Response.{IsDigest}
use peer_file_torrent.Package.{Bpkg, Bpkgs, c_string}
use peer_file_torrent.Package.Manage.{IsBpkgs}
use peer_file_torrent.Package.Search.{first_such, prefixed, pkg_find_by_ident-first_such}
use peer_file_torrent.Merkle.{Chunk, Node, Mtree}
use peer_file_torrent.Handler.Socket.{Sockets, IsStream, IsSteady}
use peer_file_torrent.Handler.Pieces.{Pieces, Sent, send_res-Sent, send_pieces-Pieces}
use peer_file_torrent.Handler.{
  empty_payload, send_res, send_pieces, respond, respond_for, send_res_pkts, find_requested,
  complete_node, is_complete,
}

-- The response with the error code 255 and no payload.
abbrev pub error_pkt : Pkt
error_pkt = record { msg_code = 7; error = 255; payload = empty_payload }

-- A node that can be answered with: its hashes agree and have 64 characters, none of which is zero,
-- and it has a chunk inside the mapped file.
pub record IsServable (bpkg : Bpkg) (n : Node) (c : Chunk) : Type 0 where
  pub complete : is_complete n ≡ true
  pub chunk : n.chunk ≡ some c
  pub hash : IsDigest n.expected_hash
  pub inside : c.offset + c.size ≤ length bpkg.mtree.f_data
  pub small : length bpkg.mtree.f_data < 4294967296

-- What is sent for the node that was found, if one was.
pub data Answer (bpkg : Bpkg) : Option Node → List Pkt → Type 0 where
  unknown : Answer bpkg none (error_pkt ∷ [])
  incomplete : {n : Node} → is_complete n ≡ false → Answer bpkg (some n) (error_pkt ∷ [])
  chunk_sent :
      {n : Node} {c : Chunk} {ps : List Pkt}
      → n.chunk ≡ some c
      → Pieces n.expected_hash c.offset (take c.size (drop c.offset bpkg.mtree.f_data)) ps
      → Answer bpkg (some n) ps

-- The node at an index that a search returned, if it returned one.
pub data NodeAt (t : Mtree) : Option ℕ → Option Node → Type 0 where
  no_node : NodeAt t none none
  at : {i : ℕ} {n : Node} → get_elem? t.nodes i ≡ some n → NodeAt t (some i) (some n)

-- A node that is complete can be answered with.
abbrev pub Servable : Bpkg → Option Node → Type 0
Servable bpkg none = Unit
Servable bpkg (some n) = is_complete n ≡ true → (c : Chunk) × IsServable bpkg n c

-- What the request of a package is about: its identifier and its fields.
abbrev pub request_fields : Pkt → Fields
request_fields p = read_struct req_t p.payload

module _ (K : Sockets) (w : IsStream K) (steady : IsSteady K w) where
  send_error :
      (s : K.State)
      → Ensures (Sent K w steady (error_pkt ∷ []) s) (send_res K s 65535 empty_payload)
  unfolding pkt_create
  send_error s = send_res-Sent K w steady s 65535 empty_payload (record {
    msg_code = omega arith;
    error = omega arith;
    payload = length-replicate {A = ℕ} 4092 0;
  })

  respond_chunk :
      (bpkg : Bpkg) (s : K.State) (n : Node) (c : Chunk)
      → n.chunk ≡ some c
      → respond K bpkg s (some n)
        ≡ send_pieces K (suc c.size) bpkg n.expected_hash 0 s c.offset c.size
  unfolding respond
  respond_chunk bpkg s n c e = rw e refl

  complete_node-Answer :
      (bpkg : Bpkg) (s : K.State) (found : Option ℕ) (node : Option Node)
      → NodeAt bpkg.mtree found node
      → Servable bpkg node
      → Ensures
          (λ t. (ps : List Pkt) × Answer bpkg node ps × Sent K w steady ps s t)
          (do n ← complete_node bpkg.mtree found; respond K bpkg s n)
  unfolding complete_node respond
  complete_node-Answer bpkg s none none no_node ok =
      weaken (send_error s) λ t sent. (error_pkt ∷ [], unknown, sent)
  complete_node-Answer bpkg s none (some n) place ok = elim place [ ]
  complete_node-Answer bpkg s (some i) none place ok = elim place [ ]
  complete_node-Answer bpkg s (some i) (some n) (at e) ok =
      rw e (elim (Bool-cases (is_complete n)) [
        | inl c ↦
            let (chk, good) = ok c in
            rw c (
              rw (respond_chunk bpkg s n chk good.chunk) (
                weaken
                  (send_pieces-Pieces K w steady bpkg n.expected_hash good.hash (suc chk.size) s
                    chk.offset chk.size (omega arith) good.inside good.small)
                  λ t (ps, pieces, sent). (ps, chunk_sent good.chunk pieces, sent)))
        | inr f ↦ rw f (weaken (send_error s) λ t sent. (error_pkt ∷ [], incomplete f, sent))
      ])

  -- A request for a package that is not managed is answered with the error code 255 alone.
  pub send_res_pkts_unknown :
      (fuel : ℕ) (s : K.State) (p : Pkt) (b : Bpkgs) (xs ident : List ℕ)
      → IsBpkgs b xs
      → length xs < fuel
      → c_string (request_fields p).ident ≡ done ident
      → first_such (prefixed b ident) xs ≡ none
      → Ensures (Sent K w steady (error_pkt ∷ []) s) (send_res_pkts K fuel s p b)
  unfolding send_res_pkts respond_for
  send_res_pkts_unknown fuel s p b xs ident w' enough named missing =
      rw named
        (rw (pkg_find_by_ident-first_such fuel b ident xs w' enough) (rw missing (send_error s)))

  -- Where no call of `send` fails, a request is answered from the first managed package whose identifier agrees with it: when the
  -- node that the search finds is complete, its chunk is sent, in order and without a gap, in packets
  -- of at most 2998 bytes that arrive as they were sent; when it finds none, or one that is not
  -- complete, only the error code 255 is sent. A complete node has to have its chunk in the file, and
  -- a hash of 64 characters, none of which is zero.
  pub send_res_pkts-Answer :
      (fuel : ℕ) (s : K.State) (p : Pkt) (b : Bpkgs) (xs ident : List ℕ) (x : ℕ) (bpkg : Bpkg)
      (found : Option ℕ) (node : Option Node)
      → IsBpkgs b xs
      → length xs < fuel
      → c_string (request_fields p).ident ≡ done ident
      → first_such (prefixed b ident) xs ≡ some x
      → get_elem? b.objects x ≡ some (some bpkg)
      → find_requested bpkg.mtree (request_fields p) ≡ done found
      → NodeAt bpkg.mtree found node
      → Servable bpkg node
      → Ensures
          (λ t. (ps : List Pkt) × Answer bpkg node ps × Sent K w steady ps s t)
          (send_res_pkts K fuel s p b)
  unfolding send_res_pkts respond_for
  send_res_pkts-Answer fuel s p b xs ident x bpkg found node w' enough named first there search_ok i
        ok =
      rw named (
        rw (pkg_find_by_ident-first_such fuel b ident xs w' enough)
          (rw first (rw there (rw search_ok (complete_node-Answer bpkg s found node i ok)))))
