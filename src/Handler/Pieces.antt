-- ===== src/Handler/Pieces.antt =====
-- The packets that carry a chunk.
use peer_file_torrent.Base.{
  ℕ, zero, suc, ◌+◌, ◌-◌, ◌≤◌, ◌<◌, ◌≡◌, refl, sym, ap, ◌∙◌, subst, inl, inr, arith, true, some,
  List, [], ◌∷◌, ◌++◌, append-nil, append_assoc, length, take, drop, ltb, leb, Bool-cases,
  length-take, length-drop, drop-drop, u8, u32, Ensures, ensured, and_then, weaken,
}
use peer_file_torrent.Packet.{
  Pkt, Fields, res_t, read_struct, from_bytes, pkt_create, pkt_marshall, pkt_unmarshall,
  payload_create_res,
}
use peer_file_torrent.Packet.Wire.{IsPkt, pkt_unmarshall-pkt_marshall}
use peer_file_torrent.Packet.Response.{IsDigest, pkt_unmarshall_response, response-IsPkt}
use peer_file_torrent.Package.{Bpkg}
use peer_file_torrent.Handler.Socket.{Sockets, IsStream, IsSteady}
use peer_file_torrent.Handler.Transfer.{take-add, try_send-whole}
use peer_file_torrent.Handler.{piece_size, read_data, send_res, pieces_step, send_pieces}

-- The packet `p` is a response that carries `bytes` of the chunk with the hash, for the offset: it
-- arrives as it was sent.
pub record Piece (hash : List ℕ) (offset : ℕ) (bytes : List ℕ) (p : Pkt) : Type 0 where
  pub arrives : pkt_unmarshall (pkt_marshall p) ≡ p
  pub msg_code : p.msg_code ≡ 7
  pub error : p.error ≡ 0
  pub offset_field : from_bytes (read_struct res_t p.payload).offset ≡ offset
  pub size : from_bytes (read_struct res_t p.payload).size ≡ length bytes
  pub hash_field : (read_struct res_t p.payload).hash ≡ hash
  pub payload_data : take (length bytes) (read_struct res_t p.payload).payload_data ≡ bytes

-- The packets carry the bytes of a chunk from the offset on, each at most 2998 of them, in order and
-- without a gap.
pub data Pieces (hash : List ℕ) : ℕ → List ℕ → List Pkt → Type 0 where
  end : {offset : ℕ} → Pieces hash offset [] []
  piece :
      {offset : ℕ} (bytes : List ℕ) {more : List ℕ} (p : Pkt) {ps : List Pkt}
      → 1 ≤ length bytes
      → length bytes ≤ 2998
      → Piece hash offset bytes p
      → Pieces hash (offset + length bytes) more ps
      → Pieces hash offset (bytes ++ more) (p ∷ ps)

-- The bytes of packets, one behind the other.
abbrev pub wire : List Pkt → List ℕ
wire [] = []
wire (p ∷ ps) = pkt_marshall p ++ wire ps

read_data_lem :
    (f : List ℕ) (at n : ℕ)
    → at + n ≤ length f
    → Ensures (λ bytes. bytes ≡ take n (drop at f)) (read_data f at n)
unfolding read_data
read_data_lem f at n h =
    let test : leb (at + n) (length f) ≡ true = ground arith in rw test (ensured refl)

piece_size_lem : (n : ℕ) → 0 < n → (1 ≤ piece_size n) × (piece_size n ≤ 2998) × (piece_size n ≤ n)
unfolding piece_size
piece_size_lem n h = ground arith

response-Piece :
    (offset : ℕ) (bytes hash ident : List ℕ)
    → offset < 4294967296
    → length bytes ≤ 2998
    → IsDigest hash
    → Piece hash offset bytes (
        pkt_create 7 0
          (payload_create_res offset (length bytes) (some hash) (some ident) (some bytes)))
unfolding pkt_create
response-Piece offset bytes hash ident ho hn hh =
    let p =
      pkt_create 7 0
        (payload_create_res offset (length bytes) (some hash) (some ident) (some bytes)) in
    let (f, read, off, size, hash_field, payload_data) =
      pkt_unmarshall_response offset 0 bytes hash (some ident) ho (omega arith) hn hh in
    let back = pkt_unmarshall-pkt_marshall p (
      response-IsPkt offset 0 (length bytes) (some hash) (some ident) (some bytes) (omega arith)) in
    let fields : read_struct res_t p.payload ≡ f =
      ap (λ (x : Pkt). read_struct res_t x.payload) (sym back) ∙ read in
    record {
      arrives = back;
      msg_code = refl;
      error = refl;
      offset_field = ap (λ (x : Fields). from_bytes x.offset) fields ∙ off;
      size = ap (λ (x : Fields). from_bytes x.size) fields ∙ size;
      hash_field = ap (λ (x : Fields). x.hash) fields ∙ hash_field;
      payload_data = ap (λ (x : Fields). take (length bytes) x.payload_data) fields ∙ payload_data;
    }

module _ (K : Sockets) (w : IsStream K) (steady : IsSteady K w) where
  -- From `s` to `t` the packets were sent, and nothing was received.
  abbrev pub Sent : List Pkt → K.State → K.State → Type 0
  Sent ps s t = (w.sent t ≡ w.sent s ++ wire ps) × (w.pending t ≡ w.pending s)

  pub send_res-Sent :
      (s : K.State) (err : ℕ) (payload : List ℕ)
      → IsPkt (pkt_create 7 (u8 err) payload)
      → Ensures (Sent (pkt_create 7 (u8 err) payload ∷ []) s) (send_res K s err payload)
  unfolding send_res
  send_res-Sent s err payload h =
      weaken (try_send-whole K w steady s (pkt_create 7 (u8 err) payload) h)
        λ t (e, q). (e ∙ ap (λ x. w.sent s ++ x) (sym (append-nil (pkt_marshall _))), q)

  module _ (bpkg : Bpkg) (hash : List ℕ) (hh : IsDigest hash) where
    abbrev f_data : List ℕ
    f_data = bpkg.mtree.f_data

    send-Piece :
        (s : K.State) (offset n : ℕ) (bytes : List ℕ)
        → length bytes ≡ n
        → n ≤ 2998
        → offset < 4294967296
        → Ensures
            (λ t. (p : Pkt) × Piece hash offset bytes p × Sent (p ∷ []) s t)
            (send_res K s 0
              (payload_create_res offset n (some hash) (some bpkg.ident) (some bytes)))
    send-Piece s offset n bytes e hn ho =
        subst
          (λ (k : ℕ).
            Ensures (λ t. (p : Pkt) × Piece hash offset bytes p × Sent (p ∷ []) s t)
              (send_res K s 0
                (payload_create_res offset k (some hash) (some bpkg.ident) (some bytes))))
          e
          (weaken
            (send_res-Sent s 0
              (payload_create_res offset (length bytes) (some hash) (some bpkg.ident) (some bytes))
              (response-IsPkt offset 0 (length bytes) (some hash) (some bpkg.ident) (some bytes)
                (omega arith)))
            λ t sent. (_, response-Piece offset bytes hash bpkg.ident ho (omega arith) hh, sent))

    Piece-then :
        (s t u : K.State) (offset n remaining : ℕ) (bytes : List ℕ) (p : Pkt) (ps : List Pkt)
        → 1 ≤ n
        → n ≤ 2998
        → n ≤ remaining
        → bytes ≡ take n (drop offset f_data)
        → length bytes ≡ n
        → Piece hash offset bytes p
        → Sent (p ∷ []) s t
        → Pieces hash (offset + n) (take (remaining - n) (drop (offset + n) f_data)) ps
        → Sent ps t u
        → (qs : List Pkt) × Pieces hash offset (take remaining (drop offset f_data)) qs
          × Sent qs s u
    Piece-then s t u offset n remaining bytes p ps low high le read long is (e, q) rest (e', q') =
        let m = drop offset f_data in
        let sum : n + (remaining - n) ≡ remaining = omega arith in
        let rejoined : bytes ++ take (remaining - n) (drop (offset + n) f_data) ≡ take remaining m =
          ap (λ x. x ++ take (remaining - n) (drop (offset + n) f_data)) read
          ∙ ap (λ x. take n m ++ take (remaining - n) x) (sym (drop-drop offset n f_data))
          ∙ take-add n (remaining - n) m
          ∙ ap (λ (k : ℕ). take k m) sum in
        (
          p ∷ ps,
          subst (λ (x : List ℕ). Pieces hash offset x (p ∷ ps)) rejoined
              (piece bytes p (omega arith) (omega arith) is (
                subst
                  (λ (k : ℕ).
                    Pieces hash (offset + k) (take (remaining - n) (drop (offset + n) f_data)) ps)
                  (sym long) rest)),
          (
            e'
                ∙ ap (λ x. x ++ wire ps) e
                ∙ append_assoc (w.sent s) (pkt_marshall p ++ []) (wire ps)
                ∙ ap (λ x. w.sent s ++ (x ++ wire ps)) (append-nil (pkt_marshall p)),
            q' ∙ q,
          ),
        )

    -- The loop sends `remaining_size` bytes of the file from `curr_offset` on.
    pub send_pieces-Pieces :
        (fuel : ℕ) (s : K.State) (offset remaining : ℕ)
        → remaining < fuel
        → offset + remaining ≤ length f_data
        → length f_data < 4294967296
        → Ensures
            (λ t.
              (ps : List Pkt) × Pieces hash offset (take remaining (drop offset f_data)) ps
              × Sent ps s t)
            (send_pieces K fuel bpkg hash 0 s offset remaining)
    unfolding send_pieces pieces_step
    send_pieces-Pieces zero s offset remaining enough inside small = absurd (omega arith)
    send_pieces-Pieces (suc fuel) s offset remaining enough inside small =
        elim (Bool-cases (ltb 0 remaining)) [
          | inl c ↦ rw c (
              let pos : 0 < remaining = ground arith in
              let (low, high, le) = piece_size_lem remaining pos in
              let n = piece_size remaining in
              and_then (read_data_lem f_data offset n (omega arith)) λ bytes read.
                let long : length bytes ≡ n =
                  ap length read
                  ∙ omega (arith, length-take n (drop offset f_data), length-drop offset f_data) in
                and_then (send-Piece s offset n bytes long high (omega arith)) λ t (p, is, sent).
                  let next : u32 (offset + n) ≡ offset + n = omega arith in
                  rw next (
                    weaken
                      (send_pieces-Pieces fuel t (offset + n) (remaining - n) (omega arith)
                        (omega arith) small)
                      λ u (ps, rest, sent').
                        Piece-then s t u offset n remaining bytes p ps low high le read long is sent
                          rest sent'))
          | inr f ↦
              let empty : 0 ≡ remaining = ground arith in
              rw f (
                ensured (
                  [],
                  subst (λ (n : ℕ). Pieces hash offset (take n (drop offset f_data)) []) empty end,
                  (sym (append-nil (w.sent s)), refl),
                ))
        ]
