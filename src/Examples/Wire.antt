-- ===== src/Examples/Wire.antt =====
-- Packets on the wire.
use peer_file_torrent.Base.{
  until_nul, ℕ, zero, suc, ◌<◌, ◌≡◌, refl, List, [], ◌∷◌, none, some, arith, All, replicate,
  length-replicate, take,
}
use peer_file_torrent.Packet.{
  Pkt, Fields, res_t, read_struct, from_bytes, pkt_create, pkt_marshall, pkt_unmarshall,
  payload_create_res,
}
use peer_file_torrent.Packet.Wire.{IsPkt, pkt_unmarshall-pkt_marshall, pkt_marshall-pkt_unmarshall}
use peer_file_torrent.Packet.Response.{pkt_unmarshall_response}

abbrev request : Pkt
request = record { msg_code = 6; error = 0; payload = replicate 4092 65 }

request-IsPkt : IsPkt request
request-IsPkt = record {
  msg_code = omega arith;
  error = omega arith;
  payload = length-replicate {A = ℕ} 4092 65;
}

pkt_unmarshall-pkt_marshall_example : pkt_unmarshall (pkt_marshall request) ≡ request
pkt_unmarshall-pkt_marshall_example = pkt_unmarshall-pkt_marshall request request-IsPkt

All-replicate : (n : ℕ) → All (λ b. b < 256) (replicate n 7)
All-replicate zero = tt
All-replicate (suc n) = (omega arith, All-replicate n)

pkt_marshall-pkt_unmarshall_example :
    pkt_marshall (pkt_unmarshall (replicate 4096 7)) ≡ replicate 4096 7
pkt_marshall-pkt_unmarshall_example =
    pkt_marshall-pkt_unmarshall (replicate 4096 7) (length-replicate {A = ℕ} 4096 7)
      (All-replicate 4096)

abbrev digest : List ℕ
digest = replicate 64 97

pkt_unmarshall_response_example :
    (f : Fields) × (read_struct res_t
        (pkt_unmarshall (
          pkt_marshall (
            pkt_create 7 0
              (payload_create_res 4096 2 (some digest) none (some (65 ∷ 66 ∷ [])))))).payload
      ≡ f)
    × (from_bytes f.offset ≡ 4096)
    × (from_bytes f.size ≡ 2)
    × (f.hash ≡ digest)
    × (take 2 f.payload_data ≡ 65 ∷ 66 ∷ [])
unfolding until_nul
pkt_unmarshall_response_example =
    pkt_unmarshall_response 4096 0 (65 ∷ 66 ∷ []) digest none (omega arith) (omega arith)
      (omega arith) (refl, refl)
