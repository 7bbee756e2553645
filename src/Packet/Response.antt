-- ===== src/Packet/Response.antt =====
-- What a response carries from `payload_create_res` to the peer that receives it.
use peer_file_torrent.Base.{
  until_nul, ℕ, zero, suc, ◌≤◌, ◌<◌, ◌≡◌, refl, sym, ap, ◌∙◌, List, [], ◌∷◌, ◌++◌, arith, length,
  take-length, take, Bool-cases, inl, inr, Option, none, some, length-append, length-take,
  length-replicate, replicate, take-append_le, leb, true,
}
use peer_file_torrent.Packet.{
  Layout, res_t, Fields, Pkt, to_bytes, from_bytes, read_struct, write_struct, pkt_marshall,
  pkt_unmarshall, pkt_create, copy_string, copy_data, payload_create_res,
}
use peer_file_torrent.Packet.Struct.{size_of, IsSized, read_struct-write_struct}
use peer_file_torrent.Packet.Wire.{
  IsPkt, length-to_bytes, from_bytes-to_bytes_2, from_bytes-to_bytes_4, pkt_unmarshall-pkt_marshall,
}

length-copy_string : (w n : ℕ) (s : Option (List ℕ)) → length (copy_string w n s) ≡ w
unfolding copy_string
length-copy_string w n none = length-replicate {A = ℕ} w 0
length-copy_string w n (some s) = omega (
  arith,
  length-take w (until_nul (take n s) ++ replicate w 0),
  length-append (until_nul (take n s)) (replicate w 0),
  length-replicate {A = ℕ} w 0,
)

length-copy_data : (w n : ℕ) (s : Option (List ℕ)) → length (copy_data w n s) ≡ w
unfolding copy_data
length-copy_data w n none = length-replicate {A = ℕ} w 0
length-copy_data w n (some s) = elim (Bool-cases (leb n w)) [
  | inl e ↦ rw e (
      omega (
        arith,
        length-take w (take n s ++ replicate w 0),
        length-append (take n s) (replicate w 0),
        length-replicate {A = ℕ} w 0,
      ))
  | inr e ↦ rw e (length-replicate {A = ℕ} w 0)
]

-- The fields that `payload_create_res` stores.
abbrev res_fields : ℕ → ℕ → Option (List ℕ) → Option (List ℕ) → Option (List ℕ) → Fields
res_fields offset size hash ident bytes = record {
  offset = to_bytes 4 offset;
  payload_data = copy_data 2998 size bytes;
  size = to_bytes 2 size;
  hash = copy_string 64 64 hash;
  ident = copy_string 1024 1024 ident;
}

res_fields-IsSized :
    (offset size : ℕ) (hash ident bytes : Option (List ℕ))
    → IsSized res_t (res_fields offset size hash ident bytes)
res_fields-IsSized offset size hash ident bytes = record {
  offset = length-to_bytes 4 offset;
  payload_data = length-copy_data 2998 size bytes;
  size = length-to_bytes 2 size;
  hash = length-copy_string 64 64 hash;
  ident = length-copy_string 1024 1024 ident;
}

length-write_struct : (l : Layout) (f : Fields) → IsSized l f → length (write_struct f) ≡ size_of l
unfolding write_struct
length-write_struct l f s =
    let o = s.offset in
    let d = s.payload_data in
    let z = s.size in
    let i = s.ident in
    let x = s.hash in
    omega (
      arith,
      length-append f.offset (f.payload_data ++ (f.size ++ (f.hash ++ f.ident))),
      length-append f.payload_data (f.size ++ (f.hash ++ f.ident)),
      length-append f.size (f.hash ++ f.ident),
      length-append f.hash f.ident,
    )

take-take_le : (m n : ℕ) (xs : List ℕ) → m ≤ n → take m (take n xs) ≡ take m xs
take-take_le zero n xs h = refl
take-take_le (suc m) zero xs h = absurd (omega arith)
take-take_le (suc m) (suc n) [] h = refl
take-take_le (suc m) (suc n) (x ∷ xs) h = ap (λ t. x ∷ t) (take-take_le m n xs (omega arith))

copy_data_start :
    (w : ℕ) (bytes : List ℕ)
    → length bytes ≤ w
    → take (length bytes) (copy_data w (length bytes) (some bytes)) ≡ bytes
unfolding copy_data
copy_data_start w bytes h =
    let n = length bytes in
    let test : leb n w ≡ true = ground arith in
    let all : take n bytes ≡ bytes = take-length bytes in
    rw test (
      rw all (
        take-take_le n w (bytes ++ replicate w 0) h
        ∙ take-append_le n bytes (replicate w 0) (omega arith)
        ∙ all))

-- The 64 characters of a hash, none of which is zero.
abbrev pub IsDigest : List ℕ → Type 0
IsDigest hash = (length hash ≡ 64) × (until_nul hash ≡ hash)

copy_string_whole :
    (w : ℕ) (s : List ℕ) → length s ≡ w → until_nul s ≡ s → copy_string w w (some s) ≡ s
unfolding copy_string
copy_string_whole w s e text =
    let all : take w s ≡ s = ap (λ (n : ℕ). take n s) (sym e) ∙ take-length s in
    rw (all, text) (take-append_le w s (replicate w 0) (omega arith) ∙ all)

-- A response is a packet as C can hold it.
pub response-IsPkt :
    (offset err size : ℕ) (hash ident bytes : Option (List ℕ))
    → err < 65536
    → IsPkt (pkt_create 7 err (payload_create_res offset size hash ident bytes))
unfolding pkt_create payload_create_res
response-IsPkt offset err size hash ident bytes he = record {
  msg_code = omega arith;
  error = he;
  payload = length-write_struct res_t _ (res_fields-IsSized offset size hash ident bytes);
}

-- A response that is built by `payload_create_res` and `pkt_create`, sent and received arrives with
-- the offset, the size, the hash and the data that it was built from, for at most 2998 bytes of data
-- and a hash of 64 characters, none of which is zero.
pub pkt_unmarshall_response :
    (offset err : ℕ) (bytes hash : List ℕ) (ident : Option (List ℕ))
    → offset < 4294967296
    → err < 65536
    → length bytes ≤ 2998
    → IsDigest hash
    → (f : Fields) × (read_struct res_t
          (pkt_unmarshall (
            pkt_marshall (
              pkt_create 7 err
                (payload_create_res offset (length bytes) (some hash) ident (some bytes))))).payload
        ≡ f)
      × (from_bytes f.offset ≡ offset)
      × (from_bytes f.size ≡ length bytes)
      × (f.hash ≡ hash)
      × (take (length bytes) f.payload_data ≡ bytes)
unfolding pkt_create payload_create_res
pkt_unmarshall_response offset err bytes hash ident ho he hn hh =
    let f = res_fields offset (length bytes) (some hash) ident (some bytes) in
    let s = res_fields-IsSized offset (length bytes) (some hash) ident (some bytes) in
    let p : Pkt = record { msg_code = 7; error = err; payload = write_struct f } in
    let good : IsPkt p =
      response-IsPkt offset err (length bytes) (some hash) ident (some bytes) he in
    (
      f,
      rw (pkt_unmarshall-pkt_marshall p good) (read_struct-write_struct res_t f s),
      from_bytes-to_bytes_4 offset ho,
      from_bytes-to_bytes_2 (length bytes) (omega arith),
      copy_string_whole 64 hash hh.0 hh.1,
      copy_data_start 2998 bytes hn,
    )
