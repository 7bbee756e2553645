-- ===== src/Packet/Wire.antt =====
-- Packets survive the way over the wire.
use peer_file_torrent.Base.{
  ℕ, zero, suc, ◌+◌, ◌*◌, ◌/◌, ◌%◌, ◌<◌, ◌≡◌, refl, sym, ap, ◌∙◌, List, [], ◌∷◌, ◌++◌, arith,
  length, All, Bool-cases, inl, inr, length-append, ◌==◌,
}
use peer_file_torrent.Packet.{
  Layout, Fields, Pkt, to_bytes, from_bytes, read_struct, send_fields, receive_fields, layout_of,
  pkt_marshall, pkt_unmarshall,
}
use peer_file_torrent.Packet.Struct.{
  size_of, IsSized, read_struct-write_struct, receive_fields-send_fields, write_struct-read_struct,
  send_fields-receive_fields, read_struct-IsSized, receive_fields-IsSized,
}

pub length-to_bytes : (k n : ℕ) → length (to_bytes k n) ≡ k
unfolding to_bytes
length-to_bytes zero n = refl
length-to_bytes (suc k) n = ap suc (length-to_bytes k (n / 256))

pub from_bytes-to_bytes_2 : (n : ℕ) → n < 65536 → from_bytes (to_bytes 2 n) ≡ n
unfolding from_bytes to_bytes
from_bytes-to_bytes_2 n h = omega arith

pub from_bytes-to_bytes_4 : (n : ℕ) → n < 4294967296 → from_bytes (to_bytes 4 n) ≡ n
unfolding from_bytes to_bytes
from_bytes-to_bytes_4 n h = omega arith

to_bytes-from_bytes_2 :
    (a b : ℕ) → a < 256 → b < 256 → to_bytes 2 (from_bytes (a ∷ b ∷ [])) ≡ a ∷ b ∷ []
unfolding from_bytes to_bytes
to_bytes-from_bytes_2 a b h k =
    let low : (a + 256 * (b + 256 * 0)) % 256 ≡ a = omega arith in
    let high : (a + 256 * (b + 256 * 0)) / 256 % 256 ≡ b = omega arith in rw (low, high) refl

-- The payload of a packet is 4092 bytes long, whichever member of the union it holds.
pub size-layout_of : (c : ℕ) → size_of (layout_of c) ≡ 4092
unfolding layout_of
size-layout_of c = elim (Bool-cases (c == 6)) [ inl e ↦ rw e refl | inr e ↦ rw e refl ]

-- A packet as C can hold it.
pub record IsPkt (p : Pkt) : Type 0 where
  pub msg_code : p.msg_code < 65536
  pub error : p.error < 65536
  pub payload : length p.payload ≡ 4092

-- What is marshalled is unmarshalled to the same packet: its codes and each byte of its payload,
-- whichever member of the union the message code selects.
pub pkt_unmarshall-pkt_marshall : (p : Pkt) → IsPkt p → pkt_unmarshall (pkt_marshall p) ≡ p
unfolding pkt_marshall pkt_unmarshall to_bytes
pkt_unmarshall-pkt_marshall p h =
    let l = layout_of p.msg_code in
    let fits : length p.payload ≡ size_of l = h.payload ∙ sym (size-layout_of p.msg_code) in
    rw (from_bytes-to_bytes_2 p.msg_code h.msg_code, from_bytes-to_bytes_2 p.error h.error)
      (rw
        (receive_fields-send_fields l (read_struct l p.payload)
          (read_struct-IsSized l p.payload fits))
        (rw (write_struct-read_struct l p.payload fits) refl))

length-send_fields : (l : Layout) (f : Fields) → IsSized l f → length (send_fields f) ≡ size_of l
unfolding send_fields
length-send_fields l f s =
    let o = s.offset in
    let d = s.payload_data in
    let z = s.size in
    let i = s.ident in
    let x = s.hash in
    omega (
      arith,
      length-append f.offset (f.payload_data ++ (f.size ++ (f.ident ++ f.hash))),
      length-append f.payload_data (f.size ++ (f.ident ++ f.hash)),
      length-append f.size (f.ident ++ f.hash),
      length-append f.ident f.hash,
    )

-- A marshalled packet has 4096 bytes, which is the size of the buffers that hold it.
pub length-pkt_marshall : (p : Pkt) → IsPkt p → length (pkt_marshall p) ≡ 4096
unfolding pkt_marshall to_bytes
length-pkt_marshall p h =
    let l = layout_of p.msg_code in
    let fits : length p.payload ≡ size_of l = h.payload ∙ sym (size-layout_of p.msg_code) in
    omega (
      arith,
      length-send_fields l (read_struct l p.payload) (read_struct-IsSized l p.payload fits),
      size-layout_of p.msg_code,
    )

-- Any 4096 bytes are unmarshalled to a packet that is marshalled to the same bytes.
pub pkt_marshall-pkt_unmarshall :
    (m : List ℕ) → length m ≡ 4096 → All (λ b. b < 256) m → pkt_marshall (pkt_unmarshall m) ≡ m
unfolding pkt_marshall pkt_unmarshall
pkt_marshall-pkt_unmarshall [] e bytes = absurd (omega arith)
pkt_marshall-pkt_unmarshall (a ∷ []) e bytes = absurd (omega arith)
pkt_marshall-pkt_unmarshall (a ∷ b ∷ []) e bytes = absurd (omega arith)
pkt_marshall-pkt_unmarshall (a ∷ b ∷ c ∷ []) e bytes = absurd (omega arith)
pkt_marshall-pkt_unmarshall (a ∷ b ∷ c ∷ d ∷ m) e (ha, (hb, (hc, (hd, _)))) =
    let l = layout_of (from_bytes (a ∷ b ∷ [])) in
    let fits : length m ≡ size_of l = omega (arith, size-layout_of (from_bytes (a ∷ b ∷ []))) in
    let s = receive_fields-IsSized l m fits in
    rw (to_bytes-from_bytes_2 a b ha hb, to_bytes-from_bytes_2 c d hc hd)
      (rw (read_struct-write_struct l (receive_fields l m) s)
        (rw (send_fields-receive_fields l m fits) refl))
