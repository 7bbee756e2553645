-- ===== src/Packet.antt =====
-- src/peer_2_peer/packet.c and include/peer_2_peer/packet.h: packets and their bytes on the wire,
-- on a little-endian machine.
pub mod Struct
pub mod Wire
pub mod Response
use peer_file_torrent.Base.{
  until_nul, ℕ, zero, suc, ◌+◌, ◌-◌, ◌*◌, ◌/◌, ◌%◌, Bool, true, false, Option, none, some, List, [],
  ◌∷◌, ◌++◌, leb, ◌==◌, if◌then◌else◌, take, drop, replicate,
}

-- The bytes of an integer of `k` bytes in memory, and the integer that bytes in memory are.
unfoldable pub to_bytes : ℕ → ℕ → List ℕ
to_bytes zero n = []
to_bytes (suc k) n = n % 256 ∷ to_bytes k (n / 256)

unfoldable pub from_bytes : List ℕ → ℕ
from_bytes [] = 0
from_bytes (b ∷ bs) = b + 256 * from_bytes bs

-- The sizes of the fields of `res_t` and `req_t`, which are packed.
pub record Layout : Type 0 where
  pub offset : ℕ
  pub data_max : ℕ
  pub size : ℕ
  pub hash : ℕ
  pub ident : ℕ

abbrev pub res_t : Layout
res_t = record { offset = 4; data_max = 2998; size = 2; hash = 64; ident = 1024 }

abbrev pub req_t : Layout
req_t = record { offset = 4; data_max = 2998; size = 4; hash = 64; ident = 1022 }

-- The bytes of each field.
pub record Fields : Type 0 where
  pub offset : List ℕ
  pub payload_data : List ℕ
  pub size : List ℕ
  pub hash : List ℕ
  pub ident : List ℕ

-- The fields of a struct in memory, in the order of its declaration.
unfoldable pub read_struct : Layout → List ℕ → Fields
read_struct l m = record {
  offset = take l.offset m;
  payload_data = take l.data_max (drop l.offset m);
  size = take l.size (drop (l.offset + l.data_max) m);
  hash = take l.hash (drop (l.offset + l.data_max + l.size) m);
  ident = take l.ident (drop (l.offset + l.data_max + l.size + l.hash) m);
}

unfoldable pub write_struct : Fields → List ℕ
write_struct f = f.offset ++ (f.payload_data ++ (f.size ++ (f.hash ++ f.ident)))

-- The fields as they are sent, where the hash is the last one.
unfoldable pub send_fields : Fields → List ℕ
send_fields f = f.offset ++ (f.payload_data ++ (f.size ++ (f.ident ++ f.hash)))

unfoldable pub receive_fields : Layout → List ℕ → Fields
receive_fields l m = record {
  offset = take l.offset m;
  payload_data = take l.data_max (drop l.offset m);
  size = take l.size (drop (l.offset + l.data_max) m);
  ident = take l.ident (drop (l.offset + l.data_max + l.size) m);
  hash = take l.hash (drop (l.offset + l.data_max + l.size + l.ident) m);
}

-- `pkt_t`; the payload is a union, and so its bytes.
pub record Pkt : Type 0 where
  pub msg_code : ℕ
  pub error : ℕ
  pub payload : List ℕ

-- PKT_MSG_REQ and PKT_MSG_RES.
abbrev pub pkt_msg_req : ℕ
pkt_msg_req = 6

abbrev pub pkt_msg_res : ℕ
pkt_msg_res = 7

-- The member of the union that the code of a message stands for.
unfoldable pub layout_of : ℕ → Layout
layout_of msg_code = if msg_code == pkt_msg_req then req_t else res_t

-- `pkt_marshall`: the bytes that it stores, one field behind the other.
unfoldable pub pkt_marshall : Pkt → List ℕ
pkt_marshall p =
    to_bytes 2 p.msg_code
    ++ (to_bytes 2 p.error ++ send_fields (read_struct (layout_of p.msg_code) p.payload))

-- `pkt_unmarshall`, which stores every field of the packet.
unfoldable pub pkt_unmarshall : List ℕ → Pkt
pkt_unmarshall m =
    let msg_code = from_bytes (take 2 m) in
    record {
      msg_code = msg_code;
      error = from_bytes (take 2 (drop 2 m));
      payload = write_struct (receive_fields (layout_of msg_code) (drop 4 m));
    }

-- `pkt_create`.
unfoldable pub pkt_create : ℕ → ℕ → List ℕ → Pkt
pkt_create msg err payload = record { msg_code = msg; error = err; payload = payload }

-- `strncpy` of at most `n` bytes into a field of `width` zeros: it stops at a zero byte, and pads. A
-- null pointer copies nothing.
unfoldable pub copy_string : ℕ → ℕ → Option (List ℕ) → List ℕ
copy_string width n none = replicate width 0
copy_string width n (some s) = take width (until_nul (take n s) ++ replicate width 0)

-- `memcpy` of `size` bytes into a field of `width` zeros, when there is data and it fits.
unfoldable pub copy_data : ℕ → ℕ → Option (List ℕ) → List ℕ
copy_data width size none = replicate width 0
copy_data width size (some bytes) =
    if leb size width then take width (take size bytes ++ replicate width 0) else replicate width 0

-- `payload_create_res` and `payload_create_req`; the data has at least `size` bytes.
unfoldable pub payload_create_res :
    ℕ → ℕ → Option (List ℕ) → Option (List ℕ) → Option (List ℕ) → List ℕ
payload_create_res offset size hash ident bytes = write_struct (record {
  offset = to_bytes 4 offset;
  payload_data = copy_data 2998 size bytes;
  size = to_bytes 2 size;
  hash = copy_string 64 64 hash;
  ident = copy_string 1024 1024 ident;
})

unfoldable pub payload_create_req :
    ℕ → ℕ → Option (List ℕ) → Option (List ℕ) → Option (List ℕ) → List ℕ
payload_create_req offset size hash ident bytes = write_struct (record {
  offset = to_bytes 4 offset;
  payload_data = copy_data 2998 size bytes;
  size = to_bytes 4 size;
  hash = copy_string 64 64 hash;
  ident = copy_string 1022 1022 ident;
})
