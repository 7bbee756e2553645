-- ===== src/Handler.antt =====
-- src/peer_2_peer/peer_handler.c: the thread that serves one connected peer. The socket is a
-- parameter, and so is what arrives on it.
pub mod Socket
pub mod Transfer
pub mod Receive
pub mod Pieces
pub mod Respond
pub mod Loop
pub mod Held
pub mod Pings
pub mod Rounds
pub mod Replies
pub mod Notify
pub mod Backlog
pub mod Responses
use peer_file_torrent.Base.{
  ℕ, zero, suc, ◌+◌, ◌-◌, ◌%◌, Bool, true, false, Option, none, some, List, [], ◌∷◌, ◌++◌, ltb, leb,
  ◌==◌, if◌then◌else◌, length, take, drop, replicate, set, get_elem?, strn_eq, u8, u16, u32, Run,
  done, fault, out_of_fuel, ◌>>=◌, deref,
}
use peer_file_torrent.Handler.Socket.{Sockets}
use peer_file_torrent.Merkle.{Chunk, Node, Mtree, node_at}
use peer_file_torrent.Query.{chunk, find_node_from_hash, find_node_from_hash_offset}
use peer_file_torrent.Queue.{RequestQ, reqs_enqueue, reqs_dequeue}
use peer_file_torrent.Package.{Bpkg, Bpkgs, object, c_string, pkg_find_by_ident, pkt_install}
use peer_file_torrent.Peers.{Peers, peers_remove}
use peer_file_torrent.Packet.{
  Pkt, Fields, req_t, read_struct, from_bytes, pkt_create, pkt_marshall, pkt_unmarshall,
  pkt_msg_req, pkt_msg_res, payload_create_res,
}

-- PKT_MSG_ACK, PKT_MSG_ACP, PKT_MSG_DSN, PKT_MSG_PNG and PKT_MSG_POG.
abbrev pub pkt_msg_ack : ℕ
pkt_msg_ack = 12

abbrev pub pkt_msg_acp : ℕ
pkt_msg_acp = 2

abbrev pub pkt_msg_dsn : ℕ
pkt_msg_dsn = 3

abbrev pub pkt_msg_png : ℕ
pkt_msg_png = 255

abbrev pub pkt_msg_pog : ℕ
pkt_msg_pog = 0

-- The payload `{ 0 }`.
abbrev pub empty_payload : List ℕ
empty_payload = replicate 4092 0

-- The number of bytes that a response carries at most, DATA_MAX.
unfoldable pub piece_size : ℕ → ℕ
piece_size remaining_size = if ltb 2998 remaining_size then 2998 else remaining_size

-- The bytes that `memcpy` reads from the mapped file.
unfoldable pub read_data : List ℕ → ℕ → ℕ → Run (List ℕ)
read_data f_data at n =
    if leb (at + n) (length f_data) then done (take n (drop at f_data)) else fault

-- Whether the node's hashes agree, in 64 characters.
unfoldable pub is_complete : Node → Bool
is_complete n = strn_eq 64 n.expected_hash n.computed_hash

-- The search of `send_res_pkts`: by hash and offset, or among the chunks when the offset is 0.
unfoldable pub find_requested : Mtree → Fields → Run (Option ℕ)
find_requested t f =
    if ltb 0 (from_bytes f.offset)
    then find_node_from_hash_offset (suc t.nnodes) t.nodes t.root f.hash (from_bytes f.offset)
    else find_node_from_hash t f.hash chunk

-- The node that is answered with, if it was found and is complete.
unfoldable pub complete_node : Mtree → Option ℕ → Run (Option Node)
complete_node t none = done none
complete_node t (some i) = do n ← node_at t.nodes i; done (if is_complete n then some n else none)

module _ (K : Sockets) where
  -- The loop of `try_send` behind the call of `send`; `rec` is the rest of the loop.
  unfoldable pub send_on :
      (K.State → ℕ → ℕ → Run K.State) → ℕ → ℕ → K.State × Option ℕ → Run K.State
  send_on rec total bytesleft (s, none) = done s
  send_on rec total bytesleft (s, some n) = rec s (total + n) (bytesleft - n)

  unfoldable pub send_step :
      (K.State → ℕ → ℕ → Run K.State) → List ℕ → K.State → ℕ → ℕ → Run K.State
  send_step rec buffer s total bytesleft =
      if ltb total 4096
      then send_on rec total bytesleft (K.send s (take bytesleft (drop total buffer)))
      else done s

  unfoldable pub send_loop : ℕ → List ℕ → K.State → ℕ → ℕ → Run K.State
  send_loop zero buffer s total bytesleft = out_of_fuel
  send_loop (suc fuel) buffer s total bytesleft =
      send_step (send_loop fuel buffer) buffer s total bytesleft

  -- `try_send`, with fuel for a byte in each round.
  unfoldable pub try_send : K.State → Pkt → Run K.State
  try_send s pkt_out = send_loop 4097 (pkt_marshall pkt_out) s 0 4096

  -- The loop of `peer_try_receive` behind the call of `recv`, with the bytes received so far.
  unfoldable pub recv_on :
      (K.State → List ℕ → Run (K.State × Option Pkt))
      → List ℕ
      → K.State × Option (List ℕ)
      → Run (K.State × Option Pkt)
  recv_on rec buffer (s, none) = done (s, none)
  recv_on rec buffer (s, some []) = done (s, none)
  recv_on rec buffer (s, some (b ∷ bs)) = rec s (buffer ++ (b ∷ bs))

  unfoldable pub recv_step :
      (K.State → List ℕ → Run (K.State × Option Pkt))
      → K.State
      → List ℕ
      → Run (K.State × Option Pkt)
  recv_step rec s buffer =
      if ltb (length buffer) 4096
      then recv_on rec buffer (K.recv s (4096 - length buffer))
      else done (s, some (pkt_unmarshall buffer))

  unfoldable pub recv_loop : ℕ → K.State → List ℕ → Run (K.State × Option Pkt)
  recv_loop zero s buffer = out_of_fuel
  recv_loop (suc fuel) s buffer = recv_step (recv_loop fuel) s buffer

  -- `peer_try_receive`: the packet, or null.
  unfoldable pub receive_after : K.State × Bool → Run (K.State × Option Pkt)
  receive_after (s, false) = done (s, none)
  receive_after (s, true) = recv_loop 4097 s []

  unfoldable pub peer_try_receive : K.State → Run (K.State × Option Pkt)
  peer_try_receive s = receive_after (K.set_timeout s)

  -- The senders.
  unfoldable pub send_acp : K.State → Run K.State
  send_acp s = try_send s (pkt_create pkt_msg_acp 0 empty_payload)

  unfoldable pub send_ack : K.State → Run K.State
  send_ack s = try_send s (pkt_create pkt_msg_ack 0 empty_payload)

  -- The error code is cut to a `uint8_t`.
  unfoldable pub send_res : K.State → ℕ → List ℕ → Run K.State
  send_res s err payload = try_send s (pkt_create pkt_msg_res (u8 err) payload)

  unfoldable pub send_png : K.State → Run K.State
  send_png s = try_send s (pkt_create pkt_msg_png 0 empty_payload)

  unfoldable pub send_pog : K.State → Run K.State
  send_pog s = try_send s (pkt_create pkt_msg_pog 0 empty_payload)

  unfoldable pub send_dsn : K.State → Run K.State
  send_dsn s = try_send s (pkt_create pkt_msg_dsn 0 empty_payload)

  -- `acp_wait_ack`: whether an acknowledgement was received.
  unfoldable pub is_ack : Option Pkt → Bool
  is_ack none = false
  is_ack (some p) = p.msg_code == pkt_msg_ack

  unfoldable pub acp_wait_ack : K.State → Run (K.State × Bool)
  acp_wait_ack s = do s ← send_acp s; (s, pkt) ← peer_try_receive s; done (s, is_ack pkt)

  -- The loop of `send_res_pkts` over the chunk of a node; `rec` is the rest of the loop.
  unfoldable pub pieces_step :
      (K.State → ℕ → ℕ → Run K.State) → Bpkg → List ℕ → ℕ → K.State → ℕ → ℕ → Run K.State
  pieces_step rec bpkg hash err s curr_offset remaining_size =
      if ltb 0 remaining_size
      then (do
        let chunk_size = piece_size remaining_size
        bytes ← read_data bpkg.mtree.f_data curr_offset chunk_size
        s ←
            send_res s err
              (payload_create_res curr_offset chunk_size (some hash) (some bpkg.ident) (some bytes))
        rec s (u32 (curr_offset + chunk_size)) (remaining_size - chunk_size))
      else done s

  unfoldable pub send_pieces : ℕ → Bpkg → List ℕ → ℕ → K.State → ℕ → ℕ → Run K.State
  send_pieces zero bpkg hash err s curr_offset remaining_size = out_of_fuel
  send_pieces (suc fuel) bpkg hash err s curr_offset remaining_size =
      pieces_step (send_pieces fuel bpkg hash err) bpkg hash err s curr_offset remaining_size

  -- The answer for a node; -1 is stored into a `uint16_t`.
  unfoldable pub respond : Bpkg → K.State → Option Node → Run K.State
  respond bpkg s none = send_res s 65535 empty_payload
  respond bpkg s (some n) = do
    chk ← deref n.chunk
    send_pieces (suc chk.size) bpkg n.expected_hash 0 s chk.offset chk.size

  unfoldable pub respond_for : Bpkgs → Fields → K.State → Option ℕ → Run K.State
  respond_for b f s none = send_res s 65535 empty_payload
  respond_for b f s (some x) = do
    bpkg ← object b.objects x
    found ← find_requested bpkg.mtree f
    n ← complete_node bpkg.mtree found
    respond bpkg s n

  -- `send_res_pkts`, with fuel for the number of packages.
  unfoldable pub send_res_pkts : ℕ → K.State → Pkt → Bpkgs → Run K.State
  send_res_pkts fuel s pkt_in b = do
    let f = read_struct req_t pkt_in.payload
    ident ← c_string f.ident
    found ← pkg_find_by_ident fuel b ident
    respond_for b f s found
