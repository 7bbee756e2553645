-- ===== src/Handler/Loop.antt =====
-- src/peer_2_peer/peer_handler.c: the loop of the thread, and what it does with requests and packets.
-- Requests and packets in memory are indices, and `none` once they are freed.
use peer_file_torrent.Base.{
  ℕ, zero, suc, Bool, true, false, Option, none, some, List, [], ◌∷◌, ◌++◌, ◌==◌, length,
  if◌then◌else◌, set, get_elem?, Run, done, ◌>>=◌, deref,
}
use peer_file_torrent.Queue.{RequestQ, reqs_dequeue, reqs_drain}
use peer_file_torrent.Package.{Bpkgs, pkt_install}
use peer_file_torrent.Peers.{Peers, peers_remove, RequestStatus, waiting, failed, success}
use peer_file_torrent.Packet.{Pkt, pkt_msg_req, pkt_msg_res}
use peer_file_torrent.Handler.Socket.{Sockets}
use peer_file_torrent.Handler.{
  pkt_msg_acp, pkt_msg_dsn, pkt_msg_png, try_send, peer_try_receive, send_ack, send_png, send_pog,
  send_dsn, acp_wait_ack, send_res_pkts,
}

-- `request_t`, less its lock and condition.
pub record Request : Type 0 where
  pub pkt : ℕ
  pub status : RequestStatus

-- The requests and packets in memory.
pub record Memory : Type 0 where
  pub requests : List (Option Request)
  pub pkts : List (Option Pkt)

-- An object that is not freed, and the memory without it; freeing it again is undefined.
abbrev pub live {ℓ} : {A : Type ℓ} → List (Option A) → ℕ → Run A
live os a = do cell ← deref (get_elem? os a); deref cell

abbrev pub free {ℓ} : {A : Type ℓ} → List (Option A) → ℕ → Run (List (Option A))
free os a = do _ ← live os a; done (set os a none)

-- `req_create` of a packet that was just created: the memory, and the request.
unfoldable pub req_create : Memory → Pkt → Memory × ℕ
req_create m p = (
  record {
    requests = m.requests ++ (some (record { pkt = length m.pkts; status = waiting }) ∷ []);
    pkts = m.pkts ++ (some p ∷ []);
  },
  length m.requests,
)

-- `req_destroy`, of a request that is not null.
unfoldable pub req_destroy : Memory → ℕ → Run Memory
req_destroy m r = do
  req ← live m.requests r
  pkts ← free m.pkts req.pkt
  requests ← free m.requests r
  done (record { requests = requests; pkts = pkts })

unfoldable pub destroy_all : Memory → List ℕ → Run Memory
destroy_all m [] = done m
destroy_all m (r ∷ rs) = do m ← req_destroy m r; destroy_all m rs

-- The request gets its status.
unfoldable pub set_status : Memory → Option ℕ → RequestStatus → Run Memory
set_status m request status = do
  r ← deref request
  req ← live m.requests r
  done (record m { requests = set m.requests r (some (record req { status = status })) })

unfoldable pub status_of : Bool → RequestStatus
status_of true = success
status_of false = failed

-- What the thread works on: `peer_thr_args_t`, the queue and the address of its peer, and its socket.
pub record Handler (K : Sockets) : Type 0 where
  pub socket : K.State
  pub sock_open : Bool
  pub reqs_q : RequestQ
  pub memory : Memory
  pub ip : List ℕ
  pub port : ℕ
  pub peers : Peers
  pub bpkgs : Bpkgs
  pub exited : Bool

module _ (K : Sockets) where
  -- `peer_cleanup_handler` on the thread itself, which closes the socket.
  unfoldable pub peer_cleanup_handler : Handler K → Handler K
  peer_cleanup_handler h = record h { sock_open = false }

  -- `peer_destroy` on the thread itself: `reqs_destroy`, then `pthread_exit`, which runs the cleanup
  -- handler.
  unfoldable pub peer_destroy : Handler K → Run (Handler K)
  peer_destroy h = do
    (q, rs) ← reqs_drain (suc h.reqs_q.count) h.reqs_q.queue
    m ← destroy_all h.memory rs
    done (
        peer_cleanup_handler
          (record h { reqs_q = record h.reqs_q { queue = q }; memory = m; exited = true }))

  -- `process_pkt_out`, by the code of the packet; the switch is followed by a `req_destroy`, unless
  -- the thread has ended.
  unfoldable pub destroy_then : Handler K → ℕ → Run (Handler K)
  destroy_then h r = do m ← req_destroy h.memory r; done (record h { memory = m })

  unfoldable pub out_png : Handler K → ℕ → Run (Handler K)
  out_png h r = do s ← send_png K h.socket; destroy_then (record h { socket = s }) r

  -- `send_req`, which destroys the packet that it sends.
  unfoldable pub send_req : Handler K → ℕ → Pkt → Run (Handler K)
  send_req h a p = do
    s ← try_send K h.socket p
    pkts ← free h.memory.pkts a
    done (record h { socket = s; memory = record h.memory { pkts = pkts } })

  unfoldable pub out_req : Handler K → ℕ → ℕ → Pkt → Run (Handler K)
  out_req h r a p = do h ← send_req h a p; destroy_then h r

  unfoldable pub out_dsn : Handler K → ℕ → Run (Handler K)
  out_dsn h r = do
    s ← send_dsn K h.socket
    h ← destroy_then (record h { socket = s }) r
    peer_destroy h

  unfoldable pub out_by_code : Handler K → ℕ → ℕ → Pkt → Run (Handler K)
  out_by_code h r a p =
      if p.msg_code == pkt_msg_png
      then out_png h r
      else (if p.msg_code == pkt_msg_req
          then out_req h r a p
          else (if p.msg_code == pkt_msg_dsn then out_dsn h r else destroy_then h r))

  unfoldable pub process_pkt_out : Handler K → ℕ → Run (Handler K)
  process_pkt_out h r = do
    req ← live h.memory.requests r
    p ← live h.memory.pkts req.pkt
    out_by_code h r req.pkt p

  -- `peer_process_request_shared`: the request, which it has destroyed, or null.
  unfoldable pub process_request : Handler K → Option ℕ → Run (Handler K × Option ℕ)
  process_request h none = done (h, none)
  process_request h (some r) = do h ← process_pkt_out h r; done (h, some r)

  unfoldable pub peer_process_request_shared : Handler K → Run (Handler K × Option ℕ)
  peer_process_request_shared h = do
    (q, request) ← reqs_dequeue h.reqs_q
    process_request (record h { reqs_q = q }) request

  -- `process_pkt_in`, by the code of the packet at `a`; the switch is followed by a `pkt_destroy`,
  -- unless the thread has ended.
  unfoldable pub destroy_in : Handler K → ℕ → Run (Handler K)
  destroy_in h a = do
    pkts ← free h.memory.pkts a
    done (record h { memory = record h.memory { pkts = pkts } })

  unfoldable pub in_png : Handler K → ℕ → Run (Handler K)
  in_png h a = do s ← send_pog K h.socket; destroy_in (record h { socket = s }) a

  unfoldable pub in_acp : Handler K → ℕ → Run (Handler K)
  in_acp h a = do s ← send_ack K h.socket; destroy_in (record h { socket = s }) a

  unfoldable pub in_req : ℕ → Handler K → ℕ → Pkt → Run (Handler K)
  in_req fuel h a p = do
    s ← send_res_pkts K fuel h.socket p h.bpkgs
    destroy_in (record h { socket = s }) a

  unfoldable pub in_dsn : Handler K → ℕ → Run (Handler K)
  in_dsn h a = do
    h ← destroy_in (record h { peers = peers_remove h.peers h.ip h.port }) a
    peer_destroy h

  -- A response: the status of the request is whether `pkt_install` succeeded.
  unfoldable pub in_res : ℕ → Handler K → ℕ → Pkt → Option ℕ → Run (Handler K)
  in_res fuel h a p req_recent = do
    (b, ok) ← pkt_install fuel p h.bpkgs
    m ← set_status h.memory req_recent (status_of ok)
    destroy_in (record h { bpkgs = b; memory = m }) a

  unfoldable pub in_by_code : ℕ → Handler K → ℕ → Pkt → Option ℕ → Run (Handler K)
  in_by_code fuel h a p req_recent =
      if p.msg_code == pkt_msg_png
      then in_png h a
      else (if p.msg_code == pkt_msg_acp
          then in_acp h a
          else (if p.msg_code == pkt_msg_req
              then in_req fuel h a p
              else (if p.msg_code == pkt_msg_dsn
                  then in_dsn h a
                  else (if p.msg_code == pkt_msg_res
                      then in_res fuel h a p req_recent
                      else destroy_in h a))))

  unfoldable pub process_pkt_in : ℕ → Handler K → ℕ → Option ℕ → Run (Handler K)
  process_pkt_in fuel h a req_recent = do p ← live h.memory.pkts a; in_by_code fuel h a p req_recent

  -- A round of the loop of `peer_handler`; the packet is allocated behind the others.
  unfoldable pub handle_received : ℕ → Handler K → Option ℕ → K.State × Option Pkt → Run (Handler K)
  handle_received fuel h req (s, none) = done (record h { socket = s })
  handle_received fuel h req (s, some p) =
      let m = record h.memory { pkts = h.memory.pkts ++ (some p ∷ []) } in
      process_pkt_in fuel (record h { socket = s; memory = m }) (length h.memory.pkts) req

  unfoldable pub receive_round : ℕ → Handler K → Option ℕ → Run (Handler K)
  receive_round fuel h req =
      if h.exited
      then done h
      else (do received ← peer_try_receive K h.socket; handle_received fuel h req received)

  unfoldable pub peer_round : ℕ → Handler K → Run (Handler K)
  peer_round fuel h = do (h, req) ← peer_process_request_shared h; receive_round fuel h req

  -- `n` rounds of the loop, as far as the thread does not end before; then all of `peer_handler`.
  unfoldable pub peer_loop : ℕ → ℕ → Handler K → Run (Handler K)
  peer_loop zero fuel h = done h
  peer_loop (suc n) fuel h =
      if h.exited then done h else (do h ← peer_round fuel h; peer_loop n fuel h)

  unfoldable pub peer_handler : ℕ → ℕ → Handler K → Run (Handler K)
  peer_handler n fuel h = do
    (s, acknowledged) ← acp_wait_ack K h.socket
    peer_loop n fuel (record h { socket = s })
