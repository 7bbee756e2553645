-- ===== src/Examples/Serving.antt =====
-- A peer handler that serves requests.
use peer_file_torrent.Base.{
  ℕ, ◌≡◌, ◌≢◌, refl, List, [], ◌∷◌, arith, true, false, Option, none, some, replicate, strn_eq,
  until_nul, done, Ensures,
}
use peer_file_torrent.Merkle.{Node}
use peer_file_torrent.Query.{find_node_from_hash, find_from, mode_count}
use peer_file_torrent.Queue.{QNode, RequestQ, reqs_dequeue, q_dequeue, dequeue_at, count_after}
use peer_file_torrent.Queue.Fifo.{IsRequestQ}
use peer_file_torrent.Package.{Bpkg, Bpkgs, c_string}
use peer_file_torrent.Package.Manage.{IsBpkgs}
use peer_file_torrent.Peers.{Peers, waiting}
use peer_file_torrent.Packet.{
  Pkt, read_struct, write_struct, to_bytes, from_bytes, copy_string, copy_data, pkt_unmarshall,
  payload_create_req,
}
use peer_file_torrent.Handler.{
  is_complete, find_requested, send_res_pkts, peer_try_receive, recv_loop, recv_step, recv_on,
  receive_after,
}
use peer_file_torrent.Handler.Respond.{Answer, at, request_fields, send_res_pkts-Answer}
use peer_file_torrent.Handler.Socket.{Sockets}
use peer_file_torrent.Handler.Pieces.{Sent}
use peer_file_torrent.Handler.Loop.{
  Request, Handler, process_pkt_in, peer_loop, peer_round, peer_process_request_shared,
  process_request,
}
use peer_file_torrent.Handler.Held.{Entry}
use peer_file_torrent.Handler.Replies.{bare, HasSent, IsDealtWith, process_pkt_in-IsDealtWith}
use peer_file_torrent.Handler.Pings.{IsServing}
use peer_file_torrent.Handler.Rounds.{HasEnded, peer_loop-HasEnded}
use peer_file_torrent.Handler.Responses.{peer_round_response}
use peer_file_torrent.Examples.Trees.{blank_node}
use peer_file_torrent.Examples.Line.{
  line, line_stream, line-IsSteady, silent_line, silent_stream, silent_line-IsSteady,
  silent_line-IsSilent, idle,
}

-- A package of one chunk of two bytes, which is complete.
abbrev pub digest : List ℕ
digest = replicate 64 97

abbrev pub chunk_node : Node
chunk_node = record blank_node {
  is_leaf = true;
  chunk = some (record { data_ptr = some 0; size = 2; offset = 0 });
  expected_hash = digest;
  computed_hash = digest;
}

abbrev pub one_chunk : Bpkg
one_chunk = record {
  ident = 65 ∷ 49 ∷ [];
  filename = 102 ∷ [];
  mtree = record {
    root = some 0;
    nnodes = 1;
    nchunks = 1;
    nhashes = 0;
    nodes = chunk_node ∷ [];
    f_data = 7 ∷ 8 ∷ [];
    f_size = 2;
    f_writable = false;
  };
}

abbrev pub managed : Bpkgs
managed = record {
  ls = record {
    heap = some (record { q_data = 0; next = none }) ∷ [];
    head = some 0;
    tail = some 0;
  };
  count = 1;
  objects = some one_chunk ∷ [];
}

pub managed-IsBpkgs : IsBpkgs managed (0 ∷ [])
managed-IsBpkgs = record {
  list = record {
    cells = (0, 0) ∷ [];
    chain = (refl, tt, tt);
    head = refl;
    tail = refl;
    holds = refl;
  };
  alive = ((one_chunk, refl), tt);
  apart = (tt, tt);
  count = refl;
}

-- A request for the chunk.
abbrev request : Pkt
request = record {
  msg_code = 6;
  error = 0;
  payload = payload_create_req 0 2 (some digest) (some (65 ∷ [])) none;
}

chunk_node_complete : is_complete chunk_node ≡ true
unfolding is_complete strn_eq
chunk_node_complete = refl

request_named : c_string (request_fields request).ident ≡ done (65 ∷ [])
unfolding c_string read_struct write_struct payload_create_req to_bytes copy_string copy_data
    until_nul
request_named = refl

request_found : find_requested one_chunk.mtree (request_fields request) ≡ done (some 0)
unfolding find_requested find_node_from_hash find_from mode_count strn_eq read_struct write_struct
    payload_create_req to_bytes from_bytes copy_string copy_data until_nul
request_found = refl

send_res_pkts-Answer_example :
    Ensures
      (λ t.
        (ps : List Pkt) × Answer one_chunk (some chunk_node) ps
        × Sent line line_stream line-IsSteady ps idle t)
      (send_res_pkts line 2 idle request managed)
unfolding strn_eq until_nul
send_res_pkts-Answer_example =
    send_res_pkts-Answer line line_stream line-IsSteady 2 idle request managed (0 ∷ []) (65 ∷ []) 0
      one_chunk (some 0) (some chunk_node) managed-IsBpkgs (omega arith) request_named refl refl
      request_found (at refl)
      (λ _. (
        record { data_ptr = some 0; size = 2; offset = 0 },
        record {
          complete = chunk_node_complete;
          chunk = refl;
          hash = (refl, refl);
          inside = omega arith;
          small = omega arith;
        },
      ))

abbrev no_peers : Peers
no_peers = record { list = []; npeers_cur = 0; npeers_max = 0 }

-- A request in memory, with its packet.
abbrev pub entry : ℕ → Pkt → Entry
entry i p = record { request = i; status = waiting; pkt_at = i; pkt = p }

-- A handler whose queue holds two pings and a disconnect packet.
abbrev pub cell : ℕ → Option ℕ → Option QNode
cell x next = some (record { q_data = x; next = next })

abbrev pub three : RequestQ
three = record {
  queue = record {
    heap = cell 0 (some 1) ∷ cell 1 (some 2) ∷ cell 2 none ∷ [];
    head = some 0;
    tail = some 2;
  };
  count = 3;
  ready = 1;
}

abbrev pub in_memory : ℕ → Option Request
in_memory i = some (record { pkt = i; status = waiting })

abbrev serving : (K : Sockets) → K.State → Handler K
serving K s = record {
  socket = s;
  sock_open = true;
  reqs_q = three;
  memory = record {
    requests = in_memory 0 ∷ in_memory 1 ∷ in_memory 2 ∷ [];
    pkts = some (bare 255) ∷ some (bare 255) ∷ some (bare 3) ∷ [];
  };
  ip = 49 ∷ [];
  port = 80;
  peers = no_peers;
  bpkgs = managed;
  exited = false;
}

pub three-IsRequestQ : IsRequestQ three (0 ∷ 1 ∷ 2 ∷ [])
three-IsRequestQ = record {
  queue = record {
    cells = (0, 0) ∷ (1, 1) ∷ (2, 2) ∷ [];
    chain = (
      refl,
      ((λ e. omega arith), ((λ e. omega arith), tt)),
      (refl, ((λ e. omega arith), tt), (refl, tt, tt)),
    );
    head = refl;
    tail = refl;
    holds = refl;
  };
  count = refl;
}

-- A ping, a disconnect request, and one more ping in the queue.
abbrev ending : Handler silent_line
ending = record (serving silent_line idle) {
  memory = record {
    requests = in_memory 0 ∷ in_memory 1 ∷ in_memory 2 ∷ [];
    pkts = some (bare 255) ∷ some (bare 3) ∷ some (bare 255) ∷ [];
  };
}

ending-IsServing :
    IsServing silent_line silent_stream silent_line-IsSteady silent_line-IsSilent ending
      (entry 0 (bare 255) ∷ entry 1 (bare 3) ∷ entry 2 (bare 255) ∷ [])
ending-IsServing = record {
  queue = three-IsRequestQ;
  held = (
    (refl, refl),
    (((λ e. omega arith), (λ e. omega arith)), (((λ e. omega arith), (λ e. omega arith)), tt)),
    ((refl, refl), (((λ e. omega arith), (λ e. omega arith)), tt), ((refl, refl), tt, tt)),
  );
  running = refl;
}

peer_loop-HasEnded_example :
    Ensures
      (λ h'.
        HasEnded silent_line silent_stream silent_line-IsSteady silent_line-IsSilent
          (entry 2 (bare 255) ∷ [])
          h'
        × HasSent silent_line silent_stream (bare 255 ∷ bare 3 ∷ []) ending h')
      (peer_loop silent_line 2 2 ending)
peer_loop-HasEnded_example =
    peer_loop-HasEnded silent_line silent_stream silent_line-IsSteady silent_line-IsSilent 2 ending
      (entry 0 (bare 255) ∷ []) (entry 1 (bare 3)) (entry 2 (bare 255) ∷ []) (refl, tt) refl
      ending-IsServing

process_pkt_in-IsDealtWith_example :
    Ensures
      (IsDealtWith line line_stream line-IsSteady (bare 0 ∷ []) (serving line idle) 0)
      (process_pkt_in line 2 (serving line idle) 0 none)
process_pkt_in-IsDealtWith_example =
    process_pkt_in-IsDealtWith line line_stream line-IsSteady 2 (serving line idle) 0 (bare 255)
      none refl refl

-- A handler without requests that receives a response.
abbrev response_bytes : List ℕ
response_bytes = 7 ∷ 0 ∷ 0 ∷ 0 ∷ replicate 4092 0

abbrev receiving : Handler line
receiving = record (serving line (record { out = []; incoming = response_bytes })) {
  reqs_q = record { queue = record { heap = []; head = none; tail = none }; count = 0; ready = 1 };
}

nothing_queued : peer_process_request_shared line receiving ≡ done (receiving, none)
unfolding peer_process_request_shared reqs_dequeue q_dequeue dequeue_at count_after process_request
nothing_queued = refl

response_received :
    peer_try_receive line receiving.socket
    ≡ done (record { out = []; incoming = [] }, some (pkt_unmarshall response_bytes))
unfolding peer_try_receive receive_after recv_loop recv_step recv_on
response_received = refl

is_response : (pkt_unmarshall response_bytes).msg_code ≡ 7
unfolding pkt_unmarshall from_bytes
is_response = refl

peer_round_response_example : peer_round line 2 receiving ≢ done receiving
peer_round_response_example =
    peer_round_response line 2 receiving receiving receiving none
      (record { out = []; incoming = [] }) (pkt_unmarshall response_bytes) nothing_queued refl
      response_received is_response
