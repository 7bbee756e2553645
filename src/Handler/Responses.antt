-- ===== src/Handler/Responses.antt =====
-- What becomes of a response that the peer handler receives.
use peer_file_torrent.Base.{
  ℕ, zero, suc, ◌≡◌, ◌≢◌, inl, inr, true, false, Option, none, some, List, [], ◌∷◌, ◌++◌, ◌==◌,
  length, set, Bool-cases, done, get_elem?-append_length, Returns, returned, faulting, Returns-then,
  after, returned_value, Returns-nothing,
}
use peer_file_torrent.Queue.{reqs_drain, reqs_dequeue}
use peer_file_torrent.Package.{pkt_install}
use peer_file_torrent.Packet.{Pkt}
use peer_file_torrent.Handler.Socket.{Sockets}
use peer_file_torrent.Handler.{peer_try_receive, send_png, send_dsn}
use peer_file_torrent.Peers.{RequestStatus}
use peer_file_torrent.Handler.Replies.{receive_round_runs}
use peer_file_torrent.Handler.Loop.{
  Memory, Handler, live, free, req_destroy, destroy_all, set_status, peer_destroy,
  peer_cleanup_handler, destroy_then, send_req, out_png, out_req, out_dsn, out_by_code, status_of,
  process_pkt_out, process_request, peer_process_request_shared, in_res, in_by_code, process_pkt_in,
  handle_received, receive_round, peer_round,
}

-- A request that is null, or freed.
abbrev Gone : Memory → Option ℕ → Type 0
Gone m none = Unit
Gone m (some r) = Returns (λ _. ⊥) (live m.requests r)

freed-Gone : {A : Type 0} (os : List (Option A)) (a : ℕ) → Returns (λ _. ⊥) (live (set os a none) a)
freed-Gone [] a = faulting
freed-Gone (o ∷ os) zero = faulting
freed-Gone (o ∷ os) (suc a) = freed-Gone os a

free-Gone :
    {A : Type 0} (os : List (Option A)) (a : ℕ)
    → Returns (λ os'. Returns (λ _. ⊥) (live os' a)) (free os a)
free-Gone os a = after (live os a) λ _. returned (freed-Gone os a)

req_destroy-Gone : (m : Memory) (r : ℕ) → Returns (λ m'. Gone m' (some r)) (req_destroy m r)
unfolding req_destroy
req_destroy-Gone m r = after (live m.requests r) λ req.
    after (free m.pkts req.pkt)
      λ pkts. Returns-then (free-Gone m.requests r) λ requests gone. returned gone

true-false : true ≡ false → ⊥
true-false e = absurd cc

module _ (K : Sockets) where
  -- The request that was dealt with is gone, unless the thread has ended.
  abbrev Dealt : ℕ → Handler K → Type 0
  Dealt r h = h.exited ≡ false → Gone h.memory (some r)

  destroy_then-Dealt : (h : Handler K) (r : ℕ) → Returns (Dealt r) (destroy_then K h r)
  unfolding destroy_then
  destroy_then-Dealt h r = Returns-then (req_destroy-Gone h.memory r) λ m gone. returned (λ _. gone)

  peer_destroy-Dealt : (h : Handler K) (r : ℕ) → Returns (Dealt r) (peer_destroy K h)
  unfolding peer_destroy peer_cleanup_handler
  peer_destroy-Dealt h r =
      after (reqs_drain (suc h.reqs_q.count) h.reqs_q.queue)
        λ (q, rs). after (destroy_all h.memory rs) λ m. returned (λ e. absurd (true-false e))

  out_by_code-Dealt :
      (h : Handler K) (r a : ℕ) (p : Pkt) → Returns (Dealt r) (out_by_code K h r a p)
  unfolding out_by_code out_png out_req out_dsn
  out_by_code-Dealt h r a p = elim (Bool-cases (p.msg_code == 255)) [
    | inl png ↦
        rw png (after (send_png K h.socket) λ s. destroy_then-Dealt (record h { socket = s }) r)
    | inr not_png ↦ elim (Bool-cases (p.msg_code == 6)) [
      | inl req ↦ rw (not_png, req) (after (send_req K h a p) λ h'. destroy_then-Dealt h' r)
      | inr not_req ↦ elim (Bool-cases (p.msg_code == 3)) [
        | inl dsn ↦
            rw (not_png, not_req, dsn)
              (after (send_dsn K h.socket) λ s.
                after (destroy_then K (record h { socket = s }) r) λ h'. peer_destroy-Dealt h' r)
        | inr not_dsn ↦ rw (not_png, not_req, not_dsn) (destroy_then-Dealt h r)
      ]
    ]
  ]

  process_pkt_out-Dealt : (h : Handler K) (r : ℕ) → Returns (Dealt r) (process_pkt_out K h r)
  unfolding process_pkt_out
  process_pkt_out-Dealt h r =
      after (live h.memory.requests r)
        λ req. after (live h.memory.pkts req.pkt) λ p. out_by_code-Dealt h r req.pkt p

  -- The request that a round passes on is null or freed.
  Passed : Handler K × Option ℕ → Type 0
  Passed (h, req) = h.exited ≡ false → Gone h.memory req

  process_request-Passed :
      (h : Handler K) (req : Option ℕ) → Returns Passed (process_request K h req)
  unfolding process_request Passed
  process_request-Passed h none = returned (λ _. tt)
  process_request-Passed h (some r) =
      Returns-then (process_pkt_out-Dealt h r) λ h' dealt. returned dealt

  shared-Passed : (h : Handler K) → Returns Passed (peer_process_request_shared K h)
  unfolding peer_process_request_shared
  shared-Passed h =
      after (reqs_dequeue h.reqs_q)
        λ (q, request). process_request-Passed (record h { reqs_q = q }) request

  -- The status of a request that is null or freed cannot be set.
  set_status-Gone :
      (m : Memory) (req : Option ℕ) (status : RequestStatus)
      → Gone m req
      → Returns (λ _. ⊥) (set_status m req status)
  unfolding set_status
  set_status-Gone m none status gone = faulting
  set_status-Gone m (some r) status gone = Returns-then gone λ _ never. absurd never

  in_res_never :
      (fuel : ℕ) (h : Handler K) (a : ℕ) (p : Pkt) (req : Option ℕ)
      → Gone h.memory req
      → Returns (λ _. ⊥) (in_res K fuel h a p req)
  unfolding in_res
  in_res_never fuel h a p req gone = after (pkt_install fuel p h.bpkgs) λ (b, ok).
      Returns-then (set_status-Gone h.memory req (status_of ok) gone) λ _ never. absurd never

  by_code_never :
      (fuel : ℕ) (h : Handler K) (a : ℕ) (p : Pkt) (req : Option ℕ)
      → p.msg_code ≡ 7
      → Gone h.memory req
      → Returns (λ _. ⊥) (in_by_code K fuel h a p req)
  unfolding in_by_code
  by_code_never fuel h a p req code gone =
      rw code (in_res_never fuel h a (record p { msg_code = 7 }) req gone)

  received_never :
      (fuel : ℕ) (h : Handler K) (req : Option ℕ) (s : K.State) (p : Pkt)
      → p.msg_code ≡ 7
      → Gone h.memory req
      → Returns (λ _. ⊥) (handle_received K fuel h req (s, some p))
  unfolding handle_received process_pkt_in
  received_never fuel h req s p code gone =
      let m = record h.memory { pkts = h.memory.pkts ++ (some p ∷ []) } in
      rw (get_elem?-append_length h.memory.pkts (some p)) (
        by_code_never fuel (record h { socket = s; memory = m }) (length h.memory.pkts) p req code
          (keep req gone))
    where
      keep :
          (request : Option ℕ)
          → Gone h.memory request
          → Gone (record h.memory { pkts = h.memory.pkts ++ (some p ∷ []) }) request
      keep none g = g
      keep (some r) g = g

  -- A round in which a response is received never completes: the request whose status is to be set is
  -- either null or was destroyed by the round itself, and is written to all the same.
  pub peer_round_response :
      (fuel : ℕ) (h h1 h' : Handler K) (req : Option ℕ) (s : K.State) (p : Pkt)
      → peer_process_request_shared K h ≡ done (h1, req)
      → h1.exited ≡ false
      → peer_try_receive K h1.socket ≡ done (s, some p)
      → p.msg_code ≡ 7
      → peer_round K fuel h ≢ done h'
  unfolding peer_round receive_round Passed
  peer_round_response fuel h h1 h' req s p dealt running got code =
      let gone = returned_value {P = Passed} (h1, req) (shared-Passed h) dealt running in
      rw dealt (
        rw (receive_round_runs K fuel h1 req running)
          (rw got (Returns-nothing (received_never fuel h1 req s p code gone))))
