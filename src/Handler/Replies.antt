-- ===== src/Handler/Replies.antt =====
-- How packets are answered, and the handshake.
use peer_file_torrent.Base.{
  ℕ, ◌<◌, ◌≡◌, refl, sym, ap, ◌∙◌, inl, inr, arith, Bool, true, false, Option, none, some, List, [],
  ◌∷◌, ◌++◌, length-replicate, append-nil, ◌==◌, if◌then◌else◌, set, get_elem?, Bool-cases, Ensures,
  ensured, and_then, ◌>>=◌,
}
use peer_file_torrent.Packet.{Pkt, pkt_create, pkt_marshall}
use peer_file_torrent.Packet.Wire.{IsPkt}
use peer_file_torrent.Handler.Socket.{Sockets, IsStream, IsSteady, IsPrompt}
use peer_file_torrent.Handler.Receive.{peer_try_receive_prompt}
use peer_file_torrent.Handler.Transfer.{try_send-whole}
use peer_file_torrent.Handler.Pieces.{wire}
use peer_file_torrent.Handler.{
  send_ack, send_acp, send_pog, acp_wait_ack, is_ack, empty_payload, peer_try_receive,
}
use peer_file_torrent.Handler.Loop.{
  Handler, destroy_in, in_png, in_acp, in_by_code, process_pkt_in, receive_round, handle_received,
}

-- A packet without a payload.
abbrev pub bare : ℕ → Pkt
bare code = record { msg_code = code; error = 0; payload = empty_payload }

pub bare-IsPkt : (code : ℕ) → code < 65536 → IsPkt (bare code)
bare-IsPkt code h = record {
  msg_code = h;
  error = omega arith;
  payload = length-replicate {A = ℕ} 4092 0;
}

-- From `h` to `h'` the packets were sent.
abbrev pub HasSent : (K : Sockets) (w : IsStream K) → List Pkt → Handler K → Handler K → Type 0
HasSent K w ps h h' = w.sent h'.socket ≡ w.sent h.socket ++ wire ps

-- A thread that has not ended receives.
pub receive_round_runs :
    (K : Sockets) (fuel : ℕ) (h : Handler K) (req : Option ℕ)
    → h.exited ≡ false
    → receive_round K fuel h req
      ≡ (do received ← peer_try_receive K h.socket; handle_received K fuel h req received)
unfolding receive_round
receive_round_runs K fuel h req e = rw e refl

-- The answer to a packet that is neither a request, nor a response, nor a disconnect packet: a pong
-- to a ping, an acknowledgement to an acceptance, and nothing to any other.
abbrev pub reply : ℕ → List Pkt
reply code = if code == 255 then bare 0 ∷ [] else (if code == 2 then bare 12 ∷ [] else [])

-- The codes that are dealt with in another way.
abbrev pub is_other : ℕ → Bool
is_other code = if code == 6 then true else (if code == 3 then true else code == 7)

other_codes :
    (c : ℕ) → is_other c ≡ false → ((c == 6) ≡ false) × ((c == 3) ≡ false) × ((c == 7) ≡ false)
other_codes c h = ground arith

module _ (K : Sockets) (w : IsStream K) (steady : IsSteady K w) where
  -- The packet at `a` is freed, the packets were sent, and nothing else has changed.
  abbrev pub IsDealtWith : List Pkt → Handler K → ℕ → Handler K → Type 0
  IsDealtWith ps h a h' =
      HasSent K w ps h h'
      × (h' ≡ record h {
        socket = h'.socket;
        memory = record h.memory { pkts = set h.memory.pkts a none };
      })

  destroy_in-IsDealtWith :
      (h : Handler K) (s : K.State) (ps : List Pkt) (a : ℕ) (p : Pkt)
      → get_elem? h.memory.pkts a ≡ some (some p)
      → w.sent s ≡ w.sent h.socket ++ wire ps
      → Ensures (IsDealtWith ps h a) (destroy_in K (record h { socket = s }) a)
  unfolding destroy_in
  destroy_in-IsDealtWith h s ps a p at out = rw at (ensured (out, refl))

  in_png-IsDealtWith :
      (h : Handler K) (a : ℕ) (p : Pkt)
      → get_elem? h.memory.pkts a ≡ some (some p)
      → Ensures (IsDealtWith (bare 0 ∷ []) h a) (in_png K h a)
  unfolding in_png send_pog pkt_create
  in_png-IsDealtWith h a p at =
      and_then (try_send-whole K w steady h.socket (bare 0) (bare-IsPkt 0 (omega arith)))
        λ s (out, _).
          destroy_in-IsDealtWith h s (bare 0 ∷ []) a p at
            (out ∙ ap (λ x. w.sent h.socket ++ x) (sym (append-nil (pkt_marshall (bare 0)))))

  in_acp-IsDealtWith :
      (h : Handler K) (a : ℕ) (p : Pkt)
      → get_elem? h.memory.pkts a ≡ some (some p)
      → Ensures (IsDealtWith (bare 12 ∷ []) h a) (in_acp K h a)
  unfolding in_acp send_ack pkt_create
  in_acp-IsDealtWith h a p at =
      and_then (try_send-whole K w steady h.socket (bare 12) (bare-IsPkt 12 (omega arith)))
        λ s (out, _).
          destroy_in-IsDealtWith h s (bare 12 ∷ []) a p at
            (out ∙ ap (λ x. w.sent h.socket ++ x) (sym (append-nil (pkt_marshall (bare 12)))))

  by_code :
      (fuel : ℕ) (h : Handler K) (a : ℕ) (p : Pkt) (req : Option ℕ)
      → get_elem? h.memory.pkts a ≡ some (some p)
      → is_other p.msg_code ≡ false
      → Ensures (IsDealtWith (reply p.msg_code) h a) (in_by_code K fuel h a p req)
  unfolding in_by_code
  by_code fuel h a p req at plain = elim (Bool-cases (p.msg_code == 255)) [
    | inl png ↦ rw png (in_png-IsDealtWith h a p at)
    | inr not_png ↦ elim (Bool-cases (p.msg_code == 2)) [
      | inl acp ↦ rw (not_png, acp) (in_acp-IsDealtWith h a p at)
      | inr not_acp ↦
          let (not_req, not_dsn, not_res) = other_codes p.msg_code plain in
          rw (not_png, not_acp, not_req, not_dsn, not_res)
            (destroy_in-IsDealtWith h h.socket [] a p at (sym (append-nil (w.sent h.socket))))
    ]
  ]

  -- Where no call of `send` fails, a packet that is neither a request, nor a response, nor a disconnect packet is answered with its
  -- reply alone (a pong, an acknowledgement or nothing) and freed; nothing else changes.
  pub process_pkt_in-IsDealtWith :
      (fuel : ℕ) (h : Handler K) (a : ℕ) (p : Pkt) (req : Option ℕ)
      → get_elem? h.memory.pkts a ≡ some (some p)
      → is_other p.msg_code ≡ false
      → Ensures (IsDealtWith (reply p.msg_code) h a) (process_pkt_in K fuel h a req)
  unfolding process_pkt_in
  process_pkt_in-IsDealtWith fuel h a p req at plain = rw at (by_code fuel h a p req at plain)

  -- The handshake, where `send` does not fail and `recv` is prompt: an acceptance is sent, the next
  -- packet is received and taken off the stream, and the result is whether it is an acknowledgement.
  pub acp_wait_ack-pkt_marshall :
      (s : K.State) (p : Pkt) (rest : List ℕ)
      → IsPrompt K w
      → IsPkt p
      → w.pending s ≡ pkt_marshall p ++ rest
      → Ensures
          (λ (t, acknowledged).
            (acknowledged ≡ (p.msg_code == 12))
            × (w.sent t ≡ w.sent s ++ pkt_marshall (bare 2))
            × (w.pending t ≡ rest))
          (acp_wait_ack K s)
  unfolding acp_wait_ack send_acp pkt_create is_ack
  acp_wait_ack-pkt_marshall s p rest prompt h come =
      and_then (try_send-whole K w steady s (bare 2) (bare-IsPkt 2 (omega arith))) λ t (out, still).
        and_then (peer_try_receive_prompt K w prompt t p rest h (still ∙ come))
          λ (u, r) (got, left, same). rw got (ensured (refl, same ∙ out, left))
