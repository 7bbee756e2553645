-- ===== src/Handler/Rounds.antt =====
-- The rounds of the peer handler.
use peer_file_torrent.Base.{
  ℕ, suc, ◌≡◌, refl, sym, ap, ◌∙◌, subst, arith, true, false, Option, List, [], ◌∷◌, ◌++◌,
  append-nil, append_assoc, length, replicate, All, done, Ensures, ensured, and_then, weaken, ◌>>=◌,
}
use peer_file_torrent.Queue.{RequestQ}
use peer_file_torrent.Queue.Fifo.{IsQueue, IsRequestQ, reqs_dequeue-IsRequestQ, reqs_drain-IsQueue}
use peer_file_torrent.Packet.{Pkt, pkt_create, pkt_marshall}
use peer_file_torrent.Handler.Socket.{Sockets, IsStream, IsSteady}
use peer_file_torrent.Handler.Transfer.{try_send-whole}
use peer_file_torrent.Handler.Pieces.{wire}
use peer_file_torrent.Handler.{send_dsn}
use peer_file_torrent.Handler.Loop.{
  Handler, destroy_then, out_dsn, out_by_code, process_pkt_out, process_request,
  peer_process_request_shared, receive_round, peer_round, peer_loop, peer_destroy,
  peer_cleanup_handler,
}
use peer_file_torrent.Handler.Replies.{bare, bare-IsPkt, HasSent}
use peer_file_torrent.Handler.Held.{
  Entry, AreHeld, requests_of, req_destroy-AreHeld, destroy_all-IsFreed, IsFreed,
}
use peer_file_torrent.Handler.Pings.{IsSilent, IsServing, round_png}

module _ (K : Sockets) (w : IsStream K) (steady : IsSteady K w) (quiet : IsSilent K) where
  -- The thread has ended with its socket closed, nothing is left in its queue, and the requests that
  -- were in it are freed with their packets.
  pub record HasEnded (es : List Entry) (h : Handler K) : Type 0 where
    pub exited : h.exited ≡ true
    pub closed : h.sock_open ≡ false
    pub queue : IsQueue h.reqs_q.queue []
    pub destroyed : All (IsFreed h.memory) es

  peer_destroy-HasEnded :
      (h : Handler K) (es : List Entry)
      → IsRequestQ h.reqs_q (requests_of es)
      → AreHeld h.memory es
      → Ensures (λ h'. HasEnded es h' × (w.sent h'.socket ≡ w.sent h.socket)) (peer_destroy K h)
  unfolding peer_destroy peer_cleanup_handler
  peer_destroy-HasEnded h es q held =
      let n = q.count in
      and_then
        (reqs_drain-IsQueue (suc h.reqs_q.count) h.reqs_q.queue (requests_of es) q.queue
          (omega arith))
        λ (q', rs) (all, empty). rw all (
          and_then (destroy_all-IsFreed h.memory es held) λ m freed.
            ensured
              (record { exited = refl; closed = refl; queue = empty; destroyed = freed }, refl))

  destroy_then-AreHeld :
      (h : Handler K) (e : Entry) (es : List Entry)
      → AreHeld h.memory (e ∷ es)
      → Ensures
          (λ h'. AreHeld h'.memory es × (h'.reqs_q ≡ h.reqs_q) × (h'.socket ≡ h.socket))
          (destroy_then K h e.request)
  unfolding destroy_then
  destroy_then-AreHeld h e es held =
      and_then (req_destroy-AreHeld h.memory e es held) λ m held'. ensured (held', refl, refl)

  out_dsn-HasEnded :
      (h : Handler K) (e : Entry) (es : List Entry)
      → IsRequestQ h.reqs_q (requests_of es)
      → AreHeld h.memory (e ∷ es)
      → Ensures (λ h'. HasEnded es h' × HasSent K w (bare 3 ∷ []) h h') (out_dsn K h e.request)
  unfolding out_dsn send_dsn pkt_create
  out_dsn-HasEnded h e es q held =
      and_then (try_send-whole K w steady h.socket (bare 3) (bare-IsPkt 3 (omega arith)))
        λ s (out, _).
          and_then (destroy_then-AreHeld (record h { socket = s }) e es held)
            λ h1 (held', same_q, same_socket).
              weaken
                (peer_destroy-HasEnded h1 es
                  (subst (λ (x : RequestQ). IsRequestQ x (requests_of es)) (sym same_q) q) held')
                λ h' (ended, same). (
                  ended,
                  same
                      ∙ ap w.sent same_socket
                      ∙ out
                      ∙ ap (λ x. w.sent h.socket ++ x) (sym (append-nil (pkt_marshall (bare 3)))),
                )

  process_pkt_out_dsn :
      (h : Handler K) (e : Entry) (es : List Entry)
      → IsRequestQ h.reqs_q (requests_of es)
      → AreHeld h.memory (e ∷ es)
      → e.pkt.msg_code ≡ 3
      → Ensures
          (λ h'. HasEnded es h' × HasSent K w (bare 3 ∷ []) h h')
          (process_pkt_out K h e.request)
  unfolding process_pkt_out out_by_code
  process_pkt_out_dsn h e es q held code =
      let (at, pkt) = held.0 in rw at (rw pkt (rw code (out_dsn-HasEnded h e es q held)))

  receive_round_exited :
      (fuel : ℕ) (h : Handler K) (req : Option ℕ)
      → h.exited ≡ true
      → receive_round K fuel h req ≡ done h
  unfolding receive_round
  receive_round_exited fuel h req e = rw e refl

  shared_dsn :
      (h : Handler K) (e : Entry) (es : List Entry)
      → IsServing K w steady quiet h (e ∷ es)
      → e.pkt.msg_code ≡ 3
      → Ensures
          (λ (h', req). HasEnded es h' × HasSent K w (bare 3 ∷ []) h h')
          (peer_process_request_shared K h)
  unfolding peer_process_request_shared process_request
  shared_dsn h e es v code =
      and_then (reqs_dequeue-IsRequestQ h.reqs_q (requests_of (e ∷ es)) v.queue)
        λ (q, d) (front, w'). rw front (
          and_then (process_pkt_out_dsn (record h { reqs_q = q }) e es w' v.held code)
            λ h' ended. ensured ended)

  -- The round of a disconnect request.
  round_dsn :
      (fuel : ℕ) (h : Handler K) (e : Entry) (es : List Entry)
      → IsServing K w steady quiet h (e ∷ es)
      → e.pkt.msg_code ≡ 3
      → Ensures (λ h'. HasEnded es h' × HasSent K w (bare 3 ∷ []) h h') (peer_round K fuel h)
  unfolding peer_round
  round_dsn fuel h e es v code = and_then (shared_dsn h e es v code) λ (h1, req) (ended, out).
      rw (receive_round_exited fuel h1 req ended.exited) (ensured (ended, out))

  -- The next round of a handler that runs.
  peer_loop_runs :
      (n fuel : ℕ) (h : Handler K)
      → h.exited ≡ false
      → peer_loop K (suc n) fuel h ≡ (do h ← peer_round K fuel h; peer_loop K n fuel h)
  unfolding peer_loop
  peer_loop_runs n fuel h e = rw e refl

  pings_then :
      (h h1 h2 : Handler K) (p : Pkt) (ps : List Pkt)
      → HasSent K w (p ∷ []) h h1
      → HasSent K w ps h1 h2
      → HasSent K w (p ∷ ps) h h2
  pings_then h h1 h2 p ps e e' =
      e'
      ∙ ap (λ x. x ++ wire ps) e
      ∙ append_assoc (w.sent h.socket) (pkt_marshall p ++ []) (wire ps)
      ∙ ap (λ x. w.sent h.socket ++ (x ++ wire ps)) (append-nil (pkt_marshall p))

  -- While nothing is received and no call of `send` fails, each round sends the ping that is first in the queue: after as many
  -- rounds as there are pings, all of them were sent, in order, and what was queued behind them is
  -- next.
  pub peer_loop-pings :
      (fuel : ℕ) (h : Handler K) (pings later : List Entry)
      → All (λ e. e.pkt.msg_code ≡ 255) pings
      → IsServing K w steady quiet h (pings ++ later)
      → Ensures
          (λ h'.
            IsServing K w steady quiet h' later
            × HasSent K w (replicate (length pings) (bare 255)) h h')
          (peer_loop K (length pings) fuel h)
  unfolding peer_loop
  peer_loop-pings fuel h [] later codes v = ensured (v, sym (append-nil (w.sent h.socket)))
  peer_loop-pings fuel h (e ∷ es) later (code, codes) v =
      rw (peer_loop_runs (length es) fuel h v.running) (
        and_then (round_png K w steady quiet fuel h e (es ++ later) v code) λ h1 (v1, out).
          weaken (peer_loop-pings fuel h1 es later codes v1) λ h2 (v2, out2).
            (v2, pings_then h h1 h2 (bare 255) (replicate (length es) (bare 255)) out out2))

  last_round :
      (fuel : ℕ) (h h' : Handler K) (later : List Entry)
      → HasEnded later h' × HasSent K w (bare 3 ∷ []) h h'
      → Ensures (λ h'. HasEnded later h' × HasSent K w (bare 3 ∷ []) h h') (peer_loop K 0 fuel h')
  unfolding peer_loop
  last_round fuel h h' later ended = ensured ended

  -- Where nothing is received and no call of `send` fails, a disconnect request that is queued behind
  -- pings is sent: after one round for each ping and one more the pings and the disconnect packet went
  -- out, in this order, the requests behind it were freed with their packets, and the thread has ended
  -- with its socket closed and its queue empty.
  pub peer_loop-HasEnded :
      (fuel : ℕ) (h : Handler K) (pings : List Entry) (dsn : Entry) (later : List Entry)
      → All (λ e. e.pkt.msg_code ≡ 255) pings
      → dsn.pkt.msg_code ≡ 3
      → IsServing K w steady quiet h (pings ++ (dsn ∷ later))
      → Ensures
          (λ h'.
            HasEnded later h'
            × HasSent K w (replicate (length pings) (bare 255) ++ (bare 3 ∷ [])) h h')
          (peer_loop K (suc (length pings)) fuel h)
  peer_loop-HasEnded fuel h [] dsn later codes code v = rw (peer_loop_runs 0 fuel h v.running) (
      and_then (round_dsn fuel h dsn later v code)
        λ h1 done_now. last_round fuel h h1 later done_now)
  peer_loop-HasEnded fuel h (e ∷ es) dsn later (c, codes) code v =
      rw (peer_loop_runs (suc (length es)) fuel h v.running) (
        and_then (round_png K w steady quiet fuel h e (es ++ (dsn ∷ later)) v c) λ h1 (v1, out).
          weaken (peer_loop-HasEnded fuel h1 es dsn later codes code v1) λ h2 (ended, out2). (
            ended,
            pings_then h h1 h2 (bare 255) (replicate (length es) (bare 255) ++ (bare 3 ∷ [])) out
                out2,
          ))
