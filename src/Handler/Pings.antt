-- ===== src/Handler/Pings.antt =====
-- Rounds of the peer handler in which it sends pings.
use peer_file_torrent.Base.{
  ℕ, ◌≡◌, refl, sym, ap, ◌∙◌, subst, arith, Bool, true, false, Option, none, some, List, [], ◌∷◌,
  ◌++◌, append-nil, Run, done, Ensures, ensured, and_then, weaken,
}
use peer_file_torrent.Queue.{RequestQ}
use peer_file_torrent.Queue.Fifo.{IsRequestQ, reqs_dequeue-IsRequestQ}
use peer_file_torrent.Packet.{Pkt, pkt_create, pkt_marshall}
use peer_file_torrent.Handler.Socket.{Sockets, IsStream, IsSteady}
use peer_file_torrent.Handler.Transfer.{try_send-whole}
use peer_file_torrent.Handler.{
  recv_on, recv_step, recv_loop, receive_after, peer_try_receive, send_png,
}
use peer_file_torrent.Handler.Loop.{
  Handler, destroy_then, out_png, out_by_code, process_pkt_out, process_request,
  peer_process_request_shared, handle_received, receive_round, peer_round,
}
use peer_file_torrent.Handler.Replies.{bare, bare-IsPkt, HasSent, receive_round_runs}
use peer_file_torrent.Handler.Held.{Entry, AreHeld, requests_of, req_destroy-AreHeld}

-- No call of `recv` receives anything.
pub record IsSilent (K : Sockets) : Type 0 where
  pub silent : (s : K.State) (n : ℕ) → (K.recv s n).1 ≡ none

recv_on_silent :
    (K : Sockets) (rec : K.State → List ℕ → Run (K.State × Option Pkt)) (buffer : List ℕ)
    (r : K.State × Option (List ℕ))
    → r.1 ≡ none
    → recv_on K rec buffer r ≡ done (r.0, none)
unfolding recv_on
recv_on_silent K rec buffer (t, none) e = refl
recv_on_silent K rec buffer (t, some bytes) e = absurd cc

module _ (K : Sockets) (w : IsStream K) (steady : IsSteady K w) (quiet : IsSilent K) where
  receive_after_silent :
      (s : K.State) (r : K.State × Bool)
      → w.sent r.0 ≡ w.sent s
      → Ensures (λ (t, p). (p ≡ none) × (w.sent t ≡ w.sent s)) (receive_after K r)
  unfolding receive_after recv_loop recv_step
  receive_after_silent s (t, false) e = ensured (refl, e)
  receive_after_silent s (t, true) e =
      rw (recv_on_silent K (recv_loop K 4096) [] (K.recv t 4096) (quiet.silent t 4096))
        (ensured (refl, w.recv_sent t 4096 ∙ e))

  peer_try_receive_silent :
      (s : K.State) → Ensures (λ (t, p). (p ≡ none) × (w.sent t ≡ w.sent s)) (peer_try_receive K s)
  unfolding peer_try_receive
  peer_try_receive_silent s = receive_after_silent s (K.set_timeout s) (w.timeout_sent s)

  -- The thread runs, its queue holds the requests, in order, and the memory has them.
  pub record IsServing (h : Handler K) (es : List Entry) : Type 0 where
    pub queue : IsRequestQ h.reqs_q (requests_of es)
    pub held : AreHeld h.memory es
    pub running : h.exited ≡ false

  out_png-AreHeld :
      (h : Handler K) (e : Entry) (es : List Entry)
      → AreHeld h.memory (e ∷ es)
      → Ensures
          (λ h'.
            AreHeld h'.memory es
            × (h'.reqs_q ≡ h.reqs_q)
            × (h'.exited ≡ h.exited)
            × HasSent K w (bare 255 ∷ []) h h')
          (out_png K h e.request)
  unfolding out_png destroy_then send_png pkt_create
  out_png-AreHeld h e es held =
      and_then (try_send-whole K w steady h.socket (bare 255) (bare-IsPkt 255 (omega arith)))
        λ s (out, _). and_then (req_destroy-AreHeld h.memory e es held) λ m held'. ensured (
          held',
          refl,
          refl,
          out ∙ ap (λ x. w.sent h.socket ++ x) (sym (append-nil (pkt_marshall (bare 255)))),
        )

  -- What is left of a handler once its first request is dealt with.
  abbrev Rest : Handler K → List Entry → Pkt → Handler K → Type 0
  Rest h es p h' =
      AreHeld h'.memory es
      × (h'.reqs_q ≡ h.reqs_q)
      × (h'.exited ≡ h.exited)
      × HasSent K w (p ∷ []) h h'

  process_pkt_out_png :
      (h : Handler K) (e : Entry) (es : List Entry)
      → AreHeld h.memory (e ∷ es)
      → e.pkt.msg_code ≡ 255
      → Ensures (Rest h es (bare 255)) (process_pkt_out K h e.request)
  unfolding process_pkt_out out_by_code
  process_pkt_out_png h e es held code =
      let (at, pkt) = held.0 in rw at (rw pkt (rw code (out_png-AreHeld h e es held)))

  shared_png :
      (h : Handler K) (e : Entry) (es : List Entry)
      → IsServing h (e ∷ es)
      → e.pkt.msg_code ≡ 255
      → Ensures
          (λ (h', req). IsServing h' es × HasSent K w (bare 255 ∷ []) h h')
          (peer_process_request_shared K h)
  unfolding peer_process_request_shared process_request
  shared_png h e es v code =
      and_then (reqs_dequeue-IsRequestQ h.reqs_q (requests_of (e ∷ es)) v.queue)
        λ (q, d) (front, w'). rw front (
          and_then (process_pkt_out_png (record h { reqs_q = q }) e es v.held code)
            λ h' (held, same, runs, out). ensured (
              record {
                queue = subst (λ (x : RequestQ). IsRequestQ x (requests_of es)) (sym same) w';
                held = held;
                running = runs ∙ v.running;
              },
              out,
            ))

  receive_round_silent :
      (fuel : ℕ) (h : Handler K) (req : Option ℕ) (es : List Entry)
      → IsServing h es
      → Ensures
          (λ h'. IsServing h' es × (w.sent h'.socket ≡ w.sent h.socket))
          (receive_round K fuel h req)
  unfolding handle_received
  receive_round_silent fuel h req es v = rw (receive_round_runs K fuel h req v.running) (
      and_then (peer_try_receive_silent h.socket) λ (s, p) (e, sent).
        rw e (ensured (record { queue = v.queue; held = v.held; running = v.running }, sent)))

  -- The round of a ping, where nothing is received.
  pub round_png :
      (fuel : ℕ) (h : Handler K) (e : Entry) (es : List Entry)
      → IsServing h (e ∷ es)
      → e.pkt.msg_code ≡ 255
      → Ensures (λ h'. IsServing h' es × HasSent K w (bare 255 ∷ []) h h') (peer_round K fuel h)
  unfolding peer_round
  round_png fuel h e es v code = and_then (shared_png h e es v code) λ (h1, req) (v1, out).
      weaken (receive_round_silent fuel h1 req es v1) λ h2 (v2, same). (v2, same ∙ out)
