-- ===== src/Handler/Receive.antt =====
-- `peer_try_receive` takes whole packets from a stream of bytes.
use peer_file_torrent.Base.{
  ℕ, zero, suc, ◌+◌, ◌-◌, ◌≤◌, ◌<◌, ◌≡◌, refl, sym, ap, ◌∙◌, subst, inl, inr, arith, Bool, true,
  false, Option, none, some, List, [], ◌∷◌, ◌++◌, append_assoc, length, take, drop, ltb, Bool-cases,
  length-append, drop-append_eq, take-append_eq, Run, Ensures, ensured, weaken,
}
use peer_file_torrent.Packet.{Pkt, pkt_marshall, pkt_unmarshall}
use peer_file_torrent.Packet.Wire.{IsPkt, length-pkt_marshall, pkt_unmarshall-pkt_marshall}
use peer_file_torrent.Handler.Socket.{Sockets, IsRecv, failed, arrived, IsStream, IsPrompt}
use peer_file_torrent.Handler.{recv_on, recv_step, recv_loop, receive_after, peer_try_receive}

module _ (K : Sockets) (w : IsStream K) where
  -- From `s` to `s'` the bytes `m` were received; nothing was sent.
  abbrev pub Received : List ℕ → K.State → K.State → Type 0
  Received m s s' = (w.pending s ≡ m ++ w.pending s') × (w.sent s' ≡ w.sent s)

  -- Why nothing more was received at `s'`: the timeout was not set, or `recv` failed or found the end.
  abbrev pub Empty : Option (List ℕ) → Type 0
  Empty none = Unit
  Empty (some []) = Unit
  Empty (some (b ∷ bs)) = ⊥

  pub data Quiet (s' : K.State) : Type 0 where
    no_timeout : (s : K.State) → (K.set_timeout s).1 ≡ false → Quiet s'
    no_bytes :
        (t : K.State) (n : ℕ) → 0 < n → Empty (K.recv t n).1 → w.pending t ≡ w.pending s' → Quiet s'

  -- What `peer_try_receive` returns, with the bytes that it received: a whole packet, or null with
  -- less than a packet.
  pub data Reception (s s' : K.State) : Option Pkt → Type 0 where
    packet :
        (m : List ℕ) → length m ≡ 4096 → Received m s s' → Reception s s' (some (pkt_unmarshall m))
    nothing : (m : List ℕ) → length m < 4096 → Received m s s' → Quiet s' → Reception s s' none

  recv_on-Reception :
      (rec : K.State → List ℕ → Run (K.State × Option Pkt)) (buffer : List ℕ) (s t : K.State)
      (r : K.State × Option (List ℕ))
      → length buffer < 4096
      → Received buffer s t
      → IsRecv w.pending t (4096 - length buffer) r
      → w.sent r.0 ≡ w.sent t
      → (Empty r.1 → w.pending t ≡ w.pending r.0 → Quiet r.0)
      → ((u : K.State) (more : List ℕ)
          → length buffer < length more
          → length more ≤ 4096
          → Received more s u
          → Ensures (λ (v, p). Reception s v p) (rec u more))
      → Ensures (λ (v, p). Reception s v p) (recv_on K rec buffer r)
  unfolding recv_on
  recv_on-Reception rec buffer s t (u, none) short (e, q) (failed same) q' quiet later =
      ensured
        (nothing buffer short (e ∙ ap (λ x. buffer ++ x) (sym same), q' ∙ q) (quiet tt (sym same)))
  recv_on-Reception rec buffer s t (u, some _) short (e, q) (arrived [] le come) q' quiet later =
      ensured (nothing buffer short (e ∙ ap (λ x. buffer ++ x) come, q' ∙ q) (quiet tt come))
  recv_on-Reception rec buffer s t (u, some _) short (e, q) (arrived (b ∷ bs) le come) q' quiet
        later =
      later u (buffer ++ (b ∷ bs)) (omega (arith, length-append buffer (b ∷ bs)))
        (omega (arith, length-append buffer (b ∷ bs)))
        (e ∙ ap (λ x. buffer ++ x) come ∙ sym (append_assoc buffer (b ∷ bs) (w.pending u)), q' ∙ q)

  recv_loop-Reception :
      (fuel : ℕ) (s t : K.State) (buffer : List ℕ)
      → length buffer ≤ 4096
      → 4096 - length buffer < fuel
      → Received buffer s t
      → Ensures (λ (v, p). Reception s v p) (recv_loop K fuel t buffer)
  unfolding recv_loop recv_step
  recv_loop-Reception zero s t buffer le enough got = absurd (omega arith)
  recv_loop-Reception (suc fuel) s t buffer le enough got =
      elim (Bool-cases (ltb (length buffer) 4096)) [
        | inl c ↦ rw c (
            let short : length buffer < 4096 = ground arith in
            recv_on-Reception (recv_loop K fuel) buffer s t (K.recv t (4096 - length buffer)) short
              got (w.recv t (4096 - length buffer) (omega arith))
              (w.recv_sent t (4096 - length buffer))
              (λ empty same. no_bytes t (4096 - length buffer) (omega arith) empty same)
              λ u more longer le' got'. recv_loop-Reception fuel s u more le' (omega arith) got')
        | inr f ↦ rw f (ensured (packet buffer (ground arith) got))
      ]

  receive_after-Reception :
      (s : K.State) (r : K.State × Bool)
      → w.sent r.0 ≡ w.sent s
      → w.pending r.0 ≡ w.pending s
      → (r.1 ≡ false → Quiet r.0)
      → Ensures (λ (v, p). Reception s v p) (receive_after K r)
  unfolding receive_after
  receive_after-Reception s (t, false) q e quiet =
      ensured (nothing [] (omega arith) (sym e, q) (quiet refl))
  receive_after-Reception s (t, true) q e quiet =
      recv_loop-Reception 4097 s t [] (omega arith) (omega arith) (sym e, q)

  -- `peer_try_receive` returns, within 4096 calls of `recv`: either the packet of the next 4096 bytes,
  -- however they arrive, or null, having taken less than 4096 bytes. It sends nothing.
  pub peer_try_receive-Reception :
      (s : K.State) → Ensures (λ (v, p). Reception s v p) (peer_try_receive K s)
  unfolding peer_try_receive
  peer_try_receive-Reception s =
      receive_after-Reception s (K.set_timeout s) (w.timeout_sent s) (w.timeout_pending s)
        (λ unset. no_timeout s unset)

  -- When the bytes of a packet are the next ones, it is this packet that is received, and what comes
  -- behind it is left; or nothing, as a call fails or is given nothing.
  pub data Arrival (p : Pkt) (rest : List ℕ) (s s' : K.State) : Option Pkt → Type 0 where
    same : w.pending s' ≡ rest → w.sent s' ≡ w.sent s → Arrival p rest s s' (some p)
    lost : Quiet s' → w.sent s' ≡ w.sent s → Arrival p rest s s' none

  Reception-Arrival :
      (p : Pkt) (rest : List ℕ) (s t : K.State) (r : Option Pkt)
      → IsPkt p
      → w.pending s ≡ pkt_marshall p ++ rest
      → Reception s t r
      → Arrival p rest s t r
  Reception-Arrival p rest s t (some _) h e (packet m long (e', q)) =
      let both : pkt_marshall p ++ rest ≡ m ++ w.pending t = sym e ∙ e' in
      let first : m ≡ pkt_marshall p =
        sym (take-append_eq 4096 m (w.pending t) (sym long))
        ∙ ap (take 4096) (sym both)
        ∙ take-append_eq 4096 (pkt_marshall p) rest (sym (length-pkt_marshall p h)) in
      let second : w.pending t ≡ rest =
        sym (drop-append_eq 4096 m (w.pending t) (sym long))
        ∙ ap (drop 4096) (sym both)
        ∙ drop-append_eq 4096 (pkt_marshall p) rest (sym (length-pkt_marshall p h)) in
      subst (λ (x : Pkt). Arrival p rest s t (some x))
        (sym (ap pkt_unmarshall first ∙ pkt_unmarshall-pkt_marshall p h)) (same second q)
  Reception-Arrival p rest s t none h e (nothing m short (e', q) quiet) = lost quiet q

  -- A packet whose marshalled bytes are the next ones to come is received as it was sent, and what
  -- comes behind it is left for the next call; otherwise `peer_try_receive` returns null because a
  -- call on the socket failed or found nothing. It returns in either case.
  pub peer_try_receive-pkt_marshall :
      (s : K.State) (p : Pkt) (rest : List ℕ)
      → IsPkt p
      → w.pending s ≡ pkt_marshall p ++ rest
      → Ensures (λ (t, r). Arrival p rest s t r) (peer_try_receive K s)
  peer_try_receive-pkt_marshall s p rest h e =
      weaken (peer_try_receive-Reception s) λ (t, r) got. Reception-Arrival p rest s t r h e got

  -- Where `recv` is prompt, it is this packet that is received.
  pub peer_try_receive_prompt :
      IsPrompt K w
      → (s : K.State) (p : Pkt) (rest : List ℕ) → IsPkt p
      → w.pending s ≡ pkt_marshall p ++ rest
      → Ensures
          (λ (t, r). (r ≡ some p) × (w.pending t ≡ rest) × (w.sent t ≡ w.sent s))
          (peer_try_receive K s)
  peer_try_receive_prompt prompt s p rest h e =
      weaken (peer_try_receive-Reception s)
        λ (t, r) got. there t r got (Reception-Arrival p rest s t r h e got)
    where
      there :
          (t : K.State) (r : Option Pkt)
          → Reception s t r
          → Arrival p rest s t r
          → (r ≡ some p) × (w.pending t ≡ rest) × (w.sent t ≡ w.sent s)
      there t (some _) got (same e' q) = (refl, e', q)
      there t none (nothing m short (e', q) (no_timeout u unset)) arrival =
          absurd (let e'' = prompt.timeout u in cc)
      there t none (nothing m short (e', q) (no_bytes u n pos empty left)) arrival =
          let long : length (pkt_marshall p) + length rest ≡ length m + length (w.pending t) =
            sym (length-append (pkt_marshall p) rest)
            ∙ ap length (sym e ∙ e')
            ∙ length-append m (w.pending t) in
          let some_left : 0 < length (w.pending u) =
            rw left (omega (arith, length-pkt_marshall p h)) in
          let (b, bs, served) = prompt.serves u n pos some_left in absurd (subst Empty served empty)
