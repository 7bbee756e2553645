-- ===== src/Handler/Transfer.antt =====
-- `try_send` moves whole packets over a stream of bytes.
use peer_file_torrent.Base.{
  ℕ, zero, suc, ◌+◌, ◌-◌, ◌≤◌, ◌<◌, ◌≡◌, refl, sym, ap, ◌∙◌, subst, inl, inr, arith, Option, none,
  some, List, [], ◌∷◌, ◌++◌, append-nil, append_assoc, length, take, drop, ltb, Bool-cases,
  length-drop, take-append-drop, take-length, drop-drop, Run, Ensures, ensured, weaken,
}
use native.Mathlib.Nat.{zero-add}
use Prim.Native.Nat.add
use peer_file_torrent.Packet.{Pkt, pkt_marshall}
use peer_file_torrent.Packet.Wire.{IsPkt, length-pkt_marshall}
use peer_file_torrent.Handler.Socket.{Sockets, IsSend, refused, accepted, IsStream, IsSteady}
use peer_file_torrent.Handler.{send_on, send_step, send_loop, try_send}

pub take_nil : (k : ℕ) → take {A = ℕ} k [] ≡ []
take_nil zero = refl
take_nil (suc k) = refl

pub nil_of_length : (xs : List ℕ) → length xs ≡ 0 → xs ≡ []
nil_of_length [] e = refl
nil_of_length (x ∷ xs) e = absurd (omega arith)

-- The start of a list, one piece behind the other.
pub take-add : (n k : ℕ) (m : List ℕ) → take n m ++ take k (drop n m) ≡ take (n + k) m
take-add zero k m = rw zero-add
take-add (suc n) k [] = rw (add.suc) (take_nil k)
take-add (suc n) k (x ∷ m) = rw (add.suc) (ap (λ xs. x ∷ xs) (take-add n k m))

module _ (K : Sockets) (w : IsStream K) where
  -- Some call of `send` fails.
  abbrev pub Refusal : Type 0
  Refusal = (s : K.State) × (bytes : List ℕ) × ((K.send s bytes).1 ≡ none)

  -- From `s` to `s'` the bytes `m` were sent, or some of them, up to a call that failed; nothing was
  -- received.
  pub data Sending (m : List ℕ) (s s' : K.State) : Type 0 where
    whole : w.sent s' ≡ w.sent s ++ m → w.pending s' ≡ w.pending s → Sending m s s'
    cut :
        (k : ℕ)
        → k < length m
        → Refusal
        → w.sent s' ≡ w.sent s ++ take k m
        → w.pending s' ≡ w.pending s
        → Sending m s s'

  Sending-then :
      (n : ℕ) (m : List ℕ) (s t u : K.State)
      → n ≤ length m
      → w.sent t ≡ w.sent s ++ take n m
      → w.pending t ≡ w.pending s
      → Sending (drop n m) t u
      → Sending m s u
  Sending-then n m s t u le e p (whole e' p') =
      whole
        (e'
          ∙ ap (λ x. x ++ drop n m) e
          ∙ append_assoc (w.sent s) (take n m) (drop n m)
          ∙ ap (λ x. w.sent s ++ x) (take-append-drop n m))
        (p' ∙ p)
  Sending-then n m s t u le e p (cut k lt stop e' p') =
      cut (n + k) (omega (arith, length-drop n m)) stop
        (e'
          ∙ ap (λ x. x ++ take k (drop n m)) e
          ∙ append_assoc (w.sent s) (take n m) (take k (drop n m))
          ∙ ap (λ x. w.sent s ++ x) (take-add n k m))
        (p' ∙ p)

  send_on-Sending :
      (rec : K.State → ℕ → ℕ → Run K.State) (total bytesleft : ℕ) (m : List ℕ) (s : K.State)
      (r : K.State × Option ℕ)
      → length m ≡ bytesleft
      → 0 < bytesleft
      → IsSend w.sent s m r
      → w.pending r.0 ≡ w.pending s
      → (r.1 ≡ none → Refusal)
      → ((t : K.State) (n : ℕ)
          → 1 ≤ n
          → n ≤ bytesleft
          → Ensures (Sending (drop n m) t) (rec t (total + n) (bytesleft - n)))
      → Ensures (Sending m s) (send_on K rec total bytesleft r)
  unfolding send_on
  send_on-Sending rec total bytesleft m s (t, none) e pos (refused same) p lost later =
      ensured (cut 0 (omega arith) (lost refl) (same ∙ sym (append-nil (w.sent s))) p)
  send_on-Sending rec total bytesleft m s (t, some _) e pos (accepted n low high out) p lost later =
      weaken (later t n low (omega arith)) λ u next. Sending-then n m s t u high out p next

  send_loop-Sending :
      (fuel : ℕ) (buffer : List ℕ) (s : K.State) (total bytesleft : ℕ)
      → length buffer ≡ 4096
      → total + bytesleft ≡ 4096
      → bytesleft < fuel
      → Ensures (Sending (drop total buffer) s) (send_loop K fuel buffer s total bytesleft)
  unfolding send_loop send_step
  send_loop-Sending zero buffer s total bytesleft e sum enough = absurd (omega arith)
  send_loop-Sending (suc fuel) buffer s total bytesleft e sum enough =
      let rest = drop total buffer in
      let long : length rest ≡ bytesleft = omega (arith, length-drop total buffer) in
      let all : take bytesleft rest ≡ rest =
        ap (λ (n : ℕ). take n rest) (sym long) ∙ take-length rest in
      elim (Bool-cases (ltb total 4096)) [
        | inl t ↦
            rw (t, all)
              (let pos : 0 < bytesleft = ground arith in
                send_on-Sending (send_loop K fuel buffer) total bytesleft rest s (K.send s rest)
                  long pos (w.send s rest (omega arith)) (w.send_pending s rest)
                  (λ lost. (s, rest, lost))
                  λ u n low high.
                    subst
                      (λ (m : List ℕ).
                        Ensures (Sending m u)
                          (send_loop K fuel buffer u (total + n) (bytesleft - n)))
                      (sym (drop-drop total n buffer))
                      (send_loop-Sending fuel buffer u (total + n) (bytesleft - n) e (omega arith)
                        (omega arith)))
        | inr f ↦ rw f (
            let none_left : rest ≡ [] = nil_of_length rest (ground arith) in
            ensured (whole (rw none_left (sym (append-nil (w.sent s)))) refl))
      ]

  -- `try_send` returns: it sends the marshalled packet, from its first byte to its last, or, when a
  -- call of `send` fails, less than all of it, from its first byte on. It takes nothing of what is to
  -- be received.
  pub try_send-Sending :
      (s : K.State) (p : Pkt) → IsPkt p → Ensures (Sending (pkt_marshall p) s) (try_send K s p)
  unfolding try_send
  try_send-Sending s p h =
      send_loop-Sending 4097 (pkt_marshall p) s 0 4096 (length-pkt_marshall p h) refl (omega arith)

  -- Where no call of `send` fails, it sends all of the packet.
  pub try_send-whole :
      IsSteady K w
      → (s : K.State) (p : Pkt) → IsPkt p
      → Ensures
          (λ t. (w.sent t ≡ w.sent s ++ pkt_marshall p) × (w.pending t ≡ w.pending s))
          (try_send K s p)
  try_send-whole steady s p h = weaken (try_send-Sending s p h) λ t out. all t out
    where
      all :
          (t : K.State)
          → Sending (pkt_marshall p) s t
          → (w.sent t ≡ w.sent s ++ pkt_marshall p) × (w.pending t ≡ w.pending s)
      all t (whole e q) = (e, q)
      all t (cut k lt (u, bytes, stop) e q) = let (n, takes) = steady.takes u bytes in absurd (cc)
