-- ===== src/Handler/Socket.antt =====
-- A connected socket as the peer handler uses it: the calls `send`, `recv` and `setsockopt`, and what
-- their documentation promises.
use peer_file_torrent.Base.{
  ℕ, ◌≤◌, ◌<◌, ◌≡◌, Bool, true, Option, none, some, List, ◌∷◌, ◌++◌, length, take,
}

-- `send` returns the number of bytes that it took, or -1; `recv` the bytes that it stored, or -1;
-- `setsockopt` whether it succeeded.
pub record Sockets : Type 1 where
  pub State : Type 0
  pub send : State → List ℕ → State × Option ℕ
  pub recv : State → ℕ → State × Option (List ℕ)
  pub set_timeout : State → State × Bool

-- What a call of `send` may answer, over the bytes that went out so far.
pub data IsSend {S : Type 0} (sent : S → List ℕ) (s : S) (bytes : List ℕ)
    : S × Option ℕ → Type 0 where
  refused : {s' : S} → sent s' ≡ sent s → IsSend sent s bytes (s', none)
  accepted :
      {s' : S} (n : ℕ)
      → 1 ≤ n
      → n ≤ length bytes
      → sent s' ≡ sent s ++ take n bytes
      → IsSend sent s bytes (s', some n)

-- What a call of `recv` may answer, over the bytes that are still to come. No bytes at all mean that
-- the peer has closed the connection.
pub data IsRecv {S : Type 0} (pending : S → List ℕ) (s : S) (n : ℕ)
    : S × Option (List ℕ) → Type 0 where
  failed : {s' : S} → pending s' ≡ pending s → IsRecv pending s n (s', none)
  arrived :
      {s' : S} (bytes : List ℕ)
      → length bytes ≤ n
      → pending s ≡ bytes ++ pending s'
      → IsRecv pending s n (s', some bytes)

-- The bytes on a socket are sent and received in order. `recv` and `setsockopt` send nothing, and
-- `send` and `setsockopt` take nothing of what is to come.
pub record IsStream (K : Sockets) : Type 0 where
  pub sent : K.State → List ℕ
  pub pending : K.State → List ℕ
  pub send :
      (s : K.State) (bytes : List ℕ) → 0 < length bytes → IsSend sent s bytes (K.send s bytes)
  pub send_pending : (s : K.State) (bytes : List ℕ) → pending (K.send s bytes).0 ≡ pending s
  pub recv : (s : K.State) (n : ℕ) → 0 < n → IsRecv pending s n (K.recv s n)
  pub recv_sent : (s : K.State) (n : ℕ) → sent (K.recv s n).0 ≡ sent s
  pub timeout_sent : (s : K.State) → sent (K.set_timeout s).0 ≡ sent s
  pub timeout_pending : (s : K.State) → pending (K.set_timeout s).0 ≡ pending s

-- No call of `send` fails.
pub record IsSteady (K : Sockets) (w : IsStream K) : Type 0 where
  pub takes : (s : K.State) (bytes : List ℕ) → (n : ℕ) × ((K.send s bytes).1 ≡ some n)

-- `setsockopt` succeeds, and `recv` returns bytes while there are some to come.
pub record IsPrompt (K : Sockets) (w : IsStream K) : Type 0 where
  pub timeout : (s : K.State) → (K.set_timeout s).1 ≡ true
  pub serves :
      (s : K.State) (n : ℕ)
      → 0 < n
      → 0 < length (w.pending s)
      → (b : ℕ) × (bs : List ℕ) × ((K.recv s n).1 ≡ some (b ∷ bs))
