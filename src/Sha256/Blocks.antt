-- ===== src/Sha256/Blocks.antt =====
-- What SHA-256 computes, as a fold of the compression function over the blocks of the padded
-- message, and the laws of that fold.
use native.Mathlib.Nat.{zero-add}
use Prim.Native.Nat.add
use peer_file_torrent.Base.{
  ℕ, zero, suc, ◌+◌, ◌-◌, ◌*◌, ◌/◌, ◌%◌, ◌≤◌, ◌≡◌, sym, ap, ap₂, ◌∙◌, List, [], ◌∷◌, ◌++◌, arith,
  take-append-drop, length-take, u64, length, take, drop, replicate, take-append_le, drop-append_le,
  length-drop,
}
use peer_file_torrent.Sha256.{compress, initial_hcomps}

-- `n` blocks of 64 bytes.
unfoldable pub run : ℕ → List ℕ → List ℕ → List ℕ
run zero h bytes = h
run (suc n) h bytes = run n (compress h (take 64 bytes)) (drop 64 bytes)

-- The eight bytes of the length in bits, big-endian.
unfoldable pub size_bytes : ℕ → List ℕ
size_bytes s =
    s / 72057594037927936 % 256
    ∷ s / 281474976710656 % 256
    ∷ s / 1099511627776 % 256
    ∷ s / 4294967296 % 256
    ∷ s / 16777216 % 256
    ∷ s / 65536 % 256
    ∷ s / 256 % 256
    ∷ s % 256
    ∷ []

-- What FIPS 180-4 appends to a message of `len` bytes.
unfoldable pub padding : ℕ → List ℕ
unfolding size_bytes
padding len = (0x80 ∷ replicate ((119 - len % 64) % 64) 0) ++ size_bytes (u64 (len * 8))

unfoldable pub sha256 : List ℕ → List ℕ
unfolding run padding
sha256 m = let padded = m ++ padding (length m) in run (length padded / 64) initial_hcomps padded

pub run-append :
    (n k : ℕ) (h a b : List ℕ) → length a ≡ 64 * n → run (n + k) h (a ++ b) ≡ run k (run n h a) b
unfolding run
run-append zero k h [] b e = rw zero-add
run-append zero k h (x ∷ a) b e = absurd (omega arith)
run-append (suc n) k h a b e = rw (add.suc) (
    ap₂ (λ p q. run (n + k) (compress h p) q) (take-append_le 64 a b (omega arith))
      (drop-append_le 64 a b (omega arith))
    ∙ run-append n k (compress h (take 64 a)) (drop 64 a) b (omega (arith, length-drop 64 a)))

-- The blocks of a longer text are those of its start.
pub run-take :
    (n : ℕ) (h bytes : List ℕ)
    → 64 * n ≤ length bytes
    → run n h bytes ≡ run n h (take (64 * n) bytes)
unfolding run
run-take n h bytes e =
    let pad : n ≡ n + 0 = omega arith in
    ap (run n h) (sym (take-append-drop (64 * n) bytes))
    ∙ ap (λ (j : ℕ). run j h (take (64 * n) bytes ++ drop (64 * n) bytes)) pad
    ∙ run-append n 0 h (take (64 * n) bytes) (drop (64 * n) bytes)
        (omega (arith, length-take (64 * n) bytes))
