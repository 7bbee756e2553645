-- ===== src/Sha256/Message.antt =====
-- The hash of a message that is read in pieces.
use mathlib.Core.List.{flatten}
use peer_file_torrent.Base.{
  ℕ, ◌<◌, ◌≡◌, refl, sym, ap, ◌∙◌, List, [], ◌∷◌, ◌++◌, arith, append_assoc, append-nil, All,
  length, length-append, u64,
}
use peer_file_torrent.Sha256.{ComputeData, compute_data_init, finalize, hash_pieces}
use peer_file_torrent.Sha256.Blocks.{sha256}
use peer_file_torrent.Sha256.Stream.{Absorbs, init-Absorbs, update-Absorbs, update-data_size}
use peer_file_torrent.Sha256.Digest.{finalize-sha256}

-- A length that `sha256_update` adds to the buffered bytes with no wrap in 32 bits.
abbrev pub Fits : List ℕ → Type 0
Fits bytes = length bytes < 4294967232

-- Pieces joined behind what was read before.
abbrev pub joined : List ℕ → List (List ℕ) → List ℕ
joined m [] = m
joined m (p ∷ ps) = joined (m ++ p) ps

pieces-sha256 :
    (ps : List (List ℕ)) {d : ComputeData} {m : List ℕ}
    → Absorbs d m
    → d.data_size ≡ u64 (length m)
    → All Fits ps
    → (finalize (hash_pieces d ps)).hcomps ≡ sha256 (joined m ps)
unfolding hash_pieces
pieces-sha256 [] a counted fits = finalize-sha256 a counted
pieces-sha256 (p ∷ ps) {d} {m} a counted fits =
    pieces-sha256 ps (update-Absorbs p a fits.0)
      (omega (arith, update-data_size d p, counted, length-append m p)) fits.1

joined-flatten : (m : List ℕ) (ps : List (List ℕ)) → joined m ps ≡ m ++ flatten ps
unfolding flatten
joined-flatten m [] = sym (append-nil m)
joined-flatten m (p ∷ ps) = joined-flatten (m ++ p) ps ∙ append_assoc m p (flatten ps)

-- However a message is cut into pieces, each shorter than 2 ^ 32 - 64 bytes, a start of the hash on
-- any memory, one `sha256_update` for each piece and `sha256_finalize` leave the hash words of
-- FIPS 180-4: the compression function folded over the 64-byte blocks of the padded message.
pub hash_pieces-sha256 :
    (d : ComputeData) (ps : List (List ℕ))
    → length d.last_chunk ≡ 64
    → All Fits ps
    → (finalize (hash_pieces (compute_data_init d) ps)).hcomps ≡ sha256 (flatten ps)
unfolding compute_data_init
hash_pieces-sha256 d ps room fits =
    pieces-sha256 ps (init-Absorbs d room) refl fits ∙ ap sha256 (joined-flatten [] ps)
