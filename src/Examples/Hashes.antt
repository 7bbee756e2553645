-- ===== src/Examples/Hashes.antt =====
-- SHA-256 of fixed texts, against the published digests, and the theorems on hashes.
use peer_file_torrent.Base.{ℕ, ◌≡◌, refl, List, [], ◌∷◌, replicate, arith}
use peer_file_torrent.Sha256.{
  ComputeData, compute_data_init, update, finalize, output, compress, hash_pieces, output_hex,
}
use peer_file_torrent.Sha256.Blocks.{sha256}
use mathlib.Core.List.{flatten}
use peer_file_torrent.Sha256.Message.{hash_pieces-sha256}
use peer_file_torrent.Sha256.Hex.{read_digest, read_digest-output_hex}

abbrev blank : ComputeData
blank = record { data_size = 0; hcomps = []; last_chunk = replicate 64 7; chunk_size = 0 }

abc :
    output (finalize (update (compute_data_init blank) (0x61 ∷ 0x62 ∷ 0x63 ∷ []))).hcomps
    ≡ 0xba ∷ 0x78 ∷ 0x16 ∷ 0xbf ∷ 0x8f ∷ 0x01 ∷ 0xcf ∷ 0xea ∷ 0x41 ∷ 0x41 ∷ 0x40 ∷ 0xde ∷ 0x5d
      ∷ 0xae ∷ 0x22 ∷ 0x23 ∷ 0xb0 ∷ 0x03 ∷ 0x61 ∷ 0xa3 ∷ 0x96 ∷ 0x17 ∷ 0x7a ∷ 0x9c ∷ 0xb4 ∷ 0x10
      ∷ 0xff ∷ 0x61 ∷ 0xf2 ∷ 0x00 ∷ 0x15 ∷ 0xad ∷ []
unfolding compute_data_init update finalize output compress
abc = refl

abbrev pieces : List (List ℕ)
pieces = (0x61 ∷ []) ∷ (0x62 ∷ 0x63 ∷ []) ∷ []

hash_pieces-sha256_example :
    (finalize (hash_pieces (compute_data_init blank) pieces)).hcomps ≡ sha256 (flatten pieces)
hash_pieces-sha256_example = hash_pieces-sha256 blank pieces refl (omega arith, (omega arith, tt))

read_digest-output_hex_example :
    read_digest (output_hex (finalize (update (compute_data_init blank) (0x61 ∷ []))))
    ≡ (finalize (update (compute_data_init blank) (0x61 ∷ []))).hcomps
read_digest-output_hex_example =
    read_digest-output_hex (update (compute_data_init blank) (0x61 ∷ []))
