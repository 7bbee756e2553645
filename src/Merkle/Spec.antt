-- ===== src/Merkle/Spec.antt =====
-- The Merkle hash of each index of a complete binary tree in level order: `nhashes` inner nodes,
-- then `nhashes + 1` leaves with the contents `bytes`.
use peer_file_torrent.Base.{
  ℕ, zero, suc, ◌+◌, ◌*◌, ◌≤◌, ◌<◌, ◌≡◌, List, [], ◌∷◌, arith, ltb, if◌then◌else◌,
}
use peer_file_torrent.Sha256.{hex_digest}

-- The size of such a tree.
abbrev pub size : ℕ → ℕ
size nhashes = 2 * nhashes + 1

module _ (nhashes : ℕ) (bytes : ℕ → List ℕ) where
  hash_fuel : ℕ → ℕ → List ℕ
  hash_fuel zero i = []
  hash_fuel (suc k) i =
      let inner = hex_digest (hash_fuel k (2 * i + 1) ∷ hash_fuel k (2 * i + 2) ∷ []) in
      if ltb i nhashes then inner else hex_digest (bytes i ∷ [])

  pub merkle_hash : ℕ → List ℕ
  unfolding hash_fuel
  merkle_hash i = hash_fuel (size nhashes) i

  hash_fuel_enough :
      (k m i : ℕ)
      → i < size nhashes
      → size nhashes ≤ i + k
      → size nhashes ≤ i + m
      → hash_fuel k i ≡ hash_fuel m i
  unfolding hash_fuel
  hash_fuel_enough zero m i h p q = absurd (omega arith)
  hash_fuel_enough (suc k) zero i h p q = absurd (omega arith)
  hash_fuel_enough (suc k) (suc m) i h p q =
      ground (arith, hash_fuel_enough k m (2 * i + 1), hash_fuel_enough k m (2 * i + 2))

  -- The hash of an inner index is that of its two children's hashes.
  pub merkle_hash_inner :
      (i : ℕ)
      → i < nhashes
      → merkle_hash i ≡ hex_digest (merkle_hash (2 * i + 1) ∷ merkle_hash (2 * i + 2) ∷ [])
  unfolding merkle_hash
  merkle_hash_inner i h = ground (
    arith,
    hash_fuel_enough (size nhashes) (suc (2 * nhashes)) i,
    hash_fuel_enough (2 * nhashes) (size nhashes) (2 * i + 1),
    hash_fuel_enough (2 * nhashes) (size nhashes) (2 * i + 2),
  )

  -- The hash of a leaf is that of its bytes.
  pub merkle_hash_leaf :
      (i : ℕ) → nhashes ≤ i → i < size nhashes → merkle_hash i ≡ hex_digest (bytes i ∷ [])
  unfolding merkle_hash
  merkle_hash_leaf i h k = ground (arith, hash_fuel_enough (size nhashes) (suc (2 * nhashes)) i)
