-- ===== src/Examples/Trees.antt =====
-- A tree of one hash and two chunks of two bytes.
use peer_file_torrent.Base.{
  ℕ, zero, suc, ◌*◌, ◌-◌, ◌<◌, ◌≤◌, ◌≡◌, refl, List, [], ◌∷◌, Option, none, some, true, false,
  arith, length, replicate, take, drop, u16, done, fault, Ensures, strn_eq,
}
use peer_file_torrent.Sha256.{hex_digest}
use peer_file_torrent.Merkle.{
  Chunk, Node, Mtree, init_chunks, from_lvlorder, build_node, build_leaf, compute_chunk_hash,
  mtree_build, update_chunk_node,
}
use peer_file_torrent.Merkle.Facts.{At, Known, shaped, final, parented}
use peer_file_torrent.Merkle.Spec.{merkle_hash}
use peer_file_torrent.Merkle.Load.{IsListed, IsLoaded, IsMerkle, contents, mtree_build-IsMerkle}
use peer_file_torrent.Merkle.Update.{update_chunk_node-mtree_build}
use peer_file_torrent.Query.{
  chunk, find_node_from_hash, mode_count, bpkg_get_min_completed_hashes,
  bpkg_get_all_chunk_hashes_from_hash, internal,
}
use peer_file_torrent.Query.Find.{
  IsFirst, matches, find_node_from_hash-IsFirst, find_node_from_hash_chunk,
}
use peer_file_torrent.Query.Complete.{IsMinimal, Named}
use peer_file_torrent.Query.Tree.{
  Answers, bpkg_get_min_completed_hashes-IsMinimal, bpkg_get_all_chunk_hashes_from_hash-IsLeaves,
}

abbrev text : List ℕ
text = 65 ∷ 66 ∷ 67 ∷ 68 ∷ []

abbrev pub blank_node : Node
blank_node = record {
  is_leaf = false;
  is_complete = false;
  left = none;
  right = none;
  parent = none;
  depth = 0;
  height = 0;
  key_lo = 0;
  key_hi = 0;
  chunk = none;
  expected_hash = replicate 64 48;
  computed_hash = replicate 64 48;
}

abbrev fresh_leaf : ℕ → Node
fresh_leaf offset = record blank_node {
  is_leaf = true;
  chunk = some (record { data_ptr = none; size = 2; offset = offset });
}

abbrev fresh_tree : Mtree
fresh_tree = record {
  root = none;
  nnodes = 3;
  nchunks = 2;
  nhashes = 1;
  nodes = blank_node ∷ fresh_leaf 0 ∷ fresh_leaf 2 ∷ [];
  f_data = text;
  f_size = 4;
  f_writable = false;
}

fresh_tree-IsListed : (j : ℕ) → j < 3 → At fresh_tree.nodes j (IsListed text 1 j)
fresh_tree-IsListed zero h =
    (blank_node, refl, record { flag = refl; inside = λ low. absurd (omega arith) })
fresh_tree-IsListed (suc zero) h =
    (fresh_leaf 0, refl, record { flag = refl; inside = λ low. (_, refl, omega arith) })
fresh_tree-IsListed (suc (suc zero)) h =
    (fresh_leaf 2, refl, record { flag = refl; inside = λ low. (_, refl, omega arith) })
fresh_tree-IsListed (suc (suc (suc j))) h = absurd (omega arith)

fresh_tree-IsLoaded : IsLoaded fresh_tree
fresh_tree-IsLoaded = record {
  complete = refl;
  whole = refl;
  small = omega arith;
  listed = fresh_tree-IsListed;
}

mtree_build-IsMerkle_example :
    Ensures
      (λ t'. IsMerkle (contents text fresh_tree.nodes) t' × (t'.nhashes ≡ 1) × (t'.f_data ≡ text))
      (mtree_build fresh_tree)
mtree_build-IsMerkle_example = mtree_build-IsMerkle fresh_tree fresh_tree-IsLoaded

-- The same tree once it is built, on a mapping that can be written.
abbrev leaf_bytes : ℕ → List ℕ
leaf_bytes j = take 2 (drop (2 * (j - 1)) text)

abbrev leaf_chunk_at : ℕ → Chunk
leaf_chunk_at offset = record { data_ptr = some offset; size = 2; offset = offset }

abbrev built_leaf : ℕ → ℕ → Node
built_leaf j offset = record blank_node {
  is_leaf = true;
  parent = some 0;
  chunk = some (leaf_chunk_at offset);
  computed_hash = merkle_hash 1 leaf_bytes j;
}

abbrev built_root : Node
built_root = record blank_node {
  left = some 1;
  right = some 2;
  computed_hash = merkle_hash 1 leaf_bytes 0;
}

abbrev built_tree : Mtree
built_tree = record {
  root = some 0;
  nnodes = 3;
  nchunks = 2;
  nhashes = 1;
  nodes = built_root ∷ built_leaf 1 0 ∷ built_leaf 2 2 ∷ [];
  f_data = text;
  f_size = 4;
  f_writable = true;
}

abbrev Here : (j : ℕ) → Type 0
Here j =
    Known text 1 leaf_bytes (merkle_hash 1 leaf_bytes) built_tree.nodes final j
    × Known text 1 leaf_bytes (merkle_hash 1 leaf_bytes) built_tree.nodes shaped j
    × (0 < j → Known text 1 leaf_bytes (merkle_hash 1 leaf_bytes) built_tree.nodes parented j)

built_tree-node : (j : ℕ) → j < 3 → Here j
built_tree-node zero h = (
  (built_root, refl, (refl, λ inner. (refl, refl))),
  (built_root, refl, record { flag = refl; content = λ low. absurd (omega arith) }),
  λ pos. absurd (omega arith),
)
built_tree-node (suc zero) h = (
  (built_leaf 1 0, refl, (refl, λ inner. absurd (omega arith))),
  (built_leaf 1 0, refl, record { flag = refl; content = λ low. (leaf_chunk_at 0, refl, refl) }),
  λ pos. (built_leaf 1 0, refl, refl),
)
built_tree-node (suc (suc zero)) h = (
  (built_leaf 2 2, refl, (refl, λ inner. absurd (omega arith))),
  (built_leaf 2 2, refl, record { flag = refl; content = λ low. (leaf_chunk_at 2, refl, refl) }),
  λ pos. (built_leaf 2 2, refl, refl),
)
built_tree-node (suc (suc (suc j))) h = absurd (omega arith)

built_tree-IsMerkle : IsMerkle leaf_bytes built_tree
built_tree-IsMerkle = record {
  root = refl;
  whole = refl;
  small = omega arith;
  finals = λ j h. (built_tree-node j h).0;
  shapes = λ j h. (built_tree-node j h).1;
  parents = λ j pos h. (built_tree-node j h).2 pos;
}

bpkg_get_min_completed_hashes-IsMinimal_example :
    Ensures
      (λ q.
        Named built_tree.nodes 1 (IsMinimal built_tree.nodes 1 0) q.hashes
        × (q.len ≡ u16 (length q.hashes)))
      (bpkg_get_min_completed_hashes built_tree)
bpkg_get_min_completed_hashes-IsMinimal_example =
    bpkg_get_min_completed_hashes-IsMinimal built_tree leaf_bytes built_tree-IsMerkle

bpkg_get_all_chunk_hashes_from_hash-IsLeaves_example :
    Ensures
      (λ q.
        (o : Option ℕ) × IsFirst built_tree.nodes (replicate 64 48) 0 3 o
        × Answers built_tree o q.hashes
        × (q.len ≡ u16 (length q.hashes)))
      (bpkg_get_all_chunk_hashes_from_hash built_tree (replicate 64 48))
bpkg_get_all_chunk_hashes_from_hash-IsLeaves_example =
    bpkg_get_all_chunk_hashes_from_hash-IsLeaves built_tree leaf_bytes (replicate 64 48)
      built_tree-IsMerkle (omega arith) (omega arith)

find_node_from_hash-IsFirst_example :
    Ensures
      (IsFirst built_tree.nodes (replicate 64 48) 0 (u16 (mode_count built_tree internal)))
      (find_node_from_hash built_tree (replicate 64 48) internal)
unfolding mode_count
find_node_from_hash-IsFirst_example =
    find_node_from_hash-IsFirst built_tree (replicate 64 48) internal (omega arith)

-- The second chunk alone has the hash that is looked for.
abbrev pub marked_tree : Mtree
marked_tree = record built_tree {
  nodes =
      built_root
      ∷ built_leaf 1 0
      ∷ record (built_leaf 2 2) { expected_hash = replicate 64 49 }
      ∷ [];
}

pub unmarked : (j : ℕ) → j ≤ 1 → matches marked_tree.nodes (replicate 64 49) j ≡ false
unfolding strn_eq
unmarked zero h = refl
unmarked (suc zero) h = refl
unmarked (suc (suc j)) h = absurd (omega arith)

find_node_from_hash_chunk_example :
    find_node_from_hash marked_tree (replicate 64 49) chunk ≡ done none
find_node_from_hash_chunk_example =
    find_node_from_hash_chunk marked_tree (replicate 64 49) refl (omega arith) unmarked

-- A tree of one chunk, before and after it is built.
abbrev single : Mtree
single = record fresh_tree { nnodes = 1; nchunks = 1; nhashes = 0; nodes = fresh_leaf 0 ∷ [] }

abbrev single_leaf : Node
single_leaf = record blank_node {
  is_leaf = true;
  chunk = some (leaf_chunk_at 0);
  computed_hash = hex_digest ((65 ∷ 66 ∷ []) ∷ []);
}

abbrev single_built : Mtree
single_built = record single { root = some 0; nodes = single_leaf ∷ [] }

single_runs : mtree_build single ≡ done single_built
unfolding mtree_build init_chunks from_lvlorder build_node build_leaf compute_chunk_hash
single_runs = refl

update_chunk_node-mtree_build_example :
    update_chunk_node single_built (some 0) (69 ∷ 70 ∷ []) 2 0 ≡ fault
update_chunk_node-mtree_build_example =
    update_chunk_node-mtree_build single single_built 0 single_leaf (leaf_chunk_at 0) (69 ∷ 70 ∷ [])
      2 0 single_runs refl refl refl (omega arith)
