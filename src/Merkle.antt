-- ===== src/Merkle.antt =====
-- include/tree/merkletree.h and src/tree/merkletree.c: nodes, and the tree that is built over their
-- level-order array. A pointer to a node is its index in `nodes`, where `combine_nodes` has put the
-- hash nodes first and the chunk nodes behind them: `chk_nodes[i]` is `nodes[nhashes + i]`.
pub mod Facts
pub mod Subtree
pub mod Spec
pub mod Steps
pub mod Build
pub mod Load
pub mod Update
use Prim.Native.Nat.{max}
use peer_file_torrent.Base.{
  ℕ, zero, suc, ◌+◌, ◌-◌, ◌*◌, ◌≤◌, Bool, true, false, ◌&&◌, Option, none, some, List, [], ◌∷◌,
  ◌++◌, leb, ltb, min, ◌==◌, if◌then◌else◌, length, take, drop, set, get_elem?, replicate, strn_eq,
  u16, u32, Run, done, fail, fault, out_of_fuel, ◌>>=◌, deref, guard, or_fail,
}
use peer_file_torrent.Sha256.{hex_digest}

-- `chunk_t`; `data` is an offset into the mapped file, once `init_chunks_data` has set it.
pub record Chunk : Type 0 where
  pub data_ptr : Option ℕ
  pub size : ℕ
  pub offset : ℕ

-- `mtree_node_t`, less its lock.
pub record Node : Type 0 where
  pub is_leaf : Bool
  pub is_complete : Bool
  pub left : Option ℕ
  pub right : Option ℕ
  pub parent : Option ℕ
  pub depth : ℕ
  pub height : ℕ
  pub key_lo : ℕ
  pub key_hi : ℕ
  pub chunk : Option Chunk
  pub expected_hash : List ℕ
  pub computed_hash : List ℕ

-- `mtree_t`, less the height, which the code leaves at 0. `f_writable` is the protection of the
-- mapping at `f_data`.
pub record Mtree : Type 0 where
  pub root : Option ℕ
  pub nnodes : ℕ
  pub nchunks : ℕ
  pub nhashes : ℕ
  pub nodes : List Node
  pub f_data : List ℕ
  pub f_size : ℕ
  pub f_writable : Bool

-- `chunk_create` without data.
unfoldable pub chunk_create : ℕ → ℕ → Chunk
chunk_create size offset = record { data_ptr = none; size = size; offset = offset }

-- What the memory of a new node held, and the bytes behind the string that its hash is copied from.
pub record Raw : Type 0 where
  pub node : Node
  pub behind : List ℕ

-- `mtree_node_create` in the memory `mem`: `parent` and `key` keep what the memory held, the depth
-- that is passed is not stored, and 64 bytes are copied from the string, wherever it ends.
unfoldable pub mtree_node_create : Raw → Option (List ℕ) → Bool → ℕ → Option Chunk → Node
mtree_node_create mem expected is_leaf depth chunk = record mem.node {
  is_leaf = is_leaf;
  is_complete = false;
  left = none;
  right = none;
  depth = 0;
  height = 0;
  chunk = chunk;
  expected_hash = elim expected [
    | none ↦ replicate 64 0
    | some hash ↦ take 64 (hash ++ (0 ∷ mem.behind))
  ];
  computed_hash = replicate 64 0;
}

-- The `size` bytes at `data`, inside the mapped file.
abbrev pub read_chunk : List ℕ → Chunk → Run (List ℕ)
read_chunk f c = do
  at ← deref c.data_ptr
  if leb (at + c.size) (length f) then done (take c.size (drop at f)) else fault

-- The chunk hash of a leaf with the chunk `c`.
chunk_hash : List ℕ → Node → Option Chunk → Run Node
chunk_hash f n none = done n
chunk_hash f n (some c) = do
  bytes ← read_chunk f c
  done (record n { computed_hash = hex_digest (bytes ∷ []) })

-- `sha256_compute_chunk_hash`.
unfoldable pub compute_chunk_hash : List ℕ → Node → Run Node
unfolding chunk_hash
compute_chunk_hash f n = if n.is_leaf then chunk_hash f n n.chunk else done n

-- `sha256_compute_internal_hash`, on the two children of a node.
unfoldable pub internal_hash : Node → Node → List ℕ
internal_hash l r = hex_digest (l.computed_hash ∷ r.computed_hash ∷ [])

-- `nodes[i]`, read and changed in place.
abbrev pub node_at : List Node → ℕ → Run Node
node_at ns i = deref (get_elem? ns i)

abbrev pub change : ℕ → (Node → Node) → List Node → Run (List Node)
change i g ns = do n ← node_at ns i; done (set ns i (g n))

-- `sha256_compute_internal_hash(nodes[i])`.
unfoldable pub compute_internal_hash : List Node → ℕ → Run (List Node)
unfolding internal_hash
compute_internal_hash ns i = do
  n ← node_at ns i
  p ← deref n.left
  q ← deref n.right
  l ← node_at ns p
  r ← node_at ns q
  done (set ns i (record n { computed_hash = internal_hash l r }))

-- The key range of a node with the children `l` and `r`.
unfoldable pub key_range : Node → Node → Run (ℕ × ℕ)
key_range l r =
    if l.is_leaf
    then (do c ← deref l.chunk; d ← deref r.chunk; done (c.offset, d.offset))
    else done (l.key_lo, r.key_hi)

-- The metadata that `mtree_from_lvlorder` stores into `nodes[i]` once both children are built.
unfoldable pub set_metadata : ℕ → ℕ → List Node → Run (List Node)
unfolding key_range
set_metadata i depth ns = do
  n ← node_at ns i
  p ← deref n.left
  q ← deref n.right
  l ← node_at ns p
  r ← node_at ns q
  (lo, hi) ← key_range l r
  done (
      set ns i (record n {
        height = u16 (1 + max l.height r.height);
        depth = depth;
        key_lo = lo;
        key_hi = hi;
      }))

-- `sha256_compute_chunk_hash(nodes[i])`, behind `height = 0`.
unfoldable pub build_leaf : List ℕ → ℕ → List Node → Run (List Node)
unfolding compute_chunk_hash
build_leaf f i ns = do
  n ← node_at ns i
  n' ← compute_chunk_hash f (record n { height = 0 })
  done (set ns i n')

-- A child is stored on its side, and the parent into the child.
unfoldable pub link_left : ℕ → Option ℕ → List Node → Run (List Node)
link_left i child ns = do
  ns ← change i (λ n. record n { left = child }) ns
  c ← deref child
  change c (λ n. record n { parent = some i }) ns

unfoldable pub link_right : ℕ → Option ℕ → List Node → Run (List Node)
link_right i child ns = do
  ns ← change i (λ n. record n { right = child }) ns
  c ← deref child
  change c (λ n. record n { parent = some i }) ns

-- A call of `mtree_from_lvlorder`: the nodes after it, and the pointer that it returns.
abbrev pub Builder : Type 0
Builder = ℕ → ℕ → List Node → Run (List Node × Option ℕ)

-- Its branch for a node with two children. `rec` is the recursive call.
unfoldable pub build_inner : Builder → Builder
unfolding link_left link_right set_metadata compute_internal_hash
build_inner rec i depth ns = do
  (ns, l) ← rec (u32 (2 * i + 1)) (u16 (depth + 1)) ns
  ns ← link_left i l ns
  (ns, r) ← rec (u32 (2 * i + 2)) (u16 (depth + 1)) ns
  ns ← link_right i r ns
  ns ← set_metadata i depth ns
  ns ← compute_internal_hash ns i
  done (ns, some i)

-- Its body over the `nnodes` nodes of a file `f`.
unfoldable pub build_node : List ℕ → ℕ → Builder → Builder
unfolding build_inner build_leaf
build_node f nnodes rec i depth ns =
    if ltb i nnodes
    then (if ltb (u32 (2 * i + 1)) nnodes && ltb (u32 (2 * i + 2)) nnodes
        then build_inner rec i depth ns
        else (do ns ← build_leaf f i ns; done (ns, some i)))
    else done (ns, none)

unfoldable pub from_lvlorder : List ℕ → ℕ → ℕ → Builder
unfolding build_node
from_lvlorder f nnodes zero i depth ns = out_of_fuel
from_lvlorder f nnodes (suc fuel) i depth ns =
    build_node f nnodes (from_lvlorder f nnodes fuel) i depth ns

-- `init_chunks_data`: chunk `i` of the remaining `n`, at `nodes[nhashes + i]`.
unfoldable pub init_chunks : List ℕ → ℕ → ℕ → ℕ → List Node → Run (List Node)
unfolding compute_chunk_hash
init_chunks f nhashes zero i ns = done ns
init_chunks f nhashes (suc n) i ns = do
  node ← node_at ns (nhashes + i)
  c ← or_fail node.chunk
  node' ←
      compute_chunk_hash f (record node { chunk = some (record c { data_ptr = some c.offset }) })
  init_chunks f nhashes n (i + 1) (set ns (nhashes + i) node')

-- `mtree_build` once the file is mapped, with PROT_READ alone; `nnodes` rounds are enough fuel.
unfoldable pub mtree_build : Mtree → Run Mtree
unfolding init_chunks from_lvlorder
mtree_build t = do
  ns ← init_chunks t.f_data t.nhashes t.nchunks 0 t.nodes
  (ns, root) ← from_lvlorder t.f_data t.nnodes t.nnodes 0 0 ns
  r ← or_fail root
  done (record t { nodes = ns; root = some r; f_writable = false })

-- `check_chunk`.
unfoldable pub check_chunk : Node → Bool
check_chunk n = strn_eq 64 n.expected_hash n.computed_hash

-- `update_parent_hashes`, with fuel.
unfoldable pub update_parent_hashes : ℕ → ℕ → List Node → Run (List Node)
unfolding compute_internal_hash
update_parent_hashes zero i ns = out_of_fuel
update_parent_hashes (suc fuel) i ns = do
  n ← node_at ns i
  elim n.parent [
    | none ↦ done ns
    | some p ↦ (do ns ← compute_internal_hash ns p; update_parent_hashes fuel p ns)
  ]

-- The file once `n` bytes are copied to `offset`.
abbrev pub written : List ℕ → ℕ → List ℕ → ℕ → List ℕ
written f offset newdata n = take offset f ++ (take n newdata ++ drop (offset + n) f)

-- The `memcpy` of `update_chunk_node` into the mapped file; a write to a read-only mapping and an
-- access outside the file or the data are faults.
unfoldable pub store_bytes : Bool → List ℕ → ℕ → List ℕ → ℕ → Run (List ℕ)
store_bytes writable f offset newdata n =
    if n == 0
    then done f
    else (if writable && (leb (offset + n) (length f) && leb n (length newdata))
        then done (written f offset newdata n)
        else fault)

-- The chunk of a node that has to be a leaf.
unfoldable pub leaf_chunk : Node → Run Chunk
leaf_chunk n = do _ ← guard n.is_leaf; deref n.chunk

-- `update_chunk_node`, where the node pointer may be null; -1 is `fail`.
unfoldable pub update_chunk_node : Mtree → Option ℕ → List ℕ → ℕ → ℕ → Run Mtree
update_chunk_node t chunk_node newdata data_size offset = do
  i ← deref chunk_node
  n ← node_at t.nodes i
  c ← leaf_chunk n
  f ← store_bytes t.f_writable t.f_data offset newdata (min data_size c.size)
  n' ← compute_chunk_hash f n
  ns ← update_parent_hashes t.nnodes i (set t.nodes i n')
  done (record t { nodes = ns; f_data = f })
