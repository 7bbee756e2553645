-- ===== src/Merkle/Update.antt =====
-- `update_chunk_node` on the trees that `mtree_build` returns.
use peer_file_torrent.Base.{
  ℕ, ◌<◌, ◌≡◌, refl, true, false, Option, none, some, List, arith, ◌==◌, min, get_elem?, Run, done,
  fail, fault, out_of_fuel, or_fail, ◌>>=◌,
}
use peer_file_torrent.Merkle.{
  Chunk, Node, Mtree, store_bytes, update_chunk_node, mtree_build, leaf_chunk, init_chunks,
  from_lvlorder,
}

leaf_chunk_lem :
    (m : Node) (c : Chunk) → m.is_leaf ≡ true → m.chunk ≡ some c → leaf_chunk m ≡ done c
unfolding leaf_chunk
leaf_chunk_lem m c flag has = rw (flag, has) refl

-- A run that ends with a read-only tree, if it ends.
read_only :
    (t t' : Mtree) (r : Run (List Node × Option ℕ))
    → (do
      (ns, root) ← r
      at ← or_fail root
      done (record t { nodes = ns; root = some at; f_writable = false }))
      ≡ done t'
    → t'.f_writable ≡ false
read_only t t' (done (ns, some at)) e = cc
read_only t t' (done (ns, none)) e = cc
read_only t t' fail e = cc
read_only t t' fault e = cc
read_only t t' out_of_fuel e = cc

read_only_after :
    (t t' : Mtree) (r : Run (List Node)) (k : List Node → Run (List Node × Option ℕ))
    → (do
      ns ← r
      (ns, root) ← k ns
      at ← or_fail root
      done (record t { nodes = ns; root = some at; f_writable = false }))
      ≡ done t'
    → t'.f_writable ≡ false
read_only_after t t' (done ns) k e = read_only t t' (k ns) e
read_only_after t t' fail k e = cc
read_only_after t t' fault k e = cc
read_only_after t t' out_of_fuel k e = cc

mtree_build-read_only : (t t' : Mtree) → mtree_build t ≡ done t' → t'.f_writable ≡ false
unfolding mtree_build
mtree_build-read_only t t' e =
    read_only_after t t' (init_chunks t.f_data t.nhashes t.nchunks 0 t.nodes)
      (from_lvlorder t.f_data t.nnodes t.nnodes 0 0) e

-- On a tree that `mtree_build` returns, a write of at least one byte to a leaf with a chunk faults:
-- the file is mapped with PROT_READ alone.
pub update_chunk_node-mtree_build :
    (t t' : Mtree) (p : ℕ) (m : Node) (c : Chunk) (d : List ℕ) (data_size offset : ℕ)
    → mtree_build t ≡ done t'
    → get_elem? t'.nodes p ≡ some m
    → m.is_leaf ≡ true
    → m.chunk ≡ some c
    → 0 < min data_size c.size
    → update_chunk_node t' (some p) d data_size offset ≡ fault
unfolding update_chunk_node store_bytes
update_chunk_node-mtree_build t t' p m c d data_size offset built at flag has pos =
    let test : (min data_size c.size == 0) ≡ false = ground arith in
    rw (at) (rw (leaf_chunk_lem m c flag has, test, mtree_build-read_only t t' built))
