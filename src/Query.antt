-- ===== src/Query.antt =====
-- src/chk/pkg_helper.c and src/chk/pkgchk.c: queries of the tree of a loaded package. A C array of
-- strings with its count is a list.
pub mod Find
pub mod Complete
pub mod Tree
use peer_file_torrent.Base.{
  ℕ, zero, suc, ◌+◌, ◌-◌, ◌*◌, ◌≤◌, Bool, true, false, ◌&&◌, Option, none, some, List, [], ◌∷◌,
  ◌++◌, leb, ltb, ◌==◌, if◌then◌else◌, length, get_elem?, strn_eq, u16, Run, done, fail, fault,
  out_of_fuel, ◌>>=◌, deref,
}
use peer_file_torrent.Merkle.{Chunk, Node, Mtree, node_at, check_chunk}

-- `bpkg_query_t`, and `bpkg_qry_create`: the length is cut to 16 bits.
pub record BpkgQuery : Type 0 where
  pub hashes : List (List ℕ)
  pub len : ℕ

unfoldable pub bpkg_qry_create : List (List ℕ) → ℕ → BpkgQuery
bpkg_qry_create hashes len = record { hashes = hashes; len = u16 len }

-- `merge_arrays`, on the arrays of two children: when one of them is empty the other is returned.
unfoldable pub merge_found : List (List ℕ) → List (List ℕ) → List (List ℕ)
merge_found l r =
    if ltb 0 (length l) && ltb 0 (length r) then l ++ r else (if ltb 0 (length r) then r else l)

-- `bpkg_get_largest_completed_subtree` at a node; `rec` is the recursive call.
unfoldable pub largest_at : (Option ℕ → Run (List (List ℕ))) → Node → Run (List (List ℕ))
largest_at rec n =
    if check_chunk n
    then done (n.expected_hash ∷ [])
    else (if n.is_leaf
        then done []
        else (do l ← rec n.left; r ← rec n.right; done (merge_found l r)))

-- With fuel for the depth of the tree.
unfoldable pub get_largest_completed_subtree : ℕ → List Node → Option ℕ → Run (List (List ℕ))
get_largest_completed_subtree zero ns root = out_of_fuel
get_largest_completed_subtree (suc fuel) ns root = do
  i ← deref root
  n ← node_at ns i
  largest_at (get_largest_completed_subtree fuel ns) n

-- `bpkg_get_subtree_chunks`, likewise.
unfoldable pub chunks_at : (Option ℕ → Run (List (List ℕ))) → Node → Run (List (List ℕ))
chunks_at rec n =
    if n.is_leaf
    then done (n.expected_hash ∷ [])
    else (do l ← rec n.left; r ← rec n.right; done (merge_found l r))

unfoldable pub get_subtree_chunks : ℕ → List Node → Option ℕ → Run (List (List ℕ))
get_subtree_chunks zero ns root = out_of_fuel
get_subtree_chunks (suc fuel) ns none = done []
get_subtree_chunks (suc fuel) ns (some i) = do
  n ← node_at ns i
  chunks_at (get_subtree_chunks fuel ns) n

-- The modes of `bpkg_find_node_from_hash`.
pub data Mode : Type 0 where
  all internal chunk : Mode

unfoldable pub mode_count : Mtree → Mode → ℕ
mode_count t all = t.nnodes
mode_count t internal = t.nhashes
mode_count t chunk = t.nchunks

-- The loop over `nodes[i]` with `n` rounds left.
unfoldable pub find_from : List Node → List ℕ → ℕ → ℕ → Run (Option ℕ)
find_from ns query_hash zero i = done none
find_from ns query_hash (suc n) i = do
  node ← node_at ns i
  let rest = find_from ns query_hash n (i + 1)
  if strn_eq 64 node.expected_hash query_hash then done (some i) else rest

-- `bpkg_find_node_from_hash`: every mode searches `nodes` from its start, and the count has 16 bits.
unfoldable pub find_node_from_hash : Mtree → List ℕ → Mode → Run (Option ℕ)
find_node_from_hash t query_hash mode = find_from t.nodes query_hash (u16 (mode_count t mode)) 0

-- A child is searched when its key range has the offset.
unfoldable pub in_range : List Node → Option ℕ → ℕ → Run Bool
in_range ns none offset = done false
in_range ns (some i) offset = do n ← node_at ns i; done (leb n.key_lo offset && leb offset n.key_hi)

-- `bpkg_find_node_from_hash_offset`, with fuel for the depth of the tree.
unfoldable pub find_node_from_hash_offset : ℕ → List Node → Option ℕ → List ℕ → ℕ → Run (Option ℕ)
find_node_from_hash_offset zero ns root query_hash offset = out_of_fuel
find_node_from_hash_offset (suc fuel) ns none query_hash offset = done none
find_node_from_hash_offset (suc fuel) ns (some i) query_hash offset = do
  n ← node_at ns i
  elim (strn_eq 64 n.expected_hash query_hash) [
    | true ↦ done (some i)
    | false ↦ elim n.is_leaf [
      | true ↦ done none
      | false ↦ (do
        go_left ← in_range ns n.left offset
        l ← elim go_left [
          | true ↦ find_node_from_hash_offset fuel ns n.left query_hash offset
          | false ↦ done none
        ]
        elim l [
          | some found ↦ done (some found)
          | none ↦ (do
            go_right ← in_range ns n.right offset
            elim go_right [
              | true ↦ find_node_from_hash_offset fuel ns n.right query_hash offset
              | false ↦ done none
            ])
        ])
    ]
  ]

-- The loops of `bpkg_get_all_hashes` and `bpkg_get_completed_chunks` with `n` rounds left.
unfoldable pub all_hashes_from : List Node → ℕ → ℕ → Run (List (List ℕ))
all_hashes_from ns zero i = done []
all_hashes_from ns (suc n) i = do
  node ← node_at ns i
  rest ← all_hashes_from ns n (i + 1)
  done (node.expected_hash ∷ rest)

unfoldable pub bpkg_get_all_hashes : Mtree → Run BpkgQuery
bpkg_get_all_hashes t = do
  hashes ← all_hashes_from t.nodes t.nnodes 0
  done (bpkg_qry_create hashes t.nnodes)

unfoldable pub completed_from : List Node → ℕ → ℕ → Run (List (List ℕ))
completed_from ns zero i = done []
completed_from ns (suc n) i = do
  node ← node_at ns i
  rest ← completed_from ns n (i + 1)
  done (if check_chunk node then node.expected_hash ∷ rest else rest)

unfoldable pub bpkg_get_completed_chunks : Mtree → Run BpkgQuery
bpkg_get_completed_chunks t = do
  hashes ← completed_from t.nodes t.nchunks t.nhashes
  done (bpkg_qry_create hashes (length hashes))

-- `bpkg_get_min_completed_hashes` and `bpkg_get_all_chunk_hashes_from_hash`; a tree of `nnodes` nodes
-- is less deep than `nnodes`.
unfoldable pub bpkg_get_min_completed_hashes : Mtree → Run BpkgQuery
bpkg_get_min_completed_hashes t = do
  hashes ← get_largest_completed_subtree t.nnodes t.nodes t.root
  done (bpkg_qry_create hashes (length hashes))

unfoldable pub bpkg_get_all_chunk_hashes_from_hash : Mtree → List ℕ → Run BpkgQuery
bpkg_get_all_chunk_hashes_from_hash t query_hash = do
  node ← find_node_from_hash t query_hash all
  hashes ← get_subtree_chunks t.nnodes t.nodes node
  done (bpkg_qry_create hashes (length hashes))
