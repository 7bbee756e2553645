-- ===== src/Query/Tree.antt =====
-- The queries of a package on the tree that `mtree_build` makes.
use peer_file_torrent.Base.{
  ℕ, zero, suc, ◌+◌, ◌*◌, ◌≤◌, ◌<◌, ◌≡◌, refl, subst, Option, none, some, List, [], arith, length,
  u16, Ensures, ensured, and_then,
}
use peer_file_torrent.Merkle.{Node, Mtree}
use peer_file_torrent.Merkle.Load.{IsMerkle}
use peer_file_torrent.Query.{
  bpkg_qry_create, bpkg_get_min_completed_hashes, get_subtree_chunks, all, mode_count,
  bpkg_get_all_chunk_hashes_from_hash,
}
use peer_file_torrent.Query.Find.{IsFirst, find_node_from_hash-IsFirst}
use peer_file_torrent.Query.Complete.{
  IsLinked, IsMinimal, IsLeaves, Named, get_largest_completed_subtree-IsMinimal,
  get_subtree_chunks-IsLeaves,
}

predecessor : (n : ℕ) → 0 < n → (k : ℕ) × (n ≡ suc k)
predecessor zero h = absurd (omega arith)
predecessor (suc k) h = (k, refl)

-- A Merkle tree has the flags and links of the level order.
pub IsMerkle-IsLinked :
    (bytes : ℕ → List ℕ) (t : Mtree) → IsMerkle bytes t → IsLinked t.nodes t.nhashes
IsMerkle-IsLinked bytes t whole = record {
  at = λ j h.
      let (n, at, s) = whole.shapes j h in
      let (m, at', (hash, links)) = whole.finals j h in
      let same : m ≡ n = cc in
      (
        n,
        at,
        (
          s.flag,
          λ inner.
              subst (λ (x : Node). (x.left ≡ some (2 * j + 1)) × (x.right ≡ some (2 * j + 2))) same
                (links inner),
        ),
      );
}

-- On a Merkle tree, the query for the minimum set of completed hashes returns the expected hashes of
-- complete nodes that have no complete node above them, such that every complete node lies under one
-- of them; its length is their number modulo 2^16.
pub bpkg_get_min_completed_hashes-IsMinimal :
    (t : Mtree) (bytes : ℕ → List ℕ)
    → IsMerkle bytes t
    → Ensures
        (λ q.
          Named t.nodes t.nhashes (IsMinimal t.nodes t.nhashes 0) q.hashes
          × (q.len ≡ u16 (length q.hashes)))
        (bpkg_get_min_completed_hashes t)
unfolding bpkg_get_min_completed_hashes bpkg_qry_create
bpkg_get_min_completed_hashes-IsMinimal t bytes whole =
    let linked = IsMerkle-IsLinked bytes t whole in
    let e = whole.whole in
    rw (whole.root) (
      and_then
        (get_largest_completed_subtree-IsMinimal t.nodes t.nhashes linked t.nnodes 0 (omega arith)
          (omega arith))
        λ hashes named. ensured (named, refl))

-- The leaves under the node that was found.
abbrev pub Answers : Mtree → Option ℕ → List (List ℕ) → Type 0
Answers t none hashes = hashes ≡ []
Answers t (some i) hashes = Named t.nodes t.nhashes (IsLeaves t.nodes t.nhashes i) hashes

chunks_of :
    (t : Mtree) {bytes : ℕ → List ℕ}
    → IsMerkle bytes t
    → IsLinked t.nodes t.nhashes
    → (query_hash : List ℕ) (o : Option ℕ) → IsFirst t.nodes query_hash 0 t.nnodes o
    → Ensures (Answers t o) (get_subtree_chunks t.nnodes t.nodes o)
unfolding get_subtree_chunks
chunks_of t whole linked query_hash none first =
    let e = whole.whole in
    let (k, positive) = predecessor t.nnodes (omega arith) in rw positive (ensured refl)
chunks_of t whole linked query_hash (some i) (low, high, _, _) =
    let e = whole.whole in
    get_subtree_chunks-IsLeaves t.nodes t.nhashes linked t.nnodes i (omega arith) (omega arith)

-- On a Merkle tree with fewer than 65536 nodes, the query for the chunks of a hash returns nothing if
-- no node has the hash, and otherwise the expected hashes of the leaves under the first such node.
pub bpkg_get_all_chunk_hashes_from_hash-IsLeaves :
    (t : Mtree) (bytes : ℕ → List ℕ) (query_hash : List ℕ)
    → IsMerkle bytes t
    → t.nnodes < 65536
    → t.nnodes ≤ length t.nodes
    → Ensures
        (λ q.
          (o : Option ℕ) × IsFirst t.nodes query_hash 0 t.nnodes o
          × Answers t o q.hashes
          × (q.len ≡ u16 (length q.hashes)))
        (bpkg_get_all_chunk_hashes_from_hash t query_hash)
unfolding bpkg_get_all_chunk_hashes_from_hash bpkg_qry_create mode_count
bpkg_get_all_chunk_hashes_from_hash-IsLeaves t bytes query_hash whole small enough =
    let linked = IsMerkle-IsLinked bytes t whole in
    let count : u16 (mode_count t all) ≡ t.nnodes = omega arith in
    let found = find_node_from_hash-IsFirst t query_hash all (omega arith) in
    and_then found λ o first.
      and_then
        (chunks_of t whole linked query_hash o
          (subst (λ (n : ℕ). IsFirst t.nodes query_hash 0 n o) count first))
        λ hashes answer.
          ensured (o, subst (λ (n : ℕ). IsFirst t.nodes query_hash 0 n o) count first, answer, refl)
