-- ===== src/Merkle/Load.antt =====
-- `init_chunks_data` and `mtree_build`: from the nodes that a package file lists to a Merkle tree.
use peer_file_torrent.Base.{
  ℕ, zero, suc, ◌+◌, ◌≤◌, ◌<◌, ◌≡◌, refl, sym, ap, ◌∙◌, subst, ◌∷◌, ℕ_discrete, true, Option, none,
  some, List, [], arith, leb, length, take, drop, set, get_elem?, done, Ensures, ensured, and_then,
}
use peer_file_torrent.Sha256.{hex_digest}
use peer_file_torrent.Merkle.{Chunk, Node, Mtree, init_chunks, mtree_build}
use peer_file_torrent.Merkle.Facts.{At, shaped, final, parented, IsShaped, Known, set_at, At-set}
use peer_file_torrent.Merkle.Spec.{size, merkle_hash, merkle_hash_inner, merkle_hash_leaf}
use peer_file_torrent.Merkle.Steps.{compute_chunk_hash-leaf}
use peer_file_torrent.Merkle.Build.{from_lvlorder_root}

-- The bytes of a chunk in the file `f`.
unfoldable pub chunk_bytes : List ℕ → Option Chunk → List ℕ
chunk_bytes f none = []
chunk_bytes f (some c) = take c.size (drop c.offset f)

-- The contents of the leaves, by their index.
unfoldable pub contents : List ℕ → List Node → ℕ → List ℕ
unfolding chunk_bytes
contents f ns j = elim (get_elem? ns j) [ none ↦ [] | some n ↦ chunk_bytes f n.chunk ]

-- A node as a package file lists it: inner nodes first, then leaves with chunks inside the file.
pub record IsListed (f : List ℕ) (nhashes : ℕ) (j : ℕ) (n : Node) : Type 0 where
  pub flag : n.is_leaf ≡ leb nhashes j
  pub inside : nhashes ≤ j → (c : Chunk) × (n.chunk ≡ some c) × (c.offset + c.size ≤ length f)

-- A tree that is ready to be built: one chunk more than hashes, and every node listed.
pub record IsLoaded (t : Mtree) : Type 0 where
  pub complete : t.nchunks ≡ t.nhashes + 1
  pub whole : t.nnodes ≡ size t.nhashes
  pub small : t.nhashes < 1073741824
  pub listed : (j : ℕ) → j < t.nnodes → At t.nodes j (IsListed t.f_data t.nhashes j)

-- A tree over leaves with the contents `bytes`, in which every node has its Merkle hash and its
-- children (`final`), its leaf flag and chunk (`shaped`), and its parent if it is not the root.
pub record IsMerkle (bytes : ℕ → List ℕ) (t : Mtree) : Type 0 where
  pub root : t.root ≡ some 0
  pub whole : t.nnodes ≡ size t.nhashes
  pub small : t.nhashes < 1073741824
  pub finals :
      (j : ℕ)
      → j < size t.nhashes
      → Known t.f_data t.nhashes bytes (merkle_hash t.nhashes bytes) t.nodes final j
  pub shapes :
      (j : ℕ)
      → j < size t.nhashes
      → Known t.f_data t.nhashes bytes (merkle_hash t.nhashes bytes) t.nodes shaped j
  pub parents :
      (j : ℕ)
      → 0 < j
      → j < size t.nhashes
      → Known t.f_data t.nhashes bytes (merkle_hash t.nhashes bytes) t.nodes parented j

module _ (f : List ℕ) (nhashes : ℕ) (bytes wanted : ℕ → List ℕ) where
  abbrev Know : List Node → ℕ → Type 0
  Know ns j = Known f nhashes bytes wanted ns shaped j

  -- A listed node with the content `bytes j`.
  abbrev Ready : List Node → ℕ → Type 0
  Ready ns j = At ns j (λ n. IsListed f nhashes j n × (chunk_bytes f n.chunk ≡ bytes j))

  -- The leaves before `done_to` have their data pointers.
  abbrev Progress : ℕ → List Node → Type 0
  Progress done_to ns =
      (j : ℕ) → j < size nhashes → (j < done_to → Know ns j) × (done_to ≤ j → Ready ns j)

  Ready-inner : (ns : List Node) (j : ℕ) → j < nhashes → Ready ns j → Know ns j
  Ready-inner ns j h (n, at, (l, e)) =
      (n, at, record { flag = l.flag; content = λ p. absurd (omega arith) })

  -- A chunk with its data pointer is read.
  pointed-IsShaped :
      (j : ℕ) (n : Node) (c : Chunk)
      → IsListed f nhashes j n
      → n.chunk ≡ some c
      → c.offset + c.size ≤ length f
      → chunk_bytes f n.chunk ≡ bytes j
      → IsShaped f nhashes bytes wanted j
          (record n { chunk = some (record c { data_ptr = some c.offset }) })
  unfolding chunk_bytes
  pointed-IsShaped j n c l has fits e =
      let ok : leb (c.offset + c.size) (length f) ≡ true = ground arith in
      record {
        flag = l.flag;
        content = λ h. (
          record c { data_ptr = some c.offset },
          refl,
          rw ok (ap done (ap (chunk_bytes f) (sym has) ∙ e)),
        );
      }

  Progress-set :
      (j : ℕ) (ns : List Node) {n : Node} (n' : Node)
      → get_elem? ns j ≡ some n
      → IsShaped f nhashes bytes wanted j n'
      → Progress j ns
      → Progress (suc j) (set ns j n')
  Progress-set j ns n' at shape p k h = (
    λ before. elim (ℕ_discrete j k) [
      | yes same ↦ subst (Know (set ns j n')) same (set_at ns j n' at shape)
      | no other ↦ At-set ns j n' k at (λ same. absurd (other same)) ((p k h).0 (omega arith))
    ],
    λ after. At-set ns j n' k at (λ same. absurd (omega arith)) ((p k h).1 (omega arith)),
  )

  init_chunks-Progress :
      (left i : ℕ) (ns : List Node)
      → i + left ≡ nhashes + 1
      → Progress (nhashes + i) ns
      → Ensures (Progress (size nhashes)) (init_chunks f nhashes left i ns)
  unfolding init_chunks
  init_chunks-Progress zero i ns e p =
      let all : nhashes + i ≡ size nhashes = omega arith in
      ensured (subst (λ (k : ℕ). Progress k ns) all p)
  init_chunks-Progress (suc left) i ns e p =
      let j = nhashes + i in
      let (n, at, (l, b)) = (p j (omega arith)).1 (omega arith) in
      let (c, has, fits) = l.inside (omega arith) in
      let n1 = record n { chunk = some (record c { data_ptr = some c.offset }) } in
      let s = pointed-IsShaped j n c l has fits b in
      let n2 = record n1 { computed_hash = hex_digest (bytes j ∷ []) } in
      let next : suc (nhashes + i) ≡ nhashes + (i + 1) = omega arith in
      rw (at) (
        rw has (
          rw (compute_chunk_hash-leaf f nhashes bytes wanted j n1 s (omega arith)) (
            init_chunks-Progress left (i + 1) (set ns j n2) (omega arith) (
              subst (λ (k : ℕ). Progress k (set ns j n2)) next
                (Progress-set j ns n2 at (record { flag = s.flag; content = s.content }) p)))))

IsLoaded-Progress :
    (t : Mtree)
    → IsLoaded t
    → Progress t.f_data t.nhashes
        (contents t.f_data t.nodes)
        (merkle_hash t.nhashes (contents t.f_data t.nodes))
        (t.nhashes + 0)
        t.nodes
unfolding contents
IsLoaded-Progress t l j h =
    let bytes = contents t.f_data t.nodes in
    let wanted = merkle_hash t.nhashes bytes in
    let (n, at, listed) = l.listed j (rw (l.whole) h) in
    let ready : Ready t.f_data t.nhashes bytes wanted t.nodes j =
      (n, at, (listed, rw (at, contents))) in
    (
      λ before. Ready-inner t.f_data t.nhashes bytes wanted t.nodes j (omega arith) ready,
      λ after. ready,
    )

-- From nodes that are listed completely, `mtree_build` returns a Merkle tree over the contents of
-- the file: the root is node 0, every leaf has the SHA-256 of its chunk and every inner node that of
-- its children's hashes, and the child and parent pointers are those of the level order. The file
-- and the number of hashes are kept.
pub mtree_build-IsMerkle :
    (t : Mtree)
    → IsLoaded t
    → Ensures
        (λ t'.
          IsMerkle (contents t.f_data t.nodes) t'
          × (t'.nhashes ≡ t.nhashes)
          × (t'.f_data ≡ t.f_data))
        (mtree_build t)
unfolding mtree_build
mtree_build-IsMerkle t l =
    let bytes = contents t.f_data t.nodes in
    let wanted = merkle_hash t.nhashes bytes in
    rw (l.complete, l.whole)
      (and_then
        (init_chunks-Progress t.f_data t.nhashes bytes wanted (t.nhashes + 1) 0 t.nodes
          (omega arith) (IsLoaded-Progress t l))
        λ ns p.
          and_then
            (from_lvlorder_root t.f_data t.nhashes bytes wanted l.small
              (merkle_hash_inner t.nhashes bytes) (merkle_hash_leaf t.nhashes bytes) ns
              (λ j h. (p j h).0 h))
            λ (ns', r) (e, known, linked). rw e (
              ensured (
                record {
                  root = refl;
                  whole = refl;
                  small = l.small;
                  finals = λ j h. (known j h).0;
                  shapes = λ j h. (known j h).1;
                  parents = linked;
                },
                refl,
                refl,
              )))
