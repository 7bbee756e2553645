-- ===== src/Unpack/Shape.antt =====
-- What the nodes of an unpacked package look like.
use peer_file_torrent.Base.{
  drop, ℕ, zero, suc, ◌+◌, ◌≡◌, refl, ap, ◌∙◌, arith, Bool, true, false, ◌&&◌, ltb, Option, none,
  some, List, [], ◌∷◌, ◌++◌, u32, length, take, set, replicate, length-set, length-take,
  length-replicate, All, if◌then◌else◌, Run, Returns, returned, faulting, starved, Returns-then,
  after,
}
use peer_file_torrent.Strings.{trim_whitespace}
use peer_file_torrent.Merkle.{Chunk, Node, Mtree, chunk_create, mtree_node_create}
use peer_file_torrent.Unpack.{
  Unused, overflows, store_ident, scan_word, Draft, Step, stored, hashes_follow, chunks_follow,
  bpkg_create, read_hashes, read_chunks, scan_chunk, read_line, starts, key_ident, key_filename,
  key_size, key_nhashes, key_hashes, key_nchunks, key_chunks, unpack_step, unpack_lines, all_filled,
  combine_nodes, lines_from, bpkg_unpack,
}

-- A hash node, and a chunk node.
abbrev pub IsInner : Node → Type 0
IsInner n = n.is_leaf ≡ false

abbrev pub IsLeaf : Node → Type 0
IsLeaf n = (n.is_leaf ≡ true) × ((c : Chunk) × (n.chunk ≡ some c))

-- An entry that is filled has the property.
abbrev Filled : (Node → Type 0) → Option Node → Type 0
Filled P none = Unit
Filled P (some n) = P n

module _ (P : Node → Type 0) where
  set-All :
      (xs : List (Option Node)) (i : ℕ) (n : Node)
      → All (Filled P) xs
      → P n
      → All (Filled P) (set xs i (some n))
  set-All [] i n h own = tt
  set-All (x ∷ xs) zero n (hx, h) own = (own, h)
  set-All (x ∷ xs) (suc i) n (hx, h) own = (hx, set-All xs i n h own)

  take-All : (k : ℕ) (xs : List (Option Node)) → All (Filled P) xs → All (Filled P) (take k xs)
  take-All zero xs h = tt
  take-All (suc k) [] h = tt
  take-All (suc k) (x ∷ xs) (hx, h) = (hx, take-All k xs h)

  replicate-All : (k : ℕ) → All (Filled P) (replicate k none)
  replicate-All zero = tt
  replicate-All (suc k) = (tt, replicate-All k)

  all_filled-All :
      (xs : List (Option Node))
      → All (Filled P) xs
      → Returns (λ ns. All P ns × (length ns ≡ length xs)) (all_filled xs)
  unfolding all_filled
  all_filled-All [] h = returned (tt, refl)
  all_filled-All (none ∷ xs) h = faulting
  all_filled-All (some n ∷ xs) (hn, h) =
      Returns-then (all_filled-All xs h) λ ns (all, e). returned ((hn, all), ap suc e)

-- An array of as many entries as counted, of which those that are filled have the property.
abbrev IsArray : (Node → Type 0) → ℕ → List (Option Node) → Type 0
IsArray P n xs = All (Filled P) xs × (length xs ≡ n)

record IsDraft (d : Draft) : Type 0 where
  hashes : IsArray IsInner d.nhashes d.hsh_nodes
  chunks : IsArray IsLeaf d.nchunks d.chk_nodes

read_hashes-IsArray :
    (mem : Unused) (n i k : ℕ) (hsh : List (Option Node)) (lines : List (List ℕ))
    → IsArray IsInner k hsh
    → IsArray IsInner k (read_hashes mem n i hsh lines).0
unfolding read_hashes mtree_node_create
read_hashes-IsArray mem zero i k hsh lines h = h
read_hashes-IsArray mem (suc n) i k hsh [] h = h
read_hashes-IsArray mem (suc n) i k hsh (line ∷ lines) (h, e) =
    let node = mtree_node_create (mem false i) (some (trim_whitespace line)) false 0 none in
    read_hashes-IsArray mem n (i + 1) k (set hsh i (some node)) lines
      (set-All IsInner hsh i node h refl, length-set hsh i (some node) ∙ e)

read_chunks-IsArray :
    (mem : Unused) (n i k : ℕ) (chk : List (Option Node)) (lines : List (List ℕ))
    → IsArray IsLeaf k chk
    → Returns (λ (chk', rest). IsArray IsLeaf k chk') (read_chunks mem n i chk lines)
unfolding read_chunks mtree_node_create
read_chunks-IsArray mem zero i k chk lines h = returned h
read_chunks-IsArray mem (suc n) i k chk [] h = returned h
read_chunks-IsArray mem (suc n) i k chk (line ∷ lines) (h, e) =
    after (scan_chunk (trim_whitespace line)) λ (hash, offset, size).
      let c = chunk_create size offset in
      let node = mtree_node_create (mem true i) (some hash) true 0 (some c) in
      read_chunks-IsArray mem n (i + 1) k (set chk i (some node)) lines
        (set-All IsLeaf chk i node h (refl, (c, refl)), length-set chk i (some node) ∙ e)

-- What a line stores, or which loop it starts, on a draft.
data IsStep : Step → Type 0 where
  on_overflow : IsStep overflows
  on_stored : {d : Draft} → IsDraft d → IsStep (stored d)
  on_hashes : {d : Draft} → IsDraft d → IsStep (hashes_follow d)
  on_chunks : {d : Draft} → IsDraft d → IsStep (chunks_follow d)

if-IsStep : {a b : Step} (test : Bool) → IsStep a → IsStep b → IsStep (if test then a else b)
if-IsStep true h h' = h
if-IsStep false h h' = h'

fresh-IsArray : (P : Node → Type 0) (n : ℕ) → IsArray P n (replicate n none)
fresh-IsArray P n = (replicate-All P n, length-replicate {A = Option Node} n none)

store_ident-IsStep : (d : Draft) (s : List ℕ) → IsDraft d → IsStep (store_ident d s)
unfolding store_ident
store_ident-IsStep d s h =
    if-IsStep (ltb 4095 (length (scan_word s []))) on_overflow
      (on_stored (record { hashes = h.hashes; chunks = h.chunks }))

read_line-IsStep : (d : Draft) (line : List ℕ) → IsDraft d → IsStep (read_line d line)
unfolding read_line
read_line-IsStep d line h =
    if-IsStep (starts line key_ident) (store_ident-IsStep d (drop 6 line) h) (
      if-IsStep (starts line key_filename)
        (on_stored (record { hashes = h.hashes; chunks = h.chunks }))
        (if-IsStep (starts line key_size)
          (on_stored (record { hashes = h.hashes; chunks = h.chunks }))
          (if-IsStep (starts line key_nhashes)
            (on_stored (record { hashes = fresh-IsArray IsInner _; chunks = h.chunks }))
            (if-IsStep (starts line key_hashes && ltb 0 d.nhashes) (on_hashes h) (
              if-IsStep (starts line key_nchunks)
                (on_stored (record { hashes = h.hashes; chunks = fresh-IsArray IsLeaf _ }))
                (if-IsStep (starts line key_chunks) (on_chunks h) (on_stored h)))))))

unpack_step-IsDraft :
    (rec : Draft → List (List ℕ) → Run Draft) (mem : Unused) (s : Step) (lines : List (List ℕ))
    → ((d : Draft) (ls : List (List ℕ)) → IsDraft d → Returns IsDraft (rec d ls))
    → IsStep s
    → Returns IsDraft (unpack_step rec mem s lines)
unfolding unpack_step
unpack_step-IsDraft rec mem overflows lines later on_overflow = faulting
unpack_step-IsDraft rec mem (stored d) lines later (on_stored h) = later d lines h
unpack_step-IsDraft rec mem (hashes_follow d) lines later (on_hashes h) = later _ _ (record {
  hashes = read_hashes-IsArray mem d.nhashes 0 d.nhashes d.hsh_nodes lines h.hashes;
  chunks = h.chunks;
})
unpack_step-IsDraft rec mem (chunks_follow d) lines later (on_chunks h) =
    Returns-then (read_chunks-IsArray mem d.nchunks 0 d.nchunks d.chk_nodes lines h.chunks)
      λ (chk, rest) filled. later _ rest (record { hashes = h.hashes; chunks = filled })

unpack_lines-IsDraft :
    (fuel : ℕ) (mem : Unused) (d : Draft) (lines : List (List ℕ))
    → IsDraft d
    → Returns IsDraft (unpack_lines fuel mem d lines)
unfolding unpack_lines
unpack_lines-IsDraft fuel mem d [] h = returned h
unpack_lines-IsDraft zero mem d (line ∷ lines) h = starved
unpack_lines-IsDraft (suc fuel) mem d (line ∷ lines) h =
    unpack_step-IsDraft (unpack_lines fuel mem) mem (read_line d line) lines
      (λ d' ls h'. unpack_lines-IsDraft fuel mem d' ls h') (read_line-IsStep d line h)

-- The nodes are as many as counted: first the hash nodes, which are not leaves, then the chunk nodes,
-- which are leaves with a chunk.
pub record IsUnpacked (t : Mtree) : Type 0 where
  pub nnodes : t.nnodes ≡ u32 (t.nhashes + t.nchunks)
  pub hashes : List Node
  pub chunks : List Node
  pub nodes : t.nodes ≡ hashes ++ chunks
  pub inner : All IsInner hashes × (length hashes ≡ t.nhashes)
  pub leaves : All IsLeaf chunks × (length chunks ≡ t.nchunks)

taken :
    (P : Node → Type 0) (n : ℕ) (xs : List (Option Node)) → IsArray P n xs → IsArray P n (take n xs)
taken P n xs (h, e) = (take-All P n xs h, omega (arith, length-take n xs))

combine_nodes-IsUnpacked : (d : Draft) → IsDraft d → Returns IsUnpacked (combine_nodes d)
unfolding combine_nodes
combine_nodes-IsUnpacked d h =
    let (hs, es) = taken IsInner d.nhashes d.hsh_nodes h.hashes in
    let (cs, ec) = taken IsLeaf d.nchunks d.chk_nodes h.chunks in
    Returns-then (all_filled-All IsInner (take d.nhashes d.hsh_nodes) hs) λ hsh (inner, e).
      Returns-then (all_filled-All IsLeaf (take d.nchunks d.chk_nodes) cs) λ chk (leaves, e').
        returned (record {
          nnodes = refl;
          hashes = hsh;
          chunks = chk;
          nodes = refl;
          inner = (inner, e ∙ es);
          leaves = (leaves, e' ∙ ec);
        })

-- Whatever the text of a package file is: when it is unpacked, there are as many nodes as were
-- counted, first those of the hashes, none of which is a leaf, then those of the chunks, each of which
-- is a leaf with a chunk.
pub bpkg_unpack-IsUnpacked :
    (mem : Unused) (ident filename text : List ℕ) (f_size : ℕ)
    → Returns (λ (d, t). IsUnpacked t) (bpkg_unpack mem (bpkg_create ident filename f_size) text)
unfolding bpkg_unpack bpkg_create
bpkg_unpack-IsUnpacked mem ident filename text f_size =
    let fresh = bpkg_create ident filename f_size in
    let lines = lines_from [] text in
    Returns-then
      (unpack_lines-IsDraft (length lines) mem fresh lines
        (record { hashes = (tt, refl); chunks = (tt, refl) }))
      λ d h. Returns-then (combine_nodes-IsUnpacked d h) λ t u. returned u
