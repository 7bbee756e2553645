-- ===== src/Load/Tree.antt =====
-- A package that is loaded from files.
use peer_file_torrent.Base.{
  ℕ, zero, suc, ◌+◌, ◌*◌, ◌-◌, ◌≤◌, ◌<◌, ◌≡◌, refl, sym, ap, ◌∙◌, inl, inr, arith, true, false, leb,
  some, List, [], ◌∷◌, ◌++◌, length, get_elem?, All, done, ensured_value, returned_value, subst,
  Bool-cases, ltb,
}
use peer_file_torrent.Merkle.{Chunk, Node, Mtree, mtree_build}
use peer_file_torrent.Merkle.Facts.{At}
use peer_file_torrent.Merkle.Load.{IsListed, IsLoaded, IsMerkle, contents, mtree_build-IsMerkle}
use peer_file_torrent.Unpack.{Unused, Draft, bpkg_create, bpkg_unpack}
use peer_file_torrent.Unpack.Shape.{IsInner, IsLeaf, IsUnpacked, bpkg_unpack-IsUnpacked}
use peer_file_torrent.Strings.{extract_directory}
use peer_file_torrent.Load.{
  Disk, mapped_string, is_moved, Files, sanitize_path, check_file, bpkg_file_check, or_null,
  map_and_build, unpacked, package_of, load_text, bpkg_load,
}

-- A chunk of the node lies inside a file of `len` bytes.
abbrev pub IsInside : ℕ → Node → Type 0
IsInside len n = (c : Chunk) → n.chunk ≡ some c → c.offset + c.size ≤ len

inner_at :
    (f : List ℕ) (nhashes k j : ℕ) (hashes chunks : List Node)
    → All IsInner hashes
    → j < length hashes
    → k + j < nhashes
    → At (hashes ++ chunks) j (IsListed f nhashes (k + j))
inner_at f nhashes k j [] chunks h l l' = absurd (omega arith)
inner_at f nhashes k zero (n ∷ hashes) chunks (h, hs) l l' =
    let late : leb nhashes (k + 0) ≡ false = ground arith in
    (n, refl, record { flag = h ∙ sym late; inside = λ p. absurd (omega arith) })
inner_at f nhashes k (suc j) (n ∷ hashes) chunks (h, hs) l l' =
    let shift : suc k + j ≡ k + suc j = omega arith in
    let (m, at, listed) =
      inner_at f nhashes (suc k) j hashes chunks hs (omega arith) (omega arith) in
    (m, at, subst (λ i. IsListed f nhashes i m) shift listed)

leaf_at :
    (f : List ℕ) (nhashes k j : ℕ) (chunks : List Node)
    → All IsLeaf chunks
    → All (IsInside (length f)) chunks
    → j < length chunks
    → nhashes ≤ k + j
    → At chunks j (IsListed f nhashes (k + j))
leaf_at f nhashes k j [] h ins l l' = absurd (omega arith)
leaf_at f nhashes k zero (n ∷ chunks) ((h, (c, e)), hs) (i, ins) l l' =
    let early : leb nhashes (k + 0) ≡ true = ground arith in
    (n, refl, record { flag = h ∙ sym early; inside = λ p. (c, e, i c e) })
leaf_at f nhashes k (suc j) (n ∷ chunks) (h, hs) (i, ins) l l' =
    let shift : suc k + j ≡ k + suc j = omega arith in
    let (m, at, listed) = leaf_at f nhashes (suc k) j chunks hs ins (omega arith) (omega arith) in
    (m, at, subst (λ i. IsListed f nhashes i m) shift listed)

behind :
    (P : Node → Type 0) (k j : ℕ) (hashes chunks : List Node)
    → length hashes + j ≡ k
    → At chunks j P
    → At (hashes ++ chunks) k P
behind P k j [] chunks e (n, at, p) =
    let same : j ≡ k = omega (arith, e) in (n, ap (λ i. get_elem? chunks i) (sym same) ∙ at, p)
behind P zero j (n ∷ hashes) chunks e at = absurd (omega (arith, e))
behind P (suc k) j (n ∷ hashes) chunks e at = behind P k j hashes chunks (omega (arith, e)) at

All-right : (P : Node → Type 0) (xs ys : List Node) → All P (xs ++ ys) → All P ys
All-right P [] ys h = h
All-right P (x ∷ xs) ys (h, hs) = All-right P xs ys hs

-- Every node is listed, behind which many hash nodes there are.
IsListed-at :
    (f : List ℕ) (hashes chunks : List Node) (j : ℕ)
    → All IsInner hashes
    → All IsLeaf chunks
    → All (IsInside (length f)) (hashes ++ chunks)
    → j < length hashes + length chunks
    → At (hashes ++ chunks) j (IsListed f (length hashes) j)
IsListed-at f hashes chunks j inner leaves ins h = elim (Bool-cases (ltb j (length hashes))) [
  | inl e ↦
      let zeroth : 0 + j ≡ j = omega arith in
      subst (λ i. At (hashes ++ chunks) j (IsListed f (length hashes) i)) zeroth
        (inner_at f (length hashes) 0 j hashes chunks inner (ground arith) (ground arith))
  | inr e ↦
      let back : length hashes + (j - length hashes) ≡ j = ground arith in
      subst (λ i. At (hashes ++ chunks) j (IsListed f (length hashes) i)) back
        (behind (IsListed f (length hashes) (length hashes + (j - length hashes))) j
          (j - length hashes) hashes chunks back
          (leaf_at f (length hashes) (length hashes) (j - length hashes) chunks leaves
            (All-right (IsInside (length f)) hashes chunks ins) (omega arith) (omega arith)))
]

IsUnpacked-IsLoaded :
    (t : Mtree) (f : List ℕ)
    → IsUnpacked t
    → t.nchunks ≡ t.nhashes + 1
    → t.nhashes < 1073741824
    → All (IsInside (length f)) t.nodes
    → IsLoaded (record t { f_data = f })
IsUnpacked-IsLoaded t f u complete small ins =
    let (inner, e) = u.inner in
    let (leaves, e') = u.leaves in
    let whole : t.nnodes ≡ 2 * t.nhashes + 1 = u.nnodes ∙ omega arith in
    let ins' = subst (All (IsInside (length f))) u.nodes ins in
    record {
      complete = complete;
      whole = whole;
      small = small;
      listed = λ j h.
          let at = IsListed-at f u.hashes u.chunks j inner leaves ins' (omega arith) in
          subst (λ ns. At ns j (IsListed f t.nhashes j)) (sym u.nodes)
            (subst (λ k. At (u.hashes ++ u.chunks) j (IsListed f k j)) e at);
    }

-- What `bpkg_load` returns once the tree is built.
bpkg_load_built :
    (os : Disk) (mem : Unused) (ident : List ℕ) (f_size : ℕ) (fs : Files) (path : List ℕ) (x y : ℕ)
    → (file bytes text : List ℕ) (d : Draft) (t t' : Mtree) → is_moved path ≡ false
    → fs (sanitize_path path) ≡ some (x ∷ file)
    → mapped_string (x ∷ file) ≡ done text
    → bpkg_unpack mem (bpkg_create ident (extract_directory (sanitize_path path) 256) f_size) text
      ≡ done (d, t)
    → fs d.filename ≡ some (y ∷ bytes)
    → mtree_build (record t { f_data = y ∷ bytes }) ≡ done t'
    → bpkg_load os mem ident f_size fs path
      ≡ done (fs, some (record { ident = d.ident; filename = d.filename; mtree = t' }))
unfolding bpkg_load load_text bpkg_file_check check_file map_and_build unpacked or_null package_of
bpkg_load_built os mem ident f_size fs path x y file bytes text d t t' start here named read there
      built =
    rw start (rw (here, named, read, there) (rw (there, built) refl))

-- A package file whose path has no white space in front, whose text is read up to its first zero byte,
-- and counts one chunk more than hashes, where the data file exists and holds all the chunks, is
-- loaded: the files stay as they are, and the package has the name of the data file and a Merkle tree
-- over the data file's contents.
pub bpkg_load-IsMerkle :
    (os : Disk) (mem : Unused) (ident : List ℕ) (f_size : ℕ) (fs : Files) (path : List ℕ) (x y : ℕ)
    → (file bytes text : List ℕ) (d : Draft) (t : Mtree) → is_moved path ≡ false
    → fs (sanitize_path path) ≡ some (x ∷ file)
    → mapped_string (x ∷ file) ≡ done text
    → bpkg_unpack mem (bpkg_create ident (extract_directory (sanitize_path path) 256) f_size) text
      ≡ done (d, t)
    → t.nchunks ≡ t.nhashes + 1
    → t.nhashes < 1073741824
    → fs d.filename ≡ some (y ∷ bytes)
    → All (IsInside (length (y ∷ bytes))) t.nodes
    → (t' : Mtree) × (bpkg_load os mem ident f_size fs path
        ≡ done (fs, some (record { ident = d.ident; filename = d.filename; mtree = t' })))
      × IsMerkle (contents (y ∷ bytes) t.nodes) t'
bpkg_load-IsMerkle os mem ident f_size fs path x y file bytes text d t start here named read
      complete small there ins =
    let filename = extract_directory (sanitize_path path) 256 in
    let u = returned_value (d, t) (bpkg_unpack-IsUnpacked mem ident filename text f_size) read in
    let loaded = IsUnpacked-IsLoaded t (y ∷ bytes) u complete small ins in
    let (t', built, m) =
      ensured_value (mtree_build-IsMerkle (record t { f_data = y ∷ bytes }) loaded) in
    (
      t',
      bpkg_load_built os mem ident f_size fs path x y file bytes text d t t' start here named read
          there built,
      m.0,
    )
