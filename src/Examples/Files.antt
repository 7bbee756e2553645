-- ===== src/Examples/Files.antt =====
-- A package file with one hash and two chunks, and its data file.
use peer_file_torrent.Base.{
  until_nul, ℕ, ◌≡◌, refl, List, [], ◌∷◌, ◌++◌, length, replicate, done, ◌>>=◌, Run,
}
use peer_file_torrent.Merkle.{Mtree}
use peer_file_torrent.Unpack.{
  Unused, Draft, bpkg_create, lines_from, word, scan_digits, scan_unsigned, scan_sign, value_or,
  comma, scan_chunk, read_hashes, read_chunks, read_line, unpack_step, unpack_lines, all_filled,
  combine_nodes, bpkg_unpack, key_filename, key_nhashes, key_hashes, key_nchunks, key_chunks,
}
use peer_file_torrent.Base.{isspace, skip_space, strn_eq}
use peer_file_torrent.Strings.{is_empty, trim_rest, trim_end, trim_whitespace}
use peer_file_torrent.Merkle.{Raw, Node, chunk_create, mtree_node_create}
use peer_file_torrent.Merkle.Load.{IsMerkle, contents}
use peer_file_torrent.Unpack.Shape.{IsUnpacked, bpkg_unpack-IsUnpacked}
use peer_file_torrent.Base.{
  Option, some, none, true, false, str_eq, if◌then◌else◌, arith, Returns, subst, All, ◌+◌, ◌≤◌,
}
use peer_file_torrent.Strings.{
  last_slash, or_here, cut_directory, extract_directory, strstr, append_filename, process_filename,
}
use peer_file_torrent.Load.{Disk, mapped_string, is_moved, Files, sanitize_path, bpkg_load}
use peer_file_torrent.Load.Tree.{IsInside, bpkg_load-IsMerkle}
use peer_file_torrent.Examples.Trees.{blank_node}

-- New nodes are all alike, and zeros are behind every string.
abbrev raw : Raw
raw = record { node = blank_node; behind = replicate 64 0 }

abbrev memory : Unused
memory _ _ = raw

abbrev disk : Disk
disk = record { hidden = λ path. false; creates = λ path. true }

abbrev chunk_line : ℕ → ℕ → List ℕ
chunk_line c offset = replicate 64 c ++ (44 ∷ offset ∷ 44 ∷ 50 ∷ 10 ∷ [])

abbrev text : List ℕ
text =
    (key_filename ++ (120 ∷ 10 ∷ (key_nhashes ++ (49 ∷ 10 ∷ []))))
    ++ ((key_hashes ++ (10 ∷ 9 ∷ 97 ∷ 10 ∷ []))
        ++ ((key_nchunks ++ (50 ∷ 10 ∷ []))
            ++ ((key_chunks ++ (10 ∷ [])) ++ (chunk_line 98 48 ++ chunk_line 99 50))))

-- The counts of hashes and nodes.
abbrev counts : Draft × Mtree → ℕ × ℕ
counts r = (r.1.nhashes, length r.1.nodes)

abbrev counted : Run (Draft × Mtree) → Run (ℕ × ℕ)
counted r = r >>= λ p. done (counts p)

unpacks : counted (bpkg_unpack memory (bpkg_create [] [] 4) text) ≡ done (1, 3)
unfolding bpkg_unpack bpkg_create unpack_lines unpack_step read_line read_hashes read_chunks
    scan_chunk comma value_or scan_unsigned scan_sign scan_digits word lines_from combine_nodes
    all_filled isspace skip_space strn_eq is_empty trim_rest trim_end trim_whitespace strstr
    append_filename process_filename
unpacks = refl

-- The package file is `d/p`, and its data file is in the directory `d/`.
abbrev path : List ℕ
path = 100 ∷ 47 ∷ 112 ∷ []

abbrev data_name : List ℕ
data_name = 100 ∷ 47 ∷ 120 ∷ []

abbrev files : Option (List ℕ) → Files
files there p = if str_eq p path then some text else (if str_eq p data_name then there else none)

abbrev directory : List ℕ
directory = extract_directory (sanitize_path path) 256

abbrev a_hash : Node
a_hash = mtree_node_create raw (some (97 ∷ [])) false 0 none

abbrev a_chunk : ℕ → ℕ → Node
a_chunk c offset =
    mtree_node_create raw (some (replicate 64 c)) true 0 (some (chunk_create 2 offset))

abbrev draft : Draft
draft = record {
  ident = [];
  filename = data_name;
  f_size = 0;
  nhashes = 1;
  nchunks = 2;
  hsh_nodes = some a_hash ∷ [];
  chk_nodes = some (a_chunk 98 0) ∷ some (a_chunk 99 2) ∷ [];
}

abbrev tree : Mtree
tree = record {
  root = none;
  nnodes = 3;
  nchunks = 2;
  nhashes = 1;
  nodes = a_hash ∷ a_chunk 98 0 ∷ a_chunk 99 2 ∷ [];
  f_data = [];
  f_size = 0;
  f_writable = false;
}

path_read : (there : Option (List ℕ)) → files there (sanitize_path path) ≡ some text
unfolding sanitize_path isspace skip_space is_empty trim_rest trim_end trim_whitespace str_eq
path_read there = refl

text_named : mapped_string text ≡ done text
unfolding mapped_string until_nul
text_named = refl

text_read : bpkg_unpack memory (bpkg_create [] directory 0) text ≡ done (draft, tree)
unfolding bpkg_unpack bpkg_create unpack_lines unpack_step read_line read_hashes read_chunks
    scan_chunk comma value_or scan_unsigned scan_sign scan_digits word lines_from combine_nodes
    all_filled isspace skip_space strn_eq is_empty trim_rest trim_end trim_whitespace strstr
    append_filename process_filename mtree_node_create chunk_create sanitize_path extract_directory
    cut_directory last_slash or_here
text_read = refl

bpkg_unpack-IsUnpacked_example :
    Returns (λ (d, t). IsUnpacked t) (bpkg_unpack memory (bpkg_create [] directory 0) text)
bpkg_unpack-IsUnpacked_example = bpkg_unpack-IsUnpacked memory [] directory text 0

abbrev data_bytes : List ℕ
data_bytes = 65 ∷ 66 ∷ 67 ∷ 68 ∷ []

chunk-IsInside : (offset : ℕ) → offset + 2 ≤ 4 → (c : ℕ) → IsInside 4 (a_chunk c offset)
unfolding mtree_node_create chunk_create
chunk-IsInside offset h c k e =
    let same : chunk_create 2 offset ≡ k = cc e in subst (λ k. k.offset + k.size ≤ 4) same h

all-IsInside : All (IsInside 4) tree.nodes
unfolding mtree_node_create
all-IsInside = (
  λ k e. absurd (cc e),
  (chunk-IsInside 0 (omega arith) 98, (chunk-IsInside 2 (omega arith) 99, tt)),
)

bpkg_load-IsMerkle_example :
    (t' : Mtree) × (bpkg_load disk memory [] 0 (files (some data_bytes)) path
      ≡ done
          (files (some data_bytes), some (record { ident = []; filename = data_name; mtree = t' })))
    × IsMerkle (contents data_bytes tree.nodes) t'
unfolding str_eq is_moved isspace
bpkg_load-IsMerkle_example =
    bpkg_load-IsMerkle disk memory [] 0 (files (some data_bytes)) path _ 65 _ (66 ∷ 67 ∷ 68 ∷ [])
      text draft tree refl (path_read (some data_bytes)) text_named text_read refl (omega arith)
      refl all-IsInside

-- Without the data file it is created; the size of the package file is not given, so it is empty, and
-- the package is not loaded.
abbrev empty_data : Files
empty_data p = if str_eq p data_name then some [] else files none p
