-- ===== src/Unpack.antt =====
-- src/chk/pkg_helper.c: `bpkg_create`, `bpkg_unpack` and `combine_nodes`, from the text of a package
-- file to the arrays of nodes. An entry of an array that no line fills is `none`.
pub mod Shape
use peer_file_torrent.Base.{
  ℕ, zero, suc, ◌+◌, ◌-◌, ◌*◌, Bool, true, false, ◌&&◌, Option, none, some, List, [], ◌∷◌, ◌++◌,
  ◌==◌, ltb, leb, if◌then◌else◌, length, take, drop, set, replicate, strn_eq, isspace, skip_space,
  u32, Run, done, fail, fault, out_of_fuel, ◌>>=◌,
}
use peer_file_torrent.Merkle.{Node, Mtree, Raw, chunk_create, mtree_node_create}
use peer_file_torrent.Strings.{is_empty, trim_whitespace, process_filename}

-- A package while its file is read.
pub record Draft : Type 0 where
  pub ident : List ℕ
  pub filename : List ℕ
  pub f_size : ℕ
  pub nhashes : ℕ
  pub nchunks : ℕ
  pub hsh_nodes : List (Option Node)
  pub chk_nodes : List (Option Node)

-- `bpkg_create`: the names and the size of the file are what the memory held.
unfoldable pub bpkg_create : List ℕ → List ℕ → ℕ → Draft
bpkg_create ident filename f_size = record {
  ident = ident;
  filename = filename;
  f_size = f_size;
  nhashes = 0;
  nchunks = 0;
  hsh_nodes = [];
  chk_nodes = [];
}

-- The lines that `strtok` with a newline returns, in turn: those that are not empty. `acc` is the line
-- so far.
unfoldable pub lines_from : List ℕ → List ℕ → List (List ℕ)
lines_from acc [] = if is_empty acc then [] else acc ∷ []
lines_from acc (x ∷ s) =
    let next = lines_from [] s in
    let longer = lines_from (acc ++ (x ∷ [])) s in
    if x == 10 then (if is_empty acc then next else acc ∷ next) else longer

-- At most `n` characters that are not white space, and what is behind them.
unfoldable pub word : ℕ → List ℕ → List ℕ × List ℕ
word zero s = ([], s)
word (suc n) [] = ([], [])
word (suc n) (x ∷ s) = let (w, rest) = word n s in if isspace x then ([], x ∷ s) else (x ∷ w, rest)

-- `%s` of `sscanf`: the old string stays where there is no word.
unfoldable pub scan_word : List ℕ → List ℕ → List ℕ
scan_word s old = let (w, rest) = word (length s) (skip_space s) in if is_empty w then old else w

-- The digits in front, as a value behind `n`, whether there was one, and the rest.
unfoldable pub scan_digits : ℕ → Bool → List ℕ → Option (ℕ × List ℕ)
scan_digits n seen [] = if seen then some (n, []) else none
scan_digits n seen (x ∷ s) =
    let later = scan_digits (10 * n + (x - 48)) true s in
    if leb 48 x && leb x 57 then later else (if seen then some (n, x ∷ s) else none)

-- A negative number wraps in 32 bits.
unfoldable pub negated : Option (ℕ × List ℕ) → Option (ℕ × List ℕ)
negated none = none
negated (some (n, rest)) = some (4294967296 - u32 n, rest)

unfoldable pub scan_sign : List ℕ → Option (ℕ × List ℕ)
scan_sign [] = none
scan_sign (x ∷ s) =
    if x == 43
    then scan_digits 0 false s
    else (if x == 45 then negated (scan_digits 0 false s) else scan_digits 0 false (x ∷ s))

-- `%u` of `sscanf`; the value is cut to 32 bits where it is used.
unfoldable pub scan_unsigned : List ℕ → Option (ℕ × List ℕ)
scan_unsigned s = scan_sign (skip_space s)

unfoldable pub value_or : ℕ → Option (ℕ × List ℕ) → ℕ
value_or old none = old
value_or old (some (n, rest)) = u32 n

-- A comma in front.
unfoldable pub comma : List ℕ → Option (List ℕ)
comma [] = none
comma (x ∷ s) = if x == 44 then some s else none

-- `sscanf(line, "%64s,%u,%u", …)`, where all three are there.
unfoldable pub scan_chunk : List ℕ → Run (List ℕ × ℕ × ℕ)
scan_chunk line = do
  let (hash, rest) = word 64 (skip_space line)
  rest ← or_end (comma rest)
  (offset, rest) ← or_end (scan_unsigned rest)
  rest ← or_end (comma rest)
  (size, rest) ← or_end (scan_unsigned rest)
  done (hash, u32 offset, u32 size)
  where
    or_end : {A : Type 0} → Option A → Run A
    or_end none = fail
    or_end (some a) = done a

-- What the memory of the new nodes held, by whether it is a chunk node and by the index.
abbrev pub Unused : Type 0
Unused = Bool → ℕ → Raw

-- The loop over the lines of `hashes:`, with `n` rounds left.
unfoldable pub read_hashes :
    Unused → ℕ → ℕ → List (Option Node) → List (List ℕ) → List (Option Node) × List (List ℕ)
read_hashes mem zero i hsh lines = (hsh, lines)
read_hashes mem (suc n) i hsh [] = (hsh, [])
read_hashes mem (suc n) i hsh (line ∷ lines) =
    let node = mtree_node_create (mem false i) (some (trim_whitespace line)) false 0 none in
    read_hashes mem n (i + 1) (set hsh i (some node)) lines

-- The loop over the lines of `chunks:`.
unfoldable pub read_chunks :
    Unused → ℕ → ℕ → List (Option Node) → List (List ℕ) → Run (List (Option Node) × List (List ℕ))
read_chunks mem zero i chk lines = done (chk, lines)
read_chunks mem (suc n) i chk [] = done (chk, [])
read_chunks mem (suc n) i chk (line ∷ lines) = do
  (hash, offset, size) ← scan_chunk (trim_whitespace line)
  let node = mtree_node_create (mem true i) (some hash) true 0 (some (chunk_create size offset))
  read_chunks mem n (i + 1) (set chk i (some node)) lines

-- The lines up to one of these loops: what a line stores, which loop it starts, or that it does not
-- fit into the buffer.
pub data Step : Type 0 where
  stored hashes_follow chunks_follow : Draft → Step
  overflows : Step

-- The prefixes of the lines.
abbrev pub starts : List ℕ → List ℕ → Bool
starts line key = strn_eq (length key) line key

abbrev pub key_ident : List ℕ
key_ident = 105 ∷ 100 ∷ 101 ∷ 110 ∷ 116 ∷ 58 ∷ []

abbrev pub key_filename : List ℕ
key_filename = 102 ∷ 105 ∷ 108 ∷ 101 ∷ 110 ∷ 97 ∷ 109 ∷ 101 ∷ 58 ∷ []

abbrev pub key_size : List ℕ
key_size = 115 ∷ 105 ∷ 122 ∷ 101 ∷ 58 ∷ []

abbrev pub key_nhashes : List ℕ
key_nhashes = 110 ∷ 104 ∷ 97 ∷ 115 ∷ 104 ∷ 101 ∷ 115 ∷ 58 ∷ []

abbrev pub key_hashes : List ℕ
key_hashes = 104 ∷ 97 ∷ 115 ∷ 104 ∷ 101 ∷ 115 ∷ 58 ∷ []

abbrev pub key_nchunks : List ℕ
key_nchunks = 110 ∷ 99 ∷ 104 ∷ 117 ∷ 110 ∷ 107 ∷ 115 ∷ 58 ∷ []

abbrev pub key_chunks : List ℕ
key_chunks = 99 ∷ 104 ∷ 117 ∷ 110 ∷ 107 ∷ 115 ∷ 58 ∷ []

-- `%s` into the 4096 bytes of `ident`, whatever the length of the word is.
unfoldable pub store_ident : Draft → List ℕ → Step
store_ident d s =
    if ltb 4095 (length (scan_word s []))
    then overflows
    else stored (record d { ident = scan_word s d.ident })

-- One round of the loop of `bpkg_unpack`.
unfoldable pub read_line : Draft → List ℕ → Step
read_line d line =
    if starts line key_ident
    then store_ident d (drop 6 line)
    else (if starts line key_filename
        then stored (record d { filename = process_filename line d.filename 256 })
        else (if starts line key_size
            then stored (record d { f_size = value_or d.f_size (scan_unsigned (drop 5 line)) })
            else (if starts line key_nhashes
                then (let n = value_or d.nhashes (scan_unsigned (drop 8 line)) in
                    stored (record d { nhashes = n; hsh_nodes = replicate n none }))
                else (if starts line key_hashes && ltb 0 d.nhashes
                    then hashes_follow d
                    else (if starts line key_nchunks
                        then (let n = value_or d.nchunks (scan_unsigned (drop 8 line)) in
                            stored (record d { nchunks = n; chk_nodes = replicate n none }))
                        else (if starts line key_chunks then chunks_follow d else stored d))))))

-- The loop of `bpkg_unpack`, with as much fuel as there are lines; -1 is `fail`.
unfoldable pub unpack_step :
    (Draft → List (List ℕ) → Run Draft) → Unused → Step → List (List ℕ) → Run Draft
unpack_step rec mem overflows lines = fault
unpack_step rec mem (stored d) lines = rec d lines
unpack_step rec mem (hashes_follow d) lines =
    let (hsh, lines') = read_hashes mem d.nhashes 0 d.hsh_nodes lines in
    rec (record d { hsh_nodes = hsh }) lines'
unpack_step rec mem (chunks_follow d) lines = do
  (chk, lines') ← read_chunks mem d.nchunks 0 d.chk_nodes lines
  rec (record d { chk_nodes = chk }) lines'

unfoldable pub unpack_lines : ℕ → Unused → Draft → List (List ℕ) → Run Draft
unpack_lines fuel mem d [] = done d
unpack_lines zero mem d (line ∷ lines) = out_of_fuel
unpack_lines (suc fuel) mem d (line ∷ lines) =
    unpack_step (unpack_lines fuel mem) mem (read_line d line) lines

-- The entries of an array, where all of them are filled.
unfoldable pub all_filled : List (Option Node) → Run (List Node)
all_filled [] = done []
all_filled (none ∷ xs) = fault
all_filled (some n ∷ xs) = do ns ← all_filled xs; done (n ∷ ns)

-- `combine_nodes`; the file is not mapped yet.
unfoldable pub combine_nodes : Draft → Run Mtree
combine_nodes d = do
  hsh ← all_filled (take d.nhashes d.hsh_nodes)
  chk ← all_filled (take d.nchunks d.chk_nodes)
  done (record {
    root = none;
    nnodes = u32 (d.nhashes + d.nchunks);
    nchunks = d.nchunks;
    nhashes = d.nhashes;
    nodes = hsh ++ chk;
    f_data = [];
    f_size = d.f_size;
    f_writable = false;
  })

-- `bpkg_unpack`, in the memory `mem` of the new nodes.
unfoldable pub bpkg_unpack : Unused → Draft → List ℕ → Run (Draft × Mtree)
bpkg_unpack mem d text = do
  let lines = lines_from [] text
  d' ← unpack_lines (length lines) mem d lines
  t ← combine_nodes d'
  done (d', t)
