-- ===== src/Load.antt =====
-- src/chk/pkgchk.c and src/tree/merkletree.c: loading a package. The files that can be opened are a
-- function from their paths to their bytes; the calls of the operating system on these succeed.
pub mod Frame
pub mod Tree
use peer_file_torrent.Base.{
  isspace, until_nul, length, ltb, ◌||◌, not, ◌%◌, ◌==◌, ℕ, Bool, true, false, Option, none, some,
  List, [], ◌∷◌, replicate, str_eq, if◌then◌else◌, Run, done, fail, fault, out_of_fuel, ◌>>=◌,
}
use peer_file_torrent.Strings.{trim_whitespace, extract_directory}
use peer_file_torrent.Merkle.{Node, Mtree, mtree_build}
use peer_file_torrent.Unpack.{Unused, Draft, bpkg_create, bpkg_unpack}
use peer_file_torrent.Package.{Bpkg}

abbrev pub Files : Type 0
Files = List ℕ → Option (List ℕ)

-- `sanitize_path`.
unfoldable pub sanitize_path : List ℕ → List ℕ
sanitize_path path = trim_whitespace path

-- What the operating system says of other paths: whether there is a file that cannot be opened, and
-- whether a file can be created.
pub record Disk : Type 0 where
  pub hidden : List ℕ → Bool
  pub creates : List ℕ → Bool

-- `bpkg_file_check`: a data file that is not there is created, and has zeros; `fail` is the end of the
-- process, where it cannot be created.
unfoldable pub check_file : Disk → Files → List ℕ → ℕ → Option (List ℕ) → Run Files
check_file os fs filename f_size (some bytes) = done fs
check_file os fs filename f_size none =
    if os.hidden filename
    then done fs
    else (if os.creates filename
        then done (λ path. if str_eq path filename then some (replicate f_size 0) else fs path)
        else fail)

unfoldable pub bpkg_file_check : Disk → Files → List ℕ → ℕ → Run Files
bpkg_file_check os fs filename f_size = check_file os fs filename f_size (fs filename)

-- Null for an error return.
unfoldable pub or_null : Run Mtree → Run (Option Mtree)
or_null (done t) = done (some t)
or_null fail = done none
or_null fault = fault
or_null out_of_fuel = out_of_fuel

-- The part of `mtree_build` that maps the file; an empty file cannot be mapped.
unfoldable pub map_and_build : Mtree → Option (List ℕ) → Run (Option Mtree)
map_and_build t none = done none
map_and_build t (some []) = done none
map_and_build t (some (x ∷ bytes)) = or_null (mtree_build (record t { f_data = x ∷ bytes }))

-- The error return of `bpkg_unpack` frees the path a second time.
unfoldable pub unpacked : Run (Draft × Mtree) → Run (Draft × Mtree)
unpacked (done r) = done r
unpacked fail = fault
unpacked fault = fault
unpacked out_of_fuel = out_of_fuel

unfoldable pub package_of : Draft → Option Mtree → Option Bpkg
package_of d none = none
package_of d (some t) = some (record { ident = d.ident; filename = d.filename; mtree = t })

-- The C string at the start of a mapped file. The last page is filled with zeros, so that it has an
-- end unless the file fills its pages of 4096 bytes and has no zero byte.
unfoldable pub mapped_string : List ℕ → Run (List ℕ)
mapped_string bytes =
    if ltb (length (until_nul bytes)) (length bytes) || not (length bytes % 4096 == 0)
    then done (until_nul bytes)
    else fault

-- `bpkg_load` with the mapped package file.
unfoldable pub load_text :
    Disk → Unused → Draft → Files → Option (List ℕ) → Run (Files × Option Bpkg)
load_text os mem d fs none = done (fs, none)
load_text os mem d fs (some []) = done (fs, none)
load_text os mem d fs (some (x ∷ bytes)) = do
  text ← mapped_string (x ∷ bytes)
  (d', t) ← unpacked (bpkg_unpack mem d text)
  fs' ← bpkg_file_check os fs d'.filename t.f_size
  built ← map_and_build t (fs' d'.filename)
  done (fs', package_of d' built)

-- Whether `trim_whitespace` returns a pointer into the string, and not to its start.
unfoldable pub is_moved : List ℕ → Bool
is_moved [] = false
is_moved (x ∷ s) = isspace x

-- `bpkg_load`: the files afterwards, and the package or null; `mem`, `ident` and `f_size` are what the
-- memory of the new nodes and a new package held. On every way the sanitized path is freed before the
-- files change, which is undefined for a pointer into the allocated string.
unfoldable pub bpkg_load : Disk → Unused → List ℕ → ℕ → Files → List ℕ → Run (Files × Option Bpkg)
bpkg_load os mem ident f_size fs path =
    let sanitizedpath = sanitize_path path in
    let loaded =
      load_text os mem (bpkg_create ident (extract_directory sanitizedpath 256) f_size) fs
        (fs sanitizedpath) in
    if is_moved path then fault else loaded
