-- ===== src/Strings.antt =====
-- src/utilities/my_utils.c and src/chk/pkg_helper.c: C strings as the lists of their bytes.
pub mod Trim
pub mod Directory
use peer_file_torrent.Base.{
  ℕ, zero, suc, ◌+◌, ◌-◌, Bool, true, false, ◌&&◌, Option, none, some, List, [], ◌∷◌, ◌++◌, ◌==◌,
  ltb, leb, if◌then◌else◌, length, take, drop, strn_eq, isspace, skip_space,
}

-- `trim_whitespace` behind the first character, which its second loop never passes.
unfoldable pub is_empty : List ℕ → Bool
is_empty [] = true
is_empty (x ∷ s) = false

unfoldable pub trim_rest : List ℕ → List ℕ
trim_rest [] = []
trim_rest (x ∷ s) = let rest = trim_rest s in if isspace x && is_empty rest then [] else x ∷ rest

unfoldable pub trim_end : List ℕ → List ℕ
trim_end [] = []
trim_end (x ∷ s) = x ∷ trim_rest s

-- `trim_whitespace`.
unfoldable pub trim_whitespace : List ℕ → List ℕ
trim_whitespace s = trim_end (skip_space s)

-- `truncate_string`, for a string that is not null and a limit that is not negative.
unfoldable pub truncate_string : List ℕ → ℕ → List ℕ
truncate_string s limit = if ltb limit (length s) then take limit s else s

-- `strrchr(s, '/')`: the index of the last slash behind `i` characters.
unfoldable pub or_here : Option ℕ → ℕ → ℕ → Option ℕ
or_here (some j) x i = some j
or_here none x i = if x == 47 then some i else none

unfoldable pub last_slash : ℕ → List ℕ → Option ℕ
last_slash i [] = none
last_slash i (x ∷ s) = or_here (last_slash (i + 1) s) x i

-- `extract_directory`: the string that it stores, for a buffer of `max_len > 0` bytes.
unfoldable pub cut_directory : List ℕ → ℕ → Option ℕ → List ℕ
cut_directory path max_len none = take (max_len - 1) path
cut_directory path max_len (some i) = take (if leb max_len (i + 1) then max_len - 1 else i + 1) path

unfoldable pub extract_directory : List ℕ → ℕ → List ℕ
extract_directory path max_len = cut_directory path max_len (last_slash 0 path)

-- `strstr(line, prefix)`: what stands from the first occurrence on.
unfoldable pub strstr : List ℕ → List ℕ → Option (List ℕ)
strstr [] needle = if length needle == 0 then some [] else none
strstr (x ∷ s) needle =
    let later = strstr s needle in
    if strn_eq (length needle) (x ∷ s) needle then some (x ∷ s) else later

abbrev pub filename_prefix : List ℕ
filename_prefix = 102 ∷ 105 ∷ 108 ∷ 101 ∷ 110 ∷ 97 ∷ 109 ∷ 101 ∷ 58 ∷ []

-- `process_filename` with the string that the buffer holds before.
unfoldable pub append_filename : List ℕ → ℕ → List ℕ → List ℕ
append_filename filename max_len start =
    let name = if strn_eq 2 start (46 ∷ 47 ∷ []) then drop 2 start else start in
    take (max_len - 1) (filename ++ take (max_len - length filename) name)

unfoldable pub process_filename : List ℕ → List ℕ → ℕ → List ℕ
process_filename line filename max_len = elim (strstr line filename_prefix) [
  | none ↦ []
  | some found ↦ append_filename filename max_len (drop (length filename_prefix) found)
]
