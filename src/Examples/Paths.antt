-- ===== src/Examples/Paths.antt =====
-- White space and paths.
use peer_file_torrent.Base.{◌≡◌, refl, [], ◌∷◌, arith}
use peer_file_torrent.Strings.{trim_whitespace, extract_directory}
use peer_file_torrent.Strings.Trim.{Parts, trim_whitespace-Parts}
use peer_file_torrent.Strings.Directory.{extract_directory-append}

trim_whitespace-Parts_example :
    Parts (32 ∷ 97 ∷ 32 ∷ 98 ∷ 10 ∷ []) (trim_whitespace (32 ∷ 97 ∷ 32 ∷ 98 ∷ 10 ∷ []))
trim_whitespace-Parts_example = trim_whitespace-Parts (32 ∷ 97 ∷ 32 ∷ 98 ∷ 10 ∷ [])

directory_found : extract_directory (97 ∷ 47 ∷ 98 ∷ 47 ∷ 99 ∷ []) 256 ≡ 97 ∷ 47 ∷ 98 ∷ 47 ∷ []
directory_found =
    extract_directory-append (97 ∷ 47 ∷ 98 ∷ []) (99 ∷ []) 256 (refl, tt) (omega arith)
