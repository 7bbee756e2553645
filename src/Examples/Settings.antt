-- ===== src/Examples/Settings.antt =====
-- A configuration file of three lines.
use peer_file_torrent.Base.{
  isspace, skip_space, ℕ, ◌≡◌, ◌++◌, refl, List, [], ◌∷◌, Bool, true, inl, str_eq,
}
use peer_file_torrent.Config.{
  Config, PathKind, is_dir, stored, skip_char, cut_char, strtok, first_token, digits, atoi_sign,
  atoi, outside, fits_int, and_next, directory_of_kind, check_directory, ranged, entry, parse_value,
  parse_key, parse_entry, is_filled, config_load,
}
use peer_file_torrent.Config.Range.{IsComplete, Stores, config_load-IsComplete}
use peer_file_torrent.Config.Lines.{parse_entry-append}

-- Every path is a directory.
abbrev stat : Unit {0} → List ℕ → PathKind
stat w path = is_dir

abbrev mkdir : Unit {0} → List ℕ → Unit {0} × Bool
mkdir w path = (tt, true)

abbrev zeroed : Config
zeroed = record { directory = []; max_peers = 0; port = 0 }

-- directory:a, max_peers: 12, port:5000.
abbrev directory_key : List ℕ
directory_key = 100 ∷ 105 ∷ 114 ∷ 101 ∷ 99 ∷ 116 ∷ 111 ∷ 114 ∷ 121 ∷ []

abbrev lines : List (List ℕ)
lines =
    (directory_key ++ (58 ∷ 97 ∷ 10 ∷ []))
    ∷ (109 ∷ 97 ∷ 120 ∷ 95 ∷ 112 ∷ 101 ∷ 101 ∷ 114 ∷ 115 ∷ 58 ∷ 32 ∷ 49 ∷ 50 ∷ 10 ∷ [])
    ∷ (112 ∷ 111 ∷ 114 ∷ 116 ∷ 58 ∷ 53 ∷ 48 ∷ 48 ∷ 48 ∷ [])
    ∷ []

loads :
    config_load stat mkdir tt zeroed lines
    ≡ stored tt (record { directory = 97 ∷ []; max_peers = 12; port = 5000 })
unfolding config_load and_next parse_entry parse_key parse_value entry ranged check_directory
    directory_of_kind is_filled strtok first_token skip_char cut_char isspace skip_space digits
    atoi_sign atoi outside fits_int str_eq
loads = refl

config_load-IsComplete_example : Stores IsComplete (config_load stat mkdir tt zeroed lines)
config_load-IsComplete_example =
    config_load-IsComplete stat mkdir tt zeroed lines
      (record { max_peers = inl refl; port = inl refl })

parse_entry-append_example :
    parse_entry stat mkdir tt zeroed (directory_key ++ (58 ∷ (97 ∷ 10 ∷ [])))
    ≡ entry stat mkdir tt zeroed directory_key (97 ∷ [])
parse_entry-append_example =
    parse_entry-append stat mkdir tt zeroed 100 (105 ∷ 114 ∷ 101 ∷ 99 ∷ 116 ∷ 111 ∷ 114 ∷ 121 ∷ [])
      97 [] (refl, (refl, (refl, (refl, (refl, (refl, (refl, (refl, (refl, tt))))))))) (refl, tt)
