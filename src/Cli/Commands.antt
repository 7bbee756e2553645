-- ===== src/Cli/Commands.antt =====
-- src/peer_2_peer/cli.c: `cli_fetch` and `cli_process_command`.
use peer_file_torrent.Base.{
  ℕ, Bool, true, false, Option, none, some, List, [], ◌∷◌, str_eq, if◌then◌else◌, Run, done, ◌>>=◌,
}
use peer_file_torrent.Cli.Scan.{strtok, is_blank, is_newline, scan_address, scan_fetch}
use peer_file_torrent.Cli.{
  Cli, Network, Fresh, print, invalid_input, missing_address, missing_file, missing_ident,
  missing_arguments, wrong_arguments, cli_connect, cli_disconnect, cli_add_package, cli_rem_package,
  cli_report_packages, cli_list_peers,
}

-- `cli_fetch`: whatever follows the message is behind a `return`, in the branch of wrong arguments.
unfoldable pub fetch_scanned : Cli → Bool → Cli
fetch_scanned c true = c
fetch_scanned c false = print wrong_arguments c

unfoldable pub cli_fetch : Cli → List ℕ → Run Cli
cli_fetch c args = do ok ← scan_fetch args; done (fetch_scanned c ok)

-- The names of the commands.
abbrev pub connect_name : List ℕ
connect_name = 67 ∷ 79 ∷ 78 ∷ 78 ∷ 69 ∷ 67 ∷ 84 ∷ []

abbrev pub disconnect_name : List ℕ
disconnect_name = 68 ∷ 73 ∷ 83 ∷ 67 ∷ 79 ∷ 78 ∷ 78 ∷ 69 ∷ 67 ∷ 84 ∷ []

abbrev pub addpackage_name : List ℕ
addpackage_name = 65 ∷ 68 ∷ 68 ∷ 80 ∷ 65 ∷ 67 ∷ 75 ∷ 65 ∷ 71 ∷ 69 ∷ []

abbrev pub rempackage_name : List ℕ
rempackage_name = 82 ∷ 69 ∷ 77 ∷ 80 ∷ 65 ∷ 67 ∷ 75 ∷ 65 ∷ 71 ∷ 69 ∷ []

abbrev pub packages_name : List ℕ
packages_name = 80 ∷ 65 ∷ 67 ∷ 75 ∷ 65 ∷ 71 ∷ 69 ∷ 83 ∷ []

abbrev pub peers_name : List ℕ
peers_name = 80 ∷ 69 ∷ 69 ∷ 82 ∷ 83 ∷ []

abbrev pub fetch_name : List ℕ
fetch_name = 70 ∷ 69 ∷ 84 ∷ 67 ∷ 72 ∷ []

abbrev pub quit_name : List ℕ
quit_name = 81 ∷ 85 ∷ 73 ∷ 84 ∷ []

-- The commands with an address.
unfoldable pub connect_to : Network → Cli → Option (List ℕ × ℕ) → Cli
connect_to net c none = print missing_address c
connect_to net c (some (ip, port)) = cli_connect net c ip port

unfoldable pub run_connect : Network → Cli → Option (List ℕ) → Cli
run_connect net c none = print missing_address c
run_connect net c (some args) = connect_to net c (scan_address args)

unfoldable pub disconnect_at : Cli → Option (List ℕ × ℕ) → Run Cli
disconnect_at c none = done (print missing_address c)
disconnect_at c (some (ip, port)) = cli_disconnect c ip port

unfoldable pub run_disconnect : Cli → Option (List ℕ) → Run Cli
run_disconnect c none = done (print missing_address c)
run_disconnect c (some args) = disconnect_at c (scan_address args)

-- The commands with another argument.
unfoldable pub run_add : Fresh → Cli → Option (List ℕ) → Run Cli
run_add g c none = done (print missing_file c)
run_add g c (some args) = cli_add_package g c args

unfoldable pub run_rem : ℕ → Cli → Option (List ℕ) → Run Cli
run_rem fuel c none = done (print missing_ident c)
run_rem fuel c (some args) = cli_rem_package fuel c args

unfoldable pub run_fetch : Cli → Option (List ℕ) → Run Cli
run_fetch c none = done (print missing_arguments c)
run_fetch c (some args) = cli_fetch c args

-- The chain of `strcmp` for a command that is not QUIT.
unfoldable pub run_named : Network → Fresh → ℕ → Cli → List ℕ → Option (List ℕ) → Run Cli
run_named net g fuel c command args =
    if str_eq command connect_name
    then done (run_connect net c args)
    else (if str_eq command disconnect_name
        then run_disconnect c args
        else (if str_eq command addpackage_name
            then run_add g c args
            else (if str_eq command rempackage_name
                then run_rem fuel c args
                else (if str_eq command packages_name
                    then cli_report_packages fuel c
                    else (if str_eq command peers_name
                        then cli_list_peers c
                        else (if str_eq command fetch_name
                            then run_fetch c args
                            else done (print invalid_input c)))))))

-- `cli_process_command`; the flag is whether 1 is returned.
unfoldable pub run_command :
    Network → Fresh → ℕ → Cli → Option (List ℕ) → Option (List ℕ) → Run (Cli × Bool)
run_command net g fuel c none args = done (print invalid_input c, true)
run_command net g fuel c (some command) args =
    if str_eq command quit_name
    then done (c, false)
    else (do c ← run_named net g fuel c command args; done (c, true))

unfoldable pub cli_process_command : Network → Fresh → ℕ → Cli → List ℕ → Run (Cli × Bool)
cli_process_command net g fuel c input =
    let (command, rest) = strtok is_blank input in
    let (args, behind) = strtok is_newline rest in run_command net g fuel c command args

-- The loop of `cli_run` over the lines that `fgets` reads; a line that ends the loop leaves the rest.
unfoldable pub cli_run : Network → Fresh → ℕ → Cli → List (List ℕ) → Run Cli
cli_run net g fuel c [] = done c
cli_run net g fuel c (line ∷ lines) = do
  (c, again) ← cli_process_command net g fuel c line
  elim again [ true ↦ cli_run net g fuel c lines | false ↦ done c ]
