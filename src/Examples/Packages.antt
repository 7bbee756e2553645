-- ===== src/Examples/Packages.antt =====
-- Two managed packages.
use peer_file_torrent.Base.{
  ℕ, ◌≡◌, ◌++◌, refl, List, [], ◌∷◌, none, some, arith, done, fault, replicate, Ensures,
}
use peer_file_torrent.Packet.{read_struct}
use peer_file_torrent.Package.{
  Bpkg, Bpkgs, pkgs_add, pkgs_rem, pkg_find_by_ident, pkg_try_install_payload,
}
use peer_file_torrent.Package.Manage.{IsBpkgs, named}
use peer_file_torrent.Package.Remove.{Removal, without_first, pkgs_rem-Removal}
use peer_file_torrent.Package.Search.{
  first_such, prefixed, pkgs_add-IsBpkgs, pkg_find_by_ident-first_such,
}
use peer_file_torrent.Package.Install.{pkg_try_install_payload-fault}
use peer_file_torrent.Examples.Trees.{marked_tree, unmarked}

abbrev sample : ℕ → Bpkg
sample c = record { ident = c ∷ 49 ∷ []; filename = c ∷ []; mtree = marked_tree }

abbrev both : Bpkgs
both = record {
  ls = record {
    heap =
        some (record { q_data = 0; next = some 2 })
        ∷ none
        ∷ some (record { q_data = 1; next = none })
        ∷ [];
    head = some 0;
    tail = some 2;
  };
  count = 2;
  objects = some (sample 65) ∷ some (sample 66) ∷ some (sample 67) ∷ [];
}

both-IsBpkgs : IsBpkgs both (0 ∷ 1 ∷ [])
both-IsBpkgs = record {
  list = record {
    cells = (0, 0) ∷ (2, 1) ∷ [];
    chain = (refl, ((λ e. omega arith), tt), (refl, tt, tt));
    head = refl;
    tail = refl;
    holds = refl;
  };
  alive = ((sample 65, refl), ((sample 66, refl), tt));
  apart = (((λ e. omega arith), tt), (tt, tt));
  count = refl;
}

pkgs_rem-Removal_example :
    Removal both (without_first (named both (66 ∷ [])) (0 ∷ 1 ∷ [])) (pkgs_rem 3 both (66 ∷ []))
pkgs_rem-Removal_example = pkgs_rem-Removal 3 both (66 ∷ []) (0 ∷ 1 ∷ []) both-IsBpkgs (omega arith)

pkgs_add-IsBpkgs_example :
    Ensures (λ b'. IsBpkgs b' (0 ∷ 1 ∷ 2 ∷ []) × (b'.objects ≡ both.objects)) (pkgs_add both 2)
pkgs_add-IsBpkgs_example =
    pkgs_add-IsBpkgs both (0 ∷ 1 ∷ []) 2 both-IsBpkgs (sample 67, refl)
      ((λ e. omega arith), ((λ e. omega arith), tt))

pkg_find_by_ident-first_such_example :
    pkg_find_by_ident 3 both (66 ∷ 49 ∷ [])
    ≡ done (first_such (prefixed both (66 ∷ 49 ∷ [])) (0 ∷ 1 ∷ []))
pkg_find_by_ident-first_such_example =
    pkg_find_by_ident-first_such 3 both (66 ∷ 49 ∷ []) (0 ∷ 1 ∷ []) both-IsBpkgs (omega arith)

-- A payload with the hash of the second chunk of `marked_tree`.
abbrev second_payload : List ℕ
second_payload = replicate 3004 0 ++ (replicate 64 49 ++ replicate 1024 0)

pkg_try_install_payload-fault_example : pkg_try_install_payload marked_tree second_payload ≡ fault
unfolding read_struct
pkg_try_install_payload-fault_example =
    pkg_try_install_payload-fault marked_tree second_payload refl (omega arith) unmarked
