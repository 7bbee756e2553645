-- ===== src/Package/Install.antt =====
-- What becomes of a received chunk.
use peer_file_torrent.Base.{ℕ, ◌+◌, ◌≤◌, ◌≡◌, refl, false, List, length, fault}
use peer_file_torrent.Merkle.{Mtree, update_chunk_node}
use peer_file_torrent.Query.Find.{matches, find_node_from_hash_chunk}
use peer_file_torrent.Packet.{res_t, read_struct}
use peer_file_torrent.Package.{pkg_try_install_payload, pkt_chk_update_data}

-- In a tree with one chunk more than hashes, the installation of a payload whose hash is that of
-- nodes behind the first leaf only dereferences null: the node is not found, and not checked for.
pub pkg_try_install_payload-fault :
    (t : Mtree) (payload : List ℕ)
    → t.nchunks ≡ t.nhashes + 1
    → t.nchunks ≤ length t.nodes
    → ((j : ℕ) → j ≤ t.nhashes → matches t.nodes (read_struct res_t payload).hash j ≡ false)
    → pkg_try_install_payload t payload ≡ fault
unfolding pkg_try_install_payload pkt_chk_update_data update_chunk_node
pkg_try_install_payload-fault t payload e enough h =
    rw (find_node_from_hash_chunk t (read_struct res_t payload).hash e enough h) refl
