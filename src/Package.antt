-- ===== src/Package.antt =====
-- src/peer_2_peer/package.c: the managed packages, on the linked list of `Queue`, and the
-- installation of received chunks. A node's data is the index of a package object; a destroyed object
-- is `none`.
pub mod Unlink
pub mod Manage
pub mod Remove
pub mod Search
pub mod Install
use peer_file_torrent.Base.{
  ℕ, zero, suc, ◌+◌, Bool, true, false, ◌&&◌, Option, none, some, List, [], ◌∷◌, ◌==◌, leb,
  if◌then◌else◌, length, set, get_elem?, strn_eq, take, drop, u8, Run, done, fail, fault,
  out_of_fuel, ◌>>=◌, deref,
}
use peer_file_torrent.Queue.{QNode, Heap, QueueState, load, q_init, q_enqueue}
use peer_file_torrent.Merkle.{Chunk, Node, Mtree, update_chunk_node}
use peer_file_torrent.Query.{chunk, find_node_from_hash}
use peer_file_torrent.Packet.{
  pkt_create, payload_create_req, pkt_msg_req, Pkt, Fields, res_t, read_struct, from_bytes,
}

-- `bpkg_t`, less the text that it was read from.
pub record Bpkg : Type 0 where
  pub ident : List ℕ
  pub filename : List ℕ
  pub mtree : Mtree

-- `bpkgs_t`, with the objects; the count is a `uint8_t`.
pub record Bpkgs : Type 0 where
  pub ls : QueueState
  pub count : ℕ
  pub objects : List (Option Bpkg)

-- `pkgs_init`.
unfoldable pub pkgs_init : Bpkgs
pkgs_init = record { ls = q_init []; count = 0; objects = [] }

-- The package object that a node leads to.
abbrev pub object : List (Option Bpkg) → ℕ → Run Bpkg
object os x = do cell ← deref (get_elem? os x); deref cell

-- The loop of `pkg_find_by_ident`: the first package whose identifier starts with the query. `rec` is
-- the rest of the loop.
unfoldable pub find_step : (Option ℕ → Run (Option ℕ)) → Bpkgs → List ℕ → Option ℕ → Run (Option ℕ)
find_step rec b ident_qry none = done none
find_step rec b ident_qry (some a) = do
  n ← load b.ls.heap a
  bpkg ← object b.objects n.q_data
  if strn_eq (length ident_qry) ident_qry bpkg.ident then done (some n.q_data) else rec n.next

unfoldable pub find_loop : ℕ → Bpkgs → List ℕ → Option ℕ → Run (Option ℕ)
find_loop zero b ident_qry curr = out_of_fuel
find_loop (suc fuel) b ident_qry curr = find_step (find_loop fuel b ident_qry) b ident_qry curr

-- `pkg_find_by_ident`, with fuel for the number of packages.
unfoldable pub pkg_find_by_ident : ℕ → Bpkgs → List ℕ → Run (Option ℕ)
pkg_find_by_ident fuel b ident_qry = find_loop fuel b ident_qry b.ls.head

-- `pkgs_add`.
unfoldable pub pkgs_add : Bpkgs → ℕ → Run Bpkgs
pkgs_add b bpkg = do q ← q_enqueue b.ls bpkg; done (record b { ls = q; count = u8 (b.count + 1) })

-- The node at `a` is taken out of the list: the previous node, or the head, leads past it.
unfoldable pub link_past : QueueState → Option ℕ → Option ℕ → Run QueueState
link_past q none next = done (record q { head = next })
link_past q (some p) next = do
  n ← load q.heap p
  done (record q { heap = set q.heap p (some (record n { next = next })) })

-- The tail, when the node at `a` is taken out.
unfoldable pub tail_without : Option ℕ → ℕ → Option ℕ → Option ℕ
tail_without none a previous = none
tail_without (some t) a previous = if t == a then previous else some t

-- The package at `a` is taken out, destroyed and counted out.
unfoldable pub remove_at : Bpkgs → Option ℕ → ℕ → QNode → Run Bpkgs
remove_at b previous a n = do
  q ← link_past b.ls previous n.next
  done (record b {
    ls = record q { heap = set q.heap a none; tail = tail_without q.tail a previous };
    objects = set b.objects n.q_data none;
    count = u8 (b.count + 255);
  })

-- The test of `pkgs_rem`.
unfoldable pub is_named : List ℕ → Bpkg → Bool
is_named ident bpkg =
    leb (length ident) (length bpkg.ident) && strn_eq (length ident) ident bpkg.ident

-- The loop of `pkgs_rem`; -1 is `fail`.
unfoldable pub rem_step :
    (Option ℕ → Option ℕ → Run Bpkgs) → Bpkgs → List ℕ → Option ℕ → Option ℕ → Run Bpkgs
rem_step rec b ident previous none = fail
rem_step rec b ident previous (some a) = do
  n ← load b.ls.heap a
  bpkg ← object b.objects n.q_data
  if is_named ident bpkg then remove_at b previous a n else rec (some a) n.next

unfoldable pub rem_loop : ℕ → Bpkgs → List ℕ → Option ℕ → Option ℕ → Run Bpkgs
rem_loop zero b ident previous curr = out_of_fuel
rem_loop (suc fuel) b ident previous curr = rem_step (rem_loop fuel b ident) b ident previous curr

unfoldable pub pkgs_rem : ℕ → Bpkgs → List ℕ → Run Bpkgs
pkgs_rem fuel b ident = rem_loop fuel b ident none b.ls.head

-- A C string in a field: its bytes up to the first zero, which has to be there.
unfoldable pub c_string : List ℕ → Run (List ℕ)
c_string [] = fault
c_string (x ∷ s) = let rest = c_string s in if x == 0 then done [] else (do t ← rest; done (x ∷ t))

-- What `update_chunk_node` returns, 0 or -1, as `pkt_chk_update_data` reads it: -1 is a success, and
-- the tree is as `update_chunk_node` left it.
unfoldable pub pkt_chk_update_data : Mtree → Option ℕ → List ℕ → Run (Mtree × Bool)
pkt_chk_update_data t chk_node payload =
    let f = read_struct res_t payload in
    elim (update_chunk_node t chk_node f.payload_data (from_bytes f.size) (from_bytes f.offset)) [
      | done t' ↦ done (t', false)
      | fail ↦ done (t, true)
      | fault ↦ fault
      | out_of_fuel ↦ out_of_fuel
    ]

-- `pkg_try_install_payload`: the tree, and whether 1 was returned.
unfoldable pub pkg_try_install_payload : Mtree → List ℕ → Run (Mtree × Bool)
pkg_try_install_payload t payload = do
  chk_node ← find_node_from_hash t (read_struct res_t payload).hash chunk
  pkt_chk_update_data t chk_node payload

-- `pkt_install`; the error code is unsigned, so that it is never negative.
unfoldable pub pkt_install : ℕ → Pkt → Bpkgs → Run (Bpkgs × Bool)
pkt_install fuel p b = do
  ident ← c_string (read_struct res_t p.payload).ident
  found ← pkg_find_by_ident fuel b ident
  elim found [
    | none ↦ done (b, false)
    | some x ↦ (do
      bpkg ← object b.objects x
      (t, ok) ← pkg_try_install_payload bpkg.mtree p.payload
      done (record b { objects = set b.objects x (some (record bpkg { mtree = t })) }, ok))
  ]

-- `pkt_prepare_request_pkt`, for a package that is not null.
unfoldable pub request_for : Bpkg → Node → Option Chunk → Option Pkt
request_for bpkg node none = none
request_for bpkg node (some c) = some (
    pkt_create pkt_msg_req 0
      (payload_create_req c.offset c.size (some node.expected_hash) (some bpkg.ident) none))

unfoldable pub pkt_prepare_request_pkt : Bpkg → Option Node → Option Pkt
pkt_prepare_request_pkt bpkg none = none
pkt_prepare_request_pkt bpkg (some node) = request_for bpkg node node.chunk
