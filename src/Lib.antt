-- ===== src/Lib.antt =====
-- peer_file_torrent: a BitTorrent-like exchange of files among peers, in C. A package file (.bpkg)
-- lists the hashes of a data file; the program builds a Merkle tree over its chunks, answers queries
-- on which parts are complete, and sends and receives chunks as packets to and from connected peers.
--
-- The parts, and how their state and operations correspond to the code:
--   * Sha256: src/crypt/sha256.c, the streaming hash over `struct sha256_compute_data`, from
--     `sha256_compute_data_init` to `sha256_output_hex`, and the loop of sha256chk.c. Words are natural
--     numbers that are reduced where the C type wraps.
--   * Merkle: src/tree/merkletree.c. A node pointer is an index into `nodes`, so that sharing between
--     `nodes`, `chk_nodes` and the child and parent pointers is that of the C arrays. `mtree_build`,
--     `mtree_from_lvlorder`, `init_chunks_data`, `check_chunk`, `update_parent_hashes`, and
--     `update_chunk_node` of src/chk/pkgchk.c. Merkle/Subtree has the level order, Merkle/Spec the
--     hashes that a tree should have, Merkle/Facts what is known at each node; Merkle/Steps,
--     Merkle/Build and Merkle/Load are about building, Merkle/Update about writing a chunk to a
--     tree that was built.
--   * Query: the queries of src/chk/pkg_helper.c and src/chk/pkgchk.c on a tree. Query/Find is about
--     the search for a hash, Query/Complete about subtrees, Query/Tree joins both to Merkle trees.
--   * Packet: src/peer_2_peer/packet.c. The payload is a union and therefore its bytes; the members are
--     layouts. Packet/Struct cuts structs, Packet/Wire and Packet/Response are about the wire.
--   * Queue: the linked list of src/utilities/my_utils.c in a heap of cells, and the request queues
--     of src/peer_2_peer/peer_data_sync.c on it.
--   * Package: the managed packages of src/peer_2_peer/package.c on that list, and the installation of
--     received chunks. Package/Unlink is about taking a node out of a list, Package/Manage and
--     Package/Remove about `pkgs_rem`, Package/Search about `pkgs_add` and `pkg_find_by_ident`,
--     Package/Install about received chunks.
--   * Handler: src/peer_2_peer/peer_handler.c. Handler/Socket says what a socket is: its calls are
--     parameters, and their documented behaviour is a record of laws. Handler has the senders, the
--     receiver and the answers to requests, Handler/Loop the dispatch of packets and requests and the
--     loop of the thread, Handler/Notify the requests that other threads enqueue. Handler/Transfer and
--     Handler/Receive are about packets over a stream, Handler/Pieces and Handler/Respond about the packets of a chunk,
--     Handler/Held about requests in memory, Handler/Replies about the answers to short packets,
--     Handler/Pings and Handler/Rounds about rounds of the loop in which nothing is received, Handler/Responses about
--     responses, and Handler/Backlog about the queues of all peers.
--   * Load: `bpkg_load` and `bpkg_file_check` of src/chk/pkgchk.c, over the files that can be opened.
--     A path from which `trim_whitespace` cuts white space in front is freed by a pointer that `malloc`
--     did not return (`fault`); `fail` is the `exit` for a data file that cannot be created.
--     Load/Frame is about what becomes of the files, Load/Tree about the package.
--   * Cli: src/peer_2_peer/cli.c. Cli has the commands, Cli/Scan what they use of `strtok` and `sscanf`,
--     Cli/Commands the dispatch and the loop of src/btide.c; Cli/Lists and Cli/Effects are about them.
--   * Server: the loop of src/peer_2_peer/peer_server.c that accepts connections.
--   * System: a command line, and an accepted connection, as one step on what the threads share.
--     System/Growth is about queues that are added and grow, System/Commands about each command,
--     System/Invariant about every step, and System/Shutdown about leaving.
--   * Peers: the peer table of src/peer_2_peer/peer_data_sync.c.
--   * Strings: the functions on C strings of src/utilities/my_utils.c and src/chk/pkg_helper.c.
--   * Unpack: `bpkg_create`, `bpkg_unpack` and `combine_nodes` of src/chk/pkg_helper.c. Unpack/Shape is
--     about the nodes that are unpacked.
--   * Config: src/config.c; `stat` and `mkdir` are parameters, and the lines are an argument.
--     Config/Lines is about one line, Config/Range about what is loaded.
--   * Base has the shared names, lists over native numbers, C strings and the results of code that
--     may fail: `done`, an error return (`fail`), undefined behaviour (`fault`), `out_of_fuel`.
--   * Examples has runs on fixed inputs.
--
-- How they interact: Merkle hashes with `hex_digest` of Sha256, over the same `update` and `finalize`;
-- Query reads the nodes of Merkle's trees, and its theorems take the tree that Merkle's establish;
-- Package enqueues with Queue, searches with Query, reads payloads with Packet and writes chunks with
-- Merkle. A thread of Handler takes requests from its queue, answers packets from the managed packages
-- and stands in the table of Peers; Cli works on all of these, and reaches a thread through its queue.
--
-- Fuel: `from_lvlorder`, `update_parent_hashes` and the queries take the number of nodes as fuel, which
-- suffices since the index grows from a node to its children; `reqs_drain` takes more than the number
-- of requests, the loops over packages more than the number of packages, and `bpkg_unpack` the number
-- of lines. `try_send` and `peer_try_receive` have fuel for one byte in each call, `send_pieces` for one
-- byte in each packet, and `peer_destroy` for the requests that the queue counts. `peer_loop` takes the
-- number of its rounds. Bounds: a tree has fewer than 2 ^ 30 hash nodes, so that the indices of children do not
-- wrap in 32 bits; a piece of a hashed message is shorter than 2 ^ 32 - 64 bytes.
--
-- Not modelled: the operating system below sockets and files, the creation and cancellation of
-- threads and their locks (an operation under a lock is one step), memory that is freed at the end of
-- an object's life except for requests and their packets (so `pkgs_destroy` of
-- src/peer_2_peer/package.c), `pkt_fetch_from_peer` of that file, which takes a lock that it holds and
-- which no command reaches, the setup of the server, and the programs around the command line. The steps
-- of System are those of the command line and the server alone: no handler thread, which takes requests
-- out of the queues and ends with its peer, runs during one. A copy of fewer than 64 characters of a
-- hash reads on, and what it reads is an argument.
pub mod Base
pub mod Sha256
pub mod Peers
pub mod Merkle
pub mod Packet
pub mod Query
pub mod Queue
pub mod Package
pub mod Config
pub mod Strings
pub mod Unpack
pub mod Examples
pub mod Handler
pub mod Load
pub mod Cli
pub mod Server
pub mod System
