-- ===== src/Sha256.antt =====
-- src/crypt/sha256.c: the hash state and its operations, over bytes as numbers below 256.
pub mod Blocks
pub mod Digest
pub mod Hex
pub mod Message
pub mod Stream
use peer_file_torrent.Base.{
  ℕ, zero, suc, ◌+◌, ◌-◌, ◌*◌, ◌/◌, ◌%◌, List, [], ◌∷◌, ◌++◌, bit_and, bit_or, bit_xor, u8, u32,
  u64, ◌<<<◌, ◌>>>◌, ltb, leb, if◌then◌else◌, length, get_or, take, drop, replicate, set,
}

-- `rotate_r`, on a 32-bit value and for 0 < bits < 32.
pub rotate_r : ℕ → ℕ → ℕ
rotate_r val bits = bit_or (val >>> bits) (u32 (val <<< (32 - bits)))

-- `~x` on 32 bits.
pub not32 : ℕ → ℕ
not32 x = 4294967295 - x

abbrev pub k : List ℕ
k =
    0x428a2f98 ∷ 0x71374491 ∷ 0xb5c0fbcf ∷ 0xe9b5dba5 ∷ 0x3956c25b ∷ 0x59f111f1 ∷ 0x923f82a4
    ∷ 0xab1c5ed5 ∷ 0xd807aa98 ∷ 0x12835b01 ∷ 0x243185be ∷ 0x550c7dc3 ∷ 0x72be5d74 ∷ 0x80deb1fe
    ∷ 0x9bdc06a7 ∷ 0xc19bf174 ∷ 0xe49b69c1 ∷ 0xefbe4786 ∷ 0x0fc19dc6 ∷ 0x240ca1cc ∷ 0x2de92c6f
    ∷ 0x4a7484aa ∷ 0x5cb0a9dc ∷ 0x76f988da ∷ 0x983e5152 ∷ 0xa831c66d ∷ 0xb00327c8 ∷ 0xbf597fc7
    ∷ 0xc6e00bf3 ∷ 0xd5a79147 ∷ 0x06ca6351 ∷ 0x14292967 ∷ 0x27b70a85 ∷ 0x2e1b2138 ∷ 0x4d2c6dfc
    ∷ 0x53380d13 ∷ 0x650a7354 ∷ 0x766a0abb ∷ 0x81c2c92e ∷ 0x92722c85 ∷ 0xa2bfe8a1 ∷ 0xa81a664b
    ∷ 0xc24b8b70 ∷ 0xc76c51a3 ∷ 0xd192e819 ∷ 0xd6990624 ∷ 0xf40e3585 ∷ 0x106aa070 ∷ 0x19a4c116
    ∷ 0x1e376c08 ∷ 0x2748774c ∷ 0x34b0bcb5 ∷ 0x391c0cb3 ∷ 0x4ed8aa4a ∷ 0x5b9cca4f ∷ 0x682e6ff3
    ∷ 0x748f82ee ∷ 0x78a5636f ∷ 0x84c87814 ∷ 0x8cc70208 ∷ 0x90befffa ∷ 0xa4506ceb ∷ 0xbef9a3f7
    ∷ 0xc67178f2 ∷ []

-- `struct sha256_compute_data`.
pub record ComputeData : Type 0 where
  pub data_size : ℕ
  pub hcomps : List ℕ
  pub last_chunk : List ℕ
  pub chunk_size : ℕ

abbrev pub initial_hcomps : List ℕ
initial_hcomps =
    0x6a09e667 ∷ 0xbb67ae85 ∷ 0x3c6ef372 ∷ 0xa54ff53a ∷ 0x510e527f ∷ 0x9b05688c ∷ 0x1f83d9ab
    ∷ 0x5be0cd19 ∷ []

-- `sha256_compute_data_init`; `last_chunk` keeps what the memory held.
unfoldable pub compute_data_init : ComputeData → ComputeData
compute_data_init d = record d { data_size = 0; hcomps = initial_hcomps; chunk_size = 0 }

-- The first loop of `sha256_calculate_chunk`: `n` big-endian words, `chunk += 4` in each round.
load_words : ℕ → List ℕ → List ℕ
load_words zero chunk = []
load_words (suc n) chunk =
    bit_or
      (bit_or (bit_or (u32 (get_or chunk 0 0 <<< 24)) (get_or chunk 1 0 <<< 16))
        (get_or chunk 2 0 <<< 8))
      (get_or chunk 3 0)
    ∷ load_words n (drop 4 chunk)

-- The word `w[i]` of the second loop, from the words before it.
schedule_word : List ℕ → ℕ → ℕ
unfolding rotate_r
schedule_word w i =
    let a = get_or w (i - 15) 0 in
    let b = get_or w (i - 2) 0 in
    let s0 = bit_xor (bit_xor (rotate_r a 7) (rotate_r a 18)) (a >>> 3) in
    let s1 = bit_xor (bit_xor (rotate_r b 17) (rotate_r b 19)) (b >>> 10) in
    u32 (get_or w (i - 16) 0 + s0 + get_or w (i - 7) 0 + s1)

-- The second loop at index `i`, with `n` rounds left.
extend_words : ℕ → ℕ → List ℕ → List ℕ
extend_words zero i w = w
extend_words (suc n) i w = extend_words n (i + 1) (w ++ schedule_word w i ∷ [])

-- One round of the third loop on `tv`.
round : ℕ → ℕ → List ℕ → List ℕ
unfolding rotate_r not32
round k_i w_i tv =
    let tv0 = get_or tv 0 0 in
    let tv1 = get_or tv 1 0 in
    let tv2 = get_or tv 2 0 in
    let tv3 = get_or tv 3 0 in
    let tv4 = get_or tv 4 0 in
    let tv5 = get_or tv 5 0 in
    let tv6 = get_or tv 6 0 in
    let tv7 = get_or tv 7 0 in
    let s1 = bit_xor (bit_xor (rotate_r tv4 6) (rotate_r tv4 11)) (rotate_r tv4 25) in
    let ch = bit_xor (bit_and tv4 tv5) (bit_and (not32 tv4) tv6) in
    let temp1 = u32 (tv7 + s1 + ch + k_i + w_i) in
    let s0 = bit_xor (bit_xor (rotate_r tv0 2) (rotate_r tv0 13)) (rotate_r tv0 22) in
    let maj = bit_xor (bit_xor (bit_and tv0 tv1) (bit_and tv0 tv2)) (bit_and tv1 tv2) in
    let temp2 = u32 (s0 + maj) in
    u32 (temp1 + temp2) ∷ tv0 ∷ tv1 ∷ tv2 ∷ u32 (tv3 + temp1) ∷ tv4 ∷ tv5 ∷ tv6 ∷ []

-- The third loop at index `i`, with `n` rounds left.
rounds : ℕ → ℕ → List ℕ → List ℕ → List ℕ
rounds zero i w tv = tv
rounds (suc n) i w tv = rounds n (i + 1) w (round (get_or k i 0) (get_or w i 0) tv)

-- The last loop: `hcomps[i] += tv[i]`.
add_words : List ℕ → List ℕ → List ℕ
add_words [] tv = []
add_words (h ∷ hs) tv = u32 (h + get_or tv 0 0) ∷ add_words hs (drop 1 tv)

-- What `sha256_calculate_chunk` makes of `hcomps` and the 64 bytes at `chunk`.
unfoldable pub compress : List ℕ → List ℕ → List ℕ
unfolding load_words schedule_word extend_words round rounds add_words
compress hcomps chunk =
    add_words hcomps (rounds 64 0 (extend_words 48 16 (load_words 16 chunk)) hcomps)

pub calculate_chunk : ComputeData → List ℕ → ComputeData
calculate_chunk d chunk = record d { hcomps = compress d.hcomps (take 64 chunk) }

-- The `while (size >= 64)` loop of `sha256_update`, with `n` rounds at most.
full_chunks : ℕ → ComputeData → List ℕ → ComputeData × List ℕ
unfolding calculate_chunk
full_chunks zero d ptr = (d, ptr)
full_chunks (suc n) d ptr =
    let rest = full_chunks n (calculate_chunk d ptr) (drop 64 ptr) in
    if leb 64 (length ptr) then rest else (d, ptr)

-- The end of `sha256_update`: the bytes that are left go behind those in `last_chunk`.
keep_rest : ComputeData → List ℕ → ComputeData
keep_rest d ptr = record d {
  last_chunk =
      take d.chunk_size d.last_chunk ++ ptr ++ drop (d.chunk_size + length ptr) d.last_chunk;
  chunk_size = u8 (d.chunk_size + length ptr);
}

-- The buffered chunk, filled up and processed.
fill_chunk : ComputeData → List ℕ → ComputeData
unfolding calculate_chunk
fill_chunk d bytes =
    calculate_chunk (record d { chunk_size = 0 })
      (take d.chunk_size d.last_chunk ++ take (64 - d.chunk_size) bytes)

-- The first `if` of `sha256_update`: the state after it, and the bytes still to be read.
top_up : ComputeData → List ℕ → ComputeData × List ℕ
unfolding fill_chunk
top_up d bytes =
    if leb 64 (u32 (length bytes + d.chunk_size))
    then (fill_chunk d bytes, drop (64 - d.chunk_size) bytes)
    else (d, bytes)

-- The loop and the copy behind it.
absorb_rest : ComputeData × List ℕ → ComputeData
unfolding full_chunks keep_rest
absorb_rest (d, ptr) = let (d', rest) = full_chunks (length ptr / 64) d ptr in keep_rest d' rest

-- `sha256_update`; `size` is the length of `bytes`.
unfoldable pub update : ComputeData → List ℕ → ComputeData
unfolding top_up absorb_rest
update d bytes =
    absorb_rest (top_up (record d { data_size = u64 (d.data_size + length bytes) }) bytes)

-- The end marker of `sha256_finalize` and the `memset` behind it.
mark_end : ComputeData → ComputeData
mark_end d =
    let marked = set d.last_chunk d.chunk_size 0x80 in
    let size = u8 (d.chunk_size + 1) in
    record d { last_chunk = take size marked ++ replicate (64 - size) 0; chunk_size = size }

-- The loop of `sha256_finalize` that writes the size, with `i` rounds left.
write_size : ℕ → ℕ → List ℕ → List ℕ
write_size zero size chunk = chunk
write_size (suc i) size chunk = write_size i (size >>> 8) (set chunk (56 + i) (size % 256))

-- The chunk that is processed early when the size does not fit behind the marker.
spill : ComputeData → ComputeData
unfolding calculate_chunk
spill d =
    if ltb 56 d.chunk_size
    then record (calculate_chunk d d.last_chunk) { last_chunk = replicate 64 0 }
    else d

-- `sha256_finalize`; its second argument is not used by the code.
unfoldable pub finalize : ComputeData → ComputeData
unfolding mark_end write_size spill calculate_chunk
finalize d =
    let e = spill (mark_end d) in
    let sized = record e { last_chunk = write_size 8 (u64 (e.data_size * 8)) e.last_chunk } in
    calculate_chunk sized sized.last_chunk

-- `sha256_output`: the big-endian bytes of the hash words.
unfoldable pub output : List ℕ → List ℕ
output [] = []
output (h ∷ hs) = u8 (h >>> 24) ∷ u8 (h >>> 16) ∷ u8 (h >>> 8) ∷ u8 h ∷ output hs

-- `lut[c]` for a digit `c` below 16.
pub lut : ℕ → ℕ
lut c = if ltb c 10 then b'0' + c else b'a' + (c - 10)

pub bin_to_hex : List ℕ → List ℕ
unfolding lut
bin_to_hex [] = []
bin_to_hex (c ∷ cs) = lut (c >>> 4) ∷ lut (c % 16) ∷ bin_to_hex cs

pub output_hex : ComputeData → List ℕ
unfolding output bin_to_hex
output_hex d = bin_to_hex (output d.hcomps)

-- The reads of `sha256chk.c`: each buffer is passed to `sha256_update` in turn.
pub hash_pieces : ComputeData → List (List ℕ) → ComputeData
unfolding update
hash_pieces d [] = d
hash_pieces d (p ∷ ps) = hash_pieces (update d p) ps

-- The stack object `cdata`; its content does not matter (see `Message`).
abbrev stack_data : ComputeData
stack_data = record { data_size = 0; hcomps = []; last_chunk = replicate 64 0; chunk_size = 0 }

-- The hexadecimal digest of the pieces in turn, as `sha256_compute_chunk_hash` and
-- `sha256_compute_internal_hash` make it.
pub hex_digest : List (List ℕ) → List ℕ
unfolding compute_data_init hash_pieces finalize output_hex
hex_digest pieces = output_hex (finalize (hash_pieces (compute_data_init stack_data) pieces))
