-- ===== src/Sha256/Stream.antt =====
-- `sha256_update` in terms of the bytes that have been read so far: whole blocks are in `hcomps`,
-- the rest is in `last_chunk`.
use peer_file_torrent.Base.{
  ℕ, zero, suc, ◌+◌, ◌-◌, ◌*◌, ◌/◌, ◌≤◌, ◌<◌, ◌≡◌, refl, sym, ap, ap₂, subst, ◌∙◌, inl, inr, List,
  [], ◌++◌, arith, append_assoc, append-nil, length, take, drop, leb, u32, u64, Bool-cases,
  length-append, length-take, length-drop, take-append-drop, take-append_eq, drop-drop, true,
}
use peer_file_torrent.Sha256.{
  ComputeData, compress, initial_hcomps, compute_data_init, calculate_chunk, full_chunks, keep_rest,
  fill_chunk, top_up, absorb_rest, update,
}
use peer_file_torrent.Sha256.Blocks.{run, run-append, run-take}

-- `d` has read the message `m`, as `n` blocks and a rest that is shorter than a block.
pub record Absorbs (d : ComputeData) (m : List ℕ) : Type 0 where
  pub n : ℕ
  pub done : List ℕ
  pub rest : List ℕ
  pub junk : List ℕ
  pub split : m ≡ done ++ rest
  pub blocks : length done ≡ 64 * n
  pub short : length rest < 64
  pub hashed : d.hcomps ≡ run n initial_hcomps done
  pub buffer : d.last_chunk ≡ rest ++ junk
  pub room : length d.last_chunk ≡ 64
  pub counted : d.chunk_size ≡ length rest

-- A start of the hash on any memory has read nothing.
pub init-Absorbs : (d : ComputeData) → length d.last_chunk ≡ 64 → Absorbs (compute_data_init d) []
unfolding compute_data_init run
init-Absorbs d e = record {
  n = 0;
  done = [];
  rest = [];
  junk = d.last_chunk;
  split = refl;
  blocks = omega arith;
  short = omega arith;
  hashed = refl;
  buffer = refl;
  room = e;
  counted = refl;
}

-- The loop processes `n` blocks and leaves the bytes behind them.
full_chunks_lem :
    (n : ℕ) (d : ComputeData) (ptr : List ℕ)
    → 64 * n ≤ length ptr
    → full_chunks n d ptr ≡ (record d { hcomps = run n d.hcomps ptr }, drop (64 * n) ptr)
unfolding full_chunks run calculate_chunk
full_chunks_lem zero d ptr h = refl
full_chunks_lem (suc n) d ptr h =
    let more : leb 64 (length ptr) ≡ true = ground arith in
    rw more (
      full_chunks_lem n (calculate_chunk d ptr) (drop 64 ptr) (omega (arith, length-drop 64 ptr))
      ∙ ap
          (λ (t : List ℕ).
            (record d { hcomps = run n (compress d.hcomps (take 64 ptr)) (drop 64 ptr) }, t))
          (drop-drop 64 (64 * n) ptr ∙ ap (λ (j : ℕ). drop j ptr) (omega arith)))

keep_rest-Absorbs :
    {d : ComputeData} {m : List ℕ} (a : Absorbs d m) (ptr : List ℕ)
    → length a.rest + length ptr < 64
    → Absorbs (keep_rest d ptr) (m ++ ptr)
unfolding keep_rest
keep_rest-Absorbs {d} {m} a ptr h = record {
  n = a.n;
  done = a.done;
  rest = a.rest ++ ptr;
  junk = drop (d.chunk_size + length ptr) d.last_chunk;
  split = rw (a.split) (append_assoc a.done a.rest ptr);
  blocks = a.blocks;
  short = rw (length-append) h;
  hashed = a.hashed;
  buffer =
      ap (λ t. t ++ ptr ++ drop (d.chunk_size + length ptr) d.last_chunk)
        (rw (a.buffer) (take-append_eq d.chunk_size a.rest a.junk a.counted));
  room = omega (
    arith,
    a.room,
    a.counted,
    length-append (take d.chunk_size d.last_chunk ++ ptr)
        (drop (d.chunk_size + length ptr) d.last_chunk),
    length-append (take d.chunk_size d.last_chunk) ptr,
    length-take d.chunk_size d.last_chunk,
    length-drop (d.chunk_size + length ptr) d.last_chunk,
  );
  counted = omega (arith, a.counted, length-append a.rest ptr);
}

-- From a state with an empty rest, the loop reads all whole blocks.
full_chunks-Absorbs :
    (n : ℕ) {d : ComputeData} {m : List ℕ} (a : Absorbs d m) (ptr : List ℕ)
    → a.rest ≡ []
    → 64 * n ≤ length ptr
    → d.chunk_size ≡ 0
    → (b : Absorbs (full_chunks n d ptr).0 (m ++ take (64 * n) ptr)) × (b.rest ≡ [])
full_chunks-Absorbs n {d} {m} a ptr none_left h empty = rw (full_chunks_lem n d ptr h) (
  record {
    n = a.n + n;
    done = a.done ++ take (64 * n) ptr;
    rest = [];
    junk = d.last_chunk;
    split = rw (a.split, none_left, append-nil, append-nil);
    blocks =
        omega (arith, a.blocks, length-append a.done (take (64 * n) ptr), length-take (64 * n) ptr);
    short = omega arith;
    hashed =
        run-take n d.hcomps ptr h
        ∙ ap (λ t. run n t (take (64 * n) ptr)) a.hashed
        ∙ sym (run-append a.n n initial_hcomps a.done (take (64 * n) ptr) a.blocks);
    buffer = refl;
    room = a.room;
    counted = empty;
  },
  refl,
)

-- The buffered rest and the bytes that fill it up make one more block.
fill_chunk-Absorbs :
    {d : ComputeData} {m : List ℕ} (a : Absorbs d m) (bytes : List ℕ)
    → 64 ≤ length a.rest + length bytes
    → (b : Absorbs (fill_chunk d bytes) (m ++ take (64 - d.chunk_size) bytes)) × (b.rest ≡ [])
unfolding fill_chunk calculate_chunk run
fill_chunk-Absorbs {d} {m} a bytes h =
    let top = take (64 - d.chunk_size) bytes in
    (
      record {
        n = a.n + 1;
        done = a.done ++ (a.rest ++ top);
        rest = [];
        junk = d.last_chunk;
        split = rw (a.split) (append_assoc a.done a.rest top ∙ sym (append-nil _));
        blocks = omega (
          arith,
          a.blocks,
          a.counted,
          a.short,
          length-append a.done (a.rest ++ top),
          length-append a.rest top,
          length-take (64 - d.chunk_size) bytes,
        );
        short = omega arith;
        hashed =
            ap₂ (λ t u. compress t (take 64 (u ++ top))) a.hashed
              (rw (a.buffer) (take-append_eq d.chunk_size a.rest a.junk a.counted))
            ∙ sym (run-append a.n 1 initial_hcomps a.done (a.rest ++ top) a.blocks);
        buffer = refl;
        room = a.room;
        counted = refl;
      },
      refl,
    )

-- The loop and the copy, from an empty buffer.
absorb_rest-Absorbs :
    {d : ComputeData} {m : List ℕ} (a : Absorbs d m) (ptr : List ℕ)
    → a.rest ≡ []
    → d.chunk_size ≡ 0
    → Absorbs (absorb_rest (d, ptr)) (m ++ ptr)
unfolding absorb_rest
absorb_rest-Absorbs {d} {m} a ptr none_left empty =
    let q = length ptr / 64 in
    let (b, b_none) = full_chunks-Absorbs q a ptr none_left (omega arith) empty in
    let left : (full_chunks q d ptr).1 ≡ drop (64 * q) ptr =
      ap (λ (t : ComputeData × List ℕ). t.1) (full_chunks_lem q d ptr (omega arith)) in
    let read =
      keep_rest-Absorbs b (drop (64 * q) ptr)
        (omega (arith, ap (λ (t : List ℕ). length t) b_none, length-drop (64 * q) ptr)) in
    rw left (
      subst (λ t. Absorbs (keep_rest (full_chunks q d ptr).0 (drop (64 * q) ptr)) t)
        (append_assoc m (take (64 * q) ptr) (drop (64 * q) ptr)
          ∙ ap (λ t. m ++ t) (take-append-drop (64 * q) ptr))
        read)

-- The same where the rest and the new bytes are shorter than a block.
absorb_short-Absorbs :
    {d : ComputeData} {m : List ℕ} (a : Absorbs d m) (ptr : List ℕ)
    → length a.rest + length ptr < 64
    → Absorbs (absorb_rest (d, ptr)) (m ++ ptr)
unfolding absorb_rest full_chunks
absorb_short-Absorbs {d} {m} a ptr h =
    let e : length ptr / 64 ≡ 0 = omega arith in rw e (keep_rest-Absorbs a ptr h)

-- The buffer is topped up, or the bytes are fewer than it still takes.
top_up-Absorbs :
    {d : ComputeData} {m : List ℕ} (a : Absorbs d m) (bytes : List ℕ)
    → length bytes < 4294967232
    → Absorbs (absorb_rest (top_up d bytes)) (m ++ bytes)
unfolding top_up
top_up-Absorbs {d} {m} a bytes fits =
    elim (Bool-cases (leb 64 (u32 (length bytes + d.chunk_size)))) [
      | inl full ↦
          let (b, b_none) = fill_chunk-Absorbs a bytes (ground (arith, a.counted, a.short)) in
          let read = absorb_rest-Absorbs b (drop (64 - d.chunk_size) bytes) b_none refl in
          rw full (
            subst
              (λ t. Absorbs (absorb_rest (fill_chunk d bytes, drop (64 - d.chunk_size) bytes)) t)
              (append_assoc m (take (64 - d.chunk_size) bytes) (drop (64 - d.chunk_size) bytes)
                ∙ ap (λ t. m ++ t) (take-append-drop (64 - d.chunk_size) bytes))
              read)
      | inr part ↦ rw part (absorb_short-Absorbs a bytes (ground (arith, a.counted, a.short)))
    ]

-- A state that differs only in its size has read the same.
sized-Absorbs :
    {d : ComputeData} {m : List ℕ} (s : ℕ) → Absorbs d m → Absorbs (record d { data_size = s }) m
sized-Absorbs s a = record {
  n = a.n;
  done = a.done;
  rest = a.rest;
  junk = a.junk;
  split = a.split;
  blocks = a.blocks;
  short = a.short;
  hashed = a.hashed;
  buffer = a.buffer;
  room = a.room;
  counted = a.counted;
}

-- `sha256_update` reads its bytes behind those that were read before.
pub update-Absorbs :
    {d : ComputeData} {m : List ℕ} (bytes : List ℕ)
    → Absorbs d m
    → length bytes < 4294967232
    → Absorbs (update d bytes) (m ++ bytes)
unfolding update
update-Absorbs {d} bytes a fits =
    top_up-Absorbs (sized-Absorbs (u64 (d.data_size + length bytes)) a) bytes fits

full_chunks-data_size :
    (n : ℕ) (d : ComputeData) (ptr : List ℕ) → (full_chunks n d ptr).0.data_size ≡ d.data_size
unfolding full_chunks
full_chunks-data_size zero d ptr = refl
full_chunks-data_size (suc n) d ptr =
    ground (arith, full_chunks-data_size n (calculate_chunk d ptr) (drop 64 ptr))

absorb_rest-data_size : (p : ComputeData × List ℕ) → (absorb_rest p).data_size ≡ p.0.data_size
unfolding absorb_rest keep_rest
absorb_rest-data_size (d, ptr) = full_chunks-data_size (length ptr / 64) d ptr

top_up-data_size : (d : ComputeData) (bytes : List ℕ) → (top_up d bytes).0.data_size ≡ d.data_size
unfolding top_up fill_chunk calculate_chunk
top_up-data_size d bytes = ground arith

-- `sha256_update` counts its bytes.
pub update-data_size :
    (d : ComputeData) (bytes : List ℕ)
    → (update d bytes).data_size ≡ u64 (d.data_size + length bytes)
unfolding update
update-data_size d bytes =
    let sized = record d { data_size = u64 (d.data_size + length bytes) } in
    absorb_rest-data_size (top_up sized bytes) ∙ top_up-data_size sized bytes
