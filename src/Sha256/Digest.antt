-- ===== src/Sha256/Digest.antt =====
-- `sha256_finalize` against the padded message: the end marker, the zeros and the size.
use peer_file_torrent.Base.{
  ℕ, zero, suc, ◌+◌, ◌-◌, ◌*◌, ◌/◌, ◌%◌, ◌≤◌, ◌<◌, ◌≡◌, refl, sym, ap, ap₂, ◌∙◌, inl, inr, List, [],
  ◌∷◌, ◌++◌, arith, append_assoc, length, take, set, replicate, ltb, u64, u8, ◌>>>◌, Bool-cases,
  if◌then◌else◌, length-append, take-append_eq, true, false, set-append_right, replicate-add,
  length-replicate,
}
use peer_file_torrent.Sha256.{
  ComputeData, compress, initial_hcomps, mark_end, write_size, spill, finalize,
}
use peer_file_torrent.Sha256.Blocks.{run, run-append, size_bytes, padding, sha256}
use peer_file_torrent.Sha256.Stream.{Absorbs}

-- `write_size` on the last bytes alone.
write_low : ℕ → ℕ → List ℕ → List ℕ
write_low zero size b = b
write_low (suc i) size b = write_low i (size >>> 8) (set b i (size % 256))

write_size-append :
    (i size : ℕ) (a b : List ℕ)
    → length a ≡ 56
    → write_size i size (a ++ b) ≡ a ++ write_low i size b
unfolding write_size write_low
write_size-append zero size a b e = refl
write_size-append (suc i) size a b e =
    ap (λ t. write_size i (size >>> 8) t)
      (ap (λ (j : ℕ). set (a ++ b) (j + i) (size % 256)) (sym e)
        ∙ set-append_right a b i (size % 256))
    ∙ write_size-append i (size >>> 8) a (set b i (size % 256)) e

write_low_lem : (size : ℕ) → write_low 8 size (replicate 8 0) ≡ size_bytes size
unfolding write_low size_bytes
write_low_lem size = ground arith

write_size_lem :
    (size : ℕ) (a : List ℕ)
    → length a ≡ 56
    → write_size 8 size (a ++ replicate 8 0) ≡ a ++ size_bytes size
write_size_lem size a e =
    write_size-append 8 size a (replicate 8 0) e ∙ ap (λ t. a ++ t) (write_low_lem size)

-- The buffer behind the rest: the marker and zeros.
set_end :
    (r junk : List ℕ)
    → length r + length junk ≡ 64
    → length r < 64
    → take (length r + 1) (set (r ++ junk) (length r) 0x80) ≡ r ++ 0x80 ∷ []
set_end r [] e h = absurd (omega arith)
set_end r (j ∷ js) e h =
    let here : length r ≡ length r + 0 = omega arith in
    ap (λ t. take (length r + 1) t)
      (ap (λ (i : ℕ). set (r ++ j ∷ js) i 0x80) here
        ∙ set-append_right r (j ∷ js) 0 0x80
        ∙ sym (append_assoc r (0x80 ∷ []) js))
    ∙ take-append_eq (length r + 1) (r ++ 0x80 ∷ []) js (omega (arith, length-append r (0x80 ∷ [])))

module _ {d : ComputeData} {m : List ℕ} (a : Absorbs d m) where
  mark_end-chunk :
      (mark_end d).last_chunk ≡ (a.rest ++ 0x80 ∷ []) ++ replicate (63 - length a.rest) 0
  unfolding mark_end
  mark_end-chunk =
      let size : u8 (d.chunk_size + 1) ≡ length a.rest + 1 = omega (arith, a.counted, a.short) in
      let zeros : 64 - u8 (d.chunk_size + 1) ≡ 63 - length a.rest = omega arith in
      let full : length a.rest + length a.junk ≡ 64 =
        omega
          (arith, a.room, ap (λ (t : List ℕ). length t) a.buffer, length-append a.rest a.junk) in
      ap₂ ◌++◌
        (ap₂ take size (ap₂ (λ b (c : ℕ). set b c 0x80) a.buffer a.counted)
          ∙ set_end a.rest a.junk full a.short)
        (ap (λ (j : ℕ). replicate j 0) zeros)

  mark_end-size : (mark_end d).chunk_size ≡ length a.rest + 1
  unfolding mark_end
  mark_end-size = omega (arith, a.counted, a.short)

-- The padded message from its rest on.
tail_of : List ℕ → ℕ → List ℕ
tail_of r size = ((r ++ 0x80 ∷ []) ++ replicate ((119 - length r) % 64) 0) ++ size_bytes size

length-tail_of :
    (r : List ℕ) (size : ℕ)
    → length r < 64
    → length (tail_of r size) ≡ (if ltb 55 (length r) then 128 else 64)
unfolding tail_of size_bytes
length-tail_of r size h = ground (
  arith,
  length-append ((r ++ 0x80 ∷ []) ++ replicate ((119 - length r) % 64) 0) (size_bytes size),
  length-append (r ++ 0x80 ∷ []) (replicate ((119 - length r) % 64) 0),
  length-append r (0x80 ∷ []),
  length-replicate {A = ℕ} ((119 - length r) % 64) 0,
)

-- The hash of the message is that of its blocks, and then of the tail.
sha256-tail :
    (n : ℕ) (done r : List ℕ)
    → length done ≡ 64 * n
    → length r < 64
    → sha256 (done ++ r)
      ≡ run
          (if ltb 55 (length r) then 2 else 1)
          (run n initial_hcomps done)
          (tail_of r (u64 (length (done ++ r) * 8)))
unfolding sha256 padding tail_of
sha256-tail n done r e h =
    let size = u64 (length (done ++ r) * 8) in
    let zeros : (119 - length (done ++ r) % 64) % 64 ≡ (119 - length r) % 64 =
      omega (arith, length-append done r) in
    let padded : (done ++ r) ++ padding (length (done ++ r)) ≡ done ++ tail_of r size =
      ap (λ (j : ℕ). (done ++ r) ++ (0x80 ∷ (replicate j 0 ++ size_bytes size))) zeros
      ∙ append_assoc done r (0x80 ∷ (replicate ((119 - length r) % 64) 0 ++ size_bytes size))
      ∙ ap (λ t. done ++ t)
          (sym (
            append_assoc (r ++ 0x80 ∷ []) (replicate ((119 - length r) % 64) 0) (size_bytes size)
            ∙ append_assoc r (0x80 ∷ [])
                (replicate ((119 - length r) % 64) 0 ++ size_bytes size))) in
    let blocks : length (done ++ tail_of r size) / 64 ≡ n + (if ltb 55 (length r) then 2 else 1) =
      ground (arith, length-append done (tail_of r size), length-tail_of r size) in
    ap (λ t. run (length t / 64) initial_hcomps t) padded
    ∙ ap (λ (j : ℕ). run j initial_hcomps (done ++ tail_of r size)) blocks
    ∙ run-append n (if ltb 55 (length r) then 2 else 1) initial_hcomps done (tail_of r size) e

-- The marked buffer, with its zeros cut at the eight bytes for the size.
marked_split :
    (r : List ℕ)
    → length r ≤ 55
    → (r ++ 0x80 ∷ []) ++ replicate (63 - length r) 0
      ≡ ((r ++ 0x80 ∷ []) ++ replicate (55 - length r) 0) ++ replicate 8 0
marked_split r h =
    let zeros : 63 - length r ≡ 55 - length r + 8 = omega arith in
    ap (λ (j : ℕ). (r ++ 0x80 ∷ []) ++ replicate j 0) zeros
    ∙ ap (λ t. (r ++ 0x80 ∷ []) ++ t) (sym (replicate-add (55 - length r) 8 0))
    ∙ sym (append_assoc (r ++ 0x80 ∷ []) (replicate (55 - length r) 0) (replicate 8 0))

-- What the code hashes when the size fits behind the marker.
fits_lem :
    (r h : List ℕ) (size : ℕ)
    → length r ≤ 55
    → compress h (take 64 (write_size 8 size ((r ++ 0x80 ∷ []) ++ replicate (63 - length r) 0)))
      ≡ run 1 h (tail_of r size)
unfolding run tail_of
fits_lem r h size small =
    let zeros : 55 - length r ≡ (119 - length r) % 64 = omega arith in
    ap (λ t. compress h (take 64 t))
      (ap (λ t. write_size 8 size t) (marked_split r small)
        ∙ write_size_lem size ((r ++ 0x80 ∷ []) ++ replicate (55 - length r) 0) (
            omega (
              arith,
              length-append (r ++ 0x80 ∷ []) (replicate (55 - length r) 0),
              length-append r (0x80 ∷ []),
              length-replicate {A = ℕ} (55 - length r) 0,
            ))
        ∙ ap (λ (j : ℕ). ((r ++ 0x80 ∷ []) ++ replicate j 0) ++ size_bytes size) zeros)

-- What it hashes when the marker's chunk goes first and the size into a chunk of its own.
spills_lem :
    (r h : List ℕ) (size : ℕ)
    → 55 < length r
    → length r < 64
    → compress
        (compress h (take 64 ((r ++ 0x80 ∷ []) ++ replicate (63 - length r) 0)))
        (take 64 (write_size 8 size (replicate 64 0)))
      ≡ run 2 h (tail_of r size)
unfolding run tail_of
spills_lem r h size large short =
    let r_end = r ++ 0x80 ∷ [] in
    let first = r_end ++ replicate (63 - length r) 0 in
    let zeros : 63 - length r + 56 ≡ (119 - length r) % 64 = omega arith in
    let len : length first ≡ 64 * 1 = omega (
      arith,
      length-append r_end (replicate (63 - length r) 0),
      length-append r (0x80 ∷ []),
      length-replicate {A = ℕ} (63 - length r) 0,
    ) in
    ap (λ t. compress (compress h (take 64 first)) (take 64 t))
      (write_size_lem size (replicate 56 0) refl)
    ∙ sym (run-append 1 1 h first (replicate 56 0 ++ size_bytes size) len)
    ∙ ap (λ t. run 2 h t)
        (sym (append_assoc first (replicate 56 0) (size_bytes size))
          ∙ ap (λ t. t ++ size_bytes size)
              (append_assoc r_end (replicate (63 - length r) 0) (replicate 56 0)
                ∙ ap (λ t. r_end ++ t)
                    (replicate-add (63 - length r) 56 0 ∙ ap (λ (j : ℕ). replicate j 0) zeros)))

-- The last chunk of `sha256_finalize`, from the state behind `spill`.
last_compress : ComputeData → List ℕ
last_compress e = compress e.hcomps (take 64 (write_size 8 (u64 (e.data_size * 8)) e.last_chunk))

finalize-last_compress :
    (d : ComputeData) → (finalize d).hcomps ≡ last_compress (spill (mark_end d))
unfolding finalize last_compress
finalize-last_compress d = refl

spill_big :
    (e : ComputeData)
    → 56 < e.chunk_size
    → last_compress (spill e)
      ≡ compress
          (compress e.hcomps (take 64 e.last_chunk))
          (take 64 (write_size 8 (u64 (e.data_size * 8)) (replicate 64 0)))
unfolding spill last_compress
spill_big e h = let big : ltb 56 e.chunk_size ≡ true = ground arith in rw big

spill_small : (e : ComputeData) → e.chunk_size ≤ 56 → last_compress (spill e) ≡ last_compress e
unfolding spill
spill_small e h = let small : ltb 56 e.chunk_size ≡ false = ground arith in rw small

mark_end-hcomps : (d : ComputeData) → (mark_end d).hcomps ≡ d.hcomps
unfolding mark_end
mark_end-hcomps d = refl

mark_end-data_size : (d : ComputeData) → (mark_end d).data_size ≡ d.data_size
unfolding mark_end
mark_end-data_size d = refl

-- The state that has read `m`, and counted its bytes, ends in the hash of `m`.
module _ {d : ComputeData} {m : List ℕ} (a : Absorbs d m)
    (counted : d.data_size ≡ u64 (length m)) where
  hashed_size : u64 ((mark_end d).data_size * 8) ≡ u64 (length (a.done ++ a.rest) * 8)
  hashed_size = omega (arith, counted, mark_end-data_size d, ap (λ (t : List ℕ). length t) a.split)

  hashed_start : (mark_end d).hcomps ≡ run a.n initial_hcomps a.done
  hashed_start = mark_end-hcomps d ∙ a.hashed

  finalize_big : 55 < length a.rest → (finalize d).hcomps ≡ sha256 (a.done ++ a.rest)
  finalize_big h =
      let two : ltb 55 (length a.rest) ≡ true = ground arith in
      finalize-last_compress d
      ∙ spill_big (mark_end d) (omega (arith, mark_end-size a))
      ∙ ap₂ (λ s t. compress s (take 64 t))
          (ap₂ (λ s t. compress s (take 64 t)) hashed_start (mark_end-chunk a))
          (ap (λ (j : ℕ). write_size 8 j (replicate 64 0)) hashed_size)
      ∙ spills_lem a.rest (run a.n initial_hcomps a.done) (u64 (length (a.done ++ a.rest) * 8)) h
          a.short
      ∙ sym (rw two at (sha256-tail a.n a.done a.rest a.blocks a.short))

  finalize_small : length a.rest ≤ 55 → (finalize d).hcomps ≡ sha256 (a.done ++ a.rest)
  unfolding last_compress
  finalize_small h =
      let one : ltb 55 (length a.rest) ≡ false = ground arith in
      finalize-last_compress d
      ∙ spill_small (mark_end d) (omega (arith, mark_end-size a))
      ∙ ap₂ (λ s t. compress s (take 64 t)) hashed_start
          (ap₂ (λ (j : ℕ) t. write_size 8 j t) hashed_size (mark_end-chunk a))
      ∙ fits_lem a.rest (run a.n initial_hcomps a.done) (u64 (length (a.done ++ a.rest) * 8)) h
      ∙ sym (rw one at (sha256-tail a.n a.done a.rest a.blocks a.short))

  pub finalize-sha256 : (finalize d).hcomps ≡ sha256 m
  finalize-sha256 = rw (a.split) (elim (Bool-cases (ltb 55 (length a.rest))) [
    | inl big ↦ finalize_big (ground arith)
    | inr small ↦ finalize_small (ground arith)
  ])
