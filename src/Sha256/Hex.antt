-- ===== src/Sha256/Hex.antt =====
-- The hexadecimal digest determines the hash words.
use peer_file_torrent.Base.{
  ℕ, ◌+◌, ◌-◌, ◌*◌, ◌%◌, ◌<◌, ◌≡◌, refl, ap, ap₂, ◌∙◌, List, [], ◌∷◌, arith, All, length, drop, leb,
  if◌then◌else◌, ◌>>>◌,
}
use peer_file_torrent.Sha256.{
  ComputeData, lut, bin_to_hex, output, output_hex, compress, finalize, add_words,
}

abbrev pub IsByte : ℕ → Type 0
IsByte b = b < 256

abbrev pub IsWord : ℕ → Type 0
IsWord w = w < 4294967296

-- The number that a digit stands for.
hex_value : ℕ → ℕ
hex_value c = if leb b'a' c then c - 87 else c - 48

unhex : List ℕ → List ℕ
unfolding hex_value
unhex [] = []
unhex (a ∷ []) = []
unhex (a ∷ b ∷ cs) = (hex_value a * 16 + hex_value b) ∷ unhex cs

-- Big-endian words of four bytes.
pub words_of : List ℕ → List ℕ
words_of (a ∷ b ∷ c ∷ d ∷ bs) = (a * 16777216 + b * 65536 + c * 256 + d) ∷ words_of bs
words_of _ = []

hex_value-lut : (c : ℕ) → c < 16 → hex_value (lut c) ≡ c
unfolding hex_value lut
hex_value-lut c h = ground arith

unhex-bin_to_hex : (bs : List ℕ) → All IsByte bs → unhex (bin_to_hex bs) ≡ bs
unfolding unhex bin_to_hex
unhex-bin_to_hex [] h = refl
unhex-bin_to_hex (b ∷ bs) h =
    ap₂ ◌∷◌ (omega (arith, hex_value-lut (b >>> 4), hex_value-lut (b % 16)))
      (unhex-bin_to_hex bs h.1)

output-IsByte : (hs : List ℕ) → All IsByte (output hs)
unfolding output
output-IsByte [] = tt
output-IsByte (w ∷ hs) =
    (omega arith, (omega arith, (omega arith, (omega arith, output-IsByte hs))))

words_of-output : (hs : List ℕ) → All IsWord hs → words_of (output hs) ≡ hs
unfolding words_of output
words_of-output [] h = refl
words_of-output (w ∷ hs) h = ap₂ ◌∷◌ (omega arith) (words_of-output hs h.1)

-- What a reader of the digest recovers.
pub read_digest : List ℕ → List ℕ
unfolding unhex words_of
read_digest s = words_of (unhex s)

add_words-IsWord : (hs tv : List ℕ) → All IsWord (add_words hs tv)
unfolding add_words
add_words-IsWord [] tv = tt
add_words-IsWord (h ∷ hs) tv = (omega arith, add_words-IsWord hs (drop 1 tv))

compress-IsWord : (hs chunk : List ℕ) → All IsWord (compress hs chunk)
unfolding compress
compress-IsWord hs chunk = add_words-IsWord hs _

-- From the characters of the digest that follows `sha256_finalize` its hash words can be read back,
-- so equal digests come from equal hash words.
pub read_digest-output_hex :
    (d : ComputeData) → read_digest (output_hex (finalize d)) ≡ (finalize d).hcomps
unfolding read_digest output_hex finalize
read_digest-output_hex d =
    let e = finalize d in
    ap words_of (unhex-bin_to_hex (output e.hcomps) (output-IsByte e.hcomps))
    ∙ words_of-output e.hcomps (compress-IsWord _ _)

length-bin_to_hex : (bs : List ℕ) → length (bin_to_hex bs) ≡ 2 * length bs
unfolding bin_to_hex
length-bin_to_hex [] = refl
length-bin_to_hex (b ∷ bs) = omega (arith, length-bin_to_hex bs)

length-output : (hs : List ℕ) → length (output hs) ≡ 4 * length hs
unfolding output
length-output [] = refl
length-output (h ∷ hs) = omega (arith, length-output hs)

pub length-output_hex : (d : ComputeData) → length (output_hex d) ≡ 8 * length d.hcomps
unfolding output_hex
length-output_hex d = omega (arith, length-bin_to_hex (output d.hcomps), length-output d.hcomps)
