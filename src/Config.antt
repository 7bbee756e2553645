-- ===== src/Config.antt =====
-- src/config.c and include/config.h: the configuration file. The file system is a parameter: a state
-- of the world with `stat` and `mkdir`.
pub mod Range
pub mod Lines
use peer_file_torrent.Base.{
  ℕ, zero, suc, ◌+◌, ◌-◌, ◌*◌, Bool, true, false, ◌&&◌, ◌||◌, not, Option, none, some, List, [],
  ◌∷◌, ◌==◌, leb, ltb, if◌then◌else◌, str_eq, isspace, skip_space, take, length,
}

-- `config_t`, with the directory as the string that it holds.
pub record Config : Type 0 where
  pub directory : List ℕ
  pub max_peers : ℕ
  pub port : ℕ

-- What `stat` says of a path.
pub data PathKind : Type 0 where
  is_dir is_other missing unknown : PathKind

-- What the code does: it returns 0 or another code, ends the process, or computes with an integer
-- outside the range of `int`.
pub data Parse (W : Type 0) : Type 0 where
  stored : W → Config → Parse W
  rejected : ℕ → Parse W
  exits : ℕ → Parse W
  undefined : Parse W

-- ERR_DIRECTORY, ERR_PEERS and ERR_PORT; 255 stands for -1.
abbrev pub err_directory : ℕ
err_directory = 3

abbrev pub err_peers : ℕ
err_peers = 4

abbrev pub err_port : ℕ
err_port = 5

abbrev pub err_parse : ℕ
err_parse = 255

-- `strtok` for one delimiter: leading delimiters are skipped, and the token ends at the next one.
unfoldable pub skip_char : ℕ → List ℕ → List ℕ
skip_char d [] = []
skip_char d (x ∷ s) = let rest = skip_char d s in if x == d then rest else x ∷ s

unfoldable pub cut_char : ℕ → List ℕ → List ℕ × List ℕ
cut_char d [] = ([], [])
cut_char d (x ∷ s) =
    let (before, after) = cut_char d s in if x == d then ([], s) else (x ∷ before, after)

unfoldable pub first_token : ℕ → List ℕ → Option (List ℕ × List ℕ)
first_token d [] = none
first_token d (x ∷ s) = some (cut_char d (x ∷ s))

unfoldable pub strtok : ℕ → List ℕ → Option (List ℕ × List ℕ)
strtok d s = first_token d (skip_char d s)

-- The digits at the start of a string, after the value so far.
unfoldable pub digits : ℕ → List ℕ → ℕ
digits n [] = n
digits n (x ∷ s) =
    let rest = digits (10 * n + (x - 48)) s in if leb 48 x && leb x 57 then rest else n

-- `atoi`: whether there is a minus sign, and the magnitude.
unfoldable pub atoi_sign : List ℕ → Bool × ℕ
atoi_sign [] = (false, 0)
atoi_sign (x ∷ s) =
    if x == 45
    then (true, digits 0 s)
    else (if x == 43 then (false, digits 0 s) else (false, digits 0 (x ∷ s)))

unfoldable pub atoi : List ℕ → Bool × ℕ
atoi s = atoi_sign (skip_space s)

-- The test against a least value, which is positive, and a greatest.
unfoldable pub outside : ℕ → ℕ → Bool × ℕ → Bool
outside low high (negative, n) = negative || (ltb n low || ltb high n)

-- The magnitude is that of an `int`.
unfoldable pub fits_int : Bool × ℕ → Bool
fits_int (negative, n) = leb n 2147483647

-- The rest of the loop of `config_load`, which any code but 0 ends with a null pointer.
unfoldable pub and_next : {W : Type 0} → Parse W → (W → Config → Parse W) → Parse W
and_next (stored w c) next = next w c
and_next (rejected code) next = rejected code
and_next (exits code) next = exits code
and_next undefined next = undefined

-- A value that has to lie in a range, and what is done with it then.
unfoldable pub ranged : {W : Type 0} → W → ℕ → ℕ → ℕ → (ℕ → Config) → List ℕ → Parse W
ranged w low high code put value =
    if fits_int (atoi value)
    then (if outside low high (atoi value) then rejected code else stored w (put (atoi value).1))
    else undefined

-- The check of `config_load` behind its loop.
unfoldable pub is_filled : Config → Bool
is_filled c = not (length c.directory == 0) && (not (c.max_peers == 0) && not (c.port == 0))

module _ {W : Type 0} (stat : W → List ℕ → PathKind) (mkdir : W → List ℕ → W × Bool) where
  -- `check_directory`, once the path is stored in `c`.
  unfoldable pub directory_of_kind : W → Config → PathKind → Parse W
  directory_of_kind w c is_dir = stored w c
  directory_of_kind w c is_other = exits 3
  directory_of_kind w c missing =
      let (w', created) = mkdir w c.directory in
      if created then stored w' c else rejected err_directory
  directory_of_kind w c unknown = rejected err_directory

  unfoldable pub check_directory : W → Config → Parse W
  check_directory w c = directory_of_kind w c (stat w c.directory)

  -- `parse_entry` for a key and its value.
  unfoldable pub entry : W → Config → List ℕ → List ℕ → Parse W
  entry w c key value =
      if str_eq key (100 ∷ 105 ∷ 114 ∷ 101 ∷ 99 ∷ 116 ∷ 111 ∷ 114 ∷ 121 ∷ [])
      then check_directory w (record c { directory = take 255 value })
      else (if str_eq key (109 ∷ 97 ∷ 120 ∷ 95 ∷ 112 ∷ 101 ∷ 101 ∷ 114 ∷ 115 ∷ [])
          then ranged w 1 2048 err_peers (λ n. record c { max_peers = n }) value
          else (if str_eq key (112 ∷ 111 ∷ 114 ∷ 116 ∷ [])
              then ranged w 1024 65535 err_port (λ n. record c { port = n }) value
              else rejected err_parse))

  -- `parse_entry`: the key ends at the first colon, and the value at the end of the line.
  unfoldable pub parse_value : W → Config → List ℕ → Option (List ℕ × List ℕ) → Parse W
  parse_value w c key none = rejected err_parse
  parse_value w c key (some (value, rest)) = entry w c key value

  unfoldable pub parse_key : W → Config → Option (List ℕ × List ℕ) → Parse W
  parse_key w c none = rejected err_parse
  parse_key w c (some (key, rest)) = parse_value w c key (strtok 10 rest)

  unfoldable pub parse_entry : W → Config → List ℕ → Parse W
  parse_entry w c line = parse_key w c (strtok 58 line)

  -- `config_load`, into the memory that `c` holds: `lines` are the buffers that `fgets` fills.
  unfoldable pub config_load : W → Config → List (List ℕ) → Parse W
  config_load w c [] = if is_filled c then stored w c else rejected err_parse
  config_load w c (line ∷ lines) =
      and_next (parse_entry w c line) (λ w' c'. config_load w' c' lines)
