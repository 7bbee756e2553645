-- ===== src/Cli/Scan.antt =====
-- src/peer_2_peer/cli.c: how a line is cut into a command and its arguments, and `strtok` and `sscanf`
-- as the commands use them.
use peer_file_torrent.Base.{
  ℕ, zero, suc, ◌-◌, Bool, true, false, not, ◌&&◌, ◌||◌, Option, none, some, List, [], ◌∷◌, ltb,
  leb, ◌==◌, if◌then◌else◌, length, skip_space, u32, Run, done, fault,
}
use peer_file_torrent.Strings.{is_empty}
use peer_file_torrent.Unpack.{word, scan_unsigned}

-- The characters up to one of the delimiters, and what is behind it.
unfoldable pub token_from : (ℕ → Bool) → List ℕ → List ℕ × List ℕ
token_from delim [] = ([], [])
token_from delim (x ∷ s) =
    let (w, rest) = token_from delim s in if delim x then ([], s) else (x ∷ w, rest)

-- `strtok`: the next token, or null, and what is left.
unfoldable pub strtok : (ℕ → Bool) → List ℕ → Option (List ℕ) × List ℕ
strtok delim [] = (none, [])
strtok delim (x ∷ s) =
    let later = strtok delim s in
    let (w, rest) = token_from delim s in if delim x then later else (some (x ∷ w), rest)

-- The delimiters `" \n"` and `"\n"`.
abbrev pub is_blank : ℕ → Bool
is_blank x = x == 32 || x == 10

abbrev pub is_newline : ℕ → Bool
is_newline x = x == 10

-- At most `n` characters that are not a colon, and what is behind them.
unfoldable pub not_colon : ℕ → List ℕ → List ℕ × List ℕ
not_colon zero s = ([], s)
not_colon (suc n) [] = ([], [])
not_colon (suc n) (x ∷ s) =
    let (w, rest) = not_colon n s in if x == 58 then ([], x ∷ s) else (x ∷ w, rest)

-- A colon in front.
unfoldable pub colon : List ℕ → Option (List ℕ)
colon [] = none
colon (x ∷ s) = if x == 58 then some s else none

unfoldable pub port_of : Option (ℕ × List ℕ) → Option ℕ
port_of none = none
port_of (some (n, rest)) = some (u32 n)

unfoldable pub port_behind : Option (List ℕ) → Option ℕ
port_behind none = none
port_behind (some s) = port_of (scan_unsigned s)

unfoldable pub with_ip : List ℕ → Option ℕ → Option (List ℕ × ℕ)
with_ip ip none = none
with_ip ip (some port) = some (ip, port)

-- `sscanf(arguments, "%15[^:]:%u", ip, &port) == 2`.
unfoldable pub scan_address : List ℕ → Option (List ℕ × ℕ)
scan_address s =
    let (ip, rest) = not_colon 15 s in
    if is_empty ip then none else with_ip ip (port_behind (colon rest))

-- The value of a digit in a base up to 16.
unfoldable pub digit : ℕ → Option ℕ
digit x =
    if leb 48 x && leb x 57
    then some (x - 48)
    else (if leb 97 x && leb x 102
        then some (x - 87)
        else (if leb 65 x && leb x 70 then some (x - 55) else none))

unfoldable pub is_digit : ℕ → Option ℕ → Bool
is_digit base none = false
is_digit base (some d) = ltb d base

-- What is behind the digits in front, when there is one or one was seen.
unfoldable pub skip_digits : ℕ → Bool → List ℕ → Option (List ℕ)
skip_digits base seen [] = if seen then some [] else none
skip_digits base seen (x ∷ s) =
    let later = skip_digits base true s in
    if is_digit base (digit x) then later else (if seen then some (x ∷ s) else none)

-- What is behind a number of `%i`, whose base its prefix tells.
unfoldable pub skip_prefix : List ℕ → Option (List ℕ)
skip_prefix [] = some []
skip_prefix (x ∷ s) =
    if x == 120 || x == 88 then skip_digits 16 false s else skip_digits 8 true (x ∷ s)

unfoldable pub skip_based : List ℕ → Option (List ℕ)
skip_based [] = none
skip_based (x ∷ s) = if x == 48 then skip_prefix s else skip_digits 10 false (x ∷ s)

unfoldable pub skip_signed : List ℕ → Option (List ℕ)
skip_signed [] = none
skip_signed (x ∷ s) = if x == 43 || x == 45 then skip_based s else skip_based (x ∷ s)

unfoldable pub skip_integer : List ℕ → Option (List ℕ)
skip_integer s = skip_signed (skip_space s)

-- Whether `%1024s %64s` are both there.
unfoldable pub has_words : Option (List ℕ) → Bool
has_words none = false
has_words (some s) =
    let (ident, rest) = word 1024 (skip_space s) in
    let (hash, behind) = word 64 (skip_space rest) in not (is_empty ident) && not (is_empty hash)

unfoldable pub integer_behind : Option (List ℕ) → Option (List ℕ)
integer_behind none = none
integer_behind (some s) = skip_integer s

-- Whether `sscanf(args, "%[^:]:%i %1024s %64s %i", …)` stores at least four values; an address of more
-- than 15 characters does not fit into its buffer.
unfoldable pub scan_fetch : List ℕ → Run Bool
scan_fetch args =
    let (ip, rest) = not_colon (length args) args in
    if is_empty ip
    then done false
    else (if ltb 15 (length ip) then fault else done (has_words (integer_behind (colon rest))))
