-- ===== src/Strings/Directory.antt =====
-- `extract_directory` on paths that fit.
use peer_file_torrent.Base.{
  ℕ, suc, ◌+◌, ◌<◌, ◌≡◌, refl, sym, ap, ◌∙◌, arith, false, none, some, List, [], ◌∷◌, ◌++◌, ◌==◌,
  leb, length, take, All, length-append, take-append_eq, append_assoc,
}
use peer_file_torrent.Strings.{or_here, last_slash, cut_directory, extract_directory}

last_slash-none : (i : ℕ) (s : List ℕ) → All (λ x. (x == 47) ≡ false) s → last_slash i s ≡ none
unfolding last_slash or_here
last_slash-none i [] h = refl
last_slash-none i (x ∷ s) h =
    ap (λ o. or_here o x i) (last_slash-none (i + 1) s h.1) ∙ rw (h.0) refl

last_slash-append :
    (i : ℕ) (dir base : List ℕ)
    → All (λ x. (x == 47) ≡ false) base
    → last_slash i (dir ++ (47 ∷ base)) ≡ some (i + length dir)
unfolding last_slash or_here
last_slash-append i [] base h =
    let start : i ≡ i + 0 = omega arith in
    ap (λ o. or_here o 47 i) (last_slash-none (i + 1) base h) ∙ ap some start
last_slash-append i (x ∷ dir) base h =
    let sum : i + 1 + length dir ≡ i + suc (length dir) = omega arith in
    ap (λ o. or_here o x i) (last_slash-append (i + 1) dir base h) ∙ ap some sum

-- Where the last slash of a path stands behind `dir`, and the buffer has room for `dir`, the slash and
-- the end of the string, what is stored is `dir` with the slash.
pub extract_directory-append :
    (dir base : List ℕ) (max_len : ℕ)
    → All (λ x. (x == 47) ≡ false) base
    → length dir + 1 < max_len
    → extract_directory (dir ++ (47 ∷ base)) max_len ≡ dir ++ (47 ∷ [])
unfolding extract_directory cut_directory
extract_directory-append dir base max_len h room =
    let found : last_slash 0 (dir ++ (47 ∷ base)) ≡ some (length dir) =
      last_slash-append 0 dir base h ∙ ap some (omega arith) in
    let fits : leb max_len (length dir + 1) ≡ false = ground arith in
    let split : dir ++ (47 ∷ base) ≡ (dir ++ (47 ∷ [])) ++ base =
      sym (append_assoc dir (47 ∷ []) base) in
    let size : length dir + 1 ≡ length (dir ++ (47 ∷ [])) =
      omega (arith, length-append dir (47 ∷ [])) in
    ap (cut_directory (dir ++ (47 ∷ base)) max_len) found
    ∙ rw fits (
        ap (take (length dir + 1)) split
        ∙ take-append_eq (length dir + 1) (dir ++ (47 ∷ [])) base size)
