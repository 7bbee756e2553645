-- ===== src/Config/Lines.antt =====
-- The lines of a configuration file.
use peer_file_torrent.Base.{
  ℕ, ◌≡◌, refl, ap, ◌∙◌, Bool, true, false, List, [], ◌∷◌, ◌++◌, ◌==◌, arith, All, some,
}
use peer_file_torrent.Config.{
  Config, PathKind, skip_char, cut_char, strtok, first_token, entry, parse_value, parse_key,
  parse_entry,
}

-- The string does not have the character.
abbrev pub IsFree : ℕ → List ℕ → Type 0
IsFree d s = All (λ x. (x == d) ≡ false) s

cut_char-append : (d : ℕ) (xs ys : List ℕ) → IsFree d xs → cut_char d (xs ++ (d ∷ ys)) ≡ (xs, ys)
unfolding cut_char
cut_char-append d [] ys h = let own : (d == d) ≡ true = ground arith in rw own refl
cut_char-append d (x ∷ xs) ys h = rw (h.0, cut_char-append d xs ys h.1) refl

skip_char_other : (d x : ℕ) (s : List ℕ) → (x == d) ≡ false → skip_char d (x ∷ s) ≡ x ∷ s
unfolding skip_char
skip_char_other d x s h = rw h refl

strtok-append :
    (d x : ℕ) (xs ys : List ℕ)
    → IsFree d (x ∷ xs)
    → strtok d (x ∷ xs ++ (d ∷ ys)) ≡ some (x ∷ xs, ys)
unfolding strtok first_token
strtok-append d x xs ys h =
    ap (first_token d) (skip_char_other d x (xs ++ (d ∷ ys)) h.0)
    ∙ ap some (cut_char-append d (x ∷ xs) ys h)

-- A line of a key without a colon, a colon, a value and a newline is taken apart into the key and the
-- value, where neither is empty.
pub parse_entry-append :
    {W : Type 0} (stat : W → List ℕ → PathKind) (mkdir : W → List ℕ → W × Bool) (w : W) (c : Config)
    (k : ℕ) (ks : List ℕ) (v : ℕ) (vs : List ℕ)
    → IsFree 58 (k ∷ ks)
    → IsFree 10 (v ∷ vs)
    → parse_entry stat mkdir w c (k ∷ ks ++ (58 ∷ (v ∷ vs ++ (10 ∷ []))))
      ≡ entry stat mkdir w c (k ∷ ks) (v ∷ vs)
unfolding parse_entry parse_key parse_value
parse_entry-append stat mkdir w c k ks v vs hk hv =
    rw (strtok-append 58 k ks (v ∷ vs ++ (10 ∷ [])) hk) (rw (strtok-append 10 v vs [] hv) refl)
