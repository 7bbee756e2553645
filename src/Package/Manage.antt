-- ===== src/Package/Manage.antt =====
-- The managed packages as a list of objects.
use peer_file_torrent.Base.{
  ℕ, zero, suc, ◌%◌, ◌<◌, ◌≡◌, ◌≢◌, refl, ap, ◌∙◌, inl, inr, arith, Bool, true, false, Option, none,
  some, List, [], ◌∷◌, ◌++◌, length, get_elem?, All, Bool-cases, Run, fail,
}
use peer_file_torrent.Queue.Chain.{Cells, first, last, Chain}
use peer_file_torrent.Queue.Fifo.{IsQueue}
use peer_file_torrent.Package.{Bpkg, Bpkgs, rem_loop, rem_step, remove_at, is_named}

-- The object `x` is a package.
abbrev pub IsAlive : Bpkgs → ℕ → Type 0
IsAlive b x = (p : Bpkg) × (get_elem? b.objects x ≡ some (some p))

-- The object `x` is a package whose identifier starts with `ident`.
abbrev pub named : Bpkgs → List ℕ → ℕ → Bool
named b ident x = elim (get_elem? b.objects x) [
  | none ↦ false
  | some cell ↦ elim cell [ none ↦ false | some p ↦ is_named ident p ]
]

-- No object is listed twice.
abbrev pub Apart : List ℕ → Type 0
Apart [] = Unit
Apart (x ∷ xs) = All (λ y. x ≢ y) xs × Apart xs

-- The managed packages are the objects `xs`, in the order of the list; the count is their number,
-- modulo 256.
pub record IsBpkgs (b : Bpkgs) (xs : List ℕ) : Type 0 where
  pub list : IsQueue b.ls xs
  pub alive : All (IsAlive b) xs
  pub apart : Apart xs
  pub count : b.count ≡ length xs % 256

-- The address before a node: that of the last of `ps`, or `previous`.
abbrev pub last_or : Option ℕ → Cells → Option ℕ
last_or previous [] = previous
last_or previous (p ∷ ps) = last_or (some p.0) ps

pub last_or-last :
    (previous : Option ℕ) (p : ℕ × ℕ) (ps : Cells) → last_or previous (p ∷ ps) ≡ last (p ∷ ps)
last_or-last previous p [] = refl
last_or-last previous p (q ∷ ps) = last_or-last (some p.0) q ps

-- What the loop of `pkgs_rem` does with the rest of the list.
pub data Search (b : Bpkgs) (ident : List ℕ) (previous : Option ℕ) (rest : Cells)
    : Run Bpkgs → Type 0 where
  missing : All (λ c. named b ident c.1 ≡ false) rest → Search b ident previous rest fail
  removed :
      (mid : Cells) (c : ℕ × ℕ) (post : Cells)
      → rest ≡ mid ++ (c ∷ post)
      → All (λ d. named b ident d.1 ≡ false) mid
      → named b ident c.1 ≡ true
      → Search b ident previous rest
          (remove_at b (last_or previous mid) c.0 (record { q_data = c.1; next = first post }))

module _ (b : Bpkgs) (ident : List ℕ) where
  Search-later :
      (previous : Option ℕ) (c : ℕ × ℕ) (ps : Cells) (r : Run Bpkgs)
      → named b ident c.1 ≡ false
      → Search b ident (some c.0) ps r
      → Search b ident previous (c ∷ ps) r
  Search-later previous c ps r e (missing h) = missing (e, h)
  Search-later previous c ps r e (removed mid d post same h f) =
      removed (c ∷ mid) d post (ap (λ xs. c ∷ xs) same) (e, h) f

  -- The loop looks for the first package with the identifier.
  pub rem_loop-Search :
      (fuel : ℕ) (previous : Option ℕ) (rest : Cells)
      → Chain b.ls.heap rest
      → All (λ c. IsAlive b c.1) rest
      → length rest < fuel
      → Search b ident previous rest (rem_loop fuel b ident previous (first rest))
  unfolding rem_loop rem_step
  rem_loop-Search zero previous rest k alive enough = absurd (omega arith)
  rem_loop-Search (suc fuel) previous [] k alive enough = missing tt
  rem_loop-Search (suc fuel) previous (c ∷ ps) (e, apart, k) ((p, at), alive) enough =
      let own : named b ident c.1 ≡ is_named ident p = rw (named, at) refl in
      rw (e) (
        rw (at) (elim (Bool-cases (is_named ident p)) [
          | inl t ↦ rw t (removed [] c ps refl tt (own ∙ t))
          | inr f ↦ rw f (
              Search-later previous c ps _ (own ∙ f)
                (rem_loop-Search fuel (some c.0) ps k alive (omega arith)))
        ]))
