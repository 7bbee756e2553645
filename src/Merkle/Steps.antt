-- ===== src/Merkle/Steps.antt =====
-- What each step of `mtree_from_lvlorder` makes known, and that it keeps what is known.
use Prim.Native.Nat.{max}
use peer_file_torrent.Base.{
  ℕ, ◌+◌, ◌-◌, ◌*◌, ◌/◌, ◌≤◌, ◌<◌, ◌≡◌, refl, inl, inr, Bool-cases, u16, sym, ap, ap₂, ◌∙◌, subst,
  true, Option, some, List, [], ◌∷◌, arith, leb, set, get_elem?, done,
}
use peer_file_torrent.Sha256.{hex_digest}
use peer_file_torrent.Merkle.{
  Node, compute_chunk_hash, internal_hash, compute_internal_hash, key_range, set_metadata,
  build_leaf, link_left, link_right, change,
}
use peer_file_torrent.Merkle.Facts.{
  At, Fact, shaped, final, parented, lefted, righted, Holds, Known, Keeps, Keeps-set, Keeps-trans,
  set_at, At-set, Holds-change,
}

module _ (f : List ℕ) (nhashes : ℕ) (bytes : ℕ → List ℕ) (wanted : ℕ → List ℕ) where
  abbrev Keep : List Node → List Node → Type 0
  Keep = Keeps f nhashes bytes wanted

  abbrev Know : List Node → Fact → ℕ → Type 0
  Know = Known f nhashes bytes wanted

  abbrev Hold : Fact → ℕ → Node → Type 0
  Hold = Holds f nhashes bytes wanted

  Keep-set :
      (ns : List Node) (i : ℕ) (n n' : Node)
      → get_elem? ns i ≡ some n
      → n'.is_leaf ≡ n.is_leaf
      → n'.chunk ≡ n.chunk
      → (n.computed_hash ≡ wanted i → n'.computed_hash ≡ wanted i)
      → (n.left ≡ some (2 * i + 1) → n'.left ≡ some (2 * i + 1))
      → (n.right ≡ some (2 * i + 2) → n'.right ≡ some (2 * i + 2))
      → (n.parent ≡ some ((i - 1) / 2) → n'.parent ≡ some ((i - 1) / 2))
      → Keep ns (set ns i n')
  Keep-set ns i n n' at leaf chunk hash left right parent =
      Keeps-set f nhashes bytes wanted ns i n' at
        (Holds-change f nhashes bytes wanted i n n' leaf chunk hash left right parent)

  -- A leaf gets the hash of its bytes.
  pub compute_chunk_hash-leaf :
      (j : ℕ) (n : Node)
      → Hold shaped j n
      → nhashes ≤ j
      → compute_chunk_hash f n ≡ done (record n { computed_hash = hex_digest (bytes j ∷ []) })
  unfolding compute_chunk_hash
  compute_chunk_hash-leaf j n s h =
      let leaf : n.is_leaf ≡ true = s.flag ∙ ground arith in
      let (c, has, reads) = s.content h in rw (leaf, has, reads)

  pub build_leaf-final :
      (ns : List Node) (i : ℕ)
      → nhashes ≤ i
      → wanted i ≡ hex_digest (bytes i ∷ [])
      → Know ns shaped i
      → (ns' : List Node) × (build_leaf f i ns ≡ done ns') × Keep ns ns' × Know ns' final i
  unfolding build_leaf
  build_leaf-final ns i h e (n, at, s) =
      let n' = record n { height = 0; computed_hash = hex_digest (bytes i ∷ []) } in
      (
        set ns i n',
        rw at (
            rw (
              compute_chunk_hash-leaf i (record n { height = 0 })
                (record { flag = s.flag; content = s.content }) h)),
        Keep-set ns i n n' at refl refl (λ p. sym e) (λ p. p) (λ p. p) (λ p. p),
        set_at ns i n' at (sym e, λ inner. absurd (omega arith)),
      )

  -- Storing the left child's parent.
  pub change_parent :
      (ns : List Node) (c i : ℕ)
      → (c - 1) / 2 ≡ i
      → Know ns shaped c
      → (ns' : List Node) × (change c (λ n. record n { parent = some i }) ns ≡ done ns')
        × Keep ns ns'
        × Know ns' parented c
  change_parent ns c i e (n, at, s) =
      let n' = record n { parent = some i } in
      (
        set ns c n',
        rw at,
        Keep-set ns c n n' at refl refl (λ p. p) (λ p. p) (λ p. p) (λ p. ap some (sym e)),
        set_at ns c n' at (ap some (sym e)),
      )

  pub link_left_lem :
      (ns : List Node) (i : ℕ)
      → Know ns shaped i
      → Know ns shaped (2 * i + 1)
      → (ns' : List Node) × (link_left i (some (2 * i + 1)) ns ≡ done ns')
        × Keep ns ns'
        × Know ns' lefted i
        × Know ns' parented (2 * i + 1)
  unfolding link_left
  link_left_lem ns i (n, at, s) child =
      let n' = record n { left = some (2 * i + 1) } in
      let k = Keep-set ns i n n' at refl refl (λ p. p) (λ p. refl) (λ p. p) (λ p. p) in
      let (ns', runs, k', own) =
        change_parent (set ns i n') (2 * i + 1) i (omega arith) (k.at shaped (2 * i + 1) child) in
      (
        ns',
        rw at runs,
        Keeps-trans f nhashes bytes wanted k k',
        k'.at lefted i (set_at ns i n' at refl),
        own,
      )

  pub link_right_lem :
      (ns : List Node) (i : ℕ)
      → Know ns shaped i
      → Know ns shaped (2 * i + 2)
      → (ns' : List Node) × (link_right i (some (2 * i + 2)) ns ≡ done ns')
        × Keep ns ns'
        × Know ns' righted i
        × Know ns' parented (2 * i + 2)
  unfolding link_right
  link_right_lem ns i (n, at, s) child =
      let n' = record n { right = some (2 * i + 2) } in
      let k = Keep-set ns i n n' at refl refl (λ p. p) (λ p. p) (λ p. refl) (λ p. p) in
      let (ns', runs, k', own) =
        change_parent (set ns i n') (2 * i + 2) i (omega arith) (k.at shaped (2 * i + 2) child) in
      (
        ns',
        rw at runs,
        Keeps-trans f nhashes bytes wanted k k',
        k'.at righted i (set_at ns i n' at refl),
        own,
      )

  -- The key range is read from chunks that are there.
  key_range-done :
      (i : ℕ) (l r : Node)
      → Hold shaped (2 * i + 1) l
      → Hold shaped (2 * i + 2) r
      → (p : ℕ × ℕ) × (key_range l r ≡ done p)
  unfolding key_range
  key_range-done i l r s t = elim (Bool-cases (leb nhashes (2 * i + 1))) [
    | inl leaf ↦
        let (c, has, _) = s.content (ground arith) in
        let (d, has', _) = t.content (ground arith) in
        ((c.offset, d.offset), rw (s.flag, leaf, has, has'))
    | inr inner ↦ ((l.key_lo, r.key_hi), rw (s.flag, inner))
  ]

  pub set_metadata_lem :
      (ns : List Node) (i depth : ℕ)
      → i < nhashes
      → Know ns lefted i
      → Know ns righted i
      → Know ns shaped (2 * i + 1)
      → Know ns shaped (2 * i + 2)
      → (ns' : List Node) × (set_metadata i depth ns ≡ done ns') × Keep ns ns'
  unfolding set_metadata
  set_metadata_lem ns i depth h (n, at, left) (m, at', right) (l, at_l, s) (r, at_r, t) =
      let same : m ≡ n = cc in
      let right' : n.right ≡ some (2 * i + 2) =
        subst (λ (x : Node). x.right ≡ some (2 * i + 2)) same right in
      let ((lo, hi), runs) = key_range-done i l r s t in
      let n' = record n {
        height = u16 (1 + max l.height r.height);
        depth = depth;
        key_lo = lo;
        key_hi = hi;
      } in
      (
        set ns i n',
        rw (at) (rw (left, right') (rw (at_l, at_r) (rw runs))),
        Keep-set ns i n n' at refl refl (λ p. p) (λ p. p) (λ p. p) (λ p. p),
      )

  -- Recomputing an inner node changes its hash alone, to the wanted one.
  pub compute_internal_hash-set :
      (ns : List Node) (i : ℕ)
      → wanted i ≡ hex_digest (wanted (2 * i + 1) ∷ wanted (2 * i + 2) ∷ [])
      → Know ns lefted i
      → Know ns righted i
      → Know ns final (2 * i + 1)
      → Know ns final (2 * i + 2)
      → At ns i (λ n.
        (n.left ≡ some (2 * i + 1))
        × (n.right ≡ some (2 * i + 2))
        × (compute_internal_hash ns i ≡ done (set ns i (record n { computed_hash = wanted i }))))
  unfolding compute_internal_hash
  compute_internal_hash-set ns i e (n, at, left) (m, at', right) (l, at_l, s) (r, at_r, t) =
      let same : m ≡ n = cc in
      let right' : n.right ≡ some (2 * i + 2) =
        subst (λ (x : Node). x.right ≡ some (2 * i + 2)) same right in
      let hash : internal_hash l r ≡ wanted i =
        ap₂ (λ a b. hex_digest (a ∷ b ∷ [])) s.0 t.0 ∙ sym e in
      let runs : compute_internal_hash ns i
          ≡ done (set ns i (record n { computed_hash = internal_hash l r })) =
        rw (at) (rw (left, right') (rw (at_l, at_r))) in
      (
        n,
        at,
        (left, right', runs ∙ ap (λ h. done (set ns i (record n { computed_hash = h }))) hash),
      )

  pub compute_internal_hash-final :
      (ns : List Node) (i : ℕ)
      → wanted i ≡ hex_digest (wanted (2 * i + 1) ∷ wanted (2 * i + 2) ∷ [])
      → Know ns lefted i
      → Know ns righted i
      → Know ns final (2 * i + 1)
      → Know ns final (2 * i + 2)
      → (ns' : List Node) × (compute_internal_hash ns i ≡ done ns')
        × Keep ns ns'
        × Know ns' final i
        × ((j : ℕ) (x : Option ℕ) → At ns j (λ n. n.parent ≡ x) → At ns' j (λ n. n.parent ≡ x))
  compute_internal_hash-final ns i e left right s t =
      let (n, at, (left', right', runs)) = compute_internal_hash-set ns i e left right s t in
      let n' = record n { computed_hash = wanted i } in
      (
        set ns i n',
        runs,
        Keep-set ns i n n' at refl refl (λ p. refl) (λ p. p) (λ p. p) (λ p. p),
        set_at ns i n' at (refl, λ h. (left', right')),
        λ j x. At-set ns i n' j at (λ same p. p),
      )
