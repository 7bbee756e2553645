-- ===== src/Merkle/Build.antt =====
-- `mtree_from_lvlorder` builds the tree that the level-order array describes.
use peer_file_torrent.Base.{
  ℕ, zero, suc, ◌+◌, ◌*◌, ◌≤◌, ◌<◌, ◌≡◌, refl, true, false, Option, some, List, [], ◌∷◌, arith, ltb,
  Bool-cases, inl, inr, ℕ_discrete, subst, u16, u32, Run, done, Ensures, ensure, ensured, and_then,
  weaken, ◌>>=◌,
}
use peer_file_torrent.Sha256.{hex_digest}
use peer_file_torrent.Merkle.{
  Node, link_right, set_metadata, compute_internal_hash, Builder, build_inner, build_node,
  from_lvlorder,
}
use peer_file_torrent.Merkle.Facts.{
  Fact, shaped, final, parented, lefted, righted, Known, Keeps, Keeps-trans,
}
use peer_file_torrent.Merkle.Spec.{size}
use peer_file_torrent.Merkle.Subtree.{
  Under, here, on_left, on_right, Under-le, Under-eq, Under-root,
}
use peer_file_torrent.Merkle.Steps.{
  build_leaf-final, link_left_lem, link_right_lem, set_metadata_lem, compute_internal_hash-final,
}

module _ (f : List ℕ) (nhashes : ℕ) (bytes : ℕ → List ℕ) (wanted : ℕ → List ℕ)
    (small : nhashes < 1073741824)
    (inner : (i : ℕ)
      → i < nhashes
      → wanted i ≡ hex_digest (wanted (2 * i + 1) ∷ wanted (2 * i + 2) ∷ []))
    (leaf : (i : ℕ) → nhashes ≤ i → i < size nhashes → wanted i ≡ hex_digest (bytes i ∷ [])) where
  abbrev Keep : List Node → List Node → Type 0
  Keep = Keeps f nhashes bytes wanted

  abbrev Know : List Node → Fact → ℕ → Type 0
  Know = Known f nhashes bytes wanted

  abbrev Shapely : List Node → Type 0
  Shapely ns = (j : ℕ) → j < size nhashes → Know ns shaped j

  -- The subtree of `i` is finished.
  record Built (i : ℕ) (ns : List Node) : Type 0 where
    hashes : (j : ℕ) → j < size nhashes → Under i j → Know ns final j
    parents : (j : ℕ) → j < size nhashes → Under i j → i < j → Know ns parented j

  -- What a call for `i` ensures: the subtree is finished, and what is known elsewhere is kept.
  abbrev Builds : ℕ → List Node → List Node × Option ℕ → Type 0
  Builds i ns (ns', p) = (p ≡ some i) × Keep ns ns' × Built i ns'

  abbrev IsBuilder : ℕ → Builder → Type 0
  IsBuilder fuel rec =
      (i depth : ℕ) (ns : List Node)
      → i < size nhashes
      → size nhashes ≤ i + fuel
      → Shapely ns
      → Ensures (Builds i ns) (rec i depth ns)

  Shapely-Keep : {ns ns' : List Node} → Keep ns ns' → Shapely ns → Shapely ns'
  Shapely-Keep k s j h = k.at shaped j (s j h)

  Built-Keep : {i : ℕ} {ns ns' : List Node} → Keep ns ns' → Built i ns → Built i ns'
  Built-Keep k b = record {
    hashes = λ j h u. k.at final j (b.hashes j h u);
    parents = λ j h u p. k.at parented j (b.parents j h u p);
  }

  Built-leaf : (i : ℕ) (ns : List Node) → nhashes ≤ i → Know ns final i → Built i ns
  Built-leaf i ns h known = record {
    hashes = λ j k u. subst (Know ns final) (Under-eq u (omega arith)) known;
    parents = λ j k u p. absurd (omega (arith, Under-eq u));
  }

  -- Below a finished index whose own parent is set, all parents are set.
  Built-parents :
      (c : ℕ) (ns : List Node)
      → Know ns parented c
      → Built c ns
      → (j : ℕ) → j < size nhashes
      → Under c j
      → Know ns parented j
  Built-parents c ns own b j k u = elim (ℕ_discrete c j) [
    | yes same ↦ subst (Know ns parented) same own
    | no other ↦ b.parents j k u (omega (arith, Under-le u))
  ]

  Built-inner :
      (i : ℕ) (ns : List Node)
      → Know ns final i
      → Know ns parented (2 * i + 1)
      → Know ns parented (2 * i + 2)
      → Built (2 * i + 1) ns
      → Built (2 * i + 2) ns
      → Built i ns
  Built-inner i ns known pl pr bl br = record {
    hashes = λ j k u. hashes j k u;
    parents = λ j k u p. parents j k u p;
  }
    where
      hashes : (j : ℕ) → j < size nhashes → Under i j → Know ns final j
      hashes j k (here e) = subst (Know ns final) e known
      hashes j k (on_left e u) = bl.hashes j k (subst (λ (c : ℕ). Under c j) e u)
      hashes j k (on_right e u) = br.hashes j k (subst (λ (c : ℕ). Under c j) e u)

      parents : (j : ℕ) → j < size nhashes → Under i j → i < j → Know ns parented j
      parents j k (here e) p = absurd (omega arith)
      parents j k (on_left e u) p =
          Built-parents (2 * i + 1) ns pl bl j k (subst (λ (c : ℕ). Under c j) e u)
      parents j k (on_right e u) p =
          Built-parents (2 * i + 2) ns pr br j k (subst (λ (c : ℕ). Under c j) e u)

  Builds-Keep :
      {i : ℕ} {ns ns' : List Node} {r : Run (List Node × Option ℕ)}
      → Keep ns ns'
      → Ensures (Builds i ns') r
      → Ensures (Builds i ns) r
  Builds-Keep k (ensured (e, k', b)) = ensured (e, Keeps-trans f nhashes bytes wanted k k', b)

  -- The metadata and the hash, once both subtrees are finished and linked.
  finish :
      (i depth : ℕ) (ns : List Node)
      → i < nhashes
      → Shapely ns
      → Know ns lefted i
      → Know ns righted i
      → Know ns parented (2 * i + 1)
      → Know ns parented (2 * i + 2)
      → Built (2 * i + 1) ns
      → Built (2 * i + 2) ns
      → Ensures (Builds i ns) (do
        ns' ← set_metadata i depth ns
        ns'' ← compute_internal_hash ns' i
        done (ns'', some i))
  finish i depth ns h s left right pl pr bl br =
      let (ns1, run1, k1) =
        set_metadata_lem f nhashes bytes wanted ns i depth h left right
          (s (2 * i + 1) (omega arith)) (s (2 * i + 2) (omega arith)) in
      let (ns2, run2, k2, own, _) =
        compute_internal_hash-final f nhashes bytes wanted ns1 i (inner i h) (k1.at lefted i left)
          (k1.at righted i right) (k1.at final _ (bl.hashes (2 * i + 1) (omega arith) (here refl)))
          (k1.at final _ (br.hashes (2 * i + 2) (omega arith) (here refl))) in
      let k = Keeps-trans f nhashes bytes wanted k1 k2 in
      ensure (ns2, some i) (rw (run1, run2))
        (
          refl,
          k,
          Built-inner i ns2 own (k.at parented _ pl) (k.at parented _ pr) (Built-Keep k bl)
              (Built-Keep k br),
        )

  module _ (fuel : ℕ) (rec : Builder) (builds : IsBuilder fuel rec) where
    -- The right subtree, once the left one is finished and linked.
    right_half :
        (i depth : ℕ) (ns : List Node)
        → i < nhashes
        → size nhashes ≤ i + suc fuel
        → Shapely ns
        → Know ns lefted i
        → Know ns parented (2 * i + 1)
        → Built (2 * i + 1) ns
        → Ensures (Builds i ns) (do
          (ns, r) ← rec (2 * i + 2) (u16 (depth + 1)) ns
          ns ← link_right i r ns
          ns ← set_metadata i depth ns
          ns ← compute_internal_hash ns i
          done (ns, some i))
    right_half i depth ns h enough s left pl bl =
        and_then (builds (2 * i + 2) (u16 (depth + 1)) ns (omega arith) (omega arith) s)
          λ (ns1, r) (e, k1, br).
            let s1 = Shapely-Keep k1 s in
            let (ns2, run2, k2, right, pr) =
              link_right_lem f nhashes bytes wanted ns1 i (s1 i (omega arith))
                (s1 (2 * i + 2) (omega arith)) in
            let k = Keeps-trans f nhashes bytes wanted k1 k2 in
            rw (e, run2)
              (Builds-Keep k (
                finish i depth ns2 h (Shapely-Keep k2 s1) (k.at lefted i left) right
                  (k.at parented _ pl) pr (Built-Keep k bl) (Built-Keep k2 br)))

    build_inner-Builds :
        (i depth : ℕ) (ns : List Node)
        → i < nhashes
        → size nhashes ≤ i + suc fuel
        → Shapely ns
        → Ensures (Builds i ns) (build_inner rec i depth ns)
    unfolding build_inner
    build_inner-Builds i depth ns h enough s =
        let l : u32 (2 * i + 1) ≡ 2 * i + 1 = omega arith in
        let r : u32 (2 * i + 2) ≡ 2 * i + 2 = omega arith in
        rw (l, r)
          (and_then (builds (2 * i + 1) (u16 (depth + 1)) ns (omega arith) (omega arith) s)
            λ (ns1, p) (e, k1, bl).
              let s1 = Shapely-Keep k1 s in
              let (ns2, run2, k2, left, pl) =
                link_left_lem f nhashes bytes wanted ns1 i (s1 i (omega arith))
                  (s1 (2 * i + 1) (omega arith)) in
              rw (e, run2)
                (Builds-Keep (Keeps-trans f nhashes bytes wanted k1 k2) (
                  right_half i depth ns2 h enough (Shapely-Keep k2 s1) left pl (Built-Keep k2 bl))))

    build_node-Builds :
        (i depth : ℕ) (ns : List Node)
        → i < size nhashes
        → size nhashes ≤ i + suc fuel
        → Shapely ns
        → Ensures (Builds i ns) (build_node f (size nhashes) rec i depth ns)
    unfolding build_node
    build_node-Builds i depth ns h enough s =
        let inside : ltb i (size nhashes) ≡ true = ground arith in
        elim (Bool-cases (ltb i nhashes)) [
          | inl has ↦
              let l : ltb (u32 (2 * i + 1)) (size nhashes) ≡ true = ground arith in
              let r : ltb (u32 (2 * i + 2)) (size nhashes) ≡ true = ground arith in
              rw (inside, l, r) (build_inner-Builds i depth ns (ground arith) enough s)
          | inr bare ↦
              let l : ltb (u32 (2 * i + 1)) (size nhashes) ≡ false = ground arith in
              let low : nhashes ≤ i = ground arith in
              let (ns', runs, k, own) =
                build_leaf-final f nhashes bytes wanted ns i low (leaf i low h) (s i h) in
              rw (inside, l, runs) (ensured (refl, k, Built-leaf i ns' low own))
        ]

  from_lvlorder-IsBuilder : (fuel : ℕ) → IsBuilder fuel (from_lvlorder f (size nhashes) fuel)
  unfolding from_lvlorder
  from_lvlorder-IsBuilder zero i depth ns h enough s = absurd (omega arith)
  from_lvlorder-IsBuilder (suc fuel) i depth ns h enough s =
      build_node-Builds fuel (from_lvlorder f (size nhashes) fuel) (from_lvlorder-IsBuilder fuel) i
        depth ns h enough s

  -- With as many rounds as there are nodes, the call for the root returns it, and every node has
  -- its wanted hash, its children and its parent.
  pub from_lvlorder_root :
      (ns : List Node)
      → Shapely ns
      → Ensures
          (λ (ns', p).
            (p ≡ some 0)
            × ((j : ℕ) → j < size nhashes → Know ns' final j × Know ns' shaped j)
            × ((j : ℕ) → 0 < j → j < size nhashes → Know ns' parented j))
          (from_lvlorder f (size nhashes) (size nhashes) 0 0 ns)
  from_lvlorder_root ns s =
      weaken (from_lvlorder-IsBuilder (size nhashes) 0 0 ns (omega arith) (omega arith) s)
        λ (ns', p) (e, k, b). (
          e,
          λ j h. (b.hashes j h (Under-root (suc j) j (omega arith)), k.at shaped j (s j h)),
          λ j q h. b.parents j h (Under-root (suc j) j (omega arith)) q,
        )
