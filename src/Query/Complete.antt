-- ===== src/Query/Complete.antt =====
-- The queries over subtrees: the completed subtrees and the chunks.
use peer_file_torrent.Base.{
  ℕ, zero, suc, ◌+◌, ◌*◌, ◌≤◌, ◌<◌, ◌≡◌, refl, sym, ap, ap₂, ◌∙◌, subst, inl, inr, Bool, true,
  false, Option, none, some, List, [], ◌∷◌, ◌++◌, arith, leb, get_elem?, map, All, All-append,
  All-map, Any, Any-append_left, Any-append_right, map-append, append-nil, Run, Bool-cases, Ensures,
  ensured, and_then,
}
use peer_file_torrent.Merkle.{Node, check_chunk}
use peer_file_torrent.Merkle.Facts.{At}
use peer_file_torrent.Merkle.Spec.{size}
use peer_file_torrent.Merkle.Subtree.{
  Under, here, on_left, on_right, Under-le, Under-eq, Under-trans, Under-siblings,
}
use peer_file_torrent.Query.{
  merge_found, largest_at, chunks_at, get_largest_completed_subtree, get_subtree_chunks,
}

merge_found-append : (l r : List (List ℕ)) → merge_found l r ≡ l ++ r
unfolding merge_found
merge_found-append [] [] = refl
merge_found-append [] (x ∷ r) = ground arith
merge_found-append (x ∷ l) [] = let e = append-nil (x ∷ l) in ground arith
merge_found-append (x ∷ l) (y ∷ r) = ground arith

module _ (ns : List Node) (nhashes : ℕ) where
  -- Leaf flags and child pointers are those of the level order.
  pub record IsLinked : Type 0 where
    pub at :
        (j : ℕ)
        → j < size nhashes
        → At ns j (λ n.
          (n.is_leaf ≡ leb nhashes j)
          × (j < nhashes → (n.left ≡ some (2 * j + 1)) × (n.right ≡ some (2 * j + 2))))

-- The expected hash of `nodes[j]`, and whether it is complete.
abbrev pub expected : List Node → ℕ → List ℕ
expected ns j = elim (get_elem? ns j) [ none ↦ [] | some n ↦ n.expected_hash ]

abbrev pub checked : List Node → ℕ → Bool
checked ns j = elim (get_elem? ns j) [ none ↦ false | some n ↦ check_chunk n ]

module _ (ns : List Node) (nhashes : ℕ) where
  -- `js` are complete nodes under `i`, with no complete node between `i` and them, and every complete
  -- node under `i` lies under one of them.
  pub record IsMinimal (i : ℕ) (js : List ℕ) : Type 0 where
    pub sound :
        All
          (λ a.
            Under i a
            × (checked ns a ≡ true)
            × ((b : ℕ) → Under i b → Under b a → checked ns b ≡ true → b ≡ a))
          js
    pub cover :
        (j : ℕ) → j < size nhashes → Under i j → checked ns j ≡ true → Any (λ a. Under a j) js

  IsMinimal-own : (i : ℕ) → checked ns i ≡ true → IsMinimal i (i ∷ [])
  IsMinimal-own i e = record {
    sound = ((here refl, e, λ b u v _. omega (arith, Under-le u, Under-le v)), tt);
    cover = λ j h u _. inl u;
  }

  IsMinimal-leaf : (i : ℕ) → nhashes ≤ i → checked ns i ≡ false → IsMinimal i []
  IsMinimal-leaf i low e = record {
    sound = tt;
    cover = λ j h u f.
        let same : i ≡ j = Under-eq u (omega arith) in
        let f' : checked ns i ≡ true = subst (λ (x : ℕ). checked ns x ≡ true) (sym same) f in
        absurd (cc (sym e ∙ f'));
  }

  IsMinimal-inner :
      (i : ℕ) (jl jr : List ℕ)
      → checked ns i ≡ false
      → IsMinimal (2 * i + 1) jl
      → IsMinimal (2 * i + 2) jr
      → IsMinimal i (jl ++ jr)
  IsMinimal-inner i jl jr e ml mr = record {
    sound =
        All-append _ jl jr
          (All-map jl ml.sound λ a (u, c, least). (on_left refl u, c, left a u least))
          (All-map jr mr.sound λ a (u, c, least). (on_right refl u, c, right a u least));
    cover = cover;
  }
    where
      own : (b : ℕ) → i ≡ b → checked ns b ≡ true → ⊥
      own b same c =
          let c' : checked ns i ≡ true = subst (λ (x : ℕ). checked ns x ≡ true) (sym same) c in
          cc (sym e ∙ c')

      left :
          (a : ℕ)
          → Under (2 * i + 1) a
          → ((b : ℕ) → Under (2 * i + 1) b → Under b a → checked ns b ≡ true → b ≡ a)
          → (b : ℕ) → Under i b
          → Under b a
          → checked ns b ≡ true
          → b ≡ a
      left a u least b (here same) v c = absurd (own b same c)
      left a u least b (on_left k w) v c = least b (subst (λ (x : ℕ). Under x b) k w) v c
      left a u least b (on_right k w) v c = absurd (
          Under-siblings (suc a) i a (omega arith) u
            (Under-trans (subst (λ (x : ℕ). Under x b) k w) v))

      right :
          (a : ℕ)
          → Under (2 * i + 2) a
          → ((b : ℕ) → Under (2 * i + 2) b → Under b a → checked ns b ≡ true → b ≡ a)
          → (b : ℕ) → Under i b
          → Under b a
          → checked ns b ≡ true
          → b ≡ a
      right a u least b (here same) v c = absurd (own b same c)
      right a u least b (on_right k w) v c = least b (subst (λ (x : ℕ). Under x b) k w) v c
      right a u least b (on_left k w) v c = absurd (
          Under-siblings (suc a) i a (omega arith)
            (Under-trans (subst (λ (x : ℕ). Under x b) k w) v) u)

      cover :
          (j : ℕ)
          → j < size nhashes
          → Under i j
          → checked ns j ≡ true
          → Any (λ a. Under a j) (jl ++ jr)
      cover j h (here same) c = absurd (own j same c)
      cover j h (on_left k w) c =
          Any-append_left (λ a. Under a j) jl jr (ml.cover j h (subst (λ (x : ℕ). Under x j) k w) c)
      cover j h (on_right k w) c =
          Any-append_right (λ a. Under a j) jl jr
            (mr.cover j h (subst (λ (x : ℕ). Under x j) k w) c)

  -- The hashes of a list of nodes with a property.
  abbrev pub Named : (List ℕ → Type 0) → List (List ℕ) → Type 0
  Named P hashes = (js : List ℕ) × (hashes ≡ map (expected ns) js) × P js

  expected_at : (i : ℕ) (n : Node) → get_elem? ns i ≡ some n → n.expected_hash ≡ expected ns i
  expected_at i n at = rw (expected, at) refl

  checked_at : (i : ℕ) (n : Node) → get_elem? ns i ≡ some n → checked ns i ≡ check_chunk n
  checked_at i n at = rw (checked, at) refl

  Named-append :
      {P Q R : List ℕ → Type 0} (l r : List (List ℕ))
      → ((jl jr : List ℕ) → P jl → Q jr → R (jl ++ jr))
      → Named P l
      → Named Q r
      → Named R (merge_found l r)
  Named-append l r join (jl, el, p) (jr, er, q) = (
    jl ++ jr,
    merge_found-append l r ∙ ap₂ (λ x y. x ++ y) el er ∙ sym (map-append (expected ns) jl jr),
    join jl jr p q,
  )

  largest_at-IsMinimal :
      (rec : Option ℕ → Run (List (List ℕ))) (i : ℕ) (n : Node)
      → get_elem? ns i ≡ some n
      → n.is_leaf ≡ leb nhashes i
      → (i < nhashes
          → Ensures (Named (IsMinimal (2 * i + 1))) (rec n.left)
            × Ensures (Named (IsMinimal (2 * i + 2))) (rec n.right))
      → Ensures (Named (IsMinimal i)) (largest_at rec n)
  unfolding largest_at
  largest_at-IsMinimal rec i n at flag below = elim (Bool-cases (check_chunk n)) [
    | inl e ↦ rw e (
        ensured
          (i ∷ [], ap (λ x. x ∷ []) (expected_at i n at), IsMinimal-own i (checked_at i n at ∙ e)))
    | inr e ↦ elim (Bool-cases (leb nhashes i)) [
      | inl low ↦
          rw (e, flag, low)
            (ensured ([], refl, IsMinimal-leaf i (ground arith) (checked_at i n at ∙ e)))
      | inr high ↦
          let (left, right) = below (ground arith) in
          rw (e, flag, high)
            (and_then left λ l pl. and_then right λ r pr. ensured (
              Named-append l r (λ jl jr p q. IsMinimal-inner i jl jr (checked_at i n at ∙ e) p q) pl
                pr))
    ]
  ]

  -- In a tree with the flags and links of the level order, with fuel for its nodes, the query at `i`
  -- returns the expected hashes of the complete nodes under `i` that have no complete node above
  -- them there: every complete node under `i` lies under one of those.
  pub get_largest_completed_subtree-IsMinimal :
      IsLinked ns nhashes
      → (fuel i : ℕ) → i < size nhashes
      → size nhashes ≤ i + fuel
      → Ensures (Named (IsMinimal i)) (get_largest_completed_subtree fuel ns (some i))
  unfolding get_largest_completed_subtree
  get_largest_completed_subtree-IsMinimal linked zero i h enough = absurd (omega arith)
  get_largest_completed_subtree-IsMinimal linked (suc fuel) i h enough =
      let (n, at, (flag, links)) = linked.at i h in
      rw at (
        largest_at-IsMinimal (get_largest_completed_subtree fuel ns) i n at flag λ inner. (
          rw ((links inner).0) (
              get_largest_completed_subtree-IsMinimal linked fuel (2 * i + 1) (omega arith)
                (omega arith)),
          rw ((links inner).1) (
              get_largest_completed_subtree-IsMinimal linked fuel (2 * i + 2) (omega arith)
                (omega arith)),
        ))

  -- The leaves under `i`, all of them.
  pub record IsLeaves (i : ℕ) (js : List ℕ) : Type 0 where
    pub sound : All (λ a. Under i a × (nhashes ≤ a)) js
    pub cover : (j : ℕ) → j < size nhashes → nhashes ≤ j → Under i j → Any (λ a. a ≡ j) js

  IsLeaves-inner :
      (i : ℕ) (jl jr : List ℕ)
      → i < nhashes
      → IsLeaves (2 * i + 1) jl
      → IsLeaves (2 * i + 2) jr
      → IsLeaves i (jl ++ jr)
  IsLeaves-inner i jl jr inner ml mr = record {
    sound =
        All-append _ jl jr (All-map jl ml.sound λ a (u, low). (on_left refl u, low))
          (All-map jr mr.sound λ a (u, low). (on_right refl u, low));
    cover = cover;
  }
    where
      cover : (j : ℕ) → j < size nhashes → nhashes ≤ j → Under i j → Any (λ a. a ≡ j) (jl ++ jr)
      cover j h low (here same) = absurd (omega arith)
      cover j h low (on_left k w) =
          Any-append_left (λ a. a ≡ j) jl jr (ml.cover j h low (subst (λ (x : ℕ). Under x j) k w))
      cover j h low (on_right k w) =
          Any-append_right (λ a. a ≡ j) jl jr (mr.cover j h low (subst (λ (x : ℕ). Under x j) k w))

  chunks_at-IsLeaves :
      (rec : Option ℕ → Run (List (List ℕ))) (i : ℕ) (n : Node)
      → get_elem? ns i ≡ some n
      → n.is_leaf ≡ leb nhashes i
      → i < size nhashes
      → (i < nhashes
          → Ensures (Named (IsLeaves (2 * i + 1))) (rec n.left)
            × Ensures (Named (IsLeaves (2 * i + 2))) (rec n.right))
      → Ensures (Named (IsLeaves i)) (chunks_at rec n)
  unfolding chunks_at
  chunks_at-IsLeaves rec i n at flag h below = elim (Bool-cases (leb nhashes i)) [
    | inl low ↦
        let bound : nhashes ≤ i = ground arith in
        rw (flag, low)
          (ensured (
            i ∷ [],
            ap (λ x. x ∷ []) (expected_at i n at),
            record {
              sound = ((here refl, bound), tt);
              cover = λ j k l u. inl (Under-eq u (omega arith));
            },
          ))
    | inr high ↦
        let inner : i < nhashes = ground arith in
        let (left, right) = below inner in
        rw (flag, high)
          (and_then left λ l pl. and_then right λ r pr.
            ensured (Named-append l r (λ jl jr p q. IsLeaves-inner i jl jr inner p q) pl pr))
  ]

  -- In a tree with the flags and links of the level order, with fuel for its nodes, the query at `i`
  -- returns the expected hashes of the leaves under `i`, all of them and no others.
  pub get_subtree_chunks-IsLeaves :
      IsLinked ns nhashes
      → (fuel i : ℕ) → i < size nhashes
      → size nhashes ≤ i + fuel
      → Ensures (Named (IsLeaves i)) (get_subtree_chunks fuel ns (some i))
  unfolding get_subtree_chunks
  get_subtree_chunks-IsLeaves linked zero i h enough = absurd (omega arith)
  get_subtree_chunks-IsLeaves linked (suc fuel) i h enough =
      let (n, at, (flag, links)) = linked.at i h in
      rw at (
        chunks_at-IsLeaves (get_subtree_chunks fuel ns) i n at flag h λ inner. (
          rw ((links inner).0)
              (get_subtree_chunks-IsLeaves linked fuel (2 * i + 1) (omega arith) (omega arith)),
          rw ((links inner).1)
              (get_subtree_chunks-IsLeaves linked fuel (2 * i + 2) (omega arith) (omega arith)),
        ))
