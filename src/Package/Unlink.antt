-- ===== src/Package/Unlink.antt =====
-- Taking a node out of a linked list.
use peer_file_torrent.Base.{
  ℕ, ◌≡◌, ◌≢◌, refl, sym, ap, ◌∙◌, subst, arith, true, false, none, some, List, [], ◌∷◌, ◌++◌, set,
  get_elem?, get_elem?-set_self, get_elem?-set_ne, All, ◌==◌, append-nil,
}
use peer_file_torrent.Queue.{Heap}
use peer_file_torrent.Queue.Chain.{
  Cells, first, last, Chain, Chain-set, All-last, lt_length_of_some,
}
use peer_file_torrent.Package.{tail_without}

module _ {A : Type 0} (P : A → Type 0) where
  pub All-left : (xs ys : List A) → All P (xs ++ ys) → All P xs
  All-left [] ys h = tt
  All-left (x ∷ xs) ys h = (h.0, All-left xs ys h.1)

  pub All-middle : (xs ys : List A) (c : A) → All P (xs ++ (c ∷ ys)) → P c
  All-middle [] ys c h = h.0
  All-middle (x ∷ xs) ys c h = All-middle xs ys c h.1

  pub All-without : (xs ys : List A) (c : A) → All P (xs ++ (c ∷ ys)) → All P (xs ++ ys)
  All-without [] ys c h = h.1
  All-without (x ∷ xs) ys c h = (h.0, All-without xs ys c h.1)

Chain-right : (h : Heap) (xs ys : Cells) → Chain h (xs ++ ys) → Chain h ys
Chain-right h [] ys c = c
Chain-right h (x ∷ xs) ys (_, _, c) = Chain-right h xs ys c

-- The other nodes have other addresses.
Chain-others :
    (h : Heap) (xs ys : Cells) (c : ℕ × ℕ)
    → Chain h (xs ++ (c ∷ ys))
    → All (λ q. c.0 ≢ q.0) (xs ++ ys)
Chain-others h [] ys c (_, apart, _) = apart
Chain-others h (x ∷ xs) ys c (_, apart, k) =
    (λ e. All-middle (λ q. x.0 ≢ q.0) xs ys c apart (sym e), Chain-others h xs ys c k)

-- The last node before `c` leads to it.
pub before_node :
    (h : Heap) (p : ℕ × ℕ) (ms post : Cells) (c : ℕ × ℕ) (t : ℕ)
    → Chain h (p ∷ ms ++ (c ∷ post))
    → last (p ∷ ms) ≡ some t
    → (y : ℕ) × (get_elem? h t ≡ some (some (record { q_data = y; next = some c.0 })))
before_node h p [] post c t (e, _, _) l = let same : p.0 ≡ t = cc l in (p.1, rw⁻¹ same e)
before_node h p (q ∷ ms) post c t (_, _, k) l = before_node h q ms post c t k l

Chain-past :
    (h : Heap) (p : ℕ × ℕ) (ms post : Cells) (c : ℕ × ℕ) (t y : ℕ)
    → Chain h (p ∷ ms ++ (c ∷ post))
    → last (p ∷ ms) ≡ some t
    → get_elem? h t ≡ some (some (record { q_data = y; next = some c.0 }))
    → Chain (set h t (some (record { q_data = y; next = first post }))) (p ∷ ms ++ post)
Chain-past h p [] post c t y (e, apart, (_, _, k)) l at =
    let same : p.0 ≡ t = cc l in
    let value : p.1 ≡ y = cc (sym e ∙ ap (λ (i : ℕ). get_elem? h i) same ∙ at) in
    let far : All (λ q. t ≢ q.0) post =
      subst (λ (i : ℕ). All (λ (q : ℕ × ℕ). i ≢ q.0) post) same apart.1 in
    (
      rw (same, value) (get_elem?-set_self h t _ (lt_length_of_some h t _ at)),
      apart.1,
      Chain-set h t _ post far k,
    )
Chain-past h p (q ∷ ms) post c t y (e, apart, k) l at =
    let other : p.0 ≢ t =
      All-last (λ i. p.0 ≢ i) q ms t (All-left (λ r. p.0 ≢ r.0) (q ∷ ms) (c ∷ post) apart) l in
    (
      get_elem?-set_ne h _ (λ (s : t ≡ p.0). other (sym s)) ∙ e,
      All-without (λ r. p.0 ≢ r.0) (q ∷ ms) post c apart,
      Chain-past h q ms post c t y k l at,
    )

-- The chain without its node `c`, once the node before it leads past it and its cell is freed.
pub Chain-unlink :
    (h : Heap) (p : ℕ × ℕ) (ms post : Cells) (c : ℕ × ℕ) (t y : ℕ)
    → Chain h (p ∷ ms ++ (c ∷ post))
    → last (p ∷ ms) ≡ some t
    → get_elem? h t ≡ some (some (record { q_data = y; next = some c.0 }))
    → Chain
        (set (set h t (some (record { q_data = y; next = first post }))) c.0 none)
        (p ∷ ms ++ post)
Chain-unlink h p ms post c t y k l at =
    Chain-set _ c.0 none (p ∷ ms ++ post) (Chain-others h (p ∷ ms) post c k)
      (Chain-past h p ms post c t y k l at)

-- The chain without its first node.
pub Chain-unlink_first :
    (h : Heap) (post : Cells) (c : ℕ × ℕ) → Chain h (c ∷ post) → Chain (set h c.0 none) post
Chain-unlink_first h post c (_, apart, k) = Chain-set h c.0 none post apart k

pub last-append_cons : (xs ys : Cells) (c : ℕ × ℕ) → last (xs ++ (c ∷ ys)) ≡ last (c ∷ ys)
last-append_cons [] ys c = refl
last-append_cons (x ∷ []) ys c = refl
last-append_cons (x ∷ y ∷ xs) ys c = last-append_cons (y ∷ xs) ys c

pub last_cons : (p : ℕ × ℕ) (ps : Cells) → (t : ℕ) × (last (p ∷ ps) ≡ some t)
last_cons p [] = (p.0, refl)
last_cons p (q ∷ ps) = last_cons q ps

-- The tail is the last node that is left.
pub tail_without_lem :
    (h : Heap) (mid post : Cells) (c : ℕ × ℕ)
    → Chain h (mid ++ (c ∷ post))
    → tail_without (last (mid ++ (c ∷ post))) c.0 (last mid) ≡ last (mid ++ post)
unfolding tail_without
tail_without_lem h mid [] c k =
    let own : (c.0 == c.0) ≡ true = ground arith in
    rw (last-append_cons mid [] c, append-nil mid) (rw own refl)
tail_without_lem h mid (d ∷ post) c k =
    let (t, e) = last_cons d post in
    let (_, apart, _) = Chain-right h mid (c ∷ d ∷ post) k in
    let other : c.0 ≢ t = All-last (λ i. c.0 ≢ i) d post t apart e in
    let test : (t == c.0) ≡ false = not_same t c.0 (λ s. other (sym s)) in
    rw (last-append_cons mid (d ∷ post) c, last-append_cons mid post d, e) (rw test refl)
  where
    not_same : (a b : ℕ) → a ≢ b → (a == b) ≡ false
    not_same a b h = ground arith
