-- ===== src/Queue/Chain.antt =====
-- The nodes of a queue in the heap.
use peer_file_torrent.Base.{
  ℕ, zero, suc, ◌<◌, ◌≡◌, ◌≢◌, sym, ap, ◌∙◌, arith, Option, none, some, List, [], ◌∷◌, ◌++◌, length,
  set, get_elem?, get_elem?-set_self, get_elem?-set_ne, All, All-append,
}
use peer_file_torrent.Queue.{QNode, Heap}

-- The addresses and data of the nodes, from the head on.
abbrev pub Cells : Type 0
Cells = List (ℕ × ℕ)

-- The addresses of the first node and of the last.
abbrev pub first : Cells → Option ℕ
first [] = none
first (p ∷ ps) = some p.0

abbrev pub last : Cells → Option ℕ
last [] = none
last (p ∷ []) = some p.0
last (p ∷ q ∷ ps) = last (q ∷ ps)

-- Each node holds its data and leads to the next one, and no address occurs twice.
abbrev pub Chain : Heap → Cells → Type 0
Chain h [] = Unit
Chain h (p ∷ ps) =
    (get_elem? h p.0 ≡ some (some (record { q_data = p.1; next = first ps })))
    × All (λ q. p.0 ≢ q.0) ps
    × Chain h ps

pub lt_length_of_some {ℓ} :
    {A : Type ℓ} (xs : List A) (i : ℕ) (x : A) → get_elem? xs i ≡ some x → i < length xs
lt_length_of_some [] i x e = cc
lt_length_of_some (y ∷ xs) zero x e = omega arith
lt_length_of_some (y ∷ xs) (suc i) x e = omega (arith, lt_length_of_some xs i x e)

get_elem?-append_left :
    (h g : Heap) (i : ℕ) (x : Option QNode) → get_elem? h i ≡ some x → get_elem? (h ++ g) i ≡ some x
get_elem?-append_left [] g i x e = cc
get_elem?-append_left (y ∷ h) g zero x e = e
get_elem?-append_left (y ∷ h) g (suc i) x e = get_elem?-append_left h g i x e

-- A chain stays when the heap grows, and has no address that is new.
pub Chain-grow : (h g : Heap) (ps : Cells) → Chain h ps → Chain (h ++ g) ps
Chain-grow h g [] c = tt
Chain-grow h g (p ∷ ps) (e, apart, c) =
    (get_elem?-append_left h g p.0 _ e, apart, Chain-grow h g ps c)

pub Chain-fresh : (h : Heap) (ps : Cells) → Chain h ps → All (λ p. p.0 ≢ length h) ps
Chain-fresh h [] c = tt
Chain-fresh h (p ∷ ps) (e, apart, c) =
    let low = lt_length_of_some h p.0 _ e in ((λ same. omega arith), Chain-fresh h ps c)

-- A chain stays when another cell is written.
pub Chain-set :
    (h : Heap) (a : ℕ) (v : Option QNode) (ps : Cells)
    → All (λ p. a ≢ p.0) ps
    → Chain h ps
    → Chain (set h a v) ps
Chain-set h a v [] far c = tt
Chain-set h a v (p ∷ ps) far (e, apart, c) =
    (get_elem?-set_ne h v far.0 ∙ e, apart, Chain-set h a v ps far.1 c)

pub All-last :
    (P : ℕ → Type 0) (p : ℕ × ℕ) (ps : Cells) (t : ℕ)
    → All (λ q. P q.0) (p ∷ ps)
    → last (p ∷ ps) ≡ some t
    → P t
All-last P p [] t h e = let same : p.0 ≡ t = cc e in rw⁻¹ same h.0
All-last P p (q ∷ ps) t h e = All-last P q ps t h.1 e

-- The last node leads nowhere.
pub last_node :
    (h : Heap) (p : ℕ × ℕ) (ps : Cells) (t : ℕ)
    → Chain h (p ∷ ps)
    → last (p ∷ ps) ≡ some t
    → (x : ℕ) × (get_elem? h t ≡ some (some (record { q_data = x; next = none })))
last_node h p [] t (e, _, _) l = let same : p.0 ≡ t = cc l in (p.1, rw⁻¹ same e)
last_node h p (q ∷ ps) t (e, _, c) l = last_node h q ps t c l

-- Linking a new node behind the last one extends the chain.
pub Chain-link :
    (h : Heap) (p : ℕ × ℕ) (ps : Cells) (t a x y : ℕ)
    → Chain h (p ∷ ps)
    → last (p ∷ ps) ≡ some t
    → get_elem? h t ≡ some (some (record { q_data = y; next = none }))
    → get_elem? h a ≡ some (some (record { q_data = x; next = none }))
    → All (λ q. q.0 ≢ a) (p ∷ ps)
    → Chain (set h t (some (record { q_data = y; next = some a }))) (p ∷ ps ++ ((a, x) ∷ []))
Chain-link h p [] t a x y (e, _, _) l at_t at_a (far, _) =
    let same : p.0 ≡ t = cc l in
    let value : p.1 ≡ y = cc (sym e ∙ ap (λ (k : ℕ). get_elem? h k) same ∙ at_t) in
    (
      rw (same, value) (get_elem?-set_self h t _ (lt_length_of_some h t _ at_t)),
      (far, tt),
      (get_elem?-set_ne h _ (λ (s : t ≡ a). far (same ∙ s)) ∙ at_a, tt, tt),
    )
Chain-link h p (q ∷ ps) t a x y (e, apart, c) l at_t at_a (far, fars) =
    let other : p.0 ≢ t = All-last (λ k. p.0 ≢ k) q ps t apart l in
    (
      get_elem?-set_ne h _ (λ (s : t ≡ p.0). other (sym s)) ∙ e,
      All-append (λ r. p.0 ≢ r.0) (q ∷ ps) ((a, x) ∷ []) apart (far, tt),
      Chain-link h q ps t a x y c l at_t at_a fars,
    )
