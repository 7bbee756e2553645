-- ===== src/Merkle/Facts.antt =====
-- What is known of the nodes at their indices, and changes of the array that keep it.
use peer_file_torrent.Base.{
  ℕ, zero, suc, ◌+◌, ◌-◌, ◌*◌, ◌/◌, ◌≤◌, ◌<◌, ◌≡◌, sym, ap, ◌∙◌, subst, some, List, [], ◌∷◌, arith,
  leb, length, set, get_elem?, get_elem?-set_self, get_elem?-set_ne, done, ℕ_discrete,
}
use peer_file_torrent.Merkle.{Chunk, Node, read_chunk}

-- Entry `j` is there and satisfies `P`.
abbrev pub At : List Node → ℕ → (Node → Type 0) → Type 0
At ns j P = (n : Node) × (get_elem? ns j ≡ some n) × P n

lt_length_of_some : (ns : List Node) (i : ℕ) (n : Node) → get_elem? ns i ≡ some n → i < length ns
lt_length_of_some [] i n e = cc
lt_length_of_some (m ∷ ns) zero n e = omega arith
lt_length_of_some (m ∷ ns) (suc i) n e = omega (arith, lt_length_of_some ns i n e)

pub set_at :
    (ns : List Node) (i : ℕ) {n : Node} (n' : Node) {P : Node → Type 0}
    → get_elem? ns i ≡ some n
    → P n'
    → At (set ns i n') i P
set_at ns i {n} n' e p = (n', get_elem?-set_self ns i n' (lt_length_of_some ns i n e), p)

-- A write at `i` keeps what it keeps of the node there.
pub At-set :
    (ns : List Node) (i : ℕ) {n : Node} (n' : Node) (j : ℕ) {P : Node → Type 0}
    → get_elem? ns i ≡ some n
    → (i ≡ j → P n → P n')
    → At ns j P
    → At (set ns i n') j P
At-set ns i {n} n' j {P} e keep (m, at, p) = elim (ℕ_discrete i j) [
  | yes same ↦
      let own : m ≡ n = cc (sym at ∙ ap (λ (k : ℕ). get_elem? ns k) (sym same) ∙ e) in
      subst (λ (k : ℕ). At (set ns i n') k P) same (set_at ns i n' e (keep same (subst P own p)))
  | no other ↦ (m, get_elem?-set_ne ns n' other ∙ at, p)
]

-- The facts about a node, over the file `f`, the contents of the leaves and the wanted hashes.
pub data Fact : Type 0 where
  shaped final parented lefted righted : Fact

module _ (f : List ℕ) (nhashes : ℕ) (bytes : ℕ → List ℕ) (wanted : ℕ → List ℕ) where
  -- A leaf has a chunk inside the file.
  pub record IsShaped (j : ℕ) (n : Node) : Type 0 where
    pub flag : n.is_leaf ≡ leb nhashes j
    pub content : nhashes ≤ j → (c : Chunk) × (n.chunk ≡ some c) × (read_chunk f c ≡ done (bytes j))

  abbrev pub Holds : Fact → ℕ → Node → Type 0
  Holds shaped j n = IsShaped j n
  Holds final j n =
      (n.computed_hash ≡ wanted j)
      × (j < nhashes → (n.left ≡ some (2 * j + 1)) × (n.right ≡ some (2 * j + 2)))
  Holds parented j n = n.parent ≡ some ((j - 1) / 2)
  Holds lefted j n = n.left ≡ some (2 * j + 1)
  Holds righted j n = n.right ≡ some (2 * j + 2)

  -- `Holds` at an entry of the array.
  abbrev pub Known : List Node → Fact → ℕ → Type 0
  Known ns k j = At ns j (Holds k j)

  -- What is known before is known after.
  pub record Keeps (ns ns' : List Node) : Type 0 where
    pub at : (k : Fact) (j : ℕ) → Known ns k j → Known ns' k j

  pub Keeps-set :
      (ns : List Node) (i : ℕ) {n : Node} (n' : Node)
      → get_elem? ns i ≡ some n
      → ((k : Fact) → Holds k i n → Holds k i n')
      → Keeps ns (set ns i n')
  Keeps-set ns i {n} n' e keep = record {
    at = λ k j.
        At-set ns i n' j e (λ same. subst (λ (a : ℕ). Holds k a n → Holds k a n') same (keep k));
  }

  pub Keeps-trans : {ns ns' ns'' : List Node} → Keeps ns ns' → Keeps ns' ns'' → Keeps ns ns''
  Keeps-trans p q = record { at = λ k j h. q.at k j (p.at k j h) }

  -- A change of a node that keeps its shape, and whatever else is as wanted.
  pub Holds-change :
      (i : ℕ) (n n' : Node)
      → n'.is_leaf ≡ n.is_leaf
      → n'.chunk ≡ n.chunk
      → (n.computed_hash ≡ wanted i → n'.computed_hash ≡ wanted i)
      → (n.left ≡ some (2 * i + 1) → n'.left ≡ some (2 * i + 1))
      → (n.right ≡ some (2 * i + 2) → n'.right ≡ some (2 * i + 2))
      → (n.parent ≡ some ((i - 1) / 2) → n'.parent ≡ some ((i - 1) / 2))
      → (k : Fact) → Holds k i n
      → Holds k i n'
  Holds-change i n n' leaf chunk hash left right parent shaped s = record {
    flag = leaf ∙ s.flag;
    content = λ h. let (c, has, reads) = s.content h in (c, chunk ∙ has, reads);
  }
  Holds-change i n n' leaf chunk hash left right parent final p =
      (hash p.0, λ h. (left (p.1 h).0, right (p.1 h).1))
  Holds-change i n n' leaf chunk hash left right parent parented p = parent p
  Holds-change i n n' leaf chunk hash left right parent lefted p = left p
  Holds-change i n n' leaf chunk hash left right parent righted p = right p
