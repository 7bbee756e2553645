-- ===== src/Query/Find.antt =====
-- `bpkg_find_node_from_hash` returns the first match among the nodes that it looks at.
use peer_file_torrent.Base.{
  ℕ, zero, suc, ◌+◌, ◌≤◌, ◌<◌, ◌≡◌, refl, sym, ap, ◌∙◌, subst, inl, inr, Bool, true, false, Option,
  none, some, List, arith, length, get_elem?, get_elem?_lt, strn_eq, u16, done, Bool-cases, Ensures,
  ensured, ensured_value, weaken, ℕ_discrete,
}
use peer_file_torrent.Merkle.{Node, Mtree}
use peer_file_torrent.Query.{Mode, chunk, mode_count, find_from, find_node_from_hash}

-- The expected hash of `nodes[j]` agrees with the hash that is looked for.
abbrev pub matches : List Node → List ℕ → ℕ → Bool
matches ns query_hash j = elim (get_elem? ns j) [
  | none ↦ false
  | some n ↦ strn_eq 64 n.expected_hash query_hash
]

-- The first match at an index from `i` up to `i + n`, if there is one.
abbrev pub IsFirst : List Node → List ℕ → ℕ → ℕ → Option ℕ → Type 0
IsFirst ns query_hash i n none = (j : ℕ) → i ≤ j → j < i + n → matches ns query_hash j ≡ false
IsFirst ns query_hash i n (some k) =
    (i ≤ k)
    × (k < i + n)
    × (matches ns query_hash k ≡ true)
    × ((j : ℕ) → i ≤ j → j < k → matches ns query_hash j ≡ false)

IsFirst-later :
    (ns : List Node) (query_hash : List ℕ) (i n : ℕ) (o : Option ℕ)
    → matches ns query_hash i ≡ false
    → IsFirst ns query_hash (i + 1) n o
    → IsFirst ns query_hash i (suc n) o
IsFirst-later ns query_hash i n none e later = λ j low high. elim (ℕ_discrete i j) [
  | yes same ↦ subst (λ (x : ℕ). matches ns query_hash x ≡ false) same e
  | no other ↦ later j (omega arith) (omega arith)
]
IsFirst-later ns query_hash i n (some k) e (low, high, found, least) = (
  omega arith,
  omega arith,
  found,
  λ j a b. elim (ℕ_discrete i j) [
    | yes same ↦ subst (λ (x : ℕ). matches ns query_hash x ≡ false) same e
    | no other ↦ least j (omega arith) b
  ],
)

find_from-IsFirst :
    (ns : List Node) (query_hash : List ℕ) (n i : ℕ)
    → i + n ≤ length ns
    → Ensures (IsFirst ns query_hash i n) (find_from ns query_hash n i)
unfolding find_from
find_from-IsFirst ns query_hash zero i h = ensured λ j a b. absurd (omega arith)
find_from-IsFirst ns query_hash (suc n) i h =
    let (node, at) = get_elem?_lt ns i (omega arith) in
    let own : matches ns query_hash i ≡ strn_eq 64 node.expected_hash query_hash =
      rw (matches, at) refl in
    rw at (elim (Bool-cases (strn_eq 64 node.expected_hash query_hash)) [
      | inl e ↦ rw e (ensured (omega arith, omega arith, own ∙ e, λ j a b. absurd (omega arith)))
      | inr e ↦ rw e (
          weaken (find_from-IsFirst ns query_hash n (i + 1) (omega arith))
            λ o later. IsFirst-later ns query_hash i n o (own ∙ e) later)
    ])

-- Where the array has as many nodes as the mode counts, modulo 2^16, the search returns the first of
-- them whose expected hash agrees with the query in 64 characters, and null if none does.
pub find_node_from_hash-IsFirst :
    (t : Mtree) (query_hash : List ℕ) (mode : Mode)
    → u16 (mode_count t mode) ≤ length t.nodes
    → Ensures
        (IsFirst t.nodes query_hash 0 (u16 (mode_count t mode)))
        (find_node_from_hash t query_hash mode)
unfolding find_node_from_hash
find_node_from_hash-IsFirst t query_hash mode h =
    find_from-IsFirst t.nodes query_hash (u16 (mode_count t mode)) 0 (omega arith)

IsFirst-none :
    (ns : List Node) (query_hash : List ℕ) (n : ℕ) (o : Option ℕ)
    → ((j : ℕ) → j < n → matches ns query_hash j ≡ false)
    → IsFirst ns query_hash 0 n o
    → o ≡ none
IsFirst-none ns query_hash n none h first = refl
IsFirst-none ns query_hash n (some k) h (low, high, found, least) =
    absurd (cc (sym (h k (omega arith)) ∙ found))

-- In a tree with one chunk more than hashes, the search for a chunk returns null when only nodes
-- behind the first leaf have the hash: it looks at the inner nodes and the first leaf alone.
pub find_node_from_hash_chunk :
    (t : Mtree) (query_hash : List ℕ)
    → t.nchunks ≡ t.nhashes + 1
    → t.nchunks ≤ length t.nodes
    → ((j : ℕ) → j ≤ t.nhashes → matches t.nodes query_hash j ≡ false)
    → find_node_from_hash t query_hash chunk ≡ done none
unfolding mode_count
find_node_from_hash_chunk t query_hash e enough h =
    let bound : u16 (mode_count t chunk) ≤ length t.nodes = omega arith in
    let (o, runs, first) = ensured_value (find_node_from_hash-IsFirst t query_hash chunk bound) in
    runs
    ∙ ap done (
        IsFirst-none t.nodes query_hash (u16 (mode_count t chunk)) o (λ j b. h j (omega arith))
          first)
