-- ===== src/Merkle/Subtree.antt =====
-- Subtrees of the level order: the children of `i` are `2 * i + 1` and `2 * i + 2`.
use peer_file_torrent.Base.{
  ℕ, zero, suc, ◌+◌, ◌-◌, ◌*◌, ◌/◌, ◌≤◌, ◌<◌, ◌≡◌, refl, sym, subst, arith, ◌⊎◌, inl, inr,
}

-- `j` lies in the subtree of `i`.
pub data Under : ℕ → ℕ → Type 0 where
  here : {i j : ℕ} → i ≡ j → Under i j
  on_left : {i j c : ℕ} → c ≡ 2 * i + 1 → Under c j → Under i j
  on_right : {i j c : ℕ} → c ≡ 2 * i + 2 → Under c j → Under i j

pub Under-le : {i j : ℕ} → Under i j → i ≤ j
Under-le (here e) = omega arith
Under-le (on_left e u) = omega (arith, Under-le u)
Under-le (on_right e u) = omega (arith, Under-le u)

pub Under-eq : {i j : ℕ} → Under i j → j ≤ 2 * i → i ≡ j
Under-eq (here e) h = e
Under-eq (on_left e u) h = absurd (omega (arith, Under-le u))
Under-eq (on_right e u) h = absurd (omega (arith, Under-le u))

pub Under-child : {i j : ℕ} (c : ℕ) → Under i j → (c ≡ 2 * j + 1) ⊎ (c ≡ 2 * j + 2) → Under i c
Under-child c (here e) (inl p) = on_left (omega arith) (here refl)
Under-child c (here e) (inr p) = on_right (omega arith) (here refl)
Under-child c (on_left e u) p = on_left e (Under-child c u p)
Under-child c (on_right e u) p = on_right e (Under-child c u p)

-- Every index lies under the root.
pub Under-root : (k j : ℕ) → j < k → Under 0 j
Under-root zero j h = absurd (omega arith)
Under-root (suc k) zero h = here refl
Under-root (suc k) (suc j) h =
    Under-child (suc j) (Under-root k (j / 2) (omega arith)) (omega arith)

-- Above an index lie the index itself and what lies above its parent.
pub Under-parent : {j q : ℕ} → Under j q → (j ≡ q) ⊎ Under j ((q - 1) / 2)
Under-parent (here e) = inl e
Under-parent (on_left e u) = elim (Under-parent u) [
  | inl same ↦ inr (here (omega arith))
  | inr below ↦ inr (on_left e below)
]
Under-parent (on_right e u) = elim (Under-parent u) [
  | inl same ↦ inr (here (omega arith))
  | inr below ↦ inr (on_right e below)
]

pub Under-trans : {i j k : ℕ} → Under i j → Under j k → Under i k
Under-trans {k} (here e) v = subst (λ (x : ℕ). Under x k) (sym e) v
Under-trans (on_left e u) v = on_left e (Under-trans u v)
Under-trans (on_right e u) v = on_right e (Under-trans u v)

-- Siblings have nothing below them in common.
pub Under-siblings : (fuel i j : ℕ) → j < fuel → Under (2 * i + 1) j → Under (2 * i + 2) j → ⊥
Under-siblings zero i j enough u v = absurd (omega arith)
Under-siblings (suc fuel) i j enough u v = elim (Under-parent u) [
  | inl e ↦ omega (arith, Under-le v)
  | inr l ↦ elim (Under-parent v) [
    | inl e ↦ omega (arith, Under-le l)
    | inr r ↦ let low = Under-le u in Under-siblings fuel i ((j - 1) / 2) (omega arith) l r
  ]
]
