-- ===== src/Strings/Trim.antt =====
-- `trim_whitespace` takes off white space at both ends, and nothing else.
use peer_file_torrent.Base.{
  ℕ, ◌≡◌, refl, sym, ap, ◌∙◌, subst, inl, inr, true, false, List, [], ◌∷◌, ◌++◌, isspace,
  skip_space, All, Bool-cases,
}
use peer_file_torrent.Strings.{is_empty, trim_rest, trim_end, trim_whitespace}

abbrev pub IsBlank : List ℕ → Type 0
IsBlank s = All (λ x. isspace x ≡ true) s

-- The last character is not white space.
abbrev pub EndsInk : List ℕ → Type 0
EndsInk [] = Unit
EndsInk (x ∷ []) = isspace x ≡ false
EndsInk (x ∷ y ∷ s) = EndsInk (y ∷ s)

-- Neither the first character nor the last is white space.
abbrev pub IsTrimmed : List ℕ → Type 0
IsTrimmed [] = Unit
IsTrimmed (x ∷ s) = (isspace x ≡ false) × EndsInk (x ∷ s)

-- A string with blanks in front taken off.
skip_space_lem : (s : List ℕ) → (front : List ℕ) × (s ≡ front ++ skip_space s) × IsBlank front
unfolding skip_space
skip_space_lem [] = ([], refl, tt)
skip_space_lem (x ∷ s) = elim (Bool-cases (isspace x)) [
  | inl e ↦
      let (front, same, blank) = skip_space_lem s in
      (x ∷ front, rw e (ap (λ t. x ∷ t) same), (e, blank))
  | inr e ↦ ([], rw e refl, tt)
]

skip_space_blank : (x : ℕ) (s : List ℕ) → isspace x ≡ true → skip_space (x ∷ s) ≡ skip_space s
unfolding skip_space
skip_space_blank x s e = rw e refl

skip_space_ink : (x : ℕ) (s : List ℕ) → isspace x ≡ false → skip_space (x ∷ s) ≡ x ∷ s
unfolding skip_space
skip_space_ink x s e = rw e refl

skip_space_first : (s : List ℕ) (x : ℕ) (t : List ℕ) → skip_space s ≡ x ∷ t → isspace x ≡ false
unfolding skip_space
skip_space_first [] x t e = cc
skip_space_first (y ∷ s) x t e = elim (Bool-cases (isspace y)) [
  | inl b ↦ skip_space_first s x t (sym (skip_space_blank y s b) ∙ e)
  | inr b ↦
      let same : y ≡ x = cc (sym (skip_space_ink y s b) ∙ e) in
      subst (λ (z : ℕ). isspace z ≡ false) same b
]

-- Blanks at the end taken off; what stays ends in no blank.
trim_rest_lem :
    (s : List ℕ)
    → (back : List ℕ) × (s ≡ trim_rest s ++ back) × IsBlank back × EndsInk (trim_rest s)
unfolding trim_rest is_empty
trim_rest_lem [] = ([], refl, tt, tt)
trim_rest_lem (x ∷ s) =
    let (back, same, blank, ink) = trim_rest_lem s in by_rest (trim_rest s) refl back same blank ink
  where
    by_rest :
        (r : List ℕ)
        → trim_rest s ≡ r
        → (back : List ℕ) → s ≡ trim_rest s ++ back
        → IsBlank back
        → EndsInk (trim_rest s)
        → (back' : List ℕ) × (x ∷ s ≡ trim_rest (x ∷ s) ++ back')
          × IsBlank back'
          × EndsInk (trim_rest (x ∷ s))
    by_rest [] e back same blank ink = elim (Bool-cases (isspace x)) [
      | inl b ↦ (
        x ∷ s,
        rw (e, b) refl,
        (b, subst IsBlank (sym (same ∙ ap (λ t. t ++ back) e)) blank),
        rw (e, b) tt,
      )
      | inr b ↦
          (back, rw (e, b) (ap (λ t. x ∷ t) (same ∙ ap (λ t. t ++ back) e)), blank, rw (e, b) b)
    ]
    by_rest (y ∷ r) e back same blank ink = elim (Bool-cases (isspace x)) [
      | inl b ↦ (
        back,
        rw (e, b) (ap (λ t. x ∷ t) (same ∙ ap (λ t. t ++ back) e)),
        blank,
        rw (e, b) (subst EndsInk e ink),
      )
      | inr b ↦ (
        back,
        rw (e, b) (ap (λ t. x ∷ t) (same ∙ ap (λ t. t ++ back) e)),
        blank,
        rw (e, b) (subst EndsInk e ink),
      )
    ]

EndsInk-cons : (x : ℕ) (s : List ℕ) → isspace x ≡ false → EndsInk s → EndsInk (x ∷ s)
EndsInk-cons x [] e ink = e
EndsInk-cons x (y ∷ s) e ink = ink

-- The parts into which `trim_whitespace` takes a string.
abbrev pub Parts : List ℕ → List ℕ → Type 0
Parts s t =
    (front : List ℕ) × (back : List ℕ) × (s ≡ front ++ (t ++ back))
    × IsBlank front
    × IsBlank back
    × IsTrimmed t

-- What `trim_whitespace` returns is the string without white space in front and at the end: the
-- string is white space, the result, and white space, and the result neither starts nor ends with
-- white space.
pub trim_whitespace-Parts : (s : List ℕ) → Parts s (trim_whitespace s)
unfolding trim_whitespace trim_end
trim_whitespace-Parts s = by_skip (skip_space s) refl
  where
    by_skip : (t : List ℕ) → skip_space s ≡ t → Parts s (trim_end (skip_space s))
    by_skip [] e =
        let (front, same, blank) = skip_space_lem s in
        rw e (front, [], same ∙ ap (λ t. front ++ t) e, blank, tt, tt)
    by_skip (x ∷ t) e =
        let (front, same, blank) = skip_space_lem s in
        let (back, same', blank', ink) = trim_rest_lem t in
        let first = skip_space_first s x t e in
        rw e (
          front,
          back,
          same ∙ ap (λ u. front ++ u) (e ∙ ap (λ u. x ∷ u) same'),
          blank,
          blank',
          (first, EndsInk-cons x (trim_rest t) first ink),
        )
