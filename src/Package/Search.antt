-- ===== src/Package/Search.antt =====
-- `pkgs_add` and `pkg_find_by_ident` on the managed packages.
use peer_file_torrent.Base.{
  ℕ, zero, suc, ◌<◌, ◌≡◌, ◌≢◌, refl, sym, ap, ◌∙◌, subst, inl, inr, arith, Bool, true, false,
  Option, none, some, List, [], ◌∷◌, ◌++◌, length, get_elem?, All, All-append, map, if◌then◌else◌,
  Bool-cases, length-append, strn_eq, done, Ensures, ensured, and_then,
}
use peer_file_torrent.Queue.Chain.{Cells, first, Chain}
use peer_file_torrent.Queue.Fifo.{q_enqueue-IsQueue}
use peer_file_torrent.Package.{Bpkgs, pkgs_add, find_loop, find_step, pkg_find_by_ident}
use peer_file_torrent.Package.Manage.{IsAlive, Apart, IsBpkgs}

Apart-append : (xs : List ℕ) (x : ℕ) → Apart xs → All (λ y. y ≢ x) xs → Apart (xs ++ (x ∷ []))
Apart-append [] x a h = (tt, tt)
Apart-append (y ∷ xs) x (far, a) (h, hs) =
    (All-append (λ z. y ≢ z) xs (x ∷ []) far (h, tt), Apart-append xs x a hs)

-- Adding a package object that is not managed puts it behind the managed ones and counts it, modulo
-- 256.
pub pkgs_add-IsBpkgs :
    (b : Bpkgs) (xs : List ℕ) (x : ℕ)
    → IsBpkgs b xs
    → IsAlive b x
    → All (λ y. y ≢ x) xs
    → Ensures (λ b'. IsBpkgs b' (xs ++ (x ∷ [])) × (b'.objects ≡ b.objects)) (pkgs_add b x)
unfolding pkgs_add
pkgs_add-IsBpkgs b xs x w alive new = and_then (q_enqueue-IsQueue b.ls xs x w.list) λ q w'.
    let n = w.count in
    ensured (
      record {
        list = w';
        alive = All-append (IsAlive b) xs (x ∷ []) w.alive (alive, tt);
        apart = Apart-append xs x w.apart new;
        count = omega (arith, length-append xs (x ∷ []));
      },
      refl,
    )

-- The object `x` is a package whose identifier agrees with the query in the query's length.
abbrev pub prefixed : Bpkgs → List ℕ → ℕ → Bool
prefixed b ident_qry x = elim (get_elem? b.objects x) [
  | none ↦ false
  | some cell ↦ elim cell [ none ↦ false | some p ↦ strn_eq (length ident_qry) ident_qry p.ident ]
]

-- The first element that passes the test.
abbrev pub first_such : (ℕ → Bool) → List ℕ → Option ℕ
first_such f [] = none
first_such f (x ∷ xs) = let rest = first_such f xs in if f x then some x else rest

first_such_yes : (f : ℕ → Bool) (x : ℕ) (xs : List ℕ) → f x ≡ true → first_such f (x ∷ xs) ≡ some x
first_such_yes f x xs e = rw e refl

first_such_no :
    (f : ℕ → Bool) (x : ℕ) (xs : List ℕ) → f x ≡ false → first_such f (x ∷ xs) ≡ first_such f xs
first_such_no f x xs e = rw e refl

find_loop-first_such :
    (b : Bpkgs) (ident_qry : List ℕ) (fuel : ℕ) (ps : Cells)
    → Chain b.ls.heap ps
    → All (IsAlive b) (map (λ (p : ℕ × ℕ). p.1) ps)
    → length (map (λ (p : ℕ × ℕ). p.1) ps) < fuel
    → find_loop fuel b ident_qry (first ps)
      ≡ done (first_such (prefixed b ident_qry) (map (λ (p : ℕ × ℕ). p.1) ps))
unfolding find_loop find_step
find_loop-first_such b ident_qry zero ps k alive enough = absurd (omega arith)
find_loop-first_such b ident_qry (suc fuel) [] k alive enough = refl
find_loop-first_such b ident_qry (suc fuel) (c ∷ ps) (e, apart, k) ((p, at), alive) enough =
    let rest = find_loop-first_such b ident_qry fuel ps k alive (omega arith) in
    let test = prefixed b ident_qry in
    let others = map (λ (p : ℕ × ℕ). p.1) ps in
    let own : prefixed b ident_qry c.1 ≡ strn_eq (length ident_qry) ident_qry p.ident =
      rw (prefixed, at) refl in
    rw (e) (
      rw (at) (elim (Bool-cases (strn_eq (length ident_qry) ident_qry p.ident)) [
        | inl t ↦ rw t (ap done (sym (first_such_yes test c.1 others (own ∙ t))))
        | inr f ↦ rw f (rest ∙ ap done (sym (first_such_no test c.1 others (own ∙ f))))
      ]))

-- With fuel for the packages, `pkg_find_by_ident` returns the first managed package whose identifier
-- agrees with the query in the query's length, and null if there is none.
pub pkg_find_by_ident-first_such :
    (fuel : ℕ) (b : Bpkgs) (ident_qry xs : List ℕ)
    → IsBpkgs b xs
    → length xs < fuel
    → pkg_find_by_ident fuel b ident_qry ≡ done (first_such (prefixed b ident_qry) xs)
unfolding pkg_find_by_ident
pkg_find_by_ident-first_such fuel b ident_qry xs w enough =
    let q = w.list in
    let found =
      find_loop-first_such b ident_qry fuel q.cells q.chain
        (subst (All (IsAlive b)) (sym q.holds) w.alive)
        (subst (λ (ys : List ℕ). length ys < fuel) (sym q.holds) enough) in
    ap (find_loop fuel b ident_qry) q.head
    ∙ found
    ∙ ap (λ (ys : List ℕ). done (first_such (prefixed b ident_qry) ys)) q.holds
