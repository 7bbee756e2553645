-- ===== src/Package/Remove.antt =====
-- `pkgs_rem` takes the first package with the identifier out of the list.
use peer_file_torrent.Base.{
  ℕ, suc, ◌%◌, ◌<◌, ◌≡◌, ◌≢◌, refl, sym, ap, ◌∙◌, subst, arith, Bool, true, false, Option, none,
  some, List, [], ◌∷◌, ◌++◌, length, set, get_elem?, get_elem?-set_ne, All, All-map, map,
  if◌then◌else◌, Run, fail, Ensures, ensured, and_then,
}
use peer_file_torrent.Queue.{QueueState}
use peer_file_torrent.Queue.Chain.{Cells, first, last, Chain}
use peer_file_torrent.Queue.Fifo.{IsQueue}
use peer_file_torrent.Package.{Bpkgs, pkgs_rem, rem_loop, remove_at, link_past, tail_without}
use peer_file_torrent.Package.Unlink.{
  before_node, Chain-unlink, Chain-unlink_first, tail_without_lem, last_cons,
}
use peer_file_torrent.Package.Manage.{
  IsAlive, named, Apart, IsBpkgs, last_or, last_or-last, Search, missing, removed, rem_loop-Search,
}

abbrev data_of : Cells → List ℕ
data_of ps = map (λ (p : ℕ × ℕ). p.1) ps

-- The queue without the node `c`.
abbrev Without : Option ℕ → (ℕ × ℕ) → Cells → QueueState → Type 0
Without previous c rest q =
    IsQueue (record q { heap = set q.heap c.0 none; tail = tail_without q.tail c.0 previous })
      (data_of rest)

link_past-Without :
    (q : QueueState) (mid post : Cells) (c : ℕ × ℕ)
    → Chain q.heap (mid ++ (c ∷ post))
    → q.head ≡ first (mid ++ (c ∷ post))
    → q.tail ≡ last (mid ++ (c ∷ post))
    → Ensures
        (Without (last_or none mid) c (mid ++ post))
        (link_past q (last_or none mid) (first post))
unfolding link_past
link_past-Without q [] post c k eh et = ensured (record {
  cells = post;
  chain = Chain-unlink_first q.heap post c k;
  head = refl;
  tail = ap (λ t. tail_without t c.0 none) et ∙ tail_without_lem q.heap [] post c k;
  holds = refl;
})
link_past-Without q (p ∷ ms) post c k eh et =
    let (t, is_last) = last_cons p ms in
    let (y, at) = before_node q.heap p ms post c t k is_last in
    let previous = last_or-last none p ms in
    let tail_left : tail_without q.tail c.0 (some t) ≡ last (p ∷ ms ++ post) =
      ap (λ x. tail_without x c.0 (some t)) et
      ∙ ap (tail_without (last (p ∷ ms ++ (c ∷ post))) c.0) (sym is_last)
      ∙ tail_without_lem q.heap (p ∷ ms) post c k in
    rw (previous ∙ is_last) (
      rw at (
        ensured (record {
          cells = p ∷ ms ++ post;
          chain = Chain-unlink q.heap p ms post c t y k is_last at;
          head = eh;
          tail = tail_left;
          holds = refl;
        })))

-- The list without the first element that passes the test, if there is one.
abbrev pub without_first : (ℕ → Bool) → List ℕ → Option (List ℕ)
without_first f [] = none
without_first f (x ∷ xs) =
    let rest = without_first f xs in
    if f x then some xs else elim rest [ none ↦ none | some ys ↦ some (x ∷ ys) ]

without_first-none :
    (f : ℕ → Bool) (ps : Cells) → All (λ c. f c.1 ≡ false) ps → without_first f (data_of ps) ≡ none
without_first-none f [] h = refl
without_first-none f (p ∷ ps) h = rw (h.0, without_first-none f ps h.1) refl

without_first-some :
    (f : ℕ → Bool) (mid post : Cells) (c : ℕ × ℕ)
    → All (λ d. f d.1 ≡ false) mid
    → f c.1 ≡ true
    → without_first f (data_of (mid ++ (c ∷ post))) ≡ some (data_of (mid ++ post))
without_first-some f [] post c h e = rw e refl
without_first-some f (p ∷ mid) post c h e = rw (h.0, without_first-some f mid post c h.1 e) refl

-- The other objects are others than the object of `c`, and still apart.
Apart-others :
    (mid post : Cells) (c : ℕ × ℕ)
    → Apart (data_of (mid ++ (c ∷ post)))
    → All (λ y. c.1 ≢ y) (data_of (mid ++ post)) × Apart (data_of (mid ++ post))
Apart-others [] post c (h, k) = (h, k)
Apart-others (p ∷ mid) post c (h, k) =
    let (others, apart) = Apart-others mid post c k in
    let far = data_split (λ y. p.1 ≢ y) mid post c h in
    (((λ e. far.0 (sym e)), others), (far.1, apart))
  where
    data_split :
        (P : ℕ → Type 0) (mid post : Cells) (c : ℕ × ℕ)
        → All P (data_of (mid ++ (c ∷ post)))
        → P c.1 × All P (data_of (mid ++ post))
    data_split P [] post c h = h
    data_split P (q ∷ mid) post c h =
        let (own, rest) = data_split P mid post c h.1 in (own, (h.0, rest))

All-without_data :
    (P : ℕ → Type 0) (mid post : Cells) (c : ℕ × ℕ)
    → All P (data_of (mid ++ (c ∷ post)))
    → All P (data_of (mid ++ post))
All-without_data P [] post c h = h.1
All-without_data P (q ∷ mid) post c h = (h.0, All-without_data P mid post c h.1)

All-both : (P Q : ℕ → Type 0) (xs : List ℕ) → All P xs → All Q xs → All (λ x. P x × Q x) xs
All-both P Q [] h k = tt
All-both P Q (x ∷ xs) h k = ((h.0, k.0), All-both P Q xs h.1 k.1)

All-cells : (P : ℕ → Type 0) (ps : Cells) → All P (data_of ps) → All (λ c. P c.1) ps
All-cells P [] h = tt
All-cells P (p ∷ ps) h = (h.0, All-cells P ps h.1)

length-without :
    (mid post : Cells) (c : ℕ × ℕ)
    → length (data_of (mid ++ (c ∷ post))) ≡ suc (length (data_of (mid ++ post)))
length-without [] post c = refl
length-without (p ∷ mid) post c = ap suc (length-without mid post c)

-- The list after a removal; the packages that are left are as they were.
pub record IsAfter (b b' : Bpkgs) (ys : List ℕ) : Type 0 where
  pub managed : IsBpkgs b' ys
  pub kept : All (λ x. get_elem? b'.objects x ≡ get_elem? b.objects x) ys

remove_at-IsAfter :
    (b : Bpkgs) (mid post : Cells) (c : ℕ × ℕ)
    → Chain b.ls.heap (mid ++ (c ∷ post))
    → b.ls.head ≡ first (mid ++ (c ∷ post))
    → b.ls.tail ≡ last (mid ++ (c ∷ post))
    → All (IsAlive b) (data_of (mid ++ (c ∷ post)))
    → Apart (data_of (mid ++ (c ∷ post)))
    → b.count ≡ length (data_of (mid ++ (c ∷ post))) % 256
    → Ensures
        (λ b'. IsAfter b b' (data_of (mid ++ post)))
        (remove_at b (last_or none mid) c.0 (record { q_data = c.1; next = first post }))
unfolding remove_at
remove_at-IsAfter b mid post c k eh et alive apart count =
    let ys = data_of (mid ++ post) in
    let (others, apart') = Apart-others mid post c apart in
    let size = length-without mid post c in
    let alive' =
      All-both (λ y. c.1 ≢ y) (IsAlive b) ys others
        (All-without_data (IsAlive b) mid post c alive) in
    and_then (link_past-Without b.ls mid post c k eh et) λ q w. ensured (record {
      managed = record {
        list = w;
        alive = All-map ys alive' λ y (far, (p, at)). (p, get_elem?-set_ne b.objects none far ∙ at);
        apart = apart';
        count = omega arith;
      };
      kept = All-map ys others λ y far. get_elem?-set_ne b.objects none far;
    })

-- What a removal returns: an error without a match, and otherwise the list without the first match.
abbrev pub Removal : Bpkgs → Option (List ℕ) → Run Bpkgs → Type 0
Removal b none r = r ≡ fail
Removal b (some ys) r = Ensures (λ b'. IsAfter b b' ys) r

Search-Removal :
    (b : Bpkgs) (ident : List ℕ) (ps : Cells) (r : Run Bpkgs)
    → Search b ident none ps r
    → Chain b.ls.heap ps
    → b.ls.head ≡ first ps
    → b.ls.tail ≡ last ps
    → IsBpkgs b (data_of ps)
    → Removal b (without_first (named b ident) (data_of ps)) r
Search-Removal b ident ps r (missing h) k eh et w =
    rw (without_first-none (named b ident) ps h) refl
Search-Removal b ident ps r (removed mid c post same h f) k eh et w =
    let at : Removal b (some (data_of (mid ++ post))) r =
      remove_at-IsAfter b mid post c (subst (Chain b.ls.heap) same k) (eh ∙ ap first same)
        (et ∙ ap last same) (subst (λ xs. All (IsAlive b) (data_of xs)) same w.alive)
        (subst (λ xs. Apart (data_of xs)) same w.apart)
        (w.count ∙ ap (λ xs. length (data_of xs) % 256) same) in
    rw same (rw (without_first-some (named b ident) mid post c h f) at)

-- With fuel for the packages, `pkgs_rem` returns -1 if no managed package has an identifier that
-- starts with the given one, and otherwise the managed packages without the first such one; those
-- that are left are as they were, in their order, and the count is their number modulo 256.
pub pkgs_rem-Removal :
    (fuel : ℕ) (b : Bpkgs) (ident xs : List ℕ)
    → IsBpkgs b xs
    → length xs < fuel
    → Removal b (without_first (named b ident) xs) (pkgs_rem fuel b ident)
unfolding pkgs_rem
pkgs_rem-Removal fuel b ident xs w enough =
    let q = w.list in
    let on_cells : IsBpkgs b (data_of q.cells) = subst (IsBpkgs b) (sym q.holds) w in
    let size : length q.cells < fuel =
      (let e = ap length q.holds in omega (arith, length-data q.cells)) in
    let found =
      rem_loop-Search b ident fuel none q.cells q.chain
        (All-cells (IsAlive b) q.cells on_cells.alive) size in
    subst
      (λ ys. Removal b (without_first (named b ident) ys) (rem_loop fuel b ident none b.ls.head))
      q.holds
      (Search-Removal b ident q.cells _
        (subst (λ h. Search b ident none q.cells (rem_loop fuel b ident none h)) (sym q.head) found)
        q.chain q.head q.tail on_cells)
  where
    length-data : (ps : Cells) → length (data_of ps) ≡ length ps
    length-data [] = refl
    length-data (p ∷ ps) = ap suc (length-data ps)
