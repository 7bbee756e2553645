-- ===== src/Queue/Fifo.antt =====
-- The linked list is a first-in first-out queue.
use peer_file_torrent.Base.{
  ℕ, zero, suc, ◌<◌, ◌≡◌, refl, sym, ap, ◌∙◌, subst, arith, true, false, Option, none, some, List,
  [], ◌∷◌, ◌++◌, length, map, map-append, append-nil, append_assoc, Run, done, ◌>>=◌, Ensures,
  ensured, and_then, weaken, length-append, get_elem?-append_length,
}
use peer_file_torrent.Queue.{
  Heap, QueueState, q_init, q_enqueue, link_tail, head_after, tail_after, dequeue_at, q_dequeue,
  q_empty, RequestQ, reqs_create, reqs_enqueue, reqs_dequeue, count_after, reqs_drain, drain_step,
}
use peer_file_torrent.Queue.Chain.{
  Cells, first, last, Chain, Chain-grow, Chain-fresh, Chain-set, Chain-link, last_node,
}

-- The queue holds the data `xs`, from its head to its tail.
pub record IsQueue (q : QueueState) (xs : List ℕ) : Type 0 where
  pub cells : Cells
  pub chain : Chain q.heap cells
  pub head : q.head ≡ first cells
  pub tail : q.tail ≡ last cells
  pub holds : map (λ (p : ℕ × ℕ). p.1) cells ≡ xs

-- A fresh queue is empty.
pub q_init-IsQueue : (h : Heap) → IsQueue (q_init h) []
unfolding q_init
q_init-IsQueue h = record { cells = []; chain = tt; head = refl; tail = refl; holds = refl }

last-some : (p : ℕ × ℕ) (ps : Cells) → (t : ℕ) × (last (p ∷ ps) ≡ some t)
last-some p [] = (p.0, refl)
last-some p (q ∷ ps) = last-some q ps

last-append : (ps : Cells) (q : ℕ × ℕ) → last (ps ++ (q ∷ [])) ≡ some q.0
last-append [] q = refl
last-append (p ∷ []) q = refl
last-append (p ∷ r ∷ ps) q = last-append (r ∷ ps) q

-- The cells of a queue decide what an enqueue does.
enqueue_cells :
    (q : QueueState) (ps : Cells) (x : ℕ)
    → Chain q.heap ps
    → q.head ≡ first ps
    → q.tail ≡ last ps
    → Ensures
        (λ q'.
          Chain q'.heap (ps ++ ((length q.heap, x) ∷ []))
          × (q'.head ≡ first (ps ++ ((length q.heap, x) ∷ [])))
          × (q'.tail ≡ some (length q.heap)))
        (q_enqueue q x)
unfolding q_enqueue link_tail head_after
enqueue_cells q [] x c eh et =
    let at = get_elem?-append_length q.heap (some (record { q_data = x; next = none })) in
    rw et (ensured ((at, tt, tt), refl, refl))
enqueue_cells q (p ∷ ps) x c eh et =
    let cell = some (record { q_data = x; next = none }) in
    let at = get_elem?-append_length q.heap cell in
    let grown = Chain-grow q.heap (cell ∷ []) (p ∷ ps) c in
    let (t, is_last) = last-some p ps in
    let (y, at_t) = last_node (q.heap ++ (cell ∷ [])) p ps t grown is_last in
    rw (et ∙ is_last) (
      rw at_t (
        ensured (
          Chain-link (q.heap ++ (cell ∷ [])) p ps t (length q.heap) x y grown is_last at_t at
              (Chain-fresh q.heap (p ∷ ps) c),
          eh,
          refl,
        )))

-- An enqueue returns, and puts its data behind what the queue holds.
pub q_enqueue-IsQueue :
    (q : QueueState) (xs : List ℕ) (x : ℕ)
    → IsQueue q xs
    → Ensures (λ q'. IsQueue q' (xs ++ (x ∷ []))) (q_enqueue q x)
q_enqueue-IsQueue q xs x w =
    weaken (enqueue_cells q w.cells x w.chain w.head w.tail) λ q' (c, h, t). record {
      cells = w.cells ++ ((length q.heap, x) ∷ []);
      chain = c;
      head = h;
      tail = t ∙ sym (last-append w.cells (length q.heap, x));
      holds =
          map-append (λ (p : ℕ × ℕ). p.1) w.cells ((length q.heap, x) ∷ [])
          ∙ ap (λ ys. ys ++ (x ∷ [])) w.holds;
    }

-- The front of a list, and what is behind it.
abbrev pub front : List ℕ → Option ℕ
front [] = none
front (x ∷ xs) = some x

abbrev pub behind : List ℕ → List ℕ
behind [] = []
behind (x ∷ xs) = xs

dequeue_cells :
    (q : QueueState) (ps : Cells)
    → Chain q.heap ps
    → q.head ≡ first ps
    → q.tail ≡ last ps
    → Ensures
        (λ (q', d).
          (d ≡ front (map (λ (p : ℕ × ℕ). p.1) ps))
          × IsQueue q' (behind (map (λ (p : ℕ × ℕ). p.1) ps)))
        (q_dequeue q)
unfolding q_dequeue dequeue_at tail_after
dequeue_cells q [] c eh et =
    rw eh (ensured (refl, record { cells = []; chain = tt; head = refl; tail = et; holds = refl }))
dequeue_cells q (p ∷ []) (at, apart, c) eh et = rw eh (
    rw at
      (ensured (refl, record { cells = []; chain = tt; head = refl; tail = refl; holds = refl })))
dequeue_cells q (p ∷ r ∷ ps) (at, apart, c) eh et = rw eh (
    rw at (
      ensured (
        refl,
        record {
          cells = r ∷ ps;
          chain = Chain-set q.heap p.0 none (r ∷ ps) apart c;
          head = refl;
          tail = et;
          holds = refl;
        },
      )))

-- A dequeue returns the front of what the queue holds, or null if it is empty, and removes it.
pub q_dequeue-IsQueue :
    (q : QueueState) (xs : List ℕ)
    → IsQueue q xs
    → Ensures (λ (q', d). (d ≡ front xs) × IsQueue q' (behind xs)) (q_dequeue q)
q_dequeue-IsQueue q xs w =
    weaken (dequeue_cells q w.cells w.chain w.head w.tail)
      λ (q', d) (e, w'). (e ∙ ap front w.holds, subst (λ ys. IsQueue q' (behind ys)) w.holds w')

-- A queue is empty when it holds nothing.
pub q_empty-IsQueue :
    (q : QueueState) (xs : List ℕ)
    → IsQueue q xs
    → q_empty q ≡ elim xs [ [] ↦ true | x ∷ ys ↦ false ]
unfolding q_empty
q_empty-IsQueue q xs w = empty_cells w.cells w.head w.tail w.holds
  where
    empty_cells :
        (ps : Cells)
        → q.head ≡ first ps
        → q.tail ≡ last ps
        → map (λ (p : ℕ × ℕ). p.1) ps ≡ xs
        → q_empty q ≡ elim xs [ [] ↦ true | x ∷ ys ↦ false ]
    empty_cells [] eh et e = rw⁻¹ e (rw (eh, et) refl)
    empty_cells (p ∷ ps) eh et e = rw⁻¹ e (rw eh refl)

-- Draining a queue returns what it holds, in order, and leaves it empty; the fuel is more than the
-- number of its elements.
pub reqs_drain-IsQueue :
    (fuel : ℕ) (q : QueueState) (xs : List ℕ)
    → IsQueue q xs
    → length xs < fuel
    → Ensures (λ (q', ys). (ys ≡ xs) × IsQueue q' []) (reqs_drain fuel q)
unfolding reqs_drain drain_step
reqs_drain-IsQueue zero q xs w h = absurd (omega arith)
reqs_drain-IsQueue (suc fuel) q [] w h = rw (q_empty-IsQueue q [] w) (ensured (refl, w))
reqs_drain-IsQueue (suc fuel) q (x ∷ xs) w h = rw (q_empty-IsQueue q (x ∷ xs) w) (
    and_then (q_dequeue-IsQueue q (x ∷ xs) w) λ (q', d) (e, w'). rw e (
      and_then (reqs_drain-IsQueue fuel q' xs w' (omega arith))
        λ (q'', ys) (same, empty). ensured (ap (λ zs. x ∷ zs) same, empty)))

-- The request queue holds `xs` and counts them.
pub record IsRequestQ (r : RequestQ) (xs : List ℕ) : Type 0 where
  pub queue : IsQueue r.queue xs
  pub count : r.count ≡ length xs

pub reqs_create-IsRequestQ : (h : Heap) → IsRequestQ (reqs_create h) []
unfolding reqs_create
reqs_create-IsRequestQ h = record { queue = q_init-IsQueue h; count = refl }

pub reqs_enqueue-IsRequestQ :
    (r : RequestQ) (xs : List ℕ) (x : ℕ)
    → IsRequestQ r xs
    → Ensures (λ r'. IsRequestQ r' (xs ++ (x ∷ []))) (reqs_enqueue r x)
unfolding reqs_enqueue
reqs_enqueue-IsRequestQ r xs x w =
    let e = w.count in
    and_then (q_enqueue-IsQueue r.queue xs x w.queue)
      λ q w'. ensured (record { queue = w'; count = omega (arith, length-append xs (x ∷ [])) })

-- A dequeue from a request queue returns the oldest request, or null if there is none, and the count
-- stays the number of requests.
pub reqs_dequeue-IsRequestQ :
    (r : RequestQ) (xs : List ℕ)
    → IsRequestQ r xs
    → Ensures (λ (r', d). (d ≡ front xs) × IsRequestQ r' (behind xs)) (reqs_dequeue r)
unfolding reqs_dequeue count_after
reqs_dequeue-IsRequestQ r [] w =
    and_then (q_dequeue-IsQueue r.queue [] w.queue)
      λ (q, d) (e, w'). rw e (ensured (refl, record { queue = w'; count = w.count }))
reqs_dequeue-IsRequestQ r (x ∷ xs) w =
    let n = w.count in
    and_then (q_dequeue-IsQueue r.queue (x ∷ xs) w.queue)
      λ (q, d) (e, w'). rw e (ensured (refl, record { queue = w'; count = omega arith }))

-- Enqueues one after the other.
unfoldable pub enqueue_all : RequestQ → List ℕ → Run RequestQ
enqueue_all r [] = done r
enqueue_all r (x ∷ xs) = do r ← reqs_enqueue r x; enqueue_all r xs

enqueue_all-IsRequestQ :
    (r : RequestQ) (old xs : List ℕ)
    → IsRequestQ r old
    → Ensures (λ r'. IsRequestQ r' (old ++ xs)) (enqueue_all r xs)
unfolding enqueue_all
enqueue_all-IsRequestQ r old [] w = ensured (subst (IsRequestQ r) (sym (append-nil old)) w)
enqueue_all-IsRequestQ r old (x ∷ xs) w = and_then (reqs_enqueue-IsRequestQ r old x w) λ r' w'.
    weaken (enqueue_all-IsRequestQ r' (old ++ (x ∷ [])) xs w')
      λ r'' w''. subst (IsRequestQ r'') (append_assoc old (x ∷ []) xs) w''

-- Requests that are enqueued into a fresh request queue are dequeued by `reqs_destroy` in the order
-- of their enqueues, all of them, whatever was in the heap.
pub reqs_drain-enqueue_all :
    (h : Heap) (xs : List ℕ)
    → Ensures
        (λ (q, ys). ys ≡ xs)
        (do r ← enqueue_all (reqs_create h) xs; reqs_drain (suc (length xs)) r.queue)
reqs_drain-enqueue_all h xs =
    and_then (enqueue_all-IsRequestQ (reqs_create h) [] xs (reqs_create-IsRequestQ h)) λ r w.
      weaken (reqs_drain-IsQueue (suc (length xs)) r.queue xs w.queue (omega arith))
        λ (q, ys) (e, _). e
