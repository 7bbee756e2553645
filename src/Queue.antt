-- ===== src/Queue.antt =====
-- src/utilities/my_utils.c: the queue as a linked list in the heap, and the request queues of
-- src/peer_2_peer/peer_data_sync.c on it. A heap cell is `none` once it is freed, and addresses are
-- not used again; the data of a node is a pointer to an object that the queue does not look at.
pub mod Chain
pub mod Fifo
use peer_file_torrent.Base.{
  ℕ, zero, suc, ◌+◌, ◌-◌, Bool, true, false, Option, none, some, List, [], ◌∷◌, ◌++◌, length, set,
  get_elem?, Run, done, fault, out_of_fuel, if◌then◌else◌, ◌>>=◌, deref,
}

-- `q_node_t`.
pub record QNode : Type 0 where
  pub q_data : ℕ
  pub next : Option ℕ

abbrev pub Heap : Type 0
Heap = List (Option QNode)

-- `queue_t`, with the heap.
pub record QueueState : Type 0 where
  pub heap : Heap
  pub head : Option ℕ
  pub tail : Option ℕ

-- The node at an address.
abbrev pub load : Heap → ℕ → Run QNode
load h a = do cell ← deref (get_elem? h a); deref cell

-- `q_init`.
unfoldable pub q_init : Heap → QueueState
q_init h = record { heap = h; head = none; tail = none }

-- The old tail, if there is one, gets the new node `a` behind it.
unfoldable pub link_tail : Heap → Option ℕ → ℕ → Run Heap
link_tail h none a = done h
link_tail h (some t) a = do n ← load h t; done (set h t (some (record n { next = some a })))

-- The head after an enqueue: the new node if there was no tail.
unfoldable pub head_after : Option ℕ → Option ℕ → ℕ → Option ℕ
head_after head none a = some a
head_after head (some t) a = head

-- `q_enqueue`, where the allocation succeeds.
unfoldable pub q_enqueue : QueueState → ℕ → Run QueueState
q_enqueue q x = do
  let a = length q.heap
  let grown = q.heap ++ (some (record { q_data = x; next = none }) ∷ [])
  h ← link_tail grown q.tail a
  done (record { heap = h; head = head_after q.head q.tail a; tail = some a })

-- The tail after a dequeue.
unfoldable pub tail_after : Option ℕ → Option ℕ → Option ℕ
tail_after none tail = none
tail_after (some head) tail = tail

-- `q_dequeue`: the data, or null.
unfoldable pub dequeue_at : QueueState → Option ℕ → Run (QueueState × Option ℕ)
dequeue_at q none = done (q, none)
dequeue_at q (some a) = do
  n ← load q.heap a
  done (
    record { heap = set q.heap a none; head = n.next; tail = tail_after n.next q.tail },
    some n.q_data,
  )

unfoldable pub q_dequeue : QueueState → Run (QueueState × Option ℕ)
q_dequeue q = dequeue_at q q.head

-- `q_empty`.
unfoldable pub q_empty : QueueState → Bool
q_empty q = elim q.head [ none ↦ elim q.tail [ none ↦ true | some t ↦ false ] | some a ↦ false ]

-- `request_q_t`, less its lock; `reqs_create`.
pub record RequestQ : Type 0 where
  pub queue : QueueState
  pub count : ℕ
  pub ready : ℕ

unfoldable pub reqs_create : Heap → RequestQ
reqs_create h = record { queue = q_init h; count = 0; ready = 1 }

-- `reqs_enqueue` of a request that is not null.
unfoldable pub reqs_enqueue : RequestQ → ℕ → Run RequestQ
reqs_enqueue r request = do
  q ← q_enqueue r.queue request
  done (record r { queue = q; count = r.count + 1 })

-- The count after a dequeue.
unfoldable pub count_after : ℕ → Option ℕ → ℕ
count_after n none = n
count_after n (some request) = n - 1

-- `reqs_dequeue`.
unfoldable pub reqs_dequeue : RequestQ → Run (RequestQ × Option ℕ)
reqs_dequeue r = do
  (q, request) ← q_dequeue r.queue
  done (record r { queue = q; count = count_after r.count request }, request)

-- `reqs_nextup`: the data at the head.
unfoldable pub reqs_nextup : RequestQ → Run (Option ℕ)
reqs_nextup r = elim r.queue.head [
  | none ↦ done none
  | some a ↦ (do n ← load r.queue.heap a; done (some n.q_data))
]

-- The loop of `reqs_destroy`: the requests that it dequeues and destroys, with fuel; `rec` is the
-- rest of the loop.
unfoldable pub drain_step :
    (QueueState → Run (QueueState × List ℕ)) → QueueState → Run (QueueState × List ℕ)
drain_step rec q = if q_empty q then done (q, []) else (do
  (q, request) ← q_dequeue q
  (q, rest) ← rec q
  done (q, elim request [ none ↦ rest | some x ↦ x ∷ rest ]))

unfoldable pub reqs_drain : ℕ → QueueState → Run (QueueState × List ℕ)
reqs_drain zero q = out_of_fuel
reqs_drain (suc fuel) q = drain_step (reqs_drain fuel) q
