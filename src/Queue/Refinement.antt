-- ===== src/Queue/Refinement.antt =====
-- The linked list refines a first-in first-out list of connections.
use kudos_judge.Base.{
  ℕ, suc, ◌+◌, ◌<◌, ◌≤◌, ◌≡◌, refl, Option, none, some, List, [], ◌∷◌, ◌++◌, arith,
}
use kudos_judge.Queue.{
  Ptr, Entry, Queue, write, init, push_first, push_behind, push_connection, pop_connection,
}

-- Entries from `p` on hold these connections up to the one at `last`, whose next is NULL. Pointers
-- rise along the list, since each new entry is above all before it.
abbrev pub Chain : (Ptr → Option Entry) → Ptr → Ptr → ℕ → List ℕ → Type 0
Chain entries p last c [] = (p ≡ last) × (entries p ≡ some (record { connection = c; next = 0 }))
Chain entries p last c (d ∷ cs) =
    (next : Ptr) × (p < next)
    × (entries p ≡ some (record { connection = c; next = next }))
    × Chain entries next last d cs

-- The queue holds these connections, the oldest first. The tail of an empty queue may dangle.
abbrev pub Holds : Queue → List ℕ → Type 0
Holds q [] = (q.head ≡ 0) × (0 < q.brk)
Holds q (c ∷ cs) = (0 < q.head) × (q.tail < q.brk) × Chain q.entries q.head q.tail c cs

Chain-le :
    (entries : Ptr → Option Entry) (p last c : ℕ) (cs : List ℕ)
    → Chain entries p last c cs
    → p ≤ last
Chain-le entries p last c [] (e, _) = omega (arith)
Chain-le entries p last c (d ∷ cs) (next, lt, _, rest) =
    omega (arith, Chain-le entries next last d cs rest)

-- Writes below the list leave it as it is.
Chain-write_below :
    (entries : Ptr → Option Entry) (p last c : ℕ) (cs : List ℕ) (k : Ptr) (e : Option Entry)
    → k < p
    → Chain entries p last c cs
    → Chain (write entries k e) p last c cs
Chain-write_below entries p last c [] k e lt (same, found) = (same, ground arith)
Chain-write_below entries p last c (d ∷ cs) k e lt (next, up, found, rest) =
    (next, up, ground arith, Chain-write_below entries next last d cs k e (omega arith) rest)

-- A new entry behind the last.
Chain-push :
    (entries : Ptr → Option Entry) (p last c : ℕ) (cs : List ℕ) (new d : ℕ)
    → last < new
    → Chain entries p last c cs
    → (e : Entry) × (entries last ≡ some e)
      × Chain
          (write
            (write entries new (some (record { connection = d; next = 0 })))
            last
            (some (record e { next = new })))
          p
          new
          c
          (cs ++ d ∷ [])
Chain-push entries p last c [] new d lt (same, found) = (
  record { connection = c; next = 0 },
  ground arith,
  (new, ground arith, ground arith, (refl, ground arith)),
)
Chain-push entries p last c (b ∷ cs) new d lt (next, up, found, rest) =
    let (e, at, chain) = Chain-push entries next last b cs new d lt rest in
    let below = Chain-le entries next last b cs rest in (e, at, (next, up, ground arith, chain))

push_behind-Holds :
    (q : Queue) (c : ℕ) (cs : List ℕ) (d : ℕ)
    → Holds q (c ∷ cs)
    → (q' : Queue) × (push_behind q d ≡ some q')
      × Holds q' (c ∷ (cs ++ d ∷ []))
      × (q'.work_semaphore ≡ q.work_semaphore + 1)
unfolding push_behind
push_behind-Holds q c cs d (first, known, chain) =
    let (e, at, chain') = Chain-push q.entries q.head q.tail c cs q.brk d known chain in
    let new = write q.entries q.brk (some (record { connection = d; next = 0 })) in
    (
      record {
        head = q.head;
        tail = q.brk;
        work_semaphore = q.work_semaphore + 1;
        entries = write new q.tail (some (record e { next = q.brk }));
        brk = suc q.brk;
      },
      ground (arith, at),
      (first, omega arith, chain'),
      refl,
    )

-- A push always succeeds on a queue that is well formed, puts the connection at the end and posts
-- the semaphore once.
pub push_connection-Holds :
    (q : Queue) (cs : List ℕ) (d : ℕ)
    → Holds q cs
    → (q' : Queue) × (push_connection q d ≡ some q')
      × Holds q' (cs ++ d ∷ [])
      × (q'.work_semaphore ≡ q.work_semaphore + 1)
unfolding push_connection
push_connection-Holds q [] d (empty, pos_brk) =
    (push_first q d, ground arith, (omega arith, omega arith, (refl, ground arith)), refl)
push_connection-Holds q (c ∷ cs) d h =
    let (q', e, held, count) = push_behind-Holds q c cs d h in
    (q', ground (arith, h.0, e), held, count)

-- What a pop gives from a queue that holds these connections.
abbrev pub Pops : Queue → List ℕ → Option (Option ℕ × Queue) → Type 0
Pops q [] r = r ≡ some (none, q)
Pops q (c ∷ cs) r =
    (q' : Queue) × (r ≡ some (some c, q'))
    × Holds q' cs
    × (q'.work_semaphore ≡ q.work_semaphore)
    × (q'.tail ≡ q.tail)

-- A pop gives the oldest connection and leaves the others; from an empty queue it gives NULL.
pub pop_connection-Pops : (q : Queue) (cs : List ℕ) → Holds q cs → Pops q cs (pop_connection q)
unfolding pop_connection
pop_connection-Pops q [] (empty, pos_brk) = ground arith
pop_connection-Pops q (c ∷ []) (first, known, (same, found)) = (
  record q { head = 0; entries = write q.entries q.head none },
  ground arith,
  (refl, omega arith),
  refl,
  refl,
)
pop_connection-Pops q (c ∷ d ∷ cs) (first, known, (next, up, found, rest)) = (
  record q { head = next; entries = write q.entries q.head none },
  ground arith,
  (omega arith, known, Chain-write_below q.entries next q.tail d cs q.head none up rest),
  refl,
  refl,
)

pub init-Holds : Holds init []
unfolding init
init-Holds = (refl, omega arith)

-- The operations of a history.
pub data Op : Type 0 where
  pushes : ℕ → Op
  pops : Op

-- The results of a history's pops; `none` where the code touches memory that is not its own.
unfoldable pub run : Queue → List Op → Option (List (Option ℕ))
run q [] = some []
run q (pushes c ∷ ops) = elim (push_connection q c) [ none ↦ none | some q' ↦ run q' ops ]
run q (pops ∷ ops) = elim (pop_connection q) [
  | none ↦ none
  | some (result, q') ↦ elim (run q' ops) [ none ↦ none | some rest ↦ some (result ∷ rest) ]
]

-- The same history on a plain list.
abbrev pub run_list : List ℕ → List Op → List (Option ℕ)
run_list cs [] = []
run_list cs (pushes c ∷ ops) = run_list (cs ++ c ∷ []) ops
run_list [] (pops ∷ ops) = none ∷ run_list [] ops
run_list (c ∷ cs) (pops ∷ ops) = some c ∷ run_list cs ops

run-Holds :
    (q : Queue) (cs : List ℕ) (ops : List Op) → Holds q cs → run q ops ≡ some (run_list cs ops)
unfolding run
run-Holds q cs [] h = refl
run-Holds q cs (pushes c ∷ ops) h =
    let (q', e, h', _) = push_connection-Holds q cs c h in
    ground (arith, e, run-Holds q' (cs ++ c ∷ []) ops h')
run-Holds q [] (pops ∷ ops) h = ground (arith, pop_connection-Pops q [] h, run-Holds q [] ops h)
run-Holds q (c ∷ cs) (pops ∷ ops) h =
    let (q', e, h', _, _) = pop_connection-Pops q (c ∷ cs) h in
    ground (arith, e, run-Holds q' cs ops h')

-- Any history of whole pushes and pops on a fresh queue runs without a fault and gives what a
-- first-in first-out list gives.
pub run-fifo : (ops : List Op) → run init ops ≡ some (run_list [] ops)
run-fifo ops = run-Holds init [] ops init-Holds

-- On a queue with one connection, where a worker pops it between the test of the head in a push
-- and the write behind the tail, that write is a fault.
pub push_race :
    (q q' : Queue) (c d : ℕ)
    → Holds q (c ∷ [])
    → pop_connection q ≡ some (some c, q')
    → (push_connection q d ≡ push_behind q d) × (push_behind q' d ≡ none)
unfolding push_connection pop_connection push_behind
push_race q q' c d (first, known, (same, found)) e = (ground arith, ground arith)
