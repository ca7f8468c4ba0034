-- ===== src/Queue.antt =====
-- The connection queue of queue.c: a linked list of heap cells with a head, a tail and a semaphore.
pub mod Refinement
pub mod Schedule
pub mod Workers
mod Tests
use kudos_judge.Base.{ℕ, suc, ◌+◌, ◌-◌, Option, none, some, [], ◌∷◌, ◌==◌, if◌then◌else◌}

-- A pointer to an entry; 0 is NULL.
abbrev pub Ptr : Type 0
Ptr = ℕ

-- `jug_queue_entry`; a connection is known by a number.
pub record Entry : Type 0 where
  pub connection : ℕ
  pub next : Ptr

-- `jug_queue`, with the entries that `malloc` has given and `free` has not taken back. `brk` is
-- above every pointer given so far.
pub record Queue : Type 0 where
  pub head : Ptr
  pub tail : Ptr
  pub work_semaphore : ℕ
  pub entries : Ptr → Option Entry
  pub brk : Ptr

abbrev pub write : (Ptr → Option Entry) → Ptr → Option Entry → Ptr → Option Entry
write entries p e q = if q == p then e else entries q

-- The queue part of `queue_init`.
unfoldable pub init : Queue
init = record { head = 0; tail = 0; work_semaphore = 0; entries = λ _. none; brk = 1 }

abbrev with_entry : Queue → ℕ → Ptr → Option Entry
with_entry q connection =
    write q.entries q.brk (some (record { connection = connection; next = 0 }))

-- The push of a new entry where the head was found NULL.
unfoldable pub push_first : Queue → ℕ → Queue
push_first q connection = record {
  head = q.brk;
  tail = q.brk;
  work_semaphore = q.work_semaphore + 1;
  entries = with_entry q connection;
  brk = suc q.brk;
}

-- The push where it was found not to be NULL: the tail's `next` is written.
unfoldable pub push_behind : Queue → ℕ → Option Queue
push_behind q connection = elim (with_entry q connection q.tail) [
  | none ↦ none
  | some last ↦ some (record {
    head = q.head;
    tail = q.brk;
    work_semaphore = q.work_semaphore + 1;
    entries = write (with_entry q connection) q.tail (some (record last { next = q.brk }));
    brk = suc q.brk;
  })
]

-- `queue_push_connection`; `none` is a write through a pointer to no entry.
unfoldable pub push_connection : Queue → ℕ → Option Queue
unfolding push_first push_behind
push_connection q connection =
    if q.head == 0 then some (push_first q connection) else push_behind q connection

-- `queue_pop_connection`: 0 where the queue is empty, and `none` where the head is no entry.
unfoldable pub pop_connection : Queue → Option (Option ℕ × Queue)
pop_connection q = if q.head == 0 then some (none, q) else elim (q.entries q.head) [
  | none ↦ none
  | some entry ↦
      some (
        some entry.connection,
        record q { head = entry.next; entries = write q.entries q.head none },
      )
]
