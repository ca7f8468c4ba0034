-- ===== src/Runner/Template.antt =====
-- The shared memory between the threads of the daemon and the template process, in runner.c:
-- `jug_runner_template_clone` asks for a watcher, `jug_runner_template_sighandler` clones one, and
-- `jug_runner_template` is what the handler interrupts. Each access to the memory is a step; a
-- thread that spins takes none. `template_pipe_mutex` lets one thread in at a time. Memory is
-- read and written in one order that all see.
pub mod Handshake
pub mod Progress
mod Tests
use kudos_judge.Base.{◌≡◌, Bool, true, false, List, [], ◌∷◌, ◌++◌, Bytes, ℤ}

-- `template_shm[0]`; `init` is the I of "INIT".
pub data Flag : Type 0 where
  init not_ready start ready ok : Flag

-- What lies behind it: a request, or the pid of a watcher.
pub data Payload : Type 0 where
  blank : Payload
  request : Bytes → Payload
  reply : ℤ → Payload

-- What both sides touch, and the history: the clones that were tried, each with what its request
-- was read as and its pid, or -2 where it failed, and the requests that were answered, each with what the thread read.
pub record Shared : Type 0 where
  pub flag : Flag
  pub payload : Payload
  -- a SIGUSR1 that has not been handled
  pub pending : Bool
  pub clones : List (Payload × Payload)
  pub answers : List (Payload × Payload)

-- The thread that holds the mutex, with its request; `idle` is a free mutex.
pub data Client : Type 0 where
  idle : Client
  awaits_start : Bytes → Client  -- while(template_shm[0]!='S');
  signals : Bytes → Client
  awaits_ready : Bytes → Client  -- while(template_shm[0]!='R');
  writes : Bytes → Client
  sends : Bytes → Client
  awaits_reply : Bytes → Client  -- while(template_shm[0]!='R');
  reads : Bytes → Client
  confirms : Bytes → Payload → Client
  unlocks : Bytes → Payload → Client

-- The template process: its loop, and the handler.
pub data Template : Type 0 where
  looping : Template
  sleeping : Template
  entered : Template
  awaits_request : Template  -- while(template_shm[0]!='K');
  reads_request : Template
  clones_watcher : Payload → Template
  writes_pid : ℤ → Template
  answers_pid : Template
  awaits_ok : Template  -- while(template_shm[0]!='K');
  leaves : Template

-- A step of `jug_runner_template_clone`
pub data Ask (m : Shared) : Client → Shared → Client → Type 0 where
  lock : (q : Bytes) → Ask m idle m (awaits_start q)
  see_start : {q : Bytes} → m.flag ≡ start → Ask m (awaits_start q) m (signals q)
  signal : {q : Bytes} → Ask m (signals q) (record m { pending = true }) (awaits_ready q)
  -- `kill` fails, and -1 is returned
  give_up : {q : Bytes} → Ask m (signals q) m idle
  see_ready : {q : Bytes} → m.flag ≡ ready → Ask m (awaits_ready q) m (writes q)
  write : {q : Bytes} → Ask m (writes q) (record m { payload = request q }) (sends q)
  send : {q : Bytes} → Ask m (sends q) (record m { flag = ok }) (awaits_reply q)
  see_reply : {q : Bytes} → m.flag ≡ ready → Ask m (awaits_reply q) m (reads q)
  take_pid : {q : Bytes} → Ask m (reads q) m (confirms q m.payload)
  confirm : {q : Bytes} {p : Payload} → Ask m (confirms q p) (record m { flag = ok }) (unlocks q p)
  unlock :
      {q : Bytes} {p : Payload}
      → Ask m (unlocks q p) (record m { answers = m.answers ++ ((request q, p) ∷ []) }) idle

-- A step of the template process. The handler runs between any two steps of the loop, and the loop
-- only goes on when it has returned.
pub data Serve (m : Shared) : Template → Shared → Template → Type 0 where
  announce : Serve m looping (record m { flag = start }) sleeping
  wake : Serve m sleeping m looping
  interrupt_loop : m.pending ≡ true → Serve m looping (record m { pending = false }) entered
  interrupt_sleep : m.pending ≡ true → Serve m sleeping (record m { pending = false }) entered
  enter : Serve m entered (record m { flag = ready }) awaits_request
  see_request : m.flag ≡ ok → Serve m awaits_request m reads_request
  read_request : Serve m reads_request m (clones_watcher m.payload)
  -- `clone` gives a pid, or -1 for which -2 is answered and stands in the history
  clone_watcher :
      {p : Payload} (pid : ℤ)
      → Serve m
          (clones_watcher p)
          (record m { clones = m.clones ++ ((p, reply pid) ∷ []) })
          (writes_pid pid)
  write_pid : {pid : ℤ} → Serve m (writes_pid pid) (record m { payload = reply pid }) answers_pid
  answer : Serve m answers_pid (record m { flag = ready }) awaits_ok
  see_ok : m.flag ≡ ok → Serve m awaits_ok m leaves
  leave : Serve m leaves (record m { flag = ready }) looping

-- The memory when the template process comes to its loop.
abbrev pub booted : Shared
booted = record { flag = not_ready; payload = blank; pending = false; clones = []; answers = [] }

pub data Reach : Shared → Client → Template → Type 0 where
  boot : Reach booted idle looping
  asked :
      {m m' : Shared} {c c' : Client} {t : Template} → Reach m c t → Ask m c m' c' → Reach m' c' t
  served :
      {m m' : Shared} {c : Client} {t t' : Template} → Reach m c t → Serve m t m' t' → Reach m' c t'
