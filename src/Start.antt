-- ===== src/Start.antt =====
-- How the daemon's parts come up: `queue_start` of queue.c, `jug_runner_start` of runner.c and
-- `jug_sandbox_init` of sandbox.c, from the keys of the configuration file.
pub mod Ready
use kudos_judge.Base.{
  ℕ, zero, suc, ◌+◌, Bool, true, false, not, ◌&&◌, Option, none, some, List, [], ◌∷◌, ◌++◌, Bytes,
  ltb, if◌then◌else◌, ℤ, pos, negsuc, is_ℕ, is_negative, Result, ok, error, fault, ◌>>=◌, reaches,
}
use kudos_judge.Decimal.{atoi}
use kudos_judge.Verdict.{codes}

-- `jug_get_config`, from a file that was read.
abbrev pub Lookup : Type 0
Lookup = Bytes → Bytes → Option Bytes

-- A key that is not there ends an initialisation with -1.
unfoldable pub text_of : Lookup → Bytes → Bytes → Result Bytes
text_of get section key = elim (get section key) [ none ↦ error (negsuc 0) | some value ↦ ok value ]

unfoldable pub number_of : Lookup → Bytes → Bytes → Result ℤ
unfolding text_of
number_of get section key = do value ← text_of get section key; ok (atoi value)

-- `g_num_worker_threads` and `g_queue_size_limit`
pub record QueueSettings : Type 0 where
  pub num_worker_threads : ℤ
  pub queue_size_limit : ℤ

unfoldable pub queue_init : Lookup → Result QueueSettings
unfolding number_of
queue_init get = do
  threads ← number_of get (codes "Queue") (codes "num_worker_threads")
  limit ← number_of get (codes "Queue") (codes "queue_size_limit")
  ok (record { num_worker_threads = threads; queue_size_limit = limit })

-- The rounds of `for(i=0;i<n;i++)`.
abbrev pub rounds : ℤ → ℕ
rounds (pos n) = n
rounds (negsuc n) = 0

-- The workers from i on, where `pthread_create` works for some: the return value, and the workers
-- that run.
unfoldable pub create_workers : (ℕ → Bool) → ℕ → ℕ → ℤ × List ℕ
create_workers creates i zero = (pos 0, [])
create_workers creates i (suc left) =
    let (code, more) = create_workers creates (suc i) left in
    if creates i then (code, i ∷ more) else (negsuc 0, [])

unfoldable pub launch_workers : (ℕ → Bool) → ℤ → ℤ × List ℕ
unfolding create_workers
launch_workers creates n = create_workers creates 0 (rounds n)

-- `queue_start`, where the queue is there: the settings and the workers that run, or its error.
unfoldable pub queue_start : Lookup → (ℕ → Bool) → Result (QueueSettings × List ℕ)
unfolding queue_init launch_workers
queue_start get creates = do
  settings ← queue_init get
  let (code, workers) = launch_workers creates settings.num_worker_threads
  (if is_ℕ code 0 then ok (settings, workers) else error code)

-- `Runner`
pub record RunnerSettings : Type 0 where
  pub stack_size_mb : ℤ
  pub kill_on_compout : ℤ
  pub show_submission_output : ℤ
  pub output_size_limit_mb_default : ℤ

unfoldable pub runner_init : Lookup → Result RunnerSettings
unfolding number_of
runner_init get = do
  stack ← number_of get (codes "Executer") (codes "stack_size_mb")
  kill ← number_of get (codes "Executer") (codes "kill_on_compout")
  show ← number_of get (codes "Executer") (codes "show_submission_output")
  limit ← number_of get (codes "Executer") (codes "output_size_limit_mb")
  ok (record {
    stack_size_mb = stack;
    kill_on_compout = kill;
    show_submission_output = show;
    output_size_limit_mb_default = limit;
  })

-- `struct sandbox`
pub record SandboxSettings : Type 0 where
  pub mem_limit_mb_default : ℤ
  pub walltime_limit_ms_default : ℤ
  pub time_limit_ms_default : ℤ
  pub use_cgroups : ℤ
  pub use_setrlimit : ℤ
  pub use_erfs : ℤ
  pub chroot_dir : Bytes

-- `stat("/tmp")` fails or not.
unfoldable pub sandbox_init : Lookup → Bool → Result SandboxSettings
unfolding number_of text_of
sandbox_init get has_tmp = do
  mem ← number_of get (codes "Executer") (codes "mem_limit_mb")
  wall ← number_of get (codes "Executer") (codes "walltime_limit_ms")
  time ← number_of get (codes "Executer") (codes "time_limit_ms")
  cgroups ← number_of get (codes "Executer") (codes "use_cgroups")
  setrlimit ← number_of get (codes "Executer") (codes "use_setrlimit")
  erfs ← number_of get (codes "Executer") (codes "use_ERFS")
  chroot ← text_of get (codes "Executer") (codes "chroot_dir_path")
  (if has_tmp
      then ok (record {
        mem_limit_mb_default = mem;
        walltime_limit_ms_default = wall;
        time_limit_ms_default = time;
        use_cgroups = cgroups;
        use_setrlimit = setrlimit;
        use_erfs = erfs;
        chroot_dir = chroot;
      })
      else error (negsuc 9))

-- What the system answers to `jug_runner_template_init`.
pub record TemplateCalls : Type 0 where
  -- the two pipes of a worker
  pub pipe_in : ℕ → Bool
  pub pipe_out : ℕ → Bool
  pub pipe_rx : Bool
  pub pipe_tx : Bool
  pub mutex : ℤ
  pub shmget : ℤ
  pub shmat : Bool
  pub clone : ℤ

-- The pipes of the workers from i on.
unfoldable pub worker_pipes : TemplateCalls → ℕ → ℕ → Bool
worker_pipes sys i zero = true
worker_pipes sys i (suc left) =
    let more = worker_pipes sys (suc i) left in sys.pipe_in i && (sys.pipe_out i && more)

-- The pid of the template process, or the error.
unfoldable pub template_init : TemplateCalls → ℤ → Result ℤ
unfolding worker_pipes
template_init sys workers =
    if reaches 24 workers
    then if not (worker_pipes sys 0 (rounds workers))
      then error (negsuc 3)
      else if not (sys.pipe_rx && sys.pipe_tx)
      then error (negsuc 2)
      else if not (is_ℕ sys.mutex 0)
      then error (negsuc 2)
      else if is_negative sys.shmget
      then error (negsuc 0)
      else if not sys.shmat
      then error (negsuc 0)
      else elim sys.clone [
        | pos pid ↦ ok (pos pid)
        | negsuc zero ↦ error (negsuc 1)
        | negsuc (suc n) ↦ ok (negsuc (suc n))
      ]
    else error (negsuc 4)

-- `jug_runner_start`: the settings and the template's pid, or its error.
pub record RunnerStarted : Type 0 where
  pub runner : RunnerSettings
  pub sandbox : SandboxSettings
  pub template_pid : ℤ

-- An error of an initialisation becomes this one.
abbrev pub failing {ℓ} : {A : Type ℓ} → ℤ → Result A → Result A
failing code (ok a) = ok a
failing code (error e) = error code
failing code fault = fault

unfoldable pub runner_start : Lookup → Bool → TemplateCalls → ℤ → Result RunnerStarted
unfolding runner_init sandbox_init template_init
runner_start get has_tmp sys num_workers = do
  runner ← failing (negsuc 0) (runner_init get)
  sandbox ← failing (negsuc 0) (sandbox_init get has_tmp)
  pid ← failing (negsuc 1) (template_init sys num_workers)
  ok (record { runner = runner; sandbox = sandbox; template_pid = pid })
