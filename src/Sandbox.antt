-- ===== src/Sandbox.antt =====
-- The watcher of sandbox.c: the loop of `jug_sandbox_watcher` over a traced submission, its signal
-- handler and its exit codes. What the system answers in a turn is an argument; the signals that
-- the watcher itself gets are handled at the start of a turn.
mod Lasting
pub mod Reference
pub mod Verdicts
pub mod Life
mod Binary
mod Tests
use kudos_judge.Base.{
  reaches, ℕ, suc, ◌+◌, ◌*◌, ◌-◌, ◌/◌, ◌%◌, Bool, true, false, ◌&&◌, ◌||◌, not, Option, none, some,
  List, [], ◌∷◌, ltb, leb, ◌==◌, if◌then◌else◌, ℤ, pos, negsuc,
}
use kudos_judge.Runner.Run.{exceeds}
use kudos_judge.Runner.Result.{
  SandboxResult, js_correct, js_wrong, js_timelimit, js_wall_timelimit, js_memlimit, js_outputlimit,
  js_runtime, js_pipe_error, js_comp_error, js_unknown, unnamed,
}

-- `js_bin_state`
pub data BinState : Type 0 where
  js_bin_notstarted js_bin_running js_bin_walltimeout js_bin_timeout js_bin_compout : BinState

-- The variables of the loop and `binary_state`.
pub record Watcher : Type 0 where
  pub splice_size_acc : ℕ
  pub mem_limit_exceeded : Bool
  pub sigxcpu_received : Bool
  pub sigsegv_received : Bool
  pub bin_killed : Bool
  pub binary_state : BinState

-- Linux numbers of signals and of ptrace events.
abbrev pub sigtrap : ℕ
sigtrap = 5

abbrev pub sigsegv : ℕ
sigsegv = 11

abbrev pub sigxcpu : ℕ
sigxcpu = 24

abbrev pub ptrace_event_fork : ℕ
ptrace_event_fork = 1

abbrev pub ptrace_event_vfork : ℕ
ptrace_event_vfork = 2

abbrev pub ptrace_event_clone : ℕ
ptrace_event_clone = 3

abbrev pub ptrace_event_exec : ℕ
ptrace_event_exec = 4

-- `WSTOPSIG(estatus)`
abbrev pub stop_sig : ℕ → ℕ
stop_sig estatus = estatus / 256 % 256

-- `estatus & (PTRACE_EVENT_EXIT<<8)`, which is 0x600.
abbrev pub has_exit_bits : ℕ → Bool
has_exit_bits estatus = estatus / 512 % 2 == 1 || estatus / 1024 % 2 == 1

-- `estatus>>8 == (SIGTRAP | (event<<8))`
abbrev pub is_event : ℕ → ℕ → Bool
is_event estatus event = estatus / 256 == sigtrap + 256 * event

-- A signal to the watcher, and whether `kill` of the binary fails.
pub data Signal : Type 0 where
  sigalrm sigusr2 other_signal : Signal

unfoldable pub watcher_sig_handler : Signal → Bool → Watcher → Watcher
watcher_sig_handler sigalrm false w = record w { binary_state = js_bin_walltimeout }
watcher_sig_handler sigusr2 false w = record w { binary_state = js_bin_compout }
watcher_sig_handler _ _ w = w

-- `splice` to the binary: a count, EAGAIN or another error.
pub data Spliced : Type 0 where
  spliced : ℕ → Spliced
  splice_again splice_failed : Spliced

-- `waitpid(binary_pid,&estatus,WNOHANG)`; a stop comes with the memory in use then.
pub data Status : Type 0 where
  no_change wait_failed exited killed other_status : Status
  stopped : (estatus : ℕ) (mem_used : ℤ) → Status

pub record Turn : Type 0 where
  pub signals : List (Signal × Bool)
  pub feed : Spliced
  pub status : Status

pub record Limits : Type 0 where
  pub datasource_size : ℕ
  pub mem_limit_mb : ℤ

-- Before the exit, or so it is meant.
unfoldable pub check_exit : Limits → ℕ → ℤ → Watcher → Watcher
check_exit l estatus (pos mem) w =
    if stop_sig estatus == sigtrap
      && has_exit_bits estatus
      && ltb 0 mem
      && exceeds mem l.mem_limit_mb
    then record w { mem_limit_exceeded = true }
    else w
check_exit l estatus (negsuc mem) w = w

unfoldable pub check_clone : ℕ → Watcher → Watcher
check_clone estatus w =
    if is_event estatus ptrace_event_fork
      || is_event estatus ptrace_event_clone
      || is_event estatus ptrace_event_vfork
    then record w { bin_killed = true }
    else w

unfoldable pub check_exec : ℕ → Watcher → Watcher
check_exec estatus w =
    if is_event estatus ptrace_event_exec then record w { bin_killed = true } else w

unfoldable pub check_cputime : ℕ → Watcher → Watcher
check_cputime estatus w =
    if stop_sig estatus == sigxcpu && not w.sigxcpu_received
    then record w { sigxcpu_received = true }
    else w

-- `mem_used>=0 && (mem_used/1000000) >= mem_limit_mb`
abbrev reaches_limit : Limits → ℤ → Bool
reaches_limit l (pos mem) = reaches (mem / 1000000) l.mem_limit_mb
reaches_limit l (negsuc mem) = false

unfoldable pub check_memory : Limits → ℕ → ℤ → Watcher → Watcher
check_memory l estatus mem w =
    if stop_sig estatus == sigsegv
    then (if reaches_limit l mem
        then record w { sigsegv_received = true; mem_limit_exceeded = true }
        else record w { sigsegv_received = true })
    else w

-- The branch `WIFSTOPPED(estatus)`
unfoldable pub stop : Limits → ℕ → ℤ → Watcher → Watcher
unfolding check_exit check_clone check_exec check_cputime check_memory
stop l estatus mem w =
    check_memory l estatus mem (
      check_cputime estatus (check_exec estatus (check_clone estatus (check_exit l estatus mem w))))

-- The watcher goes on, leaves the loop, or exits in it.
pub data Outcome : Type 0 where
  watches : Watcher → Outcome
  leaves : Watcher → Outcome
  exits : ℤ → Outcome

unfoldable pub check_status : Limits → Status → Watcher → Outcome
unfolding stop
check_status l no_change w = watches w
check_status l wait_failed w = exits (negsuc 59)
check_status l (stopped estatus mem) w = watches (stop l estatus mem w)
check_status l exited w = leaves w
check_status l killed w = leaves (record w { bin_killed = true })
check_status l other_status w = leaves w

abbrev pub handle_all : List (Signal × Bool) → Watcher → Watcher
handle_all [] w = w
handle_all ((signal, fails) ∷ signals) w = handle_all signals (watcher_sig_handler signal fails w)

-- `none` is `exit(-22)`.
unfoldable pub feed_binary : Limits → Spliced → Watcher → Option Watcher
feed_binary l feed w =
    if ltb w.splice_size_acc l.datasource_size
    then elim feed [
      | splice_failed ↦ none
      | splice_again ↦ some w
      | spliced n ↦ some (record w { splice_size_acc = w.splice_size_acc + n })
    ]
    else some w

unfoldable pub turn : Limits → Turn → Watcher → Outcome
unfolding check_status feed_binary watcher_sig_handler
turn l t w = elim (feed_binary l t.feed (handle_all t.signals w)) [
  | none ↦ exits (negsuc 21)
  | some w' ↦ check_status l t.status w'
]

unfoldable pub watch : Limits → List Turn → Watcher → Outcome
unfolding turn
watch l [] w = watches w
watch l (t ∷ turns) w = elim (turn l t w) [
  | watches w' ↦ watch l turns w'
  | leaves w' ↦ leaves w'
  | exits code ↦ exits code
]

-- The exit behind the loop.
unfoldable pub verdict : Watcher → SandboxResult
verdict w =
    if w.sigxcpu_received
    then js_timelimit
    else if w.mem_limit_exceeded
    then js_memlimit
    else elim w.binary_state [
      | js_bin_walltimeout ↦ js_wall_timelimit
      | js_bin_compout ↦ js_correct
      | _ ↦
          if w.sigsegv_received || w.bin_killed
          then (if w.mem_limit_exceeded then js_memlimit else js_runtime)
          else js_correct
    ]
