-- ===== src/Sandbox/Life.antt =====
-- The watcher from its birth to its exit: what `jug_sandbox_watcher` sets up, its loop, and the
-- emptying of the pipe behind it.
mod Exits
pub mod Status
use kudos_judge.Base.{
  ℕ, zero, suc, ◌+◌, ◌-◌, ◌%◌, Bool, true, false, not, ◌||◌, Option, none, some, List, [], ◌∷◌, leb,
  if◌then◌else◌, ℤ, pos, negsuc, is_ℕ, Result, ok, error, fault, ◌>>=◌,
}
use kudos_judge.Runner.Result.{
  SandboxResult, js_correct, js_wrong, js_timelimit, js_wall_timelimit, js_memlimit, js_outputlimit,
  js_runtime, js_pipe_error, js_comp_error, js_unknown, unnamed,
}
use kudos_judge.Sandbox.{
  Watcher, js_bin_running, Turn, Limits, Outcome, watches, leaves, exits, watch, verdict,
}

-- `umount`: done, EINVAL, or another error.
pub data Umount : Type 0 where
  unmounted not_mounted umount_failed : Umount

-- `dup2`: done, EINTR, or another error.
pub data Dup : Type 0 where
  duplicated interrupted dup_failed : Dup

-- What the system answers to the set-up, each `Bool` whether the call works.
pub record Calls : Type 0 where
  pub chdir : Bool
  pub chroot : Bool
  pub umount_proc : Umount
  pub mount_proc : Bool
  pub umount_tmp : Umount
  pub mount_tmp : Bool
  pub bind_tmp : Bool
  pub dup_output : Dup
  pub pipe : Bool
  -- F_GETFD of the pipe's writing end, four times
  pub valid_first : Bool
  pub valid_unblocked : Bool
  pub valid_before_signals : Bool
  pub sigusr2 : Bool
  pub valid_before_fork : Bool
  pub fork : Bool
  pub setoptions : Bool

-- `exit(-n)` where the call fails.
abbrev pub require : Bool → ℕ → Result Bool
require true n = ok true
require false n = error (negsuc (n - 1))

abbrev pub is_unmounted : Umount → Bool
is_unmounted unmounted = true
is_unmounted not_mounted = true
is_unmounted umount_failed = false

abbrev pub is_duplicated : Dup → Bool
is_duplicated duplicated = true
is_duplicated interrupted = true
is_duplicated dup_failed = false

-- `use_ERFS` asks for a root directory of its own.
unfoldable pub enter_root : ℤ → Calls → Result Bool
enter_root use_erfs c = do entered ← require c.chdir 2; require (is_ℕ use_erfs 0 || c.chroot) 3

unfoldable pub remount : Calls → Result Bool
remount c = do
  proc_free ← require (is_unmounted c.umount_proc) 4
  proc ← require c.mount_proc 4
  tmp_free ← require (is_unmounted c.umount_tmp) 9
  tmp ← require c.mount_tmp 9
  require c.bind_tmp 9

unfoldable pub redirect : Calls → Result Bool
redirect c = do
  output ← require (is_duplicated c.dup_output) 5
  pipe ← require c.pipe 9
  first ← require c.valid_first 50
  unblocked ← require c.valid_unblocked 45
  require c.valid_before_signals 30

unfoldable pub fork_binary : Calls → Result Bool
fork_binary c = do
  subscribed ← require c.sigusr2 3
  valid ← require c.valid_before_fork 40
  forked ← require c.fork 6
  require c.setoptions 21

unfoldable pub set_up : ℤ → Calls → Result Bool
unfolding enter_root remount redirect fork_binary
set_up use_erfs c = do
  root ← enter_root use_erfs c
  mounts ← remount c
  pipes ← redirect c
  fork_binary c

abbrev pub born : Watcher
born = record {
  splice_size_acc = 0;
  mem_limit_exceeded = false;
  sigxcpu_received = false;
  sigsegv_received = false;
  bin_killed = false;
  binary_state = js_bin_running;
}

-- A `read` of the input pipe behind the loop: a count, EAGAIN or another error.
pub data Flushed : Type 0 where
  flushed : ℕ → Flushed
  flush_again flush_failed : Flushed

-- The enumeration's value of a result.
unfoldable pub value_of : SandboxResult → ℕ
value_of js_correct = 0
value_of js_wrong = 1
value_of js_timelimit = 2
value_of js_wall_timelimit = 3
value_of js_memlimit = 4
value_of js_outputlimit = 5
value_of js_runtime = 6
value_of js_pipe_error = 7
value_of js_comp_error = 8
value_of js_unknown = 9
value_of (unnamed n) = n

-- What is called `flush_acc`, and the exit behind it; `none` where the reads do not come to an end.
unfoldable pub flush_loop : Limits → Watcher → ℕ → List Flushed → Option ℤ
unfolding verdict value_of
flush_loop l w acc [] = none
flush_loop l w acc (flush_failed ∷ more) = some (pos (value_of js_runtime))
flush_loop l w acc (flush_again ∷ more) =
    let rest = flush_loop l w acc more in
    if leb l.datasource_size (w.splice_size_acc + acc)
    then some (pos (value_of (verdict w)))
    else rest
flush_loop l w acc (flushed n ∷ more) =
    let rest = flush_loop l w (acc + n) more in
    if leb l.datasource_size (w.splice_size_acc + (acc + n))
    then some (pos (value_of (verdict w)))
    else rest

-- One life of the watcher.
pub record Life : Type 0 where
  pub use_erfs : ℤ
  pub calls : Calls
  pub limits : Limits
  pub turns : List Turn
  pub flushes : List Flushed

unfoldable pub after_loop : Life → Outcome → Option ℤ
unfolding flush_loop
after_loop life (watches w) = none
after_loop life (leaves w) = flush_loop life.limits w 0 life.flushes
after_loop life (exits code) = some code

-- What `jug_sandbox_watcher` exits with.
unfoldable pub exit_code : Life → Option ℤ
unfolding set_up after_loop watch
exit_code life = elim (set_up life.use_erfs life.calls) [
  | ok _ ↦ after_loop life (watch life.limits life.turns born)
  | error code ↦ some code
  | fault ↦ none
]

-- `WEXITSTATUS`: the low byte.
abbrev pub wexitstatus : ℤ → ℕ
wexitstatus (pos n) = n % 256
wexitstatus (negsuc n) = 255 - n % 256
