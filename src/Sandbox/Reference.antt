-- ===== src/Sandbox/Reference.antt =====
-- What the watcher is to exit with, said of the whole life of a submission at once.
mod Flags
mod Turns
pub mod Agrees
use kudos_judge.Base.{
  ◌≡◌, refl, sym, ap, subst, ◌∙◌, inl, inr, Bool, true, false, ◌&&◌, ◌||◌, not, Option, none, some,
  List, [], ◌∷◌, ℕ, ltb, ◌==◌, if◌then◌else◌, ℤ, pos, negsuc, arith, reaches, ◌/◌, Bool-cases,
  some_cancel, Option-cases,
}
use kudos_judge.Runner.Result.{
  SandboxResult, js_correct, js_timelimit, js_wall_timelimit, js_memlimit, js_runtime,
}
use kudos_judge.Runner.Run.{exceeds}
use kudos_judge.Sandbox.{
  BinState, js_bin_running, js_bin_walltimeout, js_bin_compout, Watcher, Signal, sigalrm, sigusr2,
  other_signal, Status, stopped, Turn, Limits, Outcome, watches, leaves, exits, watcher_sig_handler,
  check_exit, check_clone, check_exec, check_cputime, check_memory, stop, check_status, handle_all,
  feed_binary, turn, watch, verdict, spliced, splice_again, splice_failed, no_change, wait_failed,
  exited, killed, other_status, stop_sig, sigtrap, sigsegv, sigxcpu, has_exit_bits, is_event,
  ptrace_event_exec,
}
use kudos_judge.Sandbox.Verdicts.{forbidden}

-- A stop by SIGXCPU.
abbrev pub over_time : Status → Bool
over_time (stopped estatus mem) = stop_sig estatus == sigxcpu
over_time _ = false

-- A stop by SIGSEGV.
abbrev pub segfault : Status → Bool
segfault (stopped estatus mem) = stop_sig estatus == sigsegv
segfault _ = false

-- More than the limit is in use at a stop by SIGTRAP with a bit of PTRACE_EVENT_EXIT.
abbrev pub over_at_exit : Limits → ℕ → ℤ → Bool
over_at_exit l estatus (pos mem) =
    stop_sig estatus == sigtrap && has_exit_bits estatus && ltb 0 mem && exceeds mem l.mem_limit_mb
over_at_exit l estatus (negsuc mem) = false

-- The limit is reached.
abbrev pub full : Limits → ℤ → Bool
full l (pos mem) = reaches (mem / 1000000) l.mem_limit_mb
full l (negsuc mem) = false

abbrev pub over_memory : Limits → Status → Bool
over_memory l (stopped estatus mem) =
    over_at_exit l estatus mem || (stop_sig estatus == sigsegv && full l mem)
over_memory l _ = false

-- Killed, or stopped at what is not allowed.
abbrev pub condemned : Status → Bool
condemned (stopped estatus mem) = forbidden estatus
condemned killed = true
condemned _ = false

abbrev pub is_last : Status → Bool
is_last exited = true
is_last killed = true
is_last other_status = true
is_last _ = false

-- The turns up to the end of the submission.
abbrev pub lived : List Turn → List Turn
lived [] = []
lived (t ∷ turns) = let more = lived turns in if is_last t.status then t ∷ [] else t ∷ more

abbrev pub ever : (Status → Bool) → List Turn → Bool
ever p [] = false
ever p (t ∷ turns) = p t.status || ever p turns

-- The last signal that ended the submission.
abbrev pub ended_by : List (Signal × Bool) → Option BinState
ended_by [] = none
ended_by ((signal, fails) ∷ signals) = elim (ended_by signals) [
  | some s ↦ some s
  | none ↦ if fails then none else elim signal [
    | sigalrm ↦ some js_bin_walltimeout
    | sigusr2 ↦ some js_bin_compout
    | other_signal ↦ none
  ]
]

abbrev pub ended : List Turn → Option BinState
ended [] = none
ended (t ∷ turns) = elim (ended turns) [ some s ↦ some s | none ↦ ended_by t.signals ]

abbrev pub or_else : Option BinState → BinState → BinState
or_else (some s) b = s
or_else none b = b

-- The limit of time comes before the one of memory, and both before a signal of the runner or the
-- alarm, which comes before what the submission did.
abbrev pub exit_for : (timed_out memory_out segv dead : Bool) → BinState → SandboxResult
exit_for true memory_out segv dead by = js_timelimit
exit_for false true segv dead by = js_memlimit
exit_for false false segv dead js_bin_walltimeout = js_wall_timelimit
exit_for false false segv dead js_bin_compout = js_correct
exit_for false false segv dead _ = if segv || dead then js_runtime else js_correct

-- The exit that the watcher is to have.
abbrev pub report : Limits → List Turn → SandboxResult
report l turns =
    let life = lived turns in
    exit_for (ever over_time life) (ever (over_memory l) life) (ever segfault life)
      (ever condemned life) (or_else (ended life) js_bin_running)
