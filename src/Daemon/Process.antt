-- ===== src/Daemon/Process.antt =====
-- The process of the daemon: `kjd_daemonize` and `kjd_sighandler` of kudosd.c.
mod Tests
use kudos_judge.Base.{
  c_string, ℕ, zero, suc, Bool, true, false, not, ◌&&◌, ◌||◌, Option, none, some, List, [], ◌∷◌,
  ◌++◌, Bytes, ltb, ◌==◌, if◌then◌else◌, ℤ, pos, negsuc, is_negative, Result, ok, error, fault,
  ◌>>=◌, same_text, store, length, drop, take,
}
use kudos_judge.Decimal.{atoi}
use kudos_judge.Start.{rounds}
use kudos_judge.Verdict.{codes}

-- Who comes out of `kjd_daemonize`, by what the forks and `setsid` return: a return value, or a
-- process that exits.
pub data Role : Type 0 where
  returns : ℤ → Role
  exits_with : ℤ → Role

-- The sign of a pid that `fork` returns.
pub data Fork : Type 0 where
  fails child parent : Fork

unfoldable pub detach : ℤ → Fork → Role
detach (negsuc n) second = exits_with (negsuc 0)
detach (pos n) fails = exits_with (negsuc 1)
detach (pos n) parent = exits_with (pos 0)
detach (pos n) child = returns (pos 0)

unfoldable pub daemonize : Fork → ℤ → Fork → Role
unfolding detach
daemonize fails setsid second = returns (negsuc 0)
daemonize parent setsid second = returns (pos 100)
daemonize child setsid second = detach setsid second

-- `queue_stop_workers`: the workers cancelled and joined.
unfoldable pub stop_workers : ℕ → ℕ → List ℕ
stop_workers i zero = []
stop_workers i (suc left) = i ∷ stop_workers (suc i) left

-- `jug_runner_template_term`: the pid that is killed.
unfoldable pub template_term : ℤ → Option ℤ
template_term (pos zero) = none
template_term (pos (suc n)) = some (pos (suc n))
template_term (negsuc n) = none

-- What `kjd_sighandler` does before it exits.
pub record Shutdown : Type 0 where
  pub workers : List ℕ
  pub template : Option ℤ
  pub unlinks_pid_file : Bool
  pub exit : Option ℤ

-- SIGINT, SIGTERM and SIGSEGV; neither call before the `unlink` fails.
unfoldable pub sighandler : ℕ → ℤ → ℤ → Shutdown
unfolding stop_workers template_term
sighandler sig num_workers template_pid =
    if sig == 2 || (sig == 15 || sig == 11)
    then record {
      workers = stop_workers 0 (rounds num_workers);
      template = template_term template_pid;
      unlinks_pid_file = true;
      exit = some (pos 0);
    }
    else record { workers = []; template = none; unlinks_pid_file = false; exit = none }
