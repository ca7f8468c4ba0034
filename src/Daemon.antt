-- ===== src/Daemon.antt =====
-- kudosd.c: what `main` decides on an action and the pid file.
pub mod Startup
pub mod Actions
mod Seen
pub mod PidFile
pub mod Wait
pub mod Accept
mod Process
mod Tests
use kudos_judge.Base.{
  c_string, ℕ, zero, suc, Bool, true, false, not, ◌&&◌, ◌||◌, Option, none, some, List, [], ◌∷◌,
  ◌++◌, Bytes, ltb, ◌==◌, if◌then◌else◌, ℤ, pos, negsuc, is_negative, Result, ok, error, fault,
  ◌>>=◌, same_text, store, length, drop, take,
}
use kudos_judge.Decimal.{atoi}
use kudos_judge.Start.{rounds}
use kudos_judge.Verdict.{codes}

-- `daemon_action_enum`
pub data Action : Type 0 where
  start restart stop state : Action

-- What a command line asks for.
pub data Command : Type 0 where
  acts : Action → Command
  shows_version : Command
  unknown : Command

-- The first argument, in an array of 50.
unfoldable pub parse_action : Bytes → Result Command
unfolding store same_text
parse_action arg = do
  action_str ← store 50 arg
  ok (
      if same_text action_str (codes "start")
      then acts start
      else if same_text action_str (codes "restart")
      then acts restart
      else if same_text action_str (codes "stop")
      then acts stop
      else if same_text action_str (codes "state")
      then acts state
      else if same_text action_str (codes "-v")
      then shows_version
      else unknown)

-- What `stat` says: there, ENOENT, or another error.
pub data Stat : Type 0 where
  found missing denied : Stat

-- What the system answers to `main`.
pub record Host : Type 0 where
  pub pid_stat : Stat
  pub opens : Bool
  -- the pid file, and what stands in `tmppid_str` before
  pub content : Bytes
  pub old : Bytes
  -- the directory of a process in /proc
  pub process : ℤ → Stat
  pub kills : Bool
  pub unlinks : Bool
  -- the file goes away within 7 seconds
  pub goes_away : Bool

-- The pid in a file: up to 50 bytes are read into an array of 10, and the byte behind the array,
-- taken to be spare, becomes the terminator.
unfoldable pub read_pid : Bytes → Bytes → Result ℤ
read_pid old content =
    let bytes = take 50 content in
    if ltb 10 (length bytes)
    then fault
    else ok (atoi (c_string (bytes ++ drop (length bytes) (take 10 old))))

-- What is known of the daemon: an exit code, or whether the file is there and the pid, if such a
-- process runs.
pub data Inspected : Type 0 where
  failed : ℕ → Inspected
  seen : Bool → Option ℤ → Inspected

abbrev pub by_process : ℤ → Stat → Inspected
by_process pid found = seen true (some pid)
by_process pid missing = seen true none
by_process pid denied = failed 5

unfoldable pub inspect_file : Host → Stat → Result Inspected
unfolding read_pid
inspect_file h denied = ok (failed 1)
inspect_file h missing = ok (seen false none)
inspect_file h found =
    if not h.opens
    then ok (failed 2)
    else (do pid ← read_pid h.old h.content; ok (by_process pid (h.process pid)))

unfoldable pub inspect : Host → Result Inspected
unfolding inspect_file
inspect h = inspect_file h h.pid_stat

pub data Effect : Type 0 where
  -- `kill(pid,SIGINT)`
  signals : ℤ → Effect
  unlinks_file : Effect
  -- a state that is printed
  says_running : ℤ → Effect
  says_not_running : Effect
  says_stopped : Effect

pub data Ending : Type 0 where
  exits : ℕ → Ending
  daemonizes : Ending

abbrev pub Decision : Type 0
Decision = List Effect × Ending

unfoldable pub act_start : Host → Bool → Option ℤ → Decision
act_start h exists (some pid) = (says_running pid ∷ [], exits 0)
act_start h false none = ([], daemonizes)
act_start h true none = (unlinks_file ∷ [], if h.unlinks then daemonizes else exits 4)

unfoldable pub act_stop : Host → Option ℤ → Decision
act_stop h none = (says_not_running ∷ [], exits 0)
act_stop h (some pid) =
    if not h.kills
    then (signals pid ∷ [], exits 6)
    else if not h.unlinks
    then (signals pid ∷ unlinks_file ∷ [], exits 7)
    else (signals pid ∷ unlinks_file ∷ says_stopped ∷ [], exits 0)

unfoldable pub act_restart : Host → Option ℤ → Decision
act_restart h none = (says_not_running ∷ [], daemonizes)
act_restart h (some pid) =
    if not h.kills
    then (signals pid ∷ [], exits 8)
    else if not h.goes_away
    then (signals pid ∷ [], exits 13)
    else (signals pid ∷ says_stopped ∷ [], daemonizes)

unfoldable pub act : Host → Action → Inspected → Decision
unfolding act_start act_stop act_restart
act h action (failed n) = ([], exits n)
act h state (seen exists (some pid)) = (says_running pid ∷ [], exits 0)
act h state (seen exists none) = (says_not_running ∷ [], exits 0)
act h start (seen exists running) = act_start h exists running
act h stop (seen exists running) = act_stop h running
act h restart (seen exists running) = act_restart h running

-- `main` up to `kjd_daemonize`, on the one argument.
unfoldable pub run_command : Host → Command → Result Decision
unfolding inspect act
run_command h (acts action) = do inspected ← inspect h; ok (act h action inspected)
run_command h shows_version = ok ([], exits 0)
run_command h unknown = ok ([], exits 0)

unfoldable pub main : Host → Bytes → Result Decision
unfolding parse_action run_command
main h arg = do command ← parse_action arg; run_command h command
