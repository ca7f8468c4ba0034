-- ===== src/Daemon/Startup.antt =====
-- The way of the daemon process from `kjd_daemonize` to its loop, in `main` of kudosd.c.
pub mod Listening
use kudos_judge.Base.{
  ℕ, Bool, true, false, not, ◌||◌, List, [], ◌∷◌, Bytes, leb, length, if◌then◌else◌, ℤ, pos, negsuc,
  is_ℕ, is_negative, Result, ok, error, fault, ◌>>=◌,
}
use kudos_judge.Config.{KeyVal}
use kudos_judge.Daemon.PidFile.{pid_text}
use kudos_judge.Lang.{Lang, lang_init}
use kudos_judge.Ramfs.Workspace.{Mkdir, lang_init_workspace, feed_init}
use kudos_judge.Ramfs.{RamfsInfo, Mounting, init_ramfs, create_ramfs}
use kudos_judge.Start.{
  Lookup, QueueSettings, TemplateCalls, RunnerStarted, text_of, queue_start, runner_start, failing,
}
use kudos_judge.Verdict.{codes}

-- What the configuration and the system answer.
pub record Surroundings : Type 0 where
  pub get : Lookup
  pub compilers : List KeyVal
  pub interpreters : List KeyVal
  pub vms : List KeyVal
  -- JUG_ROOT is set
  pub jug_root : Bool
  -- /var/opt/kudosJudge is a directory, or what `mkdir` returns
  pub has_directory : Bool
  pub mkdir : ℤ
  pub mounting : Mounting
  pub creates : ℕ → Bool
  pub has_tmp : Bool
  pub template : TemplateCalls
  -- in the ramfs
  pub mkdir_in : Bytes → Mkdir
  pub bind : ℤ
  pub pid_file_opens : Bool
  pub fwrite : ℕ
  pub pid : ℕ

-- A daemon that listens, and what it has written to its pid file.
pub record Up : Type 0 where
  pub ramfs : RamfsInfo
  pub settings : QueueSettings
  pub workers : List ℕ
  pub runner : RunnerStarted
  pub langs : List Lang
  pub lang_workspace : Bytes
  pub feed_workspace : Bytes
  pub pid_file : Bytes

abbrev pub check : Bool → ℤ → Result Bool
check true code = ok true
check false code = error code

-- 0, or -2 where the directory was there.
abbrev pub mounted : ℤ → Bool
mounted (pos n) = is_ℕ (pos n) 0
mounted (negsuc n) = is_ℕ (pos n) 1

-- The memory file system, in a directory that is there or made.
unfoldable pub startup_ramfs : Surroundings → Result RamfsInfo
unfolding create_ramfs
startup_ramfs s = do
  root ← check s.jug_root (negsuc 557)
  directory ← check (s.has_directory || is_ℕ s.mkdir 0) (negsuc 557)
  info ← init_ramfs (codes "/var/opt/kudosJudge") (codes "ramfs") (pos 10) (pos 15)
  mount ← check (mounted (create_ramfs s.mounting info)) (negsuc 558)
  ok info

-- The socket and the pid file.
unfoldable pub startup_server : Surroundings → Result Bytes
startup_server s = do
  bound ← check (not (is_negative s.bind)) (pos 1)
  opened ← check s.pid_file_opens (pos 2)
  put ← check (leb (length (pid_text s.pid)) s.fwrite) (pos 3)
  ok (pid_text s.pid)

-- A daemon that listens, or what `main` returns or exits with. `jug_int_init` never fails.
unfoldable pub startup : Surroundings → Result Up
unfolding startup_ramfs startup_server text_of queue_start runner_start lang_init
    lang_init_workspace feed_init
startup s = do
  redirect ← failing (pos 12) (text_of s.get (codes "Executer") (codes "redirect_stderr"))
  ramfs ← startup_ramfs s
  queue ← failing (negsuc 99) (queue_start s.get s.creates)
  runner ← failing (negsuc 555) (runner_start s.get s.has_tmp s.template queue.0.num_worker_threads)
  langs ← lang_init s.compilers s.interpreters s.vms
  lang_workspace ← failing (negsuc 556) (lang_init_workspace ramfs.path s.mkdir_in)
  feed_workspace ← failing (negsuc 557) (feed_init ramfs.path s.mkdir_in)
  pid_file ← startup_server s
  ok (record {
    ramfs = ramfs;
    settings = queue.0;
    workers = queue.1;
    runner = runner;
    langs = langs;
    lang_workspace = lang_workspace;
    feed_workspace = feed_workspace;
    pid_file = pid_file;
  })
