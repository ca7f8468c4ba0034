-- ===== src/Daemon/Tests.antt =====
-- A daemon that comes up as process 815, is stopped, and leaves a stale pid file behind.
use kudos_judge.Base.{
  ◌≡◌, ◌↔◌, refl, true, some, [], ◌∷◌, All, length, pos, ok, same_text, store, arith,
}
use kudos_judge.Daemon.Actions.{Signalled, Free, waiting, main_signals, main_start, restart_stale}
use kudos_judge.Daemon.PidFile.{pid_text}
use kudos_judge.Daemon.Startup.Listening.{empty_reads, startup-HasPipes, startup-stop}
use kudos_judge.Daemon.Startup.{Surroundings, Up, startup, startup_ramfs, startup_server}
use kudos_judge.Daemon.{
  Command, parse_action, found, missing, Host, read_pid, inspect_file, inspect, signals,
  unlinks_file, says_not_running, says_stopped, exits, daemonizes, Decision, act_start, act_stop,
  act, run_command, main,
}
use kudos_judge.Daemon.Wait.{Waiting, started, not_started, await_daemon}
use kudos_judge.Decimal.{decimal_onto, atoi}
use kudos_judge.Lang.{lang_init}
use kudos_judge.Ramfs.Space.{Fits}
use kudos_judge.Ramfs.Workspace.{
  makes, lang_workspace_name, feed_workspace_name, lang_init_workspace, feed_init,
}
use kudos_judge.Ramfs.{init_ramfs, create_ramfs, mount_opts}
use kudos_judge.Start.Ready.{HasPipes}
use kudos_judge.Start.{
  TemplateCalls, rounds, text_of, number_of, queue_init, create_workers, launch_workers,
  queue_start, runner_init, sandbox_init, worker_pipes, template_init, runner_start,
}
use kudos_judge.Verdict.{codes}

abbrev calls : TemplateCalls
calls = record {
  pipe_in = λ i. true;
  pipe_out = λ i. true;
  pipe_rx = true;
  pipe_tx = true;
  mutex = pos 0;
  shmget = pos 5;
  shmat = true;
  clone = pos 77;
}

-- Every key has the value 1.
abbrev surroundings : Surroundings
surroundings = record {
  get = λ section key. some (codes "1");
  compilers = [];
  interpreters = [];
  vms = [];
  jug_root = true;
  has_directory = true;
  mkdir = pos 0;
  mounting = record { exists = true; mkdir = pos 0; mount = λ opts. pos 0 };
  creates = λ i. true;
  has_tmp = true;
  template = calls;
  mkdir_in = λ name. makes;
  bind = pos 0;
  pid_file_opens = true;
  fwrite = 4;
  pid = 815;
}

abbrev up : Up
up = record {
  ramfs = record {
    root_dir = codes "/var/opt/kudosJudge";
    dirname = codes "ramfs";
    path = codes "/var/opt/kudosJudge/ramfs";
    size_alloc = 10000000;
    used = pos 0;
    mem_max = 10000000;
  };
  settings = record { num_worker_threads = pos 1; queue_size_limit = pos 1 };
  workers = 0 ∷ [];
  runner = record {
    runner = record {
      stack_size_mb = pos 1;
      kill_on_compout = pos 1;
      show_submission_output = pos 1;
      output_size_limit_mb_default = pos 1;
    };
    sandbox = record {
      mem_limit_mb_default = pos 1;
      walltime_limit_ms_default = pos 1;
      time_limit_ms_default = pos 1;
      use_cgroups = pos 1;
      use_setrlimit = pos 1;
      use_erfs = pos 1;
      chroot_dir = codes "1";
    };
    template_pid = pos 77;
  };
  langs = [];
  lang_workspace = codes "/var/opt/kudosJudge/ramfs/lang-workspace";
  feed_workspace = codes "/var/opt/kudosJudge/ramfs/feed-workspace";
  pid_file = b'8' ∷ b'1' ∷ b'5' ∷ 0 ∷ [];
}

comes_up : startup surroundings ≡ ok up
unfolding startup startup_ramfs startup_server init_ramfs create_ramfs mount_opts queue_start
    queue_init launch_workers create_workers runner_start runner_init sandbox_init template_init
    worker_pipes number_of text_of atoi lang_init lang_init_workspace feed_init decimal_onto
comes_up = refl

abbrev host : Host
host = record {
  pid_stat = found;
  opens = true;
  content = up.pid_file;
  old = [];
  process = λ pid. found;
  kills = true;
  unlinks = true;
  goes_away = true;
}

startup-HasPipes_example :
    Fits up.ramfs 0
    × All (HasPipes calls) up.workers
    × (length up.workers ≡ rounds up.settings.num_worker_threads)
    × (up.pid_file ≡ pid_text 815)
    × (up.lang_workspace ≡ lang_workspace_name up.ramfs.path)
    × (up.feed_workspace ≡ feed_workspace_name up.ramfs.path)
startup-HasPipes_example = startup-HasPipes surroundings up comes_up

-- The process that waits reads an empty file twice.
abbrev waits_for : Waiting
waits_for = record {
  appears = true;
  opens = true;
  reads = [] ∷ [] ∷ up.pid_file ∷ [];
  old = [];
  process = λ pid. found;
}

startup-stop_example :
    (await_daemon waits_for ≡ ok (started (pos 815)))
    × (main host (codes "stop")
        ≡ ok (signals (pos 815) ∷ unlinks_file ∷ says_stopped ∷ [], exits 0))
unfolding decimal_onto empty_reads
startup-stop_example =
    startup-stop surroundings up waits_for 2 [] host comes_up (ground arith) refl refl refl refl
      refl refl refl refl refl refl

abbrev stopped : Decision
stopped = (signals (pos 815) ∷ unlinks_file ∷ says_stopped ∷ [], exits 0)

stops : main host (codes "stop") ≡ ok stopped
unfolding main run_command parse_action inspect inspect_file read_pid act act_stop atoi store
    same_text
stops = refl

main_signals_example :
    (c : Command) × (parse_action (codes "stop") ≡ ok c) × Signalled host c stopped
main_signals_example = main_signals host (codes "stop") stopped stops

abbrev gone : Host
gone = record host { process = λ pid. missing }

main_start_example : (daemonizes ≡ daemonizes) ↔ Free gone
unfolding main run_command parse_action inspect inspect_file read_pid act act_start atoi store
    same_text
main_start_example = main_start gone (unlinks_file ∷ [], daemonizes) refl

restart_stale_example :
    (main gone (codes "restart") ≡ ok (says_not_running ∷ [], daemonizes))
    × (await_daemon (waiting gone) ≡ ok not_started)
unfolding read_pid atoi
restart_stale_example =
    restart_stale gone (pos 815) b'8' (b'1' ∷ b'5' ∷ 0 ∷ []) refl refl refl refl refl
