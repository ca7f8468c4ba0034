-- ===== src/Daemon/Startup/Listening.antt =====
-- What a daemon that listens has behind it, and what the next call of `main` finds.
use kudos_judge.Base.{
  ℕ, zero, suc, List, ◌++◌, refl, length-append, ◌<◌, ◌≡◌, sym, ap, subst, ◌∙◌, true, not, some, [],
  ◌∷◌, Bytes, All, length, pos, negsuc, is_ℕ, is_negative, leb, ◌||◌, ok, ◌>>=◌, >>=-eq-ok,
  ok_cancel, arith,
}
use kudos_judge.Daemon.PidFile.{pid_text, read_pid-pid_text}
use kudos_judge.Daemon.Startup.{
  Surroundings, Up, check, mounted, startup_ramfs, startup_server, startup,
}
use kudos_judge.Daemon.Wait.{Waiting, started, read_file, await_daemon}
use kudos_judge.Daemon.{
  found, Host, read_pid, seen, by_process, inspect_file, inspect, signals, unlinks_file,
  says_stopped, exits, act, act_stop, run_command, parse_action, main,
}
use kudos_judge.Decimal.{decimal}
use kudos_judge.Lang.{lang_init}
use kudos_judge.Ramfs.Space.{Fits, init_ramfs-Fits}
use kudos_judge.Ramfs.Workspace.{
  Mkdir, lang_workspace_name, feed_workspace_name, lang_init_workspace, feed_init,
}
use kudos_judge.Ramfs.{RamfsInfo, init_ramfs, create_ramfs}
use kudos_judge.Start.Ready.{HasPipes, failing_ok, runner_start-HasPipes}
use kudos_judge.Start.{text_of, queue_start, runner_start, failing, rounds}
use kudos_judge.Verdict.{codes}

-- What `startup` has seen to.
record Steps (s : Surroundings) (up : Up) : Type 0 where
  ramfs : startup_ramfs s ≡ ok up.ramfs
  queue : queue_start s.get s.creates ≡ ok (up.settings, up.workers)
  runner : runner_start s.get s.has_tmp s.template up.settings.num_worker_threads ≡ ok up.runner
  langs : up.lang_workspace ≡ lang_workspace_name up.ramfs.path
  feeds : up.feed_workspace ≡ feed_workspace_name up.ramfs.path
  server : startup_server s ≡ ok up.pid_file

lang_init_workspace-path :
    (path : Bytes) (mkdir : Bytes → Mkdir) (made : Bytes)
    → lang_init_workspace path mkdir ≡ ok made
    → made ≡ lang_workspace_name path
unfolding lang_init_workspace
lang_init_workspace-path path mkdir made e = ground (arith, e)

feed_init-path :
    (path : Bytes) (mkdir : Bytes → Mkdir) (made : Bytes)
    → feed_init path mkdir ≡ ok made
    → made ≡ feed_workspace_name path
unfolding feed_init
feed_init-path path mkdir made e = ground (arith, e)

startup-Steps : (s : Surroundings) (up : Up) → startup s ≡ ok up → Steps s up
unfolding startup
startup-Steps s up e =
    let (_, _, e) =
      >>=-eq-ok (failing (pos 12) (text_of s.get (codes "Executer") (codes "redirect_stderr"))) _
        e in
    let (ramfs, mounts, e) = >>=-eq-ok (startup_ramfs s) _ e in
    let (queue, starts, e) = >>=-eq-ok (failing (negsuc 99) (queue_start s.get s.creates)) _ e in
    let (runner, runs, e) =
      >>=-eq-ok
        (failing (negsuc 555) (runner_start s.get s.has_tmp s.template queue.0.num_worker_threads))
        _ e in
    let (langs, _, e) = >>=-eq-ok (lang_init s.compilers s.interpreters s.vms) _ e in
    let (lang_dir, langs_at, e) =
      >>=-eq-ok (failing (negsuc 556) (lang_init_workspace ramfs.path s.mkdir_in)) _ e in
    let (feed_dir, feeds_at, e) =
      >>=-eq-ok (failing (negsuc 557) (feed_init ramfs.path s.mkdir_in)) _ e in
    let (file, serves, e) = >>=-eq-ok (startup_server s) _ e in
    subst (Steps s) (ok_cancel e) (record {
      ramfs = mounts;
      queue = failing_ok (negsuc 99) _ starts;
      runner = failing_ok (negsuc 555) _ runs;
      langs =
          lang_init_workspace-path ramfs.path s.mkdir_in lang_dir
            (failing_ok (negsuc 556) _ langs_at);
      feeds = feed_init-path ramfs.path s.mkdir_in feed_dir (failing_ok (negsuc 557) _ feeds_at);
      server = serves;
    })

startup_server-pid_text :
    (s : Surroundings) (file : Bytes) → startup_server s ≡ ok file → file ≡ pid_text s.pid
unfolding startup_server
startup_server-pid_text s file e =
    let (_, _, e) = >>=-eq-ok (check (not (is_negative s.bind)) (pos 1)) _ e in
    let (_, _, e) = >>=-eq-ok (check s.pid_file_opens (pos 2)) _ e in
    let (_, _, e) = >>=-eq-ok (check (leb (length (pid_text s.pid)) s.fwrite) (pos 3)) _ e in
    sym (ok_cancel e)

startup_ramfs-Fits : (s : Surroundings) (info : RamfsInfo) → startup_ramfs s ≡ ok info → Fits info 0
unfolding startup_ramfs
startup_ramfs-Fits s info e =
    let root = codes "/var/opt/kudosJudge" in
    let (_, _, e) = >>=-eq-ok (check s.jug_root (negsuc 557)) _ e in
    let (_, _, e) = >>=-eq-ok (check (s.has_directory || is_ℕ s.mkdir 0) (negsuc 557)) _ e in
    let (made, at, e) = >>=-eq-ok (init_ramfs root (codes "ramfs") (pos 10) (pos 15)) _ e in
    let (_, _, e) = >>=-eq-ok (check (mounted (create_ramfs s.mounting made)) (negsuc 558)) _ e in
    subst (λ i. Fits i 0) (ok_cancel e)
      (init_ramfs-Fits root (codes "ramfs") (pos 10) (pos 15) made at)

-- When the daemon comes to its loop, the memory file system is unused and within its bounds, the
-- workers that run are as many as configured, each of them has its two pipes within the arrays,
-- the pid file holds the pid and its terminator, and the workspaces of lang.c and feed.c are the
-- directories of their names in the memory file system.
pub startup-HasPipes :
    (s : Surroundings) (up : Up)
    → startup s ≡ ok up
    → Fits up.ramfs 0
      × All (HasPipes s.template) up.workers
      × (length up.workers ≡ rounds up.settings.num_worker_threads)
      × (up.pid_file ≡ pid_text s.pid)
      × (up.lang_workspace ≡ lang_workspace_name up.ramfs.path)
      × (up.feed_workspace ≡ feed_workspace_name up.ramfs.path)
startup-HasPipes s up e =
    let steps = startup-Steps s up e in
    let (pipes, all) =
      runner_start-HasPipes s.get s.creates s.has_tmp s.template up.settings up.workers up.runner
        steps.queue steps.runner in
    (
      startup_ramfs-Fits s up.ramfs steps.ramfs,
      pipes,
      all,
      startup_server-pid_text s up.pid_file steps.server,
      steps.langs,
      steps.feeds,
    )

-- What is read before the daemon has written.
abbrev pub empty_reads : ℕ → List Bytes
empty_reads zero = []
empty_reads (suc n) = [] ∷ empty_reads n

read_file-empty :
    (w : Waiting) (n : ℕ) (reads : List Bytes)
    → read_file w (empty_reads n ++ reads) ≡ read_file w reads
unfolding read_file
read_file-empty w zero reads = refl
read_file-empty w (suc n) reads = read_file-empty w n reads

read_file-pid_text :
    (w : Waiting) (pid : ℕ) (more : List Bytes)
    → length (decimal pid) < 10
    → w.process (pos pid) ≡ found
    → read_file w (pid_text pid ∷ more) ≡ ok (started (pos pid))
unfolding read_file
read_file-pid_text w pid more short runs =
    by_text (pid_text pid) (read_pid-pid_text w.old pid short)
      (ground (arith, length-append (decimal pid) (0 ∷ [])))
  where
    by_text :
        (text : Bytes)
        → read_pid w.old text ≡ ok (pos pid)
        → 0 < length text
        → read_file w (text ∷ more) ≡ ok (started (pos pid))
    by_text [] reads some_text = absurd (omega (arith, some_text))
    by_text (c ∷ s) reads some_text = simp (read_file, reads, ◌>>=◌, runs)

-- The process that started the daemon reports its pid.
startup-awaited :
    (s : Surroundings) (up : Up) (w : Waiting) (n : ℕ) (more : List Bytes)
    → startup s ≡ ok up
    → length (decimal s.pid) < 10
    → w.appears ≡ true
    → w.opens ≡ true
    → w.reads ≡ empty_reads n ++ (up.pid_file ∷ more)
    → w.process (pos s.pid) ≡ found
    → await_daemon w ≡ ok (started (pos s.pid))
unfolding await_daemon
startup-awaited s up w n more e short appears opens reads runs =
    let written = startup_server-pid_text s up.pid_file (startup-Steps s up e).server in
    simp (await_daemon, appears, opens)
      (ap (read_file w) reads
        ∙ read_file-empty w n (up.pid_file ∷ more)
        ∙ ap (λ t. read_file w (t ∷ more)) written
        ∙ read_file-pid_text w s.pid more short runs)

-- After a daemon has come up with a pid of at most nine digits, the process that started it, if it
-- sees the pid file within its time, can open it, reads it empty until the pid is there, and finds
-- the process, reports that it has started with this pid; and a call with stop that finds the pid
-- file and the process, and whose kill and unlink work, signals exactly that pid, removes the file
-- and exits with 0.
pub startup-stop :
    (s : Surroundings) (up : Up) (w : Waiting) (n : ℕ) (more : List Bytes) (h : Host)
    → startup s ≡ ok up
    → length (decimal s.pid) < 10
    → w.appears ≡ true
    → w.opens ≡ true
    → w.reads ≡ empty_reads n ++ (up.pid_file ∷ more)
    → w.process (pos s.pid) ≡ found
    → h.pid_stat ≡ found
    → h.opens ≡ true
    → h.content ≡ up.pid_file
    → h.process (pos s.pid) ≡ found
    → h.kills ≡ true
    → h.unlinks ≡ true
    → (await_daemon w ≡ ok (started (pos s.pid)))
      × (main h (codes "stop")
          ≡ ok (signals (pos s.pid) ∷ unlinks_file ∷ says_stopped ∷ [], exits 0))
unfolding main run_command parse_action inspect inspect_file act act_stop
startup-stop s up w n more h e short appears readable reads lives there opens text runs kills
      unlinks =
    let written = startup_server-pid_text s up.pid_file (startup-Steps s up e).server in
    let pid_read : read_pid h.old h.content ≡ ok (pos s.pid) =
      ap (read_pid h.old) (text ∙ written) ∙ read_pid-pid_text h.old s.pid short in
    let looked : inspect h ≡ ok (seen true (some (pos s.pid))) =
      simp (inspect, inspect_file, there, opens, pid_read, runs, by_process, ◌>>=◌) in
    (
      startup-awaited s up w n more e short appears readable reads lives,
      simp (main, run_command, looked, act, act_stop, kills, unlinks, ◌>>=◌),
    )
