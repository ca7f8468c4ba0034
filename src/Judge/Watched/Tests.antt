-- ===== src/Judge/Watched/Tests.antt =====
-- The watcher of an accepted submission that has forked, and was stopped by the runner.
use kudos_judge.Base.{◌≡◌, refl, false, true, some, arith, [], ◌∷◌, pos}
use kudos_judge.Judge.Tests.{machine, request, binary, output, judged, read_pieces, answer}
use kudos_judge.Judge.Watched.{serve-forbidden}
use kudos_judge.Verdict.{accepted, codes}
use kudos_judge.Sandbox.Life.{
  Calls, unmounted, not_mounted, duplicated, flushed, flush_again, Life, born, set_up, enter_root,
  remount, redirect, fork_binary, value_of, flush_loop, after_loop, exit_code,
}
use kudos_judge.Sandbox.{
  Watcher, js_bin_compout, sigusr2, spliced, splice_again, no_change, killed, stopped, Turn,
  watches, leaves, watch, verdict, turn, check_status, stop, check_exit, check_clone, check_exec,
  check_cputime, check_memory, feed_binary, watcher_sig_handler,
}

abbrev calls : Calls
calls = record {
  chdir = true;
  chroot = false;
  umount_proc = not_mounted;
  mount_proc = true;
  umount_tmp = unmounted;
  mount_tmp = true;
  bind_tmp = true;
  dup_output = duplicated;
  pipe = true;
  valid_first = true;
  valid_unblocked = true;
  valid_before_signals = true;
  sigusr2 = true;
  valid_before_fork = true;
  fork = true;
  setoptions = true;
}

abbrev reads : Turn
reads = record { signals = []; feed = spliced 1; status = no_change }

-- A stop at a fork, event 1.
abbrev forks : Turn
forks = record { signals = []; feed = splice_again; status = stopped 66943 (pos 0) }

-- SIGUSR2 from the runner.
abbrev told : Turn
told = record { signals = (sigusr2, false) ∷ []; feed = splice_again; status = killed }

abbrev life : Life
life = record {
  use_erfs = pos 0;
  calls = calls;
  limits = record { datasource_size = 1; mem_limit_mb = pos 64 };
  turns = reads ∷ forks ∷ told ∷ [];
  flushes = flush_again ∷ flushed 1 ∷ [];
}

abbrev last : Watcher
last = record born { splice_size_acc = 1; bin_killed = true; binary_state = js_bin_compout }

ended : exit_code life ≡ some (pos 0)
unfolding exit_code set_up enter_root remount redirect fork_binary after_loop flush_loop value_of
    verdict watch turn check_status stop check_exit check_clone check_exec check_cputime
    check_memory feed_binary watcher_sig_handler
ended = refl

first_turn : watch life.limits (reads ∷ []) born ≡ watches (record born { splice_size_acc = 1 })
unfolding watch turn check_status feed_binary
first_turn = refl

serve-forbidden_example :
    (w : Watcher) × (watch life.limits life.turns born ≡ leaves w)
    × (w.binary_state ≡ js_bin_compout)
serve-forbidden_example =
    serve-forbidden machine (codes "ok") (codes "7") output request binary accepted life
      (reads ∷ []) (told ∷ []) forks (record born { splice_size_acc = 1 }) 66943 (pos 0) judged
      (ground arith) (rw read_pieces (ground arith)) answer (tt, (tt, ((pos 0, ended, refl), tt)))
      refl first_turn refl refl
