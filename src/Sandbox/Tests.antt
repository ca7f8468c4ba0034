-- ===== src/Sandbox/Tests.antt =====
-- Runs of the watcher on short lives of a submission.
use kudos_judge.Base.{◌≡◌, refl, false, true, [], ◌∷◌, pos}
use kudos_judge.Sandbox.Reference.Agrees.{watch-report}
use kudos_judge.Sandbox.Reference.{report}
use kudos_judge.Sandbox.{
  Watcher, Turn, Limits, js_bin_running, stopped, killed, spliced, splice_again, leaves, watch,
  verdict, turn, check_status, stop, check_exit, check_clone, check_exec, check_cputime,
  check_memory, feed_binary, watcher_sig_handler,
}

abbrev limits : Limits
limits = record { datasource_size = 2; mem_limit_mb = pos 64 }

abbrev newborn : Watcher
newborn = record {
  splice_size_acc = 0;
  mem_limit_exceeded = false;
  sigxcpu_received = false;
  sigsegv_received = false;
  bin_killed = false;
  binary_state = js_bin_running;
}

-- SIGXCPU is 24, and a stop's status ends with 0x7f.
abbrev out_of_time : Turn
out_of_time = record { signals = []; feed = spliced 2; status = stopped 6271 (pos 0) }

abbrev ends : Turn
ends = record { signals = []; feed = splice_again; status = killed }

abbrev timed_out : Watcher
timed_out = record newborn { splice_size_acc = 2; sigxcpu_received = true; bin_killed = true }

timed_out_run : watch limits (out_of_time ∷ ends ∷ []) newborn ≡ leaves timed_out
unfolding watch turn check_status stop check_exit check_clone check_exec check_cputime check_memory
    feed_binary watcher_sig_handler
timed_out_run = refl

watch-report_example : verdict timed_out ≡ report limits (out_of_time ∷ ends ∷ [])
watch-report_example = watch-report limits (out_of_time ∷ ends ∷ []) timed_out timed_out_run
