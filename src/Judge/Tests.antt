-- ===== src/Judge/Tests.antt =====
-- A right submission on its way through one machine.
use kudos_judge.Base.{
  ℕ, List, same_text, ◌≡◌, refl, true, false, some, [], ◌∷◌, Bytes, pos, arith, flatten, ◌+◌, ok,
  ◌≢◌,
}
use kudos_judge.Compare.Spec.{strip}
use kudos_judge.Compare.{read, match_block, compare_loop, go_back, end_loop, compare_output}
use kudos_judge.Decimal.{atoi, decimal_onto}
use kudos_judge.Feed.{new_file, feed_name}
use kudos_judge.Queue.Workers.{queue_worker_id, worker_from}
use kudos_judge.Interface.Decode.{decode}
use kudos_judge.Interface.Request.{number_line, sized_text, skip_line, advance}
use kudos_judge.Judge.Accepted.{Judges, answered, pieces, serve_accepts, serve-launched}
use kudos_judge.Judge.Apart.{workers_apart}
use kudos_judge.Judge.{
  Machine, find, opened, open_file, run_launched, launched, run_submission, judge_submission,
  services,
}
use kudos_judge.Lang.Process.{submission_name, fill, compile, process_lang, lang_process}
use kudos_judge.Lang.{BinaryInformation, Lang, lang_compiled, lang_get}
use kudos_judge.Runner.Drain.{settle, drain_output, drain_input}
use kudos_judge.Runner.Launch.Handed.{Handed}
use kudos_judge.Runner.Launch.{Launcher, RunParams, launch, prepare}
use kudos_judge.Runner.Serial.{serialize, int_bytes, argv_bytes}
use kudos_judge.Runner.Result.{js_correct, js_unknown, result_of}
use kudos_judge.Runner.Run.Trace.{pieces_read}
use kudos_judge.Runner.Run.{
  State, finishes, got, end_of_file, read_again, fed, feed_again, exited, still_runs, start,
  run_loop, conclude, round, before_output, poll_watcher, watcher_ended, feed_watcher, read_output,
  take_output, last_comparison, after_piece, after_last, comparison,
}
use kudos_judge.Runner.{judge, verdict_of, judge_run}
use kudos_judge.Verdict.{accepted, codes}
use kudos_judge.Worker.Verdicts.{verdicts, submission_of}
use kudos_judge.Worker.{Submission, serve}

abbrev pub c_language : Lang
c_language = record {
  type = lang_compiled;
  id = codes "c";
  version = codes "4.8.4";
  label = codes " gcc-4.8.4";
  cmd_compile = codes " gcc %s -o %s";
  cmd_interpr = [];
  cmd_vm = [];
  ext_compile = codes "c";
  ext_interpr = [];
  ext_vm = [];
}

abbrev pub launcher : Launcher
launcher = record {
  sandbox = record {
    mem_limit_mb_default = pos 64;
    walltime_limit_ms_default = pos 9000;
    time_limit_ms_default = pos 1000;
    use_cgroups = pos 0;
    use_setrlimit = pos 0;
    use_erfs = pos 0;
    chroot_dir = codes "/erfs";
  };
  io_pipes_out = λ order. record { read_from = pos (20 + order); write_to = pos (30 + order) };
  io_pipes_in = λ order. record { read_from = pos (40 + order); write_to = pos (50 + order) };
  run_params_bytes = λ p. p.thread_order ∷ p.datasource_size ∷ [];
  sandbox_bytes = λ sandbox. [];
  template_clone = λ request. pos 700;
  is_valid = λ fd. true;
}

abbrev pub machine : Machine
machine = record {
  worker_id = 3;
  feed = record { now = 5; opens = λ name. true; fputs = λ text. pos 1 };
  feed_workspace = codes "/f";
  host = record {
    has_directory = true;
    opens = λ name. true;
    fputs = λ text. pos 1;
    generates = λ command output. true;
    format = λ format args. format;
  };
  langs = c_language ∷ [];
  lang_workspace = codes "/w";
  use_erfs = pos 0;
  launcher = launcher;
  infd = pos 8;
  rightfd = pos 9;
  input_size = 1;
  unset = js_unknown;
  settings = record { kill_on_compout = true; output_size_limit_mb = pos 10; datasource_size = 1 };
  rounds =
      record { waited = still_runs; input = fed 1; output = got b'1' [] }
      ∷ record { waited = still_runs; input = feed_again; output = got b'6' [] }
      ∷ record { waited = exited 0; input = feed_again; output = read_again }
      ∷ [];
  reads = end_of_file ∷ [];
  feeds = feed_again ∷ [];
}

abbrev pub request : Bytes
request = codes "0\n0\n1\n7\n0\n3\n16\n\n2\nok"

abbrev pub binary : BinaryInformation
binary = record {
  bin_cmd = codes "/w/3/Submission";
  bin_path = codes "/w/3/Submission";
  interpreted = false;
}

abbrev pub output : Bytes
output = codes "16\n"

pub judged : Judges machine (codes "ok") (codes "7") output request binary accepted
unfolding decode number_line sized_text skip_line advance atoi lang_process process_lang compile
    fill lang_get same_text decimal_onto judge_submission run_submission run_launched launch prepare
    serialize int_bytes argv_bytes open_file find new_file judge judge_run verdict_of settle
    drain_output drain_input conclude start run_loop round before_output poll_watcher watcher_ended
    feed_watcher read_output take_output last_comparison after_piece after_last comparison result_of
    compare_output compare_loop end_loop match_block go_back read
judged = record { decoded = refl; compiled = refl; filled_in = refl; judged = refl }

abbrev final : State
final = record {
  watcher_alive = false;
  endoffile = false;
  compout_detected = false;
  spawn_succeeded = true;
  watcher_result = some js_correct;
  comp_result = some js_correct;
  ds_sent_acc = 1;
  compare_stage = 2;
  received_bytes = 2;
  signals = 0;
  fd_output_ref = record (opened output) { offset = 3 };
}

looped : run_loop machine.settings machine.rounds (start (opened output)) ≡ finishes final
unfolding start run_loop round before_output poll_watcher watcher_ended feed_watcher read_output
    take_output last_comparison after_piece after_last comparison result_of compare_output
    compare_loop end_loop match_block go_back read
looped = refl

pub read_pieces : pieces machine output ≡ codes "1" ∷ codes "6" ∷ []
unfolding pieces_read start run_loop round before_output poll_watcher watcher_ended feed_watcher
    read_output take_output last_comparison after_piece after_last comparison result_of
    compare_output compare_loop end_loop match_block go_back read
read_pieces = refl

pub answer : verdicts (serve (services machine) (some request)) ≡ accepted ∷ []
answer = answered machine (codes "ok") (codes "7") output request binary accepted judged

same_text_shown : strip output ≡ strip (flatten (pieces machine output))
unfolding strip
same_text_shown = rw read_pieces refl

-- What the run is given.
abbrev handed : RunParams
handed = record {
  mem_limit_mb = pos 64;
  time_limit_ms = pos 1000;
  fd_datasource = pos 8;
  fd_datasource_dir = some (pos 1);
  datasource_size = 1;
  fd_output_ref = pos 9;
  watcher_pid = some (pos 700);
  out_pipe = some (launcher.io_pipes_out 3);
  in_pipe = some (launcher.io_pipes_in 3);
  thread_order = 3;
}

abbrev judged_submission : Submission
judged_submission = submission_of (services machine) binary (codes "ok") (codes "7") output

gone : launched machine judged_submission ≡ ok handed
unfolding launch prepare
gone = refl

serve-launched_example :
    (p : RunParams) × (launched machine judged_submission ≡ ok p)
    × Handed launcher (pos 8) (pos 9) 3 1 (codes "/w/3/Submission") p
serve-launched_example =
    serve-launched machine (codes "ok") (codes "7") output request binary accepted judged
      (ground arith) answer

-- The threads of four workers; this machine is the last one.
abbrev threads : List ℕ
threads = 90 ∷ 91 ∷ 92 ∷ 93 ∷ []

abbrev other_machine : Machine
other_machine = record machine { worker_id = 1 }

abbrev feed_of : ℕ → Bytes
feed_of worker_id = feed_name (codes "/f") worker_id 5 (codes "input")

workers_apart_example :
    (feed_of 3 ≢ feed_of 1) × (submission_name (codes "/w") 3 ≢ submission_name (codes "/w") 1)
unfolding queue_worker_id worker_from new_file
workers_apart_example =
    workers_apart threads 93 91 machine other_machine (codes "7") (codes "7") (codes "input")
      (codes "input") (feed_of 3) (feed_of 1) refl refl (ground arith) refl refl refl refl

serve_accepts_example : verdicts (serve (services machine) (some request)) ≡ accepted ∷ []
unfolding open_file find new_file same_text decimal_onto settle drain_output drain_input
serve_accepts_example =
    serve_accepts machine (codes "ok") (codes "7") output request binary accepted final handed
      judged (ground arith) (rw read_pieces (ground arith)) (refl, refl, refl) gone looped
      (ground arith) (refl, refl) same_text_shown refl
