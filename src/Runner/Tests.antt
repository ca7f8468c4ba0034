-- ===== src/Runner/Tests.antt =====
-- Runs of the runner on a short output.
use kudos_judge.Base.{
  ◌≤◌, ◌+◌, ◌≡◌, ◌≢◌, ◌↔◌, refl, true, false, none, some, List, [], ◌∷◌, ◌++◌, pos, All, arith,
  length, flatten, ok,
}
use kudos_judge.Compare.Spec.{NoReturn, strip}
use kudos_judge.Compare.{
  Descriptor, rdwr, read, match_block, compare_loop, go_back, end_loop, compare_output,
}
use kudos_judge.Runner.Drain.{settle, drain_output}
use kudos_judge.Runner.Judged.{Ready, judge_accepted}
use kudos_judge.Runner.Result.{SandboxResult, js_unknown, js_correct, result_of}
use kudos_judge.Runner.Run.Accepted.{Exits, conclude-strip}
use kudos_judge.Runner.Run.Trace.{Calm, pieces_read}
use kudos_judge.Runner.Run.Finishes.{run_loop_concludes}
use kudos_judge.Runner.Run.{
  read_failed, Settings, Round, State, finishes, got, end_of_file, read_again, fed, feed_again,
  exited, still_runs, wait_failed, start, run_loop, conclude, round, before_output, poll_watcher,
  watcher_ended, feed_watcher, read_output, take_output, last_comparison, after_piece, after_last,
  comparison,
}
use kudos_judge.Runner.Serial.RoundTrip.{unserialize-serialize, length-serialize_fits}
use kudos_judge.Runner.Serial.{
  CloneChildParams, serialize, serial_size, unserialize, template_max_tx, shm_size, sizeof_int,
}
use kudos_judge.Runner.{Answers, judge, verdict_of, judge_run}
use kudos_judge.Verdict.{accepted, codes}
use kudos_judge.Worker.{Submission}

abbrev expected : Descriptor
expected = record { is_open = true; access = rdwr; content = codes "16\n"; offset = 0 }

abbrev settings : Settings
settings = record { kill_on_compout = true; output_size_limit_mb = pos 10; datasource_size = 2 }

-- The output comes in two pieces, then the watcher exits and the pipe is empty.
abbrev rounds : List Round
rounds =
    record { waited = still_runs; input = fed 2; output = got b'1' [] }
    ∷ record { waited = still_runs; input = feed_again; output = got b'6' [] }
    ∷ record { waited = exited 0; input = feed_again; output = read_again }
    ∷ []

abbrev final : State
final = record {
  watcher_alive = false;
  endoffile = false;
  compout_detected = false;
  spawn_succeeded = true;
  watcher_result = some js_correct;
  comp_result = some js_correct;
  ds_sent_acc = 2;
  compare_stage = 2;
  received_bytes = 2;
  signals = 0;
  fd_output_ref = record expected { offset = 3 };
}

finished : run_loop settings rounds (start expected) ≡ finishes final
unfolding start run_loop round before_output poll_watcher watcher_ended feed_watcher read_output
    take_output last_comparison after_piece after_last comparison result_of compare_output
    compare_loop end_loop match_block go_back read
finished = refl

pieces : pieces_read settings rounds (start expected) ≡ codes "1" ∷ codes "6" ∷ []
unfolding pieces_read start run_loop round before_output poll_watcher watcher_ended feed_watcher
    read_output take_output last_comparison after_piece after_last comparison result_of
    compare_output compare_loop end_loop match_block go_back read
pieces = refl

pieces-NoReturn : All NoReturn (pieces_read settings rounds (start expected))
pieces-NoReturn = rw pieces (ground arith)

abbrev speaks : Round
speaks = record { waited = still_runs; input = feed_again; output = got b'1' [] }

-- The watcher ends while there is still output.
abbrev dies : Round
dies = record { waited = exited 0; input = feed_again; output = got b'6' [] }

abbrev silent : Round
silent = record { waited = still_runs; input = feed_again; output = read_again }

runs : still_runs ≢ wait_failed
runs e = ground (arith, e)

run_loop_concludes_example :
    (q : State) × (result : SandboxResult) × (run_loop settings
        (speaks ∷ dies ∷ speaks ∷ silent ∷ silent ∷ [])
        (start expected)
      ≡ finishes q)
    × (conclude q ≡ some result)
run_loop_concludes_example =
    run_loop_concludes settings (speaks ∷ []) dies (speaks ∷ []) silent silent [] expected
      (record { opened = refl; read_write = refl; no_return = ground arith }) (ground arith)
      (ground arith) (λ e. ground (arith, e)) (ground arith) tt (λ byte bytes e. ground (arith, e))
      (runs, ((λ e. ground (arith, e)), (runs, (runs, (runs, tt)))))

conclude-strip_example :
    (conclude final ≡ some js_correct
      → Exits final
        × (strip (codes "16\n") ≡ strip (flatten (pieces_read settings rounds (start expected)))))
    × (All Calm rounds
        → Exits final
        → strip (codes "16\n") ≡ strip (flatten (pieces_read settings rounds (start expected)))
        → conclude final ≡ some js_correct)
conclude-strip_example =
    conclude-strip settings rounds expected final
      (record { opened = refl; read_write = refl; no_return = ground arith }) refl pieces-NoReturn
      finished

-- The template could not clone: its pid -2 has no child to wait for.
abbrev lost : Round
lost = record { waited = wait_failed; input = feed_again; output = end_of_file }

abbrev emptied : Round
emptied = record { waited = still_runs; input = feed_again; output = read_again }

abbrev unfinished : State
unfinished = record {
  watcher_alive = false;
  endoffile = true;
  compout_detected = false;
  spawn_succeeded = true;
  watcher_result = none;
  comp_result = some (comparison (pos 10));
  ds_sent_acc = 0;
  compare_stage = 0;
  received_bytes = 0;
  signals = 0;
  fd_output_ref = record expected { offset = 3 };
}

lost_run : run_loop settings (lost ∷ emptied ∷ []) (start expected) ≡ finishes unfinished
unfolding start run_loop round before_output poll_watcher watcher_ended feed_watcher read_output
    take_output last_comparison after_piece after_last comparison result_of compare_output
    compare_loop end_loop match_block go_back read
lost_run = refl

abbrev request : CloneChildParams
request = record {
  run_params_struct = 1 ∷ 2 ∷ [];
  sandbox_struct = 3 ∷ [];
  binary_path = codes "/w/7";
  argv = codes "/w/7" ∷ [];
}

unserialize-serialize_example :
    (length (serialize request) ≡ serial_size 2 1 request)
    × (unserialize 2 1 (serialize request ++ (9 ∷ [])) ≡ ok request)
unserialize-serialize_example =
    unserialize-serialize request (9 ∷ []) (ground arith) (ground arith) (omega arith)

length-serialize_fits_example :
    (length (serialize request) ≤ template_max_tx)
    × (1 + sizeof_int + length (serialize request) ≤ shm_size)
length-serialize_fits_example = length-serialize_fits request refl (omega arith) (omega arith)

abbrev submission : Submission
submission = record {
  source = codes "ok";
  input_filename = some (codes "/w/1");
  output_filename = some (codes "/w/2");
  interpreted = false;
  bin_cmd = codes "/w/7";
  bin_path = codes "/w/7";
}

abbrev answers : Answers
answers = record { opens = λ f. true; use_erfs = pos 0; run = λ s. some (pos 0, js_correct) }

judged : judge answers submission ≡ some (record { verdict = accepted; open_files = [] })
unfolding judge judge_run verdict_of
judged = refl

judge_accepted_example :
    (accepted ≡ accepted)
    ↔ (Ready answers submission × (answers.run submission ≡ some (pos 0, js_correct)))
judge_accepted_example =
    judge_accepted answers submission (record { verdict = accepted; open_files = [] }) judged

-- The read of the output fails.
broken_pipe : settle js_correct 2 0 (read_failed ∷ []) [] ≡ some js_unknown
unfolding settle drain_output
broken_pipe = refl
