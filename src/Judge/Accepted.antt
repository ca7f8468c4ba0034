-- ===== src/Judge/Accepted.antt =====
-- What a verdict says of the request that it answers.
use kudos_judge.Base.{
  ◌≡◌, refl, sym, ap, ◌∙◌, some, List, [], ◌∷◌, Bytes, All, pos, is_ℕ, ok, flatten,
}
use kudos_judge.Compare.Blocks.{IsReadable}
use kudos_judge.Compare.Spec.{NoReturn, strip}
use kudos_judge.Interface.Decode.RoundTrip.{judging}
use kudos_judge.Interface.Decode.{decode}
use kudos_judge.Judge.{
  Machine, opened, open_file, process, launched, answers, judge_submission, services,
}
use kudos_judge.Lang.Process.{filled}
use kudos_judge.Lang.{BinaryInformation}
use kudos_judge.Runner.Drain.{settle}
use kudos_judge.Runner.Launch.Handed.{launch-Handed, Handed}
use kudos_judge.Interface.BufferLib.{NoNul}
use kudos_judge.Runner.Launch.{RunParams}
use kudos_judge.Runner.Judged.{Ready}
use kudos_judge.Runner.Result.{js_correct}
use kudos_judge.Runner.Run.Accepted.{Exits, conclude-strip}
use kudos_judge.Runner.Run.Trace.{Calm, pieces_read}
use kudos_judge.Runner.Run.{State, finishes, start, run_loop}
use kudos_judge.Verdict.{Verdict, accepted}
use kudos_judge.Worker.Verdicts.{verdicts, submission_of, files_of, serve_answered}
use kudos_judge.Worker.{Files, Submission, serve}
use kudos_judge.Judge.Ran.{
  open_file-made, Ran-run_launched, launched-run_submission, is_some-eq, accepted-judge_submission,
  judge_submission-accepted, settled_correct,
}

cons_cancel : {v w : Verdict} → v ∷ [] ≡ w ∷ [] → v ≡ w
cons_cancel e = cc

opened-IsReadable : (text : Bytes) → NoReturn text → IsReadable (opened text)
opened-IsReadable text clean = record { opened = refl; read_write = refl; no_return = clean }

-- What the runner reads of a submission.
abbrev pub pieces : Machine → Bytes → List Bytes
pieces m output = pieces_read m.settings m.rounds (start (opened output))

-- The loop of the runner has come to its end on this expected output.
abbrev pub Looped : Machine → Bytes → State → Type 0
Looped m output q = run_loop m.settings m.rounds (start (opened output)) ≡ finishes q

module _ (m : Machine) (source input output string : Bytes) (info : BinaryInformation)
    (v : Verdict) where
  abbrev submission : Submission
  submission = submission_of (services m) info source input output

  abbrev files : Files
  files = files_of (services m) input output

  -- The request becomes a submission on which the runner comes to this verdict.
  pub record Judges : Type 0 where
    pub decoded : decode string ≡ ok (judging source input output)
    pub compiled : (process m source).code ≡ pos 0
    pub filled_in : (process m source).info ≡ filled info
    pub judged : judge_submission m files submission ≡ some v

  pub answered : Judges → verdicts (serve (services m) (some string)) ≡ v ∷ []
  answered j =
      serve_answered (services m) info source input output string v j.decoded
        (ap (λ z. is_ℕ z 0) j.compiled) j.filled_in j.judged

  -- Where a request decodes, compiles and is judged, no output has a carriage return, and the one
  -- verdict that is sent is ACCEPTED, then the loop of jug_runner_run came to its end, the watcher
  -- exited with JS_CORRECT, and what was read of the submission is the expected output of the
  -- request up to its trailing newlines.
  pub serve-strip :
      Judges
      → NoReturn output
      → All NoReturn (pieces m output)
      → verdicts (serve (services m) (some string)) ≡ accepted ∷ []
      → (q : State) × Looped m output q
        × Exits q
        × (strip output ≡ strip (flatten (pieces m output)))
  serve-strip j clean_output clean_pieces e =
      let same : v ≡ accepted = cons_cancel (sym (answered j) ∙ e) in
      let (p, gone, ran) = judge_submission-accepted m files submission (j.judged ∙ ap some same) in
      let at = open_file-made m input output ran.fd ran.readable in
      let looped : Looped m output ran.last =
        ap (λ fd. run_loop m.settings m.rounds (start fd)) (sym at) ∙ ran.looped in
      let (exits, texts) =
        (conclude-strip m.settings m.rounds (opened output) ran.last
            (opened-IsReadable output clean_output) refl clean_pieces looped).0
          (settled_correct ran) in
      (ran.last, looped, exits, texts)

  -- A request that decodes, compiles and is judged is answered ACCEPTED, and nothing else, where
  -- the files open, the file system of its own is off, no round of the loop fails or overruns, the
  -- loop ends with the watcher exited JS_CORRECT, what was read is the expected output up to
  -- trailing newlines, neither has a carriage return, and the emptying of the pipes keeps the
  -- result.
  pub serve_accepts :
      (q : State) (p : RunParams)
      → Judges
      → NoReturn output
      → All NoReturn (pieces m output)
      → Ready (answers m files) submission
      → launched m submission ≡ ok p
      → Looped m output q
      → All Calm m.rounds
      → Exits q
      → strip output ≡ strip (flatten (pieces m output))
      → settle js_correct m.settings.datasource_size q.ds_sent_acc m.reads m.feeds ≡ some js_correct
      → verdicts (serve (services m) (some string)) ≡ accepted ∷ []
  serve_accepts q p j clean_output clean_pieces ready gone looped calm exits same settled =
      let (fd, readable) = is_some-eq (open_file files submission.output_filename) ready.1 in
      let at = open_file-made m input output fd readable in
      let concluded =
        (conclude-strip m.settings m.rounds (opened output) q
            (opened-IsReadable output clean_output) refl clean_pieces looped).1
          calm exits same in
      let ran =
        Ran-run_launched m files submission (opened output) q js_correct js_correct
          (readable ∙ ap some at) looped concluded settled in
      answered j
      ∙ ap (λ w. w ∷ [])
          (accepted-judge_submission m files submission v j.judged
            (launched-run_submission m files submission p js_correct gone ran) ready)

  -- Where a request decodes, compiles and is judged, the path of the binary holds no NUL, and the
  -- one verdict that is sent is ACCEPTED, then jug_runner_run went ahead, and the template
  -- process, whose answer is the pid of the watcher that is waited for, reads from its memory the
  -- parameters of this run, with the limits of the configuration and the pipes of this worker, and
  -- the path of the binary as the path and the only argument.
  pub serve-launched :
      Judges
      → NoNul info.bin_path
      → verdicts (serve (services m) (some string)) ≡ accepted ∷ []
      → (p : RunParams) × (launched m submission ≡ ok p)
        × Handed m.launcher m.infd m.rightfd m.worker_id m.input_size info.bin_path p
  serve-launched j clean e =
      let same : v ≡ accepted = cons_cancel (sym (answered j) ∙ e) in
      let (p, gone, _) = judge_submission-accepted m files submission (j.judged ∙ ap some same) in
      (
        p,
        gone,
        launch-Handed m.launcher m.infd m.rightfd m.worker_id m.input_size info.bin_path p clean
            gone,
      )
