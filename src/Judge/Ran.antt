-- ===== src/Judge/Ran.antt =====
-- What stands behind a return of `jug_runner_run`, and behind a verdict of `jug_runner_judge`.
use kudos_judge.Base.{
  same_text_refl, ◌≡◌, refl, sym, ap, ◌∙◌, inl, inr, true, Option, none, some, [], ◌∷◌, Bytes, ℤ,
  pos, ok, arith, Bool-cases, some_cancel,
}
use kudos_judge.Compare.{Descriptor}
use kudos_judge.Feed.{feed_name, new_file}
use kudos_judge.Judge.{
  Machine, make, services, find, opened, open_file, ◌>>=◌, final, run_launched, parameters,
  launched, run_submission, is_some, answers, judge_submission,
}
use kudos_judge.Lang.Process.{is_positive}
use kudos_judge.Runner.Drain.Patience.{settle-kept}
use kudos_judge.Runner.Drain.{settle}
use kudos_judge.Runner.Launch.Handed.{launch-cases}
use kudos_judge.Runner.Launch.{RunParams}
use kudos_judge.Runner.Judged.{Ready, judge_accepted}
use kudos_judge.Runner.Result.{SandboxResult, js_correct}
use kudos_judge.Runner.Run.{State, Outcome, finishes, goes_on, hangs, start, run_loop, conclude}
use kudos_judge.Runner.{judge}
use kudos_judge.Verdict.{Verdict, accepted, codes}
use kudos_judge.Worker.Verdicts.{files_of}
use kudos_judge.Worker.{Files, Submission}

pub >>=-eq-some {ℓ κ} :
    {A : Type ℓ} {B : Type κ} (o : Option A) (f : A → Option B) {b : B}
    → (o >>= f) ≡ some b
    → (a : A) × (o ≡ some a) × (f a ≡ some b)
>>=-eq-some none f e = cc
>>=-eq-some (some a) f e = (a, refl, e)

-- A file of the output that the runner can open holds the expected output.
pub open_file-made :
    (m : Machine) (input output : Bytes) (fd : Descriptor)
    → open_file (files_of (services m) input output) (make m output (codes "output")).filename
      ≡ some fd
    → fd ≡ opened output
unfolding open_file find new_file
open_file-made m input output fd e =
    let name = feed_name m.feed_workspace m.worker_id m.feed.now (codes "output") in
    elim (Bool-cases (m.feed.opens name)) [
      | inr shut ↦ absurd (ground (arith, e, shut))
      | inl opens ↦ elim (Bool-cases (is_positive (m.feed.fputs output))) [
        | inr empty ↦ absurd (ground (arith, e, opens, empty))
        | inl put ↦ ground (arith, e, opens, put, same_text_refl name)
      ]
    ]

final-finishes : (o : Outcome) (q : State) → final o ≡ some q → o ≡ finishes q
final-finishes (finishes p) q e = ap finishes (some_cancel e)
final-finishes (goes_on p) q e = cc
final-finishes hangs q e = cc

-- What stands behind a result of the loop and the emptying of the pipes.
pub record Ran (m : Machine) (files : Files) (submission : Submission) (r : SandboxResult)
    : Type 0 where
  pub fd : Descriptor
  pub last : State
  pub result : SandboxResult
  pub readable : open_file files submission.output_filename ≡ some fd
  pub looped : run_loop m.settings m.rounds (start fd) ≡ finishes last
  pub concluded : conclude last ≡ some result
  pub settled : settle result m.settings.datasource_size last.ds_sent_acc m.reads m.feeds ≡ some r

run_launched-Ran :
    (m : Machine) (files : Files) (submission : Submission) (r : SandboxResult)
    → run_launched m files submission ≡ some r
    → Ran m files submission r
unfolding run_launched
run_launched-Ran m files submission r e =
    let (fd, readable, e) = >>=-eq-some (open_file files submission.output_filename) _ e in
    let (last, ends, e) = >>=-eq-some (final (run_loop m.settings m.rounds (start fd))) _ e in
    let (result, concluded, settled) = >>=-eq-some (conclude last) _ e in
    record {
      fd = fd;
      last = last;
      result = result;
      readable = readable;
      looped = final-finishes _ last ends;
      concluded = concluded;
      settled = settled;
    }

pub Ran-run_launched :
    (m : Machine) (files : Files) (submission : Submission) (fd : Descriptor) (last : State)
    (result r : SandboxResult)
    → open_file files submission.output_filename ≡ some fd
    → run_loop m.settings m.rounds (start fd) ≡ finishes last
    → conclude last ≡ some result
    → settle result m.settings.datasource_size last.ds_sent_acc m.reads m.feeds ≡ some r
    → run_launched m files submission ≡ some r
unfolding run_launched
Ran-run_launched m files submission fd last result r readable looped concluded settled =
    simp (run_launched, ◌>>=◌, readable, looped, concluded, settled)

-- A run that returned 0 has gone ahead.
run_submission-launched :
    (m : Machine) (files : Files) (submission : Submission) (r : SandboxResult)
    → run_submission m files submission ≡ some (pos 0, r)
    → (p : RunParams) × (launched m submission ≡ ok p) × (run_launched m files submission ≡ some r)
unfolding run_submission
run_submission-launched m files submission r e =
    elim (launch-cases m.launcher m.worker_id (parameters m) submission.bin_path
      (submission.bin_path ∷ [])) [
        | inl (_, failed) ↦ absurd (ground (arith, e, failed))
        | inr (inl (_, shut)) ↦ absurd (ground (arith, e, shut))
        | inr (inr (_, _, gone)) ↦
            let rest : run_submission m files submission
                ≡ (run_launched m files submission >>= (λ result. some (pos 0, result))) =
              rw (run_submission, gone) refl in
            let (result, ran, same) =
              >>=-eq-some (run_launched m files submission) (λ result. some (pos 0, result))
                (sym rest ∙ e) in
            (_, gone, ran ∙ ap some (ap (λ (x : ℤ × SandboxResult). x.1) (some_cancel same)))
      ]

pub launched-run_submission :
    (m : Machine) (files : Files) (submission : Submission) (p : RunParams) (r : SandboxResult)
    → launched m submission ≡ ok p
    → run_launched m files submission ≡ some r
    → run_submission m files submission ≡ some (pos 0, r)
unfolding run_submission
launched-run_submission m files submission p r gone ran = simp (run_submission, gone, ran, ◌>>=◌)

pub is_some-eq {ℓ} : {A : Type ℓ} (o : Option A) → is_some o ≡ true → (a : A) × (o ≡ some a)
is_some-eq none h = absurd (ground (arith, h))
is_some-eq (some a) h = (a, refl)

-- Where the files open, the file system of its own is off and the run is right, so is the verdict.
pub accepted-judge_submission :
    (m : Machine) (files : Files) (submission : Submission) (v : Verdict)
    → judge_submission m files submission ≡ some v
    → run_submission m files submission ≡ some (pos 0, js_correct)
    → Ready (answers m files) submission
    → v ≡ accepted
unfolding judge_submission
accepted-judge_submission m files submission v e correct ready =
    let (j, judged, same) = >>=-eq-some (judge (answers m files) submission) _ e in
    sym (some_cancel same)
    ∙ (judge_accepted (answers m files) submission j judged).1 (ready, correct)

pub judge_submission-accepted :
    (m : Machine) (files : Files) (submission : Submission)
    → judge_submission m files submission ≡ some accepted
    → (p : RunParams) × (launched m submission ≡ ok p) × Ran m files submission js_correct
unfolding judge_submission
judge_submission-accepted m files submission e =
    let (j, judged, same) = >>=-eq-some (judge (answers m files) submission) _ e in
    let (_, result) = (judge_accepted (answers m files) submission j judged).0 (some_cancel same) in
    let (p, gone, correct) = run_submission-launched m files submission js_correct result in
    (p, gone, run_launched-Ran m files submission js_correct correct)

pub settled_correct :
    {m : Machine} {files : Files} {submission : Submission}
    (ran : Ran m files submission js_correct)
    → conclude ran.last ≡ some js_correct
settled_correct {m} ran =
    elim (settle-kept ran.result js_correct m.settings.datasource_size ran.last.ds_sent_acc m.reads
      m.feeds ran.settled) [
        | inl kept ↦ ran.concluded ∙ ap some (sym kept)
        | inr unknown ↦ absurd (ground (arith, unknown))
      ]
