-- ===== src/Runner.antt =====
-- runner.c: the judging of one submission by `jug_runner_judge`. What `jug_runner_run` does is in
-- Run, the request to the template process in Serial.
pub mod Run
pub mod Drain
pub mod Serial
pub mod Launch
pub mod Template
pub mod Judged
mod Tests
use kudos_judge.Base.{
  ℕ, Bool, true, false, ◌||◌, not, Option, none, some, List, [], ◌∷◌, ltb, leb, if◌then◌else◌, ℤ,
  pos, negsuc, is_ℕ, length,
}
use kudos_judge.Runner.Result.{
  SandboxResult, js_correct, js_wrong, js_timelimit, js_wall_timelimit, js_outputlimit, js_runtime,
}
use kudos_judge.Verdict.{Verdict, accepted, wrong, timelimit, outputlimit, runtime, internal}
use kudos_judge.Worker.{Submission}
pub mod Result

-- The switch at the end; what has no case of its own is an internal error, JS_MEMLIMIT too.
unfoldable pub verdict_of : SandboxResult → Verdict
verdict_of js_correct = accepted
verdict_of js_wrong = wrong
verdict_of js_timelimit = timelimit
verdict_of js_wall_timelimit = timelimit
verdict_of js_outputlimit = outputlimit
verdict_of js_runtime = runtime
verdict_of _ = internal

-- What the system and the other parts answer for one submission.
pub record Answers : Type 0 where
  -- `open` with O_RDWR; a file name that is `none` is NULL
  pub opens : Option (List ℕ) → Bool
  pub use_erfs : ℤ
  -- the return value of `jug_runner_run` and `runp.result` after it; `none` where it does not return
  pub run : Submission → Option (ℤ × SandboxResult)

-- The files that `jug_runner_judge` opens.
pub data File : Type 0 where
  infd rightfd : File

pub record Judgement : Type 0 where
  pub verdict : Verdict
  -- the descriptors that are still open after the return
  pub open_files : List File

-- The size of `args[0]`, terminator included.
abbrev pub args_size : ℕ
args_size = 99

abbrev pub opened : Answers → Submission → List File
opened a submission =
    let right = if a.opens submission.output_filename then rightfd ∷ [] else [] in
    if a.opens submission.input_filename then infd ∷ right else right

-- The early returns, which close nothing.
abbrev pub refused : Answers → Submission → Judgement
refused a submission = record { verdict = internal; open_files = opened a submission }

-- From the call of `jug_runner_run` on.
unfoldable pub judge_run : Answers → Submission → Option Judgement
unfolding verdict_of
judge_run a submission = elim (a.run submission) [
  | none ↦ none
  | some (ret, result) ↦
      some
        (record { verdict = if is_ℕ ret 0 then verdict_of result else internal; open_files = [] })
]

-- `none` is a write past the end of `args[0]`, or a run that does not return.
unfoldable pub judge : Answers → Submission → Option Judgement
unfolding judge_run
judge a submission =
    if not (a.opens submission.input_filename) || not (a.opens submission.output_filename)
    then some (refused a submission)
    else if is_ℕ a.use_erfs 1
    then some (refused a submission)
    else if leb args_size (length submission.bin_path)
    then none
    else judge_run a submission
