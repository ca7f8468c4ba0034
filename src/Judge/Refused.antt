-- ===== src/Judge/Refused.antt =====
-- The verdict COMPILE ERROR and the compiler behind it.
pub mod Tests
use kudos_judge.Base.{◌≡◌, ◌≢◌, ◌↔◌, ◌∙◌, sym, ap, some, some_cancel, [], ◌∷◌, Bytes, ok}
use kudos_judge.Interface.Decode.RoundTrip.{judging}
use kudos_judge.Interface.Decode.{decode}
use kudos_judge.Judge.Ran.{>>=-eq-some}
use kudos_judge.Judge.{Machine, answers, judge_submission, services}
use kudos_judge.Lang.Process.Codes.{lang_process-Uncompiled}
use kudos_judge.Lang.Process.Outcomes.{Known, Uncompiled}
use kudos_judge.Lang.Process.{submission_name}
use kudos_judge.Lang.{Lang}
use kudos_judge.Runner.Judged.{judge_uncompiled}
use kudos_judge.Runner.{judge}
use kudos_judge.Verdict.{compile_error, codes}
use kudos_judge.Worker.Verdicts.{verdicts, serve_compile_error}
use kudos_judge.Worker.{Files, Submission, serve}

judge_submission-uncompiled :
    (m : Machine) (files : Files) (submission : Submission)
    → judge_submission m files submission ≢ some compile_error
unfolding judge_submission
judge_submission-uncompiled m files submission e =
    let (j, judged, same) = >>=-eq-some (judge (answers m files) submission) _ e in
    judge_uncompiled (answers m files) submission j judged (some_cancel same)

-- A request that decodes is answered COMPILE ERROR, and nothing else, exactly when C is known and
-- not by an interpreter, the worker has its directory, the source code was written to its file,
-- and no output file is there behind the compiler.
pub serve-Uncompiled :
    (m : Machine) (source input output string : Bytes)
    → decode string ≡ ok (judging source input output)
    → (verdicts (serve (services m) (some string)) ≡ compile_error ∷ []) ↔ (
        (lang : Lang) × Known m.host m.langs (codes "c") lang
        × Uncompiled m.host lang (submission_name m.lang_workspace m.worker_id) source)
serve-Uncompiled m source input output string decoded =
    let by_code =
      serve_compile_error (services m) source input output string decoded
        (judge_submission-uncompiled m) in
    let code =
      lang_process-Uncompiled m.host m.langs m.lang_workspace (codes "c") source m.worker_id in
    ((λ c. code.0 (by_code.0 c)), (λ failed. by_code.1 (code.1 failed)))
