-- ===== src/Runner/Judged.antt =====
-- The verdicts of `jug_runner_judge`.
use kudos_judge.Base.{
  some_cancel, List, Option, zero, suc, negsuc, sym, ap, ◌∙◌, ◌≡◌, ◌≢◌, ◌↔◌, refl, ◌⊎◌, inl, inr,
  true, false, none, some, [], ◌<◌, length, leb, if◌then◌else◌, arith, ℤ, pos, is_ℕ, Bool-cases,
  Option-cases,
}
use kudos_judge.Runner.Result.{SandboxResult, js_correct}
use kudos_judge.Runner.{refused, Answers, File, args_size, verdict_of, judge_run, judge, Judgement}
use kudos_judge.Verdict.{Verdict, accepted, compile_error, internal}
use kudos_judge.Worker.{Submission}

-- Both files open, and the file system of its own is off.
abbrev pub Ready : Answers → Submission → Type 0
Ready a submission =
    (a.opens submission.input_filename ≡ true)
    × (a.opens submission.output_filename ≡ true)
    × (is_ℕ a.use_erfs 1 ≡ false)

verdict_of_accepted : (r : SandboxResult) → (verdict_of r ≡ accepted) ↔ (r ≡ js_correct)
unfolding verdict_of
verdict_of_accepted r = ground arith

-- The run, where the path fits.
abbrev bounded_run : Answers → Submission → Option Judgement
bounded_run a submission =
    if leb args_size (length submission.bin_path) then none else judge_run a submission

judge-cases :
    (a : Answers) (submission : Submission)
    → (Ready a submission × (judge a submission ≡ bounded_run a submission))
      ⊎ ((¬ Ready a submission)
          × ((j : Judgement) × (judge a submission ≡ some j) × (j.verdict ≡ internal)))
unfolding judge
judge-cases a submission = elim (Bool-cases (a.opens submission.input_filename)) [
  | inr shut ↦
      inr ((λ r. ground (arith, shut, r)), (refused a submission, ground (arith, shut), refl))
  | inl in_open ↦ elim (Bool-cases (a.opens submission.output_filename)) [
    | inr shut ↦
        inr ((λ r. ground (arith, shut, r)), (refused a submission, ground (arith, shut), refl))
    | inl out_open ↦ elim (Bool-cases (is_ℕ a.use_erfs 1)) [
      | inl erfs ↦ inr (
        (λ r. ground (arith, erfs, r)),
        (refused a submission, ground (arith, erfs, in_open, out_open), refl),
      )
      | inr own ↦ inl ((in_open, out_open, own), ground (arith, own, in_open, out_open))
    ]
  ]
]

judgement_cancel :
    {v : Verdict} {files : List File} {j : Judgement}
    → Option.some (record { verdict = v; open_files = files }) ≡ some j
    → j.verdict ≡ v
judgement_cancel e = ap (λ (x : Judgement). x.verdict) (sym (some_cancel e))

judge_run_accepted :
    (a : Answers) (submission : Submission) (j : Judgement)
    → judge_run a submission ≡ some j
    → (j.verdict ≡ accepted) ↔ (a.run submission ≡ some (pos 0, js_correct))
unfolding judge_run
judge_run_accepted a submission j = by_return (a.run submission)
  where
    by_return :
        (r : Option (ℤ × SandboxResult))
        → (elim r [
          | none ↦ none
          | some (ret, result) ↦ Option.some (record {
            verdict = if is_ℕ ret 0 then verdict_of result else internal;
            open_files = [];
          })
        ])
          ≡ some j
        → (j.verdict ≡ accepted) ↔ (r ≡ some (pos 0, js_correct))
    by_return none e = absurd (ground (arith, e))
    by_return (some (pos zero, result)) e =
        let iff = verdict_of_accepted result in
        let same = judgement_cancel e in
        (
          (λ c. ap (λ (x : SandboxResult). some (pos 0, x)) (iff.0 (sym same ∙ c))),
          (λ c. same ∙ iff.1 (ap (λ (x : ℤ × SandboxResult). x.1) (some_cancel c))),
        )
    by_return (some (pos (suc n), result)) e = (
      (λ c. absurd (ground (arith, sym (judgement_cancel e) ∙ c))),
      (λ c. absurd (ground (arith, ap (λ (x : ℤ × SandboxResult). x.0) (some_cancel c)))),
    )
    by_return (some (negsuc n, result)) e = (
      (λ c. absurd (ground (arith, sym (judgement_cancel e) ∙ c))),
      (λ c. absurd (ground (arith, ap (λ (x : ℤ × SandboxResult). x.0) (some_cancel c)))),
    )

-- Where jug_runner_judge returns, its verdict is ACCEPTED exactly when both files open, the file
-- system of its own is off, and jug_runner_run returns 0 with the result JS_CORRECT.
pub judge_accepted :
    (a : Answers) (submission : Submission) (j : Judgement)
    → judge a submission ≡ some j
    → (j.verdict ≡ accepted) ↔ (Ready a submission × (a.run submission ≡ some (pos 0, js_correct)))
judge_accepted a submission j e = elim (judge-cases a submission) [
  | inl (ready, run) ↦ elim (Bool-cases (leb args_size (length submission.bin_path))) [
    | inl long ↦ absurd (ground (arith, run, long, e))
    | inr short ↦
        let same : judge_run a submission ≡ some j = ground (arith, run, short, e) in
        let iff = judge_run_accepted a submission j same in
        ((λ c. (ready, iff.0 c)), (λ c. iff.1 c.1))
  ]
  | inr (shut, (j', e', is_internal)) ↦
      ((λ c. absurd (ground (arith, e, e', is_internal, c))), (λ c. absurd (shut c.0)))
]

-- Where the path fits its array and jug_runner_run returns, jug_runner_judge returns, and it leaves
-- no file open if both files open and the file system of its own is off.
pub judge_total :
    (a : Answers) (submission : Submission) (r : ℤ × SandboxResult)
    → length submission.bin_path < args_size
    → a.run submission ≡ some r
    → (j : Judgement) × (judge a submission ≡ some j) × (Ready a submission → j.open_files ≡ [])
unfolding judge_run
judge_total a submission r short ran = elim (judge-cases a submission) [
  | inl (ready, run) ↦ (
    record { verdict = if is_ℕ r.0 0 then verdict_of r.1 else internal; open_files = [] },
    run ∙ ground (arith, ran),
    λ _. refl,
  )
  | inr (shut, (j, e, _)) ↦ (j, e, λ r. absurd (shut r))
]

verdict_of_uncompiled : (r : SandboxResult) → verdict_of r ≢ compile_error
unfolding verdict_of
verdict_of_uncompiled r = ground arith

judge_run_uncompiled :
    (a : Answers) (submission : Submission) (j : Judgement)
    → judge_run a submission ≡ some j
    → j.verdict ≢ compile_error
unfolding judge_run
judge_run_uncompiled a submission j e c = elim (Option-cases (a.run submission)) [
  | inl stuck ↦ ground (arith, e, stuck)
  | inr ((ret, result), ran) ↦ ground (arith, e, ran, c, verdict_of_uncompiled result)
]

-- The verdict of a judgement is not the one of the compiler.
pub judge_uncompiled :
    (a : Answers) (submission : Submission) (j : Judgement)
    → judge a submission ≡ some j
    → j.verdict ≢ compile_error
judge_uncompiled a submission j e c = elim (judge-cases a submission) [
  | inl (ready, run) ↦ elim (Bool-cases (leb args_size (length submission.bin_path))) [
    | inl long ↦ ground (arith, run, long, e)
    | inr short ↦ judge_run_uncompiled a submission j (ground (arith, run, short, e)) c
  ]
  | inr (shut, (j', e', is_internal)) ↦ ground (arith, e, e', is_internal, c)
]
