-- ===== src/Judge/Watched.antt =====
-- The verdict ACCEPTED and the life of the watcher behind it.
mod Tests
use kudos_judge.Base.{
  ℕ, ◌≡◌, ◌⊎◌, refl, sym, ap, ◌∙◌, inl, inr, true, some, List, [], ◌∷◌, ◌++◌, Bytes, All, ℤ, pos,
  arith, some_cancel,
}
use kudos_judge.Compare.Spec.{NoReturn}
use kudos_judge.Judge.Accepted.{Judges, pieces, Looped, serve-strip}
use kudos_judge.Judge.{Machine, services}
use kudos_judge.Lang.{BinaryInformation}
use kudos_judge.Runner.Result.{js_correct, js_unknown, result_of}
use kudos_judge.Runner.Run.Watched.{Gives, run_loop-watcher_result}
use kudos_judge.Runner.Run.{Round}
use kudos_judge.Sandbox.Life.Status.{exit_code-forbidden}
use kudos_judge.Sandbox.Life.{Life, born, exit_code, wexitstatus}
use kudos_judge.Sandbox.Verdicts.{forbidden}
use kudos_judge.Sandbox.{Watcher, js_bin_compout, Turn, stopped, watches, leaves, watch}
use kudos_judge.Verdict.{Verdict, accepted}
use kudos_judge.Worker.Verdicts.{verdicts}
use kudos_judge.Worker.{serve}

-- The status of this life.
abbrev pub StatusOf : Life → ℕ → Type 0
StatusOf life code = (z : ℤ) × (exit_code life ≡ some z) × (code ≡ wexitstatus z)

-- What `waitpid` gives in the rounds of the runner is the status of this life.
abbrev pub Watches : Machine → Life → Type 0
Watches m life = All (λ (r : Round). Gives (StatusOf life) r.waited) m.rounds

module _ (m : Machine) (source input output string : Bytes) (info : BinaryInformation)
    (v : Verdict) where
  -- Where a request is judged and answered ACCEPTED, no output has a carriage return, every status
  -- that waitpid gives is the one of a life of the watcher, and the watcher met a stop at fork,
  -- clone, vfork or exec while it was watching, then it has left its loop, and its signal handler
  -- has been told to stop the submission by the runner.
  pub serve-forbidden :
      (life : Life) (before after : List Turn) (t : Turn) (w : Watcher) (estatus : ℕ) (mem : ℤ)
      → Judges m source input output string info v
      → NoReturn output
      → All NoReturn (pieces m output)
      → verdicts (serve (services m) (some string)) ≡ accepted ∷ []
      → Watches m life
      → life.turns ≡ before ++ (t ∷ after)
      → watch life.limits before born ≡ watches w
      → t.status ≡ stopped estatus mem
      → forbidden estatus ≡ true
      → (last : Watcher) × (watch life.limits life.turns born ≡ leaves last)
        × (last.binary_state ≡ js_bin_compout)
  serve-forbidden life before after t w estatus mem j clean pieces_clean e watched turns met s x =
      let (q, looped, (_, right), _) =
        serve-strip m source input output string info v j clean pieces_clean e in
      elim (run_loop-watcher_result (StatusOf life) m.settings m.rounds _ q js_correct watched
        looped right) [
          | inl unknown ↦ absurd (ground (arith, unknown))
          | inr (code, (z, exits, same), correct) ↦
              exit_code-forbidden life before after t w estatus mem z turns met s x exits
                (ap result_of (sym same) ∙ sym correct)
        ]
