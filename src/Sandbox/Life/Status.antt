-- ===== src/Sandbox/Life/Status.antt =====
-- What the status of the watcher says of its life.
use kudos_judge.Base.{
  ℕ, ◌≡◌, refl, sym, ap, subst, ◌++◌, ◌∙◌, inl, inr, Bool, true, none, some, List, [], ◌∷◌, ℤ,
  Result, ok, error, fault, arith, some_cancel,
}
use kudos_judge.Runner.Result.{js_correct, result_of}
use kudos_judge.Sandbox.Life.{set_up, born, flush_loop, Life, after_loop, exit_code, wexitstatus}
use kudos_judge.Sandbox.Verdicts.{forbidden, watch-forbidden}
use kudos_judge.Sandbox.{
  Watcher, js_bin_compout, Turn, Limits, Outcome, stopped, watches, leaves, exits, turn, watch,
  verdict,
}
use kudos_judge.Sandbox.Life.Exits.{
  Negative, Guarded, set_up-Guarded, watch-Negative, Negative-status, verdict-value_of,
  flush_loop-verdict, result_of_correct,
}

-- What stands behind a status that is JS_CORRECT.
record Correct (life : Life) : Type 0 where
  watcher : Watcher
  left : watch life.limits life.turns born ≡ leaves watcher
  right : verdict watcher ≡ js_correct

flushed-Correct :
    (life : Life) (w : Watcher) (z : ℤ)
    → watch life.limits life.turns born ≡ leaves w
    → flush_loop life.limits w 0 life.flushes ≡ some z
    → result_of (wexitstatus z) ≡ js_correct
    → Correct life
flushed-Correct life w z left e c =
    let low : wexitstatus z ≡ 0 = result_of_correct (wexitstatus z) c in
    elim (flush_loop-verdict life.limits w 0 life.flushes z e) [
      | inl six ↦ absurd (ground (arith, low, six))
      | inr same ↦ elim (verdict-value_of w) [
        | inl right ↦ record { watcher = w; left = left; right = right }
        | inr other ↦ absurd (ground (arith, low, same, other))
      ]
    ]

Negative-Correct :
    (life : Life) (z : ℤ) → Negative z → result_of (wexitstatus z) ≡ js_correct → Correct life
Negative-Correct life z h c =
    let low : wexitstatus z ≡ 0 = result_of_correct (wexitstatus z) c in
    absurd (omega (arith, Negative-status z h, low))

after_loop-Correct :
    (life : Life) (o : Outcome) (z : ℤ)
    → watch life.limits life.turns born ≡ o
    → after_loop life o ≡ some z
    → result_of (wexitstatus z) ≡ js_correct
    → Correct life
unfolding after_loop
after_loop-Correct life (watches w) z run e c = cc
after_loop-Correct life (leaves w) z run e c = flushed-Correct life w z run e c
after_loop-Correct life (exits code) z run e c =
    Negative-Correct life z
      (watch-Negative life.limits life.turns born z (run ∙ ap exits (some_cancel e))) c

set_up-Correct :
    (life : Life) (r : Result Bool) (z : ℤ)
    → Guarded r
    → elim r [
      | ok _ ↦ after_loop life (watch life.limits life.turns born)
      | error code ↦ some code
      | fault ↦ none
    ]
      ≡ some z
    → result_of (wexitstatus z) ≡ js_correct
    → Correct life
set_up-Correct life (ok b) z h e c =
    after_loop-Correct life (watch life.limits life.turns born) z refl e c
set_up-Correct life (error code) z h e c =
    Negative-Correct life z (subst Negative (some_cancel e) h) c
set_up-Correct life fault z h e c = absurd h

exit_code-Correct :
    (life : Life) (z : ℤ)
    → exit_code life ≡ some z
    → result_of (wexitstatus z) ≡ js_correct
    → Correct life
unfolding exit_code
exit_code-Correct life z e c =
    set_up-Correct life (set_up life.use_erfs life.calls) z
      (set_up-Guarded life.use_erfs life.calls) e c

watches_cancel : {a b : Watcher} → watches a ≡ watches b → a ≡ b
watches_cancel e = cc

watch-turn-append :
    (l : Limits) (t : Turn) (before more : List Turn) (w v : Watcher) (o : Outcome)
    → ((u : Watcher) → watch l before u ≡ watches v → watch l (before ++ more) u ≡ watch l more v)
    → turn l t w ≡ o
    → watch l (t ∷ before) w ≡ watches v
    → watch l (t ∷ (before ++ more)) w ≡ watch l more v
unfolding watch
watch-turn-append l t before more w v (watches u) ih run e =
    rw (watch, run) refl ∙ ih u (sym (rw (watch, run) refl) ∙ e)
watch-turn-append l t before more w v (leaves u) ih run e = absurd (ground (arith, run, e))
watch-turn-append l t before more w v (exits c) ih run e = absurd (ground (arith, run, e))

watch-append :
    (l : Limits) (before more : List Turn) (w v : Watcher)
    → watch l before w ≡ watches v
    → watch l (before ++ more) w ≡ watch l more v
unfolding watch
watch-append l [] more w v e = ap (watch l more) (watches_cancel e)
watch-append l (t ∷ before) more w v e =
    watch-turn-append l t before more w v (turn l t w) (λ u. watch-append l before more u v) refl e

-- A status JS_CORRECT, where the watcher has met a stop that is answered with SIGKILL.
pub exit_code-forbidden :
    (life : Life) (before after : List Turn) (t : Turn) (v : Watcher) (estatus : ℕ) (mem z : ℤ)
    → life.turns ≡ before ++ (t ∷ after)
    → watch life.limits before born ≡ watches v
    → t.status ≡ stopped estatus mem
    → forbidden estatus ≡ true
    → exit_code life ≡ some z
    → result_of (wexitstatus z) ≡ js_correct
    → (w : Watcher) × (watch life.limits life.turns born ≡ leaves w)
      × (w.binary_state ≡ js_bin_compout)
exit_code-forbidden life before after t v estatus mem z turns met s x e c =
    let correct = exit_code-Correct life z e c in
    let w = correct.watcher in
    let rest : watch life.limits (t ∷ after) v ≡ leaves w =
      sym (watch-append life.limits before (t ∷ after) born v met)
      ∙ ap (λ ts. watch life.limits ts born) (sym turns)
      ∙ correct.left in
    (w, correct.left, watch-forbidden life.limits t after v w estatus mem s x rest correct.right)
