-- ===== src/Runner/Run/Known.antt =====
-- That the loop of `jug_runner_run` leaves a result behind.
use kudos_judge.Base.{
  ℕ, zero, suc, ◌≡◌, ◌≢◌, refl, sym, subst, ◌∙◌, inl, inr, Bool, true, false, ◌||◌, Option, none,
  some, List, [], ◌∷◌, All, length, ltb, ℤ, pos, negsuc, Bool-cases, arith,
}
use kudos_judge.Compare.{Descriptor, compare_output}
use kudos_judge.Runner.Result.{SandboxResult, js_correct, js_unknown}
use kudos_judge.Runner.Run.Alive.{compared, tested}
use kudos_judge.Runner.Run.Trace.{is_over}
use kudos_judge.Runner.Run.{
  Waited, wait_failed, still_runs, signaled, other_status, exited, Fed, fed, feed_again,
  feed_failed, Output, got, end_of_file, read_again, read_failed, Round, Settings, State, Outcome,
  goes_on, finishes, hangs, start, poll_watcher, watcher_ended, pipe_failed, feed_watcher,
  after_piece, take_output, after_last, last_comparison, read_output, before_output, round,
  run_loop, conclude,
}

abbrev is_set : Option SandboxResult → Bool
is_set none = false
is_set (some r) = true

-- Once the comparison is over it has a result, and once the watcher is dead it has one, or it has
-- not come to the submission.
record Good (p : State) : Type 0 where
  compared_to : is_over p ≡ true → is_set p.comp_result ≡ true
  ended_with : p.watcher_alive ≡ false → p.spawn_succeeded ≡ true → is_set p.watcher_result ≡ true

poll_watcher-Good : (w : Waited) (p : State) → w ≢ wait_failed → Good p → Good (poll_watcher w p)
unfolding poll_watcher watcher_ended
poll_watcher-Good wait_failed p h g = absurd (h refl)
poll_watcher-Good still_runs p h g = record {
  compared_to = λ o. ground (arith, g.compared_to, o);
  ended_with = λ d k. ground (arith, g.ended_with, d, k);
}
poll_watcher-Good signaled p h g = record {
  compared_to = λ o. ground (arith, g.compared_to, o);
  ended_with = λ d k. ground (arith, g.ended_with, d, k);
}
poll_watcher-Good other_status p h g = record {
  compared_to = λ o. ground (arith, g.compared_to, o);
  ended_with = λ d k. ground (arith, g.ended_with, d, k);
}
poll_watcher-Good (exited code) p h g = record {
  compared_to = λ o. ground (arith, g.compared_to, o);
  ended_with = λ d k. ground (arith, g.ended_with, d, k);
}

pipe_failed-Good : (s : Settings) (p : State) → Good p → Good (pipe_failed s p)
unfolding pipe_failed
pipe_failed-Good s p g = record {
  compared_to = λ o. ground arith;
  ended_with = λ d k. ground (arith, g.ended_with, d, k);
}

feed_watcher-Good : (s : Settings) (i : Fed) (p : State) → Good p → Good (feed_watcher s i p)
unfolding feed_watcher
feed_watcher-Good s (fed n) p g = record {
  compared_to = λ o. ground (arith, g.compared_to, o);
  ended_with = λ d k. ground (arith, g.ended_with, d, k);
}
feed_watcher-Good s feed_again p g = record {
  compared_to = λ o. ground (arith, g.compared_to, o);
  ended_with = λ d k. ground (arith, g.ended_with, d, k);
}
feed_watcher-Good s feed_failed p g = elim (Bool-cases (ltb p.ds_sent_acc s.datasource_size)) [
  | inl due ↦ rw due (pipe_failed-Good s p g)
  | inr done ↦ rw done g
]

-- A state of the loop, and one behind it.
Fine : Outcome → Type 0
Fine (goes_on q) = Good q
Fine (finishes q) = Good q × (is_set q.comp_result ≡ true) × (q.watcher_alive ≡ false)
Fine hangs = Unit

after_piece-Good :
    (s : Settings) (count : ℕ) (nequal : ℤ) (fd : Descriptor) (p : State)
    → Good p
    → Good (after_piece s count nequal fd p)
unfolding after_piece
after_piece-Good s count (pos zero) fd p g = record {
  compared_to = λ o. ground arith;
  ended_with = λ d k. ground (arith, g.ended_with, d, k);
}
after_piece-Good s count (pos (suc n)) fd p g = record {
  compared_to = λ o. ground arith;
  ended_with = λ d k. ground (arith, g.ended_with, d, k);
}
after_piece-Good s count (negsuc n) fd p g = record {
  compared_to = λ o. ground arith;
  ended_with = λ d k. ground (arith, g.ended_with, d, k);
}

read_output-Fine : (s : Settings) (o : Output) (p : State) → Good p → Fine (read_output s o p)
unfolding read_output take_output last_comparison after_last Fine
read_output-Fine s (got byte bytes) p g =
    compared Fine (compare_output p.fd_output_ref (byte ∷ bytes) (pos p.compare_stage)) _ (λ _. tt)
      (λ nequal fd. after_piece-Good s (length (byte ∷ bytes)) nequal fd p g)
read_output-Fine s end_of_file p g =
    compared Fine (compare_output p.fd_output_ref [] (negsuc 0)) _ (λ _. tt)
      (λ nequal fd. record { compared_to = λ o. refl; ended_with = g.ended_with })
read_output-Fine s read_again p g =
    tested Fine p.watcher_alive _ _ (λ _. g)
      (λ dead.
        compared Fine (compare_output p.fd_output_ref [] (negsuc 0)) _ (λ _. tt)
          (λ nequal fd.
            (record { compared_to = λ o. refl; ended_with = g.ended_with }, refl, dead)))
read_output-Fine s read_failed p g = pipe_failed-Good s p g

round-Fine :
    (s : Settings) (r : Round) (p : State) → r.waited ≢ wait_failed → Good p → Fine (round s r p)
unfolding round before_output Fine
round-Fine s r p works g =
    let q = before_output s r p in
    let good : Good q =
      feed_watcher-Good s r.input (poll_watcher r.waited p)
        (poll_watcher-Good r.waited p works g) in
    tested Fine (q.endoffile || q.compout_detected) _ _
      (λ over.
        tested Fine q.watcher_alive _ _ (λ _. good) (λ dead. (good, good.compared_to over, dead)))
      (λ _. read_output-Fine s r.output q good)

loop-Fine :
    (s : Settings) (rounds : List Round) (p q : State)
    → All (λ (r : Round). r.waited ≢ wait_failed) rounds
    → Good p
    → run_loop s rounds p ≡ finishes q
    → Fine (finishes q)
unfolding run_loop Fine
loop-Fine s [] p q works g e = absurd (ground (arith, e))
loop-Fine s (r ∷ rounds) p q works g e =
    by_outcome (round s r p) refl (round-Fine s r p works.0 g) (λ v. loop-Fine s rounds v q works.1)
  where
    by_outcome :
        (o : Outcome)
        → round s r p ≡ o
        → Fine o
        → ((v : State) → Good v → run_loop s rounds v ≡ finishes q → Fine (finishes q))
        → Fine (finishes q)
    by_outcome (goes_on v) run fine later = later v fine (sym (rw (run_loop, run) refl) ∙ e)
    by_outcome (finishes v) run fine later =
        let last : finishes v ≡ finishes q = sym (rw (run_loop, run) refl) ∙ e in
        subst Fine last fine
    by_outcome hangs run fine later = absurd (ground (arith, run, e))

is_set-eq : (o : Option SandboxResult) → is_set o ≡ true → (r : SandboxResult) × (o ≡ some r)
is_set-eq none h = absurd (ground (arith, h))
is_set-eq (some r) h = (r, refl)

-- Where waitpid never fails, the result behind the loop has been set.
pub run_loop-conclude :
    (s : Settings) (rounds : List Round) (fd : Descriptor) (q : State)
    → All (λ (r : Round). r.waited ≢ wait_failed) rounds
    → run_loop s rounds (start fd) ≡ finishes q
    → (r : SandboxResult) × (conclude q ≡ some r)
unfolding start conclude Fine
run_loop-conclude s rounds fd q works e =
    let first : Good (start fd) = record {
      compared_to = λ o. absurd (ground (arith, o));
      ended_with = λ d k. absurd (ground (arith, d));
    } in
    let (good, compared_to, dead) = loop-Fine s rounds (start fd) q works first e in
    let (c, compares) = is_set-eq q.comp_result compared_to in
    elim (Bool-cases q.spawn_succeeded) [
      | inr failed ↦ (js_unknown, rw failed refl)
      | inl spawned ↦
          let (r, ends) = is_set-eq q.watcher_result (good.ended_with dead spawned) in
          by_result r c spawned ends compares
    ]
  where
    by_result :
        (r c : SandboxResult)
        → q.spawn_succeeded ≡ true
        → q.watcher_result ≡ some r
        → q.comp_result ≡ some c
        → (r' : SandboxResult) × (conclude q ≡ some r')
    by_result js_correct c spawned ends compares = (c, rw (spawned, ends) compares)
    by_result r c spawned ends compares = (r, rw (spawned, ends) refl)
