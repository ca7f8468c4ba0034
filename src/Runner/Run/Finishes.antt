-- ===== src/Runner/Run/Finishes.antt =====
-- That the loop of `jug_runner_run` comes to its end.
use kudos_judge.Base.{
  some, ◌≡◌, ◌≢◌, refl, subst, ◌∙◌, inl, inr, true, false, List, [], ◌∷◌, ◌++◌, All, arith,
}
use kudos_judge.Compare.Blocks.{IsReadable}
use kudos_judge.Compare.{Descriptor}
use kudos_judge.Runner.Run.Ends.{run_goes, run_stops}
use kudos_judge.Runner.Run.Alive.{AliveIs, round-AliveIs, feed_watcher-alive}
use kudos_judge.Runner.Run.Outcomes.{
  CleanOutput, Returns, Quiet, Closes, Live, round-Live, round-Returns, round-Closes,
}
use kudos_judge.Runner.Result.{SandboxResult}
use kudos_judge.Runner.Run.Known.{run_loop-conclude}
use kudos_judge.Runner.Run.Trace.{is_over, before_output-Same}
use kudos_judge.Runner.Run.{
  Waited, wait_failed, still_runs, signaled, other_status, exited, Round, Settings, State, Outcome,
  goes_on, finishes, hangs, start, poll_watcher, watcher_ended, before_output, round, run_loop,
  conclude,
}

-- What is read in this round holds no carriage return.
abbrev pub Clean : Round → Type 0
Clean r = CleanOutput r.output

dead_stays :
    (w : Waited) (p : State) → p.watcher_alive ≡ false → (poll_watcher w p).watcher_alive ≡ false
unfolding poll_watcher
dead_stays w p dead = ground (arith, dead)

-- Every status but one that still runs ends the watcher.
status_ends : (w : Waited) (p : State) → w ≢ still_runs → (poll_watcher w p).watcher_alive ≡ false
unfolding poll_watcher watcher_ended
status_ends wait_failed p h = ground arith
status_ends still_runs p h = absurd (h refl)
status_ends signaled p h = ground arith
status_ends other_status p h = ground arith
status_ends (exited code) p h = ground arith

-- The loop ends from this state on.
abbrev Finishing : Settings → List Round → State → Type 0
Finishing s rounds p = (q : State) × (run_loop s rounds p ≡ finishes q)

-- A round, and the rounds behind it where it goes on.
behind :
    (s : Settings) (r : Round) (rounds : List Round) (p : State) (o : Outcome)
    → round s r p ≡ o
    → Returns o
    → ((v : State) → round s r p ≡ goes_on v → Finishing s rounds v)
    → Finishing s (r ∷ rounds) p
behind s r rounds p (goes_on v) run back rest =
    let (q, e) = rest v run in let (onward, _) = run_goes s r rounds p v run in (q, onward ∙ e)
behind s r rounds p (finishes q) run back rest = (q, (run_stops s r rounds p q run).0)
behind s r rounds p hangs run back rest = absurd back

-- Behind a round with a dead watcher the watcher is dead.
still_dead :
    (s : Settings) (r : Round) (p v : State)
    → (poll_watcher r.waited p).watcher_alive ≡ false
    → round s r p ≡ goes_on v
    → v.watcher_alive ≡ false
still_dead s r p v dead run =
    subst (AliveIs (poll_watcher r.waited p).watcher_alive) run (round-AliveIs s r p) ∙ dead

-- The comparison is over and the watcher dead.
last_round :
    (s : Settings) (r : Round) (rounds : List Round) (p : State)
    → is_over p ≡ true
    → p.watcher_alive ≡ false
    → Finishing s (r ∷ rounds) p
unfolding round before_output
last_round s r rounds p over dead =
    let q = before_output s r p in
    let dead' : q.watcher_alive ≡ false =
      feed_watcher-alive s r.input (poll_watcher r.waited p) ∙ dead_stays r.waited p dead in
    let over' : is_over q ≡ true = elim (before_output-Same s r p) [
      | inl same ↦ same.over ∙ over
      | inr (broken, _) ↦ broken.over
    ] in
    (q, (run_stops s r rounds p q (rw (over', dead') refl)).0)

-- The watcher is dead, and in a later round nothing is read.
ends_soon :
    (s : Settings) (between : List Round) (x y : Round) (rest : List Round) (p : State)
    → p.watcher_alive ≡ false
    → Live p
    → All Clean between
    → Clean x
    → Quiet x
    → Finishing s (between ++ (x ∷ y ∷ rest)) p
ends_soon s [] x y rest p dead live clean clean_x quiet =
    let gone = dead_stays x.waited p dead in
    behind s x (y ∷ rest) p (round s x p) refl (round-Returns s x p clean_x live) (λ v run.
      last_round s y rest v (subst Closes run (round-Closes s x p gone quiet))
        (still_dead s x p v gone run))
ends_soon s (r ∷ between) x y rest p dead live clean clean_x quiet =
    let gone = dead_stays r.waited p dead in
    behind s r (between ++ (x ∷ y ∷ rest)) p (round s r p) refl (round-Returns s r p clean.0 live)
      (λ v run.
        ends_soon s between x y rest v (still_dead s r p v gone run)
          (round-Live s r p v clean.0 live run) clean.1 clean_x quiet)

ends_later :
    (s : Settings) (before : List Round) (d : Round) (between : List Round) (x y : Round)
    (rest : List Round) (p : State)
    → Live p
    → All Clean before
    → Clean d
    → d.waited ≢ still_runs
    → All Clean between
    → Clean x
    → Quiet x
    → Finishing s (before ++ (d ∷ (between ++ (x ∷ y ∷ rest)))) p
ends_later s [] d between x y rest p live clean clean_d dies clean_b clean_x quiet =
    let gone = status_ends d.waited p dies in
    behind s d (between ++ (x ∷ y ∷ rest)) p (round s d p) refl (round-Returns s d p clean_d live)
      (λ v run.
        ends_soon s between x y rest v (still_dead s d p v gone run)
          (round-Live s d p v clean_d live run) clean_b clean_x quiet)
ends_later s (r ∷ before) d between x y rest p live clean clean_d dies clean_b clean_x quiet =
    behind s r (before ++ (d ∷ (between ++ (x ∷ y ∷ rest)))) p (round s r p) refl
      (round-Returns s r p clean.0 live)
      (λ v run.
        ends_later s before d between x y rest v (round-Live s r p v clean.0 live run) clean.1
          clean_d dies clean_b clean_x quiet)

-- The loop ends from its start.
run_loop_ends :
    (s : Settings) (before : List Round) (d : Round) (between : List Round) (x y : Round)
    (rest : List Round) (fd : Descriptor)
    → IsReadable fd
    → All Clean before
    → Clean d
    → d.waited ≢ still_runs
    → All Clean between
    → Clean x
    → Quiet x
    → (q : State) × (run_loop s (before ++ (d ∷ (between ++ (x ∷ y ∷ rest)))) (start fd)
        ≡ finishes q)
unfolding start
run_loop_ends s before d between x y rest fd readable clean clean_d dies clean_b clean_x quiet =
    ends_later s before d between x y rest (start fd) (inr readable) clean clean_d dies clean_b
      clean_x quiet

-- Where the expected output is open for reading and writing, it and what can be read in the rounds
-- up to there hold no carriage return, waitpid never fails but gives something other than a
-- running watcher in some round, and in a later round that has another one behind it no output is
-- read, the loop of jug_runner_run ends and the result behind it has been set, whatever the
-- transfers, the texts and the return values of the comparison are.
pub run_loop_concludes :
    (s : Settings) (before : List Round) (d : Round) (between : List Round) (x y : Round)
    (rest : List Round) (fd : Descriptor)
    → IsReadable fd
    → All Clean before
    → Clean d
    → d.waited ≢ still_runs
    → All Clean between
    → Clean x
    → Quiet x
    → All (λ (r : Round). r.waited ≢ wait_failed) (before ++ (d ∷ (between ++ (x ∷ y ∷ rest))))
    → (q : State) × (result : SandboxResult) × (run_loop s
          (before ++ (d ∷ (between ++ (x ∷ y ∷ rest))))
          (start fd)
        ≡ finishes q)
      × (conclude q ≡ some result)
run_loop_concludes s before d between x y rest fd readable clean clean_d dies clean_b clean_x quiet
      works =
    let (q, e) =
      run_loop_ends s before d between x y rest fd readable clean clean_d dies clean_b clean_x
        quiet in
    let (result, known) =
      run_loop-conclude s (before ++ (d ∷ (between ++ (x ∷ y ∷ rest)))) fd q works e in
    (q, result, e, known)
