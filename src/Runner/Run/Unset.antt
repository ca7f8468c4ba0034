-- ===== src/Runner/Run/Unset.antt =====
-- `waitpid` that fails in `jug_runner_run`, as it does for the pid -2 of a template that could not clone.
use kudos_judge.Base.{
  ℕ, zero, suc, ◌||◌, ◌≡◌, refl, ap, ◌∙◌, inl, inr, Bool, true, false, Option, none, List, [], ◌∷◌,
  Bytes, arith, ℤ, pos, negsuc, length, Option-cases, if◌then◌else◌, subst,
}
use kudos_judge.Compare.{Descriptor, compare_output}
use kudos_judge.Runner.Result.{SandboxResult}
use kudos_judge.Runner.Run.{
  Settings, Round, State, Outcome, goes_on, finishes, hangs, Output, got, end_of_file, read_again,
  read_failed, Fed, wait_failed, start, before_output, round, run_loop, conclude, read_output,
  take_output, last_comparison, after_piece, after_last, pipe_failed, feed_watcher, poll_watcher,
  watcher_ended, Waited,
}

-- What is known of the watcher.
abbrev watcher : State → Bool × Bool × Option SandboxResult
watcher p = (p.watcher_alive, p.spawn_succeeded, p.watcher_result)

abbrev Leaves : Outcome → Bool × Bool × Option SandboxResult → Type 0
Leaves (goes_on q) w = watcher q ≡ w
Leaves (finishes q) w = watcher q ≡ w
Leaves hangs w = Unit

watcher-pipe_failed : (s : Settings) (p : State) → watcher (pipe_failed s p) ≡ watcher p
unfolding pipe_failed
watcher-pipe_failed s p = ground arith

watcher-feed_watcher :
    (s : Settings) (i : Fed) (p : State) → watcher (feed_watcher s i p) ≡ watcher p
unfolding feed_watcher pipe_failed
watcher-feed_watcher s i p = ground arith

watcher-after_piece :
    (s : Settings) (n : ℕ) (code : ℤ) (fd : Descriptor) (p : State)
    → watcher (after_piece s n code fd p) ≡ watcher p
unfolding after_piece
watcher-after_piece s n (pos zero) fd p = ground arith
watcher-after_piece s n (pos (suc k)) fd p = ground arith
watcher-after_piece s n (negsuc k) fd p = ground arith

Leaves-if :
    (b : Bool) (x y : Outcome) (w : Bool × Bool × Option SandboxResult)
    → Leaves x w
    → Leaves y w
    → Leaves (if b then x else y) w
Leaves-if true x y w h k = h
Leaves-if false x y w h k = k

take_output-Leaves : (s : Settings) (b : Bytes) (p : State) → Leaves (take_output s b p) (watcher p)
unfolding take_output
take_output-Leaves s b p =
    elim (Option-cases (compare_output p.fd_output_ref b (pos p.compare_stage))) [
      | inl stuck ↦ rw (take_output, stuck) tt
      | inr ((code, fd), e) ↦ rw (take_output, e) (watcher-after_piece s (length b) code fd p)
    ]

last_comparison-Leaves :
    (next : State → Outcome) (p : State)
    → ((q : State) → Leaves (next q) (watcher q))
    → Leaves (last_comparison next p) (watcher p)
unfolding last_comparison after_last
last_comparison-Leaves next p h =
    elim (Option-cases (compare_output p.fd_output_ref [] (negsuc 0))) [
      | inl stuck ↦ rw (last_comparison, stuck) tt
      | inr ((code, fd), e) ↦ rw (last_comparison, e) (h (after_last code fd p))
    ]

read_output-Leaves :
    (s : Settings) (o : Output) (p : State) → Leaves (read_output s o p) (watcher p)
unfolding read_output
read_output-Leaves s (got byte bytes) p = take_output-Leaves s (byte ∷ bytes) p
read_output-Leaves s end_of_file p =
    last_comparison-Leaves goes_on (record p { endoffile = true }) (λ q. refl)
read_output-Leaves s read_again p =
    Leaves-if p.watcher_alive (goes_on p) (last_comparison finishes p) (watcher p) refl
      (last_comparison-Leaves finishes p (λ q. refl))
read_output-Leaves s read_failed p = watcher-pipe_failed s p

watcher-before_output :
    (s : Settings) (r : Round) (p : State)
    → watcher (before_output s r p) ≡ watcher (poll_watcher r.waited p)
unfolding before_output
watcher-before_output s r p = watcher-feed_watcher s r.input (poll_watcher r.waited p)

round-Leaves :
    (s : Settings) (r : Round) (p : State) → Leaves (round s r p) (watcher (before_output s r p))
unfolding round
round-Leaves s r p =
    let q = before_output s r p in
    Leaves-if (q.endoffile || q.compout_detected)
      (if q.watcher_alive then goes_on q else finishes q) (read_output s r.output q) (watcher q)
      (Leaves-if q.watcher_alive (goes_on q) (finishes q) (watcher q) refl refl)
      (read_output-Leaves s r.output q)

-- A watcher that is taken for dead and has left no result.
abbrev unset : Bool × Bool × Option SandboxResult
unset = (false, true, none)

poll_watcher-unset :
    (w : Waited) (p : State) → watcher p ≡ unset → watcher (poll_watcher w p) ≡ unset
unfolding poll_watcher
poll_watcher-unset w p e = ground (arith, ap (λ t. t.0) e, e)

abbrev Unset : Outcome → Type 0
Unset (goes_on q) = Unit
Unset (finishes q) = watcher q ≡ unset
Unset hangs = Unit

onward :
    (s : Settings) (r : Round) (rounds : List Round) (p : State) (o : Outcome)
    → ((q : State) → watcher q ≡ unset → Unset (run_loop s rounds q))
    → round s r p ≡ o
    → Leaves o (watcher (before_output s r p))
    → watcher (before_output s r p) ≡ unset
    → Unset (run_loop s (r ∷ rounds) p)
unfolding run_loop
onward s r rounds p (goes_on q) ih run left known = rw (run_loop, run) (ih q (left ∙ known))
onward s r rounds p (finishes q) ih run left known = rw (run_loop, run) (left ∙ known)
onward s r rounds p hangs ih run left known = rw (run_loop, run) tt

run_loop-unset :
    (s : Settings) (rounds : List Round) (p : State)
    → watcher p ≡ unset
    → Unset (run_loop s rounds p)
unfolding run_loop
run_loop-unset s [] p e = tt
run_loop-unset s (r ∷ rounds) p e =
    onward s r rounds p (round s r p) (run_loop-unset s rounds) refl (round-Leaves s r p)
      (watcher-before_output s r p ∙ poll_watcher-unset r.waited p e)

poll_watcher-failed :
    (w : Waited) (fd : Descriptor) → w ≡ wait_failed → watcher (poll_watcher w (start fd)) ≡ unset
unfolding poll_watcher watcher_ended start
poll_watcher-failed w fd e = rw e refl

-- Where waitpid fails in the first round and the loop finishes, the result is read from a variable
-- that was never set.
pub wait_failed-conclude :
    (s : Settings) (r : Round) (rounds : List Round) (fd : Descriptor) (q : State)
    → r.waited ≡ wait_failed
    → run_loop s (r ∷ rounds) (start fd) ≡ finishes q
    → conclude q ≡ none
unfolding conclude
wait_failed-conclude s r rounds fd q failed e =
    let found : watcher q ≡ unset = subst Unset e (
      onward s r rounds (start fd) (round s r (start fd)) (run_loop-unset s rounds) refl
        (round-Leaves s r (start fd))
        (watcher-before_output s r (start fd) ∙ poll_watcher-failed r.waited fd failed)) in
    ground (
      arith,
      ap (λ (w : Bool × Bool × Option SandboxResult). w.1) found,
      ap (λ (w : Bool × Bool × Option SandboxResult). w.2) found,
    )
