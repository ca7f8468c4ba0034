-- ===== src/Runner/Run/Alive.antt =====
-- Whether the watcher is alive behind a round of the loop of `jug_runner_run`.
use kudos_judge.Base.{
  ℕ, zero, suc, ◌≡◌, refl, subst, Bool, true, false, ◌||◌, Option, none, some, [], ◌∷◌, length, ℤ,
  pos, negsuc, if◌then◌else◌, arith,
}
use kudos_judge.Compare.{Descriptor, compare_output}
use kudos_judge.Runner.Run.{
  Fed, Output, got, end_of_file, read_again, read_failed, Round, Settings, State, Outcome, goes_on,
  hangs, poll_watcher, pipe_failed, feed_watcher, after_piece, take_output, after_last,
  last_comparison, read_output, before_output, round,
}

-- Behind a call of `compare_output`, and behind a test.
pub compared :
    (P : Outcome → Type 0) (r : Option (ℤ × Descriptor)) (f : ℤ → Descriptor → Outcome)
    → (r ≡ none → P hangs)
    → ((nequal : ℤ) (fd : Descriptor) → P (f nequal fd))
    → P (elim r [ none ↦ hangs | some (nequal, fd) ↦ f nequal fd ])
compared P none f h k = h refl
compared P (some (nequal, fd)) f h k = k nequal fd

pub tested :
    (P : Outcome → Type 0) (b : Bool) (x y : Outcome)
    → (b ≡ true → P x)
    → (b ≡ false → P y)
    → P (if b then x else y)
tested P true x y h k = h refl
tested P false x y h k = k refl

-- Where a round goes on, this is whether the watcher is alive.
abbrev pub AliveIs : Bool → Outcome → Type 0
AliveIs b (goes_on q) = q.watcher_alive ≡ b
AliveIs b _ = Unit {0}

pub after_piece-alive :
    (s : Settings) (count : ℕ) (nequal : ℤ) (fd : Descriptor) (p : State)
    → (after_piece s count nequal fd p).watcher_alive ≡ p.watcher_alive
unfolding after_piece
after_piece-alive s count (pos zero) fd p = ground arith
after_piece-alive s count (pos (suc n)) fd p = ground arith
after_piece-alive s count (negsuc n) fd p = ground arith

pub read_output-AliveIs :
    (s : Settings) (o : Output) (p : State) → AliveIs p.watcher_alive (read_output s o p)
unfolding read_output take_output last_comparison after_last pipe_failed
read_output-AliveIs s (got byte bytes) p =
    compared (AliveIs p.watcher_alive)
      (compare_output p.fd_output_ref (byte ∷ bytes) (pos p.compare_stage)) _ (λ _. tt)
      (λ nequal fd. after_piece-alive s (length (byte ∷ bytes)) nequal fd p)
read_output-AliveIs s end_of_file p =
    compared (AliveIs p.watcher_alive) (compare_output p.fd_output_ref [] (negsuc 0)) _ (λ _. tt)
      (λ nequal fd. refl)
read_output-AliveIs s read_again p =
    tested (AliveIs p.watcher_alive) p.watcher_alive _ _ (λ _. refl)
      (λ _.
        compared (AliveIs p.watcher_alive) (compare_output p.fd_output_ref [] (negsuc 0)) _
          (λ _. tt) (λ nequal fd. tt))
read_output-AliveIs s read_failed p = ground arith

pub feed_watcher-alive :
    (s : Settings) (input : Fed) (p : State)
    → (feed_watcher s input p).watcher_alive ≡ p.watcher_alive
unfolding feed_watcher pipe_failed
feed_watcher-alive s input p = ground arith

-- Only waitpid says that the watcher is not alive.
pub round-AliveIs :
    (s : Settings) (r : Round) (p : State)
    → AliveIs (poll_watcher r.waited p).watcher_alive (round s r p)
unfolding round before_output
round-AliveIs s r p =
    let q = before_output s r p in
    subst (λ b. AliveIs b (round s r p)) (feed_watcher-alive s r.input (poll_watcher r.waited p))
      (tested (AliveIs q.watcher_alive) (q.endoffile || q.compout_detected) _ _
        (λ _. tested (AliveIs q.watcher_alive) q.watcher_alive _ _ (λ _. refl) (λ _. tt))
        (λ _. read_output-AliveIs s r.output q))
