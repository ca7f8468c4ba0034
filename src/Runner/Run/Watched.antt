-- ===== src/Runner/Run/Watched.antt =====
-- Where the result of the watcher comes from: what `waitpid` gave.
use kudos_judge.Base.{
  ℕ, zero, suc, ◌≡◌, ◌⊎◌, refl, ltb, sym, ap, subst, ◌∙◌, inl, inr, Bool, true, false, ◌||◌, Option,
  none, some, List, [], ◌∷◌, Bytes, All, length, ℤ, pos, negsuc, if◌then◌else◌, Bool-cases, arith,
}
use kudos_judge.Compare.{Descriptor, compare_output}
use kudos_judge.Runner.Result.{SandboxResult, js_unknown, result_of}
use kudos_judge.Runner.Run.{
  Waited, wait_failed, still_runs, signaled, other_status, exited, Fed, Output, got, end_of_file,
  read_again, read_failed, Round, Settings, State, Outcome, goes_on, finishes, hangs, start,
  poll_watcher, watcher_ended, pipe_failed, feed_watcher, after_piece, take_output, after_last,
  last_comparison, read_output, before_output, round, run_loop,
}

-- Behind an outcome the watcher's result is this one.
abbrev ResultIs : Option SandboxResult → Outcome → Type 0
ResultIs o (goes_on q) = q.watcher_result ≡ o
ResultIs o (finishes q) = q.watcher_result ≡ o
ResultIs o hangs = Unit

feed_watcher-result :
    (s : Settings) (input : Fed) (p : State)
    → (feed_watcher s input p).watcher_result ≡ p.watcher_result
unfolding feed_watcher pipe_failed
feed_watcher-result s input p = ground arith

after_piece-result :
    (s : Settings) (count : ℕ) (nequal : ℤ) (fd : Descriptor) (p : State)
    → (after_piece s count nequal fd p).watcher_result ≡ p.watcher_result
unfolding after_piece
after_piece-result s count (pos zero) fd p = ground arith
after_piece-result s count (pos (suc n)) fd p = ground arith
after_piece-result s count (negsuc n) fd p = ground arith

if-ResultIs :
    (b : Bool) (o : Option SandboxResult) (x y : Outcome)
    → ResultIs o x
    → ResultIs o y
    → ResultIs o (if b then x else y)
if-ResultIs true o x y h k = h
if-ResultIs false o x y h k = k

-- Behind a call of `compare_output`, whatever it returns.
compared :
    (r : Option (ℤ × Descriptor)) (o : Option SandboxResult) (f : ℤ → Descriptor → Outcome)
    → ((nequal : ℤ) (fd : Descriptor) → ResultIs o (f nequal fd))
    → ResultIs o (elim r [ none ↦ hangs | some (nequal, fd) ↦ f nequal fd ])
compared none o f h = tt
compared (some (nequal, fd)) o f h = h nequal fd

take_output-result :
    (s : Settings) (bytes : Bytes) (p : State) → ResultIs p.watcher_result (take_output s bytes p)
unfolding take_output
take_output-result s bytes p =
    compared (compare_output p.fd_output_ref bytes (pos p.compare_stage)) p.watcher_result
      (λ nequal fd. goes_on (after_piece s (length bytes) nequal fd p))
      (λ nequal fd. after_piece-result s (length bytes) nequal fd p)

last_comparison-goes_on : (p : State) → ResultIs p.watcher_result (last_comparison goes_on p)
unfolding last_comparison after_last
last_comparison-goes_on p =
    compared (compare_output p.fd_output_ref [] (negsuc 0)) p.watcher_result
      (λ nequal fd. goes_on (after_last nequal fd p)) (λ nequal fd. refl)

last_comparison-finishes : (p : State) → ResultIs p.watcher_result (last_comparison finishes p)
unfolding last_comparison after_last
last_comparison-finishes p =
    compared (compare_output p.fd_output_ref [] (negsuc 0)) p.watcher_result
      (λ nequal fd. finishes (after_last nequal fd p)) (λ nequal fd. refl)

read_output-result :
    (s : Settings) (output : Output) (p : State)
    → ResultIs p.watcher_result (read_output s output p)
unfolding read_output pipe_failed
read_output-result s (got byte bytes) p = take_output-result s (byte ∷ bytes) p
read_output-result s end_of_file p = last_comparison-goes_on (record p { endoffile = true })
read_output-result s read_again p =
    if-ResultIs p.watcher_alive p.watcher_result (goes_on p) (last_comparison finishes p) refl
      (last_comparison-finishes p)
read_output-result s read_failed p = ground arith

finishes_cancel : {p q : State} → finishes p ≡ finishes q → p ≡ q
finishes_cancel e = cc

round-result :
    (s : Settings) (r : Round) (p : State)
    → ResultIs (poll_watcher r.waited p).watcher_result (round s r p)
unfolding round before_output
round-result s r p =
    let q = before_output s r p in
    let same : q.watcher_result ≡ (poll_watcher r.waited p).watcher_result =
      feed_watcher-result s r.input (poll_watcher r.waited p) in
    subst (λ o. ResultIs o (round s r p)) same
      (if-ResultIs (q.endoffile || q.compout_detected) q.watcher_result
        (if q.watcher_alive then goes_on q else finishes q) (read_output s r.output q)
        (if-ResultIs q.watcher_alive q.watcher_result (goes_on q) (finishes q) refl refl)
        (read_output-result s r.output q))

-- A result that is JS_UNKNOWN, or what a status that `waitpid` can give says; `P` holds of those.
abbrev Known : (ℕ → Type 0) → Option SandboxResult → Type 0
Known P none = Unit
Known P (some r) = (r ≡ js_unknown) ⊎ ((code : ℕ) × P code × (r ≡ result_of code))

-- The status that a round's `waitpid` gives, if it gives one.
abbrev pub Gives : (ℕ → Type 0) → Waited → Type 0
Gives P (exited code) = P code
Gives P wait_failed = Unit
Gives P still_runs = Unit
Gives P signaled = Unit
Gives P other_status = Unit

watcher_ended-Known :
    (P : ℕ → Type 0) (w : Waited) (p : State)
    → Gives P w
    → Known P p.watcher_result
    → Known P (watcher_ended w p).watcher_result
unfolding watcher_ended
watcher_ended-Known P wait_failed p h k = k
watcher_ended-Known P still_runs p h k = k
watcher_ended-Known P signaled p h k = inl refl
watcher_ended-Known P other_status p h k = inl refl
watcher_ended-Known P (exited code) p h k = elim (Bool-cases (ltb code 128)) [
  | inl small ↦ rw small (inr (code, h, refl))
  | inr large ↦ rw large k
]

if-Known :
    (P : ℕ → Type 0) (b : Bool) (u v : State)
    → Known P u.watcher_result
    → Known P v.watcher_result
    → Known P (if b then u else v).watcher_result
if-Known P true u v h k = h
if-Known P false u v h k = k

poll_watcher-Known :
    (P : ℕ → Type 0) (w : Waited) (p : State)
    → Gives P w
    → Known P p.watcher_result
    → Known P (poll_watcher w p).watcher_result
unfolding poll_watcher
poll_watcher-Known P w p h k =
    if-Known P p.watcher_alive (watcher_ended w p) p (watcher_ended-Known P w p h k) k

-- The first round, and the others where it goes on.
run_round :
    (P : ℕ → Type 0) (s : Settings) (r : Round) (rounds : List Round) (p q : State) (o : Outcome)
    → ((v : State)
        → Known P v.watcher_result
        → run_loop s rounds v ≡ finishes q
        → Known P q.watcher_result)
    → round s r p ≡ o
    → Known P (poll_watcher r.waited p).watcher_result
    → ResultIs (poll_watcher r.waited p).watcher_result o
    → run_loop s (r ∷ rounds) p ≡ finishes q
    → Known P q.watcher_result
unfolding run_loop
run_round P s r rounds p q (goes_on v) ih run k same e =
    ih v (subst (Known P) (sym same) k) (sym (rw (run_loop, run) refl) ∙ e)
run_round P s r rounds p q (finishes v) ih run k same e =
    let last : finishes v ≡ finishes q = sym (rw (run_loop, run) refl) ∙ e in
    subst (Known P) (sym same ∙ ap (λ (u : State). u.watcher_result) (finishes_cancel last)) k
run_round P s r rounds p q hangs ih run k same e = absurd (ground (arith, run, e))

run_loop-Known :
    (P : ℕ → Type 0) (s : Settings) (rounds : List Round) (p q : State)
    → All (λ (r : Round). Gives P r.waited) rounds
    → Known P p.watcher_result
    → run_loop s rounds p ≡ finishes q
    → Known P q.watcher_result
unfolding run_loop
run_loop-Known P s [] p q all k e = cc
run_loop-Known P s (r ∷ rounds) p q (gives, all) k e =
    run_round P s r rounds p q (round s r p) (λ v. run_loop-Known P s rounds v q all) refl
      (poll_watcher-Known P r.waited p gives k) (round-result s r p) e

-- What holds of each status that a round gives holds of the one behind the watcher's result.
pub run_loop-watcher_result :
    (P : ℕ → Type 0) (s : Settings) (rounds : List Round) (fd : Descriptor) (q : State)
    (result : SandboxResult)
    → All (λ (r : Round). Gives P r.waited) rounds
    → run_loop s rounds (start fd) ≡ finishes q
    → q.watcher_result ≡ some result
    → (result ≡ js_unknown) ⊎ ((code : ℕ) × P code × (result ≡ result_of code))
unfolding start
run_loop-watcher_result P s rounds fd q result all e r =
    subst (Known P) r (run_loop-Known P s rounds (start fd) q all tt e)
