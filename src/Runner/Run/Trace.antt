-- ===== src/Runner/Run/Trace.antt =====
-- What one round of the loop of `jug_runner_run` does to the comparison.
use kudos_judge.Base.{
  zero, ◌||◌, ℕ, suc, ◌≡◌, ◌≢◌, refl, sym, ap, ◌∙◌, ◌⊎◌, inl, inr, Bool, true, false, some, List,
  [], ◌∷◌, ◌++◌, Bytes, arith, ℤ, pos, negsuc, if◌then◌else◌, Bool-cases, Option-cases, is_ℕ,
  is_ℕ-cases, length, ltb,
}
use kudos_judge.Compare.{Descriptor, compare_output}
use kudos_judge.Runner.Result.{js_correct, js_pipe_error}
use kudos_judge.Runner.Run.{
  Settings, Round, State, goes_on, finishes, hangs, Output, got, end_of_file, read_again,
  read_failed, Fed, fed, feed_again, feed_failed, Waited, before_output, round, comparison,
  read_output, take_output, last_comparison, after_piece, after_last, pipe_failed, feed_watcher,
  poll_watcher, watcher_ended,
}

abbrev pub piece : Output → List Bytes
piece (got byte bytes) = (byte ∷ bytes) ∷ []
piece _ = []

-- What a round reads.
abbrev pub read_piece : Settings → Round → State → List Bytes
read_piece s r p =
    let q = before_output s r p in if q.endoffile || q.compout_detected then [] else piece r.output

-- The pieces of output that the loop reads.
unfoldable pub pieces_read : Settings → List Round → State → List Bytes
pieces_read s [] p = []
pieces_read s (r ∷ rounds) p =
    read_piece s r p ++ elim (round s r p) [ goes_on q ↦ pieces_read s rounds q | _ ↦ [] ]

-- The comparison is over, or not.
abbrev pub is_over : State → Bool
is_over p = p.endoffile || p.compout_detected

-- No transfer of the round fails.
abbrev pub Calm : Round → Type 0
Calm r = (r.input ≢ feed_failed) × (r.output ≢ read_failed)

-- What the comparison knows is the same in both states.
pub record Same (p q : State) : Type 0 where
  pub over : is_over q ≡ is_over p
  pub result : q.comp_result ≡ p.comp_result
  pub stage : q.compare_stage ≡ p.compare_stage
  pub fd : q.fd_output_ref ≡ p.fd_output_ref

Same-refl : (p : State) → Same p p
Same-refl p = record { over = refl; result = refl; stage = refl; fd = refl }

poll_watcher-Same : (w : Waited) (p : State) → Same p (poll_watcher w p)
unfolding poll_watcher watcher_ended
poll_watcher-Same w p = record {
  over = ground arith;
  result = ground arith;
  stage = ground arith;
  fd = ground arith;
}

-- A transfer has failed.
pub record Broken (q : State) : Type 0 where
  pub over : is_over q ≡ true
  pub result : q.comp_result ≡ some js_pipe_error

pipe_failed-Broken : (s : Settings) (p : State) → Broken (pipe_failed s p)
unfolding pipe_failed
pipe_failed-Broken s p = record { over = ground arith; result = ground arith }

feed_watcher-Same :
    (s : Settings) (i : Fed) (p : State)
    → Same p (feed_watcher s i p) ⊎ (Broken (feed_watcher s i p) × (i ≡ feed_failed))
unfolding feed_watcher
feed_watcher-Same s feed_failed p = elim (Bool-cases (ltb p.ds_sent_acc s.datasource_size)) [
  | inl due ↦ let b = pipe_failed-Broken s p in inr (rw due b, refl)
  | inr done ↦ inl (rw done (Same-refl p))
]
feed_watcher-Same s (fed n) p =
    inl (record {
      over = ground arith;
      result = ground arith;
      stage = ground arith;
      fd = ground arith;
    })
feed_watcher-Same s feed_again p =
    inl (record {
      over = ground arith;
      result = ground arith;
      stage = ground arith;
      fd = ground arith;
    })

pub before_output-Same :
    (s : Settings) (r : Round) (p : State)
    → Same p (before_output s r p) ⊎ (Broken (before_output s r p) × (r.input ≡ feed_failed))
unfolding before_output
before_output-Same s r p =
    let polled = poll_watcher-Same r.waited p in
    elim (feed_watcher-Same s r.input (poll_watcher r.waited p)) [
      | inl same ↦ inl (record {
        over = same.over ∙ polled.over;
        result = same.result ∙ polled.result;
        stage = same.stage ∙ polled.stage;
        fd = same.fd ∙ polled.fd;
      })
      | inr broken ↦ inr broken
    ]

-- The comparison is over behind this round, with this state.
abbrev pub Ends : Settings → Round → State → State → Type 0
Ends s r p q = ((round s r p ≡ goes_on q) × (is_over q ≡ true)) ⊎ (round s r p ≡ finishes q)

-- A round while the comparison is not over.
pub data Ran (s : Settings) (r : Round) (p : State) : Type 0 where
  breaks :
      (q : State)
      → Ends s r p q
      → q.comp_result ≡ some js_pipe_error
      → ¬ Calm r
      → read_piece s r p ≡ []
      → Ran s r p
  idles : (q : State) → round s r p ≡ goes_on q → Same p q → read_piece s r p ≡ [] → Ran s r p
  concludes :
      (q : State) (code : ℤ) (fd : Descriptor)
      → compare_output p.fd_output_ref [] (negsuc 0) ≡ some (code, fd)
      → Ends s r p q
      → q.comp_result ≡ some (comparison code)
      → read_piece s r p ≡ []
      → Ran s r p
  agrees :
      (q : State) (bytes : Bytes)
      → compare_output p.fd_output_ref bytes (pos p.compare_stage) ≡ some (pos 0, q.fd_output_ref)
      → round s r p ≡ goes_on q
      → is_over q ≡ false
      → q.compare_stage ≡ suc p.compare_stage
      → read_piece s r p ≡ bytes ∷ []
      → Ran s r p
  deviates :
      (q : State) (bytes : Bytes) (code : ℤ) (fd : Descriptor)
      → compare_output p.fd_output_ref bytes (pos p.compare_stage) ≡ some (code, fd)
      → is_ℕ code 0 ≡ false
      → Ends s r p q
      → q.comp_result ≢ some js_correct
      → read_piece s r p ≡ bytes ∷ []
      → Ran s r p
  stays : round s r p ≡ hangs → Ran s r p

pub reads_nothing :
    (s : Settings) (r : Round) (p : State)
    → is_over (before_output s r p) ≡ true
    → read_piece s r p ≡ []
reads_nothing s r p e = ground arith

pub waits :
    (s : Settings) (r : Round) (p : State)
    → is_over (before_output s r p) ≡ true
    → Ends s r p (before_output s r p)
unfolding round
waits s r p e = elim (Bool-cases (before_output s r p).watcher_alive) [
  | inl alive ↦ inl (ground arith, e)
  | inr dead ↦ inr (ground arith)
]

open_round :
    (s : Settings) (r : Round) (p : State)
    → is_over (before_output s r p) ≡ false
    → (round s r p ≡ read_output s r.output (before_output s r p))
      × (read_piece s r p ≡ piece r.output)
unfolding round
open_round s r p e = (ground arith, ground arith)

after_piece-agrees :
    (s : Settings) (n : ℕ) (q : State) (fd : Descriptor)
    → (is_over (after_piece s n (pos 0) fd q) ≡ is_over q)
      × ((after_piece s n (pos 0) fd q).compare_stage ≡ suc q.compare_stage)
      × ((after_piece s n (pos 0) fd q).fd_output_ref ≡ fd)
unfolding after_piece
after_piece-agrees s n q fd = (ground arith, ground arith, ground arith)

after_piece-deviates :
    (s : Settings) (n : ℕ) (q : State) (code : ℤ) (fd : Descriptor)
    → is_ℕ code 0 ≡ false
    → (is_over (after_piece s n code fd q) ≡ true)
      × ((after_piece s n code fd q).comp_result ≢ some js_correct)
unfolding after_piece comparison
after_piece-deviates s n q (pos zero) fd other = absurd (ground arith)
after_piece-deviates s n q (pos (suc k)) fd other = (ground arith, λ c. ground (arith, c))
after_piece-deviates s n q (negsuc k) fd other = (ground arith, λ c. ground (arith, c))

Same-call :
    (p q : State) (bytes : Bytes)
    → Same p q
    → compare_output p.fd_output_ref bytes (pos p.compare_stage)
      ≡ compare_output q.fd_output_ref bytes (pos q.compare_stage)
Same-call p q bytes same =
    ap (λ fd. compare_output fd bytes (pos p.compare_stage)) (sym same.fd)
    ∙ ap (λ n. compare_output q.fd_output_ref bytes (pos n)) (sym same.stage)

Same-end :
    (p q : State)
    → Same p q
    → compare_output p.fd_output_ref [] (negsuc 0) ≡ compare_output q.fd_output_ref [] (negsuc 0)
Same-end p q same = ap (λ fd. compare_output fd [] (negsuc 0)) (sym same.fd)

piece-Ran :
    (s : Settings) (r : Round) (p q : State) (byte : ℕ) (bytes : Bytes) (code : ℤ) (fd : Descriptor)
    → round s r p ≡ goes_on (after_piece s (length (byte ∷ bytes)) code fd q)
    → read_piece s r p ≡ (byte ∷ bytes) ∷ []
    → Same p q
    → is_over q ≡ false
    → compare_output p.fd_output_ref (byte ∷ bytes) (pos p.compare_stage) ≡ some (code, fd)
    → Ran s r p
piece-Ran s r p q byte bytes code fd run read same open_end e = elim (is_ℕ-cases code 0) [
  | inl zero_code ↦
      let (over, stage, at) = after_piece-agrees s (length (byte ∷ bytes)) q fd in
      agrees (after_piece s (length (byte ∷ bytes)) (pos 0) fd q) (byte ∷ bytes)
        (e ∙ ap some (ap (λ c. (c, fd)) zero_code) ∙ ap (λ d. some (pos 0, d)) (sym at))
        (run ∙ ap (λ c. goes_on (after_piece s (length (byte ∷ bytes)) c fd q)) zero_code)
        (over ∙ open_end) (stage ∙ ap suc same.stage) read
  | inr other ↦
      let (over, differs) = after_piece-deviates s (length (byte ∷ bytes)) q code fd other in
      deviates (after_piece s (length (byte ∷ bytes)) code fd q) (byte ∷ bytes) code fd e other
        (inl (run, over)) differs read
]

output-Ran :
    (s : Settings) (r : Round) (p q : State) (o : Output)
    → round s r p ≡ read_output s o q
    → read_piece s r p ≡ piece o
    → r.output ≡ o
    → Same p q
    → is_over q ≡ false
    → Ran s r p
unfolding read_output take_output last_comparison after_last
output-Ran s r p q (got byte bytes) run read out same open_end =
    elim (Option-cases (compare_output q.fd_output_ref (byte ∷ bytes) (pos q.compare_stage))) [
      | inl stuck ↦ stays (run ∙ ground (arith, stuck))
      | inr ((code, fd), e) ↦
          piece-Ran s r p q byte bytes code fd (run ∙ ground (arith, e)) read same open_end
            (Same-call p q (byte ∷ bytes) same ∙ e)
    ]
output-Ran s r p q end_of_file run read out same open_end =
    elim (Option-cases (compare_output q.fd_output_ref [] (negsuc 0))) [
      | inl stuck ↦ stays (run ∙ ground (arith, stuck))
      | inr ((code, fd), e) ↦
          concludes (after_last code fd (record q { endoffile = true })) code fd
            (Same-end p q same ∙ e) (inl (run ∙ ground (arith, e), refl)) refl read
    ]
output-Ran s r p q read_again run read out same open_end = elim (Bool-cases q.watcher_alive) [
  | inl alive ↦ idles q (run ∙ ground (arith, alive)) same read
  | inr dead ↦ elim (Option-cases (compare_output q.fd_output_ref [] (negsuc 0))) [
    | inl stuck ↦ stays (run ∙ ground (arith, dead, stuck))
    | inr ((code, fd), e) ↦
        concludes (after_last code fd q) code fd (Same-end p q same ∙ e)
          (inr (run ∙ ground (arith, dead, e))) refl read
  ]
]
output-Ran s r p q read_failed run read out same open_end =
    let broken = pipe_failed-Broken s q in
    breaks (pipe_failed s q) (inl (run, broken.over)) broken.result (λ calm. calm.1 out) read

pub round-Ran : (s : Settings) (r : Round) (p : State) → is_over p ≡ false → Ran s r p
round-Ran s r p e = elim (before_output-Same s r p) [
  | inr (broken, failed) ↦
      breaks _ (waits s r p broken.over) broken.result (λ calm. calm.0 failed)
        (reads_nothing s r p broken.over)
  | inl same ↦
      let open_end = same.over ∙ e in
      let (run, read) = open_round s r p open_end in
      output-Ran s r p (before_output s r p) r.output run read refl same open_end
]
