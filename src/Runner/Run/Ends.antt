-- ===== src/Runner/Run/Ends.antt =====
-- The rounds behind the end of the comparison.
use kudos_judge.Base.{
  append-nil, ◌≡◌, ◌≢◌, refl, sym, ap, ◌∙◌, ◌⊎◌, inl, inr, true, some, List, [], ◌∷◌, ◌++◌, All,
  arith, pos,
}
use kudos_judge.Compare.Output.{compare_pieces}
use kudos_judge.Compare.{Descriptor}
use kudos_judge.Runner.Result.{js_correct, js_pipe_error}
use kudos_judge.Runner.Run.{Settings, Round, State, goes_on, finishes, hangs, round, run_loop}
use kudos_judge.Runner.Run.Trace.{
  read_piece, pieces_read, is_over, Calm, before_output-Same, Ends, reads_nothing, waits,
}

pub run_goes :
    (s : Settings) (r : Round) (rounds : List Round) (p q : State)
    → round s r p ≡ goes_on q
    → (run_loop s (r ∷ rounds) p ≡ run_loop s rounds q)
      × (pieces_read s (r ∷ rounds) p ≡ read_piece s r p ++ pieces_read s rounds q)
unfolding run_loop pieces_read
run_goes s r rounds p q e = (rw (run_loop, e) refl, rw (pieces_read, e) refl)

pub run_stops :
    (s : Settings) (r : Round) (rounds : List Round) (p q : State)
    → round s r p ≡ finishes q
    → (run_loop s (r ∷ rounds) p ≡ finishes q)
      × (pieces_read s (r ∷ rounds) p ≡ read_piece s r p ++ [])
unfolding run_loop pieces_read
run_stops s r rounds p q e = (rw (run_loop, e) refl, rw (pieces_read, e) refl)

pub run_stays :
    (s : Settings) (r : Round) (rounds : List Round) (p : State)
    → round s r p ≡ hangs
    → run_loop s (r ∷ rounds) p ≡ hangs
unfolding run_loop
run_stays s r rounds p e = rw (run_loop, e) refl

finishes_cancel : {p q : State} → finishes p ≡ finishes q → p ≡ q
finishes_cancel e = ground (arith, e)

pub still_open : (s : Settings) (p q : State) → run_loop s [] p ≢ finishes q
unfolding run_loop
still_open s p q e = ground (arith, e)

-- What the rounds behind the end of the comparison make of its result.
abbrev pub Kept : List Round → State → State → Type 0
Kept rounds p q =
    (q.comp_result ≡ p.comp_result) ⊎ ((q.comp_result ≡ some js_pipe_error) × ¬ All Calm rounds)

abbrev Over : Settings → List Round → Type 0
Over s rounds =
    (p q : State)
    → is_over p ≡ true
    → run_loop s rounds p ≡ finishes q
    → Kept rounds p q × (pieces_read s rounds p ≡ [])

Kept-behind :
    (r : Round) (rounds : List Round) (p q : State) → Kept rounds p q → Kept (r ∷ rounds) p q
Kept-behind r rounds p q (inl same) = inl same
Kept-behind r rounds p q (inr (broken, rough)) = inr (broken, λ calm. rough calm.1)

-- A round that ends the comparison, and the rounds behind it.
pub ended :
    (s : Settings) (r : Round) (rounds : List Round) (p p' q : State)
    → Over s rounds
    → Ends s r p p'
    → run_loop s (r ∷ rounds) p ≡ finishes q
    → Kept (r ∷ rounds) p' q × (pieces_read s (r ∷ rounds) p ≡ read_piece s r p)
ended s r rounds p p' q ih (inl (goes, over)) e =
    let (run, read) = run_goes s r rounds p p' goes in
    let (kept, none_left) = ih p' q over (sym run ∙ e) in
    (
      Kept-behind r rounds p' q kept,
      read ∙ ap (λ ps. read_piece s r p ++ ps) none_left ∙ append-nil (read_piece s r p),
    )
ended s r rounds p p' q ih (inr stops) e =
    let (run, read) = run_stops s r rounds p p' stops in
    (
      inl (sym (ap (λ (x : State). x.comp_result) (finishes_cancel (sym run ∙ e)))),
      read ∙ append-nil (read_piece s r p),
    )

-- Once the comparison is over nothing is read, and only a failed transfer changes the result.
pub loop-Over : (s : Settings) (rounds : List Round) → Over s rounds
loop-Over s [] p q over e = absurd (still_open s p q e)
loop-Over s (r ∷ rounds) p q over e = elim (before_output-Same s r p) [
  | inl same ↦
      let over' = same.over ∙ over in
      let (kept, read) = ended s r rounds p _ q (loop-Over s rounds) (waits s r p over') e in
      (
        elim kept [ inl k ↦ inl (k ∙ same.result) | inr k ↦ inr k ],
        read ∙ reads_nothing s r p over',
      )
  | inr (broken, failed) ↦
      let (kept, read) = ended s r rounds p _ q (loop-Over s rounds) (waits s r p broken.over) e in
      (
        inr (elim kept [ inl k ↦ k ∙ broken.result | inr k ↦ k.0 ], λ calm. calm.0.0 failed),
        read ∙ reads_nothing s r p broken.over,
      )
]

-- The calls of `compare_output` for the pieces end with 0.
abbrev Agrees : Settings → List Round → State → Type 0
Agrees s rounds p =
    (fd : Descriptor) × (compare_pieces p.fd_output_ref p.compare_stage (pieces_read s rounds p)
      ≡ some (pos 0, fd))

abbrev pub Accepts : Settings → List Round → State → State → Type 0
Accepts s rounds p q =
    (q.comp_result ≡ some js_correct → Agrees s rounds p)
    × (All Calm rounds → Agrees s rounds p → q.comp_result ≡ some js_correct)
