-- ===== src/Runner/Run/Accepted.antt =====
-- When the loop of `jug_runner_run` gives JS_CORRECT.
use kudos_judge.Base.{
  zero, ℕ, suc, ◌≡◌, ◌↔◌, refl, sym, ap, ◌∙◌, inl, inr, true, false, some, List, [], ◌∷◌, ◌++◌,
  Bytes, All, arith, ℤ, pos, negsuc, flatten, is_ℕ, some_cancel,
}
use kudos_judge.Compare.Blocks.{IsReadable}
use kudos_judge.Compare.Output.{compare_pieces, compare_pieces-strip}
use kudos_judge.Compare.Spec.{NoReturn, strip}
use kudos_judge.Compare.{Descriptor, Return, compare_output}
use kudos_judge.Runner.Result.{js_correct, js_pipe_error}
use kudos_judge.Runner.Run.{Settings, Round, State, finishes, start, run_loop, conclude, comparison}
use kudos_judge.Runner.Run.Trace.{
  pieces_read, is_over, Calm, round-Ran, breaks, idles, concludes, agrees, deviates, stays,
}
use kudos_judge.Runner.Run.Ends.{run_goes, run_stays, still_open, Kept, ended, loop-Over, Accepts}

calls : Settings → List Round → State → Return
calls s rounds p = compare_pieces p.fd_output_ref p.compare_stage (pieces_read s rounds p)

compare_pieces_goes :
    (fd fd' : Descriptor) (stage : ℕ) (bytes : Bytes) (rest : List Bytes)
    → compare_output fd bytes (pos stage) ≡ some (pos 0, fd')
    → compare_pieces fd stage (bytes ∷ rest) ≡ compare_pieces fd' (suc stage) rest
unfolding compare_pieces
compare_pieces_goes fd fd' stage bytes rest e = rw (compare_pieces, e) refl

compare_pieces_stops :
    (fd fd' : Descriptor) (stage : ℕ) (bytes : Bytes) (rest : List Bytes) (code : ℤ)
    → compare_output fd bytes (pos stage) ≡ some (code, fd')
    → is_ℕ code 0 ≡ false
    → compare_pieces fd stage (bytes ∷ rest) ≡ some (code, fd')
unfolding compare_pieces
compare_pieces_stops fd fd' stage bytes rest code e other = ground (arith, e, other)

comparison_iff : (code : ℤ) → (comparison code ≡ js_correct) ↔ (code ≡ pos 0)
unfolding comparison
comparison_iff (pos zero) = ((λ _. refl), (λ _. refl))
comparison_iff (pos (suc n)) =
    ((λ c. absurd (ground (arith, c))), (λ c. absurd (ground (arith, c))))
comparison_iff (negsuc n) = ((λ c. absurd (ground (arith, c))), (λ c. absurd (ground (arith, c))))

-- Where the comparison goes on behind the round.
Accepts-goes :
    (s : Settings) (r : Round) (rounds : List Round) (p p' q : State)
    → calls s (r ∷ rounds) p ≡ calls s rounds p'
    → Accepts s rounds p' q
    → Accepts s (r ∷ rounds) p q
unfolding calls
Accepts-goes s r rounds p p' q same (sound, complete) = (
  (λ c. let (fd, a) = sound c in (fd, same ∙ a)),
  (λ calm (fd, a). complete calm.1 (fd, sym same ∙ a)),
)

-- Where the comparison ends in the round, with this return value.
Accepts-ends :
    (s : Settings) (r : Round) (rounds : List Round) (p p' q : State) (code : ℤ) (fd : Descriptor)
    → calls s (r ∷ rounds) p ≡ some (code, fd)
    → (p'.comp_result ≡ some js_correct) ↔ (code ≡ pos 0)
    → Kept (r ∷ rounds) p' q
    → Accepts s (r ∷ rounds) p q
unfolding calls
Accepts-ends s r rounds p p' q code fd last iff (inl kept) = (
  (λ c. (fd, last ∙ ap (λ z. some (z, fd)) (iff.0 (sym kept ∙ c)))),
  (λ calm (fd', a). kept ∙ iff.1 (ap (λ (x : ℤ × Descriptor). x.0) (some_cancel (sym last ∙ a)))),
)
Accepts-ends s r rounds p p' q code fd last iff (inr (broken, rough)) =
    ((λ c. absurd (ground (arith, c, broken))), (λ calm a. absurd (rough calm)))

Broken_ends :
    (s : Settings) (r : Round) (rounds : List Round) (p p' q : State)
    → p'.comp_result ≡ some js_pipe_error
    → ¬ Calm r
    → Kept (r ∷ rounds) p' q
    → Accepts s (r ∷ rounds) p q
Broken_ends s r rounds p p' q result rough kept = (
  (λ c. absurd (elim kept [
    | inl same ↦ ground (arith, same, result, c)
    | inr (broken, _) ↦ ground (arith, broken, c)
  ])),
  (λ calm a. absurd (rough calm.0)),
)

loop-Accepts :
    (s : Settings) (rounds : List Round) (p q : State)
    → is_over p ≡ false
    → run_loop s rounds p ≡ finishes q
    → Accepts s rounds p q
unfolding calls compare_pieces
loop-Accepts s [] p q opened e = absurd (still_open s p q e)
loop-Accepts s (r ∷ rounds) p q opened e = elim (round-Ran s r p opened) [
  | breaks p' ends result rough read ↦
      Broken_ends s r rounds p p' q result rough
        (ended s r rounds p p' q (loop-Over s rounds) ends e).0
  | idles p' goes same read ↦
      let (run, all) = run_goes s r rounds p p' goes in
      Accepts-goes s r rounds p p' q
        (ap (compare_pieces p.fd_output_ref p.compare_stage)
            (all ∙ ap (λ ps. ps ++ pieces_read s rounds p') read)
          ∙ ap (λ fd. compare_pieces fd p.compare_stage (pieces_read s rounds p')) (sym same.fd)
          ∙ ap (λ n. compare_pieces p'.fd_output_ref n (pieces_read s rounds p')) (sym same.stage))
        (loop-Accepts s rounds p' q (same.over ∙ opened) (sym run ∙ e))
  | concludes p' code fd call ends result read ↦
      let (kept, all) = ended s r rounds p p' q (loop-Over s rounds) ends e in
      Accepts-ends s r rounds p p' q code fd
        (ap (compare_pieces p.fd_output_ref p.compare_stage) (all ∙ read) ∙ call)
        (
          (λ c. (comparison_iff code).0 (some_cancel (sym result ∙ c))),
          (λ z. result ∙ ap some ((comparison_iff code).1 z)),
        )
        kept
  | agrees p' bytes call goes opened' stage read ↦
      let (run, all) = run_goes s r rounds p p' goes in
      Accepts-goes s r rounds p p' q
        (ap (compare_pieces p.fd_output_ref p.compare_stage)
            (all ∙ ap (λ ps. ps ++ pieces_read s rounds p') read)
          ∙ compare_pieces_goes p.fd_output_ref p'.fd_output_ref p.compare_stage bytes
              (pieces_read s rounds p') call
          ∙ ap (λ n. compare_pieces p'.fd_output_ref n (pieces_read s rounds p')) (sym stage))
        (loop-Accepts s rounds p' q opened' (sym run ∙ e))
  | deviates p' bytes code fd call other ends result read ↦
      let (kept, all) = ended s r rounds p p' q (loop-Over s rounds) ends e in
      Accepts-ends s r rounds p p' q code fd
        (ap (compare_pieces p.fd_output_ref p.compare_stage) (all ∙ read)
          ∙ compare_pieces_stops p.fd_output_ref fd p.compare_stage bytes [] code call other)
        ((λ c. absurd (result c)), (λ z. absurd (ground (arith, z, other)))) kept
  | stays stuck ↦ absurd (ground (arith, run_stays s r rounds p stuck, e))
]

-- The watcher has reported JS_CORRECT.
abbrev pub Exits : State → Type 0
Exits q = (q.spawn_succeeded ≡ true) × (q.watcher_result ≡ some js_correct)

conclude_iff :
    (q : State) → (conclude q ≡ some js_correct) ↔ (Exits q × (q.comp_result ≡ some js_correct))
unfolding conclude
conclude_iff q = ground arith

-- Where the expected output is open for reading and writing at its start, it and what the loop
-- reads hold no carriage return, and the loop has finished: a result JS_CORRECT says that the
-- watcher exited with JS_CORRECT and that the two texts are the same without the line ends at
-- their ends; and where no transfer failed, the watcher exited so and the texts are the same, the
-- result is JS_CORRECT, whatever the size of the output and its limit.
pub conclude-strip :
    (s : Settings) (rounds : List Round) (fd : Descriptor) (q : State)
    → IsReadable fd
    → fd.offset ≡ 0
    → All NoReturn (pieces_read s rounds (start fd))
    → run_loop s rounds (start fd) ≡ finishes q
    → (conclude q ≡ some js_correct
        → Exits q × (strip fd.content ≡ strip (flatten (pieces_read s rounds (start fd)))))
      × (All Calm rounds
          → Exits q
          → strip fd.content ≡ strip (flatten (pieces_read s rounds (start fd)))
          → conclude q ≡ some js_correct)
unfolding start
conclude-strip s rounds fd q v at_start h e =
    let (code, fd', r, iff) =
      compare_pieces-strip fd (pieces_read s rounds (start fd)) v at_start h in
    let (sound, complete) = loop-Accepts s rounds (start fd) q refl e in
    (
      (λ c.
          let (exits, same) = (conclude_iff q).0 c in
          let (fd'', a) = sound same in
          (exits, iff.0 (ap (λ (x : ℤ × Descriptor). x.0) (some_cancel (sym r ∙ a))))),
      (λ calm exits same.
          (conclude_iff q).1
            (exits, complete calm (fd', r ∙ ap (λ z. some (z, fd')) (iff.1 same)))),
    )
