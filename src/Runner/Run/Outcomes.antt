-- ===== src/Runner/Run/Outcomes.antt =====
-- How one round of the loop of `jug_runner_run` comes out, and what it keeps.
use kudos_judge.Base.{
  ℕ, ◌≡◌, ◌≢◌, refl, sym, ap, subst, ◌∙◌, ◌⊎◌, inl, inr, Bool, true, false, ◌||◌, none, some, [],
  ◌∷◌, Bytes, ℤ, pos, negsuc, if◌then◌else◌, Bool-cases, arith, some_cancel,
}
use kudos_judge.Compare.Blocks.{IsReadable}
use kudos_judge.Compare.Output.{compare_pieces, compare_pieces-Judged, compare_output-Compared}
use kudos_judge.Compare.Spec.{NoReturn}
use kudos_judge.Compare.{Descriptor, compare_output}
use kudos_judge.Runner.Run.{
  Output, got, end_of_file, read_again, read_failed, Round, Settings, State, Outcome, goes_on,
  hangs, poll_watcher, pipe_failed, take_output, after_last, last_comparison, read_output,
  before_output, round,
}
use kudos_judge.Runner.Run.Trace.{
  Ran, piece, is_over, before_output-Same, round-Ran, breaks, idles, concludes, agrees, deviates,
  stays, waits, Ends,
}
use kudos_judge.Runner.Run.Alive.{compared, tested, feed_watcher-alive}

-- The round does not stay in `compare_output`.
abbrev pub Returns : Outcome → Type 0
Returns hangs = ⊥
Returns _ = Unit {0}

-- What is read holds no carriage return.
abbrev pub CleanOutput : Output → Type 0
CleanOutput (got byte bytes) = NoReturn (byte ∷ bytes)
CleanOutput _ = Unit {0}

-- Where the file is readable, the calls of `compare_output` return.
piece_returns :
    (fd : Descriptor) (stage : ℕ) (bytes : Bytes)
    → IsReadable fd
    → NoReturn bytes
    → compare_output fd bytes (pos stage) ≢ none
piece_returns fd stage bytes v h stuck = elim (compare_output-Compared fd stage bytes v h) [
  | inl (k, fd', r, _) ↦ absurd (ground (arith, stuck, r))
  | inr (o, r, _) ↦ absurd (ground (arith, stuck, r))
]

end_returns : (fd : Descriptor) → IsReadable fd → compare_output fd [] (negsuc 0) ≢ none
unfolding compare_pieces
end_returns fd v stuck =
    let (code, fd', r, _) = compare_pieces-Judged fd 0 [] v tt in absurd (ground (arith, stuck, r))

read_output-Returns :
    (s : Settings) (o : Output) (p : State)
    → IsReadable p.fd_output_ref
    → CleanOutput o
    → Returns (read_output s o p)
unfolding read_output take_output last_comparison after_last
read_output-Returns s (got byte bytes) p v h =
    compared Returns (compare_output p.fd_output_ref (byte ∷ bytes) (pos p.compare_stage)) _
      (piece_returns p.fd_output_ref p.compare_stage (byte ∷ bytes) v h) (λ nequal fd. tt)
read_output-Returns s end_of_file p v h =
    compared Returns (compare_output p.fd_output_ref [] (negsuc 0)) _
      (end_returns p.fd_output_ref v) (λ nequal fd. tt)
read_output-Returns s read_again p v h =
    tested Returns p.watcher_alive _ _ (λ _. tt)
      (λ _.
        compared Returns (compare_output p.fd_output_ref [] (negsuc 0)) _
          (end_returns p.fd_output_ref v) (λ nequal fd. tt))
read_output-Returns s read_failed p v h = tt

-- Nothing is read.
abbrev pub Quiet : Round → Type 0
Quiet r = (byte : ℕ) (bytes : Bytes) → r.output ≢ got byte bytes

-- Where the round goes on, the comparison is over.
abbrev pub Closes : Outcome → Type 0
Closes (goes_on q) = is_over q ≡ true
Closes _ = Unit {0}

read_output-Closes :
    (s : Settings) (o : Output) (p : State)
    → p.watcher_alive ≡ false
    → ((byte : ℕ) (bytes : Bytes) → o ≢ got byte bytes)
    → Closes (read_output s o p)
unfolding read_output last_comparison after_last pipe_failed
read_output-Closes s (got byte bytes) p dead quiet = absurd (quiet byte bytes refl)
read_output-Closes s end_of_file p dead quiet =
    compared Closes (compare_output p.fd_output_ref [] (negsuc 0)) _ (λ _. tt) (λ nequal fd. refl)
read_output-Closes s read_again p dead quiet =
    tested Closes p.watcher_alive _ _ (λ alive. absurd (ground (arith, alive, dead)))
      (λ _.
        compared Closes (compare_output p.fd_output_ref [] (negsuc 0)) _ (λ _. tt)
          (λ nequal fd. tt))
read_output-Closes s read_failed p dead quiet = ground arith

cons_cancel : {u v : Bytes} → u ∷ [] ≡ v ∷ [] → u ≡ v
cons_cancel e = cc

read-Clean :
    (over : Bool) (o : Output) (bytes : Bytes)
    → CleanOutput o
    → (if over then [] else piece o) ≡ bytes ∷ []
    → NoReturn bytes
read-Clean true o bytes h e = absurd (ground (arith, e))
read-Clean false (got byte more) bytes h e = subst NoReturn (cons_cancel e) h
read-Clean false end_of_file bytes h e = absurd (ground (arith, e))
read-Clean false read_again bytes h e = absurd (ground (arith, e))
read-Clean false read_failed bytes h e = absurd (ground (arith, e))

-- A piece that agrees leaves the file readable.
agrees_readable :
    (fd fd' : Descriptor) (stage : ℕ) (bytes : Bytes)
    → IsReadable fd
    → NoReturn bytes
    → compare_output fd bytes (pos stage) ≡ some (pos 0, fd')
    → IsReadable fd'
agrees_readable fd fd' stage bytes v h e = elim (compare_output-Compared fd stage bytes v h) [
  | inl (k, at, r, _) ↦ absurd (ground (arith, r, e))
  | inr (o, r, _) ↦
      let moved : record fd { offset = o } ≡ fd' =
        ap (λ (x : ℤ × Descriptor). x.1) (some_cancel (sym r ∙ e)) in
      subst IsReadable moved
        (record { opened = v.opened; read_write = v.read_write; no_return = v.no_return })
]

-- The comparison is over, or the file can still be compared with.
abbrev pub Live : State → Type 0
Live p = (is_over p ≡ true) ⊎ IsReadable p.fd_output_ref

goes_on_cancel : {p q : State} → goes_on p ≡ goes_on q → p ≡ q
goes_on_cancel e = cc

Ends-Live :
    (s : Settings) (r : Round) (p q v : State) → Ends s r p q → round s r p ≡ goes_on v → Live v
Ends-Live s r p q v (inl (goes, over)) e =
    inl (subst (λ u. is_over u ≡ true) (goes_on_cancel (sym goes ∙ e)) over)
Ends-Live s r p q v (inr stops) e = absurd (ground (arith, stops, e))

pub round-Live :
    (s : Settings) (r : Round) (p v : State)
    → CleanOutput r.output
    → Live p
    → round s r p ≡ goes_on v
    → Live v
round-Live s r p v clean live e = elim (Bool-cases (is_over p)) [
  | inl over ↦ elim (before_output-Same s r p) [
    | inl same ↦ Ends-Live s r p _ v (waits s r p (same.over ∙ over)) e
    | inr (broken, _) ↦ Ends-Live s r p _ v (waits s r p broken.over) e
  ]
  | inr opened ↦
      let readable : IsReadable p.fd_output_ref = elim live [
        | inl over ↦ absurd (ground (arith, over, opened))
        | inr k ↦ k
      ] in
      by_run readable (round-Ran s r p opened)
]
  where
    by_run : IsReadable p.fd_output_ref → Ran s r p → Live v
    by_run readable (breaks q ends result rough read) = Ends-Live s r p q v ends e
    by_run readable (idles q goes same read) = inr (
        subst IsReadable
          (sym same.fd ∙ ap (λ (u : State). u.fd_output_ref) (goes_on_cancel (sym goes ∙ e)))
          readable)
    by_run readable (concludes q code fd call ends result read) = Ends-Live s r p q v ends e
    by_run readable (agrees q bytes call goes open_end stage read) =
        let over = (before_output s r p).endoffile || (before_output s r p).compout_detected in
        inr (
          subst (λ (u : State). IsReadable u.fd_output_ref) (goes_on_cancel (sym goes ∙ e))
            (agrees_readable p.fd_output_ref q.fd_output_ref p.compare_stage bytes readable
              (read-Clean over r.output bytes clean read) call))
    by_run readable (deviates q bytes code fd call other ends result read) =
        Ends-Live s r p q v ends e
    by_run readable (stays stuck) = absurd (ground (arith, stuck, e))

pub round-Returns :
    (s : Settings) (r : Round) (p : State) → CleanOutput r.output → Live p → Returns (round s r p)
unfolding round
round-Returns s r p clean live =
    let q = before_output s r p in
    tested Returns (q.endoffile || q.compout_detected) _ _
      (λ _. tested Returns q.watcher_alive _ _ (λ _. tt) (λ _. tt))
      (λ opened. read_output-Returns s r.output q (readable opened) clean)
  where
    readable :
        is_over (before_output s r p) ≡ false → IsReadable (before_output s r p).fd_output_ref
    readable opened = elim (before_output-Same s r p) [
      | inr (broken, _) ↦ absurd (ground (arith, broken.over, opened))
      | inl same ↦ elim live [
        | inl over ↦ absurd (ground (arith, same.over, over, opened))
        | inr v ↦ subst IsReadable (sym same.fd) v
      ]
    ]

pub round-Closes :
    (s : Settings) (r : Round) (p : State)
    → (poll_watcher r.waited p).watcher_alive ≡ false
    → Quiet r
    → Closes (round s r p)
unfolding round before_output
round-Closes s r p dead quiet =
    let q = before_output s r p in
    let dead' : q.watcher_alive ≡ false =
      feed_watcher-alive s r.input (poll_watcher r.waited p) ∙ dead in
    tested Closes (q.endoffile || q.compout_detected) _ _
      (λ over. tested Closes q.watcher_alive _ _ (λ _. over) (λ _. tt))
      (λ _. read_output-Closes s r.output q dead' quiet)
