-- ===== src/Compare/Output.antt =====
-- The whole output of a submission against the whole file.
use kudos_judge.Base.{
  flatten, All-append, ℕ, zero, suc, ◌+◌, ◌<◌, ◌≡◌, ◌≢◌, ◌↔◌, refl, sym, ◌∙◌, ap, subst, true,
  false, inl, inr, none, some, List, [], ◌∷◌, ◌++◌, Bytes, All, arith, ℤ, pos, negsuc, length, drop,
  length-drop, Bool-cases, is_ℕ,
}
use kudos_judge.Compare.Spec.{NoReturn, feed, feed_more, feed-append, feed-strip, strip, ends}
use kudos_judge.Compare.Blocks.{
  IsReadable, left_of, Compared, feed-nil, compare_loop-Compared, end_loop-Ended,
}
use kudos_judge.Compare.{Descriptor, all_eol, Return, compare_loop, rounds, compare_output}

-- The calls that `jug_runner_run` makes for the pieces that it reads: up to a piece that differs,
-- or to the end and then once more with stage -1.
unfoldable pub compare_pieces : Descriptor → ℕ → List Bytes → Return
compare_pieces fd stage [] = compare_output fd [] (negsuc 0)
compare_pieces fd stage (p ∷ ps) = elim (compare_output fd p (pos stage)) [
  | none ↦ none
  | some (code, fd') ↦ elim (is_ℕ code 0) [
    | true ↦ compare_pieces fd' (suc stage) ps
    | false ↦ some (code, fd')
  ]
]

rounds_enough : (fd : Descriptor) (rx : Bytes) → length rx < rounds fd rx
rounds_enough fd rx = grind arith

pub compare_output-Compared :
    (fd : Descriptor) (stage : ℕ) (rx : Bytes)
    → IsReadable fd
    → NoReturn rx
    → Compared fd rx (compare_output fd rx (pos stage))
unfolding compare_output
compare_output-Compared fd zero rx v h =
    let checked : compare_output fd rx (pos 0) ≡ compare_loop (rounds fd rx) fd rx 0 0 =
      ground arith in
    subst (Compared fd rx) (sym checked)
      (compare_loop-Compared (rounds fd rx) fd rx v h (rounds_enough fd rx))
compare_output-Compared fd (suc stage) rx v h =
    compare_loop-Compared (rounds fd rx) fd rx v h (rounds_enough fd rx)

abbrev pub Judged : Descriptor → Bytes → Return → Type 0
Judged fd out r =
    (code : ℤ) × (fd' : Descriptor) × (r ≡ some (code, fd'))
    × ((code ≡ pos 0) ↔ (ends (feed (left_of fd) out) ≡ true))

pub compare_pieces-Judged :
    (fd : Descriptor) (stage : ℕ) (ps : List Bytes)
    → IsReadable fd
    → All NoReturn ps
    → Judged fd (flatten ps) (compare_pieces fd stage ps)
unfolding compare_pieces
compare_pieces-Judged fd stage [] v h =
    let (fd', r) =
      end_loop-Ended (length fd.content + 1) fd v
        (omega (arith, length-drop fd.offset fd.content)) in
    let fed = ap ends (feed-nil (left_of fd)) in
    elim (Bool-cases (all_eol (left_of fd))) [
      | inl line_ends ↦ (
        pos 0,
        fd',
        unfold compare_output in ground (arith, r, line_ends),
        ((λ _. fed ∙ line_ends), (λ _. refl)),
      )
      | inr more ↦ (
        pos 10,
        fd',
        unfold compare_output in ground (arith, r, more),
        ((λ e. absurd (ground (arith, e))), (λ e. absurd (ground (arith, e, fed, more)))),
      )
    ]
compare_pieces-Judged fd stage (p ∷ ps) v h =
    let whole = feed-append (left_of fd) p (flatten ps) in
    elim (compare_output-Compared fd stage p v h.0) [
      | inl (k, fd', r, f) ↦
          let differs : feed (left_of fd) (p ++ flatten ps) ≡ none =
            whole ∙ ap (λ o. feed_more o (flatten ps)) f in
          (
            pos (suc k),
            fd',
            ground (arith, r),
            ((λ e. absurd (ground (arith, e))), (λ e. absurd (ground (arith, e, differs)))),
          )
      | inr (o, r, f) ↦
          let onward : feed (left_of fd) (p ++ flatten ps) ≡ feed (drop o fd.content) (flatten ps) =
            whole ∙ ap (λ x. feed_more x (flatten ps)) f in
          let (code, fd', s, iff) =
            compare_pieces-Judged (record fd { offset = o }) (suc stage) ps
              (record { opened = v.opened; read_write = v.read_write; no_return = v.no_return })
              h.1 in
          (
            code,
            fd',
            ground (arith, r, s),
            ((λ e. ap ends onward ∙ iff.0 e), (λ e. iff.1 (sym (ap ends onward) ∙ e))),
          )
    ]

NoReturn-flatten : (ps : List Bytes) → All NoReturn ps → NoReturn (flatten ps)
NoReturn-flatten [] h = tt
NoReturn-flatten (p ∷ ps) h =
    All-append (λ c. c ≢ b'\r') p (flatten ps) h.0 (NoReturn-flatten ps h.1)

-- Where the expected output, open for reading and writing at its start, and the pieces of an
-- output hold no carriage return, the calls for the pieces all return, and the last return value
-- is 0 exactly when the two texts are the same without the line ends at their ends, however the
-- output is cut.
pub compare_pieces-strip :
    (fd : Descriptor) (ps : List Bytes)
    → IsReadable fd
    → fd.offset ≡ 0
    → All NoReturn ps
    → (code : ℤ) × (fd' : Descriptor) × (compare_pieces fd 0 ps ≡ some (code, fd'))
      × ((code ≡ pos 0) ↔ (strip fd.content ≡ strip (flatten ps)))
compare_pieces-strip fd ps v at_start h =
    let (code, fd', r, iff) = compare_pieces-Judged fd 0 ps v h in
    let same = feed-strip fd.content (flatten ps) v.no_return (NoReturn-flatten ps h) in
    let whole : ends (feed (left_of fd) (flatten ps)) ≡ ends (feed fd.content (flatten ps)) =
      ap (λ n. ends (feed (drop n fd.content) (flatten ps))) at_start in
    (code, fd', r, ((λ e. same.0 (sym whole ∙ iff.0 e)), (λ e. iff.1 (whole ∙ same.1 e))))
