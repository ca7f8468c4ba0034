-- ===== src/Runner/Drain/Patience.antt =====
-- How long the emptying of the pipes takes, and what it does to the result.
use kudos_judge.Base.{
  ℕ, zero, suc, ◌+◌, ◌≡◌, ◌≤◌, ◌<◌, refl, ◌⊎◌, inl, inr, false, some, List, ◌∷◌, arith, ltb,
  Bool-cases,
}
use kudos_judge.Runner.Drain.{drained, drain_output, drain_input, settle, blocking_max}
use kudos_judge.Runner.Result.{SandboxResult, js_unknown}
use kudos_judge.Runner.Run.{Output, read_again, Fed, feed_again}

-- This many EAGAINs and then others.
abbrev pub agains : ℕ → List Output → List Output
agains zero reads = reads
agains (suc n) reads = read_again ∷ agains n reads

-- Where the emptying of the pipes behind the loop ends, the result is the one of the loop or
-- JS_UNKNOWN.
pub settle-kept :
    (result r : SandboxResult) (size sent : ℕ) (reads : List Output) (feeds : List Fed)
    → settle result size sent reads feeds ≡ some r
    → (r ≡ result) ⊎ (r ≡ js_unknown)
unfolding settle
settle-kept result r size sent reads feeds e = ground (arith, e)

-- EAGAIN alone ends the emptying.
pub drain_output_again :
    (n k : ℕ) (reads : List Output)
    → blocking_max < n + k
    → k ≤ blocking_max
    → drain_output (agains n reads) k ≡ drained
unfolding drain_output
drain_output_again zero k reads h le = absurd (omega arith)
drain_output_again (suc n) k reads h le =
    let rest : ltb blocking_max (k + 1) ≡ false → drain_output (agains n reads) (k + 1) ≡ drained =
      λ few. drain_output_again n (k + 1) reads (omega arith) (ground (arith, few)) in
    elim (Bool-cases (ltb blocking_max (k + 1))) [
      | inl many ↦ rw many refl
      | inr few ↦ rw few (rest few)
    ]

-- Where the output pipe answers EAGAIN more than 10000 times in a row, all of the input has been
-- sent, and sendfile then answers EAGAIN, the emptying of the pipes ends and keeps the result.
pub settle_again :
    (result : SandboxResult) (size sent n : ℕ) (reads : List Output) (feeds : List Fed)
    → blocking_max < n
    → size ≤ sent
    → settle result size sent (agains n reads) (feed_again ∷ feeds) ≡ some result
unfolding settle drain_input
settle_again result size sent n reads feeds many done =
    let emptied = drain_output_again n 0 reads (omega arith) (omega arith) in
    let thrown : drain_input size (feed_again ∷ feeds) sent ≡ drained = ground (arith, done) in
    simp (settle, emptied, thrown)
