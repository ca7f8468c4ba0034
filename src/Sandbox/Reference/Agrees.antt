-- ===== src/Sandbox/Reference/Agrees.antt =====
-- The watcher exits with what its reference says.
use kudos_judge.Base.{◌≡◌, refl, sym, ap, ◌∙◌, Bool, true, false, ◌||◌, List, [], ◌∷◌, ℕ, arith}
use kudos_judge.Sandbox.{
  BinState, Watcher, Turn, Limits, Outcome, watches, leaves, exits, turn, watch, verdict,
}
use kudos_judge.Sandbox.Life.{born}
use kudos_judge.Sandbox.Reference.Flags.{or_assoc, or_false, stopped_flags}
use kudos_judge.Sandbox.Reference.{
  exit_for, over_time, segfault, over_memory, condemned, lived, ever, ended_by, ended, or_else,
  exit_for, report,
}
use kudos_judge.Sandbox.Reference.Turns.{or_else-ended, fed, turn-Noted}

-- What a life adds to the state of the watcher.
record Seen (l : Limits) (turns : List Turn) (w w' : Watcher) : Type 0 where
  xcpu : w'.sigxcpu_received ≡ (w.sigxcpu_received || ever over_time turns)
  mem : w'.mem_limit_exceeded ≡ (w.mem_limit_exceeded || ever (over_memory l) turns)
  segv : w'.sigsegv_received ≡ (w.sigsegv_received || ever segfault turns)
  dead : w'.bin_killed ≡ (w.bin_killed || ever condemned turns)
  state : w'.binary_state ≡ or_else (ended turns) w.binary_state

Seen-one :
    (l : Limits) (t : Turn) (n : ℕ) (w w' : Watcher)
    → w' ≡ stopped_flags l t.status (fed t n w)
    → Seen l (t ∷ []) w w'
Seen-one l t n w w' e = record {
  xcpu =
      ap (λ (u : Watcher). u.sigxcpu_received) e
      ∙ ap (λ b. w.sigxcpu_received || b) (sym (or_false (over_time t.status)));
  mem =
      ap (λ (u : Watcher). u.mem_limit_exceeded) e
      ∙ ap (λ b. w.mem_limit_exceeded || b) (sym (or_false (over_memory l t.status)));
  segv =
      ap (λ (u : Watcher). u.sigsegv_received) e
      ∙ ap (λ b. w.sigsegv_received || b) (sym (or_false (segfault t.status)));
  dead =
      ap (λ (u : Watcher). u.bin_killed) e
      ∙ ap (λ b. w.bin_killed || b) (sym (or_false (condemned t.status)));
  state = ap (λ (u : Watcher). u.binary_state) e;
}

Seen-more :
    (l : Limits) (t : Turn) (n : ℕ) (turns : List Turn) (w v w' : Watcher)
    → v ≡ stopped_flags l t.status (fed t n w)
    → Seen l turns v w'
    → Seen l (t ∷ turns) w w'
Seen-more l t n turns w v w' e s = record {
  xcpu =
      s.xcpu
      ∙ ap (λ (u : Watcher). u.sigxcpu_received || ever over_time turns) e
      ∙ or_assoc w.sigxcpu_received _ _;
  mem =
      s.mem
      ∙ ap (λ (u : Watcher). u.mem_limit_exceeded || ever (over_memory l) turns) e
      ∙ or_assoc w.mem_limit_exceeded _ _;
  segv =
      s.segv
      ∙ ap (λ (u : Watcher). u.sigsegv_received || ever segfault turns) e
      ∙ or_assoc w.sigsegv_received _ _;
  dead =
      s.dead
      ∙ ap (λ (u : Watcher). u.bin_killed || ever condemned turns) e
      ∙ or_assoc w.bin_killed _ _;
  state =
      s.state
      ∙ ap (λ (u : Watcher). or_else (ended turns) u.binary_state) e
      ∙ or_else-ended (ended turns) (ended_by t.signals) w.binary_state;
}

leaves_cancel : {v w : Watcher} → leaves v ≡ leaves w → v ≡ w
leaves_cancel e = ground (arith, e)

by_outcome :
    (l : Limits) (t : Turn) (turns : List Turn) (w w' : Watcher)
    → ((v : Watcher) → watch l turns v ≡ leaves w' → Seen l (lived turns) v w')
    → watch l (t ∷ turns) w ≡ leaves w'
    → (o : Outcome) → turn l t w ≡ o
    → Seen l (lived (t ∷ turns)) w w'
unfolding watch
by_outcome l t turns w w' later e (watches v) run =
    let (n, (more, same)) = turn-Noted l t w (watches v) run in
    rw more (Seen-more l t n (lived turns) w v w' same (later v (sym (rw (watch, run) refl) ∙ e)))
by_outcome l t turns w w' later e (leaves v) run =
    let (n, (last, same)) = turn-Noted l t w (leaves v) run in
    let end : leaves v ≡ leaves w' = sym (rw (watch, run) refl) ∙ e in
    rw last (Seen-one l t n w w' (sym (leaves_cancel end) ∙ same))
by_outcome l t turns w w' later e (exits code) run = absurd (ground (arith, run, e))

watch-Seen :
    (l : Limits) (turns : List Turn) (w w' : Watcher)
    → watch l turns w ≡ leaves w'
    → Seen l (lived turns) w w'
unfolding watch
watch-Seen l [] w w' e = absurd (ground (arith, e))
watch-Seen l (t ∷ turns) w w' e =
    by_outcome l t turns w w' (λ v. watch-Seen l turns v w') e (turn l t w) refl

-- The exit for these flags.
verdict-flags :
    (w : Watcher) (x m s d : Bool) (b : BinState)
    → w.sigxcpu_received ≡ x
    → w.mem_limit_exceeded ≡ m
    → w.sigsegv_received ≡ s
    → w.bin_killed ≡ d
    → w.binary_state ≡ b
    → verdict w ≡ exit_for x m s d b
unfolding verdict
verdict-flags w true m s d b ex em es ed eb = ground (arith, ex)
verdict-flags w false true s d b ex em es ed eb = ground (arith, ex, em)
verdict-flags w false false s d b ex em es ed eb = ground (arith, ex, em, es, ed, eb)

-- Where the watcher of a submission that was just born leaves its loop, its exit is the one that
-- is read off the whole life at once: time limit if a stop by SIGXCPU was met before the end, else
-- memory limit if one met the conditions on the memory, else what the last signal that ended the
-- submission says, else a runtime error if there was a stop by SIGSEGV, a forbidden stop or a
-- kill, else JS_CORRECT.
pub watch-report :
    (l : Limits) (turns : List Turn) (w : Watcher)
    → watch l turns born ≡ leaves w
    → verdict w ≡ report l turns
unfolding verdict
watch-report l turns w e =
    let s = watch-Seen l turns born w e in
    verdict-flags w _ _ _ _ _ s.xcpu s.mem s.segv s.dead s.state
