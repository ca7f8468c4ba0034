-- ===== src/Sandbox/Reference/Turns.antt =====
-- One turn of the watcher's loop, as what it adds to the state.
use kudos_judge.Base.{
  ◌≡◌, refl, sym, ap, subst, ◌∙◌, inl, inr, Bool, true, false, ◌||◌, Option, none, some, List, [],
  ◌∷◌, ◌+◌, ℕ, ltb, negsuc, arith, Bool-cases, some_cancel, Option-cases,
}
use kudos_judge.Sandbox.{
  Spliced, BinState, Watcher, Signal, sigalrm, sigusr2, other_signal, Status, stopped, Turn, Limits,
  Outcome, watches, leaves, exits, watcher_sig_handler, check_status, handle_all, feed_binary, turn,
  spliced, splice_again, splice_failed, no_change, wait_failed, exited, killed, other_status,
}
use kudos_judge.Sandbox.Reference.Flags.{or_true, or_false, stopped_flags, stop-noted}
use kudos_judge.Sandbox.Reference.{is_last, ended_by, or_else}

pub or_else-ended :
    (s : Option BinState) (t : Option BinState) (b : BinState)
    → or_else s (or_else t b) ≡ or_else (elim s [ some x ↦ some x | none ↦ t ]) b
or_else-ended (some x) t b = refl
or_else-ended none t b = refl

pub watcher_sig_handler-ended :
    (s : Signal) (fails : Bool) (w : Watcher)
    → watcher_sig_handler s fails w
      ≡ record w { binary_state = or_else (ended_by ((s, fails) ∷ [])) w.binary_state }
unfolding watcher_sig_handler
watcher_sig_handler-ended sigalrm true w = refl
watcher_sig_handler-ended sigalrm false w = refl
watcher_sig_handler-ended sigusr2 true w = refl
watcher_sig_handler-ended sigusr2 false w = refl
watcher_sig_handler-ended other_signal true w = refl
watcher_sig_handler-ended other_signal false w = refl

pub handle_all-ended :
    (signals : List (Signal × Bool)) (w : Watcher)
    → handle_all signals w ≡ record w { binary_state = or_else (ended_by signals) w.binary_state }
handle_all-ended [] w = refl
handle_all-ended ((s, fails) ∷ signals) w =
    ap (handle_all signals) (watcher_sig_handler-ended s fails w)
    ∙ handle_all-ended signals _
    ∙ ap (λ b. record w { binary_state = b })
        (or_else-ended (ended_by signals) (ended_by ((s, fails) ∷ [])) w.binary_state)

pub feed_binary-kept :
    (l : Limits) (feed : Spliced) (w w' : Watcher)
    → feed_binary l feed w ≡ some w'
    → (n : ℕ) × (w' ≡ record w { splice_size_acc = n })
unfolding feed_binary
feed_binary-kept l feed w w' e = elim (Bool-cases (ltb w.splice_size_acc l.datasource_size)) [
  | inr done ↦ (w.splice_size_acc, sym (some_cancel (ground (arith, done, e))))
  | inl due ↦ by_feed feed (sym (rw (feed_binary, due) refl) ∙ e)
]
  where
    by_feed :
        (f : Spliced)
        → (elim f [
          | splice_failed ↦ none
          | splice_again ↦ some w
          | spliced n ↦ some (record w { splice_size_acc = w.splice_size_acc + n })
        ])
          ≡ some w'
        → (n : ℕ) × (w' ≡ record w { splice_size_acc = n })
    by_feed splice_failed h = absurd (ground (arith, h))
    by_feed splice_again h = (w.splice_size_acc, sym (some_cancel h))
    by_feed (spliced n) h = (w.splice_size_acc + n, sym (some_cancel h))

-- A state of the watcher behind the status, and whether the loop goes on from there.
abbrev pub Noted : Limits → Status → Watcher → Outcome → Type 0
Noted l s w (watches v) = (is_last s ≡ false) × (v ≡ stopped_flags l s w)
Noted l s w (leaves v) = (is_last s ≡ true) × (v ≡ stopped_flags l s w)
Noted l s w (exits code) = Unit {0}

pub unflagged :
    (w : Watcher)
    → w ≡ record w {
      mem_limit_exceeded = w.mem_limit_exceeded || false;
      sigxcpu_received = w.sigxcpu_received || false;
      sigsegv_received = w.sigsegv_received || false;
      bin_killed = w.bin_killed || false;
    }
unflagged w =
    rw
      (
        or_false w.mem_limit_exceeded,
        or_false w.sigxcpu_received,
        or_false w.sigsegv_received,
        or_false w.bin_killed,
      )
      refl

pub flagged_dead :
    (w : Watcher)
    → record w { bin_killed = true } ≡ record w {
      mem_limit_exceeded = w.mem_limit_exceeded || false;
      sigxcpu_received = w.sigxcpu_received || false;
      sigsegv_received = w.sigsegv_received || false;
      bin_killed = w.bin_killed || true;
    }
flagged_dead w =
    rw
      (
        or_false w.mem_limit_exceeded,
        or_false w.sigxcpu_received,
        or_false w.sigsegv_received,
        or_true w.bin_killed,
      )
      refl

pub check_status-Noted : (l : Limits) (s : Status) (w : Watcher) → Noted l s w (check_status l s w)
unfolding check_status
check_status-Noted l no_change w = (refl, unflagged w)
check_status-Noted l wait_failed w = tt
check_status-Noted l exited w = (refl, unflagged w)
check_status-Noted l killed w = (refl, flagged_dead w)
check_status-Noted l other_status w = (refl, unflagged w)
check_status-Noted l (stopped e m) w = (refl, stop-noted l e m w)

-- The state in which a turn comes to its status.
abbrev pub fed : Turn → ℕ → Watcher → Watcher
fed t n w = record w {
  splice_size_acc = n;
  binary_state = or_else (ended_by t.signals) w.binary_state;
}

pub turn-Noted :
    (l : Limits) (t : Turn) (w : Watcher) (o : Outcome)
    → turn l t w ≡ o
    → (n : ℕ) × Noted l t.status (fed t n w) o
unfolding turn
turn-Noted l t w o e =
    let v = handle_all t.signals w in
    elim (Option-cases (feed_binary l t.feed v)) [
      | inl broken ↦
          let out : exits (negsuc 21) ≡ o = sym (rw (turn, broken) refl) ∙ e in
          (0, subst (Noted l t.status (fed t 0 w)) out tt)
      | inr (w', f) ↦
          let (n, same) = feed_binary-kept l t.feed v w' f in
          let state : w' ≡ fed t n w =
            same
            ∙ ap (λ (u : Watcher). record u { splice_size_acc = n })
                (handle_all-ended t.signals w) in
          let out : check_status l t.status w' ≡ o = sym (rw (turn, f) refl) ∙ e in
          (
            n,
            subst (λ u. Noted l t.status u o) state
                (subst (Noted l t.status w') out (check_status-Noted l t.status w')),
          )
    ]
