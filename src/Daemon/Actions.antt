-- ===== src/Daemon/Actions.antt =====
-- What `main` does on each action.
use kudos_judge.Base.{
  ℕ, ◌≡◌, ◌↔◌, ◌⊎◌, refl, sym, ap, subst, ◌∙◌, inl, inr, true, false, none, some, List, [], ◌∷◌,
  Bytes, ℤ, ok, ◌>>=◌, >>=-eq-ok, ok_cancel, arith,
}
use kudos_judge.Verdict.{codes}
use kudos_judge.Daemon.{
  Action, start, restart, stop, state, Command, acts, shows_version, unknown, parse_action, found,
  missing, Host, read_pid, Inspected, failed, seen, by_process, inspect_file, inspect, Effect,
  signals, unlinks_file, says_running, says_not_running, says_stopped, daemonizes, Decision,
  act_start, act_stop, act_restart, act, run_command, main,
}
use kudos_judge.Daemon.Seen.{inspect_file-seen, Stale, inspect-none, missing-inspect, Stale-inspect}
use kudos_judge.Daemon.Wait.{Waiting, not_started, read_file, await_daemon}

-- The processes that get a SIGINT.
abbrev pub signalled : List Effect → List ℤ
signalled [] = []
signalled (signals pid ∷ es) = pid ∷ signalled es
signalled (unlinks_file ∷ es) = signalled es
signalled (says_running pid ∷ es) = signalled es
signalled (says_not_running ∷ es) = signalled es
signalled (says_stopped ∷ es) = signalled es

act_stop-signalled : (h : Host) (pid : ℤ) → signalled (act_stop h (some pid)).0 ≡ pid ∷ []
unfolding act_stop
act_stop-signalled h pid = ground arith

act_restart-signalled : (h : Host) (pid : ℤ) → signalled (act_restart h (some pid)).0 ≡ pid ∷ []
unfolding act_restart
act_restart-signalled h pid = ground arith

-- The actions that stop the daemon.
abbrev pub Stops : Command → Type 0
Stops c = (c ≡ acts stop) ⊎ (c ≡ acts restart)

-- No process gets a signal, or one that runs does.
abbrev pub Signalled : Host → Command → Decision → Type 0
Signalled h c d =
    (signalled d.0 ≡ [])
    ⊎ ((pid : ℤ) × (signalled d.0 ≡ pid ∷ []) × (h.process pid ≡ found) × Stops c)

act-Signalled :
    (h : Host) (action : Action) (i : Inspected)
    → inspect h ≡ ok i
    → Signalled h (acts action) (act h action i)
unfolding act inspect
act-Signalled h action (failed n) e = inl refl
act-Signalled h state (seen exists (some pid)) e = inl refl
act-Signalled h state (seen exists none) e = inl refl
act-Signalled h start (seen exists (some pid)) e = inl refl
act-Signalled h start (seen false none) e = inl refl
act-Signalled h start (seen true none) e = inl refl
act-Signalled h stop (seen exists none) e = inl refl
act-Signalled h restart (seen exists none) e = inl refl
act-Signalled h stop (seen exists (some pid)) e =
    inr (pid, act_stop-signalled h pid, inspect_file-seen h h.pid_stat exists pid e, inl refl)
act-Signalled h restart (seen exists (some pid)) e =
    inr (pid, act_restart-signalled h pid, inspect_file-seen h h.pid_stat exists pid e, inr refl)

run_command-Signalled :
    (h : Host) (c : Command) (d : Decision) → run_command h c ≡ ok d → Signalled h c d
unfolding run_command
run_command-Signalled h (acts action) d e =
    let (i, at, e) = >>=-eq-ok (inspect h) _ e in
    subst (Signalled h (acts action)) (ok_cancel e) (act-Signalled h action i at)
run_command-Signalled h shows_version d e =
    inl (ap (λ (d : Decision). signalled d.0) (sym (ok_cancel e)))
run_command-Signalled h unknown d e = inl (ap (λ (d : Decision). signalled d.0) (sym (ok_cancel e)))

-- Where main comes to a decision, no process gets a signal, or exactly one does: one that is
-- there, on stop or restart.
pub main_signals :
    (h : Host) (arg : Bytes) (d : Decision)
    → main h arg ≡ ok d
    → (c : Command) × (parse_action arg ≡ ok c) × Signalled h c d
unfolding main
main_signals h arg d e =
    let (c, parsed, e) = >>=-eq-ok (parse_action arg) _ e in
    (c, parsed, run_command-Signalled h c d e)

-- There is no pid file, or a stale one that can be removed.
abbrev pub Free : Host → Type 0
Free h = (h.pid_stat ≡ missing) ⊎ (Stale h × (h.unlinks ≡ true))

Free-seen :
    (h : Host) (i : Inspected)
    → inspect h ≡ ok i
    → Free h
    → (i ≡ seen false none) ⊎ ((i ≡ seen true none) × (h.unlinks ≡ true))
Free-seen h i e (inl f) = inl (ok_cancel (sym e ∙ missing-inspect h f))
Free-seen h i e (inr (f, unlinked)) = inr (ok_cancel (sym e ∙ Stale-inspect h f), unlinked)

act-start-daemonizes :
    (h : Host) (i : Inspected) → inspect h ≡ ok i → ((act h start i).1 ≡ daemonizes) ↔ Free h
unfolding act act_start
act-start-daemonizes h (failed n) e = (
  (λ c. absurd (ground (arith, c))),
  (λ f. absurd (elim (Free-seen h (failed n) e f) [ inl s ↦ cc | inr s ↦ cc ])),
)
act-start-daemonizes h (seen exists (some pid)) e = (
  (λ c. absurd (ground (arith, c))),
  (λ f. absurd (elim (Free-seen h (seen exists (some pid)) e f) [ inl s ↦ cc | inr s ↦ cc ])),
)
act-start-daemonizes h (seen false none) e = (
  (λ _. elim (inspect-none h false e) [
    | inl (_, at) ↦ inl at
    | inr (there, _) ↦ absurd (ground (arith, there))
  ]),
  (λ _. refl),
)
act-start-daemonizes h (seen true none) e = (
  (λ c. elim (inspect-none h true e) [
    | inl (absent, _) ↦ absurd (ground (arith, absent))
    | inr (_, stale) ↦ inr (stale, ground (arith, c))
  ]),
  (λ f. elim (Free-seen h (seen true none) e f) [ inl s ↦ absurd cc | inr s ↦ rw s.1 refl ]),
)

-- Where main decides on start, it goes on to make a daemon exactly if stat says that there is no
-- pid file, or the file is there, opens, holds the pid of a process that is not in /proc, and
-- could be removed.
pub main_start :
    (h : Host) (d : Decision) → main h (codes "start") ≡ ok d → (d.1 ≡ daemonizes) ↔ Free h
unfolding main run_command parse_action
main_start h d e =
    let (i, at, e) = >>=-eq-ok (inspect h) _ e in
    subst (λ (d : Decision). (d.1 ≡ daemonizes) ↔ Free h) (ok_cancel e)
      (act-start-daemonizes h i at)

-- The process that waits for the daemon, where the pid file is the one of before.
abbrev pub waiting : Host → Waiting
waiting h = record {
  appears = true;
  opens = h.opens;
  reads = h.content ∷ [];
  old = h.old;
  process = h.process;
}

-- A restart where the pid file is of no running process goes on to make a daemon and leaves the
-- file; a process that waits and still reads that file, while no such process runs, reports that
-- the daemon has not started.
pub restart_stale :
    (h : Host) (pid : ℤ) (b : ℕ) (more : Bytes)
    → h.pid_stat ≡ found
    → h.opens ≡ true
    → h.content ≡ b ∷ more
    → read_pid h.old h.content ≡ ok pid
    → h.process pid ≡ missing
    → (main h (codes "restart") ≡ ok (says_not_running ∷ [], daemonizes))
      × (await_daemon (waiting h) ≡ ok not_started)
unfolding main run_command parse_action inspect inspect_file act act_restart await_daemon read_file
restart_stale h pid b more there opens text reads gone =
    let at : read_pid h.old (b ∷ more) ≡ ok pid = ap (read_pid h.old) (sym text) ∙ reads in
    let looked : inspect h ≡ ok (seen true none) =
      simp (inspect, inspect_file, there, opens, reads, gone, by_process, ◌>>=◌) in
    (
      simp (main, run_command, looked, act, act_restart, ◌>>=◌),
      simp (await_daemon, opens, text, read_file) (rw (at, gone) refl),
    )
