-- ===== src/Sandbox/Verdicts.antt =====
-- What the watcher exits with after what it has seen.
use kudos_judge.Base.{◌≡◌, refl, ◌⊎◌, inl, inr, Bool, true, false, ◌||◌, List, ◌∷◌, ℕ, ℤ, arith}
use kudos_judge.Runner.Result.{js_correct, js_timelimit}
use kudos_judge.Sandbox.{
  js_bin_compout, Watcher, stopped, Turn, Limits, leaves, check_exit, check_clone, check_exec,
  check_cputime, check_memory, stop, check_status, watch, verdict, stop_sig, sigxcpu, is_event,
  ptrace_event_fork, ptrace_event_exec, ptrace_event_clone, ptrace_event_vfork,
}
use kudos_judge.Sandbox.Lasting.{
  check_exec-Grows, check_cputime-Grows, check_memory-Grows, from_turn,
}

stop_xcpu :
    (l : Limits) (e : ℕ) (m : ℤ) (w : Watcher)
    → stop_sig e ≡ sigxcpu
    → (stop l e m w).sigxcpu_received ≡ true
unfolding stop check_cputime check_memory
stop_xcpu l e m w h = ground (arith, h)

-- A stop at fork, clone or vfork.
abbrev clones : ℕ → Bool
clones e =
    is_event e ptrace_event_fork || is_event e ptrace_event_clone || is_event e ptrace_event_vfork

-- The stops that are answered with SIGKILL.
abbrev pub forbidden : ℕ → Bool
forbidden e = clones e || is_event e ptrace_event_exec

check_clone_killed : (e : ℕ) (w : Watcher) → clones e ≡ true → (check_clone e w).bin_killed ≡ true
unfolding check_clone
check_clone_killed e w h = rw h refl

check_exec_killed :
    (e : ℕ) (w : Watcher) → is_event e ptrace_event_exec ≡ true → (check_exec e w).bin_killed ≡ true
unfolding check_exec
check_exec_killed e w h = rw h refl

Bool-or : (a b : Bool) → (a || b) ≡ true → (a ≡ true) ⊎ (b ≡ true)
Bool-or true b h = inl refl
Bool-or false b h = inr h

stop_killed :
    (l : Limits) (e : ℕ) (m : ℤ) (w : Watcher)
    → forbidden e ≡ true
    → (stop l e m w).bin_killed ≡ true
unfolding stop
stop_killed l e m w h =
    let w2 = check_clone e (check_exit l e m w) in
    let w3 = check_exec e w2 in
    let w4 = check_cputime e w3 in
    let killed : w3.bin_killed ≡ true = elim (Bool-or (clones e) (is_event e ptrace_event_exec) h) [
      | inl c ↦ (check_exec-Grows e w2).dead (check_clone_killed e (check_exit l e m w) c)
      | inr c ↦ check_exec_killed e w2 c
    ] in
    (check_memory-Grows l e m w4).dead ((check_cputime-Grows e w3).dead killed)

-- Where the watcher meets a stop by SIGXCPU and later leaves its loop, whatever it has seen before
-- and sees after, it exits with JS_TIMELIMIT.
pub watch_timelimit :
    (l : Limits) (t : Turn) (turns : List Turn) (w w' : Watcher) (estatus : ℕ) (mem : ℤ)
    → t.status ≡ stopped estatus mem
    → stop_sig estatus ≡ sigxcpu
    → watch l (t ∷ turns) w ≡ leaves w'
    → verdict w' ≡ js_timelimit
unfolding verdict check_status
watch_timelimit l t turns w w' estatus mem s x e =
    let over =
      from_turn (λ v. v.sigxcpu_received ≡ true) (λ u v g. g.xcpu) l t turns w w'
        (λ v. rw s (stop_xcpu l estatus mem v x)) e in
    ground (arith, over)

-- Where the watcher meets a stop at fork, clone, vfork or exec and later leaves its loop, it exits
-- with JS_CORRECT only if the runner has told it to kill the submission.
pub watch-forbidden :
    (l : Limits) (t : Turn) (turns : List Turn) (w w' : Watcher) (estatus : ℕ) (mem : ℤ)
    → t.status ≡ stopped estatus mem
    → forbidden estatus ≡ true
    → watch l (t ∷ turns) w ≡ leaves w'
    → verdict w' ≡ js_correct
    → w'.binary_state ≡ js_bin_compout
unfolding verdict check_status
watch-forbidden l t turns w w' estatus mem s x e c =
    let dead =
      from_turn (λ v. v.bin_killed ≡ true) (λ u v g. g.dead) l t turns w w'
        (λ v. rw s (stop_killed l estatus mem v x)) e in
    ground (arith, dead, c)
