-- ===== src/Sandbox/Life/Exits.antt =====
-- The exits of the watcher that are errors, and the exit behind its loop.
use kudos_judge.Base.{
  ℕ, ◌+◌, ◌-◌, ◌≤◌, ◌<◌, ◌≡◌, ◌⊎◌, refl, sym, ◌∙◌, inl, inr, Bool, true, false, ◌||◌, some, List,
  [], ◌∷◌, ℤ, pos, negsuc, is_ℕ, Result, ok, error, fault, ◌>>=◌, arith, Option-cases, some_cancel,
}
use kudos_judge.Runner.Result.{js_correct, result_of}
use kudos_judge.Sandbox.Life.{
  Calls, require, is_unmounted, is_duplicated, enter_root, remount, redirect, fork_binary, set_up,
  Flushed, flushed, flush_again, flush_failed, value_of, flush_loop, wexitstatus,
}
use kudos_judge.Sandbox.{
  Watcher, Turn, Limits, Outcome, Status, no_change, wait_failed, exited, killed, other_status,
  stopped, watches, leaves, exits, turn, feed_binary, handle_all, check_status, watch, verdict,
}

-- An exit of an error: its low byte is no result's.
abbrev pub Negative : ℤ → Type 0
Negative z = (n : ℕ) × (z ≡ negsuc n) × (n < 60)

-- A result whose errors are such exits.
abbrev pub Guarded {ℓ} : {A : Type ℓ} → Result A → Type 0
Guarded (ok a) = Unit
Guarded (error code) = Negative code
Guarded fault = ⊥

>>=-Guarded {ℓ κ} :
    {A : Type ℓ} {B : Type κ} (r : Result A) (f : A → Result B)
    → Guarded r
    → ((a : A) → Guarded (f a))
    → Guarded (r >>= f)
>>=-Guarded (ok a) f h k = k a
>>=-Guarded (error code) f h k = h
>>=-Guarded fault f h k = h

require-Guarded : (b : Bool) (n : ℕ) → n ≤ 60 → 0 < n → Guarded (require b n)
require-Guarded true n h k = tt
require-Guarded false n h k = (n - 1, refl, omega arith)

-- A call that is required, and what follows.
then_Guarded :
    (b : Bool) (n : ℕ) (f : Bool → Result Bool)
    → n ≤ 60
    → 0 < n
    → ((a : Bool) → Guarded (f a))
    → Guarded (require b n >>= f)
then_Guarded b n f h k = >>=-Guarded (require b n) f (require-Guarded b n h k)

enter_root-Guarded : (use_erfs : ℤ) (c : Calls) → Guarded (enter_root use_erfs c)
unfolding enter_root
enter_root-Guarded use_erfs c =
    then_Guarded c.chdir 2 _ (omega arith) (omega arith)
      (λ _. require-Guarded (is_ℕ use_erfs 0 || c.chroot) 3 (omega arith) (omega arith))

remount-Guarded : (c : Calls) → Guarded (remount c)
unfolding remount
remount-Guarded c = then_Guarded (is_unmounted c.umount_proc) 4 _ (omega arith) (omega arith) (λ _.
    then_Guarded c.mount_proc 4 _ (omega arith) (omega arith) (λ _.
      then_Guarded (is_unmounted c.umount_tmp) 9 _ (omega arith) (omega arith) (λ _.
        then_Guarded c.mount_tmp 9 _ (omega arith) (omega arith)
          (λ _. require-Guarded c.bind_tmp 9 (omega arith) (omega arith)))))

redirect-Guarded : (c : Calls) → Guarded (redirect c)
unfolding redirect
redirect-Guarded c = then_Guarded (is_duplicated c.dup_output) 5 _ (omega arith) (omega arith) (λ _.
    then_Guarded c.pipe 9 _ (omega arith) (omega arith) (λ _.
      then_Guarded c.valid_first 50 _ (omega arith) (omega arith) (λ _.
        then_Guarded c.valid_unblocked 45 _ (omega arith) (omega arith)
          (λ _. require-Guarded c.valid_before_signals 30 (omega arith) (omega arith)))))

fork_binary-Guarded : (c : Calls) → Guarded (fork_binary c)
unfolding fork_binary
fork_binary-Guarded c = then_Guarded c.sigusr2 3 _ (omega arith) (omega arith) (λ _.
    then_Guarded c.valid_before_fork 40 _ (omega arith) (omega arith) (λ _.
      then_Guarded c.fork 6 _ (omega arith) (omega arith)
        (λ _. require-Guarded c.setoptions 21 (omega arith) (omega arith))))

pub set_up-Guarded : (use_erfs : ℤ) (c : Calls) → Guarded (set_up use_erfs c)
unfolding set_up
set_up-Guarded use_erfs c =
    >>=-Guarded (enter_root use_erfs c) _ (enter_root-Guarded use_erfs c) (λ _.
      >>=-Guarded (remount c) _ (remount-Guarded c)
        (λ _. >>=-Guarded (redirect c) _ (redirect-Guarded c) (λ _. fork_binary-Guarded c)))

exits_cancel : {a b : ℤ} → exits a ≡ exits b → a ≡ b
exits_cancel e = cc

check_status-Negative :
    (l : Limits) (s : Status) (w : Watcher) (code : ℤ)
    → check_status l s w ≡ exits code
    → Negative code
unfolding check_status
check_status-Negative l wait_failed w code e = (59, cc, omega arith)
check_status-Negative l no_change w code e = cc
check_status-Negative l exited w code e = cc
check_status-Negative l killed w code e = cc
check_status-Negative l other_status w code e = cc
check_status-Negative l (stopped estatus mem) w code e = cc

turn-Negative :
    (l : Limits) (t : Turn) (w : Watcher) (code : ℤ) → turn l t w ≡ exits code → Negative code
unfolding turn
turn-Negative l t w code e = elim (Option-cases (feed_binary l t.feed (handle_all t.signals w))) [
  | inl stuck ↦ (21, exits_cancel (sym e ∙ simp (turn, stuck)), omega arith)
  | inr (w', fed) ↦ check_status-Negative l t.status w' code (sym (simp (turn, fed)) ∙ e)
]

-- The outcome of the first turn, and of the others where it goes on.
watch-turn :
    (l : Limits) (t : Turn) (turns : List Turn) (w : Watcher) (o : Outcome) (code : ℤ)
    → ((v : Watcher) → watch l turns v ≡ exits code → Negative code)
    → turn l t w ≡ o
    → watch l (t ∷ turns) w ≡ exits code
    → Negative code
unfolding watch
watch-turn l t turns w (watches v) code ih run e = ih v (sym (rw (watch, run) refl) ∙ e)
watch-turn l t turns w (leaves v) code ih run e = absurd (ground (arith, run, e))
watch-turn l t turns w (exits c) code ih run e =
    let last : exits c ≡ exits code = sym (rw (watch, run) refl) ∙ e in
    turn-Negative l t w code (run ∙ last)

pub watch-Negative :
    (l : Limits) (turns : List Turn) (w : Watcher) (code : ℤ)
    → watch l turns w ≡ exits code
    → Negative code
unfolding watch
watch-Negative l [] w code e = cc
watch-Negative l (t ∷ turns) w code e =
    watch-turn l t turns w (turn l t w) code (λ v. watch-Negative l turns v code) refl e

pub Negative-status : (z : ℤ) → Negative z → 195 < wexitstatus z
Negative-status z (n, e, h) = rw e (omega arith)

pub result_of_correct : (n : ℕ) → result_of n ≡ js_correct → n ≡ 0
unfolding result_of
result_of_correct n e = ground arith

pub verdict-value_of :
    (w : Watcher)
    → (verdict w ≡ js_correct) ⊎ ((0 < value_of (verdict w)) × (value_of (verdict w) < 10))
unfolding verdict value_of
verdict-value_of w = ground arith

pub flush_loop-verdict :
    (l : Limits) (w : Watcher) (acc : ℕ) (fs : List Flushed) (z : ℤ)
    → flush_loop l w acc fs ≡ some z
    → (z ≡ pos 6) ⊎ (z ≡ pos (value_of (verdict w)))
unfolding flush_loop
flush_loop-verdict l w acc [] z e = cc
flush_loop-verdict l w acc (flush_failed ∷ fs) z e = inl (sym (some_cancel e))
flush_loop-verdict l w acc (flush_again ∷ fs) z e =
    ground (arith, e, flush_loop-verdict l w acc fs z)
flush_loop-verdict l w acc (flushed n ∷ fs) z e =
    ground (arith, e, flush_loop-verdict l w (acc + n) fs z)
