-- ===== src/Sandbox/Lasting.antt =====
-- What the watcher of sandbox.c has seen, from turn to turn.
use kudos_judge.Base.{
  some, Option-cases, subst, ◌≡◌, refl, sym, ◌∙◌, inl, inr, Bool, true, List, [], ◌∷◌, ℕ, ℤ, pos,
  negsuc, arith, Bool-cases, ltb,
}
use kudos_judge.Sandbox.{
  Spliced, feed_binary, Watcher, Signal, Status, stopped, Turn, Limits, Outcome, watches, leaves,
  exits, watcher_sig_handler, check_exit, check_clone, check_exec, check_cputime, check_memory,
  stop, check_status, handle_all, turn, watch, spliced, splice_again, splice_failed, no_change,
  wait_failed, exited, killed, other_status,
}

-- What has been seen stays seen.
pub record Grows (v w : Watcher) : Type 0 where
  pub xcpu : v.sigxcpu_received ≡ true → w.sigxcpu_received ≡ true
  pub mem : v.mem_limit_exceeded ≡ true → w.mem_limit_exceeded ≡ true
  pub dead : v.bin_killed ≡ true → w.bin_killed ≡ true

Grows-refl : (w : Watcher) → Grows w w
Grows-refl w = record { xcpu = λ h. h; mem = λ h. h; dead = λ h. h }

Grows-trans : (u v w : Watcher) → Grows u v → Grows v w → Grows u w
Grows-trans u v w g h = record {
  xcpu = λ x. h.xcpu (g.xcpu x);
  mem = λ x. h.mem (g.mem x);
  dead = λ x. h.dead (g.dead x);
}

check_exit-Grows : (l : Limits) (e : ℕ) (m : ℤ) (w : Watcher) → Grows w (check_exit l e m w)
unfolding check_exit
check_exit-Grows l e (pos m) w = record {
  xcpu = λ h. ground (arith, h);
  mem = λ h. ground (arith, h);
  dead = λ h. ground (arith, h);
}
check_exit-Grows l e (negsuc m) w = Grows-refl w

pub check_clone-Grows : (e : ℕ) (w : Watcher) → Grows w (check_clone e w)
unfolding check_clone
check_clone-Grows e w = record {
  xcpu = λ h. ground (arith, h);
  mem = λ h. ground (arith, h);
  dead = λ h. ground (arith, h);
}

pub check_exec-Grows : (e : ℕ) (w : Watcher) → Grows w (check_exec e w)
unfolding check_exec
check_exec-Grows e w = record {
  xcpu = λ h. ground (arith, h);
  mem = λ h. ground (arith, h);
  dead = λ h. ground (arith, h);
}

pub check_cputime-Grows : (e : ℕ) (w : Watcher) → Grows w (check_cputime e w)
unfolding check_cputime
check_cputime-Grows e w = record {
  xcpu = λ h. ground (arith, h);
  mem = λ h. ground (arith, h);
  dead = λ h. ground (arith, h);
}

pub check_memory-Grows : (l : Limits) (e : ℕ) (m : ℤ) (w : Watcher) → Grows w (check_memory l e m w)
unfolding check_memory
check_memory-Grows l e m w = record {
  xcpu = λ h. ground (arith, h);
  mem = λ h. ground (arith, h);
  dead = λ h. ground (arith, h);
}

same_flags :
    (w w' : Watcher)
    → w.sigxcpu_received ≡ w'.sigxcpu_received
    → w.mem_limit_exceeded ≡ w'.mem_limit_exceeded
    → w.bin_killed ≡ w'.bin_killed
    → Grows w w'
same_flags w w' x m d = record {
  xcpu = λ h. sym x ∙ h;
  mem = λ h. sym m ∙ h;
  dead = λ h. sym d ∙ h;
}

stop-Grows : (l : Limits) (e : ℕ) (m : ℤ) (w : Watcher) → Grows w (stop l e m w)
unfolding stop
stop-Grows l e m w =
    let w1 = check_exit l e m w in
    let w2 = check_clone e w1 in
    let w3 = check_exec e w2 in
    let w4 = check_cputime e w3 in
    Grows-trans w w1 (stop l e m w) (check_exit-Grows l e m w) (
      Grows-trans w1 w2 (stop l e m w) (check_clone-Grows e w1) (
        Grows-trans w2 w3 (stop l e m w) (check_exec-Grows e w2) (
          Grows-trans w3 w4 (stop l e m w) (check_cputime-Grows e w3)
            (check_memory-Grows l e m w4))))

watcher_sig_handler-Grows :
    (s : Signal) (fails : Bool) (w : Watcher) → Grows w (watcher_sig_handler s fails w)
unfolding watcher_sig_handler
watcher_sig_handler-Grows s fails w = record {
  xcpu = λ h. ground (arith, h);
  mem = λ h. ground (arith, h);
  dead = λ h. ground (arith, h);
}

handle_all-Grows : (signals : List (Signal × Bool)) (w : Watcher) → Grows w (handle_all signals w)
handle_all-Grows [] w = Grows-refl w
handle_all-Grows ((s, fails) ∷ signals) w =
    let v = watcher_sig_handler s fails w in
    Grows-trans w v (handle_all signals v) (watcher_sig_handler-Grows s fails w)
      (handle_all-Grows signals v)

-- The state in the outcome, where there is one.
abbrev pub After : Outcome → (Watcher → Type 0) → Type 0
After (watches w) P = P w
After (leaves w) P = P w
After (exits code) P = Unit

check_status-Grows : (l : Limits) (s : Status) (w : Watcher) → After (check_status l s w) (Grows w)
unfolding check_status
check_status-Grows l no_change w = Grows-refl w
check_status-Grows l wait_failed w = tt
check_status-Grows l exited w = Grows-refl w
check_status-Grows l killed w = record { xcpu = λ h. h; mem = λ h. h; dead = λ h. refl }
check_status-Grows l other_status w = Grows-refl w
check_status-Grows l (stopped e m) w = stop-Grows l e m w

feed_binary-Grows :
    (l : Limits) (feed : Spliced) (w w' : Watcher) → feed_binary l feed w ≡ some w' → Grows w w'
unfolding feed_binary
feed_binary-Grows l splice_failed w w' e =
    elim (Bool-cases (ltb w.splice_size_acc l.datasource_size)) [
      | inl due ↦ absurd (ground (arith, e, due))
      | inr done ↦
          same_flags w w' (ground (arith, e, done)) (ground (arith, e, done))
            (ground (arith, e, done))
    ]
feed_binary-Grows l splice_again w w' e =
    same_flags w w' (ground (arith, e)) (ground (arith, e)) (ground (arith, e))
feed_binary-Grows l (spliced n) w w' e =
    same_flags w w' (ground (arith, e)) (ground (arith, e)) (ground (arith, e))

-- What holds of the state at the status holds behind the turn.
turn-After :
    (P : Watcher → Type 0) (l : Limits) (t : Turn) (w : Watcher)
    → ((w' : Watcher) → Grows w w' → After (check_status l t.status w') P)
    → After (turn l t w) P
unfolding turn
turn-After P l t w h =
    let v = handle_all t.signals w in
    elim (Option-cases (feed_binary l t.feed v)) [
      | inl broken ↦ rw (turn, broken) tt
      | inr (w', e) ↦
          rw (turn, e)
            (h w' (
              Grows-trans w v w' (handle_all-Grows t.signals w)
                (feed_binary-Grows l t.feed v w' e)))
    ]

leaves_cancel : {v w : Watcher} → leaves v ≡ leaves w → v ≡ w
leaves_cancel e = ground (arith, e)

After-map :
    (o : Outcome) (P Q : Watcher → Type 0) → ((w : Watcher) → P w → Q w) → After o P → After o Q
After-map (watches w) P Q f h = f w h
After-map (leaves w) P Q f h = f w h
After-map (exits code) P Q f h = tt

turn-Grows : (l : Limits) (t : Turn) (w : Watcher) → After (turn l t w) (Grows w)
turn-Grows l t w = turn-After (Grows w) l t w (λ w' g.
    After-map (check_status l t.status w') (Grows w') (Grows w) (λ v h. Grows-trans w w' v g h)
      (check_status-Grows l t.status w'))

-- A property that lasts, from the outcome of a turn on.
onward :
    (P : Watcher → Type 0) (l : Limits) (t : Turn) (turns : List Turn) (w w' : Watcher)
    (o : Outcome)
    → ((v : Watcher) → P v → watch l turns v ≡ leaves w' → P w')
    → turn l t w ≡ o
    → After o P
    → watch l (t ∷ turns) w ≡ leaves w'
    → P w'
unfolding watch
onward P l t turns w w' (watches v) ih run h e = ih v h (sym (rw (watch, run) refl) ∙ e)
onward P l t turns w w' (leaves v) ih run h e =
    let last : leaves v ≡ leaves w' = sym (rw (watch, run) refl) ∙ e in
    subst P (leaves_cancel last) h
onward P l t turns w w' (exits code) ih run h e = absurd (ground (arith, run, e))

lasts :
    (P : Watcher → Type 0)
    → ((u v : Watcher) → Grows u v → P u → P v)
    → (l : Limits) (turns : List Turn) (w w' : Watcher) → P w
    → watch l turns w ≡ leaves w'
    → P w'
unfolding watch
lasts P keep l [] w w' h e = absurd (ground (arith, e))
lasts P keep l (t ∷ turns) w w' h e =
    onward P l t turns w w' (turn l t w) (λ v. lasts P keep l turns v w') refl
      (After-map (turn l t w) (Grows w) P (λ v g. keep w v g h) (turn-Grows l t w)) e

-- A turn that makes a property true which lasts.
pub from_turn :
    (P : Watcher → Type 0)
    → ((u v : Watcher) → Grows u v → P u → P v)
    → (l : Limits) (t : Turn) (turns : List Turn) (w w' : Watcher)
    → ((v : Watcher) → After (check_status l t.status v) P)
    → watch l (t ∷ turns) w ≡ leaves w'
    → P w'
from_turn P keep l t turns w w' h e =
    onward P l t turns w w' (turn l t w) (λ v. lasts P keep l turns v w') refl
      (turn-After P l t w (λ v _. h v)) e
