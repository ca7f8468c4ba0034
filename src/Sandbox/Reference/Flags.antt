-- ===== src/Sandbox/Reference/Flags.antt =====
-- The flags that a stop adds.
use kudos_judge.Base.{
  ◌≡◌, refl, sym, ap, ◌∙◌, Bool, true, false, ◌&&◌, ◌||◌, not, ℕ, ◌==◌, if◌then◌else◌, ℤ, pos,
  negsuc,
}
use kudos_judge.Sandbox.{
  Watcher, Status, stopped, Limits, check_exit, check_clone, check_exec, check_cputime,
  check_memory, stop, stop_sig, sigsegv, sigxcpu, is_event, ptrace_event_exec,
}
use kudos_judge.Sandbox.Verdicts.{forbidden}
use kudos_judge.Sandbox.Reference.{over_time, segfault, over_at_exit, full, over_memory, condemned}

pub or_true : (b : Bool) → (b || true) ≡ true
or_true true = refl
or_true false = refl

pub or_false : (b : Bool) → (b || false) ≡ b
or_false true = refl
or_false false = refl

pub or_assoc : (a b c : Bool) → ((a || b) || c) ≡ (a || (b || c))
or_assoc true b c = refl
or_assoc false b c = refl

-- The tests of a stop, each as the flag that it adds to.
noted_mem :
    (c : Bool) (w : Watcher)
    → (if c then record w { mem_limit_exceeded = true } else w)
      ≡ record w { mem_limit_exceeded = w.mem_limit_exceeded || c }
noted_mem true w =
    ap (λ b. record w { mem_limit_exceeded = b }) (sym (or_true w.mem_limit_exceeded))
noted_mem false w =
    ap (λ b. record w { mem_limit_exceeded = b }) (sym (or_false w.mem_limit_exceeded))

noted_dead :
    (c : Bool) (w : Watcher)
    → (if c then record w { bin_killed = true } else w)
      ≡ record w { bin_killed = w.bin_killed || c }
noted_dead true w = ap (λ b. record w { bin_killed = b }) (sym (or_true w.bin_killed))
noted_dead false w = ap (λ b. record w { bin_killed = b }) (sym (or_false w.bin_killed))

noted_xcpu :
    (c : Bool) (w : Watcher)
    → (if c && not w.sigxcpu_received then record w { sigxcpu_received = true } else w)
      ≡ record w { sigxcpu_received = w.sigxcpu_received || c }
noted_xcpu false w = ap (λ b. record w { sigxcpu_received = b }) (sym (or_false w.sigxcpu_received))
noted_xcpu true w = by_flag w.sigxcpu_received refl
  where
    by_flag :
        (b : Bool)
        → w.sigxcpu_received ≡ b
        → (if true && not b then record w { sigxcpu_received = true } else w)
          ≡ record w { sigxcpu_received = b || true }
    by_flag true e = ap (λ b. record w { sigxcpu_received = b }) e
    by_flag false e = refl

-- What a stop adds to the flags.
abbrev pub stopped_flags : Limits → Status → Watcher → Watcher
stopped_flags l s w = record w {
  mem_limit_exceeded = w.mem_limit_exceeded || over_memory l s;
  sigxcpu_received = w.sigxcpu_received || over_time s;
  sigsegv_received = w.sigsegv_received || segfault s;
  bin_killed = w.bin_killed || condemned s;
}

check_clone-noted :
    (e : ℕ) (w : Watcher)
    → check_exec e (check_clone e w) ≡ record w { bin_killed = w.bin_killed || forbidden e }
unfolding check_clone check_exec
check_clone-noted e w =
    noted_dead _ (check_clone e w)
    ∙ ap (λ (v : Watcher). record v { bin_killed = v.bin_killed || is_event e ptrace_event_exec })
        (noted_dead _ w)
    ∙ ap (λ b. record w { bin_killed = b }) (or_assoc w.bin_killed _ _)

check_cputime-noted :
    (e : ℕ) (w : Watcher)
    → check_cputime e w
      ≡ record w { sigxcpu_received = w.sigxcpu_received || (stop_sig e == sigxcpu) }
unfolding check_cputime
check_cputime-noted e w = noted_xcpu (stop_sig e == sigxcpu) w

check_exit-noted :
    (l : Limits) (e : ℕ) (mem : ℤ) (w : Watcher)
    → check_exit l e mem w
      ≡ record w { mem_limit_exceeded = w.mem_limit_exceeded || over_at_exit l e mem }
unfolding check_exit
check_exit-noted l e (pos mem) w = noted_mem (over_at_exit l e (pos mem)) w
check_exit-noted l e (negsuc mem) w =
    ap (λ b. record w { mem_limit_exceeded = b }) (sym (or_false w.mem_limit_exceeded))

-- SIGSEGV, and whether the limit is reached.
noted_segv :
    (c r : Bool) (w : Watcher)
    → (if c
        then (if r
            then record w { sigsegv_received = true; mem_limit_exceeded = true }
            else record w { sigsegv_received = true })
        else w)
      ≡ record w {
        sigsegv_received = w.sigsegv_received || c;
        mem_limit_exceeded = w.mem_limit_exceeded || (c && r);
      }
noted_segv true true w = rw (or_true w.sigsegv_received, or_true w.mem_limit_exceeded) refl
noted_segv true false w = rw (or_true w.sigsegv_received, or_false w.mem_limit_exceeded) refl
noted_segv false r w = rw (or_false w.sigsegv_received, or_false w.mem_limit_exceeded) refl

check_memory-noted :
    (l : Limits) (e : ℕ) (mem : ℤ) (w : Watcher)
    → check_memory l e mem w ≡ record w {
      sigsegv_received = w.sigsegv_received || (stop_sig e == sigsegv);
      mem_limit_exceeded = w.mem_limit_exceeded || (stop_sig e == sigsegv && full l mem);
    }
unfolding check_memory
check_memory-noted l e (pos mem) w = noted_segv (stop_sig e == sigsegv) (full l (pos mem)) w
check_memory-noted l e (negsuc mem) w = noted_segv (stop_sig e == sigsegv) false w

pub stop-noted :
    (l : Limits) (e : ℕ) (mem : ℤ) (w : Watcher)
    → stop l e mem w ≡ stopped_flags l (stopped e mem) w
unfolding stop
stop-noted l e mem w =
    let v1 : Watcher = record w {
      mem_limit_exceeded = w.mem_limit_exceeded || over_at_exit l e mem;
    } in
    let v2 : Watcher = record v1 { bin_killed = w.bin_killed || forbidden e } in
    let v3 : Watcher = record v2 {
      sigxcpu_received = w.sigxcpu_received || (stop_sig e == sigxcpu);
    } in
    let segv = stop_sig e == sigsegv in
    ap (λ v. check_memory l e mem (check_cputime e (check_exec e (check_clone e v))))
      (check_exit-noted l e mem w)
    ∙ ap (λ v. check_memory l e mem (check_cputime e v)) (check_clone-noted e v1)
    ∙ ap (check_memory l e mem) (check_cputime-noted e v2)
    ∙ check_memory-noted l e mem v3
    ∙ ap (λ b. record v3 { sigsegv_received = w.sigsegv_received || segv; mem_limit_exceeded = b })
        (or_assoc w.mem_limit_exceeded (over_at_exit l e mem) (segv && full l mem))
