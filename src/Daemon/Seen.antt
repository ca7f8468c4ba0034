-- ===== src/Daemon/Seen.antt =====
-- What `main` has seen of a daemon, and the pid file and the process behind it.
use kudos_judge.Base.{
  ◌≡◌, ◌⊎◌, refl, sym, ap, ◌∙◌, inl, inr, Bool, true, false, none, some, ℤ, ok, ◌>>=◌, >>=-eq-ok,
  ok_cancel, arith, Bool-cases,
}
use kudos_judge.Daemon.{
  Stat, found, missing, denied, Host, read_pid, seen, by_process, inspect_file, inspect,
}

by_process-seen :
    (p : ℤ) (st : Stat) (exists : Bool) (pid : ℤ)
    → by_process p st ≡ seen exists (some pid)
    → (p ≡ pid) × (st ≡ found)
by_process-seen p found exists pid e = (cc, refl)
by_process-seen p missing exists pid e = cc
by_process-seen p denied exists pid e = cc

pub inspect_file-seen :
    (h : Host) (st : Stat) (exists : Bool) (pid : ℤ)
    → inspect_file h st ≡ ok (seen exists (some pid))
    → h.process pid ≡ found
unfolding inspect_file
inspect_file-seen h denied exists pid e = cc
inspect_file-seen h missing exists pid e = cc
inspect_file-seen h found exists pid e = elim (Bool-cases h.opens) [
  | inr shut ↦ absurd (ground (arith, e, shut))
  | inl opens ↦
      let reads : inspect_file h found
          ≡ (read_pid h.old h.content >>= (λ p. ok (by_process p (h.process p)))) =
        rw opens refl in
      let (p, _, e) = >>=-eq-ok (read_pid h.old h.content) _ (sym reads ∙ e) in
      let (same, there) = by_process-seen p (h.process p) exists pid (ok_cancel e) in
      sym (ap h.process same) ∙ there
]

-- There is a pid file, of a process that does not run.
abbrev pub Stale : Host → Type 0
Stale h =
    (h.pid_stat ≡ found)
    × (h.opens ≡ true)
    × ((pid : ℤ) × (read_pid h.old h.content ≡ ok pid) × (h.process pid ≡ missing))

by_process-none :
    (p : ℤ) (st : Stat) (exists : Bool)
    → by_process p st ≡ seen exists none
    → (st ≡ missing) × (exists ≡ true)
by_process-none p found exists e = cc
by_process-none p missing exists e = (refl, cc)
by_process-none p denied exists e = cc

-- What is seen without a process, by the file.
inspect_file-none :
    (h : Host) (st : Stat) (exists : Bool)
    → inspect_file h st ≡ ok (seen exists none)
    → h.pid_stat ≡ st
    → ((exists ≡ false) × (h.pid_stat ≡ missing)) ⊎ ((exists ≡ true) × Stale h)
unfolding inspect_file
inspect_file-none h denied exists e at = cc
inspect_file-none h missing exists e at = inl (cc, at)
inspect_file-none h found exists e at = elim (Bool-cases h.opens) [
  | inr shut ↦ absurd (ground (arith, e, shut))
  | inl opens ↦
      let reads : inspect_file h found
          ≡ (read_pid h.old h.content >>= (λ p. ok (by_process p (h.process p)))) =
        rw opens refl in
      let (p, text, e) = >>=-eq-ok (read_pid h.old h.content) _ (sym reads ∙ e) in
      let (gone, there) = by_process-none p (h.process p) exists (ok_cancel e) in
      inr (there, (at, opens, (p, text, gone)))
]

pub inspect-none :
    (h : Host) (exists : Bool)
    → inspect h ≡ ok (seen exists none)
    → ((exists ≡ false) × (h.pid_stat ≡ missing)) ⊎ ((exists ≡ true) × Stale h)
unfolding inspect
inspect-none h exists e = inspect_file-none h h.pid_stat exists e refl

pub missing-inspect : (h : Host) → h.pid_stat ≡ missing → inspect h ≡ ok (seen false none)
unfolding inspect inspect_file
missing-inspect h at = rw at refl

pub Stale-inspect : (h : Host) → Stale h → inspect h ≡ ok (seen true none)
unfolding inspect inspect_file
Stale-inspect h (at, opens, (p, text, gone)) =
    simp (inspect, inspect_file, at, opens, text, gone, by_process, ◌>>=◌)
