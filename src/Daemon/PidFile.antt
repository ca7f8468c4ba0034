-- ===== src/Daemon/PidFile.antt =====
-- The pid file, as it is written and as it is read.
use kudos_judge.Base.{
  c_string, ℕ, false, ◌+◌, ◌<◌, ◌≡◌, refl, ap, ◌∙◌, [], ◌∷◌, ◌++◌, append_assoc, Bytes, All, length,
  length-append, take, take_all, drop, arith, pos, ok, ltb,
}
use kudos_judge.Daemon.{read_pid}
use kudos_judge.Decimal.RoundTrip.{IsDigit, decimal-All, atoi-decimal}
use kudos_judge.Decimal.{decimal, atoi}

-- `sprintf(tmppid_str,"%d",…)` and the terminator, as `fwrite` gets it.
abbrev pub pid_text : ℕ → Bytes
pid_text pid = decimal pid ++ (0 ∷ [])

c_string-digits : (s t : Bytes) → All IsDigit s → c_string (s ++ (0 ∷ t)) ≡ s
c_string-digits [] t h = refl
c_string-digits (c ∷ s) t h = ground (arith, c_string-digits s t h.1)

-- A pid of at most nine digits comes back from the pid file, whatever the array held before.
pub read_pid-pid_text :
    (old : Bytes) (pid : ℕ) → length (decimal pid) < 10 → read_pid old (pid_text pid) ≡ ok (pos pid)
unfolding read_pid
read_pid-pid_text old pid h =
    let measured : length (pid_text pid) ≡ length (decimal pid) + 1 =
      length-append (decimal pid) (0 ∷ []) in
    let whole : take 50 (pid_text pid) ≡ pid_text pid =
      take_all 50 (pid_text pid) (omega (arith, measured)) in
    let fits : ltb 10 (length (pid_text pid)) ≡ false = ground (arith, measured) in
    let behind = drop (length (pid_text pid)) (take 10 old) in
    let text : c_string (pid_text pid ++ behind) ≡ decimal pid =
      ap c_string (append_assoc (decimal pid) (0 ∷ []) behind)
      ∙ c_string-digits (decimal pid) behind (decimal-All pid) in
    rw (whole, fits) (ap (λ s. ok (atoi s)) text ∙ ap ok (atoi-decimal pid))
