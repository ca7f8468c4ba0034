-- ===== src/Daemon/Wait.antt =====
-- How the process that starts the daemon waits for it, in `main` of kudosd.c.
use kudos_judge.Base.{ℕ, Bool, not, List, [], ◌∷◌, Bytes, if◌then◌else◌, ℤ, Result, ok, ◌>>=◌}
use kudos_judge.Daemon.{Stat, found, missing, denied, read_pid}

-- What the process that was started waits for: the file within 10 seconds, and what it reads of it
-- until there is something.
pub record Waiting : Type 0 where
  pub appears : Bool
  pub opens : Bool
  pub reads : List Bytes
  pub old : Bytes
  pub process : ℤ → Stat

pub data Waited : Type 0 where
  stops_with : ℕ → Waited
  started : ℤ → Waited
  not_started : Waited
  reads_on : Waited

abbrev pub reported : ℤ → Stat → Waited
reported pid found = started pid
reported pid missing = not_started
reported pid denied = stops_with 5

unfoldable pub read_file : Waiting → List Bytes → Result Waited
unfolding read_pid
read_file w [] = ok reads_on
read_file w ([] ∷ more) = read_file w more
read_file w ((c ∷ s) ∷ more) = do pid ← read_pid w.old (c ∷ s); ok (reported pid (w.process pid))

unfoldable pub await_daemon : Waiting → Result Waited
unfolding read_file
await_daemon w =
    if not w.appears
    then ok (stops_with 12)
    else if not w.opens
    then ok (stops_with 10)
    else read_file w w.reads
