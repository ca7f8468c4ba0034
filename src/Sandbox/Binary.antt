-- ===== src/Sandbox/Binary.antt =====
-- The process of the submission in sandbox.c: `jug_sandbox_binary` up to the execution, the reading of
-- its memory, and the names of the results.
mod Tests
use kudos_judge.Base.{
  ℕ, suc, ◌+◌, ◌*◌, ◌/◌, ◌%◌, ◌^◌, get_elem?, Bool, true, false, not, Option, none, some, List, [],
  ◌∷◌, Bytes, leb, length, if◌then◌else◌, ℤ, pos, negsuc, to_size_t, minus, Result, ok, fault,
}
use kudos_judge.Decimal.{atoi}
use kudos_judge.Runner.Result.{SandboxResult}
use kudos_judge.Sandbox.Life.{value_of}
use kudos_judge.Verdict.{codes}

-- What the system answers, each `Bool` whether the call works.
pub record BinaryCalls : Type 0 where
  pub traceme : Bool
  pub limit_cputime : Bool
  pub limit_memory : Bool
  pub setuid : Bool
  pub exec : Bool

-- The binary runs with these limits of its processor time in seconds, or the process ends.
pub data Execution : Type 0 where
  runs : (rlim_cur rlim_max : ℕ) → Execution
  ends : ℤ → Execution

-- The quotient of an `int`, towards 0.
abbrev seconds : ℤ → ℤ
seconds (pos n) = pos (n / 1000)
seconds (negsuc n) = minus (pos (suc n / 1000))

-- A process that is not traced reads through a pointer that was never set. The user nobody is taken
-- to be there.
unfoldable pub sandbox_binary : BinaryCalls → ℤ → Result Execution
sandbox_binary c time_limit_ms =
    let cur = to_size_t (seconds time_limit_ms) in
    if not c.traceme
    then fault
    else if not c.limit_cputime
    then ok (ends (pos 100))
    else if not c.limit_memory
    then ok (ends (pos 101))
    else if c.setuid
    then ok (ends (pos 113))
    else if c.exec
    then ok (runs cur ((cur + 2) % 2 ^ 64))
    else ok (ends (negsuc 998))

-- The memory in bytes, from the text of /proc/<pid>/statm, if it opens and can be read. `old` is what
-- the variable for the pages holds before, where the text is empty.
unfoldable pub memory_usage : ℕ → ℕ → Option (Option Bytes) → Result ℤ
unfolding atoi
memory_usage old page_size none = ok (negsuc 0)
memory_usage old page_size (some none) = ok (negsuc 1)
memory_usage old page_size (some (some [])) = ok (pos (old * page_size))
memory_usage old page_size (some (some (c ∷ text))) =
    if leb 200 (length (c ∷ text)) then fault else elim (atoi (c ∷ text)) [
      | pos pages ↦ ok (pos (pages * page_size))
      | negsuc n ↦ ok (minus (pos (suc n * page_size)))
    ]

abbrev strings : List Bytes
strings =
    codes "CORRECT ANSWER"
    ∷ codes "WRONG ANSWER"
    ∷ codes "TIME LIMIT EXCEEDED"
    ∷ codes "WALL TIME LIMIT EXCEEDED"
    ∷ codes "MEMORY LIMIT EXCEEDED"
    ∷ codes "OUTPUT SIZE LIMIT EXCEEDED"
    ∷ codes "RUNTIME ERROR"
    ∷ codes "PIPE ERROR"
    ∷ codes "COMPARING FUNCTION ERROR"
    ∷ codes "UNKNOWN ERROR"
    ∷ []

-- The array has 12 pointers, of which the last two are NULL.
unfoldable pub result_str : SandboxResult → Result (Option Bytes)
unfolding value_of
result_str result = elim (get_elem? strings (value_of result)) [
  | some text ↦ ok (some text)
  | none ↦ if leb 12 (value_of result) then fault else ok none
]
