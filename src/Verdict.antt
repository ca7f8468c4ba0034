-- ===== src/Verdict.antt =====
-- def.h and `jug_int_verdict_to_string` of interface.c: the verdicts and their names on the wire.
use Prim.Native.Char.{code}
use Prim.Native.String.{String}
use kudos_judge.Base.{[], ◌∷◌, Bytes}

-- `jug_verdict_enum`
pub data Verdict : Type 0 where
  accepted wrong compile_error timelimit memlimit outputlimit runtime internal : Verdict

-- The code points of a text, which are its bytes where it is ASCII.
abbrev pub codes : String → Bytes
codes String.[] = []
codes (String.◌∷◌ c s) = code c ∷ codes s

-- `jug_int_verdict_to_string`
unfoldable pub verdict_to_string : Verdict → Bytes
verdict_to_string accepted = codes "ACCEPTED"
verdict_to_string wrong = codes "WRONG ANSWER"
verdict_to_string compile_error = codes "COMPILING ERROR"
verdict_to_string timelimit = codes "TIME LIMIT EXCEEDED"
verdict_to_string memlimit = codes "MEMORY LIMIT EXCEEDED"
verdict_to_string outputlimit = codes "OUTPUT LIMIT EXCEEDED"
verdict_to_string runtime = codes "RUNTIME ERROR"
verdict_to_string internal = codes "INTERNAL ERROR"
