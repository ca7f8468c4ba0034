-- ===== src/Sandbox/Binary/Tests.antt =====
-- The process of a submission with 3 seconds, and one page of memory.
use kudos_judge.Base.{◌≡◌, refl, true, false, some, ok, pos}
use kudos_judge.Decimal.{atoi}
use kudos_judge.Runner.Result.{js_outputlimit}
use kudos_judge.Sandbox.Binary.{BinaryCalls, runs, sandbox_binary, memory_usage, result_str}
use kudos_judge.Sandbox.Life.{value_of}
use kudos_judge.Verdict.{codes}

abbrev calls : BinaryCalls
calls = record {
  traceme = true;
  limit_cputime = true;
  limit_memory = true;
  setuid = false;
  exec = true;
}

three_seconds : sandbox_binary calls (pos 3500) ≡ ok (runs 3 5)
unfolding sandbox_binary
three_seconds = refl

one_page : memory_usage 0 4096 (some (some (codes "1 1 0 0 0 0 0\n"))) ≡ ok (pos 4096)
unfolding memory_usage atoi
one_page = refl

output_limit : result_str js_outputlimit ≡ ok (some (codes "OUTPUT SIZE LIMIT EXCEEDED"))
unfolding result_str value_of
output_limit = refl
