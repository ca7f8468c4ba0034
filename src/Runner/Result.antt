-- ===== src/Runner/Result.antt =====
-- `jug_sandbox_result` of sandbox.h, and its values as exit codes.
use kudos_judge.Base.{ℕ, none, some, List, [], ◌∷◌, get_elem?}

-- The constants, and a value of the type that is none of them.
pub data SandboxResult : Type 0 where
  js_correct js_wrong js_timelimit js_wall_timelimit js_memlimit js_outputlimit js_runtime :
      SandboxResult
  js_pipe_error js_comp_error js_unknown : SandboxResult
  unnamed : ℕ → SandboxResult

-- The constants in the order of their values.
abbrev results : List SandboxResult
results =
    js_correct ∷ js_wrong ∷ js_timelimit ∷ js_wall_timelimit ∷ js_memlimit ∷ js_outputlimit
    ∷ js_runtime ∷ js_pipe_error ∷ js_comp_error ∷ js_unknown ∷ []

-- `(jug_sandbox_result)exit_code`
unfoldable pub result_of : ℕ → SandboxResult
result_of n = elim (get_elem? results n) [ some result ↦ result | none ↦ unnamed n ]
