-- ===== src/Runner/Launch.antt =====
-- The head of `jug_runner_run` of runner.c: the limits, the pipes and the request to the template
-- process, up to the checks before the loop.
pub mod Handed
use kudos_judge.Base.{
  ℕ, Bool, false, ◌==◌, Option, none, some, List, [], ◌∷◌, Bytes, if◌then◌else◌, not, ℤ, pos,
  negsuc, is_negative, Result, ok, error,
}
use kudos_judge.Runner.Result.{SandboxResult}
use kudos_judge.Runner.Serial.{CloneChildParams, serialize}
use kudos_judge.Start.{SandboxSettings}

-- A pipe: PIPE_READFROM and PIPE_WRITETO.
pub record Pipe : Type 0 where
  pub read_from : ℤ
  pub write_to : ℤ

-- `run_params` of sandbox.h; `none` is a field that was never set. What comes of a run is in Run.
pub record RunParams : Type 0 where
  pub mem_limit_mb : ℤ
  pub time_limit_ms : ℤ
  pub fd_datasource : ℤ
  pub fd_datasource_dir : Option ℤ
  pub datasource_size : ℕ
  pub fd_output_ref : ℤ
  pub watcher_pid : Option ℤ
  pub out_pipe : Option Pipe
  pub in_pipe : Option Pipe
  pub thread_order : ℕ

-- What a run finds.
pub record Launcher : Type 0 where
  -- `jug_sandbox_global()`
  pub sandbox : SandboxSettings
  -- `io_pipes_out` and `io_pipes_in`
  pub io_pipes_out : ℕ → Pipe
  pub io_pipes_in : ℕ → Pipe
  -- the bytes of the structs, as the compiler lays them out
  pub run_params_bytes : RunParams → Bytes
  pub sandbox_bytes : SandboxSettings → Bytes
  -- `jug_runner_template_clone`
  pub template_clone : Bytes → ℤ
  -- `fcntl(fd,F_GETFD)` does not fail
  pub is_valid : ℤ → Bool

-- A limit below 0 is not specified.
abbrev pub limit : ℤ → ℤ → ℤ
limit given by_default = if is_negative given then by_default else given

unfoldable pub prepare : Launcher → ℕ → RunParams → RunParams
prepare l thread_order p = record p {
  mem_limit_mb = limit p.mem_limit_mb l.sandbox.mem_limit_mb_default;
  time_limit_ms = limit p.time_limit_ms l.sandbox.time_limit_ms_default;
  fd_datasource_dir = some (pos 1);
  out_pipe = some (l.io_pipes_out thread_order);
  in_pipe = some (l.io_pipes_in thread_order);
}

abbrev pub child_params : Launcher → RunParams → Bytes → List Bytes → CloneChildParams
child_params l p binary_path argv = record {
  run_params_struct = l.run_params_bytes p;
  sandbox_struct = l.sandbox_bytes l.sandbox;
  binary_path = binary_path;
  argv = argv;
}

-- What is asked of the template process.
abbrev pub clone_request : Launcher → ℕ → RunParams → Bytes → List Bytes → Bytes
clone_request l thread_order p binary_path argv =
    serialize (child_params l (prepare l thread_order p) binary_path argv)

abbrev pub is_clone_error : ℤ → Bool
is_clone_error pid = elim pid [ pos n ↦ false | negsuc n ↦ n == 0 ]

-- `jug_runner_run` before its loop: the parameters, or its error.
unfoldable pub launch : Launcher → ℕ → RunParams → Bytes → List Bytes → Result RunParams
unfolding prepare
launch l thread_order p binary_path argv =
    let pid = l.template_clone (clone_request l thread_order p binary_path argv) in
    if is_clone_error pid
    then error (negsuc 1)
    else if not (l.is_valid (l.io_pipes_in thread_order).write_to)
    then error (negsuc 2)
    else if not (l.is_valid p.fd_datasource)
    then error (negsuc 2)
    else ok (record (prepare l thread_order p) { watcher_pid = some pid })

-- `runp` of `jug_runner_judge`, with the size that `stat` gives.
abbrev pub run_params : ℤ → ℤ → ℕ → ℕ → RunParams
run_params infd rightfd thread_id st_size = record {
  mem_limit_mb = negsuc 0;
  time_limit_ms = negsuc 0;
  fd_datasource = infd;
  fd_datasource_dir = none;
  datasource_size = st_size;
  fd_output_ref = rightfd;
  watcher_pid = none;
  out_pipe = none;
  in_pipe = none;
  thread_order = thread_id;
}
