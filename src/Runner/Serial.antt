-- ===== src/Runner/Serial.antt =====
-- The request to the template process: runner.c lays `clone_child_params` out as one run of bytes
-- (`jug_runner_template_serialize`) and reads it back (`jug_runner_template_unserialize`). An
-- `int` has four bytes, the lowest first.
pub mod RoundTrip
use kudos_judge.Base.{
  ℕ, zero, suc, ◌+◌, ◌*◌, ◌/◌, ◌%◌, ◌^◌, Result, ok, fault, ◌>>=◌, List, [], ◌∷◌, ◌++◌, Bytes, ltb,
  leb, ◌==◌, if◌then◌else◌, length, take, drop,
}

-- `clone_child_params`: the two structs as the bytes that `memcpy` takes of them, pointers and all,
-- the path and the arguments without their terminators.
pub record CloneChildParams : Type 0 where
  pub run_params_struct : Bytes
  pub sandbox_struct : Bytes
  pub binary_path : Bytes
  pub argv : List Bytes

abbrev pub sizeof_int : ℕ
sizeof_int = 4

-- TEMPLATE_MAX_TX, the room that the template process copies a request to
abbrev pub template_max_tx : ℕ
template_max_tx = 1024

-- The size given to `shmget`: a state, a length and a request lie in the shared memory.
abbrev pub shm_size : ℕ
shm_size = 2028

-- The bytes of an `int`.
unfoldable pub int_bytes : ℕ → Bytes
int_bytes n = n % 256 ∷ n / 256 % 256 ∷ n / 65536 % 256 ∷ n / 16777216 % 256 ∷ []

-- A string with its terminator.
abbrev pub terminated : Bytes → Bytes
terminated s = s ++ (0 ∷ [])

unfoldable pub argv_bytes : List Bytes → Bytes
argv_bytes [] = []
argv_bytes (arg ∷ args) = terminated arg ++ argv_bytes args

-- The bytes that are written, in their order.
unfoldable pub serialize : CloneChildParams → Bytes
unfolding int_bytes argv_bytes
serialize ccp =
    ccp.run_params_struct
    ++ (ccp.sandbox_struct
        ++ (terminated ccp.binary_path ++ (int_bytes (length ccp.argv) ++ argv_bytes ccp.argv)))

-- The lengths of the arguments, counted for `sz`.
unfoldable pub argv_size : List Bytes → ℕ
argv_size [] = 0
argv_size (arg ∷ args) = (length arg + 1) + argv_size args

module _ (sizeof_run_params sizeof_sandbox : ℕ) where
  -- `sz`, the bytes that are allocated and returned.
  unfoldable pub serial_size : CloneChildParams → ℕ
  unfolding argv_size
  serial_size ccp =
      sizeof_run_params
      + sizeof_sandbox
      + (length ccp.binary_path + 1)
      + argv_size ccp.argv
      + sizeof_int

-- `memcpy` of `n` bytes, with what lies behind them; a read past the end is a fault.
unfoldable pub memcpy : ℕ → Bytes → Result (Bytes × Bytes)
memcpy n s = if leb n (length s) then ok (take n s, drop n s) else fault

-- A string up to its terminator, and what lies behind it.
unfoldable pub string_at : Bytes → Result (Bytes × Bytes)
string_at [] = fault
string_at (c ∷ s) =
    let more = string_at s in
    if c == 0 then ok ([], s) else (do (text, behind) ← more; ok (c ∷ text, behind))

-- The value of four bytes. Where the `int` is negative no `argv` can be allocated.
unfoldable pub int_at : Bytes → Result (ℕ × Bytes)
int_at (a ∷ b ∷ c ∷ d ∷ s) =
    if ltb d 128 then ok (a + 256 * b + 65536 * c + 16777216 * d, s) else fault
int_at _ = fault

unfoldable pub argv_at : ℕ → Bytes → Result (List Bytes)
argv_at zero s = ok []
argv_at (suc argc) s = do (arg, behind) ← string_at s; args ← argv_at argc behind; ok (arg ∷ args)

module _ (sizeof_run_params sizeof_sandbox : ℕ) where
  unfoldable pub unserialize : Bytes → Result CloneChildParams
  unfolding memcpy string_at int_at argv_at
  unserialize serial = do
    (run_params, at_sandbox) ← memcpy sizeof_run_params serial
    (sandbox, at_path) ← memcpy sizeof_sandbox at_sandbox
    (path, at_argc) ← string_at at_path
    (argc, at_argv) ← int_at at_argc
    args ← argv_at argc at_argv
    ok (record {
      run_params_struct = run_params;
      sandbox_struct = sandbox;
      binary_path = path;
      argv = args;
    })
